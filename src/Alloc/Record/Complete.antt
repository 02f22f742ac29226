-- ===== src/Alloc/Record/Complete.antt =====
-- `find_run` finds a run where there is one.
use fs.Prelude.{
  ℕ, zero, suc, ◌+◌, ◌-◌, ◌≤◌, ◌<◌, ◌≡◌, ◌≢◌, refl, ap, sym, subst, ◌∙◌, inl, inr, Bool, true,
  false, Option, some, none, ok, >>=-eq-ok, ◌==◌, if◌then◌else◌, le_or_lt, Option-cases, step,
  length, get_or, [], ◌∷◌, ◌/◌, ◌%◌, ◌*◌, arith,
}
use fs.Fmt.Bytes.{Bytes, get_prefix}
use fs.Fmt.Bytes.Laws.{get_byte-eq-get_or}
use fs.Fmt.Cells.{cell_free, cell_get, get_bits}
use fs.Alloc.Record.{alloc_fanout, rec_state, run_from, find_run}
use fs.Alloc.Record.Runs.{Has, AllFree, find_run-AllFree}

AllFree-at :
    (rec : Bytes) (start m i : ℕ)
    → AllFree rec start m
    → start ≤ i
    → i < start + m
    → Has rec cell_free i
AllFree-at rec start zero i all lo hi = absurd (omega arith)
AllFree-at rec start (suc m) i all lo hi = elim (le_or_lt i start) [
  | inl le ↦ subst (Has rec cell_free) (let e : start ≡ i = omega arith in e) all.0
  | inr lt ↦ AllFree-at rec (suc start) m i all.1 (omega arith) (omega arith)
]

-- The loop with a run before it that begins no later than a run of FREE children to be found.
run_from_complete :
    (rec : Bytes) (m start i run n : ℕ)
    → AllFree rec start m
    → run < m
    → i ≤ start + run
    → start + m ≤ i + n
    → run_from rec m i run n ≢ ok none
unfolding run_from
run_from_complete rec m start i run zero all short le fits h = omega arith
run_from_complete rec m start i run (suc n) all short le fits h =
    let (st, at, rest) = >>=-eq-ok (rec_state rec i) _ h in
    split st (st == cell_free) (run + 1 == m)
      (λ p. run_from_complete rec m start (suc i) (run + 1) n all p (omega arith) (omega arith))
      (λ p. run_from_complete rec m start (suc i) 0 n all (omega arith) p (omega arith)) at refl
      refl rest
  where
    free_eq : (st : ℕ) → Has rec st i → start ≤ i → (st == cell_free) ≡ true
    free_eq st at lo =
        let e : ok cell_free ≡ ok st = sym (AllFree-at rec start m i all lo (omega arith)) ∙ at in
        let k : cell_free ≡ st = cc in subst (λ s. (s == cell_free) ≡ true) k refl

    split :
        (st : ℕ) (b b' : Bool)
        → (run + 1 < m → run_from rec m (suc i) (run + 1) n ≢ ok none)
        → (suc i ≤ start + 0 → run_from rec m (suc i) 0 n ≢ ok none)
        → Has rec st i
        → (st == cell_free) ≡ b
        → (run + 1 == m) ≡ b'
        → (if b
            then (if b' then ok (some (i + 1 - m)) else run_from rec m (suc i) (run + 1) n)
            else run_from rec m (suc i) 0 n)
          ≢ ok none
    split st true true longer restart at e e' h = cc
    split st true false longer restart at e e' h = longer (ground arith) h
    split st false b' longer restart at e e' h = elim (le_or_lt start i) [
      | inl lo ↦ let f = free_eq st at lo in cc
      | inr lt ↦ restart (omega arith) h
    ]

rec_state_total :
    (rec : Bytes) (i : ℕ) → 4 ≤ length rec → i < 16 → (st : ℕ) × (rec_state rec i ≡ ok st)
unfolding rec_state get_prefix cell_get
rec_state_total [] i long h = absurd (omega arith)
rec_state_total (a ∷ []) i long h = absurd (omega arith)
rec_state_total (a ∷ (b ∷ [])) i long h = absurd (omega arith)
rec_state_total (a ∷ (b ∷ (c ∷ []))) i long h = absurd (omega arith)
rec_state_total (a ∷ (b ∷ (c ∷ (d ∷ rec)))) i long h = (
  get_bits (get_or (a ∷ (b ∷ (c ∷ (d ∷ [])))) (i / 4) 0) (i % 4 * 2),
  step _ (get_byte-eq-get_or (a ∷ (b ∷ (c ∷ (d ∷ [])))) (i / 4) (omega arith)) refl,
)

run_from_total :
    (rec : Bytes) (m i run n : ℕ)
    → 4 ≤ length rec
    → i + n ≤ 16
    → (o : Option ℕ) × (run_from rec m i run n ≡ ok o)
unfolding run_from
run_from_total rec m i run zero long fits = (none, refl)
run_from_total rec m i run (suc n) long fits =
    let (st, at) = rec_state_total rec i long (omega arith) in
    let (o, longer) = run_from_total rec m (suc i) (run + 1) n long (omega arith) in
    let (o', restart) = run_from_total rec m (suc i) 0 n long (omega arith) in
    (
      if st == cell_free then (if run + 1 == m then some (i + 1 - m) else o) else o',
      step _ at (rw (longer, restart) (pull (st == cell_free) (run + 1 == m) _ _ _)),
    )
  where
    pull :
        (b b' : Bool) (x y z : Option ℕ)
        → (if b then (if b' then ok x else ok y) else ok z)
          ≡ ok (if b then (if b' then x else y) else z)
    pull true true x y z = refl
    pull true false x y z = refl
    pull false b' x y z = refl

-- Where a record of 4 bytes or more has a run of FREE children of the length asked for, `find_run`
-- succeeds and returns a run; the run that it returns lies within the record and all its children are
-- FREE.
pub find_run_complete :
    (rec : Bytes) (m start : ℕ)
    → 0 < m
    → 4 ≤ length rec
    → start + m ≤ alloc_fanout
    → AllFree rec start m
    → (found : ℕ) × (find_run rec m ≡ ok (some found))
      × (found + m ≤ alloc_fanout)
      × AllFree rec found m
find_run_complete rec m start pos long fits all =
    let (o, returned) : (o : Option ℕ) × (find_run rec m ≡ ok o) =
      unfold find_run in run_from_total rec m 0 0 16 long (omega arith) in
    let present : find_run rec m ≢ ok none =
      unfold find_run in run_from_complete rec m start 0 0 16 all pos (omega arith) fits in
    elim (Option-cases o) [
      | inl nothing ↦ absurd (present (returned ∙ ap ok nothing))
      | inr (found, same) ↦
          let run : find_run rec m ≡ ok (some found) = returned ∙ ap ok same in
          let sound = find_run-AllFree rec m found pos run in (found, run, sound.0, sound.1)
    ]
