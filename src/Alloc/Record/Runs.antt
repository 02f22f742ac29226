-- ===== src/Alloc/Record/Runs.antt =====
-- Runs of FREE children in a record.
use fs.Prelude.{
  ℕ, zero, suc, ◌+◌, ◌-◌, ◌≤◌, ◌<◌, ◌≡◌, ◌≢◌, refl, ap, subst, ◌∙◌, Bool, true, false, some, none,
  ok, >>=-eq-ok, ◌==◌, if◌then◌else◌, ==_iff, arith,
}
use fs.Fmt.Bytes.{Bytes}
use fs.Fmt.Cells.{cell_free}
use fs.Alloc.Record.{alloc_fanout, rec_state, run_from, find_run}

-- The child `i` of a record is in a state.
abbrev pub Has : Bytes → ℕ → ℕ → Type 0
Has rec st i = rec_state rec i ≡ ok st

-- The children from `i` on, `n` of them, are all FREE.
abbrev pub AllFree : Bytes → ℕ → ℕ → Type 0
AllFree rec i zero = Unit {0}
AllFree rec i (suc n) = Has rec cell_free i × AllFree rec (suc i) n

AllFree-snoc :
    (rec : Bytes) (i n : ℕ) → AllFree rec i n → Has rec cell_free (i + n) → AllFree rec i (suc n)
AllFree-snoc rec i zero all last =
    (subst (Has rec cell_free) (let e : i + 0 ≡ i = omega arith in e) last, tt)
AllFree-snoc rec i (suc n) all last = (
  all.0,
  AllFree-snoc rec (suc i) n all.1
      (subst (Has rec cell_free) (let e : i + suc n ≡ suc i + n = omega arith in e) last),
)

ok_none-ne-ok_some : (start : ℕ) → ok none ≢ ok (some start)
ok_none-ne-ok_some start e = cc

-- The loop with a run of FREE children before it.
run_from_sound :
    (rec : Bytes) (m i run n start : ℕ)
    → run < m
    → run ≤ i
    → AllFree rec (i - run) run
    → run_from rec m i run n ≡ ok (some start)
    → (start + m ≤ i + n) × AllFree rec start m
unfolding run_from
run_from_sound rec m i run zero start short le free h = absurd (ok_none-ne-ok_some start h)
run_from_sound rec m i run (suc n) start short le free h =
    let (st, at, rest) = >>=-eq-ok (rec_state rec i) _ h in
    split st (st == cell_free) (run + 1 == m)
      (λ p q r. run_from_sound rec m (suc i) (run + 1) n start p (omega arith) q r)
      (λ r. run_from_sound rec m (suc i) 0 n start (omega arith) (omega arith) tt r) at refl refl
      rest
  where
    grown : (st : ℕ) → Has rec st i → (st == cell_free) ≡ true → AllFree rec (i - run) (suc run)
    grown st at e = AllFree-snoc rec (i - run) run free (
        subst (Has rec cell_free) (let k : i ≡ i - run + run = omega arith in k)
          (at ∙ ap ok ((==_iff st cell_free).0 e)))

    split :
        (st : ℕ) (b b' : Bool)
        → (run + 1 < m
            → AllFree rec (suc i - (run + 1)) (run + 1)
            → run_from rec m (suc i) (run + 1) n ≡ ok (some start)
            → (start + m ≤ suc i + n) × AllFree rec start m)
        → (run_from rec m (suc i) 0 n ≡ ok (some start)
            → (start + m ≤ suc i + n) × AllFree rec start m)
        → Has rec st i
        → (st == cell_free) ≡ b
        → (run + 1 == m) ≡ b'
        → (if b
            then (if b' then ok (some (i + 1 - m)) else run_from rec m (suc i) (run + 1) n)
            else run_from rec m (suc i) 0 n)
          ≡ ok (some start)
        → (start + m ≤ i + suc n) × AllFree rec start m
    split st true true longer restart at e e' h =
        let full : run + 1 ≡ m = (==_iff (run + 1) m).0 e' in
        let found : i + 1 - m ≡ start = cc in
        (
          omega arith,
          subst (λ k. AllFree rec k m) (let k : i - run ≡ start = omega arith in k)
              (subst (AllFree rec (i - run)) (let k : suc run ≡ m = omega arith in k)
                (grown st at e)),
        )
    split st true false longer restart at e e' h =
        let (inside, all) =
          longer (ground arith)
            (subst (λ k. AllFree rec k (run + 1))
              (let k : i - run ≡ suc i - (run + 1) = omega arith in k)
              (subst (AllFree rec (i - run)) (let k : suc run ≡ run + 1 = omega arith in k)
                (grown st at e)))
            h in
        (omega arith, all)
    split st false b' longer restart at e e' h = let (inside, all) = restart h in (omega arith, all)

-- A run that `find_run` finds lies within the record and all its children are FREE.
pub find_run-AllFree :
    (rec : Bytes) (m start : ℕ)
    → 0 < m
    → find_run rec m ≡ ok (some start)
    → (start + m ≤ alloc_fanout) × AllFree rec start m
unfolding find_run
find_run-AllFree rec m start pos h = run_from_sound rec m 0 0 16 start pos (omega arith) tt h
