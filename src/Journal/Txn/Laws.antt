-- ===== src/Journal/Txn/Laws.antt =====
-- Reads and writes of a transaction.
use fs.Prelude.{
  ℕ, ◌<◌, ◌≡◌, ◌≢◌, ◌==◌, inl, inr, refl, sym, ap, ◌∙◌, subst, ==-refl, ==_false, Bool-cases, List,
  [], ◌∷◌, some, ok, arith, ltb, if◌then◌else◌,
}
use fs.Fmt.Bytes.{Bytes}
use fs.Fs.{Gofs}
use fs.Journal.Txn.{Txn, get, insert, read_or, txn_read, txn_write}

-- Every address is above a bound.
abbrev pub AllAbove : ℕ → List (ℕ × Bytes) → Type 0
AllAbove lo [] = Unit {0}
AllAbove lo (b ∷ blocks) = (lo < b.0) × AllAbove lo blocks

-- The addresses ascend strictly, so no address occurs twice.
abbrev pub IsSorted : List (ℕ × Bytes) → Type 0
IsSorted [] = Unit {0}
IsSorted (b ∷ blocks) = AllAbove b.0 blocks × IsSorted blocks

AllAbove-trans :
    (lo lo' : ℕ) (blocks : List (ℕ × Bytes)) → lo < lo' → AllAbove lo' blocks → AllAbove lo blocks
AllAbove-trans lo lo' [] h all = tt
AllAbove-trans lo lo' (b ∷ blocks) h all = (omega arith, AllAbove-trans lo lo' blocks h all.1)

module _ (blk : ℕ) (content : Bytes) where
  insert-AllAbove :
      (lo : ℕ) (blocks : List (ℕ × Bytes))
      → lo < blk
      → AllAbove lo blocks
      → AllAbove lo (insert blk content blocks)
  unfolding insert
  insert-AllAbove lo [] h all = (h, tt)
  insert-AllAbove lo ((b, old) ∷ blocks) h all = elim (Bool-cases (ltb blk b)) [
    | inl e ↦ rw e (h, all)
    | inr e ↦ elim (Bool-cases (b == blk)) [
      | inl e' ↦ rw (e, e') (h, all.1)
      | inr e' ↦ rw (e, e') (all.0, insert-AllAbove lo blocks h all.1)
    ]
  ]

  pub insert-IsSorted :
      (blocks : List (ℕ × Bytes)) → IsSorted blocks → IsSorted (insert blk content blocks)
  unfolding insert
  insert-IsSorted [] sorted = (tt, tt)
  insert-IsSorted ((b, old) ∷ blocks) sorted = elim (Bool-cases (ltb blk b)) [
    | inl e ↦ rw e ((ground arith, AllAbove-trans blk b blocks (ground arith) sorted.0), sorted)
    | inr e ↦ elim (Bool-cases (b == blk)) [
      | inl e' ↦
          rw (e, e')
            (
              subst (λ k. AllAbove k blocks) (let k : b ≡ blk = ground arith in k) sorted.0,
              sorted.1,
            )
      | inr e' ↦
          rw (e, e')
            (insert-AllAbove b blocks (ground arith) sorted.0, insert-IsSorted blocks sorted.1)
    ]
  ]

  pub get-insert_self :
      (blocks : List (ℕ × Bytes)) → get blk (insert blk content blocks) ≡ some content
  unfolding get insert
  get-insert_self [] = rw (==-refl blk) refl
  get-insert_self ((b, old) ∷ blocks) = elim (Bool-cases (ltb blk b)) [
    | inl e ↦ rw (e, ==-refl blk) refl
    | inr e ↦ elim (Bool-cases (b == blk)) [
      | inl e' ↦ rw (e, e', ==-refl blk) refl
      | inr e' ↦ rw (e, e', e') (get-insert_self blocks)
    ]
  ]

  pub get-insert_other :
      (other : ℕ) (blocks : List (ℕ × Bytes))
      → blk ≢ other
      → get other (insert blk content blocks) ≡ get other blocks
  unfolding get insert
  get-insert_other other [] apart = rw (==_false blk other apart) refl
  get-insert_other other ((b, old) ∷ blocks) apart = elim (Bool-cases (ltb blk b)) [
    | inl e ↦ rw (e, ==_false blk other apart) refl
    | inr e ↦ elim (Bool-cases (b == blk)) [
      | inl e' ↦
          let same : b ≡ blk = ground arith in
          rw (e, e', ==_false blk other apart, ==_false b other (λ h. apart (sym same ∙ h))) refl
      | inr e' ↦
          rw (e, e')
            (ap (λ r. if b == other then some old else r) (get-insert_other other blocks apart))
    ]
  ]

pub txn_read-txn_write_self :
    (g : Gofs) (t : Txn) (blk : ℕ) (content : Bytes)
    → txn_read g (txn_write t blk content) blk ≡ ok content
unfolding txn_read txn_write read_or
txn_read-txn_write_self g t blk content = rw (get-insert_self blk content t.blocks) refl

-- After a write of a block through a transaction, a read of that block through it returns what was
-- written, a read of another block returns what it did before, and the addresses still ascend strictly.
pub txn_read-txn_write :
    (g : Gofs) (t : Txn) (blk other : ℕ) (content : Bytes)
    → IsSorted t.blocks
    → blk ≢ other
    → (txn_read g (txn_write t blk content) blk ≡ ok content)
      × (txn_read g (txn_write t blk content) other ≡ txn_read g t other)
      × IsSorted (txn_write t blk content).blocks
unfolding txn_read txn_write read_or
txn_read-txn_write g t blk other content sorted apart = (
  rw (get-insert_self blk content t.blocks) refl,
  rw (get-insert_other blk content other t.blocks apart) refl,
  insert-IsSorted blk content t.blocks sorted,
)
