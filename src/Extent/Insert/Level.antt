-- ===== src/Extent/Insert/Level.antt =====
-- src/extent.rs: the loop of `to_tree` that looks for the level of the root.
use fs.Extent.Insert.{level_for}
use fs.Extent.Node.{root_fanout, cov}
use fs.Prelude.{
  ℕ, suc, ◌+◌, ◌*◌, ◌%◌, ◌^◌, ◌≤◌, ◌<◌, ◌≡◌, refl, inl, inr, arith, ltb, Bool-cases, ok, zero,
  subst, ◌==◌, ltb→lt, le→ltb, ==_iff,
}

-- The blocks that a root of a level reaches, as the code computes them.
abbrev pub reach : ℕ → ℕ
reach level = root_fanout * cov level % 2 ^ 64

abbrev IsLowest : ℕ → ℕ → ℕ → Type 0
IsLowest from level needed = (k : ℕ) → from ≤ k → k < level → reach k < needed

is_lowest :
    (from level needed k : ℕ)
    → reach from < needed
    → IsLowest (suc from) level needed
    → from ≤ k
    → k < level
    → reach k < needed
is_lowest from level needed k first lowest above below = elim (Bool-cases (from == k)) [
  | inl e ↦ subst (λ i. reach i < needed) ((==_iff from k).0 e) first
  | inr e ↦ lowest k (ground arith) below
]

level_from :
    (n from needed : ℕ)
    → needed ≤ reach (from + n)
    → (level : ℕ) × (level_for (suc n) from needed ≡ ok level)
      × (needed ≤ reach level)
      × IsLowest from level needed
unfolding level_for
level_from zero from needed enough =
    let e : from + 0 ≡ from = omega arith in
    let fits : needed ≤ reach from = subst (λ k. needed ≤ reach k) e enough in
    (from, rw (le→ltb (reach from) needed fits) refl, fits, λ k above below. absurd (omega arith))
level_from (suc n) from needed enough = elim (Bool-cases (ltb (reach from) needed)) [
  | inr e ↦ (from, rw e refl, ground arith, λ k above below. absurd (omega arith))
  | inl e ↦
      let s : from + suc n ≡ suc from + n = omega arith in
      let (level, found, fits, lowest) =
        level_from n (suc from) needed (subst (λ k. needed ≤ reach k) s enough) in
      (
        level,
        rw e found,
        fits,
        λ k above below.
            is_lowest from level needed k (ltb→lt (reach from) needed e) lowest above below,
      )
]

-- For up to 6 · 2^60 blocks the loop ends within its 11 rounds, at the lowest level whose root reaches them.
pub level_for_ends :
    (needed : ℕ)
    → needed ≤ 6 * 2 ^ 60
    → (level : ℕ) × (level_for 11 0 needed ≡ ok level)
      × (needed ≤ reach level)
      × ((k : ℕ) → k < level → reach k < needed)
level_for_ends needed enough =
    let (level, found, fits, lowest) = level_from 10 0 needed (unfold cov in enough) in
    (level, found, fits, λ k below. lowest k (omega arith) below)
