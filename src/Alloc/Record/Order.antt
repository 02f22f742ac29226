-- ===== src/Alloc/Record/Order.antt =====
-- The scan order of the allocator.
use fs.Prelude.{
  ℕ, zero, suc, ◌+◌, ◌-◌, ◌%◌, ◌≤◌, ◌<◌, ◌≡◌, refl, inl, inr, Bool-cases, List, [], ◌∷◌, ◌++◌, ◌==◌,
  if◌then◌else◌, ==_false, ◌⊎◌, ltb, le_or_lt, arith,
}
use fs.Alloc.Record.{range_from, wrap_range}

-- How often a number occurs.
unfoldable pub count : ℕ → List ℕ → ℕ
count i [] = 0
count i (x ∷ xs) = (if x == i then 1 else 0) + count i xs

count-append : (i : ℕ) (xs ys : List ℕ) → count i (xs ++ ys) ≡ count i xs + count i ys
unfolding count
count-append i [] ys = omega arith
count-append i (x ∷ xs) ys = omega (arith, count-append i xs ys)

count-range_from_out :
    (i start n : ℕ) → (i < start) ⊎ (start + n ≤ i) → count i (range_from start n) ≡ 0
unfolding count range_from
count-range_from_out i start zero out = refl
count-range_from_out i start (suc n) out = rw (
  ==_false start i (λ e. elim out [ inl o ↦ omega arith | inr o ↦ omega arith ]),
  count-range_from_out i (suc start) n
      (elim out [ inl o ↦ inl (omega arith) | inr o ↦ inr (omega arith) ]),
)

count-range_from_in : (i start n : ℕ) → start ≤ i → i < start + n → count i (range_from start n) ≡ 1
unfolding count range_from
count-range_from_in i start zero lo hi = absurd (omega arith)
count-range_from_in i start (suc n) lo hi = elim (Bool-cases (start == i)) [
  | inl e ↦ rw (e, count-range_from_out i (suc start) n (inl (ground arith)))
  | inr e ↦ rw (e, count-range_from_in i (suc start) n (ground arith) (omega arith))
]

count-around :
    (s len i : ℕ)
    → s ≤ len
    → count i (range_from s (len - s) ++ range_from 0 s) ≡ (if ltb i len then 1 else 0)
count-around s len i h = elim (le_or_lt s i) [
  | inl behind ↦ elim (le_or_lt len i) [
    | inl out ↦ ground (
      arith,
      count-append i (range_from s (len - s)) (range_from 0 s),
      count-range_from_out i s (len - s) (inr (omega arith)),
      count-range_from_out i 0 s (inr (omega arith)),
    )
    | inr inside ↦ ground (
      arith,
      count-append i (range_from s (len - s)) (range_from 0 s),
      count-range_from_in i s (len - s) behind (omega arith),
      count-range_from_out i 0 s (inr (omega arith)),
    )
  ]
  | inr before ↦ ground (
    arith,
    count-append i (range_from s (len - s)) (range_from 0 s),
    count-range_from_out i s (len - s) (inl before),
    count-range_from_in i 0 s (omega arith) (omega arith),
  )
]

-- From whatever index it starts, the scan order has every index below the length exactly once, and no
-- other.
pub count-wrap_range :
    (start len i : ℕ) → count i (wrap_range start len) ≡ (if ltb i len then 1 else 0)
unfolding wrap_range
count-wrap_range start len i =
    count-around (if len == 0 then 0 else start % len) len i (ground arith)
