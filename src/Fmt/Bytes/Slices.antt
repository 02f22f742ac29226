-- ===== src/Fmt/Bytes/Slices.antt =====
-- src/fmt.rs, the byte helpers: what a slice that is written into a buffer does to the slices of the buffer.
use fs.Prelude.{
  ℕ, zero, suc, ◌+◌, ◌≤◌, ◌≡◌, refl, ap, inl, inr, ◌⊎◌, [], ◌∷◌, length, ok, arith, ◌>>=◌,
}
use fs.Fmt.Bytes.{Bytes, overwrite, put_slice, get_prefix, get_suffix, get_slice}

overwrite-get_suffix :
    (b src : Bytes)
    → length src ≤ length b
    → (b' : Bytes) × (overwrite b src ≡ ok b')
      × (length b' ≡ length b)
      × (get_prefix b' (length src) ≡ ok src)
      × ((o : ℕ) → length src ≤ o → get_suffix b' o ≡ get_suffix b o)
unfolding overwrite get_prefix get_suffix
overwrite-get_suffix b [] fits = (b, unfold overwrite in refl, refl, refl, λ o h. refl)
overwrite-get_suffix [] (s ∷ src) fits = absurd (omega arith)
overwrite-get_suffix (x ∷ b) (s ∷ src) fits =
    let (b', wrote, size, held, behind) = overwrite-get_suffix b src (omega arith) in
    (s ∷ b', rw wrote refl, ap suc size, rw held refl, suffix b' behind)
  where
    suffix :
        (b' : Bytes)
        → ((o : ℕ) → length src ≤ o → get_suffix b' o ≡ get_suffix b o)
        → (o : ℕ) → suc (length src) ≤ o
        → get_suffix (s ∷ b') o ≡ get_suffix (x ∷ b) o
    suffix b' behind zero h = absurd (omega arith)
    suffix b' behind (suc o) h = behind o (omega arith)

-- A slice that ends before another one, or begins behind it.
abbrev pub SlicesApart : ℕ → ℕ → ℕ → ℕ → Type 0
SlicesApart o n off len = (o + n ≤ off) ⊎ (off + len ≤ o)

-- A slice within the buffer is written, and read back; slices apart from it stay the same.
pub put_slice-get_slice :
    (b : Bytes) (off : ℕ) (src : Bytes)
    → off + length src ≤ length b
    → (b' : Bytes) × (put_slice b off src ≡ ok b')
      × (length b' ≡ length b)
      × (get_slice b' off (length src) ≡ ok src)
      × ((o n : ℕ) → SlicesApart o n off (length src) → get_slice b' o n ≡ get_slice b o n)
unfolding put_slice get_slice get_suffix get_prefix
put_slice-get_slice b zero src fits =
    let (b', wrote, size, held, behind) = overwrite-get_suffix b src (omega arith) in
    (b', wrote, size, held, others b' behind)
  where
    others :
        (b' : Bytes)
        → ((o : ℕ) → length src ≤ o → get_suffix b' o ≡ get_suffix b o)
        → (o n : ℕ) → SlicesApart o n 0 (length src)
        → get_slice b' o n ≡ get_slice b o n
    others b' behind zero zero h = refl
    others b' behind zero (suc n) (inl h) = absurd (omega arith)
    others b' behind (suc o) n (inl h) = absurd (omega arith)
    others b' behind zero (suc n) (inr h) =
        ap (λ t. t >>= λ u. get_prefix u (suc n)) (behind 0 (omega arith))
    others b' behind (suc o) n (inr h) =
        ap (λ t. t >>= λ u. get_prefix u n) (behind (suc o) (omega arith))
put_slice-get_slice [] (suc off) src fits = absurd (omega arith)
put_slice-get_slice (x ∷ b) (suc off) src fits =
    let (b', wrote, size, held, same) = put_slice-get_slice b off src (omega arith) in
    (x ∷ b', rw wrote refl, ap suc size, held, others b' same)
  where
    others :
        (b' : Bytes)
        → ((o n : ℕ) → SlicesApart o n off (length src) → get_slice b' o n ≡ get_slice b o n)
        → (o n : ℕ) → SlicesApart o n (suc off) (length src)
        → get_slice (x ∷ b') o n ≡ get_slice (x ∷ b) o n
    others b' same zero zero h = refl
    others b' same zero (suc n) (inl h) = rw (same 0 n (inl (omega arith))) refl
    others b' same zero (suc n) (inr h) = absurd (omega arith)
    others b' same (suc o) n (inl h) = same o n (inl (omega arith))
    others b' same (suc o) n (inr h) = same o n (inr (omega arith))
