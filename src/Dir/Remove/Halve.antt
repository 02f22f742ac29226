-- ===== src/Dir/Remove/Halve.antt =====
-- src/dir.rs: what halving the table does to the bucket that a hash selects.
use fs.Dir.Insert.Split.{deepen-bucket_index}
use fs.Dir.Insert.{doubled}
use fs.Dir.Hash.{bucket_index}
use fs.Dir.Remove.{pairs_equal, halved}
use fs.Prelude.{
  ℕ, suc, ◌^◌, ◌<◌, ◌≡◌, refl, sym, ap, ◌∙◌, inl, inr, true, List, [], ◌∷◌, ◌==◌, ==_iff,
  Bool-cases, get_elem?, ok, Bool, false, Out,
}

ok_false : Path (Out Bool) (ok false) (ok true) → ⊥
ok_false e = cc

pairs_equal-doubled :
    (table : List ℕ) → pairs_equal table ≡ ok true → doubled (halved table) ≡ table
unfolding pairs_equal halved doubled
pairs_equal-doubled [] same = refl
pairs_equal-doubled (a ∷ []) same = cc
pairs_equal-doubled (a ∷ (b ∷ table)) same = elim (Bool-cases (a == b)) [
  | inl e ↦
      let rest : pairs_equal table ≡ ok true = sym (rw e refl) ∙ same in
      rw (pairs_equal-doubled table rest, (==_iff a b).0 e) refl
  | inr e ↦ absurd (ok_false (sym (rw e refl) ∙ same))
]

-- Where `try_merge` halves the table, each hash selects the same bucket as before. The new depth is less than
-- 62, and the hash has 64 bits.
pub halved-bucket_index :
    (table : List ℕ) (h d : ℕ)
    → pairs_equal table ≡ ok true
    → h < 2 ^ 64
    → d < 62
    → get_elem? (halved table) (bucket_index h d) ≡ get_elem? table (bucket_index h (suc d))
halved-bucket_index table h d same small low =
    sym (deepen-bucket_index (halved table) h d small low)
    ∙ ap (λ t. get_elem? t (bucket_index h (suc d))) (pairs_equal-doubled table same)
