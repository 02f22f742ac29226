-- ===== src/Dir/Insert/Split.antt =====
-- src/dir.rs: what doubling and splitting the table do to the bucket that a hash selects.
use fs.Dir.Insert.{doubled, redirect}
use fs.Dir.Hash.{bucket_index, sub_u8}
use fs.Prelude.{
  ℕ, zero, suc, ◌+◌, ◌-◌, ◌*◌, ◌/◌, ◌%◌, ◌^◌, ◌<◌, ◌≡◌, refl, sym, ap, ◌∙◌, Bool, not, ◌&&◌, some,
  List, [], ◌∷◌, arith, ◌==◌, if◌then◌else◌, get_elem?, false, ==_false,
}
use native.Mathlib.Numerals.{unary_clauses}
use native.Mathlib.Nat.{div-div-eq-div-mul, mul_assoc, mul-one}

pow_add : (a b : ℕ) → 2 ^ a * 2 ^ b ≡ 2 ^ (a + b)
pow_add a zero = mul-one (2 ^ a) ∙ ap (λ n. 2 ^ n) (omega arith)
pow_add a (suc b) =
    simp unary_clauses (sym (mul_assoc (2 ^ a) (2 ^ b) 2) ∙ ap (λ n. n * 2) (pow_add a b))

-- Shifts one after the other.
shift_shift : (h a b : ℕ) → h / 2 ^ a / 2 ^ b ≡ h / 2 ^ (a + b)
shift_shift h a b = div-div-eq-div-mul h (2 ^ a) (2 ^ b) ∙ ap (λ n. h / n) (pow_add a b)

bucket_index-suc : (h d : ℕ) → d < 63 → bucket_index h (suc d) ≡ h / 2 ^ (63 - d)
unfolding bucket_index
bucket_index-suc h d low =
    let e : (suc d == 0) ≡ false = ==_false (suc d) 0 (λ e. absurd (omega arith)) in
    let e1 : (320 - suc d) % 64 ≡ 63 - d = omega arith in rw (e, e1) refl

half_index : (h d : ℕ) → h < 2 ^ 64 → d < 62 → bucket_index h (suc d) / 2 ≡ bucket_index h d
half_index h zero small low =
    let e : bucket_index h 1 ≡ h / 2 ^ 63 = bucket_index-suc h 0 (omega arith) in
    rw e (unfold bucket_index in omega arith)
half_index h (suc d) small low =
    let e1 : 63 - d ≡ 63 - suc d + 1 = omega arith in
    rw (bucket_index-suc h (suc d) (omega arith), bucket_index-suc h d (omega arith), e1)
      (shift_shift h (63 - suc d) 1)

get-doubled : (table : List ℕ) (i : ℕ) → get_elem? (doubled table) i ≡ get_elem? table (i / 2)
unfolding doubled
get-doubled [] i = ground arith
get-doubled (b ∷ table) zero = refl
get-doubled (b ∷ table) (suc zero) = refl
get-doubled (b ∷ table) (suc (suc i)) =
    let e : suc (suc i) / 2 ≡ suc (i / 2) = omega arith in
    get-doubled table i ∙ ap (λ n. get_elem? (b ∷ table) n) (sym e)

-- A hash selects the same bucket in the table of twice the size, under a depth that is one more. The depth
-- is less than 62, and the hash has 64 bits.
pub deepen-bucket_index :
    (table : List ℕ) (h d : ℕ)
    → h < 2 ^ 64
    → d < 62
    → get_elem? (doubled table) (bucket_index h (suc d)) ≡ get_elem? table (bucket_index h d)
deepen-bucket_index table h d small low =
    get-doubled table (bucket_index h (suc d)) ∙ ap (get_elem? table) (half_index h d small low)

-- The slot of a hash after a split.
abbrev pub moved_slot : (bno new_bno : ℕ) → Bool → ℕ → ℕ
moved_slot bno new_bno moved b = if b == bno && moved then new_bno else b

get-redirect :
    (bno new_bno shift idx i : ℕ) (table : List ℕ)
    → get_elem? (redirect bno new_bno shift idx table) i
      ≡ mathlib.Core.Option.map
          (moved_slot bno new_bno ((idx + i) / 2 ^ shift % 2 == 1))
          (get_elem? table i)
unfolding redirect
get-redirect bno new_bno shift idx i [] = refl
get-redirect bno new_bno shift idx zero (b ∷ table) =
    ap (λ n. some (moved_slot bno new_bno (n / 2 ^ shift % 2 == 1) b)) (omega arith)
get-redirect bno new_bno shift idx (suc i) (b ∷ table) =
    get-redirect bno new_bno shift (suc idx) i table
    ∙ ap
        (λ n.
          mathlib.Core.Option.map (moved_slot bno new_bno (n / 2 ^ shift % 2 == 1))
            (get_elem? table i))
        (omega arith)

-- The bit of the index that a split reads is the bit of the hash that tells the two halves apart.
index_bit :
    (h d ld : ℕ)
    → ld < d
    → d < 63
    → bucket_index h d / 2 ^ (sub_u8 (sub_u8 d 1) ld % 64) ≡ h / 2 ^ (sub_u8 63 ld % 64)
index_bit h zero ld below low = absurd (omega arith)
index_bit h (suc d) ld below low =
    let e2 : sub_u8 (sub_u8 (suc d) 1) ld % 64 ≡ d - ld = omega arith in
    let e3 : sub_u8 63 ld % 64 ≡ 63 - d + (d - ld) = omega arith in
    rw (bucket_index-suc h d (omega arith), e2, e3) (shift_shift h (63 - d) (d - ld))

odd : (n : ℕ) → (n % 2 == 1) ≡ not (n % 2 == 0)
odd n = ground arith

-- After a split of bucket `bno`, whose local depth is less than the depth, a hash that selected another
-- bucket still selects it, and one that selected `bno` selects the new bucket exactly if `partition` puts
-- its entries there. The depth is less than 63.
pub redirect-bucket_index :
    (table : List ℕ) (bno new_bno h d ld b : ℕ)
    → ld < d
    → d < 63
    → get_elem? table (bucket_index h d) ≡ some b
    → get_elem? (redirect bno new_bno (sub_u8 (sub_u8 d 1) ld % 64) 0 table) (bucket_index h d)
      ≡ some (if b == bno && not (h / 2 ^ (sub_u8 63 ld % 64) % 2 == 0) then new_bno else b)
redirect-bucket_index table bno new_bno h d ld b below low found =
    let e0 : 0 + bucket_index h d ≡ bucket_index h d = omega arith in
    get-redirect bno new_bno (sub_u8 (sub_u8 d 1) ld % 64) 0 (bucket_index h d) table
    ∙ rw (found, e0, index_bit h d ld below low, odd (h / 2 ^ (sub_u8 63 ld % 64))) refl
