-- ===== src/Fmt/Bytes/Laws.antt =====
-- A value in the range of its width is read back from its big-endian bytes; reads and writes behind
-- a prefix; a list of known length written out.
use fs.Prelude.{
  ℕ, zero, suc, ◌+◌, ◌^◌, ◌≤◌, ◌<◌, ◌≡◌, refl, ap, true, [], ◌∷◌, ◌++◌, ok, panic, arith, length,
  get_or, set,
}
use fs.Fmt.Bytes.{
  Bytes, byte_of, to_be, from_be, overwrite, put_slice, get_prefix, get_suffix, get_slice, get_byte,
  put_byte, bytes_eq, get_u16, get_u32, get_u64, put_u16, put_u32, put_u64,
}

pub from_be-to_be_two : (v : ℕ) → v < 2 ^ 16 → from_be 0 (to_be 2 v) ≡ v
unfolding from_be to_be byte_of
from_be-to_be_two v h = omega arith

pub from_be-to_be_four : (v : ℕ) → v < 2 ^ 32 → from_be 0 (to_be 4 v) ≡ v
unfolding from_be to_be byte_of
from_be-to_be_four v h = omega arith

pub from_be-to_be_eight : (v : ℕ) → v < 2 ^ 64 → from_be 0 (to_be 8 v) ≡ v
unfolding from_be to_be byte_of
from_be-to_be_eight v h = omega arith

pub bytes_eq_refl : (b : Bytes) → bytes_eq b b ≡ true
unfolding bytes_eq
bytes_eq_refl [] = refl
bytes_eq_refl (x ∷ b) = ground (arith, bytes_eq_refl b)

-- A read or a write behind a prefix is one in what follows it.
pub get_suffix-append :
    (pre tail : Bytes) (off k : ℕ)
    → off ≡ length pre + k
    → get_suffix (pre ++ tail) off ≡ get_suffix tail k
unfolding get_suffix
get_suffix-append [] tail off k e = ap (get_suffix tail) (omega arith)
get_suffix-append (x ∷ pre) tail zero k e = absurd (omega arith)
get_suffix-append (x ∷ pre) tail (suc off) k e = get_suffix-append pre tail off k (omega arith)

pub get_slice-append :
    (pre tail : Bytes) (off k n : ℕ)
    → off ≡ length pre + k
    → get_slice (pre ++ tail) off n ≡ get_slice tail k n
unfolding get_slice
get_slice-append pre tail off k n e = rw (get_suffix-append pre tail off k e)

pub get_byte-append :
    (pre tail : Bytes) (off k : ℕ)
    → off ≡ length pre + k
    → get_byte (pre ++ tail) off ≡ get_byte tail k
unfolding get_byte
get_byte-append [] tail off k e = ap (get_byte tail) (omega arith)
get_byte-append (x ∷ pre) tail zero k e = absurd (omega arith)
get_byte-append (x ∷ pre) tail (suc off) k e = get_byte-append pre tail off k (omega arith)

pub put_slice-append :
    (pre tail : Bytes) (off k : ℕ) (src : Bytes) {r : Bytes}
    → off ≡ length pre + k
    → put_slice tail k src ≡ ok r
    → put_slice (pre ++ tail) off src ≡ ok (pre ++ r)
unfolding put_slice
put_slice-append [] tail off k src e h = (let e' : off ≡ k = omega arith in rw e' h)
put_slice-append (x ∷ pre) tail zero k src e h = absurd (omega arith)
put_slice-append (x ∷ pre) tail (suc off) k src e h =
    rw (put_slice-append pre tail off k src (omega arith) h)

pub get_prefix-append : (xs ys : Bytes) → get_prefix (xs ++ ys) (length xs) ≡ ok xs
unfolding get_prefix
get_prefix-append [] ys = refl
get_prefix-append (x ∷ xs) ys = rw (get_prefix-append xs ys)

pub overwrite-append :
    (old new tail : Bytes)
    → length old ≡ length new
    → overwrite (old ++ tail) new ≡ ok (new ++ tail)
unfolding overwrite
overwrite-append [] [] [] h = refl
overwrite-append [] [] (t ∷ tail) h = refl
overwrite-append [] (y ∷ new) tail h = absurd (omega arith)
overwrite-append (x ∷ old) [] tail h = absurd (omega arith)
overwrite-append (x ∷ old) (y ∷ new) tail h = rw (overwrite-append old new tail (omega arith))

-- A list of known length, written out.
abbrev pub tabulate : ℕ → ℕ → (ℕ → ℕ) → Bytes
tabulate zero i f = []
tabulate (suc n) i f = f i ∷ tabulate n (suc i) f

tabulate_shift :
    (n i : ℕ) (x : ℕ) (xs : Bytes)
    → tabulate n (suc i) (λ k. get_or (x ∷ xs) k 0) ≡ tabulate n i (λ k. get_or xs k 0)
tabulate_shift zero i x xs = refl
tabulate_shift (suc n) i x xs = rw (tabulate_shift n (suc i) x xs)

pub eq-tabulate : (n : ℕ) (xs : Bytes) → length xs ≡ n → xs ≡ tabulate n 0 (λ i. get_or xs i 0)
eq-tabulate zero [] h = refl
eq-tabulate zero (x ∷ xs) h = absurd (omega arith)
eq-tabulate (suc n) [] h = absurd (omega arith)
eq-tabulate (suc n) (x ∷ xs) h =
    ap (λ l. x ∷ l) (rw (tabulate_shift n 0 x xs) (eq-tabulate n xs (omega arith)))

-- In range, a byte access is a list access.
pub get_byte-eq-get_or : (b : Bytes) (i : ℕ) → i < length b → get_byte b i ≡ ok (get_or b i 0)
unfolding get_byte
get_byte-eq-get_or [] i h = absurd (omega arith)
get_byte-eq-get_or (x ∷ b) zero h = refl
get_byte-eq-get_or (x ∷ b) (suc i) h = get_byte-eq-get_or b i (omega arith)

pub put_byte-eq-set : (b : Bytes) (i v : ℕ) → i < length b → put_byte b i v ≡ ok (set b i v)
unfolding put_byte
put_byte-eq-set [] i v h = absurd (omega arith)
put_byte-eq-set (x ∷ b) zero v h = refl
put_byte-eq-set (x ∷ b) (suc i) v h = rw (put_byte-eq-set b i v (omega arith))

pub get_byte_out : (b : Bytes) (i : ℕ) → length b ≤ i → get_byte b i ≡ panic
unfolding get_byte
get_byte_out [] i h = refl
get_byte_out (x ∷ b) zero h = absurd (omega arith)
get_byte_out (x ∷ b) (suc i) h = get_byte_out b i (omega arith)

module _ (pre tail : Bytes) (off k : ℕ) (e : off ≡ length pre + k) where
  pub get_u16-append : get_u16 (pre ++ tail) off ≡ get_u16 tail k
  unfolding get_u16
  get_u16-append = rw (get_slice-append pre tail off k 2 e)

  pub get_u32-append : get_u32 (pre ++ tail) off ≡ get_u32 tail k
  unfolding get_u32
  get_u32-append = rw (get_slice-append pre tail off k 4 e)

  pub get_u64-append : get_u64 (pre ++ tail) off ≡ get_u64 tail k
  unfolding get_u64
  get_u64-append = rw (get_slice-append pre tail off k 8 e)

  pub put_u16-append :
      (v : ℕ) {r : Bytes} → put_u16 tail k v ≡ ok r → put_u16 (pre ++ tail) off v ≡ ok (pre ++ r)
  unfolding put_u16
  put_u16-append v h = put_slice-append pre tail off k (to_be 2 v) e h

  pub put_u32-append :
      (v : ℕ) {r : Bytes} → put_u32 tail k v ≡ ok r → put_u32 (pre ++ tail) off v ≡ ok (pre ++ r)
  unfolding put_u32
  put_u32-append v h = put_slice-append pre tail off k (to_be 4 v) e h

  pub put_u64-append :
      (v : ℕ) {r : Bytes} → put_u64 tail k v ≡ ok r → put_u64 (pre ++ tail) off v ≡ ok (pre ++ r)
  unfolding put_u64
  put_u64-append v h = put_slice-append pre tail off k (to_be 8 v) e h

  pub put_byte-append :
      (v : ℕ) {r : Bytes} → put_byte tail k v ≡ ok r → put_byte (pre ++ tail) off v ≡ ok (pre ++ r)
  unfolding put_byte
  put_byte-append v h = put_slice-append pre tail off k (v ∷ []) e h

-- Reading a number back from where its bytes stand.
module _ (v : ℕ) (tail : Bytes) where
  pub get_u16_head : v < 2 ^ 16 → get_u16 (to_be 2 v ++ tail) 0 ≡ ok v
  unfolding get_u16 to_be
  get_u16_head h = ap ok (from_be-to_be_two v h)

  pub get_u32_head : v < 2 ^ 32 → get_u32 (to_be 4 v ++ tail) 0 ≡ ok v
  unfolding get_u32 to_be
  get_u32_head h = ap ok (from_be-to_be_four v h)

  pub get_u64_head : v < 2 ^ 64 → get_u64 (to_be 8 v ++ tail) 0 ≡ ok v
  unfolding get_u64 to_be
  get_u64_head h = ap ok (from_be-to_be_eight v h)

pub length-to_be : (k v : ℕ) → length (to_be k v) ≡ k
unfolding to_be
length-to_be zero v = refl
length-to_be (suc k) v = ap suc (length-to_be k v)
