-- ===== src/Prelude/Bits.antt =====
-- `|` of a shifted value with a value that fits below the shift, as a sum, at every width; and a
-- check of every value below a bound by evaluation.
use Prim.Native.Nat.{
  ℕ, zero, suc, ◌+◌, ◌*◌, ◌/◌, ◌%◌, ◌^◌, ◌≤◌, ◌<◌, max, bit_or, digits, bit_or-bitwise,
}
use mathlib.Core.Path.{◌≡◌, refl, ap}
use mathlib.Core.Bool.{Bool, true, ◌&&◌}
use native.Mathlib.Nat.{pow-suc}
use native.Mathlib.Omega.{arith}

-- A test passes for every number below a bound.
unfoldable pub all_below : ℕ → (ℕ → Bool) → Bool
all_below zero test = true
all_below (suc bound) test = all_below bound test && test bound

pub all_below_sound :
    (bound : ℕ) (test : ℕ → Bool) (i : ℕ) → all_below bound test ≡ true → i < bound → test i ≡ true
unfolding all_below
all_below_sound zero test i passed below = absurd (omega arith)
all_below_sound (suc bound) test i passed below =
    let before = all_below_sound bound test i in ground (arith, before)

-- The recursion behind `bit_or`, and that its fuel does not matter from the value on.
abbrev merge : ℕ → ℕ → ℕ → ℕ
merge fuel x y = digits (λ d. d) max fuel x y

merge_enough : (f g x y : ℕ) → x ≤ g → x ≤ f → merge f x y ≡ merge g x y
merge_enough zero g (suc x) y hg hf = absurd (omega arith)
merge_enough (suc f) zero (suc x) y hg hf = absurd (omega arith)
merge_enough (suc f) (suc g) (suc x) y hg hf =
    let half : suc x / 2 ≤ f = omega arith in
    let rest = merge_enough f g (suc x / 2) (y / 2) (omega arith) half in omega (arith, rest)
merge_enough zero zero zero y hg hf = refl
merge_enough zero (suc g) zero y hg hf = refl
merge_enough (suc f) zero zero y hg hf = refl
merge_enough (suc f) (suc g) zero y hg hf = refl

-- The last binary digit apart.
bit_or_halves : (x y : ℕ) → bit_or x y ≡ max (x % 2) (y % 2) + 2 * bit_or (x / 2) (y / 2)
bit_or_halves zero y = omega (arith, bit_or-bitwise 0 (y / 2), bit_or-bitwise 0 y)
bit_or_halves (suc x) y =
    let half : ℕ = suc x / 2 in
    let same = merge_enough x half half (y / 2) (omega arith) (omega arith) in
    omega (arith, same, bit_or-bitwise half (y / 2), bit_or-bitwise (suc x) y)

bit_or_zero_right : (fuel x : ℕ) → x ≤ fuel → bit_or x 0 ≡ x
bit_or_zero_right zero (suc x) le = absurd (omega arith)
bit_or_zero_right (suc fuel) (suc x) le =
    let rest = bit_or_zero_right fuel (suc x / 2) (omega arith) in
    omega (arith, rest, bit_or_halves (suc x) 0)
bit_or_zero_right fuel zero le = refl

pub bit_or-shl : (w high low : ℕ) → low < 2 ^ w → bit_or (high * 2 ^ w) low ≡ high * 2 ^ w + low
bit_or-shl zero high low fits = ground (arith, bit_or_zero_right high high)
bit_or-shl (suc w) high low fits =
    let rest = bit_or-shl w high (low / 2) (omega (arith, pow-suc 2 w)) in
    let shifted = ap (λ (p : ℕ). high * p) (pow-suc 2 w) in
    ground (arith, rest, shifted, pow-suc 2 w, bit_or_halves (high * 2 ^ suc w) low)
