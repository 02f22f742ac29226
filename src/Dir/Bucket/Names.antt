-- ===== src/Dir/Bucket/Names.antt =====
-- src/dir.rs: the name of a bucket's entry as it is written and read, and its padding.
use fs.Dir.Hash.{name_bytes}
use fs.Dir.Bucket.{entry_size}
use fs.Fmt.Bytes.Laws.{from_be-to_be_two, get_u16-append, put_u16-append}
use fs.Fmt.Bytes.{Bytes, to_be, put_u16, get_u16}
use fs.Fmt.Dirents.{name_units, put_name}
use mathlib.Core.List.{append_assoc}
use fs.Prelude.{
  step, ℕ, suc, ◌+◌, ◌*◌, ◌%◌, ◌^◌, ◌<◌, ◌≡◌, refl, sym, ap, ◌∙◌, List, [], ◌∷◌, ◌++◌, arith,
  length, length-append, ok, replicate,
}

-- Zeros in place of a name.
unfoldable pub blank_name : List ℕ → Bytes
blank_name [] = []
blank_name (u ∷ units) = 0 ∷ 0 ∷ blank_name units

-- The zeros up to the next multiple of 4.
unfoldable pub pad : List ℕ → Bytes
pad [] = []
pad (u ∷ []) = 0 ∷ 0 ∷ []
pad (u ∷ (v ∷ units)) = pad units

unfoldable pub AllUnits : List ℕ → Type 0
AllUnits [] = Unit {0}
AllUnits (u ∷ units) = (u < 2 ^ 16) × AllUnits units

pub length-pad : (units : List ℕ) → length (pad units) ≡ length units % 2 * 2
unfolding pad
length-pad [] = refl
length-pad (u ∷ []) = refl
length-pad (u ∷ (v ∷ units)) = omega (arith, length-pad units)

pub length-blank_name : (units : List ℕ) → length (blank_name units) ≡ 2 * length units
unfolding blank_name
length-blank_name [] = refl
length-blank_name (u ∷ units) = omega (arith, length-blank_name units)

pub length-name_bytes : (units : List ℕ) → length (name_bytes units) ≡ 2 * length units
unfolding name_bytes to_be
length-name_bytes [] = refl
length-name_bytes (u ∷ units) = omega (arith, length-name_bytes units)

pub entry_size-eq :
    (units : List ℕ) → entry_size (length units) ≡ 20 + 2 * length units + length (pad units)
unfolding entry_size
entry_size-eq units = omega (arith, length-pad units)

pub blank_name_zeros : (units : List ℕ) → blank_name units ≡ replicate (length (blank_name units)) 0
unfolding blank_name
blank_name_zeros [] = refl
blank_name_zeros (u ∷ units) = ap (λ b. 0 ∷ 0 ∷ b) (blank_name_zeros units)

pub pad_zeros : (units : List ℕ) → pad units ≡ replicate (length (pad units)) 0
unfolding pad
pad_zeros [] = refl
pad_zeros (u ∷ []) = refl
pad_zeros (u ∷ (v ∷ units)) = pad_zeros units

pub put_name-append :
    (units pre tail : Bytes) (off i : ℕ)
    → off + i * 2 ≡ length pre
    → put_name (pre ++ (blank_name units ++ tail)) off i units
      ≡ ok (pre ++ (name_bytes units ++ tail))
unfolding put_name blank_name name_bytes
put_name-append [] pre tail off i at = refl
put_name-append (u ∷ units) pre tail off i at =
    rw
      (
        put_u16-append pre (0 ∷ 0 ∷ (blank_name units ++ tail)) (off + i * 2) 0 (omega arith) u
            {r = to_be 2 u ++ (blank_name units ++ tail)} (unfold put_u16 to_be in refl),
        ← append_assoc pre (to_be 2 u) (blank_name units ++ tail),
      )
      (put_name-append units (pre ++ to_be 2 u) tail off (suc i)
          (unfold to_be in omega (arith, length-append pre (to_be 2 u)))
        ∙ ap ok (
            append_assoc pre (to_be 2 u) (name_bytes units ++ tail)
            ∙ ap (λ t. pre ++ t) (sym (append_assoc (to_be 2 u) (name_bytes units) tail))))

pub name_units-append :
    (units pre tail : Bytes) (off i : ℕ)
    → AllUnits units
    → off + i * 2 ≡ length pre
    → name_units (pre ++ (name_bytes units ++ tail)) off i (length units) ≡ ok units
unfolding name_units name_bytes AllUnits
name_units-append [] pre tail off i fit at = refl
name_units-append (u ∷ units) pre tail off i fit at =
    let all : Bytes = pre ++ ((to_be 2 u ++ name_bytes units) ++ tail) in
    let first : get_u16 all (off + i * 2) ≡ ok u =
      get_u16-append pre ((to_be 2 u ++ name_bytes units) ++ tail) (off + i * 2) 0 (omega arith)
      ∙ unfold get_u16 to_be in ap ok (from_be-to_be_two u fit.0) in
    let split : all ≡ (pre ++ to_be 2 u) ++ (name_bytes units ++ tail) =
      ap (λ t. pre ++ t) (append_assoc (to_be 2 u) (name_bytes units) tail)
      ∙ sym (append_assoc pre (to_be 2 u) (name_bytes units ++ tail)) in
    let rest : name_units all off (suc i) (length units) ≡ ok units =
      ap (λ b. name_units b off (suc i) (length units)) split
      ∙ name_units-append units (pre ++ to_be 2 u) tail off (suc i) fit.1
          (unfold to_be in omega (arith, length-append pre (to_be 2 u))) in
    step _ first (step _ rest refl)
