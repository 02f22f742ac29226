-- ===== src/Dir/Insert/Partition.antt =====
-- src/dir.rs: what splitting a bucket does to the entry that `dir_find` finds in it.
use fs.Dir.Insert.{partition}
use fs.Dir.Bucket.{HEntry}
use fs.Dir.Find.{hposition, entry_at}
use fs.Fmt.Bytes.{bytes_eq}
use fs.Prelude.{
  ℕ, suc, ◌/◌, ◌%◌, ◌^◌, ◌≡◌, refl, inl, inr, Bool, true, false, ◌&&◌, Option, none, some, List, [],
  ◌∷◌, ◌==◌, if◌then◌else◌, Bool-cases, sym, ap, ◌∙◌, ◌⊎◌, not, arith,
}

-- Whether an entry is the one looked for.
abbrev pub matches : ℕ → List ℕ → HEntry → Bool
matches h name e = e.hash == h && bytes_eq e.name name

-- The first entry of a bucket with a hash and a name.
abbrev pub find_in : ℕ → List ℕ → List HEntry → Option HEntry
find_in h name es = entry_at es (hposition h name es)

entry_at-suc :
    (e : HEntry) (es : List HEntry) (i : Option ℕ)
    → entry_at (e ∷ es) (mathlib.Core.Option.map suc i) ≡ entry_at es i
unfolding entry_at
entry_at-suc e es none = refl
entry_at-suc e es (some i) = refl

pub find_in_skip :
    (h : ℕ) (name : List ℕ) (e : HEntry) (es : List HEntry)
    → matches h name e ≡ false
    → find_in h name (e ∷ es) ≡ find_in h name es
unfolding hposition
find_in_skip h name e es no_match = rw no_match (entry_at-suc e es (hposition h name es))

pub find_in_here :
    (h : ℕ) (name : List ℕ) (e : HEntry) (es : List HEntry)
    → matches h name e ≡ true
    → find_in h name (e ∷ es) ≡ some e
unfolding hposition entry_at
find_in_here h name e es match = rw match refl

-- The half of a split bucket that a hash belongs to.
abbrev pub half_of : ℕ → ℕ → List HEntry × List HEntry → List HEntry
half_of bit h halves = if h / 2 ^ bit % 2 == 0 then halves.0 else halves.1

abbrev bit_clear : ℕ → ℕ → Bool
bit_clear bit n = n / 2 ^ bit % 2 == 0

-- An entry goes into the half of each hash with its bit.
half_same :
    (bit h : ℕ) (e : HEntry) (es : List HEntry)
    → bit_clear bit e.hash ≡ bit_clear bit h
    → half_of bit h (partition bit (e ∷ es)) ≡ e ∷ half_of bit h (partition bit es)
unfolding partition
half_same bit h e es same = elim (Bool-cases (bit_clear bit h)) [
  | inl b ↦ rw (b, same ∙ b) refl
  | inr b ↦ rw (b, same ∙ b) refl
]

half_other :
    (bit h : ℕ) (e : HEntry) (es : List HEntry)
    → bit_clear bit e.hash ≡ not (bit_clear bit h)
    → half_of bit h (partition bit (e ∷ es)) ≡ half_of bit h (partition bit es)
unfolding partition
half_other bit h e es other = elim (Bool-cases (bit_clear bit h)) [
  | inl b ↦ rw (b, other ∙ ap not b) refl
  | inr b ↦ rw (b, other ∙ ap not b) refl
]

matches-hash : (h : ℕ) (name : List ℕ) (e : HEntry) → matches h name e ≡ true → e.hash ≡ h
matches-hash h name e m = ground arith

same_or_not : (a b : Bool) → (a ≡ b) ⊎ (a ≡ not b)
same_or_not true true = inl refl
same_or_not true false = inr refl
same_or_not false true = inr refl
same_or_not false false = inl refl

-- The entry that is find_in in a bucket for a hash and a name is found, after a split by a bit of the hash, in
-- the half that the bit of the hash selects.
pub find_in-partition :
    (bit h : ℕ) (name : List ℕ) (es : List HEntry)
    → find_in h name (half_of bit h (partition bit es)) ≡ find_in h name es
find_in-partition bit h name [] = elim (Bool-cases (bit_clear bit h)) [
  | inl b ↦ unfold partition in rw b refl
  | inr b ↦ unfold partition in rw b refl
]
find_in-partition bit h name (e ∷ es) = elim (Bool-cases (matches h name e)) [
  | inl m ↦
      let same : bit_clear bit e.hash ≡ bit_clear bit h =
        ap (bit_clear bit) (matches-hash h name e m) in
      ap (find_in h name) (half_same bit h e es same)
      ∙ find_in_here h name e (half_of bit h (partition bit es)) m
      ∙ sym (find_in_here h name e es m)
  | inr m ↦ elim (same_or_not (bit_clear bit e.hash) (bit_clear bit h)) [
    | inl same ↦
        ap (find_in h name) (half_same bit h e es same)
        ∙ find_in_skip h name e (half_of bit h (partition bit es)) m
        ∙ find_in-partition bit h name es
        ∙ sym (find_in_skip h name e es m)
    | inr other ↦
        ap (find_in h name) (half_other bit h e es other)
        ∙ find_in-partition bit h name es
        ∙ sym (find_in_skip h name e es m)
  ]
]
