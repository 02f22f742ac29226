-- ===== src/File/Paths/Names.antt =====
-- src/fs.rs: a path that ends in a name leads to the directory of the path before the name.
use fs.File.Paths.{
  onto_first, split_slash, real_parts, components, split_last, lookup_path, resolve_parent,
}
use fs.File.Op.{check_name}
use fs.Dir.Hash.{SipHash24}
use fs.Fmt.Bytes.{bytes_eq}
use fs.Fmt.Checksum.{Crc32c}
use fs.Prelude.{
  ℕ, ◌≡◌, refl, ap, ◌∙◌, inl, inr, false, ◌||◌, some, List, [], ◌∷◌, ◌++◌, length, ◌==◌, Bool-cases,
  any, checked, ok, Bool, true, if◌then◌else◌, Error, Out, invalid_name, err,
}
use fs.Fs.{Gofs}

onto_first-append :
    (u : ℕ) (cs ds : List (List ℕ)) {c : List ℕ} {rest : List (List ℕ)}
    → cs ≡ c ∷ rest
    → onto_first u (cs ++ ds) ≡ onto_first u cs ++ ds
unfolding onto_first
onto_first-append u cs ds e = rw e refl

-- There is always a first part.
split_slash_cons : (p : List ℕ) → (c : List ℕ) × (rest : List (List ℕ)) × (split_slash p ≡ c ∷ rest)
unfolding split_slash onto_first
split_slash_cons [] = ([], [], refl)
split_slash_cons (u ∷ p) = elim (Bool-cases (u == b'/')) [
  | inl e ↦ ([], split_slash p, rw e refl)
  | inr e ↦ let (c, rest, split) = split_slash_cons p in (u ∷ c, rest, rw (e, split) refl)
]

split_slash-append : (p q : List ℕ) → split_slash (p ++ b'/' ∷ q) ≡ split_slash p ++ split_slash q
unfolding split_slash
split_slash-append [] q = refl
split_slash-append (u ∷ p) q = elim (Bool-cases (u == b'/')) [
  | inl e ↦ rw (e, split_slash-append p q) refl
  | inr e ↦
      let (c, rest, split) = split_slash_cons p in
      rw (e, split_slash-append p q) (onto_first-append u (split_slash p) (split_slash q) split)
]

real_parts-append : (cs ds : List (List ℕ)) → real_parts (cs ++ ds) ≡ real_parts cs ++ real_parts ds
unfolding real_parts
real_parts-append [] ds = refl
real_parts-append (c ∷ cs) ds = elim (Bool-cases (length c == 0 || bytes_eq c (b'.' ∷ []))) [
  | inl e ↦ rw e (real_parts-append cs ds)
  | inr e ↦ rw e (ap (λ rest. c ∷ rest) (real_parts-append cs ds))
]

split_last-append : (cs : List (List ℕ)) (c : List ℕ) → split_last (cs ++ c ∷ []) ≡ some (c, cs)
unfolding split_last
split_last-append [] c = refl
split_last-append (d ∷ cs) c = rw (split_last-append cs c) refl

or_parts : (a b : Bool) → (a || b) ≡ false → (a ≡ false) × (b ≡ false)
or_parts true b h = cc
or_parts false b h = (refl, h)

not_refused :
    (b : Bool) (e : Error) (r : Out (Unit {0})) → (if b then err e else r) ≡ ok tt → b ≡ false
not_refused true e r h = cc
not_refused false e r h = refl

split_slash-no_slash :
    (name : List ℕ) → any (λ u. u == b'/') name ≡ false → split_slash name ≡ name ∷ []
unfolding split_slash onto_first
split_slash-no_slash [] none_is = refl
split_slash-no_slash (u ∷ name) none_is =
    let (this, rest) = or_parts (u == b'/') (any (λ u. u == b'/') name) none_is in
    rw (this, split_slash-no_slash name rest) refl

-- What a name that passes the test is not.
check_name-parts :
    (name : List ℕ)
    → check_name name ≡ ok tt
    → (any (λ u. u == b'/') name ≡ false)
      × ((length name == 0 || bytes_eq name (b'.' ∷ [])) ≡ false)
unfolding check_name
check_name-parts name accepted =
    let empty = length name == 0 in
    let slash = any (λ u. u == b'/') name in
    let dot = bytes_eq name (b'.' ∷ []) in
    let dots = bytes_eq name (b'.' ∷ b'.' ∷ []) in
    let allowed = not_refused (empty || slash || dot || dots) invalid_name _ accepted in
    let (allowed, no_dots) = or_parts (empty || slash || dot) dots allowed in
    let (allowed, no_dot) = or_parts (empty || slash) dot allowed in
    let (full, no_slash) = or_parts empty slash allowed in (no_slash, rw (full, no_dot) refl)

-- A path that goes on with a slash and a name that `check_name` accepts has the parts of the path and the name.
components-append :
    (p name : List ℕ)
    → check_name name ≡ ok tt
    → components (p ++ b'/' ∷ name) ≡ components p ++ name ∷ []
unfolding components
components-append p name checked =
    let (no_slash, real) = check_name-parts name checked in
    let single : real_parts (name ∷ []) ≡ name ∷ [] = unfold real_parts in rw real refl in
    ap real_parts (split_slash-append p name)
    ∙ real_parts-append (split_slash p) (split_slash name)
    ∙ ap (λ cs. real_parts (split_slash p) ++ real_parts cs) (split_slash-no_slash name no_slash)
    ∙ ap (λ cs. real_parts (split_slash p) ++ cs) single

module _ ⦃crc : Crc32c⦄ ⦃sip : SipHash24⦄ (levels : ℕ) where
  -- Where `lookup_path` finds an inode for a path, `resolve_parent` of the path that goes on with a slash and a
  -- name that `check_name` accepts returns this inode and the name.
  pub resolve_parent-lookup_path :
      (g : Gofs) (p name : List ℕ) (dir : ℕ)
      → check_name name ≡ ok tt
      → lookup_path levels g p ≡ ok dir
      → resolve_parent levels g (p ++ b'/' ∷ name) ≡ ok (dir, name)
  unfolding resolve_parent lookup_path
  resolve_parent-lookup_path g p name dir checked found =
      rw (components-append p name checked, split_last-append (components p) name, found) refl
