-- ===== src/Prelude/Outcome.antt =====
-- What a Rust call gives back: a value, an `Err`, or a panic (a slice index out of range, an
-- `unwrap` of nothing). A model function names the `Err` by a constructor for its message.
use mathlib.Core.Path.{◌≡◌, refl}
use Prim.Native.Nat.{ℕ}
use mathlib.Core.Bool.{Bool, true, false}
use mathlib.Core.Option.{Option, none, some}
use fs.Prelude.Tests.{◌==◌, if◌then◌else◌}

pub data Error : Type 0 where
  -- fmt.rs
  short_read bad_magic bad_checksum unsupported_version bad_blocksize : Error
  capacity_exceeded bad_length truncated_entry truncated_segment : Error
  too_many_extents name_too_long embedded_directory_full : Error
  -- device.rs
  io_read io_write : Error
  -- fs.rs
  unmapped_block no_agmap no_superblock : Error
  -- journal.rs
  journal_index transaction_too_large larger_than_journal : Error
  -- resize.rs
  unaligned_offset ag_too_small overlaps_ag not_extending no_such_ag not_present immovable : Error
  past_end ag_zero ag_not_empty no_room no_fuel : Error
  -- alloc.rs
  not_table_block table_checksum no_arena_cell no_cells out_of_space : Error
  misaligned_free not_allocated bad_cell_state not_slot_refined no_l1_record : Error
  -- extent.rs
  not_tree_node node_checksum bad_child_state no_mapping not_refinable run_collision : Error
  hole_after_ensure : Error
  -- dir.rs
  not_a_directory bucket_overflow block_is_hole bad_dir_header dir_header_checksum : Error
  table_too_large bad_bucket bucket_checksum already_exists too_deep not_found : Error
  bad_dir_format : Error
  -- fs.rs, files and directories
  no_such_file is_root is_a_directory immutable_file parent_not_directory : Error
  symlink_too_long link_to_directory not_empty not_a_symlink invalid_symlink into_itself : Error
  no_kernel_region kernel_missing kernel_too_large invalid_name bad_file_format : Error

pub data Out {ℓ} (A : Type ℓ) : Type ℓ where
  ok : A → Out A
  err : Error → Out A
  panic : Out A

-- `if !test { return Err(why) }`
abbrev pub ensure : Bool → Error → Out (Unit {0})
ensure false why = err why
ensure true why = ok tt

module _ {ℓ κ} {A : Type ℓ} {B : Type κ} where
  -- The `?` operator.
  infixl 5 ◌>>=◌
  abbrev pub ◌>>=◌ : Out A → (A → Out B) → Out B
  panic >>= next = panic
  err why >>= next = err why
  ok value >>= next = next value

  -- A chain that succeeds succeeded at its first part.
  pub >>=-eq-ok :
      (first : Out A) (next : A → Out B) {result : B}
      → (first >>= next) ≡ ok result
      → (value : A) × (first ≡ ok value) × (next value ≡ ok result)
  >>=-eq-ok panic next done = cc
  >>=-eq-ok (err why) next done = cc
  >>=-eq-ok (ok value) next done = (value, refl, done)

-- A part that returns nothing, then the rest.
infixl 5 ◌>>◌
abbrev pub ◌>>◌ {κ} : {B : Type κ} → Out (Unit {0}) → Out B → Out B
check >> rest = check >>= λ nothing. rest

-- One step of a chain: what the first part returns, then the rest.
pub step {ℓ κ} :
    {A : Type ℓ} {B : Type κ} {m : Out A} (f : A → Out B) {a : A} {r : Out B}
    → m ≡ ok a
    → f a ≡ r
    → (m >>= f) ≡ r
step f e h = rw e h

-- `a / b` and `a % b`, which panic where `b` is 0.
abbrev pub checked {ℓ} : {A : Type ℓ} → ℕ → A → Out A
checked b a = if b == 0 then panic else ok a

-- `unwrap` and `ok_or_else` on an `Option`.
abbrev pub unwrap {ℓ} : {A : Type ℓ} → Option A → Out A
unwrap none = panic
unwrap (some a) = ok a

abbrev pub found_or {ℓ} : {A : Type ℓ} → Option A → Error → Out A
found_or none e = err e
found_or (some a) e = ok a

-- What a result satisfies if there is one.
abbrev pub Holds {ℓ κ} : {A : Type ℓ} → (A → Type κ) → Out A → Type κ
Holds P (ok a) = P a
Holds P (err e) = Unit
Holds P panic = Unit

module _ {ℓ κ λ'} {A : Type ℓ} {B : Type κ} where
  pub Holds-bind :
      (P : B → Type λ') (m : Out A) (f : A → Out B) → ((a : A) → Holds P (f a)) → Holds P (m >>= f)
  Holds-bind P (ok a) f each = each a
  Holds-bind P (err e) f each = tt
  Holds-bind P panic f each = tt

module _ {ℓ κ} {A : Type ℓ} {B : Type κ} where
  -- Two chains with the same first part.
  pub Out_cong :
      (m : Out A) (f f' : A → Out B) → ((a : A) → m ≡ ok a → f a ≡ f' a) → (m >>= f) ≡ (m >>= f')
  Out_cong (ok a) f f' same = same a refl
  Out_cong (err e) f f' same = refl
  Out_cong panic f f' same = refl

pub Holds-if {ℓ κ} :
    {A : Type ℓ} (P : A → Type κ) (b : Bool) (x y : Out A)
    → Holds P x
    → Holds P y
    → Holds P (if b then x else y)
Holds-if P true x y hx hy = hx
Holds-if P false x y hx hy = hy
