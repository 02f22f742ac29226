-- ===== src/Fmt/Cells/Laws.antt =====
-- A state that is set is the one that is read, and no other state of the array changes.
use fs.Prelude.{
  ℕ, ◌*◌, ◌/◌, ◌%◌, ◌≤◌, ◌<◌, ◌≡◌, refl, Bool, true, ok, panic, arith, ◌==◌, ==_iff, if◌then◌else◌,
  length, get_or, set, length-set, get_or-set_self, get_or-set_ne, le_or_lt, inl, inr, ltb, ltb→lt,
  get_or_out, Bool-cases,
}
use fs.Prelude.Bits.{all_below, all_below_sound}
use fs.Fmt.Bytes.{Bytes}
use fs.Fmt.Bytes.Laws.{get_byte-eq-get_or, put_byte-eq-set, get_byte_out}
use fs.Fmt.Cells.{get_bits, set_bits, cell_get, cell_set}

abbrev pub IsBytes : Bytes → Type 0
IsBytes b = (i : ℕ) → i < length b → get_or b i 0 < 256

abbrev pub bits_agree : ℕ → ℕ → ℕ → ℕ → Bool
bits_agree x k s m =
    get_bits (set_bits x (k * 2) s) (m * 2) == (if m == k then s else get_bits x (m * 2))

bits_table :
    all_below 256 (λ x. all_below 4 (λ k. all_below 4 (λ s. all_below 4 (λ m. bits_agree x k s m))))
    ≡ true
unfolding all_below get_bits set_bits
bits_table = refl

get_bits-set_bits :
    (x k s m : ℕ)
    → x < 256
    → k < 4
    → s < 4
    → m < 4
    → get_bits (set_bits x (k * 2) s) (m * 2) ≡ (if m == k then s else get_bits x (m * 2))
get_bits-set_bits x k s m hx hk hs hm = (==_iff _ _).0 (
    all_below_sound 4 _ m
      (all_below_sound 4 _ s (all_below_sound 4 _ k (all_below_sound 256 _ x bits_table hx) hk) hs)
      hm)

get_bits_byte_lt : (b : Bytes) (i : ℕ) → IsBytes b → get_or b i 0 < 256
get_bits_byte_lt b i h = elim (le_or_lt (length b) i) [
  | inl out ↦ rw (get_or_out b i out) (omega arith)
  | inr within ↦ h i within
]

set_bits_table :
    all_below 256 (λ x. all_below 4 (λ k. all_below 4 (λ s. ltb (set_bits x (k * 2) s) 256))) ≡ true
unfolding all_below set_bits
set_bits_table = refl

set_bits-lt : (x k s : ℕ) → x < 256 → k < 4 → s < 4 → set_bits x (k * 2) s < 256
set_bits-lt x k s hx hk hs = ltb→lt _ _ (
    all_below_sound 4 _ s (all_below_sound 4 _ k (all_below_sound 256 _ x set_bits_table hx) hk) hs)

-- What the array holds after a write at `idx`.
written : Bytes → ℕ → ℕ → Bytes
written buf idx state = set buf (idx / 4) (set_bits (get_or buf (idx / 4) 0) (idx % 4 * 2) state)

cell_set-eq-written :
    (buf : Bytes) (idx state : ℕ)
    → idx / 4 < length buf
    → cell_set buf idx state ≡ ok (written buf idx state)
unfolding cell_set written
cell_set-eq-written buf idx state h =
    rw (get_byte-eq-get_or buf (idx / 4) h, put_byte-eq-set buf (idx / 4) _ h)

length-written : (buf : Bytes) (idx state : ℕ) → length (written buf idx state) ≡ length buf
unfolding written
length-written buf idx state = length-set buf (idx / 4) _

IsBytes-written :
    (buf : Bytes) (idx state : ℕ) → IsBytes buf → state < 4 → IsBytes (written buf idx state)
unfolding written
IsBytes-written buf idx state hb hs i hi = elim (Bool-cases (i == idx / 4)) [
  | inl same ↦ rw ((==_iff i (idx / 4)).0 same) (
      rw
        (get_or-set_self buf (idx / 4) _ 0 (
          rw (← (==_iff i (idx / 4)).0 same) (
            rw (← length-set buf (idx / 4) (set_bits (get_or buf (idx / 4) 0) (idx % 4 * 2) state))
              hi)))
        (set_bits-lt _ _ _ (get_bits_byte_lt buf (idx / 4) hb) (omega arith) hs))
  | inr other ↦
      rw (get_or-set_ne buf (idx / 4) i _ 0 (λ e. ground arith)) (get_bits_byte_lt buf i hb)
]

cell_get_in :
    (buf : Bytes) (j : ℕ)
    → j / 4 < length buf
    → cell_get buf j ≡ ok (get_bits (get_or buf (j / 4) 0) (j % 4 * 2))
unfolding cell_get
cell_get_in buf j h = rw (get_byte-eq-get_or buf (j / 4) h)

cell_get_out : (buf : Bytes) (j : ℕ) → length buf ≤ j / 4 → cell_get buf j ≡ panic
unfolding cell_get
cell_get_out buf j h = rw (get_byte_out buf (j / 4) h)

byte_written :
    (buf : Bytes) (idx state j : ℕ)
    → IsBytes buf
    → idx / 4 < length buf
    → state < 4
    → get_bits (get_or (written buf idx state) (j / 4) 0) (j % 4 * 2)
      ≡ (if j == idx then state else get_bits (get_or buf (j / 4) 0) (j % 4 * 2))
unfolding written
byte_written buf idx state j hb hi hs = elim (Bool-cases (j / 4 == idx / 4)) [
  | inl same ↦
      let e : j / 4 ≡ idx / 4 = (==_iff _ _).0 same in
      rw
        (
          e,
          get_or-set_self buf (idx / 4) (set_bits (get_or buf (idx / 4) 0) (idx % 4 * 2) state) 0
              hi,
        )
        (ground (
          arith,
          get_bits-set_bits (get_or buf (idx / 4) 0) (idx % 4) state (j % 4)
              (get_bits_byte_lt buf (idx / 4) hb) (omega arith) hs (omega arith),
        ))
  | inr other ↦
      rw
        (get_or-set_ne buf (idx / 4) (j / 4) (set_bits (get_or buf (idx / 4) 0) (idx % 4 * 2) state)
          0 (λ e. ground arith))
        (ground arith)
]

-- In a buffer of bytes, a write of a state at an index in range succeeds and keeps the length; a read
-- then gives that state at the index and, at every other index, what it gave before.
pub cell_get-cell_set :
    (buf : Bytes) (idx state : ℕ)
    → IsBytes buf
    → idx / 4 < length buf
    → state < 4
    → (b : Bytes) × (cell_set buf idx state ≡ ok b)
      × (length b ≡ length buf)
      × IsBytes b
      × ((j : ℕ) → cell_get b j ≡ (if j == idx then ok state else cell_get buf j))
cell_get-cell_set buf idx state hb hi hs = (
  written buf idx state,
  cell_set-eq-written buf idx state hi,
  length-written buf idx state,
  IsBytes-written buf idx state hb hs,
  λ j. elim (le_or_lt (length buf) (j / 4)) [
    | inl out ↦
        rw
          (
            cell_get_out buf j out,
            cell_get_out (written buf idx state) j (omega (arith, length-written buf idx state)),
          )
          (ground arith)
    | inr within ↦
        rw
          (
            cell_get_in buf j within,
            cell_get_in (written buf idx state) j (omega (arith, length-written buf idx state)),
          )
          (ground (arith, byte_written buf idx state j hb hi hs))
  ],
)
