-- ===== src/Alloc/Record.antt =====
-- src/alloc.rs, the 128-byte table record: 16 states of 2 bits, then 16 references of 6 bytes (a block
-- and a record index); and the scan orders.
pub mod Runs
pub mod Complete
pub mod Order
use fs.Prelude.{
  ℕ, zero, suc, ◌+◌, ◌-◌, ◌*◌, ◌/◌, ◌%◌, ◌^◌, Bool, true, false, Option, none, some, List, [], ◌∷◌,
  ◌++◌, Out, ok, ◌==◌, if◌then◌else◌, ◌>>=◌, ◌>>◌,
}
use fs.Fmt.Bytes.{Bytes, get_prefix, get_u16, get_u32, put_u16, put_u32, put_slice}
use fs.Fmt.Cells.{cell_get, cell_set, cell_free}

abbrev pub alloc_fanout : ℕ
alloc_fanout = 16

abbrev pub rec_size : ℕ
rec_size = 128

-- A table block and the index of a record in it.
abbrev pub RecRef : Type 0
RecRef = ℕ × ℕ

-- `(bs / REC_SIZE - 1) as u16`
unfoldable pub recs_per_block : ℕ → ℕ
recs_per_block bs = (bs / rec_size + 2 ^ 16 - 1) % 2 ^ 16

unfoldable pub rec_off : ℕ → ℕ
rec_off idx = rec_size * (1 + idx)

unfoldable pub rec_state : Bytes → ℕ → Out ℕ
rec_state rec i = do states ← get_prefix rec 4; cell_get states i

unfoldable pub rec_state_set : Bytes → ℕ → ℕ → Out Bytes
rec_state_set rec i st = do
  states ← get_prefix rec 4
  states ← cell_set states i st
  put_slice rec 0 states

unfoldable pub rec_ref : Bytes → ℕ → Out RecRef
rec_ref rec i = do
  block ← get_u32 rec (4 + i * 6)
  idx ← get_u16 rec (4 + i * 6 + 4)
  ok (block, idx)

unfoldable pub rec_ref_set : Bytes → ℕ → RecRef → Out Bytes
rec_ref_set rec i r = do rec ← put_u32 rec (4 + i * 6) r.0; put_u16 rec (4 + i * 6 + 4) r.1

-- `(i..i + n).all(|i| rec_state(rec, i) == st)`
unfoldable pub all_from : Bytes → ℕ → ℕ → ℕ → Out Bool
all_from rec st i zero = ok true
all_from rec st i (suc n) = do
  s ← rec_state rec i
  let rest = all_from rec st (suc i) n
  if s == st then rest else ok false

unfoldable pub rec_all : Bytes → ℕ → Out Bool
unfolding all_from
rec_all rec st = all_from rec st 0 alloc_fanout

-- `for i in start..start + m { rec_state_set(rec, i, st) }`
unfoldable pub set_run : Bytes → ℕ → ℕ → ℕ → Out Bytes
set_run rec start zero st = ok rec
set_run rec start (suc m) st = do rec ← rec_state_set rec start st; set_run rec (suc start) m st

-- `(i..i + n).find(|&i| rec_state(rec, i) == st)`
unfoldable pub find_state : Bytes → ℕ → ℕ → ℕ → Out (Option ℕ)
find_state rec st i zero = ok none
find_state rec st i (suc n) = do
  s ← rec_state rec i
  let rest = find_state rec st (suc i) n
  if s == st then ok (some i) else rest

-- The loop of `find_run` at child `i` with `n` left and a run of `run` FREE children before it.
unfoldable pub run_from : Bytes → ℕ → ℕ → ℕ → ℕ → Out (Option ℕ)
run_from rec m i run zero = ok none
run_from rec m i run (suc n) = do
  s ← rec_state rec i
  let longer = run_from rec m (suc i) (run + 1) n
  let restart = run_from rec m (suc i) 0 n
  if s == cell_free then (if run + 1 == m then ok (some (i + 1 - m)) else longer) else restart

unfoldable pub find_run : Bytes → ℕ → Out (Option ℕ)
unfolding run_from
find_run rec m = run_from rec m 0 0 alloc_fanout

-- `i..i + n`
unfoldable pub range_from : ℕ → ℕ → List ℕ
range_from i zero = []
range_from i (suc n) = i ∷ range_from (suc i) n

-- Every index below `len` once, from `start` on and around.
unfoldable pub wrap_range : ℕ → ℕ → List ℕ
unfolding range_from
wrap_range start len =
    let s = if len == 0 then 0 else start % len in range_from s (len - s) ++ range_from 0 s
