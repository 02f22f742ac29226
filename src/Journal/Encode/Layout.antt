-- ===== src/Journal/Encode/Layout.antt =====
-- The bytes of a descriptor and of a commit block, and what the reader makes of them.
use fs.Prelude.{
  ℕ, suc, ◌+◌, ◌-◌, ◌*◌, ◌^◌, ◌≤◌, ◌<◌, ◌≡◌, refl, ap, sym, ◌∙◌, ◌==◌, List, [], ◌∷◌, ◌++◌, ok,
  arith, replicate, replicate-add, ==-refl, length, length-append, step,
}
use mathlib.Core.List.{append_assoc}
use fs.Fmt.Bytes.{Bytes, to_be, put_slice, put_u32, put_u64, get_slice, get_u32, get_u64}
use fs.Fmt.Bytes.Laws.{
  get_u64-append, get_u64_head, put_u64-append, from_be-to_be_four, from_be-to_be_eight,
  length-to_be, bytes_eq_refl,
}
use fs.Fmt.Checksum.{Crc32c, csum}
use fs.Journal.Encode.{jdesc_magic, put_targets, desc_block, commit_block}
use fs.Journal.Replay.{is_valid, read_targets}

unfoldable pub targets_bytes : List ℕ → Bytes
targets_bytes [] = []
targets_bytes (t ∷ targets) = to_be 8 t ++ targets_bytes targets

pub length-targets_bytes : (targets : List ℕ) → length (targets_bytes targets) ≡ length targets * 8
unfolding targets_bytes
length-targets_bytes [] = refl
length-targets_bytes (t ∷ targets) = omega (
  arith,
  length-append (to_be 8 t) (targets_bytes targets),
  length-to_be 8 t,
  length-targets_bytes targets,
)

zeros_split : (a m k : ℕ) → k ≡ a + m → replicate {A = ℕ} k 0 ≡ replicate a 0 ++ replicate m 0
zeros_split a m k e = ap (λ t. replicate t 0) e ∙ replicate-add a m 0

-- The loop of `desc_block` behind a prefix.
put_targets-append :
    (targets : List ℕ) (p pre tail : Bytes) (i : ℕ)
    → p ≡ pre ++ (replicate (length targets * 8) 0 ++ tail)
    → length pre ≡ 24 + i * 8
    → put_targets p i targets ≡ ok (pre ++ (targets_bytes targets ++ tail))
unfolding put_targets targets_bytes
put_targets-append [] p pre tail i here at = ap ok here
put_targets-append (t ∷ targets) p pre tail i here at =
    let n : ℕ = length targets * 8 in
    let here' : p ≡ pre ++ (replicate 8 0 ++ (replicate n 0 ++ tail)) =
      here
      ∙ ap (λ z. pre ++ z)
          (ap (λ z. z ++ tail) (zeros_split 8 n (suc (length targets) * 8) (omega arith))
            ∙ append_assoc (replicate 8 0) (replicate n 0) tail) in
    step _
      (ap (λ b. put_u64 b (24 + i * 8) t) here'
        ∙ put_u64-append pre (replicate 8 0 ++ (replicate n 0 ++ tail)) (24 + i * 8) 0 (omega arith)
            t {r = to_be 8 t ++ (replicate n 0 ++ tail)} (unfold put_u64 put_slice to_be in refl))
      (put_targets-append targets (pre ++ (to_be 8 t ++ (replicate n 0 ++ tail))) (pre ++ to_be 8 t)
          tail (suc i) (sym (append_assoc pre (to_be 8 t) (replicate n 0 ++ tail)))
          (omega (arith, length-append pre (to_be 8 t), length-to_be 8 t))
        ∙ ap ok (regroup pre (to_be 8 t) (targets_bytes targets) tail))
  where
    regroup : (a b c d : Bytes) → (a ++ b) ++ (c ++ d) ≡ a ++ ((b ++ c) ++ d)
    regroup a b c d = simp append_assoc

abbrev pub AllU64 : List ℕ → Type 0
AllU64 [] = Unit {0}
AllU64 (t ∷ targets) = (t < 2 ^ 64) × AllU64 targets

pub read_targets-append :
    (targets : List ℕ) (p pre tail : Bytes) (i : ℕ)
    → p ≡ pre ++ (targets_bytes targets ++ tail)
    → length pre ≡ 24 + i * 8
    → AllU64 targets
    → read_targets p i (length targets) ≡ ok targets
unfolding read_targets targets_bytes
read_targets-append [] p pre tail i here at all = refl
read_targets-append (t ∷ targets) p pre tail i here at all =
    let rest = targets_bytes targets ++ tail in
    let here' : p ≡ pre ++ (to_be 8 t ++ rest) =
      here ∙ ap (λ z. pre ++ z) (append_assoc (to_be 8 t) (targets_bytes targets) tail) in
    step _
      (ap (λ b. get_u64 b (24 + i * 8)) here'
        ∙ (get_u64-append pre (to_be 8 t ++ rest) (24 + i * 8) 0 (omega arith)
            ∙ get_u64_head t rest all.0))
      (step _
        (read_targets-append targets p (pre ++ to_be 8 t) tail (suc i)
          (here' ∙ sym (append_assoc pre (to_be 8 t) rest))
          (omega (arith, length-append pre (to_be 8 t), length-to_be 8 t)) all.1)
        refl)

module _ ⦃crc : Crc32c⦄ where
  -- What both blocks have in common: magic, checksum, sequence number, a 32-bit word, and the rest.
  module _ (a b c d seq word : ℕ) (rest : Bytes) where
    unfoldable pub block_sum : ℕ
    unfolding to_be
    block_sum =
        crc.crc32c_append (crc.crc32c_append (crc.crc32c (a ∷ b ∷ c ∷ d ∷ [])) (0 ∷ 0 ∷ 0 ∷ 0 ∷ []))
          (to_be 8 seq ++ (to_be 4 word ++ rest))

    unfoldable pub block : Bytes
    unfolding to_be block_sum
    block = a ∷ b ∷ c ∷ d ∷ (to_be 4 block_sum ++ (to_be 8 seq ++ (to_be 4 word ++ rest)))

    block_sum-lt : block_sum < 2 ^ 32
    unfolding block_sum
    block_sum-lt = crc.crc32c_append-lt _ _

    pub is_valid-block :
        (s : ℕ) → seq < 2 ^ 64 → is_valid block (a ∷ b ∷ c ∷ d ∷ []) s ≡ ok (seq == s)
    unfolding is_valid block get_slice get_u32 get_u64 csum
    is_valid-block s h = rw (
      from_be-to_be_four block_sum block_sum-lt,
      ==-refl block_sum,
      from_be-to_be_eight seq h,
      bytes_eq_refl (a ∷ b ∷ c ∷ d ∷ []),
    )

    pub word-block : word < 2 ^ 32 → get_u32 block 16 ≡ ok word
    unfolding block get_u32 get_slice
    word-block h = ap ok (from_be-to_be_four word h)

    pub length-block : length block ≡ 20 + length rest
    unfolding block
    length-block = omega arith

  pub block_eq-desc :
      (bs seq : ℕ) (targets : List ℕ)
      → 24 + length targets * 8 ≤ bs
      → desc_block bs seq targets
        ≡ ok (
            block b'5' b'F' b'S' b'J' seq (length targets) (
              0
              ∷ 0
              ∷ 0
              ∷ 0
              ∷ (targets_bytes targets ++ replicate (bs - 24 - length targets * 8) 0)))
  unfolding desc_block block put_slice put_u32 put_u64 csum
  block_eq-desc bs seq targets fits =
      let n : ℕ = length targets * 8 in
      let z : ℕ = bs - 24 - n in
      let tail : Bytes = replicate n 0 ++ replicate z 0 in
      let pre : Bytes =
        jdesc_magic
        ++ (0 ∷ 0 ∷ 0 ∷ 0 ∷ (to_be 8 seq ++ (to_be 4 (length targets) ++ (0 ∷ 0 ∷ 0 ∷ 0 ∷ [])))) in
      let size : bs ≡ 24 + (n + z) = omega arith in
      rw (zeros_split 24 (n + z) bs size ∙ ap (λ t. replicate 24 0 ++ t) (replicate-add n z 0))
        (step _ (put_targets-append targets (pre ++ tail) pre (replicate z 0) 0 refl refl) refl)

  pub block_eq-commit :
      (bs seq sum : ℕ)
      → 20 ≤ bs
      → commit_block bs seq sum ≡ ok (block b'5' b'F' b'S' b'C' seq sum (replicate (bs - 20) 0))
  unfolding commit_block block put_slice put_u32 put_u64 csum
  block_eq-commit bs seq sum fits = rw (zeros_split 20 (bs - 20) bs (omega arith)) refl

  pub read_targets-block :
      (a b c d seq word : ℕ) (targets : List ℕ) (tail : Bytes)
      → AllU64 targets
      → read_targets
          (block a b c d seq word (0 ∷ 0 ∷ 0 ∷ 0 ∷ (targets_bytes targets ++ tail)))
          0
          (length targets)
        ≡ ok targets
  unfolding block to_be
  read_targets-block a b c d seq word targets tail all =
      let rest : Bytes = 0 ∷ 0 ∷ 0 ∷ 0 ∷ (targets_bytes targets ++ tail) in
      let sum : ℕ = block_sum a b c d seq word rest in
      read_targets-append targets (block a b c d seq word rest)
        (a ∷ b ∷ c ∷ d ∷ (to_be 4 sum ++ (to_be 8 seq ++ (to_be 4 word ++ (0 ∷ 0 ∷ 0 ∷ 0 ∷ [])))))
        tail 0 refl refl all
