-- ===== src/Fmt/Extents/Roundtrip.antt =====
-- Inline extents that are stored are the ones that are parsed.
use fs.Prelude.{
  ℕ, zero, suc, ◌+◌, ◌-◌, ◌*◌, ◌^◌, ◌≤◌, ◌<◌, ◌≡◌, refl, ap, sym, ◌∙◌, List, [], ◌∷◌, ◌++◌, ok, err,
  ◌≢◌, arith, replicate, ==_false, length, le→leb, lt→leb, too_many_extents, length-replicate,
  length-append, replicate-add, step,
}
use mathlib.Core.List.{append_assoc}
use fs.Fmt.Bytes.{Bytes, to_be, put_u32, put_u64, get_u32, get_u64, from_be}
use fs.Fmt.Bytes.Laws.{
  get_u32-append, get_u64-append, put_u32-append, put_u64-append, from_be-to_be_four,
  from_be-to_be_eight,
}
use fs.Fmt.Extents.{Extent, parse_from, extents_parse, put_extent, store_from, extents_store}

-- The fields fit their widths, and the run is not empty.
pub record IsRun (e : Extent) : Type 0 where
  pub file_block : e.file_block < 2 ^ 64
  pub blk : e.blk < 2 ^ 64
  pub blocks : e.blocks < 2 ^ 32
  pub some_blocks : 0 < e.blocks

abbrev pub AllRuns : List Extent → Type 0
AllRuns [] = Unit {0}
AllRuns (e ∷ es) = IsRun e × AllRuns es

extent_bytes : Extent → Bytes
unfolding to_be
extent_bytes e = to_be 8 e.file_block ++ (to_be 8 e.blk ++ to_be 4 e.blocks)

length-extent_bytes : (e : Extent) → length (extent_bytes e) ≡ 20
unfolding extent_bytes
length-extent_bytes e = refl

flat : List Extent → Bytes
flat [] = []
flat (e ∷ es) = extent_bytes e ++ flat es

-- Zeros for `n` records and `m` bytes behind them.
room : ℕ → ℕ → Bytes
room zero m = replicate m 0
room (suc n) m = replicate 20 0 ++ room n m

room-eq-replicate : (n m k : ℕ) → k ≡ n * 20 + m → replicate k 0 ≡ room n m
unfolding room
room-eq-replicate zero m k h = ap (λ t. replicate t 0) (omega arith)
room-eq-replicate (suc n) m k h =
    ap (λ t. replicate t 0) (let e : k ≡ 20 + (k - 20) = omega arith in e)
    ∙ (replicate-add 20 (k - 20) 0
        ∙ ap (λ l. replicate 20 0 ++ l) (room-eq-replicate n m (k - 20) (omega arith)))

module _ (e : Extent) (pre tail : Bytes) (off : ℕ) (at : off ≡ length pre) where
  store_one :
      put_extent (pre ++ (replicate 20 0 ++ tail)) off e ≡ ok (pre ++ (extent_bytes e ++ tail))
  unfolding put_extent extent_bytes to_be
  store_one =
      rw
        (
          put_u64-append pre (replicate 20 0 ++ tail) off 0 (omega arith) e.file_block
              {r = to_be 8 e.file_block ++ (replicate 12 0 ++ tail)} (unfold put_u64 in refl),
          put_u64-append pre (to_be 8 e.file_block ++ (replicate 12 0 ++ tail)) (off + 8) 8
              (omega arith) e.blk
              {r = to_be 8 e.file_block ++ (to_be 8 e.blk ++ (replicate 4 0 ++ tail))}
              (unfold put_u64 in refl),
        )
        (put_u32-append pre (to_be 8 e.file_block ++ (to_be 8 e.blk ++ (replicate 4 0 ++ tail)))
          (off + 16) 16 (omega arith) e.blocks (unfold put_u32 in refl))

  parse_one :
      IsRun e
      → (get_u32 (pre ++ (extent_bytes e ++ tail)) (off + 16) ≡ ok e.blocks)
        × (get_u64 (pre ++ (extent_bytes e ++ tail)) off ≡ ok e.file_block)
        × (get_u64 (pre ++ (extent_bytes e ++ tail)) (off + 8) ≡ ok e.blk)
  unfolding extent_bytes to_be
  parse_one r = (
    get_u32-append pre (extent_bytes e ++ tail) (off + 16) 16 (omega arith)
        ∙ unfold get_u32 in ap ok (from_be-to_be_four e.blocks r.blocks),
    get_u64-append pre (extent_bytes e ++ tail) off 0 (omega arith)
        ∙ unfold get_u64 in ap ok (from_be-to_be_eight e.file_block r.file_block),
    get_u64-append pre (extent_bytes e ++ tail) (off + 8) 8 (omega arith)
        ∙ unfold get_u64 in ap ok (from_be-to_be_eight e.blk r.blk),
  )

store_from-flat :
    (es : List Extent) (pre : Bytes) (i m : ℕ)
    → length pre ≡ i * 20
    → store_from (pre ++ room (length es) m) i es ≡ ok (pre ++ (flat es ++ replicate m 0))
unfolding store_from flat room
store_from-flat [] pre i m h = refl
store_from-flat (e ∷ es) pre i m h =
    rw (store_one e pre (room (length es) m) (i * 20) (sym h), ← append_assoc pre (extent_bytes e))
      (store_from-flat es (pre ++ extent_bytes e) (suc i) m
          (omega (arith, length-append pre (extent_bytes e), length-extent_bytes e))
        ∙ ap ok (
            append_assoc pre (extent_bytes e) (flat es ++ replicate m 0)
            ∙ ap (λ t. pre ++ t) (sym (append_assoc (extent_bytes e) (flat es) (replicate m 0)))))

zero_blocks :
    (pre : Bytes) (i z : ℕ)
    → length pre ≡ i * 20
    → 20 ≤ z
    → get_u32 (pre ++ replicate z 0) (i * 20 + 16) ≡ ok 0
unfolding get_u32 from_be
zero_blocks pre i z h big =
    get_u32-append pre (replicate z 0) (i * 20 + 16) 16 (omega arith)
    ∙ (let e : z ≡ 20 + (z - 20) = omega arith in rw (e, replicate-add {A = ℕ} 20 (z - 20) 0) refl)

-- The loop that parses goes through the stored records, and stops at the first record of zeros or
-- with its rounds.
parse_from-flat :
    (es : List Extent) (p pre : Bytes) (i n z : ℕ)
    → p ≡ pre ++ (flat es ++ replicate z 0)
    → length pre ≡ i * 20
    → length es ≤ n
    → n * 20 ≤ length es * 20 + z
    → AllRuns es
    → parse_from p i n ≡ ok es
unfolding flat parse_from
parse_from-flat [] p pre i zero z at h le big runs = refl
parse_from-flat [] p pre i (suc n) z at h le big runs =
    step _ (ap (λ b. get_u32 b (i * 20 + 16)) at ∙ zero_blocks pre i z h (omega arith)) refl
parse_from-flat (e ∷ es) p pre i zero z at h le big runs = absurd (omega arith)
parse_from-flat (e ∷ es) p pre i (suc n) z at h le big runs =
    let tail = flat es ++ replicate z 0 in
    let at' : p ≡ pre ++ (extent_bytes e ++ tail) =
      at ∙ ap (λ t. pre ++ t) (append_assoc (extent_bytes e) (flat es) (replicate z 0)) in
    let one = parse_one e pre tail (i * 20) (sym h) runs.0 in
    let pos : e.blocks ≢ 0 = λ q. absurd (omega (arith, runs.0.some_blocks)) in
    let rest =
      parse_from-flat es p (pre ++ extent_bytes e) (suc i) n z
        (at' ∙ sym (append_assoc pre (extent_bytes e) tail))
        (omega (arith, length-append pre (extent_bytes e), length-extent_bytes e)) (omega arith)
        (omega arith) runs.1 in
    step _ (ap (λ b. get_u32 b (i * 20 + 16)) at' ∙ one.0) (
      rw (==_false e.blocks 0 pos) (
        step _ (ap (λ b. get_u64 b (i * 20)) at' ∙ one.1)
          (step _ (ap (λ b. get_u64 b (i * 20 + 8)) at' ∙ one.2) (step _ rest refl))))

length-flat : (es : List Extent) → length (flat es) ≡ length es * 20
unfolding flat
length-flat [] = refl
length-flat (e ∷ es) =
    omega (arith, length-append (extent_bytes e) (flat es), length-extent_bytes e, length-flat es)

-- At most six runs that fit their widths and are not empty are stored in a 128-byte payload, whatever
-- it held, and parse back to the same list.
pub extents_parse-extents_store :
    (payload : Bytes) (es : List Extent)
    → length payload ≡ 128
    → length es ≤ 6
    → AllRuns es
    → (p : Bytes) × (extents_store payload es ≡ ok p) × (length p ≡ 128) × (extents_parse p ≡ ok es)
unfolding extents_store extents_parse
extents_parse-extents_store payload es len few runs =
    let z : ℕ = 128 - length es * 20 in
    (
      flat es ++ replicate z 0,
      rw (le→leb (length es) 6 few, len)
          (rw (room-eq-replicate (length es) z 128 (omega arith)) (store_from-flat es [] 0 z refl)),
      omega (
        arith,
        length-append (flat es) (replicate z 0),
        length-flat es,
        length-replicate {A = ℕ} z 0,
      ),
      parse_from-flat es _ [] 0 6 z refl refl few (omega arith) runs,
    )

-- More than six are refused.
pub extents_store_many :
    (payload : Bytes) (es : List Extent)
    → 6 < length es
    → extents_store payload es ≡ err too_many_extents
unfolding extents_store
extents_store_many payload es many = rw (lt→leb (length es) 6 many)
