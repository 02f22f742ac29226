-- ===== src/Fmt/AgHeader/Roundtrip.antt =====
-- Writing an AG header and reading it back.
use fs.Prelude.{
  ℕ, ◌^◌, ◌<◌, ◌≡◌, refl, [], ◌∷◌, ◌++◌, ok, arith, replicate, ==-refl, length, le→leb,
}
use fs.Fmt.Bytes.{Bytes, to_be}
use fs.Fmt.Bytes.Laws.{from_be-to_be_four, from_be-to_be_eight}
use fs.Fmt.Checksum.{Crc32c}
use fs.Fmt.AgHeader.{AgHeader, to_bytes, parse, ag_magic}

-- Every field fits its width on disk.
pub record IsInRange (h : AgHeader) : Type 0 where
  pub ag_num : h.ag_num < 2 ^ 32
  pub gen : h.gen < 2 ^ 64
  pub length : h.length < 2 ^ 32
  pub free_blocks : h.free_blocks < 2 ^ 32
  pub rsvd_blocks : h.rsvd_blocks < 2 ^ 32
  pub full_blocks : h.full_blocks < 2 ^ 32
  pub alloc_root : h.alloc_root < 2 ^ 32
  pub ino_hint : h.ino_hint < 2 ^ 32
  pub data_hint : h.data_hint < 2 ^ 32
  pub tbl_arena : h.tbl_arena < 2 ^ 32

module _ ⦃crc : Crc32c⦄ where
  body : AgHeader → Bytes
  unfolding to_be
  body h =
      to_be 4 h.ag_num
      ++ (to_be 8 h.gen
          ++ (to_be 4 h.length
              ++ (to_be 4 h.free_blocks
                  ++ (to_be 4 h.rsvd_blocks
                      ++ (to_be 4 h.full_blocks
                          ++ (to_be 4 h.alloc_root
                              ++ (to_be 4 h.ino_hint
                                  ++ (to_be 4 h.data_hint
                                      ++ (to_be 4 h.tbl_arena ++ replicate 12 0)))))))))

  sum : AgHeader → ℕ
  sum h = crc.crc32c_append (crc.crc32c_append (crc.crc32c ag_magic) (0 ∷ 0 ∷ 0 ∷ 0 ∷ [])) (body h)

  image : AgHeader → Bytes
  unfolding to_be body sum
  image h = ag_magic ++ (to_be 4 (sum h) ++ body h)

  to_bytes-eq-image : (h : AgHeader) → to_bytes h ≡ ok (image h)
  unfolding to_bytes image
  to_bytes-eq-image h = refl

  sum-lt : (h : AgHeader) → sum h < 2 ^ 32
  unfolding sum
  sum-lt h = crc.crc32c_append-lt _ _

  parse-image : (h : AgHeader) (rest : Bytes) → IsInRange h → parse (image h ++ rest) ≡ ok h
  unfolding parse image
  parse-image h rest r =
      rw
        (
          le→leb 64 (length (image h ++ rest)) (omega arith),
          from_be-to_be_four (sum h) (sum-lt h),
          ==-refl (sum h),
        )
        (λ i. ok (record {
          ag_num = from_be-to_be_four h.ag_num r.ag_num i;
          gen = from_be-to_be_eight h.gen r.gen i;
          length = from_be-to_be_four h.length r.length i;
          free_blocks = from_be-to_be_four h.free_blocks r.free_blocks i;
          rsvd_blocks = from_be-to_be_four h.rsvd_blocks r.rsvd_blocks i;
          full_blocks = from_be-to_be_four h.full_blocks r.full_blocks i;
          alloc_root = from_be-to_be_four h.alloc_root r.alloc_root i;
          ino_hint = from_be-to_be_four h.ino_hint r.ino_hint i;
          data_hint = from_be-to_be_four h.data_hint r.data_hint i;
          tbl_arena = from_be-to_be_four h.tbl_arena r.tbl_arena i;
        }))

  length-image : (h : AgHeader) → length (image h) ≡ 64
  unfolding image
  length-image h = refl

  -- A header whose fields fit their widths is written as 64 bytes, and those bytes, whatever follows
  -- them in the block, parse back to that header.
  pub parse-to_bytes_header :
      (h : AgHeader) (rest : Bytes)
      → IsInRange h
      → (b : Bytes) × (to_bytes h ≡ ok b) × (length b ≡ 64) × (parse (b ++ rest) ≡ ok h)
  parse-to_bytes_header h rest r =
      (image h, to_bytes-eq-image h, length-image h, parse-image h rest r)
