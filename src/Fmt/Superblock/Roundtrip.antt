-- ===== src/Fmt/Superblock/Roundtrip.antt =====
-- Writing a superblock and reading it back.
use fs.Prelude.{
  ℕ, ◌^◌, ◌≤◌, ◌<◌, ◌≡◌, refl, ap, sym, ◌∙◌, true, List, [], ◌∷◌, ◌++◌, ok, arith, replicate,
  ==-refl, length, le→leb, get_or,
}
use fs.Fmt.Bytes.{Bytes, to_be, from_be}
use fs.Fmt.Bytes.Laws.{
  from_be-to_be_two, from_be-to_be_four, from_be-to_be_eight, tabulate, eq-tabulate,
}
use fs.Fmt.Checksum.{Crc32c}
use fs.Fmt.Superblock.{Superblock, to_bytes, parse, sb_magic, is_power_of_two}

-- Every field fits its width on disk, and the block size is a power of two of at least 512.
pub record IsInRange (s : Superblock) : Type 0 where
  pub compat : s.compat < 2 ^ 64
  pub ro_compat : s.ro_compat < 2 ^ 64
  pub incompat : s.incompat < 2 ^ 64
  pub blocksize : s.blocksize < 2 ^ 32
  pub power : is_power_of_two s.blocksize ≡ true
  pub large : 512 ≤ s.blocksize
  pub inodesize : s.inodesize < 2 ^ 16
  pub uuid : length s.uuid ≡ 16
  pub disk_name : length s.disk_name ≡ 16
  pub units : (i : ℕ) → get_or s.disk_name i 0 < 2 ^ 16
  pub root_ino : s.root_ino < 2 ^ 64
  pub next_ag : s.next_ag < 2 ^ 32
  pub agmap_offset : s.agmap_offset < 2 ^ 64
  pub agmap_length : s.agmap_length < 2 ^ 64
  pub journal_start : s.journal_start < 2 ^ 64
  pub journal_length : s.journal_length < 2 ^ 64
  pub kernel_offset : s.kernel_offset < 2 ^ 64
  pub kernel_end : s.kernel_end < 2 ^ 64
  pub free_blocks : s.free_blocks < 2 ^ 64
  pub rsvd_blocks : s.rsvd_blocks < 2 ^ 64
  pub full_blocks : s.full_blocks < 2 ^ 64
  pub gen : s.gen < 2 ^ 64
  pub journal_seq : s.journal_seq < 2 ^ 64
  pub journal_head : s.journal_head < 2 ^ 64

units_bytes : List ℕ → Bytes
unfolding to_be
units_bytes d =
    to_be 2 (get_or d 0 0)
    ++ (to_be 2 (get_or d 1 0)
        ++ (to_be 2 (get_or d 2 0)
            ++ (to_be 2 (get_or d 3 0)
                ++ (to_be 2 (get_or d 4 0)
                    ++ (to_be 2 (get_or d 5 0)
                        ++ (to_be 2 (get_or d 6 0)
                            ++ (to_be 2 (get_or d 7 0)
                                ++ (to_be 2 (get_or d 8 0)
                                    ++ (to_be 2 (get_or d 9 0)
                                        ++ (to_be 2 (get_or d 10 0)
                                            ++ (to_be 2 (get_or d 11 0)
                                                ++ (to_be 2 (get_or d 12 0)
                                                    ++ (to_be 2 (get_or d 13 0)
                                                        ++ (to_be 2 (get_or d 14 0)
                                                            ++ (to_be 2
                                                            (get_or d 15 0))))))))))))))))

listed : Superblock → Superblock
listed s = record s {
  uuid = tabulate 16 0 (λ i. get_or s.uuid i 0);
  disk_name = tabulate 16 0 (λ i. get_or s.disk_name i 0);
}

listed-eq : (s : Superblock) → IsInRange s → s ≡ listed s
unfolding listed
listed-eq s r = λ i. record s {
  uuid = eq-tabulate 16 s.uuid r.uuid i;
  disk_name = eq-tabulate 16 s.disk_name r.disk_name i;
}

read_units : List ℕ → List ℕ
unfolding to_be
read_units d = tabulate 16 0 (λ i. from_be 0 (to_be 2 (get_or d i 0)))

tabulated_units :
    (s : Superblock)
    → IsInRange s
    → read_units s.disk_name ≡ tabulate 16 0 (λ i. get_or s.disk_name i 0)
unfolding read_units
tabulated_units s r =
    λ i. tabulate 16 0 (λ k. from_be-to_be_two (get_or s.disk_name k 0) (r.units k) i)

module _ ⦃crc : Crc32c⦄ where
  body : Superblock → Bytes
  unfolding to_be units_bytes
  body s =
      to_be 4 2
      ++ (to_be 8 s.compat
          ++ (to_be 8 s.ro_compat
              ++ (to_be 8 s.incompat
                  ++ (to_be 4 s.blocksize
                      ++ (to_be 2 s.inodesize
                          ++ (tabulate 16 0 (λ i. get_or s.uuid i 0)
                              ++ (units_bytes s.disk_name
                                  ++ (to_be 8 s.root_ino
                                      ++ (to_be 4 s.next_ag
                                          ++ (to_be 8 s.agmap_offset
                                              ++ (to_be 8 s.agmap_length
                                                  ++ (to_be 8 s.journal_start
                                                      ++ (to_be 8 s.journal_length
                                                          ++ (to_be 8 s.kernel_offset
                                                            ++ (to_be 8 s.kernel_end
                                                            ++ (to_be 8 s.free_blocks
                                                            ++ (to_be 8 s.rsvd_blocks
                                                            ++ (to_be 8 s.full_blocks
                                                            ++ (to_be 8 s.gen
                                                            ++ (to_be 8 s.journal_seq
                                                            ++ (to_be 8 s.journal_head
                                                            ++ (replicate 314
                                                            0))))))))))))))))))))))

  sum : Superblock → ℕ
  sum s = crc.crc32c_append (crc.crc32c_append (crc.crc32c sb_magic) (0 ∷ 0 ∷ 0 ∷ 0 ∷ [])) (body s)

  image : Superblock → Bytes
  unfolding to_be body sum
  image s = sb_magic ++ (to_be 4 (sum s) ++ body s)

  to_bytes-eq-image : (s : Superblock) → to_bytes (listed s) ≡ ok (image s)
  unfolding to_bytes image listed
  to_bytes-eq-image s = refl

  length-image : (s : Superblock) → length (image s) ≡ 512
  unfolding image
  length-image s = refl

  sum-lt : (s : Superblock) → sum s < 2 ^ 32
  unfolding sum
  sum-lt s = crc.crc32c_append-lt _ _

  parse-image :
      (s : Superblock) (rest : Bytes) → IsInRange s → parse (image s ++ rest) ≡ ok (listed s)
  unfolding parse image listed read_units
  parse-image s rest r =
      rw
        (
          le→leb 512 (length (image s ++ rest)) (omega arith),
          from_be-to_be_four (sum s) (sum-lt s),
          ==-refl (sum s),
          from_be-to_be_four 2 (omega arith),
          from_be-to_be_four s.blocksize r.blocksize,
          r.power,
          le→leb 512 s.blocksize r.large,
        )
        (λ i. ok (record {
          compat = from_be-to_be_eight s.compat r.compat i;
          ro_compat = from_be-to_be_eight s.ro_compat r.ro_compat i;
          incompat = from_be-to_be_eight s.incompat r.incompat i;
          blocksize = s.blocksize;
          inodesize = from_be-to_be_two s.inodesize r.inodesize i;
          uuid = tabulate 16 0 (λ k. get_or s.uuid k 0);
          disk_name = tabulated_units s r i;
          root_ino = from_be-to_be_eight s.root_ino r.root_ino i;
          next_ag = from_be-to_be_four s.next_ag r.next_ag i;
          agmap_offset = from_be-to_be_eight s.agmap_offset r.agmap_offset i;
          agmap_length = from_be-to_be_eight s.agmap_length r.agmap_length i;
          journal_start = from_be-to_be_eight s.journal_start r.journal_start i;
          journal_length = from_be-to_be_eight s.journal_length r.journal_length i;
          kernel_offset = from_be-to_be_eight s.kernel_offset r.kernel_offset i;
          kernel_end = from_be-to_be_eight s.kernel_end r.kernel_end i;
          free_blocks = from_be-to_be_eight s.free_blocks r.free_blocks i;
          rsvd_blocks = from_be-to_be_eight s.rsvd_blocks r.rsvd_blocks i;
          full_blocks = from_be-to_be_eight s.full_blocks r.full_blocks i;
          gen = from_be-to_be_eight s.gen r.gen i;
          journal_seq = from_be-to_be_eight s.journal_seq r.journal_seq i;
          journal_head = from_be-to_be_eight s.journal_head r.journal_head i;
        }))

  -- A superblock whose fields fit their widths, with 16 bytes of UUID, 16 units of label and a block
  -- size that is a power of two of at least 512, is written as 512 bytes, and those bytes, whatever
  -- follows them, parse back to that superblock.
  pub parse-to_bytes_superblock :
      (s : Superblock) (rest : Bytes)
      → IsInRange s
      → (b : Bytes) × (to_bytes s ≡ ok b) × (length b ≡ 512) × (parse (b ++ rest) ≡ ok s)
  parse-to_bytes_superblock s rest r = (
    image s,
    ap to_bytes (listed-eq s r) ∙ to_bytes-eq-image s,
    length-image s,
    parse-image s rest r ∙ ap ok (sym (listed-eq s r)),
  )
