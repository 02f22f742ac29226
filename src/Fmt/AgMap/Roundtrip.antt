-- ===== src/Fmt/AgMap/Roundtrip.antt =====
-- A map is written and read back.
use fs.Prelude.{
  ℕ, ◌+◌, ◌-◌, ◌^◌, ◌≤◌, ◌<◌, ◌≡◌, refl, ap, sym, ◌∙◌, [], ◌∷◌, ◌++◌, ok, arith, replicate, ==-refl,
  length, le→leb, length-append, length-replicate, replicate-add, step, ◌&&◌, true, leb, ◌==◌,
}
use mathlib.Core.List.{append_assoc}
use fs.Fmt.Bytes.{
  Bytes, to_be, put_slice, put_u32, put_u64, get_u32, get_u64, get_prefix, get_slice, bytes_eq,
}
use fs.Fmt.Bytes.Laws.{from_be-to_be_four, from_be-to_be_eight, get_prefix-append}
use fs.Fmt.Checksum.{Crc32c, csum}
use fs.Fmt.AgMap.{AgMap, agmap_magic, to_bytes, parse}
use fs.Fmt.AgMap.Layout.{AllEntries, entries_bytes, entries_size, length-entries_bytes}
use fs.Fmt.AgMap.Entries.{zeros_split, put_entries-append, get_entries-append}

pub record IsInRange (m : AgMap) : Type 0 where
  pub gen : m.gen < 2 ^ 64
  pub count : length m.entries < 2 ^ 32
  pub entries : AllEntries m.entries

module _ ⦃crc : Crc32c⦄ (m : AgMap) (capacity : ℕ) (r : IsInRange m)
    (fits : 24 + entries_size m.entries ≤ capacity) (bound : capacity < 2 ^ 32) where
  used : ℕ
  used = 24 + entries_size m.entries

  used-eq : used ≡ 24 + entries_size m.entries
  unfolding used
  used-eq = refl

  fields : Bytes
  unfolding to_be
  fields = to_be 8 m.gen ++ (to_be 4 (length m.entries) ++ to_be 4 used)

  covered : Bytes
  unfolding fields
  covered = agmap_magic ++ (0 ∷ 0 ∷ 0 ∷ 0 ∷ fields) ++ entries_bytes m.entries

  spare : Bytes
  spare = replicate (capacity - used) 0

  sum : ℕ
  sum =
      crc.crc32c_append (crc.crc32c_append (crc.crc32c agmap_magic) (0 ∷ 0 ∷ 0 ∷ 0 ∷ []))
        (fields ++ entries_bytes m.entries)

  head : Bytes
  unfolding fields to_be
  head = agmap_magic ++ (to_be 4 sum ++ fields)

  image : Bytes
  image = head ++ (entries_bytes m.entries ++ spare)

  zeros :
      replicate {A = ℕ} capacity 0
      ≡ replicate 24 0 ++ (replicate (entries_size m.entries) 0 ++ spare)
  unfolding spare used
  zeros =
      zeros_split 24 (entries_size m.entries + (capacity - used)) capacity (omega arith)
      ∙ ap (λ t. replicate 24 0 ++ t) (replicate-add (entries_size m.entries) (capacity - used) 0)

  blank : Bytes
  unfolding to_be
  blank =
      agmap_magic
      ++ (0 ∷ 0 ∷ 0 ∷ 0 ∷ to_be 8 m.gen)
      ++ (to_be 4 (length m.entries) ++ (0 ∷ 0 ∷ 0 ∷ 0 ∷ []))

  body : Bytes
  body = entries_bytes m.entries ++ spare

  length-covered : used ≡ length covered
  unfolding covered fields used
  length-covered = omega (arith, length-entries_bytes m.entries)

  covered_prefix : get_prefix (covered ++ spare) used ≡ ok covered
  covered_prefix = rw length-covered (get_prefix-append covered spare)

  to_bytes-eq-image : to_bytes m capacity ≡ ok image
  unfolding to_bytes image head fields blank body put_slice put_u32 put_u64 csum covered sum
  to_bytes-eq-image = rw zeros (
      step _
        (put_entries-append m.entries capacity blank spare 24 used refl used-eq
          (omega (arith, used-eq)))
        (step _ covered_prefix refl))

  sum_matches :
      (sum
        == crc.crc32c_append
            (crc.crc32c_append (crc.crc32c agmap_magic) (0 ∷ 0 ∷ 0 ∷ 0 ∷ []))
            (fields ++ entries_bytes m.entries))
      ≡ true
  unfolding sum
  sum_matches = ==-refl sum

  sum-lt : sum < 2 ^ 32
  unfolding sum
  sum-lt = crc.crc32c_append-lt _ _

  used-lt : used < 2 ^ 32
  used-lt = omega (arith, used-eq)

  length-image : length image ≡ capacity
  unfolding image head fields spare
  length-image = omega (
    arith,
    used-eq,
    length-append (entries_bytes m.entries) (replicate (capacity - used) 0),
    length-entries_bytes m.entries,
    length-replicate {A = ℕ} (capacity - used) 0,
  )

  image_prefix : get_prefix image used ≡ ok (head ++ entries_bytes m.entries)
  unfolding image
  image_prefix =
      ap (λ b. get_prefix b used) (sym (append_assoc head (entries_bytes m.entries) spare))
      ∙ rw length-head (get_prefix-append (head ++ entries_bytes m.entries) spare)
    where
      length-head : used ≡ length (head ++ entries_bytes m.entries)
      length-head = unfold head fields in omega (arith, used-eq, length-entries_bytes m.entries)

  lengths : (leb 24 used && leb used (length image)) ≡ true
  lengths = rw (
    length-image,
    le→leb used capacity (omega (arith, used-eq)),
    le→leb 24 used (omega (arith, used-eq)),
  )

  parse-image : parse image ≡ ok m
  unfolding parse image head fields get_slice get_u32 get_u64 bytes_eq csum
  parse-image =
      rw
        (
          le→leb 24 (length image) (omega (arith, length-image)),
          from_be-to_be_four used used-lt,
          lengths,
          from_be-to_be_four sum sum-lt,
        )
        (step _ image_prefix (
          rw (sum_matches, from_be-to_be_four (length m.entries) r.count)
            (step _
              (get_entries-append m.entries image head spare used 24 refl refl
                (omega (arith, used-eq)) r.entries)
              (λ i. ok (record { gen = from_be-to_be_eight m.gen r.gen i; entries = m.entries })))))

-- A map whose numbers fit their widths and which fits the capacity, of less than 2^32 bytes, is written
-- as that many bytes, and they parse back to that map.
pub parse-to_bytes_agmap :
    ⦃crc : Crc32c⦄ (m : AgMap) (capacity : ℕ)
    → IsInRange m
    → 24 + entries_size m.entries ≤ capacity
    → capacity < 2 ^ 32
    → (b : Bytes) × (to_bytes m capacity ≡ ok b) × (length b ≡ capacity) × (parse b ≡ ok m)
parse-to_bytes_agmap m capacity r fits bound = (
  image m capacity r fits bound,
  to_bytes-eq-image m capacity r fits bound,
  length-image m capacity r fits bound,
  parse-image m capacity r fits bound,
)
