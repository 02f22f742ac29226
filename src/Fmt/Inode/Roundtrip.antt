-- ===== src/Fmt/Inode/Roundtrip.antt =====
-- Writing an inode and reading it back.
use fs.Prelude.{
  ℕ, ◌^◌, ◌<◌, ◌≡◌, refl, ap, sym, ◌∙◌, [], ◌∷◌, ◌++◌, ok, arith, replicate, ==-refl, length,
  le→leb, get_or,
}
use fs.Fmt.Bytes.{Bytes, to_be, from_be}
use fs.Fmt.Bytes.Laws.{
  from_be-to_be_two, from_be-to_be_four, from_be-to_be_eight, tabulate, eq-tabulate,
}
use fs.Fmt.Checksum.{Crc32c}
use fs.Fmt.Inode.{Ts, Inode, to_bytes, parse}

pub record TsInRange (t : Ts) : Type 0 where
  pub sec : t.sec < 2 ^ 64
  pub nsec : t.nsec < 2 ^ 32

-- Every field fits its width on disk.
pub record IsInRange (n : Inode) : Type 0 where
  pub mode : n.mode < 2 ^ 16
  pub nlink : n.nlink < 2 ^ 32
  pub uid : n.uid < 2 ^ 32
  pub gid : n.gid < 2 ^ 32
  pub flags : n.flags < 2 ^ 32
  pub gen : n.gen < 2 ^ 32
  pub size : n.size < 2 ^ 64
  pub nblocks : n.nblocks < 2 ^ 64
  pub atime : TsInRange n.atime
  pub mtime : TsInRange n.mtime
  pub ctime : TsInRange n.ctime
  pub btime : TsInRange n.btime
  pub xattr : n.xattr < 2 ^ 64
  pub payload : length n.payload ≡ 128

ts_bytes : Ts → Bytes
unfolding to_be
ts_bytes t = to_be 8 t.sec ++ to_be 4 t.nsec

listed : Inode → Inode
listed n = record n { payload = tabulate 128 0 (λ i. get_or n.payload i 0) }

listed-eq : (n : Inode) → IsInRange n → n ≡ listed n
unfolding listed
listed-eq n r = λ i. record n { payload = eq-tabulate 128 n.payload r.payload i }

ts_read : Bytes → Bytes → Ts
ts_read sec nsec = record { sec = from_be 0 sec; nsec = from_be 0 nsec }

parsed_ts : (t : Ts) → TsInRange t → ts_read (to_be 8 t.sec) (to_be 4 t.nsec) ≡ t
unfolding ts_read
parsed_ts t r = λ i. record {
  sec = from_be-to_be_eight t.sec r.sec i;
  nsec = from_be-to_be_four t.nsec r.nsec i;
}

module _ ⦃crc : Crc32c⦄ where
  body : Inode → Bytes
  unfolding to_be ts_bytes
  body n =
      to_be 2 n.mode
      ++ (to_be 4 n.nlink
          ++ (to_be 4 n.uid
              ++ (to_be 4 n.gid
                  ++ (to_be 4 n.flags
                      ++ (to_be 4 n.gen
                          ++ (to_be 8 n.size
                              ++ (to_be 8 n.nblocks
                                  ++ (ts_bytes n.atime
                                      ++ (ts_bytes n.mtime
                                          ++ (ts_bytes n.ctime
                                              ++ (ts_bytes n.btime
                                                  ++ (to_be 8 n.xattr
                                                      ++ (replicate 26 0
                                                          ++ tabulate 128 0
                                                            (λ i. get_or n.payload i 0))))))))))))))

  front : Inode → Bytes
  unfolding to_be
  front n = to_be 2 0x494e ++ (2 ∷ n.format ∷ [])

  sum : Inode → ℕ
  unfolding front
  sum n = crc.crc32c_append (crc.crc32c_append (crc.crc32c (front n)) (0 ∷ 0 ∷ 0 ∷ 0 ∷ [])) (body n)

  image : Inode → Bytes
  unfolding to_be front body sum
  image n = front n ++ (to_be 4 (sum n) ++ body n)

  to_bytes-eq-image : (n : Inode) → to_bytes (listed n) ≡ ok (image n)
  unfolding to_bytes image listed
  to_bytes-eq-image n = refl

  length-image : (n : Inode) → length (image n) ≡ 256
  unfolding image
  length-image n = refl

  sum-lt : (n : Inode) → sum n < 2 ^ 32
  unfolding sum
  sum-lt n = crc.crc32c_append-lt _ _

  parse-image : (n : Inode) (rest : Bytes) → IsInRange n → parse (image n ++ rest) ≡ ok (listed n)
  unfolding parse image listed ts_read
  parse-image n rest r =
      rw
        (
          le→leb 256 (length (image n ++ rest)) (omega arith),
          from_be-to_be_two 0x494e (omega arith),
          from_be-to_be_four (sum n) (sum-lt n),
          ==-refl (sum n),
        )
        (λ i. ok (record {
          format = n.format;
          mode = from_be-to_be_two n.mode r.mode i;
          nlink = from_be-to_be_four n.nlink r.nlink i;
          uid = from_be-to_be_four n.uid r.uid i;
          gid = from_be-to_be_four n.gid r.gid i;
          flags = from_be-to_be_four n.flags r.flags i;
          gen = from_be-to_be_four n.gen r.gen i;
          size = from_be-to_be_eight n.size r.size i;
          nblocks = from_be-to_be_eight n.nblocks r.nblocks i;
          atime = parsed_ts n.atime r.atime i;
          mtime = parsed_ts n.mtime r.mtime i;
          ctime = parsed_ts n.ctime r.ctime i;
          btime = parsed_ts n.btime r.btime i;
          xattr = from_be-to_be_eight n.xattr r.xattr i;
          payload = tabulate 128 0 (λ k. get_or n.payload k 0);
        }))

  -- An inode whose fields fit their widths, with a payload of 128 bytes, is written as 256 bytes, and
  -- those bytes, whatever follows them in the block, parse back to that inode.
  pub parse-to_bytes_inode :
      (n : Inode) (rest : Bytes)
      → IsInRange n
      → (b : Bytes) × (to_bytes n ≡ ok b) × (length b ≡ 256) × (parse (b ++ rest) ≡ ok n)
  parse-to_bytes_inode n rest r = (
    image n,
    ap to_bytes (listed-eq n r) ∙ to_bytes-eq-image n,
    length-image n,
    parse-image n rest r ∙ ap ok (sym (listed-eq n r)),
  )
