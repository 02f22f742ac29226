-- ===== src/File/Read/Enough.antt =====
-- src/fs.rs: the loop that reads a file passes a byte or more in each round, so it ends.
use fs.Prelude.Loops.{While}
use fs.Fs.Read.{resolve}
use fs.File.Read.{read_found, read_runs}
use fs.Extent.Lookup.Bounds.{IsLong, map_lookup-IsLong}
use fs.Extent.Lookup.{map_lookup}
use fs.Extent.Node.{Map, hole, run}
use fs.Journal.Txn.{empty}
use fs.Fmt.Bytes.{Bytes, put_slice}
use fs.Fmt.Inode.{Inode}
use fs.Fmt.Checksum.{Crc32c}
use fs.Device.{pread}
use fs.Prelude.{
  ◌^◌, step, ℕ, zero, suc, ◌+◌, ◌-◌, ◌*◌, ◌/◌, ◌%◌, ◌≤◌, ◌<◌, min, ◌≡◌, refl, sym, subst, ◌∙◌, inl,
  inr, arith, ltb, ◌==◌, ltb→lt, le→ltb, Bool-cases, Out, checked, ok, panic, Holds, Out_cong,
  ◌>>=◌, Holds-bind, err, true, ap, false,
}
use fs.Fs.{Gofs}

panic_ok : (c : ℕ) → Path (Out ℕ) panic (ok c) → ⊥
panic_ok c e = cc

checked-pos : (b a c : ℕ) → checked b a ≡ ok c → 0 < b
checked-pos b a c h = elim (Bool-cases (b == 0)) [
  | inl e ↦ absurd (panic_ok c (sym (rw e refl) ∙ h))
  | inr e ↦ ground arith
]

progress :
    (len bs in_blk pos end : ℕ)
    → 0 < len
    → in_blk < bs
    → pos < end
    → pos < pos + min (len * bs - in_blk) (end - pos)
progress len bs in_blk pos end long inside below = grind arith

-- What is read of one run or hole: the position behind it, and the buffer.
abbrev pub piece_read : Gofs → (offset pos end : ℕ) → Bytes → Map → Out (ℕ × Bytes)
piece_read g offset pos end out found = read_found (λ p o. ok (p, o)) g offset pos end out found

>>=-assoc {ℓ κ λ'} :
    {A : Type ℓ} {B : Type κ} {C : Type λ'} (m : Out A) (f : A → Out B) (h : B → Out C)
    → (m >>= λ a. f a >>= h) ≡ ((m >>= f) >>= h)
>>=-assoc (ok a) f h = refl
>>=-assoc (err e) f h = refl
>>=-assoc panic f h = refl

-- The rest of the loop follows what is read.
read_found-piece_read :
    (next : ℕ → Bytes → Out Bytes) (g : Gofs) (offset pos end : ℕ) (out : Bytes) (found : Map)
    → read_found next g offset pos end out found
      ≡ (piece_read g offset pos end out found >>= λ c. next c.0 c.1)
unfolding read_found
read_found-piece_read next g offset pos end out (run blk len) =
    let in_blk = pos % g.sb.blocksize in
    let take = min (len * g.sb.blocksize - in_blk) (end - pos) in
    Out_cong (resolve g blk) _ _ (λ start hs.
      Out_cong (pread g.dev take ((start + in_blk) % 2 ^ 64)) _ _
        (λ piece hp. >>=-assoc (put_slice out (pos - offset) piece) _ _)
      ∙ >>=-assoc (pread g.dev take ((start + in_blk) % 2 ^ 64)) _ _)
    ∙ >>=-assoc (resolve g blk) _ _
read_found-piece_read next g offset pos end out (hole n) = refl

piece_read-IsBehind :
    (g : Gofs) (offset pos end : ℕ) (out : Bytes) (found : Map)
    → 0 < g.sb.blocksize
    → pos < end
    → IsLong found
    → Holds (λ c. pos < c.0) (piece_read g offset pos end out found)
unfolding read_found
piece_read-IsBehind g offset pos end out (run blk len) bs below long =
    Holds-bind (λ c. pos < c.0) (resolve g blk) _
      (λ start.
        Holds-bind (λ c. pos < c.0) (pread g.dev _ ((start + pos % g.sb.blocksize) % 2 ^ 64)) _
          (λ piece.
            Holds-bind (λ c. pos < c.0) (put_slice out (pos - offset) piece) _
              (λ out'.
                progress len g.sb.blocksize (pos % g.sb.blocksize) pos end long (grind arith)
                  below)))
piece_read-IsBehind g offset pos end out (hole n) bs below long = omega arith

Holds-after {ℓ κ λ' μ} :
    {A : Type ℓ} {B : Type κ} (Q : A → Type λ') (P : B → Type μ) (m : Out A) (f : A → Out B)
    → Holds Q m
    → ((a : A) → Q a → Holds P (f a))
    → Holds P (m >>= f)
Holds-after Q P (ok a) f holds each = each a holds
Holds-after Q P (err e) f holds each = tt
Holds-after Q P panic f holds each = tt

module _ ⦃crc : Crc32c⦄ (levels : ℕ) where
  -- One round of the loop: the position and the buffer behind it.
  abbrev pub read_round : Gofs → Inode → (offset end : ℕ) → ℕ × Bytes → Out (ℕ × Bytes)
  read_round g inode offset end (pos, out) = do
    fb ← checked g.sb.blocksize (pos / g.sb.blocksize)
    found ← map_lookup levels g empty inode fb
    piece_read g offset pos end out found

  read_round-IsBehind :
      (g : Gofs) (inode : Inode) (offset pos end : ℕ) (out : Bytes)
      → pos < end
      → Holds (λ c. pos < c.0) (read_round g inode offset end (pos, out))
  read_round-IsBehind g inode offset pos end out below = elim (Bool-cases (g.sb.blocksize == 0)) [
    | inl no_bytes ↦ rw no_bytes tt
    | inr some_bytes ↦
        let fb : ℕ = pos / g.sb.blocksize in
        rw some_bytes (
          Holds-after IsLong (λ c. pos < c.0) (map_lookup levels g empty inode fb) _
            (map_lookup-IsLong levels g empty inode fb)
            (λ found long.
              piece_read-IsBehind g offset pos end out found (ground arith) below long))
  ]

  -- A run of the loop that ends, and that the loop on fuel follows.
  abbrev pub ReadsAll : ℕ → Gofs → Inode → (offset pos end : ℕ) → Bytes → Type 0
  ReadsAll n g inode offset pos end out =
      (r : Out (ℕ × Bytes)) × While (λ c. ltb c.0 end)
        (λ c (u : Unit {0}). (read_round g inode offset end c, u)) (pos, out) tt (r, tt)
      × (read_runs levels n g inode offset pos end out ≡ (r >>= λ c. ok c.1))

  read_runs-round :
      (n : ℕ) (g : Gofs) (inode : Inode) (offset pos end : ℕ) (out : Bytes)
      → ltb pos end ≡ true
      → read_runs levels (suc n) g inode offset pos end out ≡ (
          read_round g inode offset end (pos, out) >>= λ c.
          read_runs levels n g inode offset c.0 end c.1)
  unfolding read_runs
  read_runs-round n g inode offset pos end out more =
      let fb = pos / g.sb.blocksize in
      rw more (
        Out_cong (checked g.sb.blocksize fb) _ _ (λ fb hb.
          Out_cong (map_lookup levels g empty inode fb) _ _
            (λ found hf. read_found-piece_read _ g offset pos end out found)
          ∙ >>=-assoc (map_lookup levels g empty inode fb) _ _)
        ∙ >>=-assoc (checked g.sb.blocksize fb) _ _)

  after_piece :
      (n : ℕ) (g : Gofs) (inode : Inode) (offset pos end : ℕ) (out : Bytes)
      → ltb pos end ≡ true
      → ((p : ℕ) (o : Bytes) → pos < p → ReadsAll n g inode offset p end o)
      → (r : Out (ℕ × Bytes)) → read_round g inode offset end (pos, out) ≡ r
      → ReadsAll (suc n) g inode offset pos end out
  after_piece n g inode offset pos end out more rest (err e) done = (
    err e,
    While.fails more (ap (λ r. (r, tt)) done),
    read_runs-round n g inode offset pos end out more
        ∙ ap (λ r. r >>= λ c. read_runs levels n g inode offset c.0 end c.1) done,
  )
  after_piece n g inode offset pos end out more rest panic done = (
    panic,
    While.panics more (ap (λ r. (r, tt)) done),
    read_runs-round n g inode offset pos end out more
        ∙ ap (λ r. r >>= λ c. read_runs levels n g inode offset c.0 end c.1) done,
  )
  after_piece n g inode offset pos end out more rest (ok c) done =
      let behind : pos < c.0 =
        subst (Holds (λ c. pos < c.0)) done
          (read_round-IsBehind g inode offset pos end out (ltb→lt pos end more)) in
      let (r, later, same) = rest c.0 c.1 behind in
      (
        r,
        While.turns more (ap (λ r. (r, tt)) done) later,
        read_runs-round n g inode offset pos end out more ∙ step _ done same,
      )

  -- The loop of `read_inode_data` ends, with the position at the end or behind it or with the failure of a round; and
  -- with a round of fuel for each byte from the position to the end, `read_runs` returns the buffer of this loop, and
  -- fails where it fails.
  pub read_runs_enough :
      (n : ℕ) (g : Gofs) (inode : Inode) (offset pos end : ℕ) (out : Bytes)
      → end ≤ pos + n
      → (r : Out (ℕ × Bytes)) × While
          (λ c. ltb c.0 end)
          (λ c (u : Unit {0}). (read_round g inode offset end c, u))
          (pos, out)
          tt
          (r, tt)
        × (read_runs levels n g inode offset pos end out ≡ (r >>= λ c. ok c.1))
  unfolding read_runs
  read_runs_enough zero g inode offset pos end out enough =
      let over : ltb pos end ≡ false = le→ltb pos end (omega arith) in
      (ok (pos, out), While.ends over, rw over refl)
  read_runs_enough (suc n) g inode offset pos end out enough = elim (Bool-cases (ltb pos end)) [
    | inr over ↦ (ok (pos, out), While.ends over, rw over refl)
    | inl more ↦
        after_piece n g inode offset pos end out more
          (λ p o behind. read_runs_enough n g inode offset p end o (omega arith))
          (read_round g inode offset end (pos, out)) refl
  ]
