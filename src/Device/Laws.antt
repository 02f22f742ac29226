-- ===== src/Device/Laws.antt =====
-- What is read after a write.
use fs.Prelude.{
  ℕ, zero, suc, ◌+◌, ◌-◌, ◌≤◌, ◌<◌, ◌≡◌, ◌⊎◌, refl, ap, ap₂, ◌∙◌, [], ◌∷◌, ok, arith, length,
  get_or, max, true, le→leb, err, io_read, leb, if◌then◌else◌, inl, inr, ◌||◌, ◌==◌, Bool-cases,
  Out,
}
use fs.Fmt.Bytes.{Bytes}
use fs.Device.{Device, bytes_at, patch, pread, pwrite, write_all_at}

pub length-bytes_at : (byte : ℕ → ℕ) (offset n : ℕ) → length (bytes_at byte offset n) ≡ n
unfolding bytes_at
length-bytes_at byte offset zero = refl
length-bytes_at byte offset (suc n) = ap suc (length-bytes_at byte (suc offset) n)

-- Two files that agree on a range read alike there.
pub bytes_at_ext :
    (f g : ℕ → ℕ) (offset n : ℕ)
    → ((i : ℕ) → offset ≤ i → i < offset + n → f i ≡ g i)
    → bytes_at f offset n ≡ bytes_at g offset n
unfolding bytes_at
bytes_at_ext f g offset zero h = refl
bytes_at_ext f g offset (suc n) h =
    ap₂ ◌∷◌ (h offset (omega arith) (omega arith))
      (bytes_at_ext f g (suc offset) n (λ i p q. h i (omega arith) (omega arith)))

bytes_at-get_or :
    (buf : Bytes) (offset k : ℕ) (f : ℕ → ℕ)
    → ((i : ℕ) → i < length buf → f (offset + k + i) ≡ get_or buf i 0)
    → bytes_at f (offset + k) (length buf) ≡ buf
unfolding bytes_at
bytes_at-get_or [] offset k f h = refl
bytes_at-get_or (x ∷ buf) offset k f h =
    ap₂ ◌∷◌ (ap f (let e : offset + k ≡ offset + k + 0 = omega arith in e) ∙ h 0 (omega arith)) (
      ap (λ o. bytes_at f o (length buf))
        (let e : suc (offset + k) ≡ offset + suc k = omega arith in e)
      ∙ bytes_at-get_or buf offset (suc k) f (λ i p.
        ap f (let e : offset + suc k + i ≡ offset + k + suc i = omega arith in e)
        ∙ h (suc i) (omega arith)))

pub bytes_at-patch_self :
    (f : ℕ → ℕ) (offset : ℕ) (buf : Bytes) → bytes_at (patch f offset buf) offset (length buf) ≡ buf
unfolding patch
bytes_at-patch_self f offset buf =
    ap (λ o. bytes_at (patch f offset buf) o (length buf))
      (let e : offset ≡ offset + 0 = omega arith in e)
    ∙ bytes_at-get_or buf offset 0 (patch f offset buf) (λ i p.
      let e : offset + 0 + i - offset ≡ i = omega arith in
      ground (arith, ap (λ k. get_or buf k 0) e))

pub bytes_at-patch_apart :
    (f : ℕ → ℕ) (offset : ℕ) (buf : Bytes) (o n : ℕ)
    → (o + n ≤ offset) ⊎ (offset + length buf ≤ o)
    → bytes_at (patch f offset buf) o n ≡ bytes_at f o n
unfolding patch
bytes_at-patch_apart f offset buf o n apart =
    bytes_at_ext (patch f offset buf) f o n (λ i p q. ground arith)

pub pwrite-ok :
    (d : Device) (buf : Bytes) (offset : ℕ)
    → d.writable ≡ true
    → pwrite buf offset d ≡ (ok tt, (pwrite buf offset d).1)
unfolding pwrite
pwrite-ok d buf offset w = elim (Bool-cases (length buf == 0)) [
  | inl no_bytes ↦ rw no_bytes refl
  | inr some_bytes ↦ rw (some_bytes, w) refl
]

no_bytes_read :
    (buf : Bytes) (f : ℕ → ℕ) (offset : ℕ)
    → (length buf == 0) ≡ true
    → Path (Out Bytes) (ok (bytes_at f offset (length buf))) (ok buf)
unfolding bytes_at
no_bytes_read [] f offset none_there = refl
no_bytes_read (x ∷ buf) f offset none_there = absurd (ground arith)

pub pread-pwrite_self :
    (d : Device) (buf : Bytes) (offset : ℕ)
    → d.writable ≡ true
    → pread (pwrite buf offset d).1 (length buf) offset ≡ ok buf
unfolding pwrite pread write_all_at
pread-pwrite_self d buf offset w = elim (Bool-cases (length buf == 0)) [
  | inl no_bytes ↦ rw (no_bytes) (no_bytes_read buf d.file.byte offset no_bytes)
  | inr some_bytes ↦
      rw
        (
          some_bytes,
          w,
          le→leb (offset + length buf) (max d.file.len (offset + length buf)) (omega arith),
          bytes_at-patch_self d.file.byte offset buf,
        )
        refl
]

-- A longer file that agrees on the range reads alike.
read_longer :
    (f g : ℕ → ℕ) (len len' o n : ℕ) {c : Bytes}
    → len ≤ len'
    → (if n == 0 || leb (o + n) len then ok (bytes_at f o n) else err io_read) ≡ ok c
    → bytes_at g o n ≡ bytes_at f o n
    → (if n == 0 || leb (o + n) len' then ok (bytes_at g o n) else err io_read) ≡ ok c
read_longer f g len len' o n longer before same = ground arith

pub pread-pwrite_apart :
    (d : Device) (buf : Bytes) (offset o n : ℕ) {c : Bytes}
    → d.writable ≡ true
    → (o + n ≤ offset) ⊎ (offset + length buf ≤ o)
    → pread d n o ≡ ok c
    → pread (pwrite buf offset d).1 n o ≡ ok c
unfolding pwrite pread write_all_at
pread-pwrite_apart d buf offset o n w apart h = elim (Bool-cases (length buf == 0)) [
  | inl no_bytes ↦ rw no_bytes h
  | inr some_bytes ↦
      rw (some_bytes, w)
        (read_longer d.file.byte (patch d.file.byte offset buf) d.file.len
          (max d.file.len (offset + length buf)) o n (omega arith) h
          (bytes_at-patch_apart d.file.byte offset buf o n apart))
]

-- A permitted write succeeds; what it wrote is read back, and a read that succeeded before and lies
-- apart from it gives the same bytes after it.
pub pread-pwrite :
    (d : Device) (buf : Bytes) (offset o n : ℕ) (c : Bytes)
    → d.writable ≡ true
    → (o + n ≤ offset) ⊎ (offset + length buf ≤ o)
    → pread d n o ≡ ok c
    → ((pwrite buf offset d).0 ≡ ok tt)
      × (pread (pwrite buf offset d).1 (length buf) offset ≡ ok buf)
      × (pread (pwrite buf offset d).1 n o ≡ ok c)
pread-pwrite d buf offset o n c w apart h = (
  ap (λ r. r.0) (pwrite-ok d buf offset w),
  pread-pwrite_self d buf offset w,
  pread-pwrite_apart d buf offset o n w apart h,
)
