-- ===== src/Fmt/AgMap/Entries.antt =====
-- Writing an AG map and reading it back.
use fs.Prelude.{
  ℕ, suc, ◌+◌, ◌*◌, ◌≤◌, ◌≡◌, refl, ap, sym, ◌∙◌, List, [], ◌∷◌, ◌++◌, ok, arith, replicate, length,
  le→leb, length-append, replicate-add, step,
}
use mathlib.Core.List.{append_assoc}
use fs.Fmt.Bytes.{Bytes, get_u16, get_u32, get_u64}
use fs.Fmt.AgMap.{
  AgSegment, AgEntry, put_segment, put_segments, put_entry_head, put_entries, get_segments,
  get_entries,
}
use fs.Fmt.AgMap.Layout.{
  AllSegs, AllEntries, seg_bytes, segs_bytes, head_bytes, entry_bytes, entries_bytes, entries_size,
  length-seg_bytes, length-head_bytes, length-entry_bytes, put_segment-append, get_segment-append,
  put_entry_head-append, get_entry_head-append,
}

pub zeros_split : (a m k : ℕ) → k ≡ a + m → replicate {A = ℕ} k 0 ≡ replicate a 0 ++ replicate m 0
zeros_split a m k e = ap (λ t. replicate t 0) e ∙ replicate-add a m 0

regroup : (a b c d : Bytes) → (a ++ b) ++ (c ++ d) ≡ a ++ ((b ++ c) ++ d)
regroup a b c d = simp append_assoc

zeros_before :
    (a m k : ℕ) (pre tail : Bytes)
    → k ≡ a + m
    → pre ++ (replicate k 0 ++ tail) ≡ pre ++ (replicate a 0 ++ (replicate m 0 ++ tail))
zeros_before a m k pre tail e =
    ap (λ t. pre ++ t)
      (ap (λ t. t ++ tail) (zeros_split a m k e)
        ∙ append_assoc (replicate a 0) (replicate m 0) tail)

entry_behind :
    (pre : Bytes) (e : AgEntry) (rest : Bytes)
    → (pre ++ head_bytes e) ++ (segs_bytes e.segs ++ rest) ≡ (pre ++ entry_bytes e) ++ rest
unfolding entry_bytes
entry_behind pre e rest = simp append_assoc

put_segments-append :
    (segs : List AgSegment) (pre tail : Bytes) (off off' : ℕ)
    → off ≡ length pre
    → off' ≡ off + length segs * 16
    → put_segments (pre ++ (replicate (length segs * 16) 0 ++ tail)) off segs
      ≡ ok (pre ++ (segs_bytes segs ++ tail), off')
unfolding put_segments segs_bytes
put_segments-append [] pre tail off off' at e =
    λ i. ok (pre ++ tail, (let h : off ≡ off' = omega arith in h) i)
put_segments-append (s ∷ segs) pre tail off off' at e =
    let n : ℕ = length segs * 16 in
    step _
      (ap (λ b. put_segment b off s)
          (zeros_before 16 n (suc (length segs) * 16) pre tail (omega arith))
        ∙ put_segment-append s pre (replicate n 0 ++ tail) off at)
      (ap (λ b. put_segments b (off + 16) segs)
          (sym (append_assoc pre (seg_bytes s) (replicate n 0 ++ tail)))
        ∙ (put_segments-append segs (pre ++ seg_bytes s) tail (off + 16) off'
              (omega (arith, length-append pre (seg_bytes s), length-seg_bytes s)) (omega arith)
            ∙ ap (λ b. ok (b, off')) (regroup pre (seg_bytes s) (segs_bytes segs) tail)))

pub put_entries-append :
    (es : List AgEntry) (cap : ℕ) (pre tail : Bytes) (off off' : ℕ)
    → off ≡ length pre
    → off' ≡ off + entries_size es
    → off' ≤ cap
    → put_entries cap (pre ++ (replicate (entries_size es) 0 ++ tail)) off es
      ≡ ok (pre ++ (entries_bytes es ++ tail), off')
unfolding put_entries entries_bytes
put_entries-append [] cap pre tail off off' at e fits =
    λ i. ok (pre ++ tail, (let h : off ≡ off' = omega arith in h) i)
put_entries-append (en ∷ es) cap pre tail off off' at e fits =
    let n : ℕ = length en.segs * 16 in
    let m : ℕ = entries_size es in
    let behind = replicate m 0 ++ tail in
    rw (le→leb (off + 8 + length en.segs * 16) cap (omega arith)) (
      step _
        (ap (λ b. put_entry_head b off en)
            (zeros_before (8 + n) m (entries_size (en ∷ es)) pre tail (omega arith)
              ∙ zeros_before 8 n (8 + n) pre behind (omega arith))
          ∙ put_entry_head-append en pre (replicate n 0 ++ behind) off at)
        (step _
          (ap (λ b. put_segments b (off + 8) en.segs)
              (sym (append_assoc pre (head_bytes en) (replicate n 0 ++ behind)))
            ∙ put_segments-append en.segs (pre ++ head_bytes en) behind (off + 8) (off + 8 + n)
                (omega (arith, length-append pre (head_bytes en), length-head_bytes en)) refl)
          (ap (λ b. put_entries cap b (off + 8 + n) es) (entry_behind pre en behind)
            ∙ (put_entries-append es cap (pre ++ entry_bytes en) tail (off + 8 + n) off'
                  (omega (arith, length-append pre (entry_bytes en), length-entry_bytes en))
                  (omega arith) fits
                ∙ ap (λ b. ok (b, off')) (regroup pre (entry_bytes en) (entries_bytes es) tail)))))

get_segments-append :
    (segs : List AgSegment) (p pre tail : Bytes) (used off off' : ℕ)
    → p ≡ pre ++ (segs_bytes segs ++ tail)
    → off ≡ length pre
    → off' ≡ off + length segs * 16
    → off' ≤ used
    → AllSegs segs
    → get_segments p used off (length segs) ≡ ok (segs, off')
unfolding get_segments segs_bytes
get_segments-append [] p pre tail used off off' here at e fits all =
    λ i. ok ([], (let h : off ≡ off' = omega arith in h) i)
get_segments-append (s ∷ segs) p pre tail used off off' here at e fits all =
    let rest = segs_bytes segs ++ tail in
    let here' : p ≡ pre ++ (seg_bytes s ++ rest) =
      here ∙ ap (λ t. pre ++ t) (append_assoc (seg_bytes s) (segs_bytes segs) tail) in
    let got = get_segment-append s pre rest off at all.0 in
    rw (le→leb (off + 16) used (omega arith)) (
      step _ (ap (λ b. get_u32 b off) here' ∙ got.0) (
        step _ (ap (λ b. get_u32 b (off + 4)) here' ∙ got.1) (
          step _ (ap (λ b. get_u64 b (off + 8)) here' ∙ got.2) (
            step _
              (get_segments-append segs p (pre ++ seg_bytes s) tail used (off + 16) off'
                (here' ∙ sym (append_assoc pre (seg_bytes s) rest))
                (omega (arith, length-append pre (seg_bytes s), length-seg_bytes s)) (omega arith)
                fits all.1)
              refl))))

pub get_entries-append :
    (es : List AgEntry) (p pre tail : Bytes) (used off : ℕ)
    → p ≡ pre ++ (entries_bytes es ++ tail)
    → off ≡ length pre
    → off + entries_size es ≤ used
    → AllEntries es
    → get_entries p used off (length es) ≡ ok es
unfolding get_entries entries_bytes
get_entries-append [] p pre tail used off here at fits all = refl
get_entries-append (en ∷ es) p pre tail used off here at fits all =
    let n : ℕ = length en.segs * 16 in
    let rest = entries_bytes es ++ tail in
    let here₁ : p ≡ (pre ++ entry_bytes en) ++ rest =
      here ∙ sym (regroup pre (entry_bytes en) (entries_bytes es) tail) in
    let here₂ : p ≡ (pre ++ head_bytes en) ++ (segs_bytes en.segs ++ rest) =
      here₁ ∙ sym (entry_behind pre en rest) in
    let here₃ : p ≡ pre ++ (head_bytes en ++ (segs_bytes en.segs ++ rest)) =
      here₂ ∙ append_assoc pre (head_bytes en) (segs_bytes en.segs ++ rest) in
    let got = get_entry_head-append en pre (segs_bytes en.segs ++ rest) off at all.0 in
    rw (le→leb (off + 8) used (omega arith)) (
      step _ (ap (λ b. get_u16 b off) here₃ ∙ got.0) (
        step _ (ap (λ b. get_u16 b (off + 2)) here₃ ∙ got.1) (
          step _ (ap (λ b. get_u32 b (off + 4)) here₃ ∙ got.2) (
            step _
              (get_segments-append en.segs p (pre ++ head_bytes en) rest used (off + 8)
                (off + 8 + n) here₂
                (omega (arith, length-append pre (head_bytes en), length-head_bytes en)) refl
                (omega arith) all.0.segs)
              (step _
                (get_entries-append es p (pre ++ entry_bytes en) tail used (off + 8 + n) here₁
                  (omega (arith, length-append pre (entry_bytes en), length-entry_bytes en))
                  (omega arith) all.1)
                refl)))))

-- The map's numbers fit their widths.
