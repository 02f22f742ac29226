-- ===== src/Journal/Store.antt =====
-- The journal as an array of blocks: what writes to it leave in it.
use fs.Prelude.{
  ℕ, suc, ◌+◌, ◌≤◌, ◌<◌, ◌≡◌, ◌≢◌, ◌⊎◌, inl, inr, refl, sym, ap, subst, ◌∙◌, Bool-cases, true, List,
  [], ◌∷◌, ok, step, >>=-eq-ok, length, arith, ◌==◌,
}
use fs.Prelude.Exec
use fs.Fmt.Bytes.{Bytes}
use fs.Device.{pread, pwrite}
use fs.Device.Laws.{pread-pwrite_self, pread-pwrite_apart, pwrite-ok}
use fs.Fs.{Gofs}
use fs.Fs.Read.{resolve}
use fs.Journal.Commit.{journal_phys, write_journal, write_data}
use fs.Journal.Replay.{read_journal, read_data}

-- A writable file system whose journal blocks resolve to ranges of the device that lie apart.
pub record IsReady (phys : ℕ → ℕ) (g : Gofs) : Type 0 where
  pub writable : g.dev.writable ≡ true
  pub located : (i : ℕ) → i < g.sb.journal_length → journal_phys g i ≡ ok (phys i)
  pub apart :
      (i j : ℕ)
      → i < g.sb.journal_length
      → j < g.sb.journal_length
      → i ≢ j
      → (phys i + g.sb.blocksize ≤ phys j) ⊎ (phys j + g.sb.blocksize ≤ phys i)

-- The file system after a write of `content` at `off`.
unfoldable pub put : Gofs → ℕ → Bytes → Gofs
put g off content = record g { dev = (pwrite content off g.dev).1 }

journal_phys-put :
    (g : Gofs) (off : ℕ) (content : Bytes) (i : ℕ)
    → journal_phys (put g off content) i ≡ journal_phys g i
unfolding put journal_phys resolve
journal_phys-put g off content i = refl

writable-put :
    (g : Gofs) (off : ℕ) (content : Bytes) → (put g off content).dev.writable ≡ g.dev.writable
unfolding put pwrite
writable-put g off content = elim (Bool-cases (length content == 0)) [
  | inl no_bytes ↦ rw no_bytes refl
  | inr some_bytes ↦ elim (Bool-cases g.dev.writable) [
    | inl w ↦ rw (some_bytes, w) refl
    | inr w ↦ rw (some_bytes, w) refl
  ]
]

module _ (phys : ℕ → ℕ) (g : Gofs) (ready : IsReady phys g) where
  pub put-IsReady : (off : ℕ) (content : Bytes) → IsReady phys (put g off content)
  unfolding put
  put-IsReady off content = record {
    writable = writable-put g off content ∙ ready.writable;
    located = λ i h. journal_phys-put g off content i ∙ ready.located i h;
    apart = ready.apart;
  }

  pub write_journal-put :
      (i : ℕ) (content : Bytes)
      → i < g.sb.journal_length
      → write_journal i content g ≡ (ok tt, put g (phys i) content)
  unfolding write_journal put
  write_journal-put i content h =
      rw (ready.located i h)
        (ap (λ r. (r.0, record g { dev = r.1 })) (pwrite-ok g.dev content (phys i) ready.writable))

  pub read_journal-put_self :
      (i : ℕ) (content : Bytes)
      → i < g.sb.journal_length
      → length content ≡ g.sb.blocksize
      → read_journal (put g (phys i) content) i ≡ ok content
  unfolding read_journal put
  read_journal-put_self i content h size =
      step _ (journal_phys-put g (phys i) content i ∙ ready.located i h) (
        ap (λ n. pread (pwrite content (phys i) g.dev).1 n (phys i)) (sym size)
        ∙ pread-pwrite_self g.dev content (phys i) ready.writable)

  -- What a read of a journal block reads on the device.
  read_at_phys :
      (j : ℕ) {c : Bytes}
      → j < g.sb.journal_length
      → read_journal g j ≡ ok c
      → pread g.dev g.sb.blocksize (phys j) ≡ ok c
  unfolding read_journal
  read_at_phys j hj h =
      sym (step (λ off. pread g.dev g.sb.blocksize off) (ready.located j hj) refl) ∙ h

  pub read_journal-put_apart :
      (i j : ℕ) (content : Bytes) {c : Bytes}
      → i < g.sb.journal_length
      → j < g.sb.journal_length
      → i ≢ j
      → length content ≡ g.sb.blocksize
      → read_journal g j ≡ ok c
      → read_journal (put g (phys i) content) j ≡ ok c
  unfolding read_journal put
  read_journal-put_apart i j content hi hj apart size h =
      step _ (journal_phys-put g (phys i) content j ∙ ready.located j hj) (
        pread-pwrite_apart g.dev content (phys i) (phys j) g.sb.blocksize ready.writable
          (elim (ready.apart i j hi hj apart) [
            | inl before ↦ inr (omega arith)
            | inr behind ↦ inl (omega arith)
          ])
          (read_at_phys j hj h))

-- What writing the journal's blocks from `lo` to `hi` leaves as it was.
pub record Wrote (phys : ℕ → ℕ) (g : Gofs) (lo hi : ℕ) (g' : Gofs) : Type 0 where
  pub ready : IsReady phys g'
  pub same_sb : g'.sb ≡ g.sb
  pub keeps :
      (j : ℕ) (c : Bytes)
      → j < g.sb.journal_length
      → (j < lo) ⊎ (hi ≤ j)
      → read_journal g j ≡ ok c
      → read_journal g' j ≡ ok c

abbrev pub AllSized : ℕ → List Bytes → Type 0
AllSized bs [] = Unit {0}
AllSized bs (content ∷ blocks) = (length content ≡ bs) × AllSized bs blocks

module _ (phys : ℕ → ℕ) where
  pub Wrote-put :
      (g : Gofs) (i : ℕ) (content : Bytes)
      → IsReady phys g
      → i < g.sb.journal_length
      → length content ≡ g.sb.blocksize
      → Wrote phys g i (suc i) (put g (phys i) content)
  Wrote-put g i content ready h size = record {
    ready = put-IsReady phys g ready (phys i) content;
    same_sb = unfold put in refl;
    keeps = λ j c hj outside.
        read_journal-put_apart phys g ready i j content h hj
          (λ e. elim outside [ inl o ↦ absurd (omega arith) | inr o ↦ absurd (omega arith) ]) size;
  }

  pub Wrote-trans :
      (g g' g'' : Gofs) (lo mid hi : ℕ)
      → lo ≤ mid
      → mid ≤ hi
      → Wrote phys g lo mid g'
      → Wrote phys g' mid hi g''
      → Wrote phys g lo hi g''
  Wrote-trans g g' g'' lo mid hi p q a b = record {
    ready = b.ready;
    same_sb = b.same_sb ∙ a.same_sb;
    keeps = λ j c hj outside h.
        b.keeps j c (rw (ap (λ s. s.journal_length) a.same_sb) hj)
          (elim outside [ inl o ↦ inl (omega arith) | inr o ↦ inr o ])
          (a.keeps j c hj (elim outside [ inl o ↦ inl o | inr o ↦ inr (omega arith) ]) h);
  }

  -- The data blocks from `i` on are written, then read back.
  pub write_data-read :
      (g : Gofs) (i : ℕ) (blocks : List Bytes)
      → IsReady phys g
      → i + length blocks ≤ g.sb.journal_length
      → AllSized g.sb.blocksize blocks
      → (g' : Gofs) × (write_data i blocks g ≡ (ok tt, g'))
        × Wrote phys g i (i + length blocks) g'
        × (read_data g' i (length blocks) ≡ ok blocks)
  unfolding write_data read_data
  write_data-read g i [] ready fits all =
      (g, refl, record { ready = ready; same_sb = refl; keeps = λ j c hj outside h. h }, refl)
  write_data-read g i (content ∷ blocks) ready fits all =
      let g₁ = put g (phys i) content in
      let first : Wrote phys g i (suc i) g₁ = Wrote-put g i content ready (omega arith) all.0 in
      let (g₂, run, rest, held) =
        write_data-read g₁ (suc i) blocks first.ready
          (rw (ap (λ s. s.journal_length) first.same_sb) (omega arith))
          (subst (λ s. AllSized s.blocksize blocks) (sym first.same_sb) all.1) in
      (
        g₂,
        Exec.step (write_journal i content) (λ u. write_data (suc i) blocks)
            (write_journal-put phys g ready i content (omega arith)) run,
        subst (λ h. Wrote phys g i h g₂)
            (let e : suc i + length blocks ≡ i + length (content ∷ blocks) = omega arith in e)
            (Wrote-trans g g₁ g₂ i (suc i) (suc i + length blocks) (omega arith) (omega arith) first
              rest),
        step _
            (rest.keeps i content (rw (ap (λ s. s.journal_length) first.same_sb) (omega arith))
              (inl (omega arith))
              (read_journal-put_self phys g ready i content (omega arith) all.0))
            (step _ held refl),
      )

module _ (phys : ℕ → ℕ) (g g' : Gofs) (lo hi : ℕ) (w : Wrote phys g lo hi g') where
  pub Wrote-widen : (lo' hi' : ℕ) → lo' ≤ lo → hi ≤ hi' → Wrote phys g lo' hi' g'
  Wrote-widen lo' hi' p q = record {
    ready = w.ready;
    same_sb = w.same_sb;
    keeps = λ j c hj outside h.
        w.keeps j c hj (elim outside [ inl o ↦ inl (omega arith) | inr o ↦ inr (omega arith) ]) h;
  }

  -- A run of blocks before what was written.
  pub read_data-keeps :
      (i : ℕ) (blocks : List Bytes)
      → i + length blocks ≤ lo
      → i + length blocks ≤ g.sb.journal_length
      → read_data g i (length blocks) ≡ ok blocks
      → read_data g' i (length blocks) ≡ ok blocks
  unfolding read_data
  read_data-keeps i [] before inside h = refl
  read_data-keeps i (content ∷ blocks) before inside h =
      let (a, first, more) = >>=-eq-ok (read_journal g i) _ h in
      let (tail, rest, e) = >>=-eq-ok (read_data g (suc i) (length blocks)) _ more in
      let (same, same') = cons-injective (ok-injective e) in
      step _ (w.keeps i content (omega arith) (inl (omega arith)) (first ∙ ap ok same)) (
        step _ (read_data-keeps (suc i) blocks (omega arith) (omega arith) (rest ∙ ap ok same'))
          refl)
    where
      ok-injective : {x y : List Bytes} → ok x ≡ ok y → x ≡ y
      ok-injective e = cc

      cons-injective : {x y : Bytes} {xs ys : List Bytes} → x ∷ xs ≡ y ∷ ys → (x ≡ y) × (xs ≡ ys)
      cons-injective e = (cc, cc)
