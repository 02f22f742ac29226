-- ===== src/Fmt/AgMap/Disjoint.antt =====
-- Distinct addresses resolve to blocks of the device that do not overlap.
use fs.Prelude.{
  ℕ, suc, zero, ◌/◌, ◌%◌, ◌^◌, ◌<◌, ◌≡◌, ◌≢◌, ◌⊎◌, inl, inr, refl, ap, Bool, true, false, ◌||◌,
  some, none, List, [], ◌∷◌, leb, ◌==◌, if◌then◌else◌, get_elem?, bit_and, le_or_lt, arith,
}
use fs.Fmt.AgMap.{AgEntry, AgMap, agf_present, resolve_in, resolve_entry, resolve}
use fs.Fmt.AgMap.Resolve.{
  IsWellFormed, EntriesApart, AllWithin, EntriesWithin, BlocksApart, BlocksApart-sym,
  resolve_in-apart, resolve_in-AreApart,
}
use fs.Fmt.Addr.{blk_split}

module _ (bs : ℕ) where
  resolve_entry-in :
      (local off : ℕ) (e : AgEntry)
      → resolve_entry local bs (some e) ≡ some off
      → resolve_in local bs e.segs ≡ some off
  unfolding resolve_entry
  resolve_entry-in local off e h = past (bit_and e.flags agf_present == 0 || leb e.length local) h
    where
      past :
          (b : Bool)
          → (if b then none else resolve_in local bs e.segs) ≡ some off
          → resolve_in local bs e.segs ≡ some off
      past true h = cc
      past false h = h

  no_entry : (local off : ℕ) → resolve_entry local bs none ≢ some off
  unfolding resolve_entry
  no_entry local off h = cc

  entry_apart_from :
      (local local' off off' j : ℕ) (e : AgEntry) (entries : List AgEntry)
      → EntriesApart bs e entries
      → AllWithin bs e.segs
      → EntriesWithin bs entries
      → resolve_entry local bs (some e) ≡ some off
      → resolve_entry local' bs (get_elem? entries j) ≡ some off'
      → BlocksApart bs off off'
  entry_apart_from local local' off off' j e [] all within rest h h' =
      absurd (no_entry local' off' h')
  entry_apart_from local local' off off' zero e (e' ∷ entries) all within (within', rest) h h' =
      resolve_in-AreApart bs local local' off off' e.segs e'.segs all.0 within within'
        (resolve_entry-in local off e h) (resolve_entry-in local' off' e' h')
  entry_apart_from local local' off off' (suc j) e (e' ∷ entries) all within (within', rest) h h' =
      entry_apart_from local local' off off' j e entries all.1 within rest h h'

  entries_apart :
      (i j local local' off off' : ℕ) (entries : List AgEntry)
      → IsWellFormed bs entries
      → EntriesWithin bs entries
      → (i ≢ j) ⊎ (local ≢ local')
      → resolve_entry local bs (get_elem? entries i) ≡ some off
      → resolve_entry local' bs (get_elem? entries j) ≡ some off'
      → BlocksApart bs off off'
  entries_apart i j local local' off off' [] wf within apart h h' = absurd (no_entry local off h)
  entries_apart zero zero local local' off off' (e ∷ entries) wf (within, rest) apart h h' =
      resolve_in-apart bs local local' off off' e.segs wf.0 within
        (elim apart [ inl i ↦ absurd (i refl) | inr l ↦ l ]) (resolve_entry-in local off e h)
        (resolve_entry-in local' off' e h')
  entries_apart zero (suc j) local local' off off' (e ∷ entries) wf (within, rest) apart h h' =
      entry_apart_from local local' off off' j e entries wf.1 within rest h h'
  entries_apart (suc i) zero local local' off off' (e ∷ entries) wf (within, rest) apart h h' =
      BlocksApart-sym bs off' off
        (entry_apart_from local' local off' off i e entries wf.1 within rest h' h)
  entries_apart (suc i) (suc j) local local' off off' (e ∷ entries) wf (within, rest) apart h h' =
      entries_apart i j local local' off off' entries wf.2 rest
        (elim apart [ inl d ↦ inl (λ k. d (ap suc k)) | inr l ↦ inr l ]) h h'

-- In a map without overlapping segments, each of which ends within 32-bit block numbers and 64-bit device
-- offsets, two distinct 64-bit addresses that both resolve denote blocks of the device that share no byte.
pub resolve-BlocksApart :
    (m : AgMap) (bs addr addr' off off' : ℕ)
    → IsWellFormed bs m.entries
    → EntriesWithin bs m.entries
    → addr < 2 ^ 64
    → addr' < 2 ^ 64
    → addr ≢ addr'
    → resolve m addr bs ≡ some off
    → resolve m addr' bs ≡ some off'
    → BlocksApart bs off off'
unfolding resolve blk_split
resolve-BlocksApart m bs addr addr' off off' wf within small small' apart h h' =
    entries_apart bs (addr / 2 ^ 32 % 2 ^ 32) (addr' / 2 ^ 32 % 2 ^ 32) (addr % 2 ^ 32)
      (addr' % 2 ^ 32) off off' m.entries wf within
      (elim (le_or_lt (addr % 2 ^ 32) (addr' % 2 ^ 32)) [
        | inl le ↦ elim (le_or_lt (addr' % 2 ^ 32) (addr % 2 ^ 32)) [
          | inl ge ↦ inl (λ e. apart (omega arith))
          | inr lt ↦ inr (λ e. omega arith)
        ]
        | inr lt ↦ inr (λ e. omega arith)
      ])
      h h'
