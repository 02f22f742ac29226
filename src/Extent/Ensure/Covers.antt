-- ===== src/Extent/Ensure/Covers.antt =====
-- src/extent.rs: the runs that `map_ensure` returns are those of the whole range, one behind the other.
use fs.Extent.Inline.{extent_ensure}
use fs.Fmt.Bytes.{Bytes}
use fs.Fmt.Extents.{extents_store}
use fs.Prelude.Exec.{reads, Returns, Returns-step, pure, lift, Returns-bind, Returns-if}
use fs.Alloc.Table.{Alloc, add_u64, AllocState}
use fs.Extent.Lookup.Bounds.{IsLong, map_lookup-IsLong}
use fs.Extent.Ensure.{
  Run, Fresh, collect_found, collect_runs, tree_ensure, ensure_mapped, map_ensure,
}
use fs.Extent.Lookup.{map_lookup}
use fs.Extent.Node.{Map, hole, run}
use fs.Fmt.Inode.{Inode, fmt_extent, fmt_tree}
use fs.Fmt.Checksum.{Crc32c}
use fs.Prelude.{
  ℕ, zero, suc, ◌+◌, ◌-◌, ◌≤◌, ◌<◌, min, ◌≡◌, refl, subst, inl, inr, List, [], ◌∷◌, arith, ltb,
  ltb→lt, Bool-cases, Holds, ◌^◌, ◌||◌, ◌==◌, if◌then◌else◌, ok,
}

-- Runs that are not empty and follow each other from `pos` to `end`.
abbrev pub Covers : (pos end : ℕ) → List Run → Type 0
Covers pos end [] = pos ≡ end
Covers pos end (r ∷ rs) = (r.file_block ≡ pos) × (0 < r.len) × Covers (pos + r.len) end rs

collect_found-Covers :
    (next : ℕ → Alloc (List Run)) (pos end : ℕ) (fresh : Fresh) (found : Map)
    → pos < end
    → IsLong found
    → ((p : ℕ) → p ≤ end → Returns (Covers p end) (next p))
    → Returns (Covers pos end) (collect_found next pos end fresh found)
unfolding collect_found
collect_found-Covers next pos end fresh (hole n) below long rest = λ s. tt
collect_found-Covers next pos end fresh (run blk len) below long rest =
    Returns-step (Covers pos end) (next (pos + min len (end - pos))) _ (λ s runs eq. (
      refl,
      omega arith,
      subst (Holds (Covers (pos + min len (end - pos)) end)) eq (rest _ (omega arith) s),
    ))

module _ ⦃crc : Crc32c⦄ where
  collect_runs-Covers :
      (fuel depth : ℕ) (inode : Inode) (pos end : ℕ) (fresh : Fresh)
      → pos ≤ end
      → Returns (Covers pos end) (collect_runs fuel depth inode pos end fresh)
  unfolding collect_runs
  collect_runs-Covers zero depth inode pos end fresh le = elim (Bool-cases (ltb pos end)) [
    | inl e ↦ rw e (λ s. tt)
    | inr e ↦ rw e (λ s. ground arith)
  ]
  collect_runs-Covers (suc fuel) depth inode pos end fresh le = elim (Bool-cases (ltb pos end)) [
    | inr e ↦ rw e (λ s. ground arith)
    | inl e ↦ rw e (
        Returns-step (Covers pos end) (reads (λ s. map_lookup depth s.fs s.txn inode pos)) _
          (λ s found eq.
            collect_found-Covers (λ p. collect_runs fuel depth inode p end fresh) pos end fresh
              found (ltb→lt pos end e)
              (subst (Holds IsLong) eq (map_lookup-IsLong depth s.fs s.txn inode pos))
              (λ p below. collect_runs-Covers fuel depth inode p end fresh below) s))
  ]

  -- The file's inode, then the runs.
  abbrev pub IsCovered : (pos end : ℕ) → Inode × List Run → Type 0
  IsCovered pos end r = Covers pos end r.1

  ensure_mapped-IsCovered :
      (depth ag : ℕ) (inode : Inode) (fblock n : ℕ)
      → fblock + n < 2 ^ 64
      → Returns (IsCovered fblock (add_u64 fblock n)) (ensure_mapped depth ag inode fblock n)
  unfolding ensure_mapped
  ensure_mapped-IsCovered depth ag inode fblock n small =
      Returns-bind (IsCovered fblock (add_u64 fblock n))
        (if inode.format == fmt_extent
          then extent_ensure depth ag inode fblock n
          else pure (inode, []))
        _
        (λ (r : Inode × Fresh).
          Returns-bind (IsCovered fblock (add_u64 fblock n))
            (if r.0.format == fmt_extent
              then pure (r.0.payload, r.1)
              else tree_ensure depth ag r.0.payload fblock n r.1)
            _
            (λ (q : Bytes × Fresh).
              Returns-step (IsCovered fblock (add_u64 fblock n))
                (collect_runs n depth (record r.0 { payload = q.0 }) fblock (add_u64 fblock n) q.1)
                _
                (λ s runs eq. subst (Holds (Covers fblock (add_u64 fblock n))) eq (
                  collect_runs-Covers n depth (record r.0 { payload = q.0 }) fblock
                    (add_u64 fblock n) q.1 (omega arith) s))))

  map_ensure-IsCovered :
      (depth ag : ℕ) (inode : Inode) (fblock n : ℕ)
      → fblock + n < 2 ^ 64
      → Returns (IsCovered fblock (fblock + n)) (map_ensure depth ag inode fblock n)
  unfolding map_ensure
  map_ensure-IsCovered depth ag inode fblock n small =
      let e : add_u64 fblock n ≡ fblock + n = omega arith in
      subst (λ end. Returns (IsCovered fblock end) (map_ensure depth ag inode fblock n)) e
        (Returns-if (IsCovered fblock (add_u64 fblock n))
          (inode.format == fmt_extent || inode.format == fmt_tree) _ _
          (ensure_mapped-IsCovered depth ag inode fblock n small)
          (Returns-bind (IsCovered fblock (add_u64 fblock n))
            (lift (extents_store inode.payload [])) _
            (λ (payload : Bytes).
              ensure_mapped-IsCovered depth ag
                (record inode { format = fmt_extent; payload = payload }) fblock n small)))

  -- Where `map_ensure` succeeds, the runs that it returns cover the range that it was asked for: they are not
  -- empty, the first one starts at the range's first block, each next one where the one before ends, and the
  -- last one ends with the range. The end of the range fits 64 bits.
  pub map_ensure-Covers :
      (depth ag : ℕ) (inode mapped : Inode) (fblock n : ℕ) (runs : List Run) (s : AllocState)
      → fblock + n < 2 ^ 64
      → (map_ensure depth ag inode fblock n s).0 ≡ ok (mapped, runs)
      → Covers fblock (fblock + n) runs
  map_ensure-Covers depth ag inode mapped fblock n runs s small done =
      subst (Holds (IsCovered fblock (fblock + n))) done
        (map_ensure-IsCovered depth ag inode fblock n small s)
