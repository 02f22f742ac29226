-- ===== src/Alloc/Free/Enough.antt =====
-- src/alloc.rs: the loop of `free_extent` frees a block or more in each round, so it ends.
use fs.Prelude.Loops.{While}
use fs.Prelude.Exec.{◌>>=◌, pure, lift, modify, Returns, Returns-bind, continue, Returns-if}
use fs.Alloc.Table.{Alloc, rt_state_set, AllocState, add_u32, rt_state, rt_ref}
use fs.Alloc.Record.{alloc_fanout, RecRef, rec_state, rec_state_set, rec_ref}
use fs.Alloc.Free.{
  free_cell, free_l1, coarsen_l1, free_l2, child_of, coarsen_l0, free_in_cell, free_at, free_from,
}
use fs.Alloc.Arena.{rec_read, rec_write}
use fs.Alloc.Counters.{account_free}
use fs.Fmt.Cells.{cell_free, cell_full, cell_refined}
use fs.Fmt.Bytes.{Bytes}
use fs.Fmt.RootTable.{cell_blocks}
use fs.Fmt.Checksum.{Crc32c}
use fs.Prelude.{
  ℕ, ◌%◌, ◌<◌, arith, ◌==◌, ensure, misaligned_free, not_allocated, zero, suc, ◌+◌, ◌/◌, ◌^◌, ◌≤◌,
  ◌≡◌, refl, subst, inl, inr, ltb, le→ltb, Bool-cases, Out, Holds, ok, err, panic, true, false,
}

-- At least one block.
abbrev IsSome : ℕ → Type 0
IsSome n = 0 < n

abbrev freeing : (n : ℕ) → Unit {0} → Alloc ℕ
freeing n nothing = pure n

free_cell-IsSome : (local c : ℕ) → Returns IsSome (free_cell local c)
unfolding free_cell
free_cell-IsSome local c =
    Returns-bind IsSome (lift (ensure (local % cell_blocks == 0) misaligned_free)) _ (λ done.
      Returns-bind IsSome (rt_state_set c cell_free) _ (λ written.
        Returns-bind IsSome (modify (account_free cell_blocks)) (freeing cell_blocks)
          (λ counted s. omega arith)))

-- A step behind what was freed.
Holds-chain :
    (r : Out ℕ) (after : ℕ → Alloc (Unit {0})) (s : AllocState)
    → Holds IsSome r
    → Holds IsSome (continue r (λ freed. after freed >>= freeing freed) s).0
Holds-chain (ok n) after s some_freed =
    Returns-bind IsSome (after n) (freeing n) (λ done s. some_freed) s
Holds-chain (err e) after s some_freed = tt
Holds-chain panic after s some_freed = tt

Returns-chain :
    (m : Alloc ℕ) (after : ℕ → Alloc (Unit {0}))
    → Returns IsSome m
    → Returns IsSome (m >>= λ freed. after freed >>= freeing freed)
Returns-chain m after some_freed s = Holds-chain (m s).0 after (m s).1 (some_freed s)

module _ ⦃crc : Crc32c⦄ where
  free_l1-IsSome :
      (ag local : ℕ) (l0 : RecRef) (l0rec : Bytes) (i : ℕ)
      → Returns IsSome (free_l1 ag local l0 l0rec i)
  unfolding free_l1
  free_l1-IsSome ag local l0 l0rec i =
      Returns-bind IsSome (lift (ensure (local % alloc_fanout == 0) misaligned_free)) _ (λ done.
        Returns-bind IsSome (lift (rec_state_set l0rec i cell_free)) _ (λ l0rec.
          Returns-bind IsSome (rec_write ag l0 l0rec) _ (λ written.
            Returns-bind IsSome (modify (account_free alloc_fanout)) (freeing alloc_fanout)
              (λ counted s. omega arith))))

  free_l2-IsSome :
      (ag local : ℕ) (l0 : RecRef) (l0rec : Bytes) (i : ℕ)
      → Returns IsSome (free_l2 ag local l0 l0rec i)
  unfolding free_l2
  free_l2-IsSome ag local l0 l0rec i =
      Returns-bind IsSome (lift (rec_ref l0rec i)) _ (λ (l1 : RecRef).
        Returns-bind IsSome (rec_read ag l1) _ (λ (l1rec : Bytes).
          Returns-bind IsSome (lift (rec_state l1rec (local % alloc_fanout))) _ (λ (st : ℕ).
            Returns-bind IsSome (lift (ensure (st == cell_full) not_allocated)) _ (λ done.
              Returns-bind IsSome (lift (rec_state_set l1rec (local % alloc_fanout) cell_free)) _
                (λ (l1rec : Bytes).
                  Returns-bind IsSome (modify (account_free 1))
                    (λ counted. coarsen_l1 ag l0 l0rec i l1 l1rec >>= freeing 1)
                    (λ counted.
                      Returns-bind IsSome (coarsen_l1 ag l0 l0rec i l1 l1rec) (freeing 1)
                        (λ done s. omega arith)))))))

  -- `coarsen_l0` returns what was freed before it.
  free_in_cell-IsSome : (ag local c : ℕ) → Returns IsSome (free_in_cell ag local c)
  unfolding free_in_cell
  free_in_cell-IsSome ag local c = Returns-bind IsSome (rt_ref c) _ (λ (l0 : RecRef).
      Returns-bind IsSome (rec_read ag l0) _ (λ (l0rec : Bytes).
        Returns-bind IsSome (lift (rec_state l0rec (child_of local))) _ (λ (st : ℕ).
          Returns-chain _ (λ freed. coarsen_l0 ag c l0)
            (Returns-if IsSome (st == cell_full) _ _
              (free_l1-IsSome ag local l0 l0rec (child_of local))
              (Returns-if IsSome (st == cell_refined) _ _
                (free_l2-IsSome ag local l0 l0rec (child_of local)) (λ s. tt))))))

  free_at-IsSome : (ag local : ℕ) → Returns IsSome (free_at ag local)
  unfolding free_at
  free_at-IsSome ag local = Returns-bind IsSome (rt_state (local / cell_blocks)) _ (λ (st : ℕ).
      Returns-if IsSome (st == cell_full) _ _ (free_cell-IsSome local (local / cell_blocks)) (
        Returns-if IsSome (st == cell_refined) _ _
          (free_in_cell-IsSome ag local (local / cell_blocks)) (λ s. tt)))

  -- One round of the loop, from the number of blocks freed before it to the number freed after it.
  abbrev pub free_round : ℕ → ℕ → ℕ → Alloc ℕ
  free_round ag local0 cur = do
    freed ← free_at ag (add_u32 local0 (cur % 2 ^ 32))
    pure (cur + freed)

  -- A run of the loop that ends, and that the loop on fuel follows.
  abbrev pub FreesAll : ℕ → ℕ → ℕ → ℕ → ℕ → AllocState → Type 0
  FreesAll fuel ag local0 cur n s =
      (r : Out ℕ × AllocState) × While (λ k. ltb k n) (free_round ag local0) cur s r
      × (free_from fuel ag local0 cur n s ≡ continue r.0 (λ k. pure tt) r.1)

  after_round :
      (fuel ag local0 cur n : ℕ) (s : AllocState)
      → ltb cur n ≡ true
      → ((k : ℕ) (s' : AllocState) → 0 < k → FreesAll fuel ag local0 (cur + k) n s')
      → (freed : Out ℕ) (s' : AllocState)
      → free_at ag (add_u32 local0 (cur % 2 ^ 32)) s ≡ (freed, s')
      → FreesAll (suc fuel) ag local0 cur n s
  unfolding free_from
  after_round fuel ag local0 cur n s more rest (err e) s' found =
      ((err e, s'), While.fails more (rw found refl), rw (more, found) refl)
  after_round fuel ag local0 cur n s more rest panic s' found =
      ((panic, s'), While.panics more (rw found refl), rw (more, found) refl)
  after_round fuel ag local0 cur n s more rest (ok freed) s' found =
      let some_freed : 0 < freed =
        subst (λ r. Holds IsSome r.0) found (free_at-IsSome ag (add_u32 local0 (cur % 2 ^ 32)) s) in
      let (r, later, same) = rest freed s' some_freed in
      (r, While.turns more (rw found refl) later, rw (more, found) same)

  pub free_from_enough :
      (fuel ag local0 cur n : ℕ) (s : AllocState)
      → n ≤ cur + fuel
      → (r : Out ℕ × AllocState) × While (λ k. ltb k n) (free_round ag local0) cur s r
        × (free_from fuel ag local0 cur n s ≡ continue r.0 (λ k. pure tt) r.1)
  unfolding free_from
  free_from_enough zero ag local0 cur n s enough =
      let over : ltb cur n ≡ false = le→ltb cur n (omega arith) in
      ((ok cur, s), While.ends over, rw over refl)
  free_from_enough (suc fuel) ag local0 cur n s enough = elim (Bool-cases (ltb cur n)) [
    | inr over ↦ ((ok cur, s), While.ends over, rw over refl)
    | inl more ↦
        let a = add_u32 local0 (cur % 2 ^ 32) in
        after_round fuel ag local0 cur n s more
          (λ k s' some_freed. free_from_enough fuel ag local0 (cur + k) n s' (omega arith))
          (free_at ag a s).0 (free_at ag a s).1 refl
  ]
