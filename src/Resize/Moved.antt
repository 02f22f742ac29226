-- ===== src/Resize/Moved.antt =====
-- What moving an AG in the map does to addresses.
use native.Mathlib.Nat.{mul-le-mul_right}
use fs.Prelude.{
  ◌/◌, ◌%◌, ℕ, zero, suc, ◌+◌, ◌-◌, ◌*◌, ◌^◌, ◌<◌, ◌≡◌, ◌≢◌, refl, ap, ◌∙◌, ◌≤◌, some, List, [],
  ◌∷◌, ok, false, ◌==◌, get_elem?, set, bit_and, lt→leb, le→leb, lt→ltb, arith,
}
use fs.Fmt.AgMap
use fs.Fmt.AgMap.{AgEntry, agf_present, resolve_in, resolve_entry}
use fs.Fmt.Addr.{blk_addr, blk_split}
use fs.Fmt.Addr.Laws.{blk_split-blk_addr}
use fs.Fs.{Gofs}
use fs.Fs.Read.{resolve, resolved}
use fs.Resize.Entries.{move_entry, one_segment}

get_elem?-set_self :
    (es : List AgEntry) (i : ℕ) (e e' : AgEntry)
    → get_elem? es i ≡ some e
    → get_elem? (set es i e') i ≡ some e'
get_elem?-set_self [] i e e' h = cc
get_elem?-set_self (x ∷ es) zero e e' h = refl
get_elem?-set_self (x ∷ es) (suc i) e e' h = get_elem?-set_self es i e e' h

get_elem?-set_other :
    (es : List AgEntry) (i j : ℕ) (e' : AgEntry)
    → i ≢ j
    → get_elem? (set es i e') j ≡ get_elem? es j
get_elem?-set_other [] i j e' ne = refl
get_elem?-set_other (x ∷ es) zero zero e' ne = absurd (ne refl)
get_elem?-set_other (x ∷ es) zero (suc j) e' ne = refl
get_elem?-set_other (x ∷ es) (suc i) zero e' ne = refl
get_elem?-set_other (x ∷ es) (suc i) (suc j) e' ne =
    get_elem?-set_other es i j e' (λ h. ne (ap suc h))

-- Once the map has the one segment of a moved AG that is present, and that ends behind the destination within
-- 64-bit offsets, each block of the AG keeps its address and lies at its place behind the destination, and every
-- address of another AG resolves as before. The AG's number and its length fit 32 bits.
pub resolve-move_entry :
    (g : Gofs) (ag local dest addr : ℕ) (e : AgEntry)
    → get_elem? g.map.entries ag ≡ some e
    → (bit_and e.flags agf_present == 0) ≡ false
    → ag < 2 ^ 32
    → e.length < 2 ^ 32
    → local < e.length
    → dest + e.length * g.sb.blocksize < 2 ^ 64
    → ag ≢ (blk_split addr).0
    → (resolve (move_entry ag e (one_segment e.length dest) g) (blk_addr ag local)
        ≡ ok (dest + local * g.sb.blocksize))
      × (resolve (move_entry ag e (one_segment e.length dest) g) addr ≡ resolve g addr)
unfolding resolve resolved AgMap.resolve resolve_entry resolve_in move_entry
resolve-move_entry g ag local dest addr e here present small len inside room other =
    let moved : AgEntry = record e { segs = one_segment e.length dest } in
    let split = (blk_split-blk_addr ag local 0 small (omega arith) (omega arith)).0 in
    let ag_part : blk_addr ag local / 2 ^ 32 % 2 ^ 32 ≡ ag =
      unfold blk_split in ap (λ r. r.0) split in
    let local_part : blk_addr ag local % 2 ^ 32 ≡ local = unfold blk_split in ap (λ r. r.1) split in
    let at_zero : (dest + (local - 0) * g.sb.blocksize) % 2 ^ 64 ≡ dest + local * g.sb.blocksize =
      ap (λ k. (dest + k * g.sb.blocksize) % 2 ^ 64) (let z : local - 0 ≡ local = omega arith in z)
      ∙ (let below : local ≤ e.length = omega arith in
          omega (arith, mul-le-mul_right g.sb.blocksize below)) in
    (
      rw
          (
            ag_part,
            local_part,
            get_elem?-set_self g.map.entries ag e moved here,
            present,
            lt→leb e.length local inside,
            lt→ltb local ((0 + e.length) % 2 ^ 32) (omega arith),
            le→leb 0 local (omega arith),
          )
          (ap ok at_zero),
      rw (get_elem?-set_other g.map.entries ag (blk_split addr).0 moved other) refl,
    )
