-- ===== src/Ring/Inv.antt =====
-- The representation invariant of `struct rtlsdr_ring`.
use native.Mathlib.Nat.{mod-lt, le-div_iff_mul-le}
use rtl_sdr.Prelude.{ℕ, zero, suc, ◌+◌, ◌*◌, ◌/◌, ◌%◌, ◌≤◌, ◌<◌, ◌≡◌, refl, ◌∙◌, inl, inr}
use rtl_sdr.Prelude.{Option, none, some, List, [], ◌∷◌, arith, Bool-cases, Option-cases, ltb, ◌==◌}
use rtl_sdr.Prelude.{u64, u64_max, length, get_or, set, take, replicate}
use rtl_sdr.Prelude.{length-blit, length-set, length-replicate}
use rtl_sdr.Ring.{Ring, Platform, create, restart, put_slot, locked_write, write_ring, mark_gap}

pub record IsValid (r : Ring) : Type 0 where
  pub storage : length r.bytes ≡ r.slot_count * r.slot_size
  pub lengths : length r.slot_lens ≡ r.slot_count
  pub has_slots : 0 < r.slot_count
  pub has_room : 0 < r.slot_size
  pub addressable : r.slot_count * r.slot_size ≤ u64_max
  pub seq_fits : r.next_seq ≤ u64_max
  pub generation_fits : r.generation ≤ u64_max
  pub retained_slots : r.retained ≤ r.slot_count
  pub retained_written : r.retained ≤ r.next_seq
  pub lens_fit : (i : ℕ) → get_or r.slot_lens i 0 ≤ r.slot_size

pub slot_end : (s n z : ℕ) → s < n → s * z + z ≤ n * z
slot_end s n z h = grind arith

-- In a valid ring, the address of the slot of any sequence number does not wrap, and the slot
-- ends inside the allocation.
pub slot_in_bounds :
    (r : Ring) (q : ℕ)
    → IsValid r
    → (u64 (q % r.slot_count * r.slot_size) ≡ q % r.slot_count * r.slot_size)
      × (q % r.slot_count * r.slot_size + r.slot_size ≤ length r.bytes)
slot_in_bounds r q v =
    omega (arith, slot_end (q % r.slot_count) r.slot_count r.slot_size (mod-lt q v.has_slots))

lens-set :
    (lens : List ℕ) (i n z : ℕ)
    → ((j : ℕ) → get_or lens j 0 ≤ z)
    → n ≤ z
    → (j : ℕ) → get_or (set lens i n) j 0 ≤ z
lens-set [] i n z h b j = omega arith
lens-set (x ∷ lens) zero n z h b zero = b
lens-set (x ∷ lens) zero n z h b (suc j) = h (suc j)
lens-set (x ∷ lens) (suc i) n z h b zero = h 0
lens-set (x ∷ lens) (suc i) n z h b (suc j) = lens-set lens i n z (λ k. h (suc k)) b j

pub lens-replicate : (n z : ℕ) (j : ℕ) → get_or (replicate n 0) j 0 ≤ z
lens-replicate zero z j = omega arith
lens-replicate (suc n) z zero = omega arith
lens-replicate (suc n) z (suc j) = lens-replicate n z j

pub restart-IsValid : {r : Ring} → IsValid r → IsValid (restart r)
unfolding restart
restart-IsValid v = record {
  storage = v.storage;
  lengths = v.lengths;
  has_slots = v.has_slots;
  has_room = v.has_room;
  addressable = v.addressable;
  seq_fits = omega arith;
  generation_fits = omega arith;
  retained_slots = omega arith;
  retained_written = omega arith;
  lens_fit = v.lens_fit;
}

pub put_slot-IsValid :
    {r : Ring} (src : List ℕ) (len : ℕ)
    → IsValid r
    → r.next_seq < u64_max
    → len ≤ r.slot_size
    → IsValid (put_slot r src len)
unfolding put_slot
put_slot-IsValid {r} src len v room fits = record {
  storage =
      length-blit r.bytes (u64 (r.next_seq % r.slot_count * r.slot_size)) (take len src)
      ∙ v.storage;
  lengths = length-set r.slot_lens (r.next_seq % r.slot_count) len ∙ v.lengths;
  has_slots = v.has_slots;
  has_room = v.has_room;
  addressable = v.addressable;
  seq_fits = omega arith;
  generation_fits = v.generation_fits;
  retained_slots = ground arith;
  retained_written = ground arith;
  lens_fit = lens-set r.slot_lens (r.next_seq % r.slot_count) len r.slot_size v.lens_fit fits;
}

pub locked_write-IsValid :
    {r : Ring} (src : List ℕ) (len : ℕ)
    → IsValid r
    → len ≤ r.slot_size
    → IsValid (locked_write r src len)
unfolding locked_write restart
locked_write-IsValid {r} src len v fits = elim (Bool-cases (r.next_seq == u64_max)) [
  | inl full ↦
      rw full (put_slot-IsValid src len (unfold restart in restart-IsValid v) (omega arith) fits)
  | inr more ↦ rw more (put_slot-IsValid src len v (ground arith) fits)
]

-- `rtlsdr_ring_write_copy` keeps a ring valid, whatever source and length it is given.
pub write_ring-IsValid :
    {r : Ring} (src : Option (List ℕ)) (len : ℕ) → IsValid r → IsValid (write_ring r src len).1
unfolding write_ring
write_ring-IsValid {r} none len v = ground arith
write_ring-IsValid {r} (some src) len v = elim (Bool-cases (ltb r.slot_size len)) [
  | inl long ↦ rw long v
  | inr fits ↦ rw fits (elim (Bool-cases (len == 0)) [
    | inl e ↦ rw e v
    | inr ne ↦ rw ne (locked_write-IsValid src len v (ground arith))
  ])
]

-- `rtlsdr_ring_mark_gap` keeps the invariant.
pub mark_gap-IsValid : {r : Ring} → IsValid r → IsValid (mark_gap r)
unfolding mark_gap
mark_gap-IsValid v = record {
  storage = v.storage;
  lengths = v.lengths;
  has_slots = v.has_slots;
  has_room = v.has_room;
  addressable = v.addressable;
  seq_fits = v.seq_fits;
  generation_fits = omega arith;
  retained_slots = omega arith;
  retained_written = omega arith;
  lens_fit = v.lens_fit;
}

mul-le_of_le-div : (a b n : ℕ) → 0 < b → a ≤ n / b → a * b ≤ n
mul-le_of_le-div a b n h le = (le-div_iff_mul-le h).0 le

abbrev fresh : List ℕ → ℕ → ℕ → Ring
fresh block slot_count slot_size = record {
  bytes = block;
  slot_lens = replicate slot_count 0;
  slot_count = slot_count;
  slot_size = slot_size;
  next_seq = 0;
  generation = 1;
  retained = 0;
}

create-eq-some :
    (p : Platform) (slot_count slot_size : ℕ) {r : Ring}
    → create p slot_count slot_size ≡ some r
    → (block : List ℕ) × (p.malloc (u64 (slot_count * slot_size)) ≡ some block)
      × (r ≡ fresh block slot_count slot_size)
      × (0 < slot_count)
      × (0 < slot_size)
      × (slot_count ≤ u64_max / slot_size)
unfolding create
create-eq-some p slot_count slot_size e =
    elim (Option-cases (p.malloc (u64 (slot_count * slot_size)))) [
      | inl none_left ↦ ground arith
      | inr (block, given) ↦ (block, given, ground arith, ground arith, ground arith, ground arith)
    ]

-- Where `malloc` gives a block of the size that it is asked for, `rtlsdr_ring_create` gives a valid
-- ring of the sizes that it is asked for, with nothing in it.
pub create-IsValid :
    (p : Platform) (slot_count slot_size : ℕ) {r : Ring}
    → ((n : ℕ) (block : List ℕ) → p.malloc n ≡ some block → length block ≡ n)
    → create p slot_count slot_size ≡ some r
    → IsValid r × (r.slot_count ≡ slot_count) × (r.slot_size ≡ slot_size) × (r.retained ≡ 0)
unfolding create
create-IsValid p slot_count slot_size {r} sized e =
    let (block, given, is_fresh, some_slots, some_room, guarded) =
      create-eq-some p slot_count slot_size e in
    let product : slot_count * slot_size ≤ u64_max = mul-le_of_le-div _ _ _ some_room guarded in
    rw is_fresh (
      record {
        storage = sized _ block given ∙ omega arith;
        lengths = length-replicate slot_count 0;
        has_slots = some_slots;
        has_room = some_room;
        addressable = product;
        seq_fits = omega arith;
        generation_fits = omega arith;
        retained_slots = omega arith;
        retained_written = omega arith;
        lens_fit = lens-replicate slot_count slot_size;
      },
      refl,
      refl,
      refl,
    )
