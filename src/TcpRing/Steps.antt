-- ===== src/TcpRing/Steps.antt =====
-- What the steps of the callback in src/rtl_tcp.c leave of the slots that hold published buffers.
use rtl_sdr.Prelude.{
  ℕ, zero, suc, ◌+◌, ◌*◌, ◌%◌, ◌^◌, ◌≤◌, ◌<◌, ◌≡◌, ◌≢◌, ◌∙◌, ap, arith, List, [], ◌∷◌, length,
  get_or, bit_and, bit_and_mask, Buffer, store,
}
use Prim.Native.Nat.{max}
use rtl_sdr.TcpRing.{
  RingBuffer, CallbackStep, copied, sized, moved, callback_step, World, run_callback, slot_mask,
  slot_size,
}

pub slot_index : (n : ℕ) → bit_and (n % 2 ^ 32) slot_mask ≡ n % 512
slot_index n = bit_and_mask 9 (n % 2 ^ 32) ∙ omega arith

-- The slots hold the buffers from the `q`-th to before the `n`-th, the `k`-th of which is `h k`.
pub record Kept (h : ℕ → List ℕ) (q n : ℕ) (r : RingBuffer) : Type 0 where
  pub fits : (k : ℕ) → q ≤ k → k < n → length (h k) ≤ slot_size
  pub len_of : (k : ℕ) → q ≤ k → k < n → r.lens (k % 512) ≡ length (h k)
  pub byte_of :
      (k i : ℕ)
      → q ≤ k
      → k < n
      → i < length (h k)
      → r.contents (k % 512 * slot_size + i) ≡ get_or (h k) i 0

pub Kept-later : (h : ℕ → List ℕ) (p q n : ℕ) (r : RingBuffer) → p ≤ q → Kept h p n r → Kept h q n r
Kept-later h p q n r le k = record {
  fits = λ j low high. k.fits j (omega arith) high;
  len_of = λ j low high. k.len_of j (omega arith) high;
  byte_of = λ j i low high inside. k.byte_of j i (omega arith) high inside;
}

-- A copy stays inside its slot.
abbrev pub InSlot : CallbackStep → Type 0
InSlot (copied i byte) = i < slot_size
InSlot (sized len) = 0 ≤ len
InSlot moved = 0 ≤ 0

abbrev pub AllInSlot : List CallbackStep → Type 0
AllInSlot [] = 0 ≤ 0
AllInSlot (s ∷ todo) = InSlot s × AllInSlot todo

-- The number of buffers that the callback works on in these steps.
abbrev pub begun : List CallbackStep → ℕ
begun [] = 0
begun (copied i byte ∷ todo) = max 1 (begun todo)
begun (sized len ∷ todo) = max 1 (begun todo)
begun (moved ∷ todo) = 1 + begun todo

pub store_other : (buf : Buffer) (i v j : ℕ) → j ≢ i → store buf i v j ≡ buf j
store_other buf i v j h = ground arith

pub other_slot : (q k m : ℕ) → q ≤ k → k < m → m < q + 512 → k % 512 ≢ m % 512
other_slot q k m low high room e = absurd (omega arith)

other_byte :
    (a b i j : ℕ) → a ≢ b → i < slot_size → j < slot_size → a * slot_size + i ≢ b * slot_size + j
other_byte a b i j h hi hj e = h (omega arith)

-- A step on the `m`-th buffer keeps the buffers of less than 512 before.
pub callback_step-Kept :
    (h : ℕ → List ℕ) (q n m : ℕ) (r : RingBuffer) (s : CallbackStep)
    → r.write_pos ≡ m % 2 ^ 32
    → n ≤ m
    → m < q + 512
    → InSlot s
    → Kept h q n r
    → Kept h q n (callback_step r s)
unfolding callback_step
callback_step-Kept h q n m r (copied i byte) at_m reached room in_slot k = record {
  fits = k.fits;
  len_of = k.len_of;
  byte_of = λ j b low high small.
      let index = ap (λ w. bit_and w slot_mask) at_m ∙ slot_index m in
      let other = other_slot q j m low (omega arith) room in
      store_other r.contents _ byte (j % 512 * slot_size + b) (λ e.
        other_byte (j % 512) (m % 512) b i other (omega (arith, k.fits j low high)) in_slot
          (e ∙ ap (λ t. t * slot_size + i) index))
      ∙ k.byte_of j b low high small;
}
callback_step-Kept h q n m r (sized len) at_m reached room in_slot k = record {
  fits = k.fits;
  len_of = λ j low high.
      let index = ap (λ w. bit_and w slot_mask) at_m ∙ slot_index m in
      store_other r.lens _ len (j % 512) (λ e. other_slot q j m low (omega arith) room (e ∙ index))
      ∙ k.len_of j low high;
  byte_of = k.byte_of;
}
callback_step-Kept h q n m r moved at_m reached room in_slot k = record {
  fits = k.fits;
  len_of = k.len_of;
  byte_of = k.byte_of;
}

-- The slots hold these buffers, the callback is at a later one, and the buffers that it still works on
-- come before the one that lies in the slot of the `q`-th.
pub record Holds (h : ℕ → List ℕ) (q n : ℕ) (w : World) : Type 0 where
  pub at : ℕ
  pub position : w.ring.write_pos ≡ at % 2 ^ 32
  pub reached : n ≤ at
  pub room : at + begun w.ahead ≤ q + 512
  pub in_slots : AllInSlot w.ahead
  pub kept : Kept h q n w.ring

callback_step-Holds :
    (h : ℕ → List ℕ) (q n : ℕ) (r : RingBuffer) (s : CallbackStep) (todo : List CallbackStep)
    → Holds h q n (record { ring = r; ahead = s ∷ todo })
    → Holds h q n (record { ring = callback_step r s; ahead = todo })
unfolding callback_step
callback_step-Holds h q n r (copied i byte) todo w = record {
  at = w.at;
  position = w.position;
  reached = w.reached;
  room = omega (arith, w.room);
  in_slots = w.in_slots.1;
  kept =
      callback_step-Kept h q n w.at r (copied i byte) w.position w.reached (omega (arith, w.room))
        w.in_slots.0 w.kept;
}
callback_step-Holds h q n r (sized len) todo w = record {
  at = w.at;
  position = w.position;
  reached = w.reached;
  room = omega (arith, w.room);
  in_slots = w.in_slots.1;
  kept =
      callback_step-Kept h q n w.at r (sized len) w.position w.reached (omega (arith, w.room))
        w.in_slots.0 w.kept;
}
callback_step-Holds h q n r moved todo w = record {
  at = w.at + 1;
  position = omega (arith, w.position);
  reached = omega (arith, w.reached);
  room = omega (arith, w.room);
  in_slots = w.in_slots.1;
  kept =
      callback_step-Kept h q n w.at r moved w.position w.reached (omega (arith, w.room))
        w.in_slots.0 w.kept;
}

pub run_callback-Holds :
    (h : ℕ → List ℕ) (q n k : ℕ) (r : RingBuffer) (todo : List CallbackStep)
    → Holds h q n (record { ring = r; ahead = todo })
    → Holds h q n (run_callback k r todo)
unfolding run_callback
run_callback-Holds h q n zero r todo w = w
run_callback-Holds h q n (suc k) r [] w = w
run_callback-Holds h q n (suc k) r (s ∷ todo) w =
    run_callback-Holds h q n k (callback_step r s) todo (callback_step-Holds h q n r s todo w)
