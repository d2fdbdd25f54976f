-- ===== src/Ring/Delivery.antt =====
-- What a reader gets of the messages that are written after it took its cursor.
use rtl_sdr.Prelude.{ℕ, zero, suc, ◌+◌, ◌-◌, ◌≤◌, ◌<◌, ◌≡◌, refl, ◌∙◌, ap, sym, arith}
use rtl_sdr.Prelude.{List, [], ◌∷◌, ◌++◌, some, append_assoc, append-nil}
use rtl_sdr.Prelude.{ok, take, take-take, length, length-append, u64_max}
use rtl_sdr.Ring.{
  Ring, Cursor, mark_gap, now_cursor, write_ring, locked_write, put_slot, read_ring, found, gap,
  empty,
}
use rtl_sdr.Ring.Inv.{IsValid, write_ring-IsValid}
use rtl_sdr.Ring.Log.{append}
use rtl_sdr.Ring.Slots.{length-messages}
use rtl_sdr.Ring.History.{Ends, append-Ends, ask-Ends, Ends-tail, ask-Ends_nil}
use rtl_sdr.Ring.Refine.{view}
use rtl_sdr.Ring.Reader.{answer, read_ring_refines}
use rtl_sdr.Ring.Run.{submit, write_ring_refines, sizes-write_ring}

-- Every message can be written: it is not empty and fits a slot.
abbrev pub AllFit : ℕ → List (List ℕ) → Type 0
AllFit z [] = Unit {0}
AllFit z (m ∷ ms) = (0 < length m) × (length m ≤ z) × AllFit z ms

-- A write reads no more of its source than it is told to, and succeeds if the slot holds that.
pub write_ring_source :
    (r : Ring) (src : List ℕ) (n : ℕ)
    → n ≤ r.slot_size
    → write_ring r (some src) n ≡ (ok, (write_ring r (some (take n src)) n).1)
unfolding write_ring locked_write put_slot
write_ring_source r src n fits = ground (arith, take-take n src)

unfoldable pub write_all : Ring → List (List ℕ) → Ring
write_all r [] = r
write_all r (m ∷ ms) = write_all (write_ring r (some m) (length m)).1 ms

pub write_all-IsValid : (ms : List (List ℕ)) {r : Ring} → IsValid r → IsValid (write_all r ms)
unfolding write_all
write_all-IsValid [] v = v
write_all-IsValid (m ∷ ms) v = write_all-IsValid ms (write_ring-IsValid (some m) (length m) v)

-- Messages that can be written are appended to the log.
write_all_step :
    {r : Ring} (m : List ℕ)
    → IsValid r
    → 0 < length m
    → length m ≤ r.slot_size
    → view (write_ring r (some m) (length m)).1 ≡ append r.slot_count m (view r)
unfolding submit
write_all_step m v some_bytes fits = ground (arith, write_ring_refines m v)

write_all_seq :
    {r : Ring} (m : List ℕ)
    → IsValid r
    → 0 < length m
    → length m ≤ r.slot_size
    → r.next_seq < u64_max
    → ((write_ring r (some m) (length m)).1.next_seq ≡ r.next_seq + 1)
      × ((write_ring r (some m) (length m)).1.generation ≡ r.generation)
unfolding append
write_all_seq m v some_bytes fits more = ground (arith, write_all_step m v some_bytes fits)

write_all-Ends :
    (ms : List (List ℕ)) {r : Ring} (q g : ℕ) (done : List (List ℕ))
    → IsValid r
    → AllFit r.slot_size ms
    → r.next_seq + length ms ≤ u64_max
    → length done + length ms ≤ r.slot_count
    → Ends (view r) q g done
    → Ends (view (write_all r ms)) q g (done ++ ms)
unfolding write_all
write_all-Ends [] q g done v fit more room e = rw append-nil e
write_all-Ends (m ∷ ms) {r} q g done v fit more room e = rw (← append_assoc done (m ∷ []) ms) (
    write_all-Ends ms q g (done ++ (m ∷ [])) (write_ring-IsValid (some m) (length m) v)
      (rw ((sizes-write_ring r m).1) fit.2) (omega (arith, write_all_seq m v fit.0 fit.1))
      (omega (arith, length-append done (m ∷ []), sizes-write_ring r m))
      (rw (write_all_step m v fit.0 fit.1)
        (append-Ends r.slot_count (view r) q g done m e (omega arith) (omega arith))))

write_all_totals :
    (ms : List (List ℕ)) {r : Ring}
    → IsValid r
    → AllFit r.slot_size ms
    → r.next_seq + length ms ≤ u64_max
    → ((write_all r ms).next_seq ≡ r.next_seq + length ms)
      × ((write_all r ms).generation ≡ r.generation)
      × ((write_all r ms).slot_count ≡ r.slot_count)
      × ((write_all r ms).slot_size ≡ r.slot_size)
unfolding write_all
write_all_totals [] v fit more = omega arith
write_all_totals (m ∷ ms) {r} v fit more = ground (
  arith,
  write_all_seq m v fit.0 fit.1,
  sizes-write_ring r m,
  write_all_totals ms (write_ring-IsValid (some m) (length m) v)
      (rw ((sizes-write_ring r m).1) fit.2),
)

-- Reads until one does not find a message, at most `k` times.
unfoldable pub read_all : ℕ → Ring → Cursor → List ℕ → List (List ℕ)
read_all zero r c dst = []
read_all (suc k) r c dst =
    let a = answer (read_ring r c dst (length dst)) in
    let rest = read_all k r a.cursor dst in elim a.result [ found ↦ a.message ∷ rest | _ ↦ [] ]

window-le_seq : {r : Ring} → IsValid r → length (view r).window ≤ r.next_seq
window-le_seq {r} v =
    omega (arith, length-messages r (r.next_seq - r.retained) r.retained, v.retained_written)

read_all_stop :
    (k : ℕ) (r : Ring) (c : Cursor) (dst : List ℕ)
    → (answer (read_ring r c dst (length dst))).result ≡ empty
    → read_all (suc k) r c dst ≡ []
unfolding read_all
read_all_stop k r c dst e = ground arith

read_all_next :
    (k : ℕ) (r : Ring) (c c' : Cursor) (dst m : List ℕ)
    → answer (read_ring r c dst (length dst)) ≡ record { result = found; cursor = c'; message = m }
    → read_all (suc k) r c dst ≡ m ∷ read_all k r c' dst
unfolding read_all
read_all_next k r c c' dst m e = ground arith

read_all-Ends :
    (k : ℕ) (r : Ring) (q g : ℕ) (ms : List (List ℕ)) (dst : List ℕ)
    → IsValid r
    → AllFit r.slot_size ms
    → r.slot_size ≤ length dst
    → length ms ≤ k
    → Ends (view r) q g ms
    → read_all k r (record { next_seq = q; generation = g }) dst ≡ ms
read_all-Ends zero r q g [] dst v fit wide enough e = unfold read_all in refl
read_all-Ends zero r q g (m ∷ ms) dst v fit wide enough e = absurd (omega arith)
read_all-Ends (suc k) r q g [] dst v fit wide enough e =
    let c : Cursor = record { next_seq = q; generation = g } in
    read_all_stop k r c dst (
      ap (λ a. a.result)
        (read_ring_refines r c dst v ∙ ask-Ends_nil (view r) q g (length dst) e (window-le_seq v)))
read_all-Ends (suc k) r q g (m ∷ ms) dst v fit wide enough e =
    let c : Cursor = record { next_seq = q; generation = g } in
    let c' : Cursor = record { next_seq = q + 1; generation = g } in
    read_all_next k r c c' dst m (
      read_ring_refines r c dst v
      ∙ ask-Ends (view r) q g (length dst) m ms e (window-le_seq v) (omega arith))
    ∙ ap (λ t. m ∷ t)
        (read_all-Ends k r (q + 1) g ms dst v fit.2 wide (omega arith)
          (Ends-tail (view r) q g m ms e))

-- In a valid ring, a reader that takes its cursor now gets exactly the messages that are written
-- next, in order and each once, if they are no more than the slots, none is empty or longer than
-- a slot, the sequence numbers do not run out, the destination holds a slot, and it reads at
-- least as often as there are messages; further reads find nothing.
pub read_all-write_all :
    (k : ℕ) (r : Ring) (ms : List (List ℕ)) (dst : List ℕ)
    → IsValid r
    → AllFit r.slot_size ms
    → r.next_seq + length ms ≤ u64_max
    → length ms ≤ r.slot_count
    → r.slot_size ≤ length dst
    → length ms ≤ k
    → read_all k (write_all r ms) (now_cursor r) dst ≡ ms
read_all-write_all k r ms dst v fit more room wide enough =
    read_all-Ends k (write_all r ms) r.next_seq r.generation ms dst (write_all-IsValid ms v)
      (rw totals.3 fit) (omega (arith, totals)) enough
      (write_all-Ends ms r.next_seq r.generation [] v fit more (omega arith) (record {
        older = (view r).window;
        shown = sym (append-nil (view r).window);
        reached = omega arith;
        current = refl;
      }))
  where
    totals :
        ((write_all r ms).next_seq ≡ r.next_seq + length ms)
        × ((write_all r ms).generation ≡ r.generation)
        × ((write_all r ms).slot_count ≡ r.slot_count)
        × ((write_all r ms).slot_size ≡ r.slot_size)
    totals = write_all_totals ms v fit more

-- In a valid ring, a reader that more messages than slots have passed since its cursor was taken
-- is told of the gap at its first read, which leaves its cursor and its destination alone; no
-- message is empty or longer than a slot, and the sequence numbers do not run out.
pub overrun_gap :
    (r : Ring) (ms : List (List ℕ)) (dst : List ℕ) (capacity : ℕ)
    → IsValid r
    → AllFit r.slot_size ms
    → r.next_seq + length ms ≤ u64_max
    → r.slot_count < length ms
    → read_ring (write_all r ms) (now_cursor r) dst capacity
      ≡ record { result = gap; cursor = now_cursor r; dst = dst; len = 0 }
unfolding read_ring
overrun_gap r ms dst capacity v fit more over = ground (
  arith,
  write_all_totals ms v fit more,
  (write_all-IsValid ms v).retained_slots,
  (write_all-IsValid ms v).retained_written,
  (write_all-IsValid ms v).seq_fits,
)

-- After a gap mark, a cursor from before is told of the gap.
pub mark_gap_gap :
    (r : Ring) (dst : List ℕ) (capacity : ℕ)
    → IsValid r
    → read_ring (mark_gap r) (now_cursor r) dst capacity
      ≡ record { result = gap; cursor = now_cursor r; dst = dst; len = 0 }
unfolding read_ring mark_gap
mark_gap_gap r dst capacity v = ground (arith, v.generation_fits)
