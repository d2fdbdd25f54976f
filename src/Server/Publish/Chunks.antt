-- ===== src/Server/Publish/Chunks.antt =====
-- What is published is what is read: the chunks of a buffer, and their way through the ring.
use rtl_sdr.Prelude.{ℕ, zero, suc, ◌+◌, ◌*◌, ◌%◌, ◌≤◌, ◌<◌, ◌≡◌, refl, ◌∙◌, ap, sym, arith, subst⁻¹}
use rtl_sdr.Prelude.{
  false, List, [], ◌∷◌, ◌++◌, some, length, length-drop, length-take, take, drop, take-append-drop,
  take_all, take_over, drop_over,
}
use rtl_sdr.Prelude.{ltb, ◌==◌, if◌then◌else◌, if_false, flatten, u64_max, ok, failed, Status}
use native.Mathlib.Decide.{dec_lt}
use rtl_sdr.Ring.{Ring, gap, read_ring, write_ring, mark_gap, now_cursor}
use rtl_sdr.Ring.Inv.{IsValid, write_ring-IsValid}
use rtl_sdr.Ring.Run.{sizes-write_ring}
use rtl_sdr.Ring.Delivery.{
  AllFit, write_all, write_ring_source, read_all, read_all-write_all, mark_gap_gap,
}
use rtl_sdr.Server.Publish.{publish_loop, publish}

-- The pieces of at most `z` bytes, with fuel.
unfoldable pub chunks : ℕ → ℕ → List ℕ → List (List ℕ)
chunks zero z bytes = []
chunks (suc fuel) z [] = []
chunks (suc fuel) z (b ∷ bytes) = take z (b ∷ bytes) ∷ chunks fuel z (drop z (b ∷ bytes))

flatten-chunks :
    (fuel z : ℕ) (bytes : List ℕ)
    → 0 < z
    → length bytes ≤ fuel
    → flatten (chunks fuel z bytes) ≡ bytes
unfolding chunks
flatten-chunks zero z [] h k = refl
flatten-chunks zero z (b ∷ bytes) h k = absurd (omega arith)
flatten-chunks (suc fuel) z [] h k = refl
flatten-chunks (suc fuel) z (b ∷ bytes) h k =
    ap (λ t. take z (b ∷ bytes) ++ t)
      (flatten-chunks fuel z (drop z (b ∷ bytes)) h (omega (arith, length-drop z (b ∷ bytes))))
    ∙ take-append-drop z (b ∷ bytes)

chunks-AllFit : (fuel z : ℕ) (bytes : List ℕ) → 0 < z → AllFit z (chunks fuel z bytes)
unfolding chunks
chunks-AllFit zero z bytes h = tt
chunks-AllFit (suc fuel) z [] h = tt
chunks-AllFit (suc fuel) z (b ∷ bytes) h =
    let size = length-take z (b ∷ bytes) in
    (omega (arith, size), omega (arith, size), chunks-AllFit fuel z (drop z (b ∷ bytes)) h)

length-chunks :
    (fuel n z : ℕ) (bytes : List ℕ) → length bytes ≤ n * z → length (chunks fuel z bytes) ≤ n
unfolding chunks
length-chunks zero n z bytes h = omega arith
length-chunks (suc fuel) n z [] h = omega arith
length-chunks (suc fuel) zero z (b ∷ bytes) h = absurd (omega arith)
length-chunks (suc fuel) (suc n) z (b ∷ bytes) h = omega (
  arith,
  length-chunks fuel n z (drop z (b ∷ bytes)) (omega (arith, length-drop z (b ∷ bytes), h)),
)

abbrev count_of : Ring → List ℕ → ℕ
count_of r bytes = if ltb (length bytes) r.slot_size then length bytes else r.slot_size

-- The count of a round takes and leaves what the slot size does.
count_of_parts :
    (r : Ring) (bytes : List ℕ)
    → (count_of r bytes ≡ length (take r.slot_size bytes))
      × (take (count_of r bytes) bytes ≡ take r.slot_size bytes)
      × (drop (count_of r bytes) bytes ≡ drop r.slot_size bytes)
count_of_parts r bytes = elim (dec_lt (length bytes) r.slot_size) [
  | yes h ↦
      (let e : count_of r bytes ≡ length bytes = ground arith in
        (
          omega (arith, e, length-take r.slot_size bytes),
          ap (λ n. take n bytes) e
              ∙ take_all bytes
              ∙ sym (take_over r.slot_size bytes (omega arith)),
          ap (λ n. drop n bytes) e
              ∙ drop_over (length bytes) bytes (omega arith)
              ∙ sym (drop_over r.slot_size bytes (omega arith)),
        ))
  | no h ↦
      (let e : count_of r bytes ≡ r.slot_size = ground arith in
        (
          omega (arith, e, length-take r.slot_size bytes),
          ap (λ n. take n bytes) e,
          ap (λ n. drop n bytes) e,
        ))
]

-- A round writes the first piece and goes on with the rest.
publish_loop-eq_step :
    (fuel b : ℕ) (bytes : List ℕ) (r : Ring)
    → let m = take r.slot_size (b ∷ bytes) in
      publish_loop (suc fuel) r (b ∷ bytes)
      ≡ publish_loop fuel (write_ring r (some m) (length m)).1 (drop r.slot_size (b ∷ bytes))
unfolding publish_loop
publish_loop-eq_step fuel b bytes r =
    let input = b ∷ bytes in
    let n = count_of r input in
    let m = take r.slot_size input in
    let parts = count_of_parts r input in
    let written =
      write_ring_source r input n (ground arith)
      ∙ ap (λ t. (ok, (write_ring r (some t) n).1)) parts.1
      ∙ ap (λ k. (ok, (write_ring r (some m) k).1)) parts.0 in
    if_false (length input == 0) (ok, r)
      (round (write_ring r (some input) n).0 (write_ring r (some input) n).1 n) (ground arith)
    ∙ ap (λ t. round t.0 t.1 n) written
    ∙ ap (λ t. publish_loop fuel (write_ring r (some m) (length m)).1 t) parts.2
  where
    round : Status → Ring → ℕ → Status × Ring
    round status r' n = elim status [
      | failed ↦ (failed, mark_gap r')
      | ok ↦ publish_loop fuel r' (drop n (b ∷ bytes))
    ]

publish_loop-chunks :
    (fuel : ℕ) (bytes : List ℕ) {r : Ring}
    → IsValid r
    → length bytes ≤ fuel
    → publish_loop fuel r bytes ≡ (ok, write_all r (chunks fuel r.slot_size bytes))
unfolding chunks write_all
publish_loop-chunks zero [] v h = unfold publish_loop in refl
publish_loop-chunks zero (b ∷ bytes) v h = absurd (omega arith)
publish_loop-chunks (suc fuel) [] v h = unfold publish_loop in refl
publish_loop-chunks (suc fuel) (b ∷ bytes) {r} v h =
    let m = take r.slot_size (b ∷ bytes) in
    let r' = (write_ring r (some m) (length m)).1 in
    publish_loop-eq_step fuel b bytes r
    ∙ publish_loop-chunks fuel (drop r.slot_size (b ∷ bytes))
        (write_ring-IsValid (some m) (length m) v)
        (omega (arith, length-drop r.slot_size (b ∷ bytes), v.has_room))
    ∙ ap (λ z. (ok, write_all r' (chunks fuel z (drop r.slot_size (b ∷ bytes)))))
        (sizes-write_ring r m).1

publish-eq_loop :
    (r : Ring) (bytes : List ℕ)
    → length bytes % 2 ≡ 0
    → publish r false (some bytes) (length bytes) ≡ publish_loop (length bytes) r bytes
unfolding publish
publish-eq_loop r [] even = unfold publish_loop in refl
publish-eq_loop r (b ∷ bytes) even = ground (arith, take_all (b ∷ bytes))

-- A buffer of even length that is published while the server runs and fits into the ring, into any
-- valid ring whose sequence numbers do not run out, succeeds, and a reader whose cursor is from
-- before gets exactly the bytes of the buffer, in order, from its next reads, if its destination
-- holds a slot and it reads at least as often as there are slots.
pub publish-read_all :
    (r : Ring) (bytes dst : List ℕ) (reads : ℕ)
    → IsValid r
    → length bytes % 2 ≡ 0
    → length bytes ≤ r.slot_count * r.slot_size
    → r.next_seq + r.slot_count ≤ u64_max
    → r.slot_size ≤ length dst
    → r.slot_count ≤ reads
    → let (status, r') = publish r false (some bytes) (length bytes) in
      (status ≡ ok) × (flatten (read_all reads r' (now_cursor r) dst) ≡ bytes)
publish-read_all r bytes dst reads v even room more wide often =
    let z = r.slot_size in
    let ms = chunks (length bytes) z bytes in
    let done =
      publish-eq_loop r bytes even ∙ publish_loop-chunks (length bytes) bytes v (omega arith) in
    let few = length-chunks (length bytes) r.slot_count z bytes room in
    subst⁻¹ (λ t. (t.0 ≡ ok) × (flatten (read_all reads t.1 (now_cursor r) dst) ≡ bytes)) done
      (
        refl,
        ap flatten (
              read_all-write_all reads r ms dst v (chunks-AllFit (length bytes) z bytes v.has_room)
                (omega (arith, few)) few wide (omega (arith, few)))
            ∙ flatten-chunks (length bytes) z bytes v.has_room (omega arith),
      )

-- A buffer of odd length, published while the server runs with a valid ring, is refused, and the
-- next read through a cursor from before reports the gap and delivers nothing.
pub publish_odd_gap :
    (r : Ring) (bytes dst : List ℕ) (len capacity : ℕ)
    → IsValid r
    → len % 2 ≡ 1
    → let (status, r') = publish r false (some bytes) len in
      (status ≡ failed)
      × (read_ring r' (now_cursor r) dst capacity
          ≡ record { result = gap; cursor = now_cursor r; dst = dst; len = 0 })
unfolding publish
publish_odd_gap r bytes dst len capacity v odd =
    subst⁻¹
      (λ t.
        (t.0 ≡ failed)
        × (read_ring t.1 (now_cursor r) dst capacity
            ≡ record { result = gap; cursor = now_cursor r; dst = dst; len = 0 }))
      (publish_odd r bytes len odd) (refl, mark_gap_gap r dst capacity v)
  where
    publish_odd :
        (r : Ring) (bytes : List ℕ) (len : ℕ)
        → len % 2 ≡ 1
        → publish r false (some bytes) len ≡ (failed, mark_gap r)
    publish_odd r bytes len odd = ground arith
