-- ===== src/Ring/Refine.antt =====
-- A valid ring is the log of the messages in its slots.
use rtl_sdr.Prelude.{ℕ, suc, ◌+◌, ◌-◌, ◌%◌, ◌*◌, ◌≤◌, ◌<◌, ◌≡◌, ◌∙◌, ap, ap₂, sym, inl, inr}
use rtl_sdr.Prelude.{List, [], ◌∷◌, ◌++◌, arith, Bool-cases, ltb, ◌==◌}
use rtl_sdr.Prelude.{u64, u64_max, length, get_or, take}
use rtl_sdr.Prelude.{length-take, length-drop}
use rtl_sdr.Ring.{Ring, restart, put_slot, locked_write}
use rtl_sdr.Ring.Inv.{IsValid, slot_in_bounds, restart-IsValid}
use rtl_sdr.Ring.Log.{Log, keep_last, append}
use rtl_sdr.Ring.Slots.{message, messages, message-put_slot_self, message-put_slot_other}
use rtl_sdr.Ring.Slots.{messages-snoc, length-messages, messages_ext}

abbrev pub view : Ring → Log
view r = record {
  next_seq = r.next_seq;
  generation = r.generation;
  window = messages r (r.next_seq - r.retained) r.retained;
}

messages_at : (r : Ring) (q q' k k' : ℕ) → q ≡ q' → k ≡ k' → messages r q k ≡ messages r q' k'
messages_at r q q' k k' e f = ap₂ (messages r) e f

keep_last-room :
    (n : ℕ) (window : List (List ℕ)) (m : List ℕ)
    → length window < n
    → keep_last n window m ≡ window ++ (m ∷ [])
unfolding keep_last
keep_last-room n window m h = ground arith

keep_last-full :
    (n : ℕ) (w : List ℕ) (window : List (List ℕ)) (m : List ℕ)
    → n ≡ length (w ∷ window)
    → keep_last n (w ∷ window) m ≡ window ++ (m ∷ [])
unfolding keep_last
keep_last-full n w window m h = ground arith

module _ {r : Ring} (src : List ℕ) (len : ℕ) (v : IsValid r) (fits : len ≤ r.slot_size)
    (given : len ≤ length src) where
  -- What stands before the new message is as it was.
  messages-put_slot :
      (q k : ℕ)
      → q + k ≡ r.next_seq
      → k < r.slot_count
      → messages (put_slot r src len) q (suc k) ≡ messages r q k ++ (take len src ∷ [])
  messages-put_slot q k e h =
      messages-snoc (put_slot r src len) q k
      ∙ ap₂ (λ ms m. ms ++ (m ∷ [])) (messages_ext (put_slot r src len) r q k older)
          (ap (message (put_slot r src len)) e ∙ message-put_slot_self src len v fits given)
    where
      older : (j : ℕ) → q ≤ j → j < q + k → message (put_slot r src len) j ≡ message r j
      older j a b = message-put_slot_other src len j v fits (omega arith) (omega arith)

  -- Room for one more, or the oldest goes.
  window-put_slot_room :
      r.retained < r.slot_count
      → messages (put_slot r src len) (r.next_seq - r.retained) (suc r.retained)
        ≡ keep_last r.slot_count (messages r (r.next_seq - r.retained) r.retained) (take len src)
  window-put_slot_room room =
      messages-put_slot (r.next_seq - r.retained) r.retained (omega (arith, v.retained_written))
        room
      ∙ sym (
          keep_last-room r.slot_count (messages r (r.next_seq - r.retained) r.retained)
            (take len src) (omega (arith, length-messages r (r.next_seq - r.retained) r.retained)))

  window-put_slot_full :
      (k : ℕ)
      → r.retained ≡ suc k
      → suc k ≡ r.slot_count
      → messages (put_slot r src len) (r.next_seq - k) (suc k)
        ≡ keep_last r.slot_count (messages r (r.next_seq - suc k) (suc k)) (take len src)
  window-put_slot_full k e full =
      messages-put_slot (r.next_seq - k) k (omega (arith, v.retained_written)) (omega arith)
      ∙ ap (λ q. messages r q k ++ (take len src ∷ [])) (omega (arith, v.retained_written))
      ∙ sym (
          keep_last-full r.slot_count (message r (r.next_seq - suc k))
            (messages r (r.next_seq - suc k + 1) k) (take len src)
            (omega (arith, length-messages r (r.next_seq - suc k + 1) k)))

  window-put_slot :
      r.next_seq < u64_max
      → messages
          (put_slot r src len)
          ((put_slot r src len).next_seq - (put_slot r src len).retained)
          (put_slot r src len).retained
        ≡ keep_last r.slot_count (messages r (r.next_seq - r.retained) r.retained) (take len src)
  window-put_slot more =
      let r' = put_slot r src len in
      elim (Bool-cases (ltb r.retained r.slot_count)) [
        | inl room ↦
            messages_at r' (r'.next_seq - r'.retained) (r.next_seq - r.retained) r'.retained
              (suc r.retained) (unfold put_slot in ground (arith, v.retained_written))
              (unfold put_slot in ground arith)
            ∙ window-put_slot_room (ground arith)
        | inr full ↦
            messages_at r' (r'.next_seq - r'.retained) (r.next_seq - (r.slot_count - 1)) r'.retained
              (suc (r.slot_count - 1))
              (unfold put_slot in ground (arith, v.retained_written, v.retained_slots, v.has_slots))
              (unfold put_slot in ground (arith, v.retained_slots, v.has_slots))
            ∙ window-put_slot_full (r.slot_count - 1)
                (ground (arith, v.retained_slots, v.has_slots)) (omega (arith, v.has_slots))
            ∙ ap (λ ms. keep_last r.slot_count ms (take len src))
                (messages_at r (r.next_seq - suc (r.slot_count - 1)) (r.next_seq - r.retained)
                  (suc (r.slot_count - 1)) r.retained
                  (ground (arith, v.retained_slots, v.has_slots))
                  (ground (arith, v.retained_slots, v.has_slots)))
      ]

  put_slot_refines :
      r.next_seq < u64_max → view (put_slot r src len) ≡ append r.slot_count (take len src) (view r)
  unfolding append
  put_slot_refines more = rw (window-put_slot more) (unfold put_slot in ground arith)

pub locked_write_refines :
    {r : Ring} (src : List ℕ) (len : ℕ)
    → IsValid r
    → len ≤ r.slot_size
    → len ≤ length src
    → view (locked_write r src len) ≡ append r.slot_count (take len src) (view r)
unfolding locked_write
locked_write_refines {r} src len v fits given = elim (Bool-cases (r.next_seq == u64_max)) [
  | inl full ↦ rw full (
      put_slot_refines src len (restart-IsValid v) (unfold restart in fits) given
        (unfold restart in omega arith)
      ∙ unfold restart append keep_last in ground arith)
  | inr more ↦ rw more (put_slot_refines src len v fits given (ground (arith, v.seq_fits)))
]

pub length-message :
    (r : Ring) (q : ℕ) → IsValid r → length (message r q) ≡ get_or r.slot_lens (q % r.slot_count) 0
length-message r q v =
    length-take _ _
    ∙ omega (
      arith,
      length-drop (u64 (q % r.slot_count * r.slot_size)) r.bytes,
      slot_in_bounds r q v,
      v.lens_fit (q % r.slot_count),
    )
