-- ===== src/Ring/Slots.antt =====
-- Which message each slot holds, and what a write does to it.
use native.Mathlib.Nat.{mod-lt, div-add-mod'}
use native.Mathlib.Decide.{dec_lt}
use rtl_sdr.Prelude.{ℕ, zero, suc, ◌+◌, ◌*◌, ◌/◌, ◌%◌, ◌≤◌, ◌<◌, ◌≡◌, ◌≢◌, refl, ◌∙◌, ap, ap₂, sym}
use rtl_sdr.Prelude.{List, [], ◌∷◌, ◌++◌, arith, u64, length, get_or, take, slice}
use rtl_sdr.Prelude.{◌⊎◌, inl, inr, slice-blit_self, slice-blit_before, slice-blit_after}
use rtl_sdr.Prelude.{get_or-set_self, get_or-set_ne, length-take}
use rtl_sdr.Ring.{Ring, put_slot}
use rtl_sdr.Ring.Inv.{IsValid, slot_end, slot_in_bounds}

-- The message of sequence number `q`, where it is still held.
abbrev pub message : Ring → ℕ → List ℕ
message r q =
    slice r.bytes (u64 (q % r.slot_count * r.slot_size)) (get_or r.slot_lens (q % r.slot_count) 0)

-- The `k` messages from `q` on.
abbrev pub messages : Ring → ℕ → ℕ → List (List ℕ)
messages r q zero = []
messages r q (suc k) = message r q ∷ messages r (q + 1) k

-- Numbers less than `n` apart have different remainders.
mod-ne : (i j n : ℕ) → i < j → j < i + n → i % n ≢ j % n
mod-ne i j n lt near e = elim (dec_lt (i / n) (j / n)) [
  | yes p ↦ omega (arith, div-add-mod' i n, div-add-mod' j n, slot_end (i / n) (j / n) n p)
  | no p ↦ elim (dec_lt (j / n) (i / n)) [
    | yes p' ↦ omega (arith, div-add-mod' i n, div-add-mod' j n, slot_end (j / n) (i / n) n p')
    | no p' ↦
        let same : i / n ≡ j / n = omega arith in
        omega (arith, div-add-mod' i n, div-add-mod' j n, ap (λ (t : ℕ). t * n) same)
  ]
]

disjoint_slots : (s t z : ℕ) → s ≢ t → (s * z + z ≤ t * z) ⊎ (t * z + z ≤ s * z)
disjoint_slots s t z ne = elim (dec_lt s t) [
  | yes p ↦ inl (slot_end s t z p)
  | no p ↦ inr (slot_end t s z (omega arith))
]

pub message-put_slot_self :
    {r : Ring} (src : List ℕ) (len : ℕ)
    → IsValid r
    → len ≤ r.slot_size
    → len ≤ length src
    → message (put_slot r src len) r.next_seq ≡ take len src
unfolding put_slot
message-put_slot_self {r} src len v fits given =
    rw (get_or-set_self r.slot_lens slot len 0 (omega (arith, mod-lt r.next_seq v.has_slots))) (
      slice-blit_self r.bytes (u64 (slot * r.slot_size)) (take len src) len
        (omega (arith, length-take len src)) (omega (arith, slot_in_bounds r r.next_seq v)))
  where
    slot : ℕ
    slot = r.next_seq % r.slot_count

pub message-put_slot_other :
    {r : Ring} (src : List ℕ) (len q : ℕ)
    → IsValid r
    → len ≤ r.slot_size
    → q < r.next_seq
    → r.next_seq < q + r.slot_count
    → message (put_slot r src len) q ≡ message r q
unfolding put_slot
message-put_slot_other {r} src len q v fits before near =
    rw (get_or-set_ne r.slot_lens new old len 0 (λ e. apart (sym e)))
      (elim (disjoint_slots old new r.slot_size apart) [
        | inl below ↦
            slice-blit_before r.bytes (u64 (new * r.slot_size)) (take len src) _ _
              (omega (arith, slot_in_bounds r q v, slot_in_bounds r r.next_seq v, v.lens_fit old))
        | inr above ↦ slice-blit_after r.bytes (u64 (new * r.slot_size)) (take len src) _ _ (
            omega (arith, slot_in_bounds r q v, slot_in_bounds r r.next_seq v, length-take len src))
      ])
  where
    old : ℕ
    old = q % r.slot_count

    new : ℕ
    new = r.next_seq % r.slot_count

    apart : old ≢ new
    apart = mod-ne q r.next_seq r.slot_count before near

pub messages-snoc :
    (r : Ring) (q k : ℕ) → messages r q (suc k) ≡ messages r q k ++ (message r (q + k) ∷ [])
messages-snoc r q zero = ap (λ j. message r j ∷ []) (omega arith)
messages-snoc r q (suc k) =
    ap (λ t. message r q ∷ t)
      (messages-snoc r (q + 1) k
        ∙ ap (λ j. messages r (q + 1) k ++ (message r j ∷ [])) (omega arith))

pub length-messages : (r : Ring) (q k : ℕ) → length (messages r q k) ≡ k
length-messages r q zero = refl
length-messages r q (suc k) = ap suc (length-messages r (q + 1) k)

pub get_or-messages :
    (r : Ring) (q k i : ℕ) → i < k → get_or (messages r q k) i [] ≡ message r (q + i)
get_or-messages r q zero i h = absurd (omega arith)
get_or-messages r q (suc k) zero h = ap (message r) (omega arith)
get_or-messages r q (suc k) (suc i) h =
    get_or-messages r (q + 1) k i (omega arith) ∙ ap (message r) (omega arith)

-- Messages that agree number by number.
pub messages_ext :
    (r s : Ring) (q k : ℕ)
    → ((j : ℕ) → q ≤ j → j < q + k → message r j ≡ message s j)
    → messages r q k ≡ messages s q k
messages_ext r s q zero h = refl
messages_ext r s q (suc k) h =
    ap₂ ◌∷◌ (h q (omega arith) (omega arith))
      (messages_ext r s (q + 1) k (λ j a b. h j (omega arith) (omega arith)))
