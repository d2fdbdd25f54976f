-- ===== src/TcpRing/Rounds.antt =====
-- The rounds of the loop of `client_send_worker` in src/rtl_tcp.c, while the callback goes on.
use rtl_sdr.Prelude.{
  ℕ, zero, suc, ◌+◌, ◌-◌, ◌*◌, ◌%◌, ◌^◌, ◌≤◌, ◌<◌, ◌≡◌, ◌≢◌, refl, sym, ◌∙◌, ap, ap₂, arith, subst,
  subst⁻¹, true, false, if_true, if_false, List, [], ◌∷◌, ◌++◌, length, get_or, ◌==◌, bytes_of,
  bytes_of_lem, bytes_of_same, bytes_of_append, min, bit_and, u32,
}
use rtl_sdr.TcpRing.{
  World, run_callback, Piece, SendResult, whole, broken, waiting, sent_before, send_all, Sending,
  sends, send_loop, slot_mask, slot_size, slot_data,
}
use rtl_sdr.TcpRing.Steps.{slot_index, Holds, run_callback-Holds}

-- The socket takes at least a byte in each of these rounds, and together `left` bytes.
abbrev pub Takes : ℕ → List Piece → Type 0
Takes left [] = left ≤ 0
Takes left (p ∷ ps) = (0 < p.count) × Takes (left - p.count) ps

-- Each of the `left` buffers from the `p`-th on has a round, in which the socket takes it whole.
abbrev pub AllTaken : (ℕ → List ℕ) → ℕ → ℕ → List Sending → Type 0
AllTaken h p zero ss = 0 ≤ 0
AllTaken h p (suc left) [] = 1 ≤ 0
AllTaken h p (suc left) (s ∷ ss) = Takes (length (h p)) s.pieces × AllTaken h (p + 1) left ss

-- The buffers from `p` to `p + left`.
abbrev pub from_to : (ℕ → List ℕ) → ℕ → ℕ → List (List ℕ)
from_to h p zero = []
from_to h p (suc left) = h p ∷ from_to h (p + 1) left

-- All the bytes go out, and the slots are kept.
record IsWhole (h : ℕ → List ℕ) (q n : ℕ) (bytes : List ℕ) (out : SendResult) : Type 0 where
  bytes_eq : out.bytes ≡ bytes
  ends : out.outcome ≡ whole
  after : Holds h q n out.world

Takes-fewer : (a b : ℕ) (ps : List Piece) → b ≤ a → Takes a ps → Takes b ps
Takes-fewer a b [] h t = omega (arith, t)
Takes-fewer a b (p ∷ ps) h (some_bytes, t) =
    (some_bytes, Takes-fewer (a - p.count) (b - p.count) ps (omega arith) t)

module _ (h : ℕ → List ℕ) (q n k : ℕ) (low : q ≤ k) (high : k < n) where
  piece_lem :
      (w : World) (off count : ℕ)
      → Holds h q n w
      → off + count ≤ length (h k)
      → bytes_of w.ring.contents (k % 512 * slot_size + off) count
        ≡ bytes_of (λ i. get_or (h k) i 0) off count
  piece_lem w off count v fits =
      bytes_of_same w.ring.contents (λ i. get_or (h k) i 0) (k % 512 * slot_size + off) off count
        (λ j lt.
          ap w.ring.contents (omega arith) ∙ v.kept.byte_of k (off + j) low high (omega arith))

  send_all_lem :
      (w : World) (off left : ℕ) (ps : List Piece)
      → Holds h q n w
      → off + left ≡ length (h k)
      → Takes left ps
      → IsWhole h q n
          (bytes_of (λ i. get_or (h k) i 0) off left)
          (send_all w (k % 512 * slot_size + off) left ps)
  unfolding send_all
  send_all_lem w off zero ps v e t = record { bytes_eq = refl; ends = refl; after = v }
  send_all_lem w off (suc left) [] v e t = absurd (omega (arith, t))
  send_all_lem w off (suc left) (p ∷ ps) v e (some_bytes, t) =
      let now = run_callback p.before w.ring w.ahead in
      let v1 : Holds h q n now = run_callback-Holds h q n p.before w.ring w.ahead v in
      let sent = min p.count (suc left) in
      let rest =
        send_all_lem now (off + sent) (suc left - sent) ps v1 (omega (arith, e))
          (Takes-fewer (suc left - p.count) (suc left - sent) ps (omega arith) t) in
      let there : k % 512 * slot_size + (off + sent) ≡ k % 512 * slot_size + off + sent =
        omega arith in
      subst⁻¹ (IsWhole h q n (bytes_of (λ i. get_or (h k) i 0) off (suc left)))
        (if_false (p.count == 0) _ _ (ground arith)
          ∙ ap
              (λ a.
                sent_before (bytes_of now.ring.contents (k % 512 * slot_size + off) sent)
                  (send_all now a (suc left - sent) ps))
              (sym there))
        (record {
          bytes_eq =
              ap₂ (λ a b. a ++ b) (piece_lem now off sent v1 (omega (arith, e))) rest.bytes_eq
              ∙ bytes_of_append (λ i. get_or (h k) i 0) off sent (suc left - sent)
              ∙ ap (bytes_of (λ i. get_or (h k) i 0) off) {x = sent + (suc left - sent)}
                  {y = suc left} (omega arith);
          ends = rest.ends;
          after = rest.after;
        })

  -- A slot that is kept goes out whole.
  send_slot :
      (w : World) (pos : ℕ) (ps : List Piece)
      → bit_and pos slot_mask ≡ k % 512
      → Holds h q n w
      → Takes (length (h k)) ps
      → IsWhole h q n (h k) (send_all w (slot_data pos) (w.ring.lens (bit_and pos slot_mask)) ps)
  send_slot w pos ps index v t =
      subst (λ a. IsWhole h q n (h k) (send_all w a (w.ring.lens (bit_and pos slot_mask)) ps))
        (omega (arith, index))
        (subst⁻¹ (λ b. IsWhole h q n (h k) (send_all w (k % 512 * slot_size + 0) b ps))
          (ap w.ring.lens index ∙ v.kept.len_of k low high)
          (subst
            (λ bytes. IsWhole h q n bytes (send_all w (k % 512 * slot_size + 0) (length (h k)) ps))
            (bytes_of_lem (λ i. get_or (h k) i 0) 0 (h k)
              (λ j lt. ap (λ i. get_or (h k) i 0) {x = 0 + j} {y = j} (omega arith)))
            (send_all_lem w 0 (length (h k)) ps v (omega arith) t)))

apart : (p left : ℕ) → suc left < 2 ^ 32 → (p % 2 ^ 32 == (p + suc left) % 2 ^ 32) ≡ false
apart p left h =
    let different : p % 2 ^ 32 ≢ (p + suc left) % 2 ^ 32 = λ e. absurd (omega (arith, e)) in
    ground arith

-- The loop at its end.
send_loop_done :
    (w : World) (p : ℕ) (ss : List Sending)
    → send_loop w p p ss ≡ record { sent = []; read_pos = p; active = true }
unfolding send_loop
send_loop_done w p [] = refl
send_loop_done w p (s ∷ ss) = if_true (p == p) _ _ (ground arith)

-- A round in which the slot goes out whole.
pub send_loop_round :
    (h : ℕ → List ℕ) (q n k rp wp : ℕ) (w : World) (s : Sending) (ss : List Sending)
    → (rp == wp) ≡ false
    → bit_and rp slot_mask ≡ k % 512
    → q ≤ k
    → k < n
    → Holds h q n (run_callback s.before w.ring w.ahead)
    → Takes (length (h k)) s.pieces
    → (next : World) × Holds h q n next
      × (send_loop w rp wp (s ∷ ss) ≡ sends (h k) (send_loop next (u32 (rp + 1)) wp ss))
unfolding send_loop
send_loop_round h q n k rp wp w s ss differ index low high v takes =
    let now = run_callback s.before w.ring w.ahead in
    let out = send_all now (slot_data rp) (now.ring.lens (bit_and rp slot_mask)) s.pieces in
    let done = send_slot h q n k low high now rp s.pieces index v takes in
    let rest = send_loop out.world (u32 (rp + 1)) wp ss in
    (
      out.world,
      done.after,
      if_false (rp == wp) _ _ differ
          ∙ ap
              (λ o. elim o [
                | whole ↦ sends out.bytes rest
                | broken ↦ record { sent = out.bytes ∷ []; read_pos = rp; active = false }
                | waiting ↦ record { sent = out.bytes ∷ []; read_pos = rp; active = true }
              ])
              done.ends
          ∙ ap (λ bytes. sends bytes rest) done.bytes_eq,
    )

pub send_loop_lem :
    (h : ℕ → List ℕ) (q n p left : ℕ) (w : World) (ss : List Sending)
    → Holds h q n w
    → left < 2 ^ 32
    → q ≤ p
    → p + left ≡ n
    → AllTaken h p left ss
    → send_loop w (p % 2 ^ 32) (n % 2 ^ 32) ss
      ≡ record { sent = from_to h p left; read_pos = n % 2 ^ 32; active = true }
send_loop_lem h q n p zero w ss v small low e taken =
    ap (λ a. send_loop w a (n % 2 ^ 32) ss) {x = p % 2 ^ 32} {y = n % 2 ^ 32} (omega (arith, e))
    ∙ send_loop_done w (n % 2 ^ 32) ss
send_loop_lem h q n p (suc left) w [] v small low e taken = absurd (omega (arith, taken))
send_loop_lem h q n p (suc left) w (s ∷ ss) v small low e (takes, taken) =
    let (next, v1, round) =
      send_loop_round h q n p (p % 2 ^ 32) (n % 2 ^ 32) w s ss
        (ap (λ m. p % 2 ^ 32 == m % 2 ^ 32) (sym e) ∙ apart p left small) (slot_index p) low
        (omega (arith, e)) (run_callback-Holds h q n s.before w.ring w.ahead v) takes in
    round
    ∙ ap (λ a. sends (h p) (send_loop next a (n % 2 ^ 32) ss)) {x = u32 (p % 2 ^ 32 + 1)}
        {y = (p + 1) % 2 ^ 32} (omega arith)
    ∙ ap (sends (h p)) (
        send_loop_lem h q n (p + 1) left next ss v1 (omega arith) (omega arith) (omega (arith, e))
          taken)
