-- ===== src/TcpRing/Order.antt =====
-- What a batch of `client_send_worker` in src/rtl_tcp.c sends of the published buffers, while the
-- callback goes on.
use rtl_sdr.Prelude.{
  ℕ, ◌+◌, ◌-◌, ◌%◌, ◌^◌, ◌≤◌, ◌<◌, ◌≡◌, ◌≢◌, ◌∙◌, ap, ap₂, arith, subst⁻¹, true, if_true, if_false,
  if◌then◌else◌, List, ◌∷◌, ◌++◌, length, drop, ltb, u32,
}
use native.Mathlib.Decide.{dec_lt}
use rtl_sdr.TcpRing.{
  RingBuffer, World, run_callback, callbacks, Sending, Batch, send_loop, catch_up, send_batch,
  slot_count,
}
use rtl_sdr.TcpRing.Steps.{slot_index, Kept, Kept-later, Holds, begun}
use rtl_sdr.TcpRing.Rounds.{Takes, AllTaken, from_to, send_loop_lem, send_loop_round}
use rtl_sdr.TcpRing.Callbacks.{
  Follow, drop-callbacks-AllInSlot, run_callback_all, after, callbacks-Kept,
}

-- The number of the first buffer of a batch.
abbrev pub first_of : ℕ → ℕ → ℕ
first_of p n = if ltb 512 (n - p) then n - 128 else p

behind_lem : (p n : ℕ) → p ≤ n → n - p < 2 ^ 32 → u32 (n % 2 ^ 32 + 4294967296 - p % 2 ^ 32) ≡ n - p
behind_lem p n h k = omega arith

catch_up-first :
    (p n : ℕ)
    → p ≤ n
    → n - p < 2 ^ 32
    → (catch_up (p % 2 ^ 32) (n % 2 ^ 32)).0 ≡ first_of p n % 2 ^ 32
unfolding catch_up
catch_up-first p n h k =
    let far : ℕ → ℕ × ℕ = λ b.
      if ltb slot_count b
      then (u32 (n % 2 ^ 32 + 4294967296 - 128), b - 128)
      else (p % 2 ^ 32, 0) in
    ap (λ b. (far b).0) (behind_lem p n h k) ∙ elim (dec_lt 512 (n - p)) [
      | yes slow ↦
          ap (λ (t : ℕ × ℕ). t.0)
            (if_true (ltb slot_count (n - p)) (u32 (n % 2 ^ 32 + 4294967296 - 128), n - p - 128)
              (p % 2 ^ 32, 0) (ground arith))
          ∙ ground arith
      | no near ↦
          ap (λ (t : ℕ × ℕ). t.0)
            (if_false (ltb slot_count (n - p)) (u32 (n % 2 ^ 32 + 4294967296 - 128), n - p - 128)
              (p % 2 ^ 32, 0) (ground arith))
          ∙ ground arith
    ]

-- A batch of client_send_worker for a client that has read `p` of the `n` buffers published so far,
-- fewer than 2^32 behind, whose first buffer `q` is the `p`-th, or the 128th from the end if the
-- client is more than 512 behind. The ring holds the buffers from `q` on; the callback, which may be within a
-- buffer already, goes on by single steps between those of the sender, also within a buffer that
-- is being sent, and begins by the end of its steps no buffer that lies 512 or more behind `q`;
-- and there is a round for each buffer of the batch, in which the socket takes it, in pieces of at
-- least a byte. Then the batch sends
-- whole and in order the buffers from `q` to before the `n`-th, and leaves the client active and at
-- the position `n`.
pub send_batch-from_to :
    (h : ℕ → List ℕ) (n p j : ℕ) (r : RingBuffer) (bufs : List (List ℕ)) (ss : List Sending)
    → p ≤ n
    → n - p < 2 ^ 32
    → r.write_pos ≡ n % 2 ^ 32
    → Kept h (first_of p n) n r
    → n + begun (drop j (callbacks bufs)) ≤ first_of p n + 512
    → AllTaken h (first_of p n) (n - first_of p n) ss
    → send_batch (record { ring = r; ahead = drop j (callbacks bufs) }) (p % 2 ^ 32) ss ≡ record {
      sent = from_to h (first_of p n) (n - first_of p n);
      read_pos = n % 2 ^ 32;
      active = true;
    }
unfolding send_batch
send_batch-from_to h n p j r bufs ss low close at_n kept room taken =
    let q = first_of p n in
    let w : World = record { ring = r; ahead = drop j (callbacks bufs) } in
    let q_low : q ≤ n = ground arith in
    let q_close : n - q < 2 ^ 32 = ground arith in
    ap₂ (λ a b. send_loop w a b ss)
      (ap (λ t. (catch_up (p % 2 ^ 32) t).0) at_n ∙ catch_up-first p n low close) at_n
    ∙ send_loop_lem h q n q (n - q) w ss
        (record {
          at = n;
          position = at_n;
          reached = omega arith;
          room = room;
          in_slots = drop-callbacks-AllInSlot j bufs;
          kept = kept;
        })
        q_close (omega arith) (omega arith) taken

-- The check for a slow client is made once for each batch: for a client that is at least 1 and at most
-- 512 buffers behind, with a ring that holds the newest 512 buffers, where the callback publishes so
-- many more, none of them empty, before the first slot is read that they lap it, and by the end of its
-- steps has begun none that laps it again, the batch sends the buffer 512 later in place of the next
-- one, whole and first, if the socket takes it.
pub send_batch-lapped :
    (h : ℕ → List ℕ) (n p : ℕ) (r : RingBuffer) (coming more : List (List ℕ)) (s : Sending)
    (ss : List Sending)
    → p < n
    → n ≤ p + 512
    → r.write_pos ≡ n % 2 ^ 32
    → Kept h (n - 512) n r
    → Follow h n coming
    → p + 512 < n + length coming
    → n + length coming + begun (callbacks more) ≤ p + 1024
    → s.before ≡ length (callbacks coming)
    → Takes (length (h (p + 512))) s.pieces
    → let w : World = record { ring = r; ahead = callbacks coming ++ callbacks more } in
      (rest : List (List ℕ)) × ((send_batch w (p % 2 ^ 32) (s ∷ ss)).sent ≡ h (p + 512) ∷ rest)
unfolding send_batch
send_batch-lapped h n p r coming more s ss low near at_n kept f lap once all takes =
    let w : World = record { ring = r; ahead = callbacks coming ++ callbacks more } in
    let m = n + length coming in
    let (kept_now, at_m) = callbacks-Kept h n r coming at_n kept f in
    let now : run_callback s.before r w.ahead
        ≡ record { ring = after r (callbacks coming); ahead = callbacks more } =
      ap (λ k. run_callback k r w.ahead) all
      ∙ run_callback_all r (callbacks coming) (callbacks more) in
    let holds : Holds h (p + 512) m (run_callback s.before r w.ahead) =
      subst⁻¹ (Holds h (p + 512) m) now (record {
        at = m;
        position = at_m;
        reached = omega arith;
        room = omega (arith, once);
        in_slots = drop-callbacks-AllInSlot 0 more;
        kept =
            Kept-later h (m - 512) (p + 512) m (after r (callbacks coming)) (omega (arith, once))
              kept_now;
      }) in
    let start : (catch_up (p % 2 ^ 32) r.write_pos).0 ≡ p % 2 ^ 32 =
      ap (λ t. (catch_up (p % 2 ^ 32) t).0) at_n
      ∙ catch_up-first p n (omega arith) (omega arith)
      ∙ ap (λ t. t % 2 ^ 32) {x = first_of p n} {y = p} (ground arith) in
    let different : p % 2 ^ 32 ≢ r.write_pos = λ e. absurd (omega (arith, e, at_n)) in
    let (next, _, round) =
      send_loop_round h (p + 512) m (p + 512) (p % 2 ^ 32) r.write_pos w s ss (ground arith)
        (slot_index p ∙ omega arith) (omega arith) lap holds takes in
    (
      (send_loop next (u32 (p % 2 ^ 32 + 1)) r.write_pos ss).sent,
      ap (λ a. (send_loop w a r.write_pos (s ∷ ss)).sent) start ∙ ap (λ (b : Batch). b.sent) round,
    )
