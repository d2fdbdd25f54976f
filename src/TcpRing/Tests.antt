-- ===== src/TcpRing/Tests.antt =====
-- Three buffers in a ring, with two more and with 512 more while a batch is sent.
use rtl_sdr.Prelude.{
  ℕ, zero, suc, ◌+◌, ◌%◌, ◌^◌, ◌≡◌, refl, ap, arith, true, List, [], ◌∷◌, ◌++◌, length, drop,
}
use rtl_sdr.TcpRing.{
  RingBuffer, copied, callback_step, stored, copies, callback, callbacks, World, Sending,
  send_batch,
}
use rtl_sdr.TcpRing.Steps.{Kept, Kept-later, callback_step-Kept, begun}
use rtl_sdr.TcpRing.Callbacks.{Follow, after, callbacks-Kept}
use rtl_sdr.TcpRing.Rounds.{from_to}
use rtl_sdr.TcpRing.Order.{send_batch-from_to, send_batch-lapped}

abbrev numbered : ℕ → List ℕ
numbered k = (k + 1) ∷ []

-- The buffers from the `n`-th on.
abbrev buffers : ℕ → ℕ → List (List ℕ)
buffers n zero = []
buffers n (suc left) = numbered n ∷ buffers (n + 1) left

length-buffers : (n left : ℕ) → length (buffers n left) ≡ left
length-buffers n zero = refl
length-buffers n (suc left) = ap suc (length-buffers (n + 1) left)

buffers-Follow : (n left : ℕ) → Follow numbered n (buffers n left)
unfolding stored
buffers-Follow n zero = omega arith
buffers-Follow n (suc left) = (omega arith, refl, buffers-Follow (n + 1) left)

abbrev no_buffers : RingBuffer
no_buffers = record { contents = λ i. 0; lens = λ i. 0; write_pos = 0 }

no_buffers-Kept : Kept numbered 0 0 no_buffers
no_buffers-Kept = record {
  fits = λ k low high. absurd (omega arith);
  len_of = λ k low high. absurd (omega arith);
  byte_of = λ k i low high inside. absurd (omega arith);
}

abbrev three : RingBuffer
three = after no_buffers (callbacks (buffers 0 3))

three_lem : Kept numbered 0 3 three × (three.write_pos ≡ 3 % 2 ^ 32)
three_lem =
    callbacks-Kept numbered 0 no_buffers (buffers 0 3) refl no_buffers-Kept (buffers-Follow 0 3)

-- The callback has copied the byte of the fourth buffer and not yet published it.
abbrev within : RingBuffer
within = callback_step three (copied 0 4)

within-write_pos : within.write_pos ≡ 3 % 2 ^ 32
unfolding callback_step
within-write_pos = three_lem.1

within-Kept : Kept numbered 1 3 within
within-Kept = Kept-later numbered 0 1 3 within (omega arith) (
    callback_step-Kept numbered 0 3 3 three (copied 0 4) three_lem.1 (omega arith) (omega arith)
      (omega arith) three_lem.0)

abbrev rounds : List Sending
rounds =
    record { before = 1; pieces = record { before = 2; count = 1 } ∷ [] }
    ∷ record { before = 0; pieces = record { before = 1; count = 100 } ∷ [] }
    ∷ []

begun_two : begun (drop 1 (callbacks (buffers 3 2))) ≡ 2
unfolding callbacks callback copies stored
begun_two = refl

send_batch-from_to_example :
    send_batch (record { ring = within; ahead = drop 1 (callbacks (buffers 3 2)) }) 1 rounds
    ≡ record { sent = from_to numbered 1 2; read_pos = 3; active = true }
send_batch-from_to_example =
    send_batch-from_to numbered 3 1 1 within (buffers 3 2) rounds (omega arith) (omega arith)
      within-write_pos within-Kept (omega (arith, begun_two)) (omega arith)

abbrev flood : Sending
flood = record {
  before = length (callbacks (buffers 3 512));
  pieces = record { before = 0; count = 1 } ∷ [];
}

begun_none : begun (callbacks []) ≡ 0
unfolding callbacks
begun_none = refl

send_batch-lapped_example :
    let w : World = record { ring = three; ahead = callbacks (buffers 3 512) ++ callbacks [] } in
    (rest : List (List ℕ)) × ((send_batch w 2 (flood ∷ [])).sent ≡ numbered 514 ∷ rest)
send_batch-lapped_example =
    send_batch-lapped numbered 3 2 three (buffers 3 512) [] flood [] (omega arith) (omega arith)
      three_lem.1 three_lem.0 (buffers-Follow 3 512) (omega (arith, length-buffers 3 512))
      (omega (arith, length-buffers 3 512, begun_none)) refl (omega arith)
