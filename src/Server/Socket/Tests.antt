-- ===== src/Server/Socket/Tests.antt =====
-- The frame and the request of the client's tests through the server's socket functions.
use rtl_sdr.Prelude.{ℕ, ◌≡◌, refl, arith, List, [], ◌∷◌, some, true, take, drop, ok, pos, fill}
use rtl_sdr.Proto.{decode_req, encode_iq_hdr, encode_iq_payload}
use rtl_sdr.Client.{Ctx, read_iq, read_ok}
use rtl_sdr.Client.Header.{Holds}
use rtl_sdr.Client.Request
use rtl_sdr.Client.Request.{send_all}
use rtl_sdr.Client.Tests.{
  blank, request, iq_hdr, iq_samples, iq_wire, iq_body, iq_ctx, new_ctx, two_parts,
}
use rtl_sdr.Server.Socket.{
  Attempt, Move, again, moved, Arrival, later, came, ready, interrupted, sendv, sendv_loop,
  skip_empty, advance, wait_socket, receive_request,
}
use rtl_sdr.Server.Socket.Sendv.{Went, sendv-Went}
use rtl_sdr.Server.Socket.Receive.{Brings, brought_all, retried, brought}
use rtl_sdr.Server.Socket.Frame.{receive_request-request, read_iq-sendv}

-- The socket takes 33 bytes, then is interrupted, then takes the rest.
abbrev two_moves : List (Attempt Move)
two_moves =
    record { polls = (1000, ready) ∷ []; transfer = moved 33 }
    ∷ record { polls = (1001, interrupted) ∷ (1002, ready) ∷ []; transfer = again }
    ∷ record { polls = (1003, ready) ∷ []; transfer = moved 3 }
    ∷ []

-- Nothing is taken after the first two bytes.
abbrev one_move : List (Attempt Move)
one_move = record { polls = (1000, ready) ∷ []; transfer = moved 2 } ∷ []

sendv-Went_example :
    Went (1 ∷ 2 ∷ 3 ∷ []) (sendv (some ((1 ∷ []) ∷ (2 ∷ 3 ∷ []) ∷ [])) true 1000 one_move)
sendv-Went_example =
    sendv-Went ((1 ∷ []) ∷ (2 ∷ 3 ∷ []) ∷ []) 1000 one_move (omega arith) (omega arith)

abbrev sent_request : List ℕ
sent_request = (Request.request new_ctx blank two_parts 100000000 48000 0 0).bytes

-- The request comes in two pieces, with an interruption between.
abbrev two_pieces : List (Attempt Arrival)
two_pieces =
    record { polls = (1000, ready) ∷ []; transfer = came (take 7 sent_request) }
    ∷ record { polls = (1001, ready) ∷ []; transfer = later }
    ∷ record { polls = (1002, ready) ∷ []; transfer = came (drop 7 sent_request) }
    ∷ []

two_pieces-Brings : Brings 6000 sent_request two_pieces
unfolding Request.request send_all wait_socket
two_pieces-Brings =
    brought _ _ _ (drop 7 sent_request) _ _ refl refl
      (retried _ _ _ refl (brought _ _ _ [] _ _ refl refl (brought_all [])))

receive_request-request_example :
    (receive_request 1000 two_pieces ≡ some sent_request)
    × (decode_req (some request) (some (fill blank 0 sent_request)) ≡ (ok, some request))
receive_request-request_example =
    receive_request-request new_ctx blank blank two_parts request 100000000 48000 0 0 1000
      two_pieces (omega arith) (omega arith) (omega arith) (omega arith)
      (unfold Request.request send_all in refl) two_pieces-Brings

read_iq-sendv_example :
    (after : Ctx) × (read_iq iq_ctx iq_hdr true (pos 16) blank
      ≡ record { result = read_ok; ctx = after; hdr = iq_hdr; samples = some iq_samples })
    × Holds after (9 ∷ [])
unfolding encode_iq_hdr encode_iq_payload
read_iq-sendv_example =
    read_iq-sendv iq_hdr iq_hdr iq_samples blank iq_wire blank iq_body blank 4 16 1000 two_moves
      iq_ctx (9 ∷ []) (omega arith) (omega arith) refl refl refl (omega arith)
      (unfold sendv sendv_loop skip_empty advance wait_socket in refl)
      (unfold sendv sendv_loop skip_empty advance wait_socket in
        record { is_open = refl; live = tt; coming = refl })
