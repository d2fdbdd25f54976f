-- ===== src/Server/Handler/Tests.antt =====
-- A request, and a worker that sends one frame and meets the end of its session.
use rtl_sdr.Prelude.{
  ◌≡◌, refl, arith, true, false, some, List, [], ◌∷◌, ◌++◌, length, replicate, ℤ, ok,
}
use rtl_sdr.Proto.{mode_iq}
use rtl_sdr.Client.Request
use rtl_sdr.Client.Request.{send_all}
use rtl_sdr.Client.Tests.{blank, request, new_ctx, two_parts}
use rtl_sdr.Dsp.Filter
use rtl_sdr.Dsp.Filter.{process}
use rtl_sdr.Dsp.Filter.Tests.{whole_numbers, fresh}
use rtl_sdr.Ring.{Ring, now_cursor, write_ring}
use rtl_sdr.Server.Publish.Tests.{small}
use rtl_sdr.Server.Socket.{moved, ready}
use rtl_sdr.Server.Pool.{
  Pool, new_pool, no_client, starting, checking, put_client, client_at, worker_check,
}
use rtl_sdr.Server.Handler.{View, Sending, Turn, Channel, Job, check_request, iq_client_handler}
use rtl_sdr.Server.Handler.Iq.{iq_client_handler-Stream}
use rtl_sdr.Server.Handler.Frames.{Stream}
use rtl_sdr.Prelude.{◌*◌, Buffer}
use rtl_sdr.Proto.{encode_iq_hdr, encode_iq_payload}
use rtl_sdr.Server.Handler.{iq_header, init_accepts}
use rtl_sdr.Server.Handler.Limits.{encode-process}
use rtl_sdr.Server.Handler.Request.{Admits, Refuses, check_request-request}
use rtl_sdr.Prelude.{◌⊎◌}

-- A client in the first slot.
abbrev joined : Pool
joined =
    put_client new_pool 0 (record no_client { fd = some 7; state = starting; worker = checking })

check_request-request_example :
    let setup =
      check_request 100000000 2400000 true mode_iq true
        (some 9)
        request
        blank
        (some (Request.request new_ctx blank two_parts 100000000 48000 0 0).bytes) in
    let now = client_at (worker_check joined 0 setup).0 0 in
    Admits 100000000 2400000 100000000 48000 0 (some 9) (client_at joined 0) now
    ⊎ Refuses 100000000 2400000 100000000 48000 0 (some 9) now
check_request-request_example =
    check_request-request joined 0 new_ctx blank blank two_parts request 100000000 48000 0 100000000
      2400000 true (some 9) refl (omega arith) (omega arith) (omega arith) (omega arith)
      (unfold Request.request send_all in refl)

abbrev sending : Sending
sending = record {
  now = 1000;
  attempts = record { polls = (1000, ready) ∷ []; transfer = moved 36 } ∷ [];
}

abbrev current : View
current = record {
  stopping = false;
  capture_epoch = 1;
  new_freq = 0;
  buf = blank;
  first = sending;
  second = sending;
}

abbrev retuned : View
retuned = record current { capture_epoch = 2; new_freq = 90000000 }

abbrev written : Ring
written =
    (write_ring (write_ring small (some (1 ∷ 2 ∷ 3 ∷ 4 ∷ [])) 4).1 (some (5 ∷ 6 ∷ 7 ∷ 8 ∷ [])) 4).1

abbrev turn : Turn
turn = record {
  before = current;
  between = current;
  ring = written;
  peer_closed = false;
  sending = sending;
}

abbrev turns : List Turn
turns = turn ∷ turn ∷ record turn { before = retuned } ∷ []

abbrev narrow : Channel
narrow = record { freq = 100000000; rate = 48000; epoch = 1; capacity = 4 }

abbrev job : Job (Filter.State whole_numbers)
job = record {
  cursor = now_cursor small;
  dsp = fresh;
  input = replicate 4 0;
  seq = 0;
  hdr = blank;
  wire = blank;
}

iq_client_handler-Stream_example :
    let (sent, taken) = iq_client_handler whole_numbers narrow job turns in
    (samples : List ℤ) × (unsent : List ℤ) × Stream narrow 0 samples sent
    × ((process whole_numbers fresh taken (length taken)).0 ≡ ok)
    × ((process whole_numbers fresh taken (length taken)).2 ≡ samples ++ unsent)
iq_client_handler-Stream_example =
    iq_client_handler-Stream whole_numbers narrow job turns (omega arith)

encode-process_example :
    let out = (process whole_numbers fresh (1 ∷ 2 ∷ 3 ∷ 4 ∷ []) 4).2 in
    (h : Buffer) × (w : Buffer) × (encode_iq_hdr
        (some blank)
        (some (iq_header narrow 7 (length out)))
      ≡ (some 32, some h))
    × (encode_iq_payload (some blank) (narrow.capacity * 2) (some out) (length out) ≡ (ok, some w))
encode-process_example =
    encode-process whole_numbers narrow fresh (1 ∷ 2 ∷ 3 ∷ 4 ∷ []) 5000 5001 100000000 2400000 7
      blank blank (unfold init_accepts in refl) (omega arith) refl (omega arith)
