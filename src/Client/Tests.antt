-- ===== src/Client/Tests.antt =====
-- Requests and frames at concrete inputs.
use rtl_sdr.Prelude.{ℕ, ◌≤◌, ◌≡◌, refl, arith, true, none, some, List, [], ◌∷◌, ◌++◌, ok}
use rtl_sdr.Prelude.{Buffer, bytes_of, ℤ, pos, negsuc}
use rtl_sdr.Proto.{
  Req, IqHdr, FftHdr, valid_req, encode_req, decode_req, magic_req, magic_iq, magic_fft,
}
use rtl_sdr.Proto.{store_header, store_samples, store_bins, encode_iq_hdr, encode_iq_payload}
use rtl_sdr.Proto.{encode_fft_hdr, encode_fft_payload}
use rtl_sdr.Proto.Request.{IsReq, decode-encode_req}
use rtl_sdr.Client.{Ctx, chunk, interrupted, read_ok, error_capacity, read_iq, read_fft}
use rtl_sdr.Client.Header.{Holds}
use rtl_sdr.Client.Iq.{read_iq-encode}
use rtl_sdr.Client.Fft.{read_fft-encode}
use rtl_sdr.Client.Request
use rtl_sdr.Client.Request.{Departure, retried, refused, taken, send_all}
use rtl_sdr.Client.Sending.{IsPart, send_all-IsPart, request-decode_req}
use rtl_sdr.Prelude.{failed, false, fill}
use rtl_sdr.Client.Drain.{read_iq-oversized}

abbrev pub blank : Buffer
blank = λ j. 0

abbrev pub request : Req
request = record { magic = magic_req; freq = 100000000; rate = 48000; bandwidth = 0; mode = 0 }

request-IsReq : IsReq request
request-IsReq = omega arith

decode-encode_req_example :
    (sent : Buffer) × (encode_req (some blank) (some request) ≡ (some 29, some sent))
    × (decode_req (some request) (some sent) ≡ (ok, some request))
    × ((j : ℕ) → 29 ≤ j → sent j ≡ 0)
unfolding valid_req
decode-encode_req_example = decode-encode_req blank request request request-IsReq refl

abbrev pub iq_hdr : IqHdr
iq_hdr = record { magic = magic_iq; freq = 100000000; rate = 48000; seq = 7; nsamples = 2 }

abbrev pub iq_samples : List ℤ
iq_samples = pos 300 ∷ negsuc 0 ∷ []

abbrev pub iq_wire : Buffer
iq_wire = store_header blank magic_iq 100000000 48000 7 2

abbrev pub iq_body : Buffer
iq_body = store_samples 2 0 iq_samples blank

-- The frame in two pieces, with an interruption, and one more byte.
abbrev pub iq_ctx : Ctx
iq_ctx = record {
  open? = true;
  requested = true;
  event_type = 0;
  event_freq = 0;
  arrivals =
      chunk (bytes_of iq_wire 0 10)
      ∷ interrupted
      ∷ chunk (bytes_of iq_wire 10 22 ++ (bytes_of iq_body 0 4 ++ (9 ∷ [])))
      ∷ [];
}

pub iq_ctx-Holds : Holds iq_ctx (bytes_of iq_wire 0 32 ++ (bytes_of iq_body 0 4 ++ (9 ∷ [])))
iq_ctx-Holds = record { is_open = refl; live = tt; coming = refl }

read_iq-encode_example :
    (after : Ctx) × (read_iq iq_ctx iq_hdr true (pos 16) blank
      ≡ record { result = read_ok; ctx = after; hdr = iq_hdr; samples = some iq_samples })
    × Holds after (9 ∷ [])
unfolding encode_iq_hdr encode_iq_payload
read_iq-encode_example =
    read_iq-encode iq_hdr iq_hdr iq_samples blank iq_wire blank iq_body blank 4 16 iq_ctx (9 ∷ [])
      (omega arith) (omega arith) refl refl refl (omega arith) iq_ctx-Holds

read_iq-oversized_example :
    (after : Ctx) × (read_iq iq_ctx iq_hdr true (pos 1) blank
      ≡ record { result = error_capacity; ctx = after; hdr = iq_hdr; samples = none })
    × Holds after (9 ∷ [])
unfolding encode_iq_hdr
read_iq-oversized_example =
    read_iq-oversized iq_hdr iq_hdr blank iq_wire iq_body blank 1 iq_ctx (9 ∷ []) (omega arith) refl
      (omega arith) iq_ctx-Holds

abbrev fft_hdr : FftHdr
fft_hdr = record { magic = magic_fft; freq = 100000000; rate = 2400000; seq = 3; bins = 2 }

abbrev power : List ℕ
power = 0x3f800000 ∷ 0x40000000 ∷ []

abbrev fft_wire : Buffer
fft_wire = store_header blank magic_fft 100000000 2400000 3 2

abbrev fft_body : Buffer
fft_body = store_bins 2 0 power blank

abbrev fft_ctx : Ctx
fft_ctx = record iq_ctx {
  arrivals = chunk (bytes_of fft_wire 0 32) ∷ chunk (bytes_of fft_body 0 8) ∷ [];
}

fft_ctx-Holds : Holds fft_ctx (bytes_of fft_wire 0 32 ++ (bytes_of fft_body 0 8 ++ []))
fft_ctx-Holds = record { is_open = refl; live = tt; coming = refl }

read_fft-encode_example :
    (after : Ctx) × (read_fft true fft_ctx fft_hdr true (pos 2) blank
      ≡ record { result = read_ok; ctx = after; hdr = fft_hdr; power = some power })
    × Holds after []
unfolding encode_fft_hdr encode_fft_payload
read_fft-encode_example =
    read_fft-encode fft_hdr fft_hdr power blank fft_wire blank fft_body blank 8 2 fft_ctx []
      (omega arith) (omega arith) refl refl refl (omega arith) fft_ctx-Holds

abbrev pub new_ctx : Ctx
new_ctx = record { open? = true; requested = false; event_type = 0; event_freq = 0; arrivals = [] }

-- The socket takes 10 bytes, is interrupted, and takes the rest.
abbrev pub two_parts : List Departure
two_parts = taken 10 ∷ retried ∷ taken 19 ∷ []

send_all-IsPart_example :
    IsPart (1 ∷ 2 ∷ 3 ∷ []) (send_all (1 ∷ 2 ∷ 3 ∷ []) (taken 2 ∷ refused ∷ []))
send_all-IsPart_example = send_all-IsPart (1 ∷ 2 ∷ 3 ∷ []) (taken 2 ∷ refused ∷ [])

request-decode_req_example :
    let sent = Request.request new_ctx blank two_parts 100000000 48000 0 0 in
    (decode_req (some request) (some (fill blank 0 sent.bytes)) ≡ (ok, some request))
    × ((Request.request sent.ctx blank two_parts 1 2 0 0).status ≡ failed)
request-decode_req_example =
    request-decode_req new_ctx blank blank blank two_parts two_parts request 100000000 48000 0 0 1 2
      0 0 (omega arith) (omega arith) (omega arith) (omega arith)
      (unfold Request.request send_all in refl)
