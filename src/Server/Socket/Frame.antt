-- ===== src/Server/Socket/Frame.antt =====
-- The server's socket functions and the client's, at the two ends of one connection.
use rtl_sdr.Prelude.{ℕ, ◌+◌, ◌*◌, ◌^◌, ◌<◌, ◌≤◌, ◌≡◌, sym, ◌∙◌, ap, arith, subst, inl, inr}
use rtl_sdr.Prelude.{
  true, some, List, [], ◌∷◌, ◌++◌, append_assoc, flatten, length, Buffer, fill, bytes_of,
  length-bytes_of, ℤ, pos, Status, ok,
}
use rtl_sdr.Proto.{Req, IqHdr, decode_req, store_req, encode_iq_hdr, encode_iq_payload}
use rtl_sdr.Proto.Frames.{IsIqHdr}
use rtl_sdr.Client.{Ctx, read_iq, read_ok}
use rtl_sdr.Client.Request.{Departure, request}
use rtl_sdr.Client.Header.{Holds}
use rtl_sdr.Client.Samples.{AllInt16}
use rtl_sdr.Client.Iq.{read_iq-encode}
use rtl_sdr.Client.Sending.{req_of, request-eq_ok, request-decode_req}
use rtl_sdr.Server.Socket.{Attempt, Arrival, Move, sendv, receive_request, receive_loop}
use rtl_sdr.Server.Socket.Sendv.{Went, sendv-Went}
use rtl_sdr.Server.Socket.Receive.{Brings, receive_loop-Brings}

-- If rtlsdr_stream_request succeeds, with numbers that fit the fields, and the bytes that it sent
-- reach the server in any pieces, with interrupted calls between them, within 5000 ms of the clock
-- at the start of receive_request, then receive_request returns exactly these bytes, and the
-- server decodes them, whatever its buffers held, to the request that the client was given.
pub receive_request-request :
    (ctx : Ctx) (buf other : Buffer) (out : List Departure) (old : Req) (f r b m now : ℕ)
    (attempts : List (Attempt Arrival))
    → f < 2 ^ 64
    → r < 2 ^ 64
    → b < 2 ^ 64
    → m < 2 ^ 8
    → (request ctx buf out f r b m).status ≡ ok
    → Brings (now + 5000) (request ctx buf out f r b m).bytes attempts
    → let bytes = (request ctx buf out f r b m).bytes in
      (receive_request now attempts ≡ some bytes)
      × (decode_req (some old) (some (fill other 0 bytes)) ≡ (ok, some (req_of f r b m)))
unfolding receive_request
receive_request-request ctx buf other out old f r b m now attempts hf hr hb hm h comes =
    let bytes = (request ctx buf out f r b m).bytes in
    let (_, whole, _) = request-eq_ok ctx buf out f r b m h in
    let size : length bytes ≡ 29 =
      ap length whole ∙ length-bytes_of (store_req buf (req_of f r b m)) 0 29 in
    let (decoded, _) =
      request-decode_req ctx buf other buf out out old f r b m f r b m hf hr hb hm h in
    (
      ap (λ n. receive_loop (now + 5000) n attempts) (sym size)
          ∙ receive_loop-Brings (now + 5000) bytes attempts comes,
      decoded,
    )

Went-ok : (bytes : List ℕ) (s : Status × List ℕ) → Went bytes s → s.0 ≡ ok → s.1 ≡ bytes
Went-ok bytes (status, sent) (inl (_, e)) h = e
Went-ok bytes (status, sent) (inr (e, _, _, _)) h = cc

-- A header whose fields fit their types and as many 16-bit samples as it counts, which the server's
-- encoders accept: if rtlsdr_stream_sendv succeeds with the two as its vectors, whatever the clock
-- and the socket answer, and the bytes that it sent come over a connection that lasts, cut into
-- chunks in any way, then rtlsdr_stream_read_iq returns the header and the samples where the caller
-- has room for them, and leaves what follows for later reads.
pub read_iq-sendv :
    (hdr old : IqHdr) (s : List ℤ) (hdr_buf wire pay_buf body stack : Buffer) (capacity max now : ℕ)
    (attempts : List (Attempt Move)) (ctx : Ctx) (rest : List ℕ)
    → IsIqHdr hdr
    → AllInt16 s
    → hdr.nsamples ≡ length s
    → encode_iq_hdr (some hdr_buf) (some hdr) ≡ (some 32, some wire)
    → encode_iq_payload (some pay_buf) capacity (some s) (length s) ≡ (ok, some body)
    → length s ≤ max
    → (sendv (some (bytes_of wire 0 32 ∷ bytes_of body 0 (length s * 2) ∷ [])) true now attempts).0
      ≡ ok
    → Holds ctx (
        (sendv
          (some (bytes_of wire 0 32 ∷ bytes_of body 0 (length s * 2) ∷ []))
          true
          now
          attempts).1
        ++ rest)
    → (after : Ctx) × (read_iq ctx old true (pos max) stack
        ≡ record { result = read_ok; ctx = after; hdr = hdr; samples = some s })
      × Holds after rest
read_iq-sendv hdr old s hdr_buf wire pay_buf body stack capacity max now attempts ctx rest fit ints
      count header payload room success holds =
    let h = bytes_of wire 0 32 in
    let p = bytes_of body 0 (length s * 2) in
    let out = sendv (some (h ∷ p ∷ [])) true now attempts in
    let all : out.1 ≡ h ++ (p ++ []) =
      Went-ok (flatten (h ∷ p ∷ [])) out
        (sendv-Went (h ∷ p ∷ []) now attempts (omega arith) (omega arith)) success in
    let frame : out.1 ++ rest ≡ h ++ (p ++ rest) =
      ap (λ t. t ++ rest) all
      ∙ append_assoc h (p ++ []) rest
      ∙ ap (λ t. h ++ t) (append_assoc p [] rest) in
    read_iq-encode hdr old s hdr_buf wire pay_buf body stack capacity max ctx rest fit ints count
      header payload room (subst (Holds ctx) frame holds)
