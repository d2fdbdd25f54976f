-- ===== src/Client/Request.antt =====
-- stream_client/c/client.c: the sending of a request.
use rtl_sdr.Prelude.{ℕ, zero, suc, true, not, ◌&&◌, ◌||◌, if◌then◌else◌, ◌==◌}
use rtl_sdr.Prelude.{List, [], ◌∷◌, ◌++◌, take, drop, Buffer, bytes_of, Status, ok, failed}
use rtl_sdr.Proto.{Req, store_req, magic_req, mode_iq, mode_fft}
use rtl_sdr.Client.{Ctx, close}

-- What the calls of `send` meet, in order: an interruption (EINTR), a failure, and the number of
-- bytes that the socket takes. The end of the list is a failure too.
pub data Departure : Type 0 where
  retried refused : Departure
  taken : ℕ → Departure

-- `send_all`: whether all went out, and which bytes did.
unfoldable pub send_all : List ℕ → List Departure → Status × List ℕ × List Departure
send_all [] out = (ok, [], out)
send_all (b ∷ bytes) [] = (failed, [], [])
send_all (b ∷ bytes) (retried ∷ out) = send_all (b ∷ bytes) out
send_all (b ∷ bytes) (refused ∷ out) = (failed, [], out)
send_all (b ∷ bytes) (taken zero ∷ out) = (failed, [], out)
send_all (b ∷ bytes) (taken (suc n) ∷ out) =
    let (status, more, rest) = send_all (drop n bytes) out in
    (status, b ∷ (take n bytes ++ more), rest)

-- What a request returns, the context after it, and the bytes that went out.
pub record Sent : Type 0 where
  pub status : Status
  pub ctx : Ctx
  pub bytes : List ℕ

-- `rtlsdr_stream_request` at a context; `buf` is what the array on the stack holds, into which the
-- client writes the fields as the server's encoder does.
unfoldable pub request : Ctx → Buffer → List Departure → ℕ → ℕ → ℕ → ℕ → Sent
request ctx buf out freq rate bandwidth mode =
    let req : Req = record {
      magic = magic_req;
      freq = freq;
      rate = rate;
      bandwidth = bandwidth;
      mode = mode;
    } in
    let c1 : Ctx = record ctx { requested = true } in
    let (status, bytes, _) = send_all (bytes_of (store_req buf req) 0 29) out in
    if not ctx.open?
      || ctx.requested
      || not (mode == mode_iq) && not (mode == mode_fft)
      || mode == mode_fft && (not (freq == 0) || not (rate == 0) || not (bandwidth == 0))
    then record { status = failed; ctx = ctx; bytes = [] }
    else elim status [
      | ok ↦ record { status = ok; ctx = c1; bytes = bytes }
      | failed ↦ record { status = failed; ctx = close c1; bytes = bytes }
    ]
