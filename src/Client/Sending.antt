-- ===== src/Client/Sending.antt =====
-- What a request sends: all of it or the beginning, once, in the form that the server decodes.
use rtl_sdr.Prelude.{ℕ, zero, suc, ◌+◌, ◌^◌, ◌<◌, ◌≡◌, ◌⊎◌, inl, inr, refl, ◌∙◌, ap, arith}
use rtl_sdr.Prelude.{Bool, true, false, not, ◌&&◌, ◌||◌, if◌then◌else◌, ◌==◌, or_eq_false, some}
use rtl_sdr.Prelude.{
  List, [], ◌∷◌, ◌++◌, append_assoc, length, take, drop, take-append-drop, Buffer, fill, bytes_of,
  fill-bytes_of, Status, ok, failed,
}
use rtl_sdr.Proto.{Req, store_req, valid_req, decode_req, magic_req, mode_iq, mode_fft}
use rtl_sdr.Proto.Request.{IsReq, decode-bytes_of_req}
use rtl_sdr.Client.{Ctx, close}
use rtl_sdr.Client.Request.{Departure, retried, refused, taken, send_all, Sent, request}

-- All the bytes have gone out, or a beginning of them after which some are left.
abbrev pub IsPart : List ℕ → Status × List ℕ × List Departure → Type 0
IsPart bytes (status, sent, _) =
    ((status ≡ ok) × (sent ≡ bytes))
    ⊎ ((status ≡ failed) × (left : List ℕ) × (0 < length left) × (sent ++ left ≡ bytes))

more-IsPart :
    (b n : ℕ) (bytes : List ℕ) {status : Status} {more : List ℕ} (rest : List Departure)
    → IsPart (drop n bytes) (status, more, rest)
    → IsPart (b ∷ bytes) (status, b ∷ (take n bytes ++ more), rest)
more-IsPart b n bytes rest (inl (e, all)) =
    inl (e, ap (λ t. b ∷ (take n bytes ++ t)) all ∙ ap (λ t. b ∷ t) (take-append-drop n bytes))
more-IsPart b n bytes {more = more} rest (inr (e, left, some_left, part)) = inr (
  e,
  left,
  some_left,
  ap (λ t. b ∷ t) (append_assoc (take n bytes) more left)
      ∙ ap (λ t. b ∷ (take n bytes ++ t)) part
      ∙ ap (λ t. b ∷ t) (take-append-drop n bytes),
)

-- However the socket takes the bytes, send_all succeeds exactly where they have all gone out in
-- order, and where it fails a beginning of them has gone out and some are left.
pub send_all-IsPart : (bytes : List ℕ) (out : List Departure) → IsPart bytes (send_all bytes out)
unfolding send_all
send_all-IsPart [] out = inl (refl, refl)
send_all-IsPart (b ∷ bytes) [] = inr (refl, b ∷ bytes, omega arith, refl)
send_all-IsPart (b ∷ bytes) (retried ∷ out) = send_all-IsPart (b ∷ bytes) out
send_all-IsPart (b ∷ bytes) (refused ∷ out) = inr (refl, b ∷ bytes, omega arith, refl)
send_all-IsPart (b ∷ bytes) (taken zero ∷ out) = inr (refl, b ∷ bytes, omega arith, refl)
send_all-IsPart (b ∷ bytes) (taken (suc n) ∷ out) =
    more-IsPart b n bytes (send_all (drop n bytes) out).2 (send_all-IsPart (drop n bytes) out)

-- The request whose fields are these.
abbrev pub req_of : ℕ → ℕ → ℕ → ℕ → Req
req_of f r b m = record { magic = magic_req; freq = f; rate = r; bandwidth = b; mode = m }

abbrev barred : Ctx → ℕ → ℕ → ℕ → ℕ → Bool
barred ctx f r b m =
    not ctx.open?
    || ctx.requested
    || not (m == mode_iq) && not (m == mode_fft)
    || m == mode_fft && (not (f == 0) || not (r == 0) || not (b == 0))

valid_lem :
    (a c x y z : Bool)
    → not a && not c ≡ false
    → c && (not x || not y || not z) ≡ false
    → a || c && x && y && z ≡ true
valid_lem true c x y z h k = refl
valid_lem false false x y z h k = cc
valid_lem false true false y z h k = cc
valid_lem false true true false z h k = cc
valid_lem false true true true false h k = cc
valid_lem false true true true true h k = refl

valid_of :
    (ctx : Ctx) (f r b m : ℕ) → barred ctx f r b m ≡ false → valid_req (req_of f r b m) ≡ true
unfolding valid_req
valid_of ctx f r b m h =
    let used = not ctx.open? || ctx.requested in
    let (h1, h2) =
      or_eq_false (used || not (m == mode_iq) && not (m == mode_fft))
        (m == mode_fft && (not (f == 0) || not (r == 0) || not (b == 0))) h in
    let (h3, h4) = or_eq_false used (not (m == mode_iq) && not (m == mode_fft)) h1 in
    valid_lem (m == mode_iq) (m == mode_fft) (f == 0) (r == 0) (b == 0) h4 h2

-- What `request` returns, from its guard and from what `send_all` did.
abbrev outcome : Ctx → Bool → Status → List ℕ → Sent
outcome ctx guard status bytes =
    let c1 : Ctx = record ctx { requested = true } in
    if guard then record { status = failed; ctx = ctx; bytes = [] } else elim status [
      | ok ↦ record { status = ok; ctx = c1; bytes = bytes }
      | failed ↦ record { status = failed; ctx = close c1; bytes = bytes }
    ]

outcome_lem :
    (ctx : Ctx) (guard : Bool) (status : Status) (bytes whole : List ℕ) (rest : List Departure)
    → IsPart whole (status, bytes, rest)
    → (outcome ctx guard status bytes).status ≡ ok
    → (guard ≡ false)
      × ((outcome ctx guard status bytes).bytes ≡ whole)
      × ((outcome ctx guard status bytes).ctx.requested ≡ true)
outcome_lem ctx true status bytes whole rest part h = cc
outcome_lem ctx false ok bytes whole rest (inl (_, e)) h = (refl, e, refl)
outcome_lem ctx false ok bytes whole rest (inr (e, _, _, _)) h = cc
outcome_lem ctx false failed bytes whole rest part h = cc

-- What a successful request demands.
pub request-eq_ok :
    (ctx : Ctx) (buf : Buffer) (out : List Departure) (f r b m : ℕ)
    → (request ctx buf out f r b m).status ≡ ok
    → (barred ctx f r b m ≡ false)
      × ((request ctx buf out f r b m).bytes ≡ bytes_of (store_req buf (req_of f r b m)) 0 29)
      × ((request ctx buf out f r b m).ctx.requested ≡ true)
unfolding request
request-eq_ok ctx buf out f r b m h =
    let whole = bytes_of (store_req buf (req_of f r b m)) 0 29 in
    let s = send_all whole out in
    outcome_lem ctx (barred ctx f r b m) s.0 s.1 whole s.2 (send_all-IsPart whole out) h

barred_lem : (o q c d : Bool) → q ≡ true → o || q || c || d ≡ true
barred_lem true q c d h = refl
barred_lem false true c d h = refl
barred_lem false false c d h = cc

requested_lem :
    (ctx : Ctx) (buf : Buffer) (out : List Departure) (f r b m : ℕ)
    → ctx.requested ≡ true
    → (request ctx buf out f r b m).status ≡ failed
unfolding request
requested_lem ctx buf out f r b m h =
    let s = send_all (bytes_of (store_req buf (req_of f r b m)) 0 29) out in
    let guard =
      barred_lem (not ctx.open?) ctx.requested (not (m == mode_iq) && not (m == mode_fft))
        (m == mode_fft && (not (f == 0) || not (r == 0) || not (b == 0))) h in
    ap (λ g. (outcome ctx g s.0 s.1).status) guard

-- If rtlsdr_stream_request succeeds, with numbers that fit the fields, then the server decodes the
-- bytes that went out, whatever its buffers held, to that request and accepts it, and every later
-- request through the same context fails.
pub request-decode_req :
    (ctx : Ctx) (buf other stack : Buffer) (out next : List Departure) (old : Req)
    (f r b m f' r' b' m' : ℕ)
    → f < 2 ^ 64
    → r < 2 ^ 64
    → b < 2 ^ 64
    → m < 2 ^ 8
    → (request ctx buf out f r b m).status ≡ ok
    → let sent = request ctx buf out f r b m in
      (decode_req (some old) (some (fill other 0 sent.bytes)) ≡ (ok, some (req_of f r b m)))
      × ((request sent.ctx stack next f' r' b' m').status ≡ failed)
request-decode_req ctx buf other stack out next old f r b m f' r' b' m' hf hr hb hm h =
    let (allowed, whole, used) = request-eq_ok ctx buf out f r b m h in
    let req = req_of f r b m in
    let wire = store_req buf req in
    let fits : IsReq req = omega arith in
    (
      ap (λ bytes. decode_req (some old) (some (fill other 0 bytes))) whole
          ∙ decode-bytes_of_req (fill other 0 (bytes_of wire 0 29)) buf req old fits
              (valid_of ctx f r b m allowed)
              (λ j lt.
                ap (fill other 0 (bytes_of wire 0 29)) {x = j} {y = 0 + j} (omega arith)
                ∙ fill-bytes_of other wire 0 0 29 j lt
                ∙ ap wire (omega arith)),
      requested_lem (request ctx buf out f r b m).ctx stack next f' r' b' m' used,
    )
