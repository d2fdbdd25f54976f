-- ===== src/Proto/Request.antt =====
-- Requests: what one side encodes is what the other decodes, and only that.
use rtl_sdr.Prelude.{ℕ, ◌^◌, ◌≤◌, ◌<◌, ◌≡◌, refl, true, some, arith}
use rtl_sdr.Prelude.{ok, Buffer}
use rtl_sdr.Proto.{Req, valid_req, store_req, load_req, encode_req, decode_req}
use rtl_sdr.Prelude.{◌+◌, ◌∙◌, ap, failed, if◌then◌else◌}
use rtl_sdr.Wire.{get32, get64}
use rtl_sdr.Wire.Laws.{get32_cong, get64_cong}
use rtl_sdr.Wire.Header.{get_magic, get_first, get_second, get_third, fields_other}

-- The fields are within their C types.
pub record IsReq (req : Req) : Type 0 where
  pub magic_fits : req.magic < 2 ^ 32
  pub freq_fits : req.freq < 2 ^ 64
  pub rate_fits : req.rate < 2 ^ 64
  pub bandwidth_fits : req.bandwidth < 2 ^ 64
  pub mode_fits : req.mode < 2 ^ 8

load_req-store_req : (buf : Buffer) (req : Req) → IsReq req → load_req (store_req buf req) ≡ req
unfolding load_req store_req get32 get64
load_req-store_req buf req h = ground (
  arith,
  get_magic buf req.magic req.freq req.rate req.bandwidth h.magic_fits,
  get_first buf req.magic req.freq req.rate req.bandwidth h.freq_fits,
  get_second buf req.magic req.freq req.rate req.bandwidth h.rate_fits,
  get_third buf req.magic req.freq req.rate req.bandwidth h.bandwidth_fits,
)

store_req_other : (buf : Buffer) (req : Req) (j : ℕ) → 29 ≤ j → store_req buf req j ≡ buf j
unfolding store_req
store_req_other buf req j h =
    ground (arith, fields_other buf req.magic req.freq req.rate req.bandwidth j)

-- A valid request whose fields are within their types is encoded in 29 bytes, leaves the bytes behind
-- them alone, and is decoded to itself, whatever the output held.
pub decode-encode_req :
    (buf : Buffer) (req out : Req)
    → IsReq req
    → valid_req req ≡ true
    → (sent : Buffer) × (encode_req (some buf) (some req) ≡ (some 29, some sent))
      × (decode_req (some out) (some sent) ≡ (ok, some req))
      × ((j : ℕ) → 29 ≤ j → sent j ≡ buf j)
unfolding encode_req decode_req
decode-encode_req buf req out h valid = (
  store_req buf req,
  rw valid refl,
  rw (load_req-store_req buf req h, valid) refl,
  store_req_other buf req,
)

-- `load_req` reads the first 29 bytes only.
load_req_cong : (a b : Buffer) → ((j : ℕ) → j < 29 → a j ≡ b j) → load_req a ≡ load_req b
unfolding load_req
load_req_cong a b same = ground (
  arith,
  get32_cong a b 0 0 (λ j lt. same (0 + j) (omega arith)),
  get64_cong a b 4 4 (λ j lt. same (4 + j) (omega arith)),
  get64_cong a b 12 12 (λ j lt. same (12 + j) (omega arith)),
  get64_cong a b 20 20 (λ j lt. same (20 + j) (omega arith)),
  same 28 (omega arith),
)

-- A buffer that begins with the bytes of a valid request is decoded to it.
pub decode-bytes_of_req :
    (got buf : Buffer) (req out : Req)
    → IsReq req
    → valid_req req ≡ true
    → ((j : ℕ) → j < 29 → got j ≡ store_req buf req j)
    → decode_req (some out) (some got) ≡ (ok, some req)
unfolding decode_req
decode-bytes_of_req got buf req out h valid same =
    ap (λ r. (if valid_req r then ok else failed, some r))
      (load_req_cong got (store_req buf req) same ∙ load_req-store_req buf req h)
    ∙ ap (λ v. (if v then ok else failed, some req)) valid
