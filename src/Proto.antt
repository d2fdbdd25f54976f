-- ===== src/Proto.antt =====
-- src/rtl_stream_proto.c and src/rtl_stream_proto.h: the encoders of RTLSTREAM/2 frames and the
-- decoder of requests. A null pointer is `none`; a result of -1 is `none` too, where the other
-- results are sizes.
pub mod Request
pub mod Frames
use rtl_sdr.Prelude.{ℕ, zero, suc, ◌+◌, ◌*◌, ◌%◌, Bool, not, ◌&&◌, ◌||◌, Option, none, some, List}
use rtl_sdr.Prelude.{ltb, ◌==◌, if◌then◌else◌, is_none, Status, ok, failed, get_or, u8, u16, ◌>>>◌}
use rtl_sdr.Prelude.{Buffer, store, ℤ, pos, cast_u16}
use rtl_sdr.Wire.{put32, put64, get32, get64}

abbrev pub magic_req : ℕ
magic_req = 0x52543252

abbrev pub magic_iq : ℕ
magic_iq = 0x52543249

abbrev pub magic_fft : ℕ
magic_fft = 0x52543246

abbrev pub magic_evt : ℕ
magic_evt = 0x52543245

abbrev pub mode_iq : ℕ
mode_iq = 0

abbrev pub mode_fft : ℕ
mode_fft = 1

abbrev pub evt_freq_change : ℕ
evt_freq_change = 1

abbrev pub evt_stream_end : ℕ
evt_stream_end = 2

abbrev pub max_iq_components : ℕ
max_iq_components = 262144

abbrev pub max_fft_bins : ℕ
max_fft_bins = 65536

-- `struct rtlsdr_stream_req`
pub record Req : Type 0 where
  pub magic : ℕ
  pub freq : ℕ
  pub rate : ℕ
  pub bandwidth : ℕ
  pub mode : ℕ

-- `struct rtlsdr_stream_iq_hdr`
pub record IqHdr : Type 0 where
  pub magic : ℕ
  pub freq : ℕ
  pub rate : ℕ
  pub seq : ℕ
  pub nsamples : ℕ

-- `struct rtlsdr_stream_fft_hdr`
pub record FftHdr : Type 0 where
  pub magic : ℕ
  pub freq : ℕ
  pub rate : ℕ
  pub seq : ℕ
  pub bins : ℕ

unfoldable pub valid_req : Req → Bool
valid_req req =
    req.magic == magic_req
    && (req.mode == mode_iq
        || req.mode == mode_fft && req.freq == 0 && req.rate == 0 && req.bandwidth == 0)

-- The bytes of a request, as `rtlsdr_stream_encode_req` stores them.
pub store_req : Buffer → Req → Buffer
store_req buf req =
    let b0 = put32 buf 0 req.magic in
    let b1 = put64 b0 4 req.freq in
    let b2 = put64 b1 12 req.rate in let b3 = put64 b2 20 req.bandwidth in store b3 28 req.mode

-- `rtlsdr_stream_encode_req`
pub encode_req : Option Buffer → Option Req → Option ℕ × Option Buffer
encode_req (some buf) (some req) =
    if not (valid_req req) then (none, some buf) else (some 29, some (store_req buf req))
encode_req buf req = (none, buf)

-- The fields that `rtlsdr_stream_decode_req` reads.
pub load_req : Buffer → Req
load_req buf = record {
  magic = get32 buf 0;
  freq = get64 buf 4;
  rate = get64 buf 12;
  bandwidth = get64 buf 20;
  mode = buf 28;
}

-- `rtlsdr_stream_decode_req`: the fields are written whether or not the request is valid.
pub decode_req : Option Req → Option Buffer → Status × Option Req
decode_req (some req) (some buf) =
    let req' = load_req buf in ((if valid_req req' then ok else failed), some req')
decode_req req buf = (failed, req)

-- The common shape of the two data headers.
unfoldable pub store_header : Buffer → ℕ → ℕ → ℕ → ℕ → ℕ → Buffer
store_header buf magic freq rate seq count =
    let b0 = put32 buf 0 magic in
    let b1 = put64 b0 4 freq in
    let b2 = put64 b1 12 rate in let b3 = put64 b2 20 seq in put32 b3 28 count

-- `rtlsdr_stream_encode_iq_hdr`
unfoldable pub encode_iq_hdr : Option Buffer → Option IqHdr → Option ℕ × Option Buffer
encode_iq_hdr (some buf) (some hdr) =
    if not (hdr.magic == magic_iq)
      || ltb max_iq_components hdr.nsamples
      || not (hdr.nsamples % 2 == 0)
    then (none, some buf)
    else (some 32, some (store_header buf hdr.magic hdr.freq hdr.rate hdr.seq hdr.nsamples))
encode_iq_hdr buf hdr = (none, buf)

-- `rtlsdr_stream_encode_fft_hdr`
unfoldable pub encode_fft_hdr : Option Buffer → Option FftHdr → Option ℕ × Option Buffer
encode_fft_hdr (some buf) (some hdr) =
    if not (hdr.magic == magic_fft) || ltb hdr.bins 2 || ltb max_fft_bins hdr.bins
    then (none, some buf)
    else (some 32, some (store_header buf hdr.magic hdr.freq hdr.rate hdr.seq hdr.bins))
encode_fft_hdr buf hdr = (none, buf)

-- `rtlsdr_stream_encode_evt`
unfoldable pub encode_evt : Option Buffer → ℕ → ℕ → Option ℕ × Option Buffer
encode_evt (some buf) type freq =
    if not (type == evt_freq_change) && not (type == evt_stream_end)
    then (none, some buf)
    else (let b0 = put32 buf 0 magic_evt in
        let b1 = put32 b0 4 type in
        if type == evt_freq_change then (some 16, some (put64 b1 8 freq)) else (some 8, some b1))
encode_evt none type freq = (none, none)

-- The loop of `rtlsdr_stream_encode_iq_payload`, with `left` rounds to go from index `i`.
unfoldable pub store_samples : ℕ → ℕ → List ℤ → Buffer → Buffer
store_samples zero i samples dst = dst
store_samples (suc left) i samples dst =
    let value = cast_u16 (get_or samples i (pos 0)) in
    let d1 = store dst (2 * i) (u8 (value >>> 8)) in
    let d2 = store d1 (2 * i + 1) (u8 value) in store_samples left (i + 1) samples d2

-- `rtlsdr_stream_encode_iq_payload`
unfoldable pub encode_iq_payload : Option Buffer → ℕ → Option (List ℤ) → ℕ → Status × Option Buffer
encode_iq_payload dst capacity samples count =
    if ltb max_iq_components count
      || not (count % 2 == 0)
      || ltb capacity (count * 2)
      || is_none dst && not (count == 0)
      || is_none samples && not (count == 0)
    then (failed, dst)
    else (
      ok,
      elim dst [
        | none ↦ none
        | some d ↦ some (elim samples [ none ↦ d | some s ↦ store_samples count 0 s d ])
      ],
    )

-- The loop of `rtlsdr_stream_encode_fft_payload`. A `float` is its 32 bits.
unfoldable pub store_bins : ℕ → ℕ → List ℕ → Buffer → Buffer
store_bins zero i power dst = dst
store_bins (suc left) i power dst =
    store_bins left (i + 1) power (put32 dst (4 * i) (get_or power i 0))

-- `rtlsdr_stream_encode_fft_payload`; the tests of the platform's `float` hold on IEEE machines.
unfoldable pub encode_fft_payload :
    Bool → Option Buffer → ℕ → Option (List ℕ) → ℕ → Status × Option Buffer
encode_fft_payload ieee (some dst) capacity (some power) count =
    if ltb count 2 || ltb max_fft_bins count || ltb capacity (count * 4) || not ieee
    then (failed, some dst)
    else (ok, some (store_bins count 0 power dst))
encode_fft_payload ieee dst capacity power count = (failed, dst)
