-- ===== src/Proto/Frames.antt =====
-- The data headers as they stand in the buffer, and when the encoders accept.
use rtl_sdr.Prelude.{ℕ, ◌%◌, ◌^◌, ◌≤◌, ◌<◌, ◌≡◌, ◌∙◌, inl, arith, some, List, ok}
use rtl_sdr.Prelude.{true, Buffer, ℤ}
use rtl_sdr.Wire.{get32, get64}
use rtl_sdr.Wire.Laws.{get32-put32, get32-put32_other, get64-put32_other}
use rtl_sdr.Wire.Header.{fields, get_magic, get_first, get_second, get_third}
use rtl_sdr.Proto.{FftHdr, encode_fft_hdr, encode_fft_payload, store_bins, magic_fft, max_fft_bins}
use rtl_sdr.Proto.{IqHdr, store_header, encode_iq_hdr, encode_iq_payload, store_samples}
use rtl_sdr.Proto.{magic_iq, max_iq_components}

-- The words of a data header.
pub record Reads (wire : Buffer) (magic freq rate seq count : ℕ) : Type 0 where
  pub magic_at : get32 wire 0 ≡ magic
  pub freq_at : get64 wire 4 ≡ freq
  pub rate_at : get64 wire 12 ≡ rate
  pub seq_at : get64 wire 20 ≡ seq
  pub count_at : get32 wire 28 ≡ count

module _ (buf : Buffer) (magic freq rate seq count : ℕ) where
  pub store_header-Reads :
      magic < 2 ^ 32
      → freq < 2 ^ 64
      → rate < 2 ^ 64
      → seq < 2 ^ 64
      → count < 2 ^ 32
      → Reads (store_header buf magic freq rate seq count) magic freq rate seq count
  unfolding store_header
  store_header-Reads hm hf hr hs hc = record {
    magic_at =
        get32-put32_other (fields buf magic freq rate seq) 28 0 count (inl (omega arith))
        ∙ get_magic buf magic freq rate seq hm;
    freq_at =
        get64-put32_other (fields buf magic freq rate seq) 28 4 count (inl (omega arith))
        ∙ get_first buf magic freq rate seq hf;
    rate_at =
        get64-put32_other (fields buf magic freq rate seq) 28 12 count (inl (omega arith))
        ∙ get_second buf magic freq rate seq hr;
    seq_at =
        get64-put32_other (fields buf magic freq rate seq) 28 20 count (inl (omega arith))
        ∙ get_third buf magic freq rate seq hs;
    count_at = get32-put32 (fields buf magic freq rate seq) 28 count hc;
  }

-- The fields are within their C types.
pub record IsIqHdr (hdr : IqHdr) : Type 0 where
  pub freq_fits : hdr.freq < 2 ^ 64
  pub rate_fits : hdr.rate < 2 ^ 64
  pub seq_fits : hdr.seq < 2 ^ 64

pub encode_iq_hdr-eq_some :
    (buf wire : Buffer) (hdr : IqHdr)
    → encode_iq_hdr (some buf) (some hdr) ≡ (some 32, some wire)
    → (hdr.magic ≡ magic_iq)
      × (hdr.nsamples ≤ max_iq_components)
      × (hdr.nsamples % 2 ≡ 0)
      × (wire ≡ store_header buf hdr.magic hdr.freq hdr.rate hdr.seq hdr.nsamples)
unfolding encode_iq_hdr
encode_iq_hdr-eq_some buf wire hdr e = (ground arith, ground arith, ground arith, ground arith)

pub encode_iq_hdr-Reads :
    (buf wire : Buffer) (hdr : IqHdr)
    → IsIqHdr hdr
    → encode_iq_hdr (some buf) (some hdr) ≡ (some 32, some wire)
    → Reads wire hdr.magic hdr.freq hdr.rate hdr.seq hdr.nsamples
encode_iq_hdr-Reads buf wire hdr fit e =
    let (is_magic, small, even, stored) = encode_iq_hdr-eq_some buf wire hdr e in
    rw stored (
      store_header-Reads buf hdr.magic hdr.freq hdr.rate hdr.seq hdr.nsamples (omega arith)
        fit.freq_fits fit.rate_fits fit.seq_fits (omega arith))

pub encode_iq_payload-eq_ok :
    (buf body : Buffer) (capacity : ℕ) (s : List ℤ) (count : ℕ)
    → encode_iq_payload (some buf) capacity (some s) count ≡ (ok, some body)
    → body ≡ store_samples count 0 s buf
unfolding encode_iq_payload
encode_iq_payload-eq_ok buf body capacity s count e = ground arith

pub record IsFftHdr (hdr : FftHdr) : Type 0 where
  pub freq_fits : hdr.freq < 2 ^ 64
  pub rate_fits : hdr.rate < 2 ^ 64
  pub seq_fits : hdr.seq < 2 ^ 64

pub encode_fft_hdr-eq_some :
    (buf wire : Buffer) (hdr : FftHdr)
    → encode_fft_hdr (some buf) (some hdr) ≡ (some 32, some wire)
    → (hdr.magic ≡ magic_fft)
      × (2 ≤ hdr.bins)
      × (hdr.bins ≤ max_fft_bins)
      × (wire ≡ store_header buf hdr.magic hdr.freq hdr.rate hdr.seq hdr.bins)
unfolding encode_fft_hdr
encode_fft_hdr-eq_some buf wire hdr e = (ground arith, ground arith, ground arith, ground arith)

pub encode_fft_hdr-Reads :
    (buf wire : Buffer) (hdr : FftHdr)
    → IsFftHdr hdr
    → encode_fft_hdr (some buf) (some hdr) ≡ (some 32, some wire)
    → Reads wire hdr.magic hdr.freq hdr.rate hdr.seq hdr.bins
encode_fft_hdr-Reads buf wire hdr fit e =
    let (is_magic, least, most, stored) = encode_fft_hdr-eq_some buf wire hdr e in
    rw stored (
      store_header-Reads buf hdr.magic hdr.freq hdr.rate hdr.seq hdr.bins (omega arith)
        fit.freq_fits fit.rate_fits fit.seq_fits (omega arith))

pub encode_fft_payload-eq_ok :
    (buf body : Buffer) (capacity : ℕ) (power : List ℕ) (count : ℕ)
    → encode_fft_payload true (some buf) capacity (some power) count ≡ (ok, some body)
    → body ≡ store_bins count 0 power buf
unfolding encode_fft_payload
encode_fft_payload-eq_ok buf body capacity power count e = ground arith
