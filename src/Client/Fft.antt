-- ===== src/Client/Fft.antt =====
-- A spectrum from the server's encoders to the bins that `rtlsdr_stream_read_fft` returns.
use rtl_sdr.Prelude.{ℕ, ◌*◌, ◌≤◌, ◌≡◌, ◌∙◌, ap, ap₂, arith, true, some, ok}
use rtl_sdr.Prelude.{List, ◌++◌, length, Buffer, bytes_of, length-bytes_of, fill, pos}
use rtl_sdr.Proto.{FftHdr, magic_fft, max_fft_bins, encode_fft_hdr, encode_fft_payload}
use rtl_sdr.Proto.Frames.{Reads, IsFftHdr, encode_fft_hdr-eq_some, encode_fft_hdr-Reads}
use rtl_sdr.Proto.Frames.{encode_fft_payload-eq_ok}
use rtl_sdr.Client.{Ctx, read_ok, receive, read_fft, read_fft_payload, read_header, load_bins}
use rtl_sdr.Client.Header.{Agree-Reads, Holds, receive_lem, read_header_lem}
use rtl_sdr.Client.Bins.{AllWords, load_bins-store_bins}

read_fft_payload-eq_ok :
    (ctx after : Ctx) (got : Buffer) (hdr : FftHdr) (max : ℕ) (bytes : List ℕ)
    → Reads got hdr.magic hdr.freq hdr.rate hdr.seq hdr.bins
    → 2 ≤ hdr.bins
    → hdr.bins ≤ max_fft_bins
    → hdr.bins ≤ max
    → receive ctx (hdr.bins * 4) ≡ some (bytes, after)
    → read_fft_payload ctx got max ≡ record {
      result = read_ok;
      ctx = after;
      hdr = hdr;
      power = some (load_bins hdr.bins 0 (fill (λ j. 0) 0 bytes));
    }
unfolding read_fft_payload
read_fft_payload-eq_ok ctx after got hdr max bytes h least most room received =
    rw (h.count_at, h.magic_at, h.freq_at, h.rate_at, h.seq_at) (ground arith)

read_fft-eq :
    (ctx after : Ctx) (old : FftHdr) (max : ℕ) (buf got : Buffer)
    → read_header ctx buf magic_fft ≡ (read_ok, after, got)
    → read_fft true ctx old true (pos max) buf ≡ read_fft_payload after got max
unfolding read_fft
read_fft-eq ctx after old max buf got e = ground arith

-- A header whose fields fit their types and as many bins of 32 bits as it counts, which the
-- server's encoders accept, sent one after the other over a connection that lasts and is cut
-- into chunks in any way, are what `rtlsdr_stream_read_fft` returns bit for bit where the caller
-- has room for the bins; what follows on the connection is left for later reads.
pub read_fft-encode :
    (hdr old : FftHdr) (power : List ℕ) (hdr_buf wire pay_buf body stack : Buffer)
    (capacity max : ℕ) (ctx : Ctx) (rest : List ℕ)
    → IsFftHdr hdr
    → AllWords power
    → hdr.bins ≡ length power
    → encode_fft_hdr (some hdr_buf) (some hdr) ≡ (some 32, some wire)
    → encode_fft_payload true (some pay_buf) capacity (some power) (length power) ≡ (ok, some body)
    → length power ≤ max
    → Holds ctx (bytes_of wire 0 32 ++ (bytes_of body 0 (length power * 4) ++ rest))
    → (after : Ctx) × (read_fft true ctx old true (pos max) stack
        ≡ record { result = read_ok; ctx = after; hdr = hdr; power = some power })
      × Holds after rest
read_fft-encode hdr old power hdr_buf wire pay_buf body stack capacity max ctx rest fit words count
      header payload room holds =
    let (is_magic, least, most, _) = encode_fft_hdr-eq_some hdr_buf wire hdr header in
    let reads = encode_fft_hdr-Reads hdr_buf wire hdr fit header in
    let stored = encode_fft_payload-eq_ok pay_buf body capacity power (length power) payload in
    let (c1, got, read, holds1, same) =
      read_header_lem ctx stack wire magic_fft (bytes_of body 0 (length power * 4) ++ rest) holds
        (reads.magic_at ∙ is_magic) (omega arith) in
    let (c2, received, holds2) =
      receive_lem c1 (length power * 4) (bytes_of body 0 (length power * 4)) rest holds1
        (length-bytes_of body 0 (length power * 4)) in
    (
      c2,
      read_fft-eq ctx c1 old max stack got read
          ∙ read_fft_payload-eq_ok c1 c2 got hdr max (bytes_of body 0 (length power * 4))
              (Agree-Reads got wire hdr.magic hdr.freq hdr.rate hdr.seq hdr.bins same reads) least
              most (omega arith) (ap (λ n. receive c1 (n * 4)) count ∙ received)
          ∙ ap (λ t. record { result = read_ok; ctx = c2; hdr = hdr; power = some t })
              (ap₂ (λ n b. load_bins n 0 (fill (λ j. 0) 0 (bytes_of b 0 (length power * 4)))) count
                  stored
                ∙ load_bins-store_bins power pay_buf words),
      holds2,
    )
