-- ===== src/Client/Iq.antt =====
-- A frame from the server's encoders to the samples that `rtlsdr_stream_read_iq` returns.
use rtl_sdr.Prelude.{ℕ, ◌+◌, ◌*◌, ◌%◌, ◌≤◌, ◌≡◌, ◌∙◌, ap, ap₂, arith, true, some, ok}
use rtl_sdr.Prelude.{
  List, ◌++◌, length, Buffer, bytes_of, length-bytes_of, fill, fill-bytes_of, ℤ, pos,
}
use rtl_sdr.Proto.{
  IqHdr, magic_iq, max_iq_components, encode_iq_hdr, encode_iq_payload, store_samples,
}
use rtl_sdr.Proto.Frames.{
  Reads, IsIqHdr, encode_iq_hdr-eq_some, encode_iq_hdr-Reads, encode_iq_payload-eq_ok,
}
use rtl_sdr.Client.{Ctx, read_ok, receive, read_iq, read_iq_payload, read_header, load_samples}
use rtl_sdr.Client.Header.{Agree-Reads, Holds, receive_lem, read_header_lem}
use rtl_sdr.Client.Samples.{AllInt16, load_samples_lem, store_samples_at}

-- The bytes of the payload, filled in at the client, load as the samples.
load_samples-store_samples :
    (s : List ℤ) (buf : Buffer)
    → AllInt16 s
    → load_samples
        (length s)
        0
        (fill (λ j. 0) 0 (bytes_of (store_samples (length s) 0 s buf) 0 (length s * 2)))
      ≡ s
load_samples-store_samples s buf fit =
    load_samples_lem s 0 (fill (λ j. 0) 0 (bytes_of body 0 (length s * 2))) fit λ j lt.
      let (hi, lo) = store_samples_at (length s) 0 s buf j (omega arith) (omega arith) in
      (
        ap (fill (λ k. 0) 0 (bytes_of body 0 (length s * 2))) (omega arith)
            ∙ fill-bytes_of (λ k. 0) body 0 0 (length s * 2) (2 * j) (omega arith)
            ∙ ap body (omega arith)
            ∙ hi,
        ap (fill (λ k. 0) 0 (bytes_of body 0 (length s * 2))) (omega arith)
            ∙ fill-bytes_of (λ k. 0) body 0 0 (length s * 2) (2 * j + 1) (omega arith)
            ∙ ap body (omega arith)
            ∙ lo,
      )
  where
    body : Buffer
    body = store_samples (length s) 0 s buf

read_iq_payload-eq_ok :
    (ctx after : Ctx) (got : Buffer) (hdr : IqHdr) (max : ℕ) (bytes : List ℕ)
    → Reads got hdr.magic hdr.freq hdr.rate hdr.seq hdr.nsamples
    → hdr.nsamples ≤ max_iq_components
    → hdr.nsamples % 2 ≡ 0
    → hdr.nsamples ≤ max
    → receive ctx (hdr.nsamples * 2) ≡ some (bytes, after)
    → read_iq_payload ctx got max ≡ record {
      result = read_ok;
      ctx = after;
      hdr = hdr;
      samples = some (load_samples hdr.nsamples 0 (fill (λ j. 0) 0 bytes));
    }
unfolding read_iq_payload
read_iq_payload-eq_ok ctx after got hdr max bytes h small even room received =
    rw (h.count_at, h.magic_at, h.freq_at, h.rate_at, h.seq_at) (ground arith)

pub read_iq-eq :
    (ctx after : Ctx) (old : IqHdr) (max : ℕ) (buf got : Buffer)
    → read_header ctx buf magic_iq ≡ (read_ok, after, got)
    → read_iq ctx old true (pos max) buf ≡ read_iq_payload after got max
unfolding read_iq
read_iq-eq ctx after old max buf got e = ground arith

-- A header whose fields fit their types and as many 16-bit samples as it counts, which the
-- server's encoders accept, sent one after the other over a connection that lasts and is cut
-- into chunks in any way, are what `rtlsdr_stream_read_iq` returns where the caller has room for
-- the samples; what follows on the connection is left for later reads.
pub read_iq-encode :
    (hdr old : IqHdr) (s : List ℤ) (hdr_buf wire pay_buf body stack : Buffer) (capacity max : ℕ)
    (ctx : Ctx) (rest : List ℕ)
    → IsIqHdr hdr
    → AllInt16 s
    → hdr.nsamples ≡ length s
    → encode_iq_hdr (some hdr_buf) (some hdr) ≡ (some 32, some wire)
    → encode_iq_payload (some pay_buf) capacity (some s) (length s) ≡ (ok, some body)
    → length s ≤ max
    → Holds ctx (bytes_of wire 0 32 ++ (bytes_of body 0 (length s * 2) ++ rest))
    → (after : Ctx) × (read_iq ctx old true (pos max) stack
        ≡ record { result = read_ok; ctx = after; hdr = hdr; samples = some s })
      × Holds after rest
read_iq-encode hdr old s hdr_buf wire pay_buf body stack capacity max ctx rest fit ints count header
      payload room holds =
    let (is_magic, small, even, _) = encode_iq_hdr-eq_some hdr_buf wire hdr header in
    let reads = encode_iq_hdr-Reads hdr_buf wire hdr fit header in
    let stored = encode_iq_payload-eq_ok pay_buf body capacity s (length s) payload in
    let (c1, got, read, holds1, same) =
      read_header_lem ctx stack wire magic_iq (bytes_of body 0 (length s * 2) ++ rest) holds
        (reads.magic_at ∙ is_magic) (omega arith) in
    let (c2, received, holds2) =
      receive_lem c1 (length s * 2) (bytes_of body 0 (length s * 2)) rest holds1
        (length-bytes_of body 0 (length s * 2)) in
    (
      c2,
      read_iq-eq ctx c1 old max stack got read
          ∙ read_iq_payload-eq_ok c1 c2 got hdr max (bytes_of body 0 (length s * 2))
              (Agree-Reads got wire hdr.magic hdr.freq hdr.rate hdr.seq hdr.nsamples same reads)
              small even (omega arith) (ap (λ n. receive c1 (n * 2)) count ∙ received)
          ∙ ap (λ t. record { result = read_ok; ctx = c2; hdr = hdr; samples = some t })
              (ap₂ (λ n b. load_samples n 0 (fill (λ j. 0) 0 (bytes_of b 0 (length s * 2)))) count
                  stored
                ∙ load_samples-store_samples s pay_buf ints),
      holds2,
    )
