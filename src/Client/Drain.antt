-- ===== src/Client/Drain.antt =====
-- A frame that is larger than the caller's room is read to its end.
use rtl_sdr.Prelude.{
  ℕ, zero, suc, ◌-◌, ◌*◌, ◌≤◌, ◌<◌, ◌≡◌, refl, ◌∙◌, ap, sym, arith, some, [], ◌∷◌, List, ◌++◌, min,
}
use rtl_sdr.Prelude.{length, take, drop, take-append-drop, length-take, length-drop, append_assoc}
use rtl_sdr.Prelude.{true, none, pos, ◌%◌, Buffer, bytes_of, length-bytes_of}
use rtl_sdr.Proto.{IqHdr, magic_iq, max_iq_components, encode_iq_hdr}
use rtl_sdr.Proto.Frames.{Reads, IsIqHdr, encode_iq_hdr-eq_some, encode_iq_hdr-Reads}
use rtl_sdr.Client.Iq.{read_iq-eq}
use rtl_sdr.Client.{Result, read_iq, read_iq_payload, Ctx, drain_loop, error_capacity, receive}
use rtl_sdr.Client.Header.{Holds, Agree-Reads, receive_lem, read_header_lem}

drain_loop_end : (fuel : ℕ) (ctx : Ctx) → drain_loop fuel ctx 0 ≡ (error_capacity, ctx)
unfolding drain_loop
drain_loop_end zero ctx = refl
drain_loop_end (suc fuel) ctx = refl

drain_loop_step :
    (fuel : ℕ) (ctx c1 : Ctx) (n : ℕ) (got : List ℕ)
    → receive ctx (min (suc n) 1024) ≡ some (got, c1)
    → drain_loop (suc fuel) ctx (suc n) ≡ drain_loop fuel c1 (suc n - min (suc n) 1024)
unfolding drain_loop
drain_loop_step fuel ctx c1 n got e = ground arith

Holds-split :
    (ctx : Ctx) (k : ℕ) (bytes rest : List ℕ)
    → Holds ctx (bytes ++ rest)
    → Holds ctx (take k bytes ++ (drop k bytes ++ rest))
Holds-split ctx k bytes rest h = record {
  is_open = h.is_open;
  live = h.live;
  coming =
      h.coming
      ∙ ap (λ t. t ++ rest) (sym (take-append-drop k bytes))
      ∙ append_assoc (take k bytes) (drop k bytes) rest;
}

-- With a round of fuel for each byte the loop reads all the bytes, and no more.
pub drain_loop_lem :
    (fuel : ℕ) (ctx : Ctx) (n : ℕ) (bytes rest : List ℕ)
    → n ≤ fuel
    → length bytes ≡ n
    → Holds ctx (bytes ++ rest)
    → (after : Ctx) × (drain_loop fuel ctx n ≡ (error_capacity, after)) × Holds after rest
drain_loop_lem fuel ctx zero [] rest enough e h = (ctx, drain_loop_end fuel ctx, h)
drain_loop_lem fuel ctx zero (b ∷ bytes) rest enough e h = absurd (omega arith)
drain_loop_lem zero ctx (suc n) bytes rest enough e h = absurd (omega arith)
drain_loop_lem (suc fuel) ctx (suc n) bytes rest enough e h =
    let k : ℕ = min (suc n) 1024 in
    let (c1, got, h1) =
      receive_lem ctx k (take k bytes) (drop k bytes ++ rest) (Holds-split ctx k bytes rest h)
        (omega (arith, length-take k bytes)) in
    let (c2, done, h2) =
      drain_loop_lem fuel c1 (suc n - k) (drop k bytes) rest (omega arith)
        (omega (arith, length-drop k bytes)) h1 in
    (c2, drain_loop_step fuel ctx c1 n (take k bytes) got ∙ done, h2)

read_iq_payload-drains :
    (ctx : Ctx) (got : Buffer) (hdr : IqHdr) (max : ℕ)
    → Reads got hdr.magic hdr.freq hdr.rate hdr.seq hdr.nsamples
    → hdr.nsamples ≤ max_iq_components
    → hdr.nsamples % 2 ≡ 0
    → max < hdr.nsamples
    → read_iq_payload ctx got max ≡ (
        let (result, c1) = drain_loop (hdr.nsamples * 2) ctx (hdr.nsamples * 2) in
        record { result = result; ctx = c1; hdr = hdr; samples = none })
unfolding read_iq_payload
read_iq_payload-drains ctx got hdr max h small even over =
    rw (h.count_at, h.magic_at, h.freq_at, h.rate_at, h.seq_at) (ground arith)

-- A frame whose header fits its types and is accepted by the server's encoder, with more samples
-- than the caller has room for, is reported as such with its header over a connection that
-- lasts, no sample is stored, and the connection stands right behind the frame, ready for the
-- next one.
pub read_iq-oversized :
    (hdr old : IqHdr) (hdr_buf wire body stack : Buffer) (max : ℕ) (ctx : Ctx) (rest : List ℕ)
    → IsIqHdr hdr
    → encode_iq_hdr (some hdr_buf) (some hdr) ≡ (some 32, some wire)
    → max < hdr.nsamples
    → Holds ctx (bytes_of wire 0 32 ++ (bytes_of body 0 (hdr.nsamples * 2) ++ rest))
    → (after : Ctx) × (read_iq ctx old true (pos max) stack
        ≡ record { result = error_capacity; ctx = after; hdr = hdr; samples = none })
      × Holds after rest
read_iq-oversized hdr old hdr_buf wire body stack max ctx rest fit header over holds =
    let (is_magic, small, even, _) = encode_iq_hdr-eq_some hdr_buf wire hdr header in
    let reads = encode_iq_hdr-Reads hdr_buf wire hdr fit header in
    let payload = bytes_of body 0 (hdr.nsamples * 2) in
    let (c1, got, read, holds1, same) =
      read_header_lem ctx stack wire magic_iq (payload ++ rest) holds (reads.magic_at ∙ is_magic)
        (omega arith) in
    let (c2, drained, holds2) =
      drain_loop_lem (hdr.nsamples * 2) c1 (hdr.nsamples * 2) payload rest (omega arith)
        (length-bytes_of body 0 (hdr.nsamples * 2)) holds1 in
    (
      c2,
      read_iq-eq ctx c1 old max stack got read
          ∙ read_iq_payload-drains c1 got hdr max
              (Agree-Reads got wire hdr.magic hdr.freq hdr.rate hdr.seq hdr.nsamples same reads)
              small even over
          ∙ ap (λ (t : Result × Ctx). record { result = t.0; ctx = t.1; hdr = hdr; samples = none })
              drained,
      holds2,
    )
