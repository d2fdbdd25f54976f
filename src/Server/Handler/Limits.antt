-- ===== src/Server/Handler/Limits.antt =====
-- The checks of `rtlsdr_server_init` keep the frames within the limits of the protocol.
use rtl_sdr.Prelude.{
  ℕ, ◌*◌, ◌%◌, ◌≤◌, ◌≡◌, arith, true, false, not, ◌||◌, ltb, ◌==◌, if_false, some, List, length,
  u32, ℤ, Buffer, ok,
}
use rtl_sdr.Proto.{
  magic_iq, max_iq_components, store_header, store_samples, encode_iq_hdr, encode_iq_payload,
}
use native.Mathlib.Nat.{mod-eq_of_lt}
use rtl_sdr.Dsp.Filter.{Floats, State, process}
use rtl_sdr.Dsp.Filter.Tick.{IsReady}
use rtl_sdr.Dsp.Filter.Stream.{length-process}
use rtl_sdr.Dsp.Filter.Even.{process_even}
use rtl_sdr.Server.Handler.{Channel, iq_header, init_accepts}

init_limit :
    (size iq fft freq rate : ℕ)
    → init_accepts size iq fft freq rate ≡ true
    → size ≤ max_iq_components
unfolding init_accepts
init_limit size iq fft freq rate h = ground arith

header_lem :
    (n : ℕ)
    → n % 2 ≡ 0
    → n ≤ max_iq_components
    → ltb max_iq_components n || not (n % 2 == 0) ≡ false
header_lem n even limit = ground arith

payload_lem :
    (n capacity : ℕ)
    → n % 2 ≡ 0
    → n ≤ max_iq_components
    → n ≤ capacity
    → ltb max_iq_components n || not (n % 2 == 0) || ltb (capacity * 2) (n * 2) || false || false
      ≡ false
payload_lem n capacity even limit room = ground arith

-- A count that is even and within the limit passes the two encoders.
encoders_accept :
    (ch : Channel) (seq : ℕ) (out : List ℤ) (hdr wire : Buffer)
    → length out % 2 ≡ 0
    → length out ≤ ch.capacity
    → ch.capacity ≤ max_iq_components
    → (h : Buffer) × (w : Buffer) × (encode_iq_hdr (some hdr) (some (iq_header ch seq (length out)))
        ≡ (some 32, some h))
      × (encode_iq_payload (some wire) (ch.capacity * 2) (some out) (length out) ≡ (ok, some w))
unfolding encode_iq_hdr encode_iq_payload
encoders_accept ch seq out hdr wire even room limit =
    let n = length out in
    let same : u32 n ≡ n = mod-eq_of_lt (omega (arith, room, limit)) in
    (
      store_header hdr magic_iq ch.freq ch.rate seq (u32 n),
      store_samples n 0 out wire,
      if_false (ltb max_iq_components (u32 n) || not (u32 n % 2 == 0)) _ _
          (header_lem (u32 n) (omega (arith, same, even)) (omega (arith, same, room, limit))),
      if_false
          (ltb max_iq_components n
            || not (n % 2 == 0)
            || ltb (ch.capacity * 2) (n * 2)
            || false
            || false)
          _ _ (payload_lem n ch.capacity even (omega arith) room),
    )

-- With a ring that rtlsdr_server_init accepts, the samples that rtlsdr_dsp_process gives for a slot of
-- whole samples, from a filter whose first stage has its counter below its decimation, always
-- pass the two encoders, whatever the number of the frame and the buffers of iq_client_handler.
pub encode-process :
    (fl : Floats) (ch : Channel) (d : State fl) (bytes : List ℕ) (iq fft freq rate seq : ℕ)
    (hdr wire : Buffer)
    → init_accepts ch.capacity iq fft freq rate ≡ true
    → IsReady d
    → length bytes % 2 ≡ 0
    → length bytes ≤ ch.capacity
    → let out = (process fl d bytes ch.capacity).2 in
      (h : Buffer) × (w : Buffer) × (encode_iq_hdr (some hdr) (some (iq_header ch seq (length out)))
        ≡ (some 32, some h))
      × (encode_iq_payload (some wire) (ch.capacity * 2) (some out) (length out) ≡ (ok, some w))
encode-process fl ch d bytes iq fft freq rate seq hdr wire accepted r even room =
    encoders_accept ch seq (process fl d bytes ch.capacity).2 hdr wire
      (process_even fl d bytes ch.capacity r even room)
      (length-process fl d bytes ch.capacity r even room).0
      (init_limit ch.capacity iq fft freq rate accepted)
