-- ===== src/Client.antt =====
-- stream_client/c/client.c: the reader of RTLSTREAM/2 frames over a TCP socket.
pub mod Arrivals
pub mod Header
pub mod Samples
pub mod Iq
pub mod Bins
pub mod Fft
pub mod Drain
pub mod Request
pub mod Sending
pub mod Tests
use rtl_sdr.Prelude.{ℕ, zero, suc, ◌+◌, ◌-◌, ◌*◌, ◌%◌, Bool, true, false, not, ◌&&◌, ◌||◌}
use rtl_sdr.Prelude.{
  Option, none, some, List, [], ◌∷◌, ◌++◌, ltb, leb, ◌==◌, if◌then◌else◌, is_none,
}
use rtl_sdr.Prelude.{
  length, take, drop, min, bit_or, u32, ◌<<<◌, Buffer, fill, ℤ, pos, negsuc, sub_ℕ,
}
use rtl_sdr.Wire.{get32, get64}
use rtl_sdr.Proto.{IqHdr, FftHdr, magic_iq, magic_fft, magic_evt, evt_freq_change, evt_stream_end}
use rtl_sdr.Proto.{max_iq_components, max_fft_bins}

-- What the calls of `recv` meet, in order: an interruption (EINTR), a failure, and bytes that have
-- arrived together. An empty chunk and the end of the list are the peer's close.
pub data Arrival : Type 0 where
  interrupted broken : Arrival
  chunk : List ℕ → Arrival

-- `recv_all`: a `recv` takes no more bytes than are left to read.
pub recv_all : ℕ → List Arrival → Option (List ℕ × List Arrival)
recv_all zero arrivals = some ([], arrivals)
recv_all (suc left) [] = none
recv_all (suc left) (interrupted ∷ arrivals) = recv_all (suc left) arrivals
recv_all (suc left) (broken ∷ arrivals) = none
recv_all (suc left) (chunk [] ∷ arrivals) = none
recv_all (suc left) (chunk (b ∷ bs) ∷ arrivals) =
    let rest = recv_all (left - length bs) arrivals in
    if leb (length bs) left
    then elim rest [ none ↦ none | some (more, after) ↦ some ((b ∷ bs) ++ more, after) ]
    else some (take (suc left) (b ∷ bs), chunk (drop (suc left) (b ∷ bs)) ∷ arrivals)

-- `struct rtlsdr_stream_ctx`: `open` is `fd >= 0`. The arrivals are the socket's.
pub record Ctx : Type 0 where
  pub open? : Bool
  pub requested : Bool
  pub event_type : ℕ
  pub event_freq : ℕ
  pub arrivals : List Arrival

-- `recv_all` at a context: on a closed descriptor only an empty read succeeds.
unfoldable pub receive : Ctx → ℕ → Option (List ℕ × Ctx)
receive ctx n =
    let got = recv_all n ctx.arrivals in
    if ctx.open? || n == 0
    then elim got [
      | none ↦ none
      | some (bytes, after) ↦ some (bytes, record ctx { arrivals = after })
    ]
    else none

-- The results of the reading functions.
pub data Result : Type 0 where
  read_ok read_event error error_capacity : Result

-- `fail`
abbrev pub close : Ctx → Ctx
close ctx = record ctx { open? = false }

-- The context, and the buffer that the header is read into.
abbrev pub Header : Type 0
Header = Result × Ctx × Buffer

-- `read_header` from the magic number of an event on.
pub read_event_header : Ctx → Buffer → Header
read_event_header ctx buf = elim (receive ctx 4) [
  | none ↦ (error, close ctx, buf)
  | some (bytes, c1) ↦
      (let b1 = fill buf 4 bytes in
        let type = get32 b1 4 in
        let c2 = record c1 { event_type = type; event_freq = 0 } in
        if not (type == evt_freq_change) && not (type == evt_stream_end)
        then (error, close c1, b1)
        else if type == evt_freq_change
        then elim (receive c2 8) [
          | none ↦ (error, close c2, b1)
          | some (bytes', c3) ↦
              (let b2 = fill b1 8 bytes' in (read_event, record c3 { event_freq = get64 b2 8 }, b2))
        ]
        else (read_event, close c2, b1))
]

-- `read_header`
pub read_header : Ctx → Buffer → ℕ → Header
read_header ctx buf magic = elim (receive ctx 4) [
  | none ↦ (error, close ctx, buf)
  | some (bytes, c1) ↦
      (let b1 = fill buf 0 bytes in
        if get32 b1 0 == magic_evt
        then read_event_header c1 b1
        else if not (get32 b1 0 == magic)
        then (error, close c1, b1)
        else elim (receive c1 28) [
          | none ↦ (error, close c1, b1)
          | some (bytes', c2) ↦ (read_ok, c2, fill b1 4 bytes')
        ])
]

-- `drain`: at most 1024 bytes at a time, with fuel.
pub drain_loop : ℕ → Ctx → ℕ → Result × Ctx
drain_loop fuel ctx zero = (error_capacity, ctx)
drain_loop zero ctx (suc bytes) = (error, ctx)
drain_loop (suc fuel) ctx (suc bytes) =
    let n = min (suc bytes) 1024 in
    elim (receive ctx n) [
      | none ↦ (error, close ctx)
      | some (got, c1) ↦ drain_loop fuel c1 (suc bytes - n)
    ]

-- Each round takes at least one byte.
abbrev pub drain : Ctx → ℕ → Result × Ctx
drain ctx bytes = drain_loop bytes ctx bytes

-- The value of `samples[i]` after its two bytes, most significant first, have been put together.
pub sample_of : Buffer → ℕ → ℤ
sample_of bytes i =
    let value = bit_or (u32 (bytes (2 * i) <<< 8)) (bytes (2 * i + 1)) in
    if ltb value 32768 then pos value else sub_ℕ value 65536

-- The loop over the samples: each round reads only the two bytes that it replaces.
pub load_samples : ℕ → ℕ → Buffer → List ℤ
load_samples zero i bytes = []
load_samples (suc left) i bytes = sample_of bytes i ∷ load_samples left (i + 1) bytes

-- What a call of `rtlsdr_stream_read_iq` leaves: the header, and the samples from index 0 on, if it
-- stored any.
pub record IqRead : Type 0 where
  pub result : Result
  pub ctx : Ctx
  pub hdr : IqHdr
  pub samples : Option (List ℤ)

-- `rtlsdr_stream_read_iq` after `read_header` has returned READ_OK with the 32 bytes of `buf`.
pub read_iq_payload : Ctx → Buffer → ℕ → IqRead
read_iq_payload ctx buf max =
    if ltb max_iq_components n || not (n % 2 == 0)
    then record { result = error; ctx = close ctx; hdr = hdr; samples = none }
    else if ltb max n
    then (let (result, c1) = drain ctx (n * 2) in
        record { result = result; ctx = c1; hdr = hdr; samples = none })
    else elim (receive ctx (n * 2)) [
      | none ↦ record { result = error; ctx = close ctx; hdr = hdr; samples = none }
      | some (bytes, c1) ↦ record {
        result = read_ok;
        ctx = c1;
        hdr = hdr;
        samples = some (load_samples n 0 (fill (λ j. 0) 0 bytes));
      }
    ]
  where
    n : ℕ
    n = get32 buf 28

    hdr : IqHdr
    hdr = record {
      magic = get32 buf 0;
      freq = get64 buf 4;
      rate = get64 buf 12;
      seq = get64 buf 20;
      nsamples = n;
    }

-- `rtlsdr_stream_read_iq` at a context and a header; `samples?` says that `samples` is not null, and
-- `buf` is what the stack held.
pub read_iq : Ctx → IqHdr → Bool → ℤ → Buffer → IqRead
read_iq ctx hdr samples? (negsuc m) buf = record {
  result = error;
  ctx = ctx;
  hdr = hdr;
  samples = none;
}
read_iq ctx hdr samples? (pos max) buf =
    if not samples? && not (max == 0)
    then record { result = error; ctx = ctx; hdr = hdr; samples = none }
    else (let (result, c1, b1) = read_header ctx buf magic_iq in
        elim result [
          | read_ok ↦ read_iq_payload c1 b1 max
          | other ↦ record { result = other; ctx = c1; hdr = hdr; samples = none }
        ])

-- The loop of `rtlsdr_stream_read_fft` over the bins: a `float` is its 32 bits.
pub load_bins : ℕ → ℕ → Buffer → List ℕ
load_bins zero i bytes = []
load_bins (suc left) i bytes = get32 bytes (4 * i) ∷ load_bins left (i + 1) bytes

pub record FftRead : Type 0 where
  pub result : Result
  pub ctx : Ctx
  pub hdr : FftHdr
  pub power : Option (List ℕ)

-- `rtlsdr_stream_read_fft` after `read_header` has returned READ_OK with the 32 bytes of `buf`.
pub read_fft_payload : Ctx → Buffer → ℕ → FftRead
read_fft_payload ctx buf max =
    if ltb n 2 || ltb max_fft_bins n
    then record { result = error; ctx = close ctx; hdr = hdr; power = none }
    else if ltb max n
    then (let (result, c1) = drain ctx (n * 4) in
        record { result = result; ctx = c1; hdr = hdr; power = none })
    else elim (receive ctx (n * 4)) [
      | none ↦ record { result = error; ctx = close ctx; hdr = hdr; power = none }
      | some (bytes, c1) ↦ record {
        result = read_ok;
        ctx = c1;
        hdr = hdr;
        power = some (load_bins n 0 (fill (λ j. 0) 0 bytes));
      }
    ]
  where
    n : ℕ
    n = get32 buf 28

    hdr : FftHdr
    hdr = record {
      magic = get32 buf 0;
      freq = get64 buf 4;
      rate = get64 buf 12;
      seq = get64 buf 20;
      bins = n;
    }

-- `rtlsdr_stream_read_fft` at a context and a header; `ieee` says that the platform's `float` passes
-- the tests of its format.
pub read_fft : Bool → Ctx → FftHdr → Bool → ℤ → Buffer → FftRead
read_fft ieee ctx hdr power? (negsuc m) buf = record {
  result = error;
  ctx = ctx;
  hdr = hdr;
  power = none;
}
read_fft ieee ctx hdr power? (pos max) buf =
    if not power? && not (max == 0) || not ieee
    then record { result = error; ctx = ctx; hdr = hdr; power = none }
    else (let (result, c1, b1) = read_header ctx buf magic_fft in
        elim result [
          | read_ok ↦ read_fft_payload c1 b1 max
          | other ↦ record { result = other; ctx = c1; hdr = hdr; power = none }
        ])
