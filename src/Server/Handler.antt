-- ===== src/Server/Handler.antt =====
-- The worker of a client in src/rtl_stream_server.c: `client_current`, `client_handler` and the loops
-- of `iq_client_handler` and `fft_client_handler`. What the worker finds in the memory that it shares
-- with the other threads, and what the socket answers, is an argument.
pub mod Frames
pub mod Iq
pub mod Request
pub mod Limits
mod Tests
use rtl_sdr.Prelude.{
  ℕ, zero, suc, ◌+◌, ◌*◌, ◌%◌, Bool, true, false, not, ◌&&◌, ◌||◌, Option, none, some,
}
use rtl_sdr.Prelude.{
  List, [], ◌∷◌, ◌++◌, length, take, ltb, leb, ◌==◌, if◌then◌else◌, is_none, u32, u64, sub_ℕ, ℤ,
  Buffer, fill, bytes_of, Status, ok, failed,
}
use rtl_sdr.Proto.{
  Req, IqHdr, FftHdr, magic_req, magic_iq, magic_fft, mode_fft, max_iq_components, evt_freq_change,
  evt_stream_end, decode_req, encode_iq_hdr, encode_iq_payload, encode_fft_hdr, encode_fft_payload,
  encode_evt,
}
use rtl_sdr.Ring.{Ring, Cursor, Result, error, empty, found, gap, read_ring}
use rtl_sdr.Dsp.Plan.{validate}
use rtl_sdr.Dsp.Filter.{Floats, process}
use rtl_sdr.Dsp.Filter
use rtl_sdr.Server.Socket.{Attempt, Move, sendv}
use rtl_sdr.Server.Pool.{Setup, unfit, spectrum, channel}

-- The arguments of a `rtlsdr_stream_sendv` that the platform gives.
pub record Sending : Type 0 where
  pub now : ℕ
  pub attempts : List (Attempt Move)

-- What `client_current` finds: the server's fields, its own buffer, and the socket.
pub record View : Type 0 where
  pub stopping : Bool
  pub capture_epoch : ℕ
  pub new_freq : ℕ
  pub buf : Buffer
  pub first : Sending
  pub second : Sending

-- The vector of an event.
abbrev pub event : Option ℕ × Option Buffer → List ℕ
event (some n, some buf) = bytes_of buf 0 n
event (some n, none) = []
event (none, buf) = []

-- What `client_current` sends when the session is over.
pub farewell : View → List ℕ
farewell v =
    let change = encode_evt (some v.buf) evt_freq_change v.new_freq in
    let end = encode_evt change.1 evt_stream_end 0 in
    let (status, sent) = sendv (some (event change ∷ [])) true v.first.now v.first.attempts in
    elim status [
      | ok ↦ sent ++ (sendv (some (event end ∷ [])) true v.second.now v.second.attempts).1
      | failed ↦ sent
    ]

-- `client_current`, with the bytes that it sends.
pub client_current : View → ℕ → Bool × List ℕ
client_current v epoch =
    if v.stopping
    then (false, [])
    else if v.capture_epoch == epoch
    then (true, [])
    else (false, farewell v)

-- What `client_handler` makes of the request, with the fields of the server, whether there is a plan
-- for spectra, the mode and the epoch of the client, and the pointer that `rtlsdr_dsp_create` gives.
-- A `channel` with `none` in place of the pointer has its fields stored, and the request is still refused,
-- in `worker_check`. Of the decoder's structure nothing is read when it fails.
pub check_fields : ℕ → ℕ → Bool → ℕ → Bool → Option ℕ → Req → Setup
check_fields capture_freq capture_rate has_plan mode current dsp req =
    let offset = sub_ℕ req.freq capture_freq in
    if not (req.magic == magic_req)
    then unfit
    else if not (req.mode == mode)
    then unfit
    else if not current
    then unfit
    else if mode == mode_fft
    then (if not (req.freq == 0) || not (req.rate == 0) || not (req.bandwidth == 0) || not has_plan
        then unfit
        else spectrum)
    else if ltb 4294967295 req.freq || ltb 4294967295 capture_freq
    then unfit
    else elim (validate capture_rate req.rate req.bandwidth offset) [
      | none ↦ unfit
      | some bandwidth ↦ channel req.freq req.rate bandwidth dsp
    ]

pub check_decoded : ℕ → ℕ → Bool → ℕ → Bool → Option ℕ → Status × Option Req → Setup
check_decoded capture_freq capture_rate has_plan mode current dsp (ok, some req) =
    check_fields capture_freq capture_rate has_plan mode current dsp req
check_decoded capture_freq capture_rate has_plan mode current dsp (status, req) = unfit

pub check_request : ℕ → ℕ → Bool → ℕ → Bool → Option ℕ → Req → Buffer → Option (List ℕ) → Setup
check_request capture_freq capture_rate has_plan mode current dsp old buf none = unfit
check_request capture_freq capture_rate has_plan mode current dsp old buf (some bytes) =
    check_decoded capture_freq capture_rate has_plan mode current dsp
      (decode_req (some old) (some (fill buf 0 bytes)))

-- What `rtlsdr_server_init` checks of its arguments, for a ring and ports that are not negative.
pub init_accepts : ℕ → ℕ → ℕ → ℕ → ℕ → Bool
init_accepts slot_size iq_port fft_port capture_freq capture_rate = not (
    not (slot_size % 2 == 0)
    || ltb max_iq_components slot_size
    || ltb 65535 iq_port
    || ltb 65535 fft_port
    || ltb 4294967295 capture_freq
    || capture_rate == 0
    || ltb 4294967295 capture_rate)

-- What a round of `iq_client_handler` meets: the two calls of `client_current`, the ring, whether
-- `socket_closed`, and the socket.
pub record Turn : Type 0 where
  pub before : View
  pub between : View
  pub ring : Ring
  pub peer_closed : Bool
  pub sending : Sending

-- The channel of a client: its frequency, rate and epoch, and the size of a slot of the ring.
pub record Channel : Type 0 where
  pub freq : ℕ
  pub rate : ℕ
  pub epoch : ℕ
  pub capacity : ℕ

-- The local variables of `iq_client_handler`, the cursor and the filter.
pub record Job (D : Type 0) : Type 0 where
  pub cursor : Cursor
  pub dsp : D
  pub input : List ℕ
  pub seq : ℕ
  pub hdr : Buffer
  pub wire : Buffer

-- What a round does: where it goes on, if it does, the bytes that it sends, and those that it has
-- taken from the ring and passed through the filter.
pub record Round (D : Type 0) : Type 0 where
  pub next : Option (Job D)
  pub sent : List ℕ
  pub taken : List ℕ

abbrev pub iq_header : Channel → ℕ → ℕ → IqHdr
iq_header ch seq count = record {
  magic = magic_iq;
  freq = ch.freq;
  rate = ch.rate;
  seq = seq;
  nsamples = u32 count;
}

module _ {D : Type 0} where
  -- The two encoders gave these; the frame is sent.
  pub iq_ship :
      Channel
      → Job D
      → Sending
      → List ℕ
      → List ℤ
      → Option ℕ × Option Buffer
      → Status × Option Buffer
      → Round D
  iq_ship ch job sending taken out (some n, some hdr) (ok, some wire) =
      let (status, sent) =
        sendv (some (bytes_of hdr 0 32 ∷ bytes_of wire 0 (length out * 2) ∷ [])) true sending.now
          sending.attempts in
      record {
        next = elim status [
          | ok ↦ some (record job { seq = u64 (job.seq + 1); hdr = hdr; wire = wire })
          | failed ↦ none
        ];
        sent = sent;
        taken = taken;
      }
  iq_ship ch job sending taken out header payload = record { next = none; sent = []; taken = taken }

  -- A round from the samples that the filter gave on.
  pub iq_samples : Channel → Job D → Turn → List ℕ → List ℤ → Round D
  iq_samples ch job t taken out =
      let (current, told) = client_current t.between ch.epoch in
      if length out == 0
      then record { next = some job; sent = []; taken = taken }
      else if not current
      then record { next = none; sent = told; taken = taken }
      else iq_ship ch job t.sending taken out
          (encode_iq_hdr (some job.hdr) (some (iq_header ch job.seq (length out))))
          (encode_iq_payload (some job.wire) (ch.capacity * 2) (some out) (length out))

module _ (fl : Floats) where
  -- A round from the result of the ring on.
  pub iq_read : Channel → Job (Filter.State fl) → Turn → Result → List ℕ → Round (Filter.State fl)
  iq_read ch job t empty bytes = record {
    next = if t.peer_closed then none else some job;
    sent = [];
    taken = [];
  }
  iq_read ch job t error bytes = record { next = none; sent = []; taken = [] }
  iq_read ch job t gap bytes = record { next = none; sent = []; taken = [] }
  iq_read ch job t found bytes =
      let (status, dsp, out) = process fl job.dsp bytes ch.capacity in
      if not (length bytes % 2 == 0)
      then record { next = none; sent = []; taken = [] }
      else elim status [
        | failed ↦ record { next = none; sent = []; taken = [] }
        | ok ↦ iq_samples ch (record job { dsp = dsp }) t bytes out
      ]

  -- A round of the loop of `iq_client_handler`.
  pub iq_round : Channel → Job (Filter.State fl) → Turn → Round (Filter.State fl)
  iq_round ch job t =
      let (current, told) = client_current t.before ch.epoch in
      let read = read_ring t.ring job.cursor job.input ch.capacity in
      if not current
      then record { next = none; sent = told; taken = [] }
      else iq_read ch (record job { cursor = read.cursor; input = read.dst }) t read.result
          (take read.len read.dst)

  -- The loop: the bytes that go out, and those that the filter takes in.
  pub iq_loop : Channel → Job (Filter.State fl) → List Turn → List ℕ × List ℕ
  iq_loop ch job [] = ([], [])
  iq_loop ch job (t ∷ ts) =
      let round = iq_round ch job t in
      elim round.next [
        | none ↦ (round.sent, round.taken)
        | some next ↦
            (let (sent, taken) = iq_loop ch next ts in (round.sent ++ sent, round.taken ++ taken))
      ]

  -- `iq_client_handler`, once its buffers are allocated.
  pub iq_client_handler : Channel → Job (Filter.State fl) → List Turn → List ℕ × List ℕ
  iq_client_handler ch job turns = iq_loop ch (record job { seq = 0 }) turns
