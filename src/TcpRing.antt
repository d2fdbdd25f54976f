-- ===== src/TcpRing.antt =====
-- The ring of src/rtl_tcp.c between the USB callback and the threads that send: `ring_write_ptr`,
-- `ring_publish`, `rtlsdr_callback`, `send_all` and the loop of `client_send_worker`. The callback takes
-- no lock, so its steps come between those of a sender in any order that the schedule gives.
pub mod Steps
pub mod Rounds
pub mod Callbacks
pub mod Order
mod Tests
use rtl_sdr.Prelude.{
  ℕ, zero, suc, ◌+◌, ◌-◌, ◌*◌, Bool, true, false, not, ◌&&◌, ◌||◌, List, [], ◌∷◌, ◌++◌, length,
  take, ltb, ◌==◌, if◌then◌else◌, u32, bit_and, Buffer, store, bytes_of, min,
}

-- RING_SLOT_COUNT, RING_SLOT_MASK and RING_SLOT_SIZE
abbrev pub slot_count : ℕ
slot_count = 512

abbrev pub slot_mask : ℕ
slot_mask = 511

abbrev pub slot_size : ℕ
slot_size = 262144

-- `struct ring_buffer`: the bytes of all the slots, the `len` of each, and the position.
pub record RingBuffer : Type 0 where
  pub contents : Buffer
  pub lens : Buffer
  pub write_pos : ℕ

-- The offset in `data` of the slot of a position.
abbrev pub slot_data : ℕ → ℕ
slot_data pos = bit_and pos slot_mask * slot_size

-- `ring_write_ptr`, as an offset in `data`.
abbrev pub ring_write_ptr : RingBuffer → ℕ
ring_write_ptr r = slot_data r.write_pos

-- A step of the callback that others can see: `memcpy` stores a byte at an offset of the slot of
-- `ring_write_ptr`, and `ring_publish` stores the length, then the position.
pub data CallbackStep : Type 0 where
  copied : ℕ → ℕ → CallbackStep
  sized : ℕ → CallbackStep
  moved : CallbackStep

pub callback_step : RingBuffer → CallbackStep → RingBuffer
callback_step r (copied i byte) = record r {
  contents = store r.contents (ring_write_ptr r + i) byte;
}
callback_step r (sized len) = record r { lens = store r.lens (bit_and r.write_pos slot_mask) len }
callback_step r moved = record r { write_pos = u32 (r.write_pos + 1) }

abbrev pub ring_publish : ℕ → List CallbackStep
ring_publish len = sized len ∷ moved ∷ []

-- The steps of `memcpy` from the offset `i` on.
pub copies : ℕ → List ℕ → List CallbackStep
copies i [] = []
copies i (byte ∷ bytes) = copied i byte ∷ copies (i + 1) bytes

-- What of a buffer goes into a slot.
pub stored : List ℕ → List ℕ
stored buf = if ltb slot_size (length buf) then take slot_size buf else buf

-- The steps of `rtlsdr_callback`, with `do_exit`.
pub callback : Bool → List ℕ → List CallbackStep
callback do_exit buf =
    if do_exit || length buf == 0
    then []
    else copies 0 (stored buf) ++ ring_publish (length (stored buf))

-- The steps of several callbacks, one behind the other.
pub callbacks : List (List ℕ) → List CallbackStep
callbacks [] = []
callbacks (buf ∷ bufs) = callback false buf ++ callbacks bufs

-- The ring, and the steps that the callback is still to make.
pub record World : Type 0 where
  pub ring : RingBuffer
  pub ahead : List CallbackStep

-- The callback makes its next `k` steps, or those that are left.
pub run_callback : ℕ → RingBuffer → List CallbackStep → World
run_callback zero r todo = record { ring = r; ahead = todo }
run_callback (suc k) r [] = record { ring = r; ahead = [] }
run_callback (suc k) r (s ∷ todo) = run_callback k (callback_step r s) todo

-- A round of `send_all` in which the socket can be written: the steps of the callback before it, and
-- the number of bytes that `send` takes, 0 where it fails. Where the callback makes steps within a
-- `send`, it is two rounds.
pub record Piece : Type 0 where
  pub before : ℕ
  pub count : ℕ

-- How `send_all` ends: it has sent everything, `send` has failed, or it still waits for the socket at
-- the end of the schedule.
pub data Outcome : Type 0 where
  whole broken waiting : Outcome

-- The bytes that have gone out, how it ended, and what the callback has made of the ring.
pub record SendResult : Type 0 where
  pub bytes : List ℕ
  pub outcome : Outcome
  pub world : World

abbrev pub sent_before : List ℕ → SendResult → SendResult
sent_before bytes s = record s { bytes = bytes ++ s.bytes }

-- `send_all` of the `left` bytes at the offset `ptr` of `data`, while `do_exit` is 0.
pub send_all : World → ℕ → ℕ → List Piece → SendResult
send_all w ptr zero ps = record { bytes = []; outcome = whole; world = w }
send_all w ptr (suc left) [] = record { bytes = []; outcome = waiting; world = w }
send_all w ptr (suc left) (p ∷ ps) =
    let now = run_callback p.before w.ring w.ahead in
    let sent = min p.count (suc left) in
    let rest = send_all now (ptr + sent) (suc left - sent) ps in
    if p.count == 0
    then record { bytes = []; outcome = broken; world = now }
    else sent_before (bytes_of now.ring.contents ptr sent) rest

-- A round of the loop that sends: the steps of the callback before the `len` of the slot is read, and
-- what `send_all` meets.
pub record Sending : Type 0 where
  pub before : ℕ
  pub pieces : List Piece

-- What the loop leaves: the bytes that it has sent of each slot, the read position, and `active`.
pub record Batch : Type 0 where
  pub sent : List (List ℕ)
  pub read_pos : ℕ
  pub active : Bool

-- The bytes of a slot go out before what a batch sends.
abbrev pub sends : List ℕ → Batch → Batch
sends bytes b = record b { sent = bytes ∷ b.sent }

-- The loop `while (rp != wp …)`, of which the list gives the rounds, while `do_exit` is 0 and the client
-- active but for a failed `send_all`.
pub send_loop : World → ℕ → ℕ → List Sending → Batch
send_loop w rp wp [] = record { sent = []; read_pos = rp; active = true }
send_loop w rp wp (s ∷ ss) =
    let now = run_callback s.before w.ring w.ahead in
    let slot_len = now.ring.lens (bit_and rp slot_mask) in
    let out = send_all now (slot_data rp) slot_len s.pieces in
    let rest = send_loop out.world (u32 (rp + 1)) wp ss in
    if rp == wp then record { sent = []; read_pos = rp; active = true } else elim out.outcome [
      | whole ↦ sends out.bytes rest
      | broken ↦ record { sent = out.bytes ∷ []; read_pos = rp; active = false }
      | waiting ↦ record { sent = out.bytes ∷ []; read_pos = rp; active = true }
    ]

-- The check for a client that is too slow: the position to read from, and the number of buffers that
-- are counted as overflows.
pub catch_up : ℕ → ℕ → ℕ × ℕ
catch_up rp wp =
    let behind = u32 (wp + 4294967296 - rp) in
    if ltb slot_count behind then (u32 (wp + 4294967296 - 128), behind - 128) else (rp, 0)

-- `client_send_worker` from the second reading of `write_pos` to the end of its round.
pub send_batch : World → ℕ → List Sending → Batch
send_batch w read_pos ss = send_loop w (catch_up read_pos w.ring.write_pos).0 w.ring.write_pos ss
