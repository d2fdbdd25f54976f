-- ===== src/Ring.antt =====
-- src/rtl_ring.c: the copying ring of capture slots between the USB callback and the readers. The
-- mutex makes each function one step, so a function that updates `*r` returns the new ring.
pub mod Inv
pub mod Log
pub mod Slots
pub mod Refine
pub mod Reader
pub mod History
pub mod Run
pub mod Delivery
mod Tests
use mathlib.Core.Option
use rtl_sdr.Prelude.{ℕ, ◌+◌, ◌-◌, ◌*◌, ◌/◌, ◌%◌, Bool, not, ◌&&◌, ◌||◌, Option, none, some, List}
use rtl_sdr.Prelude.{ltb, leb, ◌==◌, if◌then◌else◌, is_none, Status, ok, failed}
use rtl_sdr.Prelude.{u64, u64_max, sub64, get_or, set, take, replicate, blit, slice}

-- `struct rtlsdr_ring`: `bytes` is the allocation at `data`.
pub record Ring : Type 0 where
  pub bytes : List ℕ
  pub slot_lens : List ℕ
  pub slot_count : ℕ
  pub slot_size : ℕ
  pub next_seq : ℕ
  pub generation : ℕ
  pub retained : ℕ

-- `struct rtlsdr_ring_cursor`
pub record Cursor : Type 0 where
  pub next_seq : ℕ
  pub generation : ℕ

-- What the C library answers: whether the two `calloc` calls succeed, the block that `malloc` gives
-- for a size, and whether `pthread_mutex_init` returns 0.
pub record Platform : Type 0 where
  pub calloc_ring : Bool
  pub malloc : ℕ → Option (List ℕ)
  pub calloc_lens : Bool
  pub mutex_init : Bool

-- `rtlsdr_ring_create`; `sizeof(size_t)` is 8.
pub create : Platform → ℕ → ℕ → Option Ring
create p slot_count slot_size =
    if slot_count == 0
      || slot_size == 0
      || ltb (u64_max / slot_size) slot_count
      || ltb (u64_max / 8) slot_count
    then none
    else if not p.calloc_ring
    then none
    else elim (p.malloc (u64 (slot_count * slot_size))) [
      | none ↦ none
      | some block ↦
          if p.calloc_lens && p.mutex_init
          then some (record {
            bytes = block;
            slot_lens = replicate slot_count 0;
            slot_count = slot_count;
            slot_size = slot_size;
            next_seq = 0;
            generation = 1;
            retained = 0;
          })
          else none
    ]

-- The sequence numbers start again in a new generation.
pub restart : Ring → Ring
restart r = record r { generation = u64 (r.generation + 1); next_seq = 0; retained = 0 }

-- The slot of `next_seq` is overwritten.
pub put_slot : Ring → List ℕ → ℕ → Ring
put_slot r src len =
    let slot = r.next_seq % r.slot_count in
    record r {
      bytes = blit r.bytes (u64 (slot * r.slot_size)) (take len src);
      slot_lens = set r.slot_lens slot len;
      next_seq = u64 (r.next_seq + 1);
      retained = if ltb r.retained r.slot_count then r.retained + 1 else r.retained;
    }

-- What `rtlsdr_ring_write_copy` does between the lock and the unlock.
pub locked_write : Ring → List ℕ → ℕ → Ring
locked_write r src len = put_slot (if r.next_seq == u64_max then restart r else r) src len

-- `rtlsdr_ring_write_copy` at a ring. The null `src` of the last line has `len == 0`, and does not
-- come there.
pub write_ring : Ring → Option (List ℕ) → ℕ → Status × Ring
write_ring r src len =
    if (is_none src && not (len == 0)) || ltb r.slot_size len
    then (failed, r)
    else if len == 0
    then (ok, r)
    else elim src [ some bytes ↦ (ok, locked_write r bytes len) | none ↦ (failed, r) ]

-- `rtlsdr_ring_write_copy`, with `none` for a null pointer.
pub write_copy : Option Ring → Option (List ℕ) → ℕ → Status × Option Ring
write_copy none src len = (failed, none)
write_copy (some r) src len = let (status, r') = write_ring r src len in (status, some r')

-- What `rtlsdr_ring_cursor_now` stores into `*cursor`.
abbrev pub now_cursor : Ring → Cursor
now_cursor r = record { next_seq = r.next_seq; generation = r.generation }

-- `rtlsdr_ring_cursor_now`, with `none` for a null pointer.
pub cursor_now : Option Ring → Option Cursor → Status × Option Cursor
cursor_now (some r) (some c) = (ok, some (now_cursor r))
cursor_now r c = (failed, c)

-- `enum rtlsdr_ring_result`; `found` is RTL_RING_DATA.
pub data Result : Type 0 where
  error empty found gap : Result

-- What a read returns, and what it leaves in `*cursor`, in `dst` and in `*len`.
pub record Read : Type 0 where
  pub result : Result
  pub cursor : Cursor
  pub dst : List ℕ
  pub len : ℕ

-- `rtlsdr_ring_read_copy` at a ring, a cursor, a destination and a `len`.
pub read_ring : Ring → Cursor → List ℕ → ℕ → Read
read_ring r c dst capacity =
    if not (c.generation == r.generation) || ltb c.next_seq (sub64 r.next_seq r.retained)
    then stay gap
    else if c.next_seq == r.next_seq
    then stay empty
    else if ltb c.next_seq r.next_seq
    then (let slot = c.next_seq % r.slot_count in
        let n = get_or r.slot_lens slot 0 in
        if leb n capacity
        then record {
          result = found;
          cursor = record c { next_seq = u64 (c.next_seq + 1) };
          dst = blit dst 0 (slice r.bytes (u64 (slot * r.slot_size)) n);
          len = n;
        }
        else stay error)
    else stay error
  where
    stay : Result → Read
    stay result = record { result = result; cursor = c; dst = dst; len = 0 }

-- `rtlsdr_ring_read_copy`, with `none` for a null pointer.
pub read_copy :
    Option Ring
    → Option Cursor
    → Option (List ℕ)
    → ℕ
    → Option ℕ
    → Result × Option Cursor × Option (List ℕ) × Option ℕ
read_copy (some r) (some c) (some dst) capacity (some len) =
    let after = read_ring r c dst capacity in
    (after.result, some after.cursor, some after.dst, some after.len)
read_copy r c dst capacity len = (error, c, dst, Option.map (λ _. 0) len)

-- `rtlsdr_ring_mark_gap` at a ring; at a null pointer it does nothing.
pub mark_gap : Ring → Ring
mark_gap r = record r { generation = u64 (r.generation + 1); retained = 0 }
