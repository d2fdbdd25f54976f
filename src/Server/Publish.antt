-- ===== src/Server/Publish.antt =====
-- `rtlsdr_server_publish` of src/rtl_stream_server.c: a capture buffer goes into the ring slot by
-- slot. The wake-up of the readers changes nothing that they read.
pub mod Chunks
pub mod Tests
use rtl_sdr.Prelude.{
  ℕ, zero, suc, ◌%◌, Bool, not, ◌&&◌, ◌||◌, Option, none, some, List, length, take, drop,
}
use rtl_sdr.Prelude.{ltb, ◌==◌, if◌then◌else◌, is_none, Status, ok, failed}
use rtl_sdr.Ring.{Ring, write_ring, mark_gap}

-- The `while (len)` loop. Each round takes a byte at least, so `len` rounds are enough.
pub publish_loop : ℕ → Ring → List ℕ → Status × Ring
publish_loop zero r bytes = (ok, r)
publish_loop (suc fuel) r bytes =
    let len = length bytes in
    let count = if ltb len r.slot_size then len else r.slot_size in
    let (status, r') = write_ring r (some bytes) count in
    let more = publish_loop fuel r' (drop count bytes) in
    if len == 0 then (ok, r) else elim status [ failed ↦ (failed, mark_gap r') | ok ↦ more ]

-- `rtlsdr_server_publish` at a server with a ring, and what `stopping` says.
pub publish : Ring → Bool → Option (List ℕ) → ℕ → Status × Ring
publish r stopping input len =
    if is_none input && not (len == 0) || stopping
    then (failed, r)
    else if len == 0
    then (ok, r)
    else if not (len % 2 == 0)
    then (failed, mark_gap r)
    else elim input [ none ↦ (failed, r) | some bytes ↦ publish_loop len r (take len bytes) ]
