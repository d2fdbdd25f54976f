-- ===== src/Ring/Run.antt =====
-- A client's calls in order: no sequence of calls tells a valid ring from its log.
use rtl_sdr.Prelude.{ℕ, ◌≡◌, refl, ap, List, [], ◌∷◌, some, arith}
use rtl_sdr.Prelude.{ltb, ◌==◌, if◌then◌else◌, length, take_all, Status, ok, failed}
use rtl_sdr.Ring.{
  Ring, Cursor, write_ring, read_ring, mark_gap, now_cursor, locked_write, put_slot, restart,
}
use rtl_sdr.Ring.Inv.{IsValid, write_ring-IsValid, mark_gap-IsValid}
use rtl_sdr.Ring.Log.{Log, Answer, append, forget, ask}
use rtl_sdr.Ring.Refine.{view, locked_write_refines}
use rtl_sdr.Ring.Reader.{answer, read_ring_refines}

-- A write of some bytes, a gap mark, a reader that starts from now, a read into a destination.
pub data Op : Type 0 where
  write : List ℕ → Op
  lose now : Op
  read : List ℕ → Op

pub data Reply : Type 0 where
  wrote : Status → Reply
  lost started : Reply
  told : Answer → Reply

pub run : Ring → Cursor → List Op → List Reply
run r c [] = []
run r c (write m ∷ ops) =
    let (status, r') = write_ring r (some m) (length m) in wrote status ∷ run r' c ops
run r c (lose ∷ ops) = lost ∷ run (mark_gap r) c ops
run r c (now ∷ ops) = started ∷ run r (now_cursor r) ops
run r c (read dst ∷ ops) =
    let a = answer (read_ring r c dst (length dst)) in told a ∷ run r a.cursor ops

-- The log takes a message that fits a slot; an empty one is accepted and not kept.
unfoldable pub submit : ℕ → ℕ → List ℕ → Log → Status × Log
submit slot_count slot_size m l =
    if ltb slot_size (length m)
    then (failed, l)
    else if length m == 0
    then (ok, l)
    else (ok, append slot_count m l)

pub log_run : ℕ → ℕ → Log → Cursor → List Op → List Reply
log_run n z l c [] = []
log_run n z l c (write m ∷ ops) =
    let (status, l') = submit n z m l in wrote status ∷ log_run n z l' c ops
log_run n z l c (lose ∷ ops) = lost ∷ log_run n z (forget l) c ops
log_run n z l c (now ∷ ops) =
    started ∷ log_run n z l (record { next_seq = l.next_seq; generation = l.generation }) ops
log_run n z l c (read dst ∷ ops) =
    let a = ask l c (length dst) in told a ∷ log_run n z l a.cursor ops

pub sizes-write_ring :
    (r : Ring) (m : List ℕ)
    → ((write_ring r (some m) (length m)).1.slot_count ≡ r.slot_count)
      × ((write_ring r (some m) (length m)).1.slot_size ≡ r.slot_size)
unfolding write_ring locked_write put_slot restart
sizes-write_ring r m = ground arith

sizes-mark_gap :
    (r : Ring) → ((mark_gap r).slot_count ≡ r.slot_count) × ((mark_gap r).slot_size ≡ r.slot_size)
unfolding mark_gap
sizes-mark_gap r = (refl, refl)

pub write_ring_refines :
    {r : Ring} (m : List ℕ)
    → IsValid r
    → let (status, r') = write_ring r (some m) (length m) in
      (status, view r') ≡ submit r.slot_count r.slot_size m (view r)
unfolding write_ring submit
write_ring_refines {r} m v = ground (arith, locked_write_refines {r = r} m (length m) v, take_all m)

pub mark_gap_refines : (r : Ring) → view (mark_gap r) ≡ forget (view r)
unfolding mark_gap forget
mark_gap_refines r = refl

-- No sequence of writes, gap marks and reads through one cursor tells a valid ring from the log of
-- its messages: every status, result, cursor and message is the log's.
pub run_refines :
    (ops : List Op) (c : Cursor) {r : Ring}
    → IsValid r
    → run r c ops ≡ log_run r.slot_count r.slot_size (view r) c ops
unfolding run log_run
run_refines [] c v = refl
run_refines (write m ∷ ops) c {r} v = ground (
  arith,
  run_refines ops c (write_ring-IsValid (some m) (length m) v),
  write_ring_refines m v,
  sizes-write_ring r m,
)
run_refines (lose ∷ ops) c {r} v =
    ground (arith, run_refines ops c (mark_gap-IsValid v), mark_gap_refines r, sizes-mark_gap r)
run_refines (now ∷ ops) c v = ap (λ t. started ∷ t) (run_refines ops _ v)
run_refines (read dst ∷ ops) c {r} v =
    ground (
      arith,
      read_ring_refines r c dst v,
      run_refines ops (read_ring r c dst (length dst)).cursor v,
    )
