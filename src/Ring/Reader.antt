-- ===== src/Ring/Reader.antt =====
-- `rtlsdr_ring_read_copy` answers as the log does.
use rtl_sdr.Prelude.{ℕ, ◌-◌, ◌%◌, ◌≤◌, ◌<◌, ◌≡◌, ◌∙◌, ap}
use rtl_sdr.Prelude.{List, [], arith}
use rtl_sdr.Prelude.{length, get_or, take, slice-blit_self}
use rtl_sdr.Ring.{Ring, Cursor, Read, read_ring}
use rtl_sdr.Ring.Inv.{IsValid}
use rtl_sdr.Ring.Log.{ask, Answer}
use rtl_sdr.Ring.Slots.{message, messages, length-messages, get_or-messages}
use rtl_sdr.Ring.Refine.{view, length-message}

-- What a reader is told: the result, its cursor, and the first `*len` bytes of `dst`.
abbrev pub answer : Read → Answer
answer a = record { result = a.result; cursor = a.cursor; message = take a.len a.dst }

-- The message that the log holds for a retained number.
window-message :
    (r : Ring) (q : ℕ)
    → IsValid r
    → r.next_seq - r.retained ≤ q
    → q < r.next_seq
    → get_or
        (view r).window
        (q - (r.next_seq - length (messages r (r.next_seq - r.retained) r.retained)))
        []
      ≡ message r q
window-message r q v lo hi = rw (length-messages r (r.next_seq - r.retained) r.retained) (
    get_or-messages r (r.next_seq - r.retained) r.retained (q - (r.next_seq - r.retained))
      (omega (arith, v.retained_written))
    ∙ ap (message r) (omega arith))

-- At a valid ring `rtlsdr_ring_read_copy` gives the answer of the log that the ring represents.
pub read_ring_refines :
    (r : Ring) (c : Cursor) (dst : List ℕ)
    → IsValid r
    → answer (read_ring r c dst (length dst)) ≡ ask (view r) c (length dst)
unfolding read_ring ask
read_ring_refines r c dst v = ground (
  arith,
  length-messages r (r.next_seq - r.retained) r.retained,
  v.retained_written,
  v.seq_fits,
  window-message r c.next_seq v,
  length-message r c.next_seq v,
  slice-blit_self dst 0 (message r c.next_seq) (get_or r.slot_lens (c.next_seq % r.slot_count) 0),
)
