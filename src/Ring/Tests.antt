-- ===== src/Ring/Tests.antt =====
-- The ring at concrete inputs: two slots of three bytes.
use rtl_sdr.Prelude.{ℕ, ◌^◌, ◌≡◌, refl, List, [], ◌∷◌, none, some, arith}
use rtl_sdr.Prelude.{true, length, replicate, length-replicate, failed}
use rtl_sdr.Ring.{Ring, Platform, now_cursor, gap, error, found}
use rtl_sdr.Ring.{
  create, write_ring, write_copy, cursor_now, read_copy, read_ring, locked_write, put_slot,
}
use rtl_sdr.Ring.Inv.{IsValid, write_ring-IsValid, lens-replicate}
use rtl_sdr.Ring.Delivery.{write_all, read_all, read_all-write_all, overrun_gap}
use rtl_sdr.Ring.Run.{Op, write, lose, now, read, run, log_run, run_refines}
use rtl_sdr.Ring.Refine.{view}

abbrev two_slots : Ring
two_slots = record {
  bytes = replicate 6 0;
  slot_lens = replicate 2 0;
  slot_count = 2;
  slot_size = 3;
  next_seq = 0;
  generation = 1;
  retained = 0;
}

two_slots-IsValid : IsValid two_slots
two_slots-IsValid = record {
  storage = refl;
  lengths = refl;
  has_slots = omega arith;
  has_room = omega arith;
  addressable = omega arith;
  seq_fits = omega arith;
  generation_fits = omega arith;
  retained_slots = omega arith;
  retained_written = omega arith;
  lens_fit = lens-replicate 2 3;
}

abbrev platform : Platform
platform = record {
  calloc_ring = true;
  malloc = λ n. some (replicate n 0);
  calloc_lens = true;
  mutex_init = true;
}

platform_sized : (n : ℕ) (block : List ℕ) → platform.malloc n ≡ some block → length block ≡ n
platform_sized n block e = ground (arith, length-replicate {A = ℕ} n 0)

abbrev buffer : List ℕ
buffer = 0 ∷ 0 ∷ 0 ∷ []

abbrev script : List Op
script = now ∷ write (7 ∷ 8 ∷ []) ∷ read buffer ∷ lose ∷ read buffer ∷ []

wraps_around :
    read_ring
      (write_all two_slots ((1 ∷ []) ∷ (2 ∷ 3 ∷ []) ∷ (4 ∷ []) ∷ []))
      (record { next_seq = 2; generation = 1 })
      buffer
      3
    ≡ record {
      result = found;
      cursor = record { next_seq = 3; generation = 1 };
      dst = 4 ∷ 0 ∷ 0 ∷ [];
      len = 1;
    }
unfolding read_ring write_all write_ring locked_write put_slot
wraps_around = refl

null_pointers :
    (write_copy none (some buffer) 3 ≡ (failed, none))
    × (write_copy (some two_slots) none 3 ≡ (failed, some two_slots))
    × (cursor_now (some two_slots) none ≡ (failed, none))
    × (read_copy (some two_slots) none (some buffer) 3 (some 9)
        ≡ (error, none, some buffer, some 0))
unfolding write_copy write_ring cursor_now read_copy
null_pointers = (refl, refl, refl, refl)

too_large : create platform (2 ^ 63) 2 ≡ none
unfolding create
too_large = refl

run_refines_example :
    run two_slots (now_cursor two_slots) script
    ≡ log_run 2 3 (view two_slots) (now_cursor two_slots) script
run_refines_example = run_refines script (now_cursor two_slots) two_slots-IsValid

read_all-write_all_example :
    read_all 5 (write_all two_slots ((1 ∷ []) ∷ (2 ∷ 3 ∷ []) ∷ [])) (now_cursor two_slots) buffer
    ≡ (1 ∷ []) ∷ (2 ∷ 3 ∷ []) ∷ []
read_all-write_all_example =
    read_all-write_all 5 two_slots ((1 ∷ []) ∷ (2 ∷ 3 ∷ []) ∷ []) buffer two_slots-IsValid
      (omega arith) (omega arith) (omega arith) (omega arith) (omega arith)

overrun_gap_example :
    read_ring
      (write_all two_slots ((1 ∷ []) ∷ (2 ∷ []) ∷ (3 ∷ []) ∷ []))
      (now_cursor two_slots)
      buffer
      3
    ≡ record { result = gap; cursor = now_cursor two_slots; dst = buffer; len = 0 }
overrun_gap_example =
    overrun_gap two_slots ((1 ∷ []) ∷ (2 ∷ []) ∷ (3 ∷ []) ∷ []) buffer 3 two_slots-IsValid
      (omega arith) (omega arith) (omega arith)

write_ring-IsValid_example : IsValid (write_ring two_slots (some (7 ∷ 8 ∷ [])) 2).1
write_ring-IsValid_example = write_ring-IsValid (some (7 ∷ 8 ∷ [])) 2 two_slots-IsValid
