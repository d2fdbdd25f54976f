-- ===== src/Server/Publish/Tests.antt =====
-- A ring of four slots of four bytes.
use rtl_sdr.Prelude.{
  ℕ, ◌≡◌, refl, arith, List, [], ◌∷◌, some, flatten, false, replicate, ok, failed,
}
use rtl_sdr.Ring.{Ring, now_cursor, read_ring, gap}
use rtl_sdr.Ring.Inv.{IsValid, lens-replicate}
use rtl_sdr.Ring.Delivery.{read_all}
use rtl_sdr.Server.Publish.{publish}
use rtl_sdr.Server.Publish.Chunks.{publish-read_all, publish_odd_gap}

abbrev pub small : Ring
small = record {
  bytes = replicate 16 0;
  slot_lens = replicate 4 0;
  slot_count = 4;
  slot_size = 4;
  next_seq = 0;
  generation = 1;
  retained = 0;
}

small-IsValid : IsValid small
small-IsValid = record {
  storage = refl;
  lengths = refl;
  has_slots = omega arith;
  has_room = omega arith;
  addressable = omega arith;
  seq_fits = omega arith;
  generation_fits = omega arith;
  retained_slots = omega arith;
  retained_written = omega arith;
  lens_fit = lens-replicate 4 4;
}

abbrev capture : List ℕ
capture = 1 ∷ 2 ∷ 3 ∷ 4 ∷ 5 ∷ 6 ∷ []

publish-read_all_example :
    let (status, r') = publish small false (some capture) 6 in
    (status ≡ ok) × (flatten (read_all 6 r' (now_cursor small) (replicate 4 0)) ≡ capture)
publish-read_all_example =
    publish-read_all small capture (replicate 4 0) 6 small-IsValid refl (omega arith) (omega arith)
      (omega arith) (omega arith)

publish_odd_gap_example :
    let (status, r') = publish small false (some capture) 5 in
    (status ≡ failed)
    × (read_ring r' (now_cursor small) capture 6
        ≡ record { result = gap; cursor = now_cursor small; dst = capture; len = 0 })
publish_odd_gap_example = publish_odd_gap small capture capture 5 6 small-IsValid refl
