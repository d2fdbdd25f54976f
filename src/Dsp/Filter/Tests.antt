-- ===== src/Dsp/Filter/Tests.antt =====
-- A filter of two stages over whole numbers.
use rtl_sdr.Prelude.{
  ℕ, ◌+◌, ◌-◌, ◌*◌, ◌≤◌, ◌≡◌, refl, arith, List, [], ◌∷◌, ◌++◌, length, ltb, pos, ok,
}
use rtl_sdr.Dsp.Filter.{
  Floats, Filter, State, process, process_loop, stage1_next, block, mix, fire, cascade, stage_run,
  stage_fir, fir_loop, sat16, pairs, reset,
}
use rtl_sdr.Dsp.Filter.Stream.{process-append, length-process, reset-process}

abbrev pub whole_numbers : Floats
whole_numbers = record {
  Single = ℕ;
  Double = ℕ;
  zero_single = 0;
  zero_double = 0;
  add = λ a b. a + b;
  mul = λ a b. a * b;
  less = ltb;
  scale = 1;
  lowest = 0;
  highest = 32767;
  truncate = pos;
  add_double = λ a b. a + b;
  sub_double = λ a b. a - b;
  mul_double = λ a b. a * b;
  centered = λ n. n;
  widen = λ n. n;
  narrow = λ n. n;
  cosine = λ i. 1;
}

abbrev halving : Filter ℕ
halving = record {
  coeffs = 1 ∷ 2 ∷ 1 ∷ [];
  delay_i = 0 ∷ 0 ∷ 0 ∷ 0 ∷ [];
  delay_q = 0 ∷ 0 ∷ 0 ∷ 0 ∷ [];
  num_taps = 3;
  buf_size = 4;
  buf_mask = 3;
  decimation = 2;
  counter = 0;
  wp = 0;
}

abbrev pub fresh : State whole_numbers
fresh = record {
  phase = 0;
  phase_inc = 65536;
  dc_alpha = 0;
  dc_x_i = 0;
  dc_x_q = 0;
  dc_y_i = 0;
  dc_y_q = 0;
  first = halving;
  later = halving ∷ [];
}

abbrev head : List ℕ
head = 1 ∷ 2 ∷ 3 ∷ 4 ∷ 5 ∷ 6 ∷ []

abbrev tail : List ℕ
tail = 7 ∷ 8 ∷ 9 ∷ 10 ∷ []

process_example : (process whole_numbers fresh (head ++ tail) 10).2 ≡ pos 36 ∷ pos 4 ∷ []
unfolding process process_loop stage1_next block mix fire cascade stage_run stage_fir fir_loop sat16
    pairs
process_example = refl

process-append_example :
    let (s1, d1, out1) = process whole_numbers fresh head 6 in
    let (s2, d2, out2) = process whole_numbers d1 tail 4 in
    (s1 ≡ ok) × (s2 ≡ ok) × (process whole_numbers fresh (head ++ tail) 10 ≡ (ok, d2, out1 ++ out2))
process-append_example =
    process-append whole_numbers fresh head tail 6 4 10 (omega arith) refl refl (omega arith)
      (omega arith) (omega arith)

length-process_example :
    let output = (process whole_numbers fresh head 6).2 in
    (length output ≤ 6) × (length output * 2 ≤ 2 * 0 + 6)
length-process_example = length-process whole_numbers fresh head 6 (omega arith) refl (omega arith)

reset-process_example :
    reset whole_numbers (process whole_numbers fresh head 6).1 ≡ reset whole_numbers fresh
reset-process_example = reset-process whole_numbers fresh head 6 (omega arith)
