-- ===== src/Server/Spectrum/Tests.antt =====
-- A spectrum of two bins and hops of three samples over whole numbers.
use rtl_sdr.Prelude.{ℕ, ◌+◌, ◌*◌, ◌/◌, ◌≡◌, refl, arith, [], ◌∷◌, ◌++◌, some, true, false}
use rtl_sdr.Server.Spectrum.{
  Backend, State, process_fft, fft_loop, round_size, take_samples, collect, end_of_samples,
  finish_hop, apply_window, add_power, publish_power, mean, samples,
}
use rtl_sdr.Server.Spectrum.Samples.{IsReady, and_then}
use rtl_sdr.Server.Spectrum.Calls.{process_fft-append}

abbrev whole : Backend
whole = record {
  Float = ℕ;
  nought = 0;
  add = λ a b. a + b;
  mul = λ a b. a * b;
  div = λ a b. a / b;
  centered = λ n. n;
  of_count = λ n. n;
  execute = λ xs. some xs;
}

abbrev idle : State whole
idle = record {
  has_plan = true;
  window = 1 ∷ 2 ∷ [];
  fft_in = 0 ∷ 0 ∷ 0 ∷ 0 ∷ [];
  power = 0 ∷ 0 ∷ [];
  acc = 0 ∷ 0 ∷ [];
  bins = 2;
  step = 3;
  accum = 1;
  nsamples = 0;
  accum_count = 0;
  seq = 0;
  ready = false;
}

idle-IsReady : IsReady idle
idle-IsReady = record {
  planned = refl;
  hop = omega arith;
  some_bins = omega arith;
  some_accum = omega arith;
  within = omega arith;
  below = omega arith;
}

spectrum_example :
    (process_fft whole idle (1 ∷ 2 ∷ 3 ∷ 4 ∷ 5 ∷ 6 ∷ 7 ∷ 8 ∷ [])).1.power ≡ 5 ∷ 100 ∷ []
unfolding process_fft fft_loop round_size take_samples collect end_of_samples finish_hop
    apply_window add_power publish_power mean samples
spectrum_example = refl

process_fft-append_example :
    process_fft whole idle ((1 ∷ 2 ∷ []) ++ (3 ∷ 4 ∷ 5 ∷ 6 ∷ 7 ∷ 8 ∷ []))
    ≡ and_then whole
        (process_fft whole idle (1 ∷ 2 ∷ []))
        (λ s'. process_fft whole s' (3 ∷ 4 ∷ 5 ∷ 6 ∷ 7 ∷ 8 ∷ []))
process_fft-append_example =
    process_fft-append whole idle (1 ∷ 2 ∷ []) (3 ∷ 4 ∷ 5 ∷ 6 ∷ 7 ∷ 8 ∷ []) idle-IsReady refl refl
