-- ===== src/Dsp/Plan/Tests.antt =====
-- Plans of concrete requests.
use rtl_sdr.Prelude.{◌≡◌, refl, some, none, arith}
use rtl_sdr.Prelude.{[], ◌∷◌, pos, negsuc}
use rtl_sdr.Dsp.Plan.{
  trial, next_factor, split_loop, split, exchange, sort, product, Plan, tap_count, stage_loop,
  plan_stages, make_plan, validate,
}
use rtl_sdr.Dsp.Plan.Sound.{Sound, make_plan-Sound}
use rtl_sdr.Dsp.Plan.Accept.{make_plan_total}

-- 2.4 MHz to 48 kHz, with the default bandwidth and a channel below the center.
abbrev narrow : Plan
narrow = record {
  bandwidth = 38400;
  stages =
      record { factor = 5; taps = 87; cutoff_num = 518400; cutoff_den = 9600000 }
      ∷ record { factor = 5; taps = 135; cutoff_num = 134400; cutoff_den = 1920000 }
      ∷ record { factor = 2; taps = 161; cutoff_num = 86400; cutoff_den = 384000 }
      ∷ [];
}

split_example : split 50 ≡ 2 ∷ 5 ∷ 5 ∷ []
unfolding split split_loop next_factor trial
split_example = refl

make_plan_example : make_plan 2400000 48000 0 (negsuc 499999) ≡ some narrow
unfolding make_plan plan_stages split split_loop next_factor trial sort exchange product stage_loop
    tap_count
make_plan_example = refl

-- 1019 is a prime: its stage would need more than 16383 taps.
too_sharp_example : make_plan 2038000 2000 0 (pos 0) ≡ none
unfolding make_plan plan_stages split split_loop next_factor trial sort exchange product stage_loop
    tap_count
too_sharp_example = refl

make_plan-Sound_example : Sound 2400000 48000 (negsuc 499999) narrow
make_plan-Sound_example = make_plan-Sound 2400000 48000 0 (negsuc 499999) refl make_plan_example

make_plan_total_example : (p : Plan) × (make_plan 2400000 48000 0 (negsuc 499999) ≡ some p)
unfolding split split_loop next_factor trial sort exchange tap_count
make_plan_total_example =
    make_plan_total 2400000 48000 0 (negsuc 499999) refl
      (
        omega arith,
        omega arith,
        omega arith,
        refl,
        omega arith,
        refl,
        omega arith,
        refl,
        omega arith,
      )
      (omega arith, (omega arith, (omega arith, tt)))

validate_centered : validate 2400000 48000 0 (pos 0) ≡ some 38400
unfolding validate make_plan plan_stages split split_loop next_factor trial sort exchange product
    stage_loop tap_count
validate_centered = refl
