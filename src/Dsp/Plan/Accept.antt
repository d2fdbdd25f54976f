-- ===== src/Dsp/Plan/Accept.antt =====
-- The requests that `make_plan` accepts.
use rtl_sdr.Prelude.{ℕ, ◌-◌, ◌*◌, ◌/◌, ◌%◌, ◌^◌, ◌≤◌, ◌<◌, ◌≡◌, refl, ◌∙◌, ap, none, some, arith}
use rtl_sdr.Prelude.{
  Bool, true, false, not, ◌||◌, ◌&&◌, if◌then◌else◌, ◌==◌, u64, sub64, Option, ℤ, pos,
}
use rtl_sdr.Prelude.{List, [], ◌∷◌, length, ltb, sym}
use rtl_sdr.Prelude.{or_false}
use rtl_sdr.Dsp.Plan.{
  max_taps, Stage, Plan, is_int64_min, is_raw, effective, plan_stages, make_plan, split, split_loop,
  exchange, sort, stage_loop, product, tap_count,
}
use rtl_sdr.Dsp.Plan.Factors.{product-sort, product-split}
use rtl_sdr.Dsp.Plan.Stages.{filter_at, Chain, Chain-step}
use rtl_sdr.Dsp.Plan.Sound.{
  IsAllowed, IsAllowed-Chain, sorted, bad_rates, too_wide, bad_band, bad_offset,
}
use native.Mathlib.Nat.{mod_self, div_self}

-- Every stage keeps to MAX_TAPS.
abbrev pub AllShort : ℕ → ℕ → List ℕ → Type 0
AllShort bw rate [] = Unit {0}
AllShort bw rate (f ∷ fs) = (tap_count rate (rate / f - bw) ≤ max_taps) × AllShort bw (rate / f) fs

add_lem :
    (t : ℕ) (o : Option (List Stage)) (st : Stage) {rest : List Stage}
    → t ≤ max_taps
    → o ≡ some rest
    → (if ltb max_taps t then none else elim o [ none ↦ none | some rest ↦ some (st ∷ rest) ])
      ≡ some (st ∷ rest)
add_lem t none st h e = cc
add_lem t (some r) st h e = ground arith

stage_loop-total :
    (bw out rate : ℕ) (fs : List ℕ)
    → 0 < product fs
    → Chain bw out rate fs
    → AllShort bw rate fs
    → (ss : List Stage) × (stage_loop false bw rate fs ≡ some ss)
unfolding stage_loop
stage_loop-total bw out rate [] h c s = ([], refl)
stage_loop-total bw out rate (f ∷ fs) h c s =
    let (f_pos, n_pos, c', b) = Chain-step bw out rate f fs h c in
    let (rest, e) = stage_loop-total bw out (rate / f) fs n_pos c' s.1 in
    let short =
      ap (tap_count rate) {x = sub64 (rate / f) bw} {y = rate / f - bw} (omega (arith, c'.2, b)) in
    (
      filter_at bw rate f ∷ rest,
      add_lem (tap_count rate (sub64 (rate / f) bw)) (stage_loop false bw (rate / f) fs)
          (filter_at bw rate f) (omega (arith, short, s.0)) e,
    )

check_pass :
    (b : Bool) (o : Option (List Stage)) (f : List Stage → Plan) {ss : List Stage}
    → b ≡ false
    → o ≡ some ss
    → (if b then none else elim o [ none ↦ none | some ss ↦ some (f ss) ]) ≡ some (f ss)
check_pass true o f e k = cc
check_pass false none f e k = cc
check_pass false (some ss) f e k = ground arith

plan_stages-eq_some :
    (raw : Bool) (i ratio bw : ℕ) {ss : List Stage}
    → 0 < ratio
    → stage_loop raw bw i (sorted ratio) ≡ some ss
    → plan_stages raw i ratio bw ≡ some (record { bandwidth = bw; stages = ss })
unfolding plan_stages
plan_stages-eq_some raw i ratio bw {ss} h e =
    let prod = product-sort (length (split ratio)) (split ratio) ∙ product-split ratio h in
    check_pass (not (product (sorted ratio) == ratio)) (stage_loop raw bw i (sorted ratio))
      (λ ss. record { bandwidth = bw; stages = ss }) (ground arith) e

guard_pass : {A : Type 0} (b : Bool) (o : Option A) → b ≡ false → (if b then none else o) ≡ o
guard_pass true o e = cc
guard_pass false o e = refl

bad_rates-eq_false : (i o b : ℕ) (x : ℤ) → IsAllowed i o b x → bad_rates i o x ≡ false
bad_rates-eq_false i o b x h =
    let c1 = o == 0 || ltb i o in
    let c2 = c1 || ltb (2 ^ 32 - 1) i in
    let c3 = c2 || not (i % o == 0) in
    or_false (c3 || ltb 4096 (i / o)) (is_int64_min x)
      (or_false c3 (ltb 4096 (i / o))
        (or_false c2 (not (i % o == 0))
          (or_false c1 (ltb (2 ^ 32 - 1) i)
            (or_false (o == 0) (ltb i o) (ground arith) (ground arith)) (ground arith))
          (ground arith))
        (ground arith))
      h.5

make_plan-IsAllowed_eq :
    (i o b : ℕ) (x : ℤ)
    → IsAllowed i o b x
    → make_plan i o b x ≡ plan_stages (is_raw i o b x) i (i / o) (effective o b)
unfolding make_plan
make_plan-IsAllowed_eq i o b x h =
    let rest = plan_stages (is_raw i o b x) i (i / o) (effective o b) in
    let offset = if bad_offset i o b x then none else rest in
    guard_pass (bad_rates i o x) (if bad_band i o b x then none else offset)
      (bad_rates-eq_false i o b x h)
    ∙ guard_pass (bad_band i o b x) offset
        (or_false (effective o b == 0) (too_wide i o b x) (ground arith) h.7)
    ∙ guard_pass (bad_offset i o b x) rest (ground arith)

-- A request that is not for the raw spectrum, whose rates, bandwidth and offset are allowed
-- (IsAllowed) and for which every stage keeps to MAX_TAPS, has a plan: no other check of make_plan
-- fails.
pub make_plan_total :
    (i o b : ℕ) (x : ℤ)
    → is_raw i o b x ≡ false
    → IsAllowed i o b x
    → AllShort (effective o b) i (sorted (i / o))
    → (p : Plan) × (make_plan i o b x ≡ some p)
make_plan_total i o b x r h k =
    let (ratio_pos, below, whole) = IsAllowed-Chain i o b x r h in
    let bw = effective o b in
    let fs = sorted (i / o) in
    let prod =
      product-sort (length (split (i / o))) (split (i / o)) ∙ product-split (i / o) ratio_pos in
    let chain : Chain bw o i fs = (sym whole ∙ ap (λ t. t * o) (sym prod), below, h.2) in
    let (ss, e) = stage_loop-total bw o i fs (omega (arith, prod, ratio_pos)) chain k in
    (
      record { bandwidth = bw; stages = ss },
      make_plan-IsAllowed_eq i o b x h
          ∙ ap (λ t. plan_stages t i (i / o) bw) r
          ∙ plan_stages-eq_some false i (i / o) bw ratio_pos e,
    )

raw_lem : (i : ℕ) → is_raw i i i (pos 0) ≡ true
raw_lem i = ground arith

raw-IsAllowed : (i : ℕ) → 0 < i → i < 2 ^ 32 → IsAllowed i i i (pos 0)
raw-IsAllowed i h k = (
  h,
  omega arith,
  k,
  mod_self i,
  omega (arith, div_self h),
  refl,
  ground arith,
  ap (λ r. not r && ltb (u64 (4 * i) / 5) (effective i i)) (raw_lem i),
  omega arith,
)

stage_loop-eq_raw :
    (i : ℕ)
    → stage_loop true i i (sorted 1)
      ≡ some (record { factor = 1; taps = 1; cutoff_num = 1; cutoff_den = 2 } ∷ [])
unfolding sort split stage_loop split_loop exchange
stage_loop-eq_raw i = refl

-- A request for the raw spectrum, at any rate from 1 to 2 ^ 32 - 1, has the plan with one stage that
-- keeps every sample: factor 1 and a single tap.
pub make_plan_raw :
    (i : ℕ)
    → 0 < i
    → i < 2 ^ 32
    → make_plan i i i (pos 0)
      ≡ some (record {
        bandwidth = i;
        stages = record { factor = 1; taps = 1; cutoff_num = 1; cutoff_den = 2 } ∷ [];
      })
make_plan_raw i h k =
    make_plan-IsAllowed_eq i i i (pos 0) (raw-IsAllowed i h k)
    ∙ ap (λ r. plan_stages r i (i / i) (effective i i)) (raw_lem i)
    ∙ ap (λ q. plan_stages true i q (effective i i)) (div_self h)
    ∙ ap (λ bw. plan_stages true i 1 bw) {x = effective i i} {y = i} (ground arith)
    ∙ plan_stages-eq_some true i 1 i (omega arith) (stage_loop-eq_raw i)
