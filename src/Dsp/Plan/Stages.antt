-- ===== src/Dsp/Plan/Stages.antt =====
-- The stages of a plan: the rates from stage to stage, and the length of each filter.
use rtl_sdr.Prelude.{
  ℕ, ◌+◌, ◌-◌, ◌*◌, ◌/◌, ◌%◌, ◌^◌, ◌≤◌, ◌<◌, ◌≡◌, refl, ◌∙◌, ap, none, some, arith,
}
use rtl_sdr.Prelude.{false, if◌then◌else◌, ◌==◌, u64, sub64, Option}
use rtl_sdr.Prelude.{List, [], ◌∷◌, map, ltb, subst⁻¹, mul_mono}
use rtl_sdr.Dsp.Plan.{max_taps, Stage, tap_count, stage_loop, product}
use rtl_sdr.Dsp.Plan.Factors.{pos_right}
use native.Mathlib.Nat.{div-add-mod', mod-lt, mul-div_right, div-le_self}

-- A filter stage at the input rate `rate` that passes `bandwidth`: its length is odd, at least 3, at
-- most MAX_TAPS, and at least 8 * rate over the distance between the edge of the pass band and the
-- edge of the stop band; its cutoff is below half of the input rate.
abbrev pub IsFilter : ℕ → ℕ → Stage → Type 0
IsFilter bandwidth rate st =
    (st.taps % 2 ≡ 1)
    × (3 ≤ st.taps)
    × (st.taps ≤ max_taps)
    × (16 * rate ≤ st.taps * (rate / st.factor - bandwidth))
    × (2 * st.cutoff_num ≤ st.cutoff_den)

-- Each stage is such a filter at the rate that the stages before it leave.
abbrev pub AreFilters : ℕ → ℕ → List Stage → Type 0
AreFilters bandwidth rate [] = Unit {0}
AreFilters bandwidth rate (st ∷ ss) =
    IsFilter bandwidth rate st × AreFilters bandwidth (rate / st.factor) ss

-- Where the code does no unsigned wrap-around and no division by zero.
abbrev pub Chain : ℕ → ℕ → ℕ → List ℕ → Type 0
Chain bandwidth output_rate rate fs =
    (rate ≡ product fs * output_rate) × (bandwidth < output_rate) × (rate < 2 ^ 32)

ceil_lem : (n t : ℕ) → 0 < t → n ≤ (n + t - 1) / t * t
ceil_lem n t h = omega (arith, div-add-mod' (n + t - 1) t, mod-lt (n + t - 1) h)

odd_lem :
    (q : ℕ)
    → let least = if ltb q 3 then 3 else q in
      let n = if least % 2 == 0 then least + 1 else least in (n % 2 ≡ 1) × (3 ≤ n) × (q ≤ n)
odd_lem q = ground arith

quotient_lem :
    (rate t : ℕ)
    → 0 < t
    → rate < 2 ^ 32
    → t < 2 ^ 32
    → u64 (u64 (16 * rate + t) + 2 ^ 64 - 1) / t ≡ (16 * rate + t - 1) / t
quotient_lem rate t h k l = ap (λ x. x / t) (omega arith)

tap_count_lem :
    (rate t : ℕ)
    → 0 < t
    → rate < 2 ^ 32
    → t < 2 ^ 32
    → (tap_count rate t % 2 ≡ 1) × (3 ≤ tap_count rate t) × (16 * rate ≤ tap_count rate t * t)
unfolding tap_count
tap_count_lem rate t h k l =
    let q = u64 (u64 (16 * rate + t) + 2 ^ 64 - 1) / t in
    let p = odd_lem q in
    (
      p.0,
      p.1,
      omega (
        arith,
        mul_mono q (tap_count rate t) t p.2,
        ap (λ x. x * t) (quotient_lem rate t h k l),
        ceil_lem (16 * rate) t h,
      ),
    )

-- One step of the chain of rates.
pub Chain-step :
    (bw out rate f : ℕ) (fs : List ℕ)
    → 0 < product (f ∷ fs)
    → Chain bw out rate (f ∷ fs)
    → (0 < f) × (0 < product fs) × Chain bw out (rate / f) fs × (bw < rate / f)
unfolding product
Chain-step bw out rate f fs h c =
    let n = product fs in
    let f_pos = pos_right n f _ (omega arith) h in
    let n_pos = pos_right f n _ refl h in
    let next = ap (λ t. t / f) (c.0 ∙ omega arith) ∙ mul-div_right (n * out) f_pos in
    (
      f_pos,
      n_pos,
      (next, c.1, omega (arith, c.0, next, c.2, mul_mono 1 f (n * out) f_pos)),
      omega (arith, next, c.1, mul_mono 1 n out n_pos),
    )

-- What a stage that is added to the front demands.
cons_lem :
    (t : ℕ) (o : Option (List Stage)) (st : Stage) {ss : List Stage}
    → (if ltb max_taps t then none else elim o [ none ↦ none | some rest ↦ some (st ∷ rest) ])
      ≡ some ss
    → (t ≤ max_taps) × (rest : List Stage) × (o ≡ some rest) × (ss ≡ st ∷ rest)
cons_lem t none st e = ground arith
cons_lem t (some rest) st e = (ground arith, rest, refl, ground arith)

abbrev pub filter_at : ℕ → ℕ → ℕ → Stage
filter_at bw rate f = record {
  factor = f;
  taps = tap_count rate (sub64 (rate / f) bw);
  cutoff_num = u64 (bw + rate / f);
  cutoff_den = 4 * rate;
}

filter_at-IsFilter :
    (bw rate f : ℕ)
    → 0 < f
    → bw < rate / f
    → rate < 2 ^ 32
    → tap_count rate (sub64 (rate / f) bw) ≤ max_taps
    → IsFilter bw rate (filter_at bw rate f)
filter_at-IsFilter bw rate f f_pos h k l =
    let t = rate / f - bw in
    let below = div-le_self rate f in
    let p = tap_count_lem rate (sub64 (rate / f) bw) (omega arith) k (omega arith) in
    (
      p.0,
      p.1,
      l,
      omega (
        arith,
        p.2,
        ap (λ x. tap_count rate (sub64 (rate / f) bw) * x) {x = sub64 (rate / f) bw} {y = t}
            (omega arith),
      ),
      omega arith,
    )

pub stage_loop-AreFilters :
    (bw out rate : ℕ) (fs : List ℕ) {ss : List Stage}
    → 0 < product fs
    → Chain bw out rate fs
    → stage_loop false bw rate fs ≡ some ss
    → (map (λ t. t.factor) ss ≡ fs) × AreFilters bw rate ss
unfolding stage_loop
stage_loop-AreFilters bw out rate [] {ss = []} h c e = (refl, tt)
stage_loop-AreFilters bw out rate [] {ss = st ∷ ss} h c e = cc
stage_loop-AreFilters bw out rate (f ∷ fs) {ss} h c e =
    let (l, rest, e', s) =
      cons_lem (tap_count rate (sub64 (rate / f) bw)) (stage_loop false bw (rate / f) fs)
        (filter_at bw rate f) e in
    let (f_pos, n_pos, c', b) = Chain-step bw out rate f fs h c in
    let ih = stage_loop-AreFilters bw out (rate / f) fs n_pos c' e' in
    subst⁻¹ (λ t. (map (λ t. t.factor) t ≡ f ∷ fs) × AreFilters bw rate t) s
      (ap (λ t. f ∷ t) ih.0, (filter_at-IsFilter bw rate f f_pos b c.2 l, ih.1))
