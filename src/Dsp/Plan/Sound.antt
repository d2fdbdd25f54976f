-- ===== src/Dsp/Plan/Sound.antt =====
-- What a plan that `make_plan` accepts promises, and which requests it accepts.
use rtl_sdr.Prelude.{
  ℕ, ◌+◌, ◌-◌, ◌*◌, ◌/◌, ◌%◌, ◌^◌, ◌≤◌, ◌<◌, ◌≡◌, refl, ◌∙◌, ap, none, some, arith,
}
use rtl_sdr.Prelude.{Bool, true, false, not, ◌||◌, ◌&&◌, if◌then◌else◌, ◌==◌, u64, sub64, Option, ℤ}
use rtl_sdr.Prelude.{List, map, length, ltb, subst⁻¹, sym, length-map}
use rtl_sdr.Prelude.{or_eq_false}
use rtl_sdr.Dsp.Plan.{
  max_stages, Stage, Plan, distance, is_int64_min, is_raw, effective, plan_stages, make_plan, split,
  sort, stage_loop, product,
}
use rtl_sdr.Dsp.Plan.Factors.{product-sort, product-split, pos_right}
use rtl_sdr.Dsp.Plan.Order.{Descending, sort-Descending, length-sort, length-split}
use rtl_sdr.Dsp.Plan.Stages.{Chain, AreFilters, stage_loop-AreFilters}
use native.Mathlib.Nat.{div-add-mod'}

-- The requests that the rates, the bandwidth and the offset allow.
abbrev pub IsAllowed : ℕ → ℕ → ℕ → ℤ → Type 0
IsAllowed input_rate output_rate bandwidth offset =
    (0 < output_rate)
    × (output_rate ≤ input_rate)
    × (input_rate < 2 ^ 32)
    × (input_rate % output_rate ≡ 0)
    × (input_rate / output_rate ≤ 4096)
    × (is_int64_min offset ≡ false)
    × (0 < effective output_rate bandwidth)
    × (not (is_raw input_rate output_rate bandwidth offset)
          && ltb (u64 (4 * output_rate) / 5) (effective output_rate bandwidth)
        ≡ false)
    × (distance offset ≤ sub64 input_rate (effective output_rate bandwidth) / 2)

guard_lem :
    {A : Type 0} (b : Bool) (o : Option A) {a : A}
    → (if b then none else o) ≡ some a
    → (b ≡ false) × (o ≡ some a)
guard_lem true o e = cc
guard_lem false o e = (refl, e)

-- The three guards of `make_plan`.
abbrev pub bad_rates : ℕ → ℕ → ℤ → Bool
bad_rates i o x =
    o == 0
    || ltb i o
    || ltb (2 ^ 32 - 1) i
    || not (i % o == 0)
    || ltb 4096 (i / o)
    || is_int64_min x

abbrev pub too_wide : ℕ → ℕ → ℕ → ℤ → Bool
too_wide i o b x = not (is_raw i o b x) && ltb (u64 (4 * o) / 5) (effective o b)

abbrev pub bad_band : ℕ → ℕ → ℕ → ℤ → Bool
bad_band i o b x = effective o b == 0 || too_wide i o b x

abbrev pub bad_offset : ℕ → ℕ → ℕ → ℤ → Bool
bad_offset i o b x = ltb (sub64 i (effective o b) / 2) (distance x)

make_plan-eq_stages :
    (i o b : ℕ) (x : ℤ) {p : Plan}
    → make_plan i o b x ≡ some p
    → (bad_rates i o x ≡ false)
      × (bad_band i o b x ≡ false)
      × (bad_offset i o b x ≡ false)
      × (plan_stages (is_raw i o b x) i (i / o) (effective o b) ≡ some p)
unfolding make_plan
make_plan-eq_stages i o b x {p} e =
    let rest = plan_stages (is_raw i o b x) i (i / o) (effective o b) in
    let offset = if bad_offset i o b x then none else rest in
    let (g1, e1) = guard_lem (bad_rates i o x) (if bad_band i o b x then none else offset) e in
    let (g2, e2) = guard_lem (bad_band i o b x) offset e1 in
    let (g3, e3) = guard_lem (bad_offset i o b x) rest e2 in (g1, g2, g3, e3)

bad_rates_lem :
    (i o : ℕ) (x : ℤ)
    → bad_rates i o x ≡ false
    → (0 < o) × (o ≤ i) × (i < 2 ^ 32) × (i % o ≡ 0) × (i / o ≤ 4096) × (is_int64_min x ≡ false)
bad_rates_lem i o x g =
    let c1 = o == 0 || ltb i o in
    let c2 = c1 || ltb (2 ^ 32 - 1) i in
    let c3 = c2 || not (i % o == 0) in
    let (r4, h5) = or_eq_false (c3 || ltb 4096 (i / o)) (is_int64_min x) g in
    let (r3, h4) = or_eq_false c3 (ltb 4096 (i / o)) r4 in
    let (r2, h3) = or_eq_false c2 (not (i % o == 0)) r3 in
    let (r1, h2) = or_eq_false c1 (ltb (2 ^ 32 - 1) i) r2 in
    let (h0, h1) = or_eq_false (o == 0) (ltb i o) r1 in
    (ground arith, ground arith, ground arith, ground arith, ground arith, h5)

make_plan-IsAllowed :
    (i o b : ℕ) (x : ℤ) {p : Plan}
    → make_plan i o b x ≡ some p
    → IsAllowed i o b x × (plan_stages (is_raw i o b x) i (i / o) (effective o b) ≡ some p)
make_plan-IsAllowed i o b x {p} e =
    let (g1, g2, g3, e3) = make_plan-eq_stages i o b x e in
    let (h0, h1, h2, h3, h4, h5) = bad_rates_lem i o x g1 in
    let (k1, k2) = or_eq_false (effective o b == 0) (too_wide i o b x) g2 in
    ((h0, h1, h2, h3, h4, h5, ground arith, k2, ground arith), e3)

check_lem :
    {A : Type 0} (b : Bool) (o : Option (List A)) {B : Type 0} (f : List A → B) {p : B}
    → (if b then none else elim o [ none ↦ none | some ss ↦ some (f ss) ]) ≡ some p
    → (ss : List A) × (o ≡ some ss) × (p ≡ f ss)
check_lem true o f e = cc
check_lem false none f e = cc
check_lem false (some ss) f e = (ss, refl, ground arith)

abbrev pub sorted : ℕ → List ℕ
sorted ratio = sort (length (split ratio)) (split ratio)

plan_stages-eq :
    (raw : Bool) (i ratio bw : ℕ) {p : Plan}
    → plan_stages raw i ratio bw ≡ some p
    → (ss : List Stage) × (stage_loop raw bw i (sorted ratio) ≡ some ss)
      × (p ≡ record { bandwidth = bw; stages = ss })
unfolding plan_stages
plan_stages-eq raw i ratio bw {p} e =
    check_lem (not (product (sorted ratio) == ratio)) (stage_loop raw bw i (sorted ratio))
      (λ ss. record { bandwidth = bw; stages = ss }) e

-- The rates and the bandwidth that the guards allow, as the stages use them.
band_lem : (r c : Bool) → r ≡ false → not r && c ≡ false → c ≡ false
band_lem true c e h = cc
band_lem false c e h = h

below_lem : (o e : ℕ) → 0 < o → o < 2 ^ 32 → ltb (u64 (4 * o) / 5) e ≡ false → e < o
below_lem o e k l h = ground arith

pub IsAllowed-Chain :
    (i o b : ℕ) (x : ℤ)
    → is_raw i o b x ≡ false
    → IsAllowed i o b x
    → (0 < i / o) × (effective o b < o) × (i / o * o ≡ i)
IsAllowed-Chain i o b x r h = (
  pos_right o (i / o) i (omega (arith, div-add-mod' i o, h.3)) (omega (arith, h.0, h.1)),
  below_lem o (effective o b) h.0 (omega (arith, h.1, h.2)) (band_lem (is_raw i o b x) _ r h.7),
  omega (arith, div-add-mod' i o, h.3),
)

offset_lem : (i bw d : ℕ) → bw ≤ i → i < 2 ^ 32 → d ≤ sub64 i bw / 2 → 2 * d + bw ≤ i
offset_lem i bw d h k l = omega arith

-- What a plan promises that is not for the raw spectrum.
abbrev pub Sound : ℕ → ℕ → ℤ → Plan → Type 0
Sound i o x p =
    (product (map (λ st. st.factor) p.stages) * o ≡ i)
    × (1 ≤ length p.stages)
    × (length p.stages ≤ max_stages)
    × Descending (map (λ st. st.factor) p.stages)
    × AreFilters p.bandwidth i p.stages
    × (p.bandwidth < o)
    × (2 * distance x + p.bandwidth ≤ i)

-- If make_plan accepts a request that is not for the raw spectrum, then the factors of the stages
-- multiply to input_rate / output_rate exactly, there are one to five stages with factors in falling
-- order, every stage is a filter that fits its rates (IsFilter), and the channel lies inside the
-- captured spectrum.
pub make_plan-Sound :
    (i o b : ℕ) (x : ℤ) {p : Plan}
    → is_raw i o b x ≡ false
    → make_plan i o b x ≡ some p
    → Sound i o x p
make_plan-Sound i o b x {p} r e =
    let (h, e1) = make_plan-IsAllowed i o b x e in
    let (ratio_pos, below, whole) = IsAllowed-Chain i o b x r h in
    let bw = effective o b in
    let (ss, e2, s) =
      plan_stages-eq false i (i / o) bw (ap (λ t. plan_stages t i (i / o) bw) (sym r) ∙ e1) in
    let fs = sorted (i / o) in
    let prod =
      product-sort (length (split (i / o))) (split (i / o)) ∙ product-split (i / o) ratio_pos in
    let chain : Chain bw o i fs = (sym whole ∙ ap (λ t. t * o) (sym prod), below, h.2) in
    let (factors, filters) =
      stage_loop-AreFilters bw o i fs (omega (arith, prod, ratio_pos)) chain e2 in
    let size =
      sym (length-map (λ st. st.factor) ss)
      ∙ ap length factors
      ∙ length-sort (length (split (i / o))) (split (i / o)) in
    let sizes = length-split (i / o) in
    subst⁻¹ (Sound i o x) s (
      ap (λ t. product t * o) factors ∙ ap (λ t. t * o) prod ∙ whole,
      omega (arith, size, sizes.0),
      omega (arith, size, sizes.1),
      subst⁻¹ Descending factors
          (sort-Descending (length (split (i / o))) (split (i / o)) (omega arith)),
      filters,
      below,
      offset_lem i bw (distance x) (omega (arith, below, h.1)) h.2 h.8,
    )
