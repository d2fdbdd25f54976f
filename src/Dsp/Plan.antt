-- ===== src/Dsp/Plan.antt =====
-- `make_plan` of src/rtl_dsp.c: the factors of the decimation and the taps of each filter stage. A
-- result of -1 is `none`.
pub mod Factors
pub mod Order
pub mod Stages
pub mod Sound
pub mod Accept
pub mod Tests
use rtl_sdr.Prelude.{
  ℕ, zero, suc, ◌+◌, ◌-◌, ◌*◌, ◌/◌, ◌%◌, ◌^◌, Bool, false, not, ◌&&◌, ◌||◌, Option, none, some,
}
use rtl_sdr.Prelude.{
  List, [], ◌∷◌, ◌++◌, ltb, leb, ◌==◌, if◌then◌else◌, length, u64, sub64, ℤ, pos, negsuc,
}

abbrev pub max_taps : ℕ
max_taps = 16383

abbrev pub max_stages : ℕ
max_stages = 5

-- `for (f = 5; f * f <= remaining; f++) if (remaining % f == 0) break;`, with fuel; `none` is
-- `f * f > remaining` at the end.
pub trial : ℕ → ℕ → ℕ → Option ℕ
trial zero f r = none
trial (suc fuel) f r =
    let rest = trial fuel (f + 1) r in
    if ltb r (f * f) then none else if r % f == 0 then some f else rest

-- The factor that one round takes, if it finds one. Since `f` grows, `remaining` rounds are enough.
pub next_factor : ℕ → Option ℕ
next_factor r =
    if r % 4 == 0
    then some 4
    else if r % 3 == 0
    then some 3
    else if r % 2 == 0
    then some 2
    else trial r 5 r

-- The `while` loop over `remaining`, with `left` stages of `MAX_STAGES - 1` still free: the factors
-- found, and what remains.
pub split_loop : ℕ → ℕ → List ℕ × ℕ
split_loop zero r = ([], r)
split_loop (suc left) r = if leb r 1 then ([], r) else elim (next_factor r) [
  | none ↦ ([], r)
  | some f ↦ (let (fs, r') = split_loop left (r / f) in (f ∷ fs, r'))
]

-- All the factors, in the order in which they are found.
pub split : ℕ → List ℕ
split ratio =
    let (fs, r) = split_loop (max_stages - 1) ratio in
    if ltb 1 r || length fs == 0 then fs ++ (r ∷ []) else fs

-- The inner loop of the sort: `x` is `factors[i]`, and the list is `factors[i + 1]` on.
pub exchange : ℕ → List ℕ → ℕ × List ℕ
exchange x [] = (x, [])
exchange x (y ∷ ys) =
    let (m, rest) = exchange (if ltb x y then y else x) ys in (m, (if ltb x y then x else y) ∷ rest)

-- The outer loop, with a round for each factor.
pub sort : ℕ → List ℕ → List ℕ
sort zero fs = fs
sort (suc k) [] = []
sort (suc k) (x ∷ xs) = let (m, rest) = exchange x xs in m ∷ sort k rest

pub product : List ℕ → ℕ
product [] = 1
product (f ∷ fs) = f * product fs

-- A stage of the plan. The cutoff is the `double` nearest to the quotient of two whole numbers that
-- `double` holds exactly.
pub record Stage : Type 0 where
  pub factor : ℕ
  pub taps : ℕ
  pub cutoff_num : ℕ
  pub cutoff_den : ℕ

-- `struct dsp_plan`
pub record Plan : Type 0 where
  pub bandwidth : ℕ
  pub stages : List Stage

-- The number of taps of a stage, odd and at least 3.
pub tap_count : ℕ → ℕ → ℕ
tap_count rate transition =
    let taps = u64 (u64 (16 * rate + transition) + 2 ^ 64 - 1) / transition in
    let least = if ltb taps 3 then 3 else taps in if least % 2 == 0 then least + 1 else least

-- The last loop: `rate` is the rate at the input of the first stage of the list.
pub stage_loop : Bool → ℕ → ℕ → List ℕ → Option (List Stage)
stage_loop raw bandwidth rate [] = some []
stage_loop raw bandwidth rate (f ∷ fs) =
    let next = rate / f in
    let rest = stage_loop raw bandwidth next fs in
    let taps = tap_count rate (sub64 next bandwidth) in
    if raw
    then elim rest [
      | none ↦ none
      | some ss ↦ some (record { factor = f; taps = 1; cutoff_num = 1; cutoff_den = 2 } ∷ ss)
    ]
    else if ltb max_taps taps
    then none
    else elim rest [
      | none ↦ none
      | some ss ↦ some (
          record {
            factor = f;
            taps = taps;
            cutoff_num = u64 (bandwidth + next);
            cutoff_den = 4 * rate;
          }
          ∷ ss)
    ]

-- `offset`, the distance of the channel from the capture center.
abbrev pub distance : ℤ → ℕ
distance (pos n) = n
distance (negsuc n) = suc n

abbrev pub is_int64_min : ℤ → Bool
is_int64_min (pos n) = false
is_int64_min (negsuc n) = suc n == 2 ^ 63

abbrev pub is_raw : ℕ → ℕ → ℕ → ℤ → Bool
is_raw input_rate output_rate bandwidth offset =
    bandwidth == input_rate && output_rate == input_rate && distance offset == 0

-- `if (!bandwidth) bandwidth = 4 * output_rate / 5;`
abbrev pub effective : ℕ → ℕ → ℕ
effective output_rate bandwidth = if bandwidth == 0 then u64 (4 * output_rate) / 5 else bandwidth

-- The plan from the factors on.
pub plan_stages : Bool → ℕ → ℕ → ℕ → Option Plan
plan_stages raw input_rate ratio bandwidth =
    let factors = split ratio in
    let sorted = sort (length factors) factors in
    if not (product sorted == ratio)
    then none
    else elim (stage_loop raw bandwidth input_rate sorted) [
      | none ↦ none
      | some ss ↦ some (record { bandwidth = bandwidth; stages = ss })
    ]

-- `make_plan`
pub make_plan : ℕ → ℕ → ℕ → ℤ → Option Plan
make_plan input_rate output_rate bandwidth offset =
    let raw = is_raw input_rate output_rate bandwidth offset in
    let bw = effective output_rate bandwidth in
    if output_rate == 0
      || ltb input_rate output_rate
      || ltb (2 ^ 32 - 1) input_rate
      || not (input_rate % output_rate == 0)
      || ltb 4096 (input_rate / output_rate)
      || is_int64_min offset
    then none
    else if bw == 0 || not raw && ltb (u64 (4 * output_rate) / 5) bw
    then none
    else if ltb (sub64 input_rate bw / 2) (distance offset)
    then none
    else plan_stages raw input_rate (input_rate / output_rate) bw

-- `rtlsdr_dsp_validate`: the effective bandwidth is written only on success.
pub validate : ℕ → ℕ → ℕ → ℤ → Option ℕ
validate input_rate output_rate bandwidth offset =
    elim (make_plan input_rate output_rate bandwidth offset) [
      | none ↦ none
      | some plan ↦ some plan.bandwidth
    ]
