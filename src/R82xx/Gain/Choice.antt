-- ===== src/R82xx/Gain/Choice.antt =====
-- The gains and filters that are chosen.
use rtl_sdr.Prelude.{
  ℕ, zero, suc, ◌+◌, ◌-◌, ◌/◌, ◌%◌, ◌≤◌, ◌<◌, ◌≡◌, ◌⊎◌, inl, inr, refl, ap, ap₂, subst, ◌∙◌, arith,
  true, false, List, [], ◌∷◌, get_or, ℤ, pos_part, ltb, if◌then◌else◌, if_cases, u32, bit_or,
  bit_or_disjoint, ◌==◌,
}
use rtl_sdr.R82xx.Gain.{
  Gains, add_step, reaches, pick, gains_for, lna_gain_steps, mixer_gain_steps, low_pass_table,
  first_below, Filters, filter_at, narrow, high_pass_1, filters_for,
}

-- The gain of two indices, from the tables of the steps.
abbrev lna_sum : ℕ → List ℕ → ℕ
lna_sum k [] = 0
lna_sum zero (x ∷ xs) = x
lna_sum (suc k) (x ∷ xs) = x + lna_sum k xs

abbrev mixer_sum : ℕ → List ℤ → ℕ → ℕ
mixer_sum k [] total = total
mixer_sum zero (x ∷ xs) total = add_step total x
mixer_sum (suc k) (x ∷ xs) total = mixer_sum k xs (add_step total x)

abbrev gain_of : ℕ → ℕ → ℕ
gain_of lna mix = mixer_sum mix mixer_gain_steps (lna_sum lna lna_gain_steps)

-- The setting one step below.
abbrev gain_below : ℕ → ℕ → ℕ
gain_below lna mix = if ltb mix lna then gain_of (lna - 1) mix else gain_of lna (mix - 1)

-- Indices within their tables, the mixer's with the LNA's or one behind it; the total that belongs
-- to them; a total that reaches the wanted gain unless that is more than 49.6 dB; and nothing
-- reached one step below.
pub record Suits (gain : ℤ) (g : Gains) : Type 0 where
  pub within : g.lna_index ≤ 15
  pub together : g.mix_index ≤ g.lna_index
  pub close : g.lna_index ≤ g.mix_index + 1
  pub total : g.total_gain ≡ gain_of g.lna_index g.mix_index
  pub reached : (reaches g.total_gain gain ≡ true) ⊎ (497 ≤ pos_part gain)
  pub least : (g.lna_index ≡ 0) ⊎ (reaches (gain_below g.lna_index g.mix_index) gain ≡ false)

-- For any wanted gain, also a negative one, the indices that `r82xx_set_gain` chooses lie within
-- their tables of 16 steps, and the mixer's is the LNA's or one behind it; the total is the sum of
-- the steps up to them; it reaches the wanted gain, or that is more than 49.6 dB; and the setting one
-- step below, if there is one, does not reach it.
pub gains_for-Suits : (gain : ℤ) → Suits gain (gains_for gain)
unfolding gains_for pick
gains_for-Suits gain = ground arith

-- The low-pass filter of the lower half of register 0x0b, and what its bits 0x40 and 0x20 add where
-- they are clear: one of the high-pass filters each.
abbrev low_pass_of : ℕ → ℕ
low_pass_of reg_0b = get_or low_pass_table (15 - reg_0b % 16) 0

abbrev high_pass_of : ℕ → ℕ
high_pass_of reg_0b =
    (if reg_0b / 64 % 2 == 0 then 350000 else 0) + (if reg_0b / 32 % 2 == 0 then 380000 else 0)

-- For a bandwidth of at most 2.43 MHz: the filters let it pass; the next low-pass filter, if there
-- is one, would not; and the intermediate frequency puts the middle of what passes at 2.3 MHz and
-- the high-pass filters' part.
pub record Passes (bw : ℕ) (f : Filters) : Type 0 where
  pub enough : bw ≤ low_pass_of f.reg_0b + high_pass_of f.reg_0b
  pub narrowest :
      (f.reg_0b % 16 ≡ 6)
      ⊎ (get_or low_pass_table (16 - f.reg_0b % 16) 0 + high_pass_of f.reg_0b < bw)
  pub middle :
      f.if_freq + (low_pass_of f.reg_0b + high_pass_of f.reg_0b) / 2
      ≡ 2300000 + high_pass_of f.reg_0b

abbrev AllLe : ℕ → List ℕ → Type 0
AllLe m [] = Unit
AllLe m (x ∷ xs) = (x ≤ m) × AllLe m xs

get_or-le : (m : ℕ) (xs : List ℕ) (i : ℕ) → AllLe m xs → get_or xs i 0 ≤ m
get_or-le m [] i h = omega arith
get_or-le m (x ∷ xs) zero h = h.0
get_or-le m (x ∷ xs) (suc i) h = get_or-le m xs i h.1

-- The low-pass filter `i` lets `bw` pass, and the next one does not.
record Fits (bw i : ℕ) : Type 0 where
  in_table : i ≤ 9
  enough : bw ≤ get_or low_pass_table i 0
  next : (i ≡ 9) ⊎ (get_or low_pass_table (i + 1) 0 < bw)

stop_Fits : (bw : ℕ) → bw ≤ 1700000 → Fits bw (u32 (first_below bw low_pass_table + 4294967295))
unfolding first_below
stop_Fits bw h = ground arith

-- The byte for a filter, with the bits of the high-pass filters above it.
byte_lem : (bits i : ℕ) → bits % 16 ≡ 0 → i ≤ 9 → bit_or bits (15 - i) ≡ bits + (15 - i)
byte_lem bits i e h = bit_or_disjoint 4 bits (15 - i) e (omega arith)

high_pass_of-add :
    (bits i : ℕ) → bits % 16 ≡ 0 → i ≤ 9 → high_pass_of (bits + (15 - i)) ≡ high_pass_of bits
high_pass_of-add bits i e h =
    ap₂ (λ x y. (if x == 0 then 350000 else 0) + (if y == 0 then 380000 else 0)) (omega arith)
      (omega arith)

low_pass_of-add : (bits i : ℕ) → bits % 16 ≡ 0 → i ≤ 9 → 15 - (bits + (15 - i)) % 16 ≡ i
low_pass_of-add bits i e h = omega arith

filter_at-Passes :
    (bw i bits shift : ℕ)
    → Fits bw i
    → bits % 16 ≡ 0
    → shift ≡ high_pass_of bits
    → Passes (bw + shift) (filter_at i bits shift shift)
unfolding filter_at
filter_at-Passes bw i bits shift fit e hp = record {
  enough = omega (arith, low, high, hp, fit.enough);
  narrowest = next fit.next;
  middle = omega (arith, low, high, hp, get_or-le 1700000 low_pass_table i (omega arith));
}
  where
    reg : ℕ
    reg = bit_or bits (15 - i)

    low : low_pass_of reg ≡ get_or low_pass_table i 0
    low =
        ap low_pass_of (byte_lem bits i e fit.in_table)
        ∙ ap (λ t. get_or low_pass_table t 0) (low_pass_of-add bits i e fit.in_table)

    high : high_pass_of reg ≡ high_pass_of bits
    high = ap high_pass_of (byte_lem bits i e fit.in_table) ∙ high_pass_of-add bits i e fit.in_table

    digit : reg % 16 ≡ 15 - i
    digit = omega (arith, byte_lem bits i e fit.in_table, fit.in_table)

    next :
        (i ≡ 9) ⊎ (get_or low_pass_table (i + 1) 0 < bw)
        → (reg % 16 ≡ 6) ⊎ (get_or low_pass_table (16 - reg % 16) 0 + high_pass_of reg < bw + shift)
    next (inl last) = inl (omega (arith, digit))
    next (inr below) = inr (
        omega (
          arith,
          high,
          hp,
          ap (λ t. get_or low_pass_table (16 - t) 0) digit,
          ap (λ t. get_or low_pass_table t 0) sixteen,
        ))
      where
        sixteen : 16 - (15 - i) ≡ i + 1
        sixteen = omega (arith, fit.in_table)

narrow-Passes :
    (bw bits shift : ℕ)
    → bw ≤ 1700000
    → bits % 16 ≡ 0
    → shift ≡ high_pass_of bits
    → Passes (bw + shift) (narrow bw bits shift shift)
unfolding narrow
narrow-Passes bw bits shift h e hp = filter_at-Passes bw _ bits shift (stop_Fits bw h) e hp

with_second : (bw : ℕ) → bw ≤ 2050000 → Passes (bw + 380000) (high_pass_1 bw 0x80 380000)
unfolding high_pass_1
with_second bw h =
    if_cases (Passes (bw + 380000)) (ltb 1700000 bw) _ _
      (λ e.
        subst (λ t. Passes t (narrow (bw - 350000) 0x80 730000 730000)) (ground arith)
          (narrow-Passes (bw - 350000) 0x80 730000 (omega arith) refl refl))
      (λ e. narrow-Passes bw 0xc0 380000 (ground arith) refl refl)

without_second : (bw : ℕ) → bw ≤ 2050000 → Passes bw (high_pass_1 bw 0xa0 0)
unfolding high_pass_1
without_second bw h =
    if_cases (Passes bw) (ltb 1700000 bw) _ _
      (λ e.
        subst (λ t. Passes t (narrow (bw - 350000) 0xa0 350000 350000)) (ground arith)
          (narrow-Passes (bw - 350000) 0xa0 350000 (omega arith) refl refl))
      (λ e.
        subst (λ t. Passes t (narrow bw 0xe0 0 0)) (omega arith)
          (narrow-Passes bw 0xe0 0 (ground arith) refl refl))

-- For any bandwidth of at most 2.43 MHz, where a negative one is taken as 0, the filters that
-- `r82xx_set_bandwidth` chooses let it pass, and with the next low-pass filter, if there is one,
-- they would not; and the intermediate frequency, with half of what passes, is 2.3 MHz and the part
-- of the high-pass filters.
pub filters_for-Passes : (bw : ℤ) → pos_part bw ≤ 2430000 → Passes (pos_part bw) (filters_for bw)
unfolding filters_for
filters_for-Passes bw h =
    let w = pos_part bw in
    if_cases (Passes w) (ltb 7000000 w) _ _ (λ e. absurd (ground arith))
      λ _.
        if_cases (Passes w) (ltb 6000000 w) _ _ (λ e. absurd (ground arith))
          λ _.
            if_cases (Passes w) (ltb 2430000 w) _ _ (λ e. absurd (ground arith))
              λ _.
                if_cases (Passes w) (ltb 2050000 w) _ _
                  (λ e.
                    subst (λ t. Passes t (high_pass_1 (w - 380000) 0x80 380000)) (ground arith)
                      (with_second (w - 380000) (omega arith)))
                  (λ e. without_second w (ground arith))
