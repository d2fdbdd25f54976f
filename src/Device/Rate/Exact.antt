-- ===== src/Device/Rate/Exact.antt =====
-- The rate that the library keeps is the one that was asked for.
use rtl_sdr.Prelude.{
  ℕ, suc, ◌+◌, ◌*◌, ◌/◌, ◌%◌, ◌≤◌, ◌<◌, ◌≡◌, ap, ◌∙◌, arith, false, some, ◌⊎◌, inl, inr, if_false,
  u32, bit_and, bit_or, bit_and_mask, bit_and_shifted, bit_or_below, mul_mono,
}
use rtl_sdr.Device.Rate.{
  def_rtl_xtal_freq, is_invalid_rate, rsamp_ratio_of, real_ratio_of, resample,
}
use native.Mathlib.Decide.{dec_le}
use native.Mathlib.Nat.{div-add-mod', mod-lt, le-div_iff_mul-le, div-lt_iff_lt-mul}

-- The masks as arithmetic.
mask_low : (x : ℕ) → bit_and x 0x0ffffffc ≡ x / 4 % 67108864 * 4
mask_low x = omega (arith, bit_and_shifted 2 x 67108863, bit_and_mask 26 (x / 4))

mask_bit : (x : ℕ) → bit_and x 0x08000000 ≡ x / 134217728 % 2 * 134217728
mask_bit x = omega (arith, bit_and_shifted 27 x 1, bit_and_mask 1 (x / 134217728))

-- Bit 28 is bit 27 again.
real_ratio_lem : (r : ℕ) → r < 268435456 → real_ratio_of r ≡ r + r / 134217728 % 2 * 268435456
unfolding real_ratio_of
real_ratio_lem r h =
    ap (bit_or r) (omega (arith, mask_bit r)) ∙ bit_or_below 28 (r / 134217728 % 2) r h

-- The quotient for an accepted rate is below 2 ^ 27, or has both bit 28 and bit 27.
quotient_range :
    (s : ℕ)
    → 225000 < s
    → s ≤ 3200000
    → (s ≤ 300000) ⊎ (900000 < s)
    → (37748736 ≤ 28800000 * 4194304 / s)
      × ((28800000 * 4194304 / s < 134217728)
          ⊎ ((402653184 ≤ 28800000 * 4194304 / s) × (28800000 * 4194304 / s < 536870912)))
quotient_range s low high gap = (at_least 37748736 (omega arith), by_gap gap)
  where
    at_least : (x : ℕ) → x * s ≤ 28800000 * 4194304 → x ≤ 28800000 * 4194304 / s
    at_least x h = (le-div_iff_mul-le (omega arith)).1 h

    below : (x : ℕ) → 28800000 * 4194304 < x * s → 28800000 * 4194304 / s < x
    below x h = (div-lt_iff_lt-mul (omega arith)).1 h

    by_gap :
        (s ≤ 300000) ⊎ (900000 < s)
        → (28800000 * 4194304 / s < 134217728)
          ⊎ ((402653184 ≤ 28800000 * 4194304 / s) × (28800000 * 4194304 / s < 536870912))
    by_gap (inl slow) = inr (at_least 402653184 (omega arith), below 536870912 (omega arith))
    by_gap (inr fast) = inl (below 134217728 (omega arith))

-- The demodulator's ratio is the quotient without its two lowest bits.
real_ratio-rsamp_ratio :
    (s : ℕ)
    → 225000 < s
    → s ≤ 3200000
    → (s ≤ 300000) ⊎ (900000 < s)
    → real_ratio_of (rsamp_ratio_of 28800000 s) ≡ 28800000 * 4194304 / s / 4 * 4
unfolding rsamp_ratio_of
real_ratio-rsamp_ratio s low high gap =
    real_ratio_lem (bit_and (u32 q) 0x0ffffffc) (omega (arith, mask_low (u32 q)))
    ∙ by_range (quotient_range s low high gap).1
  where
    q : ℕ
    q = 28800000 * 4194304 / s

    by_range :
        (q < 134217728) ⊎ ((402653184 ≤ q) × (q < 536870912))
        → bit_and (u32 q) 0x0ffffffc + bit_and (u32 q) 0x0ffffffc / 134217728 % 2 * 268435456
          ≡ q / 4 * 4
    by_range (inl h) = omega (arith, mask_low (u32 q))
    by_range (inr (h, k)) = omega (arith, mask_low (u32 q))

-- A quotient by a divisor without its two lowest bits.
rounded_rate : (x s : ℕ) → 0 < s → 4 * s ≤ x / s / 4 * 4 → x / (x / s / 4 * 4) ≡ s
rounded_rate x s pos enough = omega (
  arith,
  (le-div_iff_mul-le {k = r} {x = s} {y = x} (omega arith)).1
      (omega (arith, mul_mono r (x / s) s (omega arith), div-add-mod' x s)),
  (div-lt_iff_lt-mul {k = r} {x = x} {y = suc s} (omega arith)).1
      (omega (arith, mul_mono (x / s) (r + 3) s (omega arith), div-add-mod' x s, mod-lt x pos)),
)
  where
    r : ℕ
    r = x / s / 4 * 4

accepted : (s : ℕ) → is_invalid_rate s ≡ false → (225000 < s) × (s ≤ 3200000)
accepted s h = ground arith

accepted_gap : (s : ℕ) → is_invalid_rate s ≡ false → (s ≤ 300000) ⊎ (900000 < s)
accepted_gap s h = elim (dec_le s 300000) [ yes slow ↦ inl slow | no fast ↦ inr (ground arith) ]

-- With the crystal of 28.8 MHz and for each rate that is not refused, the ratio that the
-- demodulator works with is the quotient of the crystal by the rate, in 22 fractional bits, less at
-- most 3, and the rate that the library keeps is the one that was asked for.
pub resample-Exact :
    (samp_rate : ℕ)
    → is_invalid_rate samp_rate ≡ false
    → (ratio : ℕ) × (resample def_rtl_xtal_freq samp_rate ≡ some (ratio, samp_rate))
      × (real_ratio_of ratio ≤ def_rtl_xtal_freq * 4194304 / samp_rate)
      × (def_rtl_xtal_freq * 4194304 / samp_rate ≤ real_ratio_of ratio + 3)
unfolding resample
resample-Exact s h =
    let ok = accepted s h in
    let gap = accepted_gap s h in
    let real = real_ratio-rsamp_ratio s ok.0 ok.1 gap in
    let range = (quotient_range s ok.0 ok.1 gap).0 in
    (
      rsamp_ratio_of 28800000 s,
      if_false (is_invalid_rate s) _ _ h
          ∙ ap (λ t. some (rsamp_ratio_of 28800000 s, t))
              (ap (λ t. 28800000 * 4194304 / t) real
                ∙ rounded_rate (28800000 * 4194304) s (omega arith) (omega arith)),
      omega (arith, real),
      omega (arith, real),
    )
