-- ===== src/R82xx/Pll/Words.antt =====
-- What the bytes of the synthesizer stand for.
use rtl_sdr.Prelude.{
  ℕ, zero, suc, ◌+◌, ◌-◌, ◌*◌, ◌/◌, ◌%◌, ◌^◌, ◌≤◌, ◌<◌, ◌≡◌, ap, ap₂, subst⁻¹, ◌∙◌, arith, false,
  some, List, get_or, ltb, if_false, u8, u64, bit_and, bit_and_mask, mul_mono, [], ◌∷◌, ◌<<<◌,
  ◌>>>◌,
}
use rtl_sdr.R82xx.Pll.{freq_khz_of, divider, vco_div, nint_of, sdm_of, ni_of, si_of, pll_bytes}
use rtl_sdr.R82xx.Pll.Divider.{divider-Divides}
use native.Mathlib.Nat.{div-add-mod', mod-lt, mod-eq_of_lt, le-div_iff_mul-le, div-lt_iff_lt-mul}

-- The whole part and the 65536ths that the registers 0x14, 0x15 and 0x16 stand for.
abbrev pub whole_part : List ℕ → ℕ
whole_part bytes = 13 + 4 * (get_or bytes 4 0 % 64) + get_or bytes 4 0 / 64

abbrev pub fraction : List ℕ → ℕ
fraction bytes = get_or bytes 5 0 + 256 * get_or bytes 6 0

-- The oscillator, in Hz.
abbrev vco_of : ℕ → ℕ
vco_of freq = freq * (divider freq).0

power-le : (k : ℕ) → k ≤ 5 → 2 ^ suc k ≤ 64
power-le zero h = omega arith
power-le (suc zero) h = omega arith
power-le (suc (suc zero)) h = omega arith
power-le (suc (suc (suc zero))) h = omega arith
power-le (suc (suc (suc (suc zero)))) h = omega arith
power-le (suc (suc (suc (suc (suc zero))))) h = omega arith
power-le (suc (suc (suc (suc (suc (suc k)))))) h = absurd (omega arith)

scaled :
    (freq khz m : ℕ)
    → freq ≤ 1000 * khz + 499
    → 1000 * khz ≤ freq + 500
    → m ≤ 64
    → (freq * m ≤ 1000 * (khz * m) + 31936) × (1000 * (khz * m) ≤ freq * m + 32000)
scaled freq khz m h k le = (
  omega (arith, mul_mono freq (1000 * khz + 499) m h),
  omega (arith, mul_mono (1000 * khz) (freq + 500) m k),
)

vco_range :
    (freq : ℕ)
    → 27657000 ≤ freq
    → freq < 1769999500
    → (1769968000 ≤ vco_of freq) × (vco_of freq < 3540031936)
vco_range freq low high =
    let d = divider-Divides freq low high in
    let near =
      scaled freq (freq_khz_of freq) (divider freq).0 (omega arith) (omega arith)
        (omega (arith, power-le (divider freq).1 d.number, d.power)) in
    (omega (arith, d.at_least, near.1), omega (arith, d.below, near.0))

nint_parts :
    (nint : ℕ)
    → 13 ≤ nint
    → nint ≤ 127
    → (13 + 4 * (u8 (ni_of nint + si_of nint * 64) % 64) + u8 (ni_of nint + si_of nint * 64) / 64
        ≡ nint)
nint_parts nint low high = ground arith

-- `vco_div` where nothing wraps.
vco_div_lem :
    (pll_ref freq m : ℕ)
    → pll_ref ≤ 68000000
    → freq * m < 3540031936
    → vco_div pll_ref freq m ≡ (pll_ref + 65536 * (freq * m)) / (2 * pll_ref)
unfolding vco_div
vco_div_lem pll_ref freq m h k =
    ap₂ (λ x y. x / y)
      (ap (λ t. u64 (pll_ref + 65536 * t)) (mod-eq_of_lt (omega arith))
        ∙ mod-eq_of_lt (omega arith))
      (mod-eq_of_lt (omega arith))

-- The bytes for a frequency: the oscillator that they stand for, in 65536ths of twice the reference,
-- is as near to the wanted one as the fraction allows.
pub record Synthesizes (pll_ref freq : ℕ) (bytes : List ℕ) : Type 0 where
  pub not_above :
      2 * pll_ref * (65536 * whole_part bytes + fraction bytes) ≤ 65536 * vco_of freq + pll_ref
  pub not_below :
      65536 * vco_of freq ≤ 2 * pll_ref * (65536 * whole_part bytes + fraction bytes) + pll_ref

rounded : (n d : ℕ) → 0 < d → (d * (n / d) ≤ n) × (n < d * (n / d) + d)
rounded n d pos = omega (arith, div-add-mod' n d, mod-lt n pos)

-- The quotient leaves a whole part that the tuner takes: from 13 to below `limit`.
vco_div_range :
    (limit pll_ref v : ℕ)
    → 1769968000 ≤ v
    → v < 3540031936
    → pll_ref ≤ 68000000
    → 1772800000 ≤ limit * pll_ref
    → 13850000 ≤ pll_ref
    → (13 ≤ (pll_ref + 65536 * v) / (2 * pll_ref) / 65536)
      × ((pll_ref + 65536 * v) / (2 * pll_ref) / 65536 < limit)
vco_div_range limit pll_ref v low high most least some_ref =
    (omega (arith, at_least), omega (arith, below))
  where
    at_least : 851968 ≤ (pll_ref + 65536 * v) / (2 * pll_ref)
    at_least = (le-div_iff_mul-le (omega arith)).1 (omega arith)

    below : (pll_ref + 65536 * v) / (2 * pll_ref) < limit * 65536
    below = (div-lt_iff_lt-mul (omega arith)).1 (omega arith)

-- The bytes that are written, where the whole part is in range.
bytes_Synthesize :
    (pll_ref freq div : ℕ) (b0 b1 b2 b3 : ℕ)
    → div ≡ (pll_ref + 65536 * vco_of freq) / (2 * pll_ref)
    → 0 < pll_ref
    → 13 ≤ div / 65536
    → div / 65536 ≤ 127
    → Synthesizes pll_ref freq (
        b0
        ∷ b1
        ∷ b2
        ∷ b3
        ∷ u8 (ni_of (nint_of div) + (si_of (nint_of div) <<< 6))
        ∷ bit_and (sdm_of div) 0xff
        ∷ u8 (sdm_of div >>> 8)
        ∷ [])
bytes_Synthesize pll_ref freq div b0 b1 b2 b3 e pos low high = record {
  not_above = omega (arith, ap (λ t. 2 * pll_ref * t) together, near.0);
  not_below = omega (arith, ap (λ t. 2 * pll_ref * t) together, near.1);
}
  where
    near :
        (2 * pll_ref * div ≤ pll_ref + 65536 * vco_of freq)
        × (pll_ref + 65536 * vco_of freq < 2 * pll_ref * div + 2 * pll_ref)
    near =
        subst⁻¹
          (λ t.
            (2 * pll_ref * t ≤ pll_ref + 65536 * vco_of freq)
            × (pll_ref + 65536 * vco_of freq < 2 * pll_ref * t + 2 * pll_ref))
          e (rounded (pll_ref + 65536 * vco_of freq) (2 * pll_ref) (omega arith))

    together :
        65536
            * (13
                + 4 * (u8 (ni_of (nint_of div) + si_of (nint_of div) * 64) % 64)
                + u8 (ni_of (nint_of div) + si_of (nint_of div) * 64) / 64)
          + (bit_and (sdm_of div) 0xff + 256 * u8 (sdm_of div >>> 8))
        ≡ div
    together =
        omega
          (arith, nint_parts (nint_of div) (omega arith) (omega arith), bit_and_mask 8 (sdm_of div))

limit_range :
    (reference pll_ref : ℕ)
    → 1 ≤ reference
    → reference ≤ 2
    → 13850000 * reference ≤ pll_ref
    → (1772800000 ≤ 128 / reference * pll_ref) × (128 / reference ≤ 128) × (13850000 ≤ pll_ref)
limit_range zero pll_ref h k m = absurd (omega arith)
limit_range (suc zero) pll_ref h k m = omega arith
limit_range (suc (suc zero)) pll_ref h k m = omega arith
limit_range (suc (suc (suc r))) pll_ref h k m = absurd (omega arith)

-- For a frequency from 27657 kHz to below 1769.9995 MHz, a reference of at most 68 MHz and of at
-- least 13.85 MHz times `vco_power_ref`, which is 1 or 2, there is a valid setting whatever the tuner
-- reports and the shadow has, and the oscillator that its bytes stand for is the wanted one, rounded
-- to the nearest 65536th of twice the reference.
pub pll_bytes-Synthesizes :
    (pll_ref reference fine freq : ℕ) (regs : List ℕ)
    → 1 ≤ reference
    → reference ≤ 2
    → 13850000 * reference ≤ pll_ref
    → pll_ref ≤ 68000000
    → 27657000 ≤ freq
    → freq < 1769999500
    → (bytes : List ℕ) × (pll_bytes pll_ref reference fine freq regs ≡ some bytes)
      × Synthesizes pll_ref freq bytes
unfolding pll_bytes
pll_bytes-Synthesizes pll_ref reference fine freq regs one two least most low high = (
  _,
  if_false (ltb (128 / reference - 1) (nint_of (vco_div pll_ref freq (divider freq).0))) _ _
      in_range,
  bytes_Synthesize pll_ref freq (vco_div pll_ref freq (divider freq).0) _ _ _ _ exact (omega arith)
      range.0 (omega (arith, limit.1, range.1)),
)
  where
    limit :
        (1772800000 ≤ 128 / reference * pll_ref) × (128 / reference ≤ 128) × (13850000 ≤ pll_ref)
    limit = limit_range reference pll_ref one two least

    exact : vco_div pll_ref freq (divider freq).0 ≡ (pll_ref + 65536 * vco_of freq) / (2 * pll_ref)
    exact = vco_div_lem pll_ref freq (divider freq).0 most (vco_range freq low high).1

    range :
        (13 ≤ vco_div pll_ref freq (divider freq).0 / 65536)
        × (vco_div pll_ref freq (divider freq).0 / 65536 < 128 / reference)
    range =
        subst⁻¹ (λ t. (13 ≤ t / 65536) × (t / 65536 < 128 / reference)) exact
          (vco_div_range (128 / reference) pll_ref (vco_of freq) (vco_range freq low high).0
            (vco_range freq low high).1 most limit.0 limit.2)

    in_range : ltb (128 / reference - 1) (nint_of (vco_div pll_ref freq (divider freq).0)) ≡ false
    in_range = ground (arith, range, limit)
