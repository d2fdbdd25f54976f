-- ===== src/R82xx/Pll/Divider.antt =====
-- The divider that puts the oscillator in its range.
use rtl_sdr.Prelude.{
  ℕ, suc, ◌*◌, ◌^◌, ◌≤◌, ◌<◌, ◌≡◌, refl, arith, Bool, ◌&&◌, ltb, leb, if◌then◌else◌, if_cases, u32,
}
use rtl_sdr.R82xx.Pll.{vco_min, vco_max, halvings, find_div, freq_khz_of, divider}

-- A divider and its number: 2 and 0, 4 and 1, and so on to 64 and 5, with the oscillator in range.
pub record Divides (freq_khz : ℕ) (d : ℕ × ℕ) : Type 0 where
  pub power : d.0 ≡ 2 ^ suc d.1
  pub number : d.1 ≤ 5
  pub at_least : vco_min ≤ freq_khz * d.0
  pub below : freq_khz * d.0 < vco_max

abbrev in_range : ℕ → ℕ → Bool
in_range freq_khz mix_div =
    leb vco_min (u32 (freq_khz * mix_div)) && ltb (u32 (freq_khz * mix_div)) vco_max

-- A round of the loop, where the oscillator is below its maximum.
round_lem :
    (freq_khz m k : ℕ) (rest : ℕ × ℕ)
    → m ≡ 2 ^ suc k
    → k ≤ 5
    → freq_khz * m < vco_max
    → (freq_khz * m < vco_min → Divides freq_khz rest)
    → Divides freq_khz (if in_range freq_khz m then (m, k) else rest)
round_lem freq_khz m k rest e le lt h =
    if_cases (Divides freq_khz) (in_range freq_khz m) (m, k) rest
      (λ t. record { power = e; number = le; at_least = ground arith; below = lt })
      (λ t. h (ground arith))

find_div_lem :
    (freq_khz : ℕ)
    → 27657 ≤ freq_khz
    → freq_khz < 1770000
    → Divides freq_khz (find_div 7 freq_khz 2)
unfolding find_div halvings
find_div_lem f low high = round_lem f 2 0 _ refl (omega arith) (omega arith) λ h2.
    round_lem f 4 1 _ refl (omega arith) (omega arith) λ h4.
      round_lem f 8 2 _ refl (omega arith) (omega arith) λ h8.
        round_lem f 16 3 _ refl (omega arith) (omega arith) λ h16.
          round_lem f 32 4 _ refl (omega arith) (omega arith)
            λ h32. round_lem f 64 5 _ refl (omega arith) (omega arith) λ h64. absurd (omega arith)

-- For a frequency from 27657 kHz to below 1770 MHz the divider is a power of two from 2 to 64, its
-- number the exponent less one, and the oscillator, in kHz, is from 1770000 to below 3540000.
pub divider-Divides :
    (freq : ℕ) → 27657000 ≤ freq → freq < 1769999500 → Divides (freq_khz_of freq) (divider freq)
unfolding divider
divider-Divides freq low high = find_div_lem (freq_khz_of freq) (omega arith) (omega arith)
