-- ===== src/Adsb/Magnitude.antt =====
-- The magnitudes fit their 16 bits.
use rtl_sdr.Prelude.{
  ℕ, ◌+◌, ◌-◌, ◌*◌, ◌≤◌, ◌<◌, ◌≡◌, refl, ◌∙◌, ap, ap₂, arith, mul_mono, List, [], ◌∷◌, u16,
}
use native.Mathlib.Nat.{mod-eq_of_lt}
use rtl_sdr.Adsb.{abs8, square, magnitute}

-- The distance of a byte from 127, and its square.
abbrev pub away : ℕ → ℕ
away x = (x - 127) + (127 - x)

abbrev pub energy : ℕ → ℕ
energy x = away x * away x

-- The sums of the squares for each two bytes, without a wrap-around.
abbrev pub energies : List ℕ → List ℕ
energies [] = []
energies (i ∷ []) = []
energies (i ∷ q ∷ bytes) = (energy i + energy q) ∷ energies bytes

abbrev pub AllBelow : ℕ → List ℕ → Type 0
AllBelow n [] = 0 ≤ 0
AllBelow n (x ∷ xs) = (x < n) × AllBelow n xs

energy_bound : (x : ℕ) → x < 256 → energy x ≤ 16384
energy_bound x h = omega (arith, mul_mono (away x) 128 (away x) (omega arith))

square-eq : (x : ℕ) → x < 256 → square x ≡ energy x
unfolding square abs8
square-eq x h =
    let e : abs8 x ≡ away x = ground arith in
    ap u16 (ap₂ (λ a b. a * b) e e) ∙ mod-eq_of_lt (omega (arith, energy_bound x h))

-- For bytes, the numbers of magnitute are the sums of the squares of the distances from 127, which is the
-- center that abs8 takes, with no wrap-around in the table or the sum, and at most 32768.
pub magnitute-energies :
    (bytes : List ℕ)
    → AllBelow 256 bytes
    → (magnitute bytes ≡ energies bytes) × AllBelow 32769 (magnitute bytes)
unfolding magnitute
magnitute-energies [] h = (refl, omega arith)
magnitute-energies (i ∷ []) h = (refl, omega arith)
magnitute-energies (i ∷ q ∷ bytes) (hi, rest) =
    let (hq, h) = rest in
    let (e, below) = magnitute-energies bytes h in
    let bi = energy_bound i hi in
    let bq = energy_bound q hq in
    let here : u16 (square i + square q) ≡ energy i + energy q =
      ap u16 (ap₂ (λ a b. a + b) (square-eq i hi) (square-eq q hq))
      ∙ mod-eq_of_lt (omega (arith, bi, bq)) in
    (ap₂ (λ a b. a ∷ b) here e, (omega (arith, here, bi, bq), below))
