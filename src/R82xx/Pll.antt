-- ===== src/R82xx/Pll.antt =====
-- The synthesizer, src/tuner_r82xx.c: `r82xx_set_pll`. The bytes that it writes to the registers
-- 0x10 to 0x16 are a function of their own.
pub mod Divider
pub mod Words
use rtl_sdr.Prelude.{
  ℕ, zero, suc, ◌+◌, ◌-◌, ◌*◌, ◌/◌, ◌%◌, Bool, true, false, not, ◌&&◌, Option, none, some, List, [],
  ◌∷◌, get_or, slice, negsuc, ltb, leb, ◌==◌, if◌then◌else◌, u8, u32, u64, ◌<<<◌, ◌>>>◌, bit_and,
}
use rtl_sdr.R82xx.{
  Chip, r820t, r620d, r828d, r828, r828s, r820c, Board, M, pure, fail, gets, modify, choose, ◌>>=◌,
  ◌>>◌,
}
use rtl_sdr.R82xx.Regs.{mask_reg8, write, write_reg_mask, read}

-- `vco_min` and `vco_max`, in kHz
abbrev pub vco_min : ℕ
vco_min = 1770000

abbrev pub vco_max : ℕ
vco_max = 3540000

-- The loop `while (div_buf > 2)`, for at most `fuel` rounds: the number of its rounds.
pub halvings : (fuel div_buf : ℕ) → ℕ
halvings zero div_buf = 0
halvings (suc fuel) div_buf =
    let rest = halvings fuel (div_buf >>> 1) in if ltb 2 div_buf then suc rest else 0

-- The loop `while (mix_div <= 64)`, for at most `fuel` rounds: `mix_div` and `div_num`.
pub find_div : (fuel freq_khz mix_div : ℕ) → ℕ × ℕ
unfolding halvings
find_div zero freq_khz mix_div = (mix_div, 0)
find_div (suc fuel) freq_khz mix_div =
    let vco = u32 (freq_khz * mix_div) in
    let rest = find_div fuel freq_khz (u8 (mix_div <<< 1)) in
    if leb mix_div 64
    then (if leb vco_min vco && ltb vco vco_max then (mix_div, halvings 8 mix_div) else rest)
    else (mix_div, 0)

abbrev pub freq_khz_of : ℕ → ℕ
freq_khz_of freq = u32 (freq + 500) / 1000

-- `mix_div` and `div_num` for a frequency.
pub divider : ℕ → ℕ × ℕ
unfolding find_div
divider freq = find_div 7 (freq_khz_of freq) 2

-- `vco_power_ref`
abbrev pub power_ref : Chip → ℕ
power_ref r828d = 1
power_ref r820t = 2
power_ref r620d = 2
power_ref r828 = 2
power_ref r828s = 2
power_ref r820c = 2

-- `div_num`, moved by what the tuner reports.
abbrev tuned_div_num : (div_num fine reference : ℕ) → ℕ
tuned_div_num div_num fine reference =
    if ltb reference fine
    then u8 (div_num + 255)
    else if ltb fine reference
    then u8 (div_num + 1)
    else div_num

-- `vco_div`, and `nint` and `sdm` of it
pub vco_div : (pll_ref freq mix_div : ℕ) → ℕ
vco_div pll_ref freq mix_div = u64 (pll_ref + 65536 * u64 (freq * mix_div)) / u32 (2 * pll_ref)

abbrev pub nint_of : ℕ → ℕ
nint_of div = u8 (u32 (div / 65536))

abbrev pub sdm_of : ℕ → ℕ
sdm_of div = u32 (div % 65536)

-- `(nint - 13) / 4` and `nint - 4 * ni - 13`, which are below 0 for a small `nint`.
abbrev pub ni_of : ℕ → ℕ
ni_of nint = if leb 13 nint then (nint - 13) / 4 else u8 (256 - (13 - nint) / 4)

abbrev pub si_of : ℕ → ℕ
si_of nint = u8 (nint + 1280 - (4 * ni_of nint + 13))

-- The bytes for the registers 0x10 to 0x16, from those of the shadow; none if there is no valid
-- setting.
unfoldable pub pll_bytes : (pll_ref reference fine freq : ℕ) → List ℕ → Option (List ℕ)
unfolding divider vco_div
pll_bytes pll_ref reference fine freq regs =
    let (mix_div, div_num) = divider freq in
    let div = vco_div pll_ref freq mix_div in
    let nint = nint_of div in
    let sdm = sdm_of div in
    let div_bits = u8 (tuned_div_num div_num fine reference <<< 5) in
    let pw_sdm : ℕ = if sdm == 0 then 0x08 else 0x00 in
    if ltb (128 / reference - 1) nint
    then none
    else some (
        mask_reg8 (mask_reg8 (get_or regs 0 0) 0 0x10) div_bits 0xe0
        ∷ get_or regs 1 0
        ∷ mask_reg8 (mask_reg8 (get_or regs 2 0) 0x80 0xe0) pw_sdm 0x08
        ∷ get_or regs 3 0
        ∷ u8 (ni_of nint + (si_of nint <<< 6))
        ∷ bit_and sdm 0xff
        ∷ u8 (sdm >>> 8)
        ∷ [])

-- `data[2] & 0x40`
abbrev pub is_locked : List ℕ → Bool
is_locked bytes = not (bit_and (get_or bytes 2 0) 0x40 == 0)

module _ {D : Type 0} (b : Board D) where
  -- The loop of two rounds that waits for the lock: whether it is there at the end.
  unfoldable pub wait_lock : M D Bool
  unfolding choose
  wait_lock = do
    bytes ← read b 0x00 3
    choose (is_locked bytes) (pure true)
        (do write_reg_mask b 0x12 0x60 0xe0; again ← read b 0x00 3; pure (is_locked again))

  -- The end of `r82xx_set_pll`, from the check of the lock on.
  unfoldable pub take_lock : Bool → M D (Unit {0})
  take_lock true = modify (λ p. record p { has_lock = true }) >> write_reg_mask b 0x1a 0x08 0x08
  take_lock false = modify (λ p. record p { has_lock = false })

  -- The write of the bytes, if there are any, and the wait.
  unfoldable pub program_pll : Option (List ℕ) → M D (Unit {0})
  unfolding wait_lock take_lock
  program_pll none = fail (negsuc 0)
  program_pll (some bytes) = do write b 0x10 bytes; locked ← wait_lock; take_lock locked

  -- `r82xx_set_pll`
  unfoldable pub set_pll : ℕ → M D (Unit {0})
  unfolding pll_bytes program_pll
  set_pll freq = do
    write_reg_mask b 0x1a 0x00 0x0c
    regs ← gets (λ p. slice p.regs 11 7)
    bytes ← read b 0x00 5
    program_pll (
        pll_bytes b.cfg.xtal (power_ref b.cfg.rafael_chip) (bit_and (get_or bytes 4 0) 0x30 >>> 4)
          freq regs)
