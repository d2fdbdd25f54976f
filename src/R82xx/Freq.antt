-- ===== src/R82xx/Freq.antt =====
-- Tuning, src/tuner_r82xx.c: `r82xx_set_freq`.
use rtl_sdr.Prelude.{
  ℕ, ◌+◌, Bool, true, false, not, ◌&&◌, ◌||◌, pos, negsuc, ltb, leb, ◌==◌, if◌then◌else◌, u32,
}
use rtl_sdr.R82xx.{
  Chip, r820t, r620d, r828d, r828, r828s, r820c, Board, done, failed, M, pure, gets, modify, choose,
  ◌>>=◌, ◌>>◌,
}
use rtl_sdr.R82xx.Regs.{write_reg_mask}
use rtl_sdr.R82xx.Mux.{set_mux}
use rtl_sdr.R82xx.Pll.{set_pll}

-- HF, VHF and UHF
abbrev pub hf : ℕ
hf = 1

abbrev pub vhf : ℕ
vhf = 2

abbrev pub uhf : ℕ
uhf = 3

abbrev is_r828d : Chip → Bool
is_r828d r828d = true
is_r828d r820t = false
is_r828d r620d = false
is_r828d r828 = false
is_r828d r828s = false
is_r828d r820c = false

-- `lo_freq`
pub lo_freq : (is_v4 : Bool) (freq int_freq : ℕ) → ℕ
lo_freq is_v4 freq int_freq =
    u32 ((if is_v4 && ltb freq 28800000 then freq + 28800000 else freq) + int_freq)

-- `open_d` and `band` of the Blog V4
pub notch : ℕ → ℕ
notch freq =
    if leb freq 2200000
      || (leb 85000000 freq && leb freq 112000000 || leb 172000000 freq && leb freq 242000000)
    then 0x00
    else 0x08

pub band_of : ℕ → ℕ
band_of freq = if leb freq 28800000 then hf else if ltb freq 250000000 then vhf else uhf

module _ {D : Type 0} (b : Board D) where
  -- The call of `rtlsdr_set_bias_tee_gpio`.
  unfoldable pub set_gpio : ℕ → Bool → M D (Unit {0})
  set_gpio gpio on p =
      let (rc, d) = b.dongle.set_bias_tee_gpio gpio on p.device in
      (elim rc [ pos n ↦ done tt | negsuc n ↦ failed (negsuc n) ], record p { device = d })

  -- The switch between the inputs of the Blog V4.
  unfoldable pub switch_band : ℕ → M D (Unit {0})
  unfolding set_gpio
  switch_band band = do
    modify (λ p. record p { input = band })
    write_reg_mask b 0x06 (if band == hf then 0x08 else 0x00) 0x08
    set_gpio 5 (not (band == hf))
    write_reg_mask b 0x05 (if band == vhf then 0x40 else 0x00) 0x40
    write_reg_mask b 0x05 (if band == uhf then 0x00 else 0x20) 0x20

  -- What `r82xx_set_freq` does behind the lock, on a Blog V4 and on another dongle.
  unfoldable pub select_input : (is_v4 : Bool) → ℕ → M D (Unit {0})
  unfolding notch band_of switch_band choose
  select_input true freq = do
    write_reg_mask b 0x17 (notch freq) 0x08
    input ← gets (λ p. p.input)
    choose (band_of freq == input) (pure tt) (switch_band (band_of freq))
  select_input false freq = do
    let air_cable1_in : ℕ = if ltb 345000000 freq then 0x00 else 0x60
    input ← gets (λ p. p.input)
    choose (is_r828d b.cfg.rafael_chip && not (air_cable1_in == input))
        (modify (λ p. record p { input = air_cable1_in })
          >> write_reg_mask b 0x05 air_cable1_in 0x60)
        (pure tt)

  -- `r82xx_set_freq`, which returns 0 also where the synthesizer has no lock.
  unfoldable pub set_freq : ℕ → M D (Unit {0})
  unfolding lo_freq select_input choose
  set_freq freq = do
    lo ← gets (λ p. lo_freq b.dongle.is_blog_v4 freq p.int_freq)
    set_mux b lo
    set_pll b lo
    locked ← gets (λ p. p.has_lock)
    choose locked (select_input b.dongle.is_blog_v4 freq) (pure tt)
