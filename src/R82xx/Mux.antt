-- ===== src/R82xx/Mux.antt =====
-- The front end's filters, src/tuner_r82xx.c: `freq_ranges` and `r82xx_set_mux`.
use rtl_sdr.Prelude.{ℕ, ◌/◌, List, [], ◌∷◌, ltb, if◌then◌else◌, bit_or}
use rtl_sdr.R82xx.{
  XtalCap, low_cap_30p, low_cap_20p, low_cap_10p, low_cap_0p, high_cap_0p, Board, M, gets, ◌>>=◌,
  ◌>>◌,
}
use rtl_sdr.R82xx.Regs.{write_reg, write_reg_mask}

-- `struct r82xx_freq_range`
pub record FreqRange : Type 0 where
  pub freq : ℕ
  pub open_d : ℕ
  pub rf_mux_ploy : ℕ
  pub tf_c : ℕ
  pub xtal_cap20p : ℕ
  pub xtal_cap10p : ℕ
  pub xtal_cap0p : ℕ

abbrev range : ℕ → ℕ → ℕ → ℕ → ℕ → ℕ → ℕ → FreqRange
range f o m t c20 c10 c0 = record {
  freq = f;
  open_d = o;
  rf_mux_ploy = m;
  tf_c = t;
  xtal_cap20p = c20;
  xtal_cap10p = c10;
  xtal_cap0p = c0;
}

-- `freq_ranges`
abbrev pub freq_ranges : List FreqRange
freq_ranges =
    range 0 0x08 0x02 0xdf 0x02 0x01 0x00
    ∷ range 50 0x08 0x02 0xbe 0x02 0x01 0x00
    ∷ range 55 0x08 0x02 0x8b 0x02 0x01 0x00
    ∷ range 60 0x08 0x02 0x7b 0x02 0x01 0x00
    ∷ range 65 0x08 0x02 0x69 0x02 0x01 0x00
    ∷ range 70 0x08 0x02 0x58 0x02 0x01 0x00
    ∷ range 75 0x00 0x02 0x44 0x02 0x01 0x00
    ∷ range 80 0x00 0x02 0x44 0x02 0x01 0x00
    ∷ range 90 0x00 0x02 0x34 0x01 0x01 0x00
    ∷ range 100 0x00 0x02 0x34 0x01 0x01 0x00
    ∷ range 110 0x00 0x02 0x24 0x01 0x01 0x00
    ∷ range 120 0x00 0x02 0x24 0x01 0x01 0x00
    ∷ range 140 0x00 0x02 0x14 0x01 0x01 0x00
    ∷ range 180 0x00 0x02 0x13 0x00 0x00 0x00
    ∷ range 220 0x00 0x02 0x13 0x00 0x00 0x00
    ∷ range 250 0x00 0x02 0x11 0x00 0x00 0x00
    ∷ range 280 0x00 0x02 0x00 0x00 0x00 0x00
    ∷ range 310 0x00 0x41 0x00 0x00 0x00 0x00
    ∷ range 450 0x00 0x41 0x00 0x00 0x00 0x00
    ∷ range 588 0x00 0x40 0x00 0x00 0x00 0x00
    ∷ range 650 0x00 0x40 0x00 0x00 0x00 0x00
    ∷ []

-- The loop that finds the range of a frequency in MHz: it stops below the start of the next one.
pub range_of : ℕ → List FreqRange → FreqRange
range_of mhz [] = range 0 0 0 0 0 0 0
range_of mhz (r ∷ []) = r
range_of mhz (r ∷ next ∷ rest) = if ltb mhz next.freq then r else range_of mhz (next ∷ rest)

-- The range of a frequency in Hz.
unfoldable pub freq_range : ℕ → FreqRange
unfolding range_of
freq_range freq = range_of (freq / 1000000) freq_ranges

-- The bits of register 0x10 for the crystal's capacitor.
pub xtal_bits : XtalCap → FreqRange → ℕ
xtal_bits low_cap_30p r = bit_or r.xtal_cap20p 0x08
xtal_bits low_cap_20p r = bit_or r.xtal_cap20p 0x08
xtal_bits low_cap_10p r = bit_or r.xtal_cap10p 0x08
xtal_bits high_cap_0p r = bit_or r.xtal_cap0p 0x00
xtal_bits low_cap_0p r = bit_or r.xtal_cap0p 0x08

module _ {D : Type 0} (b : Board D) where
  -- `r82xx_set_mux`, from the range on.
  unfoldable pub set_range : FreqRange → M D (Unit {0})
  unfolding xtal_bits
  set_range r = do
    write_reg_mask b 0x17 r.open_d 0x08
    write_reg_mask b 0x1a r.rf_mux_ploy 0xc3
    write_reg b 0x1b r.tf_c
    cap ← gets (λ p. p.xtal_cap_sel)
    write_reg_mask b 0x10 (xtal_bits cap r) 0x0b
    write_reg_mask b 0x08 0x00 0x3f
    write_reg_mask b 0x09 0x00 0x3f

  -- `r82xx_set_mux`
  unfoldable pub set_mux : ℕ → M D (Unit {0})
  unfolding freq_range set_range
  set_mux freq = set_range (freq_range freq)
