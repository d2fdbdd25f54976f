-- ===== src/R82xx/Gain.antt =====
-- Gain and bandwidth, src/tuner_r82xx.c: `r82xx_set_gain` and `r82xx_set_bandwidth`.
pub mod Choice
use rtl_sdr.Prelude.{
  ℕ, zero, suc, ◌+◌, ◌-◌, ◌/◌, Bool, true, false, List, [], ◌∷◌, get_or, ℤ, pos, negsuc, pos_part,
  neg_part, sub_ℕ, ltb, leb, if◌then◌else◌, u32, bit_or,
}
use rtl_sdr.R82xx.{Board, M, pure, modify, ◌>>=◌, ◌>>◌}
use rtl_sdr.R82xx.Regs.{write_reg_mask, read}

-- `r82xx_lna_gain_steps` and `r82xx_mixer_gain_steps`
abbrev pub lna_gain_steps : List ℕ
lna_gain_steps = 0 ∷ 9 ∷ 13 ∷ 40 ∷ 38 ∷ 13 ∷ 31 ∷ 22 ∷ 26 ∷ 31 ∷ 26 ∷ 14 ∷ 19 ∷ 5 ∷ 35 ∷ 13 ∷ []

abbrev pub mixer_gain_steps : List ℤ
mixer_gain_steps =
    pos 0
    ∷ pos 5
    ∷ pos 10
    ∷ pos 10
    ∷ pos 19
    ∷ pos 9
    ∷ pos 10
    ∷ pos 25
    ∷ pos 17
    ∷ pos 10
    ∷ pos 8
    ∷ pos 16
    ∷ pos 13
    ∷ pos 6
    ∷ pos 3
    ∷ negsuc 7
    ∷ []

-- What `total_gain` becomes with a step; it is never below 0.
abbrev pub add_step : ℕ → ℤ → ℕ
add_step total (pos n) = total + n
add_step total (negsuc n) = total - suc n

-- `total_gain >= gain`
abbrev pub reaches : ℕ → ℤ → Bool
reaches total gain = leb (pos_part gain) (total + neg_part gain)

-- `lna_index`, `mix_index` and `total_gain`
pub record Gains : Type 0 where
  pub lna_index : ℕ
  pub mix_index : ℕ
  pub total_gain : ℕ

-- `total_gain += r82xx_lna_gain_steps[++lna_index]`, and the same for the mixer.
abbrev pub step_lna : Gains → Gains
step_lna g = record g {
  lna_index = g.lna_index + 1;
  total_gain = g.total_gain + get_or lna_gain_steps (g.lna_index + 1) 0;
}

abbrev pub step_mixer : Gains → Gains
step_mixer g = record g {
  mix_index = g.mix_index + 1;
  total_gain = add_step g.total_gain (get_or mixer_gain_steps (g.mix_index + 1) (pos 0));
}

-- The loop that picks the gains, with the rounds that are left.
pub pick : (left : ℕ) → ℤ → Gains → Gains
pick zero gain g = g
pick (suc left) gain g =
    let next = pick left gain (step_mixer (step_lna g)) in
    if reaches g.total_gain gain
    then g
    else if reaches (step_lna g).total_gain gain
    then step_lna g
    else next

abbrev pub no_gain : Gains
no_gain = record { lna_index = 0; mix_index = 0; total_gain = 0 }

-- The gains for a wanted gain, in tenths of a dB.
pub gains_for : ℤ → Gains
unfolding pick
gains_for gain = pick 15 gain no_gain

-- `r82xx_if_low_pass_bw_table`
abbrev pub low_pass_table : List ℕ
low_pass_table =
    1700000 ∷ 1600000 ∷ 1550000 ∷ 1450000 ∷ 1200000 ∷ 900000 ∷ 700000 ∷ 550000 ∷ 450000 ∷ 350000
    ∷ []

-- FILT_HP_BW1 and FILT_HP_BW2
abbrev pub filt_hp_bw1 : ℕ
filt_hp_bw1 = 350000

abbrev pub filt_hp_bw2 : ℕ
filt_hp_bw2 = 380000

-- The loop that finds the low-pass filter: the index at which it stops.
pub first_below : ℕ → List ℕ → ℕ
first_below bw [] = 0
first_below bw (x ∷ xs) = if ltb x bw then 0 else suc (first_below bw xs)

-- `reg_0a`, `reg_0b` and the intermediate frequency for a bandwidth.
pub record Filters : Type 0 where
  pub reg_0a : ℕ
  pub reg_0b : ℕ
  pub if_freq : ℕ

-- The settings for the low-pass filter `i`, with what the high-pass filters leave; past the table
-- there is nothing to read.
pub filter_at : (i bits shift real_bw : ℕ) → Filters
filter_at i bits shift real_bw = record {
  reg_0a = 0x00;
  reg_0b = bit_or bits (15 - i);
  if_freq = 2300000 + shift - (real_bw + get_or low_pass_table i 0) / 2;
}

-- The search for a low-pass filter: `--i` wraps at 0.
pub narrow : (bw bits shift real_bw : ℕ) → Filters
unfolding first_below filter_at
narrow bw bits shift real_bw =
    filter_at (u32 (first_below bw low_pass_table + 4294967295)) bits shift real_bw

-- The second high-pass filter.
pub high_pass_1 : (bw bits shift : ℕ) → Filters
unfolding narrow
high_pass_1 bw bits shift =
    if ltb 1700000 bw
    then narrow (bw - filt_hp_bw1) bits (shift + filt_hp_bw1) (shift + filt_hp_bw1)
    else narrow bw (bit_or bits 0x40) shift shift

-- A bandwidth of at most 0 is taken as 0 is: it is only compared with what is positive.
pub filters_for : ℤ → Filters
unfolding high_pass_1
filters_for wanted =
    let bw = pos_part wanted in
    if ltb 7000000 bw
    then record { reg_0a = 0x10; reg_0b = 0x0b; if_freq = 4570000 }
    else if ltb 6000000 bw
    then record { reg_0a = 0x10; reg_0b = 0x2a; if_freq = 4570000 }
    else if ltb (1700000 + filt_hp_bw1 + filt_hp_bw2) bw
    then record { reg_0a = 0x10; reg_0b = 0x6b; if_freq = 3570000 }
    else if ltb (1700000 + filt_hp_bw1) bw
    then high_pass_1 (bw - filt_hp_bw2) 0x80 filt_hp_bw2
    else high_pass_1 bw 0xa0 0

module _ {D : Type 0} (b : Board D) where
  -- `r82xx_set_gain` with `set_manual_gain`.
  unfoldable pub set_manual_gain : ℤ → M D (Unit {0})
  unfolding gains_for
  set_manual_gain gain = do
    write_reg_mask b 0x05 0x10 0x10
    write_reg_mask b 0x07 0 0x10
    _ ← read b 0x00 4
    write_reg_mask b 0x0c 0x08 0x9f
    write_reg_mask b 0x05 (gains_for gain).lna_index 0x0f
    write_reg_mask b 0x07 (gains_for gain).mix_index 0x0f

  -- `r82xx_set_gain`
  unfoldable pub set_gain : Bool → ℤ → M D (Unit {0})
  unfolding set_manual_gain
  set_gain true gain = set_manual_gain gain
  set_gain false gain = do
    write_reg_mask b 0x05 0 0x10
    write_reg_mask b 0x07 0x10 0x10
    write_reg_mask b 0x0c 0x0b 0x9f

  -- `r82xx_set_bandwidth`, which returns the intermediate frequency.
  unfoldable pub set_bandwidth : ℤ → M D ℕ
  unfolding filters_for
  set_bandwidth bw = do
    modify (λ p. record p { int_freq = (filters_for bw).if_freq })
    write_reg_mask b 0x0a (filters_for bw).reg_0a 0x10
    write_reg_mask b 0x0b (filters_for bw).reg_0b 0xef
    pure (filters_for bw).if_freq
