-- ===== src/R82xx/Setup.antt =====
-- Bringing the tuner up and down, src/tuner_r82xx.c: `r82xx_sysfreq_sel`, `r82xx_set_tv_standard`,
-- `r82xx_standby` and `r82xx_init`.
use rtl_sdr.Prelude.{
  ℕ, zero, suc, ◌*◌, Bool, true, false, not, ◌&&◌, ◌||◌, none, some, List, [], ◌∷◌, get_or,
  replicate, ◌==◌, if◌then◌else◌, bit_and, bit_or,
}
use rtl_sdr.R82xx.{
  TunerType, radio, analog_tv, digital_tv, high_cap_0p, DeliverySystem, undefined, dvbt, dvbt2,
  isdbt, Priv, Board, Result, done, failed, diverges, M, pure, gets, modify, choose, ◌>>=◌, ◌>>◌,
}
use rtl_sdr.R82xx.Regs.{num_regs, write, write_reg, write_reg_mask, read}
use rtl_sdr.R82xx.Pll.{set_pll}

-- `r82xx_init_array`: the initializer has 27 bytes, and the others are 0.
abbrev pub init_array : List ℕ
init_array =
    0x83 ∷ 0x32 ∷ 0x75 ∷ 0xc0 ∷ 0x40 ∷ 0xd6 ∷ 0x6c ∷ 0xf5 ∷ 0x63 ∷ 0x75 ∷ 0x68 ∷ 0x6c ∷ 0x83 ∷ 0x80
    ∷ 0x00 ∷ 0x0f ∷ 0x00 ∷ 0xc0 ∷ 0x30 ∷ 0x48 ∷ 0xcc ∷ 0x60 ∷ 0x00 ∷ 0x54 ∷ 0xae ∷ 0x4a ∷ 0xc0 ∷ 0
    ∷ 0 ∷ 0 ∷ []

-- What `r82xx_sysfreq_sel` chooses by the delivery system; the other settings are the same for all.
pub record Tops : Type 0 where
  pub mixer_top : ℕ
  pub lna_top : ℕ
  pub lna_vth_l : ℕ
  pub mixer_vth_l : ℕ
  pub cp_cur : ℕ
  pub div_buf_cur : ℕ

abbrev usual_tops : Tops
usual_tops = record {
  mixer_top = 0x24;
  lna_top = 0xe5;
  lna_vth_l = 0x53;
  mixer_vth_l = 0x75;
  cp_cur = 0x38;
  div_buf_cur = 0x30;
}

pub tops_for : ℕ → DeliverySystem → Tops
tops_for freq dvbt =
    if freq == 506000000 || (freq == 666000000 || freq == 818000000)
    then record usual_tops { mixer_top = 0x14; cp_cur = 0x28; div_buf_cur = 0x20 }
    else usual_tops
tops_for freq dvbt2 = usual_tops
tops_for freq isdbt = record usual_tops { lna_vth_l = 0x75 }
tops_for freq undefined = usual_tops

-- `type != TUNER_ANALOG_TV`
abbrev is_analog : TunerType → Bool
is_analog analog_tv = true
is_analog radio = false
is_analog digital_tv = false

module _ {D : Type 0} (b : Board D) where
  -- `r82xx_sysfreq_sel` under `Set LNA`.
  unfoldable pub set_lna : Bool → Tops → M D (Unit {0})
  set_lna false t = do
    write_reg_mask b 0x1d 0 0x38
    write_reg_mask b 0x1c 0 0x04
    write_reg_mask b 0x06 0 0x40
    write_reg_mask b 0x1a 0x30 0x30
    write_reg_mask b 0x1d 0x18 0x38
    write_reg_mask b 0x1c t.mixer_top 0x04
    write_reg_mask b 0x1e 14 0x1f
    write_reg_mask b 0x1a 0x20 0x30
  set_lna true t = do
    write_reg_mask b 0x06 0 0x40
    write_reg_mask b 0x1d t.lna_top 0x38
    write_reg_mask b 0x1c t.mixer_top 0x04
    write_reg_mask b 0x1e 14 0x1f
    write_reg_mask b 0x1a 0x00 0x30
    write_reg_mask b 0x10 0x00 0x04

  -- `r82xx_sysfreq_sel` from the settings to `Set LNA`.
  unfoldable pub set_tops : Tops → M D (Unit {0})
  unfolding choose
  set_tops t = do
    choose b.cfg.use_predetect (write_reg_mask b 0x06 0x40 0x40) (pure tt)
    write_reg_mask b 0x1d t.lna_top 0xc7
    write_reg_mask b 0x1c t.mixer_top 0xf8
    write_reg b 0x0d t.lna_vth_l
    write_reg b 0x0e t.mixer_vth_l
    modify (λ p. record p { input = 0x00 })
    write_reg_mask b 0x05 0x00 0x60
    write_reg_mask b 0x06 0x00 0x08
    write_reg_mask b 0x11 t.cp_cur 0x38
    write_reg_mask b 0x17 t.div_buf_cur 0x30
    write_reg_mask b 0x0a 0x40 0x60

  -- `r82xx_sysfreq_sel`
  unfoldable pub sysfreq_sel : ℕ → TunerType → DeliverySystem → M D (Unit {0})
  unfolding tops_for set_tops set_lna
  sysfreq_sel freq kind delsys =
      set_tops (tops_for freq delsys) >> set_lna (is_analog kind) (tops_for freq delsys)

  -- A round of the calibration, from the lock on: `fil_cal_code`.
  unfoldable pub trigger : M D ℕ
  trigger = do
    write_reg_mask b 0x0b 0x10 0x10
    write_reg_mask b 0x0b 0x00 0x10
    write_reg_mask b 0x0f 0x00 0x04
    bytes ← read b 0x00 5
    let code = bit_and (get_or bytes 4 0) 0x0f
    modify (λ p. record p { fil_cal_code = code })
    pure code

  -- A round of the calibration; `next` is the round behind it. False where the function returns since
  -- there is no lock.
  unfoldable pub calibrate_once : (next : M D Bool) → M D Bool
  unfolding trigger choose
  calibrate_once next = do
    write_reg_mask b 0x0b 0x6b 0x60
    write_reg_mask b 0x0f 0x04 0x04
    write_reg_mask b 0x10 0x00 0x03
    set_pll b (56000 * 1000)
    locked ← gets (λ p. p.has_lock)
    choose locked
        (do code ← trigger; choose (not (code == 0) && not (code == 0x0f)) (pure true) next)
        (pure false)

  -- The loop of the calibration, with the rounds that are left.
  unfoldable pub calibrate : (left : ℕ) → M D Bool
  unfolding calibrate_once
  calibrate zero = pure true
  calibrate (suc left) = calibrate_once (calibrate left)

  -- `r82xx_set_tv_standard` behind the calibration.
  unfoldable pub set_filters : ℕ → TunerType → DeliverySystem → M D (Unit {0})
  set_filters bw kind delsys = do
    modify (λ p. record p { fil_cal_code = if p.fil_cal_code == 0x0f then 0 else p.fil_cal_code })
    code ← gets (λ p. p.fil_cal_code)
    write_reg_mask b 0x0a (bit_or 0x10 code) 0x1f
    write_reg_mask b 0x0b 0x6b 0xef
    write_reg_mask b 0x07 0x00 0x80
    write_reg_mask b 0x06 0x10 0x30
    write_reg_mask b 0x1e 0x60 0x60
    write_reg_mask b 0x05 0x01 0x80
    write_reg_mask b 0x1f 0x00 0x80
    write_reg_mask b 0x0f 0x00 0x80
    write_reg_mask b 0x19 0x60 0x60
    modify (λ p. record p { delsys = delsys; kind = some kind; bw = bw })

  -- `r82xx_set_tv_standard` behind the initialization of the shadow.
  unfoldable pub set_standard : ℕ → TunerType → DeliverySystem → M D (Unit {0})
  unfolding calibrate set_filters choose
  set_standard bw kind delsys = do
    write_reg_mask b 0x0c 0x00 0x0f
    write_reg_mask b 0x13 49 0x3f
    choose (is_analog kind) (pure tt) (write_reg_mask b 0x1d 0x00 0x38)
    modify (λ p. record p { int_freq = 3570 * 1000 })
    locked ← calibrate 2
    choose locked (set_filters bw kind delsys) (pure tt)

  -- `r82xx_set_tv_standard`
  unfoldable pub set_tv_standard : ℕ → TunerType → DeliverySystem → M D (Unit {0})
  unfolding set_standard
  set_tv_standard bw kind delsys =
      modify (λ p. record p { regs = init_array }) >> set_standard bw kind delsys

  -- `type = -1`, whatever the `rc` of the last write.
  unfoldable pub forgetting : M D (Unit {0}) → M D (Unit {0})
  forgetting m p = let (r, q) = m p in (r, record q { kind = none })

  -- `r82xx_standby`
  unfoldable pub standby : M D (Unit {0})
  unfolding forgetting choose
  standby = do
    initialized ← gets (λ p. p.init_done)
    choose initialized
        (do
          write_reg b 0x06 0xb1
          write_reg b 0x05 0xa0
          write_reg b 0x07 0x3a
          write_reg b 0x08 0x40
          write_reg b 0x09 0xc0
          write_reg b 0x0a 0x36
          write_reg b 0x0c 0x35
          write_reg b 0x0f 0x68
          write_reg b 0x11 0x03
          write_reg b 0x17 0xf4
          forgetting (write_reg b 0x19 0x0c))
        (pure tt)

  -- A call of which the `rc` is not looked at.
  unfoldable pub ignored : Result (Unit {0}) × Priv D → Result (Unit {0}) × Priv D
  ignored (done a, p) = (done a, p)
  ignored (failed rc, p) = (done tt, p)
  ignored (diverges, p) = (diverges, p)

  -- `init_done = 1`, whatever the `rc` of the call before.
  unfoldable pub initialized : M D (Unit {0}) → M D (Unit {0})
  initialized m p = let (r, q) = m p in (r, record q { init_done = true })

  -- `r82xx_init`
  unfoldable pub init : M D (Unit {0})
  unfolding set_tv_standard sysfreq_sel ignored initialized
  init = do
    modify (λ p. record p { xtal_cap_sel = high_cap_0p; regs = replicate num_regs 0 })
    λ p. ignored (write b 0x05 init_array p)
    set_tv_standard 3 digital_tv undefined
    initialized (sysfreq_sel 0 digital_tv dvbt)
