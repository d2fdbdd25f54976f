-- ===== src/R82xx/Synced/Operations.antt =====
-- The operations keep the shadow equal to the device's registers.
use rtl_sdr.Prelude.{
  ℕ, zero, suc, ◌≡◌, refl, arith, Bool, true, false, Option, none, some, List, length, Buffer, ℤ,
  if_cases, ltb, ◌/◌, ◌-◌,
}
use rtl_sdr.R82xx.{◌>>=◌, Board, M, TunerType, DeliverySystem}
use rtl_sdr.R82xx.Regs.{write}
use rtl_sdr.R82xx.Mux.{FreqRange, set_range, set_mux, freq_range}
use rtl_sdr.R82xx.Pll.{
  pll_bytes, divider, vco_div, nint_of, wait_lock, take_lock, program_pll, set_pll,
}
use rtl_sdr.R82xx.Gain.{set_manual_gain, set_gain, set_bandwidth}
use rtl_sdr.R82xx.Setup.{
  Tops, set_lna, set_tops, sysfreq_sel, trigger, calibrate_once, calibrate, set_filters,
  set_standard, forgetting, standby, initialized,
}
use rtl_sdr.R82xx.Freq.{switch_band, select_input, set_freq}
use rtl_sdr.R82xx.Write.Reliable.{IsReliable}
use rtl_sdr.R82xx.Write.Device.{write-IsSynced}
use rtl_sdr.R82xx.Synced.Rules.{Keeps, pure-Keeps, bind-Keeps, keeping}

pll_bytes-length :
    (pll_ref reference fine freq : ℕ) (regs : List ℕ) (bytes : List ℕ)
    → pll_bytes pll_ref reference fine freq regs ≡ some bytes
    → length bytes ≡ 7
unfolding pll_bytes
pll_bytes-length pll_ref reference fine freq regs bytes =
    if_cases (λ (o : Option (List ℕ)). o ≡ some bytes → length bytes ≡ 7)
      (ltb (128 / reference - 1) (nint_of (vco_div pll_ref freq (divider freq).0))) _ _ (λ _ h. cc)
      (λ _ h. some-length h)
  where
    some-length : {xs ys : List ℕ} → some xs ≡ some ys → length ys ≡ length xs
    some-length h = cc

module _ {D : Type 0} (b : Board D) (regs_of : D → Buffer) (rel : IsReliable b regs_of) where
  set_range-Keeps : (r : FreqRange) → Keeps regs_of (set_range b r)
  unfolding set_range
  set_range-Keeps r = search keeping depth 30

  set_mux-Keeps : (freq : ℕ) → Keeps regs_of (set_mux b freq)
  unfolding set_mux
  set_mux-Keeps freq = set_range-Keeps (freq_range freq)

  wait_lock-Keeps : Keeps regs_of (wait_lock b)
  unfolding wait_lock
  wait_lock-Keeps = search keeping depth 30

  take_lock-Keeps : (locked : Bool) → Keeps regs_of (take_lock b locked)
  unfolding take_lock
  take_lock-Keeps true = search keeping depth 30
  take_lock-Keeps false = search keeping depth 30

  write_pll-Keeps : (bytes : List ℕ) → length bytes ≡ 7 → Keeps regs_of (write b 0x10 bytes)
  write_pll-Keeps bytes e = record {
    keep = λ p s. write-IsSynced b regs_of rel 0x10 bytes p s (omega arith) (omega arith);
  }

  program_pll-Keeps :
      (o : Option (List ℕ))
      → ((bytes : List ℕ) → o ≡ some bytes → length bytes ≡ 7)
      → Keeps regs_of (program_pll b o)
  unfolding program_pll
  program_pll-Keeps none h = search keeping depth 30
  program_pll-Keeps (some bytes) h =
      bind-Keeps {m = write b 0x10 bytes} {f = λ _. wait_lock b >>= take_lock b}
        (write_pll-Keeps bytes (h bytes refl))
        (λ _. bind-Keeps {m = wait_lock b} {f = take_lock b} wait_lock-Keeps take_lock-Keeps)

  set_pll-Keeps : (freq : ℕ) → Keeps regs_of (set_pll b freq)
  unfolding set_pll
  set_pll-Keeps freq = search (keeping, program_pll-Keeps, pll_bytes-length) depth 30

  pub set_manual_gain-Keeps : (gain : ℤ) → Keeps regs_of (set_manual_gain b gain)
  unfolding set_manual_gain
  set_manual_gain-Keeps gain = search keeping depth 30

  pub set_gain-Keeps : (manual : Bool) (gain : ℤ) → Keeps regs_of (set_gain b manual gain)
  unfolding set_gain
  set_gain-Keeps true gain = set_manual_gain-Keeps gain
  set_gain-Keeps false gain = search keeping depth 30

  pub set_bandwidth-Keeps : (bw : ℤ) → Keeps regs_of (set_bandwidth b bw)
  unfolding set_bandwidth
  set_bandwidth-Keeps bw = search keeping depth 30

  switch_band-Keeps : (band : ℕ) → Keeps regs_of (switch_band b band)
  unfolding switch_band
  switch_band-Keeps band = search keeping depth 30

  select_input-Keeps : (is_v4 : Bool) (freq : ℕ) → Keeps regs_of (select_input b is_v4 freq)
  unfolding select_input
  select_input-Keeps true freq = search (keeping, switch_band-Keeps) depth 30
  select_input-Keeps false freq = search keeping depth 30

  pub set_freq-Keeps : (freq : ℕ) → Keeps regs_of (set_freq b freq)
  unfolding set_freq
  set_freq-Keeps freq = search (keeping, set_mux-Keeps, set_pll-Keeps, select_input-Keeps) depth 30

  set_lna-Keeps : (analog : Bool) (t : Tops) → Keeps regs_of (set_lna b analog t)
  unfolding set_lna
  set_lna-Keeps true t = search keeping depth 30
  set_lna-Keeps false t = search keeping depth 30

  set_tops-Keeps : (t : Tops) → Keeps regs_of (set_tops b t)
  unfolding set_tops
  set_tops-Keeps t = search keeping depth 40

  pub sysfreq_sel-Keeps :
      (freq : ℕ) (kind : TunerType) (delsys : DeliverySystem)
      → Keeps regs_of (sysfreq_sel b freq kind delsys)
  unfolding sysfreq_sel
  sysfreq_sel-Keeps freq kind delsys = search (keeping, set_tops-Keeps, set_lna-Keeps) depth 30

  trigger-Keeps : Keeps regs_of (trigger b)
  unfolding trigger
  trigger-Keeps = search keeping depth 30

  calibrate_once-Keeps :
      {next : M D Bool} → Keeps regs_of next → Keeps regs_of (calibrate_once b next)
  unfolding calibrate_once
  calibrate_once-Keeps k = search (keeping, set_pll-Keeps, trigger-Keeps) depth 30

  calibrate-Keeps : (left : ℕ) → Keeps regs_of (calibrate b left)
  unfolding calibrate
  calibrate-Keeps zero = pure-Keeps true
  calibrate-Keeps (suc left) = calibrate_once-Keeps (calibrate-Keeps left)

  set_filters-Keeps :
      (bw : ℕ) (kind : TunerType) (delsys : DeliverySystem)
      → Keeps regs_of (set_filters b bw kind delsys)
  unfolding set_filters
  set_filters-Keeps bw kind delsys = search keeping depth 40

  pub set_standard-Keeps :
      (bw : ℕ) (kind : TunerType) (delsys : DeliverySystem)
      → Keeps regs_of (set_standard b bw kind delsys)
  unfolding set_standard
  set_standard-Keeps bw kind delsys = search (keeping, calibrate-Keeps, set_filters-Keeps) depth 30

  forgetting-Keeps : {m : M D (Unit {0})} → Keeps regs_of m → Keeps regs_of (forgetting b m)
  unfolding forgetting
  forgetting-Keeps k = record {
    keep = λ p s. record { whole = (k.keep p s).whole; same = (k.keep p s).same };
  }

  pub initialized-Keeps : {m : M D (Unit {0})} → Keeps regs_of m → Keeps regs_of (initialized b m)
  unfolding initialized
  initialized-Keeps k = record {
    keep = λ p s. record { whole = (k.keep p s).whole; same = (k.keep p s).same };
  }

  pub standby-Keeps : Keeps regs_of (standby b)
  unfolding standby
  standby-Keeps = search (keeping, forgetting-Keeps) depth 40
