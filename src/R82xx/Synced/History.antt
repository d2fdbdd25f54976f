-- ===== src/R82xx/Synced/History.antt =====
-- The driver from `r82xx_init` on: any calls, in any order, whatever they return.
use rtl_sdr.Prelude.{
  ℕ, suc, ◌+◌, ◌≡◌, refl, ap, sym, subst⁻¹, ◌∙◌, arith, Bool, List, [], ◌∷◌, length, get_or,
  replicate, Buffer, fill, fill_self, ℤ, if_false,
}
use rtl_sdr.R82xx.{
  Board, Priv, Result, done, failed, diverges, after, ◌>>◌, high_cap_0p, digital_tv, undefined,
  dvbt,
}
use rtl_sdr.R82xx.Regs.{num_regs, shadow_store, shadow_equal, write}
use rtl_sdr.R82xx.Gain.{set_gain, set_bandwidth}
use rtl_sdr.R82xx.Setup.{
  init_array, ignored, set_standard, set_tv_standard, sysfreq_sel, initialized, standby, init,
}
use rtl_sdr.R82xx.Freq.{set_freq}
use rtl_sdr.R82xx.Write.Reliable.{IsReliable, IsSynced, Leaves, write_loop-Leaves}
use rtl_sdr.R82xx.Synced.Rules.{bind-Keeps}
use rtl_sdr.R82xx.Synced.Operations.{
  set_gain-Keeps, set_bandwidth-Keeps, set_freq-Keeps, standby-Keeps, set_standard-Keeps,
  sysfreq_sel-Keeps, initialized-Keeps,
}

-- The functions that the device library calls of the driver.
pub data Call : Type 0 where
  initialize stand_by : Call
  tune : ℕ → Call
  gain : Bool → ℤ → Call
  bandwidth : ℤ → Call

module _ {D : Type 0} (b : Board D) where
  -- The state that a call leaves, also where it fails.
  pub perform : Call → Priv D → Priv D
  unfolding init standby set_freq set_gain set_bandwidth
  perform initialize p = (init b p).1
  perform stand_by p = (standby b p).1
  perform (tune freq) p = (set_freq b freq p).1
  perform (gain manual g) p = (set_gain b manual g p).1
  perform (bandwidth bw) p = (set_bandwidth b bw p).1

  pub perform_all : List Call → Priv D → Priv D
  unfolding perform
  perform_all [] p = p
  perform_all (c ∷ cs) p = perform_all cs (perform c p)

-- A buffer that was filled with the shadow.
filled-IsSynced :
    {D : Type 0} (regs_of : D → Buffer) (old : Buffer) (q : Priv D)
    → q.regs ≡ init_array
    → ((j : ℕ) → regs_of q.device j ≡ fill old 5 init_array j)
    → IsSynced regs_of q
filled-IsSynced regs_of old q e h = record {
  whole = ap length e;
  same = λ j lt. h (5 + j) ∙ fill_self old 5 init_array j lt ∙ ap (λ t. get_or t j 0) (sym e);
}

module _ {D : Type 0} (b : Board D) (regs_of : D → Buffer) (rel : IsReliable b regs_of) where
  -- The first write of `r82xx_init`, from a shadow of zeros.
  first_write :
      (p : Priv D)
      → p.regs ≡ replicate num_regs 0
      → Leaves regs_of init_array (fill (regs_of p.device) 5 init_array) (write b 5 init_array p)
  unfolding write shadow_equal shadow_store
  first_write p e =
      subst⁻¹ (Leaves regs_of init_array (fill (regs_of p.device) 5 init_array))
        (if_false (shadow_equal p.regs 5 init_array) _ _
          (ap (λ (t : List ℕ). shadow_equal t 5 init_array) e))
        (stored (
          write_loop-Leaves b regs_of rel (suc (length init_array)) 5 init_array
            (record p { regs = shadow_store p.regs 5 init_array }) (omega arith) (omega arith)))
    where
      stored :
          {x : Result (Unit {0}) × Priv D}
          → Leaves regs_of
              (shadow_store p.regs 5 init_array)
              (fill (regs_of p.device) 5 init_array)
              x
          → Leaves regs_of init_array (fill (regs_of p.device) 5 init_array) x
      stored l = record {
        ok = l.ok;
        shadow = l.shadow ∙ ap (λ (t : List ℕ). shadow_store t 5 init_array) e;
        device = l.device;
      }

  -- `r82xx_set_tv_standard` from a state of which the shadow is `init_array` already.
  from_init_array :
      (x : Result (Unit {0}) × Priv D) (old : Buffer)
      → Leaves regs_of init_array (fill old 5 init_array) x
      → IsSynced regs_of
          (after (ignored b x) (λ _.
            set_tv_standard b 3 digital_tv undefined
            >> initialized b (sysfreq_sel b 0 digital_tv dvbt))).1
  unfolding ignored set_tv_standard
  from_init_array (done a, q) old l =
      (bind-Keeps {m = set_standard b 3 digital_tv undefined}
          {f = λ _. initialized b (sysfreq_sel b 0 digital_tv dvbt)}
          (set_standard-Keeps b regs_of rel 3 digital_tv undefined)
          (λ _.
            initialized-Keeps b regs_of rel
              (sysfreq_sel-Keeps b regs_of rel 0 digital_tv dvbt))).keep
        (record q { regs = init_array })
        (filled-IsSynced regs_of old (record q { regs = init_array }) refl l.device)
  from_init_array (failed rc, q) old l = cc (l.ok)
  from_init_array (diverges, q) old l = cc (l.ok)

  -- `r82xx_init` brings the shadow and the device together, from any state and any registers.
  pub init-IsSynced : (p : Priv D) → IsSynced regs_of (init b p).1
  unfolding init
  init-IsSynced p =
      let start : Priv D = record p { xtal_cap_sel = high_cap_0p; regs = replicate num_regs 0 } in
      from_init_array (write b 5 init_array start) (regs_of p.device) (first_write start refl)

  perform-IsSynced : (c : Call) (p : Priv D) → IsSynced regs_of p → IsSynced regs_of (perform b c p)
  unfolding perform
  perform-IsSynced initialize p s = init-IsSynced p
  perform-IsSynced stand_by p s = (standby-Keeps b regs_of rel).keep p s
  perform-IsSynced (tune freq) p s = (set_freq-Keeps b regs_of rel freq).keep p s
  perform-IsSynced (gain manual g) p s = (set_gain-Keeps b regs_of rel manual g).keep p s
  perform-IsSynced (bandwidth bw) p s = (set_bandwidth-Keeps b regs_of rel bw).keep p s

  later-IsSynced :
      (calls : List Call) (p : Priv D)
      → IsSynced regs_of p
      → IsSynced regs_of (perform_all b calls p)
  unfolding perform_all
  later-IsSynced [] p s = s
  later-IsSynced (c ∷ cs) p s = later-IsSynced cs (perform b c p) (perform-IsSynced c p s)

  -- On a device that acknowledges each transfer, `r82xx_init` from any state and then any calls of
  -- `r82xx_init`, `r82xx_standby`, `r82xx_set_freq`, `r82xx_set_gain` and `r82xx_set_bandwidth`, those
  -- that fail too, leave a shadow of 30 bytes that are what the device has in its registers 5 to 34.
  pub perform_all-IsSynced :
      (calls : List Call) (p : Priv D) → IsSynced regs_of (perform_all b calls (init b p).1)
  perform_all-IsSynced calls p = later-IsSynced calls (init b p).1 (init-IsSynced p)
