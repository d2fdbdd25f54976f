-- ===== src/R82xx/Synced/Rules.antt =====
-- What keeps the shadow equal to the device's registers: the steps of which the operations are made.
use rtl_sdr.Prelude.{
  ℕ, suc, ◌+◌, ◌-◌, ◌≤◌, ◌<◌, ◌≡◌, refl, ap, sym, ◌∙◌, arith, Bool, true, false, ◌&&◌, List, [],
  ◌∷◌, length, get_or, ℤ, pos, negsuc, Buffer, leb, ltb, if◌then◌else◌, if_cases,
}
use rtl_sdr.R82xx.{
  Board, Priv, Result, done, failed, diverges, M, after, pure, fail, gets, modify, choose, ◌>>=◌,
}
use rtl_sdr.R82xx.Regs.{
  read_cache_reg, mask_reg8, transfer, write_reg, write_reg_mask, read_bytes, read,
}
use rtl_sdr.R82xx.Freq.{set_gpio}
use rtl_sdr.R82xx.Write.Reliable.{IsReliable, IsSynced}
use rtl_sdr.R82xx.Write.Device.{write-IsSynced}

pub record Keeps {D : Type 0} (regs_of : D → Buffer) {A : Type 0} (m : M D A) : Type 0 where
  pub keep : (p : Priv D) → IsSynced regs_of p → IsSynced regs_of (m p).1

module _ {D : Type 0} {regs_of : D → Buffer} where
  pub pure-Keeps : {A : Type 0} (a : A) → Keeps regs_of (pure a)
  pure-Keeps a = record { keep = λ p s. s }

  pub fail-Keeps : {A : Type 0} (rc : ℤ) → Keeps regs_of (fail {A = A} rc)
  fail-Keeps rc = record { keep = λ p s. s }

  pub gets-Keeps : {A : Type 0} (f : Priv D → A) → Keeps regs_of (gets f)
  gets-Keeps f = record { keep = λ p s. s }

  pub after-IsSynced :
      {A B : Type 0} (x : Result A × Priv D) (f : A → M D B)
      → IsSynced regs_of x.1
      → ((a : A) → Keeps regs_of (f a))
      → IsSynced regs_of (after x f).1
  after-IsSynced (done a, p) f s h = (h a).keep p s
  after-IsSynced (failed rc, p) f s h = s
  after-IsSynced (diverges, p) f s h = s

  pub bind-Keeps :
      {A B : Type 0} {m : M D A} {f : A → M D B}
      → Keeps regs_of m
      → ((a : A) → Keeps regs_of (f a))
      → Keeps regs_of (m >>= f)
  bind-Keeps {m = m} {f = f} k h = record { keep = λ p s. after-IsSynced (m p) f (k.keep p s) h }

  pub choose-Keeps :
      {A : Type 0} (t : Bool) {m n : M D A}
      → Keeps regs_of m
      → Keeps regs_of n
      → Keeps regs_of (choose t m n)
  unfolding choose
  choose-Keeps true k l = k
  choose-Keeps false k l = l

  -- A change of fields other than the shadow and the device.
  pub modify-Keeps :
      (f : Priv D → Priv D)
      → ((p : Priv D) → (f p).regs ≡ p.regs)
      → ((p : Priv D) → (f p).device ≡ p.device)
      → Keeps regs_of (modify f)
  modify-Keeps f e g = record {
    keep = λ p s. record {
      whole = ap length (e p) ∙ s.whole;
      same = λ j lt.
          ap (λ d. regs_of d (5 + j)) (g p) ∙ s.same j lt ∙ ap (λ t. get_or t j 0) (sym (e p));
    };
  }

-- The registers that the shadow covers.
abbrev pub InShadow : ℕ → Type 0
InShadow reg = leb 5 reg && leb reg 34 ≡ true

InShadow-range : (reg : ℕ) → InShadow reg → (5 ≤ reg) × (reg + 1 ≤ 35)
InShadow-range reg h = ground arith

module _ {D : Type 0} (b : Board D) (regs_of : D → Buffer) (rel : IsReliable b regs_of) where
  pub write_reg-Keeps : (reg val : ℕ) → InShadow reg → Keeps regs_of (write_reg b reg val)
  unfolding write_reg
  write_reg-Keeps reg val h = record {
    keep = λ p s.
        write-IsSynced b regs_of rel reg (val ∷ []) p s (InShadow-range reg h).0
          (InShadow-range reg h).1;
  }

  read_cache_reg-Keeps : (reg : ℕ) → Keeps regs_of (read_cache_reg b reg)
  unfolding read_cache_reg
  read_cache_reg-Keeps reg = record {
    keep = λ p s.
        if_cases (λ (x : Result ℕ × Priv D). IsSynced regs_of x.1) (leb 5 reg && ltb (reg - 5) 30) _
          _ (λ _. s) (λ _. s);
  }

  pub write_reg_mask-Keeps :
      (reg val mask : ℕ) → InShadow reg → Keeps regs_of (write_reg_mask b reg val mask)
  unfolding write_reg_mask
  write_reg_mask-Keeps reg val mask h = bind-Keeps (read_cache_reg-Keeps reg) (λ rc. record {
    keep = λ p s.
        write-IsSynced b regs_of rel reg (mask_reg8 rc val mask ∷ []) p s (InShadow-range reg h).0
          (InShadow-range reg h).1;
  })

  -- What changes the device and not its registers.
  device-IsSynced :
      (p : Priv D) (d : D)
      → regs_of d ≡ regs_of p.device
      → IsSynced regs_of p
      → IsSynced regs_of (record p { device = d })
  device-IsSynced p d e s = record {
    whole = s.whole;
    same = λ j lt. ap (λ (f : Buffer). f (5 + j)) e ∙ s.same j lt;
  }

  pub read-Keeps : (reg n : ℕ) → Keeps regs_of (read b reg n)
  unfolding read transfer read_bytes
  read-Keeps reg n =
      bind-Keeps {m = transfer b reg []} {f = λ _. read_bytes b n}
        (record {
          keep = λ p s.
              device-IsSynced p _ (rel.stores reg [] p.device (omega (arith, rel.more_than_one))) s;
        })
        (λ _. record { keep = λ p s. device-IsSynced p _ (rel.read_keeps n p.device) s })

  pub set_gpio-Keeps : (g : ℕ) (on : Bool) → Keeps regs_of (set_gpio b g on)
  unfolding set_gpio
  set_gpio-Keeps g on = record {
    keep = λ p s. device-IsSynced p _ (rel.gpio_keeps g on p.device) s;
  }

pub ruleset keeping = (
  pure-Keeps, fail-Keeps, gets-Keeps, bind-Keeps, choose-Keeps, modify-Keeps, write_reg-Keeps,
  write_reg_mask-Keeps, read-Keeps, set_gpio-Keeps, refl,
)
