-- ===== src/R82xx.antt =====
-- The driver of the R820T and R828D tuners, src/tuner_r82xx.c and include/tuner_r82xx.h. Here: the
-- driver's state, what it calls of the device library, and the form of its functions. The children
-- have the functions and what is proved of them.
pub mod Regs
pub mod Mux
pub mod Pll
pub mod Gain
pub mod Setup
pub mod Freq
pub mod Write
pub mod Synced
mod Tests
use rtl_sdr.Prelude.{ℕ, Bool, true, false, List, Option, ℤ, pos, negsuc}

-- `enum r82xx_chip`
pub data Chip : Type 0 where
  r820t r620d r828d r828 r828s r820c : Chip

-- `enum r82xx_tuner_type`
pub data TunerType : Type 0 where
  radio analog_tv digital_tv : TunerType

-- `enum r82xx_xtal_cap_value`
pub data XtalCap : Type 0 where
  low_cap_30p low_cap_20p low_cap_10p low_cap_0p high_cap_0p : XtalCap

-- `enum r82xx_delivery_system`
pub data DeliverySystem : Type 0 where
  undefined dvbt dvbt2 isdbt : DeliverySystem

-- `struct r82xx_config`
pub record Config : Type 0 where
  pub i2c_addr : ℕ
  pub xtal : ℕ
  pub rafael_chip : Chip
  pub max_i2c_msg_len : ℕ
  pub use_predetect : Bool

-- What the driver calls of the device library, on a device of type `D`: `rtlsdr_i2c_write_fn` and
-- `rtlsdr_i2c_read_fn` with the address and the bytes or their number, `rtlsdr_check_dongle_model`
-- for the Blog V4, and `rtlsdr_set_bias_tee_gpio`.
pub record Dongle (D : Type 0) : Type 0 where
  pub i2c_write : ℕ → List ℕ → D → ℤ × D
  pub i2c_read : ℕ → ℕ → D → ℤ × List ℕ × D
  pub is_blog_v4 : Bool
  pub set_bias_tee_gpio : ℕ → Bool → D → ℤ × D

-- The configuration of a tuner and the dongle that it sits on.
pub record Board (D : Type 0) : Type 0 where
  pub cfg : Config
  pub dongle : Dongle D

-- `struct r82xx_priv`, with the device behind it. `regs` is the shadow of the registers from
-- REG_SHADOW_START on. `kind` is the field `type`, with none for the -1 of `r82xx_standby`.
pub record Priv (D : Type 0) : Type 0 where
  pub regs : List ℕ
  pub xtal_cap_sel : XtalCap
  pub int_freq : ℕ
  pub fil_cal_code : ℕ
  pub input : ℕ
  pub has_lock : Bool
  pub init_done : Bool
  pub delsys : DeliverySystem
  pub kind : Option TunerType
  pub bw : ℕ
  pub device : D

-- What a function leaves: a value, a negative `rc`, or a loop that goes on for ever.
pub data Result (A : Type 0) : Type 0 where
  done : A → Result A
  failed : ℤ → Result A
  diverges : Result A

-- A function of the driver: the state is kept after a failure too.
abbrev pub M : Type 0 → Type 0 → Type 0
M D A = Priv D → Result A × Priv D

module _ {D A : Type 0} where
  abbrev pub pure : A → M D A
  pure a p = (done a, p)

  abbrev pub fail : ℤ → M D A
  fail rc p = (failed rc, p)

  abbrev pub gets : (Priv D → A) → M D A
  gets f p = (done (f p), p)

abbrev pub modify : {D : Type 0} → (Priv D → Priv D) → M D (Unit {0})
modify f p = (done tt, f p)

module _ {D A B : Type 0} where
  -- What `if (rc < 0) return rc;` does behind a call.
  abbrev pub after : Result A × Priv D → (A → M D B) → Result B × Priv D
  after (done a, p) f = f a p
  after (failed rc, p) f = (failed rc, p)
  after (diverges, p) f = (diverges, p)

infixl 5 ◌>>=◌ ◌>>◌
abbrev pub ◌>>=◌ : {D A B : Type 0} → M D A → (A → M D B) → M D B
◌>>=◌ m f p = after (m p) f

abbrev pub ◌>>◌ : {D A B : Type 0} → M D A → M D B → M D B
m >> k = m >>= λ _. k

module _ {D A : Type 0} where
  -- `if` between two calls.
  pub choose : Bool → M D A → M D A → M D A
  choose true m n = m
  choose false m n = n
