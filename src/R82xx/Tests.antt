-- ===== src/R82xx/Tests.antt =====
-- The driver on a device that stores what it is sent, and on one that refuses everything.
use rtl_sdr.Prelude.{
  ℕ, ◌+◌, ◌≡◌, refl, sym, get_or-replicate, arith, true, false, none, some, List, [], ◌∷◌, map,
  length, replicate, ℤ, pos, negsuc, Buffer, fill, blit,
}
use rtl_sdr.R82xx.{r820t, Config, Board, Priv, done, failed, low_cap_30p, undefined}
use rtl_sdr.R82xx.Regs.{write, write_reg, write_reg_mask, read, bitrev}
use rtl_sdr.R82xx.Mux.{freq_range, set_mux}
use rtl_sdr.R82xx.Pll.{set_pll, pll_bytes}
use rtl_sdr.R82xx.Pll.Words.{Synthesizes, pll_bytes-Synthesizes}
use rtl_sdr.R82xx.Gain.{gains_for, filters_for}
use rtl_sdr.R82xx.Gain.Choice.{Passes, Suits, gains_for-Suits, filters_for-Passes}
use rtl_sdr.R82xx.Setup.{init}
use rtl_sdr.R82xx.Freq.{set_freq}
use rtl_sdr.R82xx.Write.Retry.{write-write}
use rtl_sdr.R82xx.Write.Reliable.{IsReliable, IsSynced, Leaves}
use rtl_sdr.R82xx.Write.Device.{write-Leaves}
use rtl_sdr.R82xx.Synced.History.{tune, gain, bandwidth, perform_all, perform_all-IsSynced}

abbrev config : Config
config = record {
  i2c_addr = 0x34;
  xtal = 28800000;
  rafael_chip = r820t;
  max_i2c_msg_len = 8;
  use_predetect = false;
}

abbrev accepted : ℕ → List ℕ → Buffer → ℤ × Buffer
accepted addr [] d = (pos 0, d)
accepted addr (reg ∷ bytes) d = (pos (length bytes + 1), fill d reg bytes)

-- Reads find 0x40 in each byte, which says that there is a lock.
abbrev storing : Board Buffer
storing = record {
  cfg = config;
  dongle = record {
    i2c_write = accepted;
    i2c_read = λ addr n d. (pos n, replicate n 0x02, d);
    is_blog_v4 = false;
    set_bias_tee_gpio = λ g on d. (pos 0, d);
  };
}

abbrev refusing : Board Buffer
refusing = record {
  cfg = config;
  dongle = record {
    i2c_write = λ addr bytes d. (negsuc 8, d);
    i2c_read = λ addr n d. (negsuc 8, [], d);
    is_blog_v4 = false;
    set_bias_tee_gpio = λ g on d. (pos 0, d);
  };
}

abbrev registers : Buffer → Buffer
registers d = d

storing-IsReliable : IsReliable storing registers
storing-IsReliable = record {
  more_than_one = omega arith;
  within_int = omega arith;
  takes = λ reg bytes d h. refl;
  stores = λ reg bytes d h. refl;
  read_keeps = λ n d. refl;
  gpio_keeps = λ g on d. refl;
}

abbrev start : Priv Buffer
start = record {
  regs = replicate 30 0;
  xtal_cap_sel = low_cap_30p;
  int_freq = 0;
  fil_cal_code = 0;
  input = 0;
  has_lock = false;
  init_done = false;
  delsys = undefined;
  kind = none;
  bw = 0;
  device = λ j. 0;
}

perform_all-IsSynced_example : IsSynced registers (
    perform_all storing
      (tune 100000000 ∷ gain true (pos 250) ∷ bandwidth (pos 2000000) ∷ [])
      (init storing start).1)
perform_all-IsSynced_example =
    perform_all-IsSynced storing registers storing-IsReliable
      (tune 100000000 ∷ gain true (pos 250) ∷ bandwidth (pos 2000000) ∷ []) start

start-IsSynced : IsSynced registers start
start-IsSynced = record { whole = refl; same = λ j lt. sym (get_or-replicate 30 0 j) }

-- Nine bytes go out in two messages.
write-Leaves_example :
    Leaves registers
      (blit (replicate 30 0) 11 (replicate 9 7))
      (fill (λ j. 0) 0x10 (replicate 9 7))
      (write storing 0x10 (replicate 9 7) start)
write-Leaves_example =
    write-Leaves storing registers storing-IsReliable 0x10 (replicate 9 7) start start-IsSynced
      (omega arith) (omega arith)

-- The write that is refused, and the same write again.
refused : (write refusing 0x10 (7 ∷ []) start).0 ≡ failed (negsuc 8)
unfolding write
refused = refl

write-write_example :
    write refusing 0x10 (7 ∷ []) (write refusing 0x10 (7 ∷ []) start).1
    ≡ (done tt, (write refusing 0x10 (7 ∷ []) start).1)
write-write_example = write-write refusing 0x10 (7 ∷ []) start refl (omega arith) (omega arith)

reversed : map bitrev (0x01 ∷ 0x69 ∷ 0xf0 ∷ []) ≡ 0x80 ∷ 0x96 ∷ 0x0f ∷ []
unfolding bitrev
reversed = refl

range_at_100_mhz : (freq_range 103570000).tf_c ≡ 0x34
unfolding freq_range
range_at_100_mhz = refl

pll_bytes-Synthesizes_example :
    (bytes : List ℕ) × (pll_bytes 28800000 2 2 103570000 (replicate 7 0) ≡ some bytes)
    × Synthesizes 28800000 103570000 bytes
pll_bytes-Synthesizes_example =
    pll_bytes-Synthesizes 28800000 2 2 103570000 (replicate 7 0) (omega arith) (omega arith)
      (omega arith) (omega arith) (omega arith) (omega arith)

gains_for-Suits_example : Suits (pos 250) (gains_for (pos 250))
gains_for-Suits_example = gains_for-Suits (pos 250)

filters_for-Passes_example : Passes 2000000 (filters_for (pos 2000000))
filters_for-Passes_example = filters_for-Passes (pos 2000000) (omega arith)

-- The driver on the device that stores: it comes up, and tunes with a lock.
tunes : (set_freq storing 100000000 (init storing start).1).0 ≡ done tt
unfolding init set_freq set_mux write_reg_mask set_pll read write_reg
tunes = refl

comes_up_refused : (init refusing start).0 ≡ failed (negsuc 8)
unfolding init write write_reg_mask
comes_up_refused = refl
