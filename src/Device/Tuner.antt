-- ===== src/Device/Tuner.antt =====
-- The device library as the tuner's driver sees it: its functions make a dongle, and a bus that
-- forwards messages makes the dongle reliable.
use rtl_sdr.Prelude.{
  ℕ, suc, ◌+◌, ◌^◌, ◌≤◌, ◌<◌, ◌≡◌, ◌≢◌, ◌∙◌, arith, Bool, List, ◌∷◌, length, pos, Buffer, fill,
}
use rtl_sdr.Device.{
  Usb, i2c_write, i2c_read, set_bias_tee_gpio, set_gpio_output, set_gpio_bit, read_reg, write_reg,
}
use rtl_sdr.R82xx.{Config, Board, Priv}
use rtl_sdr.R82xx.Setup.{init}
use rtl_sdr.R82xx.Write.Reliable.{IsReliable, IsSynced}
use rtl_sdr.R82xx.Synced.History.{Call, perform_all, perform_all-IsSynced}

module _ {D : Type 0} (u : Usb D) (is_blog_v4 : Bool) (cfg : Config) where
  -- The functions that the driver calls, on an open device.
  pub usb_board : Board D
  unfolding i2c_write i2c_read set_bias_tee_gpio
  usb_board = record {
    cfg = cfg;
    dongle = record {
      i2c_write = i2c_write u;
      i2c_read = i2c_read u;
      is_blog_v4 = is_blog_v4;
      set_bias_tee_gpio = set_bias_tee_gpio u;
    };
  }

  -- The tuner behind the I2C block of index 0x0610: it acknowledges messages within the limit and
  -- stores their bytes from the register of the first one on; other transfers change none of its
  -- registers.
  pub record Forwards (regs_of : D → Buffer) : Type 0 where
    pub more_than_one : 2 ≤ cfg.max_i2c_msg_len
    pub within_int : cfg.max_i2c_msg_len < 2 ^ 31
    pub takes :
        (reg : ℕ) (bytes : List ℕ) (d : D)
        → suc (length bytes) ≤ cfg.max_i2c_msg_len
        → (u.control_out cfg.i2c_addr 0x0610 (reg ∷ bytes) d).0 ≡ pos (length bytes + 1)
    pub stores :
        (reg : ℕ) (bytes : List ℕ) (d : D)
        → suc (length bytes) ≤ cfg.max_i2c_msg_len
        → regs_of (u.control_out cfg.i2c_addr 0x0610 (reg ∷ bytes) d).1 ≡ fill (regs_of d) reg bytes
    pub reads_keep :
        (value index n : ℕ) (d : D) → regs_of (u.control_in value index n d).2 ≡ regs_of d
    pub others_keep :
        (value index : ℕ) (bytes : List ℕ) (d : D)
        → index ≢ 0x0610
        → regs_of (u.control_out value index bytes d).1 ≡ regs_of d

  module _ (regs_of : D → Buffer) (forwards : Forwards regs_of) where
    set_gpio_output-regs : (gpio : ℕ) (d : D) → regs_of (set_gpio_output u gpio d) ≡ regs_of d
    unfolding set_gpio_output read_reg write_reg
    set_gpio_output-regs gpio d =
        forwards.others_keep _ _ _ _ (λ e. omega arith)
        ∙ forwards.reads_keep _ _ _ _
        ∙ forwards.others_keep _ _ _ _ (λ e. omega arith)
        ∙ forwards.reads_keep _ _ _ _

    set_gpio_bit-regs :
        (gpio : ℕ) (on : Bool) (d : D) → regs_of (set_gpio_bit u gpio on d) ≡ regs_of d
    unfolding set_gpio_bit read_reg write_reg
    set_gpio_bit-regs gpio on d =
        forwards.others_keep _ _ _ _ (λ e. omega arith) ∙ forwards.reads_keep _ _ _ _

    usb_board-IsReliable : IsReliable usb_board regs_of
    unfolding usb_board
    usb_board-IsReliable = record {
      more_than_one = forwards.more_than_one;
      within_int = forwards.within_int;
      takes = forwards.takes;
      stores = forwards.stores;
      read_keeps = λ n d. forwards.reads_keep cfg.i2c_addr 0x0600 n d;
      gpio_keeps =
          λ g on d. set_gpio_bit-regs g on (set_gpio_output u g d) ∙ set_gpio_output-regs g d;
    }

    -- On a USB device that forwards the driver's messages, `r82xx_init` from any state and then any
    -- calls of the driver, those that fail too, leave a shadow of 30 bytes that are what the tuner has
    -- in its registers 5 to 34.
    pub usb_board-IsSynced :
        (calls : List Call) (p : Priv D)
        → IsSynced regs_of (perform_all usb_board calls (init usb_board p).1)
    usb_board-IsSynced calls p = perform_all-IsSynced usb_board regs_of usb_board-IsReliable calls p
