-- ===== src/Device.antt =====
-- The registers of the RTL2832, src/librtlsdr.c: the functions from `rtlsdr_read_array` to
-- `rtlsdr_set_i2c_repeater`, over the control transfers of libusb. The children have the filter's
-- coefficients, the sample rate and the EEPROM.
pub mod Fir
pub mod Eeprom
pub mod Rate
pub mod Tuner
mod Tests
use rtl_sdr.Prelude.{
  ℕ, ◌+◌, ◌-◌, ◌*◌, ◌/◌, ◌%◌, ◌^◌, Bool, true, false, List, [], ◌∷◌, take, length, get_or, ℤ, pos,
  negsuc, ◌==◌, if◌then◌else◌, u8, u16, ◌<<<◌, ◌>>>◌, bit_and, bit_or,
}

-- `libusb_control_transfer` on an open device: CTRL_OUT with the value, the index and the bytes, and
-- CTRL_IN with the number of bytes, which gives what the buffer then holds. Both give libusb's result.
pub record Usb (D : Type 0) : Type 0 where
  pub control_out : (value index : ℕ) → List ℕ → D → ℤ × D
  pub control_in : (value index len : ℕ) → D → ℤ × List ℕ × D

-- `enum blocks`
abbrev pub usbb : ℕ
usbb = 1

abbrev pub sysb : ℕ
sysb = 2

abbrev pub iicb : ℕ
iicb = 6

-- `enum sys_reg`, the registers that are used below
abbrev pub gpo : ℕ
gpo = 0x3001

abbrev pub gpoe : ℕ
gpoe = 0x3003

abbrev pub gpd : ℕ
gpd = 0x3004

module _ {D : Type 0} (u : Usb D) where
  -- `rtlsdr_read_array`
  pub read_array : (block addr len : ℕ) → D → ℤ × List ℕ × D
  read_array block addr len = u.control_in addr (u16 (block <<< 8)) len

  -- `rtlsdr_write_array`
  pub write_array : (block addr : ℕ) → List ℕ → D → ℤ × D
  write_array block addr bytes = u.control_out addr (u16 (bit_or (block <<< 8) 0x10)) bytes

  -- `rtlsdr_i2c_write`, and `rtlsdr_i2c_write_fn` on a device that is there
  pub i2c_write : ℕ → List ℕ → D → ℤ × D
  unfolding write_array
  i2c_write addr bytes = write_array iicb addr bytes

  -- `rtlsdr_i2c_read`, and `rtlsdr_i2c_read_fn`
  pub i2c_read : ℕ → ℕ → D → ℤ × List ℕ × D
  unfolding read_array
  i2c_read addr len = read_array iicb addr len

  -- `rtlsdr_i2c_write_reg`
  pub i2c_write_reg : (i2c_addr reg val : ℕ) → D → ℤ × D
  unfolding write_array
  i2c_write_reg i2c_addr reg val = write_array iicb i2c_addr (reg ∷ val ∷ [])

  -- `rtlsdr_i2c_read_reg`
  pub i2c_read_reg : (i2c_addr reg : ℕ) → D → ℕ × D
  unfolding write_array read_array
  i2c_read_reg i2c_addr reg d =
      let (w, d1) = write_array iicb i2c_addr (reg ∷ []) d in
      let (r, bytes, d2) = read_array iicb i2c_addr 1 d1 in (get_or bytes 0 0, d2)

  -- The bytes of a register, the lower one first.
  abbrev pub reg_value : List ℕ → ℕ
  reg_value bytes = bit_or (get_or bytes 1 0 <<< 8) (get_or bytes 0 0)

  -- The bytes that `rtlsdr_write_reg` and `rtlsdr_demod_write_reg` send.
  abbrev pub reg_bytes : (val len : ℕ) → List ℕ
  reg_bytes val len =
      take len ((if len == 1 then bit_and val 0xff else u8 (val >>> 8)) ∷ bit_and val 0xff ∷ [])

  -- `rtlsdr_read_reg`
  pub read_reg : (block addr len : ℕ) → D → ℕ × D
  read_reg block addr len d =
      let (r, bytes, d') = u.control_in addr (u16 (block <<< 8)) len d in (reg_value bytes, d')

  -- `rtlsdr_write_reg`
  unfoldable pub write_reg : (block addr val len : ℕ) → D → ℤ × D
  write_reg block addr val len =
      u.control_out addr (u16 (bit_or (block <<< 8) 0x10)) (reg_bytes val len)

  -- `rtlsdr_demod_read_reg`
  pub demod_read_reg : (page addr len : ℕ) → D → ℕ × D
  demod_read_reg page addr len d =
      let (r, bytes, d') = u.control_in (u16 (bit_or (addr <<< 8) 0x20)) page len d in
      (reg_value bytes, d')

  -- `rtlsdr_demod_write_reg`
  pub demod_write_reg : (page addr val len : ℕ) → D → ℤ × D
  unfolding demod_read_reg
  demod_write_reg page addr val len d =
      let (r, d1) =
        u.control_out (u16 (bit_or (addr <<< 8) 0x20)) (bit_or 0x10 page) (reg_bytes val len) d in
      (
        elim r [ pos n ↦ if n == len then pos 0 else negsuc 0 | negsuc n ↦ negsuc 0 ],
        (demod_read_reg 0x0a 0x01 1 d1).1,
      )

  -- `rtlsdr_set_gpio_bit`
  pub set_gpio_bit : ℕ → Bool → D → D
  unfolding read_reg write_reg
  set_gpio_bit gpio val d =
      let bit = u8 (1 <<< gpio) in
      let (r, d1) = read_reg sysb gpo 1 d in
      (write_reg sysb gpo (if val then bit_or r bit else bit_and r (65535 - bit)) 1 d1).1

  -- `rtlsdr_set_gpio_output`
  pub set_gpio_output : ℕ → D → D
  unfolding read_reg write_reg
  set_gpio_output gpio d =
      let bit = u8 (1 <<< gpio) in
      let (r, d1) = read_reg sysb gpd 1 d in
      let (s, d2) = write_reg sysb gpd (bit_and r (65535 - bit)) 1 d1 in
      let (t, d3) = read_reg sysb gpoe 1 d2 in (write_reg sysb gpoe (bit_or t bit) 1 d3).1

  -- `rtlsdr_set_bias_tee_gpio`
  pub set_bias_tee_gpio : ℕ → Bool → D → ℤ × D
  unfolding set_gpio_output set_gpio_bit
  set_bias_tee_gpio gpio on d = (pos 0, set_gpio_bit gpio on (set_gpio_output gpio d))

  -- `rtlsdr_set_i2c_repeater`
  pub set_i2c_repeater : Bool → D → D
  unfolding demod_write_reg
  set_i2c_repeater on d = (demod_write_reg 1 0x01 (if on then 0x18 else 0x10) 1 d).1
