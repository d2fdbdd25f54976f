-- ===== src/Device/Rate.antt =====
-- The sample rate, src/librtlsdr.c: `rtlsdr_set_sample_rate`. The quotients of `double` are cut to
-- whole numbers where they are stored, and are too far from the next whole number to be rounded up
-- to it, so they are quotients of natural numbers.
pub mod Exact
use rtl_sdr.Prelude.{
  ℕ, ◌+◌, ◌*◌, ◌/◌, ◌^◌, Bool, ◌&&◌, ◌||◌, not, Option, none, some, ℤ, pos, negsuc, ltb, leb,
  if◌then◌else◌, u16, u32, ◌<<<◌, ◌>>>◌, bit_and, bit_or,
}
use rtl_sdr.Device.{Usb, demod_write_reg}

-- DEF_RTL_XTAL_FREQ
abbrev pub def_rtl_xtal_freq : ℕ
def_rtl_xtal_freq = 28800000

-- The check of `samp_rate`.
abbrev pub is_invalid_rate : ℕ → Bool
is_invalid_rate samp_rate =
    leb samp_rate 225000 || (ltb 3200000 samp_rate || ltb 300000 samp_rate && leb samp_rate 900000)

-- `rsamp_ratio`
pub rsamp_ratio_of : (rtl_xtal samp_rate : ℕ) → ℕ
rsamp_ratio_of rtl_xtal samp_rate = bit_and (u32 (rtl_xtal * 4194304 / samp_rate)) 0x0ffffffc

-- `real_rsamp_ratio`
pub real_ratio_of : ℕ → ℕ
real_ratio_of ratio = bit_or ratio (u32 (bit_and ratio 0x08000000 <<< 1))

-- `rsamp_ratio` and what becomes of `dev->rate`, for a rate that is not refused.
unfoldable pub resample : (rtl_xtal samp_rate : ℕ) → Option (ℕ × ℕ)
unfolding rsamp_ratio_of real_ratio_of
resample rtl_xtal samp_rate =
    if is_invalid_rate samp_rate
    then none
    else let ratio = rsamp_ratio_of rtl_xtal samp_rate in
      some (ratio, rtl_xtal * 4194304 / real_ratio_of ratio)

module _ {D : Type 0} (u : Usb D) where
  -- The two writes of `rsamp_ratio`.
  pub write_ratio : ℕ → D → (ℤ × ℤ) × D
  unfolding demod_write_reg
  write_ratio ratio d =
      let (r, d1) = demod_write_reg u 1 0x9f (u16 (ratio >>> 16)) 2 d in
      let (s, d2) = demod_write_reg u 1 0xa1 (bit_and ratio 0xffff) 2 d1 in ((r, s), d2)
