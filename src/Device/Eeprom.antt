-- ===== src/Device/Eeprom.antt =====
-- The EEPROM of the dongle, src/librtlsdr.c: `rtlsdr_write_eeprom` and `rtlsdr_read_eeprom`.
pub mod Contents
use rtl_sdr.Prelude.{
  ℕ, zero, suc, ◌+◌, Bool, List, [], ◌∷◌, length, get_or, ℤ, pos, negsuc, ltb, ◌==◌, if◌then◌else◌,
  u8,
}
use rtl_sdr.Device.{Usb, iicb, read_array, write_array}

-- EEPROM_ADDR
abbrev pub eeprom_addr : ℕ
eeprom_addr = 0xa0

abbrev is_two : ℤ → Bool
is_two (pos n) = n == 2
is_two (negsuc n) = 2 == 0

abbrev pub is_negative : ℤ → Bool
is_negative (pos n) = 1 == 0
is_negative (negsuc n) = 0 == 0

module _ {D : Type 0} (u : Usb D) where
  -- The loop of `rtlsdr_write_eeprom`: a byte is written only if it differs.
  pub write_bytes : (addr : ℕ) → List ℕ → D → ℤ × D
  unfolding write_array read_array
  write_bytes addr [] d = (pos 0, d)
  write_bytes addr (v ∷ vs) d =
      let d1 = (write_array u iicb eeprom_addr (u8 addr ∷ []) d).1 in
      let (r, bytes, d2) = read_array u iicb eeprom_addr 1 d1 in
      let (w, d3) = write_array u iicb eeprom_addr (u8 addr ∷ v ∷ []) d2 in
      let same = write_bytes (addr + 1) vs d2 in
      let written = write_bytes (addr + 1) vs d3 in
      if get_or bytes 0 0 == v then same else if is_two w then written else (negsuc 2, d3)

  -- `rtlsdr_write_eeprom`
  pub write_eeprom : List ℕ → (offset : ℕ) → D → ℤ × D
  unfolding write_bytes
  write_eeprom bytes offset d =
      if ltb 256 (length bytes + offset) then (negsuc 1, d) else write_bytes offset bytes d

  -- The loop of `rtlsdr_read_eeprom`, with the bytes that are left and the `r` of the last transfer.
  unfoldable pub read_bytes : (left : ℕ) → ℤ → D → ℤ × List ℕ × D
  unfolding read_array
  read_bytes zero r d = (r, [], d)
  read_bytes (suc left) r d =
      let (r', bytes, d') = read_array u iicb eeprom_addr 1 d in
      let (last, rest, end) = read_bytes left r' d' in
      if is_negative r' then (negsuc 2, [], d') else (last, get_or bytes 0 0 ∷ rest, end)

  -- `rtlsdr_read_eeprom`, with the bytes that it stores.
  pub read_eeprom : (offset len : ℕ) → D → ℤ × List ℕ × D
  unfolding write_array read_bytes
  read_eeprom offset len d =
      let (r, d') = write_array u iicb eeprom_addr (offset ∷ []) d in
      if ltb 256 (len + offset)
      then (negsuc 1, [], d)
      else if is_negative r
      then (negsuc 2, [], d')
      else read_bytes len r d'
