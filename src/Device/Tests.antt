-- ===== src/Device/Tests.antt =====
-- A dongle with an EEPROM and a tuner, as a model of what stands behind libusb.
use rtl_sdr.Prelude.{
  ℕ, ◌+◌, ◌*◌, ◌/◌, ◌≤◌, ◌≡◌, refl, arith, none, some, ◌⊎◌, List, [], ◌∷◌, ◌++◌, take, drop, ℤ, pos,
  negsuc, Buffer, fill, if◌then◌else◌, ◌==◌, u8,
}
use rtl_sdr.Device.{Usb}
use rtl_sdr.Device.Fir.{fir_bytes, unpack8, unpack12}
use rtl_sdr.Device.Fir.Packing.{Fits, fir_bytes-unpack}
use rtl_sdr.Device.Rate.{def_rtl_xtal_freq, resample, real_ratio_of}
use rtl_sdr.Device.Rate.Exact.{resample-Exact}
use rtl_sdr.Device.Eeprom.{write_eeprom, read_eeprom}
use rtl_sdr.Device.Eeprom.Contents.{IsEeprom, write_eeprom-read_eeprom}

-- The contents and the selected address.
abbrev Memory : Type 0
Memory = Buffer × ℕ

abbrev message : List ℕ → Memory → ℤ × Memory
message [] m = (pos 0, m)
message (a ∷ []) (buf, at) = (pos 1, (buf, a))
message (a ∷ v ∷ []) (buf, at) = (pos 2, (λ j. if j == a then v else buf j, a))
message _ m = (negsuc 8, m)

abbrev dongle : Usb Memory
dongle = record {
  control_out = λ value index bytes m. message bytes m;
  control_in = λ value index n m. (pos n, m.0 m.1 ∷ [], (m.0, u8 (m.1 + 1)));
}

abbrev contents : Memory → Buffer
contents m = m.0

abbrev selected : Memory → ℕ
selected m = m.1

dongle-IsEeprom : IsEeprom dongle contents selected
dongle-IsEeprom = record {
  select_result = λ a d. refl;
  select_contents = λ a d. refl;
  select_address = λ a d. refl;
  store_result = λ a v d. refl;
  store_contents = λ a v d. refl;
  read_result = λ d. refl;
  read_byte = λ d. refl;
  read_contents = λ d. refl;
  read_next = λ d. refl;
}

abbrev erased : Memory
erased = (λ j. 0xff, 0)

write_eeprom-read_eeprom_example :
    ((write_eeprom dongle (1 ∷ 2 ∷ []) 4 erased).0 ≡ pos 0)
    × (contents (write_eeprom dongle (1 ∷ 2 ∷ []) 4 erased).1 ≡ fill (λ j. 0xff) 4 (1 ∷ 2 ∷ []))
    × ((read_eeprom dongle 4 2 (write_eeprom dongle (1 ∷ 2 ∷ []) 4 erased).1).1 ≡ 1 ∷ 2 ∷ [])
    × ((read_eeprom dongle 4 2 (write_eeprom dongle (1 ∷ 2 ∷ []) 4 erased).1).0 ≡ pos 1)
write_eeprom-read_eeprom_example =
    write_eeprom-read_eeprom dongle contents selected dongle-IsEeprom (1 ∷ 2 ∷ []) 4 erased
      (omega arith)

-- `fir_default`
abbrev fir_default : List ℤ
fir_default =
    negsuc 53
    ∷ negsuc 35
    ∷ negsuc 40
    ∷ negsuc 39
    ∷ negsuc 31
    ∷ negsuc 13
    ∷ pos 14
    ∷ pos 53
    ∷ pos 101
    ∷ pos 156
    ∷ pos 215
    ∷ pos 273
    ∷ pos 327
    ∷ pos 372
    ∷ pos 404
    ∷ pos 421
    ∷ []

fir_bytes-unpack_example :
    (Fits fir_default
      × ((bytes : List ℕ) × (fir_bytes fir_default ≡ some bytes)
          × (unpack8 (take 8 bytes) ++ unpack12 (drop 8 bytes) ≡ fir_default)))
    ⊎ ((¬ Fits fir_default) × (fir_bytes fir_default ≡ none))
fir_bytes-unpack_example = fir_bytes-unpack fir_default refl

resample-Exact_example :
    (ratio : ℕ) × (resample def_rtl_xtal_freq 2048000 ≡ some (ratio, 2048000))
    × (real_ratio_of ratio ≤ def_rtl_xtal_freq * 4194304 / 2048000)
    × (def_rtl_xtal_freq * 4194304 / 2048000 ≤ real_ratio_of ratio + 3)
resample-Exact_example = resample-Exact 2048000 refl

default_bytes :
    fir_bytes fir_default
    ≡ some (
        0xca ∷ 0xdc ∷ 0xd7 ∷ 0xd8 ∷ 0xe0 ∷ 0xf2 ∷ 0x0e ∷ 0x35 ∷ 0x06 ∷ 0x50 ∷ 0x9c ∷ 0x0d ∷ 0x71
        ∷ 0x11 ∷ 0x14 ∷ 0x71 ∷ 0x74 ∷ 0x19 ∷ 0x41 ∷ 0xa5 ∷ [])
unfolding fir_bytes
default_bytes = refl

-- With a crystal that is corrected down by 1 kHz, 300 kHz is not refused, and is another rate.
corrected_crystal : resample 28799000 300000 ≡ some (134203744, 900062)
unfolding resample
corrected_crystal = refl
