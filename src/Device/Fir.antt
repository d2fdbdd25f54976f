-- ===== src/Device/Fir.antt =====
-- The coefficients of the RTL2832's filter, src/librtlsdr.c: `rtlsdr_set_fir`.
pub mod Packing
use rtl_sdr.Prelude.{
  ℕ, zero, suc, ◌+◌, ◌-◌, ◌*◌, ◌/◌, ◌%◌, ◌^◌, ◌≤◌, ◌<◌, ◌≡◌, refl, ap, sym, ◌∙◌, arith, Bool, true,
  false, ◌&&◌, ◌||◌, not, Option, none, some, List, [], ◌∷◌, ◌++◌, take, drop, length, ℤ, pos,
  negsuc, pos_part, neg_part, leb, ltb, ◌==◌, if◌then◌else◌,
}
use rtl_sdr.Device.{Usb, demod_write_reg}

-- `(uint8_t)val` and the 12 bits of `val`, in two's complement: the cast of an `int` with `bits` bits.
abbrev pub low_bits : (bits : ℕ) → ℤ → ℕ
low_bits bits (pos n) = n % 2 ^ bits
low_bits bits (negsuc n) = 2 ^ bits - 1 - n % 2 ^ bits

-- `val < -limit || val > limit - 1` is the other case.
abbrev pub within : (limit : ℕ) → ℤ → Bool
within limit v = ltb (pos_part v) limit && leb (neg_part v) limit

-- The loop over the coefficients of 8 bits.
pub pack8 : List ℤ → Option (List ℕ)
pack8 [] = some []
pack8 (v ∷ vs) =
    let rest = pack8 vs in
    if within 128 v
    then elim rest [ none ↦ none | some bytes ↦ some (low_bits 8 v ∷ bytes) ]
    else none

-- The loop over the coefficients of 12 bits, two in three bytes: `val0 >> 4`, `val0 << 4` with the
-- upper four bits of `val1`, and `val1`.
pub pack12 : List ℤ → Option (List ℕ)
pack12 [] = some []
pack12 (v ∷ []) = none
pack12 (v ∷ w ∷ vs) =
    let rest = pack12 vs in
    if within 2048 v && within 2048 w
    then elim rest [
      | none ↦ none
      | some bytes ↦ some (
          (low_bits 12 v / 16)
          ∷ (low_bits 12 v % 16 * 16 + low_bits 12 w / 256)
          ∷ (low_bits 12 w % 256)
          ∷ bytes)
    ]
    else none

-- The bytes of both loops, if neither returns -1.
abbrev pub both : Option (List ℕ) → Option (List ℕ) → Option (List ℕ)
both none high = none
both (some low) none = none
both (some low) (some high) = some (low ++ high)

-- The 20 bytes of 16 coefficients.
unfoldable pub fir_bytes : List ℤ → Option (List ℕ)
unfolding pack8 pack12
fir_bytes fir = both (pack8 (take 8 fir)) (pack12 (drop 8 fir))

module _ {D : Type 0} (u : Usb D) where
  -- The loop that writes the bytes to the registers from `reg` on.
  pub write_fir : (reg : ℕ) → List ℕ → D → ℤ × D
  unfolding demod_write_reg
  write_fir reg [] d = (pos 0, d)
  write_fir reg (v ∷ vs) d =
      let (r, d') = demod_write_reg u 1 reg v 1 d in
      elim r [
        | pos n ↦ elim n [ zero ↦ write_fir (reg + 1) vs d' | suc n ↦ (negsuc 0, d') ]
        | negsuc n ↦ (negsuc 0, d')
      ]

  -- `rtlsdr_set_fir`
  pub set_fir : List ℤ → D → ℤ × D
  unfolding fir_bytes write_fir
  set_fir fir d = elim (fir_bytes fir) [
    | none ↦ (negsuc 0, d)
    | some bytes ↦ write_fir 0x1c bytes d
  ]

-- The integer of `bits` bits in two's complement.
abbrev pub signed : (bits : ℕ) → ℕ → ℤ
signed bits n = if ltb n (2 ^ (bits - 1)) then pos n else negsuc (2 ^ bits - 1 - n)

-- What the demodulator reads of the bytes.
abbrev pub unpack8 : List ℕ → List ℤ
unpack8 [] = []
unpack8 (n ∷ ns) = signed 8 n ∷ unpack8 ns

abbrev pub unpack12 : List ℕ → List ℤ
unpack12 (a ∷ m ∷ c ∷ ns) = signed 12 (a * 16 + m / 16) ∷ signed 12 (m % 16 * 256 + c) ∷ unpack12 ns
unpack12 _ = []
