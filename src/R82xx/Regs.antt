-- ===== src/R82xx/Regs.antt =====
-- The shadow of the registers and the transfers, src/tuner_r82xx.c: `shadow_store`, `shadow_equal`,
-- `r82xx_write`, `r82xx_write_reg`, `r82xx_read_cache_reg`, `r82xx_write_reg_mask`, `r82xx_bitrev`
-- and `r82xx_read`.
use rtl_sdr.Prelude.{
  ℕ, zero, suc, ◌+◌, ◌-◌, Bool, true, false, ◌&&◌, ◌||◌, List, [], ◌∷◌, map, length, take, drop,
  get_or, blit, slice, ℤ, pos, negsuc, ltb, leb, ◌==◌, if◌then◌else◌, u8, u32, ◌<<<◌, ◌>>>◌,
  bit_and, bit_or,
}
use rtl_sdr.R82xx.{Board, done, failed, diverges, M, pure, ◌>>=◌, ◌>>◌}

-- REG_SHADOW_START and NUM_REGS
abbrev pub shadow_start : ℕ
shadow_start = 5

abbrev pub num_regs : ℕ
num_regs = 30

-- `~mask` of a byte, and `mask_reg8`.
abbrev pub not8 : ℕ → ℕ
not8 mask = 255 - mask

pub mask_reg8 : ℕ → ℕ → ℕ → ℕ
mask_reg8 reg val mask = bit_or (bit_and reg (not8 mask)) (bit_and val mask)

-- `memcmp(xs, ys, n) == 0`, of two blocks of one length.
unfoldable pub same_bytes : List ℕ → List ℕ → Bool
same_bytes [] [] = true
same_bytes (x ∷ xs) (y ∷ ys) = x == y && same_bytes xs ys
same_bytes _ _ = false

-- `shadow_store`
unfoldable pub shadow_store : List ℕ → ℕ → List ℕ → List ℕ
shadow_store regs reg val =
    if ltb reg shadow_start
    then blit regs 0 (take num_regs (drop (shadow_start - reg) val))
    else blit regs (reg - shadow_start) (take (num_regs - (reg - shadow_start)) val)

-- `shadow_equal`
unfoldable pub shadow_equal : List ℕ → ℕ → List ℕ → Bool
unfolding same_bytes
shadow_equal regs reg val =
    if ltb reg shadow_start || ltb (num_regs - (reg - shadow_start)) (length val)
    then false
    else same_bytes (slice regs (reg - shadow_start) (length val)) val

-- The `rc` of a transfer that was not complete.
abbrev pub failure_of : ℤ → ℤ
failure_of (pos n) = negsuc 0
failure_of (negsuc n) = negsuc n

abbrev pub is_count : ℤ → ℕ → Bool
is_count (pos n) k = n == k
is_count (negsuc n) k = false

module _ {D : Type 0} (b : Board D) where
  -- One pass through `r82xx_write`'s loop: the transfer of a register's number and the bytes.
  unfoldable pub transfer : ℕ → List ℕ → M D (Unit {0})
  transfer reg chunk p =
      let (rc, d) = b.dongle.i2c_write b.cfg.i2c_addr (reg ∷ chunk) p.device in
      (
        if is_count rc (length chunk + 1) then done tt else failed (failure_of rc),
        record p { device = d },
      )

  -- `size`, for `len` bytes that are left.
  abbrev pub chunk_size : ℕ → ℕ
  chunk_size len =
      let most = u32 (b.cfg.max_i2c_msg_len + 4294967295) in if ltb most len then most else len

  -- The loop `do … while (len > 0)`, for at most `fuel` rounds.
  unfoldable pub write_loop : (fuel reg : ℕ) → List ℕ → M D (Unit {0})
  write_loop zero reg val = λ p. (diverges, p)
  write_loop (suc fuel) reg val =
      let size = chunk_size (length val) in
      transfer reg (take size val) >>= λ _. elim (leb (length val) size) [
        | true ↦ pure tt
        | false ↦ write_loop fuel (u8 (reg + size)) (drop size val)
      ]

  -- `r82xx_write`: nothing is sent if the shadow has the bytes already.
  unfoldable pub write : ℕ → List ℕ → M D (Unit {0})
  unfolding shadow_equal shadow_store transfer write_loop
  write reg val p =
      if shadow_equal p.regs reg val
      then (done tt, p)
      else write_loop (suc (length val)) reg val (record p { regs = shadow_store p.regs reg val })

  -- `r82xx_write_reg`
  unfoldable pub write_reg : ℕ → ℕ → M D (Unit {0})
  unfolding write
  write_reg reg val = write reg (val ∷ [])

  -- `r82xx_read_cache_reg`, whose -1 is a failure.
  unfoldable pub read_cache_reg : ℕ → M D ℕ
  read_cache_reg reg p =
      if leb shadow_start reg && ltb (reg - shadow_start) num_regs
      then (done (get_or p.regs (reg - shadow_start) 0), p)
      else (failed (negsuc 0), p)

  -- `r82xx_write_reg_mask`
  unfoldable pub write_reg_mask : ℕ → ℕ → ℕ → M D (Unit {0})
  unfolding read_cache_reg write mask_reg8
  write_reg_mask reg val mask = do rc ← read_cache_reg reg; write reg (mask_reg8 rc val mask ∷ [])

-- `r82xx_bitrev`
abbrev bitrev_lut : List ℕ
bitrev_lut =
    0x0 ∷ 0x8 ∷ 0x4 ∷ 0xc ∷ 0x2 ∷ 0xa ∷ 0x6 ∷ 0xe ∷ 0x1 ∷ 0x9 ∷ 0x5 ∷ 0xd ∷ 0x3 ∷ 0xb ∷ 0x7 ∷ 0xf
    ∷ []

unfoldable pub bitrev : ℕ → ℕ
bitrev byte =
    bit_or (u8 (get_or bitrev_lut (bit_and byte 0xf) 0 <<< 4)) (get_or bitrev_lut (byte >>> 4) 0)

module _ {D : Type 0} (b : Board D) where
  -- The second half of `r82xx_read`: the transfer of `len` bytes, and the copy.
  unfoldable pub read_bytes : ℕ → M D (List ℕ)
  unfolding bitrev
  read_bytes len p =
      let (rc, bytes, d) = b.dongle.i2c_read b.cfg.i2c_addr len p.device in
      (
        if is_count rc len then done (map bitrev (take len bytes)) else failed (failure_of rc),
        record p { device = d },
      )

  -- `r82xx_read`
  unfoldable pub read : ℕ → ℕ → M D (List ℕ)
  unfolding transfer read_bytes
  read reg len = transfer b reg [] >> read_bytes len
