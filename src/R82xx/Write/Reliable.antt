-- ===== src/R82xx/Write/Reliable.antt =====
-- A device that acknowledges what it is sent, and the loop of `r82xx_write` against it.
use rtl_sdr.Prelude.{
  ℕ, zero, suc, ◌+◌, ◌-◌, ◌^◌, ◌≤◌, ◌<◌, ◌≡◌, refl, ap, sym, subst⁻¹, ◌∙◌, arith, Bool, true, false,
  List, ◌∷◌, length, take, drop, take-append-drop, take_over, length-take, length-drop, get_or, pos,
  Buffer, fill, fill-append, leb, if_true, Bool-cases, inl, inr, u8, min,
}
use rtl_sdr.R82xx.{Board, Priv, Result, done, M, after, pure}
use rtl_sdr.R82xx.Regs.{is_count, transfer, chunk_size, write_loop}

-- A board of which the device has the registers `regs_of` and acknowledges each transfer: a message
-- within the limit stores its bytes from the register of its first byte on, and nothing else
-- changes a register.
pub record IsReliable {D : Type 0} (b : Board D) (regs_of : D → Buffer) : Type 0 where
  pub more_than_one : 2 ≤ b.cfg.max_i2c_msg_len
  pub within_int : b.cfg.max_i2c_msg_len < 2 ^ 31
  pub takes :
      (reg : ℕ) (bytes : List ℕ) (d : D)
      → suc (length bytes) ≤ b.cfg.max_i2c_msg_len
      → (b.dongle.i2c_write b.cfg.i2c_addr (reg ∷ bytes) d).0 ≡ pos (length bytes + 1)
  pub stores :
      (reg : ℕ) (bytes : List ℕ) (d : D)
      → suc (length bytes) ≤ b.cfg.max_i2c_msg_len
      → regs_of (b.dongle.i2c_write b.cfg.i2c_addr (reg ∷ bytes) d).1 ≡ fill (regs_of d) reg bytes
  pub read_keeps : (n : ℕ) (d : D) → regs_of (b.dongle.i2c_read b.cfg.i2c_addr n d).2 ≡ regs_of d
  pub gpio_keeps :
      (g : ℕ) (on : Bool) (d : D) → regs_of (b.dongle.set_bias_tee_gpio g on d).1 ≡ regs_of d

-- The shadow is what the device has.
pub record IsSynced {D : Type 0} (regs_of : D → Buffer) (p : Priv D) : Type 0 where
  pub whole : length p.regs ≡ 30
  pub same : (j : ℕ) → j < 30 → regs_of p.device (5 + j) ≡ get_or p.regs j 0

le_of_leb : (x y : ℕ) → leb x y ≡ true → x ≤ y
le_of_leb x y h = ground arith

lt_of_leb : (x y : ℕ) → leb x y ≡ false → y < x
lt_of_leb x y h = ground arith

-- A result of 0 that leaves the shadow `regs` and the device's registers `buf`.
pub record Leaves {D : Type 0} (regs_of : D → Buffer) (regs : List ℕ) (buf : Buffer)
    (x : Result (Unit {0}) × Priv D) : Type 0 where
  pub ok : x.0 ≡ done tt
  pub shadow : x.1.regs ≡ regs
  pub device : (j : ℕ) → regs_of x.1.device j ≡ buf j

module _ {D : Type 0} (b : Board D) (regs_of : D → Buffer) (rel : IsReliable b regs_of) where
  chunk_size_lem : (len : ℕ) → chunk_size b len ≡ min (b.cfg.max_i2c_msg_len - 1) len
  chunk_size_lem len = ground (arith, rel.more_than_one, rel.within_int)

  transfer-Leaves :
      (reg : ℕ) (chunk : List ℕ) (p : Priv D)
      → suc (length chunk) ≤ b.cfg.max_i2c_msg_len
      → transfer b reg chunk p ≡ (
        done tt,
        record p { device = (b.dongle.i2c_write b.cfg.i2c_addr (reg ∷ chunk) p.device).1 },
      )
  unfolding transfer
  transfer-Leaves reg chunk p h =
      ap
        (λ (r : Result (Unit {0})).
          (r, record p { device = (b.dongle.i2c_write b.cfg.i2c_addr (reg ∷ chunk) p.device).1 }))
        (if_true
          (is_count (b.dongle.i2c_write b.cfg.i2c_addr (reg ∷ chunk) p.device).0 (length chunk + 1))
          _ _
          (ap (λ t. is_count t (length chunk + 1)) (rel.takes reg chunk p.device h) ∙ ground arith))

  message_fits :
      (len : ℕ) (val : List ℕ) → suc (length (take (chunk_size b len) val)) ≤ b.cfg.max_i2c_msg_len
  message_fits len val =
      omega (arith, rel.more_than_one, length-take (chunk_size b len) val, chunk_size_lem len)

  -- What one message and the rest of the bytes store.
  fill_split :
      (buf buf' : Buffer) (reg s : ℕ) (val : List ℕ) (j : ℕ)
      → buf' ≡ fill buf reg (take s val)
      → s ≤ length val
      → reg + s ≤ 255
      → fill buf' (u8 (reg + s)) (drop s val) j ≡ fill buf reg val j
  fill_split buf buf' reg s val j e le fits =
      ap (λ (f : Buffer). fill f (u8 (reg + s)) (drop s val) j) e
      ∙ ap (λ t. fill (fill buf reg (take s val)) t (drop s val) j)
          (omega (arith, length-take s val))
      ∙ ap (λ (f : Buffer). f j) (sym (fill-append buf reg (take s val) (drop s val)))
      ∙ ap (λ t. fill buf reg t j) (take-append-drop s val)

  -- The end of a round: the loop is left, or goes on with the other bytes.
  abbrev next_round : (fuel reg : ℕ) → List ℕ → Bool → M D (Unit {0})
  next_round fuel reg val last =
      let size = chunk_size b (length val) in
      elim last as (λ _. M D (Unit {0})) [
        | true ↦ pure tt
        | false ↦ write_loop b fuel (u8 (reg + size)) (drop size val)
      ]

  -- The loop with enough fuel.
  pub write_loop-Leaves :
      (fuel reg : ℕ) (val : List ℕ) (p : Priv D)
      → length val < fuel
      → reg + length val ≤ 255
      → Leaves regs_of p.regs (fill (regs_of p.device) reg val) (write_loop b fuel reg val p)
  unfolding write_loop
  write_loop-Leaves zero reg val p enough fits = absurd (omega arith)
  write_loop-Leaves (suc fuel) reg val p enough fits =
      let size = chunk_size b (length val) in
      let q : Priv D = record p {
        device = (b.dongle.i2c_write b.cfg.i2c_addr (reg ∷ take size val) p.device).1;
      } in
      subst⁻¹
        (λ (x : Result (Unit {0}) × Priv D).
          Leaves regs_of p.regs (fill (regs_of p.device) reg val)
            (after x (λ _. next_round fuel reg val (leb (length val) size))))
        (transfer-Leaves reg (take size val) p
          (omega (arith, rel.more_than_one, length-take size val, chunk_size_lem (length val))))
        (elim (Bool-cases (leb (length val) size)) [
          | inl all ↦
              subst⁻¹
                (λ t.
                  Leaves regs_of p.regs (fill (regs_of p.device) reg val)
                    (next_round fuel reg val t q))
                all
                (record {
                  ok = refl;
                  shadow = refl;
                  device = λ j.
                      ap (λ (f : Buffer). f j)
                        (rel.stores reg (take size val) p.device (message_fits (length val) val))
                      ∙ ap (λ t. fill (regs_of p.device) reg t j)
                          (take_over size val (le_of_leb _ _ all));
                })
          | inr more ↦
              let ih =
                write_loop-Leaves fuel (u8 (reg + size)) (drop size val) q
                  (omega (
                    arith,
                    length-drop size val,
                    chunk_size_lem (length val),
                    rel.more_than_one,
                    lt_of_leb _ _ more,
                  ))
                  (omega (arith, length-drop size val, lt_of_leb _ _ more)) in
              subst⁻¹
                (λ t.
                  Leaves regs_of p.regs (fill (regs_of p.device) reg val)
                    (next_round fuel reg val t q))
                more
                (record {
                  ok = ih.ok;
                  shadow = ih.shadow;
                  device = λ j.
                      ih.device j
                      ∙ fill_split (regs_of p.device) (regs_of q.device) reg size val j
                          (rel.stores reg (take size val) p.device (message_fits (length val) val))
                          (omega (arith, lt_of_leb _ _ more)) (omega (arith, lt_of_leb _ _ more));
                })
        ])
