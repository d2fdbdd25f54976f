-- ===== src/R82xx/Write/Device.antt =====
-- A write against a device that acknowledges what it is sent: its registers hold the bytes,
-- however the write is cut into messages.
use rtl_sdr.Prelude.{
  ℕ, suc, ◌+◌, ◌-◌, ◌≤◌, ◌<◌, ◌≡◌, refl, ap, sym, ◌∙◌, arith, List, [], ◌∷◌, length, get_or, blit,
  length-blit, get_or-blit, blit_same, Buffer, fill, fill_same, ◌==◌, if◌then◌else◌, if_cases,
}
use rtl_sdr.R82xx.{Board, Priv, Result}
use rtl_sdr.R82xx.Regs.{shadow_store, shadow_equal, write}
use rtl_sdr.R82xx.Write.Shadow.{shadow_store_lem, shadow_equal-get_or}
use rtl_sdr.R82xx.Write.Reliable.{IsReliable, IsSynced, Leaves, write_loop-Leaves}

fill-shift :
    (f : ℕ → ℕ) (r : ℕ) (val : List ℕ) (buf : Buffer) (j : ℕ)
    → ((k : ℕ) → k < 30 → buf (5 + k) ≡ f k)
    → j < 30
    → fill buf (5 + r) val (5 + j) ≡ fill f r val j
fill-shift f r [] buf j h lt = h j lt
fill-shift f r (v ∷ val) buf j h lt =
    ap (λ t. fill (λ k. if k == 5 + r then v else buf k) t val (5 + j)) (omega arith)
    ∙ fill-shift (λ k. if k == r then v else f k) (r + 1) val (λ k. if k == 5 + r then v else buf k)
        j (λ k lt'. ground (arith, h k lt')) lt

module _ {D : Type 0} (b : Board D) (regs_of : D → Buffer) (rel : IsReliable b regs_of) where
  -- On a device that acknowledges each message of at most `max_i2c_msg_len` bytes, and from a state
  -- in which the shadow is what the device has, `r82xx_write` to registers that the shadow covers
  -- returns 0 and leaves the shadow and the device with the bytes in these registers and with what
  -- they had elsewhere, however the write is cut into messages, and also where nothing is sent.
  pub write-Leaves :
      (reg : ℕ) (val : List ℕ) (p : Priv D)
      → IsSynced regs_of p
      → 5 ≤ reg
      → reg + length val ≤ 35
      → Leaves regs_of
          (blit p.regs (reg - 5) val)
          (fill (regs_of p.device) reg val)
          (write b reg val p)
  unfolding write
  write-Leaves reg val p synced low high =
      if_cases (Leaves regs_of (blit p.regs (reg - 5) val) (fill (regs_of p.device) reg val))
        (shadow_equal p.regs reg val) _ _
        (λ e. record {
          ok = refl;
          shadow = sym (
              blit_same p.regs (reg - 5) val (omega (arith, synced.whole))
                (λ k lt. shadow_equal-get_or p.regs reg val k e lt));
          device = λ j. sym (
              fill_same (regs_of p.device) reg val
                (λ k lt.
                  ap (regs_of p.device) (omega arith)
                  ∙ synced.same (reg - 5 + k) (omega arith)
                  ∙ shadow_equal-get_or p.regs reg val k e lt)
                j);
        })
        (λ _. stored (
          write_loop-Leaves b regs_of rel (suc (length val)) reg val
            (record p { regs = shadow_store p.regs reg val }) (omega arith) (omega arith)))
    where
      stored :
          {x : Result (Unit {0}) × Priv D}
          → Leaves regs_of (shadow_store p.regs reg val) (fill (regs_of p.device) reg val) x
          → Leaves regs_of (blit p.regs (reg - 5) val) (fill (regs_of p.device) reg val) x
      stored l = record {
        ok = l.ok;
        shadow = l.shadow ∙ shadow_store_lem p.regs reg val low high;
        device = l.device;
      }

  -- The write succeeds, and the shadow is again what the device has.
  pub write-IsSynced :
      (reg : ℕ) (val : List ℕ) (p : Priv D)
      → IsSynced regs_of p
      → 5 ≤ reg
      → reg + length val ≤ 35
      → IsSynced regs_of (write b reg val p).1
  write-IsSynced reg val p synced low high = record {
    whole = ap length l.shadow ∙ length-blit p.regs (reg - 5) val ∙ synced.whole;
    same = λ j lt.
        l.device (5 + j)
        ∙ ap (λ t. fill (regs_of p.device) t val (5 + j)) (omega arith)
        ∙ fill-shift (λ k. get_or p.regs k 0) (reg - 5) val (regs_of p.device) j synced.same lt
        ∙ sym (get_or-blit p.regs (reg - 5) val j (omega (arith, synced.whole)))
        ∙ ap (λ t. get_or t j 0) (sym l.shadow);
  }
    where
      l :
          Leaves regs_of
            (blit p.regs (reg - 5) val)
            (fill (regs_of p.device) reg val)
            (write b reg val p)
      l = write-Leaves reg val p synced low high
