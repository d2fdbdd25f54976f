-- ===== src/R82xx/Write/Retry.antt =====
-- The same write twice, on any device.
use rtl_sdr.Prelude.{
  ℕ, zero, suc, ◌+◌, ◌≤◌, ◌≡◌, refl, ap, ◌∙◌, Bool, true, false, List, length, take, drop,
  length-blit, leb, if_true, if_cases, u8,
}
use rtl_sdr.R82xx.{Board, Priv, Result, done, failed, diverges, M, after, pure}
use rtl_sdr.R82xx.Regs.{shadow_store, shadow_equal, transfer, chunk_size, write_loop, write}
use rtl_sdr.R82xx.Write.Shadow.{shadow_store_lem, shadow_equal-shadow_store}

module _ {D : Type 0} (b : Board D) where
  transfer-regs : (reg : ℕ) (chunk : List ℕ) (p : Priv D) → (transfer b reg chunk p).1.regs ≡ p.regs
  unfolding transfer
  transfer-regs reg chunk p = refl

  after-regs :
      {A B : Type 0} (x : Result A × Priv D) (f : A → M D B)
      → ((a : A) (q : Priv D) → (f a q).1.regs ≡ q.regs)
      → (after x f).1.regs ≡ x.1.regs
  after-regs (done a, q) f h = h a q
  after-regs (failed rc, q) f h = refl
  after-regs (diverges, q) f h = refl

  -- The transfers leave the shadow alone.
  pub write_loop-regs :
      (fuel reg : ℕ) (val : List ℕ) (p : Priv D) → (write_loop b fuel reg val p).1.regs ≡ p.regs
  unfolding write_loop
  write_loop-regs zero reg val p = refl
  write_loop-regs (suc fuel) reg val p =
      let size = chunk_size b (length val) in
      after-regs (transfer b reg (take size val) p) _ (λ _ q.
        elim (leb (length val) size)
          as (λ (t : Bool).
            (elim t as (λ _. M D (Unit {0})) [
              | true ↦ pure tt
              | false ↦ write_loop b fuel (u8 (reg + size)) (drop size val)
            ]
              q).1.regs
            ≡ q.regs) [
              | true ↦ refl
              | false ↦ write_loop-regs fuel (u8 (reg + size)) (drop size val) q
            ])
      ∙ transfer-regs reg (take size val) p

  pub write-length-regs :
      (reg : ℕ) (val : List ℕ) (p : Priv D)
      → 5 ≤ reg
      → reg + length val ≤ 35
      → length (write b reg val p).1.regs ≡ length p.regs
  unfolding write
  write-length-regs reg val p low high =
      if_cases (λ (x : Result (Unit {0}) × Priv D). length x.1.regs ≡ length p.regs)
        (shadow_equal p.regs reg val) _ _ (λ _. refl)
        (λ _.
          ap length (
            write_loop-regs (suc (length val)) reg val
              (record p { regs = shadow_store p.regs reg val }))
          ∙ ap length (shadow_store_lem p.regs reg val low high)
          ∙ length-blit p.regs _ val)

  -- With a shadow of 30 bytes, after a write of bytes to registers that it covers, whether it
  -- succeeds or fails or sends nothing, the same write returns 0 and changes nothing, and so sends
  -- nothing.
  pub write-write :
      (reg : ℕ) (val : List ℕ) (p : Priv D)
      → length p.regs ≡ 30
      → 5 ≤ reg
      → reg + length val ≤ 35
      → write b reg val (write b reg val p).1 ≡ (done tt, (write b reg val p).1)
  unfolding write
  write-write reg val p n low high =
      if_true (shadow_equal (write b reg val p).1.regs reg val) _ _ found
    where
      found : shadow_equal (write b reg val p).1.regs reg val ≡ true
      found =
          if_cases (λ (x : Result (Unit {0}) × Priv D). shadow_equal x.1.regs reg val ≡ true)
            (shadow_equal p.regs reg val) _ _ (λ e. e)
            (λ _.
              ap (λ (t : List ℕ). shadow_equal t reg val)
                (write_loop-regs (suc (length val)) reg val
                  (record p { regs = shadow_store p.regs reg val }))
              ∙ shadow_equal-shadow_store p.regs reg val n low high)
