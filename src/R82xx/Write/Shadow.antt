-- ===== src/R82xx/Write/Shadow.antt =====
-- The shadow after `shadow_store`, and what `shadow_equal` says.
use rtl_sdr.Prelude.{
  ℕ, zero, suc, ◌+◌, ◌-◌, ◌≤◌, ◌<◌, ◌≡◌, refl, ap, sym, ◌∙◌, arith, true, false, ◌||◌, List, [],
  ◌∷◌, length, take, drop, take_over, get_or, blit, slice, slice-blit_self, ltb, if_false, or_false,
  if_cases,
}
use rtl_sdr.R82xx.Regs.{same_bytes, shadow_store, shadow_equal}

same_bytes_refl : (xs : List ℕ) → same_bytes xs xs ≡ true
unfolding same_bytes
same_bytes_refl [] = refl
same_bytes_refl (x ∷ xs) = ground (arith, same_bytes_refl xs)

same_bytes-eq : (xs ys : List ℕ) → same_bytes xs ys ≡ true → xs ≡ ys
unfolding same_bytes
same_bytes-eq [] [] h = refl
same_bytes-eq [] (y ∷ ys) h = cc
same_bytes-eq (x ∷ xs) [] h = cc
same_bytes-eq (x ∷ xs) (y ∷ ys) h = ground (arith, same_bytes-eq xs ys)

get_or-take : (n : ℕ) (xs : List ℕ) (k : ℕ) → k < n → get_or (take n xs) k 0 ≡ get_or xs k 0
get_or-take zero xs k h = absurd (omega arith)
get_or-take (suc n) [] k h = refl
get_or-take (suc n) (x ∷ xs) zero h = refl
get_or-take (suc n) (x ∷ xs) (suc k) h = get_or-take n xs k (omega arith)

get_or-drop : (i : ℕ) (xs : List ℕ) (k : ℕ) → get_or (drop i xs) k 0 ≡ get_or xs (i + k) 0
get_or-drop zero xs k = ap (λ t. get_or xs t 0) (omega arith)
get_or-drop (suc i) [] k = refl
get_or-drop (suc i) (x ∷ xs) k =
    let e : suc (i + k) ≡ suc i + k = omega arith in
    get_or-drop i xs k ∙ ap (λ t. get_or (x ∷ xs) t 0) e

-- In range the bytes are stored as they are.
pub shadow_store_lem :
    (regs : List ℕ) (reg : ℕ) (val : List ℕ)
    → 5 ≤ reg
    → reg + length val ≤ 35
    → shadow_store regs reg val ≡ blit regs (reg - 5) val
unfolding shadow_store
shadow_store_lem regs reg val low high =
    if_false (ltb reg 5) _ _ (ground arith)
    ∙ ap (blit regs (reg - 5)) (take_over (30 - (reg - 5)) val (omega arith))

-- What has been stored is found.
pub shadow_equal-shadow_store :
    (regs : List ℕ) (reg : ℕ) (val : List ℕ)
    → length regs ≡ 30
    → 5 ≤ reg
    → reg + length val ≤ 35
    → shadow_equal (shadow_store regs reg val) reg val ≡ true
unfolding shadow_equal
shadow_equal-shadow_store regs reg val n low high =
    if_false (ltb reg 5 || ltb (30 - (reg - 5)) (length val)) _ _
      (or_false (ltb reg 5) (ltb (30 - (reg - 5)) (length val)) (ground arith) (ground arith))
    ∙ ap (λ t. same_bytes (slice t (reg - 5) (length val)) val)
        (shadow_store_lem regs reg val low high)
    ∙ ap (λ t. same_bytes t val)
        (slice-blit_self regs (reg - 5) val (length val) refl (omega arith))
    ∙ same_bytes_refl val

-- Where `shadow_equal` holds, the shadow has the bytes.
pub shadow_equal-get_or :
    (regs : List ℕ) (reg : ℕ) (val : List ℕ) (k : ℕ)
    → shadow_equal regs reg val ≡ true
    → k < length val
    → get_or regs (reg - 5 + k) 0 ≡ get_or val k 0
unfolding shadow_equal
shadow_equal-get_or regs reg val k h lt =
    if_cases (λ t. t ≡ true → get_or regs (reg - 5 + k) 0 ≡ get_or val k 0)
      (ltb reg 5 || ltb (30 - (reg - 5)) (length val)) false
      (same_bytes (slice regs (reg - 5) (length val)) val) (λ _ e. cc)
      (λ _ e.
        sym (get_or-drop (reg - 5) regs k)
        ∙ sym (get_or-take (length val) (drop (reg - 5) regs) k lt)
        ∙ ap (λ t. get_or t k 0) (same_bytes-eq _ val e))
      h
