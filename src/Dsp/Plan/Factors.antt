-- ===== src/Dsp/Plan/Factors.antt =====
-- The factors multiply to the decimation, are in falling order, and are at most five.
use rtl_sdr.Prelude.{ℕ, zero, suc, ◌+◌, ◌*◌, ◌/◌, ◌%◌, ◌<◌, ◌≡◌, refl, ◌∙◌, ap, none, some, arith}
use rtl_sdr.Prelude.{
  true, false, ◌⊎◌, ◌||◌, if◌then◌else◌, List, [], ◌∷◌, ◌++◌, length, Option-cases, ltb, leb,
  Bool-cases, inl, inr, ◌==◌,
}
use rtl_sdr.Prelude.{or_eq_false}
use rtl_sdr.Dsp.Plan.{trial, next_factor, split_loop, split, exchange, sort, product}
use native.Mathlib.Nat.{div-add-mod'}

trial_divides : (fuel f r : ℕ) {g : ℕ} → 1 < f → trial fuel f r ≡ some g → (r % g ≡ 0) × (1 < g)
unfolding trial
trial_divides zero f r h e = cc
trial_divides (suc fuel) f r {g} h e = elim (Bool-cases (ltb r (f * f))) [
  | inl x ↦ ground (arith)
  | inr x ↦ elim (Bool-cases (r % f == 0)) [
    | inl y ↦ ground (arith)
    | inr y ↦ ground (arith, trial_divides fuel (f + 1) r {g = g} (omega arith))
  ]
]

pub next_factor_divides : (r : ℕ) {g : ℕ} → next_factor r ≡ some g → (r % g ≡ 0) × (1 < g)
unfolding next_factor
next_factor_divides r {g} e = ground (arith, trial_divides r 5 r {g = g} (omega arith))

div_exact : (r g : ℕ) → r % g ≡ 0 → g * (r / g) ≡ r
div_exact r g h = ground (arith, div-add-mod' r g)

pub split_loop-eq_stop :
    (left r : ℕ) → (leb r 1 ≡ true) ⊎ (next_factor r ≡ none) → split_loop (suc left) r ≡ ([], r)
unfolding split_loop
split_loop-eq_stop left r h = ground arith

pub split_loop-eq_step :
    (left r : ℕ) {g : ℕ}
    → leb r 1 ≡ false
    → next_factor r ≡ some g
    → split_loop (suc left) r ≡ (g ∷ (split_loop left (r / g)).0, (split_loop left (r / g)).1)
unfolding split_loop
split_loop-eq_step left r h e = ground arith

abbrev pub total : List ℕ × ℕ → ℕ
total (fs, r) = product fs * r

pub product-split_loop : (left r : ℕ) → total (split_loop left r) ≡ r
unfolding split_loop product
product-split_loop zero r = omega arith
product-split_loop (suc left) r = elim (Bool-cases (leb r 1)) [
  | inl x ↦ ap total (split_loop-eq_stop left r (inl x)) ∙ omega arith
  | inr x ↦ elim (Option-cases (next_factor r)) [
    | inl e ↦ ap total (split_loop-eq_stop left r (inr e)) ∙ omega arith
    | inr (g, e) ↦
        ap total (split_loop-eq_step left r x e)
        ∙ omega (
          arith,
          ap (λ t. g * t) (product-split_loop left (r / g)),
          div_exact r g (next_factor_divides r e).0,
        )
  ]
]

product-append : (fs gs : List ℕ) → product (fs ++ gs) ≡ product fs * product gs
unfolding product
product-append [] gs = omega arith
product-append (f ∷ fs) gs = omega (arith, ap (λ t. f * t) (product-append fs gs))

pub exchange-eq_swap :
    (x y : ℕ) (ys : List ℕ)
    → ltb x y ≡ true
    → exchange x (y ∷ ys) ≡ ((exchange y ys).0, x ∷ (exchange y ys).1)
unfolding exchange
exchange-eq_swap x y ys h = ground arith

pub exchange-eq_keep :
    (x y : ℕ) (ys : List ℕ)
    → ltb x y ≡ false
    → exchange x (y ∷ ys) ≡ ((exchange x ys).0, y ∷ (exchange x ys).1)
unfolding exchange
exchange-eq_keep x y ys h = ground arith

abbrev whole : ℕ × List ℕ → ℕ
whole (m, rest) = m * product rest

product-exchange : (x : ℕ) (ys : List ℕ) → whole (exchange x ys) ≡ x * product ys
unfolding exchange product
product-exchange x [] = refl
product-exchange x (y ∷ ys) = elim (Bool-cases (ltb x y)) [
  | inl e ↦
      ap whole (exchange-eq_swap x y ys e) ∙ omega (arith, ap (λ t. x * t) (product-exchange y ys))
  | inr e ↦
      ap whole (exchange-eq_keep x y ys e) ∙ omega (arith, ap (λ t. y * t) (product-exchange x ys))
]

pub product-sort : (k : ℕ) (fs : List ℕ) → product (sort k fs) ≡ product fs
unfolding sort product
product-sort zero fs = refl
product-sort (suc k) [] = refl
product-sort (suc k) (x ∷ xs) =
    ap (λ t. (exchange x xs).0 * t) (product-sort k (exchange x xs).1) ∙ product-exchange x xs

pub pos_right : (a b c : ℕ) → a * b ≡ c → 0 < c → 0 < b
pos_right a zero c e h = omega arith
pos_right a (suc b) c e h = omega arith

-- The last step of `split`.
abbrev pub finish : List ℕ × ℕ → List ℕ
finish (fs, r) = if ltb 1 r || length fs == 0 then fs ++ (r ∷ []) else fs

product-finish : (fs : List ℕ) (r : ℕ) → 0 < r → product (finish (fs, r)) ≡ product fs * r
unfolding product
product-finish fs r h = elim (Bool-cases (ltb 1 r || length fs == 0)) [
  | inl e ↦
      ap (λ b. product (if b then fs ++ (r ∷ []) else fs)) e
      ∙ product-append fs (r ∷ [])
      ∙ omega arith
  | inr e ↦
      ap (λ b. product (if b then fs ++ (r ∷ []) else fs)) e
      ∙ ground (arith, or_eq_false (ltb 1 r) (length fs == 0) e)
]

pub product-split : (ratio : ℕ) → 0 < ratio → product (split ratio) ≡ ratio
unfolding split
product-split ratio h =
    product-finish (split_loop 4 ratio).0 (split_loop 4 ratio).1
      (pos_right _ _ _ (product-split_loop 4 ratio) h)
    ∙ product-split_loop 4 ratio
