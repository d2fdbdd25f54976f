-- ===== src/Dsp/Plan/Order.antt =====
-- The sort of the factors in `make_plan`: falling order, and the number of factors.
use rtl_sdr.Prelude.{ℕ, zero, suc, ◌+◌, ◌/◌, ◌≤◌, ◌≡◌, refl, ◌∙◌, ap, arith}
use rtl_sdr.Prelude.{Bool, ◌||◌, if◌then◌else◌, ◌==◌}
use rtl_sdr.Prelude.{
  List, [], ◌∷◌, ◌++◌, length, length-append, Option-cases, ltb, leb, Bool-cases, inl, inr, subst⁻¹,
}
use rtl_sdr.Prelude.{or_eq_false}
use rtl_sdr.Dsp.Plan.{next_factor, split_loop, split, exchange, sort, max_stages}
use rtl_sdr.Dsp.Plan.Factors.{
  split_loop-eq_stop, split_loop-eq_step, exchange-eq_swap, exchange-eq_keep, finish,
}

-- No element is larger than `m`.
abbrev pub AtMost : ℕ → List ℕ → Type 0
AtMost m [] = Unit {0}
AtMost m (f ∷ fs) = (f ≤ m) × AtMost m fs

-- In falling order.
abbrev pub Descending : List ℕ → Type 0
Descending [] = Unit {0}
Descending (f ∷ fs) = AtMost f fs × Descending fs

AtMost-mono : (m n : ℕ) (fs : List ℕ) → m ≤ n → AtMost m fs → AtMost n fs
AtMost-mono m n [] h k = k
AtMost-mono m n (f ∷ fs) h k = (omega (arith, k.0), AtMost-mono m n fs h k.1)

AtMost-max : (fs : List ℕ) → (b : ℕ) × AtMost b fs
AtMost-max [] = (0, tt)
AtMost-max (f ∷ fs) =
    (f + (AtMost-max fs).0, (omega arith, AtMost-mono _ _ fs (omega arith) (AtMost-max fs).1))

-- What a round of the sort gives.
abbrev Round : ℕ → ℕ → List ℕ → ℕ × List ℕ → Type 0
Round b x ys (m, rest) = (x ≤ m) × (m ≤ b) × AtMost m rest × (length rest ≡ length ys)

exchange-Round : (b x : ℕ) (ys : List ℕ) → x ≤ b → AtMost b ys → Round b x ys (exchange x ys)
unfolding exchange
exchange-Round b x [] h k = (omega arith, h, tt, refl)
exchange-Round b x (y ∷ ys) h k = elim (Bool-cases (ltb x y)) [
  | inl e ↦
      (let p = exchange-Round b y ys k.0 k.1 in
        subst⁻¹ (Round b x (y ∷ ys)) (exchange-eq_swap x y ys e)
          (ground arith, p.1, (ground arith, p.2), ap suc p.3))
  | inr e ↦
      (let p = exchange-Round b x ys h k.1 in
        subst⁻¹ (Round b x (y ∷ ys)) (exchange-eq_keep x y ys e)
          (p.0, p.1, (ground arith, p.2), ap suc p.3))
]

sort-AtMost : (k b : ℕ) (fs : List ℕ) → AtMost b fs → AtMost b (sort k fs)
unfolding sort
sort-AtMost zero b fs h = h
sort-AtMost (suc k) b [] h = tt
sort-AtMost (suc k) b (x ∷ xs) h =
    let p = exchange-Round b x xs h.0 h.1 in
    (
      p.1,
      sort-AtMost k b (exchange x xs).1 (AtMost-mono (exchange x xs).0 b (exchange x xs).1 p.1 p.2),
    )

exchange-largest : (x : ℕ) (ys : List ℕ) → AtMost (exchange x ys).0 (exchange x ys).1
exchange-largest x ys =
    let (b, h) = AtMost-max ys in
    (exchange-Round (x + b) x ys (omega arith) (AtMost-mono b (x + b) ys (omega arith) h)).2

length-exchange : (x : ℕ) (ys : List ℕ) → length (exchange x ys).1 ≡ length ys
length-exchange x ys =
    let (b, h) = AtMost-max ys in
    (exchange-Round (x + b) x ys (omega arith) (AtMost-mono b (x + b) ys (omega arith) h)).3

pub length-sort : (k : ℕ) (fs : List ℕ) → length (sort k fs) ≡ length fs
unfolding sort
length-sort zero fs = refl
length-sort (suc k) [] = refl
length-sort (suc k) (x ∷ xs) = ap suc (length-sort k (exchange x xs).1 ∙ length-exchange x xs)

pub sort-Descending : (k : ℕ) (fs : List ℕ) → length fs ≤ k → Descending (sort k fs)
unfolding sort
sort-Descending zero [] h = tt
sort-Descending zero (x ∷ xs) h = ground arith
sort-Descending (suc k) [] h = tt
sort-Descending (suc k) (x ∷ xs) h =
    let rest = (exchange x xs).1 in
    (
      sort-AtMost k (exchange x xs).0 rest (exchange-largest x xs),
      sort-Descending k rest (omega (arith, length-exchange x xs)),
    )

length-split_loop : (left r : ℕ) → length (split_loop left r).0 ≤ left
unfolding split_loop
length-split_loop zero r = omega arith
length-split_loop (suc left) r = elim (Bool-cases (leb r 1)) [
  | inl x ↦ subst⁻¹ (λ t. length t.0 ≤ suc left) (split_loop-eq_stop left r (inl x)) (omega arith)
  | inr x ↦ elim (Option-cases (next_factor r)) [
    | inl e ↦ subst⁻¹ (λ t. length t.0 ≤ suc left) (split_loop-eq_stop left r (inr e)) (omega arith)
    | inr (g, e) ↦
        subst⁻¹ (λ t. length t.0 ≤ suc left) (split_loop-eq_step left r x e)
          (omega (arith, length-split_loop left (r / g)))
  ]
]

length-finish :
    (fs : List ℕ) (r : ℕ)
    → (1 ≤ length (finish (fs, r))) × (length (finish (fs, r)) ≤ length fs + 1)
length-finish fs r = elim (Bool-cases (ltb 1 r || length fs == 0)) [
  | inl e ↦ subst⁻¹ Sizes e (omega (arith, length-append fs (r ∷ [])))
  | inr e ↦
      subst⁻¹ Sizes e (ground (arith, (or_eq_false (ltb 1 r) (length fs == 0) e).1), omega arith)
]
  where
    Sizes : Bool → Type 0
    Sizes b =
        let gs = if b then fs ++ (r ∷ []) else fs in (1 ≤ length gs) × (length gs ≤ length fs + 1)

pub length-split : (ratio : ℕ) → (1 ≤ length (split ratio)) × (length (split ratio) ≤ max_stages)
unfolding split
length-split ratio =
    let p = length-finish (split_loop 4 ratio).0 (split_loop 4 ratio).1 in
    (p.0, omega (arith, p.1, length-split_loop 4 ratio))
