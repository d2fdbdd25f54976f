-- ===== src/Device/Fir/Packing.antt =====
-- The packing of the coefficients loses nothing.
use rtl_sdr.Prelude.{
  ℕ, zero, suc, ◌+◌, ◌*◌, ◌/◌, ◌%◌, ◌<◌, ◌≡◌, refl, ap, ap₂, sym, ◌∙◌, arith, Bool, true, false,
  ◌&&◌, Option, none, some, List, [], ◌∷◌, ◌++◌, take, drop, length, ℤ, pos, negsuc,
  take-append-drop, length-take, length-drop, if_true, if_false, if_cases, Bool-cases, Option-cases,
  ◌⊎◌, inl, inr, take-append_exact, drop-append_exact,
}
use rtl_sdr.Device.Fir.{low_bits, within, pack8, pack12, both, fir_bytes, signed, unpack8, unpack12}

signed-low_bits8 : (v : ℤ) → within 128 v ≡ true → signed 8 (low_bits 8 v) ≡ v
signed-low_bits8 (pos n) h = ground arith
signed-low_bits8 (negsuc n) h = ground arith

-- The 12 bits of two coefficients, split over three bytes and joined again.
signed-low_bits12 : (v : ℤ) → within 2048 v ≡ true → signed 12 (low_bits 12 v) ≡ v
signed-low_bits12 (pos n) h = ground arith
signed-low_bits12 (negsuc n) h = ground arith

low_bits12_bound : (v : ℤ) → within 2048 v ≡ true → low_bits 12 v < 4096
low_bits12_bound (pos n) h = omega arith
low_bits12_bound (negsuc n) h = omega arith

first_of_three : (x y : ℕ) → x < 4096 → y < 4096 → x / 16 * 16 + (x % 16 * 16 + y / 256) / 16 ≡ x
first_of_three x y h k = omega arith

last_of_three : (x y : ℕ) → x < 4096 → y < 4096 → (x % 16 * 16 + y / 256) % 16 * 256 + y % 256 ≡ y
last_of_three x y h k = omega arith

-- All coefficients are in range.
abbrev pub AllWithin : ℕ → List ℤ → Type 0
AllWithin limit [] = Unit
AllWithin limit (v ∷ vs) = (within limit v ≡ true) × AllWithin limit vs

-- The bytes of coefficients.
record Packs8 (vs : List ℤ) (bytes : List ℕ) : Type 0 where
  packed : pack8 vs ≡ some bytes
  back : unpack8 bytes ≡ vs
  size : length bytes ≡ length vs

packs8 : (vs : List ℤ) → AllWithin 128 vs → (bytes : List ℕ) × Packs8 vs bytes
unfolding pack8
packs8 [] h = ([], record { packed = refl; back = refl; size = refl })
packs8 (v ∷ vs) (e, es) =
    let (bytes, r) = packs8 vs es in
    (
      low_bits 8 v ∷ bytes,
      record {
        packed = if_true (within 128 v) _ _ e ∙ rw r.packed;
        back = ap₂ (λ x xs. x ∷ xs) (signed-low_bits8 v e) r.back;
        size = ap suc r.size;
      },
    )

record Packs12 (vs : List ℤ) (bytes : List ℕ) : Type 0 where
  packed : pack12 vs ≡ some bytes
  back : unpack12 bytes ≡ vs

packs12 :
    (k : ℕ) (vs : List ℤ)
    → length vs ≡ k + k
    → AllWithin 2048 vs
    → (bytes : List ℕ) × Packs12 vs bytes
unfolding pack12
packs12 k [] n h = ([], record { packed = refl; back = refl })
packs12 k (v ∷ []) n h = absurd (omega arith)
packs12 zero (v ∷ w ∷ vs) n h = absurd (omega arith)
packs12 (suc k) (v ∷ w ∷ vs) n (e, (f, es)) =
    let (bytes, r) = packs12 k vs (omega arith) es in
    (
      low_bits 12 v / 16
          ∷ (low_bits 12 v % 16 * 16 + low_bits 12 w / 256)
          ∷ low_bits 12 w % 256
          ∷ bytes,
      record {
        packed =
            if_true (within 2048 v && within 2048 w) _ _ (ap₂ (λ x y. x && y) e f) ∙ rw r.packed;
        back =
            ap₂ (λ x xs. x ∷ xs)
              (ap (signed 12) (
                  first_of_three (low_bits 12 v) (low_bits 12 w) (low_bits12_bound v e)
                    (low_bits12_bound w f))
                ∙ signed-low_bits12 v e)
              (ap₂ (λ x xs. x ∷ xs)
                (ap (signed 12) (
                    last_of_three (low_bits 12 v) (low_bits 12 w) (low_bits12_bound v e)
                      (low_bits12_bound w f))
                  ∙ signed-low_bits12 w f)
                r.back);
      },
    )

pack8-AllWithin : (vs : List ℤ) → (pack8 vs ≡ none → ⊥) → AllWithin 128 vs
unfolding pack8
pack8-AllWithin [] h = tt
pack8-AllWithin (v ∷ vs) h = (
  elim (Bool-cases (within 128 v)) [
    | inl e ↦ e
    | inr e ↦ absurd (h (if_false (within 128 v) _ _ e))
  ],
  pack8-AllWithin vs (λ k. h (if_cases (λ o. o ≡ none) (within 128 v) _ _ (λ _. rw k) (λ _. refl))),
)

pack12-AllWithin : (vs : List ℤ) → (pack12 vs ≡ none → ⊥) → AllWithin 2048 vs
unfolding pack12
pack12-AllWithin [] h = tt
pack12-AllWithin (v ∷ []) h = absurd (h refl)
pack12-AllWithin (v ∷ w ∷ vs) h = (
  elim (Bool-cases (within 2048 v)) [
    | inl e ↦ e
    | inr e ↦
        absurd (h (if_false (within 2048 v && within 2048 w) _ _ (ap (λ t. t && within 2048 w) e)))
  ],
  (
    elim (Bool-cases (within 2048 w)) [
      | inl e ↦ e
      | inr e ↦
          absurd (h (if_false (within 2048 v && within 2048 w) _ _ (and_false (within 2048 v) e)))
    ],
    pack12-AllWithin vs (λ k.
        h (if_cases (λ o. o ≡ none) (within 2048 v && within 2048 w) _ _ (λ _. rw k) (λ _. refl))),
  ),
)
  where
    and_false : (a : Bool) {b : Bool} → b ≡ false → a && b ≡ false
    and_false true e = e
    and_false false e = refl

both-none : (o : Option (List ℕ)) {p : Option (List ℕ)} → p ≡ none → both o p ≡ none
both-none none k = refl
both-none (some low) k = ap (both (some low)) k

-- The first eight coefficients fit into 8 bits, and the others into 12.
pub record Fits (fir : List ℤ) : Type 0 where
  pub outer : AllWithin 128 (take 8 fir)
  pub inner : AllWithin 2048 (drop 8 fir)

packed_fir :
    (fir : List ℤ)
    → length fir ≡ 16
    → Fits fir
    → (bytes : List ℕ) × (fir_bytes fir ≡ some bytes)
      × (unpack8 (take 8 bytes) ++ unpack12 (drop 8 bytes) ≡ fir)
unfolding fir_bytes
packed_fir fir n h =
    let (low, l) = packs8 (take 8 fir) h.outer in
    let (high, r) = packs12 4 (drop 8 fir) (omega (arith, length-drop 8 fir)) h.inner in
    let eight : length low ≡ 8 = l.size ∙ omega (arith, length-take 8 fir) in
    (
      low ++ high,
      ap₂ both l.packed r.packed,
      ap₂ (λ x y. unpack8 x ++ unpack12 y) (take-append_exact 8 low high eight)
            (drop-append_exact 8 low high eight)
          ∙ ap₂ (λ x y. x ++ y) l.back r.back
          ∙ take-append-drop 8 fir,
    )

fir_bytes-Fits : (fir : List ℤ) → (fir_bytes fir ≡ none → ⊥) → Fits fir
unfolding fir_bytes
fir_bytes-Fits fir h = record {
  outer =
      pack8-AllWithin (take 8 fir)
        (λ k. h (ap (λ (t : Option (List ℕ)). both t (pack12 (drop 8 fir))) k));
  inner = pack12-AllWithin (drop 8 fir) (λ k. h (both-none (pack8 (take 8 fir)) k));
}

-- What `rtlsdr_set_fir` makes of 16 coefficients: either the first eight fit into 8 bits and the
-- others into 12, and there are bytes which, read as eight integers of 8 bits and eight of 12, are
-- the coefficients; or they do not all fit, and it gives up.
pub fir_bytes-unpack :
    (fir : List ℤ)
    → length fir ≡ 16
    → (Fits fir
        × ((bytes : List ℕ) × (fir_bytes fir ≡ some bytes)
            × (unpack8 (take 8 bytes) ++ unpack12 (drop 8 bytes) ≡ fir)))
      ⊎ ((¬ Fits fir) × (fir_bytes fir ≡ none))
fir_bytes-unpack fir n = elim (Option-cases (fir_bytes fir)) [
  | inl e ↦ inr (λ h. let (bytes, p, q) = packed_fir fir n h in some-ne-none bytes (sym p ∙ e), e)
  | inr (bytes, e) ↦
      let h = fir_bytes-Fits fir (λ k. some-ne-none bytes (sym e ∙ k)) in
      inl (h, packed_fir fir n h)
]
  where
    some-ne-none : (bytes : List ℕ) → some bytes ≡ none → ⊥
    some-ne-none bytes k = cc
