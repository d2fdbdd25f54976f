-- ===== src/Prelude/Blit.antt =====
-- A list of bytes after a `memcpy` into it, byte for byte.
use Prim.Native.Nat.{ℕ, zero, suc, ◌+◌, ◌-◌, ◌≤◌, ◌<◌}
use mathlib.Core.Path.{◌≡◌, refl, sym, ap, ap₂, ◌∙◌}
use mathlib.Core.List.{List, [], ◌∷◌, ◌++◌}
use native.Mathlib.Omega.{arith}
use native.Mathlib.Decide.{dec_lt}
use rtl_sdr.Prelude.Lists.{length, get_or}
use rtl_sdr.Prelude.Memory.{Buffer, bytes_of, blit, fill, fill_before, fill_self, fill_after}

blit_before :
    (xs : List ℕ) (i : ℕ) (src : List ℕ) (j : ℕ)
    → j < i
    → get_or (blit xs i src) j 0 ≡ get_or xs j 0
blit_before [] i src j lt = refl
blit_before (x ∷ xs) zero src j lt = absurd (omega arith)
blit_before (x ∷ xs) (suc i) src zero lt = refl
blit_before (x ∷ xs) (suc i) src (suc j) lt = blit_before xs i src j (omega arith)

blit_within :
    (xs : List ℕ) (i : ℕ) (src : List ℕ) (k : ℕ)
    → i + k < length xs
    → k < length src
    → get_or (blit xs i src) (i + k) 0 ≡ get_or src k 0
blit_within [] i src k lt m = absurd (omega arith)
blit_within (x ∷ xs) zero [] k lt m = absurd (omega arith)
blit_within (x ∷ xs) zero (b ∷ bs) zero lt m = refl
blit_within (x ∷ xs) zero (b ∷ bs) (suc k) lt m =
    let e : zero + suc k ≡ suc (zero + k) = omega arith in
    ap (λ t. get_or (b ∷ blit xs zero bs) t 0) e
    ∙ blit_within xs zero bs k (omega arith) (omega arith)
blit_within (x ∷ xs) (suc i) src k lt m =
    let e : suc i + k ≡ suc (i + k) = omega arith in
    ap (λ t. get_or (x ∷ blit xs i src) t 0) e ∙ blit_within xs i src k (omega arith) m

blit_beyond :
    (xs : List ℕ) (i : ℕ) (src : List ℕ) (j : ℕ)
    → i + length src ≤ j
    → get_or (blit xs i src) j 0 ≡ get_or xs j 0
blit_beyond [] i src j le = refl
blit_beyond (x ∷ xs) zero [] j le = refl
blit_beyond (x ∷ xs) zero (b ∷ bs) zero le = absurd (omega arith)
blit_beyond (x ∷ xs) zero (b ∷ bs) (suc j) le = blit_beyond xs zero bs j (omega arith)
blit_beyond (x ∷ xs) (suc i) src zero le = refl
blit_beyond (x ∷ xs) (suc i) src (suc j) le = blit_beyond xs i src j (omega arith)

split : (i j : ℕ) → i ≤ j → j ≡ i + (j - i)
split i j h = omega arith

-- A list after a `memcpy` into it.
pub get_or-blit :
    (xs : List ℕ) (i : ℕ) (src : List ℕ) (j : ℕ)
    → j < length xs
    → get_or (blit xs i src) j 0 ≡ fill (λ k. get_or xs k 0) i src j
get_or-blit xs i src j h = elim (dec_lt j i) [
  | yes below ↦ blit_before xs i src j below ∙ sym (fill_before (λ k. get_or xs k 0) i src j below)
  | no above ↦ elim (dec_lt j (i + length src)) [
    | yes inside ↦
        ap (λ t. get_or (blit xs i src) t 0) (split i j (omega arith))
        ∙ blit_within xs i src (j - i) (omega arith) (omega arith)
        ∙ sym (fill_self (λ k. get_or xs k 0) i src (j - i) (omega arith))
        ∙ ap (fill (λ k. get_or xs k 0) i src) (sym (split i j (omega arith)))
    | no past ↦
        blit_beyond xs i src j (omega arith)
        ∙ sym (fill_after (λ k. get_or xs k 0) i src j (omega arith))
  ]
]

-- A `memcpy` of what is there already.
pub blit_same :
    (xs : List ℕ) (i : ℕ) (src : List ℕ)
    → i + length src ≤ length xs
    → ((k : ℕ) → k < length src → get_or xs (i + k) 0 ≡ get_or src k 0)
    → blit xs i src ≡ xs
blit_same [] i src h e = refl
blit_same (x ∷ xs) zero [] h e = refl
blit_same (x ∷ xs) zero (b ∷ bs) h e =
    ap₂ (λ v t. v ∷ t) (sym (e 0 (omega arith)))
      (blit_same xs zero bs (omega arith) (λ k lt.
        let s : zero + suc k ≡ suc (zero + k) = omega arith in
        ap (λ t. get_or (x ∷ xs) t 0) (sym s) ∙ e (suc k) (omega arith)))
blit_same (x ∷ xs) (suc i) src h e =
    ap (λ t. x ∷ t)
      (blit_same xs i src (omega arith) (λ k lt.
        let s : suc i + k ≡ suc (i + k) = omega arith in
        ap (λ t. get_or (x ∷ xs) t 0) (sym s) ∙ e k lt))

pub bytes_of_lem :
    (f : ℕ → ℕ) (i : ℕ) (bs : List ℕ)
    → ((k : ℕ) → k < length bs → f (i + k) ≡ get_or bs k 0)
    → bytes_of f i (length bs) ≡ bs
bytes_of_lem f i [] h = refl
bytes_of_lem f i (b ∷ bs) h =
    let e : i ≡ i + 0 = omega arith in
    ap₂ (λ v t. v ∷ t) (ap f e ∙ h 0 (omega arith))
      (bytes_of_lem f (i + 1) bs
        (λ k lt. let s : i + 1 + k ≡ i + suc k = omega arith in ap f s ∙ h (suc k) (omega arith)))

-- What was stored is there.
pub bytes_of-fill :
    (buf : Buffer) (i : ℕ) (bs : List ℕ) → bytes_of (fill buf i bs) i (length bs) ≡ bs
bytes_of-fill buf i bs = bytes_of_lem (fill buf i bs) i bs (λ k lt. fill_self buf i bs k lt)

pub bytes_of_same :
    (f g : Buffer) (i j n : ℕ)
    → ((k : ℕ) → k < n → f (i + k) ≡ g (j + k))
    → bytes_of f i n ≡ bytes_of g j n
bytes_of_same f g i j zero h = refl
bytes_of_same f g i j (suc n) h =
    ap₂ (λ v t. v ∷ t) (ap f (omega arith) ∙ h 0 (omega arith) ∙ ap g (omega arith))
      (bytes_of_same f g (i + 1) (j + 1) n
        (λ k lt. ap f (omega arith) ∙ h (suc k) (omega arith) ∙ ap g (omega arith)))

pub bytes_of_append :
    (f : Buffer) (i m n : ℕ) → bytes_of f i m ++ bytes_of f (i + m) n ≡ bytes_of f i (m + n)
bytes_of_append f i zero n = ap₂ (bytes_of f) (omega arith) (omega arith)
bytes_of_append f i (suc m) n =
    ap (λ t. f i ∷ t)
      (ap (λ k. bytes_of f (i + 1) m ++ bytes_of f k n) (omega arith)
        ∙ bytes_of_append f (i + 1) m n)
    ∙ ap (bytes_of f i) {x = suc (m + n)} (omega arith)
