-- ===== src/Prelude/Memory.antt =====
-- Memory in two forms: an allocation, which is a list of its bytes, and a caller's buffer of
-- unstated size, which is the byte at each offset from its pointer.
use Prim.Native.Nat.{ℕ, zero, suc, ◌+◌, ◌-◌, ◌≤◌, ◌<◌}
use mathlib.Core.Path.{◌≡◌, refl, sym, ap, ◌∙◌}
use mathlib.Core.List.{List, [], ◌∷◌, ◌++◌}
use native.Mathlib.Omega.{arith}
use native.Mathlib.Decide.{dec_lt}
use rtl_sdr.Prelude.Tests.{◌==◌, if◌then◌else◌}
use rtl_sdr.Prelude.Lists.{length, take, drop, get_or}

module _ {ℓ} {A : Type ℓ} where
  -- `memcpy(xs + i, src, length src)`; what falls outside the allocation is dropped.
  abbrev pub blit : List A → ℕ → List A → List A
  blit [] i src = []
  blit (x ∷ xs) zero [] = x ∷ xs
  blit (x ∷ xs) zero (b ∷ bs) = b ∷ blit xs zero bs
  blit (x ∷ xs) (suc i) src = x ∷ blit xs i src

  -- The `n` elements from index `i` on.
  abbrev pub slice : List A → ℕ → ℕ → List A
  slice xs i n = take n (drop i xs)

  pub length-blit : (xs : List A) (i : ℕ) (src : List A) → length (blit xs i src) ≡ length xs
  length-blit [] i src = refl
  length-blit (x ∷ xs) zero [] = refl
  length-blit (x ∷ xs) zero (b ∷ bs) = ap suc (length-blit xs zero bs)
  length-blit (x ∷ xs) (suc i) src = ap suc (length-blit xs i src)

  pub slice-blit_self :
      (xs : List A) (i : ℕ) (src : List A) (n : ℕ)
      → length src ≡ n
      → i + n ≤ length xs
      → slice (blit xs i src) i n ≡ src
  slice-blit_self [] zero [] zero e h = refl
  slice-blit_self [] zero [] (suc n) e h = refl
  slice-blit_self [] (suc i) [] zero e h = refl
  slice-blit_self [] (suc i) [] (suc n) e h = refl
  slice-blit_self [] i (b ∷ bs) n e h = absurd (omega arith)
  slice-blit_self (x ∷ xs) zero [] zero e h = refl
  slice-blit_self (x ∷ xs) zero [] (suc n) e h = absurd (omega arith)
  slice-blit_self (x ∷ xs) zero (b ∷ bs) zero e h = absurd (omega arith)
  slice-blit_self (x ∷ xs) zero (b ∷ bs) (suc n) e h =
      ap (λ t. b ∷ t) (slice-blit_self xs zero bs n (omega arith) (omega arith))
  slice-blit_self (x ∷ xs) (suc i) src n e h = slice-blit_self xs i src n e (omega arith)

  pub slice-blit_before :
      (xs : List A) (i : ℕ) (src : List A) (j n : ℕ)
      → j + n ≤ i
      → slice (blit xs i src) j n ≡ slice xs j n
  slice-blit_before [] i src j n h = refl
  slice-blit_before (x ∷ xs) zero [] j n h = refl
  slice-blit_before (x ∷ xs) zero (b ∷ bs) zero zero h = refl
  slice-blit_before (x ∷ xs) zero (b ∷ bs) zero (suc n) h = absurd (omega arith)
  slice-blit_before (x ∷ xs) zero (b ∷ bs) (suc j) n h = absurd (omega arith)
  slice-blit_before (x ∷ xs) (suc i) src zero zero h = refl
  slice-blit_before (x ∷ xs) (suc i) src zero (suc n) h =
      ap (λ t. x ∷ t) (slice-blit_before xs i src zero n (omega arith))
  slice-blit_before (x ∷ xs) (suc i) src (suc j) n h = slice-blit_before xs i src j n (omega arith)

  pub slice-blit_after :
      (xs : List A) (i : ℕ) (src : List A) (j n : ℕ)
      → i + length src ≤ j
      → slice (blit xs i src) j n ≡ slice xs j n
  slice-blit_after [] i src j n h = refl
  slice-blit_after (x ∷ xs) zero [] j n h = refl
  slice-blit_after (x ∷ xs) zero (b ∷ bs) zero n h = absurd (omega arith)
  slice-blit_after (x ∷ xs) zero (b ∷ bs) (suc j) n h =
      slice-blit_after xs zero bs j n (omega arith)
  slice-blit_after (x ∷ xs) (suc i) src zero n h = absurd (omega arith)
  slice-blit_after (x ∷ xs) (suc i) src (suc j) n h = slice-blit_after xs i src j n (omega arith)

-- The byte at each offset.
abbrev pub Buffer : Type 0
Buffer = ℕ → ℕ

abbrev pub store : Buffer → ℕ → ℕ → Buffer
store buf i v = λ j. if j == i then v else buf j

-- A list of bytes stored from offset `i` on.
abbrev pub fill : Buffer → ℕ → List ℕ → Buffer
fill buf i [] = buf
fill buf i (b ∷ bs) = fill (store buf i b) (i + 1) bs

-- The `n` bytes from offset `i` on.
abbrev pub bytes_of : Buffer → ℕ → ℕ → List ℕ
bytes_of buf i zero = []
bytes_of buf i (suc n) = buf i ∷ bytes_of buf (i + 1) n

pub length-bytes_of : (buf : Buffer) (i n : ℕ) → length (bytes_of buf i n) ≡ n
length-bytes_of buf i zero = refl
length-bytes_of buf i (suc n) = ap suc (length-bytes_of buf (i + 1) n)

pub fill_before : (buf : Buffer) (i : ℕ) (bs : List ℕ) (j : ℕ) → j < i → fill buf i bs j ≡ buf j
fill_before buf i [] j h = refl
fill_before buf i (b ∷ bs) j h =
    ground (arith, fill_before (store buf i b) (i + 1) bs j (omega arith))

-- What is filled from a buffer's bytes is that buffer's, shifted.
pub fill-bytes_of :
    (dst src : Buffer) (i k n j : ℕ) → j < n → fill dst i (bytes_of src k n) (i + j) ≡ src (k + j)
fill-bytes_of dst src i k zero j h = absurd (omega arith)
fill-bytes_of dst src i k (suc n) zero h =
    ap (fill (store dst i (src k)) (i + 1) (bytes_of src (k + 1) n)) (omega arith)
    ∙ fill_before (store dst i (src k)) (i + 1) (bytes_of src (k + 1) n) i (omega arith)
    ∙ ground arith
fill-bytes_of dst src i k (suc n) (suc j) h =
    ap (fill (store dst i (src k)) (i + 1) (bytes_of src (k + 1) n)) (omega arith)
    ∙ fill-bytes_of (store dst i (src k)) src (i + 1) (k + 1) n j (omega arith)
    ∙ ap src (omega arith)

pub fill_self :
    (buf : Buffer) (i : ℕ) (bs : List ℕ) (k : ℕ)
    → k < length bs
    → fill buf i bs (i + k) ≡ get_or bs k 0
fill_self buf i [] k h = absurd (omega arith)
fill_self buf i (b ∷ bs) zero h =
    ap (fill (store buf i b) (i + 1) bs) (omega arith)
    ∙ fill_before (store buf i b) (i + 1) bs i (omega arith)
    ∙ ground arith
fill_self buf i (b ∷ bs) (suc k) h =
    ap (fill (store buf i b) (i + 1) bs) (omega arith)
    ∙ fill_self (store buf i b) (i + 1) bs k (omega arith)

pub fill_after :
    (buf : Buffer) (i : ℕ) (bs : List ℕ) (j : ℕ) → i + length bs ≤ j → fill buf i bs j ≡ buf j
fill_after buf i [] j h = refl
fill_after buf i (b ∷ bs) j h =
    ground (arith, fill_after (store buf i b) (i + 1) bs j (omega arith))

pub fill-append :
    (buf : Buffer) (i : ℕ) (xs ys : List ℕ)
    → fill buf i (xs ++ ys) ≡ fill (fill buf i xs) (i + length xs) ys
fill-append buf i [] ys = ap (λ k. fill buf k ys) (omega arith)
fill-append buf i (x ∷ xs) ys =
    fill-append (store buf i x) (i + 1) xs ys
    ∙ ap (λ k. fill (fill (store buf i x) (i + 1) xs) k ys) (omega arith)

-- What was there already changes nothing.
pub fill_same :
    (buf : Buffer) (i : ℕ) (bs : List ℕ)
    → ((k : ℕ) → k < length bs → buf (i + k) ≡ get_or bs k 0)
    → (j : ℕ) → fill buf i bs j ≡ buf j
fill_same buf i bs h j = elim (dec_lt j i) [
  | yes below ↦ fill_before buf i bs j below
  | no above ↦ elim (dec_lt j (i + length bs)) [
    | yes inside ↦
        ap (fill buf i bs) (omega arith)
        ∙ fill_self buf i bs (j - i) (omega arith)
        ∙ sym (h (j - i) (omega arith))
        ∙ ap buf (omega arith)
    | no past ↦ fill_after buf i bs j (omega arith)
  ]
]
