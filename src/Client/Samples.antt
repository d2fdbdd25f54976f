-- ===== src/Client/Samples.antt =====
-- The samples of a frame: what the server stores big-endian, the client loads.
use rtl_sdr.Prelude.{ℕ, zero, suc, ◌+◌, ◌*◌, ◌/◌, ◌^◌, ◌≤◌, ◌<◌, ◌≡◌, refl, ◌∙◌, ap, ap₂, arith}
use rtl_sdr.Prelude.{
  List, [], ◌∷◌, length, get_or, bit_or, bit_or_disjoint, u8, u32, ltb, if◌then◌else◌,
}
use rtl_sdr.Prelude.{Buffer, ℤ, pos, negsuc, sub_ℕ, IsInt16, cast_u16}
use native.Mathlib.Decide.{dec_lt}
use rtl_sdr.Proto.{store_samples}
use rtl_sdr.Client.{sample_of, load_samples}

abbrev pub AllInt16 : List ℤ → Type 0
AllInt16 [] = Unit {0}
AllInt16 (a ∷ s) = IsInt16 a × AllInt16 s

abbrev pub byte_hi : ℤ → ℕ
byte_hi a = u8 (cast_u16 a / 2 ^ 8)

abbrev pub byte_lo : ℤ → ℕ
byte_lo a = u8 (cast_u16 a)

store_samples_before :
    (left i : ℕ) (s : List ℤ) (dst : Buffer) (k : ℕ)
    → k < 2 * i
    → store_samples left i s dst k ≡ dst k
unfolding store_samples
store_samples_before zero i s dst k h = refl
store_samples_before (suc left) i s dst k h =
    store_samples_before left (i + 1) s _ k (omega arith) ∙ ground arith

pub store_samples_at :
    (left i : ℕ) (s : List ℤ) (dst : Buffer) (j : ℕ)
    → i ≤ j
    → j < i + left
    → (store_samples left i s dst (2 * j) ≡ byte_hi (get_or s j (pos 0)))
      × (store_samples left i s dst (2 * j + 1) ≡ byte_lo (get_or s j (pos 0)))
unfolding store_samples
store_samples_at zero i s dst j lo hi = absurd (omega arith)
store_samples_at (suc left) i s dst j lo hi = elim (dec_lt i j) [
  | yes later ↦ store_samples_at left (i + 1) s _ j (omega arith) (omega arith)
  | no here ↦
      let same : j ≡ i = omega arith in
      rw same (
        store_samples_before left (i + 1) s _ (2 * i) (omega arith) ∙ ground arith,
        store_samples_before left (i + 1) s _ (2 * i + 1) (omega arith) ∙ ground arith,
      )
]

value_of_bytes : (a : ℤ) → bit_or (u32 (byte_hi a * 2 ^ 8)) (byte_lo a) ≡ cast_u16 a
value_of_bytes (pos n) = bit_or_disjoint 8 _ _ (omega arith) (omega arith) ∙ omega arith
value_of_bytes (negsuc n) = bit_or_disjoint 8 _ _ (omega arith) (omega arith) ∙ omega arith

int16_of_cast :
    (a : ℤ)
    → IsInt16 a
    → (if ltb (cast_u16 a) 32768 then pos (cast_u16 a) else sub_ℕ (cast_u16 a) 65536) ≡ a
int16_of_cast (pos n) h = ground arith
int16_of_cast (negsuc n) h = ground arith

sample_of_bytes :
    (bytes : Buffer) (i : ℕ) (a : ℤ)
    → IsInt16 a
    → bytes (2 * i) ≡ byte_hi a
    → bytes (2 * i + 1) ≡ byte_lo a
    → sample_of bytes i ≡ a
unfolding sample_of
sample_of_bytes bytes i a h hi lo = rw (hi, lo, value_of_bytes a) (int16_of_cast a h)

-- Bytes that are those of the samples load as the samples.
pub load_samples_lem :
    (s : List ℤ) (i : ℕ) (bytes : Buffer)
    → AllInt16 s
    → ((j : ℕ)
        → j < length s
        → (bytes (2 * (i + j)) ≡ byte_hi (get_or s j (pos 0)))
          × (bytes (2 * (i + j) + 1) ≡ byte_lo (get_or s j (pos 0))))
    → load_samples (length s) i bytes ≡ s
unfolding load_samples
load_samples_lem [] i bytes h same = refl
load_samples_lem (a ∷ s) i bytes h same =
    ap₂ ◌∷◌
      (sample_of_bytes bytes i a h.0 (ap bytes (omega arith) ∙ (same 0 (omega arith)).0)
        (ap bytes (omega arith) ∙ (same 0 (omega arith)).1))
      (load_samples_lem s (i + 1) bytes h.1 λ j lt. (
        ap bytes (omega arith) ∙ (same (suc j) (omega arith)).0,
        ap bytes (omega arith) ∙ (same (suc j) (omega arith)).1,
      ))
