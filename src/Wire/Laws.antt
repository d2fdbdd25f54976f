-- ===== src/Wire/Laws.antt =====
-- What is put is got back, and a word is decided by its bytes.
use rtl_sdr.Prelude.{ℕ, ◌+◌, ◌*◌, ◌/◌, ◌^◌, ◌≤◌, ◌<◌, ◌≡◌, ◌⊎◌, ◌∙◌, ap, ap₂, arith, bit_or}
use rtl_sdr.Prelude.{bit_or_disjoint, u8, u32, u64, Buffer}
use rtl_sdr.Wire.{put32, put64, get32, get64}

-- Four bytes that are bytes.
abbrev pub AreBytes : Buffer → ℕ → ℕ → Type 0
AreBytes buf lo hi = (j : ℕ) → lo ≤ j → j < hi → buf j < 256

join32 :
    (a b c d : ℕ)
    → a < 256
    → b < 256
    → c < 256
    → d < 256
    → bit_or (bit_or (bit_or (u32 (a * 2 ^ 24)) (u32 (b * 2 ^ 16))) (u32 (c * 2 ^ 8))) d
      ≡ a * 2 ^ 24 + b * 2 ^ 16 + c * 2 ^ 8 + d
join32 a b c d ha hb hc hd = ground (
  arith,
  bit_or_disjoint 24 (u32 (a * 2 ^ 24)) (u32 (b * 2 ^ 16)),
  bit_or_disjoint 16 (a * 2 ^ 24 + b * 2 ^ 16) (u32 (c * 2 ^ 8)),
  bit_or_disjoint 8 (a * 2 ^ 24 + b * 2 ^ 16 + c * 2 ^ 8) d,
)

join64 : (hi lo : ℕ) → hi < 2 ^ 32 → lo < 2 ^ 32 → bit_or (u64 (hi * 2 ^ 32)) lo ≡ hi * 2 ^ 32 + lo
join64 hi lo h l = ground (arith, bit_or_disjoint 32 (u64 (hi * 2 ^ 32)) lo)

-- A word of bytes is their sum, and fits 32 bits.
pub get32_sum :
    (buf : Buffer) (o : ℕ)
    → buf o < 256
    → buf (o + 1) < 256
    → buf (o + 2) < 256
    → buf (o + 3) < 256
    → get32 buf o ≡ buf o * 2 ^ 24 + buf (o + 1) * 2 ^ 16 + buf (o + 2) * 2 ^ 8 + buf (o + 3)
unfolding get32
get32_sum buf o h0 h1 h2 h3 = join32 (buf o) (buf (o + 1)) (buf (o + 2)) (buf (o + 3)) h0 h1 h2 h3

-- The bytes of a word, as `put32` writes them, are the word.
pub word_of_bytes :
    (v : ℕ)
    → v < 2 ^ 32
    → bit_or
        (bit_or
          (bit_or (u32 (u8 (v / 2 ^ 24) * 2 ^ 24)) (u32 (u8 (v / 2 ^ 16) * 2 ^ 16)))
          (u32 (u8 (v / 2 ^ 8) * 2 ^ 8)))
        (u8 v)
      ≡ v
word_of_bytes v h =
    join32 (u8 (v / 2 ^ 24)) (u8 (v / 2 ^ 16)) (u8 (v / 2 ^ 8)) (u8 v) (omega arith) (omega arith)
      (omega arith) (omega arith)
    ∙ omega arith

-- `put32` is undone by `get32`, and `put64` by `get64`.
pub get32-put32 : (buf : Buffer) (o v : ℕ) → v < 2 ^ 32 → get32 (put32 buf o v) o ≡ v
unfolding get32 put32
get32-put32 buf o v h = ground (arith, word_of_bytes v h)

-- A write elsewhere leaves a word alone.
pub get32-put32_other :
    (buf : Buffer) (o p v : ℕ) → (p + 4 ≤ o) ⊎ (o + 4 ≤ p) → get32 (put32 buf o v) p ≡ get32 buf p
unfolding get32 put32
get32-put32_other buf o p v h = ground arith

pub get32_cong :
    (buf buf' : Buffer) (o o' : ℕ)
    → ((j : ℕ) → j < 4 → buf (o + j) ≡ buf' (o' + j))
    → get32 buf o ≡ get32 buf' o'
unfolding get32
get32_cong buf buf' o o' h =
    ground (arith, h 0 (omega arith), h 1 (omega arith), h 2 (omega arith), h 3 (omega arith))

pub get64-put64 : (buf : Buffer) (o v : ℕ) → v < 2 ^ 64 → get64 (put64 buf o v) o ≡ v
unfolding get64 put64
get64-put64 buf o v h = ground (
  arith,
  get32-put32_other (put32 buf o (u32 (v / 2 ^ 32))) (o + 4) o (u32 v),
  get32-put32 buf o (u32 (v / 2 ^ 32)),
  get32-put32 (put32 buf o (u32 (v / 2 ^ 32))) (o + 4) (u32 v),
  join64 (v / 2 ^ 32) (u32 v),
)

pub get32-put64_other :
    (buf : Buffer) (o p v : ℕ) → (p + 4 ≤ o) ⊎ (o + 8 ≤ p) → get32 (put64 buf o v) p ≡ get32 buf p
unfolding put64
get32-put64_other buf o p v h = ground (
  arith,
  get32-put32_other (put32 buf o (u32 (v / 2 ^ 32))) (o + 4) p (u32 v),
  get32-put32_other buf o p (u32 (v / 2 ^ 32)),
)

pub get64-put64_other :
    (buf : Buffer) (o p v : ℕ) → (p + 8 ≤ o) ⊎ (o + 8 ≤ p) → get64 (put64 buf o v) p ≡ get64 buf p
unfolding get64
get64-put64_other buf o p v h =
    ground (arith, get32-put64_other buf o p v, get32-put64_other buf o (p + 4) v)

pub get64-put32_other :
    (buf : Buffer) (o p v : ℕ) → (p + 8 ≤ o) ⊎ (o + 4 ≤ p) → get64 (put32 buf o v) p ≡ get64 buf p
unfolding get64
get64-put32_other buf o p v h =
    ground (arith, get32-put32_other buf o p v, get32-put32_other buf o (p + 4) v)

pub get64_cong :
    (buf buf' : Buffer) (o o' : ℕ)
    → ((j : ℕ) → j < 8 → buf (o + j) ≡ buf' (o' + j))
    → get64 buf o ≡ get64 buf' o'
unfolding get64
get64_cong buf buf' o o' h =
    ap₂ (λ hi lo. bit_or (u64 (hi * 2 ^ 32)) lo)
      (get32_cong buf buf' o o' (λ j lt. h j (omega arith)))
      (get32_cong buf buf' (o + 4) (o' + 4)
        (λ j lt. ap buf (omega arith) ∙ h (4 + j) (omega arith) ∙ ap buf' (omega arith)))

-- Each write stays within its word.
pub put32_other : (buf : Buffer) (o v j : ℕ) → (j < o) ⊎ (o + 4 ≤ j) → put32 buf o v j ≡ buf j
unfolding put32
put32_other buf o v j h = ground arith

pub put64_other : (buf : Buffer) (o v j : ℕ) → (j < o) ⊎ (o + 8 ≤ j) → put64 buf o v j ≡ buf j
unfolding put64
put64_other buf o v j h = ground (
  arith,
  put32_other (put32 buf o (u32 (v / 2 ^ 32))) (o + 4) (u32 v) j,
  put32_other buf o (u32 (v / 2 ^ 32)) j,
)
