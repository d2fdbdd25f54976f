-- ===== src/Wire/Header.antt =====
-- The layout that requests and data headers share: a word at 0, and three double words from 4 on.
use rtl_sdr.Prelude.{ℕ, ◌^◌, ◌≤◌, ◌<◌, ◌≡◌, ◌∙◌, inl, inr, arith, Buffer}
use rtl_sdr.Wire.{put32, put64, get32, get64}
use rtl_sdr.Wire.Laws.{get32-put32, get32-put64_other, get64-put64, get64-put64_other}
use rtl_sdr.Wire.Laws.{put32_other, put64_other}

abbrev pub fields : Buffer → ℕ → ℕ → ℕ → ℕ → Buffer
fields buf m f r s = put64 (put64 (put64 (put32 buf 0 m) 4 f) 12 r) 20 s

module _ (buf : Buffer) (m f r s : ℕ) where
  pub get_magic : m < 2 ^ 32 → get32 (fields buf m f r s) 0 ≡ m
  get_magic h =
      get32-put64_other _ 20 0 s (inl (omega arith))
      ∙ get32-put64_other _ 12 0 r (inl (omega arith))
      ∙ get32-put64_other _ 4 0 f (inl (omega arith))
      ∙ get32-put32 buf 0 m h

  pub get_first : f < 2 ^ 64 → get64 (fields buf m f r s) 4 ≡ f
  get_first h =
      get64-put64_other _ 20 4 s (inl (omega arith))
      ∙ get64-put64_other _ 12 4 r (inl (omega arith))
      ∙ get64-put64 _ 4 f h

  pub get_second : r < 2 ^ 64 → get64 (fields buf m f r s) 12 ≡ r
  get_second h = get64-put64_other _ 20 12 s (inl (omega arith)) ∙ get64-put64 _ 12 r h

  pub get_third : s < 2 ^ 64 → get64 (fields buf m f r s) 20 ≡ s
  get_third h = get64-put64 _ 20 s h

  pub fields_other : (j : ℕ) → 28 ≤ j → fields buf m f r s j ≡ buf j
  fields_other j h =
      put64_other _ 20 s j (inr (omega arith))
      ∙ put64_other _ 12 r j (inr (omega arith))
      ∙ put64_other _ 4 f j (inr (omega arith))
      ∙ put32_other buf 0 m j (inr (omega arith))
