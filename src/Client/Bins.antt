-- ===== src/Client/Bins.antt =====
-- The bins of a spectrum: what the server stores big-endian, the client loads.
use rtl_sdr.Prelude.{ℕ, zero, suc, ◌+◌, ◌*◌, ◌^◌, ◌≤◌, ◌<◌, ◌≡◌, refl, ◌∙◌, ap, ap₂, inl, arith}
use rtl_sdr.Prelude.{List, [], ◌∷◌, length, get_or, Buffer, bytes_of, fill, fill-bytes_of}
use native.Mathlib.Decide.{dec_lt}
use rtl_sdr.Wire.{get32}
use rtl_sdr.Wire.Laws.{get32-put32, get32-put32_other, get32_cong}
use rtl_sdr.Proto.{store_bins}
use rtl_sdr.Client.{load_bins}

-- Every value is the 32 bits of a `float`.
abbrev pub AllWords : List ℕ → Type 0
AllWords [] = Unit {0}
AllWords (v ∷ vs) = (v < 2 ^ 32) × AllWords vs

word_at : (vs : List ℕ) (j : ℕ) → AllWords vs → get_or vs j 0 < 2 ^ 32
word_at [] j h = omega arith
word_at (v ∷ vs) zero h = h.0
word_at (v ∷ vs) (suc j) h = word_at vs j h.1

store_bins_before :
    (left i : ℕ) (vs : List ℕ) (dst : Buffer) (o : ℕ)
    → o + 4 ≤ 4 * i
    → get32 (store_bins left i vs dst) o ≡ get32 dst o
unfolding store_bins
store_bins_before zero i vs dst o h = refl
store_bins_before (suc left) i vs dst o h =
    store_bins_before left (i + 1) vs _ o (omega arith)
    ∙ get32-put32_other dst (4 * i) o (get_or vs i 0) (inl (omega arith))

store_bins_at :
    (left i : ℕ) (vs : List ℕ) (dst : Buffer) (j : ℕ)
    → AllWords vs
    → i ≤ j
    → j < i + left
    → get32 (store_bins left i vs dst) (4 * j) ≡ get_or vs j 0
unfolding store_bins
store_bins_at zero i vs dst j words lo hi = absurd (omega arith)
store_bins_at (suc left) i vs dst j words lo hi = elim (dec_lt i j) [
  | yes later ↦ store_bins_at left (i + 1) vs _ j words (omega arith) (omega arith)
  | no here ↦
      let same : j ≡ i = omega arith in
      rw same (
        store_bins_before left (i + 1) vs _ (4 * i) (omega arith)
        ∙ get32-put32 dst (4 * i) (get_or vs i 0) (word_at vs i words))
]

load_bins_lem :
    (vs : List ℕ) (i : ℕ) (bytes : Buffer)
    → ((j : ℕ) → j < length vs → get32 bytes (4 * (i + j)) ≡ get_or vs j 0)
    → load_bins (length vs) i bytes ≡ vs
unfolding load_bins
load_bins_lem [] i bytes same = refl
load_bins_lem (v ∷ vs) i bytes same =
    ap₂ ◌∷◌ (ap (get32 bytes) (omega arith) ∙ same 0 (omega arith)) (
      load_bins_lem vs (i + 1) bytes
        λ j lt. ap (get32 bytes) (omega arith) ∙ same (suc j) (omega arith))

-- The bytes of the payload, filled in at the client, load as the bins.
pub load_bins-store_bins :
    (vs : List ℕ) (buf : Buffer)
    → AllWords vs
    → load_bins
        (length vs)
        0
        (fill (λ j. 0) 0 (bytes_of (store_bins (length vs) 0 vs buf) 0 (length vs * 4)))
      ≡ vs
load_bins-store_bins vs buf words =
    load_bins_lem vs 0 (fill (λ j. 0) 0 (bytes_of body 0 (length vs * 4))) λ j lt.
      get32_cong (fill (λ k. 0) 0 (bytes_of body 0 (length vs * 4))) body (4 * (0 + j)) (4 * j)
        (λ k small.
          ap (fill (λ t. 0) 0 (bytes_of body 0 (length vs * 4))) (omega arith)
          ∙ fill-bytes_of (λ t. 0) body 0 0 (length vs * 4) (4 * j + k) (omega arith)
          ∙ ap body (omega arith))
      ∙ store_bins_at (length vs) 0 vs buf j words (omega arith) (omega arith)
  where
    body : Buffer
    body = store_bins (length vs) 0 vs buf
