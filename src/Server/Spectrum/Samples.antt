-- ===== src/Server/Spectrum/Samples.antt =====
-- The spectrum sample by sample: how the input is cut into calls does not matter.
use rtl_sdr.Prelude.{ℕ, zero, suc, ◌+◌, ◌-◌, ◌*◌, ◌≤◌, ◌<◌, ◌≡◌, refl, ◌∙◌, ap, ap₂, arith}
use rtl_sdr.Prelude.{
  Bool, true, false, List, [], ◌∷◌, length, drop, set, ltb, if◌then◌else◌, Status, ok, failed,
}
use native.Mathlib.Decide.{dec_lt}
use rtl_sdr.Server.Spectrum.{Backend, Fft, State, collect, take_samples, end_of_samples, round_size}

-- The parameters are in range, and the counters below them.
pub record IsReady {F : Type 0} (s : Fft F) : Type 0 where
  pub planned : s.has_plan ≡ true
  pub hop : s.bins ≤ s.step
  pub some_bins : 2 ≤ s.bins
  pub some_accum : 1 ≤ s.accum
  pub within : s.nsamples < s.step
  pub below : s.accum_count < s.accum

module _ (b : Backend) where
  -- The machine that takes one sample at a time.
  unfoldable pub tick : State b → ℕ × ℕ → Status × State b
  tick s x = end_of_samples b (take_samples b 1 s (x ∷ []))

  -- What goes on after a success.
  abbrev pub and_then : Status × State b → (State b → Status × State b) → Status × State b
  and_then (status, s) f = elim status [ ok ↦ f s | failed ↦ (failed, s) ]

  unfoldable pub feed : State b → List (ℕ × ℕ) → Status × State b
  feed s [] = (ok, s)
  feed s (x ∷ xs) = and_then (tick s x) (λ s'. feed s' xs)

  abbrev pub remaining : State b → ℕ
  remaining s = if ltb s.nsamples s.bins then s.bins - s.nsamples else s.step - s.nsamples

  tick-eq_ok :
      (s : State b) (x : ℕ × ℕ) (xs : List (ℕ × ℕ))
      → s.nsamples + 1 < s.step
      → tick s x ≡ (ok, take_samples b 1 s (x ∷ xs))
  unfolding tick end_of_samples take_samples collect
  tick-eq_ok s x xs h = ground arith

  nested_if :
      {A : Type 0} (f : A → A) (now later : Bool) (stored old : A)
      → later ≡ now
      → (if later then f (if now then stored else old) else (if now then stored else old))
        ≡ (if now then f stored else old)
  nested_if f true true stored old e = refl
  nested_if f false false stored old e = refl
  nested_if f true false stored old e = cc
  nested_if f false true stored old e = cc

  -- The samples of a round stay on one side of the last bin.
  same_side :
      (s : State b) (c : ℕ)
      → suc (suc c) ≤ remaining s
      → ltb (s.nsamples + 1) s.bins ≡ ltb s.nsamples s.bins
  same_side s c h = elim (dec_lt s.nsamples s.bins) [
    | yes low ↦ (let e : remaining s ≡ s.bins - s.nsamples = ground arith in ground (arith, h, e))
    | no high ↦ ground arith
  ]

  take_samples-suc :
      (c : ℕ) (s : State b) (x : ℕ × ℕ) (xs : List (ℕ × ℕ))
      → suc (suc c) ≤ remaining s
      → take_samples b (suc c) (take_samples b 1 s (x ∷ xs)) xs
        ≡ take_samples b (suc (suc c)) s (x ∷ xs)
  unfolding take_samples collect
  take_samples-suc c s x xs h =
      ap₂ (λ dst n. record s { fft_in = dst; nsamples = n })
        (nested_if (λ dst. collect b (suc c) (s.nsamples + 1) dst xs) (ltb s.nsamples s.bins)
          (ltb (s.nsamples + 1) s.bins)
          (set (set s.fft_in (s.nsamples * 2) (b.centered x.0)) (s.nsamples * 2 + 1)
            (b.centered x.1))
          s.fft_in (same_side s c h))
        (omega arith)

  remaining-suc :
      (c : ℕ) (s : State b) (x : ℕ × ℕ) (xs : List (ℕ × ℕ))
      → suc (suc c) ≤ remaining s
      → suc c ≤ remaining (take_samples b 1 s (x ∷ xs))
  unfolding take_samples
  remaining-suc c s x xs h = ground (arith, same_side s c h)

  pub hop_left : (s : State b) → IsReady s → remaining s ≤ s.step - s.nsamples
  hop_left s r = ground arith

  pub feed_block :
      (c : ℕ) (s : State b) (xs : List (ℕ × ℕ))
      → IsReady s
      → suc c ≤ remaining s
      → suc c ≤ length xs
      → feed s xs
        ≡ and_then
            (end_of_samples b (take_samples b (suc c) s xs))
            (λ s'. feed s' (drop (suc c) xs))
  unfolding feed
  feed_block c s [] r h k = absurd (omega arith)
  feed_block zero s (x ∷ xs) r h k = unfold tick take_samples collect in refl
  feed_block (suc c) s (x ∷ xs) r h k =
      let s1 = take_samples b 1 s (x ∷ xs) in
      let left = hop_left s r in
      let r1 : IsReady s1 =
        unfold take_samples in
        record {
          planned = r.planned;
          hop = r.hop;
          some_bins = r.some_bins;
          some_accum = r.some_accum;
          within = omega (arith, left, h);
          below = r.below;
        } in
      ap (λ t. and_then t (λ s'. feed s' xs)) (tick-eq_ok s x xs (omega (arith, left, h)))
      ∙ feed_block c s1 xs r1 (remaining-suc c s x xs h) (omega arith)
      ∙ ap (λ t. and_then (end_of_samples b t) (λ s'. feed s' (drop (suc c) xs)))
          (take_samples-suc c s x xs h)

  pub round_size_lem :
      (s : State b) (n : ℕ)
      → IsReady s
      → 1 ≤ n
      → (1 ≤ round_size b s n) × (round_size b s n ≤ remaining s) × (round_size b s n ≤ n)
  unfolding round_size
  round_size_lem s n r h = let some_left : 1 ≤ remaining s = ground arith in ground arith
