-- ===== src/Server/Spectrum/Calls.antt =====
-- Whole calls of `rtlsdr_server_process_fft`: how the input is cut does not matter.
use rtl_sdr.Prelude.{ℕ, zero, suc, ◌+◌, ◌%◌, ◌≤◌, ◌<◌, ◌≡◌, refl, sym, ◌∙◌, ap, arith, subst⁻¹}
use rtl_sdr.Prelude.{
  true, if_false, if_cases, Option, none, some, List, [], ◌∷◌, ◌++◌, length, length-drop,
  length-append, drop, ltb, ◌==◌, Status, ok, failed,
}
use rtl_sdr.Server.Spectrum.{
  Backend, State, publish_power, apply_window, add_power, finish_hop, take_samples, end_of_samples,
  round_size, fft_loop, samples, process_fft,
}
use rtl_sdr.Server.Spectrum.Samples.{
  IsReady, and_then, feed, feed_block, hop_left, remaining, round_size_lem, tick,
}

module _ (b : Backend) where
  publish_power-IsReady :
      (s : State b)
      → s.has_plan ≡ true
      → s.bins ≤ s.step
      → 2 ≤ s.bins
      → 1 ≤ s.accum
      → s.nsamples < s.step
      → IsReady (publish_power b s)
  unfolding publish_power
  publish_power-IsReady s h0 h1 h2 h3 h4 =
      if_cases IsReady (ltb s.accum_count s.accum) s _
        (λ e. record {
          planned = h0;
          hop = h1;
          some_bins = h2;
          some_accum = h3;
          within = h4;
          below = ground arith;
        })
        (λ e. record {
          planned = h0;
          hop = h1;
          some_bins = h2;
          some_accum = h3;
          within = h4;
          below = omega arith;
        })

  -- What a hop does with the result of the transform.
  abbrev transformed : State b → Option (List b.Float) → Status × State b
  transformed s done = elim done [
    | none ↦ (failed, record s { fft_in = apply_window b s.bins 0 s.window s.fft_in })
    | some out ↦ (
      ok,
      publish_power b (record s {
        fft_in = out;
        acc = add_power b s.bins 0 out s.acc;
        accum_count = s.accum_count + 1;
        nsamples = 0;
      }),
    )
  ]

  transformed-IsReady :
      (s : State b) (done : Option (List b.Float))
      → s.has_plan ≡ true
      → s.bins ≤ s.step
      → 2 ≤ s.bins
      → 1 ≤ s.accum
      → (transformed s done).0 ≡ ok
      → IsReady (transformed s done).1
  transformed-IsReady s none h0 h1 h2 h3 e = cc
  transformed-IsReady s (some out) h0 h1 h2 h3 e = publish_power-IsReady _ h0 h1 h2 h3 (omega arith)

  end_of_samples-IsReady :
      (s : State b)
      → s.has_plan ≡ true
      → s.bins ≤ s.step
      → 2 ≤ s.bins
      → 1 ≤ s.accum
      → s.nsamples ≤ s.step
      → s.accum_count < s.accum
      → (end_of_samples b s).0 ≡ ok
      → IsReady (end_of_samples b s).1
  unfolding end_of_samples finish_hop
  end_of_samples-IsReady s h0 h1 h2 h3 h4 h5 =
      let P : Status × State b → Type 0 = λ r. r.0 ≡ ok → IsReady r.1 in
      if_cases P (s.nsamples == s.step) (finish_hop b s) (ok, s)
        (λ e.
          transformed-IsReady s (b.execute (apply_window b s.bins 0 s.window s.fft_in)) h0 h1 h2 h3)
        (λ e ok. record {
          planned = h0;
          hop = h1;
          some_bins = h2;
          some_accum = h3;
          within = ground arith;
          below = h5;
        })

  -- The end of a round keeps the state ready.
  round-IsReady :
      (s : State b) (c : ℕ) (xs : List (ℕ × ℕ))
      → IsReady s
      → c ≤ remaining b s
      → (end_of_samples b (take_samples b c s xs)).0 ≡ ok
      → IsReady (end_of_samples b (take_samples b c s xs)).1
  unfolding take_samples
  round-IsReady s c xs r h =
      end_of_samples-IsReady (take_samples b c s xs) r.planned r.hop r.some_bins r.some_accum
        (omega (arith, h, hop_left b s r, r.within)) r.below

  after_round :
      (fuel : ℕ) (r : Status × State b) (xs : List (ℕ × ℕ))
      → (r.0 ≡ ok → fft_loop b fuel r.1 xs ≡ feed b r.1 xs)
      → elim r.0 [ ok ↦ fft_loop b fuel r.1 xs | failed ↦ (failed, r.1) ]
        ≡ and_then b r (λ s'. feed b s' xs)
  after_round fuel (ok, s) xs h = h refl
  after_round fuel (failed, s) xs h = refl

  round_feed :
      (s : State b) (xs : List (ℕ × ℕ)) (n : ℕ)
      → IsReady s
      → 1 ≤ n
      → n ≤ remaining b s
      → n ≤ length xs
      → feed b s xs
        ≡ and_then b (end_of_samples b (take_samples b n s xs)) (λ s'. feed b s' (drop n xs))
  round_feed s xs zero r h1 h2 h3 = absurd (omega arith)
  round_feed s xs (suc c) r h1 h2 h3 = feed_block b c s xs r h2 h3

  fft_loop-feed :
      (fuel : ℕ) (s : State b) (xs : List (ℕ × ℕ))
      → IsReady s
      → length xs ≤ fuel
      → fft_loop b fuel s xs ≡ feed b s xs
  unfolding fft_loop
  fft_loop-feed zero s [] r h = unfold feed in refl
  fft_loop-feed zero s (x ∷ xs) r h = absurd (omega arith)
  fft_loop-feed (suc fuel) s [] r h = unfold feed in refl
  fft_loop-feed (suc fuel) s (x ∷ xs) r h =
      let n = round_size b s (length (x ∷ xs)) in
      let (some_taken, in_round, in_input) = round_size_lem b s (length (x ∷ xs)) r (omega arith) in
      after_round fuel (end_of_samples b (take_samples b n s (x ∷ xs))) (drop n (x ∷ xs)) (λ e.
        fft_loop-feed fuel _ (drop n (x ∷ xs)) (round-IsReady s n (x ∷ xs) r in_round e)
          (omega (arith, length-drop n (x ∷ xs), some_taken, h)))
      ∙ sym (round_feed s (x ∷ xs) n r some_taken in_round in_input)

  and_then_assoc :
      (t : Status × State b) (f g : State b → Status × State b)
      → and_then b t (λ s. and_then b (f s) g) ≡ and_then b (and_then b t f) g
  and_then_assoc (ok, s) f g = refl
  and_then_assoc (failed, s) f g = refl

  and_then_cong :
      (t : Status × State b) (f g : State b → Status × State b)
      → (t.0 ≡ ok → f t.1 ≡ g t.1)
      → and_then b t f ≡ and_then b t g
  and_then_cong (ok, s) f g h = h refl
  and_then_cong (failed, s) f g h = refl

  feed-append :
      (s : State b) (xs ys : List (ℕ × ℕ))
      → feed b s (xs ++ ys) ≡ and_then b (feed b s xs) (λ s'. feed b s' ys)
  unfolding feed
  feed-append s [] ys = refl
  feed-append s (x ∷ xs) ys =
      and_then_cong (tick b s x) (λ s'. feed b s' (xs ++ ys))
        (λ s'. and_then b (feed b s' xs) (λ s''. feed b s'' ys))
        (λ e. feed-append (tick b s x).1 xs ys)
      ∙ and_then_assoc (tick b s x) (λ s'. feed b s' xs) (λ s'. feed b s' ys)

  some_left : (s : State b) → IsReady s → 1 ≤ remaining b s
  some_left s r = ground arith

  and_then-IsReady :
      (t : Status × State b) (f : State b → Status × State b)
      → (t.0 ≡ ok → (f t.1).0 ≡ ok → IsReady (f t.1).1)
      → (and_then b t f).0 ≡ ok
      → IsReady (and_then b t f).1
  and_then-IsReady (ok, s) f h e = h refl e
  and_then-IsReady (failed, s) f h e = cc

  feed-IsReady :
      (s : State b) (xs : List (ℕ × ℕ)) → IsReady s → (feed b s xs).0 ≡ ok → IsReady (feed b s xs).1
  unfolding feed tick
  feed-IsReady s [] r e = r
  feed-IsReady s (x ∷ xs) r e =
      and_then-IsReady (tick b s x) (λ s'. feed b s' xs)
        (λ first.
          feed-IsReady (tick b s x).1 xs (round-IsReady s 1 (x ∷ []) r (some_left s r) first))
        e

  length-samples : (xs : List ℕ) → length (samples b xs) ≤ length xs
  unfolding samples
  length-samples [] = omega arith
  length-samples (i ∷ []) = omega arith
  length-samples (i ∷ q ∷ xs) = omega (arith, length-samples xs)

  samples-append :
      (xs ys : List ℕ) → length xs % 2 ≡ 0 → samples b (xs ++ ys) ≡ samples b xs ++ samples b ys
  unfolding samples
  samples-append [] ys h = refl
  samples-append (i ∷ []) ys h = absurd (omega arith)
  samples-append (i ∷ q ∷ xs) ys h = ap (λ t. (i, q) ∷ t) (samples-append xs ys (omega arith))

  process_fft-feed :
      (s : State b) (input : List ℕ)
      → IsReady s
      → length input % 2 ≡ 0
      → process_fft b s input ≡ feed b s (samples b input)
  unfolding process_fft
  process_fft-feed s input r even =
      if_false _ (failed, s) (fft_loop b (length input) s (samples b input))
        (ground (arith, r.planned))
      ∙ fft_loop-feed (length input) s (samples b input) r (length-samples input)

  -- A call of rtlsdr_server_process_fft with whole samples that succeeds, from a state with a plan,
  -- parameters in range and counters below them, leaves such a state.
  pub process_fft-IsReady :
      (s : State b) (input : List ℕ)
      → IsReady s
      → length input % 2 ≡ 0
      → (process_fft b s input).0 ≡ ok
      → IsReady (process_fft b s input).1
  process_fft-IsReady s input r even e =
      let same = process_fft-feed s input r even in
      subst⁻¹ (λ t. IsReady t.1) same
        (feed-IsReady s (samples b input) r (ap (λ t. t.0) (sym same) ∙ e))

  -- From a state with a plan, parameters in range and counters below them: however a stream of whole
  -- samples is cut into two calls of rtlsdr_server_process_fft, the second made when the first
  -- succeeds, they have the result and leave the state of one call with the whole input, spectra
  -- published on the way and a failure of the transform included.
  pub process_fft-append :
      (s : State b) (xs ys : List ℕ)
      → IsReady s
      → length xs % 2 ≡ 0
      → length ys % 2 ≡ 0
      → process_fft b s (xs ++ ys) ≡ and_then b (process_fft b s xs) (λ s'. process_fft b s' ys)
  process_fft-append s xs ys r ex ey =
      process_fft-feed s (xs ++ ys) r (omega (arith, ex, ey, length-append xs ys))
      ∙ ap (feed b s) (samples-append xs ys ex)
      ∙ feed-append s (samples b xs) (samples b ys)
      ∙ and_then_cong (feed b s (samples b xs)) (λ s'. feed b s' (samples b ys))
          (λ s'. process_fft b s' ys)
          (λ e. sym (process_fft-feed _ ys (feed-IsReady s (samples b xs) r e) ey))
      ∙ ap (λ t. and_then b t (λ s'. process_fft b s' ys)) (sym (process_fft-feed s xs r ex))
