-- ===== src/Dsp/Filter/Tick.antt =====
-- The filter as a machine that takes one sample at a time, the reference for the loops by blocks.
use rtl_sdr.Prelude.{ℕ, ◌+◌, ◌*◌, ◌≤◌, ◌<◌, ◌≡◌, refl, sym, ◌∙◌, ap, arith}
use rtl_sdr.Prelude.{
  List, [], ◌∷◌, ◌++◌, append_assoc, length, length-append, ltb, if◌then◌else◌, ℤ, some, none,
  Option, subst⁻¹, mul_mono,
}
use native.Mathlib.Decide.{dec_lt}
use rtl_sdr.Dsp.Filter.{
  Floats, Filter, Dsp, State, mix, set_counter, fire, cascade, stage_run, Pair, stage_fir,
}

-- The counter of the first stage is below its decimation, as `stage_init` and every call leave it.
abbrev pub IsReady : {A B : Type 0} → Dsp A B → Type 0
IsReady d = d.first.counter < d.first.decimation

module _ (fl : Floats) where
  unfoldable pub tick : State fl → ℕ × ℕ → State fl × List ℤ
  tick d x =
      let d1 = mix fl d x in
      if ltb (d.first.counter + 1) d.first.decimation
      then (set_counter fl (d.first.counter + 1) d1, [])
      else fire fl (set_counter fl 0 d1)

  -- What goes before what a machine gives.
  abbrev pub after : List ℤ → State fl × List ℤ → State fl × List ℤ
  after out (d, outs) = (d, out ++ outs)

  unfoldable pub feed : State fl → List (ℕ × ℕ) → State fl × List ℤ
  feed d [] = (d, [])
  feed d (x ∷ xs) = after (tick d x).1 (feed (tick d x).0 xs)

  pub feed-append :
      (d : State fl) (xs ys : List (ℕ × ℕ))
      → feed d (xs ++ ys) ≡ after (feed d xs).1 (feed (feed d xs).0 ys)
  unfolding feed
  feed-append d [] ys = refl
  feed-append d (x ∷ xs) ys =
      ap (after (tick d x).1) (feed-append (tick d x).0 xs ys)
      ∙ ap (λ o. ((feed (feed (tick d x).0 xs).0 ys).0, o))
          (sym (append_assoc (tick d x).1 (feed (tick d x).0 xs).1 _))

  pub tick-eq_wait :
      (d : State fl) (x : ℕ × ℕ)
      → d.first.counter + 1 < d.first.decimation
      → tick d x ≡ (set_counter fl (d.first.counter + 1) (mix fl d x), [])
  unfolding tick
  tick-eq_wait d x h = ground arith

  pub tick-eq_fire :
      (d : State fl) (x : ℕ × ℕ)
      → d.first.decimation ≤ d.first.counter + 1
      → tick d x ≡ fire fl (set_counter fl 0 (mix fl d x))
  unfolding tick
  tick-eq_fire d x h = ground arith

  -- The rest of the cascade behind a stage.
  abbrev pub continue :
      Filter fl.Single
      → List (Filter fl.Single)
      → Option (Pair fl)
      → List (Filter fl.Single) × List ℤ
  continue st sts none = (st ∷ sts, [])
  continue st sts (some next) = (st ∷ (cascade fl sts next).0, (cascade fl sts next).1)

  pub length-cascade :
      (sts : List (Filter fl.Single)) (p : Pair fl) → length (cascade fl sts p).1 ≤ 2
  unfolding cascade
  length-cascade [] p = omega arith
  length-cascade (st ∷ sts) p =
      let run = stage_run fl st p in
      elim run.1 as (λ o. length (continue run.0 sts o).1 ≤ 2) [
        | none ↦ omega arith
        | some next ↦ length-cascade sts next
      ]

  -- What a tick may give, and what is left in the counter.
  abbrev Paid : State fl → State fl × List ℤ → Type 0
  Paid d (d1, out) =
      (d1.first.decimation ≡ d.first.decimation)
      × (d1.first.counter < d1.first.decimation)
      × (length out * d.first.decimation + 2 * d1.first.counter ≤ 2 * (d.first.counter + 1))

  fire-Paid :
      (d : State fl) (x : ℕ × ℕ)
      → IsReady d
      → d.first.decimation ≤ d.first.counter + 1
      → Paid d (fire fl (set_counter fl 0 (mix fl d x)))
  unfolding mix fire
  fire-Paid d x r h =
      let e = set_counter fl 0 (mix fl d x) in
      let out = length (cascade fl e.later (stage_fir fl e.first)).1 in
      let small = length-cascade e.later (stage_fir fl e.first) in
      (refl, omega arith, omega (arith, mul_mono out 2 d.first.decimation small, r, h))

  wait-Paid :
      (d : State fl) (x : ℕ × ℕ)
      → d.first.counter + 1 < d.first.decimation
      → Paid d (set_counter fl (d.first.counter + 1) (mix fl d x), [])
  unfolding mix
  wait-Paid d x h = (refl, h, omega arith)

  pub tick-Paid : (d : State fl) (x : ℕ × ℕ) → IsReady d → Paid d (tick d x)
  tick-Paid d x r = elim (dec_lt (d.first.counter + 1) d.first.decimation) [
    | yes h ↦ subst⁻¹ (Paid d) (tick-eq_wait d x h) (wait-Paid d x h)
    | no h ↦
        subst⁻¹ (Paid d) (tick-eq_fire d x (omega (arith, h))) (fire-Paid d x r (omega (arith, h)))
  ]

  pub feed-IsReady : (d : State fl) (xs : List (ℕ × ℕ)) → IsReady d → IsReady (feed d xs).0
  unfolding feed
  feed-IsReady d [] r = r
  feed-IsReady d (x ∷ xs) r = feed-IsReady (tick d x).0 xs (tick-Paid d x r).1

  -- Each sample of the output is paid by the samples of the input.
  pub length-feed :
      (d : State fl) (xs : List (ℕ × ℕ))
      → IsReady d
      → length (feed d xs).1 * d.first.decimation ≤ 2 * (d.first.counter + length xs)
  unfolding feed
  length-feed d [] r = omega arith
  length-feed d (x ∷ xs) r =
      let d1 = (tick d x).0 in
      let out = (tick d x).1 in
      let more = (feed d1 xs).1 in
      let (same, ready, paid) = tick-Paid d x r in
      let rest = length-feed d1 xs ready in
      let whole = ap (λ n. n * d.first.decimation) (length-append out more) in
      omega (arith, whole, rest, paid, ap (λ n. length more * n) same)
