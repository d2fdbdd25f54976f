-- ===== src/Dsp/Filter/Even.antt =====
-- The output of the filters holds whole samples, I and Q.
use rtl_sdr.Prelude.{
  ℕ, ◌+◌, ◌%◌, ◌≤◌, ◌≡◌, refl, arith, subst⁻¹, if_cases, none, some, List, [], ◌∷◌, length,
  length-append, ltb, ℤ,
}
use rtl_sdr.Dsp.Filter.{Floats, Filter, State, Pair, mix, fire, cascade, stage_run, process, pairs}
use rtl_sdr.Dsp.Filter.Tick.{IsReady, tick, feed, continue}
use rtl_sdr.Dsp.Filter.Stream.{process-feed}

module _ (fl : Floats) where
  cascade_even : (sts : List (Filter fl.Single)) (p : Pair fl) → length (cascade fl sts p).1 % 2 ≡ 0
  unfolding cascade
  cascade_even [] p = refl
  cascade_even (st ∷ sts) p =
      let run = stage_run fl st p in
      elim run.1 as (λ o. length (continue fl run.0 sts o).1 % 2 ≡ 0) [
        | none ↦ refl
        | some next ↦ cascade_even sts next
      ]

  tick_even : (d : State fl) (x : ℕ × ℕ) → length (tick fl d x).1 % 2 ≡ 0
  unfolding tick fire
  tick_even d x =
      if_cases (λ (r : State fl × List ℤ). length r.1 % 2 ≡ 0)
        (ltb (d.first.counter + 1) d.first.decimation) _ _ (λ e. refl)
        (λ e. cascade_even (mix fl d x).later _)

  feed_even : (d : State fl) (xs : List (ℕ × ℕ)) → length (feed fl d xs).1 % 2 ≡ 0
  unfolding feed
  feed_even d [] = refl
  feed_even d (x ∷ xs) = omega (
    arith,
    length-append (tick fl d x).1 (feed fl (tick fl d x).0 xs).1,
    tick_even d x,
    feed_even (tick fl d x).0 xs,
  )

  -- A call with whole samples and room for them writes whole samples.
  pub process_even :
      (d : State fl) (input : List ℕ) (capacity : ℕ)
      → IsReady d
      → length input % 2 ≡ 0
      → length input ≤ capacity
      → length (process fl d input capacity).2 % 2 ≡ 0
  process_even d input capacity r even room =
      subst⁻¹ (λ t. length t.2 % 2 ≡ 0) (process-feed fl d input capacity r even room)
        (feed_even d (pairs fl input))
