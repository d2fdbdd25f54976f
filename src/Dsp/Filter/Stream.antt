-- ===== src/Dsp/Filter/Stream.antt =====
-- `rtlsdr_dsp_process` as a stream: calls that follow each other, the room for the output, and
-- `rtlsdr_dsp_reset`.
use rtl_sdr.Prelude.{ℕ, ◌+◌, ◌*◌, ◌%◌, ◌≤◌, ◌≡◌, refl, ◌∙◌, ap, ap₂, arith, map}
use rtl_sdr.Prelude.{
  Bool, true, false, not, ◌||◌, ◌==◌, or_false, if_false, if_true, Bool-cases, inl, inr, List, [],
  ◌∷◌, ◌++◌, length, length-append, ltb, if◌then◌else◌, ℤ, some, none, Option, subst⁻¹, Status, ok,
  failed,
}
use rtl_sdr.Dsp.Filter.{
  Floats, Filter, State, Pair, mix, set_counter, fire, cascade, stage_run, stage_fir, process_loop,
  process, pairs, reset, clear, put_sample,
}
use rtl_sdr.Dsp.Filter.Tick.{
  IsReady, tick, feed, feed-append, feed-IsReady, length-feed, length-cascade, continue,
  tick-eq_wait, tick-eq_fire,
}
use rtl_sdr.Dsp.Filter.Process.{process_loop-feed}
use native.Mathlib.Decide.{dec_lt}

module _ (fl : Floats) where
  pub pairs-append :
      (xs ys : List ℕ) → length xs % 2 ≡ 0 → pairs fl (xs ++ ys) ≡ pairs fl xs ++ pairs fl ys
  unfolding pairs
  pairs-append [] ys h = refl
  pairs-append (i ∷ []) ys h = absurd (omega arith)
  pairs-append (i ∷ q ∷ xs) ys h = ap (λ t. (i, q) ∷ t) (pairs-append xs ys (omega arith))

  pub length-pairs : (xs : List ℕ) → length (pairs fl xs) * 2 ≤ length xs
  unfolding pairs
  length-pairs [] = omega arith
  length-pairs (i ∷ []) = omega arith
  length-pairs (i ∷ q ∷ xs) = omega (arith, length-pairs xs)

  pub process-feed :
      (d : State fl) (input : List ℕ) (capacity : ℕ)
      → IsReady d
      → length input % 2 ≡ 0
      → length input ≤ capacity
      → process fl d input capacity
        ≡ (ok, (feed fl d (pairs fl input)).0, (feed fl d (pairs fl input)).1)
  unfolding process
  process-feed d input capacity r even room =
      ap
        (λ t.
          if not (length input % 2 == 0) || ltb capacity (length input)
          then (failed, d, [])
          else (ok, t.0, t.1))
        (process_loop-feed fl (length input + 1) d (pairs fl input) r
          (omega (arith, length-pairs input)))
      ∙ if_false (not (length input % 2 == 0) || ltb capacity (length input)) (failed, d, [])
          (ok, (feed fl d (pairs fl input)).0, (feed fl d (pairs fl input)).1)
          (or_false (not (length input % 2 == 0)) (ltb capacity (length input)) (ground arith)
            (ground arith))

  pub process-eq_failed :
      (d : State fl) (input : List ℕ) (capacity : ℕ)
      → ¬ length input ≤ capacity
      → process fl d input capacity ≡ (failed, d, [])
  unfolding process
  process-eq_failed d input capacity h =
      let p = process_loop fl (length input + 1) d (pairs fl input) in
      if_true (not (length input % 2 == 0) || ltb capacity (length input)) (failed, d, [])
        (ok, p.0, p.1) (ground arith)

  -- From a state whose first stage has its counter below its decimation: however a stream of
  -- samples is cut into two calls of rtlsdr_dsp_process, with inputs of even length and room for
  -- as much output, both succeed, and their outputs one behind the other and the state at the
  -- end are those of one call with the whole input.
  pub process-append :
      (d : State fl) (xs ys : List ℕ) (cx cy c : ℕ)
      → IsReady d
      → length xs % 2 ≡ 0
      → length ys % 2 ≡ 0
      → length xs ≤ cx
      → length ys ≤ cy
      → length xs + length ys ≤ c
      → let (s1, d1, out1) = process fl d xs cx in
        let (s2, d2, out2) = process fl d1 ys cy in
        (s1 ≡ ok) × (s2 ≡ ok) × (process fl d (xs ++ ys) c ≡ (ok, d2, out1 ++ out2))
  process-append d xs ys cx cy c r ex ey hx hy hc =
      let f1 = feed fl d (pairs fl xs) in
      let f2 = feed fl f1.0 (pairs fl ys) in
      let e1 = process-feed d xs cx r ex hx in
      let e2 = process-feed f1.0 ys cy (feed-IsReady fl d (pairs fl xs) r) ey hy in
      let size = length-append xs ys in
      let e3 = process-feed d (xs ++ ys) c r (omega (arith, size, ex, ey)) (omega (arith, size)) in
      let whole = process fl d (xs ++ ys) c in
      let cut =
        ap (feed fl d) (pairs-append xs ys ex) ∙ feed-append fl d (pairs fl xs) (pairs fl ys) in
      subst⁻¹
        (λ t.
          (t.0 ≡ ok)
          × ((process fl t.1 ys cy).0 ≡ ok)
          × (whole ≡ (ok, (process fl t.1 ys cy).1, t.2 ++ (process fl t.1 ys cy).2)))
        e1
        (subst⁻¹ (λ u. (ok ≡ ok) × (u.0 ≡ ok) × (whole ≡ (ok, u.1, f1.1 ++ u.2))) e2
          (refl, refl, e3 ∙ ap (λ t. (ok, t.0, t.1)) cut))

  after_two : (d : State fl) (x : ℕ × ℕ) → length (tick fl d x).1 ≤ 2
  after_two d x = elim (dec_lt (d.first.counter + 1) d.first.decimation) [
    | yes h ↦ subst⁻¹ (λ t. length t.1 ≤ 2) (tick-eq_wait fl d x h) (omega arith)
    | no h ↦
        subst⁻¹ (λ t. length t.1 ≤ 2) (tick-eq_fire fl d x (omega (arith, h)))
          (let e = set_counter fl 0 (mix fl d x) in
            unfold fire in length-cascade fl e.later (stage_fir fl e.first))
  ]

  length-feed_two : (d : State fl) (xs : List (ℕ × ℕ)) → length (feed fl d xs).1 ≤ 2 * length xs
  unfolding feed
  length-feed_two d [] = omega arith
  length-feed_two d (x ∷ xs) =
      let d1 = (tick fl d x).0 in
      omega (
        arith,
        length-append (tick fl d x).1 (feed fl d1 xs).1,
        after_two d x,
        length-feed_two d1 xs,
      )

  -- From a state whose first stage has its counter below its decimation, a call of
  -- rtlsdr_dsp_process with an input of even length and room for as much writes no more samples
  -- than the output has room for; times the decimation of the first stage they are at most twice
  -- its counter before the call plus the length of the input.
  pub length-process :
      (d : State fl) (input : List ℕ) (capacity : ℕ)
      → IsReady d
      → length input % 2 ≡ 0
      → length input ≤ capacity
      → let output = (process fl d input capacity).2 in
        (length output ≤ capacity)
        × (length output * d.first.decimation ≤ 2 * d.first.counter + length input)
  length-process d input capacity r even room =
      let xs = pairs fl input in
      subst⁻¹
        (λ t.
          (length t.2 ≤ capacity)
          × (length t.2 * d.first.decimation ≤ 2 * d.first.counter + length input))
        (process-feed d input capacity r even room)
        (
          omega (arith, length-feed_two d xs, length-pairs input),
          omega (arith, length-feed fl d xs r, length-pairs input),
        )

  clear-stage_run :
      (st : Filter fl.Single) (p : Pair fl) → clear fl (stage_run fl st p).0 ≡ clear fl st
  unfolding stage_run
  clear-stage_run st (in_i, in_q) = elim (Bool-cases (ltb (st.counter + 1) st.decimation)) [
    | inl e ↦ ap (λ b. clear fl (either b).0) e
    | inr e ↦ ap (λ b. clear fl (either b).0) e
  ]
    where
      waited : Filter fl.Single
      waited = record (put_sample fl st in_i in_q) { counter = st.counter + 1 }

      fired : Filter fl.Single
      fired = record (put_sample fl st in_i in_q) { counter = 0 }

      given : Option (Pair fl)
      given = some (stage_fir fl fired)

      either : Bool → Filter fl.Single × Option (Pair fl)
      either b = if b then (waited, none) else (fired, given)

  clear-cascade :
      (sts : List (Filter fl.Single)) (p : Pair fl)
      → map (clear fl) (cascade fl sts p).0 ≡ map (clear fl) sts
  unfolding cascade
  clear-cascade [] p = refl
  clear-cascade (st ∷ sts) p =
      let run = stage_run fl st p in
      elim run.1 as (λ o. map (clear fl) (continue fl run.0 sts o).0 ≡ map (clear fl) (st ∷ sts)) [
        | none ↦ ap (λ t. t ∷ map (clear fl) sts) (clear-stage_run st p)
        | some next ↦ ap₂ (λ t ts. t ∷ ts) (clear-stage_run st p) (clear-cascade sts next)
      ]

  reset-tick : (d : State fl) (x : ℕ × ℕ) → reset fl (tick fl d x).0 ≡ reset fl d
  reset-tick d x = elim (dec_lt (d.first.counter + 1) d.first.decimation) [
    | yes h ↦ ap (λ t. reset fl t.0) (tick-eq_wait fl d x h) ∙ (unfold reset mix in refl)
    | no h ↦
        ap (λ t. reset fl t.0) (tick-eq_fire fl d x (omega (arith, h)))
        ∙ (let e = set_counter fl 0 (mix fl d x) in
            unfold reset fire mix in
            ap (λ l. record (reset fl d) { later = l })
              (clear-cascade d.later (stage_fir fl e.first)))
  ]

  reset-feed : (d : State fl) (xs : List (ℕ × ℕ)) → reset fl (feed fl d xs).0 ≡ reset fl d
  unfolding feed
  reset-feed d [] = refl
  reset-feed d (x ∷ xs) = reset-feed (tick fl d x).0 xs ∙ reset-tick d x

  abbrev checked : Bool → State fl → State fl → List ℤ → Status × State fl × List ℤ
  checked b d e o = if b then (failed, d, []) else (ok, e, o)

  reset-checked :
      (b : Bool) (d e : State fl) (o : List ℤ)
      → reset fl e ≡ reset fl d
      → reset fl (checked b d e o).1 ≡ reset fl d
  reset-checked true d e o h = refl
  reset-checked false d e o h = h

  -- rtlsdr_dsp_reset forgets what rtlsdr_dsp_process has done: from a state whose first stage
  -- has its counter below its decimation, after a call with any input, successful or not, it
  -- leaves the state that it would have left before the call.
  pub reset-process :
      (d : State fl) (input : List ℕ) (capacity : ℕ)
      → IsReady d
      → reset fl (process fl d input capacity).1 ≡ reset fl d
  unfolding process
  reset-process d input capacity r =
      let xs = pairs fl input in
      let p = process_loop fl (length input + 1) d xs in
      reset-checked (not (length input % 2 == 0) || ltb capacity (length input)) d p.0 p.1 (
        ap (λ t. reset fl t.0)
          (process_loop-feed fl (length input + 1) d xs r (omega (arith, length-pairs input)))
        ∙ reset-feed d xs)
