-- ===== src/Dsp/Filter/Process.antt =====
-- The loops by blocks of src/rtl_dsp.c against the machine that takes one sample at a time.
use rtl_sdr.Prelude.{ℕ, zero, suc, ◌+◌, ◌-◌, ◌≤◌, ◌<◌, ◌≡◌, refl, sym, ◌∙◌, ap, arith}
use rtl_sdr.Prelude.{
  Bool, true, false, not, ◌==◌, ap₂, List, [], ◌∷◌, ◌++◌, length, ltb, if◌then◌else◌, ℤ,
}
use rtl_sdr.Dsp.Filter.{Floats, State, mix, set_counter, fire, block, stage1_next, process_loop}
use rtl_sdr.Dsp.Filter.Tick.{IsReady, feed, after, tick-eq_wait, tick-eq_fire}
use native.Mathlib.Decide.{dec_lt}

module _ (fl : Floats) where
  abbrev with_counter : ℕ → State fl × List (ℕ × ℕ) → State fl × List (ℕ × ℕ)
  with_counter c (d, rest) = (set_counter fl c d, rest)

  block_counter :
      (n c : ℕ) (d : State fl) (xs : List (ℕ × ℕ))
      → block fl n (set_counter fl c d) xs ≡ with_counter c (block fl n d xs)
  unfolding block mix
  block_counter zero c d xs = refl
  block_counter (suc n) c d [] = refl
  block_counter (suc n) c d (x ∷ xs) = block_counter n c (mix fl d x) xs

  feed-eq_wait :
      (d : State fl) (x : ℕ × ℕ) (xs : List (ℕ × ℕ))
      → d.first.counter + 1 < d.first.decimation
      → feed fl d (x ∷ xs) ≡ feed fl (set_counter fl (d.first.counter + 1) (mix fl d x)) xs
  unfolding feed
  feed-eq_wait d x xs h = ap (λ t. after fl t.1 (feed fl t.0 xs)) (tick-eq_wait fl d x h)

  -- Where the input ends before the counter is full.
  feed-eq_short :
      (d : State fl) (xs : List (ℕ × ℕ))
      → d.first.counter + length xs < d.first.decimation
      → feed fl d xs
        ≡ (set_counter fl (d.first.counter + length xs) (block fl (length xs) d xs).0, [])
  unfolding feed block mix
  feed-eq_short d [] h =
      ap (λ c. (set_counter fl c d, [])) {x = d.first.counter} {y = d.first.counter + 0}
        (omega arith)
  feed-eq_short d (x ∷ xs) h =
      let e = set_counter fl (d.first.counter + 1) (mix fl d x) in
      feed-eq_wait d x xs (omega arith)
      ∙ feed-eq_short e xs (omega arith)
      ∙ ap (λ t. (set_counter fl (d.first.counter + 1 + length xs) t.0, []))
          (block_counter (length xs) (d.first.counter + 1) (mix fl d x) xs)
      ∙ ap (λ c. (set_counter fl c (block fl (length xs) (mix fl d x) xs).0, [])) (omega arith)

  -- What comes after a full block.
  abbrev burst : State fl × List (ℕ × ℕ) → State fl × List ℤ
  burst (b, rest) = let (d2, out) = fire fl (set_counter fl 0 b) in after fl out (feed fl d2 rest)

  feed-eq_full :
      (n : ℕ) (d : State fl) (xs : List (ℕ × ℕ))
      → d.first.counter + suc n ≡ d.first.decimation
      → suc n ≤ length xs
      → feed fl d xs ≡ burst (block fl (suc n) d xs)
  unfolding feed block mix
  feed-eq_full n d [] h k = absurd (omega arith)
  feed-eq_full zero d (x ∷ xs) h k =
      ap (λ t. after fl t.1 (feed fl t.0 xs)) (tick-eq_fire fl d x (omega arith))
  feed-eq_full (suc n) d (x ∷ xs) h k =
      let e = set_counter fl (d.first.counter + 1) (mix fl d x) in
      feed-eq_wait d x xs (omega arith)
      ∙ feed-eq_full n e xs (omega arith) (omega arith)
      ∙ ap burst (block_counter (suc n) (d.first.counter + 1) (mix fl d x) xs)

  -- One round of the loop, from what `stage1_next` gives.
  abbrev round : ℕ → Bool × State fl × List (ℕ × ℕ) → State fl × List ℤ
  round fuel (fired, d1, rest) =
      let (d2, output) = fire fl d1 in
      let (d3, outputs) = process_loop fl fuel d2 rest in
      if fired then (d3, output ++ outputs) else (d1, [])

  -- `stage1_next` at its `count`.
  abbrev next_with : State fl → List (ℕ × ℕ) → ℕ → Bool × State fl × List (ℕ × ℕ)
  next_with d input count =
      let (after, rest) = block fl count d input in
      let counter = d.first.counter + count in
      if length input == 0
      then (false, d, input)
      else if not (counter == d.first.decimation)
      then (false, set_counter fl counter after, rest)
      else (true, set_counter fl 0 after, rest)

  abbrev count_of : State fl → List (ℕ × ℕ) → ℕ
  count_of d input =
      let full = d.first.decimation - d.first.counter in
      if ltb (length input) full then length input else full

  next_with_lem :
      {A : Type 0} (b c : Bool) (x y z : A) {b' c' : Bool}
      → b ≡ b'
      → c ≡ c'
      → (if b then x else if not c then y else z) ≡ (if b' then x else if not c' then y else z)
  next_with_lem b c x y z e f = ap₂ (λ b c. if b then x else if not c then y else z) e f

  stage1_next-eq_short :
      (d : State fl) (xs : List (ℕ × ℕ))
      → d.first.counter + length xs < d.first.decimation
      → (rest : List (ℕ × ℕ)) × (stage1_next fl d xs ≡ (false, (feed fl d xs).0, rest))
        × ((feed fl d xs).1 ≡ [])
  unfolding stage1_next
  stage1_next-eq_short d [] h = ([], (unfold feed in refl), (unfold feed in refl))
  stage1_next-eq_short d (x ∷ xs) h =
      let input = x ∷ xs in
      let n = length input in
      let (b, rest) = block fl n d input in
      let e = feed-eq_short d input h in
      (
        rest,
        ap (next_with d input) {x = count_of d input} {y = n} (ground arith)
            ∙ next_with_lem (n == 0) (d.first.counter + n == d.first.decimation) (false, d, input)
                (false, set_counter fl (d.first.counter + n) b, rest)
                (true, set_counter fl 0 b, rest) {b' = false} {c' = false} (ground arith)
                (ground arith)
            ∙ ap (λ t. (false, t.0, rest)) (sym e),
        ap (λ t. t.1) e,
      )

  stage1_next-eq_full :
      (n : ℕ) (d : State fl) (xs : List (ℕ × ℕ))
      → d.first.counter + suc n ≡ d.first.decimation
      → suc n ≤ length xs
      → stage1_next fl d xs
        ≡ (true, set_counter fl 0 (block fl (suc n) d xs).0, (block fl (suc n) d xs).1)
  unfolding stage1_next
  stage1_next-eq_full n d xs h k =
      let (b, rest) = block fl (suc n) d xs in
      ap (next_with d xs) {x = count_of d xs} {y = suc n} (ground arith)
      ∙ next_with_lem (length xs == 0) (d.first.counter + suc n == d.first.decimation)
          (false, d, xs) (false, set_counter fl (d.first.counter + suc n) b, rest)
          (true, set_counter fl 0 b, rest) {b' = false} {c' = true} (ground arith) (ground arith)

  length-block :
      (n : ℕ) (d : State fl) (xs : List (ℕ × ℕ))
      → n ≤ length xs
      → (length (block fl n d xs).1 + n ≡ length xs)
        × ((block fl n d xs).0.first.decimation ≡ d.first.decimation)
  unfolding block mix
  length-block zero d xs h = (omega arith, refl)
  length-block (suc n) d [] h = absurd (omega arith)
  length-block (suc n) d (x ∷ xs) h =
      let p = length-block n (mix fl d x) xs (omega arith) in (omega (arith, p.0), p.1)

  -- With more fuel than samples, the loop by blocks does what the machine does sample by sample.
  pub process_loop-feed :
      (fuel : ℕ) (d : State fl) (xs : List (ℕ × ℕ))
      → IsReady d
      → length xs < fuel
      → process_loop fl fuel d xs ≡ feed fl d xs
  unfolding process_loop fire
  process_loop-feed zero d xs r h = absurd (omega arith)
  process_loop-feed (suc fuel) d xs r h =
      elim (dec_lt (d.first.counter + length xs) d.first.decimation) [
        | yes short ↦
            (let (rest, e, none_out) = stage1_next-eq_short d xs short in
              ap (round fuel) e ∙ ap (λ o. ((feed fl d xs).0, o)) (sym none_out))
        | no full ↦
            (let n = d.first.decimation - d.first.counter - 1 in
              let here : d.first.counter + suc n ≡ d.first.decimation = omega arith in
              let room : suc n ≤ length xs = omega (arith, full) in
              let (b, rest) = block fl (suc n) d xs in
              let sizes = length-block (suc n) d xs room in
              let d1 = set_counter fl 0 b in
              ap (round fuel) (stage1_next-eq_full n d xs here room)
              ∙ ap (after fl (fire fl d1).1) (
                  process_loop-feed fuel (fire fl d1).0 rest (omega (arith, sizes, r))
                    (omega (arith, sizes)))
              ∙ sym (feed-eq_full n d xs here room))
      ]
