-- ===== src/Adsb/Termination.antt =====
-- `manchester` comes to its end where an error is allowed.
use rtl_sdr.Prelude.{ℕ, zero, suc, ◌+◌, ◌-◌, ◌≤◌, ◌<◌, ◌≡◌, refl, sym, ◌∙◌, ap₂, arith, subst}
use rtl_sdr.Prelude.{
  not, if◌then◌else◌, if_cases, if_true, Option, none, some, List, length, length-set, get_or, set,
  ltb, ◌==◌,
}
use native.Mathlib.Decide.{dec_lt}
use rtl_sdr.Adsb.{
  Marks, put_bit, mark_preamble, find, mark, round, manchester_loop, manchester, preamble,
  preamble_len, bad_sample, overwrite,
}

length-mark_preamble : (left i : ℕ) (buf : List ℕ) → length (mark_preamble left i buf) ≡ length buf
unfolding mark_preamble
length-mark_preamble zero i buf = refl
length-mark_preamble (suc left) i buf = length-mark_preamble left (i + 1) _ ∙ length-set buf i 253

-- The buffer keeps its length, and the index does not go back.
pub record IsAfter (buf : List ℕ) (from : ℕ) (n : Marks) : Type 0 where
  pub same_length : length n.buf ≡ length buf
  pub forward : from ≤ n.i

find-IsAfter : (left : ℕ) (m : Marks) → IsAfter m.buf m.i (find left m)
unfolding find
find-IsAfter zero m = record { same_length = refl; forward = omega arith }
find-IsAfter (suc left) m =
    let next = find-IsAfter left (record m { i = m.i + 1 }) in
    if_cases (IsAfter m.buf m.i) (preamble m.buf m.i) _ _
      (λ e. record {
        same_length = length-mark_preamble preamble_len m.i m.buf;
        forward = omega arith;
      })
      (λ e. record { same_length = next.same_length; forward = omega (arith, next.forward) })

length-put_bit : (bit : ℕ) (m : Marks) → length (put_bit bit m).buf ≡ length m.buf
length-put_bit bit m =
    length-set (set (set m.buf (m.i + 1) overwrite) m.i overwrite) m.i2 bit
    ∙ length-set (set m.buf (m.i + 1) overwrite) m.i overwrite
    ∙ length-set m.buf (m.i + 1) overwrite

put_bit-IsAfter :
    (bit from : ℕ) (m n : Marks)
    → IsAfter (put_bit bit m).buf (m.i + 2) n
    → from ≤ m.i + 2
    → IsAfter m.buf from n
put_bit-IsAfter bit from m n h low = record {
  same_length = h.same_length ∙ length-put_bit bit m;
  forward = omega (arith, h.forward, low);
}

-- A round of the loop that marks, with what the rounds behind it give.
abbrev marked : ℕ → Marks → ℕ → Marks → Marks → Marks
marked allowed m bit good forgiven =
    if not (ltb m.i (length m.buf - 1))
    then m
    else if not (bit == bad_sample)
    then good
    else if ltb allowed (m.errors + 1)
    then record m {
      a = get_or m.buf m.i 0;
      b = get_or m.buf (m.i + 1) 0;
      errors = m.errors + 1;
      buf = set m.buf m.i2 bad_sample;
    }
    else forgiven

marked-IsAfter :
    (allowed : ℕ) (m : Marks) (bit : ℕ) (good forgiven : Marks)
    → IsAfter m.buf m.i good
    → IsAfter m.buf m.i forgiven
    → IsAfter m.buf m.i (marked allowed m bit good forgiven)
marked-IsAfter allowed m bit good forgiven hg hf =
    if_cases (IsAfter m.buf m.i) (not (ltb m.i (length m.buf - 1))) m _
      (λ e. record { same_length = refl; forward = omega arith })
      (λ e.
        if_cases (IsAfter m.buf m.i) (not (bit == bad_sample)) good _ (λ e1. hg)
          (λ e1.
            if_cases (IsAfter m.buf m.i) (ltb allowed (m.errors + 1)) _ forgiven
              (λ e2. record {
                same_length = length-set m.buf m.i2 bad_sample;
                forward = omega arith;
              })
              (λ e2. hf)))

-- With an error still allowed, a round goes on.
marked_moves :
    (allowed : ℕ) (m : Marks) (bit : ℕ) (good forgiven : Marks)
    → m.i < length m.buf - 1
    → m.errors < allowed
    → IsAfter m.buf (m.i + 2) good
    → IsAfter m.buf (m.i + 2) forgiven
    → IsAfter m.buf (m.i + 2) (marked allowed m bit good forgiven)
marked_moves allowed m bit good forgiven low left hg hf =
    if_cases (IsAfter m.buf (m.i + 2)) (not (ltb m.i (length m.buf - 1))) m _
      (λ e. absurd (ground arith))
      (λ e.
        if_cases (IsAfter m.buf (m.i + 2)) (not (bit == bad_sample)) good _ (λ e1. hg)
          (λ e1.
            if_cases (IsAfter m.buf (m.i + 2)) (ltb allowed (m.errors + 1)) _ forgiven
              (λ e2. absurd (ground arith)) (λ e2. hf)))

-- The variables behind a bit, and behind a forgiven error.
abbrev behind : Marks → Marks
behind m = record m { a = get_or m.buf m.i 0; b = get_or m.buf (m.i + 1) 0 }

abbrev erred : Marks → Marks
erred m = record m { a = 0; b = 65535; errors = m.errors + 1 }

mark-IsAfter :
    (fuel quality allowed : ℕ) (m : Marks) → IsAfter m.buf m.i (mark fuel quality allowed m)
unfolding mark
mark-IsAfter zero quality allowed m = record { same_length = refl; forward = omega arith }
mark-IsAfter (suc fuel) quality allowed m =
    marked-IsAfter allowed m _ _ _
      (put_bit-IsAfter _ m.i (behind m) _ (mark-IsAfter fuel quality allowed (put_bit _ (behind m)))
        (omega arith))
      (put_bit-IsAfter _ m.i (erred m) _ (mark-IsAfter fuel quality allowed (put_bit _ (erred m)))
        (omega arith))

mark_moves :
    (fuel quality allowed : ℕ) (m : Marks)
    → m.i < length m.buf - 1
    → m.errors < allowed
    → IsAfter m.buf (m.i + 2) (mark (suc fuel) quality allowed m)
unfolding mark
mark_moves fuel quality allowed m low left =
    marked_moves allowed m _ _ _ low left
      (put_bit-IsAfter _ (m.i + 2) (behind m) _
        (mark-IsAfter fuel quality allowed (put_bit _ (behind m))) (omega arith))
      (put_bit-IsAfter _ (m.i + 2) (erred m) _
        (mark-IsAfter fuel quality allowed (put_bit _ (erred m))) (omega arith))

round_marks :
    (fuel quality allowed : ℕ) (m : Marks)
    → m.i < length m.buf - 1
    → m.errors < allowed
    → 1 ≤ fuel
    → IsAfter m.buf (m.i + 2) (mark fuel quality allowed m)
round_marks zero quality allowed m low left h = absurd (omega arith)
round_marks (suc fuel) quality allowed m low left h = mark_moves fuel quality allowed m low left

round_moves :
    (quality allowed : ℕ) (m : Marks)
    → m.i < length m.buf - 1
    → 1 ≤ allowed
    → IsAfter m.buf (m.i + 1) (round quality allowed m)
unfolding round
round_moves quality allowed m low some_allowed =
    let f = find (length m.buf - preamble_len - m.i) m in
    let found = find-IsAfter (length m.buf - preamble_len - m.i) m in
    let start : Marks = record f { i2 = f.i; errors = 0 } in
    let r = mark-IsAfter (length f.buf) quality allowed start in
    elim (dec_lt f.i (length f.buf - 1)) [
      | yes inside ↦
          (let moved =
              round_marks (length f.buf) quality allowed start inside some_allowed (omega arith) in
            record {
              same_length = moved.same_length ∙ found.same_length;
              forward = omega (arith, moved.forward, found.forward);
            })
      | no outside ↦ record {
        same_length = r.same_length ∙ found.same_length;
        forward = omega (arith, r.forward, outside, low, found.same_length);
      }
    ]

-- The loop has come to its end with this result.
abbrev Ends : ℕ → Option (List ℕ) → Type 0
Ends n o = (out : List ℕ) × (o ≡ some out) × (length out ≡ n)

manchester_loop-Ends :
    (fuel quality allowed : ℕ) (m : Marks)
    → 1 ≤ allowed
    → length m.buf ≤ fuel + m.i + 1
    → Ends (length m.buf) (manchester_loop fuel quality allowed m)
unfolding manchester_loop
manchester_loop-Ends zero quality allowed m h k =
    if_cases (Ends (length m.buf)) (ltb m.i (length m.buf - 1)) none (some m.buf)
      (λ e. absurd (ground arith)) (λ e. (m.buf, refl, refl))
manchester_loop-Ends (suc fuel) quality allowed m h k =
    if_cases (Ends (length m.buf)) (ltb m.i (length m.buf - 1)) _ (some m.buf)
      (λ e.
        (let r = round_moves quality allowed m (ground arith) h in
          subst (λ n. Ends n (manchester_loop fuel quality allowed (round quality allowed m)))
            r.same_length
            (manchester_loop-Ends fuel quality allowed (round quality allowed m) h
              (omega (arith, r.same_length, r.forward, k)))))
      (λ e. (m.buf, refl, refl))

-- More fuel than a round for each sample changes nothing in the loop that marks.
mark_fuel :
    (f g quality allowed : ℕ) (m : Marks)
    → length m.buf ≤ f + m.i
    → length m.buf ≤ g + m.i
    → mark f quality allowed m ≡ mark g quality allowed m
unfolding mark
mark_fuel zero zero quality allowed m hf hg = refl
mark_fuel zero (suc g) quality allowed m hf hg =
    sym (if_true (not (ltb m.i (length m.buf - 1))) m _ (ground arith))
mark_fuel (suc f) zero quality allowed m hf hg =
    if_true (not (ltb m.i (length m.buf - 1))) m _ (ground arith)
mark_fuel (suc f) (suc g) quality allowed m hf hg =
    ap₂ (marked allowed m _)
      (mark_fuel f g quality allowed (put_bit _ (behind m)) (omega (arith, length-put_bit _ m, hf))
        (omega (arith, length-put_bit _ m, hg)))
      (mark_fuel f g quality allowed (put_bit _ (erred m)) (omega (arith, length-put_bit _ m, hf))
        (omega (arith, length-put_bit _ m, hg)))

-- With one error allowed or more, manchester comes to its end, at any quality and any samples: a
-- round of its outer loop for each sample is enough, any more rounds give a result too, and the
-- buffer keeps its length.
pub manchester_total :
    (fuel quality allowed : ℕ) (buf : List ℕ)
    → 1 ≤ allowed
    → length buf ≤ fuel
    → (out : List ℕ) × (manchester fuel quality allowed buf ≡ some out) × (length out ≡ length buf)
unfolding manchester
manchester_total fuel quality allowed buf h k =
    manchester_loop-Ends fuel quality allowed _ h (omega (arith, k))
