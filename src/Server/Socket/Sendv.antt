-- ===== src/Server/Socket/Sendv.antt =====
-- `rtlsdr_stream_sendv` sends its vectors as one sequence of bytes.
use rtl_sdr.Prelude.{
  ℕ, zero, suc, ◌+◌, ◌-◌, ◌≤◌, ◌<◌, ◌≡◌, ◌⊎◌, inl, inr, refl, sym, ◌∙◌, ap, arith, subst⁻¹,
}
use rtl_sdr.Prelude.{
  Bool, true, false, ◌||◌, not, Bool-cases, if◌then◌else◌, if_false, some, ltb, leb, ◌==◌,
}
use rtl_sdr.Prelude.{
  List, [], ◌∷◌, ◌++◌, append_assoc, flatten, length, take, drop, take-append-drop,
  drop-append_over, drop-append_under, Status, ok, failed,
}
use rtl_sdr.Server.Socket.{
  Attempt, Move, again, refused, moved, wait_socket, skip_empty, advance, sendv_loop, sendv,
}

-- All the bytes have gone out, or a beginning of them after which some are left.
abbrev pub Went : List ℕ → Status × List ℕ → Type 0
Went bytes (status, sent) =
    ((status ≡ ok) × (sent ≡ bytes))
    ⊎ ((status ≡ failed) × (left : List ℕ) × (0 < length left) × (sent ++ left ≡ bytes))

-- Nothing of these bytes has gone out.
Went-none : (bytes : List ℕ) → 0 < length bytes → Went bytes (failed, [])
Went-none bytes h = inr (refl, bytes, h, refl)

Went-take :
    (n : ℕ) (bytes : List ℕ) {status : Status} {more : List ℕ}
    → Went (drop n bytes) (status, more)
    → Went bytes (status, take n bytes ++ more)
Went-take n bytes (inl (e, all)) =
    inl (e, ap (λ t. take n bytes ++ t) all ∙ take-append-drop n bytes)
Went-take n bytes {more = more} (inr (e, left, some_left, part)) = inr (
  e,
  left,
  some_left,
  append_assoc (take n bytes) more left
      ∙ ap (λ t. take n bytes ++ t) part
      ∙ take-append-drop n bytes,
)

flatten-skip_empty : (vs : List (List ℕ)) → flatten (skip_empty vs) ≡ flatten vs
unfolding skip_empty
flatten-skip_empty [] = refl
flatten-skip_empty ([] ∷ vs) = flatten-skip_empty vs
flatten-skip_empty ((b ∷ v) ∷ vs) = refl

-- The first vector, if there is one, holds a byte.
abbrev Started : List (List ℕ) → Type 0
Started [] = 0 ≤ 0
Started (v ∷ vs) = 0 < length v

skip_empty-Started : (vs : List (List ℕ)) → Started (skip_empty vs)
unfolding skip_empty
skip_empty-Started [] = ground arith
skip_empty-Started ([] ∷ vs) = skip_empty-Started vs
skip_empty-Started ((b ∷ v) ∷ vs) = ground arith

Started-length : (v : List ℕ) (vs : List (List ℕ)) → 0 < length v → 0 < length (flatten (v ∷ vs))
Started-length [] vs h = ground arith
Started-length (b ∷ v) vs h = ground arith

flatten-advance : (n : ℕ) (vs : List (List ℕ)) → flatten (advance n vs) ≡ drop n (flatten vs)
unfolding advance
flatten-advance zero [] = refl
flatten-advance (suc n) [] = refl
flatten-advance n (v ∷ vs) = elim (Bool-cases (leb (length v) n)) [
  | inl e ↦
      ap (λ b. flatten (if b then advance (n - length v) vs else drop n v ∷ vs)) e
      ∙ flatten-advance (n - length v) vs
      ∙ sym (drop-append_over n v (flatten vs) (ground arith))
  | inr e ↦
      ap (λ b. flatten (if b then advance (n - length v) vs else drop n v ∷ vs)) e
      ∙ sym (drop-append_under n v (flatten vs) (ground arith))
]

-- What follows `n` sent bytes of the vectors, which is an error when there are none.
abbrev sent_some : ℕ → List (List ℕ) → List (Attempt Move) → ℕ → Bool → Status × List ℕ
sent_some deadline left attempts n none_sent = elim none_sent [
  | true ↦ (failed, [])
  | false ↦
      (let (status, more) = sendv_loop deadline (advance n left) attempts in
        (status, take n (flatten left) ++ more))
]

-- What follows `sendmsg`.
abbrev transferred : ℕ → List (List ℕ) → List (Attempt Move) → Move → Status × List ℕ
transferred deadline left attempts transfer = elim transfer [
  | again ↦ sendv_loop deadline left attempts
  | refused ↦ (failed, [])
  | moved n ↦ sent_some deadline left attempts n (n == 0)
]

-- What follows the wait for the socket.
abbrev waited : ℕ → List (List ℕ) → Move → List (Attempt Move) → Bool → Status × List ℕ
waited deadline left transfer attempts writable = elim writable [
  | false ↦ (failed, [])
  | true ↦ transferred deadline left attempts transfer
]

-- A round, at the vectors that are left.
abbrev round : ℕ → List (List ℕ) → Attempt Move → List (Attempt Move) → Status × List ℕ
round deadline left a attempts = elim left [
  | [] ↦ (ok, [])
  | v ∷ vs ↦ waited deadline (v ∷ vs) a.transfer attempts (wait_socket deadline a.polls)
]

waited-Went :
    (deadline : ℕ) (left : List (List ℕ)) (transfer : Move) (attempts : List (Attempt Move))
    → 0 < length (flatten left)
    → ((vs : List (List ℕ)) → Went (flatten vs) (sendv_loop deadline vs attempts))
    → (writable : Bool) → Went (flatten left) (waited deadline left transfer attempts writable)
waited-Went deadline left transfer attempts some_left next false =
    Went-none (flatten left) some_left
waited-Went deadline left again attempts some_left next true = next left
waited-Went deadline left refused attempts some_left next true = Went-none (flatten left) some_left
waited-Went deadline left (moved n) attempts some_left next true =
    elim (n == 0)
      as (λ none_sent. Went (flatten left) (sent_some deadline left attempts n none_sent)) [
        | true ↦ Went-none (flatten left) some_left
        | false ↦ Went-take n (flatten left) (
            subst⁻¹ (λ t. Went t (sendv_loop deadline (advance n left) attempts))
              (sym (flatten-advance n left)) (next (advance n left)))
      ]

end-Went :
    (left : List (List ℕ))
    → Started left
    → Went (flatten left) (elim left [ [] ↦ (ok, []) | v ∷ vs ↦ (failed, []) ])
end-Went [] h = inl (refl, refl)
end-Went (v ∷ vs) h = Went-none (flatten (v ∷ vs)) (Started-length v vs h)

round-Went :
    (deadline : ℕ) (left : List (List ℕ)) (a : Attempt Move) (attempts : List (Attempt Move))
    → Started left
    → ((vs : List (List ℕ)) → Went (flatten vs) (sendv_loop deadline vs attempts))
    → Went (flatten left) (round deadline left a attempts)
round-Went deadline [] a attempts h next = inl (refl, refl)
round-Went deadline (v ∷ vs) a attempts h next =
    waited-Went deadline (v ∷ vs) a.transfer attempts (Started-length v vs h) next
      (wait_socket deadline a.polls)

sendv_loop-Went :
    (deadline : ℕ) (pending : List (List ℕ)) (attempts : List (Attempt Move))
    → Went (flatten pending) (sendv_loop deadline pending attempts)
unfolding sendv_loop
sendv_loop-Went deadline pending [] =
    subst⁻¹ (λ t. Went t (sendv_loop deadline pending [])) (sym (flatten-skip_empty pending))
      (end-Went (skip_empty pending) (skip_empty-Started pending))
sendv_loop-Went deadline pending (a ∷ attempts) =
    subst⁻¹ (λ t. Went t (sendv_loop deadline pending (a ∷ attempts)))
      (sym (flatten-skip_empty pending))
      (round-Went deadline (skip_empty pending) a attempts (skip_empty-Started pending)
        (λ vs. sendv_loop-Went deadline vs attempts))

-- Whatever the clock, `poll` and `sendmsg` answer, `rtlsdr_stream_sendv` at one or two vectors and
-- a socket that could be set up returns 0 exactly with all the bytes of the vectors sent in their
-- order, and returns -1 only with a beginning of them sent after which at least one byte is left.
pub sendv-Went :
    (vs : List (List ℕ)) (now : ℕ) (attempts : List (Attempt Move))
    → 1 ≤ length vs
    → length vs ≤ 2
    → Went (flatten vs) (sendv (some vs) true now attempts)
unfolding sendv
sendv-Went vs now attempts h1 h2 =
    subst⁻¹ (Went (flatten vs))
      (if_false (ltb (length vs) 1 || ltb 2 (length vs) || not true) (failed, [])
        (sendv_loop (now + 5000) vs attempts) (ground arith))
      (sendv_loop-Went (now + 5000) vs attempts)
