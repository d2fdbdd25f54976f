-- ===== src/Server/Socket/Receive.antt =====
-- `receive_request` reads the 29 bytes of a request, however they are cut.
use rtl_sdr.Prelude.{ℕ, suc, ◌+◌, ◌-◌, ◌≤◌, ◌≡◌, refl, sym, ◌∙◌, ap, arith}
use rtl_sdr.Prelude.{
  true, false, Option, none, some, List, [], ◌∷◌, ◌++◌, length, length-append, take, take_over,
}
use rtl_sdr.Server.Socket.{Attempt, Poll, Arrival, later, came, wait_socket, receive_loop}

-- The rounds bring these bytes before the deadline: each waits for a readable socket with success,
-- and `recv` then gives a part of the bytes that is not empty, or EINTR, EAGAIN or EWOULDBLOCK.
pub data Brings (deadline : ℕ) : List ℕ → List (Attempt Arrival) → Type 0 where
  brought_all : (attempts : List (Attempt Arrival)) → Brings deadline [] attempts
  retried :
      (polls : List (ℕ × Poll)) (bytes : List ℕ) (attempts : List (Attempt Arrival))
      → wait_socket deadline polls ≡ true
      → Brings deadline bytes attempts
      → Brings deadline bytes ((record { polls = polls; transfer = later }) ∷ attempts)
  brought :
      (polls : List (ℕ × Poll)) (b : ℕ) (piece more bytes : List ℕ)
      (attempts : List (Attempt Arrival))
      → wait_socket deadline polls ≡ true
      → bytes ≡ (b ∷ piece) ++ more
      → Brings deadline more attempts
      → Brings deadline bytes ((record { polls = polls; transfer = came (b ∷ piece) }) ∷ attempts)

receive_loop_later :
    (deadline left : ℕ) (polls : List (ℕ × Poll)) (attempts : List (Attempt Arrival))
    → wait_socket deadline polls ≡ true
    → receive_loop deadline (suc left) ((record { polls = polls; transfer = later }) ∷ attempts)
      ≡ receive_loop deadline (suc left) attempts
unfolding receive_loop
receive_loop_later deadline left polls attempts e =
    ap (λ r. elim r [ false ↦ none | true ↦ receive_loop deadline (suc left) attempts ]) e

-- What a round gives that took these bytes.
abbrev appended : List ℕ → Option (List ℕ) → Option (List ℕ)
appended bytes rest = elim rest [ none ↦ none | some more ↦ some (bytes ++ more) ]

receive_loop_came :
    (deadline left b : ℕ) (piece : List ℕ) (polls : List (ℕ × Poll))
    (attempts : List (Attempt Arrival))
    → wait_socket deadline polls ≡ true
    → length piece ≤ left
    → receive_loop deadline
        (suc left)
        ((record { polls = polls; transfer = came (b ∷ piece) }) ∷ attempts)
      ≡ appended (b ∷ piece) (receive_loop deadline (left - length piece) attempts)
unfolding receive_loop
receive_loop_came deadline left b piece polls attempts e h =
    ap
      (λ r. elim r [
        | false ↦ none
        | true ↦
            appended (b ∷ take left piece)
              (receive_loop deadline (left - length (take left piece)) attempts)
      ])
      e
    ∙ ap (λ t. appended (b ∷ t) (receive_loop deadline (left - length t) attempts))
        (take_over left piece h)

pub receive_loop-Brings :
    (deadline : ℕ) (bytes : List ℕ) (attempts : List (Attempt Arrival))
    → Brings deadline bytes attempts
    → receive_loop deadline (length bytes) attempts ≡ some bytes
unfolding receive_loop
receive_loop-Brings deadline [] attempts h = refl
receive_loop-Brings deadline (b ∷ bytes) _ (retried polls _ attempts e next) =
    receive_loop_later deadline (length bytes) polls attempts e
    ∙ receive_loop-Brings deadline (b ∷ bytes) attempts next
receive_loop-Brings deadline (a ∷ bytes) _ (brought polls b piece more _ attempts e parts next) =
    let size : suc (length bytes) ≡ suc (length piece) + length more =
      ap length parts ∙ length-append (b ∷ piece) more in
    receive_loop_came deadline (length bytes) b piece polls attempts e (omega (arith, size))
    ∙ ap (λ n. appended (b ∷ piece) (receive_loop deadline n attempts)) (omega (arith, size))
    ∙ ap (appended (b ∷ piece)) (receive_loop-Brings deadline more attempts next)
    ∙ ap (λ t. some t) (sym parts)
