-- ===== src/Server/Socket.antt =====
-- The socket functions of src/rtl_stream_server.c: `wait_socket`, `rtlsdr_stream_sendv` and
-- `receive_request`. What the clock, `poll`, `sendmsg` and `recv` will answer is an argument.
pub mod Sendv
pub mod Receive
pub mod Frame
mod Tests
use rtl_sdr.Prelude.{ℕ, zero, suc, ◌+◌, ◌-◌, Bool, true, false, not, ◌||◌, Option, none, some}
use rtl_sdr.Prelude.{
  List, [], ◌∷◌, ◌++◌, length, take, drop, flatten, leb, ltb, ◌==◌, if◌then◌else◌, is_none, Status,
  ok, failed,
}

-- What a `poll` of one socket gives: the event that is waited for, only other events, nothing in
-- the time that is left, EINTR, another error.
pub data Poll : Type 0 where
  ready hung idle interrupted broken : Poll

-- `wait_socket`, with the reading of the clock before each `poll`. At the end of the list nothing
-- more happens before the deadline.
pub wait_socket : ℕ → List (ℕ × Poll) → Bool
wait_socket deadline [] = false
wait_socket deadline ((now, poll) ∷ polls) =
    let more = wait_socket deadline polls in
    if leb deadline now then false else elim poll [
      | ready ↦ true
      | hung ↦ false
      | idle ↦ more
      | interrupted ↦ more
      | broken ↦ false
    ]

-- What `sendmsg` gives: EINTR, EAGAIN or EWOULDBLOCK; another error; how many bytes it took.
pub data Move : Type 0 where
  again refused : Move
  moved : ℕ → Move

-- What one round of a loop meets. `A` is what the transfer gives.
pub record Attempt (A : Type 0) : Type 0 where
  pub polls : List (ℕ × Poll)
  pub transfer : A

-- `while (first < count && pending[first].iov_len == 0) first++;`
pub skip_empty : List (List ℕ) → List (List ℕ)
skip_empty [] = []
skip_empty ([] ∷ vs) = skip_empty vs
skip_empty ((b ∷ v) ∷ vs) = (b ∷ v) ∷ vs

-- The vectors that are left after `n` bytes.
pub advance : ℕ → List (List ℕ) → List (List ℕ)
advance n [] = []
advance n (v ∷ vs) = if leb (length v) n then advance (n - length v) vs else drop n v ∷ vs

-- The loop of `rtlsdr_stream_sendv`: whether all went out, and which bytes did.
pub sendv_loop : ℕ → List (List ℕ) → List (Attempt Move) → Status × List ℕ
sendv_loop deadline pending [] = elim (skip_empty pending) [ [] ↦ (ok, []) | v ∷ vs ↦ (failed, []) ]
sendv_loop deadline pending (a ∷ attempts) = elim (skip_empty pending) [
  | [] ↦ (ok, [])
  | v ∷ vs ↦ elim (wait_socket deadline a.polls) [
    | false ↦ (failed, [])
    | true ↦ elim a.transfer [
      | again ↦ sendv_loop deadline (v ∷ vs) attempts
      | refused ↦ (failed, [])
      | moved n ↦ elim (n == 0) [
        | true ↦ (failed, [])
        | false ↦
            (let (status, more) = sendv_loop deadline (advance n (v ∷ vs)) attempts in
              (status, take n (flatten (v ∷ vs)) ++ more))
      ]
    ]
  ]
]

-- `rtlsdr_stream_sendv`, with the clock at its start and whether the socket and its options could
-- be set.
pub sendv : Option (List (List ℕ)) → Bool → ℕ → List (Attempt Move) → Status × List ℕ
sendv none set_up now attempts = (failed, [])
sendv (some iov) set_up now attempts =
    if ltb (length iov) 1 || ltb 2 (length iov) || not set_up
    then (failed, [])
    else sendv_loop (now + 5000) iov attempts

-- What `recv` gives: EINTR, EAGAIN or EWOULDBLOCK; another error; bytes, and none at the end.
pub data Arrival : Type 0 where
  later lost : Arrival
  came : List ℕ → Arrival

-- The loop of `receive_request`, with the number of bytes that are left to read. `recv` gives no
-- more than that.
pub receive_loop : ℕ → ℕ → List (Attempt Arrival) → Option (List ℕ)
receive_loop deadline zero attempts = some []
receive_loop deadline (suc left) [] = none
receive_loop deadline (suc left) (a ∷ attempts) = elim (wait_socket deadline a.polls) [
  | false ↦ none
  | true ↦ elim a.transfer [
    | later ↦ receive_loop deadline (suc left) attempts
    | lost ↦ none
    | came bytes ↦ elim (take (suc left) bytes) [
      | [] ↦ none
      | b ∷ got ↦ elim (receive_loop deadline (left - length got) attempts) [
        | none ↦ none
        | some more ↦ some ((b ∷ got) ++ more)
      ]
    ]
  ]
]

-- `receive_request`
pub receive_request : ℕ → List (Attempt Arrival) → Option (List ℕ)
receive_request now attempts = receive_loop (now + 5000) 29 attempts
