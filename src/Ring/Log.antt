-- ===== src/Ring/Log.antt =====
-- What the ring promises: a log that keeps the last `slot_count` messages, oldest first, and answers
-- a cursor with the message of its sequence number.
use rtl_sdr.Prelude.{ℕ, ◌+◌, ◌-◌, not, ◌||◌, List, [], ◌∷◌, ◌++◌}
use rtl_sdr.Prelude.{ltb, leb, ◌==◌, if◌then◌else◌, u64, u64_max, length, get_or, tail}
use rtl_sdr.Ring.{Cursor, Result, error, empty, found, gap}

pub record Log : Type 0 where
  pub next_seq : ℕ
  pub generation : ℕ
  pub window : List (List ℕ)

-- The window with one more message, and no more than `n` of them.
unfoldable pub keep_last : ℕ → List (List ℕ) → List ℕ → List (List ℕ)
keep_last n window message =
    if ltb (length window) n then window ++ (message ∷ []) else tail (window ++ (message ∷ []))

unfoldable pub append : ℕ → List ℕ → Log → Log
append n message l =
    if l.next_seq == u64_max
    then record { next_seq = 1; generation = u64 (l.generation + 1); window = message ∷ [] }
    else record l { next_seq = l.next_seq + 1; window = keep_last n l.window message }

unfoldable pub forget : Log → Log
forget l = record l { generation = u64 (l.generation + 1); window = [] }

-- The number of the oldest message.
abbrev pub first_seq : Log → ℕ
first_seq l = l.next_seq - length l.window

-- What a reader sees: the result, its cursor, and the message.
pub record Answer : Type 0 where
  pub result : Result
  pub cursor : Cursor
  pub message : List ℕ

unfoldable pub ask : Log → Cursor → ℕ → Answer
ask l c capacity =
    if not (c.generation == l.generation) || ltb c.next_seq (first_seq l)
    then stay gap
    else if c.next_seq == l.next_seq
    then stay empty
    else if ltb c.next_seq l.next_seq
    then (let message = get_or l.window (c.next_seq - first_seq l) [] in
        if leb (length message) capacity
        then record {
          result = found;
          cursor = record c { next_seq = c.next_seq + 1 };
          message = message;
        }
        else stay error)
    else stay error
  where
    stay : Result → Answer
    stay result = record { result = result; cursor = c; message = [] }
