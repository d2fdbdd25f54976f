-- ===== src/Adsb.antt =====
-- src/rtl_adsb.c: the decoding of ADS-B messages, from the bytes of the receiver to the frames that
-- `display` gets.
pub mod Termination
pub mod Frames
pub mod Magnitude
mod Tests
use rtl_sdr.Prelude.{
  ℕ, zero, suc, ◌+◌, ◌-◌, ◌*◌, ◌/◌, ◌%◌, Bool, true, false, not, ◌&&◌, ◌||◌, Option, none, some,
}
use rtl_sdr.Prelude.{
  List, [], ◌∷◌, length, get_or, set, replicate, ltb, leb, ◌==◌, if◌then◌else◌, u8, u16, ◌<<<◌,
  ◌>>>◌, bit_or, bit_and, tail,
}

abbrev pub message_go : ℕ
message_go = 253

abbrev pub overwrite : ℕ
overwrite = 254

abbrev pub bad_sample : ℕ
bad_sample = 255

abbrev pub preamble_len : ℕ
preamble_len = 16

abbrev pub long_frame : ℕ
long_frame = 112

abbrev pub short_frame : ℕ
short_frame = 56

-- `abs8` at a number that is not negative
pub abs8 : ℕ → ℕ
abs8 x = if leb 127 x then x - 127 else 127 - x

-- An entry of the table that `squares_precompute` makes.
pub square : ℕ → ℕ
square i = u16 (abs8 i * abs8 i)

-- `magnitute`, from the bytes to the 16-bit numbers.
pub magnitute : List ℕ → List ℕ
magnitute [] = []
magnitute (i ∷ []) = []
magnitute (i ∷ q ∷ bytes) = u16 (square i + square q) ∷ magnitute bytes

-- `single_manchester`, by the quality.
pub single_manchester : ℕ → ℕ → ℕ → ℕ → ℕ → ℕ
single_manchester quality a b c d =
    let bit_p = ltb b a in
    let bit = ltb d c in
    if quality == 0
    then (if bit then 1 else 0)
    else if quality == 5
    then (if bit && bit_p && ltb c b
        then bad_sample
        else if not bit && not bit_p && ltb b c
        then bad_sample
        else if bit
        then 1
        else 0)
    else if quality == 10
    then (if bit && bit_p && ltb b c
        then 1
        else if bit && not bit_p && ltb d b
        then 1
        else if not bit && bit_p && ltb b d
        then 0
        else if not bit && not bit_p && ltb c b
        then 0
        else bad_sample)
    else if bit && bit_p && ltb b c && ltb d a
    then 1
    else if bit && not bit_p && ltb a c && ltb d b
    then 1
    else if not bit && bit_p && ltb c a && ltb b d
    then 0
    else if not bit && not bit_p && ltb c b && ltb a d
    then 0
    else bad_sample

-- The loop of `preamble` from `i2` on.
pub preamble_loop : ℕ → ℕ → ℕ → ℕ → List ℕ → ℕ → Bool
preamble_loop zero i2 low high buf i = true
preamble_loop (suc left) i2 low high buf i =
    let pulse = i2 == 0 || i2 == 2 || i2 == 7 || i2 == 9 in
    let sample = get_or buf (i + i2) 0 in
    let high' = if pulse then sample else high in
    let low' = if pulse then low else sample in
    let rest = preamble_loop left (i2 + 1) low' high' buf i in
    if leb high' low' then false else rest

-- `preamble`
pub preamble : List ℕ → ℕ → Bool
preamble buf i = preamble_loop preamble_len 0 0 65535 buf i

-- The variables of `manchester`.
pub record Marks : Type 0 where
  pub buf : List ℕ
  pub i : ℕ
  pub i2 : ℕ
  pub a : ℕ
  pub b : ℕ
  pub errors : ℕ

-- The loop that writes MESSAGEGO.
pub mark_preamble : ℕ → ℕ → List ℕ → List ℕ
mark_preamble zero i buf = buf
mark_preamble (suc left) i buf = mark_preamble left (i + 1) (set buf i message_go)

-- The loop that looks for a preamble, with the number of rounds that are left.
pub find : ℕ → Marks → Marks
find zero m = m
find (suc left) m =
    let rest = find left (record m { i = m.i + 1 }) in
    if preamble m.buf m.i
    then record m {
      a = get_or m.buf m.i 0;
      b = get_or m.buf (m.i + 1) 0;
      buf = mark_preamble preamble_len m.i m.buf;
      i = m.i + preamble_len;
    }
    else rest

-- A sample is marked with its bit.
abbrev pub put_bit : ℕ → Marks → Marks
put_bit bit m = record m {
  buf = set (set (set m.buf (m.i + 1) overwrite) m.i overwrite) m.i2 bit;
  i = m.i + 2;
  i2 = m.i2 + 1;
}

-- The loop that marks bits until the encoding breaks, with fuel.
pub mark : ℕ → ℕ → ℕ → Marks → Marks
mark zero quality allowed m = m
mark (suc fuel) quality allowed m =
    let bit = single_manchester quality m.a m.b (get_or m.buf m.i 0) (get_or m.buf (m.i + 1) 0) in
    let m1 : Marks = record m { a = get_or m.buf m.i 0; b = get_or m.buf (m.i + 1) 0 } in
    let m2 : Marks = record m1 { errors = m.errors + 1; a = 0; b = 65535 } in
    let good = mark fuel quality allowed (put_bit bit m1) in
    let forgiven = mark fuel quality allowed (put_bit (if ltb m1.b m1.a then 1 else 0) m2) in
    if not (ltb m.i (length m.buf - 1))
    then m
    else if not (bit == bad_sample)
    then good
    else if ltb allowed (m.errors + 1)
    then record m1 { errors = m.errors + 1; buf = set m.buf m.i2 bad_sample }
    else forgiven

-- A round of the outer loop.
pub round : ℕ → ℕ → Marks → Marks
round quality allowed m =
    let f = find (length m.buf - preamble_len - m.i) m in
    mark (length f.buf) quality allowed (record f { i2 = f.i; errors = 0 })

-- The outer loop, with fuel: `none` when it is still running.
pub manchester_loop : ℕ → ℕ → ℕ → Marks → Option (List ℕ)
manchester_loop zero quality allowed m = if ltb m.i (length m.buf - 1) then none else some m.buf
manchester_loop (suc fuel) quality allowed m =
    let rest = manchester_loop fuel quality allowed (round quality allowed m) in
    if ltb m.i (length m.buf - 1) then rest else some m.buf

-- `manchester`, with fuel.
pub manchester : ℕ → ℕ → ℕ → List ℕ → Option (List ℕ)
manchester fuel quality allowed buf =
    manchester_loop fuel quality allowed
      (record { buf = buf; i = 0; i2 = 0; a = 0; b = 0; errors = 0 })

-- What the inner loop of `messages` leaves: the samples from `buf[i]` on, and its variables.
pub record Bits : Type 0 where
  pub rest : List ℕ
  pub data_i : ℕ
  pub frame : List ℕ
  pub frame_len : ℕ

-- A bit of the frame is set.
abbrev pub set_bit : List ℕ → ℕ → List ℕ
set_bit frame data_i =
    set frame (data_i / 8) (bit_or (get_or frame (data_i / 8) 0) (u8 (1 <<< (7 - data_i % 8))))

-- The inner loop of `messages`.
pub collect : ℕ → ℕ → List ℕ → List ℕ → Bits
collect frame_len data_i frame [] = record {
  rest = [];
  data_i = data_i;
  frame = frame;
  frame_len = frame_len;
}
collect frame_len data_i frame (x ∷ xs) =
    let f = if x == 0 then frame else set_bit frame data_i in
    let next_len =
      if not (data_i == 7)
      then frame_len
      else if bit_and (get_or f 0 0) 128 == 0
      then short_frame
      else long_frame in
    let more = collect next_len (data_i + 1) f xs in
    if not (leb x 1 && ltb data_i frame_len)
    then record { rest = x ∷ xs; data_i = data_i; frame = frame; frame_len = frame_len }
    else if data_i == 7 && get_or f 0 0 == 0
    then record { rest = x ∷ xs; data_i = data_i; frame = f; frame_len = frame_len }
    else more

-- `messages`: the frames and lengths that `display` gets. A round takes a sample at least.
pub messages_loop : ℕ → List ℕ → List (List ℕ × ℕ)
messages_loop zero buf = []
messages_loop (suc fuel) [] = []
messages_loop (suc fuel) (x ∷ buf) =
    let bits = collect long_frame 0 (replicate 14 0) (x ∷ buf) in
    let skip = messages_loop fuel buf in
    let after = messages_loop fuel (tail bits.rest) in
    if ltb 1 x
    then skip
    else if ltb bits.data_i (bits.frame_len - 1)
    then after
    else (bits.frame, bits.frame_len) ∷ after

pub messages : List ℕ → List (List ℕ × ℕ)
messages buf = messages_loop (length buf) buf

-- Whether `display` shows a frame.
pub shown : ℕ → Bool → List ℕ → ℕ → Bool
shown quality short_output frame len =
    let df = bit_and (get_or frame 0 0 >>> 3) 31 in
    if not short_output && leb len short_frame
    then false
    else not (quality == 0 && not (df == 11 || df == 17 || df == 18 || df == 19))
