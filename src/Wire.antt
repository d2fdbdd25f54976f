-- ===== src/Wire.antt =====
-- Big-endian words in a byte buffer: `put32`, `put64`, `get32` and `get64` of
-- src/rtl_stream_proto.c, which stream_client/c/client.c repeats word for word.
pub mod Laws
pub mod Header
use rtl_sdr.Prelude.{ℕ, ◌+◌, ◌%◌, bit_or, u8, u32, u64, ◌<<<◌, ◌>>>◌, Buffer, store}

unfoldable pub put32 : Buffer → ℕ → ℕ → Buffer
put32 buf o val =
    let b0 = store buf o (u8 (val >>> 24)) in
    let b1 = store b0 (o + 1) (u8 (val >>> 16)) in
    let b2 = store b1 (o + 2) (u8 (val >>> 8)) in store b2 (o + 3) (u8 val)

unfoldable pub put64 : Buffer → ℕ → ℕ → Buffer
put64 buf o val = put32 (put32 buf o (u32 (val >>> 32))) (o + 4) (u32 val)

unfoldable pub get32 : Buffer → ℕ → ℕ
get32 buf o =
    bit_or
      (bit_or (bit_or (u32 (buf o <<< 24)) (u32 (buf (o + 1) <<< 16))) (u32 (buf (o + 2) <<< 8)))
      (buf (o + 3))

unfoldable pub get64 : Buffer → ℕ → ℕ
get64 buf o = bit_or (u64 (get32 buf o <<< 32)) (get32 buf (o + 4))
