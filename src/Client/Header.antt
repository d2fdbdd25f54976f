-- ===== src/Client/Header.antt =====
-- `read_header` at a data header, however the network cuts it.
use rtl_sdr.Prelude.{ℕ, ◌+◌, ◌-◌, ◌<◌, ◌≡◌, ◌≢◌, refl, ◌∙◌, ap, arith, true, some, List, ◌++◌}
use rtl_sdr.Prelude.{length, Buffer, fill, bytes_of, fill_before, fill-bytes_of}
use native.Mathlib.Decide.{dec_lt}
use rtl_sdr.Wire.{get32}
use rtl_sdr.Wire.Laws.{get32_cong, get64_cong}
use rtl_sdr.Proto.Frames.{Reads}
use rtl_sdr.Proto.{magic_evt}
use rtl_sdr.Client.{Ctx, recv_all, receive, read_header, read_ok}
use rtl_sdr.Client.Arrivals.{IsLive, content, recv_all_lem}

-- An open connection on which `bytes` are to come.
pub record Holds (ctx : Ctx) (bytes : List ℕ) : Type 0 where
  pub is_open : ctx.open? ≡ true
  pub live : IsLive ctx.arrivals
  pub coming : content ctx.arrivals ≡ bytes

pub receive_lem :
    (ctx : Ctx) (n : ℕ) (bytes rest : List ℕ)
    → Holds ctx (bytes ++ rest)
    → length bytes ≡ n
    → (after : Ctx) × (receive ctx n ≡ some (bytes, after)) × Holds after rest
unfolding receive
receive_lem ctx n bytes rest h e =
    let (arrivals, got, live, left) = recv_all_lem ctx.arrivals bytes rest h.live h.coming in
    (
      record ctx { arrivals = arrivals },
      ground (arith, h.is_open, got, ap (λ k. recv_all k ctx.arrivals) e),
      record { is_open = h.is_open; live = live; coming = left },
    )

-- Two buffers agree on their first `n` bytes.
abbrev pub Agree : ℕ → Buffer → Buffer → Type 0
Agree n a b = (j : ℕ) → j < n → a j ≡ b j

-- Buffers that agree on the header have the same words there.
pub Agree-Reads :
    (got wire : Buffer) (m f r q n : ℕ)
    → Agree 32 got wire
    → Reads wire m f r q n
    → Reads got m f r q n
Agree-Reads got wire m f r q n same h = record {
  magic_at = get32_cong got wire 0 0 (λ j lt. same (0 + j) (omega arith)) ∙ h.magic_at;
  freq_at = get64_cong got wire 4 4 (λ j lt. same (4 + j) (omega arith)) ∙ h.freq_at;
  rate_at = get64_cong got wire 12 12 (λ j lt. same (12 + j) (omega arith)) ∙ h.rate_at;
  seq_at = get64_cong got wire 20 20 (λ j lt. same (20 + j) (omega arith)) ∙ h.seq_at;
  count_at = get32_cong got wire 28 28 (λ j lt. same (28 + j) (omega arith)) ∙ h.count_at;
}

filled :
    (buf wire : Buffer)
    → Agree 32 (fill (fill buf 0 (bytes_of wire 0 4)) 4 (bytes_of wire 4 28)) wire
filled buf wire j h = elim (dec_lt j 4) [
  | yes low ↦
      fill_before (fill buf 0 (bytes_of wire 0 4)) 4 (bytes_of wire 4 28) j low
      ∙ ap (fill buf 0 (bytes_of wire 0 4)) {x = j} {y = 0 + j} (omega arith)
      ∙ fill-bytes_of buf wire 0 0 4 j low
      ∙ ap wire (omega arith)
  | no high ↦
      ap (fill (fill buf 0 (bytes_of wire 0 4)) 4 (bytes_of wire 4 28)) {x = j} {y = 4 + (j - 4)}
        (omega arith)
      ∙ fill-bytes_of (fill buf 0 (bytes_of wire 0 4)) wire 4 4 28 (j - 4) (omega arith)
      ∙ ap wire (omega arith)
]

read_header-eq_ok :
    (ctx c1 c2 : Ctx) (buf : Buffer) (magic : ℕ) (head tail : List ℕ)
    → receive ctx 4 ≡ some (head, c1)
    → receive c1 28 ≡ some (tail, c2)
    → get32 (fill buf 0 head) 0 ≡ magic
    → magic ≢ magic_evt
    → read_header ctx buf magic ≡ (read_ok, c2, fill (fill buf 0 head) 4 tail)
unfolding read_header
read_header-eq_ok ctx c1 c2 buf magic head tail got4 got28 is_magic not_event = ground arith

-- The 32 bytes of a data header come whole, and nothing after them is taken.
pub read_header_lem :
    (ctx : Ctx) (buf wire : Buffer) (magic : ℕ) (rest : List ℕ)
    → Holds ctx (bytes_of wire 0 32 ++ rest)
    → get32 wire 0 ≡ magic
    → magic ≢ magic_evt
    → (after : Ctx) × (got : Buffer) × (read_header ctx buf magic ≡ (read_ok, after, got))
      × Holds after rest
      × Agree 32 got wire
read_header_lem ctx buf wire magic rest h is_magic not_event =
    let (c1, got4, h1) =
      receive_lem ctx 4 (bytes_of wire 0 4) (bytes_of wire 4 28 ++ rest) h refl in
    let (c2, got28, h2) = receive_lem c1 28 (bytes_of wire 4 28) rest h1 refl in
    let first : get32 (fill buf 0 (bytes_of wire 0 4)) 0 ≡ magic =
      get32_cong _ wire 0 0 (λ j lt. fill-bytes_of buf wire 0 0 4 j lt) ∙ is_magic in
    (
      c2,
      fill (fill buf 0 (bytes_of wire 0 4)) 4 (bytes_of wire 4 28),
      read_header-eq_ok ctx c1 c2 buf magic (bytes_of wire 0 4) (bytes_of wire 4 28) got4 got28
          first not_event,
      h2,
      filled buf wire,
    )
