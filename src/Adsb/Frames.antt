-- ===== src/Adsb/Frames.antt =====
-- The frames that `messages` gives to `display`.
use rtl_sdr.Prelude.{
  ℕ, zero, suc, ◌+◌, ◌-◌, ◌/◌, ◌≤◌, ◌≡◌, ◌≢◌, refl, ◌∙◌, arith, subst⁻¹, ◌⊎◌, inl, inr,
}
use rtl_sdr.Prelude.{
  true, false, not, ◌&&◌, if◌then◌else◌, if_cases, List, [], ◌∷◌, length, length-set, get_or,
  get_or-set_ne, replicate, ltb, leb, ◌==◌, bit_and, tail,
}
use native.Mathlib.Decide.{ℕ_discrete, dec_le}
use rtl_sdr.Adsb.{Bits, set_bit, collect, messages_loop, messages, long_frame, short_frame}

-- The length goes with the highest bit of the first byte, which is not zero.
abbrev pub Headed : ℕ → List ℕ → Type 0
Headed len frame =
    ((len ≡ 112) × (bit_and (get_or frame 0 0) 128 ≢ 0))
    ⊎ ((len ≡ 56) × (bit_and (get_or frame 0 0) 128 ≡ 0) × (get_or frame 0 0 ≢ 0))

-- The variables of the inner loop before a bit.
pub record IsSteady (frame_len data_i : ℕ) (frame : List ℕ) : Type 0 where
  pub size : length frame ≡ 14
  pub young : data_i ≤ 7 → frame_len ≡ 112
  pub headed : 8 ≤ data_i → Headed frame_len frame

-- What the inner loop leaves.
abbrev IsDone : Bits → Type 0
IsDone r = IsSteady r.frame_len r.data_i r.frame

length-set_bit : (frame : List ℕ) (d : ℕ) → length (set_bit frame d) ≡ length frame
length-set_bit frame d = length-set frame (d / 8) _

-- Behind the first byte its value does not change.
first-set_bit : (frame : List ℕ) (d : ℕ) → 8 ≤ d → get_or (set_bit frame d) 0 0 ≡ get_or frame 0 0
first-set_bit frame d h = get_or-set_ne frame (d / 8) 0 _ 0 (λ e. absurd (omega (arith, e)))

-- The frame with the bit of a sample.
abbrev with_bit : ℕ → ℕ → List ℕ → List ℕ
with_bit x d frame = if x == 0 then frame else set_bit frame d

length-with_bit : (x d : ℕ) (frame : List ℕ) → length (with_bit x d frame) ≡ length frame
length-with_bit x d frame =
    if_cases (λ f. length f ≡ length frame) (x == 0) frame _ (λ e. refl)
      (λ e. length-set_bit frame d)

first-with_bit :
    (x d : ℕ) (frame : List ℕ) → 8 ≤ d → get_or (with_bit x d frame) 0 0 ≡ get_or frame 0 0
first-with_bit x d frame h =
    if_cases (λ f. get_or f 0 0 ≡ get_or frame 0 0) (x == 0) frame _ (λ e. refl)
      (λ e. first-set_bit frame d h)

-- The length of the frame for the next bit.
abbrev next_len : ℕ → ℕ → List ℕ → ℕ
next_len frame_len d f =
    if not (d == 7)
    then frame_len
    else if bit_and (get_or f 0 0) 128 == 0
    then short_frame
    else long_frame

Headed-first :
    (frame_len : ℕ) (frame f : List ℕ)
    → get_or f 0 0 ≡ get_or frame 0 0
    → Headed frame_len frame
    → Headed frame_len f
Headed-first frame_len frame f e h =
    subst⁻¹
      (λ t.
        ((frame_len ≡ 112) × (bit_and t 128 ≢ 0))
        ⊎ ((frame_len ≡ 56) × (bit_and t 128 ≡ 0) × (t ≢ 0)))
      e h

Headed-new : (frame_len : ℕ) (f : List ℕ) → get_or f 0 0 ≢ 0 → Headed (next_len frame_len 7 f) f
Headed-new frame_len f h =
    if_cases (λ n. Headed n f) (bit_and (get_or f 0 0) 128 == 0) short_frame long_frame
      (λ e. inr (refl, ground arith, h)) (λ e. inl (refl, λ z. ground arith))

eighth_lem : (d first : ℕ) → (d == 7) && (first == 0) ≡ false → d ≡ 7 → first ≢ 0
eighth_lem d first h e z = ground arith

seventh_lem : (d first : ℕ) → (d == 7) && (first == 0) ≡ true → d ≡ 7
seventh_lem d first h = ground arith

long_lem : (d len : ℕ) → (d ≤ 7 → len ≡ 112) → ltb d (len - 1) ≡ false → 8 ≤ d
long_lem d len young h = elim (dec_le 8 d) [
  | yes k ↦ k
  | no k ↦ (let e = young (omega arith) in absurd (ground arith))
]

next-IsSteady :
    (x frame_len d : ℕ) (frame : List ℕ)
    → IsSteady frame_len d frame
    → (d == 7) && (get_or (with_bit x d frame) 0 0 == 0) ≡ false
    → IsSteady (next_len frame_len d (with_bit x d frame)) (d + 1) (with_bit x d frame)
next-IsSteady x frame_len d frame s e = record {
  size = length-with_bit x d frame ∙ s.size;
  young = λ h. ground (arith, s.young);
  headed = λ h. elim (ℕ_discrete d 7) [
    | yes seven ↦
        subst⁻¹ (λ n. Headed (next_len frame_len n (with_bit x d frame)) (with_bit x d frame)) seven
          (Headed-new frame_len (with_bit x d frame)
            (eighth_lem d (get_or (with_bit x d frame) 0 0) e seven))
    | no other ↦
        subst⁻¹ (λ n. Headed n (with_bit x d frame)) (ground arith)
          (Headed-first frame_len frame (with_bit x d frame)
            (first-with_bit x d frame (omega arith)) (s.headed (omega arith)))
  ];
}

collect-IsSteady :
    (xs : List ℕ) (frame_len d : ℕ) (frame : List ℕ)
    → IsSteady frame_len d frame
    → IsDone (collect frame_len d frame xs)
unfolding collect
collect-IsSteady [] frame_len d frame s = s
collect-IsSteady (x ∷ xs) frame_len d frame s =
    let f = with_bit x d frame in
    if_cases IsDone (not (leb x 1 && ltb d frame_len)) _ _ (λ e. s)
      (λ e.
        if_cases IsDone (d == 7 && get_or f 0 0 == 0) _ _
          (λ g. record {
            size = length-with_bit x d frame ∙ s.size;
            young = s.young;
            headed = λ h. absurd (omega (arith, seventh_lem d (get_or f 0 0) g));
          })
          (λ g.
            collect-IsSteady xs (next_len frame_len d f) (d + 1) f
              (next-IsSteady x frame_len d frame s g)))

-- What `display` gets.
abbrev pub AllHeaded : List (List ℕ × ℕ) → Type 0
AllHeaded [] = 0 ≤ 0
AllHeaded ((frame, len) ∷ shown) = ((length frame ≡ 14) × Headed len frame) × AllHeaded shown

fresh-IsSteady : IsSteady long_frame 0 (replicate 14 0)
fresh-IsSteady = record { size = refl; young = λ h. refl; headed = λ h. absurd (omega arith) }

-- A frame that is long enough to be shown has its first byte.
shown_lem :
    (r : Bits)
    → IsDone r
    → ltb r.data_i (r.frame_len - 1) ≡ false
    → (length r.frame ≡ 14) × Headed r.frame_len r.frame
shown_lem r s e = (s.size, s.headed (long_lem r.data_i r.frame_len s.young e))

messages_loop-AllHeaded : (fuel : ℕ) (buf : List ℕ) → AllHeaded (messages_loop fuel buf)
unfolding messages_loop
messages_loop-AllHeaded zero buf = omega arith
messages_loop-AllHeaded (suc fuel) [] = omega arith
messages_loop-AllHeaded (suc fuel) (x ∷ buf) =
    let bits = collect long_frame 0 (replicate 14 0) (x ∷ buf) in
    let done = collect-IsSteady (x ∷ buf) long_frame 0 (replicate 14 0) fresh-IsSteady in
    let after = messages_loop-AllHeaded fuel (tail bits.rest) in
    if_cases AllHeaded (ltb 1 x) _ _ (λ e. messages_loop-AllHeaded fuel buf)
      (λ e.
        if_cases AllHeaded (ltb bits.data_i (bits.frame_len - 1)) _ _ (λ g. after)
          (λ g. (shown_lem bits done g, after)))

-- Whatever the samples, every frame that messages gives to display has 14 bytes and a first byte that
-- is not zero, and its length is 112 bits where the highest bit of the first byte is set, and 56 bits
-- where it is not.
pub messages-AllHeaded : (buf : List ℕ) → AllHeaded (messages buf)
unfolding messages
messages-AllHeaded buf = messages_loop-AllHeaded (length buf) buf
