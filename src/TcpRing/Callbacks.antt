-- ===== src/TcpRing/Callbacks.antt =====
-- What whole callbacks of src/rtl_tcp.c leave in the ring.
use rtl_sdr.Prelude.{
  ℕ, zero, suc, ◌+◌, ◌-◌, ◌*◌, ◌%◌, ◌^◌, ◌≤◌, ◌<◌, ◌≡◌, ◌≢◌, refl, sym, ◌∙◌, ap, arith, subst,
  subst⁻¹, false, ◌||◌, if◌then◌else◌, if_true, if_false, List, [], ◌∷◌, ◌++◌, length, length-take,
  get_or, take, drop, ltb, ◌==◌, bit_and, u32, Buffer, store, fill, fill_self, fill_before,
  fill_after,
}
use native.Mathlib.Decide.{dec_lt, ℕ_discrete}
use rtl_sdr.TcpRing.{
  RingBuffer, CallbackStep, copied, callback_step, copies, stored, ring_publish, ring_write_ptr,
  callback, callbacks, run_callback, slot_mask, slot_size,
}
use rtl_sdr.TcpRing.Steps.{slot_index, Kept, AllInSlot, store_other, other_slot}

fits_lem : (z : ℕ) (buf : List ℕ) → length (if ltb z (length buf) then take z buf else buf) ≤ z
fits_lem z buf = elim (dec_lt z (length buf)) [
  | yes over ↦ ground (arith, length-take z buf)
  | no fits ↦ ground arith
]

stored_fits : (buf : List ℕ) → length (stored buf) ≤ slot_size
unfolding stored
stored_fits buf = fits_lem slot_size buf

callback_eq :
    (buf : List ℕ)
    → 0 < length buf
    → callback false buf ≡ copies 0 (stored buf) ++ ring_publish (length (stored buf))
unfolding callback
callback_eq buf h = if_false (false || length buf == 0) _ _ (ground arith)

callback_none : (buf : List ℕ) → length buf ≤ 0 → callback false buf ≡ []
unfolding callback
callback_none buf h = if_true (false || length buf == 0) _ _ (ground arith)

AllInSlot-append : (xs ys : List CallbackStep) → AllInSlot xs → AllInSlot ys → AllInSlot (xs ++ ys)
AllInSlot-append [] ys hx hy = hy
AllInSlot-append (x ∷ xs) ys (here, hx) hy = (here, AllInSlot-append xs ys hx hy)

copies-AllInSlot :
    (i : ℕ) (bytes : List ℕ) → i + length bytes ≤ slot_size → AllInSlot (copies i bytes)
unfolding copies
copies-AllInSlot i [] h = omega arith
copies-AllInSlot i (b ∷ bytes) h = (omega arith, copies-AllInSlot (i + 1) bytes (omega arith))

callback-AllInSlot : (buf : List ℕ) → AllInSlot (callback false buf)
callback-AllInSlot buf = elim (dec_lt 0 (length buf)) [
  | yes some_bytes ↦ subst⁻¹ AllInSlot (callback_eq buf some_bytes) (
      AllInSlot-append (copies 0 (stored buf)) _
        (copies-AllInSlot 0 (stored buf) (omega (arith, stored_fits buf)))
        (omega arith, (omega arith, omega arith)))
  | no empty ↦ subst⁻¹ AllInSlot (callback_none buf (omega arith)) (omega arith)
]

callbacks-AllInSlot : (bufs : List (List ℕ)) → AllInSlot (callbacks bufs)
unfolding callbacks
callbacks-AllInSlot [] = omega arith
callbacks-AllInSlot (buf ∷ bufs) =
    AllInSlot-append (callback false buf) (callbacks bufs) (callback-AllInSlot buf)
      (callbacks-AllInSlot bufs)

drop-AllInSlot : (j : ℕ) (xs : List CallbackStep) → AllInSlot xs → AllInSlot (drop j xs)
drop-AllInSlot zero xs h = h
drop-AllInSlot (suc j) [] h = h
drop-AllInSlot (suc j) (x ∷ xs) h = drop-AllInSlot j xs h.1

pub drop-callbacks-AllInSlot : (j : ℕ) (bufs : List (List ℕ)) → AllInSlot (drop j (callbacks bufs))
drop-callbacks-AllInSlot j bufs = drop-AllInSlot j (callbacks bufs) (callbacks-AllInSlot bufs)

-- The ring after these steps.
abbrev pub after : RingBuffer → List CallbackStep → RingBuffer
after r [] = r
after r (s ∷ todo) = after (callback_step r s) todo

after-append :
    (r : RingBuffer) (xs ys : List CallbackStep) → after r (xs ++ ys) ≡ after (after r xs) ys
after-append r [] ys = refl
after-append r (x ∷ xs) ys = after-append (callback_step r x) xs ys

pub run_callback_all :
    (r : RingBuffer) (todo more : List CallbackStep)
    → run_callback (length todo) r (todo ++ more) ≡ record { ring = after r todo; ahead = more }
unfolding run_callback
run_callback_all r [] more = refl
run_callback_all r (s ∷ todo) more = run_callback_all (callback_step r s) todo more

after-copies :
    (r : RingBuffer) (i : ℕ) (bytes : List ℕ)
    → after r (copies i bytes)
      ≡ record r { contents = fill r.contents (ring_write_ptr r + i) bytes }
unfolding copies callback_step
after-copies r i [] = refl
after-copies r i (b ∷ bytes) =
    after-copies (callback_step r (copied i b)) (i + 1) bytes
    ∙ ap (λ a. record r { contents = fill (store r.contents (ring_write_ptr r + i) b) a bytes })
        {x = ring_write_ptr r + (i + 1)} {y = ring_write_ptr r + i + 1} (omega arith)

-- The ring after a callback.
abbrev wrote : RingBuffer → List ℕ → RingBuffer
wrote r bytes = record {
  contents = fill r.contents (ring_write_ptr r + 0) bytes;
  lens = store r.lens (bit_and r.write_pos slot_mask) (length bytes);
  write_pos = u32 (r.write_pos + 1);
}

after-callback :
    (r : RingBuffer) (buf : List ℕ)
    → 0 < length buf
    → after r (callback false buf) ≡ wrote r (stored buf)
after-callback r buf h =
    let bytes = stored buf in
    ap (after r) (callback_eq buf h)
    ∙ after-append r (copies 0 bytes) (ring_publish (length bytes))
    ∙ ap (λ t. after t (ring_publish (length bytes))) (after-copies r 0 bytes)
    ∙ unfold callback_step in refl

-- These buffers are not empty and are what `h` gives from `n` on.
abbrev pub Follow : (ℕ → List ℕ) → ℕ → List (List ℕ) → Type 0
Follow h n [] = 0 ≤ 0
Follow h n (buf ∷ bufs) = (0 < length buf) × (h n ≡ stored buf) × Follow h (n + 1) bufs

fill_apart :
    (buf : Buffer) (a b : ℕ) (bytes : List ℕ) (i : ℕ)
    → a ≢ b
    → length bytes ≤ slot_size
    → i < slot_size
    → fill buf (b * slot_size) bytes (a * slot_size + i) ≡ buf (a * slot_size + i)
fill_apart buf a b bytes i apart small inside = elim (dec_lt a b) [
  | yes below ↦ fill_before buf (b * slot_size) bytes (a * slot_size + i) (omega arith)
  | no above ↦ fill_after buf (b * slot_size) bytes (a * slot_size + i) (omega (arith, apart))
]

store_here : (buf : Buffer) (i v j : ℕ) → j ≡ i → store buf i v j ≡ v
store_here buf i v j h = ground arith

-- A callback keeps the buffers of less than 512 before, and puts its own behind them.
wrote-Kept :
    (h : ℕ → List ℕ) (n : ℕ) (r : RingBuffer) (bytes : List ℕ)
    → r.write_pos ≡ n % 2 ^ 32
    → h n ≡ bytes
    → length bytes ≤ slot_size
    → Kept h (n - 512) n r
    → Kept h (n + 1 - 512) (n + 1) (wrote r bytes)
wrote-Kept h n r bytes at_n e small k =
    let index : bit_and r.write_pos slot_mask ≡ n % 512 =
      ap (λ w. bit_and w slot_mask) at_n ∙ slot_index n in
    let base : ring_write_ptr r + 0 ≡ n % 512 * slot_size = omega (arith, index) in
    record {
      fits = λ j low high. elim (ℕ_discrete j n) [
        | yes same ↦ omega (arith, small, ap length (ap h same ∙ e))
        | no other ↦ k.fits j (omega arith) (omega (arith, other))
      ];
      len_of = λ j low high. elim (ℕ_discrete j n) [
        | yes same ↦
            (let here : j % 512 ≡ bit_and r.write_pos slot_mask =
                ap (λ t. t % 512) same ∙ sym index in
              store_here r.lens _ (length bytes) (j % 512) here ∙ sym (ap length (ap h same ∙ e)))
        | no other ↦
            (let before : j < n = omega (arith, other) in
              store_other r.lens _ (length bytes) (j % 512)
                (λ z. other_slot (n + 1 - 512) j n low before (omega arith) (z ∙ index))
              ∙ k.len_of j (omega arith) before)
      ];
      byte_of = λ j i low high inside.
          ap (λ a. fill r.contents a bytes (j % 512 * slot_size + i)) base ∙ elim (ℕ_discrete j n) [
            | yes same ↦
                (let size : length (h j) ≡ length bytes = ap length (ap h same ∙ e) in
                  ap (λ t. fill r.contents (n % 512 * slot_size) bytes (t % 512 * slot_size + i))
                    same
                  ∙ fill_self r.contents (n % 512 * slot_size) bytes i (omega (arith, size))
                  ∙ ap (λ t. get_or t i 0) (sym (ap h same ∙ e)))
            | no other ↦
                (let before : j < n = omega (arith, other) in
                  let apart = other_slot (n + 1 - 512) j n low before (omega arith) in
                  fill_apart r.contents (j % 512) (n % 512) bytes i apart small
                    (omega (arith, k.fits j (omega arith) before))
                  ∙ k.byte_of j i (omega arith) before inside)
          ];
    }

pub callbacks-Kept :
    (h : ℕ → List ℕ) (n : ℕ) (r : RingBuffer) (bufs : List (List ℕ))
    → r.write_pos ≡ n % 2 ^ 32
    → Kept h (n - 512) n r
    → Follow h n bufs
    → Kept h (n + length bufs - 512) (n + length bufs) (after r (callbacks bufs))
      × ((after r (callbacks bufs)).write_pos ≡ (n + length bufs) % 2 ^ 32)
unfolding callbacks
callbacks-Kept h n r [] at_n k f =
    (subst (λ t. Kept h (t - 512) t r) {x = n} {y = n + 0} (omega arith) k, omega (arith, at_n))
callbacks-Kept h n r (buf ∷ bufs) at_n k (some_bytes, e, f) =
    let split =
      after-append r (callback false buf) (callbacks bufs)
      ∙ ap (λ t. after t (callbacks bufs)) (after-callback r buf some_bytes) in
    subst
      (λ m.
        Kept h (m - 512) m (after r (callbacks (buf ∷ bufs)))
        × ((after r (callbacks (buf ∷ bufs))).write_pos ≡ m % 2 ^ 32))
      {x = n + 1 + length bufs} {y = n + length (buf ∷ bufs)} (omega arith)
      (subst⁻¹
        (λ t.
          Kept h (n + 1 + length bufs - 512) (n + 1 + length bufs) t
          × (t.write_pos ≡ (n + 1 + length bufs) % 2 ^ 32))
        split
        (callbacks-Kept h (n + 1) (wrote r (stored buf)) bufs (omega (arith, at_n))
          (wrote-Kept h n r (stored buf) at_n e (stored_fits buf) k) f))
