-- ===== src/Ring/History.antt =====
-- The newest messages of a log, as appends add to them and reads take them.
use rtl_sdr.Prelude.{ℕ, zero, suc, ◌+◌, ◌-◌, ◌≤◌, ◌<◌, ◌≡◌, refl, ◌∙◌, ap, sym, inl, inr, arith}
use rtl_sdr.Prelude.{List, [], ◌∷◌, ◌++◌, append_assoc, Bool-cases, ltb}
use rtl_sdr.Prelude.{length, tail, get_or, length-append, u64_max}
use rtl_sdr.Ring.{found, empty}
use rtl_sdr.Ring.Log.{Log, append, keep_last, ask}

-- The log has come to `q + length ms`, and its newest messages are `ms`.
pub record Ends (l : Log) (q : ℕ) (g : ℕ) (ms : List (List ℕ)) : Type 0 where
  pub older : List (List ℕ)
  pub shown : l.window ≡ older ++ ms
  pub reached : l.next_seq ≡ q + length ms
  pub current : l.generation ≡ g

oldest_goes :
    (older ms : List (List ℕ)) (m : List ℕ)
    → 0 < length older
    → tail ((older ++ ms) ++ (m ∷ [])) ≡ tail older ++ (ms ++ (m ∷ []))
oldest_goes [] ms m h = absurd (omega arith)
oldest_goes (x ∷ older) ms m h = append_assoc older ms (m ∷ [])

get_or-append :
    (older : List (List ℕ)) (m : List ℕ) (ms : List (List ℕ)) (i : ℕ)
    → i ≡ length older
    → get_or (older ++ (m ∷ ms)) i [] ≡ m
get_or-append [] m ms zero e = refl
get_or-append [] m ms (suc i) e = absurd (omega arith)
get_or-append (x ∷ older) m ms zero e = absurd (omega arith)
get_or-append (x ∷ older) m ms (suc i) e = get_or-append older m ms i (omega arith)

pub append-Ends :
    (n : ℕ) (l : Log) (q g : ℕ) (ms : List (List ℕ)) (m : List ℕ)
    → Ends l q g ms
    → l.next_seq < u64_max
    → length ms < n
    → Ends (append n m l) q g (ms ++ (m ∷ []))
unfolding append keep_last
append-Ends n l q g ms m e more room = elim (Bool-cases (ltb (length l.window) n)) [
  | inl wide ↦ record {
    older = e.older;
    shown = ground (arith, append_assoc e.older ms (m ∷ []));
    reached = ground (arith, length-append ms (m ∷ []));
    current = ground arith;
  }
  | inr full ↦ record {
    older = tail e.older;
    shown = ground (arith, oldest_goes e.older ms m, length-append e.older ms, ap length e.shown);
    reached = ground (arith, length-append ms (m ∷ []));
    current = ground arith;
  }
]

pub ask-Ends :
    (l : Log) (q g capacity : ℕ) (m : List ℕ) (ms : List (List ℕ))
    → Ends l q g (m ∷ ms)
    → length l.window ≤ l.next_seq
    → length m ≤ capacity
    → ask l (record { next_seq = q; generation = g }) capacity
      ≡ record { result = found; cursor = record { next_seq = q + 1; generation = g }; message = m }
unfolding ask
ask-Ends l q g capacity m ms e w fits = ground (
  arith,
  ap length e.shown,
  length-append e.older (m ∷ ms),
  get_or-append e.older m ms (q - (l.next_seq - length l.window)),
)

pub Ends-tail :
    (l : Log) (q g : ℕ) (m : List ℕ) (ms : List (List ℕ))
    → Ends l q g (m ∷ ms)
    → Ends l (q + 1) g ms
Ends-tail l q g m ms e = record {
  older = e.older ++ (m ∷ []);
  shown = e.shown ∙ sym (append_assoc e.older (m ∷ []) ms);
  reached = omega (arith, e.reached);
  current = e.current;
}

pub ask-Ends_nil :
    (l : Log) (q g capacity : ℕ)
    → Ends l q g []
    → length l.window ≤ l.next_seq
    → ask l (record { next_seq = q; generation = g }) capacity
      ≡ record { result = empty; cursor = record { next_seq = q; generation = g }; message = [] }
unfolding ask
ask-Ends_nil l q g capacity e w = ground arith
