-- ===== src/Client/Arrivals.antt =====
-- `recv_all` and how the network cuts the stream: only the bytes count.
use rtl_sdr.Prelude.{ℕ, suc, ◌-◌, ◌≤◌, ◌<◌, ◌≡◌, refl, ◌∙◌, ap, arith}
use rtl_sdr.Prelude.{some, List, [], ◌∷◌, ◌++◌}
use rtl_sdr.Prelude.{length, take, drop, length-append, length-drop}
use native.Mathlib.Decide.{dec_le}
use rtl_sdr.Client.{Arrival, interrupted, broken, chunk, recv_all}

-- The bytes of the arrivals, one after the other.
abbrev pub content : List Arrival → List ℕ
content [] = []
content (interrupted ∷ es) = content es
content (broken ∷ es) = content es
content (chunk bs ∷ es) = bs ++ content es

-- The connection neither fails nor ends before these bytes have come.
abbrev pub IsLive : List Arrival → Type 0
IsLive [] = Unit {0}
IsLive (interrupted ∷ es) = IsLive es
IsLive (broken ∷ es) = ⊥
IsLive (chunk [] ∷ es) = ⊥
IsLive (chunk (b ∷ bs) ∷ es) = IsLive es

-- Where two lists with a rest are equal, the longer begins with the shorter.
split_longer :
    (xs ys zs rest : List ℕ)
    → xs ++ zs ≡ ys ++ rest
    → length xs ≤ length ys
    → (mid : List ℕ) × (ys ≡ xs ++ mid) × (zs ≡ mid ++ rest)
split_longer [] ys zs rest e h = (ys, refl, e)
split_longer (x ∷ xs) [] zs rest e h = absurd (omega arith)
split_longer (x ∷ xs) (y ∷ ys) zs rest e h =
    let (mid, p, q) = split_longer xs ys zs rest (cc) (omega arith) in (mid, cc, q)

take-append : (xs ys : List ℕ) → take (length xs) (xs ++ ys) ≡ xs
take-append [] ys = refl
take-append (x ∷ xs) ys = ap (λ t. x ∷ t) (take-append xs ys)

drop-append : (xs ys : List ℕ) → drop (length xs) (xs ++ ys) ≡ ys
drop-append [] ys = refl
drop-append (x ∷ xs) ys = drop-append xs ys

chunk-IsLive :
    (bs : List ℕ) (es : List Arrival) → 0 < length bs → IsLive es → IsLive (chunk bs ∷ es)
chunk-IsLive [] es h live = absurd (omega arith)
chunk-IsLive (b ∷ bs) es h live = live

-- A chunk that ends within the bytes asked for is consumed; one that goes on is cut.
recv_all-whole :
    (left c : ℕ) (cs more : List ℕ) (es after : List Arrival)
    → length cs ≤ left
    → recv_all (left - length cs) es ≡ some (more, after)
    → recv_all (suc left) (chunk (c ∷ cs) ∷ es) ≡ some (c ∷ (cs ++ more), after)
unfolding recv_all
recv_all-whole left c cs more es after h e = ground arith

recv_all-cut :
    (left c : ℕ) (cs : List ℕ) (es : List Arrival)
    → left < length cs
    → recv_all (suc left) (chunk (c ∷ cs) ∷ es) ≡ some (c ∷ take left cs, chunk (drop left cs) ∷ es)
unfolding recv_all
recv_all-cut left c cs es h = ground arith

-- However the bytes are cut into chunks, `recv_all` gives the first `n` of them and leaves the rest.
pub recv_all_lem :
    (es : List Arrival) (bytes rest : List ℕ)
    → IsLive es
    → content es ≡ bytes ++ rest
    → (after : List Arrival) × (recv_all (length bytes) es ≡ some (bytes, after))
      × IsLive after
      × (content after ≡ rest)
unfolding recv_all
recv_all_lem es [] rest live e = (es, refl, live, e)
recv_all_lem [] (b ∷ bytes) rest live e = cc
recv_all_lem (interrupted ∷ es) (b ∷ bytes) rest live e = recv_all_lem es (b ∷ bytes) rest live e
recv_all_lem (broken ∷ es) (b ∷ bytes) rest live e = absurd live
recv_all_lem (chunk [] ∷ es) (b ∷ bytes) rest live e = absurd live
recv_all_lem (chunk (c ∷ cs) ∷ es) (b ∷ bytes) rest live e =
    elim (dec_le (length cs) (length bytes)) [
      | yes short ↦
          (let (mid, p, q) = split_longer cs bytes (content es) rest (cc) short in
            let (after, got, still, left) = recv_all_lem es mid rest live q in
            (
              after,
              recv_all-whole (length bytes) c cs mid es after short (
                    ap (λ n. recv_all n es) (omega (arith, ap length p, length-append cs mid))
                    ∙ got)
                  ∙ (cc),
              still,
              left,
            ))
      | no long ↦
          (let (mid, p, q) = split_longer bytes cs rest (content es) (cc) (omega arith) in
            (
              chunk (drop (length bytes) cs) ∷ es,
              recv_all-cut (length bytes) c cs es (omega arith)
                  ∙ (cc (ap (take (length bytes)) p, take-append bytes mid)),
              chunk-IsLive (drop (length bytes) cs) es
                  (omega (arith, length-drop (length bytes) cs)) live,
              (cc (ap (drop (length bytes)) p, drop-append bytes mid)),
            ))
    ]
