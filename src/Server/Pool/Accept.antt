-- ===== src/Server/Pool/Accept.antt =====
-- `accept_client` keeps the balance of the clients.
use rtl_sdr.Prelude.{ℕ, suc, ◌+◌, ◌<◌, ◌≡◌, ◌⊎◌, inl, inr, refl, ◌∙◌, ap, arith}
use rtl_sdr.Prelude.{
  Status, ok, Bool, true, false, not, ◌||◌, if◌then◌else◌, Option, none, some, Bool-cases, List, [],
  ◌∷◌, ◌++◌, total, length, get_or,
}
use rtl_sdr.Server.Pool.{
  Pool, Client, Call, opened, closed, State, free, starting, running, done, joining, no_client,
  client_at, is_free, first_free, seat, seat_at, Peer, no_peer, broken, peer, accept_client,
  session_current,
}
use rtl_sdr.Server.Pool.Accounts.{
  IsBalanced, IsSound, Settles, AreNeutral, occupied, holds, is_this, opens, closes, creates,
  destroys, put_client-IsBalanced, calls-IsBalanced,
}

is_free_lem : (s : State) → is_free s ≡ true → s ≡ free
is_free_lem free h = refl
is_free_lem starting h = cc
is_free_lem running h = cc
is_free_lem done h = cc
is_free_lem joining h = cc

first_free_cons :
    (s : State) (rest : Option ℕ) (i : ℕ)
    → (if is_free s then some 0 else elim rest [ none ↦ none | some j ↦ some (suc j) ]) ≡ some i
    → ((i ≡ 0) × (s ≡ free)) ⊎ ((j : ℕ) × (rest ≡ some j) × (i ≡ suc j))
first_free_cons s none i h = elim (Bool-cases (is_free s)) [
  | inl e ↦ inl (ground arith, is_free_lem s e)
  | inr e ↦ ground arith
]
first_free_cons s (some j) i h = elim (Bool-cases (is_free s)) [
  | inl e ↦ inl (ground arith, is_free_lem s e)
  | inr e ↦ inr (j, refl, ground arith)
]

-- What is found is a free slot.
first_free_lem :
    (cls : List Client) (i : ℕ)
    → first_free cls ≡ some i
    → (i < length cls) × ((get_or cls i no_client).state ≡ free)
unfolding first_free
first_free_lem [] i h = cc
first_free_lem (cl ∷ cls) i h = elim (first_free_cons cl.state (first_free cls) i h) [
  | inl (e, is_free) ↦
      (omega (arith, e), ap (λ k. (get_or (cl ∷ cls) k no_client).state) e ∙ is_free)
  | inr (j, found, e) ↦
      (let (low, is_free) = first_free_lem cls j found in
        (omega (arith, e, low), ap (λ k. (get_or (cl ∷ cls) k no_client).state) e ∙ is_free))
]

pair-AreNeutral : (fd : ℕ) → AreNeutral (opened fd ∷ closed fd ∷ [])
pair-AreNeutral fd = record { same_fds = λ x. omega arith; same_dsps = λ x. refl }

pub occupied-eq_zero : (cl : Client) → cl.state ≡ free → occupied cl ≡ 0
occupied-eq_zero cl e = ap (λ s. if is_free s then 0 else 1) e

fresh-Settles :
    (cl new : Client) (fd : ℕ) (calls : List Call)
    → IsSound cl
    → cl.state ≡ free
    → ((x : ℕ) → total (opens x) calls ≡ total (closes x) calls + holds x new)
    → ((x : ℕ) → total (creates x) calls ≡ total (destroys x) calls)
    → new.dsp ≡ none
    → IsSound new
    → Settles calls cl new
fresh-Settles cl new fd calls s e fds dsps no_dsp stays = record {
  fds = λ x. omega (arith, fds x, ap (is_this x) (s.free_fd e));
  dsps = λ x. omega (arith, dsps x, ap (is_this x) (s.free_dsp e), ap (is_this x) no_dsp);
  stays = stays;
}

seat_at-IsBalanced :
    (p : Pool) (log : List Call) (fd mode : ℕ) (threaded : Bool) (found : Option ℕ)
    → IsBalanced p log
    → ((i : ℕ) → found ≡ some i → (i < length p.clients) × ((client_at p i).state ≡ free))
    → IsBalanced (seat_at p fd mode threaded found).0 (log ++ (seat_at p fd mode threaded found).1)
unfolding seat_at
seat_at-IsBalanced p log fd mode threaded none b h = calls-IsBalanced p log _ b (pair-AreNeutral fd)
seat_at-IsBalanced p log fd mode true (some i) b h =
    let (low, is_free) = h i refl in
    put_client-IsBalanced p log i _ (opened fd ∷ []) (p.client_count + 1) b
      (omega (arith, low, b.slots))
      (fresh-Settles (client_at p i) _ fd (opened fd ∷ []) (b.sound i) is_free (λ x. omega arith)
        (λ x. refl) refl
        (record {
          free_fd = λ k. cc;
          free_dsp = λ k. refl;
          free_worker = λ k. cc;
          worker_free = λ k. cc;
          checking_dsp = λ k. refl;
        }))
      (omega (arith, occupied-eq_zero (client_at p i) is_free))
seat_at-IsBalanced p log fd mode false (some i) b h =
    let (low, is_free) = h i refl in
    put_client-IsBalanced p log i _ (opened fd ∷ closed fd ∷ []) p.client_count b
      (omega (arith, low, b.slots))
      (fresh-Settles (client_at p i) _ fd (opened fd ∷ closed fd ∷ []) (b.sound i) is_free
        (λ x. omega arith) (λ x. refl) refl
        (record {
          free_fd = λ k. refl;
          free_dsp = λ k. refl;
          free_worker = λ k. refl;
          worker_free = λ k. refl;
          checking_dsp = λ k. refl;
        }))
      (omega (arith, occupied-eq_zero (client_at p i) is_free))

pub found_lem :
    (stopping : Bool) (cls : List Client) (i : ℕ)
    → (if stopping then none else first_free cls) ≡ some i
    → (i < length cls) × ((get_or cls i no_client).state ≡ free)
found_lem true cls i h = cc
found_lem false cls i h = first_free_lem cls i h

seat-IsBalanced :
    (p : Pool) (log : List Call) (fd mode : ℕ) (threaded : Bool)
    → IsBalanced p log
    → IsBalanced (seat p fd mode threaded).0 (log ++ (seat p fd mode threaded).1)
unfolding seat
seat-IsBalanced p log fd mode threaded b =
    seat_at-IsBalanced p log fd mode threaded (if p.stopping then none else first_free p.clients) b
      (found_lem p.stopping p.clients)

pub accept_client-IsBalanced :
    (p : Pool) (log : List Call) (from : Peer) (nonblocking : Bool) (mode : ℕ) (threaded : Bool)
    → IsBalanced p log
    → let after = (accept_client p from nonblocking mode threaded).1 in
      IsBalanced after.0 (log ++ after.1)
unfolding accept_client
accept_client-IsBalanced p log no_peer nonblocking mode threaded b =
    calls-IsBalanced p log [] b (record { same_fds = λ x. refl; same_dsps = λ x. refl })
accept_client-IsBalanced p log broken nonblocking mode threaded b =
    calls-IsBalanced p log [] b (record { same_fds = λ x. refl; same_dsps = λ x. refl })
accept_client-IsBalanced p log (peer fd) nonblocking mode threaded b =
    elim (not nonblocking || not (session_current p 1).0)
      as (λ refused.
        let r : Status × (Pool × List Call) =
          if refused
          then (ok, (p, opened fd ∷ closed fd ∷ []))
          else (ok, seat p fd mode threaded) in
        let after = r.1 in IsBalanced after.0 (log ++ after.1)) [
          | true ↦ calls-IsBalanced p log _ b (pair-AreNeutral fd)
          | false ↦ seat-IsBalanced p log fd mode threaded b
        ]
