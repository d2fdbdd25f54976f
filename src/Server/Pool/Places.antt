-- ===== src/Server/Pool/Places.antt =====
-- What the place of the thread that reaps says of the slots, and what keeps it.
use rtl_sdr.Prelude.{ℕ, ◌+◌, ◌≤◌, ◌<◌, ◌≡◌, ◌≢◌, refl, sym, ◌∙◌, ap, arith, subst⁻¹}
use rtl_sdr.Prelude.{
  Status, ok, Option, none, some, not, ◌||◌, if◌then◌else◌, Bool, true, false, List, [], ◌∷◌,
  get_or-replicate,
}
use rtl_sdr.Server.Pool.{
  Pool, Client, Call, opened, closed, State, free, starting, running, done, joining, Worker, absent,
  new_pool, no_client, client_at, put_client, Setup, unfit, spectrum, channel, is_free, is_passed,
  accept_client, seat, seat_at, first_free, session_current, Peer, no_peer, broken, peer,
  worker_check, reap_claim, reap_release,
}
use rtl_sdr.Server.Pool.Accounts.{IsBalanced, IsSound}
use native.Mathlib.Decide.{ℕ_discrete}
use rtl_sdr.Prelude.{get_or-set_self, get_or-set_ne, length}
use rtl_sdr.Server.Pool.Workers.{has_worker}
use rtl_sdr.Server.Pool.Accept.{found_lem}
use rtl_sdr.Server.Pool.Steps.{
  Main, polling, reaping, waiting, Server, IsLeaving, refused_request, served,
}

abbrev IsFree : Pool → ℕ → Type 0
IsFree p i = ((client_at p i).state ≡ free)

abbrev IsJoining : Pool → ℕ → Type 0
IsJoining p i = ((client_at p i).state ≡ joining)

-- What the place of the thread says: the slot that it waits for is in use, no other is claimed, and
-- a round over all the slots leaves free ones behind.
abbrev pub Knows : Pool → Main → Type 0
Knows p polling = (j : ℕ) → ¬ IsJoining p j
Knows p (reaping all i) =
    (i ≤ 32) × ((j : ℕ) → ¬ IsJoining p j) × (all ≡ true → (j : ℕ) → j < i → IsFree p j)
Knows p (waiting all i) =
    (i < 32)
    × (is_free (client_at p i).state ≡ false)
    × ((j : ℕ) → i ≢ j → ¬ IsJoining p j)
    × (all ≡ true → (j : ℕ) → j < i → IsFree p j)

pub new_pool-IsBalanced : IsBalanced new_pool []
new_pool-IsBalanced = record {
  slots = refl;
  count = refl;
  sockets = λ x. refl;
  filters = λ x. refl;
  sound = λ i. subst⁻¹ IsSound (get_or-replicate 32 no_client i) (record {
    free_fd = λ k. refl;
    free_dsp = λ k. refl;
    free_worker = λ k. refl;
    worker_free = λ k. refl;
    checking_dsp = λ k. refl;
  });
}

-- A change that keeps the free slots free and the others in use keeps what the thread knows.
pub record Spares (p q : Pool) : Type 0 where
  pub frees : (j : ℕ) → IsFree p j → IsFree q j
  pub uses_on :
      (j : ℕ) → is_free (client_at p j).state ≡ false → is_free (client_at q j).state ≡ false
  pub unclaimed : (j : ℕ) → ¬ IsJoining p j → ¬ IsJoining q j

pub Knows-Spares : (p q : Pool) (main : Main) → Spares p q → Knows p main → Knows q main
Knows-Spares p q polling s k = λ j. s.unclaimed j (k j)
Knows-Spares p q (reaping all i) s (low, none_claimed, free_below) =
    (low, (λ j. s.unclaimed j (none_claimed j)), λ e j h. s.frees j (free_below e j h))
Knows-Spares p q (waiting all i) s (low, used, none_claimed, free_below) = (
  low,
  s.uses_on i used,
  (λ j ne. s.unclaimed j (none_claimed j ne)),
  λ e j h. s.frees j (free_below e j h),
)

at_self :
    (p : Pool) (i : ℕ) (cl : Client)
    → length p.clients ≡ 32
    → i < 32
    → client_at (put_client p i cl) i ≡ cl
at_self p i cl e h = get_or-set_self p.clients i cl no_client (omega (arith, e, h))

-- A slot that is set to another state than JOINING claims none.
put_unclaimed :
    (p : Pool) (i : ℕ) (cl : Client)
    → length p.clients ≡ 32
    → i < 32
    → ((client_at p i).state ≢ joining → cl.state ≢ joining)
    → (j : ℕ) → ¬ IsJoining p j
    → ¬ IsJoining (put_client p i cl) j
put_unclaimed p i cl size h claim j n k = elim (ℕ_discrete i j) [
  | yes e ↦
      claim (λ old. n (ap (λ m. (client_at p m).state) (sym e) ∙ old))
        (sym (ap (λ c. c.state) (at_self p i cl size h))
          ∙ ap (λ m. (client_at (put_client p i cl) m).state) e
          ∙ k)
  | no ne ↦ n (sym (ap (λ c. c.state) (get_or-set_ne p.clients i j cl no_client ne)) ∙ k)
]

pub put-Spares :
    (p : Pool) (i : ℕ) (cl : Client)
    → length p.clients ≡ 32
    → i < 32
    → is_free (client_at p i).state ≡ false
    → is_free cl.state ≡ false
    → ((client_at p i).state ≢ joining → cl.state ≢ joining)
    → Spares p (put_client p i cl)
put-Spares p i cl size h before after claim = record {
  frees = λ j f. elim (ℕ_discrete i j) [
    | yes e ↦
        (let used = ap (λ k. is_free (client_at p k).state) e in let freed = ap is_free f in cc)
    | no ne ↦ ap (λ c. c.state) (get_or-set_ne p.clients i j cl no_client ne) ∙ f
  ];
  uses_on = λ j u. elim (ℕ_discrete i j) [
    | yes e ↦
        ap (λ k. is_free (client_at (put_client p i cl) k).state) (sym e)
        ∙ ap (λ c. is_free c.state) (at_self p i cl size h)
        ∙ after
    | no ne ↦ ap (λ c. is_free c.state) (get_or-set_ne p.clients i j cl no_client ne) ∙ u
  ];
  unclaimed = put_unclaimed p i cl size h claim;
}

pub IsLeaving-busy : (w : Worker) → IsLeaving w → w ≢ absent
IsLeaving-busy _ refused_request k = cc
IsLeaving-busy _ served k = cc

abbrev pub IsValid : Server → Type 0
IsValid s = IsBalanced s.pool s.log × Knows s.pool s.main

-- A slot with a worker is in use.
pub busy :
    (p : Pool) (log : List Call) (i : ℕ)
    → IsBalanced p log
    → (client_at p i).worker ≢ absent
    → is_free (client_at p i).state ≡ false
busy p log i b h = has_worker (client_at p i) (b.sound i) h

pub worker_check-Spares :
    (p : Pool) (i : ℕ) (setup : Setup)
    → length p.clients ≡ 32
    → i < 32
    → is_free (client_at p i).state ≡ false
    → Spares p (worker_check p i setup).0
unfolding worker_check
worker_check-Spares p i unfit size h used = put-Spares p i _ size h used used (λ n. n)
worker_check-Spares p i spectrum size h used = put-Spares p i _ size h used used (λ n. n)
worker_check-Spares p i (channel freq rate bandwidth dsp) size h used =
    put-Spares p i _ size h used used (λ n. n)

-- The slot that the reaper claims is in use, and stays so.
pub is_passed_lem : (all : Bool) (s : State) → is_passed all s ≡ false → is_free s ≡ false
is_passed_lem all free h = cc
is_passed_lem all starting h = refl
is_passed_lem all running h = refl
is_passed_lem all done h = refl
is_passed_lem all joining h = cc

pub reap_claim-Knows :
    (p : Pool) (all : Bool) (i : ℕ)
    → length p.clients ≡ 32
    → i < 32
    → is_free (client_at p i).state ≡ false
    → Knows p (reaping all i)
    → Knows (reap_claim p i).0 (waiting all i)
unfolding reap_claim
reap_claim-Knows p all i size h used (_, none_claimed, free_below) =
    let cl : Client = record (client_at p i) { state = joining } in
    (
      h,
      ap (λ c. is_free c.state) (at_self p i cl size h),
      (λ j ne k.
          none_claimed j
            (sym (ap (λ c. c.state) (get_or-set_ne p.clients i j cl no_client ne)) ∙ k)),
      λ e j lt.
          ap (λ c. c.state)
            (get_or-set_ne p.clients i j cl no_client (λ same. absurd (omega (arith, same, lt))))
          ∙ free_below e j lt,
    )

-- The slot that the reaper has let go is free, as those before it.
pub reap_release-Knows :
    (p : Pool) (all : Bool) (i : ℕ)
    → length p.clients ≡ 32
    → Knows p (waiting all i)
    → Knows (reap_release p i).0 (reaping all (i + 1))
unfolding reap_release
reap_release-Knows p all i size (h, _, none_claimed, free_below) =
    let cl : Client = record (client_at p i) {
      fd = none;
      dsp = none;
      state = free;
      worker = absent;
    } in
    (
      omega arith,
      (λ j k. elim (ℕ_discrete i j) [
        | yes same ↦
            (let freed =
                ap (λ k. (client_at (put_client p i cl) k).state) (sym same)
                ∙ ap (λ c. c.state) (at_self p i cl size h) in
              cc)
        | no ne ↦
            none_claimed j ne
              (sym (ap (λ c. c.state) (get_or-set_ne p.clients i j cl no_client ne)) ∙ k)
      ]),
      λ e j lt. elim (ℕ_discrete i j) [
        | yes same ↦
            ap (λ k. (client_at (put_client p i cl) k).state) (sym same)
            ∙ ap (λ c. c.state) (at_self p i cl size h)
        | no ne ↦
            ap (λ c. c.state) (get_or-set_ne p.clients i j cl no_client ne)
            ∙ free_below e j (omega arith)
      ],
    )

-- A slot that a round over all passes over is free where none is claimed.
pub passed_lem :
    (all : Bool) (s : State) → all ≡ true → is_passed all s ≡ true → s ≢ joining → s ≡ free
passed_lem true free e h n = refl
passed_lem true starting e h n = cc
passed_lem true running e h n = cc
passed_lem true done e h n = cc
passed_lem true joining e h n = absurd (n refl)
passed_lem false s e h n = cc

pub passed-Knows :
    (p : Pool) (all : Bool) (i : ℕ)
    → i < 32
    → (all ≡ true → IsFree p i)
    → Knows p (reaping all i)
    → Knows p (reaping all (i + 1))
passed-Knows p all i h passed (_, none_claimed, free_below) = (
  omega arith,
  none_claimed,
  λ e j lt. elim (ℕ_discrete i j) [
    | yes same ↦ ap (λ k. (client_at p k).state) (sym same) ∙ passed e
    | no ne ↦ free_below e j (omega arith)
  ],
)

seat_at_unclaimed :
    (p : Pool) (fd mode : ℕ) (threaded : Bool) (found : Option ℕ)
    → length p.clients ≡ 32
    → ((i : ℕ) → found ≡ some i → i < length p.clients)
    → ((j : ℕ) → ¬ IsJoining p j)
    → (j : ℕ) → ¬ IsJoining (seat_at p fd mode threaded found).0 j
unfolding seat_at
seat_at_unclaimed p fd mode threaded none size low n = n
seat_at_unclaimed p fd mode true (some i) size low n =
    λ j. put_unclaimed p i _ size (omega (arith, size, low i refl)) (λ m k. cc) j (n j)
seat_at_unclaimed p fd mode false (some i) size low n =
    λ j. put_unclaimed p i _ size (omega (arith, size, low i refl)) (λ m k. cc) j (n j)

pub accept_unclaimed :
    (p : Pool) (from : Peer) (nonblocking : Bool) (mode : ℕ) (threaded : Bool)
    → length p.clients ≡ 32
    → ((j : ℕ) → ¬ IsJoining p j)
    → (j : ℕ) → ¬ IsJoining (accept_client p from nonblocking mode threaded).1.0 j
unfolding accept_client seat
accept_unclaimed p no_peer nonblocking mode threaded size n = n
accept_unclaimed p broken nonblocking mode threaded size n = n
accept_unclaimed p (peer fd) nonblocking mode threaded size n =
    elim (not nonblocking || not (session_current p 1).0)
      as (λ refused.
        let r : Status × (Pool × List Call) =
          if refused
          then (ok, (p, opened fd ∷ closed fd ∷ []))
          else (ok, seat p fd mode threaded) in
        (j : ℕ) → ¬ IsJoining r.1.0 j) [
          | true ↦ n
          | false ↦
              seat_at_unclaimed p fd mode threaded
                (if p.stopping then none else first_free p.clients) size
                (λ i e. (found_lem p.stopping p.clients i e).0) n
        ]
