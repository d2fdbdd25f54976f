-- ===== src/Server/Pool/Drain.antt =====
-- The server's clients over every run: each socket and each filter is let go exactly once.
use rtl_sdr.Prelude.{ℕ, ◌<◌, ◌≡◌, refl, sym, ◌∙◌, ap, arith, subst}
use rtl_sdr.Prelude.{true, total, get_or-replicate}
use rtl_sdr.Server.Pool.{
  no_client, client_at, worker_run, worker_finish, request_stop, notify_frequency_change,
  next_generation,
}
use rtl_sdr.Server.Pool.Accounts.{
  IsBalanced, is_this, occupied, holds, uses, opens, closes, creates, destroys,
}
use rtl_sdr.Prelude.{total_zero, length}
use rtl_sdr.Server.Pool.Workers.{
  worker_run-IsBalanced, worker_finish-IsBalanced, worker_check-IsBalanced, reap_claim-IsBalanced,
  reap_release-IsBalanced,
}
use rtl_sdr.Server.Pool.Accept.{accept_client-IsBalanced, occupied-eq_zero}
use rtl_sdr.Server.Pool.Shut.{
  request_stop-IsBalanced, notify-IsBalanced, next_generation-IsBalanced,
}
use rtl_sdr.Server.Pool.Steps.{
  reaping, waiting, Server, Step, accepts, reaps, passes, claims, releases, polls, checks, runs,
  finishes, stops, retunes, gaps, Reach, begins, goes_on,
}
use rtl_sdr.Server.Pool.Places.{
  Knows, new_pool-IsBalanced, Knows-Spares, put-Spares, IsLeaving-busy, IsValid, busy,
  worker_check-Spares, is_passed_lem, reap_claim-Knows, reap_release-Knows, passed_lem,
  passed-Knows, accept_unclaimed,
}

-- Every step keeps both.
Step-IsValid : (s t : Server) → Step s t → IsValid s → IsValid t
unfolding worker_run worker_finish request_stop notify_frequency_change next_generation
Step-IsValid _ _ (accepts s from nonblocking mode threaded e) (b, k) = (
  accept_client-IsBalanced s.pool s.log from nonblocking mode threaded b,
  accept_unclaimed s.pool from nonblocking mode threaded b.slots (subst (Knows s.pool) e k),
)
Step-IsValid _ _ (reaps s all e) (b, k) =
    (b, (omega arith, subst (Knows s.pool) e k, λ _ j h. absurd (omega arith)))
Step-IsValid _ _ (passes s all i e h pass) (b, k) =
    let here : Knows s.pool (reaping all i) = subst (Knows s.pool) e k in
    (
      b,
      passed-Knows s.pool all i h
          (λ all_of_them. passed_lem all (client_at s.pool i).state all_of_them pass (here.1 i))
          here,
    )
Step-IsValid _ _ (claims s all i e h pass) (b, k) =
    let used = is_passed_lem all (client_at s.pool i).state pass in
    (
      reap_claim-IsBalanced s.pool s.log i b h used,
      reap_claim-Knows s.pool all i b.slots h used (subst (Knows s.pool) e k),
    )
Step-IsValid _ _ (releases s all i e gone) (b, k) =
    let here : Knows s.pool (waiting all i) = subst (Knows s.pool) e k in
    (
      reap_release-IsBalanced s.pool s.log i b here.0 here.1,
      reap_release-Knows s.pool all i b.slots here,
    )
Step-IsValid _ _ (polls s all e) (b, k) =
    let here : Knows s.pool (reaping all 32) = subst (Knows s.pool) e k in (b, here.1)
Step-IsValid _ _ (checks s i setup h e) (b, k) = (
  worker_check-IsBalanced s.pool s.log i setup b h e,
  Knows-Spares s.pool _ s.main
      (worker_check-Spares s.pool i setup b.slots h (busy s.pool s.log i b (λ a. cc))) k,
)
Step-IsValid _ _ (runs s i h e) (b, k) = (
  worker_run-IsBalanced s.pool s.log i b h e,
  Knows-Spares s.pool _ s.main
      (put-Spares s.pool i _ b.slots h (busy s.pool s.log i b (λ a. cc)) refl (λ n m. cc)) k,
)
Step-IsValid _ _ (finishes s i h e) (b, k) =
    let used = IsLeaving-busy (client_at s.pool i).worker e in
    (
      worker_finish-IsBalanced s.pool s.log i b h used,
      Knows-Spares s.pool _ s.main
          (put-Spares s.pool i _ b.slots h (busy s.pool s.log i b used) refl (λ n m. cc)) k,
    )
Step-IsValid _ _ (stops s) (b, k) = (
  request_stop-IsBalanced s.pool s.log b,
  Knows-Spares s.pool (request_stop s.pool).0 s.main
      (record { frees = λ j f. f; uses_on = λ j u. u; unclaimed = λ j n. n }) k,
)
Step-IsValid _ _ (retunes s freq) (b, k) = (
  notify-IsBalanced s.pool s.log freq b,
  Knows-Spares s.pool (notify_frequency_change s.pool freq).0 s.main
      (record { frees = λ j f. f; uses_on = λ j u. u; unclaimed = λ j n. n }) k,
)
Step-IsValid _ _ (gaps s) (b, k) = (
  next_generation-IsBalanced s.pool s.log b,
  Knows-Spares s.pool (next_generation s.pool).0 s.main
      (record { frees = λ j f. f; uses_on = λ j u. u; unclaimed = λ j n. n }) k,
)

-- From the start on both hold.
Reach-IsValid : (s : Server) → Reach s → IsValid s
Reach-IsValid _ begins = (
  new_pool-IsBalanced,
  λ j k. (let new = sym (ap (λ c. c.state) (get_or-replicate 32 no_client j)) ∙ k in cc),
)
Reach-IsValid _ (goes_on s t r step) = Step-IsValid s t step (Reach-IsValid s r)

-- In every state that the server comes to, whatever the order of the steps of the accepting thread,
-- the workers and the other threads: there are 32 slots, client_count is the number of those that
-- are not free, of every descriptor that accept gave as many were given as closed and as the slots
-- hold, and of every filter as many were created as destroyed and as the slots hold; and each slot
-- is sound: free slots hold nothing and have no worker, slots without a worker are free, and no
-- worker that has not checked its request has a filter.
pub Reach-IsBalanced : (s : Server) → Reach s → IsBalanced s.pool s.log
Reach-IsBalanced s r = (Reach-IsValid s r).0

-- When a round of reap_clients over all slots has come to its end, at any time and whatever the
-- workers, the peers and the other threads have done, no client is counted, every descriptor that
-- accept gave has been closed as often as it was given, and every filter destroyed as often as it
-- was created.
pub reap_all-Settled :
    (s : Server)
    → Reach s
    → s.main ≡ reaping true 32
    → (s.pool.client_count ≡ 0)
      × ((x : ℕ) → total (opens x) s.log ≡ total (closes x) s.log)
      × ((x : ℕ) → total (creates x) s.log ≡ total (destroys x) s.log)
reap_all-Settled s r e =
    let (b, k) = Reach-IsValid s r in
    let (_, _, free_below) = subst (Knows s.pool) e k in
    let is_free_at =
      λ (j : ℕ) (lt : j < length s.pool.clients). free_below refl j (omega (arith, lt, b.slots)) in
    let empty : total occupied s.pool.clients ≡ 0 =
      total_zero occupied s.pool.clients no_client
        (λ j lt. occupied-eq_zero (client_at s.pool j) (is_free_at j lt)) in
    let no_fds = λ (x : ℕ).
      total_zero (holds x) s.pool.clients no_client
        (λ j lt. ap (λ fd. is_this x fd) ((b.sound j).free_fd (is_free_at j lt))) in
    let no_dsps = λ (x : ℕ).
      total_zero (uses x) s.pool.clients no_client
        (λ j lt. ap (λ d. is_this x d) ((b.sound j).free_dsp (is_free_at j lt))) in
    (
      omega (arith, b.count, empty),
      (λ x. omega (arith, b.sockets x, no_fds x)),
      λ x. omega (arith, b.filters x, no_dsps x),
    )
