-- ===== src/Server/Pool/Tests.antt =====
-- One client with a channel from `accept` to the end of a round over all slots.
use rtl_sdr.Prelude.{
  ℕ, zero, suc, ◌+◌, ◌≡◌, refl, ◌∙◌, ap, arith, subst, true, some, total, get_or-replicate,
}
use rtl_sdr.Server.Pool.{
  free, is_passed, new_pool, no_client, client_at, peer, accept_client, seat, seat_at, first_free,
  session_current, channel, worker_check, worker_run, worker_finish, reap_claim, reap_release,
}
use rtl_sdr.Server.Pool.Accounts.{IsBalanced, opens, closes, creates, destroys}
use rtl_sdr.Server.Pool.Steps.{
  polling, reaping, waiting, Server, new_server, goes, served, accepts, reaps, passes, claims,
  releases, checks, runs, finishes, Reach, begins, goes_on,
}
use rtl_sdr.Server.Pool.Drain.{Reach-IsBalanced, reap_all-Settled}

abbrev joined : Server
joined = goes new_server polling (accept_client new_pool (peer 7) true 0 true).1

abbrev checked : Server
checked = goes joined polling (worker_check joined.pool 0 (channel 100000000 48000 40000 (some 9)))

abbrev ran : Server
ran = goes checked polling (worker_run checked.pool 0)

abbrev ended : Server
ended = goes ran polling (worker_finish ran.pool 0)

abbrev claimed : Server
claimed = goes (record ended { main = reaping true 0 }) (waiting true 0) (reap_claim ended.pool 0)

abbrev released : Server
released = goes claimed (reaping true 1) (reap_release claimed.pool 0)

ran-Reach : Reach ran
unfolding accept_client seat seat_at first_free session_current worker_check worker_run
ran-Reach =
    goes_on checked ran
      (goes_on joined checked
        (goes_on new_server joined begins (accepts new_server (peer 7) true 0 true refl))
        (checks joined 0 (channel 100000000 48000 40000 (some 9)) (omega arith) refl))
      (runs checked 0 (omega arith) refl)

released-Reach : Reach released
unfolding accept_client seat seat_at first_free session_current worker_check worker_run
    worker_finish reap_claim reap_release
released-Reach =
    goes_on claimed released
      (goes_on (record ended { main = reaping true 0 }) claimed
        (goes_on ended (record ended { main = reaping true 0 })
          (goes_on ran ended ran-Reach (finishes ran 0 (omega arith) served))
          (reaps ended true refl))
        (claims (record ended { main = reaping true 0 }) true 0 refl (omega arith) refl))
      (releases claimed true 0 refl refl)

-- A round passes over free slots to its end.
pass_free :
    (left i : ℕ) (s : Server)
    → i + left ≡ 32
    → s.main ≡ reaping true i
    → ((j : ℕ) → (client_at s.pool j).state ≡ free)
    → Reach s
    → Reach (record s { main = reaping true 32 })
pass_free zero i s e m f r =
    subst Reach (ap (λ k. record s { main = k }) (m ∙ ap (reaping true) (omega arith))) r
pass_free (suc left) i s e m f r =
    pass_free left (i + 1) (record s { main = reaping true (i + 1) }) (omega arith) refl f
      (goes_on s (record s { main = reaping true (i + 1) }) r
        (passes s true i m (omega arith) (ap (is_passed true) (f i))))

all_free : (j : ℕ) → (client_at released.pool j).state ≡ free
unfolding accept_client seat seat_at first_free session_current worker_check worker_run
    worker_finish reap_claim reap_release
all_free zero = refl
all_free (suc j) = ap (λ c. c.state) (get_or-replicate 31 no_client j)

Reach-IsBalanced_example : IsBalanced ran.pool ran.log
Reach-IsBalanced_example = Reach-IsBalanced ran ran-Reach

reap_all-Settled_example :
    (released.pool.client_count ≡ 0)
    × ((x : ℕ) → total (opens x) released.log ≡ total (closes x) released.log)
    × ((x : ℕ) → total (creates x) released.log ≡ total (destroys x) released.log)
reap_all-Settled_example =
    reap_all-Settled (record released { main = reaping true 32 })
      (pass_free 31 1 released refl refl all_free released-Reach) refl
