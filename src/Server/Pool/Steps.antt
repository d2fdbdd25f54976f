-- ===== src/Server/Pool/Steps.antt =====
-- The server as a relation of steps: one thread accepts and reaps, each client has a worker, and
-- other threads stop the server, change the frequency and report a gap.
use rtl_sdr.Prelude.{ℕ, ◌+◌, ◌<◌, ◌≡◌, Bool, true, false, List, [], ◌++◌}
use rtl_sdr.Server.Pool.{
  Pool, Call, Worker, checking, accepted, serving, leaving, exited, new_pool, client_at, is_passed,
  Peer, accept_client, Setup, worker_check, worker_run, worker_finish, reap_claim, reap_release,
  request_stop, notify_frequency_change, next_generation,
}

-- Where the thread is that runs `rtlsdr_server_run`, or `rtlsdr_server_shutdown` after it: at `poll`,
-- in `reap_clients` before slot `i`, in its `pthread_join` for slot `i`.
pub data Main : Type 0 where
  polling : Main
  reaping waiting : Bool → ℕ → Main

-- The clients, the thread, and the calls so far.
pub record Server : Type 0 where
  pub pool : Pool
  pub main : Main
  pub log : List Call

abbrev pub new_server : Server
new_server = record { pool = new_pool; main = polling; log = [] }

-- What the thread does next, with the change of the clients and the calls.
abbrev pub goes : Server → Main → Pool × List Call → Server
goes s main (pool, calls) = record { pool = pool; main = main; log = s.log ++ calls }

-- `worker_finish` follows a refused request or the end of a handler.
pub data IsLeaving : Worker → Type 0 where
  refused_request : IsLeaving leaving
  served : IsLeaving serving

pub data Step : Server → Server → Type 0 where
  accepts :
      (s : Server) (from : Peer) (nonblocking : Bool) (mode : ℕ) (threaded : Bool)
      → s.main ≡ polling
      → Step s (goes s polling (accept_client s.pool from nonblocking mode threaded).1)
  reaps : (s : Server) (all : Bool) → s.main ≡ polling → Step s (record s { main = reaping all 0 })
  passes :
      (s : Server) (all : Bool) (i : ℕ)
      → s.main ≡ reaping all i
      → i < 32
      → is_passed all (client_at s.pool i).state ≡ true
      → Step s (record s { main = reaping all (i + 1) })
  claims :
      (s : Server) (all : Bool) (i : ℕ)
      → s.main ≡ reaping all i
      → i < 32
      → is_passed all (client_at s.pool i).state ≡ false
      → Step s (goes s (waiting all i) (reap_claim s.pool i))
  releases :
      (s : Server) (all : Bool) (i : ℕ)
      → s.main ≡ waiting all i
      → (client_at s.pool i).worker ≡ exited
      → Step s (goes s (reaping all (i + 1)) (reap_release s.pool i))
  polls : (s : Server) (all : Bool) → s.main ≡ reaping all 32 → Step s (record s { main = polling })
  checks :
      (s : Server) (i : ℕ) (setup : Setup)
      → i < 32
      → (client_at s.pool i).worker ≡ checking
      → Step s (goes s s.main (worker_check s.pool i setup))
  runs :
      (s : Server) (i : ℕ)
      → i < 32
      → (client_at s.pool i).worker ≡ accepted
      → Step s (goes s s.main (worker_run s.pool i))
  finishes :
      (s : Server) (i : ℕ)
      → i < 32
      → IsLeaving (client_at s.pool i).worker
      → Step s (goes s s.main (worker_finish s.pool i))
  stops : (s : Server) → Step s (goes s s.main (request_stop s.pool))
  retunes : (s : Server) (freq : ℕ) → Step s (goes s s.main (notify_frequency_change s.pool freq))
  gaps : (s : Server) → Step s (goes s s.main (next_generation s.pool))

-- The states that the server comes to.
pub data Reach : Server → Type 0 where
  begins : Reach new_server
  goes_on : (s t : Server) → Reach s → Step s t → Reach t
