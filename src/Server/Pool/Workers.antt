-- ===== src/Server/Pool/Workers.antt =====
-- The steps of a worker and of the reaper keep the balance of the clients.
use rtl_sdr.Prelude.{ℕ, ◌-◌, ◌<◌, ◌≡◌, ◌≢◌, refl, ap, arith}
use rtl_sdr.Prelude.{false, if◌then◌else◌, Option, none, some, List, [], ◌++◌, total, total-set}
use rtl_sdr.Server.Pool.{
  Pool, Client, Call, closed, destroyed, State, free, starting, running, done, joining, Worker,
  absent, checking, accepted, serving, leaving, exited, no_client, client_at, put_client, is_free,
  made, gone, Setup, unfit, spectrum, channel, worker_check, worker_run, worker_finish, reap_claim,
  reap_release,
}
use rtl_sdr.Server.Pool.Accounts.{
  IsBalanced, IsSound, Settles, occupied, is_this, opens, closes, creates, destroys,
  put_client-IsBalanced,
}

occupied-eq_one : (cl : Client) → is_free cl.state ≡ false → occupied cl ≡ 1
occupied-eq_one cl e = ap (λ b. if b then 0 else 1) e

state_of : (s : State) → s ≢ free → is_free s ≡ false
state_of free h = absurd (h refl)
state_of starting h = refl
state_of running h = refl
state_of done h = refl
state_of joining h = refl

pub has_worker : (cl : Client) → IsSound cl → cl.worker ≢ absent → is_free cl.state ≡ false
has_worker cl s h = state_of cl.state (λ e. h (s.free_worker e))

-- The place of the worker and the state may change where the slot stays in use.
moved-Settles :
    (cl : Client) (state : State) (worker : Worker)
    → state ≢ free
    → worker ≢ absent
    → worker ≢ checking
    → Settles [] cl (record cl { state = state; worker = worker })
moved-Settles cl state worker f w c = record {
  fds = λ x. refl;
  dsps = λ x. refl;
  stays = record {
    free_fd = λ e. absurd (f e);
    free_dsp = λ e. absurd (f e);
    free_worker = λ e. absurd (f e);
    worker_free = λ e. absurd (w e);
    checking_dsp = λ e. absurd (c e);
  };
}

-- Such a change keeps the balance and the counter.
moved-IsBalanced :
    (p : Pool) (log : List Call) (i : ℕ) (state : State) (worker : Worker)
    → IsBalanced p log
    → i < 32
    → (client_at p i).worker ≢ absent
    → state ≢ free
    → worker ≢ absent
    → worker ≢ checking
    → IsBalanced
        (put_client p i (record (client_at p i) { state = state; worker = worker }))
        (log ++ [])
moved-IsBalanced p log i state worker b h e f w c =
    put_client-IsBalanced p log i (record (client_at p i) { state = state; worker = worker }) []
      p.client_count b h (moved-Settles (client_at p i) state worker f w c)
      (omega (
        arith,
        occupied-eq_one (client_at p i) (has_worker (client_at p i) (b.sound i) e),
        occupied-eq_one (record (client_at p i) { state = state; worker = worker })
            (state_of state f),
      ))

pub worker_run-IsBalanced :
    (p : Pool) (log : List Call) (i : ℕ)
    → IsBalanced p log
    → i < 32
    → (client_at p i).worker ≡ accepted
    → IsBalanced (worker_run p i).0 (log ++ (worker_run p i).1)
unfolding worker_run
worker_run-IsBalanced p log i b h e =
    moved-IsBalanced p log i running serving b h (λ k. cc) (λ k. cc) (λ k. cc) (λ k. cc)

pub worker_finish-IsBalanced :
    (p : Pool) (log : List Call) (i : ℕ)
    → IsBalanced p log
    → i < 32
    → (client_at p i).worker ≢ absent
    → IsBalanced (worker_finish p i).0 (log ++ (worker_finish p i).1)
unfolding worker_finish
worker_finish-IsBalanced p log i b h e =
    moved-IsBalanced p log i done exited b h e (λ k. cc) (λ k. cc) (λ k. cc)

checking_busy : (cl : Client) → IsSound cl → cl.worker ≡ checking → cl.state ≢ free
checking_busy cl s e k = let gone = s.free_worker k in cc

made_lem :
    (x : ℕ) (dsp : Option ℕ)
    → (total (opens x) (made dsp) ≡ 0)
      × (total (closes x) (made dsp) ≡ 0)
      × (total (creates x) (made dsp) ≡ is_this x dsp)
      × (total (destroys x) (made dsp) ≡ 0)
made_lem x none = (refl, refl, refl, refl)
made_lem x (some d) = (refl, refl, omega arith, refl)

gone_lem :
    (x : ℕ) (fd dsp : Option ℕ)
    → (total (opens x) (gone closed fd ++ gone destroyed dsp) ≡ 0)
      × (total (closes x) (gone closed fd ++ gone destroyed dsp) ≡ is_this x fd)
      × (total (creates x) (gone closed fd ++ gone destroyed dsp) ≡ 0)
      × (total (destroys x) (gone closed fd ++ gone destroyed dsp) ≡ is_this x dsp)
gone_lem x none none = (refl, refl, refl, refl)
gone_lem x none (some d) = (refl, refl, refl, omega arith)
gone_lem x (some fd) none = (refl, omega arith, refl, refl)
gone_lem x (some fd) (some d) = (refl, omega arith, refl, omega arith)

checked-IsBalanced :
    (p : Pool) (log : List Call) (i freq rate bandwidth : ℕ) (dsp : Option ℕ) (worker : Worker)
    → IsBalanced p log
    → i < 32
    → (client_at p i).worker ≡ checking
    → worker ≢ absent
    → worker ≢ checking
    → IsBalanced
        (put_client p i (record (client_at p i) {
          freq = freq;
          rate = rate;
          bandwidth = bandwidth;
          dsp = dsp;
          worker = worker;
        }))
        (log ++ made dsp)
checked-IsBalanced p log i freq rate bandwidth dsp worker b h e w c =
    put_client-IsBalanced p log i _ (made dsp) p.client_count b h
      (record {
        fds = λ x. omega (arith, made_lem x dsp);
        dsps = λ x. omega (arith, made_lem x dsp, ap (is_this x) ((b.sound i).checking_dsp e));
        stays = record {
          free_fd = (b.sound i).free_fd;
          free_dsp = λ k. absurd (checking_busy (client_at p i) (b.sound i) e k);
          free_worker = λ k. absurd (checking_busy (client_at p i) (b.sound i) e k);
          worker_free = λ k. absurd (w k);
          checking_dsp = λ k. absurd (c k);
        };
      })
      refl

pub worker_check-IsBalanced :
    (p : Pool) (log : List Call) (i : ℕ) (setup : Setup)
    → IsBalanced p log
    → i < 32
    → (client_at p i).worker ≡ checking
    → IsBalanced (worker_check p i setup).0 (log ++ (worker_check p i setup).1)
unfolding worker_check
worker_check-IsBalanced p log i unfit b h e =
    moved-IsBalanced p log i (client_at p i).state leaving b h (λ k. cc)
      (checking_busy (client_at p i) (b.sound i) e) (λ k. cc) (λ k. cc)
worker_check-IsBalanced p log i spectrum b h e =
    moved-IsBalanced p log i (client_at p i).state accepted b h (λ k. cc)
      (checking_busy (client_at p i) (b.sound i) e) (λ k. cc) (λ k. cc)
worker_check-IsBalanced p log i (channel freq rate bandwidth none) b h e =
    checked-IsBalanced p log i freq rate bandwidth none leaving b h e (λ k. cc) (λ k. cc)
worker_check-IsBalanced p log i (channel freq rate bandwidth (some d)) b h e =
    checked-IsBalanced p log i freq rate bandwidth (some d) accepted b h e (λ k. cc) (λ k. cc)

pub reap_release-IsBalanced :
    (p : Pool) (log : List Call) (i : ℕ)
    → IsBalanced p log
    → i < 32
    → is_free (client_at p i).state ≡ false
    → IsBalanced (reap_release p i).0 (log ++ (reap_release p i).1)
unfolding reap_release
reap_release-IsBalanced p log i b h e =
    put_client-IsBalanced p log i
      (record (client_at p i) { fd = none; dsp = none; state = free; worker = absent })
      (gone closed (client_at p i).fd ++ gone destroyed (client_at p i).dsp) (p.client_count - 1) b
      h
      (record {
        fds = λ x. omega (arith, gone_lem x (client_at p i).fd (client_at p i).dsp);
        dsps = λ x. omega (arith, gone_lem x (client_at p i).fd (client_at p i).dsp);
        stays = record {
          free_fd = λ k. refl;
          free_dsp = λ k. refl;
          free_worker = λ k. refl;
          worker_free = λ k. refl;
          checking_dsp = λ k. refl;
        };
      })
      (omega (
        arith,
        b.count,
        b.slots,
        occupied-eq_one (client_at p i) e,
        total-set occupied p.clients i no_client no_client (omega (arith, b.slots, h)),
      ))

pub reap_claim-IsBalanced :
    (p : Pool) (log : List Call) (i : ℕ)
    → IsBalanced p log
    → i < 32
    → is_free (client_at p i).state ≡ false
    → IsBalanced (reap_claim p i).0 (log ++ (reap_claim p i).1)
unfolding reap_claim
reap_claim-IsBalanced p log i b h e =
    put_client-IsBalanced p log i (record (client_at p i) { state = joining }) [] p.client_count b h
      (record {
        fds = λ x. refl;
        dsps = λ x. refl;
        stays = record {
          free_fd = λ k. cc;
          free_dsp = λ k. cc;
          free_worker = λ k. cc;
          worker_free = λ k. (let is_free = (b.sound i).worker_free k in cc);
          checking_dsp = (b.sound i).checking_dsp;
        };
      })
      (omega (arith, occupied-eq_one (client_at p i) e))
