-- ===== src/Server/Pool/Shut.antt =====
-- The functions that shut the sockets of clients keep the balance of the clients.
use rtl_sdr.Prelude.{ℕ, ◌≡◌, refl, sym, ◌∙◌, ap, arith, subst⁻¹}
use rtl_sdr.Prelude.{
  Bool, true, false, if◌then◌else◌, Option, none, some, List, [], ◌∷◌, ◌++◌, total, length, get_or,
}
use rtl_sdr.Server.Pool.{
  Pool, Client, Call, shut, shut_read, no_client, shut_clients, request_stop,
  notify_frequency_change, next_generation,
}
use rtl_sdr.Server.Pool.Accounts.{
  IsBalanced, IsSound, AreNeutral, occupied, holds, uses, opens, closes, creates, destroys,
  calls-IsBalanced,
}

-- The calls of a loop that shuts count nothing.
shut_round :
    (w : Call → ℕ) (call : ℕ → Call) (which : Bool) (fd : Option ℕ) (rest : List Call)
    → ((x : ℕ) → w (call x) ≡ 0)
    → total w rest ≡ 0
    → total w (if which then elim fd [ none ↦ rest | some y ↦ call y ∷ rest ] else rest) ≡ 0
shut_round w call true none rest h e = e
shut_round w call true (some y) rest h e = omega (arith, h y, e)
shut_round w call false fd rest h e = e

total-shut_clients :
    (w : Call → ℕ) (call : ℕ → Call) (which : Client → Bool) (cls : List Client)
    → ((x : ℕ) → w (call x) ≡ 0)
    → total w (shut_clients which call cls) ≡ 0
unfolding shut_clients
total-shut_clients w call which [] h = refl
total-shut_clients w call which (cl ∷ cls) h =
    shut_round w call (which cl) cl.fd (shut_clients which call cls) h
      (total-shut_clients w call which cls h)

shut-AreNeutral :
    (which : Client → Bool) (cls : List Client) → AreNeutral (shut_clients which shut cls)
shut-AreNeutral which cls = record {
  same_fds = λ x.
      total-shut_clients (opens x) shut which cls (λ y. refl)
      ∙ sym (total-shut_clients (closes x) shut which cls (λ y. refl));
  same_dsps = λ x.
      total-shut_clients (creates x) shut which cls (λ y. refl)
      ∙ sym (total-shut_clients (destroys x) shut which cls (λ y. refl));
}

shut_read-AreNeutral :
    (which : Client → Bool) (cls : List Client) → AreNeutral (shut_clients which shut_read cls)
shut_read-AreNeutral which cls = record {
  same_fds = λ x.
      total-shut_clients (opens x) shut_read which cls (λ y. refl)
      ∙ sym (total-shut_clients (closes x) shut_read which cls (λ y. refl));
  same_dsps = λ x.
      total-shut_clients (creates x) shut_read which cls (λ y. refl)
      ∙ sym (total-shut_clients (destroys x) shut_read which cls (λ y. refl));
}

-- The balance does not look at the other fields.
IsBalanced-others :
    (p q : Pool) (log : List Call)
    → q.clients ≡ p.clients
    → q.client_count ≡ p.client_count
    → IsBalanced p log
    → IsBalanced q log
IsBalanced-others p q log e f b = record {
  slots = ap length e ∙ b.slots;
  count = f ∙ b.count ∙ sym (ap (total occupied) e);
  sockets = λ x. omega (arith, b.sockets x, ap (total (holds x)) e);
  filters = λ x. omega (arith, b.filters x, ap (total (uses x)) e);
  sound = λ i. subst⁻¹ IsSound (ap (λ cls. get_or cls i no_client) e) (b.sound i);
}

pub request_stop-IsBalanced :
    (p : Pool) (log : List Call)
    → IsBalanced p log
    → IsBalanced (request_stop p).0 (log ++ (request_stop p).1)
unfolding request_stop
request_stop-IsBalanced p log b =
    IsBalanced-others p _ _ refl refl (calls-IsBalanced p log _ b (shut-AreNeutral _ p.clients))

pub notify-IsBalanced :
    (p : Pool) (log : List Call) (freq : ℕ)
    → IsBalanced p log
    → IsBalanced (notify_frequency_change p freq).0 (log ++ (notify_frequency_change p freq).1)
unfolding notify_frequency_change
notify-IsBalanced p log freq b =
    IsBalanced-others p _ _ refl refl
      (calls-IsBalanced p log _ b (shut_read-AreNeutral _ p.clients))

pub next_generation-IsBalanced :
    (p : Pool) (log : List Call)
    → IsBalanced p log
    → IsBalanced (next_generation p).0 (log ++ (next_generation p).1)
unfolding next_generation
next_generation-IsBalanced p log b =
    IsBalanced-others p _ _ refl refl (calls-IsBalanced p log _ b (shut-AreNeutral _ p.clients))
