-- ===== src/Server/Pool/Accounts.antt =====
-- What the slots hold against what the calls have opened and closed.
use rtl_sdr.Prelude.{ℕ, ◌+◌, ◌<◌, ◌≡◌, sym, ◌∙◌, ap, arith, subst⁻¹}
use rtl_sdr.Prelude.{
  if◌then◌else◌, ◌==◌, Option, none, some, List, ◌++◌, total, total-append, total-set, get_or, set,
  length, length-set, get_or-set_self, get_or-set_ne,
}
use native.Mathlib.Decide.{ℕ_discrete}
use rtl_sdr.Server.Pool.{
  Pool, Client, Call, opened, closed, shut, shut_read, created, destroyed, free, absent, checking,
  no_client, client_at, put_client, is_free,
}

-- Whether an optional number is this one, as a number.
abbrev pub is_this : ℕ → Option ℕ → ℕ
is_this x none = 0
is_this x (some y) = if x == y then 1 else 0

abbrev pub opens : ℕ → Call → ℕ
opens x c = elim c [
  | opened y ↦ is_this x (some y)
  | closed y ↦ 0
  | shut y ↦ 0
  | shut_read y ↦ 0
  | created y ↦ 0
  | destroyed y ↦ 0
]

abbrev pub closes : ℕ → Call → ℕ
closes x c = elim c [
  | opened y ↦ 0
  | closed y ↦ is_this x (some y)
  | shut y ↦ 0
  | shut_read y ↦ 0
  | created y ↦ 0
  | destroyed y ↦ 0
]

abbrev pub creates : ℕ → Call → ℕ
creates x c = elim c [
  | opened y ↦ 0
  | closed y ↦ 0
  | shut y ↦ 0
  | shut_read y ↦ 0
  | created y ↦ is_this x (some y)
  | destroyed y ↦ 0
]

abbrev pub destroys : ℕ → Call → ℕ
destroys x c = elim c [
  | opened y ↦ 0
  | closed y ↦ 0
  | shut y ↦ 0
  | shut_read y ↦ 0
  | created y ↦ 0
  | destroyed y ↦ is_this x (some y)
]

abbrev pub occupied : Client → ℕ
occupied cl = if is_free cl.state then 0 else 1

abbrev pub holds : ℕ → Client → ℕ
holds x cl = is_this x cl.fd

abbrev pub uses : ℕ → Client → ℕ
uses x cl = is_this x cl.dsp

-- A free slot holds nothing and has no worker, a slot without a worker is free, and a worker that
-- has not checked its request has no filter.
pub record IsSound (cl : Client) : Type 0 where
  pub free_fd : cl.state ≡ free → cl.fd ≡ none
  pub free_dsp : cl.state ≡ free → cl.dsp ≡ none
  pub free_worker : cl.state ≡ free → cl.worker ≡ absent
  pub worker_free : cl.worker ≡ absent → cl.state ≡ free
  pub checking_dsp : cl.worker ≡ checking → cl.dsp ≡ none

-- The counter is the number of slots that are not free, and what has been opened or created is what
-- has been closed or destroyed and what the slots hold.
pub record IsBalanced (p : Pool) (log : List Call) : Type 0 where
  pub slots : length p.clients ≡ 32
  pub count : p.client_count ≡ total occupied p.clients
  pub sockets : (x : ℕ) → total (opens x) log ≡ total (closes x) log + total (holds x) p.clients
  pub filters : (x : ℕ) → total (creates x) log ≡ total (destroys x) log + total (uses x) p.clients
  pub sound : (i : ℕ) → IsSound (client_at p i)

-- What a change of one slot owes.
pub record Settles (calls : List Call) (before after : Client) : Type 0 where
  pub fds :
      (x : ℕ) → total (opens x) calls + holds x before ≡ total (closes x) calls + holds x after
  pub dsps :
      (x : ℕ) → total (creates x) calls + uses x before ≡ total (destroys x) calls + uses x after
  pub stays : IsSound after

put_client-IsSound :
    (p : Pool) (i : ℕ) (cl : Client)
    → i < length p.clients
    → ((j : ℕ) → IsSound (client_at p j))
    → IsSound cl
    → (j : ℕ) → IsSound (client_at (put_client p i cl) j)
put_client-IsSound p i cl h before new j = elim (ℕ_discrete i j) [
  | yes e ↦
      subst⁻¹ IsSound
        (ap (λ k. get_or (set p.clients i cl) k no_client) (sym e)
          ∙ get_or-set_self p.clients i cl no_client h)
        new
  | no ne ↦ subst⁻¹ IsSound (get_or-set_ne p.clients i j cl no_client ne) (before j)
]

-- A change of a slot that settles keeps the balance, with a counter that follows.
pub put_client-IsBalanced :
    (p : Pool) (log : List Call) (i : ℕ) (cl : Client) (calls : List Call) (count : ℕ)
    → IsBalanced p log
    → i < 32
    → Settles calls (client_at p i) cl
    → count + occupied (client_at p i) ≡ p.client_count + occupied cl
    → IsBalanced (record (put_client p i cl) { client_count = count }) (log ++ calls)
put_client-IsBalanced p log i cl calls count b h s e = record {
  slots = length-set p.clients i cl ∙ b.slots;
  count =
      omega (
        arith,
        b.count,
        e,
        total-set occupied p.clients i cl no_client (omega (arith, b.slots, h)),
      );
  sockets = λ x. omega (
    arith,
    b.sockets x,
    s.fds x,
    total-append (opens x) log calls,
    total-append (closes x) log calls,
    total-set (holds x) p.clients i cl no_client (omega (arith, b.slots, h)),
  );
  filters = λ x. omega (
    arith,
    b.filters x,
    s.dsps x,
    total-append (creates x) log calls,
    total-append (destroys x) log calls,
    total-set (uses x) p.clients i cl no_client (omega (arith, b.slots, h)),
  );
  sound = put_client-IsSound p i cl (omega (arith, b.slots, h)) b.sound s.stays;
}

-- Calls that open and close nothing, or close what they open.
pub record AreNeutral (calls : List Call) : Type 0 where
  pub same_fds : (x : ℕ) → total (opens x) calls ≡ total (closes x) calls
  pub same_dsps : (x : ℕ) → total (creates x) calls ≡ total (destroys x) calls

pub calls-IsBalanced :
    (p : Pool) (log calls : List Call)
    → IsBalanced p log
    → AreNeutral calls
    → IsBalanced p (log ++ calls)
calls-IsBalanced p log calls b n = record {
  slots = b.slots;
  count = b.count;
  sockets = λ x. omega (
    arith,
    b.sockets x,
    n.same_fds x,
    total-append (opens x) log calls,
    total-append (closes x) log calls,
  );
  filters = λ x. omega (
    arith,
    b.filters x,
    n.same_dsps x,
    total-append (creates x) log calls,
    total-append (destroys x) log calls,
  );
  sound = b.sound;
}
