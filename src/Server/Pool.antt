-- ===== src/Server/Pool.antt =====
-- The clients of src/rtl_stream_server.c: the slots of `struct rtlsdr_server`, the steps of the
-- thread that accepts and reaps, those of the workers, and the calls that other threads make.
pub mod Accounts
pub mod Workers
pub mod Accept
pub mod Shut
pub mod Steps
pub mod Places
pub mod Drain
mod Tests
use rtl_sdr.Prelude.{ℕ, zero, suc, ◌+◌, ◌-◌, Bool, true, false, not, ◌&&◌, ◌||◌, Option, none, some}
use rtl_sdr.Prelude.{
  List, [], ◌∷◌, ◌++◌, get_or, set, replicate, ◌==◌, if◌then◌else◌, u64, Status, ok, failed,
}
use rtl_sdr.Proto.{mode_fft}

-- `RTLSTREAM_MAX_CLIENTS`
abbrev pub max_clients : ℕ
max_clients = 32

-- `enum rtlsdr_client_state`
pub data State : Type 0 where
  free starting running done joining : State

-- Where the thread of a client is in `client_handler`: there is none, before the request is
-- checked, with the request accepted, serving, behind `done`, at the end.
pub data Worker : Type 0 where
  absent checking accepted serving leaving exited : Worker

-- `struct rtlsdr_client`. `none` is the descriptor -1 and the null pointer. The cursor is the
-- argument of the functions that use it.
pub record Client : Type 0 where
  pub fd : Option ℕ
  pub state : State
  pub freq : ℕ
  pub rate : ℕ
  pub bandwidth : ℕ
  pub epoch : ℕ
  pub fft_generation : ℕ
  pub mode : ℕ
  pub dsp : Option ℕ
  pub worker : Worker

-- A client of `rtlsdr_server_init`.
abbrev pub no_client : Client
no_client = record {
  fd = none;
  state = free;
  freq = 0;
  rate = 0;
  bandwidth = 0;
  epoch = 0;
  fft_generation = 0;
  mode = 0;
  dsp = none;
  worker = absent;
}

-- The part of `struct rtlsdr_server` that is about the clients.
pub record Pool : Type 0 where
  pub clients : List Client
  pub client_count : ℕ
  pub stopping : Bool
  pub capture_epoch : ℕ
  pub new_freq : ℕ
  pub fft_generation : ℕ

-- `rtlsdr_server_init`
abbrev pub new_pool : Pool
new_pool = record {
  clients = replicate max_clients no_client;
  client_count = 0;
  stopping = false;
  capture_epoch = 1;
  new_freq = 0;
  fft_generation = 1;
}

-- The calls that matter outside: `accept` gave a descriptor, `close`, `shutdown` of both directions
-- and of the reading one, `rtlsdr_dsp_create` gave a pointer, `rtlsdr_dsp_destroy`.
pub data Call : Type 0 where
  opened closed shut shut_read created destroyed : ℕ → Call

abbrev pub is_free : State → Bool
is_free free = true
is_free starting = false
is_free running = false
is_free done = false
is_free joining = false

abbrev pub is_live : State → Bool
is_live free = false
is_live starting = true
is_live running = true
is_live done = false
is_live joining = false

abbrev pub is_starting : State → Bool
is_starting free = false
is_starting starting = true
is_starting running = false
is_starting done = false
is_starting joining = false

-- What `reap_clients` passes over.
abbrev pub is_passed : Bool → State → Bool
is_passed all free = true
is_passed all starting = not all
is_passed all running = not all
is_passed all done = false
is_passed all joining = true

abbrev pub client_at : Pool → ℕ → Client
client_at p i = get_or p.clients i no_client

abbrev pub put_client : Pool → ℕ → Client → Pool
put_client p i cl = record p { clients = set p.clients i cl }

-- `session_current`, with the frequency that it reports.
pub session_current : Pool → ℕ → Bool × ℕ
session_current p epoch = (p.capture_epoch == epoch, p.new_freq)

-- The loop of `accept_client` that looks for a slot.
pub first_free : List Client → Option ℕ
first_free [] = none
first_free (cl ∷ cls) =
    let rest = first_free cls in
    if is_free cl.state then some 0 else elim rest [ none ↦ none | some i ↦ some (suc i) ]

-- What `accept` gives: EINTR, EAGAIN or EWOULDBLOCK; another error; a descriptor.
pub data Peer : Type 0 where
  no_peer broken : Peer
  peer : ℕ → Peer

-- The rest of `accept_client` with the slot that was found, and with whether the thread could be
-- created.
pub seat_at : Pool → ℕ → ℕ → Bool → Option ℕ → Pool × List Call
seat_at p fd mode threaded none = (p, opened fd ∷ closed fd ∷ [])
seat_at p fd mode threaded (some i) =
    let cl : Client = record no_client {
      fd = some fd;
      mode = mode;
      epoch = 1;
      fft_generation = p.fft_generation;
      state = starting;
      worker = checking;
    } in
    if threaded
    then (record (put_client p i cl) { client_count = p.client_count + 1 }, opened fd ∷ [])
    else (
      put_client p i (record cl { fd = none; state = free; worker = absent }),
      opened fd ∷ closed fd ∷ [],
    )

-- `accept_client` from the search for a slot on.
pub seat : Pool → ℕ → ℕ → Bool → Pool × List Call
seat p fd mode threaded =
    seat_at p fd mode threaded (if p.stopping then none else first_free p.clients)

-- `accept_client`, with whether the descriptor could be made nonblocking.
pub accept_client : Pool → Peer → Bool → ℕ → Bool → Status × (Pool × List Call)
accept_client p no_peer nonblocking mode threaded = (ok, (p, []))
accept_client p broken nonblocking mode threaded = (failed, (p, []))
accept_client p (peer fd) nonblocking mode threaded =
    if not nonblocking || not (session_current p 1).0
    then (ok, (p, opened fd ∷ closed fd ∷ []))
    else (ok, seat p fd mode threaded)

-- The calls of a loop over the clients that shuts the descriptors of some.
pub shut_clients : (Client → Bool) → (ℕ → Call) → List Client → List Call
shut_clients which call [] = []
shut_clients which call (cl ∷ cls) =
    let rest = shut_clients which call cls in
    if which cl then elim cl.fd [ none ↦ rest | some fd ↦ call fd ∷ rest ] else rest

-- `rtlsdr_server_request_stop`
pub request_stop : Pool → Pool × List Call
request_stop p =
    (record p { stopping = true }, shut_clients (λ cl. is_live cl.state) shut p.clients)

-- `rtlsdr_server_notify_frequency_change`
pub notify_frequency_change : Pool → ℕ → Pool × List Call
notify_frequency_change p freq = (
  record p { new_freq = freq; capture_epoch = u64 (p.capture_epoch + 1) },
  shut_clients (λ cl. is_starting cl.state) shut_read p.clients,
)

-- The part of `fft_gap` that ends the clients of the spectrum.
pub next_generation : Pool → Pool × List Call
next_generation p =
    let generation = u64 (p.fft_generation + 1) in
    (
      record p { fft_generation = generation },
      shut_clients
          (λ cl. is_live cl.state && cl.mode == mode_fft && not (cl.fft_generation == generation))
          shut p.clients,
    )

-- What a worker makes of its request: nothing, a stream of spectra, or the fields of a channel with
-- what `rtlsdr_dsp_create` gave for it, a pointer or `none`, which `worker_check` refuses.
pub data Setup : Type 0 where
  unfit spectrum : Setup
  channel : ℕ → ℕ → ℕ → Option ℕ → Setup

abbrev pub made : Option ℕ → List Call
made none = []
made (some d) = created d ∷ []

-- The worker of slot `i` up to the two places where it takes `client_lock`.
unfoldable pub worker_check : Pool → ℕ → Setup → Pool × List Call
worker_check p i unfit = (put_client p i (record (client_at p i) { worker = leaving }), [])
worker_check p i spectrum = (put_client p i (record (client_at p i) { worker = accepted }), [])
worker_check p i (channel freq rate bandwidth dsp) =
    let worker : Worker = elim dsp [ none ↦ leaving | some d ↦ accepted ] in
    (
      put_client p i (record (client_at p i) {
        freq = freq;
        rate = rate;
        bandwidth = bandwidth;
        dsp = dsp;
        worker = worker;
      }),
      made dsp,
    )

pub worker_run : Pool → ℕ → Pool × List Call
worker_run p i = (put_client p i (record (client_at p i) { state = running; worker = serving }), [])

pub worker_finish : Pool → ℕ → Pool × List Call
worker_finish p i = (put_client p i (record (client_at p i) { state = done; worker = exited }), [])

-- The two critical sections of a round of `reap_clients`, before and after `pthread_join`.
pub reap_claim : Pool → ℕ → Pool × List Call
reap_claim p i = (put_client p i (record (client_at p i) { state = joining }), [])

abbrev pub gone : (ℕ → Call) → Option ℕ → List Call
gone call none = []
gone call (some x) = call x ∷ []

pub reap_release : Pool → ℕ → Pool × List Call
reap_release p i =
    let cl = client_at p i in
    (
      record (put_client p i (record cl { fd = none; dsp = none; state = free; worker = absent })) {
        client_count = p.client_count - 1;
      },
      gone closed cl.fd ++ gone destroyed cl.dsp,
    )
