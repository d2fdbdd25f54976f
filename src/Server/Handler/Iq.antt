-- ===== src/Server/Handler/Iq.antt =====
-- What `iq_client_handler` puts on the wire: whole frames of the filtered stream, in order.
use rtl_sdr.Prelude.{ℕ, ◌%◌, ◌≡◌, refl, sym, ◌∙◌, ap, arith, subst, subst⁻¹}
use rtl_sdr.Prelude.{
  true, false, not, if◌then◌else◌, if_cases, Option, none, some, List, [], ◌∷◌, ◌++◌, append_assoc,
  length, length-append, take, ◌==◌, ℤ, Status, ok, failed,
}
use native.Mathlib.Decide.{dec_le}
use rtl_sdr.Proto.{}
use rtl_sdr.Ring.{Result, error, empty, found, gap, read_ring}
use rtl_sdr.Dsp.Filter.{Floats, process, pairs}
use rtl_sdr.Dsp.Filter
use rtl_sdr.Dsp.Filter.Tick.{IsReady, feed, feed-append, feed-IsReady}
use rtl_sdr.Dsp.Filter.Stream.{process-feed, process-eq_failed, pairs-append}
use rtl_sdr.Server.Handler.{
  client_current, Turn, Channel, Job, Round, iq_samples, iq_read, iq_round, iq_loop,
  iq_client_handler,
}
use rtl_sdr.Server.Handler.Frames.{
  Outcome, Stream, ended, frame, iq_samples-Outcome, kept, shipped, silent, told-Stream,
}

module _ (fl : Floats) (ch : Channel) where
  abbrev State : Type 0
  State = Filter.State fl

  -- A round does to the bytes that it takes what the filter does.
  abbrev Filters : State → ℕ → Round State → Type 0
  Filters d seq r =
      (d' : State) × (out : List ℤ) × (feed fl d (pairs fl r.taken) ≡ (d', out))
      × (length r.taken % 2 ≡ 0)
      × Outcome ch seq d' out r.next r.sent

  idle-Filters :
      (d : State) (seq : ℕ) (sent : List ℕ)
      → Stream ch seq [] sent
      → Filters d seq (record { next = none; sent = sent; taken = [] })
  unfolding feed pairs
  idle-Filters d seq sent s = (d, [], refl, refl, ended [] sent s)

  process_ok :
      (d : State) (bytes : List ℕ)
      → IsReady d
      → length bytes % 2 ≡ 0
      → (process fl d bytes ch.capacity).0 ≡ ok
      → process fl d bytes ch.capacity
        ≡ (ok, (feed fl d (pairs fl bytes)).0, (feed fl d (pairs fl bytes)).1)
  process_ok d bytes r even success = elim (dec_le (length bytes) ch.capacity) [
    | yes h ↦ process-feed fl d bytes ch.capacity r even h
    | no h ↦ (let e = ap (λ p. p.0) (process-eq_failed fl d bytes ch.capacity h) in cc)
  ]

  filtered-Filters :
      (job : Job State) (t : Turn) (bytes : List ℕ)
      → length bytes % 2 ≡ 0
      → (p : Status × State × List ℤ)
      → (p.0 ≡ ok
          → p ≡ (ok, (feed fl job.dsp (pairs fl bytes)).0, (feed fl job.dsp (pairs fl bytes)).1))
      → Filters job.dsp job.seq (elim p.0 [
        | failed ↦ record { next = none; sent = []; taken = [] }
        | ok ↦ iq_samples ch (record job { dsp = p.1 }) t bytes p.2
      ])
  filtered-Filters job t bytes even (failed, d, out) h =
      idle-Filters job.dsp job.seq [] (silent job.seq)
  filtered-Filters job t bytes even (ok, d, out) h =
      let (outcome, same) = iq_samples-Outcome ch (record job { dsp = d }) t bytes out in
      (
        d,
        out,
        ap (λ b. feed fl job.dsp (pairs fl b)) same ∙ ap (λ q. (q.1, q.2)) (sym (h refl)),
        ap (λ b. length b % 2) same ∙ even,
        outcome,
      )

  iq_read-Filters :
      (job : Job State) (t : Turn) (result : Result) (bytes : List ℕ)
      → IsReady job.dsp
      → Filters job.dsp job.seq (iq_read fl ch job t result bytes)
  unfolding iq_read feed pairs
  iq_read-Filters job t empty bytes r =
      elim t.peer_closed
        as (λ b.
          Filters job.dsp job.seq
            (record { next = if b then none else some job; sent = []; taken = [] })) [
              | true ↦ idle-Filters job.dsp job.seq [] (silent job.seq)
              | false ↦ (job.dsp, [], refl, refl, kept job refl refl)
            ]
  iq_read-Filters job t error bytes r = idle-Filters job.dsp job.seq [] (silent job.seq)
  iq_read-Filters job t gap bytes r = idle-Filters job.dsp job.seq [] (silent job.seq)
  iq_read-Filters job t found bytes r =
      let P = Filters job.dsp job.seq in
      let p = process fl job.dsp bytes ch.capacity in
      let refused = idle-Filters job.dsp job.seq [] (silent job.seq) in
      if_cases P (not (length bytes % 2 == 0)) (record { next = none; sent = []; taken = [] }) _
        (λ e. refused)
        (λ e.
          filtered-Filters job t bytes (ground arith) p (process_ok job.dsp bytes r (ground arith)))

  -- A round of the loop.
  iq_round-Filters :
      (job : Job State) (t : Turn)
      → IsReady job.dsp
      → Filters job.dsp job.seq (iq_round fl ch job t)
  unfolding iq_round
  iq_round-Filters job t r =
      let now = client_current t.before ch.epoch in
      let read = read_ring t.ring job.cursor job.input ch.capacity in
      if_cases (Filters job.dsp job.seq) (not now.0)
        (record { next = none; sent = now.1; taken = [] }) _
        (λ e. idle-Filters job.dsp job.seq now.1 (told-Stream ch job.seq t.before ch.epoch))
        (λ e.
          iq_read-Filters (record job { cursor = read.cursor; input = read.dst }) t read.result
            (take read.len read.dst) r)

  -- What a run from a state of the filter puts on the wire and takes in.
  abbrev Streams : State → ℕ → List ℕ × List ℕ → Type 0
  Streams d seq (sent, taken) =
      (samples : List ℤ) × (unsent : List ℤ) × Stream ch seq samples sent
      × ((feed fl d (pairs fl taken)).1 ≡ samples ++ unsent)
      × (length taken % 2 ≡ 0)

  -- What follows a round.
  abbrev proceed : Option (Job State) → List ℕ → List ℕ → List Turn → List ℕ × List ℕ
  proceed next sent taken ts = elim next [
    | none ↦ (sent, taken)
    | some j ↦ (let (more, later) = iq_loop fl ch j ts in (sent ++ more, taken ++ later))
  ]

  feed_both :
      (d d' : State) (out more : List ℤ) (taken later : List ℕ)
      → length taken % 2 ≡ 0
      → feed fl d (pairs fl taken) ≡ (d', out)
      → (feed fl d' (pairs fl later)).1 ≡ more
      → (feed fl d (pairs fl (taken ++ later))).1 ≡ out ++ more
  feed_both d d' out more taken later even e f =
      ap (λ xs. (feed fl d xs).1) (pairs-append fl taken later even)
      ∙ ap (λ r. r.1) (feed-append fl d (pairs fl taken) (pairs fl later))
      ∙ ap (λ r. r.1 ++ (feed fl r.0 (pairs fl later)).1) e
      ∙ ap (λ t. out ++ t) f

  proceed-Streams :
      (d d' : State) (seq : ℕ) (out : List ℤ) (next : Option (Job State)) (sent taken : List ℕ)
      (ts : List Turn)
      → feed fl d (pairs fl taken) ≡ (d', out)
      → length taken % 2 ≡ 0
      → Outcome ch seq d' out next sent
      → ((j : Job State) → j.dsp ≡ d' → Streams j.dsp j.seq (iq_loop fl ch j ts))
      → Streams d seq (proceed next sent taken ts)
  proceed-Streams d d' seq _ _ _ taken ts e even (ended out sent s) h =
      ([], out, s, ap (λ r. r.1) e, even)
  proceed-Streams d d' seq _ _ _ taken ts e even (kept j same at) h =
      let (samples, unsent, stream, given, even') = h j same in
      let r = iq_loop fl ch j ts in
      (
        samples,
        unsent,
        subst (λ n. Stream ch n samples r.0) at stream,
        feed_both d d' [] (samples ++ unsent) taken r.1 even e
            (subst (λ s. (feed fl s (pairs fl r.1)).1 ≡ samples ++ unsent) same given),
        omega (arith, even, even', length-append taken r.1),
      )
  proceed-Streams d d' seq _ _ _ taken ts e even (shipped j out bytes same at f) h =
      let (samples, unsent, stream, given, even') = h j same in
      let r = iq_loop fl ch j ts in
      (
        out ++ samples,
        unsent,
        frame seq out samples bytes r.0 f (subst (λ n. Stream ch n samples r.0) at stream),
        feed_both d d' out (samples ++ unsent) taken r.1 even e
              (subst (λ s. (feed fl s (pairs fl r.1)).1 ≡ samples ++ unsent) same given)
            ∙ sym (append_assoc out samples unsent),
        omega (arith, even, even', length-append taken r.1),
      )

  iq_loop-Streams :
      (job : Job State) (ts : List Turn)
      → IsReady job.dsp
      → Streams job.dsp job.seq (iq_loop fl ch job ts)
  unfolding iq_loop feed
  iq_loop-Streams job [] r = ([], [], silent job.seq, unfold pairs in refl, refl)
  iq_loop-Streams job (t ∷ ts) r =
      let round = iq_round fl ch job t in
      let (d', out, e, even, outcome) = iq_round-Filters job t r in
      let ready : IsReady d' =
        subst (λ q. IsReady q.0) e (feed-IsReady fl job.dsp (pairs fl round.taken) r) in
      proceed-Streams job.dsp d' job.seq out round.next round.sent round.taken ts e even outcome
        (λ j same. iq_loop-Streams j ts (subst⁻¹ IsReady same ready))

  -- Whatever the ring, the other threads, the clock and the socket do: what iq_client_handler puts on
  -- the wire, from a filter whose first stage has its counter below its decimation, are whole frames
  -- numbered from 0 in steps of 1 (modulo 2^64), and behind them nothing, a beginning of the next frame, or a
  -- beginning of the events that end a session; and the samples of the whole frames are, in order and
  -- without a gap, the first of those that one call of rtlsdr_dsp_process gives for all the bytes
  -- that the handler has taken from the ring.
  pub iq_client_handler-Stream :
      (job : Job State) (turns : List Turn)
      → IsReady job.dsp
      → let (sent, taken) = iq_client_handler fl ch job turns in
        (samples : List ℤ) × (unsent : List ℤ) × Stream ch 0 samples sent
        × ((process fl job.dsp taken (length taken)).0 ≡ ok)
        × ((process fl job.dsp taken (length taken)).2 ≡ samples ++ unsent)
  unfolding iq_client_handler
  iq_client_handler-Stream job turns r =
      let (samples, unsent, stream, given, even) =
        iq_loop-Streams (record job { seq = 0 }) turns r in
      let taken = (iq_loop fl ch (record job { seq = 0 }) turns).1 in
      let e = process-feed fl job.dsp taken (length taken) r even (omega arith) in
      (samples, unsent, stream, ap (λ p. p.0) e, ap (λ p. p.2) e ∙ given)
