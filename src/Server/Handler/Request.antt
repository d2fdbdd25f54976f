-- ===== src/Server/Handler/Request.antt =====
-- What `client_handler` makes of the requests that the client sends.
use rtl_sdr.Prelude.{
  ℕ, ◌^◌, ◌<◌, ◌≤◌, ◌≡◌, refl, ap, arith, Bool, true, ◌||◌, ltb, if_true, if_false, Option, none,
  some, List, length, sub_ℕ, Buffer, ok, inl, inr, ◌⊎◌, get_or-set_self, subst⁻¹,
}
use native.Mathlib.Decide.{dec_lt}
use rtl_sdr.Proto.{Req, mode_iq}
use rtl_sdr.Dsp.Plan.{validate}
use rtl_sdr.Client.{Ctx}
use rtl_sdr.Client.Request.{Departure, request}
use rtl_sdr.Client.Sending.{req_of, request-decode_req}
use rtl_sdr.Server.Pool.{
  Pool, Client, Setup, unfit, channel, accepted, leaving, client_at, worker_check, no_client,
}
use rtl_sdr.Server.Handler.{check_request, check_decoded, check_fields}

-- The server accepts a request for `f`, `r` and `b`, and its record of the client becomes `now`: both
-- frequencies are below 2^32, the channel is valid, there is a filter, and the fields are stored.
pub record Admits (capture_freq capture_rate f r b : ℕ) (dsp : Option ℕ) (cl now : Client)
    : Type 0 where
  pub bandwidth : ℕ
  pub filter : ℕ
  pub low : f < 2 ^ 32
  pub capture_low : capture_freq < 2 ^ 32
  pub valid : validate capture_rate r b (sub_ℕ f capture_freq) ≡ some bandwidth
  pub filtered : dsp ≡ some filter
  pub stored : now ≡ record cl {
    freq = f;
    rate = r;
    bandwidth = bandwidth;
    dsp = some filter;
    worker = accepted;
  }

-- The server refuses the request, for one of these reasons.
abbrev pub Refuses : ℕ → ℕ → ℕ → ℕ → ℕ → Option ℕ → Client → Type 0
Refuses capture_freq capture_rate f r b dsp now =
    (now.worker ≡ leaving)
    × ((2 ^ 32 ≤ f)
        ⊎ ((2 ^ 32 ≤ capture_freq)
            ⊎ ((validate capture_rate r b (sub_ℕ f capture_freq) ≡ none) ⊎ (dsp ≡ none))))

module _ (p : Pool) (i : ℕ) (size : length p.clients ≡ 32) (below : i < 32) where
  check-unfit : (client_at (worker_check p i unfit).0 i).worker ≡ leaving
  unfolding worker_check
  check-unfit =
      ap (λ (cl : Client). cl.worker)
        (get_or-set_self p.clients i (record (client_at p i) { worker = leaving }) no_client
          (omega (arith, size)))

  check-channel :
      (capture_freq capture_rate f r b bw : ℕ) (dsp : Option ℕ)
      → f < 2 ^ 32
      → capture_freq < 2 ^ 32
      → validate capture_rate r b (sub_ℕ f capture_freq) ≡ some bw
      → let now = client_at (worker_check p i (channel f r bw dsp)).0 i in
        Admits capture_freq capture_rate f r b dsp (client_at p i) now
        ⊎ Refuses capture_freq capture_rate f r b dsp now
  unfolding worker_check
  check-channel capture_freq capture_rate f r b bw none hf hc e = inr (
    ap (λ (cl : Client). cl.worker) (get_or-set_self p.clients i _ no_client (omega (arith, size))),
    inr (inr (inr refl)),
  )
  check-channel capture_freq capture_rate f r b bw (some d) hf hc e = inl (record {
    bandwidth = bw;
    filter = d;
    low = hf;
    capture_low = hc;
    valid = e;
    filtered = refl;
    stored = get_or-set_self p.clients i _ no_client (omega (arith, size));
  })

  check-validated :
      (capture_freq capture_rate f r b : ℕ) (dsp v : Option ℕ)
      → f < 2 ^ 32
      → capture_freq < 2 ^ 32
      → validate capture_rate r b (sub_ℕ f capture_freq) ≡ v
      → let now =
          client_at
            (worker_check p i (elim v [ none ↦ unfit | some bw ↦ channel f r bw dsp ])).0
            i in
        Admits capture_freq capture_rate f r b dsp (client_at p i) now
        ⊎ Refuses capture_freq capture_rate f r b dsp now
  check-validated capture_freq capture_rate f r b dsp none hf hc e =
      inr (check-unfit, inr (inr (inl e)))
  check-validated capture_freq capture_rate f r b dsp (some bw) hf hc e =
      check-channel capture_freq capture_rate f r b bw dsp hf hc e

  check-check_fields :
      (capture_freq capture_rate f r b : ℕ) (has_plan : Bool) (dsp : Option ℕ)
      → let setup =
          check_fields capture_freq capture_rate has_plan mode_iq true dsp (req_of f r b mode_iq) in
        let now = client_at (worker_check p i setup).0 i in
        Admits capture_freq capture_rate f r b dsp (client_at p i) now
        ⊎ Refuses capture_freq capture_rate f r b dsp now
  unfolding check_fields
  check-check_fields capture_freq capture_rate f r b has_plan dsp =
      let Outcome : Setup → Type 0 = λ s.
        let now = client_at (worker_check p i s).0 i in
        Admits capture_freq capture_rate f r b dsp (client_at p i) now
        ⊎ Refuses capture_freq capture_rate f r b dsp now in
      let high = ltb 4294967295 f || ltb 4294967295 capture_freq in
      elim (dec_lt 4294967295 f) [
        | yes over ↦
            subst⁻¹ Outcome (if_true high unfit _ (ground arith))
              (inr (check-unfit, inl (omega arith)))
        | no low ↦ elim (dec_lt 4294967295 capture_freq) [
          | yes over ↦
              subst⁻¹ Outcome (if_true high unfit _ (ground arith))
                (inr (check-unfit, inr (inl (omega arith))))
          | no capture_low ↦ subst⁻¹ Outcome (if_false high unfit _ (ground arith)) (
              check-validated capture_freq capture_rate f r b dsp
                (validate capture_rate r b (sub_ℕ f capture_freq)) (omega arith) (omega arith) refl)
        ]
      ]

-- A request for a channel that rtlsdr_stream_request has sent with success, with numbers that fit the
-- fields, reaches client_handler of a current client of that listener, in a pool of 32 slots. Either
-- the server accepts it and stores the requested frequency and rate, the bandwidth that rtlsdr_dsp_validate
-- gives and the filter, and then that frequency and the captured one are below 2^32, the channel is
-- valid and rtlsdr_dsp_create gave the filter; or one of these four fails, and the worker leaves.
pub check_request-request :
    (p : Pool) (i : ℕ) (ctx : Ctx) (buf other : Buffer) (out : List Departure) (old : Req)
    (f r b capture_freq capture_rate : ℕ) (has_plan : Bool) (dsp : Option ℕ)
    → length p.clients ≡ 32
    → i < 32
    → f < 2 ^ 64
    → r < 2 ^ 64
    → b < 2 ^ 64
    → (request ctx buf out f r b mode_iq).status ≡ ok
    → let setup =
        check_request capture_freq capture_rate has_plan mode_iq true dsp old other
          (some (request ctx buf out f r b mode_iq).bytes) in
      let now = client_at (worker_check p i setup).0 i in
      Admits capture_freq capture_rate f r b dsp (client_at p i) now
      ⊎ Refuses capture_freq capture_rate f r b dsp now
unfolding check_request check_decoded
check_request-request p i ctx buf other out old f r b capture_freq capture_rate has_plan dsp size
      below hf hr hb sent =
    let (decoded, _) =
      request-decode_req ctx buf other buf out out old f r b mode_iq f r b mode_iq hf hr hb
        (omega arith) sent in
    subst⁻¹
      (λ s.
        let now = client_at (worker_check p i s).0 i in
        Admits capture_freq capture_rate f r b dsp (client_at p i) now
        ⊎ Refuses capture_freq capture_rate f r b dsp now)
      (ap (check_decoded capture_freq capture_rate has_plan mode_iq true dsp) decoded)
      (check-check_fields p i size below capture_freq capture_rate f r b has_plan dsp)
