-- ===== src/Server/Spectrum.antt =====
-- The spectrum of src/rtl_stream_server.c: `rtlsdr_server_process_fft` and `fft_gap`. The operations of
-- `float` and the transform of the FFT backend are parameters.
pub mod Samples
pub mod Calls
pub mod Tests
use rtl_sdr.Prelude.{
  ℕ, zero, suc, ◌+◌, ◌-◌, ◌*◌, ◌%◌, Bool, true, false, not, ◌||◌, Option, none, some,
}
use rtl_sdr.Prelude.{
  List, [], ◌∷◌, length, drop, get_or, set, replicate, ltb, ◌==◌, if◌then◌else◌, u64, Status, ok,
  failed,
}

-- `float`, with `(float)byte - 127.5f` and `(float)count`, and `fft_execute`: `none` is a failure.
pub record Backend : Type 1 where
  pub Float : Type 0
  pub nought : Float
  pub add : Float → Float → Float
  pub mul : Float → Float → Float
  pub div : Float → Float → Float
  pub centered : ℕ → Float
  pub of_count : ℕ → Float
  pub execute : List Float → Option (List Float)

-- The fields of `struct rtlsdr_server` about the spectrum.
pub record Fft (F : Type 0) : Type 0 where
  pub has_plan : Bool
  pub window : List F
  pub fft_in : List F
  pub power : List F
  pub acc : List F
  pub bins : ℕ
  pub step : ℕ
  pub accum : ℕ
  pub nsamples : ℕ
  pub accum_count : ℕ
  pub seq : ℕ
  pub ready : Bool

module _ (b : Backend) where
  abbrev pub State : Type 0
  State = Fft b.Float

  abbrev at : List b.Float → ℕ → b.Float
  at xs i = get_or xs i b.nought

  -- The loop that stores `left` samples from index `n` on.
  pub collect : ℕ → ℕ → List b.Float → List (ℕ × ℕ) → List b.Float
  collect zero n dst input = dst
  collect (suc left) n dst [] = dst
  collect (suc left) n dst ((i, q) ∷ input) =
      collect left (n + 1) (set (set dst (n * 2) (b.centered i)) (n * 2 + 1) (b.centered q)) input

  -- The loops over the bins from `i` on, with `left` to go: the window, the sum of the powers, and
  -- the mean.
  pub apply_window : ℕ → ℕ → List b.Float → List b.Float → List b.Float
  apply_window zero i window dst = dst
  apply_window (suc left) i window dst =
      let d1 = set dst (i * 2) (b.mul (at dst (i * 2)) (at window i)) in
      let d2 = set d1 (i * 2 + 1) (b.mul (at d1 (i * 2 + 1)) (at window i)) in
      apply_window left (i + 1) window d2

  pub add_power : ℕ → ℕ → List b.Float → List b.Float → List b.Float
  add_power zero i input acc = acc
  add_power (suc left) i input acc =
      let re = at input (i * 2) in
      let im = at input (i * 2 + 1) in
      add_power left (i + 1) input
        (set acc i (b.add (at acc i) (b.add (b.mul re re) (b.mul im im))))

  pub mean : ℕ → ℕ → ℕ → List b.Float → List b.Float → List b.Float × List b.Float
  mean zero i count power acc = (power, acc)
  mean (suc left) i count power acc =
      mean left (i + 1) count (set power i (b.div (at acc i) (b.of_count count)))
        (set acc i b.nought)

  -- A spectrum is published when enough of them are added up.
  pub publish_power : State → State
  publish_power s =
      let (power, acc) = mean s.bins 0 s.accum_count s.power s.acc in
      if ltb s.accum_count s.accum then s else record s {
        power = power;
        acc = acc;
        seq = u64 (s.seq + 1);
        ready = true;
        accum_count = 0;
      }

  -- At the end of a hop.
  pub finish_hop : State → Status × State
  finish_hop s =
      let windowed = apply_window s.bins 0 s.window s.fft_in in
      elim (b.execute windowed) [
        | none ↦ (failed, record s { fft_in = windowed })
        | some out ↦ (
          ok,
          publish_power (record s {
            fft_in = out;
            acc = add_power s.bins 0 out s.acc;
            accum_count = s.accum_count + 1;
            nsamples = 0;
          }),
        )
      ]

  -- `count` samples of the input are stored or skipped.
  pub take_samples : ℕ → State → List (ℕ × ℕ) → State
  take_samples count s input = record s {
    fft_in = if ltb s.nsamples s.bins then collect count s.nsamples s.fft_in input else s.fft_in;
    nsamples = s.nsamples + count;
  }

  pub end_of_samples : State → Status × State
  end_of_samples s = if s.nsamples == s.step then finish_hop s else (ok, s)

  -- The number of samples that a round takes.
  pub round_size : State → ℕ → ℕ
  round_size s available =
      let remaining = if ltb s.nsamples s.bins then s.bins - s.nsamples else s.step - s.nsamples in
      if ltb remaining available then remaining else available

  -- The loop over the input, with fuel.
  pub fft_loop : ℕ → State → List (ℕ × ℕ) → Status × State
  fft_loop zero s input = (ok, s)
  fft_loop (suc fuel) s [] = (ok, s)
  fft_loop (suc fuel) s (x ∷ input) =
      let count = round_size s (length (x ∷ input)) in
      let (status, s') = end_of_samples (take_samples count s (x ∷ input)) in
      let rest = fft_loop fuel s' (drop count (x ∷ input)) in
      elim status [ ok ↦ rest | failed ↦ (failed, s') ]

  -- The bytes of the input, two by two.
  unfoldable pub samples : List ℕ → List (ℕ × ℕ)
  samples [] = []
  samples (i ∷ []) = []
  samples (i ∷ q ∷ bytes) = (i, q) ∷ samples bytes

  -- `rtlsdr_server_process_fft`. A round takes a sample at least.
  pub process_fft : State → List ℕ → Status × State
  process_fft s input =
      if not (length input % 2 == 0)
        || not s.has_plan
        || ltb s.bins 2
        || ltb s.step s.bins
        || ltb s.accum 1
      then (failed, s)
      else fft_loop (length input) s (samples input)

  -- `fft_gap`, without the generation and the clients.
  pub fft_gap : State → State
  fft_gap s = record s {
    nsamples = 0;
    accum_count = 0;
    fft_in = replicate (s.bins * 2) b.nought;
    acc = replicate s.bins b.nought;
    power = replicate s.bins b.nought;
    ready = false;
  }
