-- ===== src/Dsp/Filter.antt =====
-- The running of the filters in src/rtl_dsp.c: one stage, the fused loop of the first stage, and
-- `rtlsdr_dsp_process`. The operations of `float` and `double` are parameters.
pub mod Tick
pub mod Process
pub mod Stream
pub mod Even
pub mod Tests
use rtl_sdr.Prelude.{
  ℕ, zero, suc, ◌+◌, ◌-◌, ◌*◌, ◌/◌, ◌%◌, ◌^◌, Bool, true, false, not, ◌&&◌, ◌||◌, Option, none,
  some,
}
use rtl_sdr.Prelude.{
  List, [], ◌∷◌, ◌++◌, map, ltb, leb, ◌==◌, if◌then◌else◌, length, get_or, set, replicate, is_none,
}
use rtl_sdr.Prelude.{u32, ◌>>>◌, bit_and, ℤ, Status, ok, failed}

-- The arithmetic of the platform: `float`, `double`, and the conversions that the code uses.
pub record Floats : Type 1 where
  pub Single : Type 0
  pub Double : Type 0
  pub zero_single : Single
  pub zero_double : Double
  pub add : Single → Single → Single
  pub mul : Single → Single → Single
  pub less : Single → Single → Bool
  -- 256.0f, -32768.0f and 32767.0f
  pub scale : Single
  pub lowest : Single
  pub highest : Single
  -- `(int16_t)v`
  pub truncate : Single → ℤ
  pub add_double : Double → Double → Double
  pub sub_double : Double → Double → Double
  pub mul_double : Double → Double → Double
  -- `(double)byte - 127.5`
  pub centered : ℕ → Double
  pub widen : Single → Double
  pub narrow : Double → Single
  -- `(float)cos(2.0 * M_PI * i / NCO_SIZE)`
  pub cosine : ℕ → Single

-- `struct dsp_stage`
pub record Filter (A : Type 0) : Type 0 where
  pub coeffs : List A
  pub delay_i : List A
  pub delay_q : List A
  pub num_taps : ℕ
  pub buf_size : ℕ
  pub buf_mask : ℕ
  pub decimation : ℕ
  pub counter : ℕ
  pub wp : ℕ

-- What `process` reads and writes of `struct rtlsdr_dsp`; the first stage stands apart.
pub record Dsp (A B : Type 0) : Type 0 where
  pub phase : ℕ
  pub phase_inc : ℕ
  pub dc_alpha : B
  pub dc_x_i : B
  pub dc_x_q : B
  pub dc_y_i : B
  pub dc_y_q : B
  pub first : Filter A
  pub later : List (Filter A)

module _ (fl : Floats) where
  -- Two `float`s or two samples, I and Q.
  abbrev pub Pair : Type 0
  Pair = fl.Single × fl.Single

  abbrev pub State : Type 0
  State = Dsp fl.Single fl.Double

  abbrev pub nco_cos : ℕ → fl.Single
  nco_cos ph = fl.cosine (ph >>> 16)

  abbrev pub nco_sin : ℕ → fl.Single
  nco_sin ph = fl.cosine (bit_and (u32 (ph / 2 ^ 16 + 2 ^ 32 - 16384)) 65535)

  -- A sample is stored at `wp`, which moves on.
  abbrev pub put_sample : Filter fl.Single → fl.Single → fl.Single → Filter fl.Single
  put_sample st in_i in_q = record st {
    delay_i = set st.delay_i st.wp in_i;
    delay_q = set st.delay_q st.wp in_q;
    wp = bit_and (st.wp + 1) st.buf_mask;
  }

  -- The loop over the taps from `j` on. The index `(wp - 1 - j) & mask` is that of an `int`.
  pub fir_loop : ℕ → ℕ → Filter fl.Single → Pair → Pair
  fir_loop zero j st sums = sums
  fir_loop (suc left) j st (sum_i, sum_q) =
      let idx = bit_and (u32 (st.wp + 2 ^ 32 - 1 - j)) st.buf_mask in
      let c = get_or st.coeffs j fl.zero_single in
      fir_loop left (j + 1) st (
        fl.add sum_i (fl.mul c (get_or st.delay_i idx fl.zero_single)),
        fl.add sum_q (fl.mul c (get_or st.delay_q idx fl.zero_single)),
      )

  -- `stage_fir`
  pub stage_fir : Filter fl.Single → Pair
  stage_fir st = fir_loop st.num_taps 0 st (fl.zero_single, fl.zero_single)

  -- `stage_run`: `none` is the result 0.
  pub stage_run : Filter fl.Single → Pair → Filter fl.Single × Option Pair
  stage_run st (in_i, in_q) =
      let put = put_sample st in_i in_q in
      if ltb (st.counter + 1) st.decimation
      then (record put { counter = st.counter + 1 }, none)
      else (record put { counter = 0 }, some (stage_fir (record put { counter = 0 })))

  -- `sat16`
  pub sat16 : fl.Single → ℤ
  sat16 v =
      let w = fl.mul v fl.scale in
      fl.truncate
        (if fl.less w fl.lowest then fl.lowest else if fl.less fl.highest w then fl.highest else w)

  -- The body of STAGE1_BLOCK at two bytes of input.
  pub mix : State → ℕ × ℕ → State
  mix d (byte_i, byte_q) =
      let c = fl.widen (nco_cos d.phase) in
      let s = fl.widen (nco_sin d.phase) in
      let ri = fl.centered byte_i in
      let rq = fl.centered byte_q in
      let y_i = fl.add_double (fl.sub_double ri d.dc_x_i) (fl.mul_double d.dc_alpha d.dc_y_i) in
      let y_q = fl.add_double (fl.sub_double rq d.dc_x_q) (fl.mul_double d.dc_alpha d.dc_y_q) in
      let mi = fl.narrow (fl.add_double (fl.mul_double y_i c) (fl.mul_double y_q s)) in
      let mq = fl.narrow (fl.sub_double (fl.mul_double y_q c) (fl.mul_double y_i s)) in
      record d {
        phase = u32 (d.phase + d.phase_inc);
        dc_x_i = ri;
        dc_x_q = rq;
        dc_y_i = y_i;
        dc_y_q = y_q;
        first = put_sample d.first mi mq;
      }

  -- STAGE1_BLOCK: `count` samples, and the input behind them.
  pub block : ℕ → State → List (ℕ × ℕ) → State × List (ℕ × ℕ)
  block zero d input = (d, input)
  block (suc count) d [] = (d, [])
  block (suc count) d (x ∷ input) = block count (mix d x) input

  abbrev pub set_counter : ℕ → State → State
  set_counter c d = record d { first = record d.first { counter = c } }

  -- `stage1_next`: the input from `*input_idx` on, before and after.
  pub stage1_next : State → List (ℕ × ℕ) → Bool × State × List (ℕ × ℕ)
  stage1_next d input =
      let available = length input in
      let full = d.first.decimation - d.first.counter in
      let count = if ltb available full then available else full in
      let (after, rest) = block count d input in
      let counter = d.first.counter + count in
      if available == 0
      then (false, d, input)
      else if not (counter == d.first.decimation)
      then (false, set_counter counter after, rest)
      else (true, set_counter 0 after, rest)

  -- The nested calls of `stage_run` for the later stages, and the samples that the last one gives.
  pub cascade : List (Filter fl.Single) → Pair → List (Filter fl.Single) × List ℤ
  cascade [] (o_i, o_q) = ([], sat16 o_i ∷ sat16 o_q ∷ [])
  cascade (st ∷ sts) out =
      let (st', fired) = stage_run st out in
      elim fired [
        | none ↦ (st' ∷ sts, [])
        | some next ↦ (let (sts', output) = cascade sts next in (st' ∷ sts', output))
      ]

  -- The body of the loop of each `process_t…`.
  pub fire : State → State × List ℤ
  fire d =
      let (later, output) = cascade d.later (stage_fir d.first) in
      (record d { later = later }, output)

  -- The loops of `process_t01` to `process_t10`, with fuel.
  pub process_loop : ℕ → State → List (ℕ × ℕ) → State × List ℤ
  process_loop zero d input = (d, [])
  process_loop (suc fuel) d input =
      let (fired, d1, rest) = stage1_next d input in
      let (d2, output) = fire d1 in
      let (d3, outputs) = process_loop fuel d2 rest in
      if fired then (d3, output ++ outputs) else (d1, [])

  -- The bytes of the input, two by two.
  unfoldable pub pairs : List ℕ → List (ℕ × ℕ)
  pairs [] = []
  pairs (i ∷ []) = []
  pairs (i ∷ q ∷ bytes) = (i, q) ∷ pairs bytes

  -- `rtlsdr_dsp_process` at pointers that are not null: the samples that it writes to `output`. Each
  -- round takes a sample from the input, so one round more than there are bytes is enough.
  pub process : State → List ℕ → ℕ → Status × State × List ℤ
  process d input capacity =
      let (after, output) = process_loop (length input + 1) d (pairs input) in
      if not (length input % 2 == 0) || ltb capacity (length input)
      then (failed, d, [])
      else (ok, after, output)

  -- What `rtlsdr_dsp_reset` does to a stage.
  abbrev pub clear : Filter fl.Single → Filter fl.Single
  clear st = record st {
    delay_i = replicate st.buf_size fl.zero_single;
    delay_q = replicate st.buf_size fl.zero_single;
    wp = 0;
    counter = 0;
  }

  -- `rtlsdr_dsp_reset`
  pub reset : State → State
  reset d = record d {
    phase = 0;
    dc_x_i = fl.zero_double;
    dc_x_q = fl.zero_double;
    dc_y_i = fl.zero_double;
    dc_y_q = fl.zero_double;
    first = clear d.first;
    later = map clear d.later;
  }
