-- ===== src/Server/Handler/Frames.antt =====
-- What the wire carries from `iq_client_handler`, and what a round does from the filter's samples on.
use rtl_sdr.Prelude.{ℕ, ◌+◌, ◌*◌, ◌<◌, ◌≡◌, inl, inr, refl, sym, ◌∙◌, ap, ap₂, arith, subst}
use rtl_sdr.Prelude.{
  Bool, true, false, not, if_cases, Option, none, some, List, [], ◌∷◌, ◌++◌, append_assoc,
  append-nil, flatten, length, ◌==◌, u64, ℤ, Buffer, bytes_of, Status, ok, failed,
}
use rtl_sdr.Proto.{
  IqHdr, evt_freq_change, evt_stream_end, encode_evt, encode_iq_hdr, encode_iq_payload,
}
use rtl_sdr.Server.Socket.{sendv}
use rtl_sdr.Server.Socket.Sendv.{Went, sendv-Went}
use rtl_sdr.Server.Handler.{
  Sending, View, event, farewell, client_current, Turn, Channel, Job, Round, iq_header, iq_ship,
  iq_samples,
}

-- The two events of the end of a session, one behind the other.
abbrev pub parting : View → List ℕ
parting v =
    let change = encode_evt (some v.buf) evt_freq_change v.new_freq in
    event change ++ event (encode_evt change.1 evt_stream_end 0)

-- What a sender that goes on only after a success has put out.
Went-two :
    (a b : List ℕ) (s t : Status × List ℕ)
    → Went a s
    → Went b t
    → (left : List ℕ) × ((elim s.0 [ ok ↦ s.1 ++ t.1 | failed ↦ s.1 ]) ++ left ≡ a ++ b)
Went-two a b (ok, s) (t, u) (inl (_, e)) (inl (_, f)) =
    ([], append-nil (s ++ u) ∙ ap₂ (λ x y. x ++ y) e f)
Went-two a b (ok, s) (t, u) (inl (_, e)) (inr (_, left, _, f)) =
    (left, append_assoc s u left ∙ ap (λ x. x ++ (u ++ left)) e ∙ ap (λ x. a ++ x) f)
Went-two a b (ok, s) t (inr (e, _, _, _)) h = cc
Went-two a b (failed, s) t (inl (e, _)) h = cc
Went-two a b (failed, s) t (inr (_, left, _, f)) h =
    (left ++ b, sym (append_assoc s left b) ∙ ap (λ x. x ++ b) f)

alone : (bytes : List ℕ) (r : Status × List ℕ) → Went (bytes ++ []) r → Went bytes r
alone bytes r h = subst (λ t. Went t r) (append-nil bytes) h

farewell-parting : (v : View) → (left : List ℕ) × (farewell v ++ left ≡ parting v)
unfolding farewell
farewell-parting v =
    let change = encode_evt (some v.buf) evt_freq_change v.new_freq in
    let end = encode_evt change.1 evt_stream_end 0 in
    let first = sendv (some (event change ∷ [])) true v.first.now v.first.attempts in
    let second = sendv (some (event end ∷ [])) true v.second.now v.second.attempts in
    Went-two (event change) (event end) first second
      (alone (event change) first
        (sendv-Went (event change ∷ []) v.first.now v.first.attempts (omega arith) (omega arith)))
      (alone (event end) second
        (sendv-Went (event end ∷ []) v.second.now v.second.attempts (omega arith) (omega arith)))

-- These bytes are a header with this sequence number and these samples, as the server's encoders
-- give them.
pub record IsFrame (ch : Channel) (seq : ℕ) (out : List ℤ) (bytes : List ℕ) : Type 0 where
  pub hdr_buf : Buffer
  pub wire_buf : Buffer
  pub hdr : Buffer
  pub wire : Buffer
  pub header :
      encode_iq_hdr (some hdr_buf) (some (iq_header ch seq (length out))) ≡ (some 32, some hdr)
  pub payload :
      encode_iq_payload (some wire_buf) (ch.capacity * 2) (some out) (length out) ≡ (ok, some wire)
  pub content : bytes ≡ bytes_of hdr 0 32 ++ bytes_of wire 0 (length out * 2)

-- What a handler puts on the wire from this sequence number on, with the samples of its whole
-- frames: nothing; a beginning of a frame; a beginning of the events at the end of a session; a whole
-- frame and more.
pub data Stream (ch : Channel) : ℕ → List ℤ → List ℕ → Type 0 where
  silent : (seq : ℕ) → Stream ch seq [] []
  cut :
      (seq : ℕ) (out : List ℤ) (part left bytes : List ℕ)
      → IsFrame ch seq out bytes
      → 0 < length left
      → part ++ left ≡ bytes
      → Stream ch seq [] part
  parted :
      (seq : ℕ) (v : View) (part left : List ℕ) → part ++ left ≡ parting v → Stream ch seq [] part
  frame :
      (seq : ℕ) (out samples : List ℤ) (bytes more : List ℕ)
      → IsFrame ch seq out bytes
      → Stream ch (u64 (seq + 1)) samples more
      → Stream ch seq (out ++ samples) (bytes ++ more)

-- What a round has done, with the number of its frame, the filter after it and the samples that the
-- filter gave: it goes on without a frame or with one, or it ends.
pub data Outcome {D : Type 0} (ch : Channel) (seq : ℕ) (d : D)
    : List ℤ → Option (Job D) → List ℕ → Type 0 where
  kept : (j : Job D) → j.dsp ≡ d → j.seq ≡ seq → Outcome ch seq d [] (some j) []
  shipped :
      (j : Job D) (out : List ℤ) (bytes : List ℕ)
      → j.dsp ≡ d
      → j.seq ≡ u64 (seq + 1)
      → IsFrame ch seq out bytes
      → Outcome ch seq d out (some j) bytes
  ended : (out : List ℤ) (sent : List ℕ) → Stream ch seq [] sent → Outcome ch seq d out none sent

encode_iq_hdr_size :
    (buf hdr : Buffer) (h : IqHdr) (n : ℕ)
    → encode_iq_hdr (some buf) (some h) ≡ (some n, some hdr)
    → encode_iq_hdr (some buf) (some h) ≡ (some 32, some hdr)
unfolding encode_iq_hdr
encode_iq_hdr_size buf hdr h n e = ground arith

pub told-Stream :
    (ch : Channel) (seq : ℕ) (v : View) (epoch : ℕ) → Stream ch seq [] (client_current v epoch).1
unfolding client_current
told-Stream ch seq v epoch =
    let P : Bool × List ℕ → Type 0 = λ r. Stream ch seq [] r.1 in
    if_cases P v.stopping (false, []) _ (λ e. silent seq)
      (λ e.
        if_cases P (v.capture_epoch == epoch) (true, []) (false, farewell v) (λ f. silent seq)
          (λ f. (let (left, part) = farewell-parting v in parted seq v (farewell v) left part)))

module _ {D : Type 0} (ch : Channel) where
  shipped-Outcome :
      (job : Job D) (out : List ℤ) (hdr wire : Buffer) (bytes : List ℕ) (r : Status × List ℕ)
      → IsFrame ch job.seq out bytes
      → Went bytes r
      → Outcome ch job.seq job.dsp out
          (elim r.0 [
            | ok ↦ some (record job { seq = u64 (job.seq + 1); hdr = hdr; wire = wire })
            | failed ↦ none
          ])
          r.1
  shipped-Outcome job out hdr wire bytes (ok, sent) f (inl (_, e)) =
      shipped _ out sent refl refl (subst (IsFrame ch job.seq out) (sym e) f)
  shipped-Outcome job out hdr wire bytes (ok, sent) f (inr (e, _, _, _)) = cc
  shipped-Outcome job out hdr wire bytes (failed, sent) f (inl (e, _)) = cc
  shipped-Outcome job out hdr wire bytes (failed, sent) f (inr (_, left, some_left, e)) =
      ended out sent (cut job.seq out sent left bytes f some_left e)

  iq_ship-Outcome :
      (job : Job D) (sending : Sending) (taken : List ℕ) (out : List ℤ)
      (header : Option ℕ × Option Buffer) (payload : Status × Option Buffer)
      → encode_iq_hdr (some job.hdr) (some (iq_header ch job.seq (length out))) ≡ header
      → encode_iq_payload (some job.wire) (ch.capacity * 2) (some out) (length out) ≡ payload
      → let r = iq_ship ch job sending taken out header payload in
        Outcome ch job.seq job.dsp out r.next r.sent × (r.taken ≡ taken)
  unfolding iq_ship
  iq_ship-Outcome job sending taken out (some n, some hdr) (ok, some wire) eh ep =
      let vs = bytes_of hdr 0 32 ∷ bytes_of wire 0 (length out * 2) ∷ [] in
      let r = sendv (some vs) true sending.now sending.attempts in
      (
        shipped-Outcome job out hdr wire (flatten vs) r
            (record {
              hdr_buf = job.hdr;
              wire_buf = job.wire;
              hdr = hdr;
              wire = wire;
              header = encode_iq_hdr_size job.hdr hdr (iq_header ch job.seq (length out)) n eh;
              payload = ep;
              content =
                  ap (λ t. bytes_of hdr 0 32 ++ t) (append-nil (bytes_of wire 0 (length out * 2)));
            })
            (sendv-Went vs sending.now sending.attempts (omega arith) (omega arith)),
        refl,
      )
  iq_ship-Outcome job sending taken out (none, hdr) payload eh ep =
      (ended out [] (silent job.seq), refl)
  iq_ship-Outcome job sending taken out (some n, none) payload eh ep =
      (ended out [] (silent job.seq), refl)
  iq_ship-Outcome job sending taken out (some n, some hdr) (failed, wire) eh ep =
      (ended out [] (silent job.seq), refl)
  iq_ship-Outcome job sending taken out (some n, some hdr) (ok, none) eh ep =
      (ended out [] (silent job.seq), refl)

  kept_empty :
      (job : Job D) (out : List ℤ) → length out ≡ 0 → Outcome ch job.seq job.dsp out (some job) []
  kept_empty job [] h = kept job refl refl
  kept_empty job (x ∷ out) h = absurd (omega arith)

  pub iq_samples-Outcome :
      (job : Job D) (t : Turn) (taken : List ℕ) (out : List ℤ)
      → let r = iq_samples ch job t taken out in
        Outcome ch job.seq job.dsp out r.next r.sent × (r.taken ≡ taken)
  unfolding iq_samples
  iq_samples-Outcome job t taken out =
      let P : Round D → Type 0 =
        λ r. Outcome ch job.seq job.dsp out r.next r.sent × (r.taken ≡ taken) in
      let now = client_current t.between ch.epoch in
      if_cases P (length out == 0) _ _ (λ e. (kept_empty job out (ground arith), refl))
        (λ e.
          if_cases P (not now.0) (record { next = none; sent = now.1; taken = taken }) _
            (λ f. (ended out now.1 (told-Stream ch job.seq t.between ch.epoch), refl))
            (λ f. iq_ship-Outcome job t.sending taken out _ _ refl refl))
