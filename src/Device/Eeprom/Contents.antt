-- ===== src/Device/Eeprom/Contents.antt =====
-- What is written to the EEPROM is read back.
use rtl_sdr.Prelude.{
  ℕ, zero, suc, ◌+◌, ◌≤◌, ◌<◌, ◌≡◌, refl, ap, ap₂, sym, subst⁻¹, ◌∙◌, arith, List, [], ◌∷◌, length,
  get_or, ℤ, pos, negsuc, Buffer, store, fill, bytes_of, bytes_of-fill, ltb, ◌==◌, if◌then◌else◌,
  if_true, if_false, if_cases, u8,
}
use native.Mathlib.Nat.{mod-eq_of_lt}
use rtl_sdr.Device.{Usb}
use rtl_sdr.Device.Eeprom.{is_two, is_negative, write_bytes, write_eeprom, read_bytes, read_eeprom}

-- An EEPROM of 256 bytes with its register for addresses, behind the bus: a message of one byte
-- selects the address, one of two bytes stores the second at the first, and a read of one byte gives
-- the one that is selected and selects the next.
pub record IsEeprom {D : Type 0} (u : Usb D) (contents : D → Buffer) (selected : D → ℕ)
    : Type 0 where
  pub select_result : (a : ℕ) (d : D) → (u.control_out 0xa0 0x0610 (a ∷ []) d).0 ≡ pos 1
  pub select_contents :
      (a : ℕ) (d : D) → contents (u.control_out 0xa0 0x0610 (a ∷ []) d).1 ≡ contents d
  pub select_address : (a : ℕ) (d : D) → selected (u.control_out 0xa0 0x0610 (a ∷ []) d).1 ≡ a
  pub store_result : (a v : ℕ) (d : D) → (u.control_out 0xa0 0x0610 (a ∷ v ∷ []) d).0 ≡ pos 2
  pub store_contents :
      (a v : ℕ) (d : D)
      → contents (u.control_out 0xa0 0x0610 (a ∷ v ∷ []) d).1 ≡ store (contents d) a v
  pub read_result : (d : D) → (u.control_in 0xa0 0x0600 1 d).0 ≡ pos 1
  pub read_byte : (d : D) → (u.control_in 0xa0 0x0600 1 d).1 ≡ contents d (selected d) ∷ []
  pub read_contents : (d : D) → contents (u.control_in 0xa0 0x0600 1 d).2 ≡ contents d
  pub read_next : (d : D) → selected (u.control_in 0xa0 0x0600 1 d).2 ≡ u8 (selected d + 1)

store_same : (buf : Buffer) (i v : ℕ) → buf i ≡ v → store buf i v ≡ buf
store_same buf i v e = λ k j. pointwise j k
  where
    pointwise : (j : ℕ) → store buf i v j ≡ buf j
    pointwise j = ground (arith, e)

module _ {D : Type 0} (u : Usb D) (contents : D → Buffer) (selected : D → ℕ)
    (ee : IsEeprom u contents selected) where
  -- The bytes are stored, and the result is 0.
  record Stores (buf : Buffer) (x : ℤ × D) : Type 0 where
    result : x.0 ≡ pos 0
    stored : contents x.1 ≡ buf

  write_bytes-Stores :
      (addr : ℕ) (vs : List ℕ) (d : D)
      → addr + length vs ≤ 256
      → Stores (fill (contents d) addr vs) (write_bytes u addr vs d)
  unfolding write_bytes
  write_bytes-Stores addr [] d h = record { result = refl; stored = refl }
  write_bytes-Stores addr (v ∷ vs) d h =
      if_cases (Stores (fill (contents d) addr (v ∷ vs))) (get_or read.1 0 0 == v) _ _
        (λ e.
          let ih = write_bytes-Stores (addr + 1) vs read.2 (omega arith) in
          record {
            result = ih.result;
            stored =
                ih.stored
                ∙ ap (λ (f : Buffer). fill f (addr + 1) vs)
                    (kept ∙ sym (store_same (contents d) addr v (seen ∙ ground (arith, e))));
          })
        (λ _.
          subst⁻¹ (Stores (fill (contents d) addr (v ∷ vs)))
            (if_true (is_two sent.0) _ _ (ap is_two (ee.store_result (u8 addr) v read.2)))
            (let ih = write_bytes-Stores (addr + 1) vs sent.1 (omega arith) in
              record {
                result = ih.result;
                stored =
                    ih.stored
                    ∙ ap (λ (f : Buffer). fill f (addr + 1) vs)
                        (ee.store_contents (u8 addr) v read.2
                          ∙ ap₂ (λ (f : Buffer) (a : ℕ). store f a v) kept exact);
              }))
    where
      chosen : D
      chosen = (u.control_out 0xa0 0x0610 (u8 addr ∷ []) d).1

      read : ℤ × List ℕ × D
      read = u.control_in 0xa0 0x0600 1 chosen

      sent : ℤ × D
      sent = u.control_out 0xa0 0x0610 (u8 addr ∷ v ∷ []) read.2

      exact : u8 addr ≡ addr
      exact = omega arith

      kept : contents read.2 ≡ contents d
      kept = ee.read_contents chosen ∙ ee.select_contents (u8 addr) d

      seen : contents d addr ≡ get_or read.1 0 0
      seen =
          ap (contents d) (sym (ee.select_address (u8 addr) d ∙ exact))
          ∙ ap (λ (f : Buffer). f (selected chosen)) (sym (ee.select_contents (u8 addr) d))
          ∙ ap (λ t. get_or t 0 0) (sym (ee.read_byte chosen))

  -- The bytes from an address on, and the result of the last transfer.
  record Reads (buf : Buffer) (a left : ℕ) (x : ℤ × List ℕ × D) : Type 0 where
    result : x.0 ≡ pos 1
    bytes : x.1 ≡ bytes_of buf a left

  read_bytes-Reads :
      (left a : ℕ) (d : D)
      → a + left ≤ 256
      → (0 < left → selected d ≡ a)
      → Reads (contents d) a left (read_bytes u left (pos 1) d)
  unfolding read_bytes
  read_bytes-Reads zero a d h at_a = record { result = refl; bytes = refl }
  read_bytes-Reads (suc left) a d h at_a =
      let t : ℤ × List ℕ × D = u.control_in 0xa0 0x0600 1 d in
      let here : selected d ≡ a = at_a (omega arith) in
      let ih =
        read_bytes-Reads left (a + 1) t.2 (omega arith)
          (λ more. ee.read_next d ∙ ap (λ x. u8 (x + 1)) here ∙ mod-eq_of_lt (omega arith)) in
      subst⁻¹
        (λ (r : ℤ). Reads (contents d) a (suc left) (
          if is_negative r then (negsuc 2, [], t.2) else (
            (read_bytes u left r t.2).0,
            get_or t.1 0 0 ∷ (read_bytes u left r t.2).1,
            (read_bytes u left r t.2).2,
          )))
        (ee.read_result d)
        (record {
          result = ih.result;
          bytes =
              ap₂ (λ (x : ℕ) (xs : List ℕ). x ∷ xs)
                (ap (λ t. get_or t 0 0) (ee.read_byte d) ∙ ap (contents d) here)
                (ih.bytes ∙ ap (λ (f : Buffer). bytes_of f (a + 1) left) (ee.read_contents d));
        })

  write_eeprom-Stores :
      (bytes : List ℕ) (offset : ℕ) (d : D)
      → length bytes + offset ≤ 256
      → Stores (fill (contents d) offset bytes) (write_eeprom u bytes offset d)
  unfolding write_eeprom
  write_eeprom-Stores bytes offset d h =
      subst⁻¹ (Stores (fill (contents d) offset bytes))
        (if_false (ltb 256 (length bytes + offset)) _ _ (ground arith))
        (write_bytes-Stores offset bytes d (omega arith))

  read_eeprom-Reads :
      (offset len : ℕ) (d : D)
      → len + offset ≤ 256
      → Reads (contents d) offset len (read_eeprom u offset len d)
  unfolding read_eeprom
  read_eeprom-Reads offset len d h =
      let d' : D = (u.control_out 0xa0 0x0610 (offset ∷ []) d).1 in
      let read = read_bytes-Reads len offset d' (omega arith) (λ _. ee.select_address offset d) in
      subst⁻¹ (Reads (contents d) offset len) (if_false (ltb 256 (len + offset)) _ _ (ground arith))
        (subst⁻¹
          (λ (r : ℤ).
            Reads (contents d) offset len
              (if is_negative r then (negsuc 2, [], d') else read_bytes u len r d'))
          (ee.select_result offset d)
          (record {
            result = read.result;
            bytes =
                read.bytes
                ∙ ap (λ (f : Buffer). bytes_of f offset len) (ee.select_contents offset d);
          }))

  -- On an EEPROM, and where the bytes fit behind the offset: `rtlsdr_write_eeprom` returns 0 and
  -- leaves the bytes from the offset on and the other bytes as they were, and `rtlsdr_read_eeprom`
  -- then gives the same bytes, and returns 1.
  pub write_eeprom-read_eeprom :
      (bytes : List ℕ) (offset : ℕ) (d : D)
      → length bytes + offset ≤ 256
      → ((write_eeprom u bytes offset d).0 ≡ pos 0)
        × (contents (write_eeprom u bytes offset d).1 ≡ fill (contents d) offset bytes)
        × ((read_eeprom u offset (length bytes) (write_eeprom u bytes offset d).1).1 ≡ bytes)
        × ((read_eeprom u offset (length bytes) (write_eeprom u bytes offset d).1).0 ≡ pos 1)
  write_eeprom-read_eeprom bytes offset d h = (
    w.result,
    w.stored,
    r.bytes
        ∙ ap (λ (f : Buffer). bytes_of f offset (length bytes)) w.stored
        ∙ bytes_of-fill (contents d) offset bytes,
    r.result,
  )
    where
      w : Stores (fill (contents d) offset bytes) (write_eeprom u bytes offset d)
      w = write_eeprom-Stores bytes offset d h

      r :
          Reads
            (contents (write_eeprom u bytes offset d).1)
            offset
            (length bytes)
            (read_eeprom u offset (length bytes) (write_eeprom u bytes offset d).1)
      r = read_eeprom-Reads offset (length bytes) (write_eeprom u bytes offset d).1 h
