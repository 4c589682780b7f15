-- ===== src/IoFtdi/Buffer.antt =====
-- The command buffer of the cable (IOFtdi::mpsse_add_cmd, mpsse_send, readusb in
-- src/devices/xc3sprog/ioftdi.cpp): what goes out, and how full the buffer is.
use fpga_device_server.Common.{
  ◌≡◌, refl, sym, ap, ◌∙◌, ℕ, zero, suc, ◌+◌, ◌-◌, ◌<◌, Bool, true, false, not, ◌&&◌, Option, List,
  [], ◌∷◌, ◌++◌, append_assoc, append-nil, ◌==◌, ltb, leb, length, length-append, take-all, arith,
  if_ind, Bool-cases, inl, inr,
}
use mathlib.Core.Path.{ap₂}
use fpga_device_server.Common.Int.{ℤ, pos, eqb_ℤ, eq_of_parts}
use fpga_device_server.Common.Effect.{Result, ok, err, modify, after, ◌>>=◌, ◌>>◌}
use fpga_device_server.Common.Maps.{is_some}
use fpga_device_server.Device.{Link}
use fpga_device_server.IoFtdi.{
  tx_buf, Cable, CableError, send_immediate, read_tries, Method, mpsse_send, mpsse_add_cmd,
  read_once, got, read_end, read_tries_loop, readusb,
}
use fpga_device_server.IoFtdi.Stream.{Fits, stream, Sends, Sends-trans, Sends-bind}

eqb_sound : (a b : ℤ) → eqb_ℤ a b ≡ true → a ≡ b
eqb_sound a b h = ground (arith, eq_of_parts a b)

module _ {F : Type 0} (link : Link F) (errno : F → ℕ) where
  -- The buffer is empty after a send that returns.
  Emptied : Cable F → Result CableError (Unit {0}) × Cable F → Type 0
  Emptied c (ok a, c') = (c'.usbuf ≡ []) × (stream link c' ≡ stream link c)
  Emptied c (err e, c') = c'.usbuf ≡ c.usbuf

  no_bytes : (xs : List ℕ) → (length xs == 0) ≡ true → xs ≡ []
  no_bytes [] h = refl
  no_bytes (x ∷ xs) h = absurd (ground arith)

  mpsse_send-Emptied : (c : Cable F) → Emptied c (mpsse_send link errno c)
  unfolding mpsse_send Emptied stream
  mpsse_send-Emptied c =
      let f = c.ftdi_handle in
      if_ind (Emptied c) (length c.usbuf == 0) (λ nothing. (no_bytes c.usbuf nothing, refl))
        (λ _.
          if_ind (Emptied c) (not (eqb_ℤ (link.write_data f c.usbuf).0 (pos (length c.usbuf))))
            (λ _. refl)
            (λ whole.
              let (k, fits, sent, counted) = link.write_prefix f c.usbuf in
              let all_out : k ≡ length c.usbuf =
                counted (length c.usbuf)
                  (eqb_sound (link.write_data f c.usbuf).0 (pos (length c.usbuf)) (ground arith)) in
              (
                refl,
                append-nil (link.sent (link.write_data f c.usbuf).1)
                    ∙ sent
                    ∙ ap (◌++◌ (link.sent f)) (take-all k c.usbuf (omega arith)),
              )))

  Emptied-Sends :
      (c : Cable F) (r : Result CableError (Unit {0}) × Cable F)
      → Fits c
      → Emptied c r
      → Sends link [] c r
  unfolding Emptied Sends
  Emptied-Sends c (ok a, c') fits (empty, same) =
      (rw empty (omega arith), same ∙ sym (append-nil (stream link c)))
  Emptied-Sends c (err e, c') fits same = rw same fits

  pub mpsse_send-Sends : (c : Cable F) → Fits c → Sends link [] c (mpsse_send link errno c)
  mpsse_send-Sends c fits = Emptied-Sends c (mpsse_send link errno c) fits (mpsse_send-Emptied c)

  abbrev add : List ℕ → Cable F → Cable F
  add buf c = record c { usbuf = c.usbuf ++ buf }

  add-Sends :
      (buf : List ℕ) (c : Cable F)
      → length c.usbuf + length buf < tx_buf
      → Sends link buf c (ok tt, add buf c)
  unfolding Sends stream
  add-Sends buf c room = (
    omega (arith, length-append c.usbuf buf),
    sym (append_assoc (link.sent c.ftdi_handle) c.usbuf buf),
  )

  Emptied-add :
      (buf : List ℕ) (c : Cable F) (r : Result CableError (Unit {0}) × Cable F)
      → length buf < tx_buf
      → Fits c
      → Emptied c r
      → Sends link buf c (after r.0 (λ _. modify (add buf)) r.1)
  unfolding Emptied
  Emptied-add buf c (ok a, c') small fits (empty, same) =
      let no_more : length c'.usbuf ≡ 0 = ap length empty in
      Sends-trans link [] buf c c' (ok tt, add buf c') (same ∙ sym (append-nil (stream link c)))
        (add-Sends buf c' (omega arith))
  Emptied-add buf c (err e, c') small fits same = unfold Sends in rw same fits

  -- Adding a command of less than TX_BUF bytes never writes past the end of the buffer, which has TX_BUF
  -- bytes. If it returns, the bytes that have gone out and those in the buffer are those of
  -- before and the command, in order, whether the buffer had to be sent first or not.
  pub mpsse_add_cmd-Sends :
      (buf : List ℕ) (c : Cable F)
      → length buf < tx_buf
      → Fits c
      → Sends link buf c (mpsse_add_cmd link errno buf c)
  unfolding mpsse_add_cmd
  mpsse_add_cmd-Sends buf c small fits =
      elim (Bool-cases (leb tx_buf (length c.usbuf + length buf + 1))) [
        | inl full ↦
            rw full (Emptied-add buf c (mpsse_send link errno c) small fits (mpsse_send-Emptied c))
        | inr room ↦ rw room (add-Sends buf c (ground arith))
      ]

  read_end-Sends :
      (tired : Bool) (last : Option (List ℕ)) (received : List ℕ) (c : Cable F)
      → Fits c
      → Sends link [] c (read_end link errno tired last received c)
  unfolding read_end Sends
  read_end-Sends tired last received c fits =
      let Kept = λ (r : Result CableError (List ℕ) × Cable F). Sends link [] c r in
      let failed = tired && (length (got last) == 0 && not (errno c.ftdi_handle == 0)) in
      if_ind Kept failed (λ _. fits)
        (λ _.
          if_ind Kept (not (is_some last)) (λ _. fits)
            (λ _. (fits, sym (append-nil (stream link c)))))

  -- A read sends nothing.
  after_read :
      (c c' : Cable F) (size : ℕ)
      → c'.ftdi_handle ≡ (link.read_data c.ftdi_handle size).1
      → c'.usbuf ≡ c.usbuf
      → stream link c' ≡ stream link c ++ []
  unfolding stream
  after_read c c' size handle same =
      ap₂ ◌++◌ (ap link.sent handle ∙ link.read_sends_nothing c.ftdi_handle size) same
      ∙ sym (append-nil (link.sent c.ftdi_handle ++ c.usbuf))

  read_tries_loop-Sends :
      (tries size : ℕ) (last : Option (List ℕ)) (received : List ℕ) (c : Cable F)
      → Fits c
      → Sends link [] c (read_tries_loop link errno tries size last received c)
  unfolding read_tries_loop Sends
  read_tries_loop-Sends zero size last received c fits = read_end-Sends true last received c fits
  read_tries_loop-Sends (suc tries) size last received c fits =
      let (answer, f) = link.read_data c.ftdi_handle (size - length received) in
      let c' = record c { retries = c.retries + 1; ftdi_handle = f } in
      if_ind (λ (m : Method F (List ℕ)). Sends link [] c (m c)) (ltb (length received) size)
        (λ _.
          Sends-trans link [] [] c c'
            (read_tries_loop link errno tries size answer (received ++ got answer) c')
            (after_read c c' (size - length received) refl refl)
            (read_tries_loop-Sends tries size answer (received ++ got answer) c' fits))
        (λ _. read_end-Sends false last received c fits)

  pub readusb-Sends :
      (size : ℕ) (c : Cable F)
      → Fits c
      → Sends link (send_immediate ∷ []) c (readusb link errno size c)
  unfolding readusb Sends stream
  readusb-Sends size c fits =
      let now = send_immediate ∷ [] in
      Sends-bind link now [] c
        (mpsse_add_cmd link errno now
          >> mpsse_send link errno
          >> modify (λ c. record c { calls_rd = c.calls_rd + 1 }))
        (λ _. read_once link errno size >>= λ answer.
          read_tries_loop link errno read_tries size answer (got answer))
        (Sends-bind link now [] c (mpsse_add_cmd link errno now >> mpsse_send link errno)
          (λ _. modify (λ c. record c { calls_rd = c.calls_rd + 1 }))
          (Sends-bind link now [] c (mpsse_add_cmd link errno now) (λ _. mpsse_send link errno)
            (mpsse_add_cmd-Sends now c (omega arith) fits)
            (λ _ c' fits'. mpsse_send-Sends c' fits'))
          (λ _ c' fits'. (fits', sym (append-nil (stream link c')))))
        (λ _ c' fits'.
          let (answer, f) = link.read_data c'.ftdi_handle size in
          let c'' = record c' { ftdi_handle = f } in
          Sends-trans link [] [] c' c''
            (read_tries_loop link errno read_tries size answer (got answer) c'')
            (after_read c' c'' size refl refl)
            (read_tries_loop-Sends read_tries size answer (got answer) c'' fits'))
