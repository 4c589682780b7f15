-- ===== src/Device/Commands.antt =====
-- A command of Device (src/devices/Device.cpp) that is sent, and the answer to it that is read.
use fpga_device_server.Common.{
  ℕ, ◌≡◌, refl, ap, ◌∙◌, ◌⊎◌, inl, inr, List, ◌++◌, arith, length, take-all, Bool-cases,
}
use fpga_device_server.Common.Int.{pos, eqb_ℤ}
use fpga_device_server.Common.Effect.{Result, err, ◌>>=◌, ◌>>◌, >>-ok, >>-err, >>=-ok, >>=-err}
use fpga_device_server.Protocol.{write_reg, encode, command_head, cmd_writereg, htobe16}
use fpga_device_server.Device.{
  Link, write_on, Error, write_error, read_error, read_timeout, AddrPort, RegChange, Device,
  write_whole, read_data_wait, read_commands, store_all, store_value, store_values, change_of,
  first_word, update_tracked_regs, find_reg, assign_reg,
}
use fpga_device_server.Device
use fpga_device_server.Device.Raw.{
  SameButHandle, SameButHandle-refl, SameButHandle-trans, SameButHandle-handle, sent_on, got_on,
  write_on_got, write_on_lem, Writes, read_data_wait-Reads,
}

module _ {F : Type 0} (link : Link F) where
  -- A command goes out whole, or a first part of it does and the method throws.
  pub write_whole-Writes : (bs : List ℕ) (d : Device F) → Writes link bs d (write_whole link bs d)
  unfolding write_whole
  write_whole-Writes bs d =
      let (k, fits, now, exact) = write_on_lem link bs d.ftdi in
      let r = (write_on link bs d.ftdi).0 in
      let same = SameButHandle-handle d d (write_on link bs d.ftdi).1 (SameButHandle-refl d) in
      elim (Bool-cases (eqb_ℤ r (pos (length bs)))) [
        | inl whole ↦
            let all : r ≡ pos (length bs) = ground arith in
            let k_is : k ≡ length bs = exact (length bs) all in
            rw whole (
              same,
              inl (refl, now ∙ ap (◌++◌ (sent_on link d.ftdi)) (take-all k bs (omega arith))),
            )
        | inr short ↦ rw short (same, inr (refl, (k, fits, now)))
      ]

  write_whole-got :
      (bs : List ℕ) (d : Device F) → got_on link (write_whole link bs d).1.ftdi ≡ got_on link d.ftdi
  unfolding write_whole
  write_whole-got bs d = elim (Bool-cases (eqb_ℤ (write_on link bs d.ftdi).0 (pos (length bs)))) [
    | inl whole ↦ rw whole (write_on_got link bs d.ftdi)
    | inr short ↦ rw short (write_on_got link bs d.ftdi)
  ]

  -- writeReg sends the command that writes the value, whole or not at all successfully.
  pub write_reg-Writes :
      (addr port value : ℕ) (d : Device F)
      → Writes link (encode (write_reg addr port value)) d (Device.write_reg link addr port value d)
  unfolding Device.write_reg encode
  write_reg-Writes addr port value d =
      write_whole-Writes (command_head cmd_writereg addr port ++ htobe16 value) d

  abbrev Next : Type 0
  Next = List ℕ → Device F → Result Error (Unit {0}) × Device F

  -- How a command with an answer can end: with a throw that leaves all but the handle alone, or with
  -- the command sent and an answer of the right length, from which the method goes on.
  abbrev pub Requests :
      {A : Type 0}
      → List ℕ
      → ℕ
      → (List ℕ → Device F → Result Error A × Device F)
      → Device F
      → Result Error A × Device F
      → Type 0
  Requests {A} cmd n next d out =
      ((x : Error) × (d' : Device F) × (out ≡ (err x, d')) × SameButHandle d d')
      ⊎ ((bs : List ℕ) × (d' : Device F) × (length bs ≡ n)
          × SameButHandle d d'
          × (sent_on link d'.ftdi ≡ sent_on link d.ftdi ++ cmd)
          × (got_on link d'.ftdi ≡ got_on link d.ftdi ++ bs)
          × (out ≡ next bs d'))

  pub request :
      {A : Type 0} (cmd : List ℕ) (n : ℕ) (next : List ℕ → Device F → Result Error A × Device F)
      (d : Device F)
      → Requests cmd n next d ((write_whole link cmd >> (read_data_wait link (pos n) >>= next)) d)
  request cmd n next d =
      let (same, wrote) = write_whole-Writes cmd d in
      let d1 = (write_whole link cmd d).1 in
      let (same', still, reads) = read_data_wait-Reads link n d1 in
      let d2 = (read_data_wait link (pos n) d1).1 in
      let reading = read_data_wait link (pos n) >>= next in
      elim wrote [
        | inr (failed, part) ↦
            inl (write_error, d1, >>-err (write_whole link cmd) reading d write_error failed, same)
        | inl (went, sent) ↦
            let on = >>-ok (write_whole link cmd) reading d tt went in
            elim reads [
              | inl (bs, got, size, came) ↦ inr (
                bs,
                d2,
                size,
                SameButHandle-trans same same',
                still ∙ sent,
                came ∙ ap (λ xs. xs ++ bs) (write_whole-got cmd d),
                on ∙ >>=-ok (read_data_wait link (pos n)) next d1 bs got,
              )
              | inr (inl failed) ↦ inl (
                read_error,
                d2,
                on ∙ >>=-err (read_data_wait link (pos n)) next d1 read_error failed,
                SameButHandle-trans same same',
              )
              | inr (inr late) ↦ inl (
                read_timeout,
                d2,
                on ∙ >>=-err (read_data_wait link (pos n)) next d1 read_timeout late,
                SameButHandle-trans same same',
              )
            ]
      ]
