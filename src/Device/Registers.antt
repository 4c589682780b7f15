-- ===== src/Device/Registers.antt =====
-- Register access (Device::writeReg, readReg, updateTrackedRegs): what is sent, what is stored, and
-- which changes are reported.
use fpga_device_server.Common.{
  ℕ, ◌+◌, ◌*◌, ◌≡◌, refl, sym, ap, ◌∙◌, subst, ◌⊎◌, inl, inr, true, List, [], ◌∷◌, ◌++◌, append-nil,
  arith, ◌==◌, if◌then◌else◌, length, Bool-cases,
}
use mathlib.Core.Path.{ap₂}
use fpga_device_server.Common.Effect.{Result, ok, err, ◌>>◌, modify, pure}
use fpga_device_server.Protocol.{read_reg, encode, command_head, cmd_readreg, words_of}
use fpga_device_server.Device.{
  Link, write_on, Error, write_error, read_error, read_timeout, AddrPort, RegChange, Device,
  write_whole, read_data_wait, read_commands, store_all, store_value, store_values, change_of,
  first_word, update_tracked_regs, find_reg, assign_reg,
}
use fpga_device_server.Device
use fpga_device_server.Device.Raw.{SameButHandle, sent_on, got_on}
use fpga_device_server.Device.Tracking.{Regs}
use fpga_device_server.Device.Commands.{request}
use fpga_device_server.Device.Stored.{
  with_values, changes_among, store_values_lem, is_some, reported, store_value_lem, reads_of,
  read_commands_lem, no_change, Words, words_of-Words, two_bytes, length-words_of,
}

module _ {F : Type 0} (link : Link F) where
  -- How a poll of the tracked registers can end.
  abbrev pub Polls : Device F → Result Error (Unit {0}) × Device F → Type 0
  Polls d (r, d') =
      ((x : Error) × (r ≡ err x) × SameButHandle d d')
      ⊎ ((vs : List ℕ) × (bs : List ℕ) × (r ≡ ok tt)
          × (got_on link d'.ftdi ≡ got_on link d.ftdi ++ bs)
          × Words bs vs
          × (length vs ≡ length d.tracked_regs)
          × (sent_on link d'.ftdi ≡ sent_on link d.ftdi ++ reads_of d.tracked_regs)
          × (d'.tracked_regs ≡ with_values d.tracked_regs vs)
          × (d'.changes
              ≡ d.changes
                ++ (if d.has_callback then changes_among d.name d.tracked_regs vs else []))
          × (d'.name ≡ d.name)
          × (d'.usb_device ≡ d.usb_device)
          × (d'.has_callback ≡ d.has_callback))

  -- updateTrackedRegs asks for every tracked register, reads two bytes for each, and stores the words
  -- in these bytes, the more significant byte first, in the order of the keys; if the callback is set, it is called for just those registers whose value is another
  -- one, with the new value. If anything fails, no register is changed and no call is made.
  pub update_tracked_regs-Polls : (d : Device F) → Polls d (update_tracked_regs link d)
  unfolding update_tracked_regs store_all
  update_tracked_regs-Polls d = elim (Bool-cases (length d.tracked_regs == 0)) [
    | inl nothing ↦
        let none_tracked = empty d.tracked_regs nothing in
        rw nothing (
          inr (
            [],
            [],
            refl,
            sym (append-nil (got_on link d.ftdi)),
            Words.no_more,
            sym (ap length none_tracked),
            sym (append-nil (sent_on link d.ftdi))
                ∙ ap (λ rs. sent_on link d.ftdi ++ reads_of rs) (sym none_tracked),
            none_tracked ∙ unfold with_values in ap (λ rs. with_values rs []) (sym none_tracked),
            no_change d.name d.has_callback d.changes d.tracked_regs none_tracked,
            refl,
            refl,
            refl,
          ))
    | inr some_regs ↦
        rw some_regs
          (elim (request link (read_commands d.tracked_regs) (2 * length d.tracked_regs)
            (λ bs. modify (store_all bs)) d) [
              | inl (x, d', e, same) ↦
                  inl (x, ap (λ o. o.0) e, subst (SameButHandle d) (sym (ap (λ o. o.1) e)) same)
              | inr (bs, d', size, same, sent, came, e) ↦ rw e (
                  inr (
                    words_of bs,
                    bs,
                    refl,
                    came,
                    words_of-Words (length d.tracked_regs) bs size,
                    length-words_of (length d.tracked_regs) bs size,
                    sent ∙ ap (◌++◌ (sent_on link d.ftdi)) (read_commands_lem d.tracked_regs),
                    (stored d d' bs same).0,
                    (stored d d' bs same).1,
                    same.name,
                    same.usb_device,
                    same.has_callback,
                  ))
            ])
  ]
    where
      empty : (rs : Regs) → (length rs == 0) ≡ true → rs ≡ []
      empty [] h = refl
      empty (r ∷ rs) h = absurd (ground arith)

      stored :
          (d d' : Device F) (bs : List ℕ)
          → SameButHandle d d'
          → ((store_all bs d').tracked_regs ≡ with_values d.tracked_regs (words_of bs))
            × ((store_all bs d').changes
                ≡ d.changes
                  ++ (if d.has_callback
                      then changes_among d.name d.tracked_regs (words_of bs)
                      else []))
      stored d d' bs same =
          let s = store_values_lem d'.name d'.has_callback d'.tracked_regs (words_of bs) in
          (
            s.0 ∙ ap (λ rs. with_values rs (words_of bs)) same.tracked_regs,
            ap₂ (◌++◌) same.changes (
                s.1
                ∙ ap (λ b. if b then changes_among d'.name d'.tracked_regs (words_of bs) else [])
                    same.has_callback
                ∙ ap₂ (λ n rs. if d.has_callback then changes_among n rs (words_of bs) else [])
                    same.name same.tracked_regs),
          )

  -- How a register read can end.
  abbrev pub ReadsRegister : ℕ → ℕ → Device F → Result Error ℕ × Device F → Type 0
  ReadsRegister addr port d (r, d') =
      ((x : Error) × (r ≡ err x) × SameButHandle d d')
      ⊎ ((v : ℕ) × (hi : ℕ) × (lo : ℕ) × (r ≡ ok v)
          × (v ≡ hi * 256 + lo)
          × (got_on link d'.ftdi ≡ got_on link d.ftdi ++ hi ∷ lo ∷ [])
          × (sent_on link d'.ftdi ≡ sent_on link d.ftdi ++ encode (read_reg addr port))
          × (d'.tracked_regs ≡ (
              if is_some (find_reg (addr, port) d.tracked_regs)
              then assign_reg (addr, port) v d.tracked_regs
              else d.tracked_regs))
          × (d'.changes
              ≡ d.changes
                ++ reported d.name d.has_callback addr port (find_reg (addr, port) d.tracked_regs)
                    v))

  -- readReg sends the command that reads the register, reads two bytes, and returns the word in them,
  -- the more significant byte first. If the register is
  -- tracked that word is stored, and the callback, if set, is called for a value that is another one;
  -- if it is not tracked nothing is stored and no call is made. If it throws, nothing is stored.
  pub read_reg-ReadsRegister :
      (addr port : ℕ) (d : Device F) → ReadsRegister addr port d (Device.read_reg link addr port d)
  unfolding Device.read_reg encode
  read_reg-ReadsRegister addr port d =
      elim (request link (command_head cmd_readreg addr port) 2
        (λ bs. modify (store_value (addr, port) (first_word bs)) >> pure (first_word bs)) d) [
          | inl (x, d', e, same) ↦
              inl (x, ap (λ o. o.0) e, subst (SameButHandle d) (sym (ap (λ o. o.1) e)) same)
          | inr (bs, d', size, same, sent, came, e) ↦
              let v = first_word bs in
              let (hi, lo, two) = two_bytes bs size in
              let (handle, regs, calls) = store_value_lem (addr, port) v d' in
              let found = λ (rs : Regs). find_reg (addr, port) rs in
              rw e (
                inr (
                  v,
                  hi,
                  lo,
                  refl,
                  ap first_word two,
                  ap (got_on link) handle ∙ came ∙ ap (◌++◌ (got_on link d.ftdi)) two,
                  ap (sent_on link) handle ∙ sent,
                  regs
                      ∙ ap (λ rs. if is_some (found rs) then assign_reg (addr, port) v rs else rs)
                          same.tracked_regs,
                  calls
                      ∙ ap₂ (◌++◌) same.changes (
                          ap (λ b. reported d'.name b addr port (found d'.tracked_regs) v)
                            same.has_callback
                          ∙ ap₂ (λ n rs. reported n d.has_callback addr port (found rs) v) same.name
                              same.tracked_regs),
                ))
        ]
