-- ===== src/Device/Returns.antt =====
-- The methods of Device end (src/devices/Device.cpp): they return or throw one of the exceptions of the code.
use fpga_device_server.Common.{
  ℕ, zero, suc, ◌-◌, ◌*◌, ◌^◌, ◌<◌, ◌≡◌, refl, sym, ap, ◌∙◌, inl, inr, false, List, [], ◌++◌, ◌==◌,
  arith, min, Bool-cases,
}
use fpga_device_server.Common.Int.{pos, int_of}
use fpga_device_server.Common.Effect.{
  Result, ok, err, Action, ◌>>=◌, ◌>>◌, >>=-ok, >>=-err, modify, pure,
}
use fpga_device_server.Protocol.{command_head, cmd_readreg, cmd_readreg_n, htobe16, n_packet_max}
use fpga_device_server.Device.{
  Link, Error, write_error, partial_write, read_error, read_timeout, no_return, Device, write_whole,
  read_data_wait, read_packets, store_value, first_word, write_raw, read_raw,
}
use fpga_device_server.Device
use fpga_device_server.Device.Raw.{write_raw-Writes, read_data_wait-Reads}
use fpga_device_server.Device.Packets.{write_reg_n-Sends}
use fpga_device_server.Device.Commands.{write_whole-Writes, write_reg-Writes}

-- The result of a call that has come back, by a return or an exception.
abbrev pub Fine : {A : Type 0} → Result Error A → Type 0
Fine r = (e : Error) → r ≡ err e → no_return e ≡ false

abbrev pub Returns : {S A : Type 0} → Action Error S A → Type 0
Returns {S} m = (s : S) → Fine (m s).0

pub ok-Returns :
    {A : Type 0} (r : Result Error A) (a : A) (e : Error)
    → r ≡ ok a
    → r ≡ err e
    → no_return e ≡ false
ok-Returns r a e went threw = absurd cc

pub err-Returns :
    {A : Type 0} (r : Result Error A) (x e : Error)
    → no_return x ≡ false
    → r ≡ err x
    → r ≡ err e
    → no_return e ≡ false
err-Returns r x e fine threw same = let x_is : x ≡ e = cc in ap no_return (sym x_is) ∙ fine

pub Returns-bind :
    {S A B : Type 0} (m : Action Error S A) (k : A → Action Error S B)
    → Returns m
    → ((a : A) → Returns (k a))
    → Returns (m >>= k)
Returns-bind {S} {A} m k first next s e h = went (m s).0 refl
  where
    went : (r : Result Error A) → (m s).0 ≡ r → no_return e ≡ false
    went (ok a) g = next a (m s).1 e (sym (ap (λ o. o.0) (>>=-ok m k s a g)) ∙ h)
    went (err x) g =
        let thrown = sym (ap (λ o. o.0) (>>=-err m k s x g)) ∙ h in
        let x_is : x ≡ e = cc in first s e (g ∙ ap err x_is)

module _ {F : Type 0} (link : Link F) where
  write_whole-Returns : (bs : List ℕ) → Returns (write_whole link bs)
  write_whole-Returns bs d e h = elim (write_whole-Writes link bs d).1 [
    | inl went ↦ ok-Returns _ tt e went.0 h
    | inr part ↦ err-Returns _ write_error e refl part.0 h
  ]

  read_data_wait-Returns : (size : ℕ) → Returns (read_data_wait link (pos size))
  read_data_wait-Returns size d e h = elim (read_data_wait-Reads link size d).2 [
    | inl (bs, went, same, came) ↦ ok-Returns _ bs e went h
    | inr (inl failed) ↦ err-Returns _ read_error e refl failed h
    | inr (inr late) ↦ err-Returns _ read_timeout e refl late h
  ]

  pub write_raw-Returns : (bs : List ℕ) → Returns (write_raw link bs)
  write_raw-Returns bs d e h = elim (write_raw-Writes link bs d).1 [
    | inl went ↦ ok-Returns _ tt e went.0 h
    | inr part ↦ err-Returns _ write_error e refl part.0 h
  ]

  pub write_reg-Returns : (addr port value : ℕ) → Returns (Device.write_reg link addr port value)
  write_reg-Returns addr port value d e h = elim (write_reg-Writes link addr port value d).1 [
    | inl went ↦ ok-Returns _ tt e went.0 h
    | inr part ↦ err-Returns _ write_error e refl part.0 h
  ]

  pub write_reg_n-Returns :
      (addr port : ℕ) (ws : List ℕ) → Returns (Device.write_reg_n link addr port ws)
  write_reg_n-Returns addr port ws d e h = elim (write_reg_n-Sends link addr port ws d).1 [
    | inl went ↦ ok-Returns _ tt e went.0 h
    | inr (inl failed, part) ↦ err-Returns _ write_error e refl failed h
    | inr (inr short, part) ↦ err-Returns _ partial_write e refl short h
  ]

  -- Fewer bytes than 2^31 are asked for.
  pub read_raw-Returns : (n : ℕ) → n < 2 ^ 31 → Returns (read_raw link n)
  unfolding read_raw
  read_raw-Returns n small d e h =
      let whole : int_of n ≡ pos n = ground arith in
      elim (Bool-cases (n == 0)) [
        | inl nothing ↦ ok-Returns _ [] e refl (rw nothing at h)
        | inr something ↦ read_data_wait-Returns n d e (rw (something, whole) at h)
      ]

  pub read_reg-Returns : (addr port : ℕ) → Returns (Device.read_reg link addr port)
  unfolding Device.read_reg
  read_reg-Returns addr port =
      Returns-bind (write_whole link (command_head cmd_readreg addr port)) _
        (write_whole-Returns (command_head cmd_readreg addr port))
        (λ _.
          Returns-bind (read_data_wait link (pos 2))
            (λ bs. modify (store_value (addr, port) (first_word bs)) >> pure (first_word bs))
            (read_data_wait-Returns 2) (λ bs d e h. ok-Returns _ (first_word bs) e refl h))

  read_packets-Returns :
      (fuel addr port n : ℕ) (received : List ℕ)
      → n < fuel
      → Returns (read_packets link fuel addr port n received)
  unfolding read_packets
  read_packets-Returns zero addr port n received enough d e h = absurd (omega arith)
  read_packets-Returns (suc fuel) addr port n received enough d e h =
      let m = min n n_packet_max in
      let cmd = command_head cmd_readreg_n addr port ++ htobe16 m in
      elim (Bool-cases (n == 0)) [
        | inl all ↦ ok-Returns _ received e refl (rw all at h)
        | inr more ↦
            Returns-bind (write_whole link cmd)
              (λ _. read_data_wait link (pos (2 * m)) >>= λ bs.
                read_packets link fuel addr port (n - m) (received ++ bs))
              (write_whole-Returns cmd)
              (λ _.
                Returns-bind (read_data_wait link (pos (2 * m)))
                  (λ bs. read_packets link fuel addr port (n - m) (received ++ bs))
                  (read_data_wait-Returns (2 * m))
                  (λ bs.
                    read_packets-Returns fuel addr port (n - m) (received ++ bs) (ground arith)))
              d e (rw more at h)
      ]

  pub read_reg_n-Returns : (addr port n : ℕ) → Returns (Device.read_reg_n link addr port n)
  unfolding Device.read_reg_n
  read_reg_n-Returns addr port n d e h = elim (Bool-cases (n == 0)) [
    | inl nothing ↦ ok-Returns _ [] e refl (rw nothing at h)
    | inr something ↦
        read_packets-Returns (suc n) addr port n [] (omega arith) d e (rw something at h)
  ]
