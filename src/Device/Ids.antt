-- ===== src/Device/Ids.antt =====
-- No method of a device changes its name or its USB device.
use fpga_device_server.Common.{
  ℕ, zero, suc, ◌-◌, ◌*◌, ◌≡◌, refl, sym, ◌∙◌, subst, inl, inr, List, [], ◌++◌, ◌==◌, min,
  Bool-cases, Option-cases,
}
use fpga_device_server.Common.Int.{ℤ, pos, negsuc, int_of}
use fpga_device_server.Common.Effect.{Result, ok, err, ◌>>=◌, ◌>>◌, >>=-ok, >>=-err, modify, pure}
use fpga_device_server.Protocol.{command_head, cmd_readreg, cmd_readreg_n, htobe16, n_packet_max}
use fpga_device_server.Device.{
  Link, Method, Error, Device, AddrPort, write_whole, read_data_wait, read_below_zero, read_packets,
  store_value, first_word, write_raw, read_raw, update_tracked_regs, find_reg,
}
use fpga_device_server.Device
use fpga_device_server.Device.Raw.{write_raw-Writes, read_data_wait-Reads}
use fpga_device_server.Device.Packets.{write_reg_n-Sends}
use fpga_device_server.Device.Commands.{write_whole-Writes, write_reg-Writes}
use fpga_device_server.Device.Registers.{update_tracked_regs-Polls}

module _ {F : Type 0} (link : Link F) where
  abbrev pub KeepsIds : {A : Type 0} → Method link A → Type 0
  KeepsIds method =
      (d : Device F) → ((method d).1.name ≡ d.name) × ((method d).1.usb_device ≡ d.usb_device)

  KeepsIds-bind :
      {A B : Type 0} (m : Method link A) (k : A → Method link B)
      → KeepsIds m
      → ((a : A) → KeepsIds (k a))
      → KeepsIds (m >>= k)
  KeepsIds-bind {A} {B} m k first next d = went (m d).0 refl
    where
      went :
          (r : Result Error A)
          → (m d).0 ≡ r
          → (((m >>= k) d).1.name ≡ d.name) × (((m >>= k) d).1.usb_device ≡ d.usb_device)
      went (ok a) e =
          let (n, u) = next a (m d).1 in
          subst (λ o. (o.1.name ≡ d.name) × (o.1.usb_device ≡ d.usb_device))
            (sym (>>=-ok m k d a e)) (n ∙ (first d).0, u ∙ (first d).1)
      went (err x) e =
          subst (λ o. (o.1.name ≡ d.name) × (o.1.usb_device ≡ d.usb_device))
            (sym (>>=-err m k d x e)) (first d)

  write_whole-KeepsIds : (bs : List ℕ) → KeepsIds (write_whole link bs)
  write_whole-KeepsIds bs d =
      let same = (write_whole-Writes link bs d).0 in (same.name, same.usb_device)

  read_data_wait-KeepsIds : (size : ℤ) → KeepsIds (read_data_wait link size)
  unfolding read_data_wait read_below_zero
  read_data_wait-KeepsIds (negsuc n) d = (refl, refl)
  read_data_wait-KeepsIds (pos n) d =
      let same = (read_data_wait-Reads link n d).0 in (same.name, same.usb_device)

  pub write_raw-KeepsIds : (bs : List ℕ) → KeepsIds (write_raw link bs)
  write_raw-KeepsIds bs d =
      let same = (write_raw-Writes link bs d).0 in (same.name, same.usb_device)

  pub write_reg-KeepsIds : (addr port value : ℕ) → KeepsIds (Device.write_reg link addr port value)
  write_reg-KeepsIds addr port value d =
      let same = (write_reg-Writes link addr port value d).0 in (same.name, same.usb_device)

  pub write_reg_n-KeepsIds :
      (addr port : ℕ) (ws : List ℕ) → KeepsIds (Device.write_reg_n link addr port ws)
  write_reg_n-KeepsIds addr port ws d =
      let same = (write_reg_n-Sends link addr port ws d).0 in (same.name, same.usb_device)

  pub read_raw-KeepsIds : (n : ℕ) → KeepsIds (read_raw link n)
  unfolding read_raw
  read_raw-KeepsIds n d = elim (Bool-cases (n == 0)) [
    | inl nothing ↦ rw nothing (refl, refl)
    | inr something ↦ rw something (read_data_wait-KeepsIds (int_of n) d)
  ]

  pub update_tracked_regs-KeepsIds : KeepsIds (update_tracked_regs link)
  update_tracked_regs-KeepsIds d = elim (update_tracked_regs-Polls link d) [
    | inl (x, failed, same) ↦ (same.name, same.usb_device)
    | inr (vs, bs, went, got, words, size, sent, regs, calls, name, usb, cb) ↦ (name, usb)
  ]

  store_value-ids :
      (key : AddrPort) (v : ℕ) (d : Device F)
      → ((store_value key v d).name ≡ d.name) × ((store_value key v d).usb_device ≡ d.usb_device)
  unfolding store_value
  store_value-ids key v d = elim (Option-cases (find_reg key d.tracked_regs)) [
    | inl untracked ↦ rw (untracked, store_value) (refl, refl)
    | inr (old, e) ↦ rw (e, store_value) (refl, refl)
  ]

  pub read_reg-KeepsIds : (addr port : ℕ) → KeepsIds (Device.read_reg link addr port)
  unfolding Device.read_reg
  read_reg-KeepsIds addr port =
      KeepsIds-bind (write_whole link (command_head cmd_readreg addr port)) _
        (write_whole-KeepsIds (command_head cmd_readreg addr port))
        (λ _.
          KeepsIds-bind (read_data_wait link (pos 2))
            (λ bs. modify (store_value (addr, port) (first_word bs)) >> pure (first_word bs))
            (read_data_wait-KeepsIds (pos 2))
            (λ bs d. store_value-ids (addr, port) (first_word bs) d))

  read_packets-KeepsIds :
      (fuel addr port n : ℕ) (received : List ℕ)
      → KeepsIds (read_packets link fuel addr port n received)
  unfolding read_packets
  read_packets-KeepsIds zero addr port n received d = (refl, refl)
  read_packets-KeepsIds (suc fuel) addr port n received d =
      let m = min n n_packet_max in
      let cmd = command_head cmd_readreg_n addr port ++ htobe16 m in
      elim (Bool-cases (n == 0)) [
        | inl all ↦ rw all (refl, refl)
        | inr more ↦ rw more (
            KeepsIds-bind (write_whole link cmd)
              (λ _. read_data_wait link (pos (2 * m)) >>= λ bs.
                read_packets link fuel addr port (n - m) (received ++ bs))
              (write_whole-KeepsIds cmd)
              (λ _.
                KeepsIds-bind (read_data_wait link (pos (2 * m)))
                  (λ bs. read_packets link fuel addr port (n - m) (received ++ bs))
                  (read_data_wait-KeepsIds (pos (2 * m)))
                  (λ bs. read_packets-KeepsIds fuel addr port (n - m) (received ++ bs)))
              d)
      ]

  pub read_reg_n-KeepsIds : (addr port n : ℕ) → KeepsIds (Device.read_reg_n link addr port n)
  unfolding Device.read_reg_n
  read_reg_n-KeepsIds addr port n d = elim (Bool-cases (n == 0)) [
    | inl nothing ↦ rw nothing (refl, refl)
    | inr something ↦ rw something (read_packets-KeepsIds (suc n) addr port n [] d)
  ]
