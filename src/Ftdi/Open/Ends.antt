-- ===== src/Ftdi/Open/Ends.antt =====
-- The ways out of ftdi_usb_open_dev (src/libftdi/ftdi.c), and ftdi_free after each.
use fpga_device_server.Common.{
  ℕ, ◌+◌, ◌-◌, suc, ltb, ◌&&◌, ◌==◌, ◌≡◌, refl, ◌∙◌, ◌⊎◌, inl, inr, Bool, true, false, not, arith,
  Option-cases, if_ind,
}
use fpga_device_server.Common.Int.{ℤ, pos, eqb_ℤ}
use fpga_device_server.Ftdi.{Context, Usb, minus, usb_reset, out_request}
use fpga_device_server.Ftdi.Baud.{set_baudrate}
use fpga_device_server.Ftdi.Open.{
  Descriptor, Configuration, UsbDevice, Held, Session, close_internal, free, set_up, configure,
  describe, usb_open_dev, chip_type, packet_size, permission_or,
}

-- What is held after an attempt to open, and the context of libftdi that goes with it: an open handle with
-- a claim; nothing; or, after one of three codes, a handle without a claim.
abbrev pub OpenEnds : Held → ℤ × Session → Type 0
OpenEnds h (r, (c, u, h')) =
    (h'.contexts ≡ h.contexts)
    × (((r ≡ pos 0) × (c.is_open ≡ true) × (h'.handles ≡ h.handles + 1) × (h'.claimed ≡ true))
        ⊎ (((eqb_ℤ r (pos 0) ≡ false)
              × (c.is_open ≡ false)
              × (h'.handles ≡ h.handles)
              × (h'.claimed ≡ false))
            ⊎ (((r ≡ minus 9) ⊎ ((r ≡ minus 10) ⊎ (r ≡ minus 12)))
                × (c.is_open ≡ true)
                × (h'.handles ≡ h.handles + 1)
                × (h'.claimed ≡ false))))

usb_reset-is_open : (c : Context) (u : Usb) → (usb_reset (c, u)).1.0.is_open ≡ c.is_open
unfolding usb_reset out_request
usb_reset-is_open c u = ground arith

set_baudrate-is_open :
    (r : ℤ) (c : Context) (u : Usb) → (set_baudrate r (c, u)).1.0.is_open ≡ c.is_open
unfolding set_baudrate out_request
set_baudrate-is_open r c u = ground arith

module _ (h0 : Held) where
  -- The handle has been opened.
  record HasHandle (s : Session) : Type 0 where
    pub contexts : s.2.contexts ≡ h0.contexts
    pub handles : s.2.handles ≡ h0.handles + 1
    pub open_now : s.0.is_open ≡ true

  closed :
      (code : ℤ) (s : Session)
      → eqb_ℤ code (pos 0) ≡ false
      → HasHandle s
      → OpenEnds h0 (code, close_internal s)
  unfolding close_internal
  closed code (c, u, h) e k =
      rw k.open_now (k.contexts, inr (inl (e, refl, omega (arith, k.handles), refl)))

  not_zero : (b : Bool) → not b ≡ false → b ≡ true
  not_zero true e = refl
  not_zero false e = cc

  is_zero : (r : ℤ) → not (eqb_ℤ r (pos 0)) ≡ false → r ≡ pos 0
  is_zero r e = ground arith

  set_up-OpenEnds :
      (d : Descriptor) (g : Configuration) (c : Context) (u : Usb) (h : Held)
      → HasHandle (c, u, h)
      → h.claimed ≡ true
      → OpenEnds h0 (set_up d g (c, u, h))
  unfolding set_up
  set_up-OpenEnds d g c u h k e =
      let (r, (c1, u1)) = usb_reset (c, u) in
      let chip = chip_type d c1.chip in
      let c2 : Context = record c1 {
        chip = chip;
        max_packet_size = packet_size chip c1.interface d g;
      } in
      let (r', (c3, u3)) = set_baudrate (pos 9600) (c2, u1) in
      let open1 = usb_reset-is_open c u ∙ k.open_now in
      let open3 = set_baudrate-is_open (pos 9600) c2 u1 ∙ open1 in
      if_ind (OpenEnds h0) (not (eqb_ℤ r (pos 0)))
        (λ failed.
          closed (minus 6) (c1, u1, h) refl
            (record { contexts = k.contexts; handles = k.handles; open_now = open1 }))
        (λ went.
          if_ind (OpenEnds h0) (not (eqb_ℤ r' (pos 0)))
            (λ failed.
              closed (minus 7) (c3, u3, h) refl
                (record { contexts = k.contexts; handles = k.handles; open_now = open3 }))
            (λ went'. (k.contexts, inl (refl, open3, k.handles, e))))

  permission_or-code : (dev : UsbDevice) (n : ℕ) → eqb_ℤ (permission_or dev (suc n)) (pos 0) ≡ false
  permission_or-code dev n = ground arith

  configure-OpenEnds :
      (dev : UsbDevice) (d : Descriptor) (g : Configuration) (n : ℕ) (c : Context) (u : Usb)
      (h : Held)
      → HasHandle (c, u, h)
      → OpenEnds h0 (configure dev d g n (c, u, h))
  unfolding configure
  configure-OpenEnds dev d g n c u h k =
      if_ind (OpenEnds h0)
        (ltb 0 d.num_configurations && not (n == g.configuration_value) && not dev.configures)
        (λ refused. closed (permission_or dev 3) (c, u, h) (permission_or-code dev 2) k)
        (λ set.
          if_ind (OpenEnds h0) (not dev.claims)
            (λ refused. closed (permission_or dev 5) (c, u, h) (permission_or-code dev 4) k)
            (λ claims.
              set_up-OpenEnds d g c u (record h { claimed = true })
                (record { contexts = k.contexts; handles = k.handles; open_now = k.open_now })
                refl))

  describe-OpenEnds :
      (dev : UsbDevice) (c : Context) (u : Usb) (h : Held)
      → HasHandle (c, u, h)
      → h.claimed ≡ false
      → OpenEnds h0 (describe dev (c, u, h))
  unfolding describe
  describe-OpenEnds dev c u h k e =
      let left : (code : ℤ)
          → ((code ≡ minus 9) ⊎ ((code ≡ minus 10) ⊎ (code ≡ minus 12)))
          → OpenEnds h0 (code, (c, u, h)) =
        λ code which. (k.contexts, inr (inr (which, k.open_now, k.handles, e))) in
      elim (Option-cases dev.descriptor) [
        | inl no_descriptor ↦ rw (no_descriptor, describe) (left (minus 9) (inl refl))
        | inr (d, ed) ↦ elim (Option-cases dev.config) [
          | inl no_config ↦ rw (ed, no_config, describe) (left (minus 10) (inr (inl refl)))
          | inr (g, eg) ↦ elim (Option-cases dev.configuration) [
            | inl unknown ↦ rw (ed, eg, unknown, describe) (left (minus 12) (inr (inr refl)))
            | inr (n, en) ↦ rw (ed, eg, en, describe) (configure-OpenEnds dev d g n c u h k)
          ]
        ]
      ]

free-OpenEnds :
    (h : Held) (r : ℤ) (c : Context) (u : Usb) (h' : Held)
    → OpenEnds h (r, (c, u, h'))
    → h.claimed ≡ false
    → free (c, u, h') ≡ record h { contexts = h.contexts - 1 }
unfolding free
free-OpenEnds h r c u h' (same, inl (e, open_now, handles, claim)) none_before =
    rw open_now (ground arith)
free-OpenEnds h r c u h' (same, inr (inl (e, gone, handles, claim))) none_before =
    rw gone (ground arith)
free-OpenEnds h r c u h' (same, inr (inr (e, open_now, handles, claim))) none_before =
    rw open_now (ground arith)

-- ftdi_usb_open_dev on a context without a device, whatever libusb and the chip answer: with code 0 just
-- one handle more is open, and has its claim; with another code no handle and no claim is left, but
-- after the codes -9, -10 and -12, where the handle stays open in the context; and in each case ftdi_free
-- then gives up the handle, the claim and one context of libusb, and nothing else.
pub usb_open_dev-OpenEnds :
    (dev : UsbDevice) (c : Context) (u : Usb) (h : Held)
    → c.is_open ≡ false
    → h.claimed ≡ false
    → let (r, s) = usb_open_dev dev (c, u, h) in
      OpenEnds h (r, s) × (free s ≡ record h { contexts = h.contexts - 1 })
unfolding usb_open_dev
usb_open_dev-OpenEnds dev c u h e e' =
    let opened : Session =
      (record c { is_open = true }, u, record h { handles = h.handles + 1; claimed = false }) in
    let (r, s) = describe dev opened in
    if_ind (λ out. OpenEnds h out × (free out.1 ≡ record h { contexts = h.contexts - 1 })) dev.opens
      (λ opens.
        let ends =
          describe-OpenEnds h dev (record c { is_open = true }) u
            (record h { handles = h.handles + 1; claimed = false })
            (record { contexts = refl; handles = refl; open_now = refl }) refl in
        (ends, free-OpenEnds h r s.0 s.1 s.2 ends e'))
      (λ refused.
        let ends : OpenEnds h (minus 4, (c, u, h)) = (refl, inr (inl (refl, e, refl, e'))) in
        (ends, free-OpenEnds h (minus 4) c u h ends e'))
