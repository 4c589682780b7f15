-- ===== src/Device/Handle/Release.antt =====
-- The handles held after each way out of Device::open and Device::close.
use fpga_device_server.Common.{
  ℕ, ◌+◌, ◌≡◌, refl, sym, subst, ◌⊎◌, inl, inr, Bool, none, some, arith, Bool-cases, Option-cases,
}
use fpga_device_server.Common.Effect.{Result, ok, err, >>=-ok, >>=-err, >>-ok, >>-err, ◌>>=◌, ◌>>◌}
use fpga_device_server.Device.{Error, new_failed, ftdi_failed, Device}
use fpga_device_server.Device.Handle.{
  Ftdi, interface_a, interface_b, release, open_interface, checked, purge_interface_b, open_handle,
  open_device, close_device,
}

module _ {F W : Type 0} (ftdi : Ftdi F W) where
  -- The first state holds `n` handles, and `n` claims, more than the second.
  abbrev pub Holds : ℕ → W → W → Type 0
  Holds n w' w = (ftdi.handles w' ≡ ftdi.handles w + n) × (ftdi.claims w' ≡ ftdi.claims w + n)

  -- Either a handle is the result and is held, or there is an error and nothing is held.
  abbrev pub Balanced : W → Result Error F × W → Type 0
  Balanced w (r, w') =
      ((f : F) × (r ≡ ok f) × Holds 1 w' w) ⊎ ((e : Error) × (r ≡ err e) × Holds 0 w' w)

  open_interface-Balanced :
      (interface dev : ℕ) (w : W) → Balanced w (open_interface ftdi interface dev w)
  unfolding open_interface
  open_interface-Balanced interface dev w = elim (Option-cases (ftdi.new w).0) [
    | inl failed ↦
        let n = ftdi.new_counts w in
        let n0 = rw failed at n.0 in
        rw (failed, open_interface) (inr (new_failed, refl, (n0, omega (arith, n.1))))
    | inr (f, e) ↦
        let n = ftdi.new_counts w in
        let n0 = rw e at n.0 in
        let w1 = (ftdi.new w).1 in
        let o = ftdi.open_counts dev (ftdi.set_interface interface f) w1 in
        let out = ftdi.usb_open_dev dev (ftdi.set_interface interface f) w1 in
        elim (Bool-cases out.0) [
          | inl opened ↦
              let o1 = rw opened at o.1 in
              rw (e, open_interface, opened)
                (inl (out.1, refl, (omega (arith, n0, o.0), omega (arith, n.1, o1))))
          | inr refused ↦
              let o1 = rw refused at o.1 in
              let r = ftdi.free_counts out.1 out.2 in
              rw (e, open_interface, refused)
                (inr
                  (ftdi_failed, refl, (omega (arith, n0, o.0, r.0), omega (arith, n.1, o1, r.1))))
        ]
  ]

  abbrev SameCounts : (F → W → Bool × F × W) → Type 0
  SameCounts call =
      (f : F) (w : W)
      → (ftdi.handles (call f w).2 ≡ ftdi.handles w) × (ftdi.claims (call f w).2 ≡ ftdi.claims w)

  release-Holds : (f : F) (w w0 : W) → Holds 1 w w0 → Holds 0 (release ftdi f w) w0
  unfolding release
  release-Holds f w w0 (h, c) =
      let closed = ftdi.close_counts f w in
      let freed = ftdi.free_counts (ftdi.usb_close f w).0 (ftdi.usb_close f w).1 in
      (omega (arith, closed.0, freed.0), omega (arith, closed.1, freed.1))

  checked-Balanced :
      (call : F → W → Bool × F × W)
      → SameCounts call
      → (f : F) (w w0 : W) → Holds 1 w w0
      → Balanced w0 (checked ftdi call f w)
  unfolding checked
  checked-Balanced call same f w w0 (h, c) =
      let (h', c') = same f w in
      let held : Holds 1 (call f w).2 w0 = (omega (arith, h'), omega (arith, c')) in
      elim (Bool-cases (call f w).0) [
        | inl went ↦ rw went (inl ((call f w).1, refl, held))
        | inr failed ↦
            rw failed (inr (ftdi_failed, refl, release-Holds (call f w).1 (call f w).2 w0 held))
      ]

  -- A call after one that is balanced.
  then-Balanced :
      (m : W → Result Error F × W) (k : F → W → Result Error F × W) (w w0 : W)
      → Balanced w0 (m w)
      → ((f : F) (w1 : W) → Holds 1 w1 w0 → Balanced w0 (k f w1))
      → Balanced w0 ((m >>= k) w)
  then-Balanced m k w w0 (inl (f, e, held)) next =
      subst (Balanced w0) (sym (>>=-ok m k w f e)) (next f (m w).1 held)
  then-Balanced m k w w0 (inr (x, e, held)) next =
      subst (Balanced w0) (sym (>>=-err m k w x e)) (inr (x, refl, held))

  -- Interface B is not held afterwards, whether its buffers were purged or not.
  purge_interface_b-Holds : (dev : ℕ) (w : W) → Holds 0 (purge_interface_b ftdi dev w).1 w
  unfolding purge_interface_b
  purge_interface_b-Holds dev w = elim (open_interface-Balanced interface_b dev w) [
    | inr (x, e, held) ↦
        subst (λ o. Holds 0 o.1 w) (sym (>>=-err (open_interface ftdi interface_b dev) purge w x e))
          held
    | inl (b, e, held) ↦
        let w1 = (open_interface ftdi interface_b dev w).1 in
        subst (λ o. Holds 0 o.1 w) (sym (>>=-ok (open_interface ftdi interface_b dev) purge w b e))
          (elim (checked-Balanced ftdi.usb_purge_buffers ftdi.purge_counts b w1 w held) [
            | inr (x, e', held') ↦
                subst (λ o. Holds 0 o.1 w)
                  (sym (>>=-err (checked ftdi ftdi.usb_purge_buffers b) done w1 x e')) held'
            | inl (b', e', held') ↦
                subst (λ o. Holds 0 o.1 w)
                  (sym (>>=-ok (checked ftdi ftdi.usb_purge_buffers b) done w1 b' e'))
                  (release-Holds b' (checked ftdi ftdi.usb_purge_buffers b w1).1 w held')
          ])
  ]
    where
      done : F → W → Result Error (Unit {0}) × W
      done b' w = (ok tt, release ftdi b' w)

      purge : F → W → Result Error (Unit {0}) × W
      purge b = checked ftdi ftdi.usb_purge_buffers b >>= done

  -- The three ways that Device::open can go, by where it stops first.
  abbrev pub OpenEnds : ℕ → W → Result Error F × W → Type 0
  OpenEnds dev w out =
      ((e : Error) × ((open_interface ftdi interface_a dev w).0 ≡ err e)
        × (out.0 ≡ err e)
        × Holds 0 out.1 w)
      ⊎ ((a : F) × (e : Error) × ((open_interface ftdi interface_a dev w).0 ≡ ok a)
          × ((purge_interface_b ftdi dev (open_interface ftdi interface_a dev w).1).0 ≡ err e)
          × (out.0 ≡ err e)
          × Holds 1 out.1 w)
      ⊎ ((a : F) × ((open_interface ftdi interface_a dev w).0 ≡ ok a)
          × ((purge_interface_b ftdi dev (open_interface ftdi interface_a dev w).1).0 ≡ ok tt)
          × Balanced w out)

  result_cases :
      {A : Type 0} (r : Result Error A) → ((a : A) × (r ≡ ok a)) ⊎ ((e : Error) × (r ≡ err e))
  result_cases (ok a) = inl (a, refl)
  result_cases (err e) = inr (e, refl)

  -- Device::open on a closed device holds one handle and one claim more if it succeeds. If interface A
  -- does not open it holds nothing more. If interface A opens and interface B fails it throws and
  -- keeps the handle of A, with its claim, which nothing can release. If a call fails after that, it
  -- throws and holds nothing more.
  pub open_handle-OpenEnds : (dev : ℕ) (w : W) → OpenEnds dev w (open_handle ftdi dev w)
  unfolding open_handle
  open_handle-OpenEnds dev w =
      let w1 = (open_interface ftdi interface_a dev w).1 in
      elim (open_interface-Balanced interface_a dev w) [
        | inr (e, failed, held) ↦
            subst (OpenEnds dev w)
              (sym (>>=-err (open_interface ftdi interface_a dev) go_on w e failed))
              (inl (e, failed, refl, held))
        | inl (a, opened, held) ↦
            let purged = purge_interface_b-Holds dev w1 in
            let w2 = (purge_interface_b ftdi dev w1).1 in
            let held' : Holds 1 w2 w =
              (omega (arith, held.0, purged.0), omega (arith, held.1, purged.1)) in
            subst (OpenEnds dev w)
              (sym (>>=-ok (open_interface ftdi interface_a dev) go_on w a opened))
              (elim (result_cases (purge_interface_b ftdi dev w1).0) [
                | inr (e, failed) ↦
                    subst (OpenEnds dev w)
                      (sym (>>-err (purge_interface_b ftdi dev) (prepare a) w1 e failed))
                      (inr (inl (a, e, opened, failed, refl, held')))
                | inl (tt, went) ↦
                    subst (OpenEnds dev w)
                      (sym (>>-ok (purge_interface_b ftdi dev) (prepare a) w1 tt went))
                      (inr (inr (a, opened, went, prepare-Balanced a w2 held')))
              ])
      ]
    where
      last : F → W → Result Error F × W
      last a2 = checked ftdi (ftdi.set_latency_timer 1) a2

      middle : F → W → Result Error F × W
      middle a1 = checked ftdi (ftdi.set_bitmode 0 0x40) a1 >>= last

      prepare : F → W → Result Error F × W
      prepare a = checked ftdi ftdi.usb_reset a >>= middle

      go_on : F → W → Result Error F × W
      go_on a = purge_interface_b ftdi dev >> prepare a

      prepare-Balanced : (a : F) (w2 : W) → Holds 1 w2 w → Balanced w (prepare a w2)
      prepare-Balanced a w2 held =
          then-Balanced (checked ftdi ftdi.usb_reset a) middle w2 w
            (checked-Balanced ftdi.usb_reset ftdi.reset_counts a w2 w held)
            (λ a1 w3 held3.
              then-Balanced (checked ftdi (ftdi.set_bitmode 0 0x40) a1) last w3 w
                (checked-Balanced (ftdi.set_bitmode 0 0x40) (ftdi.bitmode_counts 0 0x40) a1 w3 w
                  held3)
                (λ a2 w4 held4.
                  checked-Balanced (ftdi.set_latency_timer 1) (ftdi.latency_counts 1) a2 w4 w
                    held4))

  -- Device::close on an open device releases its handle and its claim, and the device is closed; on a
  -- closed one it does nothing.
  pub close_device-Releases :
      (d : Device F) (w w0 : W)
      → Holds (elim d.ftdi [ none ↦ 0 | some f ↦ 1 ]) w w0
      → ((close_device ftdi d w).0.ftdi ≡ none) × Holds 0 (close_device ftdi d w).1 w0
  unfolding close_device
  close_device-Releases d w w0 held = elim (Option-cases d.ftdi) [
    | inl closed ↦ rw (closed, close_device) (closed, rw closed at held)
    | inr (f, opened) ↦
        let (h, c) = ftdi.bitmode_counts 0xfb 0 f w in
        let (h0, c0) = rw opened at held in
        let out = ftdi.set_bitmode 0xfb 0 f w in
        rw (opened, close_device)
          (refl, release-Holds out.1 out.2 w0 (omega (arith, h), omega (arith, c)))
  ]

  pub close_device-ids :
      (d : Device F) (w : W)
      → ((close_device ftdi d w).0.name ≡ d.name)
        × ((close_device ftdi d w).0.usb_device ≡ d.usb_device)
  unfolding close_device
  close_device-ids d w = elim (Option-cases d.ftdi) [
    | inl closed ↦ rw (closed, close_device) (refl, refl)
    | inr (f, opened) ↦ rw (opened, close_device) (refl, refl)
  ]

  abbrev SameIfOk : Device F → Result Error (Device F) → Type 0
  SameIfOk d (ok d') = (d'.name ≡ d.name) × (d'.usb_device ≡ d.usb_device)
  SameIfOk d (err e) = Unit {0}

  open_device-SameIfOk : (d : Device F) (w : W) → SameIfOk d (open_device ftdi d w).0
  unfolding open_device
  open_device-SameIfOk d w = elim (Option-cases d.ftdi) [
    | inr (f, opened) ↦ rw (opened, open_device) (refl, refl)
    | inl closed ↦
        rw (closed, open_device)
          (elim (result_cases (open_handle ftdi d.usb_device w).0) [
            | inl (f, e) ↦
                subst (λ o. SameIfOk d o.0)
                  (sym (>>=-ok (open_handle ftdi d.usb_device) attach w f e)) (refl, refl)
            | inr (x, e) ↦
                subst (λ o. SameIfOk d o.0)
                  (sym (>>=-err (open_handle ftdi d.usb_device) attach w x e)) tt
          ])
  ]
    where
      attach : F → W → Result Error (Device F) × W
      attach f w = (ok (record d { ftdi = some f }), w)

  pub open_device-ids :
      (d : Device F) (w : W) (d' : Device F)
      → (open_device ftdi d w).0 ≡ ok d'
      → (d'.name ≡ d.name) × (d'.usb_device ≡ d.usb_device)
  open_device-ids d w d' e = subst (SameIfOk d) e (open_device-SameIfOk d w)
