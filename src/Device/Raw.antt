-- ===== src/Device/Raw.antt =====
-- Raw transfers (Device::writeRaw, Device::readRaw, ftdi_read_data_wait): what goes out and comes in.
use fpga_device_server.Common.{
  ℕ, zero, suc, ◌+◌, ◌-◌, ◌≤◌, ◌<◌, ◌≡◌, refl, sym, ap, ◌∙◌, ◌⊎◌, inl, inr, true, Option, none,
  some, List, [], ◌∷◌, ◌++◌, append_assoc, append-nil, arith, ◌==◌, ==_iff, length, take, drop,
  length-drop, take-add, take-all, Bool-cases, Option-cases,
}
use fpga_device_server.Common.Int.{pos, pos_part, leb_ℤ}
use fpga_device_server.Common.Effect.{Result, ok, err}
use fpga_device_server.Device.{
  Link, write_on, read_on, Error, write_error, read_error, read_timeout, Device, read_loop,
  read_rounds, read_data_wait, write_loop, write_raw,
}

-- All but the handle is as it was.
pub record SameButHandle {F : Type 0} (d d' : Device F) : Type 0 where
  pub name : d'.name ≡ d.name
  pub usb_device : d'.usb_device ≡ d.usb_device
  pub tracked_regs : d'.tracked_regs ≡ d.tracked_regs
  pub has_callback : d'.has_callback ≡ d.has_callback
  pub changes : d'.changes ≡ d.changes

pub SameButHandle-refl : {F : Type 0} (d : Device F) → SameButHandle d d
SameButHandle-refl d = record {
  name = refl;
  usb_device = refl;
  tracked_regs = refl;
  has_callback = refl;
  changes = refl;
}

pub SameButHandle-trans :
    {F : Type 0} {c d e : Device F} → SameButHandle c d → SameButHandle d e → SameButHandle c e
SameButHandle-trans p q = record {
  name = q.name ∙ p.name;
  usb_device = q.usb_device ∙ p.usb_device;
  tracked_regs = q.tracked_regs ∙ p.tracked_regs;
  has_callback = q.has_callback ∙ p.has_callback;
  changes = q.changes ∙ p.changes;
}

pub SameButHandle-handle :
    {F : Type 0} (start d : Device F) (h : Option F)
    → SameButHandle start d
    → SameButHandle start (record d { ftdi = h })
SameButHandle-handle start d h s = record {
  name = s.name;
  usb_device = s.usb_device;
  tracked_regs = s.tracked_regs;
  has_callback = s.has_callback;
  changes = s.changes;
}

module _ {F : Type 0} (link : Link F) where
  -- What has gone out on a handle.
  abbrev pub sent_on : Option F → List ℕ
  sent_on none = []
  sent_on (some f) = link.sent f

  -- What has been read from a handle.
  abbrev pub got_on : Option F → List ℕ
  got_on none = []
  got_on (some f) = link.got f

  pub write_on_got : (bs : List ℕ) (h : Option F) → got_on (write_on link bs h).1 ≡ got_on h
  unfolding write_on
  write_on_got bs none = refl
  write_on_got bs (some f) = link.write_reads_nothing f bs

  read_on_got :
      (size : ℕ) (h : Option F) (bs : List ℕ)
      → (read_on link size h).0 ≡ some bs
      → got_on (read_on link size h).1 ≡ got_on h ++ bs
  unfolding read_on
  read_on_got size none bs e = cc
  read_on_got size (some f) bs e = link.read_gets f size bs e

  -- A write sends the first bytes it was given, as many as it answers if it answers no error.
  pub write_on_lem :
      (bs : List ℕ) (h : Option F)
      → (k : ℕ) × (k ≤ length bs)
        × (sent_on (write_on link bs h).1 ≡ sent_on h ++ take k bs)
        × ((n : ℕ) → (write_on link bs h).0 ≡ pos n → k ≡ n)
  unfolding write_on
  write_on_lem bs none = (0, omega arith, refl, λ n e. cc)
  write_on_lem bs (some f) = link.write_prefix f bs

  pub read_on_lem :
      (size : ℕ) (h : Option F)
      → (sent_on (read_on link size h).1 ≡ sent_on h)
        × ((bs : List ℕ) → (read_on link size h).0 ≡ some bs → length bs ≤ size)
  unfolding read_on
  read_on_lem size none = (refl, λ bs e. cc)
  read_on_lem size (some f) = (link.read_sends_nothing f size, link.read_fits f size)

  -- How writeRaw of some bytes can end.
  abbrev pub Writes : List ℕ → Device F → Result Error (Unit {0}) × Device F → Type 0
  Writes bs d (r, d') =
      SameButHandle d d'
      × ((r ≡ ok tt) × (sent_on d'.ftdi ≡ sent_on d.ftdi ++ bs)
          ⊎ (r ≡ err write_error)
            × ((k : ℕ) × (k ≤ length bs) × (sent_on d'.ftdi ≡ sent_on d.ftdi ++ take k bs)))

  -- A round goes on from the bytes sent so far.
  write_loop-Writes :
      (fuel : ℕ) (bs : List ℕ) (n_sent : ℕ) (start d : Device F)
      → n_sent ≤ length bs
      → length bs < n_sent + fuel
      → SameButHandle start d
      → sent_on d.ftdi ≡ sent_on start.ftdi ++ take n_sent bs
      → Writes bs start (write_loop link fuel bs n_sent d)
  unfolding write_loop
  write_loop-Writes zero bs n_sent start d le lt same e = absurd (omega arith)
  write_loop-Writes (suc fuel) bs n_sent start d le lt same e =
      elim (Bool-cases (n_sent == length bs)) [
        | inl all ↦ rw all (
          same,
          inl (refl, e ∙ ap (◌++◌ (sent_on start.ftdi)) (take-all n_sent bs (ground arith))),
        )
        | inr some_left ↦
            let rest = drop n_sent bs in
            let (k, fits, now, exact) = write_on_lem rest d.ftdi in
            let r = (write_on link rest d.ftdi).0 in
            let d' : Device F = record d { ftdi = (write_on link rest d.ftdi).1 } in
            let same' = SameButHandle-handle start d (write_on link rest d.ftdi).1 same in
            let total =
              now
              ∙ ap (λ w. w ++ take k rest) e
              ∙ append_assoc (sent_on start.ftdi) (take n_sent bs) (take k rest)
              ∙ ap (◌++◌ (sent_on start.ftdi)) (take-add n_sent k bs) in
            let fits' : n_sent + k ≤ length bs = omega (arith, length-drop n_sent bs) in
            rw some_left (elim (Bool-cases (leb_ℤ r (pos 0))) [
              | inl failed ↦ rw failed (same', inr (refl, (n_sent + k, fits', total)))
              | inr went ↦
                  let whole : r ≡ pos (pos_part r) = ground arith in
                  let k_is : k ≡ pos_part r = exact (pos_part r) whole in
                  rw went (
                    write_loop-Writes fuel bs (n_sent + pos_part r) start d' (rw (← k_is) fits')
                      (ground arith) same' (rw (← k_is) total))
            ])
      ]

  -- writeRaw ends: it sends all the bytes in order and returns, or it throws a write error and has
  -- sent some first part of them. It touches nothing but the handle.
  pub write_raw-Writes : (bs : List ℕ) (d : Device F) → Writes bs d (write_raw link bs d)
  unfolding write_raw
  write_raw-Writes bs d = elim (Bool-cases (length bs == 0)) [
    | inl nothing ↦ rw nothing (
      SameButHandle-refl d,
      inl (refl, rw (empty bs nothing) (sym (append-nil (sent_on d.ftdi)))),
    )
    | inr something ↦ rw something (
        write_loop-Writes (suc (length bs)) bs 0 d d (omega arith) (omega arith)
          (SameButHandle-refl d) (sym (append-nil (sent_on d.ftdi))))
  ]
    where
      empty : (bs : List ℕ) → (length bs == 0) ≡ true → bs ≡ []
      empty [] h = refl
      empty (b ∷ bs) h = absurd (ground arith)

module _ {F : Type 0} (link : Link F) where
  -- How a wait for some bytes can end: with just as many, which are those that have been read, or with one
  -- of two errors.
  abbrev pub Reads : ℕ → Device F → Result Error (List ℕ) × Device F → Type 0
  Reads size d (r, d') =
      SameButHandle d d'
      × (sent_on link d'.ftdi ≡ sent_on link d.ftdi)
      × (((bs : List ℕ) × (r ≡ ok bs)
            × (length bs ≡ size)
            × (got_on link d'.ftdi ≡ got_on link d.ftdi ++ bs))
          ⊎ (r ≡ err read_error)
          ⊎ (r ≡ err read_timeout))

  read_loop-Reads :
      (rounds size : ℕ) (received : List ℕ) (start d : Device F)
      → SameButHandle start d
      → sent_on link d.ftdi ≡ sent_on link start.ftdi
      → got_on link d.ftdi ≡ got_on link start.ftdi ++ received
      → Reads size start (read_loop link rounds size received d)
  unfolding read_loop
  read_loop-Reads zero size received start d same e g =
      elim (Bool-cases (length received == size)) [
        | inl all ↦ rw all (same, e, inl (received, refl, (==_iff _ _).0 all, g))
        | inr missing ↦ rw missing (same, e, inr (inr refl))
      ]
  read_loop-Reads (suc rounds) size received start d same e g =
      let left = size - length received in
      let d' : Device F = record d { ftdi = (read_on link left d.ftdi).1 } in
      let same' = SameButHandle-handle start d (read_on link left d.ftdi).1 same in
      let e' = (read_on_lem link left d.ftdi).0 ∙ e in
      elim (Option-cases (read_on link left d.ftdi).0) [
        | inl failed ↦ rw failed (same', e', inr (inl refl))
        | inr (bs, got) ↦
            let g' =
              read_on_got link left d.ftdi bs got
              ∙ ap (λ xs. xs ++ bs) g
              ∙ append_assoc (got_on link start.ftdi) received bs in
            rw got (elim (Bool-cases (length (received ++ bs) == size)) [
              | inl all ↦ rw all (same', e', inl (received ++ bs, refl, (==_iff _ _).0 all, g'))
              | inr missing ↦
                  rw missing (read_loop-Reads rounds size (received ++ bs) start d' same' e' g')
            ])
      ]

  -- ftdi_read_data_wait returns the bytes it has read, just as many as were asked for, or throws; it sends nothing and
  -- touches nothing but the handle.
  pub read_data_wait-Reads :
      (size : ℕ) (d : Device F) → Reads size d (read_data_wait link (pos size) d)
  unfolding read_data_wait
  read_data_wait-Reads size d =
      read_loop-Reads read_rounds size [] d d (SameButHandle-refl d) refl
        (sym (append-nil (got_on link d.ftdi)))
