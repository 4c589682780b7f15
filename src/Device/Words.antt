-- ===== src/Device/Words.antt =====
-- Reading many words of a register (Device::readRegN): what is asked for, and what comes back.
use fpga_device_server.Common.{
  ℕ, zero, suc, ◌+◌, ◌-◌, ◌*◌, ◌<◌, ◌≡◌, refl, sym, ap, ◌∙◌, subst, ◌⊎◌, inl, inr, false, List, [],
  ◌++◌, append_assoc, append-nil, arith, ◌==◌, ==_iff, length, length-append, min, Bool-cases,
}
use fpga_device_server.Common.Effect.{Result, ok, err}
use fpga_device_server.Protocol.{
  read_reg_n, encode, command_head, cmd_readreg_n, htobe16, n_packet_max,
}
use fpga_device_server.Device.{Link, Error, no_return, Device, read_packets}
use fpga_device_server.Device
use fpga_device_server.Device.Raw.{
  SameButHandle, SameButHandle-refl, SameButHandle-trans, sent_on, got_on,
}
use fpga_device_server.Device.Commands.{request}
use fpga_device_server.Device.Returns.{read_reg_n-Returns}

-- The bytes of commands that ask for some words in all, each for one at least and for no more than sixteen
-- bits can count.
pub data Asks (addr port : ℕ) : ℕ → List ℕ → Type 0 where
  nothing : Asks addr port 0 []
  ask :
      (m n : ℕ) (commands : List ℕ)
      → 0 < m
      → m < 65536
      → Asks addr port n commands
      → Asks addr port (m + n) (encode (read_reg_n addr port m) ++ commands)

module _ {F : Type 0} (link : Link F) (addr port : ℕ) where
  -- The bytes that are returned, behind those that are there, or an exception.
  abbrev ReadsOn : ℕ → List ℕ → Device F → Result Error (List ℕ) × Device F → Type 0
  ReadsOn n before d (r, d') =
      SameButHandle d d'
      × (((bs : List ℕ) × (commands : List ℕ) × (r ≡ ok (before ++ bs))
            × (length bs ≡ 2 * n)
            × (got_on link d'.ftdi ≡ got_on link d.ftdi ++ bs)
            × Asks addr port n commands
            × (sent_on link d'.ftdi ≡ sent_on link d.ftdi ++ commands))
          ⊎ ((x : Error) × (r ≡ err x)))

  -- A command and its answer, and then the rest.
  ReadsOn-packet :
      (m n : ℕ) (before bs : List ℕ) (d d1 : Device F) (out : Result Error (List ℕ) × Device F)
      → 0 < m
      → m < 65536
      → length bs ≡ 2 * m
      → SameButHandle d d1
      → sent_on link d1.ftdi ≡ sent_on link d.ftdi ++ encode (read_reg_n addr port m)
      → got_on link d1.ftdi ≡ got_on link d.ftdi ++ bs
      → ReadsOn n (before ++ bs) d1 out
      → ReadsOn (m + n) before d out
  ReadsOn-packet m n before bs d d1 (r, d') positive fits size same sent came
        (same', inr (x, threw)) =
      (SameButHandle-trans same same', inr (x, threw))
  ReadsOn-packet m n before bs d d1 (r, d') positive fits size same sent came
        (same', inl (more, commands, went, size', came', asks, sent')) =
      (
        SameButHandle-trans same same',
        inl (
          bs ++ more,
          encode (read_reg_n addr port m) ++ commands,
          went ∙ ap ok (append_assoc before bs more),
          omega (arith, length-append bs more),
          came' ∙ ap (λ xs. xs ++ more) came ∙ append_assoc (got_on link d.ftdi) bs more,
          Asks.ask m n commands positive fits asks,
          sent'
              ∙ ap (λ xs. xs ++ commands) sent
              ∙ append_assoc (sent_on link d.ftdi) (encode (read_reg_n addr port m)) commands,
        ),
      )

  ReadsOn-nothing :
      (n : ℕ) (before : List ℕ) (d : Device F) → n ≡ 0 → ReadsOn n before d (ok before, d)
  ReadsOn-nothing n before d none_left = (
    SameButHandle-refl d,
    inl (
      [],
      [],
      ap ok (sym (append-nil before)),
      omega (arith, none_left),
      sym (append-nil (got_on link d.ftdi)),
      subst (λ k. Asks addr port k []) (sym none_left) Asks.nothing,
      sym (append-nil (sent_on link d.ftdi)),
    ),
  )

  read_packets-ReadsOn :
      (fuel n : ℕ) (before : List ℕ) (d : Device F)
      → n < fuel
      → ReadsOn n before d (read_packets link fuel addr port n before d)
  unfolding read_packets encode
  read_packets-ReadsOn zero n before d enough = absurd (omega arith)
  read_packets-ReadsOn (suc fuel) n before d enough = elim (Bool-cases (n == 0)) [
    | inl all ↦ rw all (ReadsOn-nothing n before d ((==_iff _ _).0 all))
    | inr more ↦
        let m = min n n_packet_max in
        let positive : 0 < m = ground arith in
        let rest : m + (n - m) ≡ n = omega arith in
        rw more
          (elim (request link (command_head cmd_readreg_n addr port ++ htobe16 m) (2 * m)
            (λ bs. read_packets link fuel addr port (n - m) (before ++ bs)) d) [
              | inl (x, d1, e, same) ↦ subst (ReadsOn n before d) (sym e) (same, inr (x, refl))
              | inr (bs, d1, size, same, sent, came, e) ↦ subst (ReadsOn n before d) (sym e) (
                  subst
                    (λ k.
                      ReadsOn k before d
                        (read_packets link fuel addr port (n - m) (before ++ bs) d1))
                    rest
                    (ReadsOn-packet m (n - m) before bs d d1
                      (read_packets link fuel addr port (n - m) (before ++ bs) d1) positive
                      (omega arith) size same sent came
                      (read_packets-ReadsOn fuel (n - m) (before ++ bs) d1 (ground arith))))
            ])
  ]

  -- The bytes that are returned, or an exception of the code.
  abbrev pub ReadsWords : ℕ → Device F → Result Error (List ℕ) × Device F → Type 0
  ReadsWords n d (r, d') =
      SameButHandle d d'
      × (((bs : List ℕ) × (commands : List ℕ) × (r ≡ ok bs)
            × (length bs ≡ 2 * n)
            × (got_on link d'.ftdi ≡ got_on link d.ftdi ++ bs)
            × Asks addr port n commands
            × (sent_on link d'.ftdi ≡ sent_on link d.ftdi ++ commands))
          ⊎ ((x : Error) × (r ≡ err x) × (no_return x ≡ false)))

  -- readRegN of any number of words ends. It returns the bytes that it has read, two for each word, and has
  -- sent commands that ask for just so many words, each with a count that fits sixteen bits; or it
  -- throws one of the exceptions of the code. It touches nothing but the handle.
  pub read_reg_n-ReadsWords :
      (n : ℕ) (d : Device F) → ReadsWords n d (Device.read_reg_n link addr port n d)
  unfolding Device.read_reg_n
  read_reg_n-ReadsWords n d = elim reads.1 [
    | inl read ↦ (reads.0, inl read)
    | inr (x, threw) ↦ (reads.0, inr (x, threw, read_reg_n-Returns link addr port n d x threw))
  ]
    where
      reads : ReadsOn n [] d (Device.read_reg_n link addr port n d)
      reads = elim (Bool-cases (n == 0)) [
        | inl none_asked ↦ rw none_asked (ReadsOn-nothing n [] d ((==_iff _ _).0 none_asked))
        | inr more ↦ rw more (read_packets-ReadsOn (suc n) n [] d (omega arith))
      ]
