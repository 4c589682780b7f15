-- ===== src/IoFtdi/Block.antt =====
-- Blocks of data (IOFtdi::txrx_block in src/devices/xc3sprog/ioftdi.cpp), as the chip clocks them.
pub mod Parts
use fpga_device_server.Common.{
  ◌≡◌, refl, sym, ap, ◌∙◌, subst, ℕ, zero, suc, ◌+◌, ◌-◌, ◌*◌, ◌/◌, ◌%◌, ◌≤◌, ◌<◌, Option, some,
  none, Bool, true, false, List, [], ◌∷◌, ◌++◌, append-nil, append_assoc, ◌==◌, ==_iff, ltb, leb,
  if◌then◌else◌, length, arith, Bool-cases, inl, inr, if_ind,
}
use fpga_device_server.Common.Effect.{Result, ok, err, pure, ◌>>=◌, ◌>>◌, >>=_assoc}
use fpga_device_server.Device.{Link}
use fpga_device_server.IoFtdi.{
  tx_buf, chunk_len, Cable, CableError, Method, last_bit, send_bytes, send_bits, send_last, receive,
  receive_end, send_chunks, send_rest, txrx_block,
}
use fpga_device_server.IoFtdi.Mpsse.{Clock, data_clocks, data_clocks-append}
use fpga_device_server.IoFtdi.Stream.{Fits, Emits, Emits-bind, pure-Emits}
use fpga_device_server.IoFtdi.Block.Parts.{
  Covers, Moves, send_bytes-Emits, send_bits-Emits, send_last-Emits, receive-Emits,
  receive_end-Emits,
}

Covers-le : (tdi : Option (List ℕ)) (m n : ℕ) → m ≤ n → Covers tdi n → Covers tdi m
Covers-le none m n h covers = tt
Covers-le (some tdi) m n h covers = omega arith

-- Bytes have no part of a byte left to cover.
Covers-up :
    (tdi : Option (List ℕ)) (n m : ℕ) → Covers tdi (n * 8 + m) → 0 < m → Covers tdi ((n + 1) * 8)
Covers-up none n m covers h = tt
Covers-up (some tdi) n m covers h = omega arith

-- The clocks of the last bit, if it has TMS high.
abbrev pub end_clocks : Bool → Option (List ℕ) → ℕ → ℕ → List Clock
end_clocks true tdi first n = (true, some (last_bit tdi first n)) ∷ []
end_clocks false tdi first n = []

abbrev pub end_level : Bool → Bool → Bool
end_level last level = if last then true else level

-- The clocks of a whole block. On the last one, if it is to leave the shift state, TMS is high and TDI is
-- the last bit of the pattern, or low where there is none.
abbrev pub block_clocks : Bool → Option (List ℕ) → ℕ → Bool → List Clock
block_clocks level tdi length last =
    let rem = if last then length - 1 else length in
    data_clocks level tdi 0 rem ++ end_clocks last tdi (rem / 8) (rem % 8)

module _ {F : Type 0} (link : Link F) (errno : F → ℕ) where
  full_bytes :
      (level : Bool) (tdi : Option (List ℕ)) (tdo : Bool) (first full : ℕ) (c : Cable F)
      → Moves tdi tdo
      → full ≤ chunk_len
      → Covers tdi ((first + full) * 8)
      → Fits c
      → Emits link level
          (data_clocks level tdi (first * 8) (full * 8))
          level
          c
          ((if full == 0 then pure tt else send_bytes link errno tdi tdo first full) c)
  full_bytes level tdi tdo first full c moves few covers fits = elim (Bool-cases (full == 0)) [
    | inl nothing ↦
        let e : full ≡ 0 = (==_iff _ _).0 nothing in rw e (pure-Emits link level tt c fits)
    | inr some_bytes ↦ rw some_bytes (
        send_bytes-Emits link errno level tdi tdo first full c moves (ground arith) few covers fits)
  ]

  loose_bits :
      (level : Bool) (tdi : Option (List ℕ)) (tdo : Bool) (first n : ℕ) (c : Cable F)
      → Moves tdi tdo
      → n < 8
      → Covers tdi (first * 8 + n)
      → Fits c
      → Emits link level
          (data_clocks level tdi (first * 8) n)
          level
          c
          ((if n == 0 then pure tt else send_bits link errno tdi tdo first n) c)
  loose_bits level tdi tdo first n c moves few covers fits = elim (Bool-cases (n == 0)) [
    | inl nothing ↦ let e : n ≡ 0 = (==_iff _ _).0 nothing in rw e (pure-Emits link level tt c fits)
    | inr some_bits ↦
        rw some_bits
          (send_bits-Emits link errno level tdi tdo first n c moves (ground arith) few covers fits)
  ]

  end_bit :
      (level last : Bool) (tdi : Option (List ℕ)) (tdo : Bool) (first n : ℕ) (c : Cable F)
      → Fits c
      → Emits link level
          (end_clocks last tdi first n)
          (end_level last level)
          c
          ((if last then send_last link errno tdi tdo first n else pure tt) c)
  end_bit level true tdi tdo first n c fits =
      send_last-Emits link errno level tdi tdo first n c fits
  end_bit level false tdi tdo first n c fits = pure-Emits link level tt c fits

  early_read :
      (level tdo no_space : Bool) (buf : List ℕ) (first full : ℕ) (c : Cable F)
      → Fits c
      → Emits link level [] level c
          ((if no_space then receive link errno tdo buf first full else pure buf) c)
  early_read level tdo true buf first full c fits =
      receive-Emits link errno level tdo buf first full c fits
  early_read level tdo false buf first full c fits = pure-Emits link level buf c fits

  send_rest-Emits :
      (stack : List ℕ) (level : Bool) (tdi : Option (List ℕ)) (tdo last : Bool)
      (first full rembits : ℕ) (buf : List ℕ) (c : Cable F)
      → Moves tdi tdo
      → full ≤ chunk_len
      → rembits < 8
      → Covers tdi ((first + full) * 8 + rembits)
      → Fits c
      → Emits link level
          (data_clocks level tdi (first * 8) (full * 8 + rembits)
            ++ end_clocks last tdi (first + full) rembits)
          (end_level last level)
          c
          (send_rest link errno stack tdi tdo last first full rembits buf c)
  unfolding send_rest
  send_rest-Emits stack level tdi tdo last first full rembits buf c moves few few' covers fits =
      let no_space = leb (tx_buf - 4) full in
      let pending =
        (if no_space then 0 else full)
        + (if rembits == 0 then 0 else 1)
        + (if last then 1 else 0) in
      let d1 = data_clocks level tdi (first * 8) (full * 8) in
      let d2 = data_clocks level tdi ((first + full) * 8) rembits in
      let e = end_clocks last tdi (first + full) rembits in
      let out = end_level last level in
      let bytes : Method F (Unit {0}) =
        if full == 0 then pure tt else send_bytes link errno tdi tdo first full in
      let early : Method F (List ℕ) =
        if no_space then receive link errno tdo buf first full else pure buf in
      let loose : Method F (Unit {0}) =
        if rembits == 0 then pure tt else send_bits link errno tdi tdo (first + full) rembits in
      let end : Method F (Unit {0}) =
        if last then send_last link errno tdi tdo (first + full) rembits else pure tt in
      let finish = λ (buf' : List ℕ).
        receive_end link errno stack tdo last (if no_space then first + full else first) pending
          rembits buf' in
      let place : (first + full) * 8 ≡ first * 8 + full * 8 = omega arith in
      let clocks : d1 ++ ((d2 ++ e) ++ [])
          ≡ data_clocks level tdi (first * 8) (full * 8 + rembits) ++ e =
        ap (◌++◌ d1) (append-nil (d2 ++ e))
        ∙ sym (append_assoc d1 d2 e)
        ∙ ap (λ i. (d1 ++ data_clocks level tdi i rembits) ++ e) place
        ∙ ap (λ ds. ds ++ e) (data_clocks-append level tdi (first * 8) (full * 8) rembits) in
      subst
        (λ cs.
          Emits link level cs out c
            (send_rest link errno stack tdi tdo last first full rembits buf c))
        clocks
        (Emits-bind link level level out d1 ((d2 ++ e) ++ []) c bytes
          (λ _. early >>= λ buf'. loose >> end >> finish buf')
          (full_bytes level tdi tdo first full c moves few
            (Covers-le tdi ((first + full) * 8) ((first + full) * 8 + rembits) (omega arith) covers)
            fits)
          (λ _ c1 fits1.
            Emits-bind link level level out [] ((d2 ++ e) ++ []) c1 early
              (λ buf'. loose >> end >> finish buf')
              (early_read level tdo no_space buf first full c1 fits1)
              (λ buf' c2 fits2.
                Emits-bind link level out out (d2 ++ e) [] c2 (loose >> end) (λ _. finish buf')
                  (Emits-bind link level level out d2 e c2 loose (λ _. end)
                    (loose_bits level tdi tdo (first + full) rembits c2 moves few' covers fits2)
                    (λ _ c3 fits3. end_bit level last tdi tdo (first + full) rembits c3 fits3))
                  (λ _ c3 fits3.
                    receive_end-Emits link errno out stack tdo last
                      (if no_space then first + full else first) pending rembits buf' c3 fits3))))

  send_chunks-Emits :
      {A : Type 0} (fuel : ℕ) (level m : Bool) (tdi : Option (List ℕ)) (tdo : Bool) (first rem : ℕ)
      (buf : List ℕ) (tail : List Clock) (k : ℕ × ℕ × List ℕ → Method F A) (c : Cable F)
      → Moves tdi tdo
      → rem ≤ fuel
      → Covers tdi (first * 8 + rem)
      → Fits c
      → ((first' rem' : ℕ) (buf' : List ℕ) (c' : Cable F)
          → first' * 8 + rem' ≡ first * 8 + rem
          → rem' / 8 ≤ chunk_len
          → Fits c'
          → Emits link level
              (data_clocks level tdi (first' * 8) rem' ++ tail)
              m
              c'
              (k (first', rem', buf') c'))
      → Emits link level
          (data_clocks level tdi (first * 8) rem ++ tail)
          m
          c
          ((send_chunks link errno fuel tdi tdo first rem buf >>= k) c)
  unfolding send_chunks
  send_chunks-Emits zero level m tdi tdo first rem buf tail k c moves enough covers fits next =
      next first rem buf c refl (omega arith) fits
  send_chunks-Emits (suc fuel) level m tdi tdo first rem buf tail k c moves enough covers fits
        next =
      elim (Bool-cases (ltb chunk_len (rem / 8))) [
        | inr little ↦ rw little (next first rem buf c refl (ground arith) fits)
        | inl much ↦
            let rest = rem - chunk_len * 8 in
            let d1 = data_clocks level tdi (first * 8) (chunk_len * 8) in
            let d2 = data_clocks level tdi ((first + chunk_len) * 8) rest in
            let bytes = send_bytes link errno tdi tdo first chunk_len in
            let early = receive link errno tdo buf first chunk_len in
            let again = λ (buf' : List ℕ).
              send_chunks link errno fuel tdi tdo (first + chunk_len) rest buf' in
            let place : (first + chunk_len) * 8 ≡ first * 8 + chunk_len * 8 = omega arith in
            let whole : chunk_len * 8 + rest ≡ rem = ground arith in
            let clocks : d1 ++ (d2 ++ tail) ≡ data_clocks level tdi (first * 8) rem ++ tail =
              sym (append_assoc d1 d2 tail)
              ∙ ap (λ i. (d1 ++ data_clocks level tdi i rest) ++ tail) place
              ∙ ap (λ ds. ds ++ tail)
                  (data_clocks-append level tdi (first * 8) (chunk_len * 8) rest)
              ∙ ap (λ n. data_clocks level tdi (first * 8) n ++ tail) whole in
            rw much (
              subst (λ r. Emits link level (data_clocks level tdi (first * 8) rem ++ tail) m c r)
                (sym (>>=_assoc bytes (λ _. early >>= again) k c))
                (subst (λ cs. Emits link level cs m c ((bytes >>= λ _. (early >>= again) >>= k) c))
                  clocks
                  (Emits-bind link level level m d1 (d2 ++ tail) c bytes
                    (λ _. (early >>= again) >>= k)
                    (send_bytes-Emits link errno level tdi tdo first chunk_len c moves (omega arith)
                      (omega arith)
                      (Covers-le tdi ((first + chunk_len) * 8) (first * 8 + rem) (omega arith)
                        covers)
                      fits)
                    (λ _ c1 fits1.
                      subst (λ r. Emits link level (d2 ++ tail) m c1 r)
                        (sym (>>=_assoc early again k c1))
                        (Emits-bind link level level m [] (d2 ++ tail) c1 early
                          (λ buf'. again buf' >>= k)
                          (receive-Emits link errno level tdo buf first chunk_len c1 fits1)
                          (λ buf' c2 fits2.
                            send_chunks-Emits fuel level m tdi tdo (first + chunk_len) rest buf'
                              tail k c2 moves (ground arith)
                              (Covers-le tdi ((first + chunk_len) * 8 + rest) (first * 8 + rem)
                                (omega arith) covers)
                              fits2
                              (λ first' rem' buf'' c3 same few fits3.
                                next first' rem' buf'' c3 (omega arith) few fits3)))))))
      ]

  -- txrx_block, if it returns, has added commands to the stream that clock just as many bits as asked, in
  -- chunks that fit the buffer: TMS stays where it is and TDI carries the pattern from its first bit
  -- on, and the last bit has TMS high if and only if it is to leave the shift state. The buffer is
  -- never overfilled. The pattern is to have the bits, and there is a pattern or a place to read to.
  pub txrx_block-Emits :
      (stack : List ℕ) (level : Bool) (tdi : Option (List ℕ)) (tdo : Bool) (buf : List ℕ)
      (length : ℕ) (last : Bool) (c : Cable F)
      → Moves tdi tdo
      → 0 < length
      → Covers tdi length
      → Fits c
      → Emits link level
          (block_clocks level tdi length last)
          (end_level last level)
          c
          (txrx_block link errno stack tdi tdo buf length last c)
  unfolding txrx_block
  txrx_block-Emits stack level tdi tdo buf length last c moves some_bits covers fits =
      let rem : ℕ = if last then length - 1 else length in
      let start : 0 * 8 ≡ 0 = refl in
      let none_before : 0 + rem ≡ rem = omega arith in
      let fewer : rem ≤ length = ground arith in
      send_chunks-Emits rem level (end_level last level) tdi tdo 0 rem buf
        (end_clocks last tdi (rem / 8) (rem % 8))
        (λ s. send_rest link errno stack tdi tdo last s.0 (s.1 / 8) (s.1 % 8) s.2) c moves
        (omega arith) (Covers-le tdi (0 * 8 + rem) length (omega arith) covers) fits
        (λ first' rem' buf' c' same few fits'.
          let whole : rem' / 8 * 8 + rem' % 8 ≡ rem' = omega arith in
          let byte : first' + rem' / 8 ≡ rem / 8 = omega arith in
          let bit : rem' % 8 ≡ rem % 8 = omega arith in
          let out = send_rest link errno stack tdi tdo last first' (rem' / 8) (rem' % 8) buf' c' in
          subst
            (λ n.
              Emits link level
                (data_clocks level tdi (first' * 8) n ++ end_clocks last tdi (rem / 8) (rem % 8))
                (end_level last level) c' out)
            whole
            (subst
              (λ n.
                Emits link level
                  (data_clocks level tdi (first' * 8) (rem' / 8 * 8 + rem' % 8)
                    ++ end_clocks last tdi n (rem % 8))
                  (end_level last level) c' out)
              byte
              (subst
                (λ n.
                  Emits link level
                    (data_clocks level tdi (first' * 8) (rem' / 8 * 8 + rem' % 8)
                      ++ end_clocks last tdi (first' + rem' / 8) n)
                    (end_level last level) c' out)
                bit
                (send_rest-Emits stack level tdi tdo last first' (rem' / 8) (rem' % 8) buf' c' moves
                  few (omega arith)
                  (Covers-le tdi ((first' + rem' / 8) * 8 + rem' % 8) length (omega arith) covers)
                  fits'))))
