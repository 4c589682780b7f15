-- ===== src/IoFtdi/Block/Parts.antt =====
-- The commands of a block (IOFtdi::txrx_block in src/devices/xc3sprog/ioftdi.cpp), each as the chip clocks
-- it.
use fpga_device_server.Common.{
  ◌≡◌, refl, sym, ap, ◌∙◌, subst, ℕ, zero, suc, ◌+◌, ◌-◌, ◌*◌, ◌/◌, ◌%◌, ◌^◌, ◌≤◌, ◌<◌, ◌⊎◌, Option,
  some, none, Bool, true, false, List, [], ◌∷◌, ◌++◌, append-nil, if◌then◌else◌, length, get_or,
  take, drop, arith, inl, inr, length-take, length-drop,
}
use mathlib.Core.Bool.{false≢true}
use fpga_device_server.Common.Effect.{pure, ◌>>=◌, ◌>>◌}
use fpga_device_server.Device.{Link}
use fpga_device_server.IoFtdi.{
  tx_buf, chunk_len, Cable, mpsse_add_cmd, data_op, bit_op, tms_op, last_bit, send_bytes, send_bits,
  send_last, readusb, receive, receive_end, put_at, align_tdo, join_last,
}
use fpga_device_server.IoFtdi.Mpsse.{
  Clock, data_clocks, data_clocks_window, data_clocks-none, bytes_out, bytes_in, bits_out, bits_in,
  tms_bits, flush, Runs, Runs-one,
}
use fpga_device_server.IoFtdi.Stream.{
  Fits, Sends, Emits, Sends-Emits, Emits-bind, pure-Emits, pure-Sends, Sends-bind,
}
use fpga_device_server.IoFtdi.Buffer.{mpsse_add_cmd-Sends, readusb-Sends}

-- The pattern, if there is one, has the bits that are asked for.
abbrev pub Covers : Option (List ℕ) → ℕ → Type 0
Covers none bits = Unit
Covers (some tdi) bits = bits ≤ length tdi * 8

-- Something is to be written or to be read.
abbrev pub Moves : Option (List ℕ) → Bool → Type 0
Moves none tdo = tdo ≡ true
Moves (some tdi) tdo = Unit

byte_op : (tdo : Bool) → (data_op tdo true ≡ 0x19) ⊎ (data_op tdo true ≡ 0x3d)
byte_op true = inr refl
byte_op false = inl refl

bits_op : (tdo : Bool) → (bit_op tdo true ≡ 0x1b) ⊎ (bit_op tdo true ≡ 0x3f)
bits_op true = inr refl
bits_op false = inl refl

last_op : (tdo : Bool) → (tms_op tdo ≡ 0x4b) ⊎ (tms_op tdo ≡ 0x6f)
last_op true = inr refl
last_op false = inl refl

bytes_run :
    (level tdo : Bool) (tdi : List ℕ) (first n : ℕ)
    → 0 < n
    → n ≤ chunk_len
    → first + n ≤ length tdi
    → Runs level
        (data_op tdo true ∷ (n - 1) % 256 ∷ (n - 1) / 2 ^ 8 % 256 ∷ take n (drop first tdi))
        (data_clocks level (some tdi) (first * 8) (n * 8))
        level
bytes_run level tdo tdi first n some_bytes few covers =
    let window = take n (drop first tdi) in
    let size : length window ≡ n =
      length-take n (drop first tdi) ∙ omega (arith, length-drop first tdi) in
    let e : first * 8 + 0 ≡ first * 8 = omega arith in
    let clocks =
      data_clocks_window level tdi first n 0 (n * 8) (omega arith)
      ∙ ap (λ i. data_clocks level (some tdi) i (n * 8)) e in
    let one =
      Runs-one
        (bytes_out level (data_op tdo true) window (byte_op tdo) (omega arith) (omega arith)) in
    subst
      (λ cs.
        Runs level (data_op tdo true ∷ (n - 1) % 256 ∷ (n - 1) / 2 ^ 8 % 256 ∷ window) cs level)
      clocks
      (subst
        (λ k.
          Runs level (data_op tdo true ∷ (k - 1) % 256 ∷ (k - 1) / 2 ^ 8 % 256 ∷ window)
            (data_clocks level (some window) 0 (k * 8)) level)
        size one)

take_one :
    (first : ℕ) (xs : List ℕ) → first < length xs → take 1 (drop first xs) ≡ get_or xs first 0 ∷ []
take_one first [] h = absurd (omega arith)
take_one zero (x ∷ xs) h = refl
take_one (suc first) (x ∷ xs) h = take_one first xs (omega arith)

bits_run :
    (level tdo : Bool) (tdi : List ℕ) (first n : ℕ)
    → 0 < n
    → n < 8
    → first * 8 + n ≤ length tdi * 8
    → Runs level
        (bit_op tdo true ∷ (n - 1) ∷ take 1 (drop first tdi))
        (data_clocks level (some tdi) (first * 8) n)
        level
bits_run level tdo tdi first n some_bits few covers =
    let byte = get_or tdi first 0 in
    let window = take_one first tdi (omega arith) in
    let e : first * 8 + 0 ≡ first * 8 = omega arith in
    let whole : n - 1 + 1 ≡ n = omega arith in
    let clocks =
      ap (λ w. data_clocks level (some w) 0 n) (sym window)
      ∙ data_clocks_window level tdi first 1 0 n (omega arith)
      ∙ ap (λ i. data_clocks level (some tdi) i n) e in
    let one =
      Runs-one (bits_out level (bit_op tdo true) (n - 1) byte (bits_op tdo) (omega arith)) in
    rw window (
      subst (λ cs. Runs level (bit_op tdo true ∷ (n - 1) ∷ byte ∷ []) cs level) clocks
        (subst
          (λ k.
            Runs level (bit_op tdo true ∷ (n - 1) ∷ byte ∷ [])
              (data_clocks level (some (byte ∷ [])) 0 k) level)
          whole one))

last_run :
    (level tdo b : Bool)
    → Runs level (tms_op tdo ∷ 0 ∷ (if b then 0x81 else 1) ∷ []) ((true, some b) ∷ []) true
last_run level tdo true = Runs-one (tms_bits level (tms_op tdo) 0 0x81 (last_op tdo) (omega arith))
last_run level tdo false = Runs-one (tms_bits level (tms_op tdo) 0 1 (last_op tdo) (omega arith))

module _ {F : Type 0} (link : Link F) (errno : F → ℕ) where
  -- A command in two parts.
  two_parts :
      (level m : Bool) (cs : List Clock) (xs ys : List ℕ) (c : Cable F)
      → length xs < tx_buf
      → length ys < tx_buf
      → Runs level (xs ++ ys) cs m
      → Fits c
      → Emits link level cs m c ((mpsse_add_cmd link errno xs >> mpsse_add_cmd link errno ys) c)
  two_parts level m cs xs ys c small small' runs fits =
      Sends-Emits link level m cs (xs ++ ys) c
        ((mpsse_add_cmd link errno xs >> mpsse_add_cmd link errno ys) c) runs
        (Sends-bind link xs ys c (mpsse_add_cmd link errno xs) (λ _. mpsse_add_cmd link errno ys)
          (mpsse_add_cmd-Sends link errno xs c small fits)
          (λ _ c' fits'. mpsse_add_cmd-Sends link errno ys c' small' fits'))

  one_part :
      (level m : Bool) (cs : List Clock) (xs : List ℕ) (c : Cable F)
      → length xs < tx_buf
      → Runs level xs cs m
      → Fits c
      → Emits link level cs m c ((mpsse_add_cmd link errno xs >> pure tt) c)
  one_part level m cs xs c small runs fits =
      Sends-Emits link level m cs xs c ((mpsse_add_cmd link errno xs >> pure tt) c) runs (
        subst (λ zs. Sends link zs c ((mpsse_add_cmd link errno xs >> pure tt) c)) (append-nil xs)
          (Sends-bind link xs [] c (mpsse_add_cmd link errno xs) (λ _. pure tt)
            (mpsse_add_cmd-Sends link errno xs c small fits)
            (λ a c' fits'. pure-Sends link tt c' fits')))

  pub send_bytes-Emits :
      (level : Bool) (tdi : Option (List ℕ)) (tdo : Bool) (first n : ℕ) (c : Cable F)
      → Moves tdi tdo
      → 0 < n
      → n ≤ chunk_len
      → Covers tdi ((first + n) * 8)
      → Fits c
      → Emits link level
          (data_clocks level tdi (first * 8) (n * 8))
          level
          c
          (send_bytes link errno tdi tdo first n c)
  unfolding send_bytes
  send_bytes-Emits level (some tdi) tdo first n c moves some_bytes few covers fits =
      two_parts level level (data_clocks level (some tdi) (first * 8) (n * 8))
        (data_op tdo true ∷ (n - 1) % 256 ∷ (n - 1) / 2 ^ 8 % 256 ∷ []) (take n (drop first tdi)) c
        (omega arith) (omega (arith, length-take n (drop first tdi)))
        (bytes_run level tdo tdi first n some_bytes few (omega arith)) fits
  send_bytes-Emits level none true first n c moves some_bytes few covers fits =
      subst (λ cs. Emits link level cs level c (send_bytes link errno none true first n c))
        (data_clocks-none level 0 (first * 8) (n * 8))
        (one_part level level (data_clocks level none 0 (n * 8))
          (data_op true false ∷ (n - 1) % 256 ∷ (n - 1) / 2 ^ 8 % 256 ∷ []) c (omega arith)
          (Runs-one (bytes_in level n some_bytes (omega arith))) fits)
  send_bytes-Emits level none false first n c moves some_bytes few covers fits =
      absurd (false≢true moves)

  pub send_bits-Emits :
      (level : Bool) (tdi : Option (List ℕ)) (tdo : Bool) (first n : ℕ) (c : Cable F)
      → Moves tdi tdo
      → 0 < n
      → n < 8
      → Covers tdi (first * 8 + n)
      → Fits c
      → Emits link level
          (data_clocks level tdi (first * 8) n)
          level
          c
          (send_bits link errno tdi tdo first n c)
  unfolding send_bits
  send_bits-Emits level (some tdi) tdo first n c moves some_bits few covers fits =
      two_parts level level (data_clocks level (some tdi) (first * 8) n)
        (bit_op tdo true ∷ (n - 1) ∷ []) (take 1 (drop first tdi)) c (omega arith)
        (omega (arith, length-take 1 (drop first tdi)))
        (bits_run level tdo tdi first n some_bits few covers) fits
  send_bits-Emits level none true first n c moves some_bits few covers fits =
      let whole : n - 1 + 1 ≡ n = omega arith in
      subst (λ cs. Emits link level cs level c (send_bits link errno none true first n c))
        (ap (data_clocks level none 0) whole ∙ data_clocks-none level 0 (first * 8) n)
        (one_part level level (data_clocks level none 0 (n - 1 + 1))
          (bit_op true false ∷ (n - 1) ∷ []) c (omega arith)
          (Runs-one (bits_in level (n - 1) (omega arith))) fits)
  send_bits-Emits level none false first n c moves some_bits few covers fits =
      absurd (false≢true moves)

  pub send_last-Emits :
      (level : Bool) (tdi : Option (List ℕ)) (tdo : Bool) (first n : ℕ) (c : Cable F)
      → Fits c
      → Emits link level
          ((true, some (last_bit tdi first n)) ∷ [])
          true
          c
          (send_last link errno tdi tdo first n c)
  unfolding send_last
  send_last-Emits level tdi tdo first n c fits =
      let cmd = tms_op tdo ∷ 0 ∷ (if last_bit tdi first n then 0x81 else 1) ∷ [] in
      Sends-Emits link level true ((true, some (last_bit tdi first n)) ∷ []) cmd c
        (mpsse_add_cmd link errno cmd c) (last_run level tdo (last_bit tdi first n))
        (mpsse_add_cmd-Sends link errno cmd c (omega arith) fits)

  -- A read only asks for what has come to be sent at once.
  readusb-Emits :
      {A : Type 0} (level : Bool) (n : ℕ) (f : List ℕ → A) (c : Cable F)
      → Fits c
      → Emits link level [] level c ((readusb link errno n >>= λ bs. pure (f bs)) c)
  readusb-Emits level n f c fits =
      Emits-bind link level level level [] [] c (readusb link errno n) (λ bs. pure (f bs))
        (Sends-Emits link level level [] (0x87 ∷ []) c (readusb link errno n c)
          (Runs-one (flush level)) (readusb-Sends link errno n c fits))
        (λ bs c' fits'. pure-Emits link level (f bs) c' fits')

  pub receive-Emits :
      (level tdo : Bool) (buf : List ℕ) (first n : ℕ) (c : Cable F)
      → Fits c
      → Emits link level [] level c (receive link errno tdo buf first n c)
  unfolding receive
  receive-Emits level true buf first n c fits =
      readusb-Emits level n (λ bs. put_at buf first bs) c fits
  receive-Emits level false buf first n c fits = pure-Emits link level buf c fits

  pub receive_end-Emits :
      (level : Bool) (stack : List ℕ) (tdo last : Bool) (first n rembits : ℕ) (buf : List ℕ)
      (c : Cable F)
      → Fits c
      → Emits link level [] level c (receive_end link errno stack tdo last first n rembits buf c)
  unfolding receive_end
  receive_end-Emits level stack false last first n rembits buf c fits =
      pure-Emits link level buf c fits
  receive_end-Emits level stack true false first n rembits buf c fits =
      Emits-bind link level level level [] [] c (receive link errno true buf first n)
        (λ buf'. pure (align_tdo buf' (first + n) rembits))
        (receive-Emits level true buf first n c fits)
        (λ buf' c' fits'. pure-Emits link level (align_tdo buf' (first + n) rembits) c' fits')
  receive_end-Emits level stack true true first n rembits buf c fits =
      readusb-Emits level n
        (λ bs. put_at buf first (join_last (bs ++ drop (length bs) stack) n rembits)) c fits
