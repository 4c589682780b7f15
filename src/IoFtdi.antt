-- ===== src/IoFtdi.antt =====
-- The cable of the boards, class IOFtdi (src/devices/xc3sprog/ioftdi.h and ioftdi.cpp), as it is built
-- without USE_FTD2XX: the commands of the MPSSE of an FTDI chip, gathered in a buffer and written
-- in whole. The transfers are those of a `Link`. The debug file and the messages are left out.
pub mod Mpsse
pub mod Stream
pub mod Buffer
pub mod Tms
pub mod Block
pub mod Pause
pub mod Played
mod Tests
use fpga_device_server.Common.{
  ℕ, zero, suc, ◌+◌, ◌-◌, ◌*◌, ◌/◌, ◌%◌, ◌^◌, bit_or, bit_and, Bool, true, false, not, ◌&&◌, Option,
  none, some, List, [], ◌∷◌, ◌++◌, ◌==◌, ltb, leb, if◌then◌else◌, length, get_or, set, take, drop,
}
use fpga_device_server.Common.Int.{ℤ, pos, negsuc, eqb_ℤ}
use fpga_device_server.Common.Effect.{
  Result, ok, err, Action, pure, throw, throw_if, modify, gets, ◌>>=◌, ◌>>◌,
}
use fpga_device_server.Common.Maps.{is_some}
use fpga_device_server.Device.{Link}

-- TX_BUF, and the most bytes of data in one command.
abbrev pub tx_buf : ℕ
tx_buf = 4096

abbrev pub chunk_len : ℕ
chunk_len = 4093

pub record Cable (F : Type 0) : Type 0 where
  pub ftdi_handle : F
  pub usbuf : List ℕ
  pub calls_rd : ℕ
  pub calls_wr : ℕ
  pub retries : ℕ
  pub has_fast_clock : Bool
  pub tck_freq : ℕ

pub data CableError : Type 0 where
  short_write read_failed : CableError

-- The flags of a command (ftdi.h): MPSSE_WRITE_NEG and MPSSE_LSB always; MPSSE_DO_READ and
-- MPSSE_READ_NEG to read TDO; MPSSE_DO_WRITE to write TDI.
abbrev pub data_op : Bool → Bool → ℕ
data_op tdo tdi =
    bit_or (bit_or (bit_or (if tdo then bit_or 0x20 0x04 else 0) (if tdi then 0x10 else 0)) 0x08)
      0x01

-- With MPSSE_BITMODE.
abbrev pub bit_op : Bool → Bool → ℕ
bit_op tdo tdi = bit_or (data_op tdo tdi) 0x02

-- MPSSE_WRITE_TMS, in bit mode.
abbrev pub tms_op : Bool → ℕ
tms_op tdo =
    bit_or (bit_or (bit_or (bit_or 0x40 (if tdo then bit_or 0x20 0x04 else 0)) 0x08) 0x02) 0x01

abbrev pub send_immediate : ℕ
send_immediate = 0x87

-- The reads of readusb after the first.
abbrev pub read_tries : ℕ
read_tries = 1000

-- The bytes from `first` on that are written, if any.
abbrev pub out_bytes : Option (List ℕ) → ℕ → ℕ → List ℕ
out_bytes none first n = []
out_bytes (some tdi) first n = take n (drop first tdi)

-- memcpy into a buffer.
abbrev pub put_at : List ℕ → ℕ → List ℕ → List ℕ
put_at buf first bs = take first buf ++ (bs ++ drop (first + length bs) buf)

-- The bits of a pattern from bit `first` on, as tx_tms gathers them over 0x80: `n` of them, the first
-- at bit `at`.
pub gather_tms : List ℕ → ℕ → ℕ → ℕ → ℕ → ℕ
gather_tms pat first at zero acc = acc
gather_tms pat first at (suc n) acc =
    gather_tms pat (first + 1) (at + 1) n
      (bit_or acc (if get_or pat (first / 8) 0 / 2 ^ (first % 8) % 2 == 1 then 2 ^ at else 0))

abbrev pub Method : Type 0 → Type 0 → Type 0
Method F A = Action CableError (Cable F) A

abbrev pub got : Option (List ℕ) → List ℕ
got none = []
got (some bs) = bs

-- Bit `n` of the byte at `first`.
abbrev pub last_bit : Option (List ℕ) → ℕ → ℕ → Bool
last_bit none first n = false
last_bit (some tdi) first n = get_or tdi first 0 / 2 ^ n % 2 == 1

-- What is done with the bytes read at the end. Without a last bit they lie in the buffer already.
abbrev pub shift_down : List ℕ → ℕ → ℕ → List ℕ
shift_down buf i rembits = set buf i (get_or buf i 0 / 2 ^ (8 - rembits))

abbrev pub join_last : List ℕ → ℕ → ℕ → List ℕ
join_last rbuf n rembits =
    if rembits == 0
    then take n (set rbuf (n - 1) (if bit_and (get_or rbuf (n - 1) 0) 0x80 == 0 then 0 else 1))
    else take (n - 1) (
        set rbuf (n - 2) (
          bit_or (get_or rbuf (n - 2) 0 / 2 ^ (8 - rembits))
            (bit_and (get_or rbuf (n - 1) 0) 0x80 / 2 ^ (7 - rembits))))

abbrev pub align_tdo : List ℕ → ℕ → ℕ → List ℕ
align_tdo buf end rembits = if rembits == 0 then buf else shift_down buf (end - 1) rembits

-- The ticks of a pause, in the arithmetic of an unsigned int.
unfoldable pub pause_ticks : ℕ → ℕ → ℕ
pause_ticks usec tck_freq = (usec * (tck_freq / 100) + tck_freq / 100 + 2 ^ 32 - 1) % 2 ^ 32 / 10000

-- `errno` after a read that has brought nothing.
module _ {F : Type 0} (link : Link F) (errno : F → ℕ) where
  unfoldable pub mpsse_send : Method F (Unit {0})
  mpsse_send c =
      let (written, f) = link.write_data c.ftdi_handle c.usbuf in
      let c' = record c { ftdi_handle = f; calls_wr = c.calls_wr + 1 } in
      if length c.usbuf == 0
      then (ok tt, c)
      else if not (eqb_ℤ written (pos (length c.usbuf)))
      then (err short_write, c')
      else (ok tt, record c' { usbuf = [] })

  unfoldable pub mpsse_add_cmd : List ℕ → Method F (Unit {0})
  unfolding mpsse_send
  mpsse_add_cmd buf =
      (λ c. if leb tx_buf (length c.usbuf + length buf + 1) then mpsse_send c else (ok tt, c))
      >> modify (λ c. record c { usbuf = c.usbuf ++ buf })

  abbrev pub read_once : ℕ → Method F (Option (List ℕ))
  read_once size c =
      let (answer, f) = link.read_data c.ftdi_handle size in
      (ok answer, record c { ftdi_handle = f })

  -- The end of readusb, after all of its tries or before.
  read_end : Bool → Option (List ℕ) → List ℕ → Method F (List ℕ)
  read_end tired last received c =
      let failed = tired && (length (got last) == 0 && not (errno c.ftdi_handle == 0)) in
      if failed
      then (err read_failed, c)
      else if not (is_some last)
      then (err read_failed, c)
      else (ok received, c)

  -- `while (read < length && timeout < 1000)`, over the tries left.
  read_tries_loop : ℕ → ℕ → Option (List ℕ) → List ℕ → Method F (List ℕ)
  read_tries_loop zero size last received = read_end true last received
  read_tries_loop (suc tries) size last received =
      let again =
        modify (λ c. record c { retries = c.retries + 1 })
        >> (read_once (size - length received) >>= λ answer.
            read_tries_loop tries size answer (received ++ got answer)) in
      if ltb (length received) size then again else read_end false last received

  -- readusb: the bytes that have been put where `rbuf` points.
  pub readusb : ℕ → Method F (List ℕ)
  readusb size =
      mpsse_add_cmd (send_immediate ∷ [])
      >> mpsse_send
      >> modify (λ c. record c { calls_rd = c.calls_rd + 1 })
      >> (read_once size >>= λ answer. read_tries_loop read_tries size answer (got answer))

  -- `while (len > 0)` of tx_tms, over the bits left, on fuel.
  pub tms_loop : ℕ → List ℕ → ℕ → ℕ → Method F (Unit {0})
  tms_loop zero pat j len = pure tt
  tms_loop (suc fuel) pat j len =
      let n = if ltb 6 len then 5 else len - 1 in
      let more =
        mpsse_add_cmd (tms_op false ∷ n ∷ gather_tms pat j 0 (n + 1) 0x80 ∷ [])
        >> tms_loop fuel pat (j + (n + 1)) (len - (n + 1)) in
      if ltb 0 len then more else pure tt

  -- Each round sends a bit at least.
  pub tx_tms : List ℕ → ℕ → Bool → Method F (Unit {0})
  tx_tms pat length force =
      if length == 0
      then pure tt
      else (tms_loop length pat 0 length >> (if force then mpsse_send else pure tt))

  -- A command that clocks `n` whole bytes, from byte `first` on.
  pub send_bytes : Option (List ℕ) → Bool → ℕ → ℕ → Method F (Unit {0})
  send_bytes tdi tdo first n =
      mpsse_add_cmd (data_op tdo (is_some tdi) ∷ (n - 1) % 256 ∷ (n - 1) / 2 ^ 8 % 256 ∷ [])
      >> (if is_some tdi then mpsse_add_cmd (out_bytes tdi first n) else pure tt)

  -- readusb into the buffer of the caller, if there is one.
  pub receive : Bool → List ℕ → ℕ → ℕ → Method F (List ℕ)
  receive tdo buf first n =
      if tdo then (readusb n >>= λ bs. pure (put_at buf first bs)) else pure buf

  -- `while (rem/8 > buflen)`, on fuel: `first` is how far both pointers have moved.
  pub send_chunks : ℕ → Option (List ℕ) → Bool → ℕ → ℕ → List ℕ → Method F (ℕ × ℕ × List ℕ)
  send_chunks zero tdi tdo first rem buf = pure (first, rem, buf)
  send_chunks (suc fuel) tdi tdo first rem buf =
      let more =
        send_bytes tdi tdo first chunk_len
        >> (receive tdo buf first chunk_len >>= λ buf'.
            send_chunks fuel tdi tdo (first + chunk_len) (rem - chunk_len * 8) buf') in
      if ltb chunk_len (rem / 8) then more else pure (first, rem, buf)

  -- Less than a byte.
  pub send_bits : Option (List ℕ) → Bool → ℕ → ℕ → Method F (Unit {0})
  send_bits tdi tdo first n =
      mpsse_add_cmd (bit_op tdo (is_some tdi) ∷ (n - 1) ∷ [])
      >> (if is_some tdi then mpsse_add_cmd (out_bytes tdi first 1) else pure tt)

  -- The last bit, with TMS high.
  pub send_last : Option (List ℕ) → Bool → ℕ → ℕ → Method F (Unit {0})
  send_last tdi tdo first n =
      mpsse_add_cmd (tms_op tdo ∷ 0 ∷ (if last_bit tdi first n then 0x81 else 1) ∷ [])

  -- `rbuf` is on the stack: `stack` is what is there.
  pub receive_end : List ℕ → Bool → Bool → ℕ → ℕ → ℕ → List ℕ → Method F (List ℕ)
  receive_end stack tdo last first n rembits buf =
      if not tdo
      then pure buf
      else if not last
      then (receive tdo buf first n >>= λ buf'. pure (align_tdo buf' (first + n) rembits))
      else (readusb n >>= λ bs.
          pure (put_at buf first (join_last (bs ++ drop (length bs) stack) n rembits)))

  -- The end of txrx_block, when a chunk at most is left: `full` bytes and `rembits` bits. Where the read
  -- buffer has no space for the last bits, the bytes are read first.
  pub send_rest : List ℕ → Option (List ℕ) → Bool → Bool → ℕ → ℕ → ℕ → List ℕ → Method F (List ℕ)
  send_rest stack tdi tdo last first full rembits buf =
      let no_space = leb (tx_buf - 4) full in
      let pending =
        (if no_space then 0 else full)
        + (if rembits == 0 then 0 else 1)
        + (if last then 1 else 0) in
      (if full == 0 then pure tt else send_bytes tdi tdo first full)
      >> ((if no_space then receive tdo buf first full else pure buf) >>= λ buf'.
          (if rembits == 0 then pure tt else send_bits tdi tdo (first + full) rembits)
          >> (if last then send_last tdi tdo (first + full) rembits else pure tt)
          >> receive_end stack tdo last (if no_space then first + full else first) pending rembits
              buf')

  -- txrx_block, of a bit at least. `tdi` is none where it is null, `tdo` says that it is not, and then `buf`
  -- is the buffer that it points to.
  pub txrx_block : List ℕ → Option (List ℕ) → Bool → List ℕ → ℕ → Bool → Method F (List ℕ)
  txrx_block stack tdi tdo buf length last =
      let rem = if last then length - 1 else length in
      send_chunks rem tdi tdo 0 rem buf >>= λ s.
      send_rest stack tdi tdo last s.0 (s.1 / 8) (s.1 % 8) s.2

  -- flush
  pub flush : Method F (Unit {0})
  flush = mpsse_send

  pause_fast : ℕ → Method F (Unit {0})
  pause_fast ticks =
      let left = if ltb 8 ticks then ticks % 8 else ticks in
      (if ltb 8 ticks
        then mpsse_add_cmd (0x8f ∷ ticks / 8 % 256 ∷ ticks / 8 / 2 ^ 8 % 256 ∷ [])
        else pure tt)
      >> (if left == 0 then pure tt else mpsse_add_cmd (0x8e ∷ (left - 1) ∷ []))

  -- `while (ticks > 8)` over bytes of zeros, on fuel; what is left of the ticks.
  pub zero_bytes : ℕ → ℕ → Method F ℕ
  zero_bytes zero ticks = pure ticks
  zero_bytes (suc fuel) ticks =
      let more = mpsse_add_cmd (0 ∷ []) >> zero_bytes fuel (ticks - 8) in
      if ltb 8 ticks then more else pure ticks

  -- Without the fast clock. Of the last command only the first byte is added.
  pub pause_slow : ℕ → Method F (Unit {0})
  pause_slow ticks =
      (if ltb 8 ticks
        then mpsse_add_cmd (data_op false true ∷ ticks / 8 % 256 ∷ ticks / 8 / 2 ^ 8 % 256 ∷ [])
          >> zero_bytes ticks ticks
        else pure ticks)
      >>= λ left. if left == 0 then pure tt else mpsse_add_cmd (bit_op false true ∷ [])

  -- IOFtdi::Usleep after flush_tms, as far as the chip sees it: a long pause is a call of usleep.
  pub usleep_cable : ℕ → Method F (Unit {0})
  usleep_cable usec c =
      let ticks = pause_ticks usec c.tck_freq in
      if ltb usec 20000
      then (if c.has_fast_clock then pause_fast ticks c else pause_slow ticks c)
      else flush c
