-- ===== src/IoBase.antt =====
-- The base class of the JTAG cables, IOBase (src/devices/xc3sprog/iobase.h and iobase.cpp).
-- TMS bits are gathered in a buffer and sent before anything else is clocked. The two virtual
-- functions that reach the cable are events of a log, and what the cable reads back is a list of
-- replies, one for each block that asks for TDO.
pub mod Bits
pub mod Replies
pub mod Wire
pub mod Blocks
mod Tests
use fpga_device_server.Common.{
  ℕ, zero, suc, ◌+◌, ◌-◌, ◌/◌, ◌%◌, ◌^◌, bit_or, Bool, true, false, Option, none, some, List, [],
  ◌∷◌, ◌++◌, ltb, ◌==◌, if◌then◌else◌, get_or, set, replicate,
}

-- CHUNK_SIZE, in bytes, and the bits that one chunk holds.
abbrev pub chunk_size : ℕ
chunk_size = 128

abbrev pub chunk_bits : ℕ
chunk_bits = 1024

pub data Event : Type 0 where
  -- tx_tms(pat, length, force)
  tx_tms : List ℕ → ℕ → Bool → Event
  -- txrx_block(tdi, tdo, length, last): the data sent, if any, and whether TDO is wanted
  txrx_block : Option (List ℕ) → Bool → ℕ → Bool → Event
  -- flush() and usleep(usec)
  usleep : ℕ → Event

pub record Io : Type 0 where
  pub tms_buf : List ℕ
  pub tms_len : ℕ
  pub log : List Event
  pub replies : List (List ℕ)

abbrev pub emit : Io → Event → Io
emit io e = record io { log = io.log ++ e ∷ [] }

-- IOBase::IOBase: the buffer is cleared.
unfoldable pub io_init : List (List ℕ) → Io
io_init replies = record {
  tms_buf = replicate chunk_size 0;
  tms_len = 0;
  log = [];
  replies = replies;
}

abbrev clear_tms : Io → Io
clear_tms io = record io { tms_buf = replicate chunk_size 0; tms_len = 0 }

unfoldable pub flush_tms : Io → Bool → Io
flush_tms io force =
    clear_tms (if io.tms_len == 0 then io else emit io (tx_tms io.tms_buf io.tms_len force))

-- `tms_buf[tms_len / 8] |= 1 << (tms_len & 7)` for a bit that is set; `tms_len++` always.
push_tms : Io → Bool → Io
push_tms io val = record io {
  tms_buf =
      if val
      then set io.tms_buf (io.tms_len / 8)
          (bit_or (get_or io.tms_buf (io.tms_len / 8) 0) (2 ^ (io.tms_len % 8)))
      else io.tms_buf;
  tms_len = io.tms_len + 1;
}

unfoldable pub set_tms : Io → Bool → Io
unfolding push_tms flush_tms
set_tms io val = push_tms (if ltb chunk_bits (io.tms_len + 1) then flush_tms io false else io) val

abbrev pub next_reply : List (List ℕ) → List ℕ
next_reply [] = []
next_reply (r ∷ rs) = r

abbrev pub later_replies : List (List ℕ) → List (List ℕ)
later_replies [] = []
later_replies (r ∷ rs) = rs

-- One block on the cable, with the bytes it puts where `tdo` points.
transfer : Io → Option (List ℕ) → Bool → ℕ → Bool → Io × List ℕ
transfer io tdi wants_tdo length last = (
  record (emit io (txrx_block tdi wants_tdo length last)) {
    replies = if wants_tdo then later_replies io.replies else io.replies;
  },
  if wants_tdo then next_reply io.replies else [],
)

-- A length of zero returns at once, and leaves pending TMS bits where they are.
unfoldable pub shift_tdi_tdo : Io → Option (List ℕ) → Bool → ℕ → Bool → Io × List ℕ
unfolding flush_tms transfer
shift_tdi_tdo io tdi wants_tdo length last =
    if length == 0 then (io, []) else transfer (flush_tms io false) tdi wants_tdo length last

unfoldable pub shift_tdi : Io → List ℕ → ℕ → Bool → Io
unfolding shift_tdi_tdo
shift_tdi io tdi length last = (shift_tdi_tdo io (some tdi) false length last).0

unfoldable pub shift_tdo : Io → ℕ → Bool → Io × List ℕ
unfolding shift_tdi_tdo
shift_tdo io length last = shift_tdi_tdo io none true length last

abbrev block : Bool → List ℕ
block tdi = replicate chunk_size (if tdi then 255 else 0)

-- `while (len > CHUNK_SIZE * 8)`, on fuel: each round takes a whole chunk off `len`.
shift_chunks : ℕ → Io → Bool → ℕ → Io × ℕ
unfolding transfer
shift_chunks zero io tdi len = (io, len)
shift_chunks (suc fuel) io tdi len =
    let rest =
      shift_chunks fuel (transfer io (some (block tdi)) false chunk_bits false).0 tdi
        (len - chunk_bits) in
    if ltb chunk_bits len then rest else (io, len)

unfoldable pub shift : Io → Bool → ℕ → Bool → Io
unfolding flush_tms shift_chunks shift_tdi_tdo
shift io tdi length last =
    let (io', len) = shift_chunks length (flush_tms io false) tdi length in
    (shift_tdi_tdo io' (some (block tdi)) false len last).0

-- IOBase::Usleep; the cable's flush() and the pause are one event.
unfoldable pub usleep_io : Io → ℕ → Io
unfolding flush_tms
usleep_io io usec = emit (flush_tms io false) (usleep usec)
