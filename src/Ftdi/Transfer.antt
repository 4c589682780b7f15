-- ===== src/Ftdi/Transfer.antt =====
-- Bulk transfers (ftdi_read_data, ftdi_write_data in src/libftdi/ftdi.c). The chip sends packets, each of
-- which begins with two status bytes; a read moves the data of the packets together in the read buffer,
-- and what is not asked for yet stays there.
pub mod Packets
pub mod Unpack
pub mod Stream
pub mod Sending
use fpga_device_server.Common.{
  ℕ, zero, suc, ◌+◌, ◌-◌, ◌*◌, ◌/◌, ◌%◌, Bool, true, false, not, Option, none, some, List, [], ◌∷◌,
  ◌++◌, ◌==◌, ltb, leb, if◌then◌else◌, length, take, drop, min,
}
use fpga_device_server.Common.Int.{ℤ, pos, negsuc}
use fpga_device_server.Ftdi.{
  Context, Usb, Chip, BulkRead, bulk_failed, received, next_or, later, minus,
}

-- The code of a loop that has run out of fuel, which no function returns.
abbrev pub out_of_fuel : ℤ
out_of_fuel = negsuc 998

-- The loop of ftdi_write_data over `offset`, on fuel. A transfer takes no more than it is given.
pub write_loop : ℕ → List ℕ → ℕ → Chip → ℤ × Chip
write_loop zero bs offset (c, u) = (out_of_fuel, (c, u))
write_loop (suc fuel) bs offset (c, u) =
    let write_size = min c.writebuffer_chunksize (length bs - offset) in
    let answer = next_or (some write_size) u.write_answers in
    let u' = record u { write_answers = later u.write_answers } in
    let more : ℤ × Chip = elim answer [
      | none ↦ (minus 1, (c, u'))
      | some n ↦
          let actual = min n write_size in
          write_loop fuel bs (offset + actual)
            (c, record u' { sent = u'.sent ++ take actual (drop offset bs) })
    ] in
    if ltb offset (length bs) then more else (pos offset, (c, u))

-- A round uses up an answer, or takes a byte at least.
pub write_data : List ℕ → Chip → ℤ × Chip
write_data bs (c, u) =
    if not c.is_open
    then (minus 666, (c, u))
    else write_loop (suc (length u.write_answers + length bs)) bs 0 (c, u)

pub write_data_set_chunksize : ℕ → Context → ℤ × Context
write_data_set_chunksize n c = (pos 0, record c { writebuffer_chunksize = n })

pub write_data_get_chunksize : Context → ℕ
write_data_get_chunksize c = c.writebuffer_chunksize

-- memmove of `n` bytes within a buffer.
unfoldable pub memmove : List ℕ → ℕ → ℕ → ℕ → List ℕ
memmove buf dst src n = take dst buf ++ (take n (drop src buf) ++ drop (dst + n) buf)

-- `for (i = 1; i < num_of_chunks; i++)`, over the rounds left.
unfoldable pub move_chunks : ℕ → ℕ → ℕ → List ℕ → List ℕ
move_chunks zero i packet_size buf = buf
move_chunks (suc rounds) i packet_size buf =
    move_chunks rounds (i + 1) packet_size
      (memmove buf (2 + (packet_size - 2) * i) (2 + packet_size * i) (packet_size - 2))

-- What a read does with the bytes that have come, more than two: how many are data, and the buffer in
-- which they lie from its third byte on.
unfoldable pub unpack : ℕ → List ℕ → ℕ × List ℕ
unpack packet_size got =
    let num_of_chunks = length got / packet_size in
    let chunk_remains = length got % packet_size in
    let actual = length got - 2 in
    let moved = move_chunks (num_of_chunks - 1) 1 packet_size got in
    if ltb (packet_size - 2) actual
    then (if ltb 2 chunk_remains
        then (
          actual - 2 * num_of_chunks,
          memmove moved (2 + (packet_size - 2) * num_of_chunks) (2 + packet_size * num_of_chunks)
              (chunk_remains - 2),
        )
        else (actual - (2 * (num_of_chunks - 1) + chunk_remains), moved))
    else (actual, got)

abbrev pub empty_buffer : Context → Context
empty_buffer c = record c { readbuffer_remaining = 0; readbuffer_offset = 0 }

-- What is left in the read buffer.
abbrev pub buffered : Context → List ℕ
buffered c = take c.readbuffer_remaining (drop c.readbuffer_offset c.readbuffer)

abbrev pub Reading : Type 0
Reading = ℤ × List ℕ × Chip

-- A round of the loop of ftdi_read_data in which the bytes `got` have come: `offset` counts the bytes
-- in the caller's buffer, `out` is those bytes, and `rest` is the next round. Of the read buffer,
-- only the bytes of the last transfer are kept in the model.
unfoldable pub read_round :
    ℕ → ℕ → List ℕ → Context → Usb → List ℕ → (ℕ → List ℕ → Chip → Reading) → Reading
read_round size offset out c u got rest =
    let (actual, buf) = unpack c.max_packet_size got in
    let payload = take actual (drop 2 buf) in
    let c' = record (empty_buffer c) { readbuffer = buf; readbuffer_offset = 2 } in
    let part = size - offset in
    if not (ltb 2 (length got))
    then (pos offset, out, (record (empty_buffer c) { readbuffer = got }, u))
    else if actual == 0
    then (minus 127, out, (c', u))
    else if leb (offset + actual) size
    then (if offset + actual == size
        then (pos size, out ++ payload, (c', u))
        else rest (offset + actual) (out ++ payload) (c', u))
    else (
      pos size,
      out ++ take part payload,
      (record c' { readbuffer_offset = 2 + part; readbuffer_remaining = actual - part }, u),
    )

-- The loop of ftdi_read_data, on fuel.
unfoldable pub read_loop : ℕ → ℕ → ℕ → List ℕ → Chip → Reading
read_loop zero size offset out (c, u) = (out_of_fuel, out, (c, u))
read_loop (suc fuel) size offset out (c, u) =
    let u' = record u { incoming = later u.incoming } in
    elim (next_or (received []) u.incoming) [
      | bulk_failed e ↦ (minus (suc e), out, (empty_buffer c, u'))
      | received bs ↦
          read_round size offset out c u' (take c.readbuffer_chunksize bs) (read_loop fuel size)
    ]

-- The loop runs while bytes are missing, which is so after each round that goes on; such a round
-- brings a byte at least.
unfoldable pub read_data : ℕ → Chip → Reading
read_data size (c, u) =
    if not c.is_open
    then (minus 666, [], (c, u))
    else if c.max_packet_size == 0
    then (minus 1, [], (c, u))
    else if leb size c.readbuffer_remaining
    then (
      pos size,
      take size (drop c.readbuffer_offset c.readbuffer),
      (
        record c {
          readbuffer_remaining = c.readbuffer_remaining - size;
          readbuffer_offset = c.readbuffer_offset + size;
        },
        u,
      ),
    )
    else read_loop (suc size) size c.readbuffer_remaining (buffered c) (c, u)

-- ftdi_read_data_set_chunksize, where the buffer can be allocated.
pub read_data_set_chunksize : ℕ → Context → ℤ × Context
read_data_set_chunksize n c = (
  pos 0,
  record (empty_buffer c) {
    readbuffer_chunksize = if ltb 16384 n then 16384 else n;
    readbuffer = take (if ltb 16384 n then 16384 else n) c.readbuffer;
  },
)

pub read_data_get_chunksize : Context → ℕ
read_data_get_chunksize c = c.readbuffer_chunksize
