-- ===== src/Protocol.antt =====
-- The register protocol that src/devices/Device.cpp speaks with the FPGA: the words that the methods
-- of Device put into their buffers, most significant byte first, and the commands that they stand for.
pub mod Decode
mod Tests
use fpga_device_server.Common.{
  ℕ, zero, suc, ◌+◌, ◌-◌, ◌*◌, ◌/◌, ◌%◌, ◌^◌, bit_and, bit_or, Bool, true, false, Option, none,
  some, List, [], ◌∷◌, ◌++◌, length, ltb, if◌then◌else◌, take, drop,
}

-- CMD_READREG to CMD_WRITEREG_N
abbrev pub cmd_readreg : ℕ
cmd_readreg = 1

abbrev pub cmd_writereg : ℕ
cmd_writereg = 2

abbrev pub cmd_readreg_n : ℕ
cmd_readreg_n = 3

abbrev pub cmd_writereg_n : ℕ
cmd_writereg_n = 4

-- The two bytes in memory of htobe16(w), and be16toh of two bytes in memory.
abbrev pub htobe16 : ℕ → List ℕ
htobe16 w = (w / 256 % 256) ∷ (w % 256) ∷ []

abbrev pub be16toh : ℕ → ℕ → ℕ
be16toh hi lo = hi * 256 + lo

-- (cmd << 12) | ((addr & 0x3f) << 6) | (port & 0x3f)
unfoldable pub cmd_word : ℕ → ℕ → ℕ → ℕ
cmd_word cmd addr port =
    bit_or (bit_or (cmd * 2 ^ 12) (bit_and addr 0x3f * 2 ^ 6)) (bit_and port 0x3f)

abbrev pub command_head : ℕ → ℕ → ℕ → List ℕ
command_head cmd addr port = htobe16 (cmd_word cmd addr port)

-- The memory of an array of words that are already big-endian, and the words in such memory.
abbrev pub word_bytes : List ℕ → List ℕ
word_bytes [] = []
word_bytes (w ∷ ws) = htobe16 w ++ word_bytes ws

abbrev pub words_of : List ℕ → List ℕ
words_of [] = []
words_of (hi ∷ []) = []
words_of (hi ∷ lo ∷ bs) = be16toh hi lo ∷ words_of bs

-- n_packet_max
abbrev pub n_packet_max : ℕ
n_packet_max = 65535

-- What the FPGA is asked to do. Addresses and ports have six bits, values sixteen.
pub data Command : Type 0 where
  read_reg : ℕ → ℕ → Command
  write_reg : ℕ → ℕ → ℕ → Command
  read_reg_n : ℕ → ℕ → ℕ → Command
  write_reg_n : ℕ → ℕ → List ℕ → Command

unfoldable pub encode : Command → List ℕ
encode (read_reg addr port) = command_head cmd_readreg addr port
encode (write_reg addr port value) = command_head cmd_writereg addr port ++ htobe16 value
encode (read_reg_n addr port n) = command_head cmd_readreg_n addr port ++ htobe16 n
encode (write_reg_n addr port ws) =
    command_head cmd_writereg_n addr port ++ (htobe16 (length ws) ++ word_bytes ws)
