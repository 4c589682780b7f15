-- ===== src/Protocol/Decode.antt =====
-- Reading the protocol back: no two commands share their bytes, and the fields survive.
use fpga_device_server.Common.{
  ℕ, ◌+◌, ◌*◌, ◌/◌, ◌%◌, ◌^◌, ◌<◌, ◌≡◌, refl, bit_and, bit_or, Bool, true, Option, none, some, List,
  [], ◌∷◌, ◌++◌, length, ◌==◌, ==_iff, if◌then◌else◌, take, drop, take-append, drop-append, arith,
  every_below, every_below_at,
}
use fpga_device_server.Protocol.{
  cmd_readreg, cmd_writereg, cmd_readreg_n, cmd_writereg_n, be16toh, cmd_word, word_bytes, words_of,
  Command, read_reg, write_reg, read_reg_n, write_reg_n, encode,
}

-- The fields of a command word, as sums.
field_table : every_below 256 (λ x. bit_and x 0x3f == x % 64) ≡ true
unfolding every_below
field_table = refl

field_lem : (x : ℕ) → x < 256 → bit_and x 0x3f ≡ x % 64
field_lem x h = (==_iff _ _).0 (every_below_at 256 (λ x. bit_and x 0x3f == x % 64) x field_table h)

abbrev joins : ℕ → ℕ → ℕ → Bool
joins cmd a p = bit_or (bit_or (cmd * 2 ^ 12) (a * 2 ^ 6)) p == cmd * 4096 + a * 64 + p

join_table : every_below 8 (λ cmd. every_below 64 (λ a. every_below 64 (λ p. joins cmd a p))) ≡ true
unfolding every_below
join_table = refl

-- A command word holds the command in its upper four bits, then six bits of address and of port.
pub cmd_word_lem :
    (cmd addr port : ℕ)
    → cmd < 8
    → addr < 256
    → port < 256
    → cmd_word cmd addr port ≡ cmd * 4096 + addr % 64 * 64 + port % 64
unfolding cmd_word
cmd_word_lem cmd addr port hc ha hp =
    rw (field_lem addr ha, field_lem port hp)
      ((==_iff _ _).0 (
        every_below_at 64 (λ p. joins cmd (addr % 64) p) (port % 64)
          (every_below_at 64 (λ a. every_below 64 (λ p. joins cmd a p)) (addr % 64)
            (every_below_at 8 (λ cmd. every_below 64 (λ a. every_below 64 (λ p. joins cmd a p))) cmd
              join_table hc)
            (omega arith))
          (omega arith)))

-- The command that a head word and what follows it stand for, with what is left.
abbrev decode_long : ℕ → ℕ → ℕ → List ℕ → Option (Command × List ℕ)
decode_long cmd addr port [] = none
decode_long cmd addr port (hi ∷ []) = none
decode_long cmd addr port (hi ∷ lo ∷ rest) =
    let n = be16toh hi lo in
    if cmd == cmd_writereg
    then some (write_reg addr port n, rest)
    else if cmd == cmd_readreg_n
    then some (read_reg_n addr port n, rest)
    else if cmd == cmd_writereg_n
    then some (write_reg_n addr port (words_of (take (2 * n) rest)), drop (2 * n) rest)
    else none

abbrev decode_body : ℕ → ℕ → ℕ → List ℕ → Option (Command × List ℕ)
decode_body cmd addr port rest =
    if cmd == cmd_readreg then some (read_reg addr port, rest) else decode_long cmd addr port rest

-- A reader of the protocol, which the FPGA's side has to be.
pub decode : List ℕ → Option (Command × List ℕ)
decode [] = none
decode (hi ∷ []) = none
decode (hi ∷ lo ∷ rest) =
    let w = be16toh hi lo in decode_body (w / 4096) (w / 64 % 64) (w % 64) rest

abbrev pub AllWords : List ℕ → Type 0
AllWords [] = Unit {0}
AllWords (w ∷ ws) = (w < 65536) × AllWords ws

-- The fields fit their widths.
abbrev pub IsCommand : Command → Type 0
IsCommand (read_reg addr port) = (addr < 64) × (port < 64)
IsCommand (write_reg addr port value) = (addr < 64) × (port < 64) × (value < 65536)
IsCommand (read_reg_n addr port n) = (addr < 64) × (port < 64) × (n < 65536)
IsCommand (write_reg_n addr port ws) = (addr < 64) × (port < 64) × (length ws < 65536) × AllWords ws

pub be16toh-htobe16 : (w : ℕ) → w < 65536 → be16toh (w / 256 % 256) (w % 256) ≡ w
be16toh-htobe16 w h = omega arith

pub words_of-word_bytes : (ws : List ℕ) → AllWords ws → words_of (word_bytes ws) ≡ ws
words_of-word_bytes [] h = refl
words_of-word_bytes (w ∷ ws) h = rw (be16toh-htobe16 w h.0, words_of-word_bytes ws h.1)

pub length-word_bytes : (ws : List ℕ) → length (word_bytes ws) ≡ 2 * length ws
length-word_bytes [] = omega arith
length-word_bytes (w ∷ ws) = omega (arith, length-word_bytes ws)

-- The three fields of a head word.
head_fields :
    (cmd addr port : ℕ)
    → cmd < 8
    → addr < 64
    → port < 64
    → let w = be16toh (cmd_word cmd addr port / 256 % 256) (cmd_word cmd addr port % 256) in
      (w / 4096 ≡ cmd) × (w / 64 % 64 ≡ addr) × (w % 64 ≡ port)
head_fields cmd addr port hc ha hp =
    rw (cmd_word_lem cmd addr port hc (omega arith) (omega arith)) (omega arith)

-- Every command with fields that fit is read back as it was, also when more bytes follow it.
pub decode-encode :
    (c : Command) (rest : List ℕ) → IsCommand c → decode (encode c ++ rest) ≡ some (c, rest)
unfolding decode encode
decode-encode (read_reg addr port) rest (ha, hp) =
    let (e1, e2, e3) = head_fields cmd_readreg addr port (omega arith) ha hp in rw (e1, e2, e3)
decode-encode (write_reg addr port value) rest (ha, hp, hv) =
    let (e1, e2, e3) = head_fields cmd_writereg addr port (omega arith) ha hp in
    rw (e1, e2, e3, be16toh-htobe16 value hv)
decode-encode (read_reg_n addr port n) rest (ha, hp, hn) =
    let (e1, e2, e3) = head_fields cmd_readreg_n addr port (omega arith) ha hp in
    rw (e1, e2, e3, be16toh-htobe16 n hn)
decode-encode (write_reg_n addr port ws) rest (ha, hp, hn, hw) =
    let (e1, e2, e3) = head_fields cmd_writereg_n addr port (omega arith) ha hp in
    rw (
      e1,
      e2,
      e3,
      be16toh-htobe16 (length ws) hn,
      ← length-word_bytes ws,
      take-append (word_bytes ws) rest,
      drop-append (word_bytes ws) rest,
      words_of-word_bytes ws hw,
    )
