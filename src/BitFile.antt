-- ===== src/BitFile.antt =====
-- Bit files, class BitFile (src/devices/xc3sprog/bitfile.h and bitfile.cpp): reading the format that the
-- server is given (STYLE_BIT), and writing it. A file is the bytes that are left to be read; a
-- read past the end leaves its target as it was, so where the target is not initialised the model takes
-- an argument `junk`. The messages on stderr and the log file are left out.
pub mod Reverse
pub mod Reads
pub mod Saved
pub mod Ends
mod Tests
use fpga_device_server.Common.{
  ℕ, zero, suc, ◌+◌, ◌-◌, ◌*◌, ◌/◌, ◌%◌, ◌^◌, Bool, true, false, not, ◌||◌, Option, none, some,
  List, [], ◌∷◌, ◌++◌, map, ◌==◌, ltb, leb, if◌then◌else◌, length, get_or, set, take, drop,
  replicate, bit_or,
}
use fpga_device_server.BitFile.Reverse.{bit_rev}

-- A file that is open for reading; `eof` is feof.
pub record File : Type 0 where
  pub rest : List ℕ
  pub eof : Bool

-- fread of one byte over `old`, and of as many as `old` has.
unfoldable pub fread : ℕ → File → ℕ × File
fread old f = elim f.rest [
  | [] ↦ (old, record f { eof = true })
  | b ∷ bs ↦ (b, record f { rest = bs })
]

unfoldable pub fread_all : List ℕ → File → List ℕ × File
fread_all [] f = ([], f)
fread_all (old ∷ olds) f =
    let (b, f') = fread old f in let (bs, f'') = fread_all olds f' in (b ∷ bs, f'')

-- `length` and `buffer` are the data; where reading breaks off, only what was read of it is kept.
pub record BitFile : Type 0 where
  pub ncd_filename : List ℕ
  pub part_name : List ℕ
  pub date : List ℕ
  pub dtime : List ℕ
  pub length : ℕ
  pub buffer : List ℕ
  pub has_error : Bool
  pub offset : ℕ
  pub rlength : ℕ

-- BitFile::BitFile
unfoldable pub bit_file_init : BitFile
bit_file_init = record {
  ncd_filename = [];
  part_name = [];
  date = [];
  dtime = [];
  length = 0;
  buffer = [];
  has_error = false;
  offset = 0;
  rlength = 0;
}

abbrev pub key_a : ℕ
key_a = 97

abbrev pub key_b : ℕ
key_b = 98

abbrev pub key_c : ℕ
key_c = 99

abbrev pub key_d : ℕ
key_d = 100

abbrev pub key_e : ℕ
key_e = 101

module _ (junk : ℕ) where
  -- The loop of readField: `field += b`.
  pub append_bytes : ℕ → List ℕ → File → List ℕ × File
  append_bytes zero field f = (field, f)
  append_bytes (suc n) field f = let (b, f') = fread junk f in append_bytes n (field ++ b ∷ []) f'

  pub read_field : List ℕ → File → List ℕ × File
  read_field field f =
      let (t, f') = fread_all (junk ∷ junk ∷ []) f in
      append_bytes ((get_or t 0 0 * 2 ^ 8 + get_or t 1 0) % 2 ^ 16) field f'

  -- `for (i = 0; i < length && !feof(fp); i++)`
  pub read_data : ℕ → List ℕ → File → List ℕ × File
  read_data zero buffer f = (buffer, f)
  read_data (suc n) buffer f =
      let (b, f') = fread junk f in
      let more = read_data n (buffer ++ bit_rev b ∷ []) f' in if f.eof then (buffer, f) else more

  -- processData; the Boolean says that it throws.
  pub process_data : BitFile → File → Bool × BitFile
  process_data b f =
      let (t, f') = fread_all (junk ∷ junk ∷ junk ∷ junk ∷ []) f in
      let size =
        (get_or t 0 0 * 2 ^ 24 + get_or t 1 0 * 2 ^ 16 + get_or t 2 0 * 2 ^ 8 + get_or t 3 0)
        % 2 ^ 32 in
      let (buffer, f'') = read_data size [] f' in
      let b' = record b { length = size; buffer = buffer } in
      if f''.eof
      then (true, b')
      else (false, record b' { has_error = b.has_error || not (fread 0 f'').1.eof })

  -- The `switch` of readBitfile for all keys but the last: the field that the bytes are added to. What
  -- comes under an unknown key is read and dropped.
  pub read_keyed : ℕ → BitFile → File → BitFile × File
  read_keyed key b f =
      let (a', fa) = read_field b.ncd_filename f in
      let (p', fb) = read_field b.part_name f in
      let (d', fc) = read_field b.date f in
      let (t', fd) = read_field b.dtime f in
      if key == key_a
      then (record b { ncd_filename = a' }, fa)
      else if key == key_b
      then (record b { part_name = p' }, fb)
      else if key == key_c
      then (record b { date = d' }, fc)
      else if key == key_d
      then (record b { dtime = t' }, fd)
      else (b, (read_field [] f).1)

  -- `while (!feof(fp))`, on fuel; `none` is out of fuel, and 2 is what the handler of every throw
  -- returns.
  unfoldable pub read_keys : ℕ → ℕ → BitFile → File → Option ℕ × BitFile
  read_keys zero key b f = (none, b)
  read_keys (suc fuel) key b f =
      let (key', f') = fread key f in
      let (b', f'') = read_keyed key' b f' in
      let (throws, done) = process_data b f' in
      let more = read_keys fuel key' b' f'' in
      if f.eof
      then (some 2, b)
      else if key' == key_e
      then (some (if throws then 2 else 0), done)
      else more

  -- A round takes a byte off the file, or meets its end.
  unfoldable pub read_bitfile : BitFile → List ℕ → Option ℕ × BitFile
  read_bitfile b bytes =
      let (hdr, f) = fread_all (replicate 13 junk) (record { rest = bytes; eof = false }) in
      read_keys (suc (suc (length f.rest))) junk b f

-- append(val, cnt): the word, `cnt` times.
word_bytes_rev : ℕ → List ℕ
word_bytes_rev val =
    map bit_rev (val / 2 ^ 24 % 256 ∷ val / 2 ^ 16 % 256 ∷ val / 2 ^ 8 % 256 ∷ val % 256 ∷ [])

append_words : ℕ → ℕ → List ℕ
append_words val zero = []
append_words val (suc n) = word_bytes_rev val ++ append_words val n

pub append_val : ℕ → ℕ → BitFile → BitFile
append_val val cnt b = record b {
  length = b.length + 4 * cnt;
  buffer = b.buffer ++ append_words val cnt;
}

-- setLength, of a number of bits.
pub set_length : ℕ → BitFile → BitFile
set_length size b =
    let n = size / 8 + (if size % 8 == 0 then 0 else 1) in
    record b { length = n; buffer = replicate n 0xff }

-- get_bit: a bit past the end counts as set. set_bit, which throws there.
unfoldable pub get_bit : ℕ → BitFile → ℕ
get_bit idx b =
    if leb b.length (idx / 8)
    then 1
    else if get_or b.buffer (idx / 8) 0 / 2 ^ (idx % 8) % 2 == 1
    then 1
    else 0

unfoldable pub set_bit : ℕ → Bool → BitFile → Option BitFile
set_bit idx blow b =
    let old = get_or b.buffer (idx / 8) 0 in
    let on = bit_or old (2 ^ (idx % 8)) in
    let new = if blow then on else on - 2 ^ (idx % 8) in
    if leb b.length (idx / 8) then none else some (record b { buffer = set b.buffer (idx / 8) new })

abbrev pub or_else : List ℕ → List ℕ → List ℕ
or_else [] fallback = fallback ++ 0 ∷ []
or_else (c ∷ cs) fallback = c ∷ cs

abbrev pub is_empty : List ℕ → Bool
is_empty [] = true
is_empty (c ∷ cs) = false

-- "XC3SPROG"
abbrev pub xc3sprog : List ℕ
xc3sprog = 88 ∷ 67 ∷ 51 ∷ 83 ∷ 80 ∷ 82 ∷ 79 ∷ 71 ∷ []

-- setNCDFields, at a time that reads `today` and `now`. The date is written if there is no time yet.
unfoldable pub set_ncd_fields : List ℕ → List ℕ → List ℕ → BitFile → BitFile
set_ncd_fields device today now b = record b {
  ncd_filename = or_else b.ncd_filename xc3sprog;
  part_name = or_else b.part_name device;
  date = if is_empty b.dtime then today ++ 0 ∷ [] else b.date;
  dtime = or_else b.dtime now;
}

-- `for (clip = length - 1; buffer[clip] == 0xff && clip > 0; clip--)`
unfoldable pub last_kept : ℕ → List ℕ → ℕ
last_kept zero buffer = zero
last_kept (suc clip) buffer =
    let lower = last_kept clip buffer in
    if get_or buffer (suc clip) 0 == 0xff then lower else suc clip

unfoldable pub clipped : BitFile → ℕ
unfolding last_kept
clipped b = if b.rlength == 0 then last_kept (b.length - 1) b.buffer + 1 else b.rlength

abbrev pub header : List ℕ
header =
    0x00 ∷ 0x09 ∷ 0x0f ∷ 0xf0 ∷ 0x0f ∷ 0xf0 ∷ 0x0f ∷ 0xf0 ∷ 0x0f ∷ 0xf0 ∷ 0x00 ∷ 0x00 ∷ 0x01 ∷ []

abbrev pub field_bytes : ℕ → List ℕ → List ℕ
field_bytes key field = key ∷ length field / 2 ^ 8 % 256 ∷ length field % 256 ∷ field

abbrev pub size_bytes : ℕ → List ℕ
size_bytes n = n / 2 ^ 24 % 256 ∷ n / 2 ^ 16 % 256 ∷ n / 2 ^ 8 % 256 ∷ n % 256 ∷ []

abbrev pub fields_bytes : BitFile → List ℕ → List ℕ
fields_bytes b after =
    field_bytes key_a b.ncd_filename
    ++ (field_bytes key_b b.part_name
        ++ (field_bytes key_c b.date ++ (field_bytes key_d b.dtime ++ after)))

-- saveAs with STYLE_BIT: what is written, and the object after it.
unfoldable pub save_bit : List ℕ → List ℕ → List ℕ → BitFile → List ℕ × BitFile
unfolding clipped set_ncd_fields
save_bit device today now b =
    let b' = set_ncd_fields device today now b in
    let clip = clipped b' in
    if b.length == 0 then ([], b) else (
      header ++ fields_bytes b' (key_e ∷ (size_bytes clip ++ map bit_rev (take clip b'.buffer))),
      b',
    )
