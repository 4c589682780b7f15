-- ===== src/BitFile/Saved.antt =====
-- Bit files that are written and read back (src/devices/xc3sprog/bitfile.cpp).
use fpga_device_server.Common.{
  ◌≡◌, refl, sym, ap, ◌∙◌, ℕ, zero, suc, ◌+◌, ◌-◌, ◌/◌, ◌%◌, ◌^◌, ◌≤◌, ◌<◌, true, false, some, List,
  [], ◌∷◌, ◌++◌, map, ◌==◌, ==_iff, leb, length, arith, get_or, take, length-take, Bool-cases, inl,
  inr, every_below, every_below_at,
}
use mathlib.Core.Path.{ap₂}
use fpga_device_server.BitFile.Reverse.{bit_rev, bit_rev-bit_rev}
use fpga_device_server.BitFile.Reads.{
  unread, read_key_a, read_key_b, read_key_c, read_key_d, read_key_e,
}
use fpga_device_server.BitFile.{
  fread, fread_all, BitFile, bit_file_init, read_keys, read_bitfile, key_e, field_bytes, size_bytes,
  fields_bytes, header, set_ncd_fields, last_kept, clipped, save_bit, get_bit,
}

abbrev pub AllBytes : List ℕ → Type 0
AllBytes [] = Unit
AllBytes (x ∷ xs) = (x < 256) × AllBytes xs

-- A file with data, of which no explicit length is to be written, and whose fields can be written.
pub record IsSavable (b : BitFile) : Type 0 where
  pub size : length b.buffer ≡ b.length
  pub bytes : AllBytes b.buffer
  pub some_data : 0 < b.length
  pub small : b.length < 2 ^ 32
  pub whole : b.rlength ≡ 0
  pub ncd_filename : length b.ncd_filename < 2 ^ 16
  pub part_name : length b.part_name < 2 ^ 16
  pub date : length b.date < 2 ^ 16
  pub dtime : length b.dtime < 2 ^ 16

map_twice : (n : ℕ) (xs : List ℕ) → AllBytes xs → map bit_rev (map bit_rev (take n xs)) ≡ take n xs
map_twice zero xs h = refl
map_twice (suc n) [] h = refl
map_twice (suc n) (x ∷ xs) h = ap₂ ◌∷◌ (bit_rev-bit_rev x h.0) (map_twice n xs h.1)

length-map : (xs : List ℕ) → length (map bit_rev xs) ≡ length xs
length-map [] = refl
length-map (x ∷ xs) = ap suc (length-map xs)

last_kept-le : (n : ℕ) (buffer : List ℕ) → last_kept n buffer ≤ n
unfolding last_kept
last_kept-le zero buffer = omega arith
last_kept-le (suc n) buffer = ground (arith, last_kept-le n buffer)

-- What is clipped is all ones.
last_kept_clips :
    (n : ℕ) (buffer : List ℕ) (i : ℕ) → last_kept n buffer < i → i ≤ n → get_or buffer i 0 ≡ 0xff
unfolding last_kept
last_kept_clips zero buffer i above below = absurd (omega arith)
last_kept_clips (suc n) buffer i above below = elim (Bool-cases (i == suc n)) [
  | inl top ↦
      let e : i ≡ suc n = (==_iff _ _).0 top in
      elim (Bool-cases (get_or buffer (suc n) 0 == 0xff)) [
        | inl ones ↦ rw e ((==_iff _ _).0 ones)
        | inr kept ↦ absurd (omega (arith, rw kept at above))
      ]
  | inr lower ↦ elim (Bool-cases (get_or buffer (suc n) 0 == 0xff)) [
    | inl ones ↦ last_kept_clips n buffer i (rw ones at above) (ground arith)
    | inr kept ↦ absurd (omega (arith, rw kept at above))
  ]
]

get_or-take : (n i : ℕ) (xs : List ℕ) → i < n → get_or (take n xs) i 0 ≡ get_or xs i 0
get_or-take zero i xs h = absurd (omega arith)
get_or-take (suc n) i [] h = refl
get_or-take (suc n) zero (x ∷ xs) h = refl
get_or-take (suc n) (suc i) (x ∷ xs) h = get_or-take n i xs (omega arith)

ones_table : every_below 8 (λ k. 0xff / 2 ^ k % 2 == 1) ≡ true
unfolding every_below
ones_table = refl

ones_bit : (idx : ℕ) → (0xff / 2 ^ (idx % 8) % 2 == 1) ≡ true
ones_bit idx = every_below_at 8 (λ k. 0xff / 2 ^ k % 2 == 1) (idx % 8) ones_table (omega arith)

-- The object that reading gives.
abbrev pub reread : ℕ → BitFile → BitFile
reread clip b = record {
  ncd_filename = b.ncd_filename;
  part_name = b.part_name;
  date = b.date;
  dtime = b.dtime;
  length = clip;
  buffer = take clip b.buffer;
  has_error = false;
  offset = 0;
  rlength = 0;
}

read_fields :
    (junk n : ℕ) (b : BitFile) (xs : List ℕ)
    → IsSavable b
    → length xs < 2 ^ 32
    → read_keys junk
        (suc (suc (suc (suc (suc n)))))
        junk
        bit_file_init
        (unread (fields_bytes b (key_e ∷ (size_bytes (length xs) ++ xs))))
      ≡ (
        some 0,
        record bit_file_init {
          ncd_filename = b.ncd_filename;
          part_name = b.part_name;
          date = b.date;
          dtime = b.dtime;
          length = length xs;
          buffer = map bit_rev xs;
        },
      )
unfolding bit_file_init
read_fields junk n b xs s small =
    let rest4 = key_e ∷ (size_bytes (length xs) ++ xs) in
    let rest3 = field_bytes 100 b.dtime ++ rest4 in
    let rest2 = field_bytes 99 b.date ++ rest3 in
    let rest1 = field_bytes 98 b.part_name ++ rest2 in
    let b1 = record bit_file_init { ncd_filename = b.ncd_filename } in
    let b2 = record b1 { part_name = b.part_name } in
    let b3 = record b2 { date = b.date } in
    let b4 = record b3 { dtime = b.dtime } in
    read_key_a junk (suc (suc (suc (suc n)))) junk bit_file_init b.ncd_filename rest1 s.ncd_filename
    ∙ read_key_b junk (suc (suc (suc n))) 97 b1 b.part_name rest2 s.part_name
    ∙ read_key_c junk (suc (suc n)) 98 b2 b.date rest3 s.date
    ∙ read_key_d junk (suc n) 99 b3 b.dtime rest4 s.dtime
    ∙ read_key_e junk n 100 b4 xs small

clipped-le : (b : BitFile) → IsSavable b → clipped b ≤ b.length
unfolding clipped
clipped-le b s =
    let some_data = s.some_data in
    let e : (b.rlength == 0) ≡ true = (==_iff _ _).1 s.whole in
    rw e (omega (arith, last_kept-le (b.length - 1) b.buffer))

-- The bytes that saveAs writes, read by readBitfile.
reread_lem :
    (junk : ℕ) (b : BitFile)
    → IsSavable b
    → read_bitfile junk bit_file_init (
        header
        ++ fields_bytes b
            (key_e ∷ (size_bytes (clipped b) ++ map bit_rev (take (clipped b) b.buffer))))
      ≡ (some 0, reread (clipped b) b)
unfolding read_bitfile fread_all fread bit_file_init
reread_lem junk b s =
    let n = clipped b in
    let xs = map bit_rev (take n b.buffer) in
    let fits = clipped-le b s in
    let size : length xs ≡ n =
      length-map (take n b.buffer) ∙ length-take n b.buffer ∙ omega (arith, s.size) in
    let small : length xs < 2 ^ 32 = omega (arith, s.small) in
    let rest = key_e ∷ (size_bytes (length xs) ++ xs) in
    let fuel : ℕ = length (
      b.ncd_filename
      ++ (field_bytes 98 b.part_name
          ++ (field_bytes 99 b.date ++ (field_bytes 100 b.dtime ++ rest)))) in
    ap
      (λ k.
        read_bitfile junk bit_file_init (header ++ fields_bytes b (key_e ∷ (size_bytes k ++ xs))))
      (sym size)
    ∙ read_fields junk fuel b xs s small
    ∙ ap₂ (λ k buffer. (some 0, record (reread 0 b) { length = k; buffer = buffer })) size
        (map_twice n b.buffer s.bytes)

clipped_bit :
    (b : BitFile) (idx : ℕ) → IsSavable b → get_bit idx (reread (clipped b) b) ≡ get_bit idx b
unfolding get_bit clipped
clipped_bit b idx s =
    let whole : (b.rlength == 0) ≡ true = (==_iff _ _).1 s.whole in
    let some_data = s.some_data in
    let n = last_kept (b.length - 1) b.buffer in
    let kept = last_kept-le (b.length - 1) b.buffer in
    rw whole (elim (Bool-cases (leb (n + 1) (idx / 8))) [
      | inl clip ↦ elim (Bool-cases (leb b.length (idx / 8))) [
        | inl beyond ↦ rw (clip, beyond) refl
        | inr inside ↦
            rw
              (
                clip,
                inside,
                last_kept_clips (b.length - 1) b.buffer (idx / 8) (ground arith) (ground arith),
                ones_bit idx,
              )
              refl
      ]
      | inr kept_byte ↦
          let inside : leb b.length (idx / 8) ≡ false = ground arith in
          rw (kept_byte, inside, get_or-take (n + 1) (idx / 8) b.buffer (ground arith)) refl
    ])

-- A file that saveAs has written as STYLE_BIT is read back by readBitfile, into an object that was just
-- made: the fields are those of the object after saving, and every bit of the data is as it was,
-- those that were clipped off the end included. The object has data, at least a byte and less than
-- 2^32 of them, and as many bytes as its length says; no explicit length is to be written (rlength is
-- zero); and each of its four texts, after setNCDFields has set them, is shorter than 2^16.
pub read_bitfile-save_bit :
    (junk : ℕ) (device today now : List ℕ) (b : BitFile)
    → IsSavable (set_ncd_fields device today now b)
    → (read_bitfile junk bit_file_init (save_bit device today now b).0
        ≡ (some 0, reread (clipped b) (set_ncd_fields device today now b)))
      × ((idx : ℕ)
          → get_bit idx (reread (clipped b) (set_ncd_fields device today now b)) ≡ get_bit idx b)
unfolding save_bit set_ncd_fields get_bit
read_bitfile-save_bit junk device today now b s =
    let some_data = s.some_data in
    let e : (b.length == 0) ≡ false = ground arith in
    (
      rw e (reread_lem junk (set_ncd_fields device today now b) s),
      λ idx. clipped_bit (set_ncd_fields device today now b) idx s,
    )
