-- ===== src/BitFile/Reads.antt =====
-- Reading parts of a bit file that are there (src/devices/xc3sprog/bitfile.cpp).
use fpga_device_server.Common.{
  ◌≡◌, refl, ℕ, suc, ◌+◌, ◌*◌, ◌/◌, ◌%◌, ◌^◌, ◌<◌, false, some, List, [], ◌∷◌, ◌++◌, map,
  append_assoc, append-nil, length, arith,
}
use fpga_device_server.BitFile.Reverse.{bit_rev}
use fpga_device_server.BitFile.{
  File, fread, fread_all, BitFile, append_bytes, read_field, read_data, process_data, read_keyed,
  read_keys, key_a, key_b, key_c, key_d, key_e, field_bytes, size_bytes,
}

abbrev pub unread : List ℕ → File
unread bs = record { rest = bs; eof = false }

module _ (junk : ℕ) where
  append_bytes_lem :
      (xs rest field : List ℕ)
      → append_bytes junk (length xs) field (unread (xs ++ rest)) ≡ (field ++ xs, unread rest)
  unfolding append_bytes fread
  append_bytes_lem [] rest field = rw append-nil
  append_bytes_lem (x ∷ xs) rest field =
      rw (append_bytes_lem xs rest (field ++ x ∷ []), append_assoc)

  -- A field of less than 2^16 bytes is read whole.
  pub read_field_lem :
      (xs rest field : List ℕ)
      → length xs < 2 ^ 16
      → read_field junk field (unread (length xs / 2 ^ 8 % 256 ∷ length xs % 256 ∷ (xs ++ rest)))
        ≡ (field ++ xs, unread rest)
  unfolding read_field fread_all fread
  read_field_lem xs rest field small =
      let same : (length xs / 2 ^ 8 % 256 * 2 ^ 8 + length xs % 256) % 2 ^ 16 ≡ length xs =
        omega arith in
      rw same (append_bytes_lem xs rest field)

  read_data_lem :
      (xs rest buffer : List ℕ)
      → read_data junk (length xs) buffer (unread (xs ++ rest))
        ≡ (buffer ++ map bit_rev xs, unread rest)
  unfolding read_data fread
  read_data_lem [] rest buffer = rw append-nil
  read_data_lem (x ∷ xs) rest buffer =
      rw (read_data_lem xs rest (buffer ++ bit_rev x ∷ []), append_assoc)

  pub process_data_lem :
      (xs : List ℕ) (b : BitFile)
      → length xs < 2 ^ 32
      → process_data junk b (unread (size_bytes (length xs) ++ xs))
        ≡ (false, record b { length = length xs; buffer = map bit_rev xs })
  unfolding process_data fread_all fread
  process_data_lem xs b small =
      let same : (length xs / 2 ^ 24 % 256 * 2 ^ 24
              + length xs / 2 ^ 16 % 256 * 2 ^ 16
              + length xs / 2 ^ 8 % 256 * 2 ^ 8
              + length xs % 256)
            % 2 ^ 32
          ≡ length xs =
        omega arith in
      let whole = rw append-nil at (read_data_lem xs [] []) in rw (same, whole) (ground arith)

  -- A round of readBitfile on a known key adds the bytes to its field.
  module _ (fuel key : ℕ) (b : BitFile) (xs rest : List ℕ) (small : length xs < 2 ^ 16) where
    pub read_key_a :
        read_keys junk (suc fuel) key b (unread (field_bytes key_a xs ++ rest))
        ≡ read_keys junk fuel key_a (record b { ncd_filename = b.ncd_filename ++ xs }) (unread rest)
    unfolding read_keys fread read_keyed
    read_key_a = rw (read_field_lem xs rest b.ncd_filename small) refl

    pub read_key_b :
        read_keys junk (suc fuel) key b (unread (field_bytes key_b xs ++ rest))
        ≡ read_keys junk fuel key_b (record b { part_name = b.part_name ++ xs }) (unread rest)
    unfolding read_keys fread read_keyed
    read_key_b = rw (read_field_lem xs rest b.part_name small) refl

    pub read_key_c :
        read_keys junk (suc fuel) key b (unread (field_bytes key_c xs ++ rest))
        ≡ read_keys junk fuel key_c (record b { date = b.date ++ xs }) (unread rest)
    unfolding read_keys fread read_keyed
    read_key_c = rw (read_field_lem xs rest b.date small) refl

    pub read_key_d :
        read_keys junk (suc fuel) key b (unread (field_bytes key_d xs ++ rest))
        ≡ read_keys junk fuel key_d (record b { dtime = b.dtime ++ xs }) (unread rest)
    unfolding read_keys fread read_keyed
    read_key_d = rw (read_field_lem xs rest b.dtime small) refl

  pub read_key_e :
      (fuel key : ℕ) (b : BitFile) (xs : List ℕ)
      → length xs < 2 ^ 32
      → read_keys junk (suc fuel) key b (unread (key_e ∷ (size_bytes (length xs) ++ xs)))
        ≡ (some 0, record b { length = length xs; buffer = map bit_rev xs })
  unfolding read_keys fread
  read_key_e fuel key b xs small = rw (process_data_lem xs b small) refl
