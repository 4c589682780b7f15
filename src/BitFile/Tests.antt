-- ===== src/BitFile/Tests.antt =====
-- Runs of the bit file model, and its theorems at a small file.
use fpga_device_server.Common.{◌≡◌, refl, ℕ, some, [], ◌∷◌, take, arith}
use fpga_device_server.BitFile.{
  BitFile, bit_file_init, read_bitfile, save_bit, set_ncd_fields, clipped, get_bit,
}
use fpga_device_server.BitFile.Reverse.{bit_rev}
use fpga_device_server.BitFile.Saved.{IsSavable, reread, read_bitfile-save_bit}
use fpga_device_server.BitFile.Ends.{IsRead, read_bitfile-IsRead}

-- Four bytes of data, the last two of them ones.
abbrev small_file : BitFile
small_file = record bit_file_init {
  ncd_filename = 120 ∷ 0 ∷ [];
  dtime = 48 ∷ 0 ∷ [];
  length = 4;
  buffer = 0x01 ∷ 0xaa ∷ 0xff ∷ 0xff ∷ [];
}

run_saved :
    (save_bit (112 ∷ []) [] [] small_file).0
    ≡ 0x00 ∷ 0x09 ∷ 0x0f ∷ 0xf0 ∷ 0x0f ∷ 0xf0 ∷ 0x0f ∷ 0xf0 ∷ 0x0f ∷ 0xf0 ∷ 0x00 ∷ 0x00 ∷ 0x01 ∷ 97
      ∷ 0 ∷ 2 ∷ 120 ∷ 0 ∷ 98 ∷ 0 ∷ 2 ∷ 112 ∷ 0 ∷ 99 ∷ 0 ∷ 0 ∷ 100 ∷ 0 ∷ 2 ∷ 48 ∷ 0 ∷ 101 ∷ 0 ∷ 0 ∷ 0
      ∷ 2 ∷ 0x80 ∷ 0x55 ∷ []
unfolding save_bit bit_file_init bit_rev
run_saved = refl

small_file-IsSavable : IsSavable (set_ncd_fields (112 ∷ []) [] [] small_file)
unfolding set_ncd_fields bit_file_init
small_file-IsSavable = record {
  size = refl;
  bytes = omega arith;
  some_data = omega arith;
  small = omega arith;
  whole = refl;
  ncd_filename = omega arith;
  part_name = omega arith;
  date = omega arith;
  dtime = omega arith;
}

read_bitfile-save_bit_example :
    (read_bitfile 0 bit_file_init (save_bit (112 ∷ []) [] [] small_file).0
      ≡ (some 0, reread (clipped small_file) (set_ncd_fields (112 ∷ []) [] [] small_file)))
    × ((idx : ℕ)
        → get_bit idx (reread (clipped small_file) (set_ncd_fields (112 ∷ []) [] [] small_file))
          ≡ get_bit idx small_file)
read_bitfile-save_bit_example =
    read_bitfile-save_bit 0 (112 ∷ []) [] [] small_file small_file-IsSavable

-- A file that ends within its data.
read_bitfile-IsRead_example :
    IsRead (read_bitfile 0 bit_file_init (take 36 (save_bit (112 ∷ []) [] [] small_file).0))
read_bitfile-IsRead_example =
    read_bitfile-IsRead 0 bit_file_init (take 36 (save_bit (112 ∷ []) [] [] small_file).0)
