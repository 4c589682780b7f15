-- ===== src/Protocol/Tests.antt =====
-- Runs of the register protocol.
use fpga_device_server.Common.{◌≡◌, refl, some, [], ◌∷◌, ◌++◌, arith}
use fpga_device_server.Protocol.{write_reg, write_reg_n, encode, cmd_word}
use fpga_device_server.Protocol.Decode.{decode, decode-encode}

write_reg_bytes : encode (write_reg 5 3 0x1234) ≡ 0x21 ∷ 0x43 ∷ 0x12 ∷ 0x34 ∷ []
unfolding encode cmd_word
write_reg_bytes = refl

decode-encode_example :
    decode (encode (write_reg_n 5 3 (7 ∷ 8 ∷ [])) ++ 9 ∷ [])
    ≡ some (write_reg_n 5 3 (7 ∷ 8 ∷ []), 9 ∷ [])
decode-encode_example =
    decode-encode (write_reg_n 5 3 (7 ∷ 8 ∷ [])) (9 ∷ [])
      (omega arith, omega arith, omega arith, (omega arith, (omega arith, tt)))
