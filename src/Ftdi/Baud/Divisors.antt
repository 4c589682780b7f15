-- ===== src/Ftdi/Baud/Divisors.antt =====
-- The encoding of divisors (src/libftdi/ftdi.c), read back the way the chip reads it.
use fpga_device_server.Common.{
  ◌≡◌, refl, ℕ, ◌+◌, ◌*◌, ◌/◌, ◌%◌, ◌^◌, ◌<◌, bit_or, Bool, true, [], ◌∷◌, ◌==◌, ltb, subst, ==_iff,
  get_or, every_below, every_below_at, arith, ltb→lt,
}
use fpga_device_server.Ftdi.Baud.{frac_code, encode_divisor}

abbrev joins : ℕ → ℕ → ℕ → Bool
joins h l f = bit_or (h * 128 + l) (frac_code f * 2 ^ 14) == h * 128 + l + frac_code f * 2 ^ 14

join_table : every_below 128 (λ h. every_below 128 (λ l. every_below 8 (λ f. joins h l f))) ≡ true
unfolding every_below
join_table = refl

frac_table : every_below 8 (λ f. ltb (frac_code f) 8) ≡ true
unfolding every_below
frac_table = refl

abbrev frac_code_inverse : ℕ → ℕ
frac_code_inverse n = get_or (0 ∷ 4 ∷ 2 ∷ 1 ∷ 3 ∷ 5 ∷ 6 ∷ 7 ∷ []) n 0

inverse_table : every_below 8 (λ f. frac_code_inverse (frac_code f) == f) ≡ true
unfolding every_below
inverse_table = refl

-- The divisor in eighths that the lower 17 bits stand for.
unfoldable pub decode_divisor : ℕ → ℕ
decode_divisor e = e % 2 ^ 14 * 8 + frac_code_inverse (e / 2 ^ 14 % 8)

encode_divisor_sum : (d : ℕ) → d < 2 ^ 17 → encode_divisor d ≡ d / 8 + frac_code (d % 8) * 2 ^ 14
unfolding encode_divisor
encode_divisor_sum d small =
    let joined : bit_or (d / 8 / 128 * 128 + d / 8 % 128) (frac_code (d % 8) * 2 ^ 14)
        ≡ d / 8 / 128 * 128 + d / 8 % 128 + frac_code (d % 8) * 2 ^ 14 =
      (==_iff _ _).0 (
        every_below_at 8 (λ f. joins (d / 8 / 128) (d / 8 % 128) f) (d % 8)
          (every_below_at 128 (λ l. every_below 8 (λ f. joins (d / 8 / 128) l f)) (d / 8 % 128)
            (every_below_at 128 (λ h. every_below 128 (λ l. every_below 8 (λ f. joins h l f)))
              (d / 8 / 128) join_table (omega arith))
            (omega arith))
          (omega arith)) in
    let parts : d / 8 / 128 * 128 + d / 8 % 128 ≡ d / 8 = omega arith in
    subst (λ n. bit_or n (frac_code (d % 8) * 2 ^ 14) ≡ n + frac_code (d % 8) * 2 ^ 14) parts joined

pub encode_divisor-below :
    (d bound : ℕ) → d < 2 ^ 17 → frac_code (d % 8) < bound → encode_divisor d < bound * 2 ^ 14
encode_divisor-below d bound small frac = rw (encode_divisor_sum d small) (omega arith)

pub frac_code-below : (n : ℕ) → frac_code (n % 8) < 8
frac_code-below n =
    ltb→lt _ _ (every_below_at 8 (λ f. ltb (frac_code f) 8) (n % 8) frac_table (omega arith))

-- A divisor below 2^17 is read back from its encoding.
pub decode_divisor-encode_divisor : (d : ℕ) → d < 2 ^ 17 → decode_divisor (encode_divisor d) ≡ d
unfolding decode_divisor
decode_divisor-encode_divisor d small =
    let f = frac_code (d % 8) in
    let f_small : ltb f 8 ≡ true =
      every_below_at 8 (λ f. ltb (frac_code f) 8) (d % 8) frac_table (omega arith) in
    let back : frac_code_inverse f ≡ d % 8 = (==_iff _ _).0 (
      every_below_at 8 (λ f. frac_code_inverse (frac_code f) == f) (d % 8) inverse_table
        (omega arith)) in
    let low : (d / 8 + f * 2 ^ 14) % 2 ^ 14 ≡ d / 8 = ground arith in
    let high : (d / 8 + f * 2 ^ 14) / 2 ^ 14 % 8 ≡ f = ground arith in
    rw (encode_divisor_sum d small, low, high, back) (omega arith)
