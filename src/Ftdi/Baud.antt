-- ===== src/Ftdi/Baud.antt =====
-- Baud rates (ftdi_to_clkbits_AM, ftdi_to_clkbits, ftdi_convert_baudrate and ftdi_set_baudrate in
-- src/libftdi/ftdi.c). The products of the rate that is asked for are ints, and wrap.
pub mod Divisors
pub mod Rates
pub mod Chips
pub mod Tolerance
use fpga_device_server.Common.{
  ℕ, zero, suc, ◌+◌, ◌-◌, ◌*◌, ◌/◌, ◌%◌, ◌^◌, bit_or, Bool, true, false, not, ◌||◌, Option, none,
  some, [], ◌∷◌, ◌==◌, ltb, leb, if◌then◌else◌, get_or,
}
use fpga_device_server.Common.Int.{ℤ, pos, negsuc, ltb_ℤ, int_of}
use fpga_device_server.Ftdi.{
  Context, Chip, ChipType, type_bm, type_2232c, type_r, type_2232h, type_4232h, type_232h,
  type_230x, minus, out_request,
}

abbrev pub frac_code : ℕ → ℕ
frac_code n = get_or (0 ∷ 3 ∷ 2 ∷ 4 ∷ 1 ∷ 5 ∷ 6 ∷ 7 ∷ []) n 0

abbrev pub am_adjust_up : ℕ → ℕ
am_adjust_up n = get_or (0 ∷ 0 ∷ 0 ∷ 1 ∷ 0 ∷ 3 ∷ 2 ∷ 1 ∷ []) n 0

abbrev pub am_adjust_dn : ℕ → ℕ
am_adjust_dn n = get_or (0 ∷ 0 ∷ 0 ∷ 1 ∷ 0 ∷ 1 ∷ 2 ∷ 3 ∷ []) n 0

-- A divisor in eighths, as the chip takes it.
unfoldable pub encode_divisor : ℕ → ℕ
encode_divisor d = bit_or (d / 8) (frac_code (d % 8) * 2 ^ 14)

-- The divisor that is tried in round `i`, and the rate it gives.
unfoldable pub am_divisor : ℕ → ℕ → ℕ
am_divisor divisor i =
    let try = divisor + i in
    let up = try + am_adjust_up (try % 8) in
    if leb try 8 then 8 else if ltb divisor 16 then 16 else if ltb 0x1fff8 up then 0x1fff8 else up

unfoldable pub am_estimate : ℕ → ℕ
am_estimate d = (24000000 + d / 2) / d

abbrev pub baud_diff : ℕ → ℕ → ℕ
baud_diff estimate baudrate =
    if ltb estimate baudrate then baudrate - estimate else estimate - baudrate

-- ftdi_to_clkbits_AM: the rate, and the encoded divisor.
unfoldable pub to_clkbits_am : ℕ → ℕ × ℕ
to_clkbits_am baudrate =
    let divisor = 24000000 / baudrate - am_adjust_dn (24000000 / baudrate % 8) in
    let first = am_divisor divisor 0 in
    let second = am_divisor divisor 1 in
    let diff0 = baud_diff (am_estimate first) baudrate in
    let diff1 = baud_diff (am_estimate second) baudrate in
    let best = if diff0 == 0 then first else if ltb diff1 diff0 then second else first in
    let encoded = encode_divisor best in
    (am_estimate best, if encoded == 1 then 0 else if encoded == 0x4001 then 1 else encoded)

-- Half a number, rounded up.
abbrev pub round_half : ℕ → ℕ
round_half n = if n % 2 == 1 then n / 2 + 1 else n / 2

abbrev pub fractional_divisor : ℕ → ℕ → ℕ → ℕ
fractional_divisor baudrate clk clk_div =
    let best = round_half (clk * 16 / clk_div / baudrate) in
    if ltb 0x20000 best then 0x1ffff else best

-- ftdi_to_clkbits
unfoldable pub to_clkbits : ℕ → ℕ → ℕ → ℕ × ℕ
to_clkbits baudrate clk clk_div =
    let best = fractional_divisor baudrate clk clk_div in
    if leb (clk / clk_div) baudrate
    then (clk / clk_div, 0)
    else if leb (clk / (clk_div + clk_div / 2)) baudrate
    then (clk / (clk_div + clk_div / 2), 1)
    else if leb (clk / (2 * clk_div)) baudrate
    then (clk / (2 * clk_div), 2)
    else (round_half (clk * 16 / clk_div / best), encode_divisor best)

abbrev pub h_clk : ℕ
h_clk = 120000000

abbrev pub c_clk : ℕ
c_clk = 48000000

-- The chips with a clock of 120 MHz, and those with no clock choice and the full set of fractions.
abbrev pub is_h_type : ChipType → Bool
is_h_type type_2232h = true
is_h_type type_4232h = true
is_h_type type_232h = true
is_h_type type_230x = true
is_h_type t = false

abbrev pub is_b_type : ChipType → Bool
is_b_type type_bm = true
is_b_type type_2232c = true
is_b_type type_r = true
is_b_type t = false

abbrev pub convert_positive : ℕ → Context → ℕ × ℕ × ℕ
convert_positive baudrate c =
    let (h_baud, h_encoded) = to_clkbits baudrate h_clk 10 in
    let (best_baud, encoded) : ℕ × ℕ =
      if is_h_type c.chip
      then (if ltb_ℤ (pos (h_clk / 0x3fff)) (int_of (baudrate * 10))
          then (h_baud, bit_or h_encoded 0x20000)
          else to_clkbits baudrate c_clk 16)
      else if is_b_type c.chip
      then to_clkbits baudrate c_clk 16
      else to_clkbits_am baudrate in
    (
      best_baud,
      encoded % 2 ^ 16,
      if is_h_type c.chip
          then bit_or (encoded / 2 ^ 8 % 2 ^ 16 / 2 ^ 8 * 2 ^ 8) c.index
          else encoded / 2 ^ 16 % 2 ^ 16,
    )

-- ftdi_convert_baudrate: the rate, and the value and index of the request. `none` is -1.
unfoldable pub convert_baudrate : ℤ → Context → Option (ℕ × ℕ × ℕ)
convert_baudrate (negsuc n) c = none
convert_baudrate (pos zero) c = none
convert_baudrate (pos (suc n)) c = some (convert_positive (suc n) c)

-- baudrate * 4, as an int of 32 bits: negsuc n is -(n + 1), so that four times it is -(4 * n + 4).
abbrev pub times4 : ℤ → ℤ
times4 (pos n) = int_of (n * 4)
times4 (negsuc n) = int_of (2 ^ 32 - (n * 4 + 4) % 2 ^ 32)

abbrev pub magnitude : ℤ → ℕ
magnitude (pos n) = n
magnitude (negsuc n) = 0

-- ftdi_set_baudrate
unfoldable pub set_baudrate : ℤ → Chip → ℤ × Chip
set_baudrate rate (c, u) =
    let wanted = if c.bitbang_enabled then times4 rate else rate in
    let baudrate = magnitude wanted in
    let done : ℤ × Chip = elim (convert_baudrate wanted c) [
      | none ↦ (minus 1, (c, u))
      | some (actual, value, index) ↦
          let unsupported =
            ltb (actual * 2) baudrate
            || (if ltb actual baudrate
                then ltb (actual * 21) (baudrate * 20)
                else ltb (baudrate * 21) (actual * 20)) in
          if actual == 0 || unsupported
          then (minus 1, (c, u))
          else out_request 3 2 0x03 value index (λ c. record c { baudrate = wanted }) (c, u)
    ] in
    if not c.is_open then (minus 3, (c, u)) else done
