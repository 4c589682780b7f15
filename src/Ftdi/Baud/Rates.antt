-- ===== src/Ftdi/Baud/Rates.antt =====
-- The rates that the code reports (ftdi_to_clkbits in src/libftdi/ftdi.c), and those of the chip.
use fpga_device_server.Common.{
  ◌≡◌, refl, sym, ap, ◌∙◌, ℕ, zero, suc, ◌+◌, ◌*◌, ◌/◌, ◌^◌, ◌≤◌, ◌<◌, false, ◌⊎◌, inl, inr, ◌==◌,
  ltb, leb, if◌then◌else◌, Bool-cases, arith,
}
use native.Mathlib.Nat.{le-div_iff_mul-le, div-lt_iff_lt-mul}
use fpga_device_server.Ftdi.Baud.{
  encode_divisor, round_half, fractional_divisor, to_clkbits, h_clk, c_clk,
}
use fpga_device_server.Ftdi.Baud.Divisors.{
  decode_divisor, decode_divisor-encode_divisor, encode_divisor-below, frac_code-below,
}

-- The divisor of the chip, in eighths: 0 stands for 1 and 1 for 1.5.
unfoldable pub eighths : ℕ → ℕ
eighths e = if e == 0 then 8 else if e == 1 then 12 else decode_divisor e

-- The rate of the chip, to the nearest integer.
unfoldable pub chip_rate : ℕ → ℕ → ℕ → ℕ
chip_rate clk clk_div e = round_half (clk * 16 / clk_div / eighths e)

-- The two settings of the clock.
pub data Clock : ℕ → ℕ → Type 0 where
  fast : Clock h_clk 10
  slow : Clock c_clk 16

pub eighths_lem : (e : ℕ) → 16 ≤ decode_divisor e → eighths e ≡ decode_divisor e
unfolding decode_divisor eighths
eighths_lem zero h = absurd (omega arith)
eighths_lem (suc zero) h = absurd (omega arith)
eighths_lem (suc (suc e)) h =
    let not_0 : (suc (suc e) == 0) ≡ false = ground arith in
    let not_1 : (suc (suc e) == 1) ≡ false = ground arith in rw (not_0, not_1) refl

-- No rate gives a quotient that rounds to 2^17.
quotient_gap :
    (base b edge : ℕ)
    → 0 < b
    → 262145 * edge ≤ base
    → base < 262143 * (edge + 1)
    → (base / b < 262143) ⊎ (262145 ≤ base / b)
quotient_gap base b edge positive above below = elim (Bool-cases (leb b edge)) [
  | inl h ↦ inr ((le-div_iff_mul-le positive).1 (ground arith))
  | inr h ↦ inl ((div-lt_iff_lt-mul positive).1 (ground arith))
]

abbrev clamped : ℕ → ℕ
clamped q = if ltb 0x20000 (round_half q) then 0x1ffff else round_half q

clamped_small : (q : ℕ) → (q < 262143) ⊎ (262145 ≤ q) → clamped q < 2 ^ 17
clamped_small q (inl h) = ground arith
clamped_small q (inr h) = ground arith

clamped_large : (q : ℕ) → 32 ≤ q → 16 ≤ clamped q
clamped_large q h = ground arith

to_clkbits_parts :
    (b clk clk_div : ℕ)
    → clk / clk_div ≡ chip_rate clk clk_div 0
    → clk / (clk_div + clk_div / 2) ≡ chip_rate clk clk_div 1
    → clk / (2 * clk_div) ≡ chip_rate clk clk_div 2
    → fractional_divisor b clk clk_div < 2 ^ 17
    → (b < clk / (2 * clk_div) → 16 ≤ fractional_divisor b clk clk_div)
    → (to_clkbits b clk clk_div).0 ≡ chip_rate clk clk_div (to_clkbits b clk clk_div).1
unfolding to_clkbits chip_rate
to_clkbits_parts b clk clk_div one one_half two small large =
    elim (Bool-cases (leb (clk / clk_div) b)) [
      | inl h ↦ rw h one
      | inr h ↦ elim (Bool-cases (leb (clk / (clk_div + clk_div / 2)) b)) [
        | inl h' ↦ rw (h, h') one_half
        | inr h' ↦ elim (Bool-cases (leb (clk / (2 * clk_div)) b)) [
          | inl h'' ↦ rw (h, h', h'') two
          | inr h'' ↦
              let best = fractional_divisor b clk clk_div in
              let back = decode_divisor-encode_divisor best small in
              let wide : 16 ≤ decode_divisor (encode_divisor best) =
                rw back (large (ground arith)) in
              rw (h, h', h'')
                (ap (λ d. round_half (clk * 16 / clk_div / d))
                  (sym (eighths_lem (encode_divisor best) wide ∙ back)))
        ]
      ]
    ]

-- The divisor fits its 17 bits.
fractional_divisor-below :
    {clk clk_div : ℕ}
    → Clock clk clk_div
    → (b : ℕ) → 0 < b
    → fractional_divisor b clk clk_div < 2 ^ 17
fractional_divisor-below fast b positive =
    clamped_small (192000000 / b)
      (quotient_gap 192000000 b 732 positive (omega arith) (omega arith))
fractional_divisor-below slow b positive =
    clamped_small (48000000 / b) (quotient_gap 48000000 b 183 positive (omega arith) (omega arith))

pub to_clkbits-below :
    {clk clk_div : ℕ} → Clock clk clk_div → (b : ℕ) → 0 < b → (to_clkbits b clk clk_div).1 < 2 ^ 17
unfolding to_clkbits
to_clkbits-below {clk} {clk_div} clock b positive =
    let best = fractional_divisor b clk clk_div in
    let below : encode_divisor best < 2 ^ 17 =
      encode_divisor-below best 8 (fractional_divisor-below clock b positive)
        (frac_code-below best) in
    elim (Bool-cases (leb (clk / clk_div) b)) [
      | inl h ↦ rw h (omega arith)
      | inr h ↦ elim (Bool-cases (leb (clk / (clk_div + clk_div / 2)) b)) [
        | inl h' ↦ rw (h, h') (omega arith)
        | inr h' ↦ elim (Bool-cases (leb (clk / (2 * clk_div)) b)) [
          | inl h'' ↦ rw (h, h', h'') (omega arith)
          | inr h'' ↦ rw (h, h', h'') below
        ]
      ]
    ]

-- For both clocks and every rate that is asked for, the rate that ftdi_to_clkbits returns is the rate
-- at which the chip runs with the divisor that it encodes.
pub to_clkbits-chip_rate :
    {clk clk_div : ℕ}
    → Clock clk clk_div
    → (b : ℕ) → 0 < b
    → (to_clkbits b clk clk_div).0 ≡ chip_rate clk clk_div (to_clkbits b clk clk_div).1
unfolding chip_rate eighths decode_divisor
to_clkbits-chip_rate fast b positive =
    to_clkbits_parts b h_clk 10 refl refl refl
      (clamped_small (192000000 / b)
        (quotient_gap 192000000 b 732 positive (omega arith) (omega arith)))
      (λ low. clamped_large (192000000 / b) ((le-div_iff_mul-le positive).1 (omega arith)))
to_clkbits-chip_rate slow b positive =
    to_clkbits_parts b c_clk 16 refl refl refl
      (clamped_small (48000000 / b)
        (quotient_gap 48000000 b 183 positive (omega arith) (omega arith)))
      (λ low. clamped_large (48000000 / b) ((le-div_iff_mul-le positive).1 (omega arith)))
