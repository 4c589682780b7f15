-- ===== src/Ftdi/Baud/Chips.antt =====
-- The rates at which the chips run once they have got the request of ftdi_set_baudrate
-- (src/libftdi/ftdi.c), read off its value and index as AN120 and AN232B say.
use fpga_device_server.Common.{
  ◌≡◌, refl, sym, ◌∙◌, subst, ℕ, ◌+◌, ◌-◌, ◌*◌, ◌/◌, ◌%◌, ◌^◌, ◌≤◌, ◌<◌, bit_or, Bool, true, false,
  ◌⊎◌, inl, inr, ◌==◌, ==_iff, ltb, ltb→lt, leb, if◌then◌else◌, Bool-cases, every_below,
  every_below_at, arith,
}
use fpga_device_server.Common.Int.{pos, ltb_ℤ, int_of}
use fpga_device_server.Ftdi.{
  Context, ChipType, type_am, type_bm, type_2232c, type_r, type_2232h, type_4232h, type_232h,
  type_230x,
}
use fpga_device_server.Ftdi.Baud.{
  am_adjust_up, am_adjust_dn, am_divisor, am_estimate, baud_diff, convert_positive, encode_divisor,
  frac_code, to_clkbits, to_clkbits_am, h_clk, c_clk,
}
use fpga_device_server.Ftdi.Baud.Divisors.{
  decode_divisor, decode_divisor-encode_divisor, encode_divisor-below,
}
use fpga_device_server.Ftdi.Baud.Rates.{
  eighths, eighths_lem, chip_rate, Clock, to_clkbits-chip_rate, to_clkbits-below,
}

-- Bit 8 of the index is the highest bit of the divisor, and bit 9 chooses the clock of 120 MHz.
abbrev h_rate : ℕ → ℕ → ℕ
h_rate value windex =
    let e = value + windex / 2 ^ 8 % 2 * 2 ^ 16 in
    if windex / 2 ^ 9 % 2 == 1 then chip_rate h_clk 10 e else chip_rate c_clk 16 e

-- Bit 0 of the index is the highest bit of the divisor.
abbrev b_rate : ℕ → ℕ → ℕ
b_rate value windex = chip_rate c_clk 16 (value + windex % 2 * 2 ^ 16)

-- The index is not read. The rate is to the nearest integer.
abbrev a_rate : ℕ → ℕ
a_rate value = (24000000 + eighths value / 2) / eighths value

abbrev pub runs_at : ChipType → ℕ → ℕ → ℕ
runs_at type_am value windex = a_rate value
runs_at type_bm value windex = b_rate value windex
runs_at type_2232c value windex = b_rate value windex
runs_at type_r value windex = b_rate value windex
runs_at type_2232h value windex = h_rate value windex
runs_at type_4232h value windex = h_rate value windex
runs_at type_232h value windex = h_rate value windex
runs_at type_230x value windex = h_rate value windex

abbrev with_clock : ℕ → ℕ → Bool
with_clock h l = bit_or (h * 256 + l) 0x20000 == h * 256 + l + 0x20000

clock_table : every_below 512 (λ h. every_below 256 (λ l. with_clock h l)) ≡ true
unfolding every_below
clock_table = refl

-- The bit for the clock lies above the divisor.
bit_or-clock : (e : ℕ) → e < 2 ^ 17 → bit_or e 0x20000 ≡ e + 0x20000
bit_or-clock e small =
    let parts : e / 256 * 256 + e % 256 ≡ e = omega arith in
    subst (λ n. bit_or n 0x20000 ≡ n + 0x20000) parts
      ((==_iff _ _).0 (
        every_below_at 256 (λ l. with_clock (e / 256) l) (e % 256)
          (every_below_at 512 (λ h. every_below 256 (λ l. with_clock h l)) (e / 256) clock_table
            (omega arith))
          (omega arith)))

index_table : every_below 4 (λ x. every_below 256 (λ i. bit_or (x * 256) i == x * 256 + i)) ≡ true
unfolding every_below
index_table = refl

bit_or-index : (x i : ℕ) → x < 4 → i < 256 → bit_or (x * 256) i ≡ x * 256 + i
bit_or-index x i hx hi = (==_iff _ _).0 (
    every_below_at 256 (λ i. bit_or (x * 256) i == x * 256 + i) i
      (every_below_at 4 (λ x. every_below 256 (λ i. bit_or (x * 256) i == x * 256 + i)) x
        index_table hx)
      hi)

-- The index of a chip with a choice of the clock.
h_index :
    (encoded i : ℕ)
    → encoded < 2 ^ 18
    → i < 256
    → bit_or (encoded / 2 ^ 8 % 2 ^ 16 / 2 ^ 8 * 2 ^ 8) i ≡ encoded / 2 ^ 16 * 256 + i
h_index encoded i small low =
    let x : encoded / 2 ^ 8 % 2 ^ 16 / 2 ^ 8 ≡ encoded / 2 ^ 16 = omega arith in
    rw x (bit_or-index (encoded / 2 ^ 16) i (omega arith) low)

h_fast :
    (e i : ℕ)
    → e < 2 ^ 17
    → i < 256
    → chip_rate h_clk 10 e
      ≡ h_rate
          (bit_or e 0x20000 % 2 ^ 16)
          (bit_or (bit_or e 0x20000 / 2 ^ 8 % 2 ^ 16 / 2 ^ 8 * 2 ^ 8) i)
h_fast e i small low =
    let encoded : ℕ = e + 0x20000 in
    let w = h_index encoded i (omega arith) low in
    let whole : encoded % 2 ^ 16 + (encoded / 2 ^ 16 * 256 + i) / 2 ^ 8 % 2 * 2 ^ 16 ≡ e =
      omega arith in
    let set : ((encoded / 2 ^ 16 * 256 + i) / 2 ^ 9 % 2 == 1) ≡ true = ground arith in
    rw (bit_or-clock e small, w, whole, set) refl

h_slow :
    (e i : ℕ)
    → e < 2 ^ 17
    → i < 256
    → chip_rate c_clk 16 e ≡ h_rate (e % 2 ^ 16) (bit_or (e / 2 ^ 8 % 2 ^ 16 / 2 ^ 8 * 2 ^ 8) i)
h_slow e i small low =
    let w = h_index e i (omega arith) low in
    let whole : e % 2 ^ 16 + (e / 2 ^ 16 * 256 + i) / 2 ^ 8 % 2 * 2 ^ 16 ≡ e = omega arith in
    let clear : ((e / 2 ^ 16 * 256 + i) / 2 ^ 9 % 2 == 1) ≡ false = ground arith in
    rw (w, whole, clear) refl

b_same : (e : ℕ) → e < 2 ^ 17 → chip_rate c_clk 16 e ≡ b_rate (e % 2 ^ 16) (e / 2 ^ 16 % 2 ^ 16)
b_same e small =
    let whole : e % 2 ^ 16 + e / 2 ^ 16 % 2 ^ 16 % 2 * 2 ^ 16 ≡ e = omega arith in rw whole refl

-- The divisors of the oldest chips: at least two, or one, in steps that they have.
abbrev IsAmDivisor : ℕ → Type 0
IsAmDivisor d = (d < 2 ^ 17) × ((d ≡ 8) ⊎ (16 ≤ d)) × (frac_code (d % 8) < 4)

step_table : every_below 8 (λ r. ltb (frac_code ((r + am_adjust_up r) % 8)) 4) ≡ true
unfolding every_below
step_table = refl

am_divisor-IsAmDivisor : (divisor i : ℕ) → IsAmDivisor (am_divisor divisor i)
unfolding am_divisor
am_divisor-IsAmDivisor divisor i =
    let try = divisor + i in
    let adjust = am_adjust_up (try % 8) in
    let step : frac_code ((try % 8 + adjust) % 8) < 4 = ltb→lt _ _ (
      every_below_at 8 (λ r. ltb (frac_code ((r + am_adjust_up r) % 8)) 4) (try % 8) step_table
        (omega arith)) in
    let same : (try + adjust) % 8 ≡ (try % 8 + adjust) % 8 = omega arith in
    elim (Bool-cases (leb try 8)) [
      | inl one ↦ rw one (omega arith, inl refl, omega arith)
      | inr more ↦ elim (Bool-cases (ltb divisor 16)) [
        | inl two ↦ rw (more, two) (omega arith, inr (omega arith), omega arith)
        | inr large ↦ elim (Bool-cases (ltb 0x1fff8 (try + adjust))) [
          | inl over ↦ rw (more, large, over) (omega arith, inr (omega arith), omega arith)
          | inr fits ↦
              rw (more, large, fits)
                (ground arith, inr (ground arith), subst (λ k. frac_code k < 4) (sym same) step)
        ]
      ]
    ]

abbrev am_code : ℕ → ℕ
am_code encoded = if encoded == 1 then 0 else if encoded == 0x4001 then 1 else encoded

am_first : (24000000 + 8 / 2) / 8 ≡ a_rate (am_code (encode_divisor 8) % 2 ^ 16)
unfolding encode_divisor eighths
am_first = refl

am_same : (d : ℕ) → IsAmDivisor d → (am_estimate d ≡ a_rate (am_code (encode_divisor d) % 2 ^ 16))
unfolding am_estimate
am_same d (small, shape, step) = elim shape [
  | inl one ↦ rw one am_first
  | inr wide ↦
      let back = decode_divisor-encode_divisor d small in
      let e : ℕ = encode_divisor d in
      let wide' : 16 ≤ decode_divisor e = rw back wide in
      let not_1 = not_small e 1 wide' (unfold decode_divisor in omega arith) in
      let not_2 = not_small e 0x4001 wide' (unfold decode_divisor in omega arith) in
      let low : encode_divisor d % 2 ^ 16 ≡ encode_divisor d =
        let below = encode_divisor-below d 4 small step in omega arith in
      let divisor : eighths (encode_divisor d) ≡ d = eighths_lem e wide' ∙ back in
      rw (not_1, not_2, low, divisor) refl
]
  where
    not_small : (e k : ℕ) → 16 ≤ decode_divisor e → decode_divisor k < 16 → (e == k) ≡ false
    not_small e k wide small = elim (Bool-cases (e == k)) [
      | inr other ↦ other
      | inl same ↦
          let e_is : e ≡ k = (==_iff _ _).0 same in
          let wide' : 16 ≤ decode_divisor k = rw (← e_is) wide in absurd (omega arith)
    ]

am_runs : (b : ℕ) → (to_clkbits_am b).0 ≡ a_rate ((to_clkbits_am b).1 % 2 ^ 16)
unfolding to_clkbits_am
am_runs b =
    let divisor = 24000000 / b - am_adjust_dn (24000000 / b % 8) in
    let d0 = am_divisor divisor 0 in
    let d1 = am_divisor divisor 1 in
    let both0 = am_same d0 (am_divisor-IsAmDivisor divisor 0) in
    let both1 = am_same d1 (am_divisor-IsAmDivisor divisor 1) in
    let diff0 = baud_diff (am_estimate d0) b in
    let diff1 = baud_diff (am_estimate d1) b in
    elim (Bool-cases (diff0 == 0)) [
      | inl exact ↦ rw exact both0
      | inr off ↦ elim (Bool-cases (ltb diff1 diff0)) [
        | inl closer ↦ rw (off, closer) both1
        | inr further ↦ rw (off, further) both0
      ]
    ]

h_runs :
    (b : ℕ) (c : Context) (fast : Bool)
    → 0 < b
    → c.index < 256
    → let (h_baud, h_encoded) = to_clkbits b h_clk 10 in
      let (best, encoded) : ℕ × ℕ =
        if fast then (h_baud, bit_or h_encoded 0x20000) else to_clkbits b c_clk 16 in
      best ≡ h_rate (encoded % 2 ^ 16) (bit_or (encoded / 2 ^ 8 % 2 ^ 16 / 2 ^ 8 * 2 ^ 8) c.index)
h_runs b c true positive low =
    to_clkbits-chip_rate Clock.fast b positive
    ∙ h_fast (to_clkbits b h_clk 10).1 c.index (to_clkbits-below Clock.fast b positive) low
h_runs b c false positive low =
    to_clkbits-chip_rate Clock.slow b positive
    ∙ h_slow (to_clkbits b c_clk 16).1 c.index (to_clkbits-below Clock.slow b positive) low

b_runs :
    (b : ℕ)
    → 0 < b
    → let (best, encoded) = to_clkbits b c_clk 16 in
      best ≡ b_rate (encoded % 2 ^ 16) (encoded / 2 ^ 16 % 2 ^ 16)
b_runs b positive =
    to_clkbits-chip_rate Clock.slow b positive
    ∙ b_same (to_clkbits b c_clk 16).1 (to_clkbits-below Clock.slow b positive)

-- The rate that ftdi_convert_baudrate returns is the one at which the chip runs with the value and index.
pub convert_positive-runs_at :
    (b : ℕ) (c : Context) (t : ChipType)
    → c.chip ≡ t
    → 0 < b
    → c.index < 256
    → let (actual, value, windex) = convert_positive b c in actual ≡ runs_at t value windex
convert_positive-runs_at b c type_am e positive low = rw e (am_runs b)
convert_positive-runs_at b c type_bm e positive low = rw e (b_runs b positive)
convert_positive-runs_at b c type_2232c e positive low = rw e (b_runs b positive)
convert_positive-runs_at b c type_r e positive low = rw e (b_runs b positive)
convert_positive-runs_at b c type_2232h e positive low =
    rw e (h_runs b c (ltb_ℤ (pos (h_clk / 0x3fff)) (int_of (b * 10))) positive low)
convert_positive-runs_at b c type_4232h e positive low =
    rw e (h_runs b c (ltb_ℤ (pos (h_clk / 0x3fff)) (int_of (b * 10))) positive low)
convert_positive-runs_at b c type_232h e positive low =
    rw e (h_runs b c (ltb_ℤ (pos (h_clk / 0x3fff)) (int_of (b * 10))) positive low)
convert_positive-runs_at b c type_230x e positive low =
    rw e (h_runs b c (ltb_ℤ (pos (h_clk / 0x3fff)) (int_of (b * 10))) positive low)
