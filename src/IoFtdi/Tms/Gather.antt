-- ===== src/IoFtdi/Tms/Gather.antt =====
-- The bits that tx_tms gathers into a command (src/devices/xc3sprog/ioftdi.cpp).
use fpga_device_server.Common.{
  ◌≡◌, refl, ap, ◌∙◌, ℕ, zero, suc, ◌+◌, ◌-◌, ◌/◌, ◌%◌, ◌^◌, ◌≤◌, ◌<◌, bit_or, some, Bool, true,
  false, List, [], ◌∷◌, ◌==◌, ==_iff, ltb, if◌then◌else◌, arith, Bool-cases, inl, inr, every_below,
  every_below_at,
}
use mathlib.Core.Path.{ap₂}
use fpga_device_server.IoBase.Bits.{bit, sets_bit_lem, bit_or_byte}
use fpga_device_server.IoFtdi.{gather_tms}
use fpga_device_server.IoFtdi.Mpsse.{tms_clocks}

or_zero_table : every_below 256 (λ x. bit_or x 0 == x) ≡ true
unfolding every_below
or_zero_table = refl

bit_or-zero : (x : ℕ) → x < 256 → bit_or x 0 ≡ x
bit_or-zero x small =
    (==_iff _ _).0 (every_below_at 256 (λ x. bit_or x 0 == x) x or_zero_table small)

abbrev plus_bit : Bool → ℕ → ℕ → ℕ
plus_bit b at acc = bit_or acc (if b then 2 ^ at else 0)

-- One more bit over a byte in which it is clear.
plus_bit_lem :
    (b : Bool) (at acc i : ℕ)
    → acc < 256
    → at < 8
    → i < 8
    → (acc / 2 ^ at % 2 == 1) ≡ false
    → (plus_bit b at acc / 2 ^ i % 2 == 1) ≡ (if i == at then b else (acc / 2 ^ i % 2 == 1))
plus_bit_lem true at acc i small low low' clear =
    sets_bit_lem acc at i small low low' ∙ ground arith
plus_bit_lem false at acc i small low low' clear =
    rw (bit_or-zero acc small) (elim (Bool-cases (i == at)) [
      | inl same ↦ let e : i ≡ at = (==_iff _ _).0 same in rw (same, e) clear
      | inr other ↦ rw other refl
    ])

plus_bit_byte : (b : Bool) (at acc : ℕ) → acc < 256 → at < 8 → plus_bit b at acc < 256
plus_bit_byte true at acc small low = bit_or_byte acc at small low
plus_bit_byte false at acc small low = rw (bit_or-zero acc small) small

-- Which bit a test on its place selects, before and after one more bit is placed.
select_bit :
    (i at n first : ℕ) (x y : Bool) (f : ℕ → Bool)
    → y ≡ (if i == at then f first else x)
    → (if ltb i (at + 1)
        then y
        else if ltb i (at + 1 + n)
        then f (first + 1 + (i - (at + 1)))
        else y)
      ≡ (if ltb i at then x else if ltb i (at + suc n) then f (first + (i - at)) else x)
select_bit i at n first x y f e = elim (Bool-cases (ltb i at)) [
  | inl below ↦
      let below' : ltb i (at + 1) ≡ true = ground arith in
      let apart : (i == at) ≡ false = ground arith in rw (below, below', e, apart) refl
  | inr above ↦ elim (Bool-cases (i == at)) [
    | inl same ↦
        let below' : ltb i (at + 1) ≡ true = ground arith in
        let within : ltb i (at + suc n) ≡ true = ground arith in
        let here : first + (i - at) ≡ first = ground arith in
        rw (above, below', within, here, e, same) refl
    | inr apart ↦
        let above' : ltb i (at + 1) ≡ false = ground arith in
        let ends : at + 1 + n ≡ at + suc n = omega arith in
        let here : first + 1 + (i - (at + 1)) ≡ first + (i - at) = ground arith in
        rw (above, above', ends, here, e, apart) refl
  ]
]

-- Bit `i` of the bits gathered: those from `at` on are those of the pattern.
gather_tms_bits :
    (pat : List ℕ) (n first at acc i : ℕ)
    → acc < 256
    → at + n ≤ 8
    → i < 8
    → ((k : ℕ) → at ≤ k → k < at + n → (acc / 2 ^ k % 2 == 1) ≡ false)
    → (gather_tms pat first at n acc / 2 ^ i % 2 == 1) ≡ (
        if ltb i at
        then (acc / 2 ^ i % 2 == 1)
        else if ltb i (at + n)
        then bit pat (first + (i - at))
        else (acc / 2 ^ i % 2 == 1))
unfolding gather_tms
gather_tms_bits pat zero first at acc i small fits low clear = ground arith
gather_tms_bits pat (suc n) first at acc i small fits low clear =
    let b = bit pat first in
    let acc' = plus_bit b at acc in
    let one =
      plus_bit_lem b at acc i small (omega arith) low (clear at (omega arith) (omega arith)) in
    let ih =
      gather_tms_bits pat n (first + 1) (at + 1) acc' i (plus_bit_byte b at acc small (omega arith))
        (omega arith) low
        (λ k above below.
          let other : (k == at) ≡ false = ground arith in
          plus_bit_lem b at acc k small (omega arith) (omega arith)
            (clear at (omega arith) (omega arith))
          ∙ rw other (clear k (omega arith) (omega arith))) in
    ih ∙ select_bit i at n first (acc / 2 ^ i % 2 == 1) (acc' / 2 ^ i % 2 == 1) (bit pat) one

pub same_tms_clocks :
    (tdi : Bool) (xs ys : List ℕ) (i j n : ℕ)
    → ((k : ℕ) → k < n → bit xs (i + k) ≡ bit ys (j + k))
    → tms_clocks tdi xs i n ≡ tms_clocks tdi ys j n
same_tms_clocks tdi xs ys i j zero h = refl
same_tms_clocks tdi xs ys i j (suc n) h =
    let e : i + 0 ≡ i = omega arith in
    let e' : j + 0 ≡ j = omega arith in
    let first : bit xs i ≡ bit ys j = rw (e, e') at (h 0 (omega arith)) in
    ap₂ ◌∷◌ (ap (λ b. (b, some tdi)) first) (
      same_tms_clocks tdi xs ys (i + 1) (j + 1) n (λ k lt.
        let up : i + 1 + k ≡ i + suc k = omega arith in
        let up' : j + 1 + k ≡ j + suc k = omega arith in rw (up, up') (h (suc k) (omega arith))))

-- The byte of a command holds up to six bits of the pattern, under a TDI that is high.
abbrev pub tms_byte : List ℕ → ℕ → ℕ → ℕ
tms_byte pat j n = gather_tms pat j 0 n 0x80

top_table : every_below 7 (λ k. 0x80 / 2 ^ k % 2 == 0) ≡ true
unfolding every_below
top_table = refl

top_clear : (k : ℕ) → k < 7 → (0x80 / 2 ^ k % 2 == 1) ≡ false
top_clear k low =
    let e : 0x80 / 2 ^ k % 2 ≡ 0 =
      (==_iff _ _).0 (every_below_at 7 (λ k. 0x80 / 2 ^ k % 2 == 0) k top_table low) in
    rw e refl

pub bit-tms_byte :
    (pat : List ℕ) (j n k : ℕ) → n ≤ 7 → k < n → bit (tms_byte pat j n ∷ []) k ≡ bit pat (j + k)
bit-tms_byte pat j n k few low =
    let e : k / 8 ≡ 0 = omega arith in
    let e' : k % 8 ≡ k = omega arith in
    let never : ltb k 0 ≡ false = ground arith in
    let within : ltb k (0 + n) ≡ true = ground arith in
    let here : k - 0 ≡ k = omega arith in
    rw (e, e')
      (rw (never, within, here) at
        (gather_tms_bits pat n j 0 0x80 k (omega arith) (omega arith) (omega arith)
          (λ i _ lt. top_clear i (omega arith))))

pub tms_byte_tdi : (pat : List ℕ) (j n : ℕ) → n ≤ 7 → bit (tms_byte pat j n ∷ []) 7 ≡ true
tms_byte_tdi pat j n few =
    let beyond : ltb 7 (0 + n) ≡ false = ground arith in
    rw beyond at (
      gather_tms_bits pat n j 0 0x80 7 (omega arith) (omega arith) (omega arith)
        (λ i _ lt. top_clear i (omega arith)))
