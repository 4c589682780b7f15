-- ===== src/Ftdi/Baud/Tolerance.antt =====
-- What ftdi_set_baudrate accepts (src/libftdi/ftdi.c).
use fpga_device_server.Common.{
  ◌≡◌, refl, sym, ap, ◌∙◌, ℕ, zero, suc, ◌*◌, ◌<◌, ◌≤◌, Bool, false, not, ◌||◌, ◌⊎◌, inl, inr,
  Option, none, some, [], ◌∷◌, ◌++◌, ◌==◌, ltb, if◌then◌else◌, Bool-cases, arith,
}
use fpga_device_server.Common.Int.{ℤ, pos, negsuc}
use fpga_device_server.Ftdi.{Context, Usb, Chip, minus, next_or, out_request, control_transfer}
use fpga_device_server.Ftdi.Baud.{
  convert_baudrate, convert_positive, times4, magnitude, set_baudrate,
}
use fpga_device_server.Ftdi.Baud.Chips.{runs_at, convert_positive-runs_at}

-- The rate that is set, which is four times as high, as an int, for bitbang.
abbrev pub wanted_rate : ℤ → Context → ℤ
wanted_rate rate c = if c.bitbang_enabled then times4 rate else rate

abbrev pub Refused : Context → ℤ × Chip → Type 0
Refused c (r, (c', u')) = (code : ℕ) × (r ≡ minus (suc code)) × (c' ≡ c)

-- The request has been made for a rate of the chip at most one part in twenty away.
abbrev pub Accepted : ℤ → Chip → ℤ × Chip → Type 0
Accepted rate (c, u) (r, (c', u')) =
    (value : ℕ) × (windex : ℕ) × (magnitude (wanted_rate rate c) * 20
      ≤ runs_at c.chip value windex * 21)
    × (runs_at c.chip value windex * 20 ≤ magnitude (wanted_rate rate c) * 21)
    × (r ≡ pos 0)
    × (c' ≡ record c { baudrate = wanted_rate rate c })
    × (u'.controls ≡ u.controls ++ record { request = 3; value = value; windex = windex } ∷ [])

abbrev unsupported : ℕ → ℕ → Bool
unsupported actual baudrate =
    ltb (actual * 2) baudrate
    || (if ltb actual baudrate
        then ltb (actual * 21) (baudrate * 20)
        else ltb (baudrate * 21) (actual * 20))

close_below :
    (actual baudrate : ℕ)
    → (actual == 0 || unsupported actual baudrate) ≡ false
    → (baudrate * 20 ≤ actual * 21) × (actual * 20 ≤ baudrate * 21)
close_below actual baudrate h = (ground arith, ground arith)

option_cases : {A : Type 0} → (o : Option A) → (o ≡ none) ⊎ ((a : A) × (o ≡ some a))
option_cases none = inl refl
option_cases (some a) = inr (a, refl)

converted :
    (rate : ℤ) (c : Context) (actual value windex : ℕ)
    → c.index < 256
    → convert_baudrate rate c ≡ some (actual, value, windex)
    → actual ≡ runs_at c.chip value windex
unfolding convert_baudrate
converted (negsuc n) c actual value windex low e = absurd cc
converted (pos zero) c actual value windex low e = absurd cc
converted (pos (suc n)) c actual value windex low e =
    let same : convert_positive (suc n) c ≡ (actual, value, windex) = some_injective e in
    sym (ap (λ o. o.0) same)
    ∙ convert_positive-runs_at (suc n) c c.chip refl (omega arith) low
    ∙ ap (λ o. runs_at c.chip o.1 o.2) same
  where
    some_injective : {x y : ℕ × ℕ × ℕ} → some x ≡ some y → x ≡ y
    some_injective h = cc

-- ftdi_set_baudrate on a context whose index is less than 256 either refuses, with an error code and
-- the context as it was, or requests a value and an index at which the chip, of whatever type, runs at
-- a rate that is off by one part in twenty at most, and stores the rate that was asked for, times four
-- in bitbang mode, where the product is an int that wraps.
pub set_baudrate-Accepted :
    (rate : ℤ) (c : Context) (u : Usb)
    → c.index < 256
    → Refused c (set_baudrate rate (c, u)) ⊎ Accepted rate (c, u) (set_baudrate rate (c, u))
unfolding set_baudrate out_request control_transfer
set_baudrate-Accepted rate c u low = elim (Bool-cases (not c.is_open)) [
  | inl closed ↦ rw closed (inl (2, refl, refl))
  | inr opened ↦ elim (option_cases (convert_baudrate (wanted_rate rate c) c)) [
    | inl silly ↦ rw (opened, silly) (inl (0, refl, refl))
    | inr (found, e) ↦
        elim (Bool-cases (found.0 == 0 || unsupported found.0 (magnitude (wanted_rate rate c)))) [
          | inl off ↦ rw (opened, e, off) (inl (0, refl, refl))
          | inr near ↦ elim (option_cases (next_or (some []) u.control_answers)) [
            | inl failed ↦ rw (opened, e, near, failed, opened) (inl (1, refl, refl))
            | inr (bs, answered) ↦
                let (below, above) = close_below found.0 (magnitude (wanted_rate rate c)) near in
                let runs = converted (wanted_rate rate c) c found.0 found.1 found.2 low e in
                rw (opened, e, near, answered, opened)
                  (inr (found.1, found.2, rw (← runs) below, rw (← runs) above, refl, refl, refl))
          ]
        ]
  ]
]
