-- ===== src/IoFtdi/Pause.antt =====
-- Short pauses (IOFtdi::Usleep in src/devices/xc3sprog/ioftdi.cpp), for which the chip clocks TCK.
use fpga_device_server.Common.{
  ◌≡◌, sym, ap, ◌∙◌, subst, ℕ, zero, suc, ◌+◌, ◌-◌, ◌*◌, ◌/◌, ◌%◌, ◌^◌, ◌≤◌, ◌<◌, none, Bool, true,
  false, List, [], ◌∷◌, ◌++◌, ◌==◌, ltb, if◌then◌else◌, arith, Bool-cases, inl, inr, if_ind, length,
}
use mathlib.Core.Bool.{false≢true}
use fpga_device_server.Common.Effect.{pure}
use fpga_device_server.Device.{Link}
use fpga_device_server.IoFtdi.{
  Cable, mpsse_add_cmd, pause_ticks, pause_fast, pause_slow, usleep_cable,
}
use fpga_device_server.IoFtdi.Mpsse.{
  data_clocks, data_clocks-append, data_clocks-none, Runs, Runs-one, pulse_bytes, pulse_bits,
}
use fpga_device_server.IoFtdi.Stream.{Fits, Emits, Sends-Emits, Emits-bind, pure-Emits}
use fpga_device_server.IoFtdi.Buffer.{mpsse_add_cmd-Sends}

ticks_of_product :
    (product unit : ℕ)
    → 10000 ≤ unit
    → product + unit ≤ 2 ^ 32
    → (product ≤ (product + unit + 2 ^ 32 - 1) % 2 ^ 32 / 10000 * 10000)
      × ((product + unit + 2 ^ 32 - 1) % 2 ^ 32 / 10000 * 10000 < product + unit)
ticks_of_product product unit large fits = omega arith

-- The product of a pause fits an unsigned int: the ticks cover the pause, and the rounding adds less than a
-- microsecond.
pause_ticks_bounds :
    (usec tck_freq : ℕ)
    → 1000000 ≤ tck_freq
    → (usec + 1) * (tck_freq / 100) ≤ 2 ^ 32
    → (usec * (tck_freq / 100) ≤ pause_ticks usec tck_freq * 10000)
      × (pause_ticks usec tck_freq * 10000 < (usec + 1) * (tck_freq / 100))
unfolding pause_ticks
pause_ticks_bounds usec tck_freq fast fits =
    let unit = tck_freq / 100 in
    let e : (usec + 1) * unit ≡ usec * unit + unit = grind arith in
    let both = ticks_of_product (usec * unit) unit (omega arith) (omega (arith, e)) in
    (both.0, omega (arith, e, both.1))

-- The clocks of a pause: eight more than the ticks, where there are whole bytes of them.
abbrev pub pause_clocks : ℕ → ℕ
pause_clocks ticks = if ltb 8 ticks then ticks + 8 else ticks

module _ {F : Type 0} (link : Link F) (errno : F → ℕ) where
  one_command :
      (level : Bool) (n : ℕ) (cmd : List ℕ) (c : Cable F)
      → Runs level cmd (data_clocks level none 0 n) level
      → length cmd < 4
      → Fits c
      → Emits link level (data_clocks level none 0 n) level c (mpsse_add_cmd link errno cmd c)
  one_command level n cmd c runs short fits =
      Sends-Emits link level level (data_clocks level none 0 n) cmd c
        (mpsse_add_cmd link errno cmd c) runs
        (mpsse_add_cmd-Sends link errno cmd c (omega arith) fits)

  whole_bytes :
      (level : Bool) (ticks : ℕ) (c : Cable F)
      → ticks < 2 ^ 19
      → Fits c
      → Emits link level
          (data_clocks level none 0 (if ltb 8 ticks then (ticks / 8 + 1) * 8 else 0))
          level
          c
          ((if ltb 8 ticks
              then mpsse_add_cmd link errno (0x8f ∷ ticks / 8 % 256 ∷ ticks / 8 / 2 ^ 8 % 256 ∷ [])
              else pure tt)
            c)
  whole_bytes level ticks c few fits = elim (Bool-cases (ltb 8 ticks)) [
    | inl many ↦ rw many (
        one_command level ((ticks / 8 + 1) * 8)
          (0x8f ∷ ticks / 8 % 256 ∷ ticks / 8 / 2 ^ 8 % 256 ∷ []) c
          (Runs-one (pulse_bytes level (ticks / 8) (omega arith))) (omega arith) fits)
    | inr none_whole ↦ rw none_whole (pure-Emits link level tt c fits)
  ]

  loose_clocks :
      (level : Bool) (left : ℕ) (c : Cable F)
      → left ≤ 8
      → Fits c
      → Emits link level
          (data_clocks level none 0 left)
          level
          c
          ((if left == 0 then pure tt else mpsse_add_cmd link errno (0x8e ∷ (left - 1) ∷ [])) c)
  loose_clocks level zero c few fits = pure-Emits link level tt c fits
  loose_clocks level (suc n) c few fits =
      let some_left : (suc n == 0) ≡ false = ground arith in
      let less : suc n - 1 ≡ n = omega arith in
      let e : n + 1 ≡ suc n = omega arith in
      rw (some_left, less)
        (one_command level (suc n) (0x8e ∷ n ∷ []) c
          (subst (λ k. Runs level (0x8e ∷ n ∷ []) (data_clocks level none 0 k) level) e
            (Runs-one (pulse_bits level n (omega arith))))
          (omega arith) fits)

  pause_fast-Emits :
      (level : Bool) (ticks : ℕ) (c : Cable F)
      → ticks < 2 ^ 19
      → Fits c
      → Emits link level
          (data_clocks level none 0 (pause_clocks ticks))
          level
          c
          (pause_fast link errno ticks c)
  unfolding pause_fast
  pause_fast-Emits level ticks c few fits =
      let whole : ℕ = if ltb 8 ticks then (ticks / 8 + 1) * 8 else 0 in
      let left : ℕ = if ltb 8 ticks then ticks % 8 else ticks in
      let all : whole + left ≡ pause_clocks ticks = ground arith in
      subst (λ cs. Emits link level cs level c (pause_fast link errno ticks c))
        (ap (λ ds. data_clocks level none 0 whole ++ ds) (data_clocks-none level 0 (0 + whole) left)
          ∙ data_clocks-append level none 0 whole left
          ∙ ap (data_clocks level none 0) all)
        (Emits-bind link level level level (data_clocks level none 0 whole)
          (data_clocks level none 0 left) c
          (if ltb 8 ticks
            then mpsse_add_cmd link errno (0x8f ∷ ticks / 8 % 256 ∷ ticks / 8 / 2 ^ 8 % 256 ∷ [])
            else pure tt)
          (λ _. if left == 0 then pure tt else mpsse_add_cmd link errno (0x8e ∷ (left - 1) ∷ []))
          (whole_bytes level ticks c few fits)
          (λ _ c' fits'. loose_clocks level left c' (ground arith) fits'))

  fast_branch :
      (level : Bool) (c : Cable F) (ticks : ℕ)
      → c.has_fast_clock ≡ true
      → Emits link level
          (data_clocks level none 0 (pause_clocks ticks))
          level
          c
          (pause_fast link errno ticks c)
      → Emits link level (data_clocks level none 0 (pause_clocks ticks)) level c (
          if c.has_fast_clock then pause_fast link errno ticks c else pause_slow link errno ticks c)
  fast_branch level c ticks fast out =
      if_ind (Emits link level (data_clocks level none 0 (pause_clocks ticks)) level c)
        c.has_fast_clock (λ _. out) (λ slow. absurd (false≢true (sym slow ∙ fast)))

  -- Usleep of less than twenty milliseconds on a chip with the fast clock that is set to a megahertz or
  -- more, where the product of the pause and the frequency fits an unsigned int, the ticks are fewer
  -- than 2^19, so that the count of whole bytes fits its command, and the buffer is not overfilled: if it returns, the
  -- chip clocks TCK with TMS as it was, for as long as the pause at least, and less than a
  -- microsecond and eight clocks longer.
  pub usleep_cable-Emits :
      (level : Bool) (usec : ℕ) (c : Cable F)
      → c.has_fast_clock ≡ true
      → usec < 20000
      → 1000000 ≤ c.tck_freq
      → (usec + 1) * (c.tck_freq / 100) ≤ 2 ^ 32
      → pause_ticks usec c.tck_freq < 2 ^ 19
      → Fits c
      → (n : ℕ) × Emits link level
          (data_clocks level none 0 n)
          level
          c
          (usleep_cable link errno usec c)
        × (usec * (c.tck_freq / 100) ≤ n * 10000)
        × (n * 10000 < (usec + 1) * (c.tck_freq / 100) + 80000)
  unfolding usleep_cable
  usleep_cable-Emits level usec c fast short freq product few fits =
      let ticks = pause_ticks usec c.tck_freq in
      let (low, high) = pause_ticks_bounds usec c.tck_freq freq product in
      let short' : ltb usec 20000 ≡ true = ground arith in
      let out = pause_fast-Emits level ticks c few fits in
      (
        pause_clocks ticks,
        rw short' (fast_branch level c ticks fast out),
        ground arith,
        ground arith,
      )
