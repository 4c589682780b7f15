-- ===== src/Jtag/Steps.antt =====
-- One block on the wire and the call of nextTapState after it, for the data and the instruction
-- registers alike.
use fpga_device_server.Common.{
  ℕ, zero, suc, ◌<◌, ◌≡◌, refl, ap, ◌∙◌, Bool, true, false, [], ◌∷◌, arith, if◌then◌else◌,
  replicate,
}
use fpga_device_server.Tap.{TapState, shift_dr, exit1_dr, shift_ir, exit1_ir, tap_next, tap_run}
use fpga_device_server.Tap.Moves.{IsKnown, tap_run-append}
use fpga_device_server.IoBase.{Io}
use fpga_device_server.IoBase.Wire.{wire, block_clocks}
use fpga_device_server.IoBase.Blocks.{Clocked}
use fpga_device_server.Jtag.{Jtag, next_tap_state}
use fpga_device_server.Jtag.Reset.{Tracks}

-- Where a block leaves the controllers, from a state with a loop on TMS low.
abbrev pub after_block : TapState → ℕ → Bool → TapState
after_block s zero last = s
after_block s (suc n) last = if last then tap_next s true else s

tap_run-replicate :
    (s : TapState) (n : ℕ) → tap_next s false ≡ s → tap_run s (replicate n false) ≡ s
unfolding tap_run
tap_run-replicate s zero e = refl
tap_run-replicate s (suc n) e = ap (λ t. tap_run t (replicate n false)) e ∙ tap_run-replicate s n e

tap_run-block_clocks :
    (s : TapState) (n : ℕ) (last : Bool)
    → tap_next s false ≡ s
    → tap_run s (block_clocks n last) ≡ after_block s n last
unfolding tap_run
tap_run-block_clocks s zero last e = refl
tap_run-block_clocks s (suc n) true e =
    tap_run-append s (replicate n false) (true ∷ [])
    ∙ ap (λ t. tap_next t true) (tap_run-replicate s n e)
tap_run-block_clocks s (suc n) false e =
    tap_run-append s (replicate n false) (false ∷ [])
    ∙ ap (λ t. tap_next t false) (tap_run-replicate s n e)
    ∙ e

-- A block on the wire, with the state that it leads to written back.
pub Tracks-block :
    (t0 : TapState) (j : Jtag) (io : Io) (next : TapState) (n : ℕ) (last : Bool)
    → Tracks t0 j
    → Clocked j.io (block_clocks n last) io
    → tap_next j.current_state false ≡ j.current_state
    → after_block j.current_state n last ≡ next
    → IsKnown next
    → Tracks t0 (record j { io = io; current_state = next })
Tracks-block t0 j io next n last k c e a h = record {
  buffer = c.0;
  follows =
      ap (tap_run t0) c.1
      ∙ tap_run-append t0 (wire j.io) (block_clocks n last)
      ∙ ap (λ s. tap_run s (block_clocks n last)) k.follows
      ∙ tap_run-block_clocks j.current_state n last e
      ∙ a;
  known = h;
}

abbrev pub shift_state : Bool → TapState
shift_state ir = if ir then shift_ir else shift_dr

abbrev pub exit1_state : Bool → TapState
exit1_state ir = if ir then exit1_ir else exit1_dr

next_tap_state_lem :
    (ir last : Bool) (j : Jtag)
    → j.current_state ≡ shift_state ir
    → next_tap_state j last
      ≡ record j { current_state = if last then exit1_state ir else shift_state ir }
unfolding next_tap_state
next_tap_state_lem true true j e = ground arith
next_tap_state_lem true false j e = ground arith
next_tap_state_lem false true j e = ground arith
next_tap_state_lem false false j e = ground arith

after_block_lem :
    (ir last : Bool) (s : TapState) (n : ℕ)
    → s ≡ shift_state ir
    → 0 < n
    → (tap_next s false ≡ s)
      × (after_block s n last ≡ (if last then exit1_state ir else shift_state ir))
      × IsKnown (if last then exit1_state ir else shift_state ir)
unfolding tap_next
after_block_lem ir last s zero e h = absurd (omega arith)
after_block_lem true true s (suc n) e h = ground arith
after_block_lem true false s (suc n) e h = ground arith
after_block_lem false true s (suc n) e h = ground arith
after_block_lem false false s (suc n) e h = ground arith

-- A block through Shift-DR or Shift-IR, and the call of nextTapState that follows it.
pub block_then_next :
    (t0 : TapState) (j : Jtag) (io : Io) (n : ℕ) (last ir : Bool)
    → j.current_state ≡ shift_state ir
    → 0 < n
    → Tracks t0 j
    → Clocked j.io (block_clocks n last) io
    → let j' = next_tap_state (record j { io = io }) last in
      Tracks t0 j' × (j'.current_state ≡ (if last then exit1_state ir else shift_state ir))
block_then_next t0 j io n last ir e h k c =
    let a = after_block_lem ir last j.current_state n e h in
    rw (next_tap_state_lem ir last (record j { io = io }) e) (
      Tracks-block t0 j io (if last then exit1_state ir else shift_state ir) n last k c a.0 a.1 a.2,
      refl,
    )

-- A block with TMS low stays in the shift state.
pub low_block-Tracks :
    (t0 : TapState) (j : Jtag) (io : Io) (n : ℕ) (ir : Bool)
    → j.current_state ≡ shift_state ir
    → Tracks t0 j
    → Clocked j.io (block_clocks n false) io
    → Tracks t0 (record j { io = io })
low_block-Tracks t0 j io zero ir e k c =
    Tracks-block t0 j io j.current_state zero false k c (loops ir j.current_state e) refl k.known
  where
    loops : (ir : Bool) (s : TapState) → s ≡ shift_state ir → tap_next s false ≡ s
    loops ir s e = (after_block_lem ir false s 1 e (omega arith)).0
low_block-Tracks t0 j io (suc n) ir e k c =
    Tracks-block t0 j io j.current_state (suc n) false k c (loops ir j.current_state e) refl k.known
  where
    loops : (ir : Bool) (s : TapState) → s ≡ shift_state ir → tap_next s false ≡ s
    loops ir s e = (after_block_lem ir false s 1 e (omega arith)).0
