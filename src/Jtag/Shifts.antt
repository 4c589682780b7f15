-- ===== src/Jtag/Shifts.antt =====
-- Data shifts keep track of the controllers (Jtag::shiftDR).
use fpga_device_server.Common.{
  ℕ, zero, suc, ◌<◌, ◌≡◌, refl, sym, ap, ◌∙◌, subst, inl, inr, Bool, true, false, not, ◌&&◌, Option,
  none, some, List, append-nil, arith, ◌==◌, if◌then◌else◌, Bool-cases,
}
use mathlib.Core.Bool.{false≢true}
use fpga_device_server.Common.Int.{pos, pos_part, ltb_ℤ, ◌≤ℤ◌}
use fpga_device_server.Tap.{TapState, shift_dr, exit1_dr, tap_next, tap_run}
use fpga_device_server.Tap.Moves.{IsKnown}
use fpga_device_server.IoBase.{Io, shift}
use fpga_device_server.IoBase.Wire.{IsBuffer, wire, block_clocks}
use fpga_device_server.IoBase.Blocks.{
  Clocked, shift-Clocked, shift_tdi_tdo-Clocked, shift_tdi-Clocked, shift_tdo-Clocked,
}
use fpga_device_server.Jtag.{
  Jtag, set_tap_state, next_tap_state, shift_any, pre_bits, leave_shift_dr, shift_dr_at,
  shift_dr_data,
}
use fpga_device_server.Jtag.Frame.{
  Same, Same-refl, Same-trans, set_tap_state-Same, next_tap_state-Same,
}
use fpga_device_server.Jtag.Reset.{Tracks, MayTrack, Tracks-MayTrack, set_tap_state-Tracks}
use fpga_device_server.Jtag.Steps.{block_then_next}

shift_any-Clocked :
    (io : Io) (tdi : Option (List ℕ)) (wants_tdo : Bool) (length : ℕ) (last : Bool)
    → IsBuffer io
    → Clocked io (block_clocks length last) (shift_any io tdi wants_tdo length last).0
unfolding shift_any
shift_any-Clocked io (some tdi) true length last b =
    shift_tdi_tdo-Clocked io (some tdi) true length last b
shift_any-Clocked io (some tdi) false length last b = shift_tdi-Clocked io tdi length last b
shift_any-Clocked io none true length last b = shift_tdo-Clocked io length last b
shift_any-Clocked io none false length last b = shift-Clocked io false length last b

leave_shift_dr-Tracks :
    (t0 : TapState) (j : Jtag) (post : ℕ)
    → IsKnown t0
    → IsKnown j.post_dr_state
    → Tracks t0 j
    → j.current_state ≡ (if post == 0 then exit1_dr else shift_dr)
    → Tracks t0 (leave_shift_dr j post) × ((leave_shift_dr j post).current_state ≡ j.post_dr_state)
unfolding leave_shift_dr
leave_shift_dr-Tracks t0 j zero h0 h k e =
    let padded : Tracks t0 (record j { io = shift j.io false 0 true }) =
      let c = shift-Clocked j.io false 0 true k.buffer in
      record {
        buffer = c.0;
        follows = ap (tap_run t0) (c.1 ∙ append-nil (wire j.io)) ∙ k.follows;
        known = k.known;
      } in
    let left =
      set_tap_state-Tracks t0 (record j { io = shift j.io false 0 true }) j.post_dr_state 0 h0 h
        (inl refl) (Tracks-MayTrack padded) in
    (record { buffer = left.0.buffer; follows = left.0.follows; known = left.0.known }, left.1)
leave_shift_dr-Tracks t0 j (suc post) h0 h k e =
    let at_shift : j.current_state ≡ shift_dr = ground arith in
    let j' : Jtag = record j { io = shift j.io false (suc post) true } in
    let out =
      block_then_next t0 j (shift j.io false (suc post) true) (suc post) true false at_shift
        (omega arith) k (shift-Clocked j.io false (suc post) true k.buffer) in
    let same = next_tap_state-Same j' true in
    let left =
      set_tap_state-Tracks t0 (next_tap_state j' true) (next_tap_state j' true).post_dr_state 0 h0
        (subst IsKnown (sym same.post_dr_state) h) (inl refl) (Tracks-MayTrack out.0) in
    let more : (suc post == 0) ≡ false = ground arith in
    rw more (
      record { buffer = left.0.buffer; follows = left.0.follows; known = left.0.known },
      left.1 ∙ same.post_dr_state,
    )

-- A data shift can begin: the controllers are tracked, or the program knows that they are not, and
-- a shift that was left open is still in Shift-DR.
pub record IsReady (t0 : TapState) (j : Jtag) : Type 0 where
  pub start : IsKnown t0
  pub may_track : MayTrack t0 j
  pub open_shift : j.shift_dr_incomplete ≡ true → Tracks t0 j × (j.current_state ≡ shift_dr)
  pub post_dr : IsKnown j.post_dr_state
  pub post_ir : IsKnown j.post_ir_state

-- Leaving the shift state closes the shift, and keeps the settings for the next one.
leave_shift_dr-settings :
    (j : Jtag) (post : ℕ)
    → let j' = leave_shift_dr j post in
      (j'.shift_dr_incomplete ≡ false)
      × (j'.post_dr_state ≡ j.post_dr_state)
      × (j'.post_ir_state ≡ j.post_ir_state)
unfolding leave_shift_dr
leave_shift_dr-settings j post = elim (Bool-cases (post == 0)) [
  | inl last_device ↦
      let s = set_tap_state-Same (record j { io = shift j.io false post true }) j.post_dr_state 0 in
      rw last_device (refl, s.post_dr_state, s.post_ir_state)
  | inr more ↦
      let n = next_tap_state-Same (record j { io = shift j.io false post true }) true in
      let j' = next_tap_state (record j { io = shift j.io false post true }) true in
      let s = set_tap_state-Same j' j'.post_dr_state 0 in
      rw more (refl, s.post_dr_state ∙ n.post_dr_state, s.post_ir_state ∙ n.post_ir_state)
]

-- The way in: Shift-DR with the controllers tracked, and the settings as they were.
ready_for_data :
    (t0 : TapState) (j : Jtag) (pre : ℕ) (incomplete : Bool)
    → j.shift_dr_incomplete ≡ incomplete
    → IsReady t0 j
    → let ready = if incomplete then j else set_tap_state j shift_dr pre in
      Tracks t0 ready × (ready.current_state ≡ shift_dr) × Same j ready
ready_for_data t0 j pre true e r = ((r.open_shift e).0, (r.open_shift e).1, Same-refl j)
ready_for_data t0 j pre false e r =
    let moved =
      set_tap_state-Tracks t0 j shift_dr pre r.start (omega arith) (inr (unfold tap_next in refl))
        r.may_track in
    (moved.0, moved.1, set_tap_state-Same j shift_dr pre)

-- The way out: the state that was asked for, or Shift-DR with the shift left open.
finish_shift_dr :
    (t0 : TapState) (j shifted : Jtag) (post : ℕ) (exit : Bool)
    → IsReady t0 j
    → Same j shifted
    → Tracks t0 shifted
    → shifted.current_state ≡ (if post == 0 && exit then exit1_dr else shift_dr)
    → let j' =
        if exit
        then leave_shift_dr shifted post
        else record shifted { shift_dr_incomplete = true } in
      IsReady t0 j'
      × Tracks t0 j'
      × (j'.current_state ≡ (if exit then j.post_dr_state else shift_dr))
      × (j'.shift_dr_incomplete ≡ not exit)
finish_shift_dr t0 j shifted post true r same k e =
    let left =
      leave_shift_dr-Tracks t0 shifted post r.start
        (subst IsKnown (sym same.post_dr_state) r.post_dr) k (ground arith) in
    let settings = leave_shift_dr-settings shifted post in
    (
      record {
        start = r.start;
        may_track = Tracks-MayTrack left.0;
        open_shift = λ e. absurd (false≢true (sym settings.0 ∙ e));
        post_dr = subst IsKnown (sym (settings.1 ∙ same.post_dr_state)) r.post_dr;
        post_ir = subst IsKnown (sym (settings.2 ∙ same.post_ir_state)) r.post_ir;
      },
      left.0,
      left.1 ∙ same.post_dr_state,
      settings.0,
    )
finish_shift_dr t0 j shifted post false r same k e =
    let e' : shifted.current_state ≡ shift_dr = ground arith in
    let k' : Tracks t0 (record shifted { shift_dr_incomplete = true }) = record {
      buffer = k.buffer;
      follows = k.follows;
      known = k.known;
    } in
    (
      record {
        start = r.start;
        may_track = Tracks-MayTrack k';
        open_shift = λ _. (k', e');
        post_dr = subst IsKnown (sym same.post_dr_state) r.post_dr;
        post_ir = subst IsKnown (sym same.post_ir_state) r.post_ir;
      },
      k',
      e',
      refl,
    )

shift_dr_at-IsReady :
    (t0 : TapState) (post : ℕ) (j : Jtag) (tdi : Option (List ℕ)) (wants_tdo : Bool)
    (length align : ℕ) (exit : Bool)
    → IsReady t0 j
    → 0 < length
    → let j' = (shift_dr_at post j tdi wants_tdo length align exit).0 in
      IsReady t0 j'
      × Tracks t0 j'
      × (j'.current_state ≡ (if exit then j.post_dr_state else shift_dr))
      × (j'.shift_dr_incomplete ≡ not exit)
unfolding shift_dr_at
shift_dr_at-IsReady t0 post j tdi wants_tdo length align exit r h =
    let pre : ℕ = pos_part (pre_bits j align) in
    let (k, e, same) = ready_for_data t0 j pre j.shift_dr_incomplete refl r in
    let ready = if j.shift_dr_incomplete then j else set_tap_state j shift_dr pre in
    let last = post == 0 && exit in
    let (io, tdo) = shift_any ready.io tdi wants_tdo length last in
    let next =
      block_then_next t0 ready io length last false e h k
        (shift_any-Clocked ready.io tdi wants_tdo length last k.buffer) in
    finish_shift_dr t0 j (next_tap_state (record ready { io = io }) last) post exit r
      (Same-trans
        (record {
          devices = same.devices;
          num_devices = same.num_devices;
          post_dr_state = same.post_dr_state;
          post_ir_state = same.post_ir_state;
          device_index = same.device_index;
          shift_dr_incomplete = same.shift_dr_incomplete;
        })
        (next_tap_state-Same (record ready { io = io }) last))
      next.0 next.1

-- shiftDR of at least one bit through a selected device: the controllers end where the program
-- believes them to be, in the state set by setPostDRState if the shift is to be left and in Shift-DR
-- with the shift still open if not; and another shift can follow.
pub shift_dr_data-IsReady :
    (t0 : TapState) (j : Jtag) (tdi : Option (List ℕ)) (wants_tdo : Bool) (length align : ℕ)
    (exit : Bool)
    → IsReady t0 j
    → 0 < length
    → pos 0 ≤ℤ j.device_index
    → let j' = (shift_dr_data j tdi wants_tdo length align exit).0 in
      IsReady t0 j'
      × Tracks t0 j'
      × (j'.current_state ≡ (if exit then j.post_dr_state else shift_dr))
      × (j'.shift_dr_incomplete ≡ not exit)
unfolding shift_dr_data
shift_dr_data-IsReady t0 j tdi wants_tdo length align exit r h selected =
    let is_selected : ltb_ℤ j.device_index (pos 0) ≡ false = ground arith in
    rw is_selected
      (shift_dr_at-IsReady t0 (pos_part j.device_index) j tdi wants_tdo length align exit r h)
