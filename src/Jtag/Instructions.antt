-- ===== src/Jtag/Instructions.antt =====
-- Instruction shifts (Jtag::shiftIR): the clocks they take, and the controllers after them.
use fpga_device_server.Common.{
  ℕ, zero, suc, ◌+◌, ◌<◌, ◌≡◌, refl, sym, ap, ◌∙◌, subst, inl, Bool, true, false, some, List, ◌++◌,
  append_assoc, append-nil, get_elem?, arith, ◌==◌,
}
use mathlib.Core.Bool.{false≢true}
use fpga_device_server.Common.Int.{pos, pos_part, ltb_ℤ, ◌-ℤ◌}
use fpga_device_server.Tap.{TapState, shift_ir}
use fpga_device_server.Tap.Moves.{IsKnown}
use fpga_device_server.IoBase.{Io, shift, shift_tdi_tdo}
use fpga_device_server.IoBase.Wire.{IsBuffer, wire, block_clocks}
use fpga_device_server.IoBase.Blocks.{
  Clocked, shift-Clocked, shift_tdi_tdo-Clocked, block_clocks-append,
}
use fpga_device_server.Jtag.{
  ChainParam, instruction_blocks, Jtag, set_tap_state, next_tap_state, shift_ir_at, shift_ir_data,
  irlen_sum,
}
use fpga_device_server.Jtag.Frame.{set_tap_state-Same, next_tap_state-Same}
use fpga_device_server.Jtag.Reset.{Tracks, Tracks-MayTrack, set_tap_state-Tracks}
use fpga_device_server.Jtag.Steps.{block_then_next}
use fpga_device_server.Jtag.Shifts.{IsReady}

irlen_sum_one :
    (devices : List ChainParam) (i : ℕ) (d : ChainParam)
    → get_elem? devices i ≡ some d
    → irlen_sum devices i 1 ≡ d.irlen
unfolding irlen_sum
irlen_sum_one devices i d e = rw e (omega arith)

-- Two blocks, the first with TMS low unless nothing follows it, are one block.
two_blocks : (m n : ℕ) → block_clocks m (n == 0) ++ block_clocks n true ≡ block_clocks (m + n) true
two_blocks m zero = let e : m + 0 ≡ m = omega arith in rw (e, append-nil)
two_blocks m (suc n) =
    let e : (suc n == 0) ≡ false = ground arith in
    rw e (block_clocks-append m (suc n) true (omega arith))

-- The instruction takes one clock for each bit of every instruction register of the chain, with TMS
-- high on the last of them alone.
instruction_blocks-Clocked :
    (io : Io) (pre len post : ℕ) (tdi : List ℕ) (wants_tdo : Bool)
    → IsBuffer io
    → 0 < len
    → Clocked io
        (block_clocks (pre + (len + post)) true)
        (instruction_blocks io pre len post tdi wants_tdo).0
unfolding instruction_blocks
instruction_blocks-Clocked io pre len post tdi wants_tdo b h =
    let c1 = shift-Clocked io true pre false b in
    let padded = shift io true pre false in
    let c2 = shift_tdi_tdo-Clocked padded (some tdi) wants_tdo len (post == 0) c1.0 in
    let (io', tdo) = shift_tdi_tdo padded (some tdi) wants_tdo len (post == 0) in
    let c3 = shift-Clocked io' true post true c2.0 in
    (
      c3.0,
      c3.1
          ∙ ap (λ w. w ++ block_clocks post true) c2.1
          ∙ append_assoc (wire padded) (block_clocks len (post == 0)) (block_clocks post true)
          ∙ ap (◌++◌ (wire padded)) (two_blocks len post)
          ∙ ap (λ w. w ++ block_clocks (len + post) true) c1.1
          ∙ append_assoc (wire io) (block_clocks pre false) (block_clocks (len + post) true)
          ∙ ap (◌++◌ (wire io)) (block_clocks-append pre (len + post) true (omega arith)),
    )

shift_ir_at-IsReady :
    (t0 : TapState) (index : ℕ) (j : Jtag) (tdi : List ℕ) (wants_tdo : Bool)
    → IsReady t0 j
    → j.shift_dr_incomplete ≡ false
    → 0 < irlen_sum j.devices index 1
    → let j' = (shift_ir_at index j tdi wants_tdo).0 in
      IsReady t0 j' × Tracks t0 j' × (j'.current_state ≡ j.post_ir_state)
unfolding shift_ir_at
shift_ir_at-IsReady t0 index j tdi wants_tdo r closed h =
    let ready = set_tap_state j shift_ir 0 in
    let moved = set_tap_state-Tracks t0 j shift_ir 0 r.start (omega arith) (inl refl) r.may_track in
    let pre = irlen_sum j.devices (suc index) (pos_part (j.num_devices -ℤ pos (suc index))) in
    let post = irlen_sum j.devices 0 index in
    let len = irlen_sum j.devices index 1 in
    let (io, tdo) = instruction_blocks ready.io pre len post tdi wants_tdo in
    let out =
      block_then_next t0 ready io (pre + (len + post)) true true moved.1 (omega arith) moved.0
        (instruction_blocks-Clocked ready.io pre len post tdi wants_tdo moved.0.buffer h) in
    let same = set_tap_state-Same j shift_ir 0 in
    let same' = next_tap_state-Same (record ready { io = io }) true in
    let left = next_tap_state (record ready { io = io }) true in
    let post_ir = same'.post_ir_state ∙ same.post_ir_state in
    let last =
      set_tap_state-Tracks t0 left left.post_ir_state 0 r.start
        (subst IsKnown (sym post_ir) r.post_ir) (inl refl) (Tracks-MayTrack out.0) in
    let same'' = set_tap_state-Same left left.post_ir_state 0 in
    (
      record {
        start = r.start;
        may_track = Tracks-MayTrack last.0;
        open_shift = λ e. absurd (
            false≢true (
              sym (
                same''.shift_dr_incomplete ∙ same'.shift_dr_incomplete ∙ same.shift_dr_incomplete
                ∙ closed)
              ∙ e));
        post_dr =
            subst IsKnown (sym (same''.post_dr_state ∙ same'.post_dr_state ∙ same.post_dr_state))
              r.post_dr;
        post_ir = subst IsKnown (sym (same''.post_ir_state ∙ post_ir)) r.post_ir;
      },
      last.0,
      last.1 ∙ post_ir,
    )

-- shiftIR through a selected device whose instruction register has at least one bit, with no data
-- shift left open: the controllers end where the program believes them to be, in the state set by
-- setPostIRState, and another shift can follow.
pub shift_ir_data-IsReady :
    (t0 : TapState) (j : Jtag) (index : ℕ) (d : ChainParam) (tdi : List ℕ) (wants_tdo : Bool)
    → IsReady t0 j
    → j.shift_dr_incomplete ≡ false
    → j.device_index ≡ pos index
    → get_elem? j.devices index ≡ some d
    → 0 < d.irlen
    → let j' = (shift_ir_data j tdi wants_tdo).0 in
      IsReady t0 j' × Tracks t0 j' × (j'.current_state ≡ j.post_ir_state)
unfolding shift_ir_data
shift_ir_data-IsReady t0 j index d tdi wants_tdo r closed selected there h =
    let is_selected : ltb_ℤ j.device_index (pos 0) ≡ false = ground arith in
    let at_index : pos_part j.device_index ≡ index = ap pos_part selected in
    rw is_selected (
      rw at_index (
        shift_ir_at-IsReady t0 index j tdi wants_tdo r closed
          (rw (irlen_sum_one j.devices index d there) h)))
