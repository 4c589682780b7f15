-- ===== src/Jtag/Frame.antt =====
-- What moving the TAP controllers leaves alone: the devices, the selection and the settings.
use fpga_device_server.Common.{
  ℕ, zero, suc, ◌≡◌, refl, sym, ◌∙◌, inl, inr, Bool, true, false, Option, List, ◌&&◌, ◌==◌,
  if◌then◌else◌, arith, Bool-cases,
}
use fpga_device_server.Common.Int.{pos, pos_part, ltb_ℤ, ◌-ℤ◌}
use fpga_device_server.IoBase.{Io, shift}
use fpga_device_server.Tap.{TapState, same_state, shift_ir, shift_dr}
use fpga_device_server.Jtag.{
  Jtag, tap_test_logic_reset, tap_round, set_tap_loop, tap_fuel, set_tap_state, next_tap_state,
  shift_any, pre_bits, leave_shift_dr, shift_dr_at, shift_dr_data, irlen_sum, instruction_blocks,
  shift_ir_at, shift_ir_data,
}

pub record Same (j j' : Jtag) : Type 0 where
  pub devices : j'.devices ≡ j.devices
  pub num_devices : j'.num_devices ≡ j.num_devices
  pub post_dr_state : j'.post_dr_state ≡ j.post_dr_state
  pub post_ir_state : j'.post_ir_state ≡ j.post_ir_state
  pub device_index : j'.device_index ≡ j.device_index
  pub shift_dr_incomplete : j'.shift_dr_incomplete ≡ j.shift_dr_incomplete

pub Same-refl : (j : Jtag) → Same j j
Same-refl j = record {
  devices = refl;
  num_devices = refl;
  post_dr_state = refl;
  post_ir_state = refl;
  device_index = refl;
  shift_dr_incomplete = refl;
}

pub Same-trans : {j k l : Jtag} → Same j k → Same k l → Same j l
Same-trans p q = record {
  devices = q.devices ∙ p.devices;
  num_devices = q.num_devices ∙ p.num_devices;
  post_dr_state = q.post_dr_state ∙ p.post_dr_state;
  post_ir_state = q.post_ir_state ∙ p.post_ir_state;
  device_index = q.device_index ∙ p.device_index;
  shift_dr_incomplete = q.shift_dr_incomplete ∙ p.shift_dr_incomplete;
}

pub tap_test_logic_reset-Same : (j : Jtag) → Same j (tap_test_logic_reset j)
unfolding tap_test_logic_reset
tap_test_logic_reset-Same j = ground arith

tap_round-Same : (state : TapState) (j : Jtag) → Same j (tap_round state j)
unfolding tap_round tap_test_logic_reset
tap_round-Same state j = ground arith

set_tap_loop-Same : (fuel : ℕ) (state : TapState) (j : Jtag) → Same j (set_tap_loop fuel state j)
unfolding set_tap_loop
set_tap_loop-Same zero state j = Same-refl j
set_tap_loop-Same (suc fuel) state j = elim (Bool-cases (same_state j.current_state state)) [
  | inl there ↦ rw there (Same-refl j)
  | inr away ↦
      rw away
        (Same-trans (tap_round-Same state j) (set_tap_loop-Same fuel state (tap_round state j)))
]

pub set_tap_state-Same :
    (j : Jtag) (state : TapState) (pre : ℕ) → Same j (set_tap_state j state pre)
unfolding set_tap_state
set_tap_state-Same j state pre =
    let s = set_tap_loop-Same tap_fuel state j in
    record {
      devices = s.devices;
      num_devices = s.num_devices;
      post_dr_state = s.post_dr_state;
      post_ir_state = s.post_ir_state;
      device_index = s.device_index;
      shift_dr_incomplete = s.shift_dr_incomplete;
    }

pub next_tap_state-Same : (j : Jtag) (tms : Bool) → Same j (next_tap_state j tms)
unfolding next_tap_state
next_tap_state-Same j tms = ground arith

pub Same-io : (j : Jtag) (io : Io) → Same j (record j { io = io })
Same-io j io = record {
  devices = refl;
  num_devices = refl;
  post_dr_state = refl;
  post_ir_state = refl;
  device_index = refl;
  shift_dr_incomplete = refl;
}

-- A shift, from the state before it through the one in the shift state to the one after it.
shift-Same :
    (j ready left : Jtag) (io : Io) (last : Bool)
    → Same j ready
    → Same (next_tap_state (record ready { io = io }) last) left
    → Same j left
shift-Same j ready left io last a b = Same-trans a (
    Same-trans (Same-io ready io)
      (Same-trans (next_tap_state-Same (record ready { io = io }) last) b))

pub shift_ir_data-Same :
    (j : Jtag) (tdi : List ℕ) (wants_tdo : Bool) → Same j (shift_ir_data j tdi wants_tdo).0
unfolding shift_ir_data shift_ir_at
shift_ir_data-Same j tdi wants_tdo = elim (Bool-cases (ltb_ℤ j.device_index (pos 0))) [
  | inl unselected ↦ rw unselected (Same-refl j)
  | inr selected ↦
      let index = pos_part j.device_index in
      let ready = set_tap_state j shift_ir 0 in
      let pre = irlen_sum j.devices (suc index) (pos_part (j.num_devices -ℤ pos (suc index))) in
      let io =
        (instruction_blocks ready.io pre (irlen_sum j.devices index 1) (irlen_sum j.devices 0 index)
          tdi wants_tdo).0 in
      let left = next_tap_state (record ready { io = io }) true in
      rw selected (
        shift-Same j ready (set_tap_state left left.post_ir_state 0) io true
          (set_tap_state-Same j shift_ir 0) (set_tap_state-Same left left.post_ir_state 0))
]

closed-Same :
    (j k : Jtag)
    → j.shift_dr_incomplete ≡ false
    → Same j k
    → Same j (record k { shift_dr_incomplete = false })
closed-Same j k closed s = record {
  devices = s.devices;
  num_devices = s.num_devices;
  post_dr_state = s.post_dr_state;
  post_ir_state = s.post_ir_state;
  device_index = s.device_index;
  shift_dr_incomplete = sym closed;
}

leave_shift_dr-Same :
    (j shifted : Jtag) (post : ℕ)
    → j.shift_dr_incomplete ≡ false
    → Same j shifted
    → Same j (leave_shift_dr shifted post)
unfolding leave_shift_dr
leave_shift_dr-Same j shifted post closed s =
    let padded : Jtag = record shifted { io = shift shifted.io false post true } in
    let s' = Same-trans s (Same-io shifted (shift shifted.io false post true)) in
    elim (Bool-cases (post == 0)) [
      | inl last_device ↦ rw last_device (
          closed-Same j (set_tap_state padded padded.post_dr_state 0) closed
            (Same-trans s' (set_tap_state-Same padded padded.post_dr_state 0)))
      | inr more ↦
          let j'' = next_tap_state padded true in
          rw more (
            closed-Same j (set_tap_state j'' j''.post_dr_state 0) closed (
              Same-trans s' (
                Same-trans (next_tap_state-Same padded true)
                  (set_tap_state-Same j'' j''.post_dr_state 0))))
    ]

ready-Same :
    (j : Jtag) (incomplete : Bool) (pre : ℕ)
    → Same j (if incomplete then j else set_tap_state j shift_dr pre)
ready-Same j true pre = Same-refl j
ready-Same j false pre = set_tap_state-Same j shift_dr pre

pub shift_dr_data-Same :
    (j : Jtag) (tdi : Option (List ℕ)) (wants_tdo : Bool) (length : ℕ)
    → j.shift_dr_incomplete ≡ false
    → Same j (shift_dr_data j tdi wants_tdo length 0 true).0
unfolding shift_dr_data shift_dr_at
shift_dr_data-Same j tdi wants_tdo length closed =
    elim (Bool-cases (ltb_ℤ j.device_index (pos 0))) [
      | inl unselected ↦ rw unselected (Same-refl j)
      | inr selected ↦
          let post = pos_part j.device_index in
          let last = post == 0 && true in
          let pre : ℕ = pos_part (pre_bits j 0) in
          let ready = if j.shift_dr_incomplete then j else set_tap_state j shift_dr pre in
          let io = (shift_any ready.io tdi wants_tdo length last).0 in
          let shifted = next_tap_state (record ready { io = io }) last in
          rw selected (
            leave_shift_dr-Same j shifted post closed (
              shift-Same j ready shifted io last (ready-Same j j.shift_dr_incomplete pre)
                (Same-refl shifted)))
    ]
