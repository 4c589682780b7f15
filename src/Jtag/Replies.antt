-- ===== src/Jtag/Replies.antt =====
-- What the shifts of the chain read from the cable, and what only clocks leaves unread.
use fpga_device_server.Common.{
  ℕ, zero, suc, ◌<◌, ◌≡◌, refl, ap, ◌∙◌, inl, inr, ◌&&◌, Bool, true, false, Option, none, some,
  List, arith, ◌==◌, if◌then◌else◌, get_elem?, Bool-cases,
}
use fpga_device_server.Common.Int.{pos, pos_part, ltb_ℤ, ◌-ℤ◌, ◌≤ℤ◌}
use fpga_device_server.Tap.{TapState, same_state, tap_move, shift_ir, shift_dr}
use fpga_device_server.IoBase.{
  Io, set_tms, shift_tdi_tdo, shift_tdi, shift_tdo, shift, next_reply, later_replies,
}
use fpga_device_server.IoBase.Replies.{
  set_tms-replies, flush_tms-replies, block-replies, shift-replies, usleep_io-replies,
}
use fpga_device_server.Jtag.{
  ChainParam, Jtag, repeat_tms, tap_test_logic_reset, tap_round, set_tap_loop, tap_fuel,
  set_tap_state, next_tap_state, cycle_tck, usleep_jtag, instruction_blocks, shift_ir_at,
  shift_ir_data, shift_any, leave_shift_dr, shift_dr_at, shift_dr_data, irlen_sum, pre_bits,
}

repeat_tms-replies : (n : ℕ) (val : Bool) (io : Io) → (repeat_tms n val io).replies ≡ io.replies
unfolding repeat_tms
repeat_tms-replies zero val io = refl
repeat_tms-replies (suc n) val io =
    repeat_tms-replies n val (set_tms io val) ∙ set_tms-replies io val

pub reset-replies : (j : Jtag) → (tap_test_logic_reset j).io.replies ≡ j.io.replies
unfolding tap_test_logic_reset
reset-replies j = flush_tms-replies (repeat_tms 5 true j.io) true ∙ repeat_tms-replies 5 true j.io

tap_round-replies : (state : TapState) (j : Jtag) → (tap_round state j).io.replies ≡ j.io.replies
unfolding tap_round
tap_round-replies state j = elim (Bool-cases (same_state j.current_state TapState.unknown)) [
  | inl lost ↦ rw lost (set_tms-replies (tap_test_logic_reset j).io true ∙ reset-replies j)
  | inr known ↦ rw known (set_tms-replies j.io (tap_move j.current_state state).1)
]

set_tap_loop-replies :
    (fuel : ℕ) (state : TapState) (j : Jtag) → (set_tap_loop fuel state j).io.replies ≡ j.io.replies
unfolding set_tap_loop
set_tap_loop-replies zero state j = refl
set_tap_loop-replies (suc fuel) state j = elim (Bool-cases (same_state j.current_state state)) [
  | inl there ↦ rw there
  | inr away ↦
      rw away (set_tap_loop-replies fuel state (tap_round state j) ∙ tap_round-replies state j)
]

-- Moving the controllers reads nothing.
pub set_tap_state-replies :
    (j : Jtag) (state : TapState) (pre : ℕ) → (set_tap_state j state pre).io.replies ≡ j.io.replies
unfolding set_tap_state
set_tap_state-replies j state pre =
    repeat_tms-replies pre false (set_tap_loop tap_fuel state j).io
    ∙ set_tap_loop-replies tap_fuel state j

next_tap_state-replies : (j : Jtag) (tms : Bool) → (next_tap_state j tms).io.replies ≡ j.io.replies
unfolding next_tap_state
next_tap_state-replies j tms = ground (arith, reset-replies j)

pub cycle_tck-replies :
    (j : Jtag) (n : ℕ) (tdi : Bool) → (cycle_tck j n tdi).io.replies ≡ j.io.replies
unfolding cycle_tck
cycle_tck-replies j n tdi = shift-replies j.io tdi n false

pub usleep_jtag-replies : (j : Jtag) (usec : ℕ) → (usleep_jtag j usec).io.replies ≡ j.io.replies
unfolding usleep_jtag
usleep_jtag-replies j usec = usleep_io-replies j.io usec

-- What a shift reads: a reply if its answer is wanted, and nothing else.
abbrev pub Reads : Bool → Jtag → Jtag × List ℕ → Type 0
Reads wants_tdo j r =
    (r.0.io.replies ≡ (if wants_tdo then later_replies j.io.replies else j.io.replies))
    × (wants_tdo ≡ true → r.1 ≡ next_reply j.io.replies)

shift_ir_at-Reads :
    (index : ℕ) (j : Jtag) (tdi : List ℕ) (wants_tdo : Bool)
    → 0 < irlen_sum j.devices index 1
    → Reads wants_tdo j (shift_ir_at index j tdi wants_tdo)
unfolding shift_ir_at instruction_blocks
shift_ir_at-Reads index j tdi wants_tdo h =
    let ready = set_tap_state j shift_ir 0 in
    let pre = irlen_sum j.devices (suc index) (pos_part (j.num_devices -ℤ pos (suc index))) in
    let post = irlen_sum j.devices 0 index in
    let len = irlen_sum j.devices index 1 in
    let padded = shift ready.io true pre false in
    let sent = block-replies padded (some tdi) wants_tdo len (post == 0) h in
    let io = (shift_tdi_tdo padded (some tdi) wants_tdo len (post == 0)).0 in
    let io' = shift io true post true in
    let left = next_tap_state (record ready { io = io' }) true in
    let before = shift-replies ready.io true pre false ∙ set_tap_state-replies j shift_ir 0 in
    (
      set_tap_state-replies left left.post_ir_state 0
          ∙ next_tap_state-replies (record ready { io = io' }) true
          ∙ shift-replies io true post true
          ∙ sent.0
          ∙ ap (λ r. if wants_tdo then later_replies r else r) before,
      λ e. sent.1 e ∙ ap next_reply before,
    )

irlen_sum_at :
    (devices : List ChainParam) (i : ℕ) (d : ChainParam)
    → get_elem? devices i ≡ some d
    → 0 < d.irlen
    → 0 < irlen_sum devices i 1
unfolding irlen_sum
irlen_sum_at devices i d e h = rw e (omega arith)

pub shift_ir_data-Reads :
    (j : Jtag) (index : ℕ) (d : ChainParam) (tdi : List ℕ) (wants_tdo : Bool)
    → j.device_index ≡ pos index
    → get_elem? j.devices index ≡ some d
    → 0 < d.irlen
    → Reads wants_tdo j (shift_ir_data j tdi wants_tdo)
unfolding shift_ir_data
shift_ir_data-Reads j index d tdi wants_tdo selected there h =
    let is_selected : ltb_ℤ j.device_index (pos 0) ≡ false = ground arith in
    let at_index : pos_part j.device_index ≡ index = ap pos_part selected in
    rw is_selected (
      rw at_index
        (shift_ir_at-Reads index j tdi wants_tdo (irlen_sum_at j.devices index d there h)))

shift_any-Reads :
    (io : Io) (tdi : Option (List ℕ)) (wants_tdo : Bool) (length : ℕ) (last : Bool)
    → 0 < length
    → let (io', tdo) = shift_any io tdi wants_tdo length last in
      (io'.replies ≡ (if wants_tdo then later_replies io.replies else io.replies))
      × (wants_tdo ≡ true → tdo ≡ next_reply io.replies)
unfolding shift_any shift_tdi shift_tdo
shift_any-Reads io (some tdi) true length last h = block-replies io (some tdi) true length last h
shift_any-Reads io (some tdi) false length last h =
    ((block-replies io (some tdi) false length last h).0, λ e. absurd (cc))
shift_any-Reads io none true length last h = block-replies io none true length last h
shift_any-Reads io none false length last h = (shift-replies io false length last, λ e. absurd (cc))

leave_shift_dr-replies : (j : Jtag) (post : ℕ) → (leave_shift_dr j post).io.replies ≡ j.io.replies
unfolding leave_shift_dr
leave_shift_dr-replies j post =
    let padded : Jtag = record j { io = shift j.io false post true } in
    let clocked = shift-replies j.io false post true in
    elim (Bool-cases (post == 0)) [
      | inl last_device ↦ rw last_device (set_tap_state-replies padded j.post_dr_state 0 ∙ clocked)
      | inr more ↦
          let j'' = next_tap_state padded true in
          rw more (
            set_tap_state-replies j'' j''.post_dr_state 0
            ∙ next_tap_state-replies padded true
            ∙ clocked)
    ]

ready-replies :
    (j : Jtag) (incomplete : Bool) (pre : ℕ)
    → (if incomplete then j else set_tap_state j shift_dr pre).io.replies ≡ j.io.replies
ready-replies j true pre = refl
ready-replies j false pre = set_tap_state-replies j shift_dr pre

-- A data shift of a bit at least that is left again.
pub shift_dr_data-Reads :
    (j : Jtag) (tdi : Option (List ℕ)) (wants_tdo : Bool) (length : ℕ)
    → 0 < length
    → pos 0 ≤ℤ j.device_index
    → Reads wants_tdo j (shift_dr_data j tdi wants_tdo length 0 true)
unfolding shift_dr_data shift_dr_at
shift_dr_data-Reads j tdi wants_tdo length h selected =
    let is_selected : ltb_ℤ j.device_index (pos 0) ≡ false = ground arith in
    let post = pos_part j.device_index in
    let last = post == 0 && true in
    let pre : ℕ = pos_part (pre_bits j 0) in
    let ready = if j.shift_dr_incomplete then j else set_tap_state j shift_dr pre in
    let before = ready-replies j j.shift_dr_incomplete pre in
    let sent = shift_any-Reads ready.io tdi wants_tdo length last h in
    let io = (shift_any ready.io tdi wants_tdo length last).0 in
    let shifted = next_tap_state (record ready { io = io }) last in
    rw is_selected (
      leave_shift_dr-replies shifted post
          ∙ next_tap_state-replies (record ready { io = io }) last
          ∙ sent.0
          ∙ ap (λ r. if wants_tdo then later_replies r else r) before,
      λ e. sent.1 e ∙ ap next_reply before,
    )
