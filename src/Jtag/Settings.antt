-- ===== src/Jtag/Settings.antt =====
-- The settings for shifts, which looking for the devices of the chain (Jtag::getChain) keeps.
use fpga_device_server.Common.{
  ℕ, zero, suc, ◌≡◌, refl, ◌∙◌, inl, inr, Bool, true, false, ◌||◌, some, [], ◌∷◌, Bool-cases,
}
use fpga_device_server.Common.Int.{pos, ◌+ℤ◌, eqb_ℤ}
use fpga_device_server.Tap.{test_logic_reset, shift_dr}
use fpga_device_server.IoBase.{shift_tdi_tdo}
use fpga_device_server.Jtag.{
  Jtag, byte_array_to_long, is_idcode, chain_loop, max_num_devices, get_chain, set_tap_state,
  tap_test_logic_reset, minus_one,
}
use fpga_device_server.Jtag.Frame.{Same, Same-trans, set_tap_state-Same, tap_test_logic_reset-Same}

-- Looking for devices keeps the settings for shifts.
pub record SameSettings (j j' : Jtag) : Type 0 where
  pub post_dr_state : j'.post_dr_state ≡ j.post_dr_state
  pub post_ir_state : j'.post_ir_state ≡ j.post_ir_state
  pub shift_dr_incomplete : j'.shift_dr_incomplete ≡ j.shift_dr_incomplete

SameSettings-trans : {j k l : Jtag} → SameSettings j k → SameSettings k l → SameSettings j l
SameSettings-trans p q = record {
  post_dr_state = q.post_dr_state ∙ p.post_dr_state;
  post_ir_state = q.post_ir_state ∙ p.post_ir_state;
  shift_dr_incomplete = q.shift_dr_incomplete ∙ p.shift_dr_incomplete;
}

Same-SameSettings : {j k : Jtag} → Same j k → SameSettings j k
Same-SameSettings s = record {
  post_dr_state = s.post_dr_state;
  post_ir_state = s.post_ir_state;
  shift_dr_incomplete = s.shift_dr_incomplete;
}

chain_loop-SameSettings : (left junk : ℕ) (j : Jtag) → SameSettings j (chain_loop left junk j)
unfolding chain_loop
chain_loop-SameSettings zero junk j = record {
  post_dr_state = refl;
  post_ir_state = refl;
  shift_dr_incomplete = refl;
}
chain_loop-SameSettings (suc left) junk j =
    let (io, idx) = shift_tdi_tdo j.io (some (0 ∷ 0 ∷ 0 ∷ 0 ∷ [])) true 32 false in
    elim (Bool-cases (is_idcode (byte_array_to_long idx))) [
      | inl found ↦
          let s = chain_loop-SameSettings left junk (record j {
            io = io;
            num_devices = j.num_devices +ℤ pos 1;
            devices = record { idcode = byte_array_to_long idx; irlen = junk } ∷ j.devices;
          }) in
          rw found (record {
            post_dr_state = s.post_dr_state;
            post_ir_state = s.post_ir_state;
            shift_dr_incomplete = s.shift_dr_incomplete;
          })
      | inr ends ↦
          rw ends
            (record { post_dr_state = refl; post_ir_state = refl; shift_dr_incomplete = refl })
    ]

pub get_chain-SameSettings :
    (j : Jtag) (detect : Bool) (junk : ℕ) → SameSettings j (get_chain j detect junk).0
unfolding get_chain
get_chain-SameSettings j detect junk =
    let scan = set_tap_state (tap_test_logic_reset j) shift_dr 0 in
    let scan_j : Jtag = record scan { num_devices = pos 0 } in
    let found = chain_loop max_num_devices junk scan_j in
    let a = Same-SameSettings (
      Same-trans (tap_test_logic_reset-Same j)
        (set_tap_state-Same (tap_test_logic_reset j) shift_dr 0)) in
    let b = chain_loop-SameSettings max_num_devices junk scan_j in
    let c = Same-SameSettings (set_tap_state-Same found test_logic_reset 0) in
    let b' : SameSettings scan found = record {
      post_dr_state = b.post_dr_state;
      post_ir_state = b.post_ir_state;
      shift_dr_incomplete = b.shift_dr_incomplete;
    } in
    elim (Bool-cases (eqb_ℤ j.num_devices minus_one || detect)) [
      | inl scans ↦ rw scans (SameSettings-trans a (SameSettings-trans b' c))
      | inr known ↦
          rw known
            (record { post_dr_state = refl; post_ir_state = refl; shift_dr_incomplete = refl })
    ]
