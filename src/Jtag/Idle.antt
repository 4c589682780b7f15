-- ===== src/Jtag/Idle.antt =====
-- The chain between two shifts, as the programming algorithm uses it: one device is selected, and every
-- shift ends in Run-Test/Idle.
use fpga_device_server.Common.{
  ℕ, zero, suc, ◌<◌, ◌≡◌, refl, sym, ap, ◌∙◌, subst, Bool, true, false, Option, some, List,
  get_elem?, arith,
}
use mathlib.Core.Bool.{false≢true}
use fpga_device_server.Common.Int.{pos, ◌≤ℤ◌}
use fpga_device_server.Tap.{TapState, run_test_idle, tap_next}
use fpga_device_server.Tap.Moves.{IsKnown}
use fpga_device_server.IoBase.{shift, usleep_io}
use fpga_device_server.IoBase.Blocks.{shift-Clocked, usleep_io-Clocked}
use fpga_device_server.Jtag.{ChainParam, Jtag, cycle_tck, usleep_jtag, shift_ir_data, shift_dr_data}
use fpga_device_server.Jtag.Frame.{Same, Same-io, shift_ir_data-Same, shift_dr_data-Same}
use fpga_device_server.Jtag.Reset.{Tracks, Tracks-MayTrack}
use fpga_device_server.Jtag.Steps.{Tracks-block, after_block}
use fpga_device_server.Jtag.Shifts.{IsReady, shift_dr_data-IsReady}
use fpga_device_server.Jtag.Instructions.{shift_ir_data-IsReady}

module _ (t0 : TapState) (index : ℕ) (d : ChainParam) where
  -- The device is selected and no shift is open; the controllers may still have to be reset.
  pub record IsPrepared (j : Jtag) : Type 0 where
    pub ready : IsReady t0 j
    pub closed : j.shift_dr_incomplete ≡ false
    pub selected : j.device_index ≡ pos index
    pub there : get_elem? j.devices index ≡ some d
    pub irlen : 0 < d.irlen
    pub post_dr : j.post_dr_state ≡ run_test_idle
    pub post_ir : j.post_ir_state ≡ run_test_idle

  -- And the controllers are in Run-Test/Idle.
  pub record IsIdle (j : Jtag) : Type 0 where
    pub prepared : IsPrepared j
    pub tracked : Tracks t0 j
    pub idle : j.current_state ≡ run_test_idle

loops :
    (j : Jtag) → j.current_state ≡ run_test_idle → tap_next j.current_state false ≡ j.current_state
unfolding tap_next
loops j e = ground arith

module _ {t0 : TapState} {index : ℕ} {d : ChainParam} where
  kept :
      {j j' : Jtag}
      → IsPrepared t0 index d j
      → Same j j'
      → IsReady t0 j'
      → Tracks t0 j'
      → j'.current_state ≡ run_test_idle
      → IsIdle t0 index d j'
  kept p s r k e = record {
    prepared = record {
      ready = r;
      closed = s.shift_dr_incomplete ∙ p.closed;
      selected = s.device_index ∙ p.selected;
      there = ap (λ ds. get_elem? ds index) s.devices ∙ p.there;
      irlen = p.irlen;
      post_dr = s.post_dr_state ∙ p.post_dr;
      post_ir = s.post_ir_state ∙ p.post_ir;
    };
    tracked = k;
    idle = e;
  }

  pub shift_ir_data-IsIdle :
      (j : Jtag) (tdi : List ℕ) (wants_tdo : Bool)
      → IsPrepared t0 index d j
      → IsIdle t0 index d (shift_ir_data j tdi wants_tdo).0
  shift_ir_data-IsIdle j tdi wants_tdo p =
      let out =
        shift_ir_data-IsReady t0 j index d tdi wants_tdo p.ready p.closed p.selected p.there
          p.irlen in
      kept p (shift_ir_data-Same j tdi wants_tdo) out.0 out.1 (out.2 ∙ p.post_ir)

  pub is_selected : {j : Jtag} → IsPrepared t0 index d j → pos 0 ≤ℤ j.device_index
  is_selected p = rw p.selected (omega arith)

  pub shift_dr_data-IsIdle :
      (j : Jtag) (tdi : Option (List ℕ)) (wants_tdo : Bool) (length : ℕ)
      → 0 < length
      → IsPrepared t0 index d j
      → IsIdle t0 index d (shift_dr_data j tdi wants_tdo length 0 true).0
  shift_dr_data-IsIdle j tdi wants_tdo length h p =
      let out = shift_dr_data-IsReady t0 j tdi wants_tdo length 0 true p.ready h (is_selected p) in
      kept p (shift_dr_data-Same j tdi wants_tdo length p.closed) out.0 out.1 (out.2 ∙ p.post_dr)

  -- Clocks with TMS low stay in Run-Test/Idle.
  clocked :
      (j j' : Jtag)
      → IsIdle t0 index d j
      → Same j j'
      → Tracks t0 j'
      → j'.current_state ≡ j.current_state
      → IsIdle t0 index d j'
  clocked j j' s same k e =
      let r = s.prepared.ready in
      kept s.prepared same
        (record {
          start = r.start;
          may_track = Tracks-MayTrack k;
          open_shift =
              λ c. absurd (false≢true (sym (same.shift_dr_incomplete ∙ s.prepared.closed) ∙ c));
          post_dr = subst IsKnown (sym same.post_dr_state) r.post_dr;
          post_ir = subst IsKnown (sym same.post_ir_state) r.post_ir;
        })
        k (e ∙ s.idle)

  pub cycle_tck-IsIdle :
      (j : Jtag) (n : ℕ) (tdi : Bool) → IsIdle t0 index d j → IsIdle t0 index d (cycle_tck j n tdi)
  unfolding cycle_tck
  cycle_tck-IsIdle j n tdi s =
      let io = shift j.io tdi n false in
      clocked j (record j { io = io }) s (Same-io j io)
        (Tracks-block t0 j io j.current_state n false s.tracked
          (shift-Clocked j.io tdi n false s.tracked.buffer) (loops j s.idle)
          (after_low n j.current_state) s.tracked.known)
        refl
    where
      after_low : (n : ℕ) (s : TapState) → after_block s n false ≡ s
      after_low zero s = refl
      after_low (suc n) s = refl

  pub usleep_jtag-IsIdle :
      (j : Jtag) (usec : ℕ) → IsIdle t0 index d j → IsIdle t0 index d (usleep_jtag j usec)
  unfolding usleep_jtag
  usleep_jtag-IsIdle j usec s =
      let io = usleep_io j.io usec in
      clocked j (record j { io = io }) s (Same-io j io)
        (Tracks-block t0 j io j.current_state 0 false s.tracked
          (usleep_io-Clocked j.io usec s.tracked.buffer) (loops j s.idle) refl s.tracked.known)
        refl
