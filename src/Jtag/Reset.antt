-- ===== src/Jtag/Reset.antt =====
-- The believed state of the TAP controllers against the clocks on the wire: reset and setTapState.
use fpga_device_server.Common.{
  ℕ, zero, suc, ◌≡◌, refl, sym, ap, ◌∙◌, subst, ◌⊎◌, inl, inr, Bool, true, false, List, [], ◌∷◌,
  ◌++◌, append_assoc, append-nil, arith, replicate, Bool-cases,
}
use fpga_device_server.Tap.{
  TapState, test_logic_reset, unknown, same_state, tap_move, tap_next, tap_run,
}
use fpga_device_server.Tap.Moves.{
  IsKnown, same_state_sound, tap_next-tap_move, arrives, arrives_within, five_ones,
  tap_run-five_ones, tap_run-append,
}
use fpga_device_server.IoBase.{Io, set_tms}
use fpga_device_server.IoBase.Wire.{
  IsBuffer, wire, wire-set_tms, wire-flush_tms, flush_tms-IsBuffer,
}
use fpga_device_server.Jtag.{
  Jtag, tap_test_logic_reset, tap_round, set_tap_loop, tap_fuel, set_tap_state, repeat_tms,
}

-- The controllers, which were in state `t0` when the first clock went out.
module _ (t0 : TapState) where
  -- The controllers are where the program believes them to be.
  pub record Tracks (j : Jtag) : Type 0 where
    pub buffer : IsBuffer j.io
    pub follows : tap_run t0 (wire j.io) ≡ j.current_state
    pub known : IsKnown j.current_state

  -- Or else the program knows that it does not know.
  pub record MayTrack (j : Jtag) : Type 0 where
    pub buffer : IsBuffer j.io
    pub honest :
        (j.current_state ≡ unknown)
        ⊎ ((tap_run t0 (wire j.io) ≡ j.current_state) × IsKnown j.current_state)

pub Tracks-MayTrack : {t0 : TapState} {j : Jtag} → Tracks t0 j → MayTrack t0 j
Tracks-MayTrack k = record { buffer = k.buffer; honest = inr (k.follows, k.known) }

pub tap_next-IsKnown : (s : TapState) (b : Bool) → IsKnown s → IsKnown (tap_next s b)
unfolding tap_next
tap_next-IsKnown TapState.unknown b h = absurd (omega arith)
tap_next-IsKnown s true h = omega arith
tap_next-IsKnown s false h = omega arith

pub tap_run-IsKnown : (s : TapState) (bs : List Bool) → IsKnown s → IsKnown (tap_run s bs)
unfolding tap_run
tap_run-IsKnown s [] h = h
tap_run-IsKnown s (b ∷ bs) h = tap_run-IsKnown (tap_next s b) bs (tap_next-IsKnown s b h)

repeat_tms-wire :
    (n : ℕ) (val : Bool) (io : Io)
    → IsBuffer io
    → IsBuffer (repeat_tms n val io) × (wire (repeat_tms n val io) ≡ wire io ++ replicate n val)
unfolding repeat_tms
repeat_tms-wire zero val io b = (b, sym (append-nil (wire io)))
repeat_tms-wire (suc n) val io b =
    let one = wire-set_tms io val b in
    let rest = repeat_tms-wire n val (set_tms io val) one.0 in
    (
      rest.0,
      rest.1
          ∙ ap (λ w. w ++ replicate n val) one.1
          ∙ append_assoc (wire io) (val ∷ []) (replicate n val),
    )

-- Five clocks with TMS high bring the controllers to Test-Logic-Reset, whatever the program believed
-- and wherever they were.
pub tap_test_logic_reset-Tracks :
    (t0 : TapState) (j : Jtag)
    → IsKnown t0
    → IsBuffer j.io
    → Tracks t0 (tap_test_logic_reset j)
      × ((tap_test_logic_reset j).current_state ≡ test_logic_reset)
unfolding tap_test_logic_reset
tap_test_logic_reset-Tracks t0 j h b =
    let ones = repeat_tms-wire 5 true j.io b in
    (
      record {
        buffer = flush_tms-IsBuffer (repeat_tms 5 true j.io) true;
        follows =
            ap (tap_run t0) (wire-flush_tms (repeat_tms 5 true j.io) true ∙ ones.1)
            ∙ tap_run-append t0 (wire j.io) five_ones
            ∙ tap_run-five_ones (tap_run t0 (wire j.io)) (tap_run-IsKnown t0 (wire j.io) h);
        known = omega arith;
      },
      refl,
    )

pub Tracks-set_tms :
    (t0 : TapState) (j : Jtag) (next : TapState) (tms : Bool)
    → Tracks t0 j
    → tap_next j.current_state tms ≡ next
    → Tracks t0 (record j { current_state = next; io = set_tms j.io tms })
unfolding tap_run
Tracks-set_tms t0 j next tms k e =
    let sent = wire-set_tms j.io tms k.buffer in
    record {
      buffer = sent.0;
      follows =
          ap (tap_run t0) sent.1
          ∙ tap_run-append t0 (wire j.io) (tms ∷ [])
          ∙ ap (λ s. tap_next s tms) k.follows
          ∙ e;
      known = subst IsKnown e (tap_next-IsKnown j.current_state tms k.known);
    }

known-ne-unknown : (s : TapState) → IsKnown s → same_state s unknown ≡ false
known-ne-unknown s h = ground arith

-- A round from a known state makes one move of the controllers.
tap_round-Tracks :
    (t0 state : TapState) (j : Jtag)
    → IsKnown state
    → Tracks t0 j
    → Tracks t0 (tap_round state j)
      × ((tap_round state j).current_state ≡ (tap_move j.current_state state).0)
unfolding tap_round
tap_round-Tracks t0 state j h k = rw (known-ne-unknown j.current_state k.known) (
  Tracks-set_tms t0 j (tap_move j.current_state state).0 (tap_move j.current_state state).1 k
      (tap_next-tap_move j.current_state state k.known h),
  refl,
)

set_tap_loop-Tracks :
    (fuel : ℕ) (t0 state : TapState) (j : Jtag)
    → IsKnown state
    → arrives fuel j.current_state state ≡ true
    → Tracks t0 j
    → Tracks t0 (set_tap_loop fuel state j) × ((set_tap_loop fuel state j).current_state ≡ state)
unfolding set_tap_loop
set_tap_loop-Tracks zero t0 state j h a k = (k, same_state_sound j.current_state state a)
set_tap_loop-Tracks (suc fuel) t0 state j h a k =
    elim (Bool-cases (same_state j.current_state state)) [
      | inl there ↦ rw there (k, same_state_sound j.current_state state there)
      | inr away ↦
          let round = tap_round-Tracks t0 state j h k in
          rw away (
            set_tap_loop-Tracks fuel t0 state (tap_round state j) h (rw round.1 (rw away at a))
              round.0)
    ]

set_tap_loop-unknown :
    (fuel : ℕ) (t0 state : TapState) (j : Jtag)
    → IsKnown t0
    → IsKnown state
    → IsBuffer j.io
    → j.current_state ≡ unknown
    → Tracks t0 (tap_round state j)
      × (set_tap_loop (suc fuel) state j ≡ set_tap_loop fuel state (tap_round state j))
unfolding set_tap_loop tap_round tap_next tap_test_logic_reset
set_tap_loop-unknown fuel t0 state j h0 h b e =
    let reset = tap_test_logic_reset-Tracks t0 j h0 b in
    let lost : same_state j.current_state unknown ≡ true = ground arith in
    let away : same_state j.current_state state ≡ false = ground arith in
    (
      rw lost
          (Tracks-set_tms t0 (tap_test_logic_reset j) test_logic_reset true reset.0 (rw reset.1)),
      rw away,
    )

set_tap_loop-MayTrack :
    (t0 state : TapState) (j : Jtag)
    → IsKnown t0
    → IsKnown state
    → MayTrack t0 j
    → Tracks t0 (set_tap_loop tap_fuel state j)
      × ((set_tap_loop tap_fuel state j).current_state ≡ state)
set_tap_loop-MayTrack t0 state j h0 h (m) = elim m.honest [
  | inl lost ↦
      let first = set_tap_loop-unknown 8 t0 state j h0 h m.buffer lost in
      rw first.1 (
        set_tap_loop-Tracks 8 t0 state (tap_round state j) h
          (arrives_within _ state first.0.known h) first.0)
  | inr (follows, known) ↦
      set_tap_loop-Tracks tap_fuel t0 state j h
        (arrives_longer 8 j.current_state state (arrives_within _ state known h))
        (record { buffer = m.buffer; follows = follows; known = known })
]
  where
    arrives_longer : (n : ℕ) (s t : TapState) → arrives n s t ≡ true → arrives (suc n) s t ≡ true
    arrives_longer zero s t a = rw a
    arrives_longer (suc n) s t a = elim (Bool-cases (same_state s t)) [
      | inl there ↦ rw there
      | inr away ↦ rw away (arrives_longer n (tap_move s t).0 t (rw away at a))
    ]

repeat_low-Tracks :
    (n : ℕ) (t0 : TapState) (j : Jtag)
    → tap_next j.current_state false ≡ j.current_state
    → Tracks t0 j
    → Tracks t0 (record j { io = repeat_tms n false j.io })
unfolding repeat_tms
repeat_low-Tracks zero t0 j e k = k
repeat_low-Tracks (suc n) t0 j e k =
    repeat_low-Tracks n t0 (record j { io = set_tms j.io false }) e
      (Tracks-set_tms t0 j j.current_state false k e)

-- setTapState ends: nine rounds are enough. It reaches the state that was asked for, and the
-- controllers are in that state, also when the program had lost track of them. The clocks with TMS
-- low that may follow are harmless where the state has a loop on TMS low.
pub set_tap_state-Tracks :
    (t0 : TapState) (j : Jtag) (state : TapState) (pre : ℕ)
    → IsKnown t0
    → IsKnown state
    → (pre ≡ 0) ⊎ (tap_next state false ≡ state)
    → MayTrack t0 j
    → Tracks t0 (set_tap_state j state pre) × ((set_tap_state j state pre).current_state ≡ state)
unfolding set_tap_state
set_tap_state-Tracks t0 j state pre h0 h (inl e) m =
    rw e (unfold repeat_tms in set_tap_loop-MayTrack t0 state j h0 h m)
set_tap_state-Tracks t0 j state pre h0 h (inr e) m =
    let there = set_tap_loop-MayTrack t0 state j h0 h m in
    (
      repeat_low-Tracks pre t0 (set_tap_loop tap_fuel state j)
          (subst (λ s. tap_next s false ≡ s) (sym there.1) e) there.0,
      there.1,
    )
