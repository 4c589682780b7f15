-- ===== src/Tap/Moves.antt =====
-- The moves of setTapState against the controller's table, by checking every pair of states.
use fpga_device_server.Common.{
  ℕ, zero, suc, ◌<◌, ◌≡◌, refl, Bool, true, every_below, every_below_at, List, [], ◌∷◌, ◌++◌, arith,
  ltb, ltb→lt, if◌then◌else◌,
}
use fpga_device_server.Tap.{
  TapState, test_logic_reset, run_test_idle, select_dr_scan, capture_dr, shift_dr, exit1_dr,
  pause_dr, exit2_dr, update_dr, select_ir_scan, capture_ir, shift_ir, exit1_ir, pause_ir, exit2_ir,
  update_ir, unknown, code, same_state, tap_move, tap_next, tap_run,
}

-- The state with a given enum value.
state : ℕ → TapState
state zero = test_logic_reset
state (suc zero) = run_test_idle
state (suc (suc zero)) = select_dr_scan
state (suc (suc (suc zero))) = capture_dr
state (suc (suc (suc (suc n)))) = upper n
  where
    upper' : ℕ → TapState
    upper' zero = update_dr
    upper' (suc zero) = select_ir_scan
    upper' (suc (suc zero)) = capture_ir
    upper' (suc (suc (suc zero))) = shift_ir
    upper' (suc (suc (suc (suc zero)))) = exit1_ir
    upper' (suc (suc (suc (suc (suc zero))))) = pause_ir
    upper' (suc (suc (suc (suc (suc (suc zero)))))) = exit2_ir
    upper' (suc (suc (suc (suc (suc (suc (suc n))))))) = update_ir

    upper : ℕ → TapState
    upper zero = shift_dr
    upper (suc zero) = exit1_dr
    upper (suc (suc zero)) = pause_dr
    upper (suc (suc (suc zero))) = exit2_dr
    upper (suc (suc (suc (suc n)))) = upper' n

-- One of the sixteen states of the controller.
abbrev pub IsKnown : TapState → Type 0
IsKnown s = code s < 16

state-code : (s : TapState) → IsKnown s → state (code s) ≡ s
unfolding state
state-code test_logic_reset h = refl
state-code run_test_idle h = refl
state-code select_dr_scan h = refl
state-code capture_dr h = refl
state-code shift_dr h = refl
state-code exit1_dr h = refl
state-code pause_dr h = refl
state-code exit2_dr h = refl
state-code update_dr h = refl
state-code select_ir_scan h = refl
state-code capture_ir h = refl
state-code shift_ir h = refl
state-code exit1_ir h = refl
state-code pause_ir h = refl
state-code exit2_ir h = refl
state-code update_ir h = refl
state-code unknown h = absurd (omega arith)

pub same_state_sound : (s t : TapState) → same_state s t ≡ true → s ≡ t
same_state_sound s t h = ground arith

-- A property of two states that a test decides holds everywhere if it holds on the table.
every_pair :
    (p : TapState → TapState → Bool)
    → every_below 16 (λ i. every_below 16 (λ j. p (state i) (state j))) ≡ true
    → (s t : TapState) → IsKnown s
    → IsKnown t
    → p s t ≡ true
every_pair p table s t hs ht =
    rw (state-code s hs, state-code t ht) at
      (every_below_at 16 (λ j. p (state (code s)) (state j)) (code t)
        (every_below_at 16 (λ i. every_below 16 (λ j. p (state i) (state j))) (code s) table hs) ht)

-- Every move that the code makes is the move that the controller makes on the bit it is sent.
pub tap_next-tap_move :
    (s t : TapState) → IsKnown s → IsKnown t → tap_next s (tap_move s t).1 ≡ (tap_move s t).0
unfolding every_below state tap_next tap_move
tap_next-tap_move s t hs ht =
    same_state_sound _ _
      (every_pair (λ s t. same_state (tap_next s (tap_move s t).1) (tap_move s t).0) refl s t hs ht)

pub tap_move-IsKnown : (s t : TapState) → IsKnown s → IsKnown t → IsKnown (tap_move s t).0
unfolding every_below state tap_move
tap_move-IsKnown s t hs ht =
    ltb→lt _ _ (every_pair (λ s t. ltb (code (tap_move s t).0) 16) refl s t hs ht)

-- Whether the moves from the first state reach the second within the given number of bits.
abbrev pub arrives : ℕ → TapState → TapState → Bool
arrives zero s t = same_state s t
arrives (suc n) s t = if same_state s t then true else arrives n (tap_move s t).0 t

-- No two states are more than eight bits apart on the way that the code takes.
pub arrives_within : (s t : TapState) → IsKnown s → IsKnown t → arrives 8 s t ≡ true
unfolding every_below state tap_move
arrives_within = every_pair (arrives 8) refl

abbrev pub five_ones : List Bool
five_ones = true ∷ true ∷ true ∷ true ∷ true ∷ []

-- Five clocks with TMS high reset the controller from any of its states.
pub tap_run-five_ones : (s : TapState) → IsKnown s → tap_run s five_ones ≡ test_logic_reset
unfolding every_below state tap_run tap_next
tap_run-five_ones s hs =
    same_state_sound _ _
      (every_pair (λ s t. same_state (tap_run s five_ones) test_logic_reset) refl s s hs hs)

pub tap_run-append :
    (s : TapState) (xs ys : List Bool) → tap_run s (xs ++ ys) ≡ tap_run (tap_run s xs) ys
unfolding tap_run
tap_run-append s [] ys = refl
tap_run-append s (x ∷ xs) ys = tap_run-append (tap_next s x) xs ys
