-- ===== src/Jtag/Chain.antt =====
-- The scan of the chain (Jtag::getChain) against the identification codes that the cable reads.
use mathlib.Core.List.{reverse, reverse-cons}
use fpga_device_server.Common.{
  ℕ, zero, suc, ◌+◌, ◌≡◌, refl, sym, ap, ◌∙◌, ◌⊎◌, inl, inr, Bool, true, false, ◌||◌, some, List,
  [], ◌∷◌, ◌++◌, map, append_assoc, arith, if◌then◌else◌, Bool-cases, length,
}
use mathlib.Core.Path.{ap₂}
use fpga_device_server.Common.Int.{pos, negsuc, ◌+ℤ◌, int_laws, eqb_ℤ}
use fpga_device_server.Tap.{TapState, test_logic_reset, shift_dr}
use fpga_device_server.Tap.Moves.{IsKnown}
use fpga_device_server.IoBase.{Io, shift_tdi_tdo, next_reply, later_replies}
use fpga_device_server.IoBase.Wire.{IsBuffer}
use fpga_device_server.IoBase.Blocks.{shift_tdi_tdo-Clocked}
use fpga_device_server.Jtag.{
  ChainParam, Jtag, byte_array_to_long, is_idcode, chain_loop, max_num_devices, get_chain,
  set_tap_state, tap_test_logic_reset,
}
use fpga_device_server.Jtag.Frame.{set_tap_state-Same, tap_test_logic_reset-Same}
use fpga_device_server.Jtag.Reset.{
  Tracks, Tracks-MayTrack, set_tap_state-Tracks, tap_test_logic_reset-Tracks,
}
use fpga_device_server.Jtag.Replies.{reset-replies, set_tap_state-replies}
use fpga_device_server.Jtag.Steps.{low_block-Tracks}

-- The identification codes among the replies, up to the first that is none, and no more than `n`.
pub chain_ids : ℕ → List (List ℕ) → List ℕ
chain_ids zero replies = []
chain_ids (suc n) replies =
    let rest = chain_ids n (later_replies replies) in
    let id = byte_array_to_long (next_reply replies) in if is_idcode id then id ∷ rest else []

abbrev pub idcodes : List ChainParam → List ℕ
idcodes = map λ d. d.idcode

plus_one : (m : ℕ) → pos m +ℤ pos 1 ≡ pos (m + 1)
plus_one m = omega int_laws

-- What the loop has found.
abbrev Found : TapState → Jtag → List ℕ → ℕ → Jtag → Type 0
Found t0 j ids m j' =
    Tracks t0 j'
    × (j'.num_devices ≡ pos (m + length ids))
    × (idcodes j'.devices ≡ reverse ids ++ idcodes j.devices)

abbrev four_zeros : List ℕ
four_zeros = 0 ∷ 0 ∷ 0 ∷ 0 ∷ []

read_id :
    (io : Io)
    → ((shift_tdi_tdo io (some four_zeros) true 32 false).0.replies ≡ later_replies io.replies)
      × ((shift_tdi_tdo io (some four_zeros) true 32 false).1 ≡ next_reply io.replies)
unfolding shift_tdi_tdo
read_id io = ground arith

chain_loop-Found :
    (left : ℕ) (t0 : TapState) (junk m : ℕ) (j : Jtag)
    → Tracks t0 j
    → j.current_state ≡ shift_dr
    → j.num_devices ≡ pos m
    → Found t0 j (chain_ids left j.io.replies) m (chain_loop left junk j)
unfolding chain_loop chain_ids
chain_loop-Found zero t0 junk m j k e n = (k, n ∙ ap pos (omega arith), refl)
chain_loop-Found (suc left) t0 junk m j k e n =
    let (io, idx) = shift_tdi_tdo j.io (some four_zeros) true 32 false in
    let reads = read_id j.io in
    let c = shift_tdi_tdo-Clocked j.io (some four_zeros) true 32 false k.buffer in
    let k' = low_block-Tracks t0 j io 32 false e k c in
    let id = byte_array_to_long (next_reply j.io.replies) in
    elim (Bool-cases (is_idcode (byte_array_to_long idx))) [
      | inl found ↦
          let found_j : Jtag = record j {
            io = io;
            num_devices = j.num_devices +ℤ pos 1;
            devices = record { idcode = byte_array_to_long idx; irlen = junk } ∷ j.devices;
          } in
          let count : j.num_devices +ℤ pos 1 ≡ pos (m + 1) = rw n (plus_one m) in
          let ih =
            chain_loop-Found left t0 junk (m + 1) found_j
              (record { buffer = k'.buffer; follows = k'.follows; known = k'.known }) e count in
          let ids = chain_ids left (later_replies j.io.replies) in
          let same : chain_ids left found_j.io.replies ≡ ids = ap (chain_ids left) reads.0 in
          rw (found, ap (λ r. is_idcode (byte_array_to_long r)) (sym reads.1) ∙ found)
            (
              ih.0,
              ih.1 ∙ ap pos (ap (λ xs. m + 1 + length xs) same ∙ omega arith),
              ih.2
                  ∙ ap₂ (λ xs y. reverse xs ++ byte_array_to_long y ∷ idcodes j.devices) same
                      reads.1
                  ∙ sym (
                      ap (λ xs. xs ++ idcodes j.devices) (reverse-cons id ids)
                      ∙ append_assoc (reverse ids) (id ∷ []) (idcodes j.devices)),
            )
      | inr ends ↦
          rw (ends, ap (λ r. is_idcode (byte_array_to_long r)) (sym reads.1) ∙ ends)
            (k', n ∙ ap pos (omega arith), refl)
    ]

-- getChain on the first call, or when a new scan is asked for: the devices found are those whose
-- codes come before the first code of all zeros or all ones, a thousand at most, the last one read
-- first; their number is counted and returned; and the controllers are back in Test-Logic-Reset.
pub get_chain-Found :
    (t0 : TapState) (j : Jtag) (detect : Bool) (junk : ℕ)
    → IsKnown t0
    → IsBuffer j.io
    → (j.num_devices ≡ negsuc 0) ⊎ (detect ≡ true)
    → let ids = chain_ids max_num_devices j.io.replies in
      let (j', n) = get_chain j detect junk in
      Tracks t0 j'
      × (j'.current_state ≡ test_logic_reset)
      × (n ≡ pos (length ids))
      × (j'.num_devices ≡ n)
      × (idcodes j'.devices ≡ reverse ids ++ idcodes j.devices)
unfolding get_chain
get_chain-Found t0 j detect junk h b scans =
    let reset = tap_test_logic_reset-Tracks t0 j h b in
    let j1 = tap_test_logic_reset j in
    let scan =
      set_tap_state-Tracks t0 j1 shift_dr 0 h (omega arith) (inl refl) (Tracks-MayTrack reset.0) in
    let scan_j : Jtag = record (set_tap_state j1 shift_dr 0) { num_devices = pos 0 } in
    let loop =
      chain_loop-Found max_num_devices t0 junk 0 scan_j
        (record { buffer = scan.0.buffer; follows = scan.0.follows; known = scan.0.known }) scan.1
        refl in
    let found = chain_loop max_num_devices junk scan_j in
    let end =
      set_tap_state-Tracks t0 found test_logic_reset 0 h (omega arith) (inl refl)
        (Tracks-MayTrack loop.0) in
    let same = set_tap_state-Same found test_logic_reset 0 in
    let ids = chain_ids max_num_devices j.io.replies in
    let read : chain_ids max_num_devices scan_j.io.replies ≡ ids =
      ap (chain_ids max_num_devices) (set_tap_state-replies j1 shift_dr 0 ∙ reset-replies j) in
    let kept = (set_tap_state-Same j1 shift_dr 0).devices ∙ (tap_test_logic_reset-Same j).devices in
    let count : found.num_devices ≡ pos (length ids) =
      loop.1 ∙ ap pos (ap (λ xs. 0 + length xs) read ∙ omega arith) in
    rw (scanning scans) (
      end.0,
      end.1,
      same.num_devices ∙ count,
      refl,
      ap idcodes same.devices ∙ loop.2 ∙ ap₂ (λ xs ds. reverse xs ++ idcodes ds) read kept,
    )
  where
    scanning :
        (j.num_devices ≡ negsuc 0) ⊎ (detect ≡ true)
        → (eqb_ℤ j.num_devices (negsuc 0) || detect) ≡ true
    scanning s = ground arith

-- getChain when the devices are known and no new scan is asked for: nothing is sent, and the number
-- of devices is returned as it was counted.
pub get_chain_known :
    (j : Jtag) (n junk : ℕ) → j.num_devices ≡ pos n → get_chain j false junk ≡ (j, pos n)
unfolding get_chain
get_chain_known j n junk e =
    let known : (eqb_ℤ j.num_devices (negsuc 0) || false) ≡ false = ground arith in
    rw known (ap (λ m. (j, m)) e)
