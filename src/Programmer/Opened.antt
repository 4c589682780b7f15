-- ===== src/Programmer/Opened.antt =====
-- The constructor of DeviceProgrammer (src/devices/DeviceProgrammer.cpp): which chains it takes, and what it
-- leaves for the programming algorithm.
use fpga_device_server.Common.{
  ℕ, ◌≡◌, ◌≢◌, refl, sym, ap, ◌∙◌, subst, ◌⊎◌, inl, inr, true, false, none, some, List, [], ◌∷◌,
  ◌++◌, ◌==◌, Bool-cases, Option-cases, length, get_elem?, arith,
}
use mathlib.Core.Bool.{false≢true}
use mathlib.Core.List.{reverse}
use fpga_device_server.Common.Int.{pos, eqb_ℤ, leb_ℤ}
use fpga_device_server.Common.Effect.{Result, ok, err}
use fpga_device_server.Tap.{TapState, test_logic_reset, run_test_idle}
use fpga_device_server.Tap.Moves.{IsKnown}
use fpga_device_server.IoBase.{Io}
use fpga_device_server.IoBase.Wire.{IsBuffer}
use fpga_device_server.Jtag.{
  ChainParam, Jtag, jtag_init, get_chain, max_num_devices, get_device_id, set_tap_state,
  set_device_ir_length, select_device, with_irlen,
}
use fpga_device_server.Jtag.Frame.{set_tap_state-Same}
use fpga_device_server.Jtag.Reset.{Tracks, Tracks-MayTrack, set_tap_state-Tracks}
use fpga_device_server.Jtag.Chain.{chain_ids, idcodes, get_chain-Found}
use fpga_device_server.Jtag.Settings.{get_chain-SameSettings}
use fpga_device_server.Jtag.Idle.{IsPrepared}
use fpga_device_server.Programmer.{
  Programmer, ProgrammerError, jtag_chain, jtag_id, family_of, irlen_xc6_xc7, prepare, programmer,
}

-- What the constructor makes of the identification codes of the chain.
abbrev pub Opened : TapState → List ℕ → Result ProgrammerError Programmer → Type 0
Opened t0 ids r =
    ((length ids ≢ 1) × (r ≡ err jtag_chain))
    ⊎ ((id : ℕ) × (ids ≡ id ∷ [])
        × (((family_of id ≡ none) × (r ≡ err jtag_id))
            ⊎ ((family : ℕ) × (p : Programmer) × (family_of id ≡ some family)
                × (r ≡ ok p)
                × (p.family ≡ family)
                × IsPrepared t0 0 (record { idcode = id; irlen = irlen_xc6_xc7 }) p.jtag)))

-- The chain has one device, with that code, and can be prepared.
record HasOne (t0 : TapState) (id : ℕ) (j : Jtag) : Type 0 where
  pub start : IsKnown t0
  pub tracked : Tracks t0 j
  pub one : j.num_devices ≡ pos 1
  pub ids : idcodes j.devices ≡ id ∷ []
  pub post_dr : j.post_dr_state ≡ run_test_idle
  pub post_ir : j.post_ir_state ≡ run_test_idle
  pub closed : j.shift_dr_incomplete ≡ false

device_one :
    (ds : List ChainParam) (id : ℕ)
    → idcodes ds ≡ id ∷ []
    → (d : ChainParam) × (ds ≡ d ∷ []) × (d.idcode ≡ id)
device_one [] id e = absurd (cc)
device_one (d ∷ []) id e = (d, refl, cc)
device_one (d ∷ d' ∷ ds) id e = absurd (cc)

prepare-IsPrepared :
    (t0 : TapState) (id : ℕ) (j : Jtag)
    → HasOne t0 id j
    → IsPrepared t0 0 (record { idcode = id; irlen = irlen_xc6_xc7 }) (prepare j)
unfolding prepare set_device_ir_length select_device
prepare-IsPrepared t0 id j h =
    let (d, one, code) = device_one j.devices id h.ids in
    let in_chain : leb_ℤ j.num_devices (pos 0) ≡ false = ground (arith, h.one) in
    let known : ChainParam = record { idcode = id; irlen = irlen_xc6_xc7 } in
    let k : Jtag = record j { devices = with_irlen j.devices 0 irlen_xc6_xc7 } in
    let devices : k.devices ≡ known ∷ [] =
      ap (λ ds. with_irlen ds 0 irlen_xc6_xc7) one
      ∙ ap (λ c. record { idcode = c; irlen = irlen_xc6_xc7 } ∷ []) code in
    let s = set_tap_state-Same k test_logic_reset 0 in
    let k' = set_tap_state k test_logic_reset 0 in
    let tracked : Tracks t0 k = record {
      buffer = h.tracked.buffer;
      follows = h.tracked.follows;
      known = h.tracked.known;
    } in
    let reset =
      set_tap_state-Tracks t0 k test_logic_reset 0 h.start (omega arith) (inl refl)
        (Tracks-MayTrack tracked) in
    let still : leb_ℤ k'.num_devices (pos 0) ≡ false =
      ap (λ n. leb_ℤ n (pos 0)) s.num_devices ∙ in_chain in
    let selected : IsPrepared t0 0 known (record k' { device_index = pos 0 }) = record {
      ready = record {
        start = h.start;
        may_track =
            Tracks-MayTrack (record {
              buffer = reset.0.buffer;
              follows = reset.0.follows;
              known = reset.0.known;
            });
        open_shift = λ e. absurd (false≢true (sym (s.shift_dr_incomplete ∙ h.closed) ∙ e));
        post_dr = subst IsKnown (sym (s.post_dr_state ∙ h.post_dr)) (omega arith);
        post_ir = subst IsKnown (sym (s.post_ir_state ∙ h.post_ir)) (omega arith);
      };
      closed = s.shift_dr_incomplete ∙ h.closed;
      selected = refl;
      there = ap (λ ds. get_elem? ds 0) (s.devices ∙ devices);
      irlen = omega arith;
      post_dr = s.post_dr_state ∙ h.post_dr;
      post_ir = s.post_ir_state ∙ h.post_ir;
    } in
    rw (in_chain, still) selected

reverse_one :
    (ids : List ℕ) → length ids ≡ 1 → (id : ℕ) × (ids ≡ id ∷ []) × (reverse ids ++ [] ≡ id ∷ [])
reverse_one [] h = absurd (omega arith)
reverse_one (id ∷ []) h = (id, refl, refl)
reverse_one (id ∷ id' ∷ ids) h = absurd (omega arith)

id_of_one :
    (ds : List ChainParam) (id : ℕ)
    → idcodes ds ≡ id ∷ []
    → elim (get_elem? ds 0) [ none ↦ 0 | some d ↦ d.idcode ] ≡ id
id_of_one ds id e = let (d, one, code) = device_one ds id e in rw one code

-- The constructor of DeviceProgrammer on an open cable, whatever the devices answer: it throws if the
-- chain has not just one device, or if that is neither of the two that are known; or else the object has
-- the family of the device, and its chain is prepared for programming: the device is selected with its
-- instruction register of six bits, and the controllers are where the program believes them to be.
pub programmer-Opened :
    (t0 : TapState) (junk : ℕ) (io : Io)
    → IsKnown t0
    → IsBuffer io
    → Opened t0 (chain_ids max_num_devices io.replies) (programmer junk io)
unfolding programmer get_device_id jtag_init
programmer-Opened t0 junk io h b =
    let ids = chain_ids max_num_devices io.replies in
    let found = get_chain-Found t0 (jtag_init io) false junk h b (inl refl) in
    let settings = get_chain-SameSettings (jtag_init io) false junk in
    let (j, n) = get_chain (jtag_init io) false junk in
    elim (Bool-cases (length ids == 1)) [
      | inr other ↦
          let refused : eqb_ℤ n (pos 1) ≡ false =
            ap (λ m. eqb_ℤ m (pos 1)) found.2 ∙ other_count (length ids) other in
          inl (ground arith, rw refused refl)
      | inl one ↦
          let (id, e, back) = reverse_one ids (ground arith) in
          let code = id_of_one j.devices id (found.4 ∙ back) in
          let taken : eqb_ℤ n (pos 1) ≡ true =
            ap (λ m. eqb_ℤ m (pos 1)) (found.2 ∙ ap (λ xs. pos (length xs)) e) in
          let has : HasOne t0 id j = record {
            start = h;
            tracked = found.0;
            one = found.3 ∙ found.2 ∙ ap (λ xs. pos (length xs)) e;
            ids = found.4 ∙ back;
            post_dr = settings.post_dr_state;
            post_ir = settings.post_ir_state;
            closed = settings.shift_dr_incomplete;
          } in
          inr (
            id,
            e,
            elim (Option-cases (family_of id)) [
              | inl foreign ↦ inl (foreign, rw (taken, ap family_of code ∙ foreign) refl)
              | inr (family, known) ↦ inr (
                family,
                record { jtag = prepare j; family = family },
                known,
                rw (taken, ap family_of code ∙ known) refl,
                refl,
                prepare-IsPrepared t0 id j has,
              )
            ],
          )
    ]
  where
    other_count : (m : ℕ) → (m == 1) ≡ false → eqb_ℤ (pos m) (pos 1) ≡ false
    other_count m e = ground arith
