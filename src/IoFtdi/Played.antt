-- ===== src/IoFtdi/Played.antt =====
-- The two halves of the cable together: what class IOBase hands to its virtual functions
-- (src/devices/xc3sprog/iobase.h) is done by class IOFtdi (src/devices/xc3sprog/ioftdi.cpp).
use fpga_device_server.Common.{
  ◌≡◌, refl, sym, ap, ◌∙◌, subst, ℕ, zero, suc, ◌+◌, ◌-◌, ◌<◌, Bool, true, false, Option, List, [],
  ◌∷◌, ◌++◌, map, map-append, replicate, arith, append-nil,
}
use mathlib.Core.Path.{ap₂}
use fpga_device_server.Common.Effect.{pure, ◌>>◌}
use fpga_device_server.Device.{Link}
use fpga_device_server.Tap.{TapState, tap_run}
use fpga_device_server.IoBase.{Event, tx_tms, txrx_block, usleep, flush_tms}
use fpga_device_server.IoBase.Bits.{bit, bits}
use fpga_device_server.IoBase.Wire.{wire, log_clocks, clocks, wire-flush_tms}
use fpga_device_server.IoBase.Wire as Wire
use fpga_device_server.IoBase.Blocks.{emptied-wire}
use fpga_device_server.Jtag.{Jtag}
use fpga_device_server.Jtag.Reset.{Tracks}
use fpga_device_server.IoFtdi as Ftdi
use fpga_device_server.IoFtdi.{Cable, Method, usleep_cable}
use fpga_device_server.IoFtdi.Mpsse.{Clock, data_clocks, tms_clocks}
use fpga_device_server.IoFtdi.Stream.{Fits, Emits, Emits-bind, pure-Emits}
use fpga_device_server.IoFtdi.Tms.{level_after, tx_tms-Emits}
use fpga_device_server.IoFtdi.Block.{block_clocks, end_level, txrx_block-Emits}
use fpga_device_server.IoFtdi.Block.Parts.{Moves, Covers}

-- The level of TMS after a call.
abbrev level_of : Bool → Event → Bool
level_of level (tx_tms pat length force) = level_after level pat 0 length
level_of level (txrx_block tdi wants length last) = end_level last level
level_of level (usleep usec) = level

-- A block begins with TMS low, as in every state that a shift is made in, and moves some bits, which its
-- data has. There is no pause.
abbrev pub IsPlayable : Bool → Event → Type 0
IsPlayable level (tx_tms pat length force) = Unit {0}
IsPlayable level (txrx_block tdi wants length last) =
    (level ≡ false) × Moves tdi wants × (0 < length) × Covers tdi length
IsPlayable level (usleep usec) = ⊥

abbrev pub ArePlayable : Bool → List Event → Type 0
ArePlayable level [] = Unit {0}
ArePlayable level (e ∷ es) = IsPlayable level e × ArePlayable (level_of level e) es

-- The clocks of a call, and of a log, with the data that TDI carries.
abbrev event_clocks : Bool → Event → List Clock
event_clocks level (tx_tms pat length force) = tms_clocks true pat 0 length
event_clocks level (txrx_block tdi wants length last) = block_clocks level tdi length last
event_clocks level (usleep usec) = []

abbrev pub played_clocks : Bool → List Event → List Clock
played_clocks level [] = []
played_clocks level (e ∷ es) = event_clocks level e ++ played_clocks (level_of level e) es

abbrev pub played_level : Bool → List Event → Bool
played_level level [] = level
played_level level (e ∷ es) = played_level (level_of level e) es

abbrev pub tms_of : List Clock → List Bool
tms_of = map λ k. k.0

bits_from : List ℕ → ℕ → ℕ → List Bool
bits_from pat i zero = []
bits_from pat i (suc n) = bit pat i ∷ bits_from pat (i + 1) n

tms_of-tms_clocks : (pat : List ℕ) (i n : ℕ) → tms_of (tms_clocks true pat i n) ≡ bits_from pat i n
unfolding bits_from
tms_of-tms_clocks pat i zero = refl
tms_of-tms_clocks pat i (suc n) = ap (λ bs. bit pat i ∷ bs) (tms_of-tms_clocks pat (i + 1) n)

bits_from-suc :
    (pat : List ℕ) (i n : ℕ) → bits_from pat i (suc n) ≡ bits_from pat i n ++ bit pat (i + n) ∷ []
unfolding bits_from
bits_from-suc pat i zero = let e : i + 0 ≡ i = omega arith in rw e refl
bits_from-suc pat i (suc n) =
    let e : i + suc n ≡ i + 1 + n = omega arith in
    ap (λ bs. bit pat i ∷ bs) (bits_from-suc pat (i + 1) n) ∙ rw e refl

bits_from_lem : (pat : List ℕ) (n : ℕ) → bits_from pat 0 n ≡ bits pat n
bits_from_lem pat zero = unfold bits_from in refl
bits_from_lem pat (suc n) =
    let e : 0 + n ≡ n = omega arith in
    bits_from-suc pat 0 n ∙ ap (λ bs. bs ++ bit pat (0 + n) ∷ []) (bits_from_lem pat n) ∙ rw e refl

tms_of-data_clocks :
    (tdi : Option (List ℕ)) (i n : ℕ) → tms_of (data_clocks false tdi i n) ≡ replicate n false
tms_of-data_clocks tdi i zero = refl
tms_of-data_clocks tdi i (suc n) = ap (λ bs. false ∷ bs) (tms_of-data_clocks tdi (i + 1) n)

replicate-suc : (n : ℕ) → replicate (suc n) false ≡ replicate n false ++ false ∷ []
replicate-suc zero = refl
replicate-suc (suc n) = ap (λ bs. false ∷ bs) (replicate-suc n)

tms_of-block_clocks :
    (tdi : Option (List ℕ)) (length : ℕ) (last : Bool)
    → 0 < length
    → tms_of (block_clocks false tdi length last) ≡ Wire.block_clocks length last
tms_of-block_clocks tdi zero last h = elim h [ ]
tms_of-block_clocks tdi (suc n) true h =
    let e : suc n - 1 ≡ n = omega arith in
    rw e (
      map-append (λ k. k.0) (data_clocks false tdi 0 n) _
      ∙ ap (λ bs. bs ++ true ∷ []) (tms_of-data_clocks tdi 0 n))
tms_of-block_clocks tdi (suc n) false h =
    ap tms_of (append-nil (data_clocks false tdi 0 (suc n)))
    ∙ tms_of-data_clocks tdi 0 (suc n)
    ∙ replicate-suc n

tms_of-event_clocks :
    (e : Event) (level : Bool) → IsPlayable level e → tms_of (event_clocks level e) ≡ clocks e
tms_of-event_clocks (tx_tms pat length force) level h =
    tms_of-tms_clocks pat 0 length ∙ bits_from_lem pat length
tms_of-event_clocks (txrx_block tdi wants length last) level h =
    ap (λ l. tms_of (block_clocks l tdi length last)) h.0 ∙ tms_of-block_clocks tdi length last h.2
tms_of-event_clocks (usleep usec) level h = absurd h

-- TMS on those clocks is what the log says.
tms_of-played_clocks :
    (es : List Event) (level : Bool)
    → ArePlayable level es
    → tms_of (played_clocks level es) ≡ log_clocks es
tms_of-played_clocks [] level h = refl
tms_of-played_clocks (e ∷ es) level h =
    map-append (λ k. k.0) (event_clocks level e) (played_clocks (level_of level e) es)
    ∙ ap₂ ◌++◌ (tms_of-event_clocks e level h.0) (tms_of-played_clocks es (level_of level e) h.1)

module _ {F : Type 0} (link : Link F) (errno : F → ℕ) where
  -- IOFtdi's own versions. What a block reads goes to its caller.
  pub play_event : Event → Method F (Unit {0})
  play_event (tx_tms pat length force) = Ftdi.tx_tms link errno pat length force
  play_event (txrx_block tdi wants length last) =
      Ftdi.txrx_block link errno [] tdi wants [] length last >> pure tt
  play_event (usleep usec) = usleep_cable link errno usec

  pub play : List Event → Method F (Unit {0})
  unfolding play_event
  play [] = pure tt
  play (e ∷ es) = play_event e >> play es

  play_event-Emits :
      (e : Event) (level : Bool) (c : Cable F)
      → IsPlayable level e
      → Fits c
      → Emits link level (event_clocks level e) (level_of level e) c (play_event e c)
  unfolding play_event
  play_event-Emits (tx_tms pat length force) level c h fits =
      tx_tms-Emits link errno pat length force level c fits
  play_event-Emits (txrx_block tdi wants length last) level c h fits =
      let cs = block_clocks level tdi length last in
      let end = end_level last level in
      subst (λ ds. Emits link level ds end c (play_event (txrx_block tdi wants length last) c))
        (append-nil cs)
        (Emits-bind link level end end cs [] c
          (Ftdi.txrx_block link errno [] tdi wants [] length last) (λ _. pure tt)
          (txrx_block-Emits link errno [] level tdi wants [] length last c h.1 h.2 h.3 fits)
          (λ _ c' fits'. pure-Emits link end tt c' fits'))
  play_event-Emits (usleep usec) level c h fits = absurd h

  play-Emits :
      (es : List Event) (level : Bool) (c : Cable F)
      → ArePlayable level es
      → Fits c
      → Emits link level (played_clocks level es) (played_level level es) c (play es c)
  unfolding play
  play-Emits [] level c h fits = pure-Emits link level tt c fits
  play-Emits (e ∷ es) level c h fits =
      Emits-bind link level (level_of level e) (played_level level (e ∷ es)) (event_clocks level e)
        (played_clocks (level_of level e) es) c (play_event e) (λ _. play es)
        (play_event-Emits e level c h.0 fits)
        (λ _ c' fits'. play-Emits es (level_of level e) c' h.1 fits')

  -- The methods of Jtag and the commands of the chip meet: where the program believes the controllers to be
  -- in a state that they are in by the bits of the log, the cable, if it takes the log and the pending
  -- bits, has been sent commands whose clocks lead the controllers to that same state. Blocks in the
  -- log begin with TMS low, and there is no pause.
  pub play-Tracks :
      (t0 : TapState) (j : Jtag) (force level : Bool) (c : Cable F)
      → Tracks t0 j
      → ArePlayable level (flush_tms j.io force).log
      → Fits c
      → let es = (flush_tms j.io force).log in
        Emits link level (played_clocks level es) (played_level level es) c (play es c)
        × (tap_run t0 (tms_of (played_clocks level es)) ≡ j.current_state)
  play-Tracks t0 j force level c k h fits =
      let es = (flush_tms j.io force).log in
      (
        play-Emits es level c h fits,
        ap (tap_run t0) (
              tms_of-played_clocks es level h
              ∙ sym (emptied-wire j.io force)
              ∙ wire-flush_tms j.io force)
            ∙ k.follows,
      )
