-- ===== src/Programmer/Script.antt =====
-- What the programming algorithm asks of the chain, as a script, and what running a script keeps.
use fpga_device_server.Common.{
  ℕ, zero, suc, ◌*◌, ◌<◌, ◌≡◌, refl, ap, ◌∙◌, inl, inr, Bool-cases, Bool, true, false, Option, none,
  some, List, [], ◌∷◌, ◌++◌, replicate, if◌then◌else◌, arith,
}
use fpga_device_server.Tap.{TapState}
use fpga_device_server.BitFile.{BitFile}
use fpga_device_server.IoBase.{later_replies}
use fpga_device_server.Jtag.{ChainParam, Jtag, shift_ir_data, shift_dr_data, cycle_tck, usleep_jtag}
use fpga_device_server.Jtag.Idle.{
  IsPrepared, IsIdle, shift_ir_data-IsIdle, shift_dr_data-IsIdle, cycle_tck-IsIdle,
  usleep_jtag-IsIdle, is_selected,
}
use fpga_device_server.Jtag.Replies.{
  shift_ir_data-Reads, shift_dr_data-Reads, cycle_tck-replies, usleep_jtag-replies,
}
use fpga_device_server.Programmer.{
  ProgAlg, jprogram, cfg_in, jshutdown, jstart, isc_enable, isc_disable, bypass, isc_dna,
  get_length, has_dna,
}

-- An instruction, data for the register that it selects, clocks in Run-Test/Idle, and a pause. The
-- Boolean asks for what is shifted out.
pub data Op : Type 0 where
  instruction : List ℕ → Bool → Op
  shifted : Option (List ℕ) → Bool → ℕ → Op
  idle_clocks : ℕ → Op
  pause : ℕ → Op

pub run_op : Op → Jtag → Jtag
run_op (instruction code wants) j = (shift_ir_data j code wants).0
run_op (shifted tdi wants n) j = (shift_dr_data j tdi wants n 0 true).0
run_op (idle_clocks n) j = cycle_tck j n true
run_op (pause usec) j = usleep_jtag j usec

unfoldable pub run : List Op → Jtag → Jtag
unfolding run_op
run [] j = j
run (op ∷ ops) j = run ops (run_op op j)

pub run-append : (ops ops' : List Op) (j : Jtag) → run (ops ++ ops') j ≡ run ops' (run ops j)
unfolding run
run-append [] ops' j = refl
run-append (op ∷ ops) ops' j = run-append ops ops' (run_op op j)

-- One bit of zero through BYPASS.
abbrev bypassed : List Op
bypassed = instruction bypass false ∷ shifted (some (0 ∷ [])) false 1 ∷ idle_clocks 1 ∷ []

-- The device is told to clear its configuration.
abbrev pub clear_ops : ProgAlg → List Op
clear_ops alg =
    instruction isc_enable false
    ∷ shifted (some (0 ∷ [])) false 5
    ∷ idle_clocks alg.tck_len
    ∷ instruction jprogram false
    ∷ []

abbrev pub dna_ops : ProgAlg → List Op
dna_ops alg =
    if has_dna alg
    then instruction isc_enable false
      ∷ instruction isc_dna false
      ∷ shifted none true 64
      ∷ idle_clocks 1
      ∷ []
    else []

-- The bits of the file, between a shutdown and a start.
abbrev pub load_ops : ProgAlg → BitFile → List Op
load_ops alg file =
    (instruction jshutdown false
      ∷ idle_clocks alg.tck_len
      ∷ instruction cfg_in false
      ∷ shifted (some file.buffer) false (get_length file)
      ∷ idle_clocks 1
      ∷ instruction jstart false
      ∷ idle_clocks (2 * alg.tck_len)
      ∷ [])
    ++ (bypassed ++ ((instruction isc_disable false ∷ idle_clocks alg.tck_len ∷ []) ++ bypassed))

abbrev pub clear_poll : Op
clear_poll = instruction cfg_in true

-- The polls of a device that starts.
unfoldable pub up_polls : ℕ → List Op
up_polls zero = []
up_polls (suc m) = instruction bypass true ∷ pause 1000 ∷ up_polls m

-- All up to the last polls, with `n` polls until the configuration is cleared.
abbrev pub before_up : ProgAlg → BitFile → ℕ → List Op
before_up alg file n =
    clear_ops alg ++ (replicate n clear_poll ++ (dna_ops alg ++ load_ops alg file))

-- The whole of it, with `m` polls until the device is up.
abbrev pub script : ProgAlg → BitFile → ℕ → ℕ → List Op
script alg file n m = before_up alg file n ++ up_polls m

-- Data is shifted by a bit at least.
abbrev pub IsOp : Op → Type 0
IsOp (instruction code wants) = Unit {0}
IsOp (shifted tdi wants n) = 0 < n
IsOp (idle_clocks n) = Unit {0}
IsOp (pause usec) = Unit {0}

abbrev pub AreOps : List Op → Type 0
AreOps [] = Unit {0}
AreOps (op ∷ ops) = IsOp op × AreOps ops

pub AreOps-append : (ops ops' : List Op) → AreOps ops → AreOps ops' → AreOps (ops ++ ops')
AreOps-append [] ops' h h' = h'
AreOps-append (op ∷ ops) ops' h h' = (h.0, AreOps-append ops ops' h.1 h')

pub AreOps-polls : (n : ℕ) → AreOps (replicate n clear_poll)
AreOps-polls zero = tt
AreOps-polls (suc n) = (tt, AreOps-polls n)

pub AreOps-up_polls : (m : ℕ) → AreOps (up_polls m)
unfolding up_polls
AreOps-up_polls zero = tt
AreOps-up_polls (suc m) = (tt, (tt, AreOps-up_polls m))

-- How many replies a script reads.
abbrev reads : Op → ℕ
reads (instruction code wants) = if wants then 1 else 0
reads (shifted tdi wants n) = if wants then 1 else 0
reads (idle_clocks n) = 0
reads (pause usec) = 0

abbrev later : Bool → List (List ℕ) → List (List ℕ)
later wants replies = if wants then later_replies replies else replies

abbrev pub replies_after : List Op → List (List ℕ) → List (List ℕ)
replies_after [] replies = replies
replies_after (instruction code wants ∷ ops) replies = replies_after ops (later wants replies)
replies_after (shifted tdi wants n ∷ ops) replies = replies_after ops (later wants replies)
replies_after (idle_clocks n ∷ ops) replies = replies_after ops replies
replies_after (pause usec ∷ ops) replies = replies_after ops replies

module _ {t0 : TapState} {index : ℕ} {d : ChainParam} where
  pub run_op-IsIdle :
      (op : Op) (j : Jtag) → IsOp op → IsIdle t0 index d j → IsIdle t0 index d (run_op op j)
  unfolding run_op
  run_op-IsIdle (instruction code wants) j h s = shift_ir_data-IsIdle j code wants s.prepared
  run_op-IsIdle (shifted tdi wants n) j h s = shift_dr_data-IsIdle j tdi wants n h s.prepared
  run_op-IsIdle (idle_clocks n) j h s = cycle_tck-IsIdle j n true s
  run_op-IsIdle (pause usec) j h s = usleep_jtag-IsIdle j usec s

  pub run-IsIdle :
      (ops : List Op) (j : Jtag) → AreOps ops → IsIdle t0 index d j → IsIdle t0 index d (run ops j)
  unfolding run
  run-IsIdle [] j h s = s
  run-IsIdle (op ∷ ops) j h s = run-IsIdle ops (run_op op j) h.1 (run_op-IsIdle op j h.0 s)

  -- A script reads a reply for each answer that it asks for.
  pub run-replies :
      (ops : List Op) (j : Jtag)
      → AreOps ops
      → IsIdle t0 index d j
      → (run ops j).io.replies ≡ replies_after ops j.io.replies
  unfolding run
  run-replies [] j h s = refl
  run-replies (instruction code wants ∷ ops) j h s =
      let p = s.prepared in
      run-replies ops (run_op (instruction code wants) j) h.1
        (run_op-IsIdle (instruction code wants) j h.0 s)
      ∙ ap (replies_after ops)
          (shift_ir_data-Reads j index d code wants p.selected p.there p.irlen).0
  run-replies (shifted tdi wants n ∷ ops) j h s =
      run-replies ops (run_op (shifted tdi wants n) j) h.1
        (run_op-IsIdle (shifted tdi wants n) j h.0 s)
      ∙ ap (replies_after ops) (shift_dr_data-Reads j tdi wants n h.0 (is_selected s.prepared)).0
  run-replies (idle_clocks n ∷ ops) j h s =
      run-replies ops (run_op (idle_clocks n) j) h.1 (run_op-IsIdle (idle_clocks n) j h.0 s)
      ∙ ap (replies_after ops) (cycle_tck-replies j n true)
  run-replies (pause usec ∷ ops) j h s =
      run-replies ops (run_op (pause usec) j) h.1 (run_op-IsIdle (pause usec) j h.0 s)
      ∙ ap (replies_after ops) (usleep_jtag-replies j usec)

  -- The script begins with an instruction, which resets the controllers if need be.
  pub started :
      (code : List ℕ) (ops : List Op) (j : Jtag)
      → AreOps ops
      → IsPrepared t0 index d j
      → IsIdle t0 index d (run (instruction code false ∷ ops) j)
  unfolding run
  started code ops j h p =
      run-IsIdle ops (run_op (instruction code false) j) h (shift_ir_data-IsIdle j code false p)

  pub started-replies :
      (code : List ℕ) (ops : List Op) (j : Jtag)
      → AreOps ops
      → IsPrepared t0 index d j
      → (run (instruction code false ∷ ops) j).io.replies ≡ replies_after ops j.io.replies
  unfolding run
  started-replies code ops j h p =
      run-replies ops (run_op (instruction code false) j) h (shift_ir_data-IsIdle j code false p)
      ∙ ap (replies_after ops)
          (shift_ir_data-Reads j index d code false p.selected p.there p.irlen).0

AreOps-dna : (alg : ProgAlg) → AreOps (dna_ops alg)
AreOps-dna alg = elim (Bool-cases (has_dna alg)) [
  | inl has ↦ rw has (omega arith)
  | inr lacks ↦ rw lacks tt
]

-- The script shifts data by a bit at least, if there is any in the file.
pub AreOps-before_up :
    (alg : ProgAlg) (file : BitFile) (n : ℕ) → 0 < get_length file → AreOps (before_up alg file n)
AreOps-before_up alg file n h = AreOps-append (clear_ops alg) _ (omega arith) (
    AreOps-append (replicate n clear_poll) _ (AreOps-polls n)
      (AreOps-append (dna_ops alg) _ (AreOps-dna alg) (omega arith)))
