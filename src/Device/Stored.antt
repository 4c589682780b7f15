-- ===== src/Device/Stored.antt =====
-- What Device::readReg and Device::updateTrackedRegs store of an answer, and which changes they report.
use fpga_device_server.Common.{
  ℕ, zero, suc, ◌+◌, ◌*◌, ◌≡◌, refl, sym, ap, inl, inr, Bool, true, false, Option, none, some, List,
  [], ◌∷◌, ◌++◌, append-nil, arith, ◌==◌, if◌then◌else◌, length, Bool-cases, Option-cases,
}
use fpga_device_server.Protocol.{read_reg, encode, command_head, cmd_readreg, words_of}
use fpga_device_server.Device.{
  AddrPort, RegChange, Device, read_commands, store_value, store_values, change_of, find_reg,
  assign_reg,
}
use fpga_device_server.Device.Tracking.{Regs}

-- The registers with their new values, and the changes among them.
unfoldable pub with_values : Regs → List ℕ → Regs
with_values [] values = []
with_values (r ∷ rs) [] = r ∷ rs
with_values ((key, old) ∷ rs) (v ∷ vs) = (key, v) ∷ with_values rs vs

pub changes_among : List ℕ → Regs → List ℕ → List RegChange
changes_among name [] values = []
changes_among name (r ∷ rs) [] = []
changes_among name (((addr, port), old) ∷ rs) (v ∷ vs) =
    let rest = changes_among name rs vs in
    if v == old then rest else record { name = name; addr = addr; port = port; value = v } ∷ rest

pub store_values_lem :
    (name : List ℕ) (has_callback : Bool) (rs : Regs) (vs : List ℕ)
    → ((store_values name has_callback rs vs).0 ≡ with_values rs vs)
      × ((store_values name has_callback rs vs).1
          ≡ (if has_callback then changes_among name rs vs else []))
unfolding store_values with_values changes_among
store_values_lem name has_callback [] vs = ground arith
store_values_lem name has_callback (r ∷ rs) [] = ground arith
store_values_lem name true (((addr, port), old) ∷ rs) (v ∷ vs) =
    let ih = store_values_lem name true rs vs in
    elim (Bool-cases (v == old)) [
      | inl same ↦ rw (same, ih.0, ih.1) (refl, refl)
      | inr other ↦ rw (other, ih.0, ih.1) (refl, refl)
    ]
store_values_lem name false (((addr, port), old) ∷ rs) (v ∷ vs) =
    let ih = store_values_lem name false rs vs in
    elim (Bool-cases (v == old)) [
      | inl same ↦ rw (same, ih.0, ih.1) (refl, refl)
      | inr other ↦ rw (other, ih.0, ih.1) (refl, refl)
    ]

abbrev pub is_some : Option ℕ → Bool
is_some none = false
is_some (some v) = true

-- The call that a value read outside a poll causes.
abbrev pub reported : List ℕ → Bool → ℕ → ℕ → Option ℕ → ℕ → List RegChange
reported name has_callback addr port none v = []
reported name has_callback addr port (some old) v =
    if has_callback
    then (if v == old then [] else record { name = name; addr = addr; port = port; value = v } ∷ [])
    else []

change_of_lem :
    (name : List ℕ) (has_callback : Bool) (addr port old v : ℕ)
    → change_of name has_callback (addr, port) old v
      ≡ reported name has_callback addr port (some old) v
change_of_lem name true addr port old v = elim (Bool-cases (v == old)) [
  | inl same ↦ rw same refl
  | inr other ↦ rw other refl
]
change_of_lem name false addr port old v = elim (Bool-cases (v == old)) [
  | inl same ↦ rw same refl
  | inr other ↦ rw other refl
]

pub store_value_lem :
    {F : Type 0} (key : AddrPort) (v : ℕ) (d : Device F)
    → ((store_value key v d).ftdi ≡ d.ftdi)
      × ((store_value key v d).tracked_regs ≡ (
          if is_some (find_reg key d.tracked_regs)
          then assign_reg key v d.tracked_regs
          else d.tracked_regs))
      × ((store_value key v d).changes
          ≡ d.changes ++ reported d.name d.has_callback key.0 key.1 (find_reg key d.tracked_regs) v)
unfolding store_value
store_value_lem key v d = elim (Option-cases (find_reg key d.tracked_regs)) [
  | inl untracked ↦ rw (untracked, store_value) (refl, refl, sym (append-nil d.changes))
  | inr (old, e) ↦
      rw (e, store_value)
        (refl, refl, ap (◌++◌ d.changes) (change_of_lem d.name d.has_callback key.0 key.1 old v))
]

-- The commands that ask for every tracked register, in the order of the keys.
abbrev pub reads_of : Regs → List ℕ
reads_of [] = []
reads_of (((addr, port), _) ∷ rs) = encode (read_reg addr port) ++ reads_of rs

pub read_commands_lem : (rs : Regs) → read_commands rs ≡ reads_of rs
unfolding read_commands encode
read_commands_lem [] = refl
read_commands_lem (((addr, port), v) ∷ rs) =
    ap (◌++◌ (command_head cmd_readreg addr port)) (read_commands_lem rs)

pub no_change :
    (name : List ℕ) (has_callback : Bool) (changes : List RegChange) (rs : Regs)
    → rs ≡ []
    → changes ≡ changes ++ (if has_callback then changes_among name rs [] else [])
unfolding changes_among
no_change name true changes [] e = sym (append-nil changes)
no_change name true changes (r ∷ rs) e = sym (append-nil changes)
no_change name false changes rs e = sym (append-nil changes)

-- The words in some bytes, each in two of them, the more significant one first.
pub data Words : List ℕ → List ℕ → Type 0 where
  no_more : Words [] []
  word : (hi lo : ℕ) (bs ws : List ℕ) → Words bs ws → Words (hi ∷ lo ∷ bs) ((hi * 256 + lo) ∷ ws)

pub words_of-Words : (n : ℕ) (bs : List ℕ) → length bs ≡ 2 * n → Words bs (words_of bs)
words_of-Words n [] h = Words.no_more
words_of-Words zero (b ∷ bs) h = absurd (omega arith)
words_of-Words (suc n) (b ∷ []) h = absurd (omega arith)
words_of-Words (suc n) (b ∷ c ∷ bs) h =
    Words.word b c bs (words_of bs) (words_of-Words n bs (omega arith))

pub two_bytes : (bs : List ℕ) → length bs ≡ 2 → (hi : ℕ) × (lo : ℕ) × (bs ≡ hi ∷ lo ∷ [])
two_bytes [] h = absurd (omega arith)
two_bytes (b ∷ []) h = absurd (omega arith)
two_bytes (b ∷ c ∷ []) h = (b, c, refl)
two_bytes (b ∷ c ∷ x ∷ bs) h = absurd (omega arith)

pub length-words_of : (n : ℕ) (bs : List ℕ) → length bs ≡ 2 * n → length (words_of bs) ≡ n
length-words_of zero [] h = refl
length-words_of zero (b ∷ bs) h = absurd (omega arith)
length-words_of (suc n) [] h = absurd (omega arith)
length-words_of (suc n) (b ∷ []) h = absurd (omega arith)
length-words_of (suc n) (b ∷ c ∷ bs) h = omega (arith, length-words_of n bs (omega arith))
