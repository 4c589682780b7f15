-- ===== src/Device/Tracking.antt =====
-- The map of tracked registers (m_tracked_regs, a std::map kept in the order of its keys).
use fpga_device_server.Common.{
  ℕ, ◌≡◌, refl, Bool, true, false, Option, none, some, List, [], ◌∷◌, arith, if◌then◌else◌, inl,
  inr, Bool-cases,
}
use fpga_device_server.Device.{
  AddrPort, key_lt, key_eq, insert_reg, erase_reg, find_reg, track_reg, Device,
}

abbrev pub Regs : Type 0
Regs = List (AddrPort × ℕ)

-- Every key of the map comes after this one.
abbrev pub Above : AddrPort → Regs → Type 0
Above k [] = Unit {0}
Above k ((j, _) ∷ m) = (key_lt k j ≡ true) × Above k m

abbrev pub IsSorted : Regs → Type 0
IsSorted [] = Unit {0}
IsSorted ((k, _) ∷ m) = Above k m × IsSorted m

key_lt_trans : (i j k : AddrPort) → key_lt i j ≡ true → key_lt j k ≡ true → key_lt i k ≡ true
key_lt_trans i j k p q = ground arith

key_connex : (i j : AddrPort) → key_lt i j ≡ false → key_eq i j ≡ false → key_lt j i ≡ true
key_connex i j p q = ground arith

key_lt-eq : (i j k : AddrPort) → key_lt i j ≡ true → key_eq k i ≡ true → key_eq k j ≡ false
key_lt-eq i j k p q = ground arith

Above-trans : (i j : AddrPort) (m : Regs) → key_lt i j ≡ true → Above j m → Above i m
Above-trans i j [] h a = tt
Above-trans i j ((k, w) ∷ m) h a = (key_lt_trans i j k h a.0, Above-trans i j m h a.1)

Above-find : (i k : AddrPort) (m : Regs) → key_eq k i ≡ true → Above i m → find_reg k m ≡ none
unfolding find_reg
Above-find i k [] e a = refl
Above-find i k ((j, w) ∷ m) e a = rw (key_lt-eq i j k a.0 e) (Above-find i k m e a.1)

Above-insert_reg :
    (i k : AddrPort) (v : ℕ) (m : Regs) → key_lt i k ≡ true → Above i m → Above i (insert_reg k v m)
unfolding insert_reg
Above-insert_reg i k v [] h a = (h, tt)
Above-insert_reg i k v ((j, w) ∷ m) h a = elim (Bool-cases (key_lt k j)) [
  | inl here ↦ rw here (h, a)
  | inr later ↦ elim (Bool-cases (key_eq k j)) [
    | inl same ↦ rw (later, same) a
    | inr other ↦ rw (later, other) (a.0, Above-insert_reg i k v m h a.1)
  ]
]

pub insert_reg-IsSorted :
    (k : AddrPort) (v : ℕ) (m : Regs) → IsSorted m → IsSorted (insert_reg k v m)
unfolding insert_reg
insert_reg-IsSorted k v [] s = (tt, tt)
insert_reg-IsSorted k v ((j, w) ∷ m) s = elim (Bool-cases (key_lt k j)) [
  | inl here ↦ rw here ((here, Above-trans k j m here s.0), s)
  | inr later ↦ elim (Bool-cases (key_eq k j)) [
    | inl same ↦ rw (later, same) s
    | inr other ↦
        rw (later, other)
          (Above-insert_reg j k v m (key_connex k j later other) s.0, insert_reg-IsSorted k v m s.1)
  ]
]

Above-erase_reg : (i k : AddrPort) (m : Regs) → Above i m → Above i (erase_reg k m)
unfolding erase_reg
Above-erase_reg i k [] a = tt
Above-erase_reg i k ((j, w) ∷ m) a = elim (Bool-cases (key_eq k j)) [
  | inl same ↦ rw same a.1
  | inr other ↦ rw other (a.0, Above-erase_reg i k m a.1)
]

pub erase_reg-IsSorted : (k : AddrPort) (m : Regs) → IsSorted m → IsSorted (erase_reg k m)
unfolding erase_reg
erase_reg-IsSorted k [] s = tt
erase_reg-IsSorted k ((j, w) ∷ m) s = elim (Bool-cases (key_eq k j)) [
  | inl same ↦ rw same s.1
  | inr other ↦ rw other (Above-erase_reg j k m s.0, erase_reg-IsSorted k m s.1)
]

-- The value that a register has after it is tracked: its old one, if it was tracked before.
abbrev pub kept_or : Option ℕ → ℕ → ℕ
kept_or none v = v
kept_or (some w) v = w

key_eq_same : (i j k : AddrPort) → key_eq i j ≡ true → key_eq i k ≡ key_eq j k
key_eq_same i j k e = ground arith

key_eq_self : (k : AddrPort) → key_eq k k ≡ true
key_eq_self k = ground arith

key_lt_ne : (k i : AddrPort) → key_lt k i ≡ true → key_eq k i ≡ false
key_lt_ne k i h = ground arith

find_reg-insert_reg :
    (k j : AddrPort) (v : ℕ) (m : Regs)
    → IsSorted m
    → find_reg j (insert_reg k v m)
      ≡ (if key_eq j k then some (kept_or (find_reg k m) v) else find_reg j m)
unfolding find_reg insert_reg
find_reg-insert_reg k j v [] s = refl
find_reg-insert_reg k j v ((i, w) ∷ m) s = elim (Bool-cases (key_lt k i)) [
  | inl here ↦
      let fresh = Above-find k k m (key_eq_self k) (Above-trans k i m here s.0) in
      rw (here, key_lt_ne k i here, fresh)
  | inr later ↦ elim (Bool-cases (key_eq k i)) [
    | inl same ↦ rw (later, same) (ground (arith, key_eq_same j k i))
    | inr other ↦
        rw (later, other) (ground (arith, find_reg-insert_reg k j v m s.1, key_eq_same j k i))
  ]
]

find_reg-erase_reg :
    (k j : AddrPort) (m : Regs)
    → IsSorted m
    → find_reg j (erase_reg k m) ≡ (if key_eq j k then none else find_reg j m)
unfolding find_reg erase_reg
find_reg-erase_reg k j [] s = ground arith
find_reg-erase_reg k j ((i, w) ∷ m) s =
    ground (arith, find_reg-erase_reg k j m s.1, Above-find i k m)

-- trackReg keeps the map in the order of its keys. Tracking a register starts it at zero, or keeps
-- the value of one that is tracked already; to stop tracking it removes it; and no other register
-- is touched.
pub track_reg_lem :
    {F : Type 0} (addr port : ℕ) (enabled : Bool) (d : Device F)
    → IsSorted d.tracked_regs
    → let d' = track_reg addr port enabled d in
      IsSorted d'.tracked_regs
      × ((j : AddrPort)
          → find_reg j d'.tracked_regs ≡ (
              if key_eq j (addr, port)
              then (if enabled
                  then some (kept_or (find_reg (addr, port) d.tracked_regs) 0)
                  else none)
              else find_reg j d.tracked_regs))
unfolding track_reg
track_reg_lem addr port true d s = (
  insert_reg-IsSorted (addr, port) 0 d.tracked_regs s,
  λ j. find_reg-insert_reg (addr, port) j 0 d.tracked_regs s,
)
track_reg_lem addr port false d s = (
  erase_reg-IsSorted (addr, port) d.tracked_regs s,
  λ j. find_reg-erase_reg (addr, port) j d.tracked_regs s,
)
