-- ===== src/IoFtdi/Mpsse.antt =====
-- The command processor of the chip (FTDI's application note 108; the commands are those of
-- src/libftdi/ftdi.h): which clocks a stream of bytes makes, with TMS and with TDI where it is driven.
use fpga_device_server.Common.{
  ◌≡◌, refl, sym, ap, ℕ, zero, suc, ◌+◌, ◌-◌, ◌*◌, ◌/◌, ◌%◌, ◌^◌, ◌≤◌, ◌<◌, Bool, Option, none,
  some, List, [], ◌∷◌, ◌++◌, append_assoc, append-nil, subst, ◌⊎◌, length, get_or, take, drop,
  arith,
}
use mathlib.Core.Path.{ap₂}
use fpga_device_server.IoBase.Bits.{bit}

-- One clock: TMS, and TDI if the command drives it.
abbrev pub Clock : Type 0
Clock = Bool × Option Bool

abbrev pub tdi_bit : Option (List ℕ) → ℕ → Option Bool
tdi_bit none i = none
tdi_bit (some tdi) i = some (bit tdi i)

-- `n` clocks with TMS at `level`, and TDI from bit `i` of the pattern on.
abbrev pub data_clocks : Bool → Option (List ℕ) → ℕ → ℕ → List Clock
data_clocks level tdi i zero = []
data_clocks level tdi i (suc n) = (level, tdi_bit tdi i) ∷ data_clocks level tdi (i + 1) n

-- `n` clocks with TMS from bit `i` of the pattern on, and TDI as it is given.
abbrev pub tms_clocks : Bool → List ℕ → ℕ → ℕ → List Clock
tms_clocks tdi pat i zero = []
tms_clocks tdi pat i (suc n) = (bit pat i, some tdi) ∷ tms_clocks tdi pat (i + 1) n

-- One command with the level that TMS has before and after it. A command that moves data leaves TMS
-- where it is; bit 7 of a TMS command is TDI.
pub data Command : Bool → List ℕ → List Clock → Bool → Type 0 where
  bytes_out :
      (level : Bool) (op : ℕ) (tdi : List ℕ)
      → (op ≡ 0x19) ⊎ (op ≡ 0x3d)
      → 0 < length tdi
      → length tdi ≤ 2 ^ 16
      → Command level
          (op ∷ (length tdi - 1) % 256 ∷ (length tdi - 1) / 2 ^ 8 % 256 ∷ tdi)
          (data_clocks level (some tdi) 0 (length tdi * 8))
          level
  bytes_in :
      (level : Bool) (n : ℕ)
      → 0 < n
      → n ≤ 2 ^ 16
      → Command level
          (0x2d ∷ (n - 1) % 256 ∷ (n - 1) / 2 ^ 8 % 256 ∷ [])
          (data_clocks level none 0 (n * 8))
          level
  bits_out :
      (level : Bool) (op n tdi : ℕ)
      → (op ≡ 0x1b) ⊎ (op ≡ 0x3f)
      → n < 8
      → Command level (op ∷ n ∷ tdi ∷ []) (data_clocks level (some (tdi ∷ [])) 0 (n + 1)) level
  bits_in :
      (level : Bool) (n : ℕ)
      → n < 8
      → Command level (0x2f ∷ n ∷ []) (data_clocks level none 0 (n + 1)) level
  tms_bits :
      (level : Bool) (op n pat : ℕ)
      → (op ≡ 0x4b) ⊎ (op ≡ 0x6f)
      → n < 7
      → Command level
          (op ∷ n ∷ pat ∷ [])
          (tms_clocks (bit (pat ∷ []) 7) (pat ∷ []) 0 (n + 1))
          (bit (pat ∷ []) n)
  pulse_bytes :
      (level : Bool) (n : ℕ)
      → n < 2 ^ 16
      → Command level
          (0x8f ∷ n % 256 ∷ n / 2 ^ 8 % 256 ∷ [])
          (data_clocks level none 0 ((n + 1) * 8))
          level
  pulse_bits :
      (level : Bool) (n : ℕ)
      → n < 8
      → Command level (0x8e ∷ n ∷ []) (data_clocks level none 0 (n + 1)) level
  flush : (level : Bool) → Command level (0x87 ∷ []) [] level

-- A stream of commands.
pub data Runs : Bool → List ℕ → List Clock → Bool → Type 0 where
  done : (level : Bool) → Runs level [] [] level
  step :
      (l m n : Bool) (xs ys : List ℕ) (cs ds : List Clock)
      → Command l xs cs m
      → Runs m ys ds n
      → Runs l (xs ++ ys) (cs ++ ds) n

pub Runs-one : {l m : Bool} {xs : List ℕ} {cs : List Clock} → Command l xs cs m → Runs l xs cs m
Runs-one {l} {m} {xs} {cs} c =
    subst (λ ys. Runs l ys cs m) (append-nil xs)
      (subst (λ ds. Runs l (xs ++ []) ds m) (append-nil cs) (step l m m xs [] cs [] c (done m)))

pub Runs-append :
    {l m n : Bool} {xs ys : List ℕ} {cs ds : List Clock}
    → Runs l xs cs m
    → Runs m ys ds n
    → Runs l (xs ++ ys) (cs ++ ds) n
Runs-append (done l) r = r
Runs-append {n = n} {ys = ys} {ds = ds} (step l k m xs xs' cs cs' c r) r' =
    subst (λ zs. Runs l zs ((cs ++ cs') ++ ds) n) (sym (append_assoc xs xs' ys))
      (subst (λ es. Runs l (xs ++ (xs' ++ ys)) es n) (sym (append_assoc cs cs' ds))
        (step l k n xs (xs' ++ ys) cs (cs' ++ ds) c (Runs-append r r')))

-- Clocks in two parts.
pub data_clocks-append :
    (level : Bool) (tdi : Option (List ℕ)) (i m n : ℕ)
    → data_clocks level tdi i m ++ data_clocks level tdi (i + m) n ≡ data_clocks level tdi i (m + n)
data_clocks-append level tdi i zero n =
    let e : i + 0 ≡ i = omega arith in let e' : 0 + n ≡ n = omega arith in rw (e, e') refl
data_clocks-append level tdi i (suc m) n =
    let e : i + suc m ≡ i + 1 + m = omega arith in
    let e' : suc m + n ≡ suc (m + n) = omega arith in
    rw (e, e', data_clocks-append level tdi (i + 1) m n) refl

get_or-window :
    (xs : List ℕ) (first n i : ℕ)
    → i < n
    → get_or (take n (drop first xs)) i 0 ≡ get_or xs (first + i) 0
get_or-window [] zero zero i h = absurd (omega arith)
get_or-window [] zero (suc n) i h = refl
get_or-window [] (suc first) zero i h = absurd (omega arith)
get_or-window [] (suc first) (suc n) i h = refl
get_or-window (x ∷ xs) zero zero i h = absurd (omega arith)
get_or-window (x ∷ xs) zero (suc n) zero h = refl
get_or-window (x ∷ xs) zero (suc n) (suc i) h =
    let e : 0 + suc i ≡ suc (0 + i) = omega arith in rw e (get_or-window xs zero n i (omega arith))
get_or-window (x ∷ xs) (suc first) n i h =
    let e : suc first + i ≡ suc (first + i) = omega arith in rw e (get_or-window xs first n i h)

-- The bits of the bytes from `first` on are the bits of the pattern from 8 * first on.
pub data_clocks_window :
    (level : Bool) (tdi : List ℕ) (first n i m : ℕ)
    → i + m ≤ n * 8
    → data_clocks level (some (take n (drop first tdi))) i m
      ≡ data_clocks level (some tdi) (first * 8 + i) m
data_clocks_window level tdi first n i zero h = refl
data_clocks_window level tdi first n i (suc m) h =
    let e : (first * 8 + i) / 8 ≡ first + i / 8 = omega arith in
    let e' : (first * 8 + i) % 8 ≡ i % 8 = omega arith in
    let e'' : first * 8 + i + 1 ≡ first * 8 + (i + 1) = omega arith in
    ap₂ ◌∷◌ (rw (e, e', get_or-window tdi first n (i / 8) (omega arith)) refl)
      (rw e'' (data_clocks_window level tdi first n (i + 1) m (omega arith)))

-- Where nothing is driven, the clocks are alike.
pub data_clocks-none :
    (level : Bool) (i j m : ℕ) → data_clocks level none i m ≡ data_clocks level none j m
data_clocks-none level i j zero = refl
data_clocks-none level i j (suc m) =
    ap (λ cs. (level, none) ∷ cs) (data_clocks-none level (i + 1) (j + 1) m)
