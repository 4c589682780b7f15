-- ===== src/IoBase/Bits.antt =====
-- The bits of a byte buffer that is written one bit at a time.
use fpga_device_server.Common.{
  ℕ, zero, suc, ◌/◌, ◌%◌, ◌^◌, ◌<◌, ◌≡◌, ◌≢◌, refl, sym, ap, bit_or, Bool, true, false, not, ◌||◌,
  List, [], ◌∷◌, ◌++◌, arith, ltb, ltb→lt, ◌==◌, if◌then◌else◌, get_or, set, replicate, length,
  every_below, every_below_at,
}

-- Bit i of a pattern, least significant bit of each byte first.
abbrev pub bit : List ℕ → ℕ → Bool
bit buf i = get_or buf (i / 8) 0 / 2 ^ (i % 8) % 2 == 1

abbrev pub bits : List ℕ → ℕ → List Bool
bits buf zero = []
bits buf (suc n) = bits buf n ++ bit buf n ∷ []

pub get_or-replicate : (n i : ℕ) → get_or {A = ℕ} (replicate n 0) i 0 ≡ 0
get_or-replicate zero i = refl
get_or-replicate (suc n) zero = refl
get_or-replicate (suc n) (suc i) = get_or-replicate n i

pub get_or-set_self : (xs : List ℕ) (i v : ℕ) → i < length xs → get_or (set xs i v) i 0 ≡ v
get_or-set_self [] i v h = elim h [ ]
get_or-set_self (x ∷ xs) zero v h = refl
get_or-set_self (x ∷ xs) (suc i) v h = get_or-set_self xs i v (omega arith)

pub get_or-set_ne : (xs : List ℕ) (i j v : ℕ) → i ≢ j → get_or (set xs i v) j 0 ≡ get_or xs j 0
get_or-set_ne [] i j v h = refl
get_or-set_ne (x ∷ xs) zero zero v h = absurd (h refl)
get_or-set_ne (x ∷ xs) zero (suc j) v h = refl
get_or-set_ne (x ∷ xs) (suc i) zero v h = refl
get_or-set_ne (x ∷ xs) (suc i) (suc j) v h = get_or-set_ne xs i j v (λ e. h (ap suc e))

pub length-set : (xs : List ℕ) (i v : ℕ) → length (set xs i v) ≡ length xs
length-set [] i v = refl
length-set (x ∷ xs) zero v = refl
length-set (x ∷ xs) (suc i) v = ap suc (length-set xs i v)

abbrev agree : Bool → Bool → Bool
agree b c = if b then c else not c

agree_sound : (b c : Bool) → agree b c ≡ true → b ≡ c
agree_sound true c h = sym h
agree_sound false true h = cc
agree_sound false false h = refl

-- Setting bit k of a byte changes that bit alone, and leaves a byte.
abbrev sets_bit : ℕ → ℕ → ℕ → Bool
sets_bit x k j = agree (bit_or x (2 ^ k) / 2 ^ j % 2 == 1) (j == k || (x / 2 ^ j % 2 == 1))

sets_bit_table :
    every_below 256 (λ x. every_below 8 (λ k. every_below 8 (λ j. sets_bit x k j))) ≡ true
unfolding every_below
sets_bit_table = refl

pub sets_bit_lem :
    (x k j : ℕ)
    → x < 256
    → k < 8
    → j < 8
    → (bit_or x (2 ^ k) / 2 ^ j % 2 == 1) ≡ (j == k || (x / 2 ^ j % 2 == 1))
sets_bit_lem x k j hx hk hj = agree_sound _ _ (
    every_below_at 8 (λ j. sets_bit x k j) j
      (every_below_at 8 (λ k. every_below 8 (λ j. sets_bit x k j)) k
        (every_below_at 256 (λ x. every_below 8 (λ k. every_below 8 (λ j. sets_bit x k j))) x
          sets_bit_table hx)
        hk)
      hj)

bit_or_byte_table : every_below 256 (λ x. every_below 8 (λ k. ltb (bit_or x (2 ^ k)) 256)) ≡ true
unfolding every_below
bit_or_byte_table = refl

pub bit_or_byte : (x k : ℕ) → x < 256 → k < 8 → bit_or x (2 ^ k) < 256
bit_or_byte x k hx hk = ltb→lt _ _ (
    every_below_at 8 (λ k. ltb (bit_or x (2 ^ k)) 256) k
      (every_below_at 256 (λ x. every_below 8 (λ k. ltb (bit_or x (2 ^ k)) 256)) x bit_or_byte_table
        hx)
      hk)
