-- ===== src/Common/Maps.antt =====
-- Maps with unique keys, in the order of their keys (std::map). `eq` and `lt` compare keys.
use mathlib.Core.Path.{ap₂}
use fpga_device_server.Common.{
  ℕ, ◌==◌, ==_iff, ltb, ◌&&◌, ◌||◌, ◌≡◌, refl, ap, ◌∙◌, Bool, true, false, Option, none, some, List,
  [], ◌∷◌, if◌then◌else◌, Bool-cases, inl, inr, arith,
}

module _ {K V : Type 0} (eq : K → K → Bool) where
  abbrev pub find : K → List (K × V) → Option V
  find k [] = none
  find k ((j, v) ∷ m) = if eq k j then some v else find k m

  -- There is one entry at most for a key, so leaving out every such entry is the same.
  abbrev pub erase : K → List (K × V) → List (K × V)
  erase k [] = []
  erase k ((j, v) ∷ m) = let rest = erase k m in if eq k j then rest else (j, v) ∷ rest

abbrev pub is_some : {A : Type 0} → Option A → Bool
is_some none = false
is_some (some x) = true

module _ {K V : Type 0} (eq lt : K → K → Bool) where
  abbrev insert_before : K → V → List (K × V) → List (K × V)
  insert_before k v [] = (k, v) ∷ []
  insert_before k v ((j, w) ∷ m) =
      let rest = insert_before k v m in if lt k j then (k, v) ∷ (j, w) ∷ m else (j, w) ∷ rest

  -- insert keeps a value that is there.
  abbrev pub insert : K → V → List (K × V) → List (K × V)
  insert k v m = if is_some (find eq k m) then m else insert_before k v m

module _ {K : Type 0} (eq : K → K → Bool) (eq_sound : (a b : K) → eq a b ≡ true → a ≡ b) where
  -- Two keys that are the same key compare alike.
  same_as : (j k i : K) → eq j k ≡ true → eq j i ≡ eq k i
  same_as j k i e = ap (λ x. eq x i) (eq_sound j k e)

  same_key : (j k i : K) → eq j i ≡ true → eq k i ≡ true → eq j k ≡ true
  same_key j k i e f = ap (λ x. eq j x) (eq_sound k i f) ∙ e

module _ {K V : Type 0} (eq lt : K → K → Bool) (eq_sound : (a b : K) → eq a b ≡ true → a ≡ b) where
  find-insert_before :
      (k j : K) (v : V) (m : List (K × V))
      → find eq k m ≡ none
      → find eq j (insert_before eq lt k v m) ≡ (if eq j k then some v else find eq j m)
  find-insert_before k j v [] h = refl
  find-insert_before k j v ((i, w) ∷ m) h = elim (Bool-cases (eq k i)) [
    | inl here ↦ absurd (ground (arith, rw here at h))
    | inr elsewhere ↦ elim (Bool-cases (lt k i)) [
      | inl before ↦ rw before refl
      | inr later ↦
          let ih = find-insert_before k j v m (rw elsewhere at h) in
          rw (later, ih)
            (elim (Bool-cases (eq j k)) [
              | inl same ↦ rw (same, same_as eq eq_sound j k i same, elsewhere) refl
              | inr other ↦ rw other refl
            ])
    ]
  ]

  pub find-insert :
      (k j : K) (v : V) (m : List (K × V))
      → find eq k m ≡ none
      → find eq j (insert eq lt k v m) ≡ (if eq j k then some v else find eq j m)
  find-insert k j v m h = rw h (find-insert_before k j v m h)

module _ {K V : Type 0} (eq : K → K → Bool) (eq_sound : (a b : K) → eq a b ≡ true → a ≡ b) where
  pub find-erase :
      (k j : K) (m : List (K × V))
      → find eq j (erase eq k m) ≡ (if eq j k then none else find eq j m)
  find-erase k j [] = elim (Bool-cases (eq j k)) [
    | inl same ↦ rw same refl
    | inr other ↦ rw other refl
  ]
  find-erase k j ((i, w) ∷ m) =
      let ih = find-erase k j m in
      elim (Bool-cases (eq k i)) [
        | inl here ↦
            rw (here, ih)
              (elim (Bool-cases (eq j k)) [
                | inl same ↦ rw same refl
                | inr other ↦ elim (Bool-cases (eq j i)) [
                  | inl also ↦ absurd (ground (arith, same_key eq eq_sound j k i also here))
                  | inr apart ↦ rw (other, apart) refl
                ]
              ])
        | inr elsewhere ↦
            rw (elsewhere, ih)
              (elim (Bool-cases (eq j k)) [
                | inl same ↦ rw (same, same_as eq eq_sound j k i same, elsewhere) refl
                | inr other ↦ rw other refl
              ])
      ]

-- Equality and order of strings, and of numbers.
abbrev pub str_eq : List ℕ → List ℕ → Bool
str_eq [] [] = true
str_eq [] (b ∷ ys) = false
str_eq (a ∷ xs) [] = false
str_eq (a ∷ xs) (b ∷ ys) = a == b && str_eq xs ys

abbrev pub str_lt : List ℕ → List ℕ → Bool
str_lt xs [] = false
str_lt [] (b ∷ ys) = true
str_lt (a ∷ xs) (b ∷ ys) = ltb a b || (a == b && str_lt xs ys)

pub str_eq_sound : (xs ys : List ℕ) → str_eq xs ys ≡ true → xs ≡ ys
str_eq_sound [] [] h = refl
str_eq_sound [] (b ∷ ys) h = absurd (ground arith)
str_eq_sound (a ∷ xs) [] h = absurd (ground arith)
str_eq_sound (a ∷ xs) (b ∷ ys) h = elim (Bool-cases (a == b)) [
  | inl same ↦ ap₂ (◌∷◌) ((==_iff a b).0 same) (str_eq_sound xs ys (rw same at h))
  | inr other ↦ absurd (ground (arith, rw other at h))
]

pub str_eq_refl : (xs : List ℕ) → str_eq xs xs ≡ true
str_eq_refl [] = refl
str_eq_refl (a ∷ xs) = let e : (a == a) ≡ true = ground arith in rw e (str_eq_refl xs)

pub nat_eq_sound : (a b : ℕ) → (a == b) ≡ true → a ≡ b
nat_eq_sound a b h = (==_iff a b).0 h

pub nat_eq_refl : (a : ℕ) → (a == a) ≡ true
nat_eq_refl a = ground arith
