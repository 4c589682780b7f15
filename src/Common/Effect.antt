-- ===== src/Common/Effect.antt =====
-- Code that changes a state and may throw: what was written before a throw stays written.
use mathlib.Core.Bool.{Bool, true, false}
use mathlib.Core.Path.{◌≡◌, ap, refl}
use mathlib.Core.Option.{Option, none, some}

pub data Result (E A : Type 0) : Type 0 where
  ok : A → Result E A
  err : E → Result E A

abbrev pub Action : Type 0 → Type 0 → Type 0 → Type 0
Action E S A = S → Result E A × S

module _ {E S : Type 0} where
  abbrev pub pure : {A : Type 0} → A → Action E S A
  pure a s = (ok a, s)

  abbrev pub throw : {A : Type 0} → E → Action E S A
  throw e s = (err e, s)

  abbrev pub throw_if : Bool → E → Action E S (Unit {0})
  throw_if true e s = (err e, s)
  throw_if false e s = (ok tt, s)

  abbrev pub or_throw : {A : Type 0} → Option A → E → Action E S A
  or_throw none e s = (err e, s)
  or_throw (some a) e s = (ok a, s)

  abbrev pub modify : (S → S) → Action E S (Unit {0})
  modify f s = (ok tt, f s)

  abbrev pub gets : {A : Type 0} → (S → A) → Action E S A
  gets f s = (ok (f s), s)

-- What follows a result: the next step, or nothing after a throw.
abbrev pub after : {E S A B : Type 0} → Result E A → (A → Action E S B) → Action E S B
after (ok a) f s = f a s
after (err e) f s = (err e, s)

infixl 5 ◌>>=◌ ◌>>◌
abbrev pub ◌>>=◌ : {E S A B : Type 0} → Action E S A → (A → Action E S B) → Action E S B
◌>>=◌ m f s = let (r, s') = m s in after r f s'

abbrev pub ◌>>◌ : {E S A B : Type 0} → Action E S A → Action E S B → Action E S B
m >> k = m >>= λ _. k

module _ {E S A B : Type 0} (m : Action E S A) where
  pub >>=-ok : (f : A → Action E S B) (s : S) (a : A) → (m s).0 ≡ ok a → (m >>= f) s ≡ f a (m s).1
  >>=-ok f s a e = ap (λ r. after r f (m s).1) e

  pub >>=-err :
      (f : A → Action E S B) (s : S) (x : E) → (m s).0 ≡ err x → (m >>= f) s ≡ (err x, (m s).1)
  >>=-err f s x e = ap (λ r. after r f (m s).1) e

  pub >>-ok : (k : Action E S B) (s : S) (a : A) → (m s).0 ≡ ok a → (m >> k) s ≡ k (m s).1
  >>-ok k s a e = ap (λ r. after r (λ _. k) (m s).1) e

  pub >>-err : (k : Action E S B) (s : S) (x : E) → (m s).0 ≡ err x → (m >> k) s ≡ (err x, (m s).1)
  >>-err k s x e = ap (λ r. after r (λ _. k) (m s).1) e

after_assoc :
    {E S A B C : Type 0} (r : Result E A) (s : S) (f : A → Action E S B) (g : B → Action E S C)
    → after (after r f s).0 g (after r f s).1 ≡ after r (λ a. f a >>= g) s
after_assoc (ok a) s f g = refl
after_assoc (err e) s f g = refl

pub >>=_assoc :
    {E S A B C : Type 0} (m : Action E S A) (f : A → Action E S B) (g : B → Action E S C) (s : S)
    → ((m >>= f) >>= g) s ≡ (m >>= λ a. f a >>= g) s
>>=_assoc m f g s = after_assoc (m s).0 (m s).1 f g
