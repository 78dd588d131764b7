-- ===== src/Base/Results.antt =====
-- What a fallible Rust function does: it returns `Ok` or `Err`, or it panics.
-- `stuck` is no behaviour of the program: a fuelled loop of the model gave up.
use mathlib.Core.Path.{◌≡◌, refl, subst}
use mathlib.Core.Logic.{◌≢◌}
use mathlib.Core.Bool.{Bool, true, false}
use mathlib.Core.Option.{Option, none, some}
use reinstinct.Base.Tests.{if◌then◌else◌}

pub data Outcome {ℓ κ} (E : Type κ) (A : Type ℓ) : Type (ℓ ⊔ κ) where
  ok : A → Outcome E A
  err : E → Outcome E A
  panic : Outcome E A
  stuck : Outcome E A

infixl 5 ◌>>=◌ ◌>>◌
abbrev pub ◌>>=◌ {ℓ κ ι} :
    {E : Type κ} {A : Type ℓ} {B : Type ι} → Outcome E A → (A → Outcome E B) → Outcome E B
ok a >>= f = f a
err e >>= f = err e
panic >>= f = panic
stuck >>= f = stuck

abbrev pub ◌>>◌ {ι κ} : {E : Type κ} {B : Type ι} → Outcome E (Unit {0}) → Outcome E B → Outcome E B
m >> k = m >>= λ _. k

-- `if !b { return Err(e) }`
abbrev pub guard {κ} : {E : Type κ} → Bool → E → Outcome E (Unit {0})
guard true e = ok tt
guard false e = err e

-- `assert!(b)`
abbrev pub assert {κ} : {E : Type κ} → Bool → Outcome E (Unit {0})
assert true = ok tt
assert false = panic

-- `o.ok_or(e)`
abbrev pub ok_or {ℓ κ} : {E : Type κ} {A : Type ℓ} → Option A → E → Outcome E A
ok_or none e = err e
ok_or (some a) e = ok a

-- Inversion of a bind that succeeds.
pub >>=-eq-ok {ℓ κ ι} :
    {E : Type κ} {A : Type ℓ} {B : Type ι} {y : B} (run : Outcome E A) (next : A → Outcome E B)
    → (run >>= next) ≡ ok y
    → (x : A) × (run ≡ ok x) × (next x ≡ ok y)
>>=-eq-ok panic next e = cc
>>=-eq-ok stuck next e = cc
>>=-eq-ok (err why) next e = cc
>>=-eq-ok (ok x) next e = (x, refl, e)

pub ok_unique {ℓ κ} :
    {E : Type κ} {A : Type ℓ} (m : Outcome E A) {a b : A} → m ≡ ok a → m ≡ ok b → a ≡ b
ok_unique m h k = cc

-- The run returns: it does not panic and does not get stuck, and `P` holds of its value if it has one.
pub data Ensures {ℓ κ ι} {E : Type κ} {A : Type ℓ} (P : A → Type ι)
    : Outcome E A → Type (ℓ ⊔ κ ⊔ ι) where
  holds : {a : A} → P a → Ensures P (ok a)
  rejected : {e : E} → Ensures P (err e)

module _ {ℓ κ ι} {E : Type κ} {A : Type ℓ} {P : A → Type ι} where
  pub Ensures-ok : {m : Outcome E A} {a : A} → Ensures P m → m ≡ ok a → P a
  Ensures-ok (holds h) e = subst P (cc) h
  Ensures-ok rejected e = cc

  pub Ensures-ne-panic : {m : Outcome E A} → Ensures P m → m ≢ panic
  Ensures-ne-panic (holds h) = cc
  Ensures-ne-panic rejected = cc

  pub Ensures-ne-stuck : {m : Outcome E A} → Ensures P m → m ≢ stuck
  Ensures-ne-stuck (holds h) = cc
  Ensures-ne-stuck rejected = cc

  pub Ensures-bind {ℓ' ι'} :
      {B : Type ℓ'} {Q : B → Type ι'} {m : Outcome E A} {f : A → Outcome E B}
      → Ensures P m
      → ((a : A) → P a → Ensures Q (f a))
      → Ensures Q (m >>= f)
  Ensures-bind (holds {a} h) k = k a h
  Ensures-bind rejected k = rejected

  pub Ensures-map {ι'} :
      {Q : A → Type ι'} {m : Outcome E A} → Ensures P m → ((a : A) → P a → Q a) → Ensures Q m
  Ensures-map (holds {a} h) k = holds (k a h)
  Ensures-map rejected k = rejected

  pub Ensures-self : {m : Outcome E A} → Ensures P m → Ensures (λ a. m ≡ ok a) m
  Ensures-self (holds h) = holds refl
  Ensures-self rejected = rejected

  pub Ensures-if :
      (b : Bool) {x y : Outcome E A}
      → (b ≡ true → Ensures P x)
      → (b ≡ false → Ensures P y)
      → Ensures P (if b then x else y)
  Ensures-if true hx hy = hx refl
  Ensures-if false hx hy = hy refl

-- A run that neither panics nor gets stuck returns, and its value is the one it gives.
pub Ensures-of_ne {ℓ κ} :
    {E : Type κ} {A : Type ℓ} (m : Outcome E A) → m ≢ panic → m ≢ stuck → Ensures (λ a. m ≡ ok a) m
Ensures-of_ne (ok a) p s = holds refl
Ensures-of_ne (err e) p s = rejected
Ensures-of_ne panic p s = absurd (p refl)
Ensures-of_ne stuck p s = absurd (s refl)
