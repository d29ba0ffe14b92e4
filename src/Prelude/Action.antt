-- ===== src/Prelude/Action.antt =====
-- A Go function that reads and changes the state outside the process and may return an error: the
-- state comes back after an error too, since what was written stays written.
use mathlib.Core.Path.{◌≡◌, refl, ap}
use native.Mathlib.Omega.{arith}
use mathlib.Core.Bool.{Bool}
use elp.Prelude.Tests.{if◌then◌else◌}
use elp.Prelude.Result.{Result, ok, err}

abbrev pub Action {ℓ κ υ} : Type ℓ → Type κ → Type υ → Type (ℓ ⊔ κ ⊔ υ)
Action S E A = S → Result E A × S

module _ {ℓ κ} {S : Type ℓ} {E : Type κ} where
  abbrev pub pure {υ} : {A : Type υ} → A → Action S E A
  pure a s = (ok a, s)

  abbrev pub raise {υ} : {A : Type υ} → E → Action S E A
  raise e s = (err e, s)

  -- A call that only reads.
  abbrev pub reading {υ} : {A : Type υ} → (S → Result E A) → Action S E A
  reading f s = (f s, s)

  abbrev pub then_do {υ φ} :
      {A : Type υ} {B : Type φ} → Result E A × S → (A → Action S E B) → Result E B × S
  then_do (ok a, s) k = k a s
  then_do (err e, s) k = (err e, s)

  abbrev pub ◌>>=◌ {υ φ} :
      {A : Type υ} {B : Type φ} → Action S E A → (A → Action S E B) → Action S E B
  ◌>>=◌ m k s = then_do (m s) k

  abbrev pub ◌>>◌ {υ φ} : {A : Type υ} {B : Type φ} → Action S E A → Action S E B → Action S E B
  ◌>>◌ m k s = then_do (m s) (λ _. k)

  abbrev pub forget {υ} : {A : Type υ} → Result E A × S → Result E (Unit {0}) × S
  forget (r, s) = (ok tt, s)

  -- An error is logged and dropped.
  abbrev pub logged {υ} : {A : Type υ} → Action S E A → Action S E (Unit {0})
  logged m s = forget (m s)

  -- `if c { … }`
  abbrev pub when : Bool → Action S E (Unit {0}) → Action S E (Unit {0})
  when c m s = if c then m s else (ok tt, s)

infixl 5 ◌>>=◌ ◌>>◌
pub then_do-same {ℓ κ υ φ} :
    {S : Type ℓ} {E : Type κ} {A : Type υ} {B : Type φ} (x : Result E A × S)
    (k l : A → Action S E B)
    → ((a : A) (s : S) → k a s ≡ l a s)
    → then_do x k ≡ then_do x l
then_do-same (ok a, s) k l h = h a s
then_do-same (err e, s) k l h = refl

-- A call whose result is dropped succeeded.
pub then_do-dropped {ℓ κ υ} :
    {S : Type ℓ} {E : Type κ} {A : Type υ} (x : Result E A × S) (t : S)
    → then_do x (λ a. pure (tt {0})) ≡ (ok tt, t)
    → (a : A) × (x ≡ (ok a, t))
then_do-dropped (ok a, s) t h = (a, ap (λ r. (ok a, r.1)) h)
then_do-dropped (err e, s) t h = ground (arith, h)

-- Two calls succeed where each does.
pub then_do-ok {ℓ κ υ φ} :
    {S : Type ℓ} {E : Type κ} {A : Type υ} {B : Type φ} (x : Result E A × S) (k : A → Action S E B)
    (b : B) (t : S)
    → then_do x k ≡ (ok b, t)
    → (a : A) × (s : S) × (x ≡ (ok a, s)) × (k a s ≡ (ok b, t))
then_do-ok (ok a, s) k b t h = (a, s, refl, h)
then_do-ok (err e, s) k b t h = ground (arith, h)
