-- ===== src/Common/Outcome.antt =====
-- What a C function that reports by errno returns.
use mathlib.Core.Path.{◌≡◌, refl}
use mathlib.Core.Logic.{◌⊎◌, inl, inr}
use mathlib.Core.Bool.{Bool, true, false}
use mathlib.Core.Option.{Option, none, some}

-- `unset` stands for a return of -1 that leaves errno as it was.
pub data Errno : Type 0 where
  einval enospc eoverflow enomem enoent enosys eperm unset : Errno

-- `fault` is an access outside of the buffer, which C leaves undefined.
pub data Outcome {ℓ} (A : Type ℓ) : Type ℓ where
  ok : A → Outcome A
  err : Errno → Outcome A
  fault : Outcome A

infixl 5 ◌>>=◌ ◌>>◌
abbrev pub ◌>>=◌ {ℓ κ} : {A : Type ℓ} {B : Type κ} → Outcome A → (A → Outcome B) → Outcome B
ok a >>= f = f a
err e >>= f = err e
fault >>= f = fault

abbrev pub ◌>>◌ {ℓ} : {B : Type ℓ} → Outcome (Unit {0}) → Outcome B → Outcome B
m >> k = m >>= λ _. k

-- `if (!b) { errno = e; return -1; }`
abbrev pub guard : Bool → Errno → Outcome (Unit {0})
guard true e = ok tt
guard false e = err e

-- What both parts of a sequence return when the whole returns.
module _ {ℓ κ} {A : Type ℓ} {B : Type κ} (rest : A → Outcome B) (b : B) where
  pub >>=-returned : (m : Outcome A) → (m >>= rest) ≡ ok b → (a : A) × (m ≡ ok a) × (rest a ≡ ok b)
  >>=-returned fault h = cc
  >>=-returned (err e) h = cc
  >>=-returned (ok a) h = (a, refl, h)

pub >>-returned {ℓ} :
    {B : Type ℓ} (rest : Outcome B) (b : B) (m : Outcome (Unit {0}))
    → (m >> rest) ≡ ok b
    → (m ≡ ok tt) × (rest ≡ ok b)
>>-returned rest b fault h = cc
>>-returned rest b (err e) h = cc
>>-returned rest b (ok tt) h = (refl, h)

-- A read at a place that may lie outside of the buffer.
abbrev pub read {ℓ} : {A : Type ℓ} → Option A → Outcome A
read none = fault
read (some a) = ok a

-- The same of a run that may not be finished, `none`.
infixl 5 ◌>>>=◌
abbrev pub ◌>>>=◌ {ℓ κ} :
    {A : Type ℓ} {B : Type κ} → Option (Outcome A) → (A → Option (Outcome B)) → Option (Outcome B)
none >>>= f = none
some (ok a) >>>= f = f a
some (err e) >>>= f = some (err e)
some fault >>>= f = some fault

pub Outcome-cases {ℓ} :
    {A : Type ℓ} (o : Outcome A)
    → ((a : A) × (o ≡ ok a)) ⊎ (((e : Errno) × (o ≡ err e)) ⊎ (o ≡ fault))
Outcome-cases (ok a) = inl (a, refl)
Outcome-cases (err e) = inr (inl (e, refl))
Outcome-cases fault = inr (inr refl)
