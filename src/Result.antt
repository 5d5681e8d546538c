-- ===== src/Result.antt =====
-- A computation that may raise: `err e` is the raised exception.
use moreofchat.Prelude.{Bool, true, false, ◌≡◌, refl, Option, none, some}

pub data Result {ℓ} (E A : Type ℓ) : Type ℓ where
  ok : A → Result E A
  err : E → Result E A

-- `await m` and then the rest: an exception in `m` skips it.
infixl 5 ◌>>=◌ ◌>>◌
abbrev pub ◌>>=◌ {ℓ} : {Err X Y : Type ℓ} → Result Err X → (X → Result Err Y) → Result Err Y
err raised >>= rest = err raised
ok value >>= rest = rest value

abbrev pub ◌>>◌ {ℓ} : {Err X Y : Type ℓ} → Result Err X → Result Err Y → Result Err Y
m >> rest = m >>= λ _. rest

-- `mapping[key]`, which raises where the key is missing.
abbrev pub require {ℓ} : {E A : Type ℓ} → E → Option A → Result E A
require e none = err e
require e (some a) = ok a

pub >>=-eq-ok {ℓ} :
    {Err X Y : Type ℓ} (m : Result Err X) (rest : X → Result Err Y) {y : Y}
    → (m >>= rest) ≡ ok y
    → (x : X) × (m ≡ ok x) × (rest x ≡ ok y)
>>=-eq-ok (err raised) rest returned = cc
>>=-eq-ok (ok value) rest returned = (value, refl, returned)

pub ok-injective {ℓ} : {E A : Type ℓ} {a b : A} → ◌≡◌ {A = Result E A} (ok a) (ok b) → a ≡ b
ok-injective h = cc

abbrev pub is_ok {ℓ} : {E A : Type ℓ} → Result E A → Bool
is_ok (ok a) = true
is_ok (err e) = false

pub ok_of_is_ok {ℓ} : {E A : Type ℓ} (m : Result E A) → is_ok m ≡ true → (a : A) × (m ≡ ok a)
ok_of_is_ok (ok a) h = (a, refl)
ok_of_is_ok (err e) h = cc
