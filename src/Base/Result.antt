-- ===== src/Base/Result.antt =====
-- Python's exceptions as values: the class that is raised, and its message.
use Prim.Native.String.{String}
use mathlib.Core.Bool.{Bool, true, false}
use mathlib.Core.Option.{Option, none, some}
use mathlib.Core.Path.{◌≡◌, refl, subst}
use mathlib.Core.Logic.{◌⊎◌, inl, inr}

pub data ErrorKind : Type 0 where
  validation_error template_resolution_error runtime_error ssh_error runpod_client_error : ErrorKind
  key_error value_error stop_iteration integrity_error assertion_error timeout_expired : ErrorKind
  file_not_found_error : ErrorKind

pub record Error : Type 0 where
  pub kind : ErrorKind
  pub message : String

pub data Result {ℓ} (A : Type ℓ) : Type ℓ where
  err : Error → Result A
  ok : A → Result A

-- `if b: raise kind(message)`
abbrev pub raise_if : Bool → ErrorKind → String → Result (Unit {0})
raise_if true kind message = err (record { kind = kind; message = message })
raise_if false kind message = ok tt

abbrev pub require {ℓ} : {A : Type ℓ} → Option A → ErrorKind → String → Result A
require none kind message = err (record { kind = kind; message = message })
require (some a) kind message = ok a

abbrev pub is_ok {ℓ} : {A : Type ℓ} → Result A → Bool
is_ok (ok a) = true
is_ok (err e) = false

-- What follows is skipped after an exception.
module _ {ℓ κ} {A : Type ℓ} {B : Type κ} where
  infixl 5 ◌>>=◌
  abbrev pub ◌>>=◌ : Result A → (A → Result B) → Result B
  ◌>>=◌ (err e) later = err e
  ◌>>=◌ (ok value) later = later value

  -- A value at the end comes from a value of the first part.
  pub >>=-eq-ok :
      (r : Result A) (later : A → Result B) {b : B}
      → ◌>>=◌ r later ≡ ok b
      → (value : A) × (r ≡ ok value) × (later value ≡ ok b)
  >>=-eq-ok (err e) later h = cc
  >>=-eq-ok (ok value) later h = (value, refl, h)

infixl 5 ◌>>◌
abbrev pub ◌>>◌ {κ} : {B : Type κ} → Result (Unit {0}) → Result B → Result B
◌>>◌ check later = check >>= λ u. later

pub is_ok-value {ℓ} : {A : Type ℓ} (m : Result A) → is_ok m ≡ true → (a : A) × (m ≡ ok a)
is_ok-value (ok a) h = (a, refl)
is_ok-value (err e) h = cc

pub Result-cases {ℓ} :
    {A : Type ℓ} (r : Result A) → ((e : Error) × (r ≡ err e)) ⊎ ((a : A) × (r ≡ ok a))
Result-cases (err e) = inl (e, refl)
Result-cases (ok a) = inr (a, refl)

pub ok_injective {ℓ} : {A : Type ℓ} (a b : A) → ok a ≡ ok b → a ≡ b
ok_injective a b h = cc

-- What holds of the value, if there is one.
abbrev pub Returns : {A : Type 0} → (A → Type 0) → Result A → Type 0
Returns P (ok a) = P a
Returns P (err e) = Unit

pub Returns-bind :
    {A B : Type 0} (P : B → Type 0) (m : Result A) (f : A → Result B)
    → ((a : A) → m ≡ ok a → Returns P (f a))
    → Returns P (m >>= f)
Returns-bind P (ok a) f h = h a refl
Returns-bind P (err e) f h = tt

pub Returns-at : {A : Type 0} (P : A → Type 0) (m : Result A) (a : A) → Returns P m → m ≡ ok a → P a
Returns-at P (ok b) a h e = subst P (ok_injective b a e) h
Returns-at P (err x) a h e = absurd (cc)
