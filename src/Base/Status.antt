-- ===== src/Base/Status.antt =====
-- include/error.hpp: error codes, errors, and the two result types `expected<T>` and `status`. The
-- text of an error is the literal part of the message; what is formatted into it is left out.
use Prim.Native.String.{String}
use mathlib.Core.Path.{◌≡◌, refl}

pub data Errc : Type 0 where
  generic_error value_table_not_enough_space key_not_found deleted : Errc
  busy buffer_full end_of_scan skip : Errc

pub record Error : Type 0 where
  pub text : String
  pub code : Errc

-- `hedge::error(msg)` without a code.
abbrev pub error : String → Error
error text = record { text = text; code = generic_error }

-- `hedge::error("", code)`.
abbrev pub error_code : Errc → Error
error_code c = record { text = ""; code = c }

-- `hedge::expected<T>`; `hedge::status` is `Expected Unit`.
pub data Expected {ℓ} (A : Type ℓ) : Type ℓ where
  ok : A → Expected A
  err : Error → Expected A

abbrev pub Status : Type 0
Status = Expected (Unit {0})

infixl 5 ◌>>=◌ ◌>>◌
abbrev pub ◌>>=◌ {ℓ κ} : {A : Type ℓ} {B : Type κ} → Expected A → (A → Expected B) → Expected B
ok a >>= f = f a
err e >>= f = err e

abbrev pub ◌>>◌ {ℓ} : {B : Type ℓ} → Status → Expected B → Expected B
m >> k = m >>= λ _. k

-- What a chain that succeeds says of its first part.
pub bind-ok {ℓ κ μ} :
    {A : Type ℓ} {B : Type κ} {C : Type μ} (m : Expected A) (f : A → Expected B) (b : B)
    → (m >>= f) ≡ ok b
    → ((a : A) → m ≡ ok a → f a ≡ ok b → C)
    → C
bind-ok (ok a) f b h next = next a refl h
bind-ok (err e) f b h next = absurd (cc)
