-- ===== src/Prelude/Results.antt =====
-- A Go result `(value, error)`: the value, or the error's message.
use mathlib.Core.Path.{◌≡◌, refl}
use pkgserver.Prelude.Equality.{Str}

pub data Result {ℓ} (A : Type ℓ) : Type ℓ where
  err : Str → Result A
  ok : A → Result A

module _ {ℓ κ} {A : Type ℓ} {B : Type κ} where
  -- `if err != nil { return …, err }`, and what comes next.
  infixl 5 ◌>>=◌
  abbrev pub ◌>>=◌ : Result A → (A → Result B) → Result B
  err message >>= next = err message
  ok value >>= next = next value

  -- Nothing was wrong where the whole went well.
  pub >>=-eq-ok :
      (first : Result A) (next : A → Result B) {out : B}
      → (first >>= next) ≡ ok out
      → (value : A) × (first ≡ ok value) × (next value ≡ ok out)
  >>=-eq-ok (err message) next whole = cc
  >>=-eq-ok (ok value) next whole = (value, refl, whole)
