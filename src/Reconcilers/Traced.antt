-- ===== src/Reconcilers/Traced.antt =====
-- A reconcile as a function from the requests made before, newest first, to its result and the
-- requests after it, for a controller with requests of its own.
use pkgserver.Prelude.{List, All}

module _ (Q : Type 0) where
  abbrev pub Run : Type 0 → Type 0
  Run A = List Q → A × List Q

module _ {Q : Type 0} where
  abbrev pub pure : {A : Type 0} → A → Run Q A
  pure a log = (a, log)

  infixl 5 ◌>>=◌
  abbrev pub ◌>>=◌ : {A B : Type 0} → Run Q A → (A → Run Q B) → Run Q B
  ◌>>=◌ m f log = f (m log).0 (m log).1

  -- A run adds only allowed requests.
  module _ (IsAllowed : Q → Type 0) where
    unfoldable pub IsSafe : {A : Type 0} → Run Q A → Type 0
    IsSafe m = (log : List Q) → All IsAllowed log → All IsAllowed (m log).1

    pub pure-IsSafe : {A : Type 0} (a : A) → IsSafe (pure a)
    unfolding IsSafe
    pure-IsSafe a log h = h
