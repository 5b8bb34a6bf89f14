-- ===== src/Go/Sets.antt =====
-- The sets of k8s.io/apimachinery/pkg/util/sets as the program uses them: the members are kept once, in
-- a list.
use pkgserver.Prelude.{
  ◌≡◌, refl, sym, ap, ◌∙◌, Bool, true, false, not, ◌&&◌, ◌||◌, List, [], ◌∷◌, arith, Eq, ◌==◌,
  if◌then◌else◌,
}

module _ {ℓ} {T : Type ℓ} ⦃e : Eq T⦄ where
  unfoldable pub has : T → List T → Bool
  has x [] = false
  has x (y ∷ ys) = y == x || has x ys

  unfoldable pub insert : T → List T → List T
  unfolding has
  insert x ys = if has x ys then ys else x ∷ ys

  unfoldable pub remove : T → List T → List T
  remove x [] = []
  remove x (y ∷ ys) = let rest = remove x ys in if y == x then rest else y ∷ rest

  has_same : (x y : T) (ys : List T) → has x ys ≡ true → (x == y) ≡ true → has y ys ≡ true
  has_same x y ys h p = ap (λ z. has z ys) (sym ((e.decides x y).0 p)) ∙ h

  pub has-insert : (x y : T) (ys : List T) → has y (insert x ys) ≡ (has y ys || x == y)
  unfolding insert has
  has-insert x y ys = ground (arith, has_same x y ys)

  pub has-remove : (x y : T) (ys : List T) → has y (remove x ys) ≡ (has y ys && not (x == y))
  unfolding remove has
  has-remove x y [] = refl
  has-remove x y (z ∷ ys) =
      ground (arith, has-remove x y ys, e.decides z x, e.decides z y, e.decides x y)
