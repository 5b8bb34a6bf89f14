-- ===== src/Catalog/Versions/Removal.antt =====
-- The loop that removes a name from a slice while it ranges over it:
-- pkg/reconcilers/packagediscovery/catalog/store.go, DeletePkgRev.
use pkgserver.Prelude.{
  ℕ, zero, suc, ◌+◌, ◌-◌, ◌≤◌, ◌≡◌, refl, sym, ap, ◌∙◌, Bool, true, false, ◌||◌, List, [], ◌∷◌,
  ◌++◌, append_assoc, arith, Str, ◌==◌, str_eq, ==_iff, if◌then◌else◌, get_or, drop, length,
  length-append, get_or-append, take-length_append,
}
use pkgserver.Catalog.Versions.{has_name, cut, sweep_turn, sweep, delete_name}

-- The names without one of them.
unfoldable pub without : Str → List Str → List Str
without name [] = []
without name (n ∷ ns) = let rest = without name ns in if n == name then rest else n ∷ rest

-- No name stands twice.
unfoldable pub IsUnique : List Str → Type 0
IsUnique [] = Unit
IsUnique (n ∷ ns) = (has_name n ns ≡ false) × IsUnique ns

pub without_absent : (name : Str) (ns : List Str) → has_name name ns ≡ false → without name ns ≡ ns
unfolding without has_name
without_absent name [] h = refl
without_absent name (n ∷ ns) h = ground (arith, without_absent name ns)

drop-length_append : (xs ys : List Str) → drop (length xs) (xs ++ ys) ≡ ys
drop-length_append [] ys = refl
drop-length_append (x ∷ xs) ys = drop-length_append xs ys

drop_more : (xs ys : List Str) (k : ℕ) → drop (length xs + k) (xs ++ ys) ≡ drop k ys
drop_more [] ys k = ap (λ i. drop i ys) (omega arith)
drop_more (x ∷ xs) ys k =
    ap (λ i. drop i (x ∷ (xs ++ ys))) {y = suc (length xs + k)} (omega arith) ∙ drop_more xs ys k

has_name-drop :
    (name : Str) (k : ℕ) (ns : List Str)
    → has_name name ns ≡ false
    → has_name name (drop k ns) ≡ false
unfolding has_name
has_name-drop name zero ns h = h
has_name-drop name (suc k) [] h = h
has_name-drop name (suc k) (n ∷ ns) h = has_name-drop name k ns (ground (arith, h))

pub has_name-append :
    (name : Str) (ms ns : List Str)
    → has_name name (ms ++ ns) ≡ (has_name name ms || has_name name ns)
unfolding has_name
has_name-append name [] ns = refl
has_name-append name (m ∷ ms) ns = ground (arith, has_name-append name ms ns)

-- The turn at the end of `done`.
turn_at :
    (name : Str) (done : List Str) (x : Str) (rest kept : List Str)
    → sweep_turn name (length done) (done ++ x ∷ rest) kept ≡ (
        if x == name
        then (
          (done ++ rest) ++ drop (length (done ++ x ∷ rest) - 1) (done ++ x ∷ rest),
          done ++ rest,
        )
        else (done ++ x ∷ rest, kept))
unfolding sweep_turn cut
turn_at name done x rest kept =
    let at : get_or (done ++ x ∷ rest) (length done) [] ≡ x =
      ap (λ i. get_or (done ++ x ∷ rest) i []) {x = length done} {y = length done + 0} (omega arith)
      ∙ get_or-append done (x ∷ rest) 0 [] in
    rw (at, take-length_append done (x ∷ rest), drop_more done (x ∷ rest) 1) refl

-- The array and the index of the next turn.
further :
    (done : List Str) (x : Str) (rest : List Str) → (done ++ (x ∷ [])) ++ rest ≡ done ++ x ∷ rest
further done x rest = append_assoc done (x ∷ []) rest

further_index : (done : List Str) (x : Str) → length (done ++ (x ∷ [])) ≡ length done + 1
further_index done x = length-append done (x ∷ [])

-- Where the rest of the array has not the name, nothing more is removed.
sweep_misses :
    (name : Str) (n : ℕ) (done rest kept : List Str)
    → n ≤ length rest
    → has_name name rest ≡ false
    → sweep name n (length done) (done ++ rest, kept) ≡ kept
unfolding sweep has_name
sweep_misses name zero done rest kept le h = refl
sweep_misses name (suc n) done [] kept le h = absurd (omega arith)
sweep_misses name (suc n) done (x ∷ rest) kept le h =
    let apart : (x == name) ≡ false = ground (arith, h) in
    let next : sweep name n (length done + 1) (done ++ x ∷ rest, kept) ≡ kept =
      rw (sym (further done x rest), sym (further_index done x))
        (sweep_misses name n (done ++ (x ∷ [])) rest kept (omega arith) (ground (arith, h))) in
    rw (turn_at name done x rest kept, apart) next

length-drop : (k : ℕ) (ns : List Str) → length ns ≤ length (drop k ns) + k
length-drop zero ns = omega arith
length-drop (suc k) [] = omega arith
length-drop (suc k) (n ∷ ns) = let rest = length-drop k ns in omega arith

absent_again :
    (name y : Str) (ys : List Str)
    → has_name name (y ∷ ys) ≡ false
    → has_name name (ys ++ drop (length ys) (y ∷ ys)) ≡ false
unfolding has_name
absent_again name y ys h = ground (
  arith,
  has_name-append name ys (drop (length ys) (y ∷ ys)),
  has_name-drop name (length ys) (y ∷ ys) h,
)

-- The last element is there twice after a removal, and is not the removed one.
after_removal :
    (name : Str) (done : List Str) (x : Str) (rest : List Str)
    → has_name name rest ≡ false
    → sweep name
        (length rest)
        (length done + 1)
        ((done ++ rest) ++ drop (length (done ++ x ∷ rest) - 1) (done ++ x ∷ rest), done ++ rest)
      ≡ done ++ rest
unfolding sweep
after_removal name done x [] h = refl
after_removal name done x (y ∷ ys) h =
    let tail = drop (length ys) (y ∷ ys) in
    let index : length (done ++ x ∷ y ∷ ys) - 1 ≡ length done + suc (length ys) =
      omega (arith, length-append done (x ∷ y ∷ ys)) in
    let array : (done ++ y ∷ ys) ++ drop (length (done ++ x ∷ y ∷ ys) - 1) (done ++ x ∷ y ∷ ys)
        ≡ (done ++ (y ∷ [])) ++ (ys ++ tail) =
      rw (index, drop_more done (x ∷ y ∷ ys) (suc (length ys)))
        (ap (λ a. a ++ tail) (sym (further done y ys)) ∙ append_assoc (done ++ (y ∷ [])) ys tail) in
    let missing = absent_again name y ys h in
    rw (array, sym (further_index done y))
      (sweep_misses name (suc (length ys)) (done ++ (y ∷ [])) (ys ++ tail) (done ++ y ∷ ys)
        (omega (arith, length-append ys tail, length-drop (length ys) (y ∷ ys))) missing)

-- The loop from the end of `done`, where nothing was removed before.
sweep_removes :
    (name : Str) (done rest : List Str)
    → IsUnique rest
    → sweep name (length rest) (length done) (done ++ rest, done ++ rest)
      ≡ done ++ without name rest
unfolding sweep without IsUnique
sweep_removes name done [] u = refl
sweep_removes name done (x ∷ rest) u =
    ap (λ t. sweep name (length rest) (length done + 1) t)
      (turn_at name done x rest (done ++ x ∷ rest))
    ∙ (go (sweep_removes name (done ++ (x ∷ [])) rest u.1) (x == name) refl)
  where
    go :
        (sweep name
            (length rest)
            (length (done ++ (x ∷ [])))
            ((done ++ (x ∷ [])) ++ rest, (done ++ (x ∷ [])) ++ rest)
          ≡ (done ++ (x ∷ [])) ++ without name rest)
        → (test : Bool) → (x == name) ≡ test
        → sweep name (length rest) (length done + 1) (
            if test
            then (
              (done ++ rest) ++ drop (length (done ++ x ∷ rest) - 1) (done ++ x ∷ rest),
              done ++ rest,
            )
            else (done ++ x ∷ rest, done ++ x ∷ rest))
          ≡ done ++ (if test then without name rest else x ∷ without name rest)
    go later true h =
        let same : x ≡ name = (==_iff x name).0 h in
        let absent : has_name name rest ≡ false = ap (λ n. has_name n rest) (sym same) ∙ u.0 in
        rw (without_absent name rest absent) (after_removal name done x rest absent)
    go later false h =
        rw
          (
            sym (further done x rest),
            sym (further_index done x),
            sym (further done x (without name rest)),
          )
          later

-- From a slice whose names are distinct the loop removes the name and nothing else.
pub delete_name_lem :
    (name : Str) (ns : List Str) → IsUnique ns → delete_name name ns ≡ without name ns
unfolding delete_name
delete_name_lem name ns u = sweep_removes name [] ns u
