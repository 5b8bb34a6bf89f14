-- ===== src/Tests/Stores.antt =====
-- A memory store, and the catalog at concrete values.
use pkgserver.Prelude.{◌≡◌, refl, [], Option, none, some, ◌==◌, if◌then◌else◌, Result, ok, err}
use pkgserver.Storer.{Key, key_eq, Storer, found, on_found, IsMemory}

-- A store as the function that it computes.
abbrev as_answer {ℓ} : {V : Type ℓ} → Option V → Result V
as_answer none = err []
as_answer (some v) = ok v

found_answer : {V : Type 0} (o : Option V) → found (as_answer o) ≡ o
found_answer none = refl
found_answer (some v) = refl

abbrev pub memory : (V : Type 0) → Storer V
memory V = record {
  Store = Key → Option V;
  get = λ k s. as_answer (s k);
  update = λ k v s. (none, λ j. if j == k then some v else s j);
  update_with_key_fn = λ k f s. (none, λ j. if j == k then some (f (s k)) else s j);
  update_with_fn = λ f s. (none, λ j. on_found (f j) (s j));
  delete = λ k s. (none, λ j. if j == k then none else s j);
}

pub memory-IsMemory : (V : Type 0) → IsMemory (memory V)
memory-IsMemory V = record {
  get_update =
      λ j k v s. rw (found_answer (if j == k then some v else s j), found_answer (s j)) refl;
  get_update_with_key = λ j k f s.
      rw
        (
          found_answer (if j == k then some (f (s k)) else s j),
          found_answer (s j),
          found_answer (s k),
        )
        refl;
  get_update_with = λ j f s. rw (found_answer (on_found (f j) (s j)), found_answer (s j)) refl;
  get_delete = λ j k s. rw (found_answer (if j == k then none else s j), found_answer (s j)) refl;
}
