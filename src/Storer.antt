-- ===== src/Storer.antt =====
-- The key-value stores of github.com/henderiw/apiserver-store/pkg/storebackend, as the program uses
-- them: an interface, and what its memory store promises.
use pkgserver.Prelude.{
  ◌≡◌, ◌↔◌, Bool, true, ◌&&◌, Option, none, some, Str, ◌==◌, Eq, str_eq, str_beq, str_beq_iff,
  if◌then◌else◌, Result, ok, err, arith,
}

-- `storebackend.Key`.
pub record Key : Type 0 where
  pub namespace : Str
  pub name : Str

abbrev pub key_beq : Key → Key → Bool
key_beq a b = str_beq a.namespace b.namespace && str_beq a.name b.name

pub key_beq_iff : (a b : Key) → (key_beq a b ≡ true) ↔ (a ≡ b)
key_beq_iff a b = ground (arith, str_beq_iff a.namespace b.namespace, str_beq_iff a.name b.name)

instance abbrev pub key_eq : Eq Key
key_eq = record { equals = key_beq; decides = key_beq_iff }

-- `storebackend.Storer[V]`: each operation gives the error, if there is one, and the store after it.
-- `UpdateWithKeyFn` passes `nil` where the key has no entry.
pub record Storer (V : Type 0) : Type 1 where
  pub Store : Type 0
  pub get : Key → Store → Result V
  pub update : Key → V → Store → Option Str × Store
  pub update_with_key_fn : Key → (Option V → V) → Store → Option Str × Store
  pub update_with_fn : (Key → V → V) → Store → Option Str × Store
  pub delete : Key → Store → Option Str × Store

-- The value, without the error.
abbrev pub found {ℓ} : {V : Type ℓ} → Result V → Option V
found (err e) = none
found (ok v) = some v

abbrev pub on_found {ℓ κ} : {V : Type ℓ} {W : Type κ} → (V → W) → Option V → Option W
on_found f none = none
on_found f (some v) = some (f v)

-- What the memory store promises of `Get` after each operation.
pub record IsMemory {V : Type 0} (m : Storer V) : Type 0 where
  pub get_update :
      (j k : Key) (v : V) (s : m.Store)
      → found (m.get j (m.update k v s).1) ≡ (if j == k then some v else found (m.get j s))
  pub get_update_with_key :
      (j k : Key) (f : Option V → V) (s : m.Store)
      → found (m.get j (m.update_with_key_fn k f s).1)
        ≡ (if j == k then some (f (found (m.get k s))) else found (m.get j s))
  pub get_update_with :
      (j : Key) (f : Key → V → V) (s : m.Store)
      → found (m.get j (m.update_with_fn f s).1) ≡ on_found (f j) (found (m.get j s))
  pub get_delete :
      (j k : Key) (s : m.Store)
      → found (m.get j (m.delete k s).1) ≡ (if j == k then none else found (m.get j s))
