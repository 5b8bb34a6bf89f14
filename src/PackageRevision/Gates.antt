-- ===== src/PackageRevision/Gates.antt =====
-- The readiness gates of a package revision as a chain: `NextReadinessGate` and
-- `GetPreviousCondition` of apis/pkg/v1alpha1/packagerevisions_interface.go.
use pkgserver.Prelude.{
  ℕ, zero, suc, ◌≤◌, ◌+◌, ◌≡◌, ◌≢◌, refl, sym, ap, ◌∙◌, List, [], ◌∷◌, ◌++◌, Option, none, some,
  arith, Str, ==_refl, ==_false, str_eq, if◌then◌else◌, ltb, length, get_or, get_or-append,
  append_assoc, All, Bool-cases, inl, inr, ◌==◌, ==_iff,
}
use pkgserver.Condition.Set.{get_condition-set_condition}
use pkgserver.Condition.{
  Condition, set_conditions, type_end, condition_true, get_condition, always_true, always_false,
}
use pkgserver.PackageRevision.{
  PackageRevision, gate_index, previous_from, next_readiness_gate, get_previous_condition,
  set_conditions_of,
}

-- No gate of the list has the type.
abbrev pub NoGate : Str → List Str → Type 0
NoGate t = All (λ g. g ≢ t)

gate_index-found :
    (t : Str) (i : ℕ) (xs ys : List Str)
    → NoGate t xs
    → gate_index t i (xs ++ (t ∷ ys)) ≡ i + length xs
unfolding gate_index
gate_index-found t i [] ys h = rw (==_refl t) (omega arith)
gate_index-found t i (x ∷ xs) ys h =
    rw (==_false x t h.0) (gate_index-found t (i + 1) xs ys h.1 ∙ omega arith)

gate_index-missing : (t : Str) (i : ℕ) (gs : List Str) → NoGate t gs → gate_index t i gs ≡ 0
unfolding gate_index
gate_index-missing t i [] h = refl
gate_index-missing t i (g ∷ gs) h = rw (==_false g t h.0) (gate_index-missing t (i + 1) gs h.1)

-- The gate in front of a place, if there is one.
abbrev last_or : Option Str → List Str → Option Str
last_or d [] = d
last_or d (x ∷ xs) = last_or (some x) xs

previous_from-found :
    (now : ℕ) (cs : List Condition) (t : Str) (before : Option Str) (xs ys : List Str)
    → NoGate t xs
    → previous_from now cs t before (xs ++ (t ∷ ys))
      ≡ elim (last_or before xs) [ none ↦ always_true now | some b ↦ get_condition cs b ]
unfolding previous_from
previous_from-found now cs t before [] ys h = rw (==_refl t)
previous_from-found now cs t before (x ∷ xs) ys h =
    rw (==_false x t h.0) (previous_from-found now cs t (some x) xs ys h.1)

previous_from-missing :
    (now : ℕ) (cs : List Condition) (t : Str) (before : Option Str) (gs : List Str)
    → NoGate t gs
    → previous_from now cs t before gs ≡ always_false now
unfolding previous_from
previous_from-missing now cs t before [] h = refl
previous_from-missing now cs t before (g ∷ gs) h =
    rw (==_false g t h.0) (previous_from-missing now cs t (some g) gs h.1)

-- The gate before is not `t` itself.
Differs : Str → Option Str → Type 0
Differs t none = Unit
Differs t (some b) = b ≢ t

previous_from-set_conditions :
    (now : ℕ) (cs : List Condition) (c : Condition) (before : Option Str) (gs : List Str)
    → Differs c.type before
    → previous_from now (set_conditions cs (c ∷ [])) c.type before gs
      ≡ previous_from now cs c.type before gs
unfolding previous_from Differs
previous_from-set_conditions now cs c before [] h = refl
previous_from-set_conditions now cs c before (g ∷ gs) h = elim (Bool-cases (g == c.type)) [
  | inl t ↦ rw t (by_before before h)
  | inr t ↦
      rw t (
        previous_from-set_conditions now cs c (some g) gs
          (λ same. cc (t, (==_iff g c.type).1 same)))
]
  where
    by_before :
        (b : Option Str)
        → Differs c.type b
        → (elim b as (λ _. Condition) [
          | none ↦ always_true now
          | some x ↦ get_condition (set_conditions cs (c ∷ [])) x
        ])
          ≡ (elim b as (λ _. Condition) [ none ↦ always_true now | some x ↦ get_condition cs x ])
    by_before none d = refl
    by_before (some x) d = unfold set_conditions in (get_condition-set_condition cs c).1 x d

last_or-append : (d : Option Str) (xs : List Str) (y : Str) → last_or d (xs ++ (y ∷ [])) ≡ some y
last_or-append d [] y = refl
last_or-append d (x ∷ xs) y = last_or-append (some x) xs y

-- Reading out of range gives the default, so the source's test changes nothing.
get_or_out : (gs : List Str) (n : ℕ) (d : Str) → length gs ≤ n → get_or gs n d ≡ d
get_or_out [] n d h = refl
get_or_out (g ∷ gs) zero d h = absurd (omega arith)
get_or_out (g ∷ gs) (suc n) d h = get_or_out gs n d (omega arith)

next_from :
    (gs : List Str) (n : ℕ)
    → (if ltb n (length gs) then get_or gs n type_end else type_end) ≡ get_or gs n type_end
next_from gs n = ground (arith, get_or_out gs n type_end)

-- Setting a gate's own condition leaves the condition that it waits for.
pub get_previous_condition-set_conditions :
    (now : ℕ) (r : PackageRevision) (c : Condition)
    → get_previous_condition now (set_conditions_of r (c ∷ [])) c.type
      ≡ get_previous_condition now r c.type
unfolding get_previous_condition Differs set_conditions_of
get_previous_condition-set_conditions now r c =
    previous_from-set_conditions now r.conditions c none r.readiness_gates tt

module _ (r : PackageRevision) where
  -- The gate after a gate's first occurrence is the one that stands behind it, and there is none,
  -- `End`, behind the last.
  pub next_readiness_gate_lem :
      (xs ys : List Str) (g : Str)
      → r.readiness_gates ≡ xs ++ (g ∷ ys)
      → NoGate g xs
      → next_readiness_gate r g ≡ get_or ys 0 type_end
  unfolding next_readiness_gate
  next_readiness_gate_lem xs ys g listed first =
      rw (listed, gate_index-found g 0 xs ys first)
        (next_from (xs ++ (g ∷ ys)) (0 + length xs + 1)
          ∙ (ap (λ n. get_or (xs ++ (g ∷ ys)) n type_end) {y = length xs + 1} (omega arith)
              ∙ get_or-append xs (g ∷ ys) 1 type_end))

  -- Where two gates stand one behind the other and neither stands before, the second is next to the
  -- first, and the condition that it waits for is the condition of the first.
  pub previous-next :
      (now : ℕ) (xs ys : List Str) (g h : Str)
      → r.readiness_gates ≡ xs ++ (g ∷ h ∷ ys)
      → NoGate g xs
      → NoGate h (xs ++ (g ∷ []))
      → (next_readiness_gate r g ≡ h)
        × (get_previous_condition now r (next_readiness_gate r g) ≡ get_condition r.conditions g)
  unfolding get_previous_condition
  previous-next now xs ys g h listed first second =
      let next = next_readiness_gate_lem xs (h ∷ ys) g listed first in
      (
        next,
        rw (next, listed, sym (append_assoc xs (g ∷ []) (h ∷ ys)))
            (previous_from-found now r.conditions h none (xs ++ (g ∷ [])) ys second
              ∙ rw (last_or-append none xs g)),
      )

  -- The first gate waits for nothing: its previous condition is true.
  pub get_previous_condition_first :
      (now : ℕ) (ys : List Str) (g : Str)
      → r.readiness_gates ≡ g ∷ ys
      → get_previous_condition now r g ≡ always_true now
  unfolding get_previous_condition
  get_previous_condition_first now ys g listed =
      rw listed (previous_from-found now r.conditions g none [] ys tt)

  -- For a type that is no gate, the next gate is the second one of the list, and the status of the
  -- previous condition is "True".
  pub gate_missing :
      (now : ℕ) (t : Str)
      → NoGate t r.readiness_gates
      → (next_readiness_gate r t ≡ get_or r.readiness_gates 1 type_end)
        × ((get_previous_condition now r t).status ≡ condition_true)
  unfolding next_readiness_gate get_previous_condition always_false
  gate_missing now t h = (
    rw (gate_index-missing t 0 r.readiness_gates h) (next_from r.readiness_gates (0 + 1)),
    rw (previous_from-missing now r.conditions t none r.readiness_gates h),
  )
