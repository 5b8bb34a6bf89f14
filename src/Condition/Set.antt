-- ===== src/Condition/Set.antt =====
-- `SetConditions` of apis/condition/condition.go as a map from types to conditions.
use pkgserver.Prelude.{
  ◌≡◌, ◌≢◌, refl, sym, ◌∙◌, true, false, ◌&&◌, ◌||◌, List, [], ◌∷◌, ◌++◌, map, arith, Str, ◌==◌,
  ==_cases, ==_refl, str_beq_iff, ==_false, str_eq, if◌then◌else◌, All, All-append, inl, inr,
  Bool-cases,
}
use pkgserver.Condition.{
  Condition, equal, has_condition, get_condition, replace, set_condition, set_conditions,
}

-- No condition of the list has the type.
abbrev pub Absent : Str → List Condition → Type 0
Absent t = All (λ c. c.type ≢ t)

-- One condition of each type.
abbrev pub IsUnique : List Condition → Type 0
IsUnique [] = Unit
IsUnique (c ∷ cs) = Absent c.type cs × IsUnique cs

-- What `SetConditions` makes of one existing condition.
overwrite : Condition → Condition → Condition
unfolding equal
overwrite new c = if c.type == new.type then (if equal c new then c else new) else c

overwrite-type : (new c : Condition) → (overwrite new c).type ≡ c.type
unfolding overwrite
overwrite-type new c = ground (arith, str_beq_iff c.type new.type)

replace_lem :
    (new : Condition) (cs : List Condition)
    → replace new cs ≡ (map (overwrite new) cs, has_condition cs new.type)
unfolding replace overwrite has_condition
replace_lem new [] = refl
replace_lem new (c ∷ cs) = ground (arith, replace_lem new cs)

set_condition_lem :
    (cs : List Condition) (new : Condition)
    → set_condition cs new ≡ (
        if has_condition cs new.type
        then map (overwrite new) cs
        else map (overwrite new) cs ++ (new ∷ []))
unfolding set_condition
set_condition_lem cs new = rw replace_lem

get-overwrite_ne :
    (new : Condition) (t : Str) (cs : List Condition)
    → t ≢ new.type
    → get_condition (map (overwrite new) cs) t ≡ get_condition cs t
unfolding get_condition overwrite
get-overwrite_ne new t [] n = refl
get-overwrite_ne new t (c ∷ cs) n = ground (
  arith,
  get-overwrite_ne new t cs n,
  str_beq_iff c.type new.type,
  str_beq_iff c.type t,
  str_beq_iff new.type t,
)

get-overwrite_eq :
    (new : Condition) (cs : List Condition)
    → has_condition cs new.type ≡ true
    → get_condition (map (overwrite new) cs) new.type
      ≡ (if equal (get_condition cs new.type) new then get_condition cs new.type else new)
unfolding get_condition overwrite has_condition
get-overwrite_eq new [] h = cc
get-overwrite_eq new (c ∷ cs) h =
    ground
      (arith, get-overwrite_eq new cs, str_beq_iff c.type new.type, str_beq_iff new.type new.type)

has-overwrite :
    (new : Condition) (t : Str) (cs : List Condition)
    → has_condition (map (overwrite new) cs) t ≡ has_condition cs t
unfolding has_condition
has-overwrite new t [] = refl
has-overwrite new t (c ∷ cs) = rw (overwrite-type new c, has-overwrite new t cs)

has-append :
    (t : Str) (cs : List Condition) (d : Condition)
    → has_condition (cs ++ (d ∷ [])) t ≡ (has_condition cs t || d.type == t)
unfolding has_condition
has-append t [] d = ground arith
has-append t (c ∷ cs) d = ground (arith, has-append t cs d)

get-append :
    (t : Str) (cs : List Condition) (d : Condition)
    → get_condition (cs ++ (d ∷ [])) t
      ≡ (if has_condition cs t then get_condition cs t else get_condition (d ∷ []) t)
unfolding get_condition has_condition
get-append t [] d = refl
get-append t (c ∷ cs) d = ground (arith, get-append t cs d)

get-absent :
    (t : Str) (cs : List Condition)
    → has_condition cs t ≡ false
    → get_condition cs t ≡ get_condition [] t
unfolding get_condition has_condition
get-absent t [] h = refl
get-absent t (c ∷ cs) h = ground (arith, get-absent t cs)

-- After a condition is set, each type is present that was present or is the new one's.
pub has_condition-set_condition :
    (cs : List Condition) (new : Condition) (t : Str)
    → has_condition (set_condition cs new) t ≡ (has_condition cs t || new.type == t)
has_condition-set_condition cs new t = elim (Bool-cases (has_condition cs new.type)) [
  | inl h ↦ rw (set_condition_lem, h, has-overwrite) (ground (arith, str_beq_iff new.type t))
  | inr h ↦ rw (set_condition_lem, h, has-append, has-overwrite)
]

get-set_other :
    (cs : List Condition) (new : Condition) (t : Str)
    → t ≢ new.type
    → get_condition (set_condition cs new) t ≡ get_condition cs t
get-set_other cs new t n = elim (Bool-cases (has_condition cs new.type)) [
  | inl h ↦ rw (set_condition_lem, h) (get-overwrite_ne new t cs n)
  | inr h ↦
      rw (set_condition_lem, h, get-append, has-overwrite, get-overwrite_ne new t cs n)
        (absent cs (new ∷ []) (unfold has_condition in rw (==_false new.type t (λ e. n (sym e)))))
]
  where
    absent :
        (ds es : List Condition)
        → has_condition es t ≡ false
        → (if has_condition ds t then get_condition ds t else get_condition es t)
          ≡ get_condition ds t
    absent ds es h = elim (Bool-cases (has_condition ds t)) [
      | inl some_d ↦ rw some_d
      | inr no_d ↦ rw no_d (get-absent t es h ∙ sym (get-absent t ds no_d))
    ]

-- Setting one condition: its type then has the old condition, if that is equal up to the
-- transition time, and else the new one; every other type keeps its condition.
pub get_condition-set_condition :
    (cs : List Condition) (new : Condition)
    → (get_condition (set_condition cs new) new.type ≡ (
        if has_condition cs new.type && equal (get_condition cs new.type) new
        then get_condition cs new.type
        else new))
      × ((t : Str) → t ≢ new.type → get_condition (set_condition cs new) t ≡ get_condition cs t)
get_condition-set_condition cs new = (same, get-set_other cs new)
  where
    same : get_condition (set_condition cs new) new.type ≡ (
        if has_condition cs new.type && equal (get_condition cs new.type) new
        then get_condition cs new.type
        else new)
    same = elim (Bool-cases (has_condition cs new.type)) [
      | inl h ↦ rw (set_condition_lem, h) (get-overwrite_eq new cs h)
      | inr h ↦
          rw (set_condition_lem, h, get-append, has-overwrite, h)
            (unfold get_condition in rw (==_refl new.type))
    ]

map-Absent :
    (new : Condition) (t : Str) (cs : List Condition)
    → Absent t cs
    → Absent t (map (overwrite new) cs)
map-Absent new t [] h = tt
map-Absent new t (c ∷ cs) h = ((λ e. h.0 (sym (overwrite-type new c) ∙ e)), map-Absent new t cs h.1)

map-IsUnique :
    (new : Condition) (cs : List Condition) → IsUnique cs → IsUnique (map (overwrite new) cs)
map-IsUnique new [] h = tt
map-IsUnique new (c ∷ cs) h =
    (rw (overwrite-type new c) (map-Absent new c.type cs h.0), map-IsUnique new cs h.1)

has-Absent : (t : Str) (cs : List Condition) → has_condition cs t ≡ false → Absent t cs
unfolding has_condition
has-Absent t [] h = tt
has-Absent t (c ∷ cs) h = elim (==_cases c.type t) [
  | inl (test, _) ↦ cc (test, h)
  | inr (test, other) ↦ (other, has-Absent t cs (rw test at h))
]

append-IsUnique :
    (cs : List Condition) (d : Condition)
    → IsUnique cs
    → Absent d.type cs
    → IsUnique (cs ++ (d ∷ []))
append-IsUnique [] d h a = (tt, tt)
append-IsUnique (c ∷ cs) d h a = (
  All-append (λ e. e.type ≢ c.type) cs (d ∷ []) h.0 ((λ e. a.0 (sym e)), tt),
  append-IsUnique cs d h.1 a.1,
)

set_condition-IsUnique :
    (cs : List Condition) (new : Condition) → IsUnique cs → IsUnique (set_condition cs new)
set_condition-IsUnique cs new h = elim (Bool-cases (has_condition cs new.type)) [
  | inl old ↦ rw (set_condition_lem, old) (map-IsUnique new cs h)
  | inr fresh ↦
      rw (set_condition_lem, fresh)
        (append-IsUnique (map (overwrite new) cs) new (map-IsUnique new cs h)
          (map-Absent new new.type cs (has-Absent new.type cs fresh)))
]

-- Setting any conditions on a list with one condition of each type keeps one of each type.
pub set_conditions-IsUnique :
    (cs news : List Condition) → IsUnique cs → IsUnique (set_conditions cs news)
unfolding set_conditions
set_conditions-IsUnique cs [] h = h
set_conditions-IsUnique cs (new ∷ news) h =
    set_conditions-IsUnique (set_condition cs new) news (set_condition-IsUnique cs new h)

-- `new` is there already, up to its transition time.
abbrev pub IsSetIn : List Condition → Condition → Type 0
IsSetIn cs new = (has_condition cs new.type ≡ true) × (equal (get_condition cs new.type) new ≡ true)

map_missing :
    (new : Condition) (cs : List Condition) → Absent new.type cs → map (overwrite new) cs ≡ cs
unfolding overwrite
map_missing new [] h = refl
map_missing new (c ∷ cs) h = rw (==_false c.type new.type h.0, map_missing new cs h.1)

overwrite-equal : (new c : Condition) → c.type ≡ new.type → equal c new ≡ true → overwrite new c ≡ c
unfolding overwrite
overwrite-equal new c h e = ground (arith, str_beq_iff c.type new.type)

overwrite_other : (new c : Condition) → c.type ≢ new.type → overwrite new c ≡ c
unfolding overwrite
overwrite_other new c h = rw (==_false c.type new.type h)

map_unchanged :
    (new : Condition) (cs : List Condition)
    → IsUnique cs
    → equal (get_condition cs new.type) new ≡ true
    → map (overwrite new) cs ≡ cs
unfolding get_condition
map_unchanged new [] h e = refl
map_unchanged new (c ∷ cs) h e = elim (==_cases c.type new.type) [
  | inl (test, same) ↦
      rw (overwrite-equal new c same (rw test at e), map_missing new cs (rw same at h.0))
  | inr (test, other) ↦ rw (overwrite_other new c other, map_unchanged new cs h.1 (rw test at e))
]

-- Setting conditions that are all there already, up to their transition times, changes nothing.
pub set_conditions_noop :
    (cs news : List Condition) → IsUnique cs → All (IsSetIn cs) news → set_conditions cs news ≡ cs
unfolding set_conditions
set_conditions_noop cs [] h s = refl
set_conditions_noop cs (new ∷ news) h s =
    rw (set_condition_lem, s.0.0, map_unchanged new cs h s.0.1) (set_conditions_noop cs news h s.1)

set_conditions-append :
    (cs news more : List Condition)
    → set_conditions cs (news ++ more) ≡ set_conditions (set_conditions cs news) more
unfolding set_conditions
set_conditions-append cs [] more = refl
set_conditions-append cs (new ∷ news) more = set_conditions-append (set_condition cs new) news more

equal_refl : (c : Condition) → equal c c ≡ true
unfolding equal
equal_refl c = rw (==_refl c.type, ==_refl c.status, ==_refl c.reason, ==_refl c.message)

-- The last condition that is set is the one of its type, up to its transition time.
pub get-set_conditions_last :
    (cs news : List Condition) (last : Condition)
    → equal (get_condition (set_conditions cs (news ++ (last ∷ []))) last.type) last ≡ true
get-set_conditions_last cs news last =
    rw (set_conditions-append cs news (last ∷ []))
      (unfold set_conditions in up_to_time (set_conditions cs news))
  where
    up_to_time :
        (ds : List Condition) → equal (get_condition (set_condition ds last) last.type) last ≡ true
    up_to_time ds = rw ((get_condition-set_condition ds last).0) (ground (arith, equal_refl last))

-- The status of the last condition set is the one it has afterwards.
pub last_status :
    (cs : List Condition) (c : Condition)
    → (get_condition (set_conditions cs (c ∷ [])) c.type).status ≡ c.status
unfolding equal
last_status cs c = ground (
  arith,
  get-set_conditions_last cs [] c,
  str_beq_iff (get_condition (set_conditions cs (c ∷ [])) c.type).status c.status,
)
