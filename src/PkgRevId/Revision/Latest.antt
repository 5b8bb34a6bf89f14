-- ===== src/PkgRevId/Revision/Latest.antt =====
-- What apis/pkgrevid/revision.go computes over versions that semver reads as documented.
use mathlib.Core.List.{Memᴰ}
use pkgserver.Prelude.{
  ℕ, ◌+◌, ◌≤◌, ◌<◌, ◌≡◌, ◌≢◌, ◌↔◌, ◌⊎◌, refl, sym, ap, ◌∙◌, true, List, [], ◌∷◌, arith, Str, drop,
  if◌then◌else◌, ltb, Bool-cases, inl, inr, ok, ◌>>=◌, All,
}
use pkgserver.Go.Strconv.{max_int, itoa, atoi, itoa_next, atoi-itoa}
use pkgserver.PkgRevId.Revision.{
  no_revision, rev, Semver, IsSemver, latest_step, latest_from, latest_revision_number,
  is_rev_later, next_revision_number,
}

pub no_revision-rev : no_revision ≡ rev 0
unfolding itoa
no_revision-rev = refl

-- The number behind "v" is read, and the next one is printed.
read_next :
    (latest : Str) (n : ℕ)
    → latest ≡ rev n
    → n < max_int
    → (atoi (drop 1 latest) >>= λ i. ok (b'v' ∷ itoa_next i)) ≡ ok (rev (n + 1))
unfolding itoa_next
read_next latest n e l = rw (e, atoi-itoa n (omega arith)) (ground arith)

module _ (sv : Semver) (law : IsSemver sv) where
  open law use {number, major_prefix, valid_prefix, prefix_number, cmp_prefix}

  abbrev IsValid : Str → Type 0
  IsValid v = sv.is_valid v ≡ true

  -- The greater of `m` and the number of a valid version.
  abbrev raise : ℕ → Str → ℕ
  raise m v = if sv.is_valid v then (if ltb m (number v) then number v else m) else m

  abbrev greatest_from : ℕ → List Str → ℕ
  greatest_from m [] = m
  greatest_from m (v ∷ vs) = greatest_from (raise m v) vs

  latest_step-rev : (m : ℕ) (v : Str) → latest_step sv (rev m) v ≡ rev (raise m v)
  unfolding latest_step
  latest_step-rev m v = elim (Bool-cases (sv.is_valid v)) [
    | inl h ↦ rw (h, major_prefix v h, cmp_prefix (number v) m) (ground arith)
    | inr h ↦ rw h
  ]

  latest_from-rev : (m : ℕ) (vs : List Str) → latest_from sv (rev m) vs ≡ rev (greatest_from m vs)
  unfolding latest_from
  latest_from-rev m [] = refl
  latest_from-rev m (v ∷ vs) = rw (latest_step-rev m v) (latest_from-rev (raise m v) vs)

  le-greatest_from : (m : ℕ) (vs : List Str) → m ≤ greatest_from m vs
  le-greatest_from m [] = omega arith
  le-greatest_from m (v ∷ vs) = ground (arith, le-greatest_from (raise m v) vs)

  greatest_from_bounds :
      (m : ℕ) (vs : List Str) → All (λ v. IsValid v → number v ≤ greatest_from m vs) vs
  greatest_from_bounds m [] = tt
  greatest_from_bounds m (v ∷ vs) =
      ((λ h. ground (arith, le-greatest_from (raise m v) vs)), greatest_from_bounds (raise m v) vs)

  raise-cases : (m : ℕ) (v : Str) → (raise m v ≡ m) ⊎ (IsValid v × (raise m v ≡ number v))
  raise-cases m v = ground arith

  -- The greatest number is the first one, or that of a version of the list.
  greatest_from_attained :
      (m : ℕ) (vs : List Str)
      → (greatest_from m vs ≡ m)
        ⊎ ((v : Str) × Memᴰ v vs × IsValid v × (number v ≡ greatest_from m vs))
  greatest_from_attained m [] = inl refl
  greatest_from_attained m (v ∷ vs) = elim (greatest_from_attained (raise m v) vs) [
    | inr (w, at, valid, same) ↦ inr (w, Memᴰ.tail at, valid, same)
    | inl same ↦ elim (raise-cases m v) [
      | inl kept ↦ inl (same ∙ kept)
      | inr (h, raised) ↦ inr (v, Memᴰ.head refl, h, sym (same ∙ raised))
    ]
  ]

  -- The latest revision is "v" and the greatest number of a valid version of the list: no
  -- valid version has a greater one, and it is 0 or the number of one of them.
  pub latest_revision_number_lem :
      (vs : List Str)
      → (n : ℕ) × (latest_revision_number sv vs ≡ rev n)
        × All (λ v. IsValid v → number v ≤ n) vs
        × ((n ≡ 0) ⊎ ((v : Str) × Memᴰ v vs × IsValid v × (number v ≡ n)))
  unfolding latest_revision_number
  latest_revision_number_lem vs = (
    greatest_from 0 vs,
    rw no_revision-rev (latest_from-rev 0 vs),
    greatest_from_bounds 0 vs,
    greatest_from_attained 0 vs,
  )

  -- A version counts as later than a numbered one exactly when it is valid with a greater number.
  pub is_rev_later_iff :
      (v : Str) (n : ℕ) → (is_rev_later sv v (rev n) ≡ true) ↔ (IsValid v × (n < number v))
  unfolding is_rev_later
  is_rev_later_iff v n = elim (Bool-cases (sv.is_valid v)) [
    | inl h ↦ rw (h, major_prefix v h, cmp_prefix (number v) n) (ground arith)
    | inr h ↦ rw h (ground arith)
  ]

  not_listed :
      (n : ℕ) (vs : List Str) → All (λ v. IsValid v → number v < n) vs → All (λ v. v ≢ rev n) vs
  not_listed n [] h = tt
  not_listed n (v ∷ vs) h = (
    (λ e. omega (arith, h.0 (rw e (valid_prefix n)), prefix_number n, ap number e)),
    not_listed n vs h.1,
  )

  bound-All :
      (n : ℕ) (vs : List Str)
      → All (λ v. IsValid v → number v ≤ n) vs
      → All (λ v. IsValid v → number v < n + 1) vs
  bound-All n [] h = tt
  bound-All n (v ∷ vs) h = ((λ valid. omega (arith, h.0 valid)), bound-All n vs h.1)

  greatest_from-lt :
      (m : ℕ) (vs : List Str)
      → m < max_int
      → All (λ v. IsValid v → number v < max_int) vs
      → greatest_from m vs < max_int
  greatest_from-lt m [] l h = l
  greatest_from-lt m (v ∷ vs) l h =
      greatest_from-lt (raise m v) vs
        (elim (raise-cases m v) [
          | inl kept ↦ omega (arith, kept)
          | inr (valid, raised) ↦ omega (arith, h.0 valid, raised)
        ])
        h.1

  -- Where the numbers of the valid versions are below the greatest `int`, a next revision is found:
  -- it is "v" and a positive number above that of every valid version, and it is not in the list.
  pub next_revision_number_fresh :
      (vs : List Str)
      → All (λ v. IsValid v → number v < max_int) vs
      → (n : ℕ) × (next_revision_number sv vs ≡ ok (rev n))
        × (1 ≤ n)
        × All (λ v. IsValid v → number v < n) vs
        × All (λ v. v ≢ rev n) vs
  unfolding next_revision_number
  next_revision_number_fresh vs h =
      let above = bound-All (greatest_from 0 vs) vs (greatest_from_bounds 0 vs) in
      (greatest_from 0 vs + 1, next_rev, omega arith, above, not_listed _ vs above)
    where
      next_rev : next_revision_number sv vs ≡ ok (rev (greatest_from 0 vs + 1))
      next_rev =
          read_next (latest_from sv no_revision vs) (greatest_from 0 vs)
            (rw no_revision-rev (latest_from-rev 0 vs)) (greatest_from-lt 0 vs (omega arith) h)
