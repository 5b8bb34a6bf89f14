-- ===== src/PkgRevId/Revision.antt =====
-- Revision numbers: apis/pkgrevid/revision.go. The package golang.org/x/mod/semver is a parameter.
pub mod Latest
use Prim.Native.Nat.{compare, Ordering}
use pkgserver.Prelude.{
  ℕ, ◌+◌, ◌≤◌, ◌<◌, ◌≡◌, ◌≢◌, refl, sym, ap, ◌∙◌, Bool, true, false, List, [], ◌∷◌, arith, Str,
  drop, if◌then◌else◌, Bool-cases, inl, inr, Result, ok, err, ◌>>=◌, All,
}
use pkgserver.Go.Strings.{codes}
use pkgserver.Go.Strconv.{max_int, itoa, atoi, itoa_next, atoi-itoa, itoa-injective}

abbrev pub no_revision : Str
no_revision = codes "v0"

abbrev pub any_revision : Str
any_revision = codes "*"

-- "v" and the number.
abbrev pub rev : ℕ → Str
rev n = b'v' ∷ itoa n

-- What the program calls of golang.org/x/mod/semver.
pub record Semver : Type 0 where
  pub is_valid : Str → Bool
  pub major : Str → Str
  pub cmp : Str → Str → Ordering

-- What the documentation of semver says of versions and their major numbers: `Major` of a valid
-- version is its major prefix, "v" and a number, a prefix is a valid version with that number, and
-- `Compare` orders prefixes by their numbers.
pub record IsSemver (sv : Semver) : Type 0 where
  pub number : Str → ℕ
  pub major_prefix : (v : Str) → sv.is_valid v ≡ true → sv.major v ≡ rev (number v)
  pub valid_prefix : (n : ℕ) → sv.is_valid (rev n) ≡ true
  pub prefix_number : (n : ℕ) → number (rev n) ≡ n
  pub cmp_prefix : (m n : ℕ) → sv.cmp (rev m) (rev n) ≡ compare m n

module _ (sv : Semver) where
  -- `cmp > 0` of the `switch`.
  abbrev is_gt : Ordering → Bool
  is_gt Ordering.gt = true
  is_gt _ = false

  latest_step : Str → Str → Str
  latest_step latest current =
      if sv.is_valid current
      then (if is_gt (sv.cmp (sv.major current) latest) then sv.major current else latest)
      else latest

  latest_from : Str → List Str → Str
  latest_from latest [] = latest
  latest_from latest (current ∷ revs) = latest_from (latest_step latest current) revs

  unfoldable pub latest_revision_number : List Str → Str
  unfolding latest_from latest_step
  latest_revision_number revs = latest_from no_revision revs

  unfoldable pub is_rev_later : Str → Str → Bool
  is_rev_later current latest =
      if sv.is_valid current then is_gt (sv.cmp (sv.major current) latest) else false

  unfoldable pub next_revision_number : List Str → Result Str
  unfolding latest_from latest_step
  next_revision_number revs = do
    i ← atoi (drop 1 (latest_from no_revision revs))
    ok (b'v' ∷ itoa_next i)
