-- ===== src/PackageRevision/Workspace.antt =====
-- Which workspace names `ValidateWorkspaceName` of
-- apis/pkg/v1alpha1/packagerevisions_interface.go accepts.
use mathlib.Core.Path.{subst}
use pkgserver.Prelude.{
  ℕ, ◌≤◌, ◌≡◌, ◌≢◌, ◌↔◌, ◌⊎◌, refl, ap, Bool, true, false, [], ◌∷◌, ◌++◌, none, arith, Str, length,
  All,
}
use pkgserver.Go.Strings.{codes, Lacks, has_prefix, has_suffix, has_prefix_iff, has_suffix_iff}
use pkgserver.Go.Path.{slash, IsSegment}
use pkgserver.PkgRevId.{dot}
use pkgserver.PackageRevision.{is_name_char, all_name_chars, validate_workspace_name}

-- A lower case letter, a digit or a dash.
abbrev pub IsNameChar : ℕ → Type 0
IsNameChar c = ((b'a' ≤ c) × (c ≤ b'z')) ⊎ (((b'0' ≤ c) × (c ≤ b'9')) ⊎ (c ≡ b'-'))

pub record IsWorkspaceName (s : Str) : Type 0 where
  pub not_empty : 1 ≤ length s
  pub not_long : length s ≤ 63
  pub no_dash_first : ¬ ((r : Str) × (s ≡ codes "-" ++ r))
  pub no_dash_last : ¬ ((r : Str) × (s ≡ r ++ codes "-"))
  pub chars : All IsNameChar s

is_name_char_iff : (c : ℕ) → (is_name_char c ≡ true) ↔ IsNameChar c
unfolding is_name_char
is_name_char_iff c = (λ h. ground arith, λ h. ground arith)

all_name_chars_iff : (s : Str) → (all_name_chars s ≡ true) ↔ All IsNameChar s
unfolding all_name_chars
all_name_chars_iff [] = (λ _. tt, λ _. refl)
all_name_chars_iff (c ∷ s) = (
  (λ h. ((is_name_char_iff c).0 (ground arith), (all_name_chars_iff s).0 (ground arith))),
  (λ h. ground (arith, (is_name_char_iff c).1 h.0, (all_name_chars_iff s).1 h.1)),
)

-- The tests that a name passes.
abbrev Passes : Str → Type 0
Passes s =
    (1 ≤ length s)
    × (length s ≤ 63)
    × (has_prefix s (codes "-") ≡ false)
    × (has_suffix s (codes "-") ≡ false)
    × (all_name_chars s ≡ true)

Passes-iff : (s : Str) → (validate_workspace_name s ≡ none) ↔ Passes s
unfolding validate_workspace_name
Passes-iff s = (λ h. ground arith, λ h. ground arith)

not_of_false {ℓ} : {P : Type ℓ} (b : Bool) → (b ≡ true) ↔ P → b ≡ false → ¬ P
not_of_false b e h p = cc (e.1 p, h)

false_of_not {ℓ} : {P : Type ℓ} (b : Bool) → (b ≡ true) ↔ P → ¬ P → b ≡ false
false_of_not true e n = absurd (n (e.0 refl))
false_of_not false e n = refl

-- A name is accepted exactly when it has 1 to 63 characters, all of them lower case letters, digits
-- or dashes, and neither the first nor the last is a dash.
pub validate_workspace_name_iff : (s : Str) → (validate_workspace_name s ≡ none) ↔ IsWorkspaceName s
validate_workspace_name_iff s = (
  (λ h.
      let (low, high, first, last, chars) = (Passes-iff s).0 h in
      record {
        not_empty = low;
        not_long = high;
        no_dash_first = not_of_false _ (has_prefix_iff s (codes "-")) first;
        no_dash_last = not_of_false _ (has_suffix_iff s (codes "-")) last;
        chars = (all_name_chars_iff s).0 chars;
      }),
  (λ w. (Passes-iff s).1 (
    w.not_empty,
    w.not_long,
    false_of_not _ (has_prefix_iff s (codes "-")) w.no_dash_first,
    false_of_not _ (has_suffix_iff s (codes "-")) w.no_dash_last,
    (all_name_chars_iff s).1 w.chars,
  )),
)

name_chars-Lacks : (b : ℕ) → ¬ IsNameChar b → (s : Str) → All IsNameChar s → Lacks b s
name_chars-Lacks b n [] h = tt
name_chars-Lacks b n (c ∷ s) h = ((λ e. n (subst IsNameChar e h.0)), name_chars-Lacks b n s h.1)

not_dot : (s : Str) → Lacks dot s → s ≢ codes "."
not_dot [] h e = cc
not_dot (c ∷ s) h e = h.0 (ground arith)

not_dots : (s : Str) → Lacks dot s → s ≢ codes ".."
not_dots [] h e = cc
not_dots (c ∷ s) h e = h.0 (ground arith)

-- An accepted workspace name can stand as the last element of a branch and of the dotted name of a
-- package revision: it is a path segment, and it has no dot.
pub workspace-IsSegment : (s : Str) → validate_workspace_name s ≡ none → IsSegment s × Lacks dot s
workspace-IsSegment s h =
    let w = (validate_workspace_name_iff s).0 h in
    let no_dot = name_chars-Lacks dot (λ bad. ground arith) s w.chars in
    (
      record {
        not_empty = λ e. omega (arith, w.not_empty, ap {B = ℕ} length e);
        not_dot = not_dot s no_dot;
        not_dot_dot = not_dots s no_dot;
        no_slash = name_chars-Lacks slash (λ bad. ground arith) s w.chars;
      },
      no_dot,
    )
