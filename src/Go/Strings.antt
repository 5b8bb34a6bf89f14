-- ===== src/Go/Strings.antt =====
-- Go's `strings` package, as far as the program uses it, with a separator of one byte.
use Prim.Native.Char.{code}
use Prim.Native.String.{String}
use pkgserver.Prelude.{
  ℕ, ◌≡◌, ◌≢◌, ◌↔◌, refl, ap, inl, inr, Bool-cases, str_beq_iff, Bool, true, false, ◌&&◌, ◌||◌,
  List, [], ◌∷◌, ◌++◌, arith, Str, nat_beq, str_beq, if◌then◌else◌, All,
}

-- The bytes of an ASCII literal.
abbrev pub codes : String → Str
codes String.[] = []
codes (String.◌∷◌ c s) = code c ∷ codes s

-- No byte of the text is `b`.
abbrev pub Lacks : ℕ → Str → Type 0
Lacks b = All (λ c. c ≢ b)

abbrev cons_head : ℕ → List Str → List Str
cons_head c [] = (c ∷ []) ∷ []
cons_head c (p ∷ ps) = (c ∷ p) ∷ ps

unfoldable pub split : ℕ → Str → List Str
split sep [] = [] ∷ []
split sep (c ∷ s) = let rest = split sep s in if nat_beq c sep then [] ∷ rest else cons_head c rest

unfoldable pub replace_all : ℕ → ℕ → Str → Str
replace_all old new [] = []
replace_all old new (c ∷ s) = (if nat_beq c old then new else c) ∷ replace_all old new s

unfoldable pub has_prefix : Str → Str → Bool
has_prefix s [] = true
has_prefix [] (b ∷ p) = false
has_prefix (a ∷ s) (b ∷ p) = nat_beq a b && has_prefix s p

unfoldable pub has_suffix : Str → Str → Bool
has_suffix [] p = str_beq [] p
has_suffix (a ∷ s) p = str_beq (a ∷ s) p || has_suffix s p

unfoldable pub contains : Str → Str → Bool
unfolding has_prefix
contains [] p = has_prefix [] p
contains (a ∷ s) p = has_prefix (a ∷ s) p || contains s p

-- The texts with `sep` between each two.
unfoldable pub intercalate : ℕ → List Str → Str
intercalate sep [] = []
intercalate sep (p ∷ []) = p
intercalate sep (p ∷ q ∷ ps) = p ++ (sep ∷ intercalate sep (q ∷ ps))

pub intercalate-cons :
    (sep : ℕ) (p q : Str) (ps : List Str)
    → intercalate sep (p ∷ q ∷ ps) ≡ p ++ (sep ∷ intercalate sep (q ∷ ps))
unfolding intercalate
intercalate-cons sep p q ps = refl

cons_head-append :
    (c : ℕ) (ps qs : List Str) → ps ≢ [] → cons_head c (ps ++ qs) ≡ cons_head c ps ++ qs
cons_head-append c [] qs h = absurd (h refl)
cons_head-append c (p ∷ ps) qs h = refl

split-ne-nil : (sep : ℕ) (s : Str) → split sep s ≢ []
unfolding split
split-ne-nil sep [] = λ e. cc
split-ne-nil sep (c ∷ s) = ground (arith, split-ne-nil sep s)

-- A separator cuts the text.
pub split-append : (sep : ℕ) (p q : Str) → split sep (p ++ (sep ∷ q)) ≡ split sep p ++ split sep q
unfolding split
split-append sep [] q = ground arith
split-append sep (c ∷ p) q = ground (
  arith,
  split-append sep p q,
  cons_head-append c (split sep p) (split sep q) (split-ne-nil sep p),
)

pub split-Lacks : (sep : ℕ) (p : Str) → Lacks sep p → split sep p ≡ p ∷ []
unfolding split
split-Lacks sep [] h = refl
split-Lacks sep (c ∷ p) h = ground (arith, split-Lacks sep p h.1)

-- Splitting a join gives the parts back, if there is a part and none holds the separator.
pub split-intercalate :
    (sep : ℕ) (p : Str) (ps : List Str)
    → All (Lacks sep) (p ∷ ps)
    → split sep (intercalate sep (p ∷ ps)) ≡ p ∷ ps
unfolding intercalate
split-intercalate sep p [] h = split-Lacks sep p h.0
split-intercalate sep p (q ∷ ps) h =
    simp (split-append, split-Lacks sep p h.0, split-intercalate sep q ps h.1)

-- Where the new byte was not there before, the replacement is undone.
pub replace_all_back : (a b : ℕ) (s : Str) → Lacks b s → replace_all b a (replace_all a b s) ≡ s
unfolding replace_all
replace_all_back a b [] h = refl
replace_all_back a b (c ∷ s) h = ground (arith, replace_all_back a b s h.1)

pub replace_all-Lacks : (a b d : ℕ) (s : Str) → b ≢ d → Lacks d s → Lacks d (replace_all a b s)
unfolding replace_all
replace_all-Lacks a b d [] n h = tt
replace_all-Lacks a b d (c ∷ s) n h = (ground arith, replace_all-Lacks a b d s n h.1)

pub has_prefix-append : (p s : Str) → has_prefix (p ++ s) p ≡ true
unfolding has_prefix
has_prefix-append [] s = refl
has_prefix-append (a ∷ p) s = ground (arith, has_prefix-append p s)

prefix_rest : (s p : Str) → has_prefix s p ≡ true → (r : Str) × (s ≡ p ++ r)
unfolding has_prefix
prefix_rest s [] h = (s, refl)
prefix_rest [] (b ∷ p) h = cc
prefix_rest (a ∷ s) (b ∷ p) h = let (r, e) = prefix_rest s p (ground arith) in (r, ground arith)

pub has_prefix_iff : (s p : Str) → (has_prefix s p ≡ true) ↔ ((r : Str) × (s ≡ p ++ r))
has_prefix_iff s p = (prefix_rest s p, λ (r, e). rw e (has_prefix-append p r))

suffix_front : (s p : Str) → has_suffix s p ≡ true → (r : Str) × (s ≡ r ++ p)
unfolding has_suffix
suffix_front [] p h = ([], (str_beq_iff [] p).0 h)
suffix_front (a ∷ s) p h = elim (Bool-cases (str_beq (a ∷ s) p)) [
  | inl whole ↦ ([], (str_beq_iff (a ∷ s) p).0 whole)
  | inr part ↦ let (r, e) = suffix_front s p (ground arith) in (a ∷ r, ap (λ t. a ∷ t) e)
]

has_suffix-append : (r p : Str) → has_suffix (r ++ p) p ≡ true
unfolding has_suffix
has_suffix-append [] [] = refl
has_suffix-append [] (b ∷ p) = rw ((str_beq_iff (b ∷ p) (b ∷ p)).1 refl)
has_suffix-append (a ∷ r) p = ground (arith, has_suffix-append r p)

pub has_suffix_iff : (s p : Str) → (has_suffix s p ≡ true) ↔ ((r : Str) × (s ≡ r ++ p))
has_suffix_iff s p = (suffix_front s p, λ (r, e). rw e (has_suffix-append r p))
