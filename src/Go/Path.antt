-- ===== src/Go/Path.antt =====
-- Go's `path.Join` and `path.Clean`: a text is cut at its slashes, and its elements are cleaned one
-- after the other on a stack.
use mathlib.Core.List.{reverse, flatten, reverse-append, reverse-reverse, reverse-cons}
use pkgserver.Prelude.{
  ℕ, ◌≡◌, ◌≢◌, refl, sym, ap, ◌∙◌, Bool, true, false, ◌||◌, List, [], ◌∷◌, ◌++◌, map, Str, ◌==◌,
  ==_false, str_eq, nat_eq, if◌then◌else◌, All, append-nil, append_assoc,
}
use pkgserver.Go.Strings.{
  codes, Lacks, split, split-append, split-intercalate, intercalate, intercalate-cons,
}

abbrev pub slash : ℕ
slash = b'/'

abbrev dot_dot : Str
dot_dot = codes ".."

-- Drops the last element, where there is one to drop.
backtrack : Bool → List Str → List Str
backtrack true [] = []
backtrack false [] = dot_dot ∷ []
backtrack rooted (top ∷ out) = if top == dot_dot then dot_dot ∷ top ∷ out else out

clean_step : Bool → List Str → Str → List Str
clean_step rooted out part =
    if part == [] || part == codes "."
    then out
    else if part == dot_dot
    then backtrack rooted out
    else part ∷ out

clean_parts : Bool → List Str → List Str → List Str
clean_parts rooted out [] = out
clean_parts rooted out (p ∷ ps) = clean_parts rooted (clean_step rooted out p) ps

is_rooted : Str → Bool
is_rooted [] = false
is_rooted (c ∷ s) = c == slash

-- `path.Clean`.
unfoldable pub clean : Str → Str
unfolding clean_parts clean_step backtrack is_rooted
clean s =
    let out = intercalate slash (reverse (clean_parts (is_rooted s) [] (split slash s))) in
    if is_rooted s then slash ∷ out else if out == [] then codes "." else out

-- `Join` copies nothing before the first element that is not empty.
abbrev drop_empty : List Str → List Str
drop_empty [] = []
drop_empty ([] ∷ es) = drop_empty es
drop_empty ((c ∷ e) ∷ es) = (c ∷ e) ∷ es

join_from : List Str → Str
join_from [] = []
join_from (e ∷ es) = clean (intercalate slash (e ∷ es))

-- `path.Join`.
unfoldable pub join : List Str → Str
unfolding join_from clean
join es = join_from (drop_empty es)

-- A path element that `Clean` keeps as it is.
pub record IsSegment (s : Str) : Type 0 where
  pub not_empty : s ≢ []
  pub not_dot : s ≢ codes "."
  pub not_dot_dot : s ≢ codes ".."
  pub no_slash : Lacks slash s

clean_step-IsSegment :
    (rooted : Bool) (out : List Str) (p : Str) → IsSegment p → clean_step rooted out p ≡ p ∷ out
unfolding clean_step
clean_step-IsSegment rooted out p h =
    rw (
      ==_false p [] h.not_empty,
      ==_false p (codes ".") h.not_dot,
      ==_false p dot_dot h.not_dot_dot,
    )

clean_parts-IsSegment :
    (rooted : Bool) (out ps : List Str)
    → All IsSegment ps
    → clean_parts rooted out ps ≡ reverse ps ++ out
unfolding clean_parts
clean_parts-IsSegment rooted out [] h = refl
clean_parts-IsSegment rooted out (p ∷ ps) h =
    rw (clean_step-IsSegment rooted out p h.0, clean_parts-IsSegment rooted (p ∷ out) ps h.1)
      (rw (reverse-cons, append_assoc))

clean_parts-append :
    (rooted : Bool) (out ps qs : List Str)
    → clean_parts rooted out (ps ++ qs) ≡ clean_parts rooted (clean_parts rooted out ps) qs
unfolding clean_parts
clean_parts-append rooted out [] qs = refl
clean_parts-append rooted out (p ∷ ps) qs =
    clean_parts-append rooted (clean_step rooted out p) ps qs

abbrev pub AreSegments : List Str → Type 0
AreSegments = All IsSegment

pub no_slashes : (g : List Str) → AreSegments g → All (Lacks slash) g
no_slashes [] h = tt
no_slashes (p ∷ g) h = (h.0.no_slash, no_slashes g h.1)

-- One element that is itself a path: its segments go on the stack, and an empty one adds nothing.
clean_parts-split :
    (rooted : Bool) (out g : List Str)
    → AreSegments g
    → clean_parts rooted out (split slash (intercalate slash g)) ≡ reverse g ++ out
unfolding intercalate
clean_parts-split rooted out [] h = unfold clean_parts clean_step split in refl
clean_parts-split rooted out (p ∷ g) h =
    rw (split-intercalate slash p g (no_slashes (p ∷ g) h))
      (clean_parts-IsSegment rooted out (p ∷ g) h)

clean_parts-paths :
    (rooted : Bool) (out g : List Str) (gs : List (List Str))
    → AreSegments g
    → All AreSegments gs
    → clean_parts rooted out (split slash (intercalate slash (map (intercalate slash) (g ∷ gs))))
      ≡ reverse (flatten (g ∷ gs)) ++ out
unfolding flatten
clean_parts-paths rooted out g [] h hs =
    unfold intercalate in simp append-nil (clean_parts-split rooted out g h)
clean_parts-paths rooted out g (g' ∷ gs) h hs =
    rw
      (
        intercalate-cons,
        split-append,
        clean_parts-append,
        clean_parts-split rooted out g h,
        clean_parts-paths rooted (reverse g ++ out) g' gs hs.0 hs.1,
      )
      (simp (reverse-append, append_assoc))

-- A path that starts with a segment starts with the segment's first byte.
starts : (c : ℕ) (p : Str) (ps : List Str) → (r : Str) × (intercalate slash ((c ∷ p) ∷ ps) ≡ c ∷ r)
unfolding intercalate
starts c p [] = (p, refl)
starts c p (q ∷ ps) = (p ++ (slash ∷ intercalate slash (q ∷ ps)), refl)

clean_to :
    (s : Str) (c d : ℕ) (r r' : Str) (out : List Str)
    → c ≢ slash
    → s ≡ c ∷ r
    → intercalate slash out ≡ d ∷ r'
    → clean_parts false [] (split slash s) ≡ reverse out ++ []
    → clean s ≡ intercalate slash out
unfolding clean
clean_to s c d r r' out n e e' h =
    rw (
      rooted,
      h,
      append-nil,
      reverse-reverse,
      ==_false (intercalate slash out) [] (λ z. cc (z, e')),
    )
  where
    rooted : is_rooted s ≡ false
    rooted = rw e (==_false c slash n)

clean_paths :
    (c : ℕ) (p : Str) (g : List Str) (gs : List (List Str))
    → AreSegments ((c ∷ p) ∷ g)
    → All AreSegments gs
    → clean (intercalate slash (map (intercalate slash) (((c ∷ p) ∷ g) ∷ gs)))
      ≡ intercalate slash (flatten (((c ∷ p) ∷ g) ∷ gs))
unfolding flatten
clean_paths c p g gs h hs =
    let (r, e) = starts c p g in
    let (q, e') = starts c r (map (intercalate slash) gs) in
    let (t, e'') = starts c p (g ++ flatten gs) in
    clean_to _ c c q t (((c ∷ p) ∷ g) ++ flatten gs) h.0.no_slash.0 (rw e e') e''
      (clean_parts-paths false [] ((c ∷ p) ∷ g) gs h hs)

join_skip : (es : List Str) → join (intercalate slash [] ∷ es) ≡ join es
unfolding join intercalate
join_skip es = refl

join_start :
    (e : Str) (es : List Str) (c : ℕ) (r : Str)
    → e ≡ c ∷ r
    → join (e ∷ es) ≡ clean (intercalate slash (e ∷ es))
unfolding join_from join
join_start e es c r h = rw h

-- Joining paths of segments, of which some may be empty, gives the path of all the segments.
pub join-segments :
    (gs : List (List Str))
    → All AreSegments gs
    → join (map (intercalate slash) gs) ≡ intercalate slash (flatten gs)
unfolding flatten
join-segments [] h = unfold join intercalate in refl
join-segments ([] ∷ gs) h = join_skip (map (intercalate slash) gs) ∙ join-segments gs h.1
join-segments (([] ∷ g) ∷ gs) h = absurd (h.0.0.not_empty refl)
join-segments (((c ∷ p) ∷ g) ∷ gs) h =
    join_start _ _ c (starts c p g).0 (starts c p g).1 ∙ clean_paths c p g gs h.0 h.1

-- The segments one by one, as paths of their own.
abbrev singles : List Str → List (List Str)
singles [] = []
singles (p ∷ ps) = (p ∷ []) ∷ singles ps

map-singles : (ps : List Str) → map (intercalate slash) (singles ps) ≡ ps
unfolding intercalate
map-singles [] = refl
map-singles (p ∷ ps) = ap (λ l. p ∷ l) (map-singles ps)

flatten-singles : (ps : List Str) → flatten (singles ps) ≡ ps
unfolding flatten
flatten-singles [] = refl
flatten-singles (p ∷ ps) = ap (λ l. p ∷ l) (flatten-singles ps)

All-singles : (ps : List Str) → AreSegments ps → All AreSegments (singles ps)
All-singles [] h = tt
All-singles (p ∷ ps) h = ((h.0, tt), All-singles ps h.1)

pub join-AreSegments : (ps : List Str) → AreSegments ps → join ps ≡ intercalate slash ps
join-AreSegments ps h =
    ap join (sym (map-singles ps))
    ∙ (join-segments (singles ps) (All-singles ps h) ∙ ap (intercalate slash) (flatten-singles ps))

join-cleans_dots : join (codes "a/./b" ∷ [] ∷ codes "../c/" ∷ []) ≡ codes "a/c"
unfolding join split intercalate
join-cleans_dots = refl

join-empty : join ([] ∷ [] ∷ []) ≡ []
unfolding join
join-empty = refl
