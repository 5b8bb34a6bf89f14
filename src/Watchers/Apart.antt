-- ===== src/Watchers/Apart.antt =====
-- Turns that do not get in each other's way: pkg/watcher-manager/manager.go.
use pkgserver.Prelude.{
  ◌≡◌, ◌≢◌, refl, sym, ap, ◌∙◌, Bool, true, false, ◌||◌, List, [], ◌∷◌, ◌++◌, Str, ◌==◌, str_eq,
  ==_iff, if-split, All, All-append, arith,
}
use pkgserver.Watchers.{Watcher}
use pkgserver.Watchers.Limit.{has, IsUnique, hit}
use pkgserver.Watchers.Turns.{
  Turn, drops, admits, drop_turns, Interleaves, over, of_first, of_second,
}

-- Two turns do not drop one watcher or add one key.
abbrev pub Apart : Turn → Turn → Type 0
Apart (drops a) (drops b) = a.key ≢ b.key
Apart (drops a) (admits u o) = Unit
Apart (admits u o) (drops b) = Unit
Apart (admits u o) (admits v p) = u ≢ v

abbrev pub AreApart : List Turn → Type 0
AreApart [] = Unit
AreApart (t ∷ ts) = All (Apart t) ts × AreApart ts

-- What is true of the turns of both is true of the interleaving.
pub all_interleaved :
    (P : Turn → Type 0) {xs ys zs : List Turn}
    → Interleaves xs ys zs
    → All P xs
    → All P ys
    → All P zs
all_interleaved P over a b = tt
all_interleaved P (of_first i) a b = (a.0, all_interleaved P i a.1 b)
all_interleaved P (of_second i) a b = (b.0, all_interleaved P i a b.1)

-- Each turn of the first list is apart from each of the second.
abbrev pub AllApart : List Turn → List Turn → Type 0
AllApart xs ys = All (λ x. All (Apart x) ys) xs

column : (x : Turn) (xs ys : List Turn) → AllApart ys (x ∷ xs) → AllApart ys xs
column x xs [] h = tt
column x xs (y ∷ ys) h = (h.0.1, column x xs ys h.1)

pub AreApart-interleaved :
    {xs ys zs : List Turn}
    → Interleaves xs ys zs
    → AreApart xs
    → AreApart ys
    → AllApart xs ys
    → AllApart ys xs
    → AreApart zs
AreApart-interleaved over a b c d = tt
AreApart-interleaved (of_first {t} {xs} {ys} i) a b c d =
    (all_interleaved (Apart t) i a.0 c.0, AreApart-interleaved i a.1 b c.1 (column t xs ys d))
AreApart-interleaved (of_second {t} {xs} {ys} i) a b c d =
    (all_interleaved (Apart t) i d.0 b.0, AreApart-interleaved i a b.1 (column t ys xs c) d.1)

Apart-sym : (t u : Turn) → Apart t u → Apart u t
Apart-sym (drops a) (drops b) h = λ e. h (sym e)
Apart-sym (drops a) (admits u o) h = tt
Apart-sym (admits u o) (drops b) h = tt
Apart-sym (admits u o) (admits v q) h = λ e. h (sym e)

-- A condition on nothing but the test may stand outside.
pub given :
    {B : Type 0} (P : Watcher → Type 0) (ws : List Watcher) → All (λ w. B → P w) ws → B → All P ws
given P [] h b = tt
given P (w ∷ ws) h b = (h.0 b, given P ws h.1 b)

pub under :
    (p : Watcher → Bool) (P : Watcher → Type 0) (ws : List Watcher)
    → All P ws
    → All (λ w. p w ≡ true → P w) ws
under p P [] h = tt
under p P (w ∷ ws) h = ((λ _. h.0), under p P ws h.1)

pub everywhere : (P : Watcher → Type 0) → ((w : Watcher) → P w) → (ws : List Watcher) → All P ws
everywhere P f [] = tt
everywhere P f (w ∷ ws) = (f w, everywhere P f ws)

first_row : (y : Turn) (ys xs : List Turn) → AllApart xs (y ∷ ys) → All (Apart y) xs
first_row y ys [] h = tt
first_row y ys (x ∷ xs) h = (Apart-sym x y h.0.0, first_row y ys xs h.1)

pub transposed : (xs ys : List Turn) → AllApart xs ys → AllApart ys xs
transposed xs [] h = tt
transposed xs (y ∷ ys) h = (first_row y ys xs h, transposed xs ys (column y ys xs h))

module _ (p : Watcher → Bool) where
  -- What is true of the drops that the test lets through is true of the turns.
  pub all_drops :
      (P : Turn → Type 0) (ws : List Watcher)
      → All (λ w. p w ≡ true → P (drops w)) ws
      → All P (drop_turns p ws)
  unfolding drop_turns
  all_drops P [] h = tt
  all_drops P (w ∷ ws) h =
      if-split (All P) (p w) (λ t. (h.0 t, all_drops P ws h.1)) (λ _. all_drops P ws h.1)

  absent-Apart :
      (w : Watcher) (ws : List Watcher)
      → has w.key ws ≡ false
      → All (λ x. p x ≡ true → Apart (drops w) (drops x)) ws
  unfolding has
  absent-Apart w [] h = tt
  absent-Apart w (x ∷ ws) h = (
    (λ _ same. ground (arith, h, (==_iff x.key w.key).1 (sym same))),
    absent-Apart w ws (ground (arith, h)),
  )

  pub drops-AreApart : (ws : List Watcher) → IsUnique ws → AreApart (drop_turns p ws)
  unfolding drop_turns
  drops-AreApart [] u = tt
  drops-AreApart (w ∷ ws) u =
      if-split AreApart (p w)
        (λ _. (all_drops (Apart (drops w)) ws (absent-Apart w ws u.0), drops-AreApart ws u.1))
        (λ _. drops-AreApart ws u.1)

pub add_turns-AreApart :
    (p : Watcher → Bool) (uuid options : Str) (ws : List Watcher)
    → IsUnique ws
    → AreApart (drop_turns p ws ++ (admits uuid options ∷ []))
unfolding drop_turns
add_turns-AreApart p uuid options [] u = (tt, tt)
add_turns-AreApart p uuid options (w ∷ ws) u =
    if-split (λ (ts : List Turn). AreApart (ts ++ (admits uuid options ∷ []))) (p w)
      (λ _. (
        All-append (Apart (drops w)) (drop_turns p ws) (admits uuid options ∷ [])
            (all_drops p (Apart (drops w)) ws (absent-Apart p w ws u.0)) (tt, tt),
        add_turns-AreApart p uuid options ws u.1,
      ))
      (λ _. add_turns-AreApart p uuid options ws u.1)

-- The turn drops the key.
abbrev pub drops_key : Str → Turn → Bool
drops_key k (drops w) = w.key == k
drops_key k (admits u o) = false

unfoldable pub any_drops : Str → List Turn → Bool
any_drops k [] = false
any_drops k (t ∷ ts) = drops_key k t || any_drops k ts

-- The turn does not add the key.
abbrev pub IsOld : Str → Turn → Type 0
IsOld k (drops w) = Unit
IsOld k (admits u o) = k ≢ u

pub any_drops-drop_turns :
    (p : Watcher → Bool) (k : Str) (ws : List Watcher) → any_drops k (drop_turns p ws) ≡ hit p k ws
unfolding any_drops drop_turns hit
any_drops-drop_turns p k [] = refl
any_drops-drop_turns p k (w ∷ ws) = ground (arith, any_drops-drop_turns p k ws)

pub any_drops-append :
    (k : Str) (ts : List Turn) (t : Turn)
    → any_drops k (ts ++ (t ∷ [])) ≡ (any_drops k ts || drops_key k t)
unfolding any_drops
any_drops-append k [] t = ground arith
any_drops-append k (u ∷ ts) t =
    ap (λ b. drops_key k u || b) (any_drops-append k ts t) ∙ ground arith

pub any_drops-Interleaves :
    (k : Str) {xs ys zs : List Turn}
    → Interleaves xs ys zs
    → any_drops k zs ≡ (any_drops k xs || any_drops k ys)
unfolding any_drops
any_drops-Interleaves k over = refl
any_drops-Interleaves k (of_first {t} i) =
    ap (λ b. drops_key k t || b) (any_drops-Interleaves k i) ∙ ground arith
any_drops-Interleaves k (of_second {t} i) =
    ap (λ b. drops_key k t || b) (any_drops-Interleaves k i) ∙ ground arith
