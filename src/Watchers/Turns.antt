-- ===== src/Watchers/Turns.antt =====
-- Calls of `Add` and events that run side by side: pkg/watcher-manager/manager.go. Each of them lists the
-- watchers once, and then takes its turns one by one between those of the other. A turn is the removal of
-- one watcher with the release of its permit, or the addition of one with its permit.
use pkgserver.Prelude.{◌||◌, not, Bool, List, [], ◌∷◌, ◌++◌, Str, if◌then◌else◌, Result, ok, ◌>>=◌}
use pkgserver.Watchers.{Watcher, Semaphore, Manager, drop_watcher, admit}

pub data Turn : Type 0 where
  drops : Watcher → Turn
  admits : Str → Str → Turn

-- The turns of a loop over listed watchers, which drops those that pass the test.
unfoldable pub drop_turns : (Watcher → Bool) → List Watcher → List Turn
drop_turns p [] = []
drop_turns p (w ∷ ws) = let rest = drop_turns p ws in if p w then drops w ∷ rest else rest

-- The turns of `Add`.
unfoldable pub add_turns : (Watcher → Bool) → List Watcher → Str → Str → List Turn
unfolding drop_turns
add_turns is_done listed uuid options = drop_turns is_done listed ++ (admits uuid options ∷ [])

-- The turns of one event, in the order in which its goroutines come to them.
unfoldable pub event_turns : (Watcher → Bool) → (Watcher → Bool) → List Watcher → List Turn
unfolding drop_turns
event_turns is_done keep_going listed = drop_turns (λ w. is_done w || not (keep_going w)) listed

-- The third list has the turns of the first two, each in its order.
pub data Interleaves : List Turn → List Turn → List Turn → Type 0 where
  over : Interleaves [] [] []
  of_first :
      {t : Turn} {xs ys zs : List Turn} → Interleaves xs ys zs → Interleaves (t ∷ xs) ys (t ∷ zs)
  of_second :
      {t : Turn} {xs ys zs : List Turn} → Interleaves xs ys zs → Interleaves xs (t ∷ ys) (t ∷ zs)

module _ (api : Semaphore) where
  unfoldable pub take_turn : Turn → Manager api → Result (Manager api)
  unfolding drop_watcher admit
  take_turn (drops w) m = drop_watcher api w m
  take_turn (admits uuid options) m = ok (admit api uuid options m).0

  unfoldable pub take_turns : List Turn → Manager api → Result (Manager api)
  unfolding take_turn
  take_turns [] m = ok m
  take_turns (t ∷ ts) m = do m' ← take_turn t m; take_turns ts m'
