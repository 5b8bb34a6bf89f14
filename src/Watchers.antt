-- ===== src/Watchers.antt =====
-- The watcher manager: pkg/watcher-manager/manager.go and watchers_cache.go. Here each operation is run
-- from its start to its end; Watchers.Turns has what a call of `Add` and an event do side by side.
-- The semaphore of golang.org/x/sync is a parameter, and so are whether a watcher's context is done and
-- whether its callback wants to go on. The order in which the map is listed, and the
-- order in which the goroutines of one event run, is an argument.
pub mod Limit
pub mod Turns
pub mod Apart
pub mod Interleaving
pub mod Race
use pkgserver.Prelude.{
  ℕ, suc, ◌≡◌, ◌<◌, ◌≤◌, Bool, true, false, ◌&&◌, ◌||◌, not, List, [], ◌∷◌, Option, none, some, Str,
  ◌==◌, str_eq, if◌then◌else◌, Result, ok, err, ◌>>=◌,
}
use pkgserver.Go.Strings.{codes}

pub record Watcher : Type 0 where
  pub key : Str
  pub filter_options : Str

-- `semaphore.Weighted` with weight 1: `release` gives nothing where it panics.
pub record Semaphore : Type 1 where
  pub Sem : Type 0
  pub new_weighted : ℕ → Sem
  pub try_acquire : Sem → Option Sem
  pub release : Sem → Option Sem

module _ (api : Semaphore) where
  pub record Manager : Type 0 where
    pub sem : api.Sem
    pub watchers : List Watcher

  unfoldable pub new : ℕ → Manager
  new max_watchers = record { sem = api.new_weighted max_watchers; watchers = [] }

-- `watchers.del`.
unfoldable pub del : Str → List Watcher → List Watcher
del k [] = []
del k (w ∷ ws) = let rest = del k ws in if w.key == k then rest else w ∷ rest

-- `watchers.add`: the map holds one watcher of each key.
unfoldable pub put : Watcher → List Watcher → List Watcher
unfolding del
put w ws = w ∷ del w.key ws

module _ (api : Semaphore) where
  -- `r.watchers.del(w.key)` and `r.sem.Release(1)`; `err` is the panic.
  pub drop_watcher : Watcher → Manager api → Result (Manager api)
  drop_watcher w m = elim (api.release m.sem) as (λ _. Result (Manager api)) [
    | none ↦ err (codes "semaphore: released more than held")
    | some s ↦ ok (record { sem = s; watchers = del w.key m.watchers })
  ]

  -- A loop over listed watchers, which drops those that pass the test.
  unfoldable pub sweep : (Watcher → Bool) → List Watcher → Manager api → Result (Manager api)
  unfolding drop_watcher
  sweep p [] m = ok m
  sweep p (w ∷ ws) m = if p w then (drop_watcher w m >>= λ m'. sweep p ws m') else sweep p ws m

  -- From `TryAcquire` on.
  pub admit : Str → Str → Manager api → Manager api × Option Str
  unfolding put
  admit uuid options m = elim (api.try_acquire m.sem) as (λ _. Manager api × Option Str) [
    | none ↦ (m, some (codes "max number of watchers reached"))
    | some s ↦ (
      record {
        sem = s;
        watchers = put (record { key = uuid; filter_options = options }) m.watchers;
      },
      none,
    )
  ]

  -- `Add`, with the new key and the error.
  unfoldable pub add :
      (Watcher → Bool) → List Watcher → Str → Str → Manager api → Result (Manager api × Option Str)
  unfolding admit
  add is_done listed uuid options m = do m' ← sweep is_done listed m; ok (admit uuid options m')

  -- What `Start` does with one event.
  unfoldable pub handle_event :
      (Watcher → Bool) → (Watcher → Bool) → List Watcher → Manager api → Result (Manager api)
  handle_event is_done keep_going listed m = sweep (λ w. is_done w || not (keep_going w)) listed m
