-- ===== src/Watchers/Race.antt =====
-- An event on its own, and its race with `Add`: pkg/watcher-manager/manager.go.
use pkgserver.Prelude.{
  ◌≡◌, refl, ap, ◌∙◌, Bool, true, not, ◌||◌, List, [], ◌∷◌, str_eq, ==_refl, Bool-cases, inl, inr,
  ◌>>=◌, Result, ok, err, none, some, length, arith,
}
use pkgserver.Go.Strings.{codes}
use pkgserver.Watchers.{handle_event, Watcher, Semaphore, Manager, drop_watcher, sweep, del}
use pkgserver.Watchers.Limit.{has, IsSemaphore, IsManaged, drop_one}
use pkgserver.Watchers.Turns.{drops, drop_turns, event_turns, take_turn, take_turns}

module _ (api : Semaphore) (law : IsSemaphore api) where
  -- The turns of a loop, one after the other, are the loop.
  sweep-turns :
      (p : Watcher → Bool) (ws : List Watcher) (m : Manager api)
      → sweep api p ws m ≡ take_turns api (drop_turns p ws) m
  unfolding sweep drop_turns take_turns take_turn
  sweep-turns p [] m = refl
  sweep-turns p (w ∷ ws) m = elim (Bool-cases (p w)) [
    | inl t ↦ rw t (λ i. drop_watcher api w m >>= λ m'. sweep-turns p ws m' i)
    | inr t ↦ rw t (sweep-turns p ws m)
  ]

  -- An event that nothing comes between.
  pub handle_event-turns :
      (is_done keep_going : Watcher → Bool) (listed : List Watcher) (m : Manager api)
      → handle_event api is_done keep_going listed m
        ≡ take_turns api (event_turns is_done keep_going listed) m
  unfolding handle_event event_turns
  handle_event-turns is_done keep_going listed m =
      sweep-turns (λ w. is_done w || not (keep_going w)) listed m

  -- The last watcher is dropped twice, by an `Add` and an event that both have it in their listing: the
  -- second release panics, where the semaphore has no permit out.
  pub shared_panics :
      ((s : api.Sem) → law.held s ≡ 0 → api.release s ≡ none)
      → (w : Watcher) (m : Manager api) → IsManaged api law m
      → m.watchers ≡ w ∷ []
      → take_turns api (drops w ∷ drops w ∷ []) m ≡ err (codes "semaphore: released more than held")
  unfolding take_turns take_turn drop_watcher
  shared_panics exhausted w m i only =
      let (m1, dropped, managed, limit, gone) =
        drop_one api law w m i (ap (has w.key) only ∙ is_there) in
      ap (λ r. r >>= λ m'. (drop_watcher api w m' >>= λ m''. ok m'')) dropped
      ∙ ap
          (λ o.
            (elim o as (λ _. Result (Manager api)) [
              | none ↦ err (codes "semaphore: released more than held")
              | some s ↦ ok (record { sem = s; watchers = del w.key m1.watchers })
            ])
            >>= λ m''. ok m'')
          (exhausted m1.sem
            (managed.counted ∙ ap length gone ∙ ap (λ ws. length (del w.key ws)) only ∙ none_left))
    where
      is_there : has w.key (w ∷ []) ≡ true
      is_there = unfold has in ground (arith, ==_refl w.key)

      none_left : length (del w.key (w ∷ [])) ≡ 0
      none_left = unfold del in ground (arith, ==_refl w.key)
