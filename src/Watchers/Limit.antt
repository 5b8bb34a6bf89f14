-- ===== src/Watchers/Limit.antt =====
-- The permits and the watchers of the watcher manager under its operations:
-- pkg/watcher-manager/manager.go.
use pkgserver.Prelude.{
  ℕ, suc, ◌≡◌, ◌≢◌, ◌<◌, ◌≤◌, refl, sym, ◌∙◌, ap, Bool, true, false, ◌&&◌, ◌||◌, not, List, [], ◌∷◌,
  Option, none, some, arith, Str, ◌==◌, str_eq, ==_iff, ==_refl, str_beq_iff, if-split, Bool-cases,
  ◌⊎◌, inl, inr, length, ok, All,
}
use pkgserver.Go.Strings.{codes}
use pkgserver.Watchers.{
  Watcher, Semaphore, Manager, new, del, put, drop_watcher, sweep, admit, add, handle_event,
}

unfoldable pub has : Str → List Watcher → Bool
has k [] = false
has k (w ∷ ws) = w.key == k || has k ws

-- The keys differ.
abbrev pub IsUnique : List Watcher → Type 0
IsUnique [] = Unit
IsUnique (w ∷ ws) = (has w.key ws ≡ false) × IsUnique ws

pub has-del : (k j : Str) (ws : List Watcher) → has j (del k ws) ≡ (has j ws && not (j == k))
unfolding has del
has-del k j [] = refl
has-del k j (w ∷ ws) =
    ground (arith, has-del k j ws, str_beq_iff w.key k, str_beq_iff w.key j, str_beq_iff j k)

del_absent : (k : Str) (ws : List Watcher) → has k ws ≡ false → del k ws ≡ ws
unfolding has del
del_absent k [] h = refl
del_absent k (w ∷ ws) h = ground (arith, del_absent k ws)

del-IsUnique : (k : Str) (ws : List Watcher) → IsUnique ws → IsUnique (del k ws)
unfolding del
del-IsUnique k [] u = tt
del-IsUnique k (w ∷ ws) u =
    if-split IsUnique (w.key == k) (λ _. del-IsUnique k ws u.1)
      (λ _. (has-del k w.key ws ∙ ground (arith, u.0), del-IsUnique k ws u.1))

length-del :
    (k : Str) (ws : List Watcher)
    → IsUnique ws
    → has k ws ≡ true
    → length ws ≡ suc (length (del k ws))
unfolding has del
length-del k [] u h = cc
length-del k (w ∷ ws) u h =
    if-split (λ (l : List Watcher). suc (length ws) ≡ suc (length l)) (w.key == k)
      (λ same.
        ap (λ l. suc (length l))
          (sym (del_absent k ws (sym (ap (λ j. has j ws) ((==_iff w.key k).0 same)) ∙ u.0))))
      (λ other. ap suc (length-del k ws u.1 (ground (arith, h, other))))

-- The test passes for a listed watcher with the key.
unfoldable pub hit : (Watcher → Bool) → Str → List Watcher → Bool
hit p k [] = false
hit p k (w ∷ ws) = w.key == k && p w || hit p k ws

-- What golang.org/x/sync/semaphore documents, for the weight 1 and with nobody waiting.
pub record IsSemaphore (api : Semaphore) : Type 0 where
  pub held : api.Sem → ℕ
  pub limit : api.Sem → ℕ
  pub fresh : (n : ℕ) → (held (api.new_weighted n) ≡ 0) × (limit (api.new_weighted n) ≡ n)
  pub acquires :
      (s : api.Sem)
      → held s < limit s
      → (s' : api.Sem) × (api.try_acquire s ≡ some s')
        × (held s' ≡ suc (held s))
        × (limit s' ≡ limit s)
  pub refuses : (s : api.Sem) → limit s ≤ held s → api.try_acquire s ≡ none
  pub releases :
      (s : api.Sem) (n : ℕ)
      → held s ≡ suc n
      → (s' : api.Sem) × (api.release s ≡ some s') × (held s' ≡ n) × (limit s' ≡ limit s)

room : (a b : ℕ) → (a < b) ⊎ (b ≤ a)
room a b = ground arith

module _ (api : Semaphore) (law : IsSemaphore api) where
  -- One permit is held for each watcher, the keys differ, and the limit is kept.
  pub record IsManaged (m : Manager api) : Type 0 where
    pub unique : IsUnique m.watchers
    pub counted : law.held m.sem ≡ length m.watchers
    pub bounded : length m.watchers ≤ law.limit m.sem

  -- A listing of the map, in any order: different keys, and each is there.
  pub record IsListing (listed : List Watcher) (m : Manager api) : Type 0 where
    pub unique : IsUnique listed
    pub present : All (λ (w : Watcher). has w.key m.watchers ≡ true) listed

  -- `m'` is `m` without the watchers that pass the test.
  pub record IsSwept (p : Watcher → Bool) (listed : List Watcher) (m m' : Manager api)
      : Type 0 where
    pub managed : IsManaged m'
    pub same_limit : law.limit m'.sem ≡ law.limit m.sem
    pub remaining : (k : Str) → has k m'.watchers ≡ (has k m.watchers && not (hit p k listed))

  pub drop_one :
      (w : Watcher) (m : Manager api)
      → IsManaged m
      → has w.key m.watchers ≡ true
      → (m' : Manager api) × (drop_watcher api w m ≡ ok m')
        × IsManaged m'
        × (law.limit m'.sem ≡ law.limit m.sem)
        × (m'.watchers ≡ del w.key m.watchers)
  unfolding drop_watcher
  drop_one w m i h =
      let count = length-del w.key m.watchers i.unique h in
      let (s, released, held, limit) =
        law.releases m.sem (length (del w.key m.watchers)) (i.counted ∙ count) in
      (
        record { sem = s; watchers = del w.key m.watchers },
        rw (released, drop_watcher) refl,
        record {
          unique = del-IsUnique w.key m.watchers i.unique;
          counted = held;
          bounded = omega (arith, count, i.bounded, limit);
        },
        limit,
        refl,
      )

  still_present :
      (w : Watcher) (ws : List Watcher) (m m' : Manager api)
      → has w.key ws ≡ false
      → m'.watchers ≡ del w.key m.watchers
      → All (λ (x : Watcher). has x.key m.watchers ≡ true) ws
      → All (λ (x : Watcher). has x.key m'.watchers ≡ true) ws
  unfolding has
  still_present w [] m m' new e h = tt
  still_present w (x ∷ ws) m m' new e h = (
    ap (has x.key) e ∙ has-del w.key x.key m.watchers ∙ ground (arith, h.0, new),
    still_present w ws m m' (ground (arith, new)) e h.1,
  )

  swept :
      (p : Watcher → Bool) (listed : List Watcher) (m : Manager api)
      → IsManaged m
      → IsListing listed m
      → (m' : Manager api) × (sweep api p listed m ≡ ok m') × IsSwept p listed m m'
  unfolding sweep hit
  swept p [] m i l =
      (m, refl, record { managed = i; same_limit = refl; remaining = λ k. ground arith })
  swept p (w ∷ ws) m i l = elim (Bool-cases (p w)) [
    | inl h ↦
        let (m1, dropped, managed, limit, left) = drop_one w m i l.present.0 in
        let (m2, run, s) = swept p ws m1 managed (record {
          unique = l.unique.1;
          present = still_present w ws m m1 l.unique.0 left l.present.1;
        }) in
        (
          m2,
          rw (h, dropped) run,
          record {
            managed = s.managed;
            same_limit = s.same_limit ∙ limit;
            remaining = λ k.
                s.remaining k
                ∙ ground (
                  arith,
                  h,
                  ap (has k) left ∙ has-del w.key k m.watchers,
                  str_beq_iff w.key k,
                  str_beq_iff k w.key,
                );
          },
        )
    | inr h ↦
        let (m2, run, s) = swept p ws m i (record { unique = l.unique.1; present = l.present.1 }) in
        (
          m2,
          rw h run,
          record {
            managed = s.managed;
            same_limit = s.same_limit;
            remaining = λ k. s.remaining k ∙ ground (arith, h);
          },
        )
  ]

  -- An event that no call of `Add` comes between does not panic: whatever the order of the listed
  -- watchers, those whose context is done or whose callback does not want to go on are removed, the
  -- others stay, and one permit is held for each watcher that is left.
  pub handle_event-IsSwept :
      (is_done keep_going : Watcher → Bool) (listed : List Watcher) (m : Manager api)
      → IsManaged m
      → IsListing listed m
      → (m' : Manager api) × (handle_event api is_done keep_going listed m ≡ ok m')
        × IsSwept (λ w. is_done w || not (keep_going w)) listed m m'
  unfolding handle_event
  handle_event-IsSwept is_done keep_going listed m i l =
      swept (λ w. is_done w || not (keep_going w)) listed m i l

  pub new-IsManaged : (n : ℕ) → IsManaged (new api n) × (law.limit (new api n).sem ≡ n)
  unfolding new
  new-IsManaged n =
      (record { unique = tt; counted = (law.fresh n).0; bounded = omega arith }, (law.fresh n).1)

  -- What `Add` has done: the watchers that were done are gone, and the new one is there exactly
  -- when the others had left room for it.
  pub record IsAdded (is_done : Watcher → Bool) (listed : List Watcher) (uuid : Str)
      (m m' : Manager api) (e : Option Str) : Type 0 where
    pub managed : IsManaged m'
    pub same_limit : law.limit m'.sem ≡ law.limit m.sem
    pub remaining :
        (k : Str) → k ≢ uuid → has k m'.watchers ≡ (has k m.watchers && not (hit is_done k listed))
    pub outcome :
        ((e ≡ none) × (has uuid m'.watchers ≡ true))
        ⊎ ((e ≡ some (codes "max number of watchers reached"))
            × (has uuid m'.watchers ≡ false)
            × (length m'.watchers ≡ law.limit m.sem))

  pub admitted :
      (is_done : Watcher → Bool) (listed : List Watcher) (uuid options : Str) (m m1 : Manager api)
      → has uuid m.watchers ≡ false
      → IsSwept is_done listed m m1
      → IsAdded is_done listed uuid m (admit api uuid options m1).0 (admit api uuid options m1).1
  unfolding admit put has
  admitted is_done listed uuid options m m1 new_key s =
      elim (room (law.held m1.sem) (law.limit m1.sem)) [
        | inr full ↦
            rw (law.refuses m1.sem full, admit)
              (record {
                managed = s.managed;
                same_limit = s.same_limit;
                remaining = λ k _. s.remaining k;
                outcome = inr (
                  refl,
                  free,
                  omega (arith, s.managed.bounded, s.managed.counted, full, s.same_limit),
                );
              })
        | inl left ↦
            let (s', acquired, held, limit) = law.acquires m1.sem left in
            rw (acquired, admit)
              (record {
                managed = record {
                  unique = (
                    has-del uuid uuid m1.watchers ∙ ground (arith, free),
                    del-IsUnique uuid m1.watchers s.managed.unique,
                  );
                  counted = held ∙ ap suc (s.managed.counted ∙ sym same_length);
                  bounded = omega (arith, left, s.managed.counted, limit, same_length);
                };
                same_limit = limit ∙ s.same_limit;
                remaining = λ k other. ground (
                  arith,
                  has-del uuid k m1.watchers,
                  s.remaining k,
                  str_beq_iff uuid k,
                  str_beq_iff k uuid,
                );
                outcome = inl (refl, ground (arith, ==_refl uuid));
              })
      ]
    where
      free : has uuid m1.watchers ≡ false
      free = s.remaining uuid ∙ ground (arith, new_key)

      same_length : length (del uuid m1.watchers) ≡ length m1.watchers
      same_length = ap length (del_absent uuid m1.watchers free)

  -- Where no event and no other call of `Add` comes between its steps, `Add` does not panic: it removes
  -- the listed watchers that are done, and then adds the new watcher, or answers with an error where
  -- the limit is reached; one permit is held for each watcher, and the limit is kept. The listing is
  -- of the watchers that are managed, and the new key is not in use.
  pub add-IsAdded :
      (is_done : Watcher → Bool) (listed : List Watcher) (uuid options : Str) (m : Manager api)
      → IsManaged m
      → IsListing listed m
      → has uuid m.watchers ≡ false
      → (m' : Manager api) × (e : Option Str) × (add api is_done listed uuid options m ≡ ok (m', e))
        × IsAdded is_done listed uuid m m' e
  unfolding add
  add-IsAdded is_done listed uuid options m i l new_key =
      let (m1, run, s) = swept is_done listed m i l in
      (
        (admit api uuid options m1).0,
        (admit api uuid options m1).1,
        rw run refl,
        admitted is_done listed uuid options m m1 new_key s,
      )
