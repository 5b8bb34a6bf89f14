-- ===== src/Watchers/Interleaving.antt =====
-- `Add` beside an event: pkg/watcher-manager/manager.go.
use pkgserver.Prelude.{
  ◌≡◌, ◌≢◌, refl, sym, ap, ◌∙◌, Bool, true, false, not, ◌||◌, ◌&&◌, List, [], ◌∷◌, ◌++◌, Str,
  str_eq, str_beq_iff, ok, All, All-append, arith,
}
use pkgserver.Watchers.{Watcher, Semaphore, Manager, admit, del}
use pkgserver.Watchers.Limit.{
  has, has-del, hit, IsSemaphore, IsManaged, IsListing, IsAdded, drop_one, admitted,
}
use pkgserver.Watchers.Turns.{
  Turn, drops, admits, drop_turns, add_turns, event_turns, Interleaves, take_turn, take_turns,
}
use pkgserver.Watchers.Apart.{
  Apart, AreApart, all_interleaved, AllApart, AreApart-interleaved, transposed, given, under,
  everywhere, all_drops, drops-AreApart, add_turns-AreApart, drops_key, any_drops, IsOld,
  any_drops-drop_turns, any_drops-append, any_drops-Interleaves,
}

module _ (api : Semaphore) (law : IsSemaphore api) where
  -- A watcher to be dropped is there, and a new key is not.
  abbrev IsReady : Manager api → Turn → Type 0
  IsReady m (drops w) = has w.key m.watchers ≡ true
  IsReady m (admits u o) = has u m.watchers ≡ false

  -- The turn succeeds and leaves the turns ready that are apart from it.
  record IsTaken (t : Turn) (m m' : Manager api) : Type 0 where
    runs : take_turn api t m ≡ ok m'
    managed : IsManaged api law m'
    same_limit : law.limit m'.sem ≡ law.limit m.sem
    ready : (u : Turn) → IsReady m u → Apart t u → IsReady m' u
    remaining :
        (k : Str) → IsOld k t → has k m'.watchers ≡ (has k m.watchers && not (drops_key k t))

  after_drop :
      (w : Watcher) (m m' : Manager api)
      → m'.watchers ≡ del w.key m.watchers
      → (u : Turn) → IsReady m u
      → Apart (drops w) u
      → IsReady m' u
  after_drop w m m' e (drops x) ready apart =
      ap (has x.key) e
      ∙ has-del w.key x.key m.watchers
      ∙ ground (arith, ready, apart, str_beq_iff x.key w.key)
  after_drop w m m' e (admits u o) ready apart =
      ap (has u) e ∙ has-del w.key u m.watchers ∙ ground (arith, ready)

  after_admit :
      (uuid options : Str) (m m' : Manager api)
      → has uuid m.watchers ≡ false
      → ((k : Str) → k ≢ uuid → has k m'.watchers ≡ (has k m.watchers && not false))
      → (u : Turn) → IsReady m u
      → Apart (admits uuid options) u
      → IsReady m' u
  after_admit uuid options m m' new remaining (drops x) ready apart =
      remaining x.key (λ same. cc (new, ready, same)) ∙ ground (arith, ready)
  after_admit uuid options m m' new remaining (admits u o) ready apart =
      remaining u (λ same. apart (sym same)) ∙ ground (arith, ready)

  turn-IsTaken :
      (t : Turn) (m : Manager api)
      → IsManaged api law m
      → IsReady m t
      → (m' : Manager api) × IsTaken t m m'
  unfolding take_turn hit
  turn-IsTaken (drops w) m i ready =
      let (m', dropped, managed, limit, gone) = drop_one api law w m i ready in
      (
        m',
        record {
          runs = dropped;
          managed = managed;
          same_limit = limit;
          ready = after_drop w m m' gone;
          remaining = λ k _.
              ap (has k) gone
              ∙ has-del w.key k m.watchers
              ∙ ground (arith, str_beq_iff k w.key, str_beq_iff w.key k);
        },
      )
  turn-IsTaken (admits uuid options) m i ready = (
    (admit api uuid options m).0,
    record {
      runs = refl;
      managed = done.managed;
      same_limit = done.same_limit;
      ready = after_admit uuid options m (admit api uuid options m).0 ready done.remaining;
      remaining = done.remaining;
    },
  )
    where
      done :
          IsAdded api law
            (λ _. false)
            []
            uuid
            m
            (admit api uuid options m).0
            (admit api uuid options m).1
      done =
          admitted api law (λ _. false) [] uuid options m m ready
            (record { managed = i; same_limit = refl; remaining = λ k. ground arith })

  -- All turns succeed: the limit is kept, one permit is held for each watcher, and of the old keys those
  -- that no turn drops are left.
  record AreTaken (ts : List Turn) (m m' : Manager api) : Type 0 where
    managed : IsManaged api law m'
    same_limit : law.limit m'.sem ≡ law.limit m.sem
    remaining :
        (k : Str)
        → All (IsOld k) ts
        → has k m'.watchers ≡ (has k m.watchers && not (any_drops k ts))

  still_ready :
      (t : Turn) (m m' : Manager api) (ts : List Turn)
      → ((u : Turn) → IsReady m u → Apart t u → IsReady m' u)
      → All (IsReady m) ts
      → All (Apart t) ts
      → All (IsReady m') ts
  still_ready t m m' [] step h a = tt
  still_ready t m m' (u ∷ ts) step h a = (step u h.0 a.0, still_ready t m m' ts step h.1 a.1)

  turns-AreTaken :
      (ts : List Turn) (m : Manager api)
      → IsManaged api law m
      → All (IsReady m) ts
      → AreApart ts
      → (m' : Manager api) × (take_turns api ts m ≡ ok m') × AreTaken ts m m'
  unfolding take_turns any_drops
  turns-AreTaken [] m i ready apart =
      (m, refl, record { managed = i; same_limit = refl; remaining = λ k _. ground arith })
  turns-AreTaken (t ∷ ts) m i ready apart =
      let (m1, one) = turn-IsTaken t m i ready.0 in
      let (m2, run, rest) =
        turns-AreTaken ts m1 one.managed (still_ready t m m1 ts one.ready ready.1 apart.0)
          apart.1 in
      (
        m2,
        rw one.runs run,
        record {
          managed = rest.managed;
          same_limit = rest.same_limit ∙ one.same_limit;
          remaining = λ k old.
              rest.remaining k old.1
              ∙ ap (λ b. b && not (any_drops k ts)) (one.remaining k old.0)
              ∙ ground arith;
        },
      )

  -- No watcher of the first listing that passes the first test passes the second in the second.
  abbrev pub NoneShared : (p q : Watcher → Bool) (listed other : List Watcher) → Type 0
  NoneShared p q listed other =
      All (λ x. All (λ y. p x ≡ true → q y ≡ true → x.key ≢ y.key) other) listed

  -- What both have done: one permit is held for each watcher, the limit is kept, and of the old keys
  -- those are left whose watchers passed neither test.
  pub record AreServed (p q : Watcher → Bool) (listed other : List Watcher) (uuid : Str)
      (m m' : Manager api) : Type 0 where
    pub managed : IsManaged api law m'
    pub same_limit : law.limit m'.sem ≡ law.limit m.sem
    pub remaining :
        (k : Str)
        → k ≢ uuid
        → has k m'.watchers ≡ (has k m.watchers && not (hit p k listed || hit q k other))

  module _ (is_done is_done' keep_going : Watcher → Bool) (listed other : List Watcher)
      (uuid options : Str) (m : Manager api) where
    abbrev stops : Watcher → Bool
    stops w = is_done' w || not (keep_going w)

    abbrev IsThere : Watcher → Type 0
    IsThere w = has w.key m.watchers ≡ true

    rows :
        (ws : List Watcher)
        → NoneShared is_done stops ws other
        → All (λ x. is_done x ≡ true → All (Apart (drops x)) (drop_turns stops other)) ws
    rows [] h = tt
    rows (x ∷ ws) h = (
      (λ t.
          all_drops stops (Apart (drops x)) other
            (given (λ y. stops y ≡ true → x.key ≢ y.key) other h.0 t)),
      rows ws h.1,
    )

    -- A call of `Add` and an event that run side by side do not panic, whatever the order in which they
    -- take their turns, a watcher's removal with the release of its permit being one turn, where both
    -- listed the managed watchers before either took a turn, no watcher is dropped by both, and the new
    -- key is not in use: the watchers that either of them drops are gone, all others stay, one permit is
    -- held for each watcher, and the limit is kept.
    pub interleaved-AreServed :
        {turns : List Turn}
        → IsManaged api law m
        → IsListing api law listed m
        → IsListing api law other m
        → NoneShared is_done stops listed other
        → has uuid m.watchers ≡ false
        → Interleaves
            (add_turns is_done listed uuid options)
            (event_turns is_done' keep_going other)
            turns
        → (m' : Manager api) × (take_turns api turns m ≡ ok m')
          × AreServed is_done stops listed other uuid m m'
    unfolding add_turns event_turns
    interleaved-AreServed {turns} i l o none_shared new between =
        let ready =
          all_interleaved (IsReady m) between
            (All-append (IsReady m) (drop_turns is_done listed) (admits uuid options ∷ [])
              (all_drops is_done (IsReady m) listed (under is_done IsThere listed l.present))
              (new, tt))
            (all_drops stops (IsReady m) other (under stops IsThere other o.present)) in
        let apart =
          AreApart-interleaved between (add_turns-AreApart is_done uuid options listed l.unique)
            (drops-AreApart stops other o.unique) cross (transposed _ _ cross) in
        let (m', run, taken) = turns-AreTaken turns m i ready apart in
        (
          m',
          run,
          record {
            managed = taken.managed;
            same_limit = taken.same_limit;
            remaining = λ k old.
                taken.remaining k (old_turns k old)
                ∙ ap (λ b. has k m.watchers && not b) (dropped k);
          },
        )
      where
        cross :
            AllApart
              (drop_turns is_done listed ++ (admits uuid options ∷ []))
              (drop_turns stops other)
        cross =
            All-append (λ x. All (Apart x) (drop_turns stops other)) (drop_turns is_done listed)
              (admits uuid options ∷ [])
              (all_drops is_done (λ x. All (Apart x) (drop_turns stops other)) listed
                (rows listed none_shared))
              (
                all_drops stops (Apart (admits uuid options)) other
                    (everywhere (λ w. stops w ≡ true → Unit) (λ w h. tt) other),
                tt,
              )

        old_turns : (k : Str) → k ≢ uuid → All (IsOld k) turns
        old_turns k old =
            all_interleaved (IsOld k) between
              (All-append (IsOld k) (drop_turns is_done listed) (admits uuid options ∷ [])
                (all_drops is_done (IsOld k) listed
                  (everywhere (λ w. is_done w ≡ true → Unit) (λ w h. tt) listed))
                (old, tt))
              (all_drops stops (IsOld k) other
                (everywhere (λ w. stops w ≡ true → Unit) (λ w h. tt) other))

        dropped : (k : Str) → any_drops k turns ≡ (hit is_done k listed || hit stops k other)
        dropped k =
            any_drops-Interleaves k between
            ∙ rw
                (
                  any_drops-append k (drop_turns is_done listed) (admits uuid options),
                  any_drops-drop_turns is_done k listed,
                  any_drops-drop_turns stops k other,
                )
                (ground arith)
