-- ===== src/Reconcilers/Gate/Completion.antt =====
-- How a reconciler finishes its readiness gate: the lines after `SetConditions(ConditionReady(…))` of
-- the reconcilers under pkg/reconcilers.
use pkgserver.Prelude.{
  ℕ, ◌≡◌, ◌≢◌, ◌⊎◌, inl, inr, refl, ◌∙◌, ap, true, false, ◌||◌, [], List, arith, Str, ◌==◌, str_eq,
  ==_iff, ==_refl, str_beq_iff, if-split,
}
use pkgserver.Go.Strings.{codes}
use pkgserver.Condition.{
  Condition, type_end, condition_true, has_condition, get_condition, set_condition, set_conditions,
  condition_ready, condition_update, equal,
}
use pkgserver.Condition.Set.{has_condition-set_condition, get_condition-set_condition}
use pkgserver.PackageRevision.{PackageRevision, next_readiness_gate, set_conditions_of}
use pkgserver.Reconcilers.Gate.{complete_gate}

-- What completion leaves: the gate is "True", the next gate has a condition, and nothing that was
-- there for another type changes.
pub record IsCompleted (gate : Str) (r done : PackageRevision) : Type 0 where
  pub ready : (get_condition done.conditions gate).status ≡ condition_true
  pub started :
      (next_readiness_gate r gate ≡ type_end)
      ⊎ (has_condition done.conditions (next_readiness_gate r gate) ≡ true)
  pub kept :
      (t : Str)
      → t ≢ gate
      → has_condition r.conditions t ≡ true
      → get_condition done.conditions t ≡ get_condition r.conditions t

module _ (now : ℕ) (gate : Str) (r : PackageRevision) where
  abbrev marked : List Condition
  marked = set_condition r.conditions (condition_ready now gate)

  marked_ready : (get_condition marked gate).status ≡ condition_true
  unfolding condition_ready equal
  marked_ready = ground (
    arith,
    (get_condition-set_condition r.conditions (condition_ready now gate)).0,
    str_beq_iff (get_condition r.conditions gate).status condition_true,
  )

  marked_has : (t : Str) → has_condition marked t ≡ (has_condition r.conditions t || gate == t)
  unfolding condition_ready
  marked_has t = has_condition-set_condition r.conditions (condition_ready now gate) t

  marked_kept : (t : Str) → t ≢ gate → get_condition marked t ≡ get_condition r.conditions t
  unfolding condition_ready
  marked_kept t h = (get_condition-set_condition r.conditions (condition_ready now gate)).1 t h

  fresh-IsCompleted :
      has_condition marked (next_readiness_gate r gate) ≡ false
      → IsCompleted gate r (record r {
        conditions =
            set_condition marked
              (condition_update now (next_readiness_gate r gate) (codes "init") []);
      })
  unfolding condition_update
  fresh-IsCompleted fresh = record {
    ready =
        ap (λ c. c.status) (untouched gate (rw marked_has (ground (arith, ==_refl gate))))
        ∙ marked_ready;
    started = inr (has_condition-set_condition marked started_gate n ∙ ground (arith, ==_refl n));
    kept = λ t other has. untouched t (rw (marked_has t, has) refl) ∙ marked_kept t other;
  }
    where
      n : Str
      n = next_readiness_gate r gate

      started_gate : Condition
      started_gate = condition_update now n (codes "init") []

      untouched :
          (t : Str)
          → has_condition marked t ≡ true
          → get_condition (set_condition marked started_gate) t ≡ get_condition marked t
      untouched t has =
          (get_condition-set_condition marked started_gate).1 t
            (λ same. cc (fresh, has, ap (has_condition marked) same))

  -- The completion sets the gate's condition to "True", gives the next gate a condition unless there
  -- is no next gate, and changes no condition that was there for another type.
  pub complete_gate-IsCompleted : IsCompleted gate r (complete_gate now gate r)
  unfolding complete_gate set_conditions_of set_conditions next_readiness_gate
  complete_gate-IsCompleted =
      if-split (IsCompleted gate r) (next_readiness_gate r gate == type_end)
        (λ last. record {
          ready = marked_ready;
          started = inl ((==_iff (next_readiness_gate r gate) type_end).0 last);
          kept = λ t other _. marked_kept t other;
        })
        (λ _.
          if-split (IsCompleted gate r) (has_condition marked (next_readiness_gate r gate))
            (λ has. record {
              ready = marked_ready;
              started = inr has;
              kept = λ t other _. marked_kept t other;
            })
            (λ fresh. fresh-IsCompleted fresh))
