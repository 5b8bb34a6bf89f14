-- ===== src/Reconcilers/Approval/Calls.antt =====
-- What the approval controller sends to the API server: pkg/reconcilers/packageapproval/reconcilers.go.
use mathlib.Core.Path.{subst}
use pkgserver.Prelude.{
  ℕ, ◌≡◌, inr, refl, sym, ap, true, [], ◌∷◌, List, Option, none, some, arith, Str, ◌==◌, str_eq,
  if◌then◌else◌, if-cases, All, All-map,
}
use pkgserver.Go.Strings.{codes}
use pkgserver.Condition.{gate_approve, condition_false, condition_update}
use pkgserver.PackageRevision.{
  Lifecycle, draft, proposed, published, deletion_proposed, other, PackageRevision,
  get_previous_condition, set_conditions_of,
}
use pkgserver.PackageRevision.Transitions.{◌⟶◌, edit, open_draft, open_proposed}
use pkgserver.Strategy.{validate_update}
use pkgserver.Strategy.Update.{validate_update_iff}
use pkgserver.Kube.{
  found, Call, acquire_lease, add_finalizer, update, Api, Outcome, again, lease_again, Run, pure,
  send, return_status, updates, status_updates,
}
use pkgserver.Reconcilers.Gate.{is_irrelevant}
use pkgserver.Reconcilers.Approval.{
  controller_name, promote, finish, by_lifecycle, process, delete, leased, reconcile_found,
  on_fetched, reconcile,
}

-- The next step of the approval.
pub data IsStep : Lifecycle → Lifecycle → Type 0 where
  propose : IsStep draft proposed
  publish : IsStep proposed published

-- `new` is `old` one step further, with the same name and the same identity.
pub record IsPromotion (old new : PackageRevision) : Type 0 where
  pub step : IsStep old.lifecycle new.lifecycle
  pub same_name : new.name ≡ old.name
  pub same_id : new.id ≡ old.id

module _ (api : Api) (now : ℕ) where
  promote-updates :
      (l : Lifecycle) (msg : Str) (cr : PackageRevision) (log : List Call)
      → updates log ≡ []
      → IsStep cr.lifecycle l
      → All (IsPromotion cr) (updates (promote api now l msg cr log).1)
  unfolding promote send return_status set_conditions_of
  promote-updates l msg cr log h s = sent (api.fails log (update promoted))
    where
      promoted : PackageRevision
      promoted =
          set_conditions_of (record cr { lifecycle = l; tasks = [] })
            (condition_update now gate_approve msg [] ∷ [])

      step : IsPromotion cr promoted
      step = record { step = s; same_name = refl; same_id = refl }

      rest : All (IsPromotion cr) (updates log)
      rest = subst (All (IsPromotion cr)) (sym h) tt

      sent :
          (e : Option Str)
          → All (IsPromotion cr) (
              updates
                ((elim e as (λ x. Run Outcome) [
                  | none ↦ pure again
                  | some m ↦ return_status api again (
                      set_conditions_of
                        (api.reply log (update promoted))
                        (condition_update now gate_approve (codes "cannot update cr") m ∷ []))
                ])
                  (update promoted ∷ log)).1)
      sent none = (step, rest)
      sent (some m) = (step, rest)

  updates-finish :
      (cr : PackageRevision) (log : List Call)
      → updates log ≡ []
      → updates (finish api now cr log).1 ≡ []
  unfolding finish return_status send
  updates-finish cr log h = ground (arith, h)

  lifecycle_updates :
      (l : Lifecycle) (cr : PackageRevision) (log : List Call)
      → updates log ≡ []
      → cr.lifecycle ≡ l
      → All (IsPromotion cr) (updates (by_lifecycle api now l cr log).1)
  unfolding by_lifecycle
  lifecycle_updates draft cr log h e =
      promote-updates _ _ cr log h (subst (λ k. IsStep k proposed) (sym e) propose)
  lifecycle_updates proposed cr log h e =
      promote-updates _ _ cr log h (subst (λ k. IsStep k published) (sym e) publish)
  lifecycle_updates published cr log h e =
      subst (All (IsPromotion cr)) (sym (updates-finish cr log h)) tt
  lifecycle_updates deletion_proposed cr log h e = subst (All (IsPromotion cr)) (sym h) tt
  lifecycle_updates (other s) cr log h e = subst (All (IsPromotion cr)) (sym h) tt

  process-updates :
      (cr : PackageRevision) (log : List Call)
      → updates log ≡ []
      → All (IsPromotion (api.reply log (add_finalizer cr))) (updates (process api now cr log).1)
  unfolding process send return_status
  process-updates cr log h = go (api.fails log (add_finalizer cr))
    where
      held : PackageRevision
      held = api.reply log (add_finalizer cr)

      go :
          (e : Option Str)
          → All (IsPromotion held) (
              updates
                ((elim e as (λ x. Run Outcome) [
                  | none ↦ by_lifecycle api now held.lifecycle held
                  | some m ↦ return_status api again (
                      set_conditions_of held
                        (condition_update now gate_approve (codes "cannot add finalizer") m ∷ []))
                ])
                  (add_finalizer cr ∷ log)).1)
      go none = lifecycle_updates held.lifecycle held (add_finalizer cr ∷ log) h refl
      go (some m) = subst (All (IsPromotion held)) (sym h) tt

  -- The object that the client holds when it looks at the lifecycle.
  abbrev pub held_by : PackageRevision → PackageRevision
  held_by cr = api.reply (acquire_lease controller_name ∷ []) (add_finalizer cr)

  leased-updates :
      (cr : PackageRevision) → All (IsPromotion (held_by cr)) (updates (leased api now cr []).1)
  unfolding leased delete send
  leased-updates cr = go (api.fails [] (acquire_lease controller_name))
    where
      Promoting : Run Outcome → Type 0
      Promoting m =
          All (IsPromotion (held_by cr)) (updates (m (acquire_lease controller_name ∷ [])).1)

      go :
          (e : Option Str)
          → Promoting (elim e as (λ x. Run Outcome) [
            | some _ ↦ pure lease_again
            | none ↦ if cr.deleting then delete api now cr else process api now cr
          ])
      go none = if-cases Promoting cr.deleting tt (process-updates cr _ refl)
      go (some m) = tt

  reconcile_updates :
      (cr : PackageRevision)
      → All (IsPromotion (held_by cr)) (updates (reconcile_found api now cr []).1)
  unfolding reconcile_found
  reconcile_updates cr = if-cases Promoting (is_irrelevant gate_approve cr) tt (
      if-cases Promoting ((get_previous_condition now cr gate_approve).status == condition_false) tt
        (leased-updates cr))
    where
      Promoting : Run Outcome → Type 0
      Promoting m = All (IsPromotion (held_by cr)) (updates (m []).1)

  abbrev pub IsAcceptedStep : PackageRevision → PackageRevision → Type 0
  IsAcceptedStep old new = IsStep old.lifecycle new.lifecycle × (validate_update new old ≡ [])

  accepted : (old new : PackageRevision) → IsPromotion old new → IsAcceptedStep old new
  accepted old new p = (
    p.step,
    (validate_update_iff new old).1 (record {
      target = sym (ap (λ i. i.target) p.same_id);
      repository = sym (ap (λ i. i.repository) p.same_id);
      realm = sym (ap (λ i. i.realm) p.same_id);
      pkg = sym (ap (λ i. i.pkg) p.same_id);
      workspace = sym (ap (λ i. i.workspace) p.same_id);
      revision = inr (sym (ap (λ i. i.revision) p.same_id));
      lifecycle = edge p.step;
    }),
  )
    where
      edge : {l k : Lifecycle} → IsStep l k → l ⟶ k
      edge propose = edit open_draft open_proposed
      edge publish = ◌⟶◌.publish

  pub reconcile_at :
      (cr : PackageRevision)
      → api.fetched ≡ found cr
      → reconcile api now ≡ reconcile_found api now cr
  unfolding reconcile on_fetched
  reconcile_at cr is_found = ap (on_fetched api now) is_found

  -- Whatever the approval controller sends by `Update` moves the lifecycle of the object that it holds
  -- from draft to proposed or from proposed to published, and is accepted by the API
  -- server's validation of the update of that object.
  pub reconcile-IsAcceptedStep :
      (cr : PackageRevision)
      → api.fetched ≡ found cr
      → All (IsAcceptedStep (held_by cr)) (updates (reconcile api now []).1)
  reconcile-IsAcceptedStep cr is_found =
      All-map (accepted (held_by cr)) _
        (subst Promoting (sym (reconcile_at cr is_found)) (reconcile_updates cr))
    where
      Promoting : Run Outcome → Type 0
      Promoting m = All (IsPromotion (held_by cr)) (updates (m []).1)

  leased_deletes :
      (cr : PackageRevision)
      → cr.deleting ≡ true
      → (updates (leased api now cr []).1 ≡ []) × (status_updates (leased api now cr []).1 ≡ [])
  unfolding leased delete send
  leased_deletes cr h = ground (arith, h)

  -- A package revision that is being deleted is neither updated nor is its status.
  pub reconcile_deleting :
      (cr : PackageRevision)
      → api.fetched ≡ found cr
      → cr.deleting ≡ true
      → (updates (reconcile api now []).1 ≡ []) × (status_updates (reconcile api now []).1 ≡ [])
  unfolding reconcile_found
  reconcile_deleting cr is_found h = subst Still (sym (reconcile_at cr is_found)) (
      if-cases Still (is_irrelevant gate_approve cr) (refl, refl)
        (if-cases Still ((get_previous_condition now cr gate_approve).status == condition_false)
          (refl, refl) (leased_deletes cr h)))
    where
      Still : Run Outcome → Type 0
      Still m = (updates (m []).1 ≡ []) × (status_updates (m []).1 ≡ [])
