-- ===== src/Reconcilers/Processor/Released.antt =====
-- What the processor does of a package revision that is deleted:
-- pkg/reconcilers/packageprocessor/reconcilers.go.
use mathlib.Core.Path.{subst}
use pkgserver.Prelude.{
  ℕ, ◌≡◌, ◌≢◌, ◌⊎◌, inl, inr, refl, sym, ap, Bool, true, false, not, ◌&&◌, List, [], ◌∷◌, Option,
  none, some, Str, ◌==◌, str_eq, ==_false, if◌then◌else◌, if-cases, Result,
}
use pkgserver.Condition.{type_ready, gate_process, condition_false, get_condition}
use pkgserver.PackageRevision.{
  PackageRevision, Lifecycle, draft, proposed, published, deletion_proposed, other,
  get_previous_condition,
}
use pkgserver.Kube.{found, Call, acquire_lease, Api, Outcome, done, lease_again, Run, pure, send}
use pkgserver.Reconcilers.Gate.{is_irrelevant}
use pkgserver.Reconcilers.Processor.{
  controller_name, is_deletion_proposed, delete, process, leased, reconcile_found, on_fetched,
  reconcile,
}

-- Nothing is called but the lease.
abbrev pub IsQuiet : List Call → Type 0
IsQuiet log = (log ≡ []) ⊎ (log ≡ acquire_lease controller_name ∷ [])

not_proposed : (l : Lifecycle) → l ≢ deletion_proposed → is_deletion_proposed l ≡ false
unfolding is_deletion_proposed
not_proposed draft h = refl
not_proposed proposed h = refl
not_proposed published h = refl
not_proposed deletion_proposed h = absurd (h refl)
not_proposed (other s) h = refl

module _ (api : Api) (now : ℕ) (gathered : Result Bool) (cr : PackageRevision)
    (released : cr.id.revision ≢ []) (unproposed : cr.lifecycle ≢ deletion_proposed)
    (gone : cr.deleting ≡ true) where
  delete_does_nothing : delete api now gathered cr ≡ pure done
  unfolding delete
  delete_does_nothing =
      rw (==_false cr.id.revision [] released, not_proposed cr.lifecycle unproposed) refl

  Quiet : Run Outcome → Type 0
  Quiet m = IsQuiet (m []).1

  leased-IsQuiet : IsQuiet (leased api now gathered cr []).1
  unfolding leased send
  leased-IsQuiet = go (api.fails [] (acquire_lease controller_name))
    where
      Rests : Run Outcome → Type 0
      Rests m = IsQuiet (m (acquire_lease controller_name ∷ [])).1

      go :
          (e : Option Str)
          → Rests (elim e as (λ _. Run Outcome) [
            | some _ ↦ pure lease_again
            | none ↦ if cr.deleting then delete api now gathered cr else process api now gathered cr
          ])
      go none =
          subst (λ b. Rests (if b then delete api now gathered cr else process api now gathered cr))
            (sym gone) (subst Rests (sym delete_does_nothing) (inr refl))
      go (some e) = inr refl

  -- A package revision that has a revision and is being deleted is left alone unless it is proposed for
  -- deletion: kform does not run, the finalizer stays, and nothing is updated.
  pub released_stays : api.fetched ≡ found cr → IsQuiet (reconcile api now gathered []).1
  unfolding reconcile reconcile_found Quiet
  released_stays is_found = subst Quiet (sym (ap (on_fetched api now gathered) is_found)) (
      if-cases Quiet (is_irrelevant gate_process cr) (inl refl) (
        if-cases Quiet
          (not cr.deleting && (get_condition cr.conditions type_ready).status == condition_false)
          (inl refl)
          (if-cases Quiet
            (not cr.deleting
              && (get_previous_condition now cr gate_process).status == condition_false)
            (inl refl) leased-IsQuiet)))
