-- ===== src/Reconcilers/Processor/Justified.antt =====
-- When the processor reports its gate as finished: pkg/reconcilers/packageprocessor/reconcilers.go.
use mathlib.Core.Path.{subst}
use pkgserver.Prelude.{
  ℕ, ◌≡◌, ◌⊎◌, inl, inr, refl, Bool, true, false, not, ◌&&◌, List, [], ◌∷◌, Option, none, some, Str,
  ◌==◌, str_eq, ◌∙◌, if◌then◌else◌, if-cases, Result, ok, err,
}
use pkgserver.Go.Strings.{codes}
use pkgserver.Condition.{
  Condition, type_ready, gate_process, condition_false, get_condition, set_conditions,
  condition_update, condition_failed,
}
use pkgserver.Condition.Set.{last_status}
use pkgserver.PackageRevision.{PackageRevision, get_previous_condition, set_conditions_of}
use pkgserver.Kube.{
  Fetched, found, not_found, get_failed, Call, acquire_lease, add_finalizer, remove_finalizer,
  update, update_status, create_sync, update_sync, run_kform, update_resources, apply_variant, Api,
  Outcome, done, again, lease_again, Run, pure, send, return_status,
}
use pkgserver.Reconcilers.Gate.{is_irrelevant, complete_gate}
use pkgserver.Reconcilers.Processor.{
  controller_name, is_deletion_proposed, fail_with, attempt, release, clean_up, delete, work,
  process_held, process, leased, reconcile_found, on_fetched, reconcile,
}

module _ (api : Api) where
  -- The last two calls are a run of kform and the update of the resources, both without error.
  pub record IsWorked (log : List Call) : Type 0 where
    pub before : List Call
    pub resource : PackageRevision
    pub calls : log ≡ update_resources resource ∷ run_kform false ∷ before
    pub ran : api.fails before (run_kform false) ≡ none
    pub stored : api.fails (run_kform false ∷ before) (update_resources resource) ≡ none

  -- Each status that is sent has the processor's condition "False", or follows finished work.
  abbrev pub IsJustified : List Call → Type 0
  IsJustified [] = Unit
  IsJustified (update_status s ∷ log) =
      (((get_condition s.conditions gate_process).status ≡ condition_false) ⊎ IsWorked log)
      × IsJustified log
  IsJustified (acquire_lease _ ∷ log) = IsJustified log
  IsJustified (add_finalizer _ ∷ log) = IsJustified log
  IsJustified (remove_finalizer _ ∷ log) = IsJustified log
  IsJustified (update _ ∷ log) = IsJustified log
  IsJustified (create_sync _ ∷ log) = IsJustified log
  IsJustified (update_sync _ ∷ log) = IsJustified log
  IsJustified (run_kform _ ∷ log) = IsJustified log
  IsJustified (update_resources _ ∷ log) = IsJustified log
  IsJustified (apply_variant _ ∷ log) = IsJustified log

  Justifies : Run Outcome → Type 0
  Justifies m = (log : List Call) → IsJustified log → IsJustified (m log).1

  false-Justifies :
      (cr : PackageRevision) (c : Condition)
      → c.type ≡ gate_process
      → c.status ≡ condition_false
      → Justifies (return_status api again (set_conditions_of cr (c ∷ [])))
  unfolding return_status send Justifies set_conditions_of
  false-Justifies cr c is_gate is_false log h = (
    inl (
        subst
          (λ t. (get_condition (set_conditions cr.conditions (c ∷ [])) t).status ≡ condition_false)
          is_gate (last_status cr.conditions c ∙ is_false)),
    h,
  )

  module _ (now : ℕ) where
    fail-Justifies : (e : Str) (cr : PackageRevision) → Justifies (fail_with api now e cr)
    unfolding fail_with condition_failed
    fail-Justifies e cr = false-Justifies cr (condition_failed now gate_process e) refl refl

    release-Justifies : (cr : PackageRevision) → Justifies (release api now cr)
    unfolding release send Justifies
    release-Justifies cr log h = h

    kform-Justifies :
        (b : Bool) (next : Run Outcome) (cr : PackageRevision)
        → Justifies next
        → Justifies (attempt api now (run_kform b) next cr)
    unfolding attempt send Justifies
    kform-Justifies b next cr good log h = answered (api.fails log (run_kform b))
      where
        answered :
            (e : Option Str)
            → IsJustified
                ((elim e as (λ _. Run Outcome) [ none ↦ next | some m ↦ fail_with api now m cr ])
                  (run_kform b ∷ log)).1
        answered none = good (run_kform b ∷ log) h
        answered (some m) = fail-Justifies m cr (run_kform b ∷ log) h

    clean_up-Justifies :
        (gathered : Result Bool) (cr : PackageRevision) → Justifies (clean_up api now gathered cr)
    unfolding clean_up
    clean_up-Justifies (err e) cr = fail-Justifies e cr
    clean_up-Justifies (ok true) cr =
        kform-Justifies true (release api now cr) cr (release-Justifies cr)
    clean_up-Justifies (ok false) cr = release-Justifies cr

    rest-Justifies : (o : Outcome) → Justifies (pure o)
    unfolding Justifies
    rest-Justifies o log h = h

    delete-Justifies :
        (gathered : Result Bool) (cr : PackageRevision) → Justifies (delete api now gathered cr)
    unfolding delete
    delete-Justifies gathered cr =
        if-cases Justifies (not (cr.id.revision == []) && not (is_deletion_proposed cr.lifecycle))
          (rest-Justifies done) (clean_up-Justifies gathered cr)

    work-Justifies :
        (gathered : Result Bool) (cr : PackageRevision) → Justifies (work api now gathered cr)
    unfolding work attempt send return_status Justifies
    work-Justifies (err e) cr = fail-Justifies e cr
    work-Justifies (ok exists) cr = λ log h. ran log h (api.fails log (run_kform false)) refl
      where
        finish : Run Outcome
        finish = return_status api done (complete_gate now gate_process cr)

        store : Run Outcome
        store = attempt api now (update_resources cr) finish cr

        stored :
            (log : List Call)
            → IsJustified log
            → api.fails log (run_kform false) ≡ none
            → (e : Option Str) → api.fails (run_kform false ∷ log) (update_resources cr) ≡ e
            → IsJustified
                ((elim e as (λ _. Run Outcome) [ none ↦ finish | some m ↦ fail_with api now m cr ])
                  (update_resources cr ∷ run_kform false ∷ log)).1
        stored log h r none s =
            (inr (record { before = log; resource = cr; calls = refl; ran = r; stored = s }), h)
        stored log h r (some m) s =
            fail-Justifies m cr (update_resources cr ∷ run_kform false ∷ log) h

        ran :
            (log : List Call)
            → IsJustified log
            → (e : Option Str) → api.fails log (run_kform false) ≡ e
            → IsJustified
                ((elim e as (λ _. Run Outcome) [ none ↦ store | some m ↦ fail_with api now m cr ])
                  (run_kform false ∷ log)).1
        ran log h none r =
            stored log h r (api.fails (run_kform false ∷ log) (update_resources cr)) refl
        ran log h (some m) r = fail-Justifies m cr (run_kform false ∷ log) h

    held-Justifies :
        (gathered : Result Bool) (cr : PackageRevision)
        → Justifies (process_held api now gathered cr)
    unfolding process_held
    held-Justifies gathered cr =
        if-cases Justifies ((get_condition cr.conditions gate_process).status == condition_false)
          (work-Justifies gathered cr) (rest-Justifies done)

    process-Justifies :
        (gathered : Result Bool) (cr : PackageRevision) → Justifies (process api now gathered cr)
    unfolding process send Justifies condition_update
    process-Justifies gathered cr log h = answered (api.fails log (add_finalizer cr))
      where
        held : PackageRevision
        held = api.reply log (add_finalizer cr)

        answered :
            (e : Option Str)
            → IsJustified
                ((elim e as (λ _. Run Outcome) [
                  | none ↦ process_held api now gathered held
                  | some m ↦ return_status api again (
                      set_conditions_of held
                        (condition_update now gate_process (codes "cannot add finalizer") m ∷ []))
                ])
                  (add_finalizer cr ∷ log)).1
        answered none = held-Justifies gathered held (add_finalizer cr ∷ log) h
        answered (some m) =
            false-Justifies held
              (condition_update now gate_process (codes "cannot add finalizer") m) refl refl
              (add_finalizer cr ∷ log) h

    leased-Justifies :
        (gathered : Result Bool) (cr : PackageRevision) → Justifies (leased api now gathered cr)
    unfolding leased send Justifies
    leased-Justifies gathered cr log h = answered (api.fails log (acquire_lease controller_name))
      where
        answered :
            (e : Option Str)
            → IsJustified
                ((elim e as (λ _. Run Outcome) [
                  | some _ ↦ pure lease_again
                  | none ↦
                      if cr.deleting
                      then delete api now gathered cr
                      else process api now gathered cr
                ])
                  (acquire_lease controller_name ∷ log)).1
        answered none =
            if-cases Justifies cr.deleting (delete-Justifies gathered cr)
              (process-Justifies gathered cr) (acquire_lease controller_name ∷ log) h
        answered (some m) = h

    found-Justifies :
        (gathered : Result Bool) (f : Fetched) → Justifies (on_fetched api now gathered f)
    unfolding on_fetched reconcile_found
    found-Justifies gathered not_found = rest-Justifies done
    found-Justifies gathered (get_failed e) = rest-Justifies _
    found-Justifies gathered (found cr) =
        if-cases Justifies (is_irrelevant gate_process cr) (rest-Justifies done) (
          if-cases Justifies
            (not cr.deleting && (get_condition cr.conditions type_ready).status == condition_false)
            (rest-Justifies done)
            (if-cases Justifies
              (not cr.deleting
                && (get_previous_condition now cr gate_process).status == condition_false)
              (rest-Justifies done) (leased-Justifies gathered cr)))

    -- Whenever the processor sends a status in which its condition is not "False", its two calls before were
    -- a run of kform and the update of the resources, and neither had an error.
    pub reconcile-IsJustified :
        (gathered : Result Bool) → IsJustified (reconcile api now gathered []).1
    unfolding reconcile Justifies
    reconcile-IsJustified gathered = found-Justifies gathered api.fetched [] tt
