-- ===== src/Kube.antt =====
-- The Kubernetes API as the reconcilers under pkg/reconcilers see it. The server and the finalizer
-- helper are outside this model, and the lease has a module of its own: `Api` answers each call from
-- the calls made before it, and a run is judged by its calls. Log lines and recorder events are left
-- out.
use pkgserver.Prelude.{ℕ, Bool, true, false, List, [], ◌∷◌, ◌++◌, Option, none, some, Str}
use pkgserver.Go.Strings.{codes}
use pkgserver.PackageRevision.{PackageRevision}
use pkgserver.PackageVariant.{PackageVariant}

-- What `Get` gives for the request's name.
pub data Fetched : Type 0 where
  found : PackageRevision → Fetched
  not_found : Fetched
  get_failed : Str → Fetched

-- `configsyncv1beta1.RootSync`: its name and the git part of its specification.
pub record RootSync : Type 0 where
  pub namespace : Str
  pub name : Str
  pub repo : Str
  pub branch : Str
  pub revision : Str
  pub dir : Str
  pub secret_ref : Str

-- The calls that can change something outside, with the object that they send.
pub data Call : Type 0 where
  acquire_lease : Str → Call
  add_finalizer remove_finalizer update update_status : PackageRevision → Call
  create_sync update_sync : RootSync → Call
  run_kform : Bool → Call
  update_resources : PackageRevision → Call
  apply_variant : PackageVariant → Call

-- `fails` is the error of a call, if it has one, and `reply` the object that the client holds after
-- it. The calls made before stand newest first.
pub record Api : Type 0 where
  pub fetched : Fetched
  pub fails : List Call → Call → Option Str
  pub reply : List Call → Call → PackageRevision

-- `ctrl.Result` with the error; the delay is in seconds.
pub record Outcome : Type 0 where
  pub requeue : Bool
  pub requeue_after : ℕ
  pub error : Option Str

abbrev pub done : Outcome
done = record { requeue = false; requeue_after = 0; error = none }

abbrev pub again : Outcome
again = record { requeue = true; requeue_after = 0; error = none }

-- `lease.RequeueInterval`, two seconds.
abbrev pub lease_again : Outcome
lease_again = record { requeue = true; requeue_after = 2; error = none }

abbrev pub Run : Type 0 → Type 0
Run A = List Call → A × List Call

abbrev pub pure : {A : Type 0} → A → Run A
pure a log = (a, log)

infixl 5 ◌>>=◌
abbrev pub ◌>>=◌ : {A B : Type 0} → Run A → (A → Run B) → Run B
◌>>=◌ m f log = let (a, log') = m log in f a log'

-- `errors.Wrap`: nothing is wrapped where there is no error.
abbrev pub wrap : Str → Option Str → Option Str
wrap msg none = none
wrap msg (some e) = some (msg ++ (codes ": " ++ e))

abbrev pub err_get_cr : Str
err_get_cr = codes "cannot get cr"

abbrev pub err_update_status : Str
err_update_status = codes "cannot update status"

module _ (api : Api) where
  -- The error of a call and the object after it.
  unfoldable pub send : Call → Run (Option Str × PackageRevision)
  send c log = ((api.fails log c, api.reply log c), c ∷ log)

  -- `return outcome, errors.Wrap(r.Status().Update(ctx, cr), errUpdateStatus)`.
  unfoldable pub return_status : Outcome → PackageRevision → Run Outcome
  unfolding send
  return_status o cr = do
    (e, _) ← send (update_status cr)
    pure (record o { error = wrap err_update_status e })

-- The objects that a run sends by `Update`, those by `Status().Update` and the applied package
-- variants, newest first.
abbrev pub updates : List Call → List PackageRevision
updates [] = []
updates (update r ∷ log) = r ∷ updates log
updates (_ ∷ log) = updates log

abbrev pub status_updates : List Call → List PackageRevision
status_updates [] = []
status_updates (update_status r ∷ log) = r ∷ status_updates log
status_updates (_ ∷ log) = status_updates log

abbrev pub applied : List Call → List PackageVariant
applied [] = []
applied (apply_variant v ∷ log) = v ∷ applied log
applied (_ ∷ log) = applied log
