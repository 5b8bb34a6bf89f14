-- ===== src/Reconcilers/Variant/Requests.antt =====
-- The API server as pkg/reconcilers/packagevariant/reconciler.go sees it: it answers each request from
-- those made before it, and a run is judged by its requests, newest first.
use pkgserver.Prelude.{◌∷◌, List, Option, none, some, Str, str_eq, Result, ok, err}
use pkgserver.PackageRevision.{PackageRevision}
use pkgserver.PackageVariant.{PackageVariant}

pub data Request : Type 0 where
  list_revisions : Request
  get_repository : Str → Request
  create_revision update_revision delete_revision : PackageRevision → Request
  add_finalizer remove_finalizer update_status : PackageVariant → Request

pub data Fetched : Type 0 where
  found : PackageVariant → Fetched
  not_found : Fetched
  get_failed : Str → Fetched

-- `listed` is what a listing gives where it does not fail, and `reply` the package variant that the
-- client holds after a request.
pub record Server : Type 0 where
  pub fetched : Fetched
  pub fails : List Request → Request → Option Str
  pub listed : List Request → List PackageRevision
  pub reply : List Request → PackageVariant

abbrev pub Run : Type 0 → Type 0
Run A = List Request → A × List Request

abbrev pub pure : {A : Type 0} → A → Run A
pure a log = (a, log)

infixl 5 ◌>>=◌
abbrev pub ◌>>=◌ : {A B : Type 0} → Run A → (A → Run B) → Run B
◌>>=◌ m f log = f (m log).0 (m log).1

module _ (server : Server) where
  -- A request and its error.
  unfoldable pub ask : Request → Run (Option Str)
  ask q log = (server.fails log q, q ∷ log)

  unfoldable pub as_result : {A : Type 0} → A → Option Str → Result A
  as_result a none = ok a
  as_result a (some e) = err e

  unfoldable pub list : Run (Result (List PackageRevision))
  unfolding ask as_result
  list log = (as_result (server.listed log) (server.fails log list_revisions), list_revisions ∷ log)
