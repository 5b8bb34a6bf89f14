-- ===== src/Tests/Samples.antt =====
-- Package revisions, conditions and the parameters of the model at concrete values.
use Prim.Native.Nat.{compare}
use pkgserver.Prelude.{
  ℕ, zero, suc, ◌≡◌, ◌≢◌, ◌<◌, ◌≤◌, refl, sym, ap, false, List, [], ◌∷◌, Option, none, some, arith,
  Str, ◌==◌, str_eq, ==_iff, drop, ltb, if◌then◌else◌,
}
use pkgserver.Go.Strings.{codes}
use pkgserver.Go.Strconv.{read, read-itoa}
use pkgserver.PkgRevId.{PackageRevId}
use pkgserver.PkgRevId.Revision.{Semver, IsSemver, rev}
use pkgserver.Condition.{
  Condition, type_ready, gate_process, gate_approve, gate_install, condition_true,
}
use pkgserver.PackageRevision.{PackageRevision, Lifecycle, draft}
use pkgserver.Watchers.{Semaphore}
use pkgserver.Watchers.Limit.{IsSemaphore}

abbrev pub sample_id : PackageRevId
sample_id = record {
  target = codes "edge01";
  repository = codes "deploy";
  realm = codes "a/b";
  pkg = codes "nginx";
  revision = codes "v1";
  workspace = codes "ws-1";
}

abbrev pub condition_of : Str → Str → Condition
condition_of t s = record {
  type = t;
  status = s;
  last_transition_time = 0;
  reason = [];
  message = [];
}

abbrev pub sample_with : Str → Str → Lifecycle → List Condition → PackageRevision
sample_with name revision lifecycle conditions = record {
  namespace = codes "default";
  name = name;
  labels = [];
  annotations = (codes "pkg.pkgserver.dev/DiscoveredPkgRev", codes "true") ∷ [];
  finalizers = [];
  owner_references = [];
  deleting = false;
  id = record sample_id { revision = revision };
  lifecycle = lifecycle;
  tasks = [];
  readiness_gates = gate_process ∷ gate_approve ∷ gate_install ∷ [];
  upstream = none;
  inputs = [];
  conditions = conditions;
}

abbrev pub sample_name : Str
sample_name = codes "edge01.deploy.a:b.nginx.ws-1"

-- A draft that nothing has been done to.
abbrev pub new_draft : PackageRevision
new_draft = sample_with sample_name [] draft []

abbrev pub processed : List Condition
processed = condition_of type_ready condition_true ∷ condition_of gate_process condition_true ∷ []

-- A draft whose next gate is the approval.
abbrev pub processed_draft : PackageRevision
processed_draft = sample_with sample_name [] draft processed

abbrev or_zero : Option ℕ → ℕ
or_zero none = 0
or_zero (some n) = n

abbrev pub number_of : Str → ℕ
number_of v = or_zero (read 0 (drop 1 v))

pub number_rev : (n : ℕ) → number_of (rev n) ≡ n
number_rev n = ap or_zero (read-itoa n)

-- The versions "v0", "v1" and so on.
abbrev pub sample_semver : Semver
sample_semver = record {
  is_valid = λ v. v == rev (number_of v);
  major = λ v. v;
  cmp = λ a b. compare (number_of a) (number_of b);
}

abbrev pub sample_semver_law : IsSemver sample_semver
sample_semver_law = record {
  number = number_of;
  major_prefix = λ v h. (==_iff v (rev (number_of v))).0 h;
  valid_prefix = λ n. (==_iff (rev n) (rev (number_of (rev n)))).1 (ap rev (sym (number_rev n)));
  prefix_number = number_rev;
  cmp_prefix = λ m n i. compare (number_rev m i) (number_rev n i);
}

-- A semaphore as the permits held and the limit.
abbrev pub take : ℕ × ℕ → Option (ℕ × ℕ)
take (held, limit) = if ltb held limit then some (suc held, limit) else none

abbrev pub give : ℕ × ℕ → Option (ℕ × ℕ)
give (zero, limit) = none
give (suc n, limit) = some (n, limit)

abbrev pub sample_semaphore : Semaphore
sample_semaphore = record {
  Sem = ℕ × ℕ;
  new_weighted = λ n. (0, n);
  try_acquire = take;
  release = give;
}

pub takes : (s : ℕ × ℕ) → s.0 < s.1 → take s ≡ some (suc s.0, s.1)
takes (held, limit) h = ground (arith, h)

pub refuses : (s : ℕ × ℕ) → s.1 ≤ s.0 → take s ≡ none
refuses (held, limit) h = ground (arith, h)

pub gives : (s : ℕ × ℕ) (n : ℕ) → s.0 ≡ suc n → give s ≡ some (n, s.1)
gives (held, limit) n h = rw h refl

abbrev pub sample_semaphore_law : IsSemaphore sample_semaphore
sample_semaphore_law = record {
  held = λ s. s.0;
  limit = λ s. s.1;
  fresh = λ n. (refl, refl);
  acquires = λ s h. ((suc s.0, s.1), takes s h, refl, refl);
  refuses = refuses;
  releases = λ s n h. ((n, s.1), gives s n h, refl, refl);
}

-- Two texts differ where the test says so.
pub differ : (s t : Str) → (s == t) ≡ false → s ≢ t
differ s t h e = cc (h, (==_iff s t).1 e)
