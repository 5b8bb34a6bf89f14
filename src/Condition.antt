-- ===== src/Condition.antt =====
-- The conditions of a resource: apis/condition/condition.go and readinessgate.go. A resource has one
-- condition of each type. `metav1.Now()` is an argument, `now`.
pub mod Set
use pkgserver.Prelude.{
  ℕ, Bool, true, false, ◌&&◌, List, [], ◌∷◌, ◌++◌, Str, ◌==◌, str_eq, if◌then◌else◌,
}
use pkgserver.Go.Strings.{codes}

-- `metav1.Condition`, which `Condition` embeds.
pub record Condition : Type 0 where
  pub type : Str
  pub status : Str
  pub last_transition_time : ℕ
  pub reason : Str
  pub message : Str

abbrev pub condition_true : Str
condition_true = codes "True"

abbrev pub condition_false : Str
condition_false = codes "False"

abbrev pub type_ready : Str
type_ready = codes "Ready"

abbrev pub type_true : Str
type_true = codes "True"

abbrev pub type_false : Str
type_false = codes "False"

abbrev pub type_end : Str
type_end = codes "End"

abbrev pub reason_ready : Str
reason_ready = codes "Ready"

abbrev pub reason_failed : Str
reason_failed = codes "Failed"

abbrev pub reason_unknown : Str
reason_unknown = codes "Unknown"

abbrev pub gate_schedule : Str
gate_schedule = codes "pkg.pkgserver.dev/schedule"

abbrev pub gate_process : Str
gate_process = codes "pkg.pkgserver.dev/process"

abbrev pub gate_policy : Str
gate_policy = codes "pkg.pkgserver.dev/policy"

abbrev pub gate_approve : Str
gate_approve = codes "pkg.pkgserver.dev/approve"

abbrev pub gate_install : Str
gate_install = codes "pkg.pkgserver.dev/install"

-- `Condition.Equal` leaves the transition time out.
unfoldable pub equal : Condition → Condition → Bool
equal c other =
    c.type == other.type
    && (c.status == other.status && (c.reason == other.reason && c.message == other.message))

unfoldable pub with_message : Condition → Str → Condition
with_message c msg = record c { message = msg }

unfoldable pub has_condition : List Condition → Str → Bool
has_condition [] t = false
has_condition (c ∷ cs) t = let rest = has_condition cs t in if c.type == t then true else rest

unfoldable pub get_condition : List Condition → Str → Condition
get_condition [] t = record {
  type = t;
  status = condition_false;
  last_transition_time = 0;
  reason = [];
  message = [];
}
get_condition (c ∷ cs) t = let rest = get_condition cs t in if c.type == t then c else rest

-- The inner loop of `SetConditions`: the conditions, and `exists`.
replace : Condition → List Condition → List Condition × Bool
unfolding equal
replace new [] = ([], false)
replace new (existing ∷ cs) =
    let (cs', exists) = replace new cs in
    if existing.type == new.type
    then (if equal existing new then (existing ∷ cs', true) else (new ∷ cs', true))
    else (existing ∷ cs', exists)

unfoldable pub set_condition : List Condition → Condition → List Condition
unfolding replace
set_condition cs new =
    let (cs', exists) = replace new cs in if exists then cs' else cs' ++ (new ∷ [])

unfoldable pub set_conditions : List Condition → List Condition → List Condition
set_conditions cs [] = cs
set_conditions cs (new ∷ news) = set_conditions (set_condition cs new) news

unfoldable pub new_conditioned_status : List Condition → List Condition
unfolding set_conditions
new_conditioned_status news = set_conditions [] news

module _ (now : ℕ) where
  unfoldable pub ready : Condition
  ready = record {
    type = type_ready;
    status = condition_true;
    last_transition_time = now;
    reason = reason_ready;
    message = [];
  }

  unfoldable pub unknown : Condition
  unknown = record {
    type = type_ready;
    status = condition_false;
    last_transition_time = now;
    reason = reason_unknown;
    message = [];
  }

  unfoldable pub failed : Str → Condition
  failed msg = record {
    type = type_ready;
    status = condition_false;
    last_transition_time = now;
    reason = reason_failed;
    message = msg;
  }

  unfoldable pub condition_update : Str → Str → Str → Condition
  condition_update ctype reason msg = record {
    type = ctype;
    status = condition_false;
    last_transition_time = now;
    reason = reason;
    message = msg;
  }

  unfoldable pub condition_failed : Str → Str → Condition
  condition_failed ctype msg = record {
    type = ctype;
    status = condition_false;
    last_transition_time = now;
    reason = reason_failed;
    message = msg;
  }

  unfoldable pub condition_ready : Str → Condition
  condition_ready ctype = record {
    type = ctype;
    status = condition_true;
    last_transition_time = now;
    reason = reason_ready;
    message = [];
  }

  -- `ConditionTrue` and `ConditionFalse` both have the status "True"; they differ in the type.
  unfoldable pub always_true : Condition
  always_true = record {
    type = type_true;
    status = condition_true;
    last_transition_time = now;
    reason = [];
    message = [];
  }

  unfoldable pub always_false : Condition
  always_false = record {
    type = type_false;
    status = condition_true;
    last_transition_time = now;
    reason = [];
    message = [];
  }
