-- ===== src/Templates.antt =====
-- The template of a runner Pod: the defaults that the controller sets before the Create
-- (internal/service/buildcontroller/pod_receipt.go) and the canonical form whose digest the receipt
-- records (internal/service/recoveryreceipt/pod_template.go).
--
-- encoding/json on the projection is the parameter `marshal_template`; it does not see the metadata
-- that the API server assigns. A Pod is never nil. A map with a key twice does not occur.
pub mod Digest
mod Tests
use kova.Base.{
  Bool, false, not, ◌&&◌, ◌||◌, List, [], ◌∷◌, ◌++◌, Option, none, some, ◌==◌, if◌then◌else◌,
  is_some, length, map,
}
use kova.Base.Text.{Text, text, text_eq, is_empty}
use kova.Base.Dict.{Dict, lookup, insert, erase}
use kova.Api.{Owner}
use kova.Api.Int.{ℤ, pos}
use kova.Api.Pods.{Probe, Container, Toleration, Mounted, Volume, PodSpec, Pod}
use kova.Effects.{Error, Result, ok, err}
use kova.Queue.Store.{same_int}

pub record Projection : Type 0 where
  pub namespace : Text
  pub name : Text
  pub labels : Dict Text
  pub annotations : Dict Text
  pub owners : List Owner
  pub spec : PodSpec

pub record TemplateCodec : Type 0 where
  pub marshal_template : Projection → Option Text
  pub sha256_hex : Text → Text

abbrev pub digest_annotation : Text
digest_annotation = text "kova.cofy.dev/pod-template-digest"

-- A field that holds its default reads as unset.
abbrev pub unless_text : Text → Text → Text
unless_text default value = if text_eq value default then [] else value

abbrev pub unless_int : ℤ → Option ℤ → Option ℤ
unless_int default none = none
unless_int default (some n) = if same_int n default then none else some n

abbrev pub unless_true : Option Bool → Option Bool
unless_true none = none
unless_true (some b) = if b then none else some b

abbrev pub unless_some_text : Text → Option Text → Option Text
unless_some_text default none = none
unless_some_text default (some t) = if text_eq t default then none else some t

unfoldable pub standard_toleration : Toleration → Bool
standard_toleration t =
    (text_eq t.key (text "node.kubernetes.io/not-ready")
      || text_eq t.key (text "node.kubernetes.io/unreachable"))
    && text_eq t.operator (text "Exists")
    && text_eq t.effect (text "NoExecute")
    && is_empty t.value
    && (elim t.seconds [ none ↦ false | some n ↦ same_int n (pos 300) ])

unfoldable pub kept_tolerations : List Toleration → List Toleration
kept_tolerations [] = []
kept_tolerations (t ∷ rest) =
    if standard_toleration t then kept_tolerations rest else t ∷ kept_tolerations rest

abbrev pub canonical_probe : Option Probe → Option Probe
canonical_probe none = none
canonical_probe (some p) =
    if same_int p.success_threshold (pos 1)
    then some (record p { success_threshold = pos 0 })
    else some p

unfoldable pub canonical_container : Container → Container
canonical_container c = record c {
  termination_path = unless_text (text "/dev/termination-log") termination_path;
  termination_policy = unless_text (text "File") termination_policy;
  liveness = canonical_probe liveness;
  readiness = canonical_probe readiness;
  startup = canonical_probe startup;
}
  where
    open c use {termination_path, termination_policy, liveness, readiness, startup}

abbrev pub canonical_mounted : Option Mounted → Option Mounted
canonical_mounted none = none
canonical_mounted (some m) = some (record m { default_mode = unless_int (pos 420) default_mode })
  where
    open m use {default_mode}

unfoldable pub canonical_volume : Volume → Volume
canonical_volume v = record v {
  secret = canonical_mounted secret;
  config_map = canonical_mounted config_map;
}
  where
    open v use {secret, config_map}

unfoldable pub canonical_spec : PodSpec → PodSpec
canonical_spec s = record s {
  node_name = [];
  service_account_name = unless_text (text "default") service_account_name;
  deprecated_service_account = unless_text (text "default") deprecated_service_account;
  dns_policy = unless_text (text "ClusterFirst") dns_policy;
  scheduler_name = unless_text (text "default-scheduler") scheduler_name;
  grace_seconds = unless_int (pos 30) grace_seconds;
  enable_service_links = unless_true enable_service_links;
  host_users = unless_true host_users;
  priority = unless_int (pos 0) priority;
  preemption_policy = unless_some_text (text "PreemptLowerPriority") preemption_policy;
  tolerations = kept_tolerations tolerations;
  containers = map canonical_container containers;
  init_containers = map canonical_container init_containers;
  volumes = map canonical_volume volumes;
}
  where
    open s use {
      service_account_name, deprecated_service_account, dns_policy, scheduler_name, grace_seconds,
      enable_service_links, host_users, priority, preemption_policy, tolerations, containers,
      init_containers, volumes,
    }

-- Everything but the digest's own annotation and what the API server assigns.
unfoldable pub projection : Pod → Projection
projection p = record {
  namespace = p.namespace;
  name = p.name;
  labels = p.labels;
  annotations = erase digest_annotation p.annotations;
  owners = p.owners;
  spec = canonical_spec p.spec;
}

unfoldable pub canonical_pod_template_digest : TemplateCodec → Pod → Result Text
canonical_pod_template_digest x p =
    if not (is_empty p.namespace) && not (is_empty p.name) && length p.owners == 1
    then (elim (x.marshal_template (projection p)) [
      | none ↦ err Error.failed
      | some raw ↦ ok (text "sha256:" ++ x.sha256_hex raw)
    ])
    else err Error.failed

-- The limits fill the requests that are missing.
unfoldable pub fill_requests : Dict Text → Dict Text → Dict Text
fill_requests [] requests = requests
fill_requests ((name, limit) ∷ rest) requests =
    fill_requests rest
      (if is_some (lookup name requests) then requests else insert name limit requests)

abbrev pub requests_or_empty : Option (Dict Text) → Dict Text
requests_or_empty none = []
requests_or_empty (some d) = d

unfoldable pub filled_requests : Option (Dict Text) → Option (Dict Text) → Option (Dict Text)
filled_requests none requests = requests
filled_requests (some limits) requests = some (fill_requests limits (requests_or_empty requests))

abbrev pub default_text : Text → Text → Text
default_text default value = if is_empty value then default else value

abbrev pub default_probe : Option Probe → Option Probe
default_probe none = none
default_probe (some p) =
    if same_int p.success_threshold (pos 0)
    then some (record p { success_threshold = pos 1 })
    else some p

unfoldable pub prepare_container : Container → Container
prepare_container c = record c {
  requests = filled_requests limits requests;
  pull_policy = default_text (text "IfNotPresent") pull_policy;
  termination_path = text "/dev/termination-log";
  termination_policy = default_text (text "File") termination_policy;
  liveness = default_probe liveness;
  readiness = default_probe readiness;
  startup = default_probe startup;
}
  where
    open c use {limits, requests, pull_policy, termination_policy, liveness, readiness, startup}

abbrev pub default_mounted : Option Mounted → Option Mounted
default_mounted none = none
default_mounted (some m) = elim m.default_mode [
  | none ↦ some (record m { default_mode = some (pos 420) })
  | some n ↦ some m
]

unfoldable pub prepare_volume : Volume → Volume
prepare_volume v = record v { secret = default_mounted secret }
  where
    open v use {secret}

abbrev pub no_execute : Text → Toleration
no_execute key = record {
  key = key;
  operator = text "Exists";
  effect = text "NoExecute";
  value = [];
  seconds = some (pos 300);
}

unfoldable pub prepare_spec : PodSpec → PodSpec
prepare_spec s = record s {
  automount_token = some false;
  enable_service_links = some false;
  service_account_name = text "default";
  dns_policy = text "ClusterFirst";
  scheduler_name = text "default-scheduler";
  grace_seconds = some (pos 30);
  tolerations =
      no_execute (text "node.kubernetes.io/not-ready")
      ∷ no_execute (text "node.kubernetes.io/unreachable")
      ∷ [];
  containers = map prepare_container containers;
  init_containers = map prepare_container init_containers;
  volumes = map prepare_volume volumes;
}
  where
    open s use {containers, init_containers, volumes}

unfoldable pub prepare_pod : Pod → Pod
prepare_pod p = record p { spec = prepare_spec spec }
  where
    open p use {spec}
