-- ===== src/Api/Pods.antt =====
-- Pods of the Kubernetes API (k8s.io/api/core/v1), by the fields that the controller reads or sets.
-- A text `others` stands for the rest of an object, which is only compared and encoded.
use kova.Base.{Bool, List, Option}
use kova.Base.Text.{Text}
use kova.Base.Dict.{Dict}
use kova.Api.{Meta}
use kova.Api.Int.{ℤ}

pub record Probe : Type 0 where
  pub success_threshold : ℤ
  pub others : Text

-- `requests` and `limits`: no map, or the quantities by resource name.
pub record Container : Type 0 where
  pub name : Text
  pub image : Text
  pub command : List Text
  pub limits : Option (Dict Text)
  pub requests : Option (Dict Text)
  pub pull_policy : Text
  pub termination_path : Text
  pub termination_policy : Text
  pub liveness : Option Probe
  pub readiness : Option Probe
  pub startup : Option Probe
  pub others : Text

pub record Toleration : Type 0 where
  pub key : Text
  pub operator : Text
  pub effect : Text
  pub value : Text
  pub seconds : Option ℤ

-- A secret or a ConfigMap as a volume, with the mode of its files.
pub record Mounted : Type 0 where
  pub default_mode : Option ℤ
  pub others : Text

pub record Volume : Type 0 where
  pub secret : Option Mounted
  pub config_map : Option Mounted
  pub others : Text

pub record PodSpec : Type 0 where
  pub node_name : Text
  pub service_account_name : Text
  pub deprecated_service_account : Text
  pub dns_policy : Text
  pub scheduler_name : Text
  pub restart_policy : Text
  pub grace_seconds : Option ℤ
  pub enable_service_links : Option Bool
  pub automount_token : Option Bool
  pub host_users : Option Bool
  pub priority : Option ℤ
  pub preemption_policy : Option Text
  pub tolerations : List Toleration
  pub containers : List Container
  pub init_containers : List Container
  pub volumes : List Volume
  pub others : Text

pub record Pod : Type 0 where
  pub meta : Meta
  pub open meta use *
  pub spec : PodSpec
