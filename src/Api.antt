-- ===== src/Api.antt =====
-- The KovaBuild resource (internal/apis/kova/v1alpha1/types.go) and the Kubernetes metadata that
-- the controller reads of it (k8s.io/apimachinery ObjectMeta).
--
-- A deletion timestamp is kept as whether it is set, a creation timestamp as its seconds (the
-- resolution of metav1.Time on the wire), and an owner reference by the four fields compared.
-- Of the status, the phase alone is read by the code modelled here.
pub mod Int
pub mod Pods
use Int.{ℤ, pos, negsuc}
use kova.Base.{ℕ, Bool, List, [], ◌∷◌, Option, none, some, true, false, zero, suc}
use kova.Base.Text.{Text, text, is_empty}
use kova.Base.Dict.{Dict, lookup}

pub record Owner : Type 0 where
  pub api_version : Text
  pub kind : Text
  pub name : Text
  pub uid : Text

pub record Meta : Type 0 where
  pub namespace : Text
  pub name : Text
  pub uid : Text
  pub resource_version : Text
  pub labels : Dict Text
  pub annotations : Dict Text
  pub finalizers : List Text
  pub owners : List Owner
  pub deleting : Bool
  pub created : ℕ

pub record TargetSpec : Type 0 where
  pub target : Text
  pub platform : Text

pub record Requester : Type 0 where
  pub username : Text
  pub uid : Text

pub record SourceSpec : Type 0 where
  pub uri : Text
  pub digest : Text

pub record Options : Type 0 where
  pub format : Text
  pub concurrency : ℤ
  pub timeout : ℤ
  pub oom_cooldown : Text
  pub fail_fast : Bool
  pub verbose : Bool
  pub vars : List Text

pub record Spec : Type 0 where
  pub requester : Requester
  pub targets : List TargetSpec
  pub source : SourceSpec
  pub build : Options
  pub idempotency_key : Text

-- `unset` is the empty string.
pub data Phase : Type 0 where
  unset queued starting running verifying failed_verifying succeeded failed cancelled : Phase

pub record KovaBuild : Type 0 where
  pub meta : Meta
  pub open meta use *
  pub spec : Spec
  pub phase : Phase

-- A read of a Go map of strings: a missing key reads as "".
abbrev pub value_of : Text → Dict Text → Text
value_of k d = elim (lookup k d) [ none ↦ [] | some v ↦ v ]
