-- ===== src/Receipts.antt =====
-- The receipts of grants and of Pod creations (internal/service/recoveryreceipt/effect.go): what they
-- record, the immutable ConfigMap that holds them, one attempt to create it, and its readback.
--
-- `Payloads` holds what the code takes from elsewhere: encoding/json on the two intents, the test for
-- spaces and control characters, and, as `base`, what the queue takes. A queue receipt of a grant is
-- optional. Slots are natural numbers: the code refuses values below 1.
pub mod Once
mod Tests
use kova.Base.{
  ℕ, Bool, true, false, not, ◌&&◌, [], ◌∷◌, ◌++◌, Option, none, some, leb, ◌==◌, if◌then◌else◌,
  length,
}
use kova.Base.Text.{Text, text, text_eq, is_empty, has_prefix, trim_prefix}
use kova.Base.Dict.{Dict}
use kova.Api.{value_of}
use kova.Effects.{
  Error, Result, ok, err, ConfigMap, Request, M, call, fail, attempt, from_result, require, ◌>>◌,
  get_config_map, is_rejection, rejected,
}
use kova.Queue.{Externals, valid_lower_hex, valid_digest}
use kova.Queue.Store.{is_nil}
use kova.Queue.Receipt.{opaque_uid, has_pairs, is_immutable, digest_data, max_effect_bytes}

pub record PinnedBuild : Type 0 where
  pub namespace : Text
  pub namespace_uid : Text
  pub receipt_namespace : Text
  pub receipt_namespace_uid : Text
  pub genesis_name : Text
  pub genesis_uid : Text
  pub generation : Text
  pub active_ledger_uid : Text
  pub queue_ledger_uid : Text
  pub build_name : Text
  pub build_uid : Text
  pub requester_name : Text
  pub requester_uid : Text
  pub requester_hash : Text
  pub request_digest : Text
  pub source_digest : Text
  pub worker_pool_id : Text

pub record ReceiptLink : Type 0 where
  pub name : Text
  pub uid : Text
  pub data_digest : Text

pub record GrantIntent : Type 0 where
  pub build : PinnedBuild
  pub admission_mode : Text
  pub queue_receipt : Option ReceiptLink
  pub grant_nonce : Text
  pub active_ledger_fence : ℕ
  pub active_ledger_rv : Text
  pub allocated_worker_slots : ℕ

pub record PodCreateIntent : Type 0 where
  pub build : PinnedBuild
  pub grant_receipt : ReceiptLink
  pub pod_name : Text
  pub pod_attempt_nonce : Text
  pub pod_template_digest : Text
  pub runner_image_digest : Text
  pub build_request_id : Text

pub record EffectWitness : Type 0 where
  pub kind : Text
  pub receipt_name : Text
  pub receipt_uid : Text
  pub resource_version : Text
  pub data_digest : Text

pub record Payloads : Type 0 where
  pub base : Externals
  pub marshal_grant : GrantIntent → Text
  pub marshal_pod_create : PodCreateIntent → Text
  pub has_blank : Text → Bool

abbrev pub grant_prefix : Text
grant_prefix = text "kova-grant-intent-"

abbrev pub pod_prefix : Text
pod_prefix = text "kova-pod-create-intent-"

abbrev pub queue_prefix : Text
queue_prefix = text "kova-admission-intent-"

abbrev pub effect_label : Text
effect_label = text "kova.cofy.dev/recovery-receipt"

abbrev pub grant_kind : Text
grant_kind = text "grant"

abbrev pub pod_kind : Text
pod_kind = text "pod-create"

unfoldable pub safe_effect_id : Payloads → Text → ℕ → Bool
safe_effect_id p value max =
    not (is_empty value)
    && leb (length value) max
    && p.base.is_utf8 value
    && not (p.has_blank value)

unfoldable pub pinned_build_ok : Payloads → PinnedBuild → Bool
pinned_build_ok p b =
    p.base.is_dns_label b.namespace
    && p.base.is_dns_label b.receipt_namespace
    && not (text_eq b.receipt_namespace b.namespace)
    && opaque_uid p.base b.receipt_namespace_uid
    && p.base.is_dns_subdomain b.genesis_name
    && p.base.is_dns_subdomain b.build_name
    && opaque_uid p.base b.namespace_uid
    && opaque_uid p.base b.genesis_uid
    && opaque_uid p.base b.active_ledger_uid
    && opaque_uid p.base b.queue_ledger_uid
    && opaque_uid p.base b.build_uid
    && valid_lower_hex b.generation 32
    && valid_lower_hex b.requester_hash 64
    && valid_lower_hex b.request_digest 64
    && not (is_empty b.requester_name)
    && p.base.is_utf8 b.requester_name
    && leb (p.base.rune_count b.requester_name) 253
    && p.base.is_utf8 b.requester_uid
    && leb (p.base.rune_count b.requester_uid) 253
    && valid_digest b.source_digest
    && safe_effect_id p b.worker_pool_id 128
    && text_eq (p.base.sha256_hex b.requester_name) b.requester_hash

unfoldable pub link_valid : Payloads → Text → ReceiptLink → Bool
link_valid p prefix l =
    has_prefix l.name prefix
    && valid_lower_hex (trim_prefix l.name prefix) 32
    && opaque_uid p.base l.uid
    && valid_digest l.data_digest

-- `queued` has a receipt of the queue and `direct` has none.
unfoldable pub mode_ok : Payloads → Text → Option ReceiptLink → Bool
mode_ok p mode none = not (text_eq mode (text "queued")) && text_eq mode (text "direct")
mode_ok p mode (some l) = text_eq mode (text "queued") && link_valid p queue_prefix l

-- `boundedEffect`, and the bound of `effectData`.
abbrev pub bounded_effect : Text → Bool
bounded_effect raw = leb (length raw) max_effect_bytes

unfoldable pub grant_valid : Payloads → GrantIntent → Bool
grant_valid p g =
    pinned_build_ok p g.build
    && valid_lower_hex g.grant_nonce 32
    && not (g.active_ledger_fence == 0)
    && safe_effect_id p g.active_ledger_rv 256
    && leb 1 g.allocated_worker_slots
    && leb g.allocated_worker_slots 65535
    && mode_ok p g.admission_mode g.queue_receipt
    && bounded_effect (p.marshal_grant g)

unfoldable pub pod_create_valid : Payloads → PodCreateIntent → Bool
pod_create_valid p c =
    pinned_build_ok p c.build
    && link_valid p grant_prefix c.grant_receipt
    && p.base.is_dns_subdomain c.pod_name
    && valid_lower_hex c.pod_attempt_nonce 32
    && valid_digest c.pod_template_digest
    && valid_digest c.runner_image_digest
    && text_eq c.build_request_id c.build.build_uid
    && bounded_effect (p.marshal_pod_create c)

unfoldable pub effect_data : Text → Text → Dict Text
effect_data kind raw = (text "version", text "1") ∷ (text "kind", kind) ∷ (text "payload", raw) ∷ []

unfoldable pub new_effect_config_map : Text → Text → Text → Text → ConfigMap
new_effect_config_map ns name kind raw = record {
  meta = record {
    namespace = ns;
    name = name;
    uid = [];
    resource_version = [];
    labels = (effect_label, kind) ∷ [];
    annotations = [];
    finalizers = [];
    owners = [];
    deleting = false;
    created = 0;
  };
  immutable = some true;
  contents = effect_data kind raw;
  binary = [];
}

unfoldable pub new_grant_config_map : Payloads → GrantIntent → Result ConfigMap
new_grant_config_map p g =
    if grant_valid p g
    then ok (
        new_effect_config_map g.build.receipt_namespace (grant_prefix ++ g.grant_nonce) grant_kind
          (p.marshal_grant g))
    else err Error.receipt_invalid

unfoldable pub new_pod_create_config_map : Payloads → PodCreateIntent → Result ConfigMap
new_pod_create_config_map p c =
    if pod_create_valid p c
    then ok (
        new_effect_config_map c.build.receipt_namespace (pod_prefix ++ c.pod_attempt_nonce) pod_kind
          (p.marshal_pod_create c))
    else err Error.receipt_invalid

-- The object observed is the expected one: its place, its immutability, and all of its data.
unfoldable pub same_effect : Payloads → ConfigMap → ConfigMap → Text → Bool
same_effect p expected observed kind =
    text_eq observed.namespace expected.namespace
    && text_eq observed.name expected.name
    && opaque_uid p.base observed.uid
    && not (is_empty observed.resource_version)
    && not observed.deleting
    && is_immutable observed
    && is_nil observed.owners
    && is_nil observed.binary
    && length observed.contents == length expected.contents
    && length observed.labels == 1
    && text_eq (value_of effect_label observed.labels) kind
    && has_pairs expected.contents observed.contents

unfoldable pub qualify_effect : Payloads → ConfigMap → ConfigMap → Text → Result EffectWitness
qualify_effect p expected observed kind =
    if same_effect p expected observed kind
    then (elim (digest_data p.base observed.contents) [
      | err e ↦ err e
      | ok digest ↦ ok (record {
        kind = kind;
        receipt_name = observed.name;
        receipt_uid = observed.uid;
        resource_version = observed.resource_version;
        data_digest = digest;
      })
    ])
    else err Error.receipt_changed

unfoldable pub qualify_grant : Payloads → GrantIntent → ConfigMap → Result EffectWitness
qualify_grant p g observed = elim (new_grant_config_map p g) [
  | err e ↦ err e
  | ok expected ↦ qualify_effect p expected observed grant_kind
]

unfoldable pub qualify_pod_create : Payloads → PodCreateIntent → ConfigMap → Result EffectWitness
qualify_pod_create p c observed = elim (new_pod_create_config_map p c) [
  | err e ↦ err e
  | ok expected ↦ qualify_effect p expected observed pod_kind
]

-- The tests of `recordEffectOnce` on the response of the Create and on the readback.
unfoldable pub judge_create :
    Payloads
    → ConfigMap
    → Text
    → Option ConfigMap
    → Option Error
    → EffectWitness
    → Result EffectWitness
judge_create p expected kind none none observed = err Error.receipt_unconfirmed
judge_create p expected kind none (some e) observed =
    if is_rejection e then err Error.receipt_unconfirmed else ok observed
judge_create p expected kind (some created) e observed =
    elim (qualify_effect p expected created kind) [
      | err failure ↦ err Error.receipt_changed
      | ok w ↦
          if text_eq w.receipt_uid observed.receipt_uid
          then if rejected e then err Error.receipt_unconfirmed else ok observed
          else err Error.receipt_changed
    ]

-- The client is of the receipt namespace, which the expected object names.
unfoldable pub record_effect_once : Payloads → Bool → ConfigMap → Text → M EffectWitness
record_effect_once p has_api expected kind =
    require has_api Error.receipt_invalid
    >> call (Request.create_receipt expected) λ made.
      attempt (get_config_map expected.namespace expected.name) λ r. elim r [
        | err e ↦ fail Error.receipt_unconfirmed
        | ok readback ↦ (elim (qualify_effect p expected readback kind) [
          | err e ↦ fail e
          | ok observed ↦ from_result (judge_create p expected kind made.0 made.1 observed)
        ])
      ]

unfoldable pub observe_effect : Payloads → Bool → ConfigMap → Text → M EffectWitness
observe_effect p has_api expected kind =
    require has_api Error.receipt_invalid
    >> attempt (get_config_map expected.namespace expected.name) λ r. elim r [
      | err e ↦ fail Error.receipt_unconfirmed
      | ok readback ↦ from_result (qualify_effect p expected readback kind)
    ]

unfoldable pub record_grant_once : Payloads → Bool → GrantIntent → M EffectWitness
record_grant_once p has_api g = elim (new_grant_config_map p g) [
  | err e ↦ fail e
  | ok expected ↦ record_effect_once p has_api expected grant_kind
]

unfoldable pub record_pod_create_once : Payloads → Bool → PodCreateIntent → M EffectWitness
record_pod_create_once p has_api c = elim (new_pod_create_config_map p c) [
  | err e ↦ fail e
  | ok expected ↦ record_effect_once p has_api expected pod_kind
]

unfoldable pub observe_grant : Payloads → Bool → GrantIntent → M EffectWitness
observe_grant p has_api g = elim (new_grant_config_map p g) [
  | err e ↦ fail e
  | ok expected ↦ observe_effect p has_api expected grant_kind
]

unfoldable pub observe_pod_create : Payloads → Bool → PodCreateIntent → M EffectWitness
observe_pod_create p has_api c = elim (new_pod_create_config_map p c) [
  | err e ↦ fail e
  | ok expected ↦ observe_effect p has_api expected pod_kind
]
