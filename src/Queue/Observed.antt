-- ===== src/Queue/Observed.antt =====
-- The reads of the queue ledger inside an observation (internal/service/queueadmission/ledger.go, the
-- functions with an admissiongenesis.Observation): the pair of ledgers is checked when the observation
-- begins and ends, and each read asks the context of the observation first. The observation is live
-- and of the store's own guard, and no other context is given: its assertions hold.
use kova.Base.{not, ◌&&◌, Option, none, some, if◌then◌else◌, is_some}
use kova.Base.Text.{Text, text_eq, is_empty}
use kova.Base.Dict.{lookup}
use kova.Api.{KovaBuild}
use kova.Effects.{
  Error, ok, err, ConfigMap, M, pure, fail, attempt, from_result, require, ◌>>=◌, ◌>>◌,
  get_config_map, read_namespace, is_not_found, observed_read,
}
use kova.Queue.{Intent, State, Externals, ledger_name, digest_build, intent_annotation}
use kova.Queue.Store.{Store, decode_ledger, identity_of}
use kova.Queue.Receipt.{
  receipt_namespace_of, qualify_namespace, annotated_link, receipt_intent, new_queue_config_map,
  qualify_queue,
}
use kova.Queue.Release.{note_of, matches_build}

unfoldable pub read_observed : Externals → Store → M (ConfigMap × State)
read_observed x s = do
  require (is_some s.genesis && s.has_reader) Error.failed
  cm ←
      observed_read
        (get_config_map s.namespace ledger_name >>= λ cm. from_result (identity_of s cm) >> pure cm)
  st ← from_result (decode_ledger x s cm)
  pure (cm, st)

unfoldable pub lookup_observed : Externals → Store → Text → M (Option Intent)
lookup_observed x s id = read_observed x s >>= λ v. pure (lookup id v.1.intents)

unfoldable pub check_receipt_namespace_observed : Store → M (Unit {0})
check_receipt_namespace_observed s = elim s.genesis [
  | none ↦ fail Error.drift
  | some g ↦
      require g.has_api Error.drift >> observed_read (read_namespace g.receipt_namespace) >>= λ ns.
      require (qualify_namespace g ns) Error.drift
]

unfoldable pub observe_pinned_receipt_observed :
    Externals → Store → KovaBuild → Intent → M (Unit {0})
observe_pinned_receipt_observed x s b e = do
  check_receipt_namespace_observed s
  require
      (not (is_empty e.receipt_uid)
        && not (is_empty e.receipt_digest)
        && is_empty e.cleanup_kind
        && annotated_link b e)
      Error.drift
  intent ← from_result (receipt_intent x s b e)
  expected ← from_result (new_queue_config_map x intent)
  attempt (observed_read (get_config_map (receipt_namespace_of s) expected.name)) λ r. elim r [
    | err failure ↦ fail Error.drift
    | ok observed ↦ (elim (qualify_queue x intent observed) [
      | err failure ↦ fail Error.drift
      | ok w ↦
          require (text_eq w.receipt_uid e.receipt_uid && text_eq w.data_digest e.receipt_digest)
            Error.drift
    ])
  ]

-- The receipt of a verified intent, in the observation.
abbrev pub qualify_observed : Externals → Store → KovaBuild → Intent → M (Unit {0})
qualify_observed x s b e = elim s.genesis [
  | none ↦ pure tt
  | some g ↦ observe_pinned_receipt_observed x s b e
]

unfoldable pub verify_observed : Externals → Store → KovaBuild → M (Option Intent)
verify_observed x s b =
    if is_empty (note_of intent_annotation b)
    then (elim s.genesis [
      | none ↦ fail Error.failed
      | some g ↦ read_observed x s >>= λ u. pure none
    ])
    else attempt (lookup_observed x s b.name) λ r. elim r [
      | err failure ↦ if is_not_found failure then fail Error.drift else fail failure
      | ok none ↦ fail Error.drift
      | ok (some e) ↦
          require (matches_build x b e) Error.drift >> from_result (digest_build x b) >>= λ digest.
          require (text_eq e.request_digest digest) Error.drift >> qualify_observed x s b e >>= λ u.
          pure (some e)
    ]
