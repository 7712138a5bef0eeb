-- ===== src/Queue/Receipt/Cleanup.antt =====
-- Recording the cleanup of a receipt and deleting it (internal/service/queueadmission/ledger.go, from
-- markReceiptCleanupReady to terminalOrDeleting).
use kova.Base.{ℕ, zero, suc, Bool, false, not, ◌&&◌, ◌||◌, ◌++◌, none, some, if◌then◌else◌, is_some}
use kova.Base.Text.{Text, text, text_eq, is_empty}
use kova.Base.Dict.{lookup, insert}
use kova.Api.{KovaBuild}
use kova.Effects.{
  Error, Result, ok, err, ConfigMap, M, pure, fail, attempt, require, ◌>>=◌, ◌>>◌, get_config_map,
  delete_config_map, check_guard, is_not_found,
}
use kova.Admission.{is_terminal_phase}
use kova.Queue.{
  Intent, Externals, max_cas_attempts, valid_receipt_uid, cleanup_rejected, cleanup_terminal,
}
use kova.Queue.Store.{Store, read, lookup_intent, cas_write, with_intents, is_nil}
use kova.Queue.Receipt.Data.{is_immutable, digest_data}
use kova.Queue.Receipt.Pins.{
  receipt_namespace_of, check_receipt_namespace, same_reservation, recovered,
}

abbrev pub is_cleanup_kind : Text → Bool
is_cleanup_kind kind = text_eq kind cleanup_rejected || text_eq kind cleanup_terminal

unfoldable pub mark_loop : Externals → Store → Text → Intent → Text → ℕ → M (Unit {0})
mark_loop x s id expected kind zero = fail Error.busy
mark_loop x s id expected kind (suc left) = read x s >>= λ v. elim (lookup id v.1.intents) [
  | none ↦ fail Error.drift
  | some e ↦
      if same_reservation e expected
        && text_eq e.receipt_uid expected.receipt_uid
        && text_eq e.receipt_digest expected.receipt_digest
        && not (is_empty e.receipt_uid)
      then if text_eq e.cleanup_kind kind
        then pure tt
        else if is_empty e.cleanup_kind
        then cas_write x s v.0
            (with_intents v.1 (insert id (record e { cleanup_kind = kind }) v.1.intents)) left
            (mark_loop x s id expected kind left)
            (λ failure.
              attempt (lookup_intent x s id)
                λ r. if recovered e kind r then pure tt else fail failure)
            (pure tt)
        else fail Error.drift
      else fail Error.drift
]

unfoldable pub mark_receipt_cleanup_ready : Externals → Store → Text → Intent → Text → M (Unit {0})
mark_receipt_cleanup_ready x s id expected kind =
    require (is_cleanup_kind kind) Error.drift >> mark_loop x s id expected kind max_cas_attempts

abbrev pub nonce_receipt_name : Text → Text
nonce_receipt_name nonce = text "kova-admission-intent-" ++ nonce

-- The receipt found is the pinned one, immutable and unowned.
unfoldable pub deletable : Externals → Store → Intent → ConfigMap → Bool
deletable x s e cm =
    (elim (digest_data x cm.contents) [
      | err failure ↦ false
      | ok digest ↦ text_eq digest e.receipt_digest
    ])
    && text_eq cm.name (nonce_receipt_name e.nonce)
    && text_eq cm.namespace (receipt_namespace_of s)
    && text_eq cm.uid e.receipt_uid
    && is_immutable cm
    && not cm.deleting
    && is_nil cm.owners
    && is_nil cm.binary

-- The readback after the deletion.
unfoldable pub confirm_deleted : Store → Text → Text → Result (Unit {0}) → M (Unit {0})
confirm_deleted s name uid deleted = attempt (get_config_map (receipt_namespace_of s) name) λ r.
    elim r [
      | err failure ↦ if is_not_found failure then check_guard else fail failure
      | ok after ↦
          if text_eq after.uid uid
          then (elim deleted [ err failure ↦ fail failure | ok u ↦ fail Error.failed ])
          else fail Error.drift
    ]

unfoldable pub delete_pinned_receipt : Externals → Store → Intent → M (Unit {0})
delete_pinned_receipt x s e = do
  require (is_some s.genesis && not (is_empty e.cleanup_kind) && valid_receipt_uid e.receipt_uid)
      Error.drift
  check_receipt_namespace s
  attempt (get_config_map (receipt_namespace_of s) (nonce_receipt_name e.nonce)) λ r. elim r [
    | err failure ↦ if is_not_found failure then check_guard else fail failure
    | ok cm ↦
        require (deletable x s e cm) Error.drift
        >> check_guard
        >> attempt (delete_config_map (receipt_namespace_of s) (nonce_receipt_name e.nonce) cm.uid)
            λ deleted. confirm_deleted s (nonce_receipt_name e.nonce) cm.uid deleted
  ]

unfoldable pub terminal_or_deleting : KovaBuild → Bool
terminal_or_deleting b = b.deleting || is_terminal_phase b.phase
