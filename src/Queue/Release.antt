-- ===== src/Queue/Release.antt =====
-- Verifying and releasing queue intents (internal/service/queueadmission/ledger.go, from
-- markReceiptSettled to releaseRejected).
--
-- A build is never nil here. `s.Client` is always set.
use kova.Base.{
  ℕ, zero, suc, Bool, true, false, not, ◌&&◌, Option, none, some, if◌then◌else◌, is_some,
}
use kova.Base.Text.{Text, text_eq, is_empty}
use kova.Base.Dict.{lookup, insert, erase}
use kova.Api.{KovaBuild, value_of}
use kova.Effects.{
  Error, Result, ok, err, M, pure, fail, attempt, from_result, require, ◌>>=◌, ◌>>◌, get_config_map,
  read_build, write_build, check_guard, is_not_found, is_conflict,
}
use kova.Queue.{
  Intent, Externals, max_cas_attempts, hash_requester, digest_build, intent_annotation,
  receipt_uid_annotation, receipt_settled_annotation, cleanup_rejected, cleanup_terminal,
}
use kova.Queue.Store.{
  Store, read, check_ready, lookup_intent, cas_write, with_intents, wait_cas, retry_of,
}
use kova.Queue.Receipt.{
  ObservedQueueIntent, check_receipt_namespace, observe_pinned_receipt, mark_receipt_cleanup_ready,
  delete_pinned_receipt, receipt_namespace_of, nonce_receipt_name, terminal_or_deleting,
  annotated_link,
}

abbrev pub note_of : Text → KovaBuild → Text
note_of key b = value_of key b.annotations

-- The CR still is the build, finished or going, with the entry's intent and link.
unfoldable pub settles : KovaBuild → KovaBuild → Intent → Bool
settles current b e =
    not (is_empty current.uid)
    && text_eq current.uid b.uid
    && terminal_or_deleting current
    && text_eq (note_of intent_annotation current) e.nonce
    && annotated_link current e

abbrev pub settled_copy : KovaBuild → Text → KovaBuild
settled_copy b uid = record b {
  meta = record meta { annotations = insert receipt_settled_annotation uid annotations };
}
  where
    open b use {meta, annotations}

-- The readback sees the mark on the same build.
abbrev pub settled_seen : KovaBuild → Intent → Result KovaBuild → Bool
settled_seen b e (err failure) = false
settled_seen b e (ok o) =
    text_eq o.uid b.uid && text_eq (note_of receipt_settled_annotation o) e.receipt_uid

-- What is left of `markReceiptSettled` when the mark is not seen.
abbrev pub unseen : Result (Unit {0}) → Result KovaBuild → M (Unit {0})
unseen (err w) r = fail w
unseen (ok u) (err failure) = fail failure
unseen (ok u) (ok o) = fail Error.drift

abbrev pub write_conflicts : Result (Unit {0}) → Bool
write_conflicts (ok u) = false
write_conflicts (err e) = is_conflict e

unfoldable pub settle_loop : Store → KovaBuild → Intent → ℕ → M (Unit {0})
settle_loop s b e zero = fail Error.busy
settle_loop s b e (suc left) = read_build b.namespace b.name >>= λ current.
    if settles current b e
    then if text_eq (note_of receipt_settled_annotation current) e.receipt_uid
      then pure tt
      else if is_empty (note_of receipt_settled_annotation current)
      then (check_guard
          >> attempt (write_build (settled_copy current e.receipt_uid)) λ written.
            attempt (read_build b.namespace b.name) λ r.
              if settled_seen b e r
              then check_guard
              else if write_conflicts written
              then (wait_cas (retry_of left) >> settle_loop s b e left)
              else unseen written r)
      else fail Error.drift
    else fail Error.drift

unfoldable pub mark_receipt_settled : Store → KovaBuild → Intent → M (Unit {0})
mark_receipt_settled s b e = settle_loop s b e max_cas_attempts

-- The intent belongs to the build's nonce and requester.
unfoldable pub matches_build : Externals → KovaBuild → Intent → Bool
matches_build x b e =
    text_eq e.nonce (note_of intent_annotation b)
    && text_eq e.requester_hash (hash_requester x b.spec.requester.username)

-- The receipt of a verified intent is observed, if there is a Genesis.
abbrev pub qualify_receipt : Externals → Store → KovaBuild → Intent → M (Unit {0})
qualify_receipt x s b e = elim s.genesis [
  | none ↦ pure tt
  | some g ↦ observe_pinned_receipt x s b e
]

-- `VerifyForBuildSnapshot`: the qualified intent, or none for a build without one.
unfoldable pub verify_for_build : Externals → Store → KovaBuild → M (Option Intent)
verify_for_build x s b =
    if is_empty (note_of intent_annotation b)
    then (elim s.genesis [ none ↦ pure none | some g ↦ check_ready x s >>= λ u. pure none ])
    else attempt (lookup_intent x s b.name) λ r. elim r [
      | err failure ↦ if is_not_found failure then fail Error.drift else fail failure
      | ok none ↦ fail Error.drift
      | ok (some e) ↦
          require (matches_build x b e) Error.drift >> from_result (digest_build x b) >>= λ digest.
          require (text_eq e.request_digest digest) Error.drift >> qualify_receipt x s b e >>= λ u.
          pure (some e)
    ]

-- `readErr == nil && !found`
abbrev pub seen_gone : Result (Option Intent) → Bool
seen_gone (ok none) = true
seen_gone (ok (some e)) = false
seen_gone (err failure) = false

-- A removal with no clear answer counts if a read sees the entry gone.
unfoldable pub recover_release : Externals → Store → Text → Error → M (Unit {0})
recover_release x s id failure =
    attempt (lookup_intent x s id) λ r. if seen_gone r then pure tt else fail failure

unfoldable pub release_loop : Externals → Store → KovaBuild → Text → ℕ → M (Unit {0})
release_loop x s b digest zero = fail Error.busy
release_loop x s b digest (suc left) = read x s >>= λ v. elim (lookup b.name v.1.intents) [
  | none ↦ pure tt
  | some e ↦
      if matches_build x b e && text_eq e.request_digest digest
      then cas_write x s v.0 (with_intents v.1 (erase b.name v.1.intents)) left
          (release_loop x s b digest left) (recover_release x s b.name) (pure tt)
      else fail Error.drift
]

-- The witness of an earlier cleanup, for a build whose entry is gone.
unfoldable pub was_settled : KovaBuild → KovaBuild → Bool
was_settled persisted b =
    text_eq persisted.uid b.uid
    && terminal_or_deleting persisted
    && text_eq (note_of intent_annotation persisted) (note_of intent_annotation b)
    && not (is_empty (note_of receipt_settled_annotation persisted))
    && text_eq (note_of receipt_settled_annotation persisted)
        (note_of receipt_uid_annotation persisted)

unfoldable pub confirm_settled : Store → KovaBuild → M (Unit {0})
confirm_settled s b = do
  persisted ← read_build b.namespace b.name
  require (was_settled persisted b) Error.drift
  check_receipt_namespace s
  attempt
      (get_config_map (receipt_namespace_of s) (nonce_receipt_name (note_of intent_annotation b)))
      λ r. elim r [
        | err failure ↦ if is_not_found failure then check_guard else fail failure
        | ok cm ↦ fail Error.drift
      ]

unfoldable pub receipted_loop : Externals → Store → KovaBuild → Text → ℕ → M (Unit {0})
receipted_loop x s b digest zero = fail Error.busy
receipted_loop x s b digest (suc left) = read x s >>= λ v. elim (lookup b.name v.1.intents) [
  | none ↦ confirm_settled s b
  | some e ↦
      if matches_build x b e
        && text_eq e.request_digest digest
        && not (is_empty e.receipt_uid)
        && annotated_link b e
      then if is_empty e.cleanup_kind
        then (observe_pinned_receipt x s b e
            >> mark_receipt_cleanup_ready x s b.name e cleanup_terminal
            >> receipted_loop x s b digest left)
        else if text_eq e.cleanup_kind cleanup_terminal
        then (delete_pinned_receipt x s e
            >> mark_receipt_settled s b e
            >> cas_write x s v.0 (with_intents v.1 (erase b.name v.1.intents)) left
                (receipted_loop x s b digest left) (recover_release x s b.name) (pure tt))
        else fail Error.drift
      else fail Error.drift
]

unfoldable pub release_receipted_build : Externals → Store → KovaBuild → M (Unit {0})
release_receipted_build x s b =
    require (not (is_empty b.uid) && terminal_or_deleting b) Error.drift
    >> (if is_empty (note_of intent_annotation b)
        then pure tt
        else from_result (digest_build x b) >>= λ digest.
            receipted_loop x s b digest max_cas_attempts)

unfoldable pub release_for_build : Externals → Store → KovaBuild → M (Unit {0})
release_for_build x s b = elim s.genesis [
  | some g ↦ release_receipted_build x s b
  | none ↦
      if is_empty (note_of intent_annotation b)
      then pure tt
      else from_result (digest_build x b) >>= λ digest. release_loop x s b digest max_cas_attempts
]

-- With a Genesis the cleanup of a rejected create must have been recorded.
abbrev pub rejection_recorded : Store → Intent → Bool
rejection_recorded s e = elim s.genesis [
  | none ↦ true
  | some g ↦ text_eq e.cleanup_kind cleanup_rejected && not (is_empty e.receipt_uid)
]

unfoldable pub rejected_loop : Externals → Store → Text → Text → ℕ → M (Unit {0})
rejected_loop x s id nonce zero = fail Error.busy
rejected_loop x s id nonce (suc left) = read x s >>= λ v. elim (lookup id v.1.intents) [
  | none ↦ pure tt
  | some e ↦
      if text_eq e.nonce nonce && rejection_recorded s e
      then cas_write x s v.0 (with_intents v.1 (erase id v.1.intents)) left
          (rejected_loop x s id nonce left) (recover_release x s id) (pure tt)
      else fail Error.drift
]

unfoldable pub release_rejected : Externals → Store → Text → Text → M (Unit {0})
release_rejected x s id nonce = elim s.genesis [
  | some g ↦ fail Error.drift
  | none ↦ rejected_loop x s id nonce max_cas_attempts
]

-- The entry is the reserved one with the witnessed receipt, and has no cleanup yet.
unfoldable pub witnessed : Intent → ObservedQueueIntent → Bool
witnessed e w =
    text_eq e.nonce w.intent.queue_nonce
    && text_eq e.receipt_uid w.receipt_uid
    && text_eq e.receipt_digest w.data_digest
    && is_empty e.cleanup_kind

unfoldable pub release_rejected_receipt :
    Externals → Store → KovaBuild → ObservedQueueIntent → M (Unit {0})
release_rejected_receipt x s b w =
    require (is_some s.genesis && text_eq w.intent.build_name b.name) Error.drift
    >> lookup_intent x s b.name
    >>= λ o. elim o [
      | none ↦ fail Error.drift
      | some e ↦
          (require (witnessed e w) Error.drift
            >> observe_pinned_receipt x s b e
            >> mark_receipt_cleanup_ready x s b.name e cleanup_rejected
            >> delete_pinned_receipt x s (record e { cleanup_kind = cleanup_rejected })
            >> rejected_loop x s b.name e.nonce max_cas_attempts)
    ]

unfoldable pub resume_rejected_cleanup : Externals → Store → Text → Text → M (Unit {0})
resume_rejected_cleanup x s id nonce =
    require (is_some s.genesis) Error.drift >> lookup_intent x s id >>= λ o. elim o [
      | none ↦ fail Error.drift
      | some e ↦
          (require (text_eq e.nonce nonce && text_eq e.cleanup_kind cleanup_rejected) Error.drift
            >> attempt (read_build s.namespace id) λ r. elim r [
              | ok b ↦ fail Error.drift
              | err failure ↦
                  if is_not_found failure
                  then (delete_pinned_receipt x s e >> rejected_loop x s id nonce max_cas_attempts)
                  else fail failure
            ])
    ]
