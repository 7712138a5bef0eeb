-- ===== src/Queue/Safety/Deleting.antt =====
-- What `deletePinnedReceipt` and `markReceiptSettled` (internal/service/queueadmission/ledger.go)
-- change and what their success means.
use kova.Base.{
  ℕ, zero, suc, ◌≡◌, refl, ◌∙◌, true, not, ◌&&◌, ◌∷◌, arith, ap, if◌then◌else◌, is_some, In, here,
  there,
}
use kova.Base.Text.{Text, text_eq, is_empty}
use kova.Api.{KovaBuild}
use kova.Effects.{
  Error, Result, ok, err, ConfigMap, Request, M, fail, require, attempt, ◌>>◌, check_guard,
  is_not_found, read_build, write_build,
}
use kova.Effects.Errors.{is_not_found-eq}
use kova.Effects.Traces.{
  History, event, Always, Outcome, Any, Later, passed, seq, checked, by_result, by_test,
}
use kova.Queue.{Intent, Externals, valid_receipt_uid, max_cas_attempts, receipt_settled_annotation}
use kova.Queue.Store.{Store, wait_cas, retry_of}
use kova.Queue.Receipt.{
  check_receipt_namespace, receipt_namespace_of, nonce_receipt_name, deletable, confirm_deleted,
  delete_pinned_receipt,
}
use kova.Queue.Release.{
  settles, settled_copy, settled_seen, unseen, write_conflicts, settle_loop, mark_receipt_settled,
  note_of,
}
use kova.Queue.Evidence.{Act, Scope, Safe, Marked, Marked-Later, ReceiptGone, SettledBuild}
use kova.Queue.Safety.{wait_cas-Safe}
use kova.Queue.Safety.Reads.{check_guard-Safe, check_receipt_namespace-Safe}

-- The change is the deletion of the receipt of this entry.
abbrev pub Deletion : Intent → Scope
Deletion e a = a ≡ Act.deletes e

-- The change is to mark this build with the receipt of this entry.
abbrev pub Settling : KovaBuild → Intent → Scope
Settling b e a = a ≡ Act.settles_build b e

module _ (x : Externals) (s : Store) (K : Scope) where
  -- A read of the receipt that must fail with NotFound; the pair of ledgers is checked after it.
  pub gone_after :
      (h : History) (nonce : Text) (r : Result ConfigMap) (m : ConfigMap → M (Unit {0}))
      → In (event (Request.get_config (receipt_namespace_of s) (nonce_receipt_name nonce)) r) h
      → ((cm : ConfigMap)
          → r ≡ ok cm
          → Always (Safe x s K) (Outcome (λ g u. ReceiptGone x s g nonce) Any) h (m cm))
      → Always (Safe x s K) (Outcome (λ g u. ReceiptGone x s g nonce) Any) h (elim r [
        | err failure ↦ if is_not_found failure then check_guard else fail failure
        | ok cm ↦ m cm
      ])
  gone_after h nonce r m i k =
      by_result (Safe x s K) (Outcome (λ g u. ReceiptGone x s g nonce) Any) h r _ _ k (λ failure f.
        by_test (Safe x s K) (Outcome (λ g u. ReceiptGone x s g nonce) Any) h (is_not_found failure)
          _ _
          (λ n.
            check_guard-Safe x s K (λ g u. ReceiptGone x s g nonce) h
              (λ g l. l _ (rw (← (f ∙ ap err (is_not_found-eq failure n))) i)))
          (λ n. tt))

  confirm_deleted-Safe :
      (h : History) (nonce uid : Text) (deleted : Result (Unit {0}))
      → Always
          (Safe x s K)
          (Outcome (λ g u. ReceiptGone x s g nonce) Any)
          h
          (confirm_deleted s (nonce_receipt_name nonce) uid deleted)
  unfolding confirm_deleted
  confirm_deleted-Safe h nonce uid deleted = (
    tt,
    λ r. gone_after _ nonce r _ here (λ cm q.
        by_test (Safe x s K) (Outcome (λ g u. ReceiptGone x s g nonce) Any) _ (text_eq cm.uid uid) _
          _
          (λ same.
            by_result (Safe x s K) (Outcome (λ g u. ReceiptGone x s g nonce) Any) _ deleted _ _
              (λ u d. tt) (λ f d. tt))
          (λ other. tt)),
  )

module _ (x : Externals) (s : Store) where
  -- The receipt was read after `h` and is the pinned one.
  abbrev Qualified : History → Intent → ConfigMap → History → Type 0
  Qualified h e cm g =
      Later h g
      × In
          (event (Request.get_config (receipt_namespace_of s) (nonce_receipt_name e.nonce)) (ok cm))
          g
      × (deletable x s e cm ≡ true)

  -- For an entry whose cleanup the ledger has recorded: the only change is the deletion, limited
  -- to its UID, of the receipt of this entry, which was read and is the pinned one, and success
  -- means that the API server answered that the receipt does not exist.
  pub delete_pinned_receipt-Safe :
      (h : History) (id : Text) (e : Intent)
      → Marked x s id e e.cleanup_kind h
      → Always
          (Safe x s (Deletion e))
          (Outcome (λ g u. ReceiptGone x s g e.nonce) Any)
          h
          (delete_pinned_receipt x s e)
  unfolding delete_pinned_receipt
  delete_pinned_receipt-Safe h id e m =
      checked (Safe x s (Deletion e)) (λ g u. ReceiptGone x s g e.nonce) h
        (is_some s.genesis && not (is_empty e.cleanup_kind) && valid_receipt_uid e.receipt_uid)
        Error.drift _
        (λ ready.
          seq (Safe x s (Deletion e)) (λ g u. Later h g) (λ g u. ReceiptGone x s g e.nonce) h
            (check_receipt_namespace s) _
            (check_receipt_namespace-Safe x s (Deletion e) (λ g u. Later h g) h (λ g l. l))
            (λ g u l o. (
              tt,
              λ r. gone_after x s (Deletion e) _ e.nonce r _ here (λ cm q.
                  seq (Safe x s (Deletion e)) (λ g' u. Qualified g e cm g')
                    (λ g' u. ReceiptGone x s g' e.nonce) _
                    (require (deletable x s e cm) Error.drift >> check_guard) _
                    (checked (Safe x s (Deletion e)) (λ g' u. Qualified g e cm g') _
                      (deletable x s e cm) Error.drift (λ u. check_guard)
                      (λ d.
                        check_guard-Safe x s (Deletion e) (λ g' u. Qualified g e cm g') _
                          (λ g' l'. ((λ ev i. l' ev (there i)), l' _ (rw (← q) here), d))))
                    (λ g' u l' (l'', i, d). (
                      (
                        record {
                          id = id;
                          entry = e;
                          receipt = cm;
                          recorded =
                              Marked-Later x s h g' id e e.cleanup_kind (λ ev j. l'' ev (o ev j)) m;
                          cleanup = ground arith;
                          found = i;
                          pinned = d;
                          its_name = refl;
                          its_uid = refl;
                        },
                        refl,
                      ),
                      λ deleted. confirm_deleted-Safe x s (Deletion e) _ e.nonce cm.uid deleted,
                    ))),
            )))

  -- The build of this name and UID was read with the settled mark of the entry's receipt.
  pub record SettledOwn (b : KovaBuild) (e : Intent) (h : History) : Type 0 where
    pub build : KovaBuild
    pub got : In (event (Request.get_build b.namespace b.name) (ok build)) h
    pub same_build : text_eq build.uid b.uid ≡ true
    pub mark : text_eq (note_of receipt_settled_annotation build) e.receipt_uid ≡ true

  pub SettledOwn-Build :
      (h : History) (b : KovaBuild) (e : Intent)
      → SettledOwn b e h
      → SettledBuild x s h e.receipt_uid
  SettledOwn-Build h b e w = record {
    namespace = b.namespace;
    name = b.name;
    build = w.build;
    got = w.got;
    mark = w.mark;
  }

  SettledOwn-Later :
      (h g : History) (b : KovaBuild) (e : Intent) → Later h g → SettledOwn b e h → SettledOwn b e g
  SettledOwn-Later h g b e l w = record {
    build = w.build;
    got = l _ w.got;
    same_build = w.same_build;
    mark = w.mark;
  }

  seen_mark :
      (h : History) (b : KovaBuild) (e : Intent) (r : Result KovaBuild)
      → In (event (Request.get_build b.namespace b.name) r) h
      → settled_seen b e r ≡ true
      → SettledOwn b e h
  seen_mark h b e (ok o) i q = record {
    build = o;
    got = i;
    same_build = ground arith;
    mark = ground arith;
  }
  seen_mark h b e (err f) i q = absurd (ground arith)

  settle_loop-Safe :
      (h : History) (b : KovaBuild) (e : Intent) (left : ℕ)
      → ReceiptGone x s h e.nonce
      → Always
          (Safe x s (Settling b e))
          (Outcome (λ g u. SettledOwn b e g) Any)
          h
          (settle_loop s b e left)
  unfolding settle_loop
  settle_loop-Safe h b e zero z = tt
  settle_loop-Safe h b e (suc left) z = (
    tt,
    λ r.
        passed (Safe x s (Settling b e)) (λ g u. SettledOwn b e g) _ r _
          (λ current q.
            by_test (Safe x s (Settling b e)) (Outcome (λ g u. SettledOwn b e g) Any) _
              (settles current b e) _ _
              (λ ended.
                by_test (Safe x s (Settling b e)) (Outcome (λ g u. SettledOwn b e g) Any) _
                  (text_eq (note_of receipt_settled_annotation current) e.receipt_uid) _ _
                  (λ done. record {
                    build = current;
                    got = rw (← q) here;
                    same_build = unfold settles in ground arith;
                    mark = done;
                  })
                  (λ n.
                    by_test (Safe x s (Settling b e)) (Outcome (λ g u. SettledOwn b e g) Any) _
                      (is_empty (note_of receipt_settled_annotation current)) _ _
                      (λ unmarked.
                        write_mark (λ g l. settle_loop-Safe g b e left (l _ z))
                          (event (Request.get_build b.namespace b.name) r ∷ h) current
                          (λ ev i. there i) (rw (← q) here) ended unmarked)
                      (λ f. tt)))
              (λ f. tt)),
  )
    where
      write_mark :
          ((g : History)
            → Later h g
            → Always
                (Safe x s (Settling b e))
                (Outcome (λ g' u. SettledOwn b e g') Any)
                g
                (settle_loop s b e left))
          → (g : History) (current : KovaBuild) → Later h g
          → In (event (Request.get_build b.namespace b.name) (ok current)) g
          → settles current b e ≡ true
          → is_empty (note_of receipt_settled_annotation current) ≡ true
          → Always (Safe x s (Settling b e)) (Outcome (λ g' u. SettledOwn b e g') Any) g (
              check_guard
              >> attempt (write_build (settled_copy current e.receipt_uid)) λ written.
                attempt (read_build b.namespace b.name) λ r.
                  if settled_seen b e r
                  then check_guard
                  else if write_conflicts written
                  then (wait_cas (retry_of left) >> settle_loop s b e left)
                  else unseen written r)
      write_mark again g current l i ended unmarked =
          seq (Safe x s (Settling b e)) (λ g' u. Later g g') (λ g' u. SettledOwn b e g') g
            check_guard _ (check_guard-Safe x s (Settling b e) (λ g' u. Later g g') g (λ g' l'. l'))
            (λ g' u l' o. (
              (
                record {
                  current = current;
                  build = b;
                  entry = e;
                  found = l' _ i;
                  ended = ended;
                  unmarked = unmarked;
                  only_mark = refl;
                  gone = l' _ (l _ z);
                },
                refl,
              ),
              λ written. (
                tt,
                λ r.
                    by_test (Safe x s (Settling b e)) (Outcome (λ g' u. SettledOwn b e g') Any) _
                      (settled_seen b e r) _ _
                      (λ q.
                        check_guard-Safe x s (Settling b e) (λ g' u. SettledOwn b e g') _
                          (λ g'' k. SettledOwn-Later _ g'' b e k (seen_mark _ b e r here q)))
                      (λ n.
                        by_test (Safe x s (Settling b e)) (Outcome (λ g' u. SettledOwn b e g') Any)
                          _ (write_conflicts written) _ _
                          (λ c.
                            wait_cas-Safe x s (Settling b e) (λ g' u. SettledOwn b e g') _
                              (retry_of left) (settle_loop s b e left)
                              (λ g'' k. again g'' (λ ev j. k ev (there (there (l' ev (l ev j)))))))
                          (λ c. no_mark _ written r)),
              ),
            ))
        where
          no_mark :
              (g : History) (w : Result (Unit {0})) (r : Result KovaBuild)
              → Always
                  (Safe x s (Settling b e))
                  (Outcome (λ g' u. SettledOwn b e g') Any)
                  g
                  (unseen w r)
          no_mark g (err f) r = tt
          no_mark g (ok u) (err f) = tt
          no_mark g (ok u) (ok o) = tt

  -- Once the receipt is gone: the only change is to add the settled mark of this entry to this
  -- build, which was read with the same UID, is finished or going and has the intent and link of
  -- the entry, and success means that the build of this name and UID was read with the mark.
  pub mark_receipt_settled-Safe :
      (h : History) (b : KovaBuild) (e : Intent)
      → ReceiptGone x s h e.nonce
      → Always
          (Safe x s (Settling b e))
          (Outcome (λ g u. SettledOwn b e g) Any)
          h
          (mark_receipt_settled s b e)
  unfolding mark_receipt_settled
  mark_receipt_settled-Safe h b e z = settle_loop-Safe h b e max_cas_attempts z
