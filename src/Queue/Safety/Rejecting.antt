-- ===== src/Queue/Safety/Rejecting.antt =====
-- What `ReleaseRejected`, `ReleaseRejectedReceipt` and `ResumeRejectedCleanup`
-- (internal/service/queueadmission/ledger.go) change and what their success means.
use kova.Base.{◌≡◌, refl, sym, inl, inr, true, ◌&&◌, ◌∷◌, some, arith, subst, is_some, there}
use kova.Base.Text.{Text, text_eq, text_eq→eq, text_eq_refl}
use kova.Api.{KovaBuild}
use kova.Effects.{Error, Request, fail, require, ◌>>◌, is_not_found}
use kova.Effects.Traces.{
  History, event, Always, Outcome, Any, seq, checked, by_result, by_option, by_test, kept,
}
use kova.Queue.{Intent, Externals, max_cas_attempts, cleanup_rejected}
use kova.Queue.Store.{Store, lookup_intent}
use kova.Queue.Receipt.{
  ObservedQueueIntent, observe_pinned_receipt, mark_receipt_cleanup_ready, delete_pinned_receipt,
  link_seen,
}
use kova.Queue.Release.{
  rejected_loop, release_rejected, rejection_recorded, witnessed, release_rejected_receipt,
  resume_rejected_cleanup,
}
use kova.Queue.Evidence.{
  Seen, FoundEntry, Marked, ReceiptGone, Act, Scope, Safe, within, Seen-Later,
}
use kova.Queue.Safety.{lookup_intent-Safe}
use kova.Queue.Safety.Reads.{SeenReceipt, observe_pinned_receipt-Safe}
use kova.Queue.Safety.Marking.{Marks, mark_receipt_cleanup_ready-Safe, own_link}
use kova.Queue.Safety.Deleting.{Deletion, delete_pinned_receipt-Safe}
use kova.Queue.Safety.Removing.{ReleasesRejected, Removed, rejected_loop-Safe}

-- The changes are of the build's entry with the reserved nonce: to record the rejection, to delete
-- the witnessed receipt once it is recorded, and to remove the entry.
abbrev pub Rejects : KovaBuild → ObservedQueueIntent → Scope
Rejects b w (Act.marks id f kind) = (id ≡ b.name) × (kind ≡ cleanup_rejected)
Rejects b w (Act.deletes e) =
    (text_eq e.nonce w.intent.queue_nonce ≡ true)
    × (text_eq e.receipt_uid w.receipt_uid ≡ true)
    × (e.cleanup_kind ≡ cleanup_rejected)
Rejects b w (Act.releases id e) = (id ≡ b.name) × (text_eq e.nonce w.intent.queue_nonce ≡ true)
Rejects b w (Act.reserves id i) = ⊥
Rejects b w (Act.pins id f) = ⊥
Rejects b w (Act.settles_build c e) = ⊥

-- The changes are of the entry of the key with this nonce, whose rejection is recorded: to delete its
-- receipt and to remove it.
abbrev pub Resumes : Store → Text → Text → Scope
Resumes s id nonce (Act.deletes e) =
    (text_eq e.nonce nonce ≡ true) × (text_eq e.cleanup_kind cleanup_rejected ≡ true)
Resumes s id nonce (Act.releases j e) =
    (j ≡ id) × (text_eq e.nonce nonce ≡ true) × (rejection_recorded s e ≡ true)
Resumes s id nonce (Act.reserves j i) = ⊥
Resumes s id nonce (Act.pins j f) = ⊥
Resumes s id nonce (Act.marks j f kind) = ⊥
Resumes s id nonce (Act.settles_build b e) = ⊥

module _ (x : Externals) (s : Store) where
  -- Whatever the environment answers, the only change that ReleaseRejected asks for is the
  -- removal, over a state read in the call, of an entry with the nonce from under the key; success
  -- means that the entry was seen gone or its removal was accepted.
  pub release_rejected-Safe :
      (h : History) (id nonce : Text)
      → Always
          (Safe x s (ReleasesRejected s id nonce))
          (Outcome (λ g u. Removed x s id g) Any)
          h
          (release_rejected x s id nonce)
  unfolding release_rejected
  release_rejected-Safe h id nonce =
      by_option (Safe x s (ReleasesRejected s id nonce)) (Outcome (λ g u. Removed x s id g) Any) h
        s.genesis (rejected_loop x s id nonce max_cas_attempts) (λ g. fail Error.drift)
        (λ n. rejected_loop-Safe x s h id nonce max_cas_attempts (inl n)) (λ g q. tt)

  -- An entry that was read is recorded with its own cleanup.
  read_entry :
      (h : History) (id : Text) (e : Intent) → Seen x s h id e → Marked x s id e e.cleanup_kind h
  read_entry h id e v = (e, inl v, own_link x s e e.cleanup_kind (text_eq_refl e.cleanup_kind))

  abbrev with_cleanup : Intent → Intent
  with_cleanup e = record e { cleanup_kind = cleanup_rejected }

  Marked-entry :
      (h : History) (id : Text) (e : Intent)
      → Marked x s id e cleanup_rejected h
      → Marked x s id (with_cleanup e) cleanup_rejected h
  unfolding link_seen
  Marked-entry h id e (o, v, q) = (o, v, q)

  pub FoundEntry-Seen :
      (h : History) (id : Text) (e : Intent) → FoundEntry x s id h (some e) → Seen x s h id e
  FoundEntry-Seen h id e (cm, st, o, q) = record { base = cm; held = st; observed = o; entry = q }

  pub release_rejected_receipt-Safe :
      (h : History) (b : KovaBuild) (w : ObservedQueueIntent)
      → Always
          (Safe x s (Rejects b w))
          (Outcome (λ g u. Removed x s b.name g) Any)
          h
          (release_rejected_receipt x s b w)
  unfolding release_rejected_receipt
  release_rejected_receipt-Safe h b w =
      seq (Safe x s (Rejects b w)) (FoundEntry x s b.name) (λ g u. Removed x s b.name g) h
        (require (is_some s.genesis && text_eq w.intent.build_name b.name) Error.drift
          >> lookup_intent x s b.name)
        _
        (checked (Safe x s (Rejects b w)) (FoundEntry x s b.name) h
          (is_some s.genesis && text_eq w.intent.build_name b.name) Error.drift
          (λ u. lookup_intent x s b.name) (λ t. lookup_intent-Safe x s (Rejects b w) h b.name))
        (λ g o l f.
          by_option (Safe x s (Rejects b w)) (Outcome (λ g u. Removed x s b.name g) Any) g o _ _
            (λ n. tt) (λ e found. clean g e))
    where
      recorded :
          (g : History) (e : Intent)
          → Always
              (Safe x s (Rejects b w))
              (Outcome
                (λ g' u. (witnessed e w ≡ true) × Marked x s b.name e cleanup_rejected g')
                Any)
              g
              (require (witnessed e w) Error.drift
                >> observe_pinned_receipt x s b e
                >> mark_receipt_cleanup_ready x s b.name e cleanup_rejected)
      recorded g e =
          seq (Safe x s (Rejects b w)) (λ g' u. witnessed e w ≡ true)
            (λ g' u. (witnessed e w ≡ true) × Marked x s b.name e cleanup_rejected g') g
            (require (witnessed e w) Error.drift >> observe_pinned_receipt x s b e) _
            (checked (Safe x s (Rejects b w)) (λ g' u. witnessed e w ≡ true) g (witnessed e w)
              Error.drift (λ u. observe_pinned_receipt x s b e)
              (λ t.
                kept (Safe x s (Rejects b w)) (λ g' u. SeenReceipt x s g' b e)
                  (λ g' u. witnessed e w ≡ true) g _
                  (observe_pinned_receipt-Safe x s (Rejects b w) g b e) (λ g' u l seen. t)))
            (λ g' u l t.
              kept (Safe x s (Rejects b w)) (λ g'' u. Marked x s b.name e cleanup_rejected g'')
                (λ g'' u. (witnessed e w ≡ true) × Marked x s b.name e cleanup_rejected g'') g' _
                (within x s (Marks b.name cleanup_rejected) (Rejects b w)
                  (Outcome (λ g'' u. Marked x s b.name e cleanup_rejected g'') Any) g' _
                  (λ a (f, q). subst (Rejects b w) (sym q) (refl, refl))
                  (mark_receipt_cleanup_ready-Safe x s g' b.name e cleanup_rejected))
                (λ g'' u l' m. (t, m)))

      clean :
          (g : History) (e : Intent)
          → Always (Safe x s (Rejects b w)) (Outcome (λ g' u. Removed x s b.name g') Any) g (
              require (witnessed e w) Error.drift
              >> observe_pinned_receipt x s b e
              >> mark_receipt_cleanup_ready x s b.name e cleanup_rejected
              >> delete_pinned_receipt x s (with_cleanup e)
              >> rejected_loop x s b.name e.nonce max_cas_attempts)
      clean g e =
          seq (Safe x s (Rejects b w)) (λ g' u. (witnessed e w ≡ true) × ReceiptGone x s g' e.nonce)
            (λ g' u. Removed x s b.name g') g
            (require (witnessed e w) Error.drift
              >> observe_pinned_receipt x s b e
              >> mark_receipt_cleanup_ready x s b.name e cleanup_rejected
              >> delete_pinned_receipt x s (with_cleanup e))
            _
            (seq (Safe x s (Rejects b w))
              (λ g' u. (witnessed e w ≡ true) × Marked x s b.name e cleanup_rejected g')
              (λ g' u. (witnessed e w ≡ true) × ReceiptGone x s g' e.nonce) g
              (require (witnessed e w) Error.drift
                >> observe_pinned_receipt x s b e
                >> mark_receipt_cleanup_ready x s b.name e cleanup_rejected)
              _ (recorded g e)
              (λ g' u l (t, m).
                kept (Safe x s (Rejects b w)) (λ g'' u. ReceiptGone x s g'' e.nonce)
                  (λ g'' u. (witnessed e w ≡ true) × ReceiptGone x s g'' e.nonce) g' _
                  (within x s (Deletion (with_cleanup e)) (Rejects b w)
                    (Outcome (λ g'' u. ReceiptGone x s g'' e.nonce) Any) g' _
                    (λ a q. subst (Rejects b w) (sym q) (own_receipt e t))
                    (delete_pinned_receipt-Safe x s g' b.name (with_cleanup e)
                      (Marked-entry g' b.name e m)))
                  (λ g'' u l' z. (t, z))))
            (λ g' u l (t, z).
              within x s (ReleasesRejected s b.name e.nonce) (Rejects b w)
                (Outcome (λ g'' u. Removed x s b.name g'') Any) g' _
                (λ a (f, q, n, k). subst (Rejects b w) (sym q) (refl, same_nonce e f t n))
                (rejected_loop-Safe x s g' b.name e.nonce max_cas_attempts (inr z)))
        where
          nonce_of :
              (e : Intent) → witnessed e w ≡ true → text_eq e.nonce w.intent.queue_nonce ≡ true
          nonce_of e t = unfold witnessed in ground arith

          own_receipt :
              (e : Intent) → witnessed e w ≡ true → Rejects b w (Act.deletes (with_cleanup e))
          own_receipt e t = (nonce_of e t, unfold witnessed in ground arith, refl)

          same_nonce :
              (e f : Intent)
              → witnessed e w ≡ true
              → text_eq f.nonce e.nonce ≡ true
              → text_eq f.nonce w.intent.queue_nonce ≡ true
          same_nonce e f t n = rw (text_eq→eq f.nonce e.nonce n) (nonce_of e t)

  pub resume_rejected_cleanup-Safe :
      (h : History) (id nonce : Text)
      → Always
          (Safe x s (Resumes s id nonce))
          (Outcome (λ g u. Removed x s id g) Any)
          h
          (resume_rejected_cleanup x s id nonce)
  unfolding resume_rejected_cleanup
  resume_rejected_cleanup-Safe h id nonce =
      seq (Safe x s (Resumes s id nonce)) (FoundEntry x s id) (λ g u. Removed x s id g) h
        (require (is_some s.genesis) Error.drift >> lookup_intent x s id) _
        (checked (Safe x s (Resumes s id nonce)) (FoundEntry x s id) h (is_some s.genesis)
          Error.drift (λ u. lookup_intent x s id)
          (λ t. lookup_intent-Safe x s (Resumes s id nonce) h id))
        (λ g o l f.
          by_option (Safe x s (Resumes s id nonce)) (Outcome (λ g u. Removed x s id g) Any) g o _ _
            (λ n. tt)
            (λ e found.
              checked (Safe x s (Resumes s id nonce)) (λ g u. Removed x s id g) g
                (text_eq e.nonce nonce && text_eq e.cleanup_kind cleanup_rejected) Error.drift _
                (λ t. (
                  tt,
                  λ r.
                      by_result (Safe x s (Resumes s id nonce))
                        (Outcome (λ g u. Removed x s id g) Any) _ r _ _ (λ b q. tt)
                        (λ failure q.
                          by_test (Safe x s (Resumes s id nonce))
                            (Outcome (λ g u. Removed x s id g) Any) _ (is_not_found failure) _ _
                            (λ n.
                              resume (event (Request.get_build s.namespace id) r ∷ g) e
                                (Seen-Later x s g _ id e (λ ev i. there i)
                                  (FoundEntry-Seen g id e (rw (← found) f)))
                                (ground arith) (ground arith))
                            (λ n. tt)),
                ))))
    where
      resume :
          (g : History) (e : Intent)
          → Seen x s g id e
          → text_eq e.nonce nonce ≡ true
          → text_eq e.cleanup_kind cleanup_rejected ≡ true
          → Always
              (Safe x s (Resumes s id nonce))
              (Outcome (λ g' u. Removed x s id g') Any)
              g
              (delete_pinned_receipt x s e >> rejected_loop x s id nonce max_cas_attempts)
      resume g e v n k =
          seq (Safe x s (Resumes s id nonce)) (λ g' u. ReceiptGone x s g' e.nonce)
            (λ g' u. Removed x s id g') g (delete_pinned_receipt x s e) _
            (within x s (Deletion e) (Resumes s id nonce)
              (Outcome (λ g' u. ReceiptGone x s g' e.nonce) Any) g _
              (λ a q. subst (Resumes s id nonce) (sym q) (n, k))
              (delete_pinned_receipt-Safe x s g id e (read_entry g id e v)))
            (λ g' u l z.
              within x s (ReleasesRejected s id nonce) (Resumes s id nonce)
                (Outcome (λ g'' u. Removed x s id g'') Any) g' _
                (λ a (f, q, t, r). subst (Resumes s id nonce) (sym q) (refl, t, r))
                (rejected_loop-Safe x s g' id nonce max_cas_attempts
                  (inr (rw (← text_eq→eq e.nonce nonce n) z))))
