-- ===== src/Queue/Safety/Releasing.antt =====
-- What `ReleaseForBuild` (internal/service/queueadmission/ledger.go) changes and what its success means.
use kova.Base.{
  ℕ, zero, suc, ◌≡◌, refl, sym, ◌⊎◌, inl, inr, true, not, ◌&&◌, Option, none, some, arith, subst,
  if◌then◌else◌, here,
}
use kova.Base.Text.{Text, text_eq, is_empty, text_eq→eq, text_eq_refl}
use kova.Base.Dict.{lookup, erase}
use kova.Api.{KovaBuild}
use kova.Effects.{Error, ConfigMap, M, pure, fail, ◌>>◌, ◌>>=◌, from_result}
use kova.Effects.Traces.{
  History, Always, Outcome, Any, Later, passed, seq, checked, by_option, by_test, kept,
}
use kova.Queue.{
  Intent, State, Externals, max_cas_attempts, cleanup_terminal, intent_annotation, digest_build,
}
use kova.Queue.Store.{Genesis, Store, read, cas_write, with_intents}
use kova.Queue.Receipt.{
  observe_pinned_receipt, mark_receipt_cleanup_ready, delete_pinned_receipt, annotated_link,
  terminal_or_deleting, check_receipt_namespace,
}
use kova.Queue.Release.{
  matches_build, recover_release, release_loop, was_settled, confirm_settled, receipted_loop,
  release_receipted_build, release_for_build, mark_receipt_settled, note_of,
}
use kova.Queue.Evidence.{
  Observed, FoundEntry, Marked, ReceiptGone, SettledBuild, Act, Scope, Safe, within,
}
use kova.Queue.Safety.{read-Safe}
use kova.Queue.Safety.Reads.{SeenReceipt, check_receipt_namespace-Safe, observe_pinned_receipt-Safe}
use kova.Queue.Safety.Marking.{Marks, mark_receipt_cleanup_ready-Safe, own_link}
use kova.Queue.Safety.Deleting.{
  Deletion, Settling, SettledOwn, SettledOwn-Build, gone_after, delete_pinned_receipt-Safe,
  mark_receipt_settled-Safe,
}
use kova.Queue.Safety.Removing.{
  ReleasesOwn, Removed, removal-Safe, terminal_kind, release_loop-Safe, genesis_cases,
}

-- The changes are of the build and its entry: to record the cleanup, to delete the receipt once it
-- is recorded, to mark the build, and to remove the entry.
abbrev pub ReleasesBuild : Externals → KovaBuild → Scope
ReleasesBuild x b (Act.marks id f kind) = (id ≡ b.name) × (kind ≡ cleanup_terminal)
ReleasesBuild x b (Act.deletes e) =
    (matches_build x b e ≡ true) × (text_eq e.cleanup_kind cleanup_terminal ≡ true)
ReleasesBuild x b (Act.settles_build c e) = (c ≡ b) × (matches_build x b e ≡ true)
ReleasesBuild x b (Act.releases id e) = (id ≡ b.name) × (matches_build x b e ≡ true)
ReleasesBuild x b (Act.reserves id i) = ⊥
ReleasesBuild x b (Act.pins id f) = ⊥

module _ (x : Externals) (s : Store) where
  -- The build's entry is gone and so is its receipt.
  abbrev ReleasedReceipt : KovaBuild → History → Type 0
  ReleasedReceipt b g = Removed x s b.name g × ReceiptGone x s g (note_of intent_annotation b)

  FoundEntry-Later :
      (h g : History) (id : Text) (o : Option Intent)
      → Later h g
      → FoundEntry x s id h o
      → FoundEntry x s id g o
  FoundEntry-Later h g id o l (cm, st, v, q) =
      (cm, st, record { got = l _ v.got; decoded = v.decoded }, q)

  -- A success has seen the settled mark and no receipt.
  confirm_settled-Safe :
      (h : History) (b : KovaBuild)
      → Always
          (Safe x s (ReleasesBuild x b))
          (Outcome (λ g u. ReceiptGone x s g (note_of intent_annotation b)) Any)
          h
          (confirm_settled s b)
  unfolding confirm_settled
  confirm_settled-Safe h b = (
    tt,
    λ r.
        passed (Safe x s (ReleasesBuild x b))
          (λ g u. ReceiptGone x s g (note_of intent_annotation b)) _ r _
          (λ persisted q.
            checked (Safe x s (ReleasesBuild x b))
              (λ g u. ReceiptGone x s g (note_of intent_annotation b)) _ (was_settled persisted b)
              Error.drift _
              (λ w.
                seq (Safe x s (ReleasesBuild x b)) (λ g u. Unit {0})
                  (λ g u. ReceiptGone x s g (note_of intent_annotation b)) _
                  (check_receipt_namespace s) _
                  (check_receipt_namespace-Safe x s (ReleasesBuild x b) (λ g u. Unit {0}) _
                    (λ g l. tt))
                  (λ g u l o. (
                    tt,
                    λ r'.
                        gone_after x s (ReleasesBuild x b) _ (note_of intent_annotation b) r'
                          (λ cm. fail Error.drift) here (λ cm e. tt),
                  )))),
  )

  receipted_loop-Safe :
      (h : History) (b : KovaBuild) (digest : Text) (left : ℕ)
      → Always
          (Safe x s (ReleasesBuild x b))
          (Outcome (λ g u. ReleasedReceipt b g) Any)
          h
          (receipted_loop x s b digest left)
  unfolding receipted_loop
  receipted_loop-Safe h b digest zero = tt
  receipted_loop-Safe h b digest (suc left) =
      seq (Safe x s (ReleasesBuild x b)) (λ g v. Observed x s g v.0 v.1)
        (λ g u. ReleasedReceipt b g) h (read x s) _ (read-Safe x s (ReleasesBuild x b) h)
        (λ g v l o.
          by_option (Safe x s (ReleasesBuild x b)) (Outcome (λ g u. ReleasedReceipt b g) Any) g
            (lookup b.name v.1.intents) _ _
            (λ q.
              kept (Safe x s (ReleasesBuild x b))
                (λ g' u. ReceiptGone x s g' (note_of intent_annotation b))
                (λ g' u. ReleasedReceipt b g') g (confirm_settled s b) (confirm_settled-Safe g b)
                (λ g' u l' z. (inl (FoundEntry-Later g g' b.name none l' (v.0, v.1, o, q)), z)))
            (λ e found.
              by_test (Safe x s (ReleasesBuild x b)) (Outcome (λ g u. ReleasedReceipt b g) Any) g
                (matches_build x b e
                  && text_eq e.request_digest digest
                  && not (is_empty e.receipt_uid)
                  && annotated_link b e)
                _ _
                (λ t.
                  by_test (Safe x s (ReleasesBuild x b)) (Outcome (λ g u. ReleasedReceipt b g) Any)
                    g (is_empty e.cleanup_kind) _ _
                    (λ unmarked.
                      seq (Safe x s (ReleasesBuild x b)) (λ g' u. Unit {0})
                        (λ g' u. ReleasedReceipt b g') g
                        (observe_pinned_receipt x s b e
                          >> mark_receipt_cleanup_ready x s b.name e cleanup_terminal)
                        _
                        (seq (Safe x s (ReleasesBuild x b)) (λ g' u. SeenReceipt x s g' b e)
                          (λ g' u. Unit {0}) g (observe_pinned_receipt x s b e) _
                          (observe_pinned_receipt-Safe x s (ReleasesBuild x b) g b e)
                          (λ g' u l' seen.
                            kept (Safe x s (ReleasesBuild x b))
                              (λ g'' u. Marked x s b.name e cleanup_terminal g'')
                              (λ g'' u. Unit {0}) g' _
                              (within x s (Marks b.name cleanup_terminal) (ReleasesBuild x b)
                                (Outcome (λ g'' u. Marked x s b.name e cleanup_terminal g'') Any) g'
                                _ (λ a (f, q). subst (ReleasesBuild x b) (sym q) (refl, refl))
                                (mark_receipt_cleanup_ready-Safe x s g' b.name e cleanup_terminal))
                              (λ g'' u l'' m. tt)))
                        (λ g' u l' z. receipted_loop-Safe g' b digest left))
                    (λ marked.
                      by_test (Safe x s (ReleasesBuild x b))
                        (Outcome (λ g u. ReleasedReceipt b g) Any) g
                        (text_eq e.cleanup_kind cleanup_terminal) _ _
                        (λ terminal.
                          remove (λ g'. receipted_loop-Safe g' b digest left) g v.0 v.1 e o found
                            (ground arith) terminal)
                        (λ f. tt)))
                (λ t. tt)))
    where
      own_nonce :
          (g : History) (e : Intent)
          → matches_build x b e ≡ true
          → ReceiptGone x s g e.nonce
          → ReceiptGone x s g (note_of intent_annotation b)
      own_nonce g e m z =
          rw
            (← text_eq→eq e.nonce (note_of intent_annotation b)
              (unfold matches_build in ground arith))
            z

      remove :
          ((g' : History)
            → Always
                (Safe x s (ReleasesBuild x b))
                (Outcome (λ g u. ReleasedReceipt b g) Any)
                g'
                (receipted_loop x s b digest left))
          → (g : History) (cm : ConfigMap) (st : State) (e : Intent) → Observed x s g cm st
          → lookup b.name st.intents ≡ some e
          → matches_build x b e ≡ true
          → text_eq e.cleanup_kind cleanup_terminal ≡ true
          → Always (Safe x s (ReleasesBuild x b)) (Outcome (λ g' u. ReleasedReceipt b g') Any) g (
              delete_pinned_receipt x s e
              >> mark_receipt_settled s b e
              >> cas_write x s cm
                  (with_intents st (erase b.name st.intents))
                  left
                  (receipted_loop x s b digest left)
                  (recover_release x s b.name)
                  (pure tt))
      remove again g cm st e o found m terminal =
          seq (Safe x s (ReleasesBuild x b))
            (λ g' u. Later g g' × ReceiptGone x s g' e.nonce × SettledBuild x s g' e.receipt_uid)
            (λ g' u. ReleasedReceipt b g') g
            (delete_pinned_receipt x s e >> mark_receipt_settled s b e) _
            (seq (Safe x s (ReleasesBuild x b)) (λ g' u. ReceiptGone x s g' e.nonce)
              (λ g' u. Later g g' × ReceiptGone x s g' e.nonce × SettledBuild x s g' e.receipt_uid)
              g (delete_pinned_receipt x s e) _
              (within x s (Deletion e) (ReleasesBuild x b)
                (Outcome (λ g' u. ReceiptGone x s g' e.nonce) Any) g _
                (λ a q. subst (ReleasesBuild x b) (sym q) (m, terminal))
                (delete_pinned_receipt-Safe x s g b.name e (
                  e,
                  inl (record { base = cm; held = st; observed = o; entry = found }),
                  own_link x s e e.cleanup_kind (text_eq_refl e.cleanup_kind),
                )))
              (λ g' u l z.
                kept (Safe x s (ReleasesBuild x b)) (λ g'' u. SettledOwn x s b e g'')
                  (λ g'' u.
                    Later g g'' × ReceiptGone x s g'' e.nonce × SettledBuild x s g'' e.receipt_uid)
                  g' (mark_receipt_settled s b e)
                  (within x s (Settling b e) (ReleasesBuild x b)
                    (Outcome (λ g'' u. SettledOwn x s b e g'') Any) g' _
                    (λ a q. subst (ReleasesBuild x b) (sym q) (refl, m))
                    (mark_receipt_settled-Safe x s g' b e z))
                  (λ g'' u l' w.
                    ((λ ev i. l' ev (l ev i)), l' _ z, SettledOwn-Build x s g'' b e w))))
            (λ g' u l (l', z, w).
              removal-Safe x s (ReleasesBuild x b) (λ g'' u. ReleasedReceipt b g'') g' b.name e cm
                st left (receipted_loop x s b digest left)
                (record { got = l' _ o.got; decoded = o.decoded }) found
                (inr (terminal_kind e.cleanup_kind terminal)) (inr (z, λ t. w)) (refl, m)
                (λ g'' k. again g'') (λ g'' k r. (r, own_nonce g'' e m (k _ z))))

  -- What a released build leaves: it had no intent, or its entry is gone, with a Genesis after its
  -- receipt.
  abbrev pub Released : KovaBuild → History → Type 0
  Released b g =
      (is_empty (note_of intent_annotation b) ≡ true)
      ⊎ (Removed x s b.name g
          × ((s.genesis ≡ none) ⊎ ReceiptGone x s g (note_of intent_annotation b)))

  release_receipted_build-Safe :
      (h : History) (b : KovaBuild)
      → Always
          (Safe x s (ReleasesBuild x b))
          (Outcome (λ g u. Released b g) Any)
          h
          (release_receipted_build x s b)
  unfolding release_receipted_build
  release_receipted_build-Safe h b =
      checked (Safe x s (ReleasesBuild x b)) (λ g u. Released b g) h
        (not (is_empty b.uid) && terminal_or_deleting b) Error.drift _
        (λ t.
          by_test (Safe x s (ReleasesBuild x b)) (Outcome (λ g u. Released b g) Any) h
            (is_empty (note_of intent_annotation b)) _ _ (λ e. inl e)
            (λ e.
              passed (Safe x s (ReleasesBuild x b)) (λ g u. Released b g) h (digest_build x b) _
                (λ digest d.
                  kept (Safe x s (ReleasesBuild x b)) (λ g u. ReleasedReceipt b g)
                    (λ g u. Released b g) h (receipted_loop x s b digest max_cas_attempts)
                    (receipted_loop-Safe h b digest max_cas_attempts)
                    (λ g u l r. inr (r.0, inr r.1)))))

  -- Whatever the environment answers, the only changes are of the build and its entry; with a
  -- Genesis the cleanup is recorded before the receipt is deleted, the receipt is gone before the
  -- build is marked, and both come before the entry is removed; success means that the build has
  -- no intent, or that its entry was seen gone or its removal was accepted, with a Genesis after
  -- its receipt.
  pub release_for_build-Safe :
      (h : History) (b : KovaBuild)
      → Always
          (Safe x s (ReleasesBuild x b))
          (Outcome (λ g u. Released b g) Any)
          h
          (release_for_build x s b)
  unfolding release_for_build
  release_for_build-Safe h b = elim (genesis_cases s.genesis) [
    | inr (g, q) ↦
        subst
          (λ o.
            Always (Safe x s (ReleasesBuild x b)) (Outcome (λ g u. Released b g) Any) h (by_mode o))
          (sym q) (release_receipted_build-Safe h b)
    | inl n ↦
        subst
          (λ o.
            Always (Safe x s (ReleasesBuild x b)) (Outcome (λ g u. Released b g) Any) h (by_mode o))
          (sym n) (old_release n)
  ]
    where
      by_mode : Option Genesis → M (Unit {0})
      by_mode none =
          if is_empty (note_of intent_annotation b)
          then pure tt
          else from_result (digest_build x b) >>= λ digest.
              release_loop x s b digest max_cas_attempts
      by_mode (some g) = release_receipted_build x s b

      old_release :
          s.genesis ≡ none
          → Always
              (Safe x s (ReleasesBuild x b))
              (Outcome (λ g u. Released b g) Any)
              h
              (by_mode none)
      old_release n =
          by_test (Safe x s (ReleasesBuild x b)) (Outcome (λ g u. Released b g) Any) h
            (is_empty (note_of intent_annotation b)) _ _ (λ e. inl e)
            (λ e.
              passed (Safe x s (ReleasesBuild x b)) (λ g u. Released b g) h (digest_build x b) _
                (λ digest d.
                  kept (Safe x s (ReleasesBuild x b)) (λ g u. Removed x s b.name g)
                    (λ g u. Released b g) h (release_loop x s b digest max_cas_attempts)
                    (within x s (ReleasesOwn x b) (ReleasesBuild x b)
                      (Outcome (λ g u. Removed x s b.name g) Any) h _
                      (λ a (e, q, m). subst (ReleasesBuild x b) (sym q) (refl, m))
                      (release_loop-Safe x s h b digest max_cas_attempts n))
                    (λ g u l r. inr (r, inl n))))
