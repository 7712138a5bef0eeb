-- ===== src/Reservations/Safety/Issuing/Finishing.antt =====
-- Issuing the one creation of a Pod (internal/service/buildcontroller/pod_receipt.go,
-- authorizeFreshPodCreate and finishFreshPodAttempt).
use kova.Base.{subst, sym, ℕ, zero, suc, ◌≡◌, refl, Bool, true, false, ◌&&◌, ◌∷◌, [], some, arith}
use kova.Base.Text.{Text, text_eq→eq}
use kova.Base.Dict.{lookup}
use kova.Api.{KovaBuild}
use kova.Api.Pods.{Pod}
use kova.Effects.{
  Error, Result, ok, err, ConfigMap, pure, fail, require, ◌>>=◌, ◌>>◌, attempt, observe,
}
use kova.Effects.Traces.{History, Always, Outcome, Any, seq, checked, passed, by_option, after}
use kova.Admission.{ActiveReservation, reservation_key}
use kova.Queue.Store.{is_nil}
use kova.Receipts.{PodCreateIntent, record_pod_create_once}
use kova.Reservations.{ReservationState, valid_reservation_hex, valid_grant_receipt_digest}
use kova.Reservations.Ledger.{
  Reconciler, Backend, max_reservation_attempts, read_reservations, with_entry, cas_reservations,
}
use kova.Reservations.Grant.{check_grant_namespace}
use kova.Reservations.Pod.{same_pod_attempt, runtime_identity, verify_pod_reads}
use kova.Reservations.Pod.Pinning.{same_pod_arm, pin_pod_receipt}
use kova.Reservations.Pod.Arming.{attempt_reads, arm_fresh_pod_attempt}
use kova.Reservations.Pod.Issuing.{
  issuable, only_text, issued_as, fresh_issue_recorded, authorize_reads, authorize_loop,
  authorize_fresh_pod_create, pod_intent_reads, digested, fresh_template, finish_fresh_pod_attempt,
}
use kova.Templates.{TemplateCodec, canonical_pod_template_digest}
use kova.Reservations.Steps.{Change}
use kova.Reservations.Evidence.{within, Observed, Safe}
use kova.Reservations.Safety.{read_reservations-Safe, cas-Safe, Free-Safe, Reads-Safe, observe-Safe}
use kova.Reservations.Safety.Changing.{Change-Justified}
use kova.Reservations.Safety.Discarding.Pods.{PinsPod, pin_pod_receipt-Safe}
use kova.Reservations.Reading.{
  verify_pod_reads-Reads, pod_intent_reads-Reads, check_grant_namespace-Reads,
}
use kova.Reservations.Safety.Issuing.{
  Issues, ArmedPod, ArmedPod-Later, Issued, Fits, attempt_reads-Safe, Fits-Later,
}
use kova.Reservations.Safety.Issuing.Arming.{arm_pod_loop-Safe, record_pod_create_once-Safe}

module _ (x : Backend) (r : Reconciler) where
  issued_as-open :
      (o e : ActiveReservation)
      → issued_as o e ≡ true
      → (o.closing ≡ false)
        × (o.pod_cleanup_ready ≡ false)
        × (only_text o.in_flight o.pod_attempt_nonce ≡ true)
  unfolding issued_as same_pod_arm same_pod_attempt
  issued_as-open o e h =
      let same : o.pod_attempt_nonce ≡ e.pod_attempt_nonce =
        text_eq→eq o.pod_attempt_nonce e.pod_attempt_nonce (ground arith) in
      let only : only_text o.in_flight e.pod_attempt_nonce ≡ true = (ground arith) in
      (ground arith, ground arith, rw same only)

  fresh_issue_recorded-Safe :
      (h : History) (b : KovaBuild) (e : ActiveReservation)
      → Always
          (Safe x r (Issues b))
          (Outcome (λ g u. Issued x r g b) Any)
          h
          (fresh_issue_recorded x r b e)
  unfolding fresh_issue_recorded
  fresh_issue_recorded-Safe h b e =
      seq (Safe x r (Issues b)) (λ g v. Observed x r g v.0 v.1) (λ g u. Issued x r g b) h
        (read_reservations x r b.namespace) _ (read_reservations-Safe x r (Issues b) h b.namespace)
        (λ g v l o.
          by_option (Safe x r (Issues b)) (Outcome (λ k u. Issued x r k b) Any) g
            (lookup (reservation_key b) v.1.active) _ _ (λ absent. tt)
            (λ a found. told g v.0 v.1 a o found (issued_as a e) refl))
    where
      told :
          (g : History) (cm : ConfigMap) (st : ReservationState) (a : ActiveReservation)
          → Observed x r g cm st
          → lookup (reservation_key b) st.active ≡ some a
          → (q : Bool) → issued_as a e ≡ q
          → Always
              (Safe x r (Issues b))
              (Outcome (λ k u. Issued x r k b) Any)
              g
              (require q Error.failed)
      told g cm st a o found true q =
          let c = issued_as-open a e q in
          record {
            base = cm;
            state = st;
            entry = a;
            observed = o;
            found = found;
            still_open = c.0;
            no_cleanup = c.1;
            one_flying = c.2;
          }
      told g cm st a o found false q = tt

  authorize_reads-Safe :
      (h : History) (b : KovaBuild) (pinned : ActiveReservation)
      → Always
          (Safe x r (Issues b))
          (Outcome (λ g v. Fits x r (λ e. issuable e pinned) b g v) Any)
          h
          (authorize_reads x r b pinned)
  unfolding authorize_reads
  authorize_reads-Safe h b pinned =
      seq (Safe x r (Issues b)) (λ g v. Fits x r (λ e. issuable e pinned) b g v)
        (λ g v. Fits x r (λ e. issuable e pinned) b g v) h
        (attempt_reads x r b (λ e. issuable e pinned)) _
        (attempt_reads-Safe x r (Issues b) h b (λ e. issuable e pinned))
        (λ g v l q.
          seq (Safe x r (Issues b)) Any (λ k w. Fits x r (λ e. issuable e pinned) b k w) g
            (verify_pod_reads x r b v.2 false) _
            (Free-Safe x r (Issues b) g _ (verify_pod_reads-Reads x r b v.2 false))
            (λ k u m a. Fits-Later x r (λ e. issuable e pinned) b g k v m q))

  issuable-open :
      (e pinned : ActiveReservation)
      → issuable e pinned ≡ true
      → (e.closing ≡ false) × (is_nil e.in_flight ≡ true)
  unfolding issuable
  issuable-open e pinned h = (ground arith, ground arith)

  authorize_loop-Safe :
      (h : History) (b : KovaBuild) (pinned : ActiveReservation) (left : ℕ)
      → Always
          (Safe x r (Issues b))
          (Outcome (λ g u. Issued x r g b) Any)
          h
          (authorize_loop x r b pinned left)
  unfolding authorize_loop
  authorize_loop-Safe h b pinned zero = tt
  authorize_loop-Safe h b pinned (suc left) =
      seq (Safe x r (Issues b)) (λ g v. Fits x r (λ e. issuable e pinned) b g v)
        (λ g u. Issued x r g b) h (observe (authorize_reads x r b pinned)) _
        (observe-Safe x r (Issues b) (λ g v. Fits x r (λ e. issuable e pinned) b g v) h
          (authorize_reads x r b pinned)
          (λ g k v l q. Fits-Later x r (λ e. issuable e pinned) b g k v l q)
          (λ g l. authorize_reads-Safe g b pinned))
        (λ g (cm, st, e) l q. issue g cm st e q (λ k. authorize_loop-Safe k b pinned left))
    where
      confirmed :
          (g : History) (failure : Error) (seen : Result (Unit {0}))
          → Outcome (λ k u. Issued x r k b) Any g seen
          → Always
              (Safe x r (Issues b))
              (Outcome (λ k u. Issued x r k b) Any)
              g
              (elim seen [ ok u ↦ pure tt | err e' ↦ fail failure ])
      confirmed g failure (ok u) q = q
      confirmed g failure (err e) q = tt

      issue :
          (g : History) (cm : ConfigMap) (st : ReservationState) (e : ActiveReservation)
          → Fits x r (λ e. issuable e pinned) b g (cm, st, e)
          → ((k : History)
              → Always
                  (Safe x r (Issues b))
                  (Outcome (λ g' u. Issued x r g' b) Any)
                  k
                  (authorize_loop x r b pinned left))
          → Always (Safe x r (Issues b)) (Outcome (λ k u. Issued x r k b) Any) g (
              cas_reservations x r cm
                (with_entry st b (record e { in_flight = pinned.pod_attempt_nonce ∷ [] }))
                left
                (authorize_loop x r b pinned left)
                (λ failure.
                  attempt
                    (fresh_issue_recorded x r b
                      (record e { in_flight = pinned.pod_attempt_nonce ∷ [] }))
                    λ seen. elim seen [ ok u ↦ pure tt | err e' ↦ fail failure ])
                (fresh_issue_recorded x r b
                  (record e { in_flight = pinned.pod_attempt_nonce ∷ [] })))
      issue g cm st e q again =
          let c = issuable-open e pinned q.fitting in
          cas-Safe x r (Issues b) (λ k u. Issued x r k b) g cm
            (with_entry st b (record e { in_flight = pinned.pod_attempt_nonce ∷ [] })) left
            (authorize_loop x r b pinned left) _ _
            (λ bytes z.
              Change-Justified x r (Issues b) g cm st b e
                (record e { in_flight = pinned.pod_attempt_nonce ∷ [] }) bytes q.observed q.found
                (Change.start pinned.pod_attempt_nonce c.0 c.1 refl) refl z)
            (λ k l. again k)
            (λ k failure l.
              after (Safe x r (Issues b)) (Outcome (λ k' u. Issued x r k' b) Any)
                (Outcome (λ k' u. Issued x r k' b) Any) k
                (fresh_issue_recorded x r b
                  (record e { in_flight = pinned.pod_attempt_nonce ∷ [] }))
                _ (fresh_issue_recorded-Safe k b _) (λ k' seen m i. confirmed k' failure seen i))
            (λ k l a over. fresh_issue_recorded-Safe k b _)

  pub finish_fresh_pod_attempt-Safe :
      (t : TemplateCodec) (h : History) (b : KovaBuild) (p : Pod) (nonce : Text)
      → Always
          (Safe x r (Issues b))
          (Outcome (λ g q. Issued x r g b) Any)
          h
          (finish_fresh_pod_attempt x t r b p nonce)
  unfolding finish_fresh_pod_attempt arm_fresh_pod_attempt authorize_fresh_pod_create
  finish_fresh_pod_attempt-Safe t h b p nonce =
      checked (Safe x r (Issues b)) (λ g q. Issued x r g b) h
        (fresh_template b p nonce && runtime_identity r b p) Error.failed _
        (λ fits.
          passed (Safe x r (Issues b)) (λ g q. Issued x r g b) h (canonical_pod_template_digest t p)
            _
            (λ digest q.
              seq (Safe x r (Issues b)) (λ g o. ArmedPod x r g b o) (λ g q. Issued x r g b) h
                (arm_fresh_pod_attempt x r b nonce digest) _ (armed_once digest)
                (λ g armed l a.
                  seq (Safe x r (Issues b)) (λ k i. i.pod_attempt_nonce ≡ armed.pod_attempt_nonce)
                    (λ k q. Issued x r k b) g (observe (pod_intent_reads x r b armed)) _
                    (observe-Safe x r (Issues b)
                      (λ k i. i.pod_attempt_nonce ≡ armed.pod_attempt_nonce) g
                      (pod_intent_reads x r b armed) (λ k k' i l' q. q)
                      (λ k l'.
                        Reads-Safe x r (Issues b)
                          (λ i. i.pod_attempt_nonce ≡ armed.pod_attempt_nonce) k _
                          (pod_intent_reads-Reads x r b armed)))
                    (λ k intent l' same.
                      created digest armed k intent same (ArmedPod-Later x r g k b armed l' a)))))
    where
      armed_once :
          (digest : Text)
          → Always
              (Safe x r (Issues b))
              (Outcome (λ g o. ArmedPod x r g b o) Any)
              h
              (arm_fresh_pod_attempt x r b nonce digest)
      armed_once digest =
          checked (Safe x r (Issues b)) (λ g o. ArmedPod x r g b o) h
            (valid_reservation_hex nonce 32 && valid_grant_receipt_digest digest) Error.failed _
            (λ valid. arm_pod_loop-Safe x r h b nonce digest max_reservation_attempts)

      created :
          (digest : Text) (armed : ActiveReservation) (k : History) (intent : PodCreateIntent)
          → intent.pod_attempt_nonce ≡ armed.pod_attempt_nonce
          → ArmedPod x r k b armed
          → Always (Safe x r (Issues b)) (Outcome (λ g q. Issued x r g b) Any) k (do
            w ← record_pod_create_once x.payloads r.has_receipts intent
            check_grant_namespace r b.namespace false
            pinned ← pin_pod_receipt x r b armed w
            authorize_fresh_pod_create x r b pinned
            pure (digested p digest))
      created digest armed k intent same a =
          seq (Safe x r (Issues b)) Any (λ g q. Issued x r g b) k
            (record_pod_create_once x.payloads r.has_receipts intent) _
            (record_pod_create_once-Safe x r k intent b armed same a)
            (λ k1 w l1 q1.
              seq (Safe x r (Issues b)) Any (λ g q. Issued x r g b) k1
                (check_grant_namespace r b.namespace false) _
                (Free-Safe x r (Issues b) k1 _ (check_grant_namespace-Reads x r b.namespace false))
                (λ k2 u l2 q2.
                  seq (Safe x r (Issues b)) Any (λ g q. Issued x r g b) k2
                    (pin_pod_receipt x r b armed w) _
                    (within x r (PinsPod b w) (Issues b) (Outcome Any Any) k2 _
                      (λ a (f, t). subst (Issues b) (sym t) refl)
                      (pin_pod_receipt-Safe x r k2 b armed w))
                    (λ k3 pinned l3 q3.
                      seq (Safe x r (Issues b)) (λ g u. Issued x r g b) (λ g q. Issued x r g b) k3
                        (authorize_fresh_pod_create x r b pinned) _
                        (authorize_loop-Safe k3 b pinned max_reservation_attempts)
                        (λ k4 u4 l4 issued. issued))))
