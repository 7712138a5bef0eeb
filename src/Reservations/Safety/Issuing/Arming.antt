-- ===== src/Reservations/Safety/Issuing/Arming.antt =====
-- Arming the receipt of a Pod's creation and its one creation
-- (internal/service/buildcontroller/pod_receipt.go, armFreshPodAttempt).
use kova.Base.{sym, ℕ, zero, suc, ◌≡◌, refl, ap, ◌∙◌, inr, true, false, ◌++◌, arith}
use kova.Base.Text.{Text, text_eq→eq, is_empty}
use kova.Base.Dict.{lookup, lookup-insert_self}
use kova.Api.{KovaBuild}
use kova.Effects.{ConfigMap, fail, observe}
use kova.Effects.Traces.{History, Always, Outcome, Any, seq, by_option, by_test, by_result, kept}
use kova.Admission.{ActiveReservation, reservation_key}
use kova.Queue.Store.{is_nil}
use kova.Receipts.{
  PodCreateIntent, pod_prefix, record_pod_create_once, new_pod_create_config_map, pod_kind,
}
use kova.Reservations.{ReservationState}
use kova.Reservations.Ledger.{Reconciler, Backend, read_reservations, with_entry, cas_reservations}
use kova.Reservations.Pod.{same_pod_attempt}
use kova.Reservations.Pod.Arming.{
  unarmed_attempt, attempt_reads, armed_attempt, confirm_attempt, arm_pod_loop,
}
use kova.Reservations.Steps.{Change}
use kova.Reservations.Evidence.{Wrote-Later, Armed-named, Observed-Later, Observed, Safe}
use kova.Reservations.Safety.{read_reservations-Safe, cas-Safe, observe-Safe}
use kova.Reservations.Safety.Changing.{Change-Justified}
use kova.Reservations.Safety.Granting.{record_effect_once-Safe}
use kova.Reservations.Safety.Discarding.Pods.{new_pod_create_config_map-name}
use kova.Reservations.Safety.Issuing.{Issues, ArmedPod, Fits, attempt_reads-Safe, Fits-Later}

module _ (x : Backend) (r : Reconciler) where
  pub unarmed_attempt-open :
      (b : KovaBuild) (e : ActiveReservation) (nonce : Text)
      → unarmed_attempt b e nonce ≡ true
      → (e.closing ≡ false)
        × (is_empty e.pod_template_digest ≡ true)
        × (is_empty e.pod_receipt_uid ≡ true)
        × (is_nil e.in_flight ≡ true)
  unfolding unarmed_attempt
  unarmed_attempt-open b e nonce h = (ground arith, ground arith, ground arith, ground arith)

  pub armed_attempt-nonce :
      (o e : ActiveReservation) (digest : Text)
      → armed_attempt o e digest ≡ true
      → o.pod_attempt_nonce ≡ e.pod_attempt_nonce
  unfolding armed_attempt same_pod_attempt
  armed_attempt-nonce o e digest h =
      text_eq→eq o.pod_attempt_nonce e.pod_attempt_nonce (ground arith)

  pub confirm_attempt-Safe :
      (h : History) (b : KovaBuild) (e : ActiveReservation) (digest : Text)
      → Always
          (Safe x r (Issues b))
          (Outcome (λ g o. o.pod_attempt_nonce ≡ e.pod_attempt_nonce) Any)
          h
          (confirm_attempt x r b e digest)
  unfolding confirm_attempt
  confirm_attempt-Safe h b e digest =
      seq (Safe x r (Issues b)) (λ g v. Observed x r g v.0 v.1)
        (λ g o. o.pod_attempt_nonce ≡ e.pod_attempt_nonce) h (read_reservations x r b.namespace) _
        (read_reservations-Safe x r (Issues b) h b.namespace)
        (λ g v l o.
          by_option (Safe x r (Issues b))
            (Outcome (λ k a. a.pod_attempt_nonce ≡ e.pod_attempt_nonce) Any) g
            (lookup (reservation_key b) v.1.active) _ _ (λ absent. tt)
            (λ a found.
              by_test (Safe x r (Issues b))
                (Outcome (λ k a. a.pod_attempt_nonce ≡ e.pod_attempt_nonce) Any) g
                (armed_attempt a e digest) _ _ (λ q. armed_attempt-nonce a e digest q) (λ q. tt)))

  pub arm_pod_loop-Safe :
      (h : History) (b : KovaBuild) (nonce digest : Text) (left : ℕ)
      → Always
          (Safe x r (Issues b))
          (Outcome (λ g o. ArmedPod x r g b o) Any)
          h
          (arm_pod_loop x r b nonce digest left)
  unfolding arm_pod_loop
  arm_pod_loop-Safe h b nonce digest zero = tt
  arm_pod_loop-Safe h b nonce digest (suc left) =
      seq (Safe x r (Issues b)) (λ g v. Fits x r (λ e. unarmed_attempt b e nonce) b g v)
        (λ g o. ArmedPod x r g b o) h
        (observe (attempt_reads x r b (λ e. unarmed_attempt b e nonce))) _
        (observe-Safe x r (Issues b) (λ g v. Fits x r (λ e. unarmed_attempt b e nonce) b g v) h
          (attempt_reads x r b (λ e. unarmed_attempt b e nonce))
          (λ g k v l q. Fits-Later x r (λ e. unarmed_attempt b e nonce) b g k v l q)
          (λ g l. attempt_reads-Safe x r (Issues b) g b (λ e. unarmed_attempt b e nonce)))
        (λ g (cm, st, e) l q. arm g cm st e q (λ k. arm_pod_loop-Safe k b nonce digest left))
    where
      arm :
          (g : History) (cm : ConfigMap) (st : ReservationState) (e : ActiveReservation)
          → Fits x r (λ e. unarmed_attempt b e nonce) b g (cm, st, e)
          → ((k : History)
              → Always
                  (Safe x r (Issues b))
                  (Outcome (λ g' o. ArmedPod x r g' b o) Any)
                  k
                  (arm_pod_loop x r b nonce digest left))
          → Always (Safe x r (Issues b)) (Outcome (λ k o. ArmedPod x r k b o) Any) g (
              cas_reservations x r cm
                (with_entry st b (record e { pod_template_digest = digest }))
                left
                (arm_pod_loop x r b nonce digest left)
                (λ failure. fail failure)
                (confirm_attempt x r b e digest))
      arm g cm st e q again =
          let c = unarmed_attempt-open b e nonce q.fitting in
          cas-Safe x r (Issues b) (λ k o. ArmedPod x r k b o) g cm
            (with_entry st b (record e { pod_template_digest = digest })) left
            (arm_pod_loop x r b nonce digest left) (λ failure. fail failure)
            (confirm_attempt x r b e digest)
            (λ bytes z.
              Change-Justified x r (Issues b) g cm st b e
                (record e { pod_template_digest = digest }) bytes q.observed q.found
                (Change.arm_pod digest c.0 c.1 c.2 c.3 refl) refl z)
            (λ k l. again k) (λ k failure l. tt)
            (λ k l a over.
              kept (Safe x r (Issues b)) (λ k' o. o.pod_attempt_nonce ≡ e.pod_attempt_nonce)
                (λ k' o. ArmedPod x r k' b o) k (confirm_attempt x r b e digest)
                (confirm_attempt-Safe k b e digest)
                (λ k' o later same. record {
                  name = pod_prefix ++ e.pod_attempt_nonce;
                  entry = record e { pod_template_digest = digest };
                  armed = record {
                    state = with_entry st b (record e { pod_template_digest = digest });
                    base = cm;
                    bytes = a.bytes;
                    encoded = a.encoded;
                    wrote = Wrote-Later x r k k' cm a.bytes later (rw (← over) a.wrote);
                    found = lookup-insert_self (reservation_key b) _ st.active;
                    still_open = c.0;
                    old = st;
                    before = e;
                    observed = Observed-Later x r g k' cm st (λ ev i. later ev (l ev i)) q.observed;
                    stood = q.found;
                    arms = inr (digest, refl, c.1, refl);
                  };
                  its_name = ap (λ n. pod_prefix ++ n) (sym same);
                }))

  pub record_pod_create_once-Safe :
      (h : History) (c : PodCreateIntent) (b : KovaBuild) (o : ActiveReservation)
      → c.pod_attempt_nonce ≡ o.pod_attempt_nonce
      → ArmedPod x r h b o
      → Always
          (Safe x r (Issues b))
          (Outcome Any Any)
          h
          (record_pod_create_once x.payloads r.has_receipts c)
  unfolding record_pod_create_once
  record_pod_create_once-Safe h c b o same a =
      by_result (Safe x r (Issues b)) (Outcome Any Any) h (new_pod_create_config_map x.payloads c) _
        _
        (λ cm q.
          let named : a.name ≡ cm.name =
            (a.its_name
              ∙ ap (λ n. pod_prefix ++ n) (sym same)
              ∙ sym (new_pod_create_config_map-name x r c cm q)) in
          record_effect_once-Safe x r (Issues b) x.payloads h r.has_receipts cm pod_kind
            (reservation_key b) a.entry
            (Armed-named x r h (reservation_key b) a.entry a.name cm.name named a.armed) refl)
        (λ e q. tt)
