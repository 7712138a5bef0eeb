-- ===== src/Reservations/Safety/Issuing.antt =====
-- Arming the receipt of a Pod's creation, its one creation, and issuing the creation
-- (internal/service/buildcontroller/pod_receipt.go, finishFreshPodAttempt).
pub mod Arming
pub mod Finishing
use kova.Base.{
  ℕ, zero, suc, ◌≡◌, refl, ap, ◌∙◌, inr, Bool, true, false, ◌&&◌, ◌∷◌, ◌++◌, [], some, arith, In,
  here,
}
use kova.Base.Text.{Text, text_eq→eq, is_empty}
use kova.Base.Dict.{lookup, lookup-insert_self}
use kova.Api.{KovaBuild}
use kova.Api.Pods.{Pod}
use kova.Effects.{
  Error, Result, ok, err, ConfigMap, Request, pure, fail, require, ◌>>=◌, ◌>>◌, get_config_map,
  attempt, from_result, observe, observed_read,
}
use kova.Effects.Traces.{
  History, event, Always, Outcome, Any, Later, seq, checked, passed, by_option, by_test, by_result,
  after, kept,
}
use kova.Admission.{ActiveReservation, reservation_key}
use kova.Queue.Store.{is_nil}
use kova.Receipts.{
  PodCreateIntent, pod_prefix, record_pod_create_once, new_pod_create_config_map, pod_kind,
}
use kova.Reservations.{ReservationState, valid_reservation_hex, valid_grant_receipt_digest}
use kova.Reservations.Ledger.{
  Reconciler, Backend, reservation_name, max_reservation_attempts, active_identity, decode_active,
  read_reservations, read_reservations_observed, with_entry, cas_reservations, ensure_live,
}
use kova.Reservations.Grant.{check_grant_namespace, verify_grant_reads}
use kova.Reservations.Pod.{same_pod_attempt, runtime_identity, verify_pod_reads}
use kova.Reservations.Pod.Pinning.{same_pod_arm, pin_pod_receipt}
use kova.Reservations.Pod.Arming.{
  unarmed_attempt, attempt_reads, armed_attempt, confirm_attempt, arm_pod_loop,
  arm_fresh_pod_attempt,
}
use kova.Reservations.Pod.Issuing.{
  issuable, only_text, issued_as, fresh_issue_recorded, authorize_reads, authorize_loop,
  authorize_fresh_pod_create, pod_intent_reads, digested, fresh_template, finish_fresh_pod_attempt,
}
use kova.Templates.{TemplateCodec, canonical_pod_template_digest}
use kova.Reservations.Steps.{Change}
use kova.Reservations.Evidence.{
  Act, Kind, Scope, Armed, Armed-Later, Observed, Accepted, Safe, Observed-Later, Accepted-Later,
}
use kova.Reservations.Safety.{read_reservations-Safe, cas-Safe, Free-Safe, Reads-Safe, observe-Safe}
use kova.Reservations.Safety.Changing.{Change-Justified}
use kova.Reservations.Safety.Granting.{record_effect_once-Safe}
use kova.Reservations.Safety.Discarding.Pods.{new_pod_create_config_map-name, pin_pod_receipt-Safe}
use kova.Queue.Reading.{observed_read-Reads}
use kova.Reservations.Reading.{
  ensure_live-Reads, verify_grant_reads-Reads, verify_pod_reads-Reads, pod_intent_reads-Reads,
  check_grant_namespace-Reads,
}

-- The change is to arm the receipt of the build's Pod attempt, to create it, to pin it, or to put the
-- attempt in flight.
abbrev pub Issues : KovaBuild → Scope
Issues b (Act.changes key (Kind.arm_pod digest) e) = key ≡ reservation_key b
Issues b (Act.changes key (Kind.pin_pod uid digest) e) = key ≡ reservation_key b
Issues b (Act.changes key (Kind.start nonce) e) = key ≡ reservation_key b
Issues b (Act.records key e) = key ≡ reservation_key b
Issues b a = ⊥

module _ (x : Backend) (r : Reconciler) where
  -- The build's Pod attempt was armed by an accepted write, and the entry armed has the attempt of
  -- `o`.
  pub record ArmedPod (h : History) (b : KovaBuild) (o : ActiveReservation) : Type 0 where
    pub name : Text
    pub entry : ActiveReservation
    pub armed : Armed x r h (reservation_key b) entry name
    pub its_name : name ≡ pod_prefix ++ o.pod_attempt_nonce

  pub ArmedPod-Later :
      (h g : History) (b : KovaBuild) (o : ActiveReservation)
      → Later h g
      → ArmedPod h b o
      → ArmedPod g b o
  ArmedPod-Later h g b o l a = record {
    name = a.name;
    entry = a.entry;
    armed = Armed-Later x r h g (reservation_key b) a.entry a.name l a.armed;
    its_name = a.its_name;
  }

  -- A read of the call found the entry of the build open, with its one attempt in flight and the
  -- receipt not yet in cleanup.
  pub record Issued (h : History) (b : KovaBuild) : Type 0 where
    pub base : ConfigMap
    pub state : ReservationState
    pub entry : ActiveReservation
    pub observed : Observed x r h base state
    pub found : lookup (reservation_key b) state.active ≡ some entry
    pub still_open : entry.closing ≡ false
    pub no_cleanup : entry.pod_cleanup_ready ≡ false
    pub one_flying : only_text entry.in_flight entry.pod_attempt_nonce ≡ true

  -- The entry that a reading observation of an attempt ends with.
  pub record Fits (fits : ActiveReservation → Bool) (b : KovaBuild) (h : History)
      (v : ConfigMap × ReservationState × ActiveReservation) : Type 0 where
    pub observed : Observed x r h v.0 v.1
    pub found : lookup (reservation_key b) v.1.active ≡ some v.2
    pub fitting : fits v.2 ≡ true

  pub Fits-Later :
      (fits : ActiveReservation → Bool) (b : KovaBuild) (g k : History)
      (v : ConfigMap × ReservationState × ActiveReservation)
      → Later g k
      → Fits fits b g v
      → Fits fits b k v
  Fits-Later fits b g k v l q = record {
    observed = Observed-Later x r g k v.0 v.1 l q.observed;
    found = q.found;
    fitting = q.fitting;
  }

module _ (x : Backend) (r : Reconciler) (K : Scope) where
  pub read_reservations_observed-Safe :
      (h : History) (ns : Text)
      → Always
          (Safe x r K)
          (Outcome (λ g v. Observed x r g v.0 v.1) Any)
          h
          (read_reservations_observed x r ns)
  unfolding read_reservations_observed observed_read
  read_reservations_observed-Safe h ns =
      by_option (Safe x r K) (Outcome (λ g v. Observed x r g v.0 v.1) Any) h r.genesis _ _
        (λ plain. tt)
        (λ o paired.
          seq (Safe x r K) (λ g cm. In (event (Request.get_config ns reservation_name) (ok cm)) g)
            (λ g v. Observed x r g v.0 v.1) h _ _ (found_map h)
            (λ g cm l i.
              passed (Safe x r K) (λ k v. Observed x r k v.0 v.1) g (decode_active x r cm) _
                (λ st d. record { namespace = ns; got = i; decoded = d })))
    where
      found_map :
          (k : History)
          → Always
              (Safe x r K)
              (Outcome (λ g cm. In (event (Request.get_config ns reservation_name) (ok cm)) g) Any)
              k
              (require r.has_reader Error.failed
                >> observed_read (
                    get_config_map ns reservation_name >>= λ cm.
                    from_result (active_identity r cm) >> pure cm))
      found_map k =
          checked (Safe x r K)
            (λ g cm. In (event (Request.get_config ns reservation_name) (ok cm)) g) k r.has_reader
            Error.failed _
            (λ q. (
              tt,
              λ c.
                  passed (Safe x r K)
                    (λ g cm. In (event (Request.get_config ns reservation_name) (ok cm)) g) _ c _
                    (λ u e. (
                      tt,
                      λ answer.
                          passed (Safe x r K)
                            (λ g cm. In (event (Request.get_config ns reservation_name) (ok cm)) g)
                            _ answer _
                            (λ cm a.
                              passed (Safe x r K)
                                (λ g cm'.
                                  In (event (Request.get_config ns reservation_name) (ok cm')) g)
                                _ (active_identity r cm) _ (λ v i. rw a here)),
                    )),
            ))

  pub attempt_reads-Safe :
      (h : History) (b : KovaBuild) (fits : ActiveReservation → Bool)
      → Always (Safe x r K) (Outcome (λ g v. Fits x r fits b g v) Any) h (attempt_reads x r b fits)
  unfolding attempt_reads
  attempt_reads-Safe h b fits =
      seq (Safe x r K) (λ g v. Observed x r g v.0 v.1) (λ g v. Fits x r fits b g v) h
        (read_reservations_observed x r b.namespace) _
        (read_reservations_observed-Safe h b.namespace)
        (λ g v l o.
          by_option (Safe x r K) (Outcome (λ k w. Fits x r fits b k w) Any) g
            (lookup (reservation_key b) v.1.active) _ _ (λ absent. tt)
            (λ e found.
              checked (Safe x r K) (λ k w. Fits x r fits b k w) g (fits e) Error.failed _
                (λ q.
                  seq (Safe x r K) Any (λ k w. Fits x r fits b k w) g
                    (observed_read (ensure_live b)) _
                    (Free-Safe x r K g _
                      (observed_read-Reads (ensure_live b) (ensure_live-Reads x r b)))
                    (λ k u m a.
                      seq (Safe x r K) Any (λ k' w. Fits x r fits b k' w) k
                        (verify_grant_reads x r b e) _
                        (Free-Safe x r K k _ (verify_grant_reads-Reads x r b e))
                        (λ k' u' m' a'. record {
                          observed = Observed-Later x r g k' v.0 v.1 (λ ev i. m' ev (m ev i)) o;
                          found = found;
                          fitting = q;
                        })))))
