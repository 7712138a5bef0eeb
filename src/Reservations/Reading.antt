-- ===== src/Reservations/Reading.antt =====
-- The observations of receipts change nothing (internal/service/buildcontroller/grant_receipt.go,
-- pod_receipt.go).
use kova.Base.{none, some, Option, Bool, ◌≡◌, refl}
use kova.Base.Text.{Text}
use kova.Api.{KovaBuild}
use kova.Effects.{Error, Result, ok, err, M, ConfigMap, fail, observe, from_result, ◌>>=◌}
use kova.Effects.Reads.{
  Reads, Free, Succeeds, Reads-mono, read_rules, claim_rules, Free-option, Free-result, Free-bind,
  Free-ret, claim_err, claim_option,
}
use kova.Admission.{ActiveReservation}
use kova.Queue.Reading.{
  observed_read-Reads, verify_for_build-Reads, verify_observed-Reads, lookup_intent-Reads,
  lookup_observed-Reads, check_receipt_namespace-Reads, check_receipt_namespace_observed-Reads,
}
use kova.Receipts.{
  ReceiptLink, EffectWitness, GrantIntent, PodCreateIntent, observe_grant, observe_pod_create,
  observe_effect, new_grant_config_map, new_pod_create_config_map, qualify_effect,
}
use kova.Reservations.Ledger.{
  Original, Reconciler, Backend, ensure_live, before_active, read_reservations,
}
use kova.Reservations.Grant.{
  check_grant_namespace, grant_intent, grant_payload, observe_grant_reads, observe_grant_receipt,
  verify_grant_reads, verify_pinned_grant,
}
use kova.Reservations.Grant.Pinning.{grant_intent_reads, or_fail, recover_pin, seen_pin}
use kova.Reservations.Pod.{
  pod_intent, observe_pod_reads, verify_pod_reads, observe_pod_receipt, verify_pinned_pod_receipt,
  pod_payload,
}
use kova.Reservations.Pod.Issuing.{pod_intent_reads}
use kova.Reservations.Pod.Pinning.{recover_pod_pin, seen_pod_pin}

pub observe-Reads : {A : Type 0} (m : M A) → Reads Free m → Reads Free (observe m)
unfolding observe
observe-Reads m s = search (read_rules) depth 30

module _ (x : Backend) (r : Reconciler) where
  pub ensure_live-Reads : (b : KovaBuild) → Reads Free (ensure_live b)
  unfolding ensure_live
  ensure_live-Reads b = search (read_rules) depth 30

  pub check_grant_namespace-Reads :
      (ns : Text) (observed : Bool) → Reads Free (check_grant_namespace r ns observed)
  unfolding check_grant_namespace
  check_grant_namespace-Reads ns observed =
      search (read_rules, check_receipt_namespace-Reads, check_receipt_namespace_observed-Reads)
        depth 30

  payload_nonce :
      (o : Original) (b : KovaBuild) (e : ActiveReservation) (d : Text)
      (m : Text × Option ReceiptLink)
      → (grant_payload x r o b e d m).grant_nonce ≡ e.grant_nonce
  unfolding grant_payload
  payload_nonce o b e d m = refl

  pub grant_intent-Reads :
      (b : KovaBuild) (e : ActiveReservation) (observed : Bool)
      → Reads (Succeeds (λ g. g.grant_nonce ≡ e.grant_nonce)) (grant_intent x r b e observed)
  unfolding grant_intent
  grant_intent-Reads b e observed =
      claim_option (λ g. g.grant_nonce ≡ e.grant_nonce) r.genesis _ _ (claim_err _ _)
        (λ o.
          search
            (
              claim_rules, read_rules, payload_nonce, verify_for_build-Reads, verify_observed-Reads,
              lookup_intent-Reads, lookup_observed-Reads,
            )
            depth 40)

  grant_intent-Free :
      (b : KovaBuild) (e : ActiveReservation) (observed : Bool)
      → Reads Free (grant_intent x r b e observed)
  grant_intent-Free b e observed =
      Reads-mono (Succeeds (λ g. g.grant_nonce ≡ e.grant_nonce)) Free _ (λ g q. tt)
        (grant_intent-Reads b e observed)

  payload_attempt :
      (b : KovaBuild) (e : ActiveReservation) (g : GrantIntent) (n d : Text)
      → (pod_payload b e g n d).pod_attempt_nonce ≡ e.pod_attempt_nonce
  unfolding pod_payload
  payload_attempt b e g n d = refl

  pub pod_intent-Reads :
      (b : KovaBuild) (e : ActiveReservation) (observed : Bool)
      → Reads
          (Succeeds (λ c. c.pod_attempt_nonce ≡ e.pod_attempt_nonce))
          (pod_intent x r b e observed)
  unfolding pod_intent
  pod_intent-Reads b e observed =
      search (claim_rules, read_rules, payload_attempt, grant_intent-Free) depth 40

  pod_intent-Free :
      (b : KovaBuild) (e : ActiveReservation) (observed : Bool)
      → Reads Free (pod_intent x r b e observed)
  pod_intent-Free b e observed =
      Reads-mono (Succeeds (λ c. c.pod_attempt_nonce ≡ e.pod_attempt_nonce)) Free _ (λ c q. tt)
        (pod_intent-Reads b e observed)

  effect_read :
      (expected : ConfigMap) (kind : Text) (seen : Result ConfigMap)
      → Reads Free (elim seen [
        | err e ↦ fail {A = EffectWitness} Error.receipt_unconfirmed
        | ok readback ↦ from_result (qualify_effect x.payloads expected readback kind)
      ])
  effect_read expected kind (err e) = search (read_rules)
  effect_read expected kind (ok cm) = search (read_rules)

  observe_effect-Reads :
      (has_api : Bool) (expected : ConfigMap) (kind : Text)
      → Reads Free (observe_effect x.payloads has_api expected kind)
  unfolding observe_effect
  observe_effect-Reads has_api expected kind = search (read_rules, effect_read) depth 30

  observe_grant-Reads :
      (has_api : Bool) (g : GrantIntent) → Reads Free (observe_grant x.payloads has_api g)
  unfolding observe_grant
  observe_grant-Reads has_api g =
      Free-result (new_grant_config_map x.payloads g) _ _ (λ cm. observe_effect-Reads has_api cm _)
        (λ e. search (read_rules))

  observe_pod_create-Reads :
      (has_api : Bool) (c : PodCreateIntent) → Reads Free (observe_pod_create x.payloads has_api c)
  unfolding observe_pod_create
  observe_pod_create-Reads has_api c =
      Free-result (new_pod_create_config_map x.payloads c) _ _
        (λ cm. observe_effect-Reads has_api cm _) (λ e. search (read_rules))

  observe_grant_reads-Reads :
      (b : KovaBuild) (e : ActiveReservation) → Reads Free (observe_grant_reads x r b e)
  unfolding observe_grant_reads
  observe_grant_reads-Reads b e =
      search
        (
          read_rules, check_grant_namespace-Reads, grant_intent-Free, observe_grant-Reads,
          observed_read-Reads,
        )
        depth 30

  pub observe_grant_receipt-Reads :
      (b : KovaBuild) (e : ActiveReservation) → Reads Free (observe_grant_receipt x r b e)
  unfolding observe_grant_receipt
  observe_grant_receipt-Reads b e =
      search (read_rules, observe_grant_reads-Reads, observe-Reads) depth 30

  pub verify_grant_reads-Reads :
      (b : KovaBuild) (e : ActiveReservation) → Reads Free (verify_grant_reads x r b e)
  unfolding verify_grant_reads
  verify_grant_reads-Reads b e = search (read_rules, observe_grant_reads-Reads) depth 30

  pub verify_pinned_grant-Reads :
      (b : KovaBuild) (e : ActiveReservation) → Reads Free (verify_pinned_grant x r b e)
  unfolding verify_pinned_grant
  verify_pinned_grant-Reads b e =
      search (read_rules, verify_grant_reads-Reads, observe-Reads) depth 30

  pub grant_intent_reads-Reads :
      (b : KovaBuild) (e : ActiveReservation)
      → Reads (Succeeds (λ g. g.grant_nonce ≡ e.grant_nonce)) (grant_intent_reads x r b e)
  unfolding grant_intent_reads
  grant_intent_reads-Reads b e =
      search
        (
          claim_rules, read_rules, observed_read-Reads, ensure_live-Reads,
          check_grant_namespace-Reads, grant_intent-Reads,
        )
        depth 30

  observe_pod_reads-Reads :
      (b : KovaBuild) (e : ActiveReservation) → Reads Free (observe_pod_reads x r b e)
  unfolding observe_pod_reads
  observe_pod_reads-Reads b e =
      search
        (
          read_rules, check_grant_namespace-Reads, pod_intent-Free, observe_pod_create-Reads,
          observed_read-Reads,
        )
        depth 30

  pub observe_pod_receipt-Reads :
      (b : KovaBuild) (e : ActiveReservation) → Reads Free (observe_pod_receipt x r b e)
  unfolding observe_pod_receipt
  observe_pod_receipt-Reads b e =
      search (read_rules, observe_pod_reads-Reads, observe-Reads) depth 30

  pub verify_pod_reads-Reads :
      (b : KovaBuild) (e : ActiveReservation) (c : Bool) → Reads Free (verify_pod_reads x r b e c)
  unfolding verify_pod_reads
  verify_pod_reads-Reads b e c = search (read_rules, observe_pod_reads-Reads) depth 30

  pub verify_pinned_pod_receipt-Reads :
      (b : KovaBuild) (e : ActiveReservation) (c : Bool)
      → Reads Free (verify_pinned_pod_receipt x r b e c)
  unfolding verify_pinned_pod_receipt
  verify_pinned_pod_receipt-Reads b e c =
      search (read_rules, verify_pod_reads-Reads, observe-Reads) depth 30

  pub pod_intent_reads-Reads :
      (b : KovaBuild) (e : ActiveReservation)
      → Reads (Succeeds (λ c. c.pod_attempt_nonce ≡ e.pod_attempt_nonce)) (pod_intent_reads x r b e)
  unfolding pod_intent_reads
  pod_intent_reads-Reads b e =
      search
        (
          claim_rules, read_rules, observed_read-Reads, ensure_live-Reads,
          check_grant_namespace-Reads, pod_intent-Reads,
        )
        depth 30

  before_active-Reads : Reads Free (before_active r)
  before_active-Reads =
      Free-option r.genesis _ _ (search (read_rules)) (λ g. search (read_rules) depth 30)

  pub read_reservations-Reads : (ns : Text) → Reads Free (read_reservations x r ns)
  unfolding read_reservations
  read_reservations-Reads ns = search (read_rules, before_active-Reads) depth 30

  or_fail-Reads : {A : Type 0} (o : Option A) (e : Error) → Reads Free (or_fail o e)
  or_fail-Reads none e = search (read_rules)
  or_fail-Reads (some a) e = search (read_rules)

  pub recover_pin-Reads :
      (b : KovaBuild) (armed : ActiveReservation) (w : EffectWitness) (failure : Error)
      → Reads Free (recover_pin x r b armed w failure)
  unfolding recover_pin
  recover_pin-Reads b armed w failure =
      Free-bind (read_reservations x r b.namespace) _ (read_reservations-Reads b.namespace) (λ seen.
        Free-result seen _ _ (λ v. or_fail-Reads (seen_pin b armed w v.1) failure)
          (λ e. Free-ret _))

  pub pinned_read-Reads :
      (b : KovaBuild) (armed : ActiveReservation) (w : EffectWitness)
      → Reads Free (
          read_reservations x r b.namespace >>= λ o.
          or_fail (seen_pin b armed w o.1) Error.receipt_changed)
  pinned_read-Reads b armed w = search (read_rules, read_reservations-Reads, or_fail-Reads) depth 30

  pub recover_pod_pin-Reads :
      (b : KovaBuild) (armed : ActiveReservation) (w : EffectWitness) (failure : Error)
      → Reads Free (recover_pod_pin x r b armed w failure)
  unfolding recover_pod_pin
  recover_pod_pin-Reads b armed w failure =
      Free-bind (read_reservations x r b.namespace) _ (read_reservations-Reads b.namespace) (λ seen.
        Free-result seen _ _ (λ v. or_fail-Reads (seen_pod_pin b armed w v.1) failure)
          (λ e. Free-ret _))

  pub pinned_pod_read-Reads :
      (b : KovaBuild) (armed : ActiveReservation) (w : EffectWitness)
      → Reads Free (
          read_reservations x r b.namespace >>= λ o.
          or_fail (seen_pod_pin b armed w o.1) Error.receipt_changed)
  pinned_pod_read-Reads b armed w =
      search (read_rules, read_reservations-Reads, or_fail-Reads) depth 30
