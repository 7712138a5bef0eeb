-- ===== src/Reservations/Safety/Granting/Finishing.antt =====
-- The receipt of a fresh grant from its arm to its pin
-- (internal/service/buildcontroller/grant_receipt.go, finishFreshGrant).
use kova.Base.{◌≡◌, refl, subst, ap, sym, ◌∙◌, false, ◌++◌}
use kova.Api.{KovaBuild}
use kova.Effects.{observe}
use kova.Effects.Traces.{History, Always, Outcome, Any, seq, by_result, kept}
use kova.Admission.{ActiveReservation, reservation_key}
use kova.Receipts.{
  GrantIntent, EffectWitness, grant_prefix, new_grant_config_map, record_grant_once, grant_kind,
}
use kova.Reservations.Ledger.{Reconciler, Backend, ensure_live}
use kova.Reservations.Grant.{check_grant_namespace, arm_fresh_grant}
use kova.Reservations.Grant.Pinning.{pin_grant_receipt, grant_intent_reads, finish_fresh_grant}
use kova.Reservations.Evidence.{within, Armed-named, Safe}
use kova.Reservations.Safety.{Free-Safe, Reads-Safe, observe-Safe}
use kova.Reservations.Reading.{
  grant_intent_reads-Reads, check_grant_namespace-Reads, ensure_live-Reads,
  verify_pinned_grant-Reads,
}
use kova.Reservations.Safety.Granting.{
  Grants, ArmedGrant, ArmedGrant-Later, arm_fresh_grant-Safe, record_effect_once-Safe,
  new_grant_config_map-name,
}
use kova.Reservations.Safety.Granting.Pinning.{
  PinsGrant, ValidPin, ValidPin-Later, pin_grant_receipt-Safe,
}

module _ (x : Backend) (r : Reconciler) where
  record_grant_once-Safe :
      (h : History) (g : GrantIntent) (b : KovaBuild) (o : ActiveReservation)
      → g.grant_nonce ≡ o.grant_nonce
      → ArmedGrant x r h b o
      → Always
          (Safe x r (Grants b))
          (Outcome Any Any)
          h
          (record_grant_once x.payloads r.has_receipts g)
  unfolding record_grant_once
  record_grant_once-Safe h g b o same a =
      by_result (Safe x r (Grants b)) (Outcome Any Any) h (new_grant_config_map x.payloads g) _ _
        (λ cm q.
          let named : a.name ≡ cm.name =
            (a.its_name
              ∙ ap (λ n. grant_prefix ++ n) (sym same)
              ∙ sym (new_grant_config_map-name x r x.payloads g cm q)) in
          record_effect_once-Safe x r (Grants b) x.payloads h r.has_receipts cm grant_kind
            (reservation_key b) a.entry
            (Armed-named x r h (reservation_key b) a.entry a.name cm.name named a.armed) refl)
        (λ e q. tt)

  pub finish_fresh_grant-Safe :
      (h : History) (b : KovaBuild) (original : ActiveReservation)
      → Always
          (Safe x r (Grants b))
          (Outcome (λ g e. (w : EffectWitness) × ValidPin x r g b w) Any)
          h
          (finish_fresh_grant x r b original)
  unfolding finish_fresh_grant
  finish_fresh_grant-Safe h b original =
      seq (Safe x r (Grants b)) (λ g o. ArmedGrant x r g b o)
        (λ g e. (w : EffectWitness) × ValidPin x r g b w) h (arm_fresh_grant x r b original) _
        (arm_fresh_grant-Safe x r h b original)
        (λ g armed l a.
          seq (Safe x r (Grants b)) (λ k i. i.grant_nonce ≡ armed.grant_nonce)
            (λ g e. (w : EffectWitness) × ValidPin x r g b w) g
            (observe (grant_intent_reads x r b armed)) _
            (observe-Safe x r (Grants b) (λ k i. i.grant_nonce ≡ armed.grant_nonce) g
              (grant_intent_reads x r b armed) (λ k k' i l' q. q)
              (λ k l'.
                Reads-Safe x r (Grants b) (λ i. i.grant_nonce ≡ armed.grant_nonce) k _
                  (grant_intent_reads-Reads x r b armed)))
            (λ k intent l' same.
              seq (Safe x r (Grants b)) Any (λ g e. (w : EffectWitness) × ValidPin x r g b w) k
                (record_grant_once x.payloads r.has_receipts intent) _
                (record_grant_once-Safe k intent b armed same
                  (ArmedGrant-Later x r g k b armed l' a))
                (λ k' w l'' q.
                  seq (Safe x r (Grants b)) Any (λ g e. (w : EffectWitness) × ValidPin x r g b w) k'
                    (check_grant_namespace r b.namespace false) _
                    (Free-Safe x r (Grants b) k' _
                      (check_grant_namespace-Reads x r b.namespace false))
                    (λ k'' u m q'.
                      seq (Safe x r (Grants b)) (λ j' a. ValidPin x r j' b w)
                        (λ g e. (w : EffectWitness) × ValidPin x r g b w) k''
                        (pin_grant_receipt x r b armed w) _
                        (within x r (PinsGrant b w) (Grants b)
                          (Outcome (λ j' a. ValidPin x r j' b w) Any) k'' _
                          (λ a (e', t). subst (Grants b) (sym t) refl)
                          (pin_grant_receipt-Safe x r k'' b armed w))
                        (λ j pinned m' q''.
                          seq (Safe x r (Grants b)) Any
                            (λ g e. (w : EffectWitness) × ValidPin x r g b w) j (ensure_live b) _
                            (Free-Safe x r (Grants b) j _ (ensure_live-Reads x r b))
                            (λ j' u' m'' q3.
                              kept (Safe x r (Grants b)) Any
                                (λ g e. (w : EffectWitness) × ValidPin x r g b w) j' _
                                (Free-Safe x r (Grants b) j' _
                                  (verify_pinned_grant-Reads x r b pinned))
                                (λ j3 u3 l3 z. (
                                  w,
                                  ValidPin-Later x r j j3 b w (λ ev i. l3 ev (m'' ev i)) q'',
                                ))))))))
