-- ===== src/Reservations/Safety/Granting.antt =====
-- Arming the receipt of a grant, and the one creation of a receipt
-- (internal/service/buildcontroller/grant_receipt.go).
pub mod Pinning
pub mod Finishing
use kova.Base.{
  ℕ, zero, suc, ◌≡◌, refl, subst, none, Option, ap, sym, ◌∙◌, inl, Bool, true, false, not, ◌&&◌,
  ◌∷◌, ◌++◌, [], some, if◌then◌else◌, arith,
}
use kova.Base.Text.{Text, text_eq→eq, is_empty}
use kova.Base.Dict.{lookup, lookup-insert_self}
use kova.Api.{KovaBuild}
use kova.Effects.{Error, Result, ok, err, ConfigMap, Request, fail, ◌>>=◌, from_result, observe}
use kova.Effects.Traces.{
  after, History, event, Always, Outcome, Any, Later, seq, checked, by_option, by_test, by_result,
  kept,
}
use kova.Admission.{ActiveReservation, reservation_key}
use kova.Receipts.{
  Payloads, GrantIntent, EffectWitness, grant_prefix, new_grant_config_map, record_effect_once,
  record_grant_once, qualify_effect, judge_create, grant_valid, new_effect_config_map, grant_kind,
}
use kova.Reservations.{
  ReservationState, valid_grant_observed_rv, valid_grant_receipt_uid, valid_grant_receipt_digest,
}
use kova.Reservations.Ledger.{
  Reconciler, Backend, max_reservation_attempts, read_reservations, with_entry, cas_reservations,
  ensure_live,
}
use kova.Reservations.Grant.{
  check_grant_namespace, unarmed, armed_as, confirm_armed, arm_grant_loop, arm_fresh_grant,
  same_grant, grant_pinned_as,
}
use kova.Reservations.Grant.Pinning.{
  same_arm, pin_of, recover_pin, pin_grant_loop, pin_grant_receipt, seen_pin, or_fail,
  grant_intent_reads, finish_fresh_grant,
}
use kova.Reservations.Steps.{Change}
use kova.Reservations.Evidence.{
  Act, Kind, within, Scope, Wrote-Later, Armed-Later, Armed-named, Observed, Armed, Safe,
  Observed-Later,
}
use kova.Reservations.Safety.{read_reservations-Safe, cas-Safe, Free-Safe, Reads-Safe, observe-Safe}
use kova.Reservations.Safety.Changing.{Change-Justified}
use kova.Reservations.Reading.{
  grant_intent_reads-Reads, check_grant_namespace-Reads, ensure_live-Reads,
  verify_pinned_grant-Reads,
}

-- The change is to arm the receipt of the build's grant, to create it, or to pin it.
abbrev pub Grants : KovaBuild → Scope
Grants b (Act.changes key (Kind.arm rv) e) = key ≡ reservation_key b
Grants b (Act.changes key (Kind.pin uid digest) e) = key ≡ reservation_key b
Grants b (Act.records key e) = key ≡ reservation_key b
Grants b a = ⊥

module _ (x : Backend) (r : Reconciler) where
  -- The build's grant was armed by an accepted write, and the entry armed has the nonce of `o`.
  pub record ArmedGrant (h : History) (b : KovaBuild) (o : ActiveReservation) : Type 0 where
    pub name : Text
    pub entry : ActiveReservation
    pub armed : Armed x r h (reservation_key b) entry name
    pub its_name : name ≡ grant_prefix ++ o.grant_nonce

  pub ArmedGrant-Later :
      (h g : History) (b : KovaBuild) (o : ActiveReservation)
      → Later h g
      → ArmedGrant h b o
      → ArmedGrant g b o
  ArmedGrant-Later h g b o l a = record {
    name = a.name;
    entry = a.entry;
    armed = Armed-Later x r h g (reservation_key b) a.entry a.name l a.armed;
    its_name = a.its_name;
  }

  nonce_of_unarmed :
      (e original : ActiveReservation)
      → unarmed e original ≡ true
      → e.grant_nonce ≡ original.grant_nonce
  unfolding unarmed same_grant
  nonce_of_unarmed e original h = text_eq→eq e.grant_nonce original.grant_nonce (ground arith)

  open_fresh :
      (e original : ActiveReservation)
      → unarmed e original ≡ true
      → (e.closing ≡ false)
        × (is_empty e.grant_observed_rv ≡ true)
        × (is_empty e.grant_receipt_uid ≡ true)
  unfolding unarmed
  open_fresh e original h = (ground arith, ground arith, ground arith)

  nonce_of_armed :
      (o original : ActiveReservation) (rv : Text)
      → armed_as o original rv ≡ true
      → o.grant_nonce ≡ original.grant_nonce
  unfolding armed_as same_grant
  nonce_of_armed o original rv h = text_eq→eq o.grant_nonce original.grant_nonce (ground arith)

  confirm_armed-Safe :
      (h : History) (b : KovaBuild) (original : ActiveReservation) (rv : Text)
      → Always
          (Safe x r (Grants b))
          (Outcome (λ g o. o.grant_nonce ≡ original.grant_nonce) Any)
          h
          (confirm_armed x r b original rv)
  unfolding confirm_armed
  confirm_armed-Safe h b original rv =
      seq (Safe x r (Grants b)) (λ g v. Observed x r g v.0 v.1)
        (λ g o. o.grant_nonce ≡ original.grant_nonce) h (read_reservations x r b.namespace) _
        (read_reservations-Safe x r (Grants b) h b.namespace)
        (λ g v l o.
          by_option (Safe x r (Grants b))
            (Outcome (λ g' a. a.grant_nonce ≡ original.grant_nonce) Any) g
            (lookup (reservation_key b) v.1.active) _ _ (λ absent. tt)
            (λ e found.
              by_test (Safe x r (Grants b))
                (Outcome (λ g' a. a.grant_nonce ≡ original.grant_nonce) Any) g
                (armed_as e original rv) _ _ (λ q. nonce_of_armed e original rv q) (λ q. tt)))

  arm_grant_loop-Safe :
      (h : History) (b : KovaBuild) (original : ActiveReservation) (left : ℕ)
      → Always
          (Safe x r (Grants b))
          (Outcome (λ g o. ArmedGrant g b o) Any)
          h
          (arm_grant_loop x r b original left)
  unfolding arm_grant_loop
  arm_grant_loop-Safe h b original zero = tt
  arm_grant_loop-Safe h b original (suc left) =
      seq (Safe x r (Grants b)) (λ g v. Observed x r g v.0 v.1) (λ g o. ArmedGrant g b o) h
        (read_reservations x r b.namespace) _ (read_reservations-Safe x r (Grants b) h b.namespace)
        (λ g v l o.
          by_option (Safe x r (Grants b)) (Outcome (λ g' a. ArmedGrant g' b a) Any) g
            (lookup (reservation_key b) v.1.active) _ _ (λ absent. tt)
            (λ e found.
              checked (Safe x r (Grants b)) (λ g' a. ArmedGrant g' b a) g (unarmed e original)
                Error.failed _
                (λ fresh.
                  seq (Safe x r (Grants b)) Any (λ g' a. ArmedGrant g' b a) g (ensure_live b) _
                    (Free-Safe x r (Grants b) g (ensure_live b) (ensure_live-Reads x r b))
                    (λ g' u l' live.
                      checked (Safe x r (Grants b)) (λ g'' a. ArmedGrant g'' b a) g'
                        (valid_grant_observed_rv x.codec v.0.resource_version) Error.failed _
                        (λ valid.
                          arm g' v.0 v.1 e (Observed-Later x r g g' v.0 v.1 l' o) found fresh
                            (λ k. arm_grant_loop-Safe k b original left))))))
    where
      arm :
          (g : History) (cm : ConfigMap) (st : ReservationState) (e : ActiveReservation)
          → Observed x r g cm st
          → lookup (reservation_key b) st.active ≡ some e
          → unarmed e original ≡ true
          → ((g' : History)
              → Always
                  (Safe x r (Grants b))
                  (Outcome (λ k a. ArmedGrant k b a) Any)
                  g'
                  (arm_grant_loop x r b original left))
          → Always (Safe x r (Grants b)) (Outcome (λ k a. ArmedGrant k b a) Any) g (
              cas_reservations x r cm
                (with_entry st b (record e { grant_observed_rv = cm.resource_version }))
                left
                (arm_grant_loop x r b original left)
                (λ failure. fail failure)
                (confirm_armed x r b original cm.resource_version))
      arm g cm st e o found fresh again =
          let c = open_fresh e original fresh in
          cas-Safe x r (Grants b) (λ k a. ArmedGrant k b a) g cm
            (with_entry st b (record e { grant_observed_rv = cm.resource_version })) left
            (arm_grant_loop x r b original left) (λ failure. fail failure)
            (confirm_armed x r b original cm.resource_version)
            (λ bytes q.
              Change-Justified x r (Grants b) g cm st b e
                (record e { grant_observed_rv = cm.resource_version }) bytes o found
                (Change.arm cm.resource_version c.0 c.1 c.2 refl) refl q)
            (λ g' l'. again g') (λ g' failure l'. tt)
            (λ g' l' a over.
              kept (Safe x r (Grants b)) (λ k o'. o'.grant_nonce ≡ original.grant_nonce)
                (λ k o'. ArmedGrant k b o') g' (confirm_armed x r b original cm.resource_version)
                (confirm_armed-Safe g' b original cm.resource_version)
                (λ k o' later same. record {
                  name = grant_prefix ++ e.grant_nonce;
                  entry = record e { grant_observed_rv = cm.resource_version };
                  armed = record {
                    state = with_entry st b (record e { grant_observed_rv = cm.resource_version });
                    base = cm;
                    bytes = a.bytes;
                    encoded = a.encoded;
                    wrote = Wrote-Later x r g' k cm a.bytes later (rw (← over) a.wrote);
                    found = lookup-insert_self (reservation_key b) _ st.active;
                    still_open = c.0;
                    old = st;
                    before = e;
                    observed = Observed-Later x r g k cm st (λ ev i. later ev (l' ev i)) o;
                    stood = found;
                    arms = inl (cm.resource_version, refl, c.1, refl);
                  };
                  its_name =
                      ap (λ n. grant_prefix ++ n) (nonce_of_unarmed e original fresh ∙ sym same);
                }))

  pub arm_fresh_grant-Safe :
      (h : History) (b : KovaBuild) (original : ActiveReservation)
      → Always
          (Safe x r (Grants b))
          (Outcome (λ g o. ArmedGrant g b o) Any)
          h
          (arm_fresh_grant x r b original)
  unfolding arm_fresh_grant
  arm_fresh_grant-Safe h b original = arm_grant_loop-Safe h b original max_reservation_attempts

  -- The one attempt to create a receipt, by the owner of an accepted arm.
  pub record_effect_once-Safe :
      (K : Scope) (p : Payloads) (h : History) (has_api : Bool) (cm : ConfigMap) (kind : Text)
      → (key : Text) (e : ActiveReservation) → Armed x r h key e cm.name
      → K (Act.records key e)
      → Always (Safe x r K) (Outcome Any Any) h (record_effect_once p has_api cm kind)
  unfolding record_effect_once
  record_effect_once-Safe K p h has_api cm kind key e a own =
      checked (Safe x r K) Any h has_api Error.receipt_invalid _ (λ q. (
        (key, e, a, own),
        λ made. (
          tt,
          λ seen.
              by_result (Safe x r K) (Outcome Any Any) _ seen _ _
                (λ readback k.
                  by_result (Safe x r K) (Outcome Any Any) _ (qualify_effect p cm readback kind) _ _
                    (λ o k'.
                      judged
                        (event (Request.get_config cm.namespace cm.name) seen
                          ∷ event (Request.create_receipt cm) made
                          ∷ h)
                        (judge_create p cm kind made.0 made.1 o))
                    (λ e k'. tt))
                (λ e k. tt),
        ),
      ))
    where
      judged :
          (g : History) (j : Result EffectWitness)
          → Always (Safe x r K) (Outcome Any Any) g (from_result j)
      judged g (ok w) = tt
      judged g (err e) = tt

  pub new_grant_config_map-name :
      (p : Payloads) (g : GrantIntent) (cm : ConfigMap)
      → new_grant_config_map p g ≡ ok cm
      → cm.name ≡ grant_prefix ++ g.grant_nonce
  unfolding new_grant_config_map new_effect_config_map
  new_grant_config_map-name p g cm h = go (grant_valid p g) h
    where
      go :
          (b : Bool)
          → (if b
              then ok (
                  new_effect_config_map g.build.receipt_namespace
                    (grant_prefix ++ g.grant_nonce)
                    grant_kind
                    (p.marshal_grant g))
              else err Error.receipt_invalid)
            ≡ ok cm
          → cm.name ≡ grant_prefix ++ g.grant_nonce
      go true q = ap name_of (sym q)
        where
          name_of : Result ConfigMap → Text
          name_of (ok c) = c.name
          name_of (err e) = []
      go false q = absurd (ground arith)
