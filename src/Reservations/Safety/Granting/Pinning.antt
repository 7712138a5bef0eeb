-- ===== src/Reservations/Safety/Granting/Pinning.antt =====
-- Pinning the receipt of a grant (internal/service/buildcontroller/grant_receipt.go, pinGrantReceipt).
use kova.Base.{
  ℕ, zero, suc, ◌≡◌, refl, none, Option, Bool, true, false, not, ◌&&◌, some, if◌then◌else◌, arith,
}
use kova.Base.Text.{is_empty}
use kova.Base.Dict.{lookup}
use kova.Api.{KovaBuild}
use kova.Effects.{Error, Result, ok, err, ConfigMap, fail, ◌>>=◌}
use kova.Effects.Traces.{
  after, History, Always, Outcome, Any, Later, seq, checked, by_option, by_test, kept,
}
use kova.Admission.{ActiveReservation, reservation_key}
use kova.Receipts.{EffectWitness}
use kova.Reservations.{ReservationState, valid_grant_receipt_uid, valid_grant_receipt_digest}
use kova.Reservations.Ledger.{
  Reconciler, Backend, max_reservation_attempts, read_reservations, with_entry, cas_reservations,
}
use kova.Reservations.Grant.{grant_pinned_as}
use kova.Reservations.Grant.Pinning.{
  same_arm, pin_of, recover_pin, pin_grant_loop, pin_grant_receipt, seen_pin, or_fail,
}
use kova.Reservations.Steps.{Change}
use kova.Reservations.Evidence.{Act, Kind, Scope, Observed, Safe, Observed-Later}
use kova.Reservations.Safety.{read_reservations-Safe, cas-Safe}
use kova.Reservations.Safety.Changing.{Change-Justified}

-- The change is to pin this receipt to the build's grant.
abbrev pub PinsGrant : KovaBuild → EffectWitness → Scope
PinsGrant b w a =
    (e : ActiveReservation) × (a
      ≡ Act.changes (reservation_key b) (Kind.pin w.receipt_uid w.data_digest) e)

module _ (x : Backend) (r : Reconciler) where
  -- A read found the entry of the build with this receipt pinned to its grant.
  pub record PinnedGrant (h : History) (b : KovaBuild) (w : EffectWitness) : Type 0 where
    pub base : ConfigMap
    pub state : ReservationState
    pub entry : ActiveReservation
    pub observed : Observed x r h base state
    pub found : lookup (reservation_key b) state.active ≡ some entry
    pub its_pin : grant_pinned_as entry w ≡ true

  PinnedGrant-Later :
      (h g : History) (b : KovaBuild) (w : EffectWitness)
      → Later h g
      → PinnedGrant h b w
      → PinnedGrant g b w
  PinnedGrant-Later h g b w l p = record {
    base = p.base;
    state = p.state;
    entry = p.entry;
    observed = Observed-Later x r h g p.base p.state l p.observed;
    found = p.found;
    its_pin = p.its_pin;
  }

  seen_pin-Pinned :
      (h : History) (b : KovaBuild) (armed : ActiveReservation) (w : EffectWitness) (cm : ConfigMap)
      (st : ReservationState) (failure : Error)
      → Observed x r h cm st
      → Always
          (Safe x r (PinsGrant b w))
          (Outcome (λ k a. PinnedGrant k b w) Any)
          h
          (or_fail (seen_pin b armed w st) failure)
  unfolding seen_pin
  seen_pin-Pinned h b armed w cm st failure o = go (lookup (reservation_key b) st.active) refl
    where
      told :
          (e : ActiveReservation) (found : Bool)
          → lookup (reservation_key b) st.active ≡ some e
          → (same_arm e armed && grant_pinned_as e w) ≡ found
          → Always
              (Safe x r (PinsGrant b w))
              (Outcome (λ k a. PinnedGrant k b w) Any)
              h
              (or_fail (if found then some e else none) failure)
      told e true l q = record {
        base = cm;
        state = st;
        entry = e;
        observed = o;
        found = l;
        its_pin = ground arith;
      }
      told e false l q = tt

      go :
          (f : Option ActiveReservation)
          → lookup (reservation_key b) st.active ≡ f
          → Always (Safe x r (PinsGrant b w)) (Outcome (λ k a. PinnedGrant k b w) Any) h (
              or_fail
                (elim f [
                  | none ↦ none
                  | some e ↦ if same_arm e armed && grant_pinned_as e w then some e else none
                ])
                failure)
      go none l = tt
      go (some e) l = told e (same_arm e armed && grant_pinned_as e w) l refl

  recover_pin-Safe :
      (h : History) (b : KovaBuild) (armed : ActiveReservation) (w : EffectWitness)
      (failure : Error)
      → Always
          (Safe x r (PinsGrant b w))
          (Outcome (λ k a. PinnedGrant k b w) Any)
          h
          (recover_pin x r b armed w failure)
  unfolding recover_pin
  recover_pin-Safe h b armed w failure =
      after (Safe x r (PinsGrant b w)) (Outcome (λ g v. Observed x r g v.0 v.1) Any)
        (Outcome (λ k a. PinnedGrant k b w) Any) h (read_reservations x r b.namespace) _
        (read_reservations-Safe x r (PinsGrant b w) h b.namespace) (λ g seen l o. judged g seen o)
    where
      judged :
          (g : History) (seen : Result (ConfigMap × ReservationState))
          → Outcome (λ k v. Observed x r k v.0 v.1) Any g seen
          → Always
              (Safe x r (PinsGrant b w))
              (Outcome (λ k a. PinnedGrant k b w) Any)
              g
              (elim seen [ err e ↦ fail failure | ok v ↦ or_fail (seen_pin b armed w v.1) failure ])
      judged g (err e) o = tt
      judged g (ok v) o = seen_pin-Pinned g b armed w v.0 v.1 failure o

  pinned_read-Safe :
      (h : History) (b : KovaBuild) (armed : ActiveReservation) (w : EffectWitness)
      → Always (Safe x r (PinsGrant b w)) (Outcome (λ k a. PinnedGrant k b w) Any) h (
          read_reservations x r b.namespace >>= λ o.
          or_fail (seen_pin b armed w o.1) Error.receipt_changed)
  pinned_read-Safe h b armed w =
      seq (Safe x r (PinsGrant b w)) (λ g v. Observed x r g v.0 v.1) (λ k a. PinnedGrant k b w) h
        (read_reservations x r b.namespace) _
        (read_reservations-Safe x r (PinsGrant b w) h b.namespace)
        (λ g v l o. seen_pin-Pinned g b armed w v.0 v.1 Error.receipt_changed o)

  pin_grant_loop-Safe :
      (h : History) (b : KovaBuild) (armed : ActiveReservation) (w : EffectWitness) (left : ℕ)
      → Always
          (Safe x r (PinsGrant b w))
          (Outcome (λ k a. PinnedGrant k b w) Any)
          h
          (pin_grant_loop x r b armed w left)
  unfolding pin_grant_loop
  pin_grant_loop-Safe h b armed w zero = tt
  pin_grant_loop-Safe h b armed w (suc left) =
      seq (Safe x r (PinsGrant b w)) (λ g v. Observed x r g v.0 v.1) (λ k a. PinnedGrant k b w) h
        (read_reservations x r b.namespace) _
        (read_reservations-Safe x r (PinsGrant b w) h b.namespace)
        (λ g v l o.
          by_option (Safe x r (PinsGrant b w)) (Outcome (λ k a. PinnedGrant k b w) Any) g
            (lookup (reservation_key b) v.1.active) _ _ (λ absent. tt)
            (λ e found.
              checked (Safe x r (PinsGrant b w)) (λ k a. PinnedGrant k b w) g
                (same_arm e armed && not e.grant_cleanup_ready) Error.failed _
                (λ same.
                  by_test (Safe x r (PinsGrant b w)) (Outcome (λ k a. PinnedGrant k b w) Any) g
                    (is_empty e.grant_receipt_uid) _ _
                    (λ unpinned.
                      pin g v.0 v.1 e o found unpinned (ground arith)
                        (λ k. pin_grant_loop-Safe k b armed w left))
                    (λ pinned.
                      by_test (Safe x r (PinsGrant b w)) (Outcome (λ k a. PinnedGrant k b w) Any) g
                        (grant_pinned_as e w) _ _
                        (λ q. record {
                          base = v.0;
                          state = v.1;
                          entry = e;
                          observed = o;
                          found = found;
                          its_pin = q;
                        })
                        (λ q. tt)))))
    where
      pin :
          (g : History) (cm : ConfigMap) (st : ReservationState) (e : ActiveReservation)
          → Observed x r g cm st
          → lookup (reservation_key b) st.active ≡ some e
          → is_empty e.grant_receipt_uid ≡ true
          → e.grant_cleanup_ready ≡ false
          → ((g' : History)
              → Always
                  (Safe x r (PinsGrant b w))
                  (Outcome (λ k a. PinnedGrant k b w) Any)
                  g'
                  (pin_grant_loop x r b armed w left))
          → Always (Safe x r (PinsGrant b w)) (Outcome (λ k a. PinnedGrant k b w) Any) g (
              cas_reservations x r cm
                (with_entry st b (pin_of e w))
                left
                (pin_grant_loop x r b armed w left)
                (recover_pin x r b armed w)
                (read_reservations x r b.namespace >>= λ o.
                  or_fail (seen_pin b armed w o.1) Error.receipt_changed))
      pin g cm st e o found unpinned dirty again =
          cas-Safe x r (PinsGrant b w) (λ k a. PinnedGrant k b w) g cm
            (with_entry st b (pin_of e w)) left (pin_grant_loop x r b armed w left)
            (recover_pin x r b armed w)
            (read_reservations x r b.namespace >>= λ o.
              or_fail (seen_pin b armed w o.1) Error.receipt_changed)
            (λ bytes q.
              Change-Justified x r (PinsGrant b w) g cm st b e (pin_of e w) bytes o found
                (Change.pin w.receipt_uid w.data_digest unpinned dirty refl) (e, refl) q)
            (λ g' l'. again g') (λ g' failure l'. recover_pin-Safe g' b armed w failure)
            (λ g' l' a over. pinned_read-Safe g' b armed w)

  -- The same, with a UID and a digest that are well formed.
  abbrev pub ValidPin : History → KovaBuild → EffectWitness → Type 0
  ValidPin h b w =
      ((valid_grant_receipt_uid w.receipt_uid && valid_grant_receipt_digest w.data_digest) ≡ true)
      × PinnedGrant h b w

  pub ValidPin-Later :
      (h g : History) (b : KovaBuild) (w : EffectWitness)
      → Later h g
      → ValidPin h b w
      → ValidPin g b w
  ValidPin-Later h g b w l (q, p) = (q, PinnedGrant-Later h g b w l p)

  pub pin_grant_receipt-Safe :
      (h : History) (b : KovaBuild) (armed : ActiveReservation) (w : EffectWitness)
      → Always
          (Safe x r (PinsGrant b w))
          (Outcome (λ k a. ValidPin k b w) Any)
          h
          (pin_grant_receipt x r b armed w)
  unfolding pin_grant_receipt
  pin_grant_receipt-Safe h b armed w =
      checked (Safe x r (PinsGrant b w)) (λ k a. ValidPin k b w) h
        (valid_grant_receipt_uid w.receipt_uid && valid_grant_receipt_digest w.data_digest)
        Error.receipt_changed _
        (λ q.
          kept (Safe x r (PinsGrant b w)) (λ k a. PinnedGrant k b w) (λ k a. ValidPin k b w) h
            (pin_grant_loop x r b armed w max_reservation_attempts)
            (pin_grant_loop-Safe h b armed w max_reservation_attempts) (λ k a l p. (q, p)))
