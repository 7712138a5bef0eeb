-- ===== src/Receipts/Once.antt =====
-- The one creation of a receipt (internal/service/recoveryreceipt/effect.go, recordEffectOnce): when
-- it yields a witness.
use kova.Base.{
  ◌≡◌, refl, Bool, true, false, ◌||◌, is_some, ◌∷◌, Option, none, some, In, here, there, arith,
  if◌then◌else◌,
}
use kova.Base.Text.{Text, text_eq, text_eq→eq}
use kova.Effects.{Error, Result, ok, err, ConfigMap, Request, from_result, is_rejection, rejected}
use kova.Effects.Traces.{History, event, Always, Outcome, Any, checked, by_result}
use kova.Receipts.{Payloads, EffectWitness, qualify_effect, judge_create, record_effect_once}

-- What a witness says of the answer to the creation: it was no refusal, and the object in it, if
-- there is one, is the receipt with the UID that was read back.
pub record Owned (p : Payloads) (cm : ConfigMap) (kind : Text) (created : Option ConfigMap)
    (failure : Option Error) (w v : EffectWitness) : Type 0 where
  pub its_own_witness : v ≡ w
  pub not_refused : rejected failure ≡ false
  pub some_answer : (is_some created || is_some failure) ≡ true
  pub same_uid :
      (c : ConfigMap)
      → created ≡ some c
      → (u : EffectWitness) × (qualify_effect p cm c kind ≡ ok u) × (u.receipt_uid ≡ w.receipt_uid)

judge_create-Owned :
    (p : Payloads) (cm : ConfigMap) (kind : Text) (c : Option ConfigMap) (f : Option Error)
    (w v : EffectWitness)
    → judge_create p cm kind c f w ≡ ok v
    → Owned p cm kind c f w v
unfolding judge_create
judge_create-Owned p cm kind none none w v h = absurd (ground arith)
judge_create-Owned p cm kind none (some e) w v h = refused (is_rejection e) refl h
  where
    refused :
        (b : Bool)
        → is_rejection e ≡ b
        → (if b then err Error.receipt_unconfirmed else ok w) ≡ ok v
        → Owned p cm kind none (some e) w v
    refused true q i = absurd (ground arith)
    refused false q i = record {
      its_own_witness = ground arith;
      not_refused = q;
      some_answer = refl;
      same_uid = λ c k. absurd (ground arith);
    }
judge_create-Owned p cm kind (some a) f w v h = qualified (qualify_effect p cm a kind) refl h
  where
    owned :
        (u : EffectWitness) (same refused : Bool)
        → qualify_effect p cm a kind ≡ ok u
        → text_eq u.receipt_uid w.receipt_uid ≡ same
        → rejected f ≡ refused
        → (if same
            then if refused then err Error.receipt_unconfirmed else ok w
            else err Error.receipt_changed)
          ≡ ok v
        → Owned p cm kind (some a) f w v
    owned u false refused q k l i = absurd (ground arith)
    owned u true true q k l i = absurd (ground arith)
    owned u true false q k l i = record {
      its_own_witness = ground arith;
      not_refused = l;
      some_answer = refl;
      same_uid = λ c m. (u, rw (← same_map c m) q, text_eq→eq u.receipt_uid w.receipt_uid k);
    }
      where
        same_map : (c : ConfigMap) → some a ≡ some c → a ≡ c
        same_map c m = ground arith

    qualified :
        (q : Result EffectWitness)
        → qualify_effect p cm a kind ≡ q
        → (elim q [
          | err failure ↦ err Error.receipt_changed
          | ok u ↦
              if text_eq u.receipt_uid w.receipt_uid
              then if rejected f then err Error.receipt_unconfirmed else ok w
              else err Error.receipt_changed
        ])
          ≡ ok v
        → Owned p cm kind (some a) f w v
    qualified (err e) q i = absurd (ground arith)
    qualified (ok u) q i = owned u (text_eq u.receipt_uid w.receipt_uid) (rejected f) q refl refl i

-- The history has the creation with an answer that makes the witness the caller's own, and the object
-- read back is the receipt.
pub record Confirmed (p : Payloads) (cm : ConfigMap) (kind : Text) (h : History) (w : EffectWitness)
    : Type 0 where
  pub created : Option ConfigMap
  pub failure : Option Error
  pub readback : ConfigMap
  pub made : In (event (Request.create_receipt cm) (created, failure)) h
  pub read : In (event (Request.get_config cm.namespace cm.name) (ok readback)) h
  pub qualified : qualify_effect p cm readback kind ≡ ok w
  pub owned : Owned p cm kind created failure w w

-- Whatever the environment answers, the creation of a receipt yields a witness only if the API
-- server did not refuse the creation, the object read back afterwards is the receipt that the
-- witness describes, and the object in the answer, if there is one, is the receipt with the same
-- UID; a refusal, a foreign object or a missing answer is an error.
pub record_effect_once-Confirmed :
    (p : Payloads) (h : History) (has_api : Bool) (cm : ConfigMap) (kind : Text)
    → Always
        (λ g q. Unit {0})
        (Outcome (λ g w. Confirmed p cm kind g w) Any)
        h
        (record_effect_once p has_api cm kind)
unfolding record_effect_once
record_effect_once-Confirmed p h has_api cm kind =
    checked (λ g q. Unit {0}) (λ g w. Confirmed p cm kind g w) h has_api Error.receipt_invalid _
      (λ q. (
        tt,
        λ made. (
          tt,
          λ seen.
              by_result (λ g q. Unit {0}) (Outcome (λ g w. Confirmed p cm kind g w) Any) _ seen _ _
                (λ readback k.
                  by_result (λ g q. Unit {0}) (Outcome (λ g w. Confirmed p cm kind g w) Any) _
                    (qualify_effect p cm readback kind) _ _
                    (λ w q.
                      judged made readback seen w k q (judge_create p cm kind made.0 made.1 w) refl)
                    (λ e k'. tt))
                (λ e k. tt),
        ),
      ))
  where
    judged :
        (made : Option ConfigMap × Option Error) (readback : ConfigMap) (seen : Result ConfigMap)
        (w : EffectWitness)
        → seen ≡ ok readback
        → qualify_effect p cm readback kind ≡ ok w
        → (j : Result EffectWitness) → judge_create p cm kind made.0 made.1 w ≡ j
        → Always
            (λ g q. Unit {0})
            (Outcome (λ g v. Confirmed p cm kind g v) Any)
            (event (Request.get_config cm.namespace cm.name) seen
              ∷ event (Request.create_receipt cm) made
              ∷ h)
            (from_result j)
    judged made readback seen w k q (err e) l = tt
    judged made readback seen w k q (ok v) l =
        let own = judge_create-Owned p cm kind made.0 made.1 w v l in
        record {
          created = made.0;
          failure = made.1;
          readback = readback;
          made = there here;
          read = rw (← k) here;
          qualified = rw own.its_own_witness q;
          owned = rw own.its_own_witness (rw own.its_own_witness at own);
        }
