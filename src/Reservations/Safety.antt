-- ===== src/Reservations/Safety.antt =====
-- The operations of the reservation ledger (internal/service/buildcontroller/reservation.go,
-- admission.go, grant_receipt.go, pod_receipt.go) against the obligations of Reservations/Evidence:
-- its reads and writes here, the operations in the children.
pub mod Changing
pub mod Fencing
pub mod Completing
pub mod Beginning
pub mod Granting
pub mod Discarding
pub mod Releasing
pub mod Removing
pub mod Admitting
pub mod Issuing
mod Tests
use kova.Base.{
  ℕ, ◌≡◌, refl, ◌⊎◌, inl, inr, Bool, true, false, not, ◌&&◌, ◌==◌, ◌∷◌, Option, none, some, In,
  here, there, if◌then◌else◌, length,
}
use kova.Base.Text.{Text, is_empty}
use kova.Base.Dict.{lookup, insert, lookup-insert, Dict}
use kova.Api.{KovaBuild, value_of}
use kova.Effects.{
  Error, Result, ok, err, ConfigMap, Role, Request, Reply, Prog, ret, call, bind, M, pure, on_ok,
  require, is_conflict, check_guard, get_config_map, observe, observed_read, attempt, ask_ctx,
  from_result, joined, ◌>>◌, ◌>>=◌,
}
use kova.Effects.Reads.{
  Reads, Free, Succeeds, Reads-Always, Reads-mono, any_success, read_rules, Free-option,
}
use kova.Effects.Traces.{
  History, event, Always, Always-mono, Outcome, Any, Later, after, passed, seq, checked,
}
use kova.Admission.{ActiveReservation}
use kova.Queue.Store.{is_nil}
use kova.Reservations.{ReservationState, encode_reservations, reservation_data_key}
use kova.Reservations.Ledger.{
  Original, Reconciler, Backend, reservation_name, before_active, active_identity, decode_active,
  read_reservations, read_reservations_observed, write_reservations, wait_reservation_cas,
  retry_number, cas_reservations, with_reservations, one_reservation,
}
use kova.Reservations.Evidence.{
  Observed, Wrote, Accepted, Cleared, Scope, Permitted, Safe, read_is_Safe,
}
use kova.Base.{arith, sym, ◌∙◌}

module _ (x : Backend) (r : Reconciler) where
  insert_keeps :
      (k j : Text) (v w : ActiveReservation) (m : Dict ActiveReservation)
      → lookup j m ≡ some w
      → lookup j (insert k v m) ≡ none
      → ⊥
  insert_keeps k j v w m f n = ground (arith, sym (lookup-insert k j v m) ∙ n)

  -- An insertion removes nothing.
  pub inserted-Cleared :
      (h : History) (k : Text) (v : ActiveReservation) (m : Dict ActiveReservation) (key : Text)
      (e : ActiveReservation)
      → lookup key m ≡ some e
      → lookup key (insert k v m) ≡ none
      → Cleared x r h key e
  inserted-Cleared h k v m key e f n = absurd (insert_keeps k key v e m f n)

module _ (x : Backend) (r : Reconciler) (K : Scope) where
  claimed :
      {A : Type 0} (Q : A → Type 0) (g : History) (a : Result A)
      → Succeeds Q a
      → Outcome (λ g' b. Q b) Any g a
  claimed Q g (ok a) q = q
  claimed Q g (err e) q = tt

  -- A program of reads is safe; `Q` is its claim on a success.
  pub Reads-Safe :
      {A : Type 0} (Q : A → Type 0) (h : History) (m : M A)
      → Reads (Succeeds Q) m
      → Always (Safe x r K) (Outcome (λ g a. Q a) Any) h m
  Reads-Safe Q h m s =
      Always-mono (Safe x r K) (λ g a. Succeeds Q a) (Outcome (λ g a. Q a) Any) h m (claimed Q)
        (Reads-Always (Safe x r K) (Succeeds Q) h m (read_is_Safe x r K) s)

  pub Free-Safe :
      {A : Type 0} (h : History) (m : M A)
      → Reads Free m
      → Always (Safe x r K) (Outcome Any Any) h m
  Free-Safe h m s = Reads-Safe Free h m (Reads-mono Free (Succeeds Free) m (λ a q. any_success a) s)

  before_active-Reads : Reads Free (before_active r)
  before_active-Reads =
      Free-option r.genesis _ _ (search (read_rules)) (λ g. search (read_rules) depth 30)

  -- A read makes no change and returns what it saw.
  pub read_reservations-Safe :
      (h : History) (ns : Text)
      → Always
          (Safe x r K)
          (Outcome (λ g v. Observed x r g v.0 v.1) Any)
          h
          (read_reservations x r ns)
  unfolding read_reservations
  read_reservations-Safe h ns =
      seq (Safe x r K) Any (λ g v. Observed x r g v.0 v.1) h (before_active r) _
        (Free-Safe h (before_active r) before_active-Reads)
        λ g a l o. (
          tt,
          λ answer.
              passed (Safe x r K) (λ g v. Observed x r g v.0 v.1) _ answer _
                (λ cm e.
                  passed (Safe x r K) (λ g v. Observed x r g v.0 v.1) _ (active_identity r cm) _
                    (λ u i.
                      passed (Safe x r K) (λ g v. Observed x r g v.0 v.1) _ (decode_active x r cm) _
                        (λ st d. record { namespace = ns; got = rw e here; decoded = d }))),
        )

  -- The start of a turn that asks its context first.
  pub checked_read-Safe :
      (h : History) (ns : Text)
      → Always
          (Safe x r K)
          (Outcome (λ g v. Observed x r g v.0 v.1) Any)
          h
          (ask_ctx >> read_reservations x r ns)
  checked_read-Safe h ns = (
    tt,
    λ c.
        passed (Safe x r K) (λ g v. Observed x r g v.0 v.1) _ c _
          (λ u q. read_reservations-Safe _ ns),
  )

  -- An observation keeps the claim on its reads, if the claim is kept as the history grows.
  pub observe-Safe :
      {A : Type 0} (Q : History → A → Type 0) (h : History) (m : M A)
      → ((g k : History) (a : A) → Later g k → Q g a → Q k a)
      → ((g : History) → Later h g → Always (Safe x r K) (Outcome Q Any) g m)
      → Always (Safe x r K) (Outcome Q Any) h (observe m)
  unfolding observe
  observe-Safe {A} Q h m keep s = (
    tt,
    λ first. passed (Safe x r K) Q _ first _ (λ u q.
        after (Safe x r K) (Outcome Q Any) (Outcome Q Any) _ m _ (s _ (λ ev i. there i))
          (λ g answer l o. (tt, λ c. (tt, λ d. still g c d answer o)))),
  )
    where
      still :
          (g : History) (c d : Result (Unit {0})) (answer : Result A)
          → Outcome Q Any g answer
          → Outcome Q Any
              (event Request.guard_check d ∷ event Request.ctx_err c ∷ g)
              (joined (joined answer c) d)
      still g (ok u) (ok v) (ok a) o = keep g _ a (λ ev i. there (there i)) o
      still g (ok u) (ok v) (err e) o = tt
      still g (ok u) (err f) (ok a) o = tt
      still g (ok u) (err f) (err e) o = tt
      still g (err f) (ok v) (ok a) o = tt
      still g (err f) (ok v) (err e) o = tt
      still g (err f) (err k) (ok a) o = tt
      still g (err f) (err k) (err e) o = tt

  -- The history holds an accepted write of the state over this ConfigMap.
  abbrev pub Over : ConfigMap → ReservationState → History → Type 0
  Over cm next g = (a : Accepted x r g next) × (a.base ≡ cm)

  -- A write that is justified; if it is accepted, the history shows it.
  pub write_reservations-Safe :
      (h : History) (cm : ConfigMap) (next : ReservationState)
      → ((bytes : Text) → encode_reservations x.codec next ≡ ok bytes → Permitted x r K h cm bytes)
      → Always (Safe x r K) (Outcome (λ g u. Over cm next g) Any) h (write_reservations x r cm next)
  unfolding write_reservations
  write_reservations-Safe h cm next j =
      checked (Safe x r K) (λ g u. Over cm next g) h (one_reservation cm) Error.failed _
        (λ _.
          passed (Safe x r K) (λ g u. Over cm next g) h (encode_reservations x.codec next) _
            (λ bytes e. go r.genesis bytes e))
    where
      told :
          (q : Request) (bytes : Text)
          → encode_reservations x.codec next ≡ ok bytes
          → (back : Result (Unit {0}) → Reply q)
          → ((h' : History) → In (event q (back (ok tt))) h' → Wrote x r h' cm bytes)
          → (a : Result (Unit {0})) → Outcome (λ g u. Over cm next g) Any (event q (back a) ∷ h) a
      told q bytes e back w (ok tt) =
          (record { base = cm; bytes = bytes; encoded = e; wrote = w _ here }, refl)
      told q bytes e back w (err f) = tt

      go :
          (g : Option Original) (bytes : Text)
          → encode_reservations x.codec next ≡ ok bytes
          → Always (Safe x r K) (Outcome (λ g' u. Over cm next g') Any) h (elim g [
            | none ↦ call (Request.update_config (with_reservations cm bytes)) ret
            | some _ ↦ call (Request.guard_patch Role.active cm bytes) ret
          ])
      go none bytes e = (
        (cm, bytes, refl, j bytes e),
        told (Request.update_config (with_reservations cm bytes)) bytes e (λ a. a) (λ h' i. inl i),
      )
      go (some g) bytes e = (
        (refl, j bytes e),
        told (Request.guard_patch Role.active cm bytes) bytes e (λ a. a) (λ h' i. inr i),
      )

  pub wait-Safe :
      {A : Type 0} (Q : History → A → Type 0) (h : History) (n : ℕ) (m : M A)
      → ((g : History) → Later h g → Always (Safe x r K) (Outcome Q Any) g m)
      → Always (Safe x r K) (Outcome Q Any) h (bind (wait_reservation_cas n) (on_ok (λ _. m)))
  unfolding wait_reservation_cas
  wait-Safe Q h n m k =
      (tt, λ answer. passed (Safe x r K) Q _ answer (λ _. m) (λ u e. k _ (λ ev i. there i)))

  -- One turn of a loop that writes.
  pub cas-Safe :
      {A : Type 0} (Q : History → A → Type 0) (h : History) (cm : ConfigMap)
      (next : ReservationState) (left : ℕ) (again : M A) (lost : Error → M A) (done : M A)
      → ((bytes : Text) → encode_reservations x.codec next ≡ ok bytes → Permitted x r K h cm bytes)
      → ((g : History) → Later h g → Always (Safe x r K) (Outcome Q Any) g again)
      → ((g : History) (e : Error) → Later h g → Always (Safe x r K) (Outcome Q Any) g (lost e))
      → ((g : History)
          → Later h g
          → (a : Accepted x r g next) → a.base ≡ cm
          → Always (Safe x r K) (Outcome Q Any) g done)
      → Always (Safe x r K) (Outcome Q Any) h (cas_reservations x r cm next left again lost done)
  cas-Safe Q h cm next left again lost done j a l d =
      after (Safe x r K) (Outcome (λ g u. Over cm next g) Any) (Outcome Q Any) h
        (write_reservations x r cm next) _ (write_reservations-Safe h cm next j)
        (λ g w later o. outcome g w later o)
    where
      on_error :
          (g : History) (e : Error) (b : Bool)
          → Later h g
          → Always (Safe x r K) (Outcome Q Any) g (
              if b
              then bind (wait_reservation_cas (retry_number left)) (on_ok (λ _. again))
              else lost e)
      on_error g e true later =
          wait-Safe Q g (retry_number left) again (λ g' k. a g' (λ ev i. k ev (later ev i)))
      on_error g e false later = l g e later

      outcome :
          (g : History) (w : Result (Unit {0}))
          → Later h g
          → Outcome (λ g' u. Over cm next g') Any g w
          → Always (Safe x r K) (Outcome Q Any) g (elim w [
            | ok u ↦ done
            | err e ↦
                if is_conflict e
                then bind (wait_reservation_cas (retry_number left)) (on_ok (λ _. again))
                else lost e
          ])
      outcome g (ok u) later o = d g later o.0 o.1
      outcome g (err e) later o = on_error g e (is_conflict e) later
