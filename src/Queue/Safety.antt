-- ===== src/Queue/Safety.antt =====
-- The operations of the queue ledger (internal/service/queueadmission/ledger.go) against the
-- obligations of Queue/Evidence: its reads and writes here, the operations in the children.
pub mod Decoded
pub mod Reads
pub mod Reserving
pub mod Pinning
pub mod Marking
pub mod Deleting
pub mod Removing
pub mod Releasing
pub mod Rejecting
pub mod Verifying
use kova.Base.{
  ℕ, zero, suc, ◌≡◌, refl, sym, ◌∙◌, ◌⊎◌, inl, inr, Bool, true, false, not, ◌&&◌, List, [], ◌∷◌,
  Option, none, some, In, here, there, arith, if◌then◌else◌, Bool-cases,
}
use kova.Base.Text.{Text, is_empty}
use kova.Base.Dict.{Dict, lookup, insert, lookup-insert}
use kova.Effects.{
  Error, Result, ok, err, ConfigMap, Role, Request, Reply, Prog, ret, call, bind, M, pure, fail,
  on_ok, require, from_result, is_conflict,
}
use kova.Effects.Traces.{
  Event, History, event, Always, Always-bind, Outcome, Any, Later, after, passed, seq, checked,
}
use kova.Queue.{Intent, State, Externals, ledger_name, encode_state}
use kova.Queue.Store.{
  Genesis, Store, read, write, wait_cas, retry_of, cas_write, lookup_intent, decode_ledger,
  with_data, before_read, identity_of, one_entry,
}
use kova.Queue.Receipt.{receipt_namespace_of, nonce_receipt_name, deletable}
use kova.Queue.Steps.{Step}
use kova.Queue.Evidence.{Cleared, Observed, Wrote, Accepted, FoundEntry, Scope, Permitted, Safe}

module _ (x : Externals) (s : Store) where
  insert_keeps :
      (k j : Text) (v w : Intent) (m : Dict Intent)
      → lookup j m ≡ some w
      → lookup j (insert k v m) ≡ none
      → ⊥
  insert_keeps k j v w m f n = ground (arith, sym (lookup-insert k j v m) ∙ n)

  -- An insertion removes nothing.
  pub insert-Cleared :
      (h : History) (k : Text) (v : Intent) (m : Dict Intent) (id : Text) (e : Intent)
      → lookup id m ≡ some e
      → lookup id (insert k v m) ≡ none
      → Cleared x s h e
  insert-Cleared h k v m id e f n = absurd (insert_keeps k id v e m f n)

module _ (x : Externals) (s : Store) (K : Scope) where
  before_read-Safe : (h : History) → Always (Safe x s K) (Outcome Any Any) h (before_read s)
  before_read-Safe h = go s.genesis
    where
      go :
          (g : Option Genesis)
          → Always (Safe x s K) (Outcome Any Any) h (elim g [
            | none ↦ pure tt
            | some _ ↦
                bind (require s.has_reader Error.failed) (on_ok (λ _. call Request.guard_check ret))
          ])
      go none = tt
      go (some g) =
          checked (Safe x s K) Any h s.has_reader Error.failed _ (λ _. (tt, λ r. any_result r))
        where
          any_result : (r : Result (Unit {0})) → Outcome Any Any (event Request.guard_check r ∷ h) r
          any_result (ok a) = tt
          any_result (err e) = tt

  -- A read makes no change and returns what it saw.
  pub read-Safe :
      (h : History) → Always (Safe x s K) (Outcome (λ g v. Observed x s g v.0 v.1) Any) h (read x s)
  unfolding read
  read-Safe h =
      seq (Safe x s K) Any (λ g v. Observed x s g v.0 v.1) h (before_read s) _ (before_read-Safe h)
        λ g a l o. (
          tt,
          λ r.
              passed (Safe x s K) (λ g v. Observed x s g v.0 v.1) _ r _
                (λ cm e.
                  passed (Safe x s K) (λ g v. Observed x s g v.0 v.1) _ (identity_of s cm) _
                    (λ u i.
                      passed (Safe x s K) (λ g v. Observed x s g v.0 v.1) _ (decode_ledger x s cm) _
                        (λ st d. record { got = rw e here; decoded = d }))),
        )

  pub lookup_intent-Safe :
      (h : History) (id : Text)
      → Always
          (Safe x s K)
          (Outcome
            (λ g o.
              (cm : ConfigMap) × (st : State) × Observed x s g cm st × (lookup id st.intents ≡ o))
            Any)
          h
          (lookup_intent x s id)
  unfolding lookup_intent
  lookup_intent-Safe h id =
      seq (Safe x s K) (λ g v. Observed x s g v.0 v.1)
        (λ g o. (cm : ConfigMap) × (st : State) × Observed x s g cm st × (lookup id st.intents ≡ o))
        h (read x s) _ (read-Safe h) (λ g v l o. (v.0, v.1, o, refl))

  -- A write that is justified; if it is accepted, the history shows it.
  pub write-Safe :
      (h : History) (cm : ConfigMap) (next : State)
      → ((bytes : Text) → encode_state x next ≡ ok bytes → Permitted x s K h cm bytes)
      → Always (Safe x s K) (Outcome (λ g u. Accepted x s g next) Any) h (write x s cm next)
  unfolding write
  write-Safe h cm next j =
      checked (Safe x s K) (λ g u. Accepted x s g next) h (one_entry cm) Error.failed _
        (λ _.
          passed (Safe x s K) (λ g u. Accepted x s g next) h (encode_state x next) _
            (λ bytes e. go s.genesis bytes e))
    where
      told :
          (r : Request) (bytes : Text)
          → encode_state x next ≡ ok bytes
          → (back : Result (Unit {0}) → Reply r)
          → ((h' : History) → In (event r (back (ok tt))) h' → Wrote x s h' cm bytes)
          → (a : Result (Unit {0}))
          → Outcome (λ g u. Accepted x s g next) Any (event r (back a) ∷ h) a
      told r bytes e back w (ok tt) = record {
        base = cm;
        bytes = bytes;
        encoded = e;
        wrote = w _ here;
      }
      told r bytes e back w (err f) = tt

      go :
          (g : Option Genesis) (bytes : Text)
          → encode_state x next ≡ ok bytes
          → Always (Safe x s K) (Outcome (λ g' u. Accepted x s g' next) Any) h (elim g [
            | none ↦ call (Request.update_config (with_data cm bytes)) ret
            | some _ ↦ call (Request.guard_patch Role.queue cm bytes) ret
          ])
      go none bytes e = (
        (cm, bytes, refl, j bytes e),
        told (Request.update_config (with_data cm bytes)) bytes e (λ a. a) (λ h' i. inl i),
      )
      go (some g) bytes e = (
        (refl, j bytes e),
        told (Request.guard_patch Role.queue cm bytes) bytes e (λ a. a) (λ h' i. inr i),
      )

  wait_cas-Safe :
      {A : Type 0} (Q : History → A → Type 0) (h : History) (n : ℕ) (m : M A)
      → ((g : History) → Later h g → Always (Safe x s K) (Outcome Q Any) g m)
      → Always (Safe x s K) (Outcome Q Any) h (bind (wait_cas n) (on_ok (λ _. m)))
  unfolding wait_cas
  wait_cas-Safe Q h n m k =
      (tt, λ r. passed (Safe x s K) Q _ r (λ _. m) (λ u e. k _ (λ ev i. there i)))

  -- One turn of a CAS loop.
  pub cas_write-Safe :
      {A : Type 0} (Q : History → A → Type 0) (h : History) (cm : ConfigMap) (next : State)
      (left : ℕ) (again : M A) (lost : Error → M A) (done : M A)
      → ((bytes : Text) → encode_state x next ≡ ok bytes → Permitted x s K h cm bytes)
      → ((g : History) → Later h g → Always (Safe x s K) (Outcome Q Any) g again)
      → ((g : History) (e : Error) → Later h g → Always (Safe x s K) (Outcome Q Any) g (lost e))
      → ((g : History)
          → Later h g
          → Accepted x s g next
          → Always (Safe x s K) (Outcome Q Any) g done)
      → Always (Safe x s K) (Outcome Q Any) h (cas_write x s cm next left again lost done)
  cas_write-Safe Q h cm next left again lost done j a l d =
      after (Safe x s K) (Outcome (λ g u. Accepted x s g next) Any) (Outcome Q Any) h
        (write x s cm next) _ (write-Safe h cm next j) (λ g r later o. outcome g r later o)
    where
      on_error :
          (g : History) (e : Error) (b : Bool)
          → Later h g
          → Always
              (Safe x s K)
              (Outcome Q Any)
              g
              (if b then bind (wait_cas (retry_of left)) (on_ok (λ _. again)) else lost e)
      on_error g e true later =
          wait_cas-Safe Q g (retry_of left) again (λ g' k. a g' (λ ev i. k ev (later ev i)))
      on_error g e false later = l g e later

      outcome :
          (g : History) (r : Result (Unit {0}))
          → Later h g
          → Outcome (λ g' u. Accepted x s g' next) Any g r
          → Always (Safe x s K) (Outcome Q Any) g (elim r [
            | ok u ↦ done
            | err e ↦
                if is_conflict e
                then bind (wait_cas (retry_of left)) (on_ok (λ _. again))
                else lost e
          ])
      outcome g (ok u) later o = d g later o
      outcome g (err e) later o = on_error g e (is_conflict e) later
