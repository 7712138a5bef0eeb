-- ===== src/Reservations/Cluster/Writing.antt =====
-- The history of an entry of the reservation ledger over the writes that the operations of any number
-- of replicas (internal/service/buildcontroller/reservation.go, admission.go, grant_receipt.go,
-- pod_receipt.go) get accepted by the API server.
use kova.Base.{
  ◌≡◌, refl, sym, ◌∙◌, ap, ◌⊎◌, inl, inr, true, false, [], ◌∷◌, some, In, subst, List, ◌==◌,
}
use kova.Base.Text.{Text, is_empty}
use kova.Base.Dict.{lookup, Distinct}
use kova.Api.{KovaBuild}
use kova.Api.Pods.{Pod}
use kova.Templates.{TemplateCodec}
use kova.Effects.{ok, ConfigMap, Role, Request}
use kova.Effects.Traces.{History, event, Asks, asked}
use kova.Admission.{ActiveReservation, reservation_key}
use kova.Reservations.{
  ReservationState, reservation_data_key, encode_reservations, validate_reservation_limits,
}
use kova.Reservations.Ledger.{
  Reconciler, Backend, reservation_name, decode_active, with_reservations, receipt_version,
}
use kova.Reservations.Fences.{
  fence_reservation, release_reservation, begin_pod_create, complete_pod_create,
}
use kova.Reservations.Admit.{admission}
use kova.Reservations.Grant.Pinning.{finish_fresh_grant}
use kova.Reservations.Pod.Issuing.{finish_fresh_pod_attempt}
use kova.Reservations.Steps.{Extends, Gone, reservation_history}
use kova.Reservations.Evidence.{Scope, Justified, Safe, within}
use kova.Reservations.Decoded.{decode_active-Checked}
use kova.Reservations.Safety.Fencing.{Fences, fence_reservation-Safe}
use kova.Reservations.Safety.Discarding.{Cleans}
use kova.Reservations.Safety.Removing.{release_reservation-Safe}
use kova.Reservations.Safety.Beginning.{BeginsOne, begin_pod_create-Safe}
use kova.Reservations.Safety.Completing.{Completes}
use kova.Reservations.Safety.Completing.Genesis.{complete_pod_create-Safe}
use kova.Reservations.Safety.Admitting.{Allocates}
use kova.Reservations.Safety.Admitting.Loop.{admission-Safe}
use kova.Reservations.Safety.Granting.{Grants}
use kova.Reservations.Safety.Granting.Finishing.{finish_fresh_grant-Safe}
use kova.Reservations.Safety.Issuing.{Issues}
use kova.Reservations.Safety.Issuing.Finishing.{finish_fresh_pod_attempt-Safe}
use kova.Reservations.Cluster.{header_limits, Commit, Commits, reservation-Commits}

-- The operations of the ledger, with their arguments; a release is of a build with a UID.
pub data Operation : Type 0 where
  fences : (b : KovaBuild) → Operation
  releases : (b : KovaBuild) → is_empty b.uid ≡ false → Operation
  begins : (b : KovaBuild) → Operation
  completes : (b : KovaBuild) (nonce : Text) → Operation
  admits : (b : KovaBuild) → Operation
  finishes : (b : KovaBuild) (original : ActiveReservation) → Operation
  issues : (t : TemplateCodec) (b : KovaBuild) (p : Pod) (nonce : Text) → Operation

-- All changes.
abbrev Everything : Scope
Everything a = Unit {0}

module _ (x : Backend) (r : Reconciler) where
  -- Some answers lead the operation to this request after this history.
  abbrev pub Requests : Operation → History → Request → Type 0
  Requests (Operation.fences b) g q = Asks [] (fence_reservation x r b) g q
  Requests (Operation.releases b n) g q = Asks [] (release_reservation x r b) g q
  Requests (Operation.begins b) g q = Asks [] (begin_pod_create x r b) g q
  Requests (Operation.completes b nonce) g q = Asks [] (complete_pod_create x r b nonce) g q
  Requests (Operation.admits b) g q = Asks [] (admission x r b) g q
  Requests (Operation.finishes b original) g q = Asks [] (finish_fresh_grant x r b original) g q
  Requests (Operation.issues t b p nonce) g q =
      Asks [] (finish_fresh_pod_attempt x t r b p nonce) g q

  requested-Safe :
      (o : Operation) (g : History) (q : Request) → Requests o g q → Safe x r Everything g q
  requested-Safe (Operation.fences b) g q i =
      asked (Safe x r Everything) _ [] (fence_reservation x r b) g q
        (within x r (Fences b) Everything _ [] (fence_reservation x r b) (λ a t. tt)
          (fence_reservation-Safe x r [] b))
        i
  requested-Safe (Operation.releases b n) g q i =
      asked (Safe x r Everything) _ [] (release_reservation x r b) g q
        (within x r (Cleans (reservation_key b)) Everything _ [] (release_reservation x r b)
          (λ a t. tt) (release_reservation-Safe x r [] b n))
        i
  requested-Safe (Operation.begins b) g q i =
      asked (Safe x r Everything) _ [] (begin_pod_create x r b) g q
        (within x r (BeginsOne x r b) Everything _ [] (begin_pod_create x r b) (λ a t. tt)
          (begin_pod_create-Safe x r [] b))
        i
  requested-Safe (Operation.completes b nonce) g q i =
      asked (Safe x r Everything) _ [] (complete_pod_create x r b nonce) g q
        (within x r (Completes b nonce) Everything _ [] (complete_pod_create x r b nonce)
          (λ a t. tt) (complete_pod_create-Safe x r [] b nonce))
        i
  requested-Safe (Operation.admits b) g q i =
      asked (Safe x r Everything) _ [] (admission x r b) g q
        (within x r (Allocates b) Everything _ [] (admission x r b) (λ a t. tt)
          (admission-Safe x r [] b))
        i
  requested-Safe (Operation.finishes b original) g q i =
      asked (Safe x r Everything) _ [] (finish_fresh_grant x r b original) g q
        (within x r (Grants b) Everything _ [] (finish_fresh_grant x r b original) (λ a t. tt)
          (finish_fresh_grant-Safe x r [] b original))
        i
  requested-Safe (Operation.issues t b p nonce) g q i =
      asked (Safe x r Everything) _ [] (finish_fresh_pod_attempt x t r b p nonce) g q
        (within x r (Issues b) Everything _ [] (finish_fresh_pod_attempt x t r b p nonce)
          (λ a t. tt) (finish_fresh_pod_attempt-Safe x r t [] b p nonce))
        i

  -- An accepted write of the ledger by an operation: the API server accepts it only over the version
  -- that it holds, reads of that version have returned what it holds, it stores the data, and JSON
  -- that encodes a state of the replica's mode and limits decodes to it.
  pub record Write (old_map new_map : ConfigMap) : Type 0 where
    pub operation : Operation
    pub history : History
    pub base : ConfigMap
    pub bytes : Text
    pub sent :
        Requests operation history (Request.update_config (with_reservations base bytes))
        ⊎ Requests operation history (Request.guard_patch Role.active base bytes)
    pub same_namespace : base.namespace ≡ old_map.namespace
    pub accepted : base.resource_version ≡ old_map.resource_version
    pub reads :
        (ns : Text) (cm : ConfigMap)
        → In (event (Request.get_config ns reservation_name) (ok cm)) history
        → cm.namespace ≡ old_map.namespace
        → cm.resource_version ≡ old_map.resource_version
        → cm ≡ old_map
    pub stored : new_map.contents ≡ (reservation_data_key, bytes) ∷ []
    pub no_binary : new_map.binary ≡ []
    pub codec :
        (st : ReservationState)
        → validate_reservation_limits r.cfg st ≡ true
        → (st.version == receipt_version r) ≡ true
        → encode_reservations x.codec st ≡ ok bytes
        → (x.codec.unmarshal bytes ≡ some st) × (is_empty bytes ≡ false)

  pub data Writes (first : ConfigMap) : ConfigMap → Type 0 where
    start : Writes first first
    write : {a b : ConfigMap} → Writes first a → Write a b → Writes first b

  abbrev data_of : List (Text × Text) → Text
  data_of [] = []
  data_of (e ∷ rest) = e.1

  -- The write is justified by a read of the ConfigMap that the server held.
  to_Commit :
      (a b : ConfigMap) (w : Write a b) (cm : ConfigMap) (bytes : Text)
      → Justified x r w.history cm bytes
      → w.bytes ≡ bytes
      → w.base.namespace ≡ cm.namespace
      → w.base.resource_version ≡ cm.resource_version
      → Commit x r a b
  to_Commit a b w cm bytes j same namespace version =
      let held : cm ≡ a =
        (w.reads j.observed.namespace cm j.observed.got (sym namespace ∙ w.same_namespace)
          (sym version ∙ w.accepted)) in
      let encoded : encode_reservations x.codec j.new ≡ ok w.bytes =
        (j.encoded ∙ ap ok (sym same)) in
      let k = decode_active-Checked x r cm j.old j.observed.decoded in
      let decoded =
        w.codec j.new (header_limits r.cfg j.old j.new j.header k.limits)
          (rw (j.header.version) k.version) encoded in
      record {
        history = w.history;
        bytes = w.bytes;
        justified = record {
          old = j.old;
          new = j.new;
          observed = record {
            namespace = j.observed.namespace;
            got =
                subst
                  (λ c.
                    In (event (Request.get_config j.observed.namespace reservation_name) (ok c))
                      w.history)
                  held j.observed.got;
            decoded = subst (λ c. decode_active x r c ≡ ok j.old) held j.observed.decoded;
          };
          encoded = encoded;
          steps = j.steps;
          header = j.header;
          cleared = j.cleared;
        };
        stored = w.stored;
        no_binary = w.no_binary;
        some_bytes = decoded.1;
        round_trip = decoded.0;
      }

  Write-Commit : (a b : ConfigMap) → Write a b → Commit x r a b
  Write-Commit a b w = elim w.sent [
    | inl i ↦
        let (cm, bytes, e, jp) = requested-Safe w.operation w.history _ i in
        to_Commit a b w cm bytes jp.0 (ap (λ c. data_of c.contents) e) (ap (λ c. c.namespace) e)
          (ap (λ c. c.resource_version) e)
    | inr i ↦
        let (e, jp) = requested-Safe w.operation w.history _ i in
        to_Commit a b w w.base w.bytes jp.0 refl refl refl
  ]

  Writes-Commits : (a b : ConfigMap) → Writes a b → Commits x r a b
  Writes-Commits a b start = Commits.start
  Writes-Commits a b (write {a = m} run w) =
      Commits.commit (Writes-Commits a m run) (Write-Commit m b w)

  -- Over the writes that the API server accepts from runs of the reservation operations by any
  -- number of replicas, where the server accepts a write only over the version that it holds, a
  -- read of that version gave what it holds, and JSON of a state of the replica's mode and limits
  -- decodes to it: an entry of a readable ledger with distinct keys keeps its build, requester,
  -- slots, nonce and fence, has each receipt and each digest written once, and once closed stays
  -- closed and gains no attempt; or it has left by a step that found it closed, with nothing in
  -- flight and, in version 2, with its receipts settled.
  pub reservation-Writes :
      (a b : ConfigMap) (st : ReservationState) (key : Text) (e : ActiveReservation)
      → decode_active x r a ≡ ok st
      → Distinct st.active
      → lookup key st.active ≡ some e
      → Writes a b
      → (t : ReservationState) × (decode_active x r b ≡ ok t)
        × (((f : ActiveReservation) × (lookup key t.active ≡ some f) × Extends e f)
            ⊎ Gone x.codec st key e t)
  reservation-Writes a b st key e d v found run =
      let (t, d', steps) = reservation-Commits x r a b st d (Writes-Commits a b run) in
      (t, d', reservation_history x.codec st t key e v found steps)
