-- ===== src/Queue/Cluster/Writing.antt =====
-- The history of an entry of the queue ledger over the writes that the operations of any number of
-- replicas (internal/service/queueadmission/ledger.go) get accepted by the API server.
use kova.Base.{◌≡◌, refl, sym, ◌∙◌, ap, ◌⊎◌, inl, inr, false, [], ◌∷◌, some, In, subst, List}
use kova.Base.Text.{Text, is_empty}
use kova.Base.Dict.{lookup, Distinct}
use kova.Api.{KovaBuild}
use kova.Effects.{ok, ConfigMap, Role, Request}
use kova.Effects.Traces.{History, event, Asks, asked}
use kova.Queue.{State, Intent, Externals, ledger_name, data_key, encode_state}
use kova.Queue.Store.{Store, wanted_version, decode_ledger, with_data, reserve}
use kova.Queue.Receipt.{ObservedQueueIntent, pin_receipt, mark_receipt_cleanup_ready}
use kova.Queue.Release.{
  release_for_build, release_rejected, release_rejected_receipt, resume_rejected_cleanup,
  verify_for_build,
}
use kova.Queue.Steps.{Step-version, Extends, Gone, entry_history}
use kova.Queue.Evidence.{Scope, Justified, Safe, Nothing, within}
use kova.Queue.Safety.Decoded.{decode_ledger-Checked}
use kova.Queue.Safety.Reserving.{ReservesFor, reserve-Safe}
use kova.Queue.Safety.Pinning.{Pins, pin_receipt-Safe}
use kova.Queue.Safety.Marking.{Marks, mark_receipt_cleanup_ready-Safe}
use kova.Queue.Safety.Removing.{ReleasesRejected}
use kova.Queue.Safety.Releasing.{ReleasesBuild, release_for_build-Safe}
use kova.Queue.Safety.Verifying.{verify_for_build-Safe}
use kova.Queue.Safety.Rejecting.{
  Rejects, Resumes, release_rejected-Safe, release_rejected_receipt-Safe,
  resume_rejected_cleanup-Safe,
}
use kova.Queue.Cluster.{Step-limits, Commit, Commits, Commits-Reach}

-- The operations of the ledger, with their arguments.
pub data Operation : Type 0 where
  reserves : KovaBuild → Operation
  pins : KovaBuild → Intent → ObservedQueueIntent → Operation
  marks : Text → Intent → Text → Operation
  releases : KovaBuild → Operation
  rejects : Text → Text → Operation
  rejects_receipt : KovaBuild → ObservedQueueIntent → Operation
  resumes : Text → Text → Operation
  verifies : KovaBuild → Operation

-- All changes.
abbrev Everything : Scope
Everything a = Unit {0}

module _ (x : Externals) (s : Store) where
  -- Some answers lead the operation to this request after this history.
  abbrev pub Requests : Operation → History → Request → Type 0
  Requests (Operation.reserves b) g q = Asks [] (reserve x s b) g q
  Requests (Operation.pins b e w) g q = Asks [] (pin_receipt x s b e w) g q
  Requests (Operation.marks id e kind) g q = Asks [] (mark_receipt_cleanup_ready x s id e kind) g q
  Requests (Operation.releases b) g q = Asks [] (release_for_build x s b) g q
  Requests (Operation.rejects id nonce) g q = Asks [] (release_rejected x s id nonce) g q
  Requests (Operation.rejects_receipt b w) g q = Asks [] (release_rejected_receipt x s b w) g q
  Requests (Operation.resumes id nonce) g q = Asks [] (resume_rejected_cleanup x s id nonce) g q
  Requests (Operation.verifies b) g q = Asks [] (verify_for_build x s b) g q

  requested-Safe :
      (o : Operation) (g : History) (q : Request) → Requests o g q → Safe x s Everything g q
  requested-Safe (Operation.reserves b) g q i =
      asked (Safe x s Everything) _ [] (reserve x s b) g q
        (within x s (ReservesFor x s b) Everything _ [] (reserve x s b) (λ a t. tt)
          (reserve-Safe x s [] b))
        i
  requested-Safe (Operation.pins b e w) g q i =
      asked (Safe x s Everything) _ [] (pin_receipt x s b e w) g q
        (within x s (Pins b.name) Everything _ [] (pin_receipt x s b e w) (λ a t. tt)
          (pin_receipt-Safe x s [] b e w))
        i
  requested-Safe (Operation.marks id e kind) g q i =
      asked (Safe x s Everything) _ [] (mark_receipt_cleanup_ready x s id e kind) g q
        (within x s (Marks id kind) Everything _ [] (mark_receipt_cleanup_ready x s id e kind)
          (λ a t. tt) (mark_receipt_cleanup_ready-Safe x s [] id e kind))
        i
  requested-Safe (Operation.releases b) g q i =
      asked (Safe x s Everything) _ [] (release_for_build x s b) g q
        (within x s (ReleasesBuild x b) Everything _ [] (release_for_build x s b) (λ a t. tt)
          (release_for_build-Safe x s [] b))
        i
  requested-Safe (Operation.rejects id nonce) g q i =
      asked (Safe x s Everything) _ [] (release_rejected x s id nonce) g q
        (within x s (ReleasesRejected s id nonce) Everything _ [] (release_rejected x s id nonce)
          (λ a t. tt) (release_rejected-Safe x s [] id nonce))
        i
  requested-Safe (Operation.rejects_receipt b w) g q i =
      asked (Safe x s Everything) _ [] (release_rejected_receipt x s b w) g q
        (within x s (Rejects b w) Everything _ [] (release_rejected_receipt x s b w) (λ a t. tt)
          (release_rejected_receipt-Safe x s [] b w))
        i
  requested-Safe (Operation.resumes id nonce) g q i =
      asked (Safe x s Everything) _ [] (resume_rejected_cleanup x s id nonce) g q
        (within x s (Resumes s id nonce) Everything _ [] (resume_rejected_cleanup x s id nonce)
          (λ a t. tt) (resume_rejected_cleanup-Safe x s [] id nonce))
        i
  requested-Safe (Operation.verifies b) g q i =
      asked (Safe x s Everything) _ [] (verify_for_build x s b) g q
        (within x s Nothing Everything _ [] (verify_for_build x s b) (λ a t. tt)
          (verify_for_build-Safe x s [] b))
        i

  -- An accepted write of the ledger by an operation: the API server accepts it only over the version
  -- that it holds, reads of that version have returned what it holds, it stores the data, and JSON
  -- that encodes a state of the replica's mode and limits decodes to it.
  pub record Write (old_map new_map : ConfigMap) : Type 0 where
    pub operation : Operation
    pub history : History
    pub base : ConfigMap
    pub bytes : Text
    pub sent :
        Requests operation history (Request.update_config (with_data base bytes))
        ⊎ Requests operation history (Request.guard_patch Role.queue base bytes)
    pub accepted : base.resource_version ≡ old_map.resource_version
    pub reads :
        (cm : ConfigMap)
        → In (event (Request.get_config s.namespace ledger_name) (ok cm)) history
        → cm.resource_version ≡ old_map.resource_version
        → cm ≡ old_map
    pub stored : new_map.contents ≡ (data_key, bytes) ∷ []
    pub no_binary : new_map.binary ≡ []
    pub codec :
        (st : State)
        → st.version ≡ wanted_version s.genesis
        → st.global_limit ≡ s.global_limit
        → st.requester_limit ≡ s.requester_limit
        → encode_state x st ≡ ok bytes
        → (x.unmarshal bytes ≡ some st) × (is_empty bytes ≡ false)

  pub data Writes (first : ConfigMap) : ConfigMap → Type 0 where
    start : Writes first first
    write : {a b : ConfigMap} → Writes first a → Write a b → Writes first b

  abbrev data_of : List (Text × Text) → Text
  data_of [] = []
  data_of (e ∷ rest) = e.1

  -- The write is justified by a read of the ConfigMap that the server held.
  to_Commit :
      (a b : ConfigMap) (w : Write a b) (cm : ConfigMap) (bytes : Text)
      → Justified x s w.history cm bytes
      → w.bytes ≡ bytes
      → w.base.resource_version ≡ cm.resource_version
      → Commit x s a b
  to_Commit a b w cm bytes j same version =
      let held : cm ≡ a = (w.reads cm j.observed.got (sym version ∙ w.accepted)) in
      let encoded : encode_state x j.new ≡ ok w.bytes = (j.encoded ∙ ap ok (sym same)) in
      let k = decode_ledger-Checked x s cm j.old j.observed.decoded in
      let l = Step-limits x j.old j.new j.steps in
      let decoded =
        w.codec j.new (Step-version x j.old j.new j.steps ∙ k.version) (l.0 ∙ k.global)
          (l.1 ∙ k.requester) encoded in
      record {
        history = w.history;
        bytes = w.bytes;
        justified = record {
          old = j.old;
          new = j.new;
          observed = record {
            got =
                subst
                  (λ c. In (event (Request.get_config s.namespace ledger_name) (ok c)) w.history)
                  held j.observed.got;
            decoded = subst (λ c. decode_ledger x s c ≡ ok j.old) held j.observed.decoded;
          };
          encoded = encoded;
          steps = j.steps;
          cleared = j.cleared;
        };
        stored = w.stored;
        no_binary = w.no_binary;
        some_bytes = decoded.1;
        round_trip = decoded.0;
      }

  Write-Commit : (a b : ConfigMap) → Write a b → Commit x s a b
  Write-Commit a b w = elim w.sent [
    | inl i ↦
        let (cm, bytes, e, jp) = requested-Safe w.operation w.history _ i in
        to_Commit a b w cm bytes jp.0 (ap (λ c. data_of c.contents) e)
          (ap (λ c. c.resource_version) e)
    | inr i ↦
        let (e, jp) = requested-Safe w.operation w.history _ i in
        to_Commit a b w w.base w.bytes jp.0 refl refl
  ]

  Writes-Commits : (a b : ConfigMap) → Writes a b → Commits x s a b
  Writes-Commits a b start = Commits.start
  Writes-Commits a b (write {a = m} r w) =
      Commits.commit (Writes-Commits a m r) (Write-Commit m b w)

  -- Over the writes that the API server accepts from runs of the ledger's operations by any number
  -- of replicas, where the server accepts a write only over the version that it holds, a read of
  -- that version gave what it holds, and JSON of a state of the replica's mode and limits decodes
  -- to it: an entry of a readable ledger with distinct keys keeps its nonce, requester, request
  -- and time and has its receipt and cleanup written at most once each, or it has left by a step
  -- that in version 2 found its cleanup recorded.
  pub Writes-history :
      (a b : ConfigMap) (st : State) (id : Text) (e : Intent)
      → decode_ledger x s a ≡ ok st
      → Distinct st.intents
      → lookup id st.intents ≡ some e
      → Writes a b
      → (t : State) × (decode_ledger x s b ≡ ok t)
        × (((f : Intent) × (lookup id t.intents ≡ some f) × Extends e f) ⊎ Gone x st id e t)
  Writes-history a b st id e d v found r =
      let (t, d', run) = Commits-Reach x s a b st d (Writes-Commits a b r) in
      (
        t,
        d',
        entry_history x st t id e
            (record { valid = (decode_ledger-Checked x s a st d).valid; distinct = v }) found run,
      )
