-- ===== src/Queue/Evidence.antt =====
-- What an operation of the queue ledger (internal/service/queueadmission/ledger.go) must have seen
-- before each request that changes something.
use kova.Base.{◌≡◌, ◌⊎◌, inl, inr, true, false, Option, none, some, In, is_some}
use kova.Base.Text.{Text, text_eq, is_empty}
use kova.Base.Dict.{lookup}
use kova.Api.{KovaBuild}
use kova.Effects.{Error, ok, err, ConfigMap, Role, Request, Prog}
use kova.Effects.Traces.{History, event, Later, Always, widen}
use kova.Queue.{
  Intent, State, Externals, ledger_name, encode_state, cleanup_terminal, receipt_settled_annotation,
}
use kova.Queue.Store.{Store, decode_ledger, with_data}
use kova.Queue.Receipt.{receipt_namespace_of, nonce_receipt_name, deletable, link_seen}
use kova.Queue.Release.{settles, settled_copy, note_of}
use kova.Queue.Steps.{Step}

-- What a change does: the steps, with the entry that stood there or is added, and the changes of
-- receipts and builds.
pub data Act : Type 0 where
  reserves : Text → Intent → Act
  pins : Text → Intent → Act
  marks : Text → Intent → Text → Act
  releases : Text → Intent → Act
  deletes : Intent → Act
  settles_build : KovaBuild → Intent → Act

abbrev pub act_of : {x : Externals} {old new : State} → Step x old new → Act
act_of (Step.reserve id i n g r k u d c e) = Act.reserves id i
act_of (Step.pin id f uid digest h u c w q d e) = Act.pins id f
act_of (Step.mark id f kind h u c k e) = Act.marks id f kind
act_of (Step.release id f h c e) = Act.releases id f

-- The changes that an operation may make.
abbrev pub Scope : Type 1
Scope = Act → Type 0

-- None.
abbrev pub Nothing : Scope
Nothing a = ⊥

module _ (x : Externals) (s : Store) where
  -- The history holds a read of the ledger that gave this state.
  pub record Observed (h : History) (cm : ConfigMap) (st : State) : Type 0 where
    pub got : In (event (Request.get_config s.namespace ledger_name) (ok cm)) h
    pub decoded : decode_ledger x s cm ≡ ok st

  -- The history holds an accepted write of these bytes over the ConfigMap.
  abbrev pub Wrote : History → ConfigMap → Text → Type 0
  Wrote h cm bytes =
      In (event (Request.update_config (with_data cm bytes)) (ok tt)) h
      ⊎ In (event (Request.guard_patch Role.queue cm bytes) (ok tt)) h

  -- The history holds an accepted write of this state.
  pub record Accepted (h : History) (st : State) : Type 0 where
    pub base : ConfigMap
    pub bytes : Text
    pub encoded : encode_state x st ≡ ok bytes
    pub wrote : Wrote h base bytes

  -- An entry that a read of the call saw.
  pub record Seen (h : History) (id : Text) (i : Intent) : Type 0 where
    pub base : ConfigMap
    pub held : State
    pub observed : Observed h base held
    pub entry : lookup id held.intents ≡ some i

  -- The entry is in a state that the API server accepted from this call.
  pub record Committed (h : History) (id : Text) (i : Intent) : Type 0 where
    pub state : State
    pub accepted : Accepted h state
    pub entry : lookup id state.intents ≡ some i

  -- What a read of the key found.
  abbrev pub FoundEntry : Text → History → Option Intent → Type 0
  FoundEntry id g o =
      (cm : ConfigMap) × (st : State) × Observed g cm st × (lookup id st.intents ≡ o)

  -- The entry has its cleanup: seen, or committed by this call.
  abbrev pub Marked : Text → Intent → Text → History → Type 0
  Marked id e kind h =
      (o : Intent) × (Seen h id o ⊎ Committed h id o) × (link_seen e kind (some o) ≡ true)

  -- The API server answered that the entry's receipt does not exist.
  abbrev pub ReceiptGone : History → Text → Type 0
  ReceiptGone h nonce =
      In
        (event (Request.get_config (receipt_namespace_of s) (nonce_receipt_name nonce))
          (err Error.not_found))
        h

  -- A build was read whose settled mark names the receipt.
  pub record SettledBuild (h : History) (uid : Text) : Type 0 where
    pub namespace : Text
    pub name : Text
    pub build : KovaBuild
    pub got : In (event (Request.get_build namespace name) (ok build)) h
    pub mark : text_eq (note_of receipt_settled_annotation build) uid ≡ true

  -- With a Genesis, an entry is removed after its receipt is gone, and, for a build that ended, after
  -- the build carries the settled mark.
  abbrev pub Cleared : History → Intent → Type 0
  Cleared h e =
      (is_some s.genesis ≡ false)
      ⊎ (ReceiptGone h e.nonce
          × (text_eq e.cleanup_kind cleanup_terminal ≡ true → SettledBuild h e.receipt_uid))

  -- The bytes encode a state one step from the state that the ConfigMap holds, and what that step
  -- removes is cleared.
  pub record Justified (h : History) (cm : ConfigMap) (bytes : Text) : Type 0 where
    pub old : State
    pub new : State
    pub observed : Observed h cm old
    pub encoded : encode_state x new ≡ ok bytes
    pub steps : Step x old new
    pub cleared :
        (id : Text) (e : Intent)
        → lookup id old.intents ≡ some e
        → lookup id new.intents ≡ none
        → Cleared h e

  -- A deletion names the receipt of an entry whose cleanup the ledger has recorded; the receipt was
  -- read and found to be the pinned one, and the UID limits the deletion to it.
  pub record Deletes (h : History) (ns name uid : Text) : Type 0 where
    pub id : Text
    pub entry : Intent
    pub receipt : ConfigMap
    pub recorded : Marked id entry entry.cleanup_kind h
    pub cleanup : is_empty entry.cleanup_kind ≡ false
    pub found : In (event (Request.get_config ns name) (ok receipt)) h
    pub pinned : deletable x s entry receipt ≡ true
    pub its_name : name ≡ nonce_receipt_name entry.nonce
    pub its_uid : uid ≡ receipt.uid

  -- An update of a build only adds the settled mark, to a build that was read and is finished or
  -- going, after the receipt is gone.
  pub record SettlesBuild (h : History) (written : KovaBuild) : Type 0 where
    pub current : KovaBuild
    pub build : KovaBuild
    pub entry : Intent
    pub found : In (event (Request.get_build build.namespace build.name) (ok current)) h
    pub ended : settles current build entry ≡ true
    pub unmarked : is_empty (note_of receipt_settled_annotation current) ≡ true
    pub only_mark : written ≡ settled_copy current entry.receipt_uid
    pub gone : ReceiptGone h entry.nonce

  -- A justified write, of a step in the scope.
  abbrev pub Permitted : Scope → History → ConfigMap → Text → Type 0
  Permitted K h cm bytes = (j : Justified h cm bytes) × K (act_of j.steps)

  -- What each request of an operation meets, whose changes are all in the scope. No operation creates
  -- a ConfigMap or uses a permit.
  abbrev pub Safe : Scope → History → Request → Type 0
  Safe K h (Request.update_config c) =
      (cm : ConfigMap) × (bytes : Text) × (c ≡ with_data cm bytes) × Permitted K h cm bytes
  Safe K h (Request.guard_patch role cm bytes) = (role ≡ Role.queue) × Permitted K h cm bytes
  Safe K h (Request.create_config c) = ⊥
  Safe K h (Request.create_receipt cm) = ⊥
  Safe K h (Request.begin_grant ns) = ⊥
  Safe K h (Request.end_grant n) = ⊥
  Safe K h (Request.delete_config ns name uid) =
      (d : Deletes h ns name uid) × K (Act.deletes d.entry)
  Safe K h (Request.update_build b) = (w : SettlesBuild h b) × K (Act.settles_build w.build w.entry)
  Safe K h _ = Unit {0}

  Permitted-widens :
      (K L : Scope) (k : (a : Act) → K a → L a) (h : History) (cm : ConfigMap) (bytes : Text)
      → Permitted K h cm bytes
      → Permitted L h cm bytes
  Permitted-widens K L k h cm bytes (j, p) = (j, k (act_of j.steps) p)

  Safe-widens :
      (K L : Scope) (k : (a : Act) → K a → L a) (h : History) (q : Request)
      → Safe K h q
      → Safe L h q
  Safe-widens K L k h (Request.update_config c) (cm, bytes, e, jp) =
      (cm, bytes, e, Permitted-widens K L k h cm bytes jp)
  Safe-widens K L k h (Request.guard_patch role cm bytes) (e, jp) =
      (e, Permitted-widens K L k h cm bytes jp)
  Safe-widens K L k h (Request.create_config c) s = s
  Safe-widens K L k h (Request.delete_config ns name uid) (d, p) = (d, k (Act.deletes d.entry) p)
  Safe-widens K L k h (Request.update_build b) (w, p) = (w, k (Act.settles_build w.build w.entry) p)
  Safe-widens K L k h Request.ctx_err v = v
  Safe-widens K L k h (Request.wait n) v = v
  Safe-widens K L k h Request.now v = v
  Safe-widens K L k h Request.random_nonce v = v
  Safe-widens K L k h (Request.get_config ns name) v = v
  Safe-widens K L k h (Request.get_build ns name) v = v
  Safe-widens K L k h (Request.list_builds ns n) v = v
  Safe-widens K L k h (Request.all_builds ns) v = v
  Safe-widens K L k h (Request.get_pod ns name) v = v
  Safe-widens K L k h (Request.list_pods ns) v = v
  Safe-widens K L k h (Request.get_namespace n) v = v
  Safe-widens K L k h Request.guard_check v = v
  Safe-widens K L k h (Request.create_receipt cm) v = v
  Safe-widens K L k h (Request.begin_grant ns) v = v
  Safe-widens K L k h (Request.end_grant n) v = v

  -- An operation of a narrower scope.
  pub within :
      {A : Type 0} (K L : Scope) (Q : History → A → Type 0) (h : History) (m : Prog A)
      → ((a : Act) → K a → L a)
      → Always (Safe K) Q h m
      → Always (Safe L) Q h m
  within K L Q h m k s = widen (Safe K) (Safe L) Q h m (Safe-widens K L k) s

  pub Seen-Later : (h g : History) (id : Text) (i : Intent) → Later h g → Seen h id i → Seen g id i
  Seen-Later h g id i l v = record {
    base = v.base;
    held = v.held;
    observed = record { got = l _ v.observed.got; decoded = v.observed.decoded };
    entry = v.entry;
  }

  Wrote-Later :
      (h g : History) (cm : ConfigMap) (b : Text) → Later h g → Wrote h cm b → Wrote g cm b
  Wrote-Later h g cm b l (inl i) = inl (l _ i)
  Wrote-Later h g cm b l (inr i) = inr (l _ i)

  Committed-Later :
      (h g : History) (id : Text) (i : Intent) → Later h g → Committed h id i → Committed g id i
  Committed-Later h g id i l v = record {
    state = v.state;
    accepted = record {
      base = v.accepted.base;
      bytes = v.accepted.bytes;
      encoded = v.accepted.encoded;
      wrote = Wrote-Later h g v.accepted.base v.accepted.bytes l v.accepted.wrote;
    };
    entry = v.entry;
  }

  pub Marked-Later :
      (h g : History) (id : Text) (e : Intent) (kind : Text)
      → Later h g
      → Marked id e kind h
      → Marked id e kind g
  Marked-Later h g id e kind l (o, inl v, q) = (o, inl (Seen-Later h g id o l v), q)
  Marked-Later h g id e kind l (o, inr v, q) = (o, inr (Committed-Later h g id o l v), q)
