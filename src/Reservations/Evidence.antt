-- ===== src/Reservations/Evidence.antt =====
-- What an operation of the reservation ledger (internal/service/buildcontroller/reservation.go,
-- admission.go, grant_receipt.go, pod_receipt.go) must have seen before each request that changes
-- something.
use kova.Base.{◌≡◌, ◌⊎◌, inl, inr, true, false, ◌||◌, ◌++◌, subst, none, some, In, is_some}
use kova.Base.Text.{Text, is_empty}
use kova.Base.Dict.{lookup}
use kova.Api.{KovaBuild}
use kova.Effects.{Error, ok, err, ConfigMap, Role, Request, Prog}
use kova.Effects.Reads.{IsRead}
use kova.Effects.Traces.{History, event, Later, Always, widen}
use kova.Admission.{ActiveReservation, reservation_key, is_terminal_phase}
use kova.Receipts.{grant_prefix, pod_prefix}
use kova.Reservations.{ReservationState, encode_reservations}
use kova.Reservations.Ledger.{
  Reconciler, Backend, reservation_name, decode_active, with_reservations, pod_name,
}
use kova.Reservations.Steps.{Step, Change, SameHeader}

-- The API server answered that the ConfigMap of this name does not exist.
pub record ReceiptGone (h : History) (name : Text) : Type 0 where
  pub namespace : Text
  pub got : In (event (Request.get_config namespace name) (err Error.not_found)) h

-- The build was read, finished or going.
pub record Ended (h : History) (b : KovaBuild) : Type 0 where
  pub namespace : Text
  pub name : Text
  pub got : In (event (Request.get_build namespace name) (ok b)) h
  pub over : (is_terminal_phase b.phase || b.deleting) ≡ true

-- The kind of a change of one entry, with what it puts there.
pub data Kind : Type 0 where
  close : Kind
  arm : Text → Kind
  pin : Text → Text → Kind
  ready : Kind
  begin : Text → Kind
  arm_pod : Text → Kind
  pin_pod : Text → Text → Kind
  pod_ready : Kind
  start : Text → Kind
  complete : Text → Kind

-- What a change does: the steps, with the entry that stood there or is added, and the creation and
-- the deletion of an entry's receipt.
pub data Act : Type 0 where
  grants : Text → ActiveReservation → Act
  fences : Act
  changes : Text → Kind → ActiveReservation → Act
  removes : Text → ActiveReservation → Act
  records : Text → ActiveReservation → Act
  discards : Text → ActiveReservation → Act

abbrev pub kind_of : {e f : ActiveReservation} → Change e f → Kind
kind_of (Change.close q) = Kind.close
kind_of (Change.arm rv c o u q) = Kind.arm rv
kind_of (Change.pin uid digest u c q) = Kind.pin uid digest
kind_of (Change.ready u q) = Kind.ready
kind_of (Change.begin nonce c a n q) = Kind.begin nonce
kind_of (Change.arm_pod digest c t u n q) = Kind.arm_pod digest
kind_of (Change.pin_pod uid digest u c q) = Kind.pin_pod uid digest
kind_of (Change.pod_ready u q) = Kind.pod_ready
kind_of (Change.start nonce c n q) = Kind.start nonce
kind_of (Change.complete nonce q) = Kind.complete nonce

abbrev pub act_of : {old new : ReservationState} → Step old new → Act
act_of (Step.grant key e a f n) = Act.grants key e
act_of (Step.fence n) = Act.fences
act_of (Step.change key e f l c n) = Act.changes key (kind_of c) e
act_of (Step.remove key e l c f s n) = Act.removes key e

-- The changes that an operation may make.
abbrev pub Scope : Type 1
Scope = Act → Type 0

module _ (x : Backend) (r : Reconciler) where
  -- The history holds a read of the ledger that gave this state.
  pub record Observed (h : History) (cm : ConfigMap) (st : ReservationState) : Type 0 where
    pub namespace : Text
    pub got : In (event (Request.get_config namespace reservation_name) (ok cm)) h
    pub decoded : decode_active x r cm ≡ ok st

  -- The history holds an accepted write of these bytes over the ConfigMap.
  abbrev pub Wrote : History → ConfigMap → Text → Type 0
  Wrote h cm bytes =
      In (event (Request.update_config (with_reservations cm bytes)) (ok tt)) h
      ⊎ In (event (Request.guard_patch Role.active cm bytes) (ok tt)) h

  -- The history holds an accepted write of this state.
  pub record Accepted (h : History) (st : ReservationState) : Type 0 where
    pub base : ConfigMap
    pub bytes : Text
    pub encoded : encode_reservations x.codec st ≡ ok bytes
    pub wrote : Wrote h base bytes

  -- What must be known of an entry that is removed: no Pod of the build with its key, and, with a
  -- Genesis, that the build has ended and that no receipt of the entry is left.
  pub record Cleared (h : History) (key : Text) (e : ActiveReservation) : Type 0 where
    pub build : KovaBuild
    pub its_key : reservation_key build ≡ key
    pub no_pod :
        In (event (Request.get_pod build.namespace (pod_name build.name)) (err Error.not_found)) h
    pub ended : is_some r.genesis ≡ true → Ended h build
    pub pod_receipt :
        is_some r.genesis ≡ true
        → is_empty e.pod_template_digest ≡ false
        → ReceiptGone h (pod_prefix ++ e.pod_attempt_nonce)
    pub grant_receipt :
        is_some r.genesis ≡ true
        → is_empty e.grant_observed_rv ≡ false
        → ReceiptGone h (grant_prefix ++ e.grant_nonce)

  -- The bytes encode a state one step from the state that the ConfigMap holds, and what that step
  -- removes is cleared.
  pub record Justified (h : History) (cm : ConfigMap) (bytes : Text) : Type 0 where
    pub old : ReservationState
    pub new : ReservationState
    pub observed : Observed h cm old
    pub encoded : encode_reservations x.codec new ≡ ok bytes
    pub steps : Step old new
    pub header : SameHeader old new
    pub cleared :
        (key : Text) (e : ActiveReservation)
        → lookup key old.active ≡ some e
        → lookup key new.active ≡ none
        → Cleared h key e

  -- The accepted write armed the entry: it was made over a state that a read gave, and it only put
  -- the resource version there, or the digest of the Pod.
  abbrev pub Arms : ActiveReservation → ActiveReservation → Text → Type 0
  Arms before entry name =
      ((rv : Text) × (entry ≡ record before { grant_observed_rv = rv })
        × (is_empty before.grant_observed_rv ≡ true)
        × (name ≡ grant_prefix ++ entry.grant_nonce))
      ⊎ ((digest : Text) × (entry ≡ record before { pod_template_digest = digest })
          × (is_empty before.pod_template_digest ≡ true)
          × (name ≡ pod_prefix ++ entry.pod_attempt_nonce))

  -- A receipt is created after an accepted write that armed its entry, while the entry is open.
  pub record Armed (h : History) (key : Text) (entry : ActiveReservation) (name : Text)
      : Type 0 where
    pub state : ReservationState
    pub base : ConfigMap
    pub bytes : Text
    pub encoded : encode_reservations x.codec state ≡ ok bytes
    pub wrote : Wrote h base bytes
    pub found : lookup key state.active ≡ some entry
    pub still_open : entry.closing ≡ false
    pub old : ReservationState
    pub before : ActiveReservation
    pub observed : Observed h base old
    pub stood : lookup key old.active ≡ some before
    pub arms : Arms before entry name

  -- A deletion names a receipt of an entry that a read saw closed and with that cleanup recorded, and
  -- limits it to the pinned UID.
  pub record Deletes (h : History) (name uid : Text) : Type 0 where
    pub base : ConfigMap
    pub state : ReservationState
    pub observed : Observed h base state
    pub key : Text
    pub entry : ActiveReservation
    pub found : lookup key state.active ≡ some entry
    pub closing : entry.closing ≡ true
    pub recorded :
        ((entry.grant_cleanup_ready ≡ true)
          × (name ≡ grant_prefix ++ entry.grant_nonce)
          × (uid ≡ entry.grant_receipt_uid))
        ⊎ ((entry.pod_cleanup_ready ≡ true)
            × (name ≡ pod_prefix ++ entry.pod_attempt_nonce)
            × (uid ≡ entry.pod_receipt_uid))

  -- A justified write, of a step in the scope.
  abbrev pub Permitted : Scope → History → ConfigMap → Text → Type 0
  Permitted K h cm bytes = (j : Justified h cm bytes) × K (act_of j.steps)

  -- What each request of an operation meets, whose changes are all in the scope. No operation after
  -- the initialization creates a ledger or writes a build.
  abbrev pub Safe : Scope → History → Request → Type 0
  Safe K h (Request.update_config c) =
      (cm : ConfigMap) × (bytes : Text) × (c ≡ with_reservations cm bytes) × Permitted K h cm bytes
  Safe K h (Request.guard_patch role cm bytes) = (role ≡ Role.active) × Permitted K h cm bytes
  Safe K h (Request.create_config c) = ⊥
  Safe K h (Request.create_receipt c) =
      (key : Text) × (e : ActiveReservation) × Armed h key e c.name × K (Act.records key e)
  Safe K h (Request.delete_config ns name uid) =
      (d : Deletes h name uid) × K (Act.discards d.key d.entry)
  Safe K h (Request.update_build b) = ⊥
  Safe K h _ = Unit {0}

  Permitted-widens :
      (K L : Scope) (k : (a : Act) → K a → L a) (h : History) (cm : ConfigMap) (bytes : Text)
      → Permitted K h cm bytes
      → Permitted L h cm bytes
  Permitted-widens K L k h cm bytes (j, p) = (j, k (act_of j.steps) p)

  Safe-widens :
      (K L : Scope) (k : (a : Act) → K a → L a) (h : History) (q : Request)
      → Safe K h q
      → Safe L h q
  Safe-widens K L k h (Request.update_config c) (cm, bytes, e, jp) =
      (cm, bytes, e, Permitted-widens K L k h cm bytes jp)
  Safe-widens K L k h (Request.guard_patch role cm bytes) (e, jp) =
      (e, Permitted-widens K L k h cm bytes jp)
  Safe-widens K L k h (Request.create_config c) s = s
  Safe-widens K L k h (Request.create_receipt c) (key, e, a, p) =
      (key, e, a, k (Act.records key e) p)
  Safe-widens K L k h (Request.delete_config ns name uid) (d, p) =
      (d, k (Act.discards d.key d.entry) p)
  Safe-widens K L k h (Request.update_build b) s = s
  Safe-widens K L k h Request.ctx_err v = v
  Safe-widens K L k h (Request.wait n) v = v
  Safe-widens K L k h Request.now v = v
  Safe-widens K L k h Request.random_nonce v = v
  Safe-widens K L k h (Request.get_config ns name) v = v
  Safe-widens K L k h (Request.get_build ns name) v = v
  Safe-widens K L k h (Request.list_builds ns n) v = v
  Safe-widens K L k h (Request.all_builds ns) v = v
  Safe-widens K L k h (Request.get_pod ns name) v = v
  Safe-widens K L k h (Request.list_pods ns) v = v
  Safe-widens K L k h (Request.get_namespace n) v = v
  Safe-widens K L k h Request.guard_check v = v
  Safe-widens K L k h (Request.begin_grant ns) v = v
  Safe-widens K L k h (Request.end_grant n) v = v

  -- An operation of a narrower scope.
  pub within :
      {A : Type 0} (K L : Scope) (Q : History → A → Type 0) (h : History) (m : Prog A)
      → ((a : Act) → K a → L a)
      → Always (Safe K) Q h m
      → Always (Safe L) Q h m
  within K L Q h m k s = widen (Safe K) (Safe L) Q h m (Safe-widens K L k) s

  pub read_is_Safe : (K : Scope) (h : History) (q : Request) → IsRead q → Safe K h q
  read_is_Safe K h Request.ctx_err i = tt
  read_is_Safe K h (Request.wait n) i = tt
  read_is_Safe K h (Request.get_config ns n) i = tt
  read_is_Safe K h (Request.get_build ns n) i = tt
  read_is_Safe K h (Request.list_builds ns n) i = tt
  read_is_Safe K h (Request.all_builds ns) i = tt
  read_is_Safe K h (Request.get_pod ns n) i = tt
  read_is_Safe K h (Request.list_pods ns) i = tt
  read_is_Safe K h (Request.get_namespace n) i = tt
  read_is_Safe K h Request.guard_check i = tt
  read_is_Safe K h Request.now i = elim i [ ]
  read_is_Safe K h Request.random_nonce i = elim i [ ]
  read_is_Safe K h (Request.create_config _) i = elim i [ ]
  read_is_Safe K h (Request.update_config _) i = elim i [ ]
  read_is_Safe K h (Request.delete_config _ _ _) i = elim i [ ]
  read_is_Safe K h (Request.update_build _) i = elim i [ ]
  read_is_Safe K h (Request.create_receipt _) i = elim i [ ]
  read_is_Safe K h (Request.guard_patch _ _ _) i = elim i [ ]
  read_is_Safe K h (Request.begin_grant _) i = elim i [ ]
  read_is_Safe K h (Request.end_grant _) i = elim i [ ]

  pub Observed-Later :
      (h g : History) (cm : ConfigMap) (st : ReservationState)
      → Later h g
      → Observed h cm st
      → Observed g cm st
  Observed-Later h g cm st l o = record {
    namespace = o.namespace;
    got = l _ o.got;
    decoded = o.decoded;
  }

  pub Wrote-Later :
      (h g : History) (cm : ConfigMap) (b : Text) → Later h g → Wrote h cm b → Wrote g cm b
  Wrote-Later h g cm b l (inl i) = inl (l _ i)
  Wrote-Later h g cm b l (inr i) = inr (l _ i)

  pub Accepted-Later :
      (h g : History) (st : ReservationState) → Later h g → Accepted h st → Accepted g st
  Accepted-Later h g st l a = record {
    base = a.base;
    bytes = a.bytes;
    encoded = a.encoded;
    wrote = Wrote-Later h g a.base a.bytes l a.wrote;
  }

  pub Armed-Later :
      (h g : History) (key : Text) (e : ActiveReservation) (name : Text)
      → Later h g
      → Armed h key e name
      → Armed g key e name
  Armed-Later h g key e name l a = record {
    state = a.state;
    base = a.base;
    bytes = a.bytes;
    encoded = a.encoded;
    wrote = Wrote-Later h g a.base a.bytes l a.wrote;
    found = a.found;
    still_open = a.still_open;
    old = a.old;
    before = a.before;
    observed = Observed-Later h g a.base a.old l a.observed;
    stood = a.stood;
    arms = a.arms;
  }

  pub Armed-named :
      (h : History) (key : Text) (e : ActiveReservation) (name other : Text)
      → name ≡ other
      → Armed h key e name
      → Armed h key e other
  Armed-named h key e name other q a = record {
    state = a.state;
    base = a.base;
    bytes = a.bytes;
    encoded = a.encoded;
    wrote = a.wrote;
    found = a.found;
    still_open = a.still_open;
    old = a.old;
    before = a.before;
    observed = a.observed;
    stood = a.stood;
    arms = subst (Arms a.before e) q a.arms;
  }
