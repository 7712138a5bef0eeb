-- ===== src/Queue/Store.antt =====
-- The operations of the queue ledger that need no receipt: reading, writing, initializing, reserving.
--
-- A read stands for `readWithObservation` with no observation. The Genesis guard is the component
-- behind the requests `guard_check` and `guard_patch`; its record here holds what the ledger reads of
-- it, and `ledger_matches` is its CheckLedger.
use kova.Base.{
  ℕ, zero, suc, ◌-◌, ◌^◌, min, Bool, true, false, not, ◌&&◌, ◌||◌, List, [], ◌∷◌, Option, none,
  some, leb, ◌==◌, if◌then◌else◌, length,
}
use kova.Base.Text.{Text, text_eq, is_empty}
use kova.Base.Dict.{Dict, lookup, insert}
use kova.Api.{KovaBuild, Meta, value_of}
use kova.Api.Int.{ℤ, pos, negsuc}
use kova.Effects.{
  Error, Result, ok, err, ConfigMap, Role, M, pure, fail, attempt, from_result, require, ◌>>=◌,
  ◌>>◌, ask_ctx, ask_wait, ask_now, ask_nonce, get_config_map, create_config_map, update_config_map,
  some_builds, check_guard, patch_ledger, is_not_found, is_already_exists, is_conflict,
  is_too_many_requests,
}
use kova.Queue.{
  Intent, State, Externals, ledger_name, data_key, max_ledger_bytes, max_cas_attempts,
  hash_requester, digest_build, limits_ok, validate_state, encode_state, intents_of,
}

-- The parts of admissiongenesis.Guard that the queue reads: the receipt and the original binding.
pub record Genesis : Type 0 where
  pub namespace : Text
  pub namespace_uid : Text
  pub receipt_namespace : Text
  pub receipt_namespace_uid : Text
  pub genesis_name : Text
  pub genesis_uid : Text
  pub generation : Text
  pub bound_namespace_uid : Text
  pub bound_genesis_uid : Text
  pub active_ledger_uid : Text
  pub queue_ledger_uid : Text
  -- Bootstrap.API is set; Receipt.Validate succeeds.
  pub has_api : Bool
  pub is_valid : Bool
  -- Guard.CheckLedger on the queue ledger.
  pub ledger_matches : ConfigMap → Bool

pub record Store : Type 0 where
  pub genesis : Option Genesis
  pub has_reader : Bool
  pub namespace : Text
  pub global_limit : ℕ
  pub requester_limit : ℕ

unfoldable pub fresh_state : Store → State
fresh_state s = record {
  version = 1;
  global_limit = s.global_limit;
  requester_limit = s.requester_limit;
  has_intents = true;
  intents = [];
}

-- One data entry, under the ledger's key, not empty; no binary data.
abbrev pub is_nil {ℓ} : {A : Type ℓ} → List A → Bool
is_nil [] = true
is_nil (x ∷ xs) = false

unfoldable pub one_entry : ConfigMap → Bool
one_entry cm =
    length cm.contents == 1 && not (is_empty (value_of data_key cm.contents)) && is_nil cm.binary

abbrev pub wanted_version : Option Genesis → ℕ
wanted_version none = 1
wanted_version (some g) = 2

-- The checks of a read on the ConfigMap that it got.
unfoldable pub decode_ledger : Externals → Store → ConfigMap → Result State
decode_ledger x s cm =
    if one_entry cm && leb (length (value_of data_key cm.contents)) max_ledger_bytes
    then (elim (x.unmarshal (value_of data_key cm.contents)) [
      | none ↦ err Error.failed
      | some st ↦
          if st.global_limit == s.global_limit
            && st.requester_limit == s.requester_limit
            && st.version == wanted_version s.genesis
            && validate_state x st
          then ok st
          else err Error.failed
    ])
    else err Error.failed

-- Before the read: a direct reader and a check of the pair. After: the ledger's identity.
abbrev pub before_read : Store → M (Unit {0})
before_read s = elim s.genesis [
  | none ↦ pure tt
  | some g ↦ (require s.has_reader Error.failed >> check_guard)
]

abbrev pub identity_of : Store → ConfigMap → Result (Unit {0})
identity_of s cm = elim s.genesis [
  | none ↦ ok tt
  | some g ↦ if g.ledger_matches cm then ok tt else err Error.failed
]

unfoldable pub read : Externals → Store → M (ConfigMap × State)
read x s = do
  before_read s
  cm ← get_config_map s.namespace ledger_name
  from_result (identity_of s cm)
  st ← from_result (decode_ledger x s cm)
  pure (cm, st)

unfoldable pub check_ready : Externals → Store → M (Unit {0})
check_ready x s = read x s >>= λ v. pure tt

abbrev pub with_data : ConfigMap → Text → ConfigMap
with_data cm bytes = record cm { contents = (data_key, bytes) ∷ [] }

unfoldable pub write : Externals → Store → ConfigMap → State → M (Unit {0})
write x s cm next = do
  require (one_entry cm) Error.failed
  bytes ← from_result (encode_state x next)
  elim s.genesis [
    | none ↦ update_config_map (with_data cm bytes)
    | some g ↦ patch_ledger Role.queue cm bytes
  ]

unfoldable pub wait_cas : ℕ → M (Unit {0})
wait_cas retry = ask_wait (2 ^ min retry 5)

unfoldable pub preflight_initialization : Externals → Store → M (Unit {0})
preflight_initialization x s = elim s.genesis [
  | some g ↦ check_ready x s
  | none ↦
      require (limits_ok s.global_limit s.requester_limit) Error.failed
      >> attempt (read x s) λ r. elim r [
        | ok v ↦ pure tt
        | err e ↦
            if is_not_found e
            then (some_builds s.namespace 1 >>= λ builds.
                if is_nil builds
                then pure tt
                else attempt (read x s) λ again. elim again [
                  | ok v ↦ pure tt
                  | err e' ↦ if is_not_found e' then fail Error.failed else fail e'
                ])
            else fail e
      ]
]

abbrev empty_meta : Text → Text → Meta
empty_meta ns name = record {
  namespace = ns;
  name = name;
  uid = [];
  resource_version = [];
  labels = [];
  annotations = [];
  finalizers = [];
  owners = [];
  deleting = false;
  created = 0;
}

unfoldable pub initialize : Externals → Store → M (Unit {0})
initialize x s = do
  preflight_initialization x s
  bytes ← from_result (encode_state x (fresh_state s))
  create_config_map (record {
    meta = empty_meta s.namespace ledger_name;
    immutable = none;
    contents = (data_key, bytes) ∷ [];
    binary = [];
  })

-- The loops count the attempts left: the attempt in hand has number `max_cas_attempts - 1 - left`.
abbrev pub retry_of : ℕ → ℕ
retry_of left = max_cas_attempts - 1 - left

unfoldable pub initialize_loop : Externals → Store → ℕ → M (Unit {0})
initialize_loop x s zero = fail Error.busy
initialize_loop x s (suc left) =
    ask_ctx
    >> attempt (read x s) λ r. elim r [
      | ok v ↦ pure tt
      | err e ↦
          if is_not_found e
          then (attempt (initialize x s) λ made. elim made [
            | ok v ↦ pure tt
            | err e' ↦
                if is_already_exists e' || is_too_many_requests e'
                then (wait_cas (retry_of left) >> initialize_loop x s left)
                else attempt (read x s) λ again. elim again [ ok v ↦ pure tt | err e'' ↦ fail e' ]
          ])
          else fail e
    ]

unfoldable pub ensure_initialized : Externals → Store → M (Unit {0})
ensure_initialized x s = elim s.genesis [
  | some g ↦ check_ready x s
  | none ↦ initialize_loop x s max_cas_attempts
]

-- `Lookup`: the entry, if there is one.
unfoldable pub lookup_intent : Externals → Store → Text → M (Option Intent)
lookup_intent x s id = read x s >>= λ v. pure (lookup id v.1.intents)

abbrev pub with_intents : State → Dict Intent → State
with_intents st d = record st { intents = d }

-- A write in a CAS loop: a conflict waits and tries again, any other error is given to `lost`.
abbrev pub cas_write :
    {A : Type 0} → Externals → Store → ConfigMap → State → ℕ → M A → (Error → M A) → M A → M A
cas_write x s cm next left again lost done = attempt (write x s cm next) λ r. elim r [
  | ok u ↦ done
  | err e ↦ if is_conflict e then (wait_cas (retry_of left) >> again) else lost e
]

abbrev pub same_int : ℤ → ℤ → Bool
same_int (pos n) (pos m) = n == m
same_int (negsuc n) (negsuc m) = n == m
same_int (pos n) (negsuc m) = false
same_int (negsuc n) (pos m) = false

-- `observed == proposed`
unfoldable pub intent_eq : Intent → Intent → Bool
intent_eq a b =
    text_eq a.requester_hash b.requester_hash
    && text_eq a.request_digest b.request_digest
    && text_eq a.nonce b.nonce
    && same_int a.created_at b.created_at
    && text_eq a.receipt_uid b.receipt_uid
    && text_eq a.receipt_digest b.receipt_digest
    && text_eq a.cleanup_kind b.cleanup_kind

abbrev pub seen_intent : Intent → Result (Option Intent) → Bool
seen_intent i (ok none) = false
seen_intent i (ok (some e)) = intent_eq e i
seen_intent i (err e) = false

-- A write of the proposal with no clear answer: it counts if a read sees this very intent.
unfoldable pub recover_reserve : Externals → Store → Text → Intent → Error → M (Intent × Bool)
recover_reserve x s id proposed e = attempt (lookup_intent x s id) λ r.
    if seen_intent proposed r
    then pure (proposed, true)
    else if is_too_many_requests e
    then fail Error.busy
    else fail e

-- The loop of `Reserve`; the flag says that the caller may create the build.
unfoldable pub reserve_loop : Externals → Store → Text → Intent → ℕ → M (Intent × Bool)
reserve_loop x s id proposed zero = fail Error.busy
reserve_loop x s id proposed (suc left) = ask_ctx >> read x s >>= λ v.
    elim (lookup id v.1.intents) [
      | some existing ↦
          if text_eq existing.requester_hash proposed.requester_hash
            && text_eq existing.request_digest proposed.request_digest
          then pure (existing, false)
          else fail Error.intent_conflict
      | none ↦
          if leb s.global_limit (length v.1.intents)
          then fail Error.full
          else if leb s.requester_limit (intents_of proposed.requester_hash v.1.intents)
          then fail Error.full
          else cas_write x s v.0 (with_intents v.1 (insert id proposed v.1.intents)) left
              (reserve_loop x s id proposed left) (recover_reserve x s id proposed)
              (pure (proposed, true))
    ]

unfoldable pub reserve : Externals → Store → KovaBuild → M (Intent × Bool)
reserve x s b = do
  digest ← from_result (digest_build x b)
  nonce ← ask_nonce
  t ← ask_now
  reserve_loop x s b.name
      (record {
        requester_hash = hash_requester x b.spec.requester.username;
        request_digest = digest;
        nonce = nonce;
        created_at = t;
        receipt_uid = [];
        receipt_digest = [];
        cleanup_kind = [];
      })
      max_cas_attempts
