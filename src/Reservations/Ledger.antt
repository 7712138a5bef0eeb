-- ===== src/Reservations/Ledger.antt =====
-- The reservation ledger in the cluster (internal/service/buildcontroller/reservation.go): its reads,
-- writes and first creation.
--
-- A reconciler is `Reconciler`: of its configuration, what the modelled code reads; with a Genesis,
-- the original pair, the contract's worker pool and runner image, and `active_matches`, which is
-- CheckLedger on the active ledger. `Backend` holds what the code takes from elsewhere: `codec` for
-- the ledger, `payloads` for the receipts, and `reference`, the name and digest of a strict image
-- reference (go-containerregistry).
use kova.Base.{
  ℕ, zero, suc, ◌-◌, ◌^◌, min, Bool, true, false, not, ◌&&◌, ◌||◌, List, [], ◌∷◌, ◌++◌, Option,
  none, some, ◌==◌, if◌then◌else◌, length,
}
use kova.Base.Text.{Text, text, text_eq, is_empty}
use kova.Base.Dict.{Dict, insert}
use kova.Api.{KovaBuild, Owner, value_of}
use kova.Api.Pods.{Pod}
use kova.Effects.{
  Error, Result, ok, err, ConfigMap, Role, M, pure, fail, attempt, from_result, require, ◌>>=◌,
  ◌>>◌, ask_wait, ask_nonce, get_config_map, create_config_map, update_config_map, some_builds,
  read_build, read_pod, read_pods, check_guard, patch_ledger, is_not_found, is_already_exists,
  is_conflict, observed_read,
}
use kova.Admission.{ActiveReservation, reservation_key, cancellation_requested, awaits_admission}
use kova.Queue.{ledger_name}
use kova.Queue.Store.{Genesis, Store, is_nil}
use kova.Receipts.{Payloads}
use kova.Reservations.{
  Limits, ReservationState, Codec, reservation_data_key, decode_reservations, encode_reservations,
  validate_capacity, validate_reservation_limits, fresh_reservations,
}

pub record Original : Type 0 where
  pub guard : Genesis
  pub active_matches : ConfigMap → Bool
  pub worker_pool_id : Text
  pub runner_image : Text

pub record Reconciler : Type 0 where
  pub genesis : Option Original
  pub has_reader : Bool
  pub has_receipts : Bool
  pub has_coordinator : Bool
  pub cfg : Limits
  pub max_queued_jobs : ℕ
  pub max_queued_jobs_per_requester : ℕ
  pub worker_pool_id : Text
  pub runner_image : Text
  pub runner_image_digest : Text

pub record Backend : Type 0 where
  pub codec : Codec
  pub payloads : Payloads
  pub reference : Text → Option (Text × Text)

abbrev pub reservation_name : Text
reservation_name = text "kova-service-admission"

abbrev pub max_reservation_attempts : ℕ
max_reservation_attempts = 16

-- The reader is never nil: without a direct reader it is the client.
unfoldable pub queue_store : Reconciler → Text → Store
queue_store r ns = record {
  genesis = elim r.genesis [ none ↦ none | some g ↦ some g.guard ];
  has_reader = true;
  namespace = ns;
  global_limit = r.max_queued_jobs;
  requester_limit = r.max_queued_jobs_per_requester;
}

abbrev pub receipt_version : Reconciler → ℕ
receipt_version r = elim r.genesis [ none ↦ 1 | some g ↦ 2 ]

-- The checks on the ConfigMap of a read.
unfoldable pub decode_active : Backend → Reconciler → ConfigMap → Result ReservationState
decode_active x r cm = elim (decode_reservations x.codec cm) [
  | err e ↦ err e
  | ok st ↦
      if validate_reservation_limits r.cfg st && st.version == receipt_version r
      then ok st
      else err Error.failed
]

abbrev pub before_active : Reconciler → M (Unit {0})
before_active r = elim r.genesis [
  | none ↦ pure tt
  | some g ↦ (require r.has_reader Error.failed >> check_guard)
]

abbrev pub active_identity : Reconciler → ConfigMap → Result (Unit {0})
active_identity r cm = elim r.genesis [
  | none ↦ ok tt
  | some g ↦ if g.active_matches cm then ok tt else err Error.failed
]

unfoldable pub read_reservations : Backend → Reconciler → Text → M (ConfigMap × ReservationState)
read_reservations x r ns = do
  before_active r
  cm ← get_config_map ns reservation_name
  from_result (active_identity r cm)
  st ← from_result (decode_active x r cm)
  pure (cm, st)

-- The read inside an observation, which is of the reconciler's own guard.
unfoldable pub read_reservations_observed :
    Backend → Reconciler → Text → M (ConfigMap × ReservationState)
read_reservations_observed x r ns = elim r.genesis [
  | none ↦ fail Error.failed
  | some g ↦
      require r.has_reader Error.failed
      >> observed_read (
          get_config_map ns reservation_name >>= λ cm.
          from_result (active_identity r cm) >> pure cm)
      >>= λ cm. from_result (decode_active x r cm) >>= λ st. pure (cm, st)
]

abbrev pub with_reservations : ConfigMap → Text → ConfigMap
with_reservations cm bytes = record cm { contents = (reservation_data_key, bytes) ∷ [] }

unfoldable pub one_reservation : ConfigMap → Bool
one_reservation cm =
    length cm.contents == 1
    && not (is_empty (value_of reservation_data_key cm.contents))
    && is_nil cm.binary

unfoldable pub write_reservations :
    Backend → Reconciler → ConfigMap → ReservationState → M (Unit {0})
write_reservations x r cm st = do
  require (one_reservation cm) Error.failed
  bytes ← from_result (encode_reservations x.codec st)
  elim r.genesis [
    | none ↦ update_config_map (with_reservations cm bytes)
    | some g ↦ patch_ledger Role.active cm bytes
  ]

unfoldable pub wait_reservation_cas : ℕ → M (Unit {0})
wait_reservation_cas retry = ask_wait (2 ^ min retry 5)

-- The loops count the attempts left, as in the queue.
abbrev pub retry_number : ℕ → ℕ
retry_number left = max_reservation_attempts - 1 - left

-- A write in a loop: a conflict waits and tries again, another error is given to `lost`.
abbrev pub cas_reservations :
    {A : Type 0}
    → Backend
    → Reconciler
    → ConfigMap
    → ReservationState
    → ℕ
    → M A
    → (Error → M A)
    → M A
    → M A
cas_reservations x r cm next left again lost done = attempt (write_reservations x r cm next) λ w.
    elim w [
      | ok u ↦ done
      | err e ↦
          if is_conflict e then (wait_reservation_cas (retry_number left) >> again) else lost e
    ]

abbrev pub with_active : ReservationState → Dict ActiveReservation → ReservationState
with_active st d = record st { active = d }

-- `state.Active[reservationKey(build)] = entry`
abbrev pub with_entry : ReservationState → KovaBuild → ActiveReservation → ReservationState
with_entry st b e = with_active st (insert (reservation_key b) e st.active)

-- The build still waits for admission.
unfoldable pub is_live : KovaBuild → KovaBuild → Bool
is_live current b =
    text_eq current.uid b.uid
    && not current.deleting
    && not (cancellation_requested current)
    && awaits_admission current.phase

unfoldable pub ensure_live : KovaBuild → M (Unit {0})
ensure_live b =
    read_build b.namespace b.name >>= λ current. require (is_live current b) Error.admission_closed

unfoldable pub pod_name : Text → Text
pod_name name = text "kova-job-" ++ name

abbrev pub owned_by : List Owner → KovaBuild → Bool
owned_by [] b = false
owned_by (o ∷ rest) b =
    (text_eq o.api_version (text "kova.cofy.dev/v1alpha1")
      && text_eq o.kind (text "KovaBuild")
      && text_eq o.name b.name
      && text_eq o.uid b.uid)
    || owned_by rest b

unfoldable pub pod_owned_by_build : Pod → KovaBuild → Bool
pod_owned_by_build p b = owned_by p.owners b

-- No Pod if the API server answers NotFound.
unfoldable pub get_owned_pod : KovaBuild → M (Option Pod)
get_owned_pod b = attempt (read_pod b.namespace (pod_name b.name)) λ r. elim r [
  | err e ↦ if is_not_found e then pure none else fail e
  | ok p ↦ if pod_owned_by_build p b then pure (some p) else fail Error.failed
]

abbrev pub build_label : Text
build_label = text "kova.cofy.dev/build-id"

abbrev pub any_runner : List Pod → Bool
any_runner [] = false
any_runner (p ∷ rest) = not (is_empty (value_of build_label p.labels)) || any_runner rest

-- The reconciler that `PreflightAdmissionLedger` makes of a reader and a configuration.
abbrev pub bare : Limits → Reconciler
bare cfg = record {
  genesis = none;
  has_reader = true;
  has_receipts = false;
  has_coordinator = false;
  cfg = cfg;
  max_queued_jobs = 0;
  max_queued_jobs_per_requester = 0;
  worker_pool_id = [];
  runner_image = [];
  runner_image_digest = [];
}

unfoldable pub preflight_ledger : Backend → Text → Limits → M (Unit {0})
preflight_ledger x ns cfg = attempt (read_reservations x (bare cfg) ns) λ r. elim r [
  | ok v ↦ pure tt
  | err e ↦
      if is_not_found e
      then (require (validate_capacity cfg) Error.failed >> some_builds ns 1 >>= λ builds.
          require (is_nil builds) Error.failed >> read_pods ns >>= λ pods.
          require (not (any_runner pods)) Error.failed)
      else fail e
]

abbrev pub bootstrap_annotation : Text
bootstrap_annotation = text "kova.cofy.dev/admission-bootstrap"

abbrev pub new_ledger : Text → Text → Text → ConfigMap
new_ledger ns nonce bytes = record {
  meta = record {
    namespace = ns;
    name = reservation_name;
    uid = [];
    resource_version = [];
    labels = [];
    annotations = (bootstrap_annotation, nonce) ∷ [];
    finalizers = [];
    owners = [];
    deleting = false;
    created = 0;
  };
  immutable = none;
  contents = (reservation_data_key, bytes) ∷ [];
  binary = [];
}

-- The nonce is taken once, at the first attempt that needs it.
abbrev pub bootstrap_nonce : Option Text → M Text
bootstrap_nonce none = ask_nonce
bootstrap_nonce (some n) = pure n

-- The ledger is absent, and the queue's ledger was read as `queue`: it must be absent too, or both
-- were created meanwhile. True: this call created the ledger.
unfoldable pub initialize_reservations_loop : Backend → Reconciler → Text → Option Text → ℕ → M Bool
initialize_reservations_loop x r ns taken zero = fail Error.failed
initialize_reservations_loop x r ns taken (suc left) = attempt (read_reservations x r ns) λ found.
    elim found [
      | ok v ↦ pure false
      | err e ↦
          if is_not_found e
          then (attempt (get_config_map ns ledger_name) λ queue. elim queue [
            | ok cm ↦ attempt (read_reservations x r ns) λ again. elim again [
              | ok v ↦ pure false
              | err e' ↦ if is_not_found e' then fail Error.failed else fail e'
            ]
            | err e' ↦
                if is_not_found e'
                then (preflight_ledger x ns r.cfg
                    >> from_result (encode_reservations x.codec (fresh_reservations r.cfg))
                    >>= λ bytes. bootstrap_nonce taken >>= λ mine.
                        attempt (create_config_map (new_ledger ns mine bytes)) λ made. elim made [
                          | ok u ↦ pure true
                          | err failure ↦
                              if is_already_exists failure
                              then (wait_reservation_cas (retry_number left)
                                  >> initialize_reservations_loop x r ns (some mine) left)
                              else (attempt (read_reservations x r ns) λ seen. elim seen [
                                | ok v ↦
                                    pure
                                      (text_eq (value_of bootstrap_annotation v.0.annotations) mine)
                                | err e'' ↦ fail failure
                              ])
                        ])
                else fail e'
          ])
          else fail e
    ]

unfoldable pub initialize_reservations : Backend → Reconciler → Text → M Bool
initialize_reservations x r ns = elim r.genesis [
  | some g ↦ read_reservations x r ns >>= λ v. pure false
  | none ↦ initialize_reservations_loop x r ns none max_reservation_attempts
]

unfoldable pub ensure_admission_ledger : Backend → Text → Limits → M Bool
ensure_admission_ledger x ns cfg = initialize_reservations x (bare cfg) ns

-- The ledger of the mode without a Genesis.
unfoldable pub check_admission_ledger : Backend → Text → Limits → M (Unit {0})
check_admission_ledger x ns cfg = get_config_map ns reservation_name >>= λ cm.
    from_result (decode_reservations x.codec cm) >>= λ st.
    require (st.version == 1 && validate_reservation_limits cfg st) Error.failed

unfoldable pub validate_ledger_for_genesis : Backend → ConfigMap → Limits → Result (Unit {0})
validate_ledger_for_genesis x cm cfg = elim (decode_reservations x.codec cm) [
  | err e ↦ err e
  | ok st ↦
      if st.version == 2 && validate_reservation_limits cfg st then ok tt else err Error.failed
]
