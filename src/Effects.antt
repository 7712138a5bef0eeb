-- ===== src/Effects.antt =====
-- Code with effects. A call of the Kubernetes API, the clock, the random source or the Genesis guard
-- is a request, answered by an environment that the code does not choose: other replicas, the API
-- server, failures. A program is the tree of its requests; a theorem on a program speaks of every
-- answer. `Result` is Go's pair of a value and an error.
pub mod Errors
pub mod Traces
pub mod Reads
use kova.Base.{ℕ, suc, zero, Bool, true, false, List, [], ◌∷◌, Option, none, some, if◌then◌else◌}
use kova.Base.Text.{Text}
use kova.Base.Dict.{Dict}
use kova.Api.{Meta, KovaBuild}
use kova.Api.Int.{ℤ}
use kova.Api.Pods.{Pod}

-- What errors.Is and the apierrors predicates tell apart.
pub data Error : Type 0 where
  -- apierrors.IsNotFound, IsAlreadyExists, IsConflict, IsTooManyRequests; ctx.Err()
  not_found already_exists conflict too_many_requests context_done : Error
  -- queueadmission.ErrFull, ErrBusy, ErrConflict, ErrDrift
  full busy intent_conflict drift : Error
  -- recoveryreceipt.ErrInvalid, ErrChanged
  receipt_invalid receipt_changed receipt_unconfirmed : Error
  -- apierrors.IsForbidden, IsInvalid, IsBadRequest, IsUnauthorized
  forbidden invalid bad_request unauthorized : Error
  -- errAdmissionClosed, errGrantUnpinned, errPodReceiptUnpinned of the controller, and its
  -- admissionRecoveryError with the number of attempts of unknown outcome
  admission_closed grant_unpinned pod_receipt_unpinned : Error
  recovery_required : ℕ → Error
  -- Any other error: `failed` of the code's own, `other` of the environment.
  failed : Error
  other : Text → Error

pub data Result (A : Type 0) : Type 0 where
  ok : A → Result A
  err : Error → Result A

pub record ConfigMap : Type 0 where
  pub meta : Meta
  pub open meta use *
  pub immutable : Option Bool
  pub contents : Dict Text
  pub binary : Dict Text

pub record Namespace : Type 0 where
  pub name : Text
  pub uid : Text
  pub deleting : Bool
  pub is_active : Bool

-- The two ledgers of admissioncontract.Role.
pub data Role : Type 0 where
  active queue : Role

pub data Request : Type 0 where
  ctx_err : Request
  -- A timer of so many milliseconds, raced with the end of the context.
  wait : ℕ → Request
  now : Request
  -- 16 random bytes in hexadecimal.
  random_nonce : Request
  -- A direct read by namespace and name.
  get_config : Text → Text → Request
  create_config : ConfigMap → Request
  update_config : ConfigMap → Request
  -- A deletion that the API server refuses unless the object has this UID.
  delete_config : Text → Text → Text → Request
  get_build : Text → Text → Request
  update_build : KovaBuild → Request
  -- At most so many builds of the namespace.
  list_builds : Text → ℕ → Request
  all_builds : Text → Request
  get_pod : Text → Text → Request
  list_pods : Text → Request
  -- One attempt to create a ConfigMap, and the object of the response, if there is one.
  create_receipt : ConfigMap → Request
  get_namespace : Text → Request
  -- Guard.Check, and Guard.PatchLedgerData with the ledger read and the new data.
  guard_check : Request
  guard_patch : Role → ConfigMap → Text → Request
  -- AdmissionCoordinator.tryBegin for a namespace, and the release of a permit.
  begin_grant : Text → Request
  end_grant : ℕ → Request

abbrev pub Reply : Request → Type 0
Reply Request.ctx_err = Result (Unit {0})
Reply (Request.wait n) = Result (Unit {0})
Reply Request.now = ℤ
Reply Request.random_nonce = Result Text
Reply (Request.get_config ns n) = Result ConfigMap
Reply (Request.create_config cm) = Result (Unit {0})
Reply (Request.update_config cm) = Result (Unit {0})
Reply (Request.delete_config ns n uid) = Result (Unit {0})
Reply (Request.get_build ns n) = Result KovaBuild
Reply (Request.update_build b) = Result (Unit {0})
Reply (Request.list_builds ns n) = Result (List KovaBuild)
Reply (Request.all_builds ns) = Result (List KovaBuild)
Reply (Request.get_pod ns n) = Result Pod
Reply (Request.list_pods ns) = Result (List Pod)
Reply (Request.create_receipt cm) = Option ConfigMap × Option Error
Reply (Request.get_namespace n) = Result Namespace
Reply Request.guard_check = Result (Unit {0})
Reply (Request.guard_patch r cm t) = Result (Unit {0})
Reply (Request.begin_grant ns) = Result (Option ℕ)
Reply (Request.end_grant p) = Unit {0}

pub data Prog (A : Type 0) : Type 0 where
  ret : A → Prog A
  call : (r : Request) → (Reply r → Prog A) → Prog A

abbrev pub bind : {A B : Type 0} → Prog A → (A → Prog B) → Prog B
bind (ret a) f = f a
bind (call r k) f = call r (λ x. bind (k x) f)

-- A function that may return an error.
abbrev pub M : Type 0 → Type 0
M A = Prog (Result A)

abbrev pub pure : {A : Type 0} → A → M A
pure a = ret (ok a)

abbrev pub fail : {A : Type 0} → Error → M A
fail e = ret (err e)

-- `if err != nil { return err }`
abbrev pub on_ok : {A B : Type 0} → (A → M B) → Result A → M B
on_ok f (ok a) = f a
on_ok f (err e) = fail e

infixl 5 ◌>>=◌ ◌>>◌
abbrev pub ◌>>=◌ : {A B : Type 0} → M A → (A → M B) → M B
m >>= f = bind m (on_ok f)

abbrev pub ◌>>◌ : {B : Type 0} → M (Unit {0}) → M B → M B
m >> k = m >>= λ _. k

-- The result with its error, for code that looks at the error.
abbrev pub attempt : {A B : Type 0} → M A → (Result A → M B) → M B
attempt m f = bind m f

abbrev pub from_result : {A : Type 0} → Result A → M A
from_result r = ret r

abbrev pub require : Bool → Error → M (Unit {0})
require true e = pure tt
require false e = fail e

abbrev pub ask_ctx : M (Unit {0})
ask_ctx = call Request.ctx_err ret

abbrev pub ask_wait : ℕ → M (Unit {0})
ask_wait n = call (Request.wait n) ret

abbrev pub ask_now : M ℤ
ask_now = call Request.now (λ t. pure t)

abbrev pub ask_nonce : M Text
ask_nonce = call Request.random_nonce ret

abbrev pub get_config_map : Text → Text → M ConfigMap
get_config_map ns n = call (Request.get_config ns n) ret

abbrev pub create_config_map : ConfigMap → M (Unit {0})
create_config_map cm = call (Request.create_config cm) ret

abbrev pub update_config_map : ConfigMap → M (Unit {0})
update_config_map cm = call (Request.update_config cm) ret

abbrev pub delete_config_map : Text → Text → Text → M (Unit {0})
delete_config_map ns n uid = call (Request.delete_config ns n uid) ret

abbrev pub read_build : Text → Text → M KovaBuild
read_build ns n = call (Request.get_build ns n) ret

abbrev pub write_build : KovaBuild → M (Unit {0})
write_build b = call (Request.update_build b) ret

abbrev pub some_builds : Text → ℕ → M (List KovaBuild)
some_builds ns n = call (Request.list_builds ns n) ret

abbrev pub read_builds : Text → M (List KovaBuild)
read_builds ns = call (Request.all_builds ns) ret

abbrev pub read_pod : Text → Text → M Pod
read_pod ns n = call (Request.get_pod ns n) ret

abbrev pub read_pods : Text → M (List Pod)
read_pods ns = call (Request.list_pods ns) ret

abbrev pub read_namespace : Text → M Namespace
read_namespace n = call (Request.get_namespace n) ret

abbrev pub check_guard : M (Unit {0})
check_guard = call Request.guard_check ret

abbrev pub patch_ledger : Role → ConfigMap → Text → M (Unit {0})
patch_ledger r cm t = call (Request.guard_patch r cm t) ret

abbrev pub is_not_found : Error → Bool
is_not_found Error.not_found = true
is_not_found _ = false

abbrev pub is_already_exists : Error → Bool
is_already_exists Error.already_exists = true
is_already_exists _ = false

abbrev pub is_conflict : Error → Bool
is_conflict Error.conflict = true
is_conflict _ = false

abbrev pub is_too_many_requests : Error → Bool
is_too_many_requests Error.too_many_requests = true
is_too_many_requests _ = false

-- errors.Join of two errors that are both there, as the apierrors predicates see it: the first one
-- that is a status of the API.
abbrev pub is_api_status : Error → Bool
is_api_status Error.not_found = true
is_api_status Error.already_exists = true
is_api_status Error.conflict = true
is_api_status Error.too_many_requests = true
is_api_status Error.forbidden = true
is_api_status Error.invalid = true
is_api_status Error.bad_request = true
is_api_status Error.unauthorized = true
is_api_status _ = false

abbrev pub join_errors : Error → Error → Error
join_errors a b = if is_api_status a then a else if is_api_status b then b else a

-- A result with the error of a later call joined to its own.
abbrev pub joined : {A : Type 0} → Result A → Result (Unit {0}) → Result A
joined r (ok u) = r
joined (ok a) (err e) = err e
joined (err d) (err e) = err (join_errors d e)

-- Guard.Observe (internal/service/admissiongenesis/observation.go): a check of the pair, the reads,
-- the context, and a check that runs whatever the reads returned.
unfoldable pub observe : {A : Type 0} → M A → M A
observe m =
    check_guard
    >> attempt m
        λ r. attempt ask_ctx λ c. attempt check_guard λ g. from_result (joined (joined r c) g)

-- Observation.Read: the context of the observation, then one read.
unfoldable pub observed_read : {A : Type 0} → M A → M A
observed_read m = ask_ctx >> m

-- The errors of a Create that show that the call did not create the object.
abbrev pub is_rejection : Error → Bool
is_rejection Error.already_exists = true
is_rejection Error.forbidden = true
is_rejection Error.invalid = true
is_rejection Error.bad_request = true
is_rejection Error.unauthorized = true
is_rejection _ = false

abbrev pub rejected : Option Error → Bool
rejected none = false
rejected (some e) = is_rejection e
