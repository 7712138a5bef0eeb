-- ===== src/Reservations.antt =====
-- The reservation ledger of the controller (internal/service/buildcontroller/reservation.go): its
-- state, the checks on it, its encoding, and the state that a grant writes
-- (internal/service/buildcontroller/admission.go).
--
-- `Codec` holds what the code takes from elsewhere: encoding/json with the strict decoder, SHA-256,
-- UTF-8, and the Kubernetes name check. Limits, slots and versions are natural numbers: the code
-- refuses values below 1. The fence is a 64-bit word.
pub mod Ledger
pub mod Grant
pub mod Pod
pub mod Fences
pub mod Admit
pub mod Steps
pub mod Reading
pub mod Decoded
pub mod Evidence
pub mod Safety
pub mod Cluster
mod Counts
pub mod Grants
mod Tests
use kova.Base.{
  ℕ, zero, suc, ◌+◌, ◌*◌, ◌-◌, ◌%◌, Bool, true, false, not, ◌&&◌, ◌||◌, List, [], ◌∷◌, ◌++◌, Option,
  none, some, ltb, leb, ◌==◌, if◌then◌else◌, length, is_some,
}
use kova.Base.Text.{Text, text, text_eq, is_empty, has_prefix, trim_prefix, all_bytes}
use kova.Base.Dict.{Dict, lookup, insert}
use kova.Api.{KovaBuild, value_of}
use kova.Effects.{Error, Result, ok, err, ConfigMap}
use kova.Admission.{ActiveReservation, Tally, bump, reservation_key, requester_key}
use kova.Queue.{is_lower_hex, both_or_neither, is_uid_byte}
use kova.Queue.Store.{is_nil}

pub record Limits : Type 0 where
  pub max_active_jobs : ℕ
  pub max_active_jobs_per_requester : ℕ
  pub worker_slots : ℕ

-- `has_active`: the map is not nil.
pub record ReservationState : Type 0 where
  pub version : ℕ
  pub fence : ℕ
  pub max_jobs : ℕ
  pub max_per_requester : ℕ
  pub worker_slots : ℕ
  pub last_granted : Text
  pub has_active : Bool
  pub active : Dict ActiveReservation

pub record Codec : Type 0 where
  pub marshal : ReservationState → Text
  pub unmarshal : Text → Option ReservationState
  pub sha256_hex : Text → Text
  pub is_dns_subdomain : Text → Bool
  pub is_utf8 : Text → Bool
  pub rune_count : Text → ℕ
  -- Some rune is a space or a control character.
  pub has_blank : Text → Bool

abbrev pub reservation_data_key : Text
reservation_data_key = text "reservations.json"

abbrev pub max_reservation_bytes : ℕ
max_reservation_bytes = 768 * 1024

unfoldable pub validate_capacity : Limits → Bool
validate_capacity l =
    leb 1 l.max_active_jobs
    && leb l.max_active_jobs 128
    && leb 1 l.max_active_jobs_per_requester
    && leb l.max_active_jobs_per_requester l.max_active_jobs
    && leb 1 l.worker_slots
    && leb l.worker_slots 65535
    && leb (8192 + l.max_active_jobs * 6000) max_reservation_bytes

-- Lower case and decoded by hex.DecodeString, which wants an even length.
unfoldable pub valid_reservation_hex : Text → ℕ → Bool
valid_reservation_hex value n = length value == n && all_bytes is_lower_hex value && n % 2 == 0

unfoldable pub valid_grant_receipt_uid : Text → Bool
valid_grant_receipt_uid value =
    not (is_empty value) && leb (length value) 64 && all_bytes is_uid_byte value

unfoldable pub valid_grant_observed_rv : Codec → Text → Bool
valid_grant_observed_rv x value =
    not (is_empty value) && leb (length value) 256 && x.is_utf8 value && not (x.has_blank value)

unfoldable pub valid_grant_receipt_digest : Text → Bool
valid_grant_receipt_digest value =
    has_prefix value (text "sha256:")
    && valid_reservation_hex (trim_prefix value (text "sha256:")) 64

-- `a => b`, for the tests that the source writes as `a && !b` before an error.
abbrev pub implies : Bool → Bool → Bool
implies a b = not a || b

-- `len(InFlight) == 1 && …`: the test on the one attempt in flight.
abbrev pub on_single : (Text → Bool) → List Text → Bool
on_single p [] = true
on_single p (a ∷ []) = p a
on_single p (a ∷ b ∷ rest) = true

-- The first test of the loop.
unfoldable pub reservation_ok : Codec → ℕ → Text → ActiveReservation → Bool
reservation_ok x slots key e =
    not (is_empty key)
    && leb (length key) 256
    && x.is_utf8 key
    && not (is_empty e.build_name)
    && leb (length e.build_name) 253
    && x.is_dns_subdomain e.build_name
    && not (is_empty e.requester)
    && x.is_utf8 e.requester
    && leb (x.rune_count e.requester) 253
    && leb 1 e.slots
    && leb e.slots slots
    && leb (length e.in_flight) 1
    && on_single (λ a. valid_reservation_hex a 32) e.in_flight

-- Version 1 has no receipt fields.
unfoldable pub legacy_ok : ActiveReservation → Bool
legacy_ok e =
    is_empty e.grant_nonce
    && e.grant_fence == 0
    && is_empty e.grant_observed_rv
    && is_empty e.grant_receipt_uid
    && is_empty e.grant_receipt_digest
    && not e.grant_cleanup_ready
    && is_empty e.pod_attempt_nonce
    && is_empty e.pod_template_digest
    && is_empty e.pod_receipt_uid
    && is_empty e.pod_receipt_digest
    && not e.pod_cleanup_ready

-- Version 2: the grant's receipt, then the Pod's.
unfoldable pub grant_ok : Codec → ActiveReservation → Bool
grant_ok x e =
    valid_reservation_hex e.grant_nonce 32
    && not (e.grant_fence == 0)
    && implies (not (is_empty e.grant_observed_rv)) (valid_grant_observed_rv x e.grant_observed_rv)
    && both_or_neither (is_empty e.grant_receipt_uid) (is_empty e.grant_receipt_digest)
    && implies (not (is_empty e.grant_receipt_uid)) (
        not (is_empty e.grant_observed_rv)
        && valid_grant_receipt_uid e.grant_receipt_uid
        && valid_grant_receipt_digest e.grant_receipt_digest)
    && implies e.grant_cleanup_ready (
        e.closing
        && is_nil e.in_flight
        && not (is_empty e.grant_receipt_uid)
        && implies (not (is_empty e.pod_template_digest)) e.pod_cleanup_ready)

unfoldable pub pod_ok : ActiveReservation → Bool
pod_ok e =
    implies (is_empty e.pod_attempt_nonce) (
      is_empty e.pod_template_digest
      && is_empty e.pod_receipt_uid
      && is_empty e.pod_receipt_digest
      && not e.pod_cleanup_ready
      && is_nil e.in_flight)
    && implies (not (is_empty e.pod_attempt_nonce)) (valid_reservation_hex e.pod_attempt_nonce 32)
    && implies (is_empty e.pod_template_digest) (
        is_empty e.pod_receipt_uid
        && is_empty e.pod_receipt_digest
        && not e.pod_cleanup_ready
        && is_nil e.in_flight)
    && implies (not (is_empty e.pod_template_digest))
        (valid_grant_receipt_digest e.pod_template_digest && not (is_empty e.grant_receipt_uid))
    && both_or_neither (is_empty e.pod_receipt_uid) (is_empty e.pod_receipt_digest)
    && implies (not (is_empty e.pod_receipt_uid)) (
        valid_grant_receipt_uid e.pod_receipt_uid
        && valid_grant_receipt_digest e.pod_receipt_digest)
    && on_single (λ a. text_eq a e.pod_attempt_nonce && not (is_empty e.pod_receipt_uid))
        e.in_flight
    && implies e.pod_cleanup_ready
        (e.closing && is_nil e.in_flight && not (is_empty e.pod_receipt_uid))

unfoldable pub version_ok : Codec → ℕ → ActiveReservation → Bool
version_ok x version e = if version == 1 then legacy_ok e else grant_ok x e && pod_ok e

-- The loop, with the slots used and the jobs of each requester so far.
unfoldable pub active_ok : Codec → ReservationState → ℕ → Tally → Dict ActiveReservation → Bool
active_ok x s used counts [] = true
active_ok x s used counts ((key, e) ∷ d) =
    reservation_ok x s.worker_slots key e
    && version_ok x s.version e
    && leb used (s.worker_slots - e.slots)
    && leb (bump e.requester counts e.requester) s.max_per_requester
    && active_ok x s (used + e.slots) (bump e.requester counts) d

abbrev pub limits_of : ReservationState → Limits
limits_of s = record {
  max_active_jobs = s.max_jobs;
  max_active_jobs_per_requester = s.max_per_requester;
  worker_slots = s.worker_slots;
}

unfoldable pub validate_reservation_state : Codec → ReservationState → Bool
validate_reservation_state x s =
    (s.version == 1 || s.version == 2)
    && s.has_active
    && validate_capacity (limits_of s)
    && leb (length s.active) s.max_jobs
    && implies (not (is_empty s.last_granted)) (valid_reservation_hex s.last_granted 64)
    && active_ok x s 0 (λ who. 0) s.active

unfoldable pub encode_reservations : Codec → ReservationState → Result Text
encode_reservations x s =
    if validate_reservation_state x s
    then (if ltb max_reservation_bytes (length (x.marshal s))
        then err Error.failed
        else ok (x.marshal s))
    else err Error.failed

unfoldable pub decode_reservations : Codec → ConfigMap → Result ReservationState
decode_reservations x cm =
    if length cm.contents == 1
      && not (is_empty (value_of reservation_data_key cm.contents))
      && leb (length (value_of reservation_data_key cm.contents)) max_reservation_bytes
      && is_nil cm.binary
    then (elim (x.unmarshal (value_of reservation_data_key cm.contents)) [
      | none ↦ err Error.failed
      | some s ↦ if validate_reservation_state x s then ok s else err Error.failed
    ])
    else err Error.failed

unfoldable pub validate_reservation_limits : Limits → ReservationState → Bool
validate_reservation_limits cfg s =
    validate_capacity cfg
    && s.max_jobs == cfg.max_active_jobs
    && s.max_per_requester == cfg.max_active_jobs_per_requester
    && s.worker_slots == cfg.worker_slots

unfoldable pub fresh_reservations : Limits → ReservationState
fresh_reservations cfg = record {
  version = 1;
  fence = 0;
  max_jobs = cfg.max_active_jobs;
  max_per_requester = cfg.max_active_jobs_per_requester;
  worker_slots = cfg.worker_slots;
  last_granted = [];
  has_active = true;
  active = [];
}

-- `state.Version, state.Fence = 2, 1`
unfoldable pub genesis_reservations : Limits → ReservationState
genesis_reservations cfg = record (fresh_reservations cfg) { version = 2; fence = 1 }

-- The entry of a new grant, with the nonce and the fence if there is a Genesis.
unfoldable pub grant_entry : KovaBuild → ℕ → Option (Text × ℕ) → ActiveReservation
grant_entry b slots evidence = record {
  build_name = b.name;
  requester = requester_key b;
  slots = slots;
  grant_nonce = elim evidence [ none ↦ [] | some v ↦ v.0 ];
  grant_fence = elim evidence [ none ↦ 0 | some v ↦ v.1 ];
  grant_observed_rv = [];
  grant_receipt_uid = [];
  grant_receipt_digest = [];
  grant_cleanup_ready = false;
  pod_attempt_nonce = [];
  pod_template_digest = [];
  pod_receipt_uid = [];
  pod_receipt_digest = [];
  pod_cleanup_ready = false;
  closing = false;
  in_flight = [];
}

abbrev pub nonzero : ℕ → ℕ
nonzero zero = 1
nonzero (suc n) = suc n

-- The state that a grant of so many slots writes; the nonce is there if there is a Genesis.
unfoldable pub with_grant :
    Codec → KovaBuild → ℕ → Option Text → ReservationState → ReservationState
with_grant x b slots none s = record s {
  last_granted = x.sha256_hex (requester_key b);
  active = insert (reservation_key b) (grant_entry b slots none) s.active;
}
with_grant x b slots (some nonce) s = record s {
  fence = nonzero s.fence;
  last_granted = x.sha256_hex (requester_key b);
  active =
      insert (reservation_key b) (grant_entry b slots (some (nonce, nonzero s.fence))) s.active;
}
