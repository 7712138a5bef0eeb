-- ===== src/Reservations/Grants.antt =====
-- The capacity of the reservation ledger: `validateReservationState` of
-- internal/service/buildcontroller/reservation.go and the grants of admission.go beside it.
use kova.Base.{
  ℕ, zero, suc, ◌+◌, ◌≤◌, ◌<◌, ◌≡◌, refl, true, false, not, List, [], ◌∷◌, Option, none, some, leb,
  ◌==◌, arith, length, is_some,
}
use kova.Base.Text.{Text, is_empty}
use kova.Base.Dict.{Dict, lookup, insert, length-insert_new}
use kova.Api.{KovaBuild}
use kova.Admission.{
  ActiveReservation, used_slots, active_for, decide_admission, granted, bump, reservation_key,
  requester_key,
}
use kova.Admission.Limits.{decide_admission-fits}
use kova.Admission.Decide.{SameBuild}
use kova.Reservations.{
  Codec, ReservationState, validate_capacity, validate_reservation_state, valid_reservation_hex,
  reservation_ok, version_ok, legacy_ok, grant_ok, pod_ok, active_ok, grant_entry, with_grant,
  nonzero,
}
use kova.Reservations.Counts.{active_ok-slots, active_ok-share, active_ok-insert_new}

-- A valid reservation ledger holds no more slots than workers, no more jobs than the limit, at
-- most 128, and no more jobs of any requester than its limit.
pub validate_reservation_state-bounds :
    (x : Codec) (s : ReservationState) (who : Text)
    → validate_reservation_state x s ≡ true
    → (used_slots s.active ≤ s.worker_slots)
      × (length s.active ≤ s.max_jobs)
      × (active_for who s.active ≤ s.max_per_requester)
      × (s.max_jobs ≤ 128)
      × (s.worker_slots ≤ 65535)
unfolding validate_reservation_state validate_capacity
validate_reservation_state-bounds x s who h = (
  omega (arith, active_ok-slots x s 0 (λ w. 0) s.active (omega arith) (ground arith)),
  ground arith,
  omega (arith, active_ok-share x s 0 (λ w. 0) who s.active (omega arith) (ground arith)),
  ground arith,
  ground arith,
)

-- What the API server and the caller guarantee of a granted build: a key, a DNS name, a requester in
-- UTF-8 and not too long, and, with a Genesis, a nonce and a ledger of version 2.
pub record Grantable (x : Codec) (s : ReservationState) (b : KovaBuild) (nonce : Option Text)
    : Type 0 where
  pub key_present : is_empty (reservation_key b) ≡ false
  pub key_length : leb (length (reservation_key b)) 256 ≡ true
  pub key_text : x.is_utf8 (reservation_key b) ≡ true
  pub name_present : is_empty b.name ≡ false
  pub name_length : leb (length b.name) 253 ≡ true
  pub name_dns : x.is_dns_subdomain b.name ≡ true
  pub requester_present : is_empty (requester_key b) ≡ false
  pub requester_text : x.is_utf8 (requester_key b) ≡ true
  pub requester_length : leb (x.rune_count (requester_key b)) 253 ≡ true
  pub hash : valid_reservation_hex (x.sha256_hex (requester_key b)) 64 ≡ true
  pub mode : (s.version == 1) ≡ not (is_some nonce)
  pub nonce_hex : (t : Text) → nonce ≡ some t → valid_reservation_hex t 32 ≡ true

grant_entry-version :
    (x : Codec) (version : ℕ) (b : KovaBuild) (slots : ℕ)
    → (version == 1) ≡ true
    → version_ok x version (grant_entry b slots none) ≡ true
unfolding version_ok grant_entry legacy_ok
grant_entry-version x version b slots v = rw v refl

grant_entry-receipt :
    (x : Codec) (version : ℕ) (b : KovaBuild) (slots fence : ℕ) (nonce : Text)
    → (version == 1) ≡ false
    → valid_reservation_hex nonce 32 ≡ true
    → (fence == 0) ≡ false
    → version_ok x version (grant_entry b slots (some (nonce, fence))) ≡ true
unfolding version_ok grant_entry grant_ok pod_ok
grant_entry-receipt x version b slots fence nonce v h f = rw (v, h, f) refl

grant_entry-ok :
    (x : Codec) (s : ReservationState) (b : KovaBuild) (slots : ℕ) (nonce : Option Text)
    (evidence : Option (Text × ℕ))
    → Grantable x s b nonce
    → 0 < slots
    → slots ≤ s.worker_slots
    → reservation_ok x s.worker_slots (reservation_key b) (grant_entry b slots evidence) ≡ true
unfolding reservation_ok grant_entry
grant_entry-ok x s b slots own evidence g p w = ground (
  arith, g.key_present, g.key_length, g.key_text, g.name_present, g.name_length, g.name_dns,
  g.requester_present, g.requester_text, g.requester_length,
)

nonzero-positive : (n : ℕ) → (nonzero n == 0) ≡ false
nonzero-positive zero = refl
nonzero-positive (suc n) = ground arith

-- The state with a new entry and a new cursor.
abbrev changed : ReservationState → ℕ → Text → Dict ActiveReservation → ReservationState
changed s fence last d = record s { fence = fence; last_granted = last; active = d }

active_ok-fence :
    (x : Codec) (s : ReservationState) (fence : ℕ) (last : Text) (d m : Dict ActiveReservation)
    (used : ℕ) (c : Text → ℕ)
    → active_ok x s used c m ≡ true
    → active_ok x (changed s fence last d) used c m ≡ true
unfolding active_ok
active_ok-fence x s fence last d [] used c h = refl
active_ok-fence x s fence last d ((k, e) ∷ m) used c h =
    ground (
      arith,
      active_ok-fence x s fence last d m (used + e.slots) (bump e.requester c) (ground arith),
    )

changed-valid :
    (x : Codec) (s : ReservationState) (fence : ℕ) (last : Text) (key : Text)
    (e : ActiveReservation)
    → validate_reservation_state x s ≡ true
    → lookup key s.active ≡ none
    → reservation_ok x s.worker_slots key e ≡ true
    → version_ok x s.version e ≡ true
    → valid_reservation_hex last 64 ≡ true
    → used_slots s.active + e.slots ≤ s.worker_slots
    → length s.active + 1 ≤ s.max_jobs
    → active_for e.requester s.active + 1 ≤ s.max_per_requester
    → validate_reservation_state x (changed s fence last (insert key e s.active)) ≡ true
unfolding validate_reservation_state
changed-valid x s fence last key e v n r k hash slots jobs share =
    let old : active_ok x s 0 (λ w. 0) s.active ≡ true = (ground arith) in
    let new =
      active_ok-insert_new x s 0 (λ w. 0) key e s.active n r k (omega (arith, slots))
        (omega (arith, share)) old in
    ground (
      arith,
      hash,
      length-insert_new {0} key e s.active n,
      active_ok-fence x s fence last (insert key e s.active) (insert key e s.active) 0 (λ w. 0) new,
    )

-- The decision's promise at the limits of a valid ledger, which all bind.
record InLimits (s : ReservationState) (b : KovaBuild) (n : ℕ) : Type 0 where
  positive : 0 < n
  at_most : n ≤ s.worker_slots
  slots : used_slots s.active + n ≤ s.worker_slots
  jobs : length s.active + 1 ≤ s.max_jobs
  share : active_for (requester_key b) s.active + 1 ≤ s.max_per_requester

limits_positive :
    (x : Codec) (s : ReservationState)
    → validate_reservation_state x s ≡ true
    → (0 < s.max_jobs) × (0 < s.max_per_requester) × (0 < s.worker_slots)
unfolding validate_reservation_state validate_capacity
limits_positive x s v = (ground arith, ground arith, ground arith)

fits :
    (x : Codec) (s : ReservationState) (b : KovaBuild) (builds : List KovaBuild) (n : ℕ)
    → validate_reservation_state x s ≡ true
    → SameBuild b builds
    → decide_admission x.sha256_hex b builds s.active s.max_jobs s.max_per_requester s.worker_slots
        s.last_granted
      ≡ granted n
    → InLimits s b n
fits x s b builds n v same d =
    let (jobs, share, workers) = limits_positive x s v in
    let (p, want, slots, job, own) =
      decide_admission-fits x.sha256_hex b builds s.active s.max_jobs s.max_per_requester
        s.worker_slots s.last_granted n same d in
    record {
      positive = p;
      at_most = omega (arith, slots workers);
      slots = slots workers;
      jobs = job jobs;
      share = own share;
    }

-- When the decision on a valid ledger at its own limits grants slots to a build that is not yet
-- active, whose names and nonce have the forms of Grantable, and whose key the listing gives its
-- name and specification, the ledger with the written grant is valid: worker slots, job limit and
-- requester limit hold.
pub with_grant-valid :
    (x : Codec) (s : ReservationState) (b : KovaBuild) (builds : List KovaBuild) (n : ℕ)
    (nonce : Option Text)
    → validate_reservation_state x s ≡ true
    → lookup (reservation_key b) s.active ≡ none
    → Grantable x s b nonce
    → SameBuild b builds
    → decide_admission x.sha256_hex b builds s.active s.max_jobs s.max_per_requester s.worker_slots
        s.last_granted
      ≡ granted n
    → validate_reservation_state x (with_grant x b n nonce s) ≡ true
unfolding with_grant grant_entry
with_grant-valid x s b builds n none v absent g same d =
    let f = fits x s b builds n v same d in
    changed-valid x s s.fence (x.sha256_hex (requester_key b)) (reservation_key b)
      (grant_entry b n none) v absent (grant_entry-ok x s b n none none g f.positive f.at_most)
      (grant_entry-version x s.version b n g.mode) g.hash f.slots f.jobs f.share
with_grant-valid x s b builds n (some nonce) v absent g same d =
    let f = fits x s b builds n v same d in
    changed-valid x s (nonzero s.fence) (x.sha256_hex (requester_key b)) (reservation_key b)
      (grant_entry b n (some (nonce, nonzero s.fence))) v absent
      (grant_entry-ok x s b n (some nonce) (some (nonce, nonzero s.fence)) g f.positive f.at_most)
      (grant_entry-receipt x s.version b n (nonzero s.fence) nonce g.mode (g.nonce_hex nonce refl)
        (nonzero-positive s.fence))
      g.hash f.slots f.jobs f.share
