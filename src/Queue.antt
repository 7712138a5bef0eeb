-- ===== src/Queue.antt =====
-- The queue ledger of the HTTP service (internal/service/queueadmission/ledger.go): its data and the
-- checks on it. The operations stand in Queue/Store, Queue/Receipt and Queue/Release.
--
-- What the code takes from elsewhere is the record `Externals`: encoding/json and SHA-256 by their
-- results, the Kubernetes name check, and the strict decoder of internal/admissionjson.
-- Limits and versions are natural numbers: the code refuses values below 1.
pub mod Store
pub mod Receipt
pub mod Release
pub mod Observed
pub mod Reading
pub mod Steps
pub mod Evidence
pub mod Safety
pub mod Cluster
pub mod Quiet
pub mod Tests
use kova.Base.{
  ℕ, zero, suc, ◌+◌, ◌*◌, Bool, true, false, not, ◌&&◌, ◌||◌, List, [], ◌∷◌, ◌++◌, Option, none,
  some, ltb, leb, ◌==◌, if◌then◌else◌, length,
}
use kova.Base.Text.{Text, text, text_eq, is_empty, has_prefix, trim_prefix, all_bytes}
use kova.Base.Dict.{Dict}
use kova.Api.{Spec, Requester, KovaBuild}
use kova.Api.Int.{ℤ, pos, negsuc}
use kova.Effects.{Error, Result, ok, err}
use kova.Admission.{Tally, bump}

pub record Intent : Type 0 where
  pub requester_hash : Text
  pub request_digest : Text
  pub nonce : Text
  pub created_at : ℤ
  pub receipt_uid : Text
  pub receipt_digest : Text
  pub cleanup_kind : Text

-- `has_intents`: the map is not nil.
pub record State : Type 0 where
  pub version : ℕ
  pub global_limit : ℕ
  pub requester_limit : ℕ
  pub has_intents : Bool
  pub intents : Dict Intent

pub record Externals : Type 0 where
  pub marshal : State → Text
  pub unmarshal : Text → Option State
  pub marshal_spec : Spec → Option Text
  pub marshal_texts : Dict Text → Text
  pub sha256_hex : Text → Text
  pub is_dns_subdomain : Text → Bool
  pub is_dns_label : Text → Bool
  pub is_utf8 : Text → Bool
  pub rune_count : Text → ℕ

abbrev pub ledger_name : Text
ledger_name = text "kova-service-queue-admission"

abbrev pub data_key : Text
data_key = text "queue.json"

abbrev pub intent_annotation : Text
intent_annotation = text "kova.cofy.dev/queue-intent"

abbrev pub receipt_uid_annotation : Text
receipt_uid_annotation = text "kova.cofy.dev/queue-receipt-uid"

abbrev pub receipt_digest_annotation : Text
receipt_digest_annotation = text "kova.cofy.dev/queue-receipt-digest"

abbrev pub receipt_settled_annotation : Text
receipt_settled_annotation = text "kova.cofy.dev/queue-receipt-settled-uid"

abbrev pub cleanup_rejected : Text
cleanup_rejected = text "rejected"

abbrev pub cleanup_terminal : Text
cleanup_terminal = text "terminal"

abbrev pub max_ledger_bytes : ℕ
max_ledger_bytes = 768 * 1024

abbrev pub max_header_bytes : ℕ
max_header_bytes = 4096

abbrev pub max_intent_bytes : ℕ
max_intent_bytes = 736

abbrev pub max_cas_attempts : ℕ
max_cas_attempts = 16

unfoldable pub hash_requester : Externals → Text → Text
hash_requester x username = x.sha256_hex username

-- `spec.Requester.UID = ""` on a copy.
abbrev pub without_uid : Spec → Spec
without_uid s = record s { requester = record { username = s.requester.username; uid = [] } }

unfoldable pub digest_build : Externals → KovaBuild → Result Text
digest_build x b = elim (x.marshal_spec (without_uid b.spec)) [
  | none ↦ err Error.failed
  | some bytes ↦ ok (x.sha256_hex bytes)
]

unfoldable pub limits_ok : ℕ → ℕ → Bool
limits_ok global requester =
    leb 1 global
    && leb global 1000
    && leb 1 requester
    && leb requester global
    && leb (max_header_bytes + global * max_intent_bytes) max_ledger_bytes

abbrev pub is_lower_hex : ℕ → Bool
is_lower_hex c = (leb b'0' c && leb c b'9') || (leb b'a' c && leb c b'f')

-- The loop of the source is over runes; a rune of two or more bytes is refused as each of its bytes.
unfoldable pub valid_lower_hex : Text → ℕ → Bool
valid_lower_hex value n = length value == n && all_bytes is_lower_hex value

abbrev pub is_uid_byte : ℕ → Bool
is_uid_byte c =
    (leb b'0' c && leb c b'9')
    || (leb b'a' c && leb c b'z')
    || (leb b'A' c && leb c b'Z')
    || c == b'-'

unfoldable pub valid_receipt_uid : Text → Bool
valid_receipt_uid value =
    not (is_empty value) && leb (length value) 64 && all_bytes is_uid_byte value

unfoldable pub valid_digest : Text → Bool
valid_digest value =
    has_prefix value (text "sha256:") && valid_lower_hex (trim_prefix value (text "sha256:")) 64

abbrev pub is_positive : ℤ → Bool
is_positive (pos zero) = false
is_positive (pos (suc n)) = true
is_positive (negsuc n) = false

-- The first test of the loop in `validateState`.
unfoldable pub identity_ok : Externals → Text → Intent → Bool
identity_ok x id e =
    not (is_empty id)
    && leb (length id) 253
    && x.is_dns_subdomain id
    && valid_lower_hex e.requester_hash 64
    && valid_lower_hex e.request_digest 64
    && valid_lower_hex e.nonce 32
    && is_positive e.created_at

abbrev pub both_or_neither : Bool → Bool → Bool
both_or_neither true b = b
both_or_neither false b = not b

-- The second test: a receipt link is whole, and version 1 has none.
unfoldable pub link_ok : ℕ → Intent → Bool
link_ok version e =
    both_or_neither (is_empty e.receipt_uid) (is_empty e.receipt_digest)
    && not (version == 1 && (not (is_empty e.receipt_uid) || not (is_empty e.cleanup_kind)))
    && (is_empty e.receipt_uid
        || (valid_receipt_uid e.receipt_uid && valid_digest e.receipt_digest))
    && (is_empty e.cleanup_kind
        || (not (is_empty e.receipt_uid)
            && (text_eq e.cleanup_kind cleanup_rejected
                || text_eq e.cleanup_kind cleanup_terminal)))

-- The loop of `validateState`, with the counts of the requesters so far.
unfoldable pub entries_ok : Externals → ℕ → ℕ → Tally → Dict Intent → Bool
entries_ok x version limit counts [] = true
entries_ok x version limit counts ((id, e) ∷ d) =
    identity_ok x id e
    && link_ok version e
    && leb (bump e.requester_hash counts e.requester_hash) limit
    && entries_ok x version limit (bump e.requester_hash counts) d

unfoldable pub validate_state : Externals → State → Bool
validate_state x s =
    (s.version == 1 || s.version == 2)
    && s.has_intents
    && limits_ok s.global_limit s.requester_limit
    && leb (length s.intents) s.global_limit
    && entries_ok x s.version s.requester_limit (λ who. 0) s.intents

unfoldable pub encode_state : Externals → State → Result Text
encode_state x s =
    if validate_state x s
    then (if ltb max_ledger_bytes (length (x.marshal s))
        then err Error.failed
        else ok (x.marshal s))
    else err Error.failed

-- The intents of one requester, as `Reserve` counts them.
unfoldable pub intents_of : Text → Dict Intent → ℕ
intents_of who [] = 0
intents_of who ((id, e) ∷ d) = (if text_eq e.requester_hash who then 1 else 0) + intents_of who d
