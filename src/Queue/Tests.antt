-- ===== src/Queue/Tests.antt =====
-- Runs of the queue ledger, and its theorems at concrete inputs.
use kova.Base.{
  ap, ℕ, zero, suc, ◌≡◌, refl, sym, ◌⊎◌, inl, inr, Bool, true, false, List, [], ◌∷◌, ◌++◌, Option,
  none, some, In, here, there, if◌then◌else◌, ◌==◌, length, arith, ◌<◌,
}
use kova.Base.Text.{Text, text, text_eq, is_empty}
use kova.Base.Dict.{Dict, Distinct, lookup, insert, erase}
use kova.Api.{KovaBuild, Phase, Meta}
use kova.Api.Int.{pos}
use kova.Effects.{Error, ok, err, ConfigMap, Request}
use kova.Effects.Traces.{Asks, History, event, Always, Outcome, Any}
use kova.Queue.{
  hash_requester, digest_build, intents_of, Intent, State, Externals, ledger_name, data_key,
  encode_state, validate_state, entries_ok, identity_ok, link_ok, limits_ok, valid_receipt_uid,
  valid_digest, valid_lower_hex, intents_of, cleanup_terminal,
}
use kova.Queue.Store.{
  read, write, with_data, Genesis, Store, decode_ledger, with_intents, reserve, lookup_intent,
  one_entry,
}
use kova.Queue.Receipt.{
  ObservedQueueIntent, pin_receipt, pinned, mark_receipt_cleanup_ready, delete_pinned_receipt,
  link_seen, nonce_receipt_name,
}
use kova.Queue.Release.{
  rejected_loop, mark_receipt_settled, release_for_build, release_rejected, verify_for_build,
}
use kova.Queue.Steps.{Step, Step-valid, Reach, Gone, Extends}
use kova.Queue.Cluster.Writing.{Operation, Write, Writes, Writes-history}
use kova.Queue.Evidence.{Safe, Nothing, Marked, ReceiptGone}
use kova.Queue.Quiet.{
  Server, run, Holds, RoundTrip, written, reserve-roundtrip, release_rejected-roundtrip,
}
use kova.Queue.Cluster.{Commit, Commits, Commits-Reach}
use kova.Queue.Safety.Decoded.{encode_state-valid}
use kova.Queue.Safety.Reserving.{ReservesFor, ReservedFor, reserve-Safe}
use kova.Queue.Safety.Pinning.{Pins, SeenLink, pin_receipt-Safe}
use kova.Queue.Safety.Marking.{Marks, mark_receipt_cleanup_ready-Safe}
use kova.Queue.Safety.Deleting.{
  Deletion, Settling, SettledOwn, delete_pinned_receipt-Safe, mark_receipt_settled-Safe,
}
use kova.Queue.Safety.Removing.{ReleasesRejected, Removed}
use kova.Queue.Safety.Releasing.{ReleasesBuild, Released, release_for_build-Safe}
use kova.Queue.Safety.Verifying.{Verified, verify_for_build-Safe}
use kova.Queue.Safety.Rejecting.{release_rejected-Safe}

abbrev repeat : ℕ → ℕ → Text
repeat zero c = []
repeat (suc n) c = c ∷ repeat n c

abbrev some_hash : Text
some_hash = repeat 64 b'a'

abbrev pub first_intent : Intent
first_intent = record {
  requester_hash = some_hash;
  request_digest = some_hash;
  nonce = repeat 32 b'b';
  created_at = pos 7;
  receipt_uid = [];
  receipt_digest = [];
  cleanup_kind = [];
}

abbrev plain_store : Store
plain_store = record {
  genesis = none;
  has_reader = true;
  namespace = text "ns";
  global_limit = 10;
  requester_limit = 5;
}

abbrev pub pair_genesis : Genesis
pair_genesis = record {
  namespace = text "ns";
  namespace_uid = text "n1";
  receipt_namespace = text "receipts";
  receipt_namespace_uid = text "n2";
  genesis_name = text "genesis";
  genesis_uid = text "g1";
  generation = repeat 32 b'c';
  bound_namespace_uid = text "n1";
  bound_genesis_uid = text "g1";
  active_ledger_uid = text "u3";
  queue_ledger_uid = text "u1";
  has_api = true;
  is_valid = true;
  ledger_matches = λ cm. text_eq cm.uid (text "u1");
}

abbrev genesis_store : Store
genesis_store = record plain_store { genesis = some pair_genesis }

abbrev empty_state : State
empty_state = record {
  version = 1;
  global_limit = 10;
  requester_limit = 5;
  has_intents = true;
  intents = [];
}

abbrev first_state : State
first_state = with_intents empty_state (insert (text "b1") first_intent [])

-- JSON of the two states of the examples, and constants for the rest.
abbrev json_empty : Text
json_empty = text "{}"

abbrev json_first : Text
json_first = text "{b1}"

abbrev marshal_example : State → Text
marshal_example s = elim s.intents [ [] ↦ json_empty | e ∷ d ↦ json_first ]

abbrev unmarshal_example : Text → Option State
unmarshal_example t =
    if text_eq t json_empty
    then some empty_state
    else if text_eq t json_first
    then some first_state
    else none

abbrev pub externals : Externals
externals = record {
  marshal = marshal_example;
  unmarshal = unmarshal_example;
  marshal_spec = λ s. some (text "spec");
  marshal_texts = λ d. text "data";
  sha256_hex = λ t. some_hash;
  is_dns_subdomain = λ t. true;
  is_dns_label = λ t. true;
  is_utf8 = λ t. true;
  rune_count = length;
}

abbrev meta_of : Text → Text → Text → Meta
meta_of ns name uid = record {
  namespace = ns;
  name = name;
  uid = uid;
  resource_version = text "1";
  labels = [];
  annotations = [];
  finalizers = [];
  owners = [];
  deleting = false;
  created = 0;
}

abbrev ledger_map : Text → ConfigMap
ledger_map bytes = record {
  meta = meta_of (text "ns") ledger_name (text "u1");
  immutable = none;
  contents = (data_key, bytes) ∷ [];
  binary = [];
}

abbrev first_build : KovaBuild
first_build = record {
  meta = meta_of (text "ns") (text "b1") (text "u2");
  spec = record {
    requester = record { username = text "ann"; uid = [] };
    targets = [];
    source = record { uri = []; digest = [] };
    build = record {
      format = text "oci";
      concurrency = pos 1;
      timeout = pos 0;
      oom_cooldown = [];
      fail_fast = false;
      verbose = false;
      vars = [];
    };
    idempotency_key = [];
  };
  phase = Phase.queued;
}

first_step : Step externals empty_state first_state
unfolding lookup insert intents_of identity_ok valid_lower_hex kova.Base.Text.all_bytes
first_step =
    Step.reserve (text "b1") first_intent refl (omega arith) (omega arith) refl refl refl refl refl

empty_state-valid : validate_state externals empty_state ≡ true
unfolding validate_state limits_ok entries_ok
empty_state-valid = refl

Step-valid_example : validate_state externals first_state ≡ true
Step-valid_example = Step-valid externals empty_state first_state empty_state-valid first_step

first_entry : lookup (text "b1") first_state.intents ≡ some first_intent
unfolding lookup insert text_eq
first_entry = refl

decodes_empty : decode_ledger externals plain_store (ledger_map json_empty) ≡ ok empty_state
unfolding decode_ledger lookup text_eq one_entry validate_state limits_ok entries_ok
decodes_empty = refl

decodes_first : decode_ledger externals plain_store (ledger_map json_first) ≡ ok first_state
unfolding decode_ledger lookup text_eq one_entry
decodes_first = rw Step-valid_example refl

encodes_first : encode_state externals first_state ≡ ok json_first
unfolding insert encode_state
encodes_first = rw Step-valid_example refl

first_state-Distinct : Distinct first_state.intents
unfolding insert
first_state-Distinct = (tt, tt)

first-Commit : Commit externals plain_store (ledger_map json_empty) (ledger_map json_first)
first-Commit = record {
  history = event (Request.get_config (text "ns") ledger_name) (ok (ledger_map json_empty)) ∷ [];
  bytes = json_first;
  justified = record {
    old = empty_state;
    new = first_state;
    observed = record { got = here; decoded = decodes_empty };
    encoded = encodes_first;
    steps = first_step;
    cleared = λ id e l n. inl refl;
  };
  stored = refl;
  no_binary = refl;
  some_bytes = refl;
  round_trip = unfold text_eq in refl;
}

Commits-Reach_example :
    (t : State) × (decode_ledger externals plain_store (ledger_map json_first) ≡ ok t)
    × Reach externals empty_state t
Commits-Reach_example =
    Commits-Reach externals plain_store (ledger_map json_empty) (ledger_map json_first) empty_state
      decodes_empty (Commits.commit Commits.start first-Commit)

reserve-Safe_example :
    Always
      (Safe externals plain_store (ReservesFor externals plain_store first_build))
      (Outcome (ReservedFor externals plain_store first_build) Any)
      []
      (reserve externals plain_store first_build)
reserve-Safe_example = reserve-Safe externals plain_store [] first_build

abbrev first_receipt : ObservedQueueIntent
first_receipt = record {
  intent = record {
    namespace = text "ns";
    namespace_uid = text "n1";
    receipt_namespace = text "receipts";
    receipt_namespace_uid = text "n2";
    genesis_name = text "genesis";
    genesis_uid = text "g1";
    generation = repeat 32 b'c';
    active_ledger_uid = text "u3";
    queue_ledger_uid = text "u1";
    build_name = text "b1";
    requester_name = text "ann";
    requester_hash = some_hash;
    requester_uid = [];
    request_digest = some_hash;
    source_digest = [];
    queue_nonce = first_intent.nonce;
  };
  receipt_name = nonce_receipt_name first_intent.nonce;
  receipt_uid = text "r1";
  resource_version = text "1";
  data_digest = text "sha256:" ++ some_hash;
}

pin_receipt-Safe_example :
    Always
      (Safe externals genesis_store (Pins first_build.name))
      (Outcome
        (λ g u.
          SeenLink externals genesis_store (text "b1") (pinned first_intent first_receipt) [] g)
        Any)
      []
      (pin_receipt externals genesis_store first_build first_intent first_receipt)
pin_receipt-Safe_example =
    pin_receipt-Safe externals genesis_store [] first_build first_intent first_receipt

mark_receipt_cleanup_ready-Safe_example :
    Always
      (Safe externals genesis_store (Marks (text "b1") cleanup_terminal))
      (Outcome
        (λ g u.
          Marked externals genesis_store
            (text "b1")
            (pinned first_intent first_receipt)
            cleanup_terminal
            g)
        Any)
      []
      (mark_receipt_cleanup_ready externals genesis_store
        (text "b1")
        (pinned first_intent first_receipt)
        cleanup_terminal)
mark_receipt_cleanup_ready-Safe_example =
    mark_receipt_cleanup_ready-Safe externals genesis_store [] (text "b1")
      (pinned first_intent first_receipt) cleanup_terminal

abbrev gone_history : History
gone_history =
    event (Request.get_config (text "receipts") (nonce_receipt_name first_intent.nonce))
      (err Error.not_found)
    ∷ []

mark_receipt_settled-Safe_example :
    Always
      (Safe externals genesis_store (Settling first_build (pinned first_intent first_receipt)))
      (Outcome
        (λ g u.
          SettledOwn externals genesis_store first_build (pinned first_intent first_receipt) g)
        Any)
      gone_history
      (mark_receipt_settled genesis_store first_build (pinned first_intent first_receipt))
mark_receipt_settled-Safe_example =
    mark_receipt_settled-Safe externals genesis_store gone_history first_build
      (pinned first_intent first_receipt) here

release_for_build-Safe_example :
    Always
      (Safe externals genesis_store (ReleasesBuild externals first_build))
      (Outcome (λ g u. Released externals genesis_store first_build g) Any)
      []
      (release_for_build externals genesis_store first_build)
release_for_build-Safe_example = release_for_build-Safe externals genesis_store [] first_build

release_rejected-Safe_example :
    Always
      (Safe externals plain_store (ReleasesRejected plain_store (text "b1") first_intent.nonce))
      (Outcome (λ g u. Removed externals plain_store (text "b1") g) Any)
      []
      (release_rejected externals plain_store (text "b1") first_intent.nonce)
release_rejected-Safe_example =
    release_rejected-Safe externals plain_store [] (text "b1") first_intent.nonce

verify_for_build-Safe_example :
    Always
      (Safe externals genesis_store Nothing)
      (Outcome (Verified externals genesis_store first_build) Any)
      []
      (verify_for_build externals genesis_store first_build)
verify_for_build-Safe_example = verify_for_build-Safe externals genesis_store [] first_build

-- A ledger of version 2 whose entry has a receipt and the recorded cleanup.
abbrev marked_intent : Intent
marked_intent = record (pinned first_intent first_receipt) { cleanup_kind = cleanup_terminal }

abbrev marked_state : State
marked_state = record empty_state { version = 2; intents = insert (text "b1") marked_intent [] }

-- The externals with a JSON of that ledger only.
abbrev marked_externals : Externals
marked_externals = record externals { unmarshal = λ t. some marked_state }

decodes_marked :
    decode_ledger marked_externals genesis_store (ledger_map json_first) ≡ ok marked_state
unfolding decode_ledger lookup insert text_eq one_entry validate_state limits_ok entries_ok
    identity_ok link_ok valid_lower_hex kova.Base.Text.all_bytes kova.Base.Text.has_prefix
    kova.Base.Text.trim_prefix valid_receipt_uid valid_digest kova.Admission.bump
decodes_marked = refl

abbrev read_history : History
read_history = event (Request.get_config (text "ns") ledger_name) (ok (ledger_map json_first)) ∷ []

Marked-entry :
    Marked marked_externals genesis_store (text "b1") marked_intent cleanup_terminal read_history
unfolding lookup insert text_eq link_seen
Marked-entry = (
  marked_intent,
  inl (record {
    base = ledger_map json_first;
    held = marked_state;
    observed = record { got = here; decoded = decodes_marked };
    entry = refl;
  }),
  refl,
)

delete_pinned_receipt-Safe_example :
    Always
      (Safe marked_externals genesis_store (Deletion marked_intent))
      (Outcome (λ g u. ReceiptGone marked_externals genesis_store g first_intent.nonce) Any)
      read_history
      (delete_pinned_receipt marked_externals genesis_store marked_intent)
delete_pinned_receipt-Safe_example =
    delete_pinned_receipt-Safe marked_externals genesis_store read_history (text "b1") marked_intent
      Marked-entry

-- A server that holds the empty ledger at time 7.
abbrev quiet_server : Server
quiet_server = record {
  ledger = ledger_map json_empty;
  next_version = text "2";
  clock = pos 7;
  nonce = first_intent.nonce;
}

empty-Holds : Holds externals plain_store refl quiet_server empty_state
unfolding text_eq
empty-Holds = record { namespace = refl; name = refl; decoded = decodes_empty }

first-RoundTrip : RoundTrip externals plain_store refl first_state json_first
unfolding text_eq
first-RoundTrip = record { encoded = encodes_first; some_bytes = refl; decoded = refl }

reserve-roundtrip_example :
    (run quiet_server (reserve externals plain_store first_build)
      ≡ (written externals plain_store refl quiet_server json_first, ok (first_intent, true)))
    × (run
          (written externals plain_store refl quiet_server json_first)
          (lookup_intent externals plain_store (text "b1"))
        ≡ (written externals plain_store refl quiet_server json_first, ok (some first_intent)))
    × (run
          (written externals plain_store refl quiet_server json_first)
          (reserve externals plain_store first_build)
        ≡ (written externals plain_store refl quiet_server json_first, ok (first_intent, false)))
unfolding hash_requester
reserve-roundtrip_example =
    reserve-roundtrip externals plain_store refl quiet_server empty_state first_build some_hash
      json_first empty-Holds (unfold lookup in refl) (omega arith)
      (unfold intents_of in omega arith) (unfold digest_build in refl) first-RoundTrip

abbrev used_server : Server
used_server = written externals plain_store refl quiet_server json_first

first-Holds : Holds externals plain_store refl used_server first_state
unfolding text_eq decode_ledger one_entry
first-Holds = record { namespace = refl; name = refl; decoded = decodes_first }

erased-RoundTrip :
    RoundTrip externals plain_store refl
      (with_intents first_state (erase (text "b1") first_state.intents))
      json_empty
unfolding text_eq insert erase encode_state
erased-RoundTrip = record { encoded = rw empty_state-valid refl; some_bytes = refl; decoded = refl }

-- The run of ReleaseRejected that reads the ledger with the first entry and writes the empty one.
abbrev first_read : History
first_read = event (Request.get_config (text "ns") ledger_name) (ok (ledger_map json_first)) ∷ []

release_asked :
    Asks []
      (release_rejected externals plain_store (text "b1") first_intent.nonce)
      first_read
      (Request.update_config (with_data (ledger_map json_first) json_empty))
unfolding release_rejected rejected_loop read lookup insert text_eq write one_entry
release_asked =
    inr
      (ok (ledger_map json_first), rw (decodes_first, erased-RoundTrip.encoded) (inl (refl, refl)))

encoded_as :
    (x : Externals) (st : State) (bytes : Text)
    → encode_state x st ≡ ok bytes
    → x.marshal st ≡ bytes
unfolding encode_state
encoded_as x st bytes e = ground arith

no_entries :
    (d : Dict Intent) → (elim d [ [] ↦ json_empty | e ∷ rest ↦ json_first ]) ≡ json_empty → d ≡ []
no_entries [] h = refl
no_entries (e ∷ d) h = absurd (ground arith)

all_intents : (x : Externals) (st : State) → validate_state x st ≡ true → st.has_intents ≡ true
unfolding validate_state
all_intents x st v = ground arith

empty_of :
    (st : State)
    → st.version ≡ 1
    → st.global_limit ≡ 10
    → st.requester_limit ≡ 5
    → encode_state externals st ≡ ok json_empty
    → st ≡ empty_state
empty_of st v g r e =
    let h = all_intents externals st (encode_state-valid externals st json_empty e) in
    let n = no_entries st.intents (encoded_as externals st json_empty e) in
    λ i. record {
      version = v i;
      global_limit = g i;
      requester_limit = r i;
      has_intents = h i;
      intents = n i;
    }

release-Write : Write externals plain_store (ledger_map json_first) (ledger_map json_empty)
release-Write = record {
  operation = Operation.rejects (text "b1") first_intent.nonce;
  history = first_read;
  base = ledger_map json_first;
  bytes = json_empty;
  sent = inl release_asked;
  accepted = refl;
  reads = λ cm i v. read_one cm i;
  stored = refl;
  no_binary = refl;
  codec = λ st v g r e. (unfold text_eq in ap some (sym (empty_of st v g r e)), refl);
}
  where
    read_one :
        (cm : ConfigMap)
        → In (event (Request.get_config (text "ns") ledger_name) (ok cm)) first_read
        → cm ≡ ledger_map json_first
    read_one cm here = refl
    read_one cm (there i) = elim i [ ]

Writes-history_example :
    (t : State) × (decode_ledger externals plain_store (ledger_map json_empty) ≡ ok t)
    × (((f : Intent) × (lookup (text "b1") t.intents ≡ some f) × Extends first_intent f)
        ⊎ Gone externals first_state (text "b1") first_intent t)
Writes-history_example =
    Writes-history externals plain_store (ledger_map json_first) (ledger_map json_empty) first_state
      (text "b1") first_intent decodes_first first_state-Distinct first_entry
      (Writes.write Writes.start release-Write)

release_rejected-roundtrip_example :
    (run used_server (release_rejected externals plain_store (text "b1") first_intent.nonce)
      ≡ (written externals plain_store refl used_server json_empty, ok tt))
    × (run
          (written externals plain_store refl used_server json_empty)
          (lookup_intent externals plain_store (text "b1"))
        ≡ (
          written externals plain_store refl used_server json_empty,
          ok (
              if text_eq (text "b1") (text "b1")
              then none
              else lookup (text "b1") first_state.intents),
        ))
release_rejected-roundtrip_example =
    release_rejected-roundtrip externals plain_store refl used_server first_state (text "b1")
      (text "b1") first_intent json_empty first-Holds first_state-Distinct first_entry
      erased-RoundTrip
