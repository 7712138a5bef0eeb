-- ===== src/Queue/Safety/Decoded.antt =====
-- Decoding and encoding the queue ledger (read and encodeState in
-- internal/service/queueadmission/ledger.go).
use kova.Base.{
  if◌then◌else◌, ◌&&◌, ◌==◌, leb, ◌∷◌, [], length, ◌≡◌, ap, Bool, true, false, ◌&&◌, Option, none,
  some, arith, if◌then◌else◌, ◌==◌,
}
use kova.Base.Text.{text_eq, is_empty, Text, text_eq→eq}
use kova.Base.Dict.{lookup}
use kova.Api.Int.{ℤ, pos, negsuc}
use kova.Effects.{Error, ok, err, ConfigMap}
use kova.Queue.{
  data_key, max_ledger_bytes, Intent, State, Externals, identity_ok, encode_state, validate_state,
}
use kova.Queue.Store.{one_entry, Store, decode_ledger, wanted_version, intent_eq, same_int}
use kova.Queue.Steps.Entries.{entries-lookup}

-- What a read has checked.
pub record Checked (x : Externals) (s : Store) (st : State) : Type 0 where
  pub valid : validate_state x st ≡ true
  pub global : st.global_limit ≡ s.global_limit
  pub requester : st.requester_limit ≡ s.requester_limit
  pub version : st.version ≡ wanted_version s.genesis

pub decode_ledger-Checked :
    (x : Externals) (s : Store) (cm : ConfigMap) (st : State)
    → decode_ledger x s cm ≡ ok st
    → Checked x s st
unfolding decode_ledger
decode_ledger-Checked x s cm st d = opened _ (x.unmarshal _) d
  where
    passes : State → Bool
    passes t =
        t.global_limit == s.global_limit
        && t.requester_limit == s.requester_limit
        && t.version == wanted_version s.genesis
        && validate_state x t

    kept : (t : State) → (if passes t then ok t else err Error.failed) ≡ ok st → Checked x s st
    kept t e =
        let q : t ≡ st = (ground arith) in
        let p : passes t ≡ true = (ground arith) in
        rw (← q) (record {
          valid = ground arith;
          global = ground arith;
          requester = ground arith;
          version = ground arith;
        })

    opened :
        (b : Bool) (o : Option State)
        → (if b
            then (elim o [
              | none ↦ err Error.failed
              | some t ↦ if passes t then ok t else err Error.failed
            ])
            else err Error.failed)
          ≡ ok st
        → Checked x s st
    opened true (some t) e = kept t e
    opened true none e = absurd (ground arith)
    opened false o e = absurd (ground arith)

pub encode_state-valid :
    (x : Externals) (st : State) (bytes : Text)
    → encode_state x st ≡ ok bytes
    → validate_state x st ≡ true
unfolding encode_state
encode_state-valid x st bytes e = ground arith

-- An entry of an encoded state has passed the checks on identity.
pub encoded-identity :
    (x : Externals) (st : State) (bytes id : Text) (i : Intent)
    → encode_state x st ≡ ok bytes
    → lookup id st.intents ≡ some i
    → identity_ok x id i ≡ true
unfolding validate_state
encoded-identity x st bytes id i e l =
    let v = encode_state-valid x st bytes e in
    (entries-lookup x st.version st.requester_limit (λ who. 0) id i st.intents l (ground arith)).0

int-eq : (a b : ℤ) → same_int a b ≡ true → a ≡ b
int-eq (pos n) (pos m) h = ap pos (ground arith)
int-eq (negsuc n) (negsuc m) h = ap negsuc (ground arith)
int-eq (pos n) (negsuc m) h = absurd (ground arith)
int-eq (negsuc n) (pos m) h = absurd (ground arith)

pub intent_eq→eq : (a b : Intent) → intent_eq a b ≡ true → a ≡ b
unfolding intent_eq
intent_eq→eq a b h = λ i. record {
  requester_hash = text_eq→eq a.requester_hash b.requester_hash (ground arith) i;
  request_digest = text_eq→eq a.request_digest b.request_digest (ground arith) i;
  nonce = text_eq→eq a.nonce b.nonce (ground arith) i;
  created_at = int-eq a.created_at b.created_at (ground arith) i;
  receipt_uid = text_eq→eq a.receipt_uid b.receipt_uid (ground arith) i;
  receipt_digest = text_eq→eq a.receipt_digest b.receipt_digest (ground arith) i;
  cleanup_kind = text_eq→eq a.cleanup_kind b.cleanup_kind (ground arith) i;
}

encode_state-size :
    (x : Externals) (st : State) (bytes : Text)
    → encode_state x st ≡ ok bytes
    → leb (length bytes) max_ledger_bytes ≡ true
unfolding encode_state
encode_state-size x st bytes e = ground arith

-- What is stored as the encoding of a state of the replica's limits and mode is read as that state,
-- if the JSON is decoded to it.
pub stored-decodes :
    (x : Externals) (s : Store) (cm : ConfigMap) (next : State) (bytes : Text)
    → cm.contents ≡ (data_key, bytes) ∷ []
    → cm.binary ≡ []
    → is_empty bytes ≡ false
    → encode_state x next ≡ ok bytes
    → x.unmarshal bytes ≡ some next
    → Checked x s next
    → decode_ledger x s cm ≡ ok next
unfolding decode_ledger lookup text_eq one_entry
stored-decodes x s cm next bytes c b n e u k =
    let size = encode_state-size x next bytes e in rw (c, b, n, size, u) (accepted next k)
  where
    accepted :
        (t : State)
        → Checked x s t
        → (if t.global_limit == s.global_limit
              && t.requester_limit == s.requester_limit
              && t.version == wanted_version s.genesis
              && validate_state x t
            then ok t
            else err Error.failed)
          ≡ ok t
    accepted t k = ground (arith, k.valid, k.global, k.requester, k.version)
