-- ===== src/Queue/Quiet.antt =====
-- Runs of the ledger's operations against an API server that answers at once and is used by nobody
-- else, in the mode without a Genesis: what the operations achieve.
use kova.Base.{
  ℕ, suc, ◌<◌, ◌≡◌, refl, ◌∙◌, ap, true, false, not, ◌&&◌, [], ◌∷◌, none, some, arith,
  if◌then◌else◌, leb, length,
}
use kova.Base.Text.{is_empty, Text, text_eq, text_eq_refl}
use kova.Base.Dict.{Dict, lookup, insert, lookup-insert_self, erase, lookup-erase, Distinct}
use kova.Api.{KovaBuild}
use kova.Api.Int.{ℤ}
use kova.Effects.{
  Error, ok, err, ConfigMap, Request, Reply, Prog, ret, call, bind, M, on_ok, fail, pure, ◌>>◌,
  ◌>>=◌, require, check_guard, get_config_map, from_result, update_config_map, patch_ledger, Role,
}
use kova.Queue.{
  cleanup_rejected, Intent, State, Externals, ledger_name, encode_state, max_cas_attempts,
  hash_requester, digest_build, intents_of,
}
use kova.Queue.Store.{
  is_nil, Store, before_read, identity_of, read, write, decode_ledger, one_entry, with_data,
  with_intents, lookup_intent, reserve_loop, reserve,
}
use kova.Queue.Release.{rejection_recorded, rejected_loop, release_rejected}
use kova.Queue.Safety.Decoded.{decode_ledger-Checked, encode_state-valid, stored-decodes}

-- The ledger that the server holds, its next resource version, the time, and the next random text.
pub record Server : Type 0 where
  pub ledger : ConfigMap
  pub next_version : Text
  pub clock : ℤ
  pub nonce : Text

abbrev pub stamped : ConfigMap → Text → ConfigMap
stamped cm v = record cm { meta = record meta { resource_version = v } }
  where
    open cm use {meta}

-- The server: a read of the ledger, an update on its resource version, and no other object.
abbrev pub serve : Server → (r : Request) → Server × Reply r
serve v Request.ctx_err = (v, ok tt)
serve v (Request.wait n) = (v, ok tt)
serve v Request.now = (v, v.clock)
serve v Request.random_nonce = (v, ok v.nonce)
serve v (Request.get_config ns name) = (
  v,
  if text_eq ns v.ledger.namespace && text_eq name v.ledger.name
      then ok v.ledger
      else err Error.not_found,
)
serve v (Request.create_config cm) = (v, err Error.already_exists)
serve v (Request.update_config cm) =
    if text_eq cm.resource_version v.ledger.resource_version
    then (record v { ledger = stamped cm v.next_version }, ok tt)
    else (v, err Error.conflict)
serve v (Request.delete_config ns name uid) = (v, err Error.not_found)
serve v (Request.get_build ns name) = (v, err Error.not_found)
serve v (Request.update_build b) = (v, err Error.not_found)
serve v (Request.list_builds ns n) = (v, ok [])
serve v (Request.all_builds ns) = (v, ok [])
serve v (Request.get_pod ns n) = (v, err Error.not_found)
serve v (Request.list_pods ns) = (v, ok [])
serve v (Request.create_receipt cm) = (v, (none, some Error.forbidden))
serve v (Request.begin_grant ns) = (v, ok none)
serve v (Request.end_grant p) = (v, tt)
serve v (Request.get_namespace n) = (v, err Error.not_found)
serve v Request.guard_check = (v, ok tt)
serve v (Request.guard_patch role cm t) = (v, ok tt)

abbrev pub run : {A : Type 0} → Server → Prog A → Server × A
run v (ret a) = (v, a)
run v (call r k) = run (serve v r).0 (k (serve v r).1)

run-bind :
    {A B : Type 0} (v : Server) (m : Prog A) (f : A → Prog B)
    → run v (bind m f) ≡ run (run v m).0 (f (run v m).1)
run-bind v (ret a) f = refl
run-bind v (call r k) f = run-bind (serve v r).0 (k (serve v r).1) f

-- After a step with a known outcome.
run-after :
    {A B : Type 0} (v w : Server) (a : A) (m : M A) (f : A → M B)
    → run v m ≡ (w, ok a)
    → run v (m >>= f) ≡ run w (f a)
run-after v w a m f e = rw (run-bind v m (on_ok f), e) refl

run-attempt :
    {A B : Type 0} (v w : Server) (r : A) (m : Prog A) (f : A → Prog B)
    → run v m ≡ (w, r)
    → run v (bind m f) ≡ run w (f r)
run-attempt v w r m f e = rw (run-bind v m f, e) refl

module _ (x : Externals) (s : Store) (plain : s.genesis ≡ none) where
  -- The server holds a readable ledger of the store.
  pub record Holds (v : Server) (st : State) : Type 0 where
    pub namespace : text_eq s.namespace v.ledger.namespace ≡ true
    pub name : text_eq ledger_name v.ledger.name ≡ true
    pub decoded : decode_ledger x s v.ledger ≡ ok st

  before_read-plain : before_read s ≡ pure tt
  before_read-plain =
      ap
        (λ o. elim o [
          | none ↦ pure tt
          | some g ↦ (require s.has_reader Error.failed >> check_guard)
        ])
        plain

  identity_of-plain : (cm : ConfigMap) → identity_of s cm ≡ ok tt
  identity_of-plain cm =
      ap
        (λ o. elim o [
          | none ↦ ok tt
          | some g ↦ if g.ledger_matches cm then ok tt else err Error.failed
        ])
        plain

  found_ledger :
      (v : Server) (st : State)
      → Holds v st
      → run v (get_config_map s.namespace ledger_name) ≡ (v, ok v.ledger)
  found_ledger v st h = rw (h.namespace, h.name) refl

  -- What is left of a read after its first check.
  read-quiet : (v : Server) (st : State) → Holds v st → run v (read x s) ≡ (v, ok (v.ledger, st))
  unfolding read
  read-quiet v st h =
      run-after v v tt (before_read s) _ (ap (run v) before_read-plain)
      ∙ run-after v v v.ledger (get_config_map s.namespace ledger_name) _ (found_ledger v st h)
      ∙ decoded
    where
      decoded :
          run v (
            from_result (identity_of s v.ledger) >>= λ u.
            from_result (decode_ledger x s v.ledger) >>= λ st'.
            pure {A = ConfigMap × State} (v.ledger, st'))
          ≡ (v, ok (v.ledger, st))
      decoded = simp (identity_of-plain v.ledger, h.decoded)

  -- An update over the ledger that the server holds.
  updated :
      (v : Server) (cm : ConfigMap)
      → text_eq cm.resource_version v.ledger.resource_version ≡ true
      → run v (update_config_map cm) ≡ (record v { ledger = stamped cm v.next_version }, ok tt)
  updated v cm h = rw h refl

  -- The server after a write of these bytes.
  abbrev pub written : Server → Text → Server
  written v bytes = record v { ledger = stamped (with_data v.ledger bytes) v.next_version }

  write-quiet :
      (v : Server) (next : State) (bytes : Text)
      → one_entry v.ledger ≡ true
      → encode_state x next ≡ ok bytes
      → run v (write x s v.ledger next) ≡ (written v bytes, ok tt)
  unfolding write
  write-quiet v next bytes one e =
      rw (one, e)
        (ap
            (λ o. run v (elim o [
              | none ↦ update_config_map (with_data v.ledger bytes)
              | some g ↦ patch_ledger Role.queue v.ledger bytes
            ]))
            plain
          ∙ updated v (with_data v.ledger bytes) (text_eq_refl v.ledger.resource_version))

  -- The JSON of the state is not empty and decodes to it.
  pub record RoundTrip (st : State) (bytes : Text) : Type 0 where
    pub encoded : encode_state x st ≡ ok bytes
    pub some_bytes : is_empty bytes ≡ false
    pub decoded : x.unmarshal bytes ≡ some st

  no_binary : (cm : ConfigMap) (st : State) → decode_ledger x s cm ≡ ok st → cm.binary ≡ []
  unfolding decode_ledger one_entry
  no_binary cm st d = nil cm.binary (ground arith)
    where
      nil : (m : Dict Text) → is_nil m ≡ true → m ≡ []
      nil [] e = refl
      nil (y ∷ ys) e = absurd (ground arith)

  written-Holds :
      (v : Server) (st next : State) (bytes : Text)
      → Holds v st
      → next.global_limit ≡ st.global_limit
      → next.requester_limit ≡ st.requester_limit
      → next.version ≡ st.version
      → RoundTrip next bytes
      → Holds (written v bytes) next
  written-Holds v st next bytes h g r w t =
      let k = decode_ledger-Checked x s v.ledger st h.decoded in
      record {
        namespace = h.namespace;
        name = h.name;
        decoded =
            stored-decodes x s (written v bytes).ledger next bytes refl
              (no_binary v.ledger st h.decoded) t.some_bytes t.encoded t.decoded
              (record {
                valid = encode_state-valid x next bytes t.encoded;
                global = g ∙ k.global;
                requester = r ∙ k.requester;
                version = w ∙ k.version;
              });
      }

  -- `Lookup` returns what the ledger holds.
  pub lookup_intent-quiet :
      (v : Server) (st : State) (id : Text)
      → Holds v st
      → run v (lookup_intent x s id) ≡ (v, ok (lookup id st.intents))
  unfolding lookup_intent
  lookup_intent-quiet v st id h = run-after v v (v.ledger, st) (read x s) _ (read-quiet v st h)

  -- The proposal of `Reserve` on this server.
  abbrev pub proposal : Server → KovaBuild → Text → Intent
  proposal v b digest = record {
    requester_hash = hash_requester x b.spec.requester.username;
    request_digest = digest;
    nonce = v.nonce;
    created_at = v.clock;
    receipt_uid = [];
    receipt_digest = [];
    cleanup_kind = [];
  }

  abbrev pub with_proposal : Server → KovaBuild → Text → State → State
  with_proposal v b digest st = with_intents st (insert b.name (proposal v b digest) st.intents)

  one_of : (cm : ConfigMap) (st : State) → decode_ledger x s cm ≡ ok st → one_entry cm ≡ true
  unfolding decode_ledger
  one_of cm st d = ground arith

  reserve_loop-quiet :
      (v : Server) (st : State) (id : Text) (p : Intent) (bytes : Text) (left : ℕ)
      → Holds v st
      → lookup id st.intents ≡ none
      → leb s.global_limit (length st.intents) ≡ false
      → leb s.requester_limit (intents_of p.requester_hash st.intents) ≡ false
      → RoundTrip (with_intents st (insert id p st.intents)) bytes
      → run v (reserve_loop x s id p (suc left)) ≡ (written v bytes, ok (p, true))
  unfolding reserve_loop
  reserve_loop-quiet v st id p bytes left h n g r t =
      run-after v v (v.ledger, st) (read x s) _ (read-quiet v st h)
      ∙ rw (n, g, r)
          (run-attempt v (written v bytes) (ok tt)
            (write x s v.ledger (with_intents st (insert id p st.intents))) _
            (write-quiet v (with_intents st (insert id p st.intents)) bytes
              (one_of v.ledger st h.decoded) t.encoded))

  -- A key that is there, for the same requester and request.
  reserve_loop-replay :
      (v : Server) (st : State) (id : Text) (p e : Intent) (left : ℕ)
      → Holds v st
      → lookup id st.intents ≡ some e
      → text_eq e.requester_hash p.requester_hash ≡ true
      → text_eq e.request_digest p.request_digest ≡ true
      → run v (reserve_loop x s id p (suc left)) ≡ (v, ok (e, false))
  unfolding reserve_loop
  reserve_loop-replay v st id p e left h n a b =
      run-after v v (v.ledger, st) (read x s) _ (read-quiet v st h) ∙ rw (n, a, b) refl

  -- The start of `Reserve`.
  reserve-start :
      (v : Server) (b : KovaBuild) (digest : Text)
      → digest_build x b ≡ ok digest
      → run v (reserve x s b)
        ≡ run v (reserve_loop x s b.name (proposal v b digest) max_cas_attempts)
  unfolding reserve
  reserve-start v b digest d = rw d refl

  -- Without a Genesis, against a server used by nobody else that holds a readable ledger with room
  -- and no entry of the build, whose JSON round-trips: Reserve returns its own intent with the
  -- flag, Lookup then finds it, and a second Reserve returns it without the flag and changes
  -- nothing.
  pub reserve-roundtrip :
      (v : Server) (st : State) (b : KovaBuild) (digest bytes : Text)
      → Holds v st
      → lookup b.name st.intents ≡ none
      → length st.intents < s.global_limit
      → intents_of (hash_requester x b.spec.requester.username) st.intents < s.requester_limit
      → digest_build x b ≡ ok digest
      → RoundTrip (with_proposal v b digest st) bytes
      → (run v (reserve x s b) ≡ (written v bytes, ok (proposal v b digest, true)))
        × (run (written v bytes) (lookup_intent x s b.name)
            ≡ (written v bytes, ok (some (proposal v b digest))))
        × (run (written v bytes) (reserve x s b)
            ≡ (written v bytes, ok (proposal v b digest, false)))
  reserve-roundtrip v st b digest bytes h n g r d t =
      let p = proposal v b digest in
      let after = written-Holds v st (with_proposal v b digest st) bytes h refl refl refl t in
      let found = lookup-insert_self b.name p st.intents in
      (
        reserve-start v b digest d
            ∙ reserve_loop-quiet v st b.name p bytes 15 h n (ground arith) (ground arith) t,
        lookup_intent-quiet (written v bytes) (with_proposal v b digest st) b.name after
            ∙ ap (λ o. (written v bytes, ok o)) found,
        reserve-start (written v bytes) b digest d
            ∙ reserve_loop-replay (written v bytes) (with_proposal v b digest st) b.name
                (proposal (written v bytes) b digest) p 15 after found
                (text_eq_refl p.requester_hash) (text_eq_refl p.request_digest),
      )

  recorded_plain : (e : Intent) → rejection_recorded s e ≡ true
  recorded_plain e =
      ap
        (λ o. elim o [
          | none ↦ true
          | some g ↦ text_eq e.cleanup_kind cleanup_rejected && not (is_empty e.receipt_uid)
        ])
        plain

  rejected_loop-quiet :
      (v : Server) (st : State) (id : Text) (e : Intent) (bytes : Text) (left : ℕ)
      → Holds v st
      → lookup id st.intents ≡ some e
      → RoundTrip (with_intents st (erase id st.intents)) bytes
      → run v (rejected_loop x s id e.nonce (suc left)) ≡ (written v bytes, ok tt)
  unfolding rejected_loop
  rejected_loop-quiet v st id e bytes left h n t =
      run-after v v (v.ledger, st) (read x s) _ (read-quiet v st h)
      ∙ rw (n, text_eq_refl e.nonce, recorded_plain e)
          (run-attempt v (written v bytes) (ok tt)
            (write x s v.ledger (with_intents st (erase id st.intents))) _
            (write-quiet v (with_intents st (erase id st.intents)) bytes
              (one_of v.ledger st h.decoded) t.encoded))

  release_rejected-plain :
      (id nonce : Text)
      → release_rejected x s id nonce ≡ rejected_loop x s id nonce max_cas_attempts
  unfolding release_rejected
  release_rejected-plain id nonce =
      ap
        (λ o. elim o [
          | some g ↦ fail Error.drift
          | none ↦ rejected_loop x s id nonce max_cas_attempts
        ])
        plain

  -- On such a server and a ledger with distinct keys, ReleaseRejected with the nonce of an entry
  -- succeeds, and Lookup then finds that entry no more and every other one as before.
  pub release_rejected-roundtrip :
      (v : Server) (st : State) (id other : Text) (e : Intent) (bytes : Text)
      → Holds v st
      → Distinct st.intents
      → lookup id st.intents ≡ some e
      → RoundTrip (with_intents st (erase id st.intents)) bytes
      → (run v (release_rejected x s id e.nonce) ≡ (written v bytes, ok tt))
        × (run (written v bytes) (lookup_intent x s other)
            ≡ (written v bytes, ok (if text_eq id other then none else lookup other st.intents)))
  release_rejected-roundtrip v st id other e bytes h one n t =
      let after =
        written-Holds v st (with_intents st (erase id st.intents)) bytes h refl refl refl t in
      (
        ap (run v) (release_rejected-plain id e.nonce)
            ∙ rejected_loop-quiet v st id e bytes 15 h n t,
        lookup_intent-quiet (written v bytes) (with_intents st (erase id st.intents)) other after
            ∙ ap (λ o. (written v bytes, ok o)) (lookup-erase id other st.intents one),
      )
