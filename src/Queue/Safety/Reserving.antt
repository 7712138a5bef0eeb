-- ===== src/Queue/Safety/Reserving.antt =====
-- What `Reserve` (internal/service/queueadmission/ledger.go) writes and what its answer means.
use kova.Base.{
  ℕ, zero, suc, ◌≡◌, refl, ◌⊎◌, inl, inr, Bool, true, false, ◌&&◌, Option, none, some, arith,
  if◌then◌else◌, leb, length, In, here, there, subst, sym,
}
use kova.Base.Text.{Text, text_eq, is_empty}
use kova.Base.Dict.{lookup, insert, lookup-insert_self}
use kova.Api.{KovaBuild}
use kova.Effects.{
  Request, Error, Result, ok, err, ConfigMap, pure, fail, is_too_many_requests, ask_ctx, ◌>>◌,
}
use kova.Effects.Traces.{event, History, Always, Outcome, Any, after, passed, seq, kept}
use kova.Queue.{Intent, State, Externals, encode_state, hash_requester, digest_build, intents_of}
use kova.Queue.Store.{
  Store, read, cas_write, lookup_intent, with_intents, recover_reserve, reserve_loop, reserve,
  seen_intent, intent_eq,
}
use kova.Queue.Steps.{Step}
use kova.Queue.Evidence.{Act, Scope, Observed, Permitted, Safe, Seen, Committed, FoundEntry, within}
use kova.Queue.Safety.{insert-Cleared, lookup_intent-Safe, cas_write-Safe}
use kova.Queue.Safety.Reads.{checked_read-Safe}
use kova.Queue.Safety.Decoded.{decode_ledger-Checked, encoded-identity, intent_eq→eq}

-- The change is to add this entry under the key.
abbrev pub Reserves : Text → Intent → Scope
Reserves id p a = a ≡ Act.reserves id p

module _ (x : Externals) (s : Store) where
  -- The answer of `Reserve`: with the flag, the proposal itself, committed by this call or seen after
  -- it; without it, an entry that stood there for the same requester and request.
  abbrev pub Reserved : Text → Intent → History → Intent × Bool → Type 0
  Reserved id p h (i, true) = (i ≡ p) × (Committed x s h id p ⊎ Seen x s h id p)
  Reserved id p h (i, false) =
      Seen x s h id i
      × (text_eq i.requester_hash p.requester_hash ≡ true)
      × (text_eq i.request_digest p.request_digest ≡ true)

  recover_reserve-Safe :
      (h : History) (id : Text) (p : Intent) (e : Error)
      → Always
          (Safe x s (Reserves id p))
          (Outcome (Reserved id p) Any)
          h
          (recover_reserve x s id p e)
  unfolding recover_reserve
  recover_reserve-Safe h id p e =
      after (Safe x s (Reserves id p)) (Outcome (FoundEntry x s id) Any)
        (Outcome (Reserved id p) Any) h (lookup_intent x s id) _
        (lookup_intent-Safe x s (Reserves id p) h id) (λ g r l o. outcome g r o)
    where
      failing :
          (g : History) (b : Bool)
          → Always
              (Safe x s (Reserves id p))
              (Outcome (Reserved id p) Any)
              g
              (if b then fail Error.busy else fail e)
      failing g true = tt
      failing g false = tt

      seen :
          (g : History) (i : Intent) (b : Bool)
          → FoundEntry x s id g (some i)
          → intent_eq i p ≡ b
          → Always (Safe x s (Reserves id p)) (Outcome (Reserved id p) Any) g (
              if b
              then pure (p, true)
              else if is_too_many_requests e
              then fail Error.busy
              else fail e)
      seen g i true (cm, st, o, l) q = (
        refl,
        inr (rw (← intent_eq→eq i p q) (record { base = cm; held = st; observed = o; entry = l })),
      )
      seen g i false f q = failing g (is_too_many_requests e)

      outcome :
          (g : History) (r : Result (Option Intent))
          → Outcome (FoundEntry x s id) Any g r
          → Always (Safe x s (Reserves id p)) (Outcome (Reserved id p) Any) g (
              if seen_intent p r
              then pure (p, true)
              else if is_too_many_requests e
              then fail Error.busy
              else fail e)
      outcome g (ok none) o = failing g (is_too_many_requests e)
      outcome g (ok (some i)) o = seen g i (intent_eq i p) o refl
      outcome g (err f) o = failing g (is_too_many_requests e)

  -- The proposal has no receipt and no cleanup.
  abbrev pub Bare : Intent → Type 0
  Bare i =
      (is_empty i.receipt_uid ≡ true)
      × (is_empty i.receipt_digest ≡ true)
      × (is_empty i.cleanup_kind ≡ true)

  reserve-Justified :
      (h : History) (id : Text) (p : Intent) (cm : ConfigMap) (st : State) (bytes : Text)
      → Bare p
      → Observed x s h cm st
      → lookup id st.intents ≡ none
      → leb s.global_limit (length st.intents) ≡ false
      → leb s.requester_limit (intents_of p.requester_hash st.intents) ≡ false
      → encode_state x (with_intents st (insert id p st.intents)) ≡ ok bytes
      → Permitted x s (Reserves id p) h cm bytes
  reserve-Justified h id p cm st bytes (u, d, c) o n g r e =
      let k = decode_ledger-Checked x s cm st o.decoded in
      (
        record {
          old = st;
          new = with_intents st (insert id p st.intents);
          observed = o;
          encoded = e;
          steps =
              Step.reserve id p n (rw k.global (ground arith)) (rw k.requester (ground arith))
                (encoded-identity x _ bytes id p e (lookup-insert_self id p st.intents)) u d c refl;
          cleared = insert-Cleared x s h id p st.intents;
        },
        refl,
      )

  reserve_loop-Safe :
      (h : History) (id : Text) (p : Intent) (left : ℕ)
      → Bare p
      → Always
          (Safe x s (Reserves id p))
          (Outcome (Reserved id p) Any)
          h
          (reserve_loop x s id p left)
  unfolding reserve_loop
  reserve_loop-Safe h id p zero b = tt
  reserve_loop-Safe h id p (suc left) b =
      seq (Safe x s (Reserves id p)) (λ g v. Observed x s g v.0 v.1) (Reserved id p) h
        (ask_ctx >> read x s) _ (checked_read-Safe x s (Reserves id p) h)
        (λ g v l o.
          entry (λ g'. reserve_loop-Safe g' id p left b) g v.0 v.1 (lookup id v.1.intents) o refl)
    where
      replay :
          (g : History) (cm : ConfigMap) (st : State) (i : Intent) (t : Bool)
          → Observed x s g cm st
          → lookup id st.intents ≡ some i
          → (text_eq i.requester_hash p.requester_hash && text_eq i.request_digest p.request_digest)
            ≡ t
          → Always
              (Safe x s (Reserves id p))
              (Outcome (Reserved id p) Any)
              g
              (if t then pure (i, false) else fail Error.intent_conflict)
      replay g cm st i true o l q =
          (record { base = cm; held = st; observed = o; entry = l }, ground arith, ground arith)
      replay g cm st i false o l q = tt

      add :
          ((g' : History)
            → Always
                (Safe x s (Reserves id p))
                (Outcome (Reserved id p) Any)
                g'
                (reserve_loop x s id p left))
          → (g : History) (cm : ConfigMap) (st : State) (full_all full_one : Bool)
          → Observed x s g cm st
          → lookup id st.intents ≡ none
          → leb s.global_limit (length st.intents) ≡ full_all
          → leb s.requester_limit (intents_of p.requester_hash st.intents) ≡ full_one
          → Always (Safe x s (Reserves id p)) (Outcome (Reserved id p) Any) g (
              if full_all
              then fail Error.full
              else if full_one
              then fail Error.full
              else cas_write x s cm
                  (with_intents st (insert id p st.intents))
                  left
                  (reserve_loop x s id p left)
                  (recover_reserve x s id p)
                  (pure (p, true)))
      add again g cm st true t o l f q = tt
      add again g cm st false true o l f q = tt
      add again g cm st false false o l f q =
          cas_write-Safe x s (Reserves id p) (Reserved id p) g cm
            (with_intents st (insert id p st.intents)) left (reserve_loop x s id p left)
            (recover_reserve x s id p) (pure (p, true))
            (λ bytes e. reserve-Justified g id p cm st bytes b o l f q e) (λ g' k. again g')
            (λ g' e k. recover_reserve-Safe g' id p e)
            (λ g' k a. (
              refl,
              inl (record {
                state = with_intents st (insert id p st.intents);
                accepted = a;
                entry = lookup-insert_self id p st.intents;
              }),
            ))

      entry :
          ((g' : History)
            → Always
                (Safe x s (Reserves id p))
                (Outcome (Reserved id p) Any)
                g'
                (reserve_loop x s id p left))
          → (g : History) (cm : ConfigMap) (st : State) (found : Option Intent)
          → Observed x s g cm st
          → lookup id st.intents ≡ found
          → Always (Safe x s (Reserves id p)) (Outcome (Reserved id p) Any) g (elim found [
            | some existing ↦
                if text_eq existing.requester_hash p.requester_hash
                  && text_eq existing.request_digest p.request_digest
                then pure (existing, false)
                else fail Error.intent_conflict
            | none ↦
                if leb s.global_limit (length st.intents)
                then fail Error.full
                else if leb s.requester_limit (intents_of p.requester_hash st.intents)
                then fail Error.full
                else cas_write x s cm
                    (with_intents st (insert id p st.intents))
                    left
                    (reserve_loop x s id p left)
                    (recover_reserve x s id p)
                    (pure (p, true))
          ])
      entry again g cm st (some i) o l = replay g cm st i _ o l refl
      entry again g cm st none o l = add again g cm st _ _ o l refl refl

  -- The change is to add, under the build's name, an entry of the build's requester and request.
  abbrev pub ReservesFor : KovaBuild → Scope
  ReservesFor b (Act.reserves j i) =
      (j ≡ b.name)
      × (i.requester_hash ≡ hash_requester x b.spec.requester.username)
      × (digest_build x b ≡ ok i.request_digest)
  ReservesFor b a = ⊥

  Reserves-For :
      (b : KovaBuild) (p : Intent)
      → p.requester_hash ≡ hash_requester x b.spec.requester.username
      → digest_build x b ≡ ok p.request_digest
      → (a : Act) → Reserves b.name p a
      → ReservesFor b a
  Reserves-For b p q d a e = subst (ReservesFor b) (sym e) (refl, q, d)

  -- The answer of `Reserve` is for an intent of the build's requester and request, whose nonce the
  -- call has drawn; with the flag it is that intent.
  abbrev pub ReservedFor : KovaBuild → History → Intent × Bool → Type 0
  ReservedFor b h v =
      (p : Intent) × (p.requester_hash ≡ hash_requester x b.spec.requester.username)
      × (digest_build x b ≡ ok p.request_digest)
      × Bare p
      × In (event Request.random_nonce (ok p.nonce)) h
      × Reserved b.name p h v

  -- Whatever the environment answers, the only changes that Reserve asks for are steps that add,
  -- under the build's name, an entry of the build's requester and request, over a state read in
  -- the call; with the flag it returns the bare intent whose nonce the call itself has drawn,
  -- committed or seen by the call, and without the flag an intent seen under the name with the
  -- same requester and request.
  pub reserve-Safe :
      (h : History) (b : KovaBuild)
      → Always (Safe x s (ReservesFor b)) (Outcome (ReservedFor b) Any) h (reserve x s b)
  unfolding reserve
  reserve-Safe h b =
      passed (Safe x s (ReservesFor b)) (ReservedFor b) h (digest_build x b) _ (λ digest d. (
        tt,
        λ r. passed (Safe x s (ReservesFor b)) (ReservedFor b) _ r _ (λ nonce n. (
          tt,
          λ t.
              within x s (Reserves b.name _) (ReservesFor b) (Outcome (ReservedFor b) Any) _ _
                (Reserves-For b _ refl d)
                (kept (Safe x s (Reserves b.name _)) (Reserved b.name _) (ReservedFor b) _ _
                  (reserve_loop-Safe _ b.name _ _ (refl, refl, refl))
                  (λ g v l o. (_, refl, d, (refl, refl, refl), l _ (there (rw (← n) here)), o))),
        )),
      ))
