-- ===== src/Queue/Safety/Removing.antt =====
-- The removal of an entry, as the loops of `ReleaseForBuild` without a Genesis and of `releaseRejected`
-- (internal/service/queueadmission/ledger.go) make it.
use kova.Base.{
  ℕ, zero, suc, ◌≡◌, refl, sym, ◌∙◌, ◌⊎◌, inl, inr, Bool, true, false, not, ◌&&◌, Option, none,
  some, arith, ap, is_some, Bool-cases, ◌==◌,
}
use kova.Base.Text.{Text, text_eq, is_empty, text_eq→eq}
use kova.Base.Dict.{Dict, lookup, erase, lookup-erase_other}
use kova.Api.{KovaBuild}
use kova.Effects.{Result, ok, err, ConfigMap, M, pure}
use kova.Effects.Traces.{History, Always, Outcome, Any, Later, after, seq, by_option, by_test}
use kova.Queue.{Intent, State, Externals, encode_state, cleanup_rejected, cleanup_terminal}
use kova.Queue.Store.{Genesis, Store, read, cas_write, lookup_intent, with_intents, wanted_version}
use kova.Queue.Release.{
  matches_build, seen_gone, recover_release, release_loop, rejection_recorded, rejected_loop,
}
use kova.Queue.Steps.{Step}
use kova.Queue.Evidence.{
  Observed, Accepted, FoundEntry, ReceiptGone, Cleared, Act, Scope, Permitted, Safe,
}
use kova.Queue.Safety.{read-Safe, lookup_intent-Safe, cas_write-Safe}
use kova.Queue.Safety.Decoded.{decode_ledger-Checked}

rejected_kind :
    (k : Text)
    → text_eq k cleanup_rejected ≡ true
    → (is_empty k ≡ false) × (text_eq k cleanup_terminal ≡ false)
unfolding text_eq
rejected_kind k h = rw (text_eq→eq k cleanup_rejected h) (refl, refl)

pub genesis_cases : (o : Option Genesis) → (o ≡ none) ⊎ ((g : Genesis) × (o ≡ some g))
genesis_cases none = inl refl
genesis_cases (some g) = inr (g, refl)

pub terminal_kind : (k : Text) → text_eq k cleanup_terminal ≡ true → is_empty k ≡ false
terminal_kind k h = rw (text_eq→eq k cleanup_terminal h) refl

-- The change is to remove an entry with this nonce from under the key, with a Genesis one whose
-- rejection is recorded.
abbrev pub ReleasesRejected : Store → Text → Text → Scope
ReleasesRejected s id nonce a =
    (e : Intent) × (a ≡ Act.releases id e)
    × (text_eq e.nonce nonce ≡ true)
    × (rejection_recorded s e ≡ true)

-- The change is to remove the entry of this build.
abbrev pub ReleasesOwn : Externals → KovaBuild → Scope
ReleasesOwn x b a = (e : Intent) × (a ≡ Act.releases b.name e) × (matches_build x b e ≡ true)

module _ (x : Externals) (s : Store) where
  -- The key is gone: a read of the call found no entry, or the call's removal was accepted.
  abbrev pub Removed : Text → History → Type 0
  Removed id h =
      FoundEntry x s id h none
      ⊎ ((st : State) × Accepted x s h (with_intents st (erase id st.intents)))

  erase-Cleared :
      (h : History) (id : Text) (e : Intent) (d : Dict Intent)
      → lookup id d ≡ some e
      → Cleared x s h e
      → (j : Text) (f : Intent) → lookup j d ≡ some f
      → lookup j (erase id d) ≡ none
      → Cleared x s h f
  erase-Cleared h id e d l c j f found gone = elim (Bool-cases (text_eq id j)) [
    | inl hit ↦ rw (← same (sym l ∙ ap (λ k. lookup k d) (text_eq→eq id j hit) ∙ found)) c
    | inr miss ↦ absurd (other (sym found ∙ sym (lookup-erase_other id j d miss) ∙ gone))
  ]
    where
      same : some e ≡ some f → e ≡ f
      same q = ground arith

      other : some f ≡ none → ⊥
      other q = ground arith

  seen_gone-Removed :
      (h : History) (id : Text) (r : Result (Option Intent))
      → Outcome (FoundEntry x s id) Any h r
      → seen_gone r ≡ true
      → FoundEntry x s id h none
  seen_gone-Removed h id (ok none) o q = o
  seen_gone-Removed h id (ok (some e)) o q = absurd (ground arith)
  seen_gone-Removed h id (err f) o q = absurd (ground arith)

module _ (x : Externals) (s : Store) (K : Scope) where
  release-Justified :
      (h : History) (id : Text) (e : Intent) (cm : ConfigMap) (st : State) (bytes : Text)
      → Observed x s h cm st
      → lookup id st.intents ≡ some e
      → (wanted_version s.genesis ≡ 1) ⊎ (is_empty e.cleanup_kind ≡ false)
      → Cleared x s h e
      → encode_state x (with_intents st (erase id st.intents)) ≡ ok bytes
      → K (Act.releases id e)
      → Permitted x s K h cm bytes
  release-Justified h id e cm st bytes o l kind c enc t =
      let k = decode_ledger-Checked x s cm st o.decoded in
      (
        record {
          old = st;
          new = with_intents st (erase id st.intents);
          observed = o;
          encoded = enc;
          steps = Step.release id e l (recorded (k.version) kind) refl;
          cleared = erase-Cleared x s h id e st.intents l c;
        },
        t,
      )
    where
      recorded :
          st.version ≡ wanted_version s.genesis
          → (wanted_version s.genesis ≡ 1) ⊎ (is_empty e.cleanup_kind ≡ false)
          → (st.version == 1) ≡ false
          → is_empty e.cleanup_kind ≡ false
      recorded v (inl w) n = absurd (ground (arith, v ∙ w))
      recorded v (inr w) n = w

  -- One removal. `Q` is what the loop promises of its success.
  pub removal-Safe :
      (Q : History → Unit {0} → Type 0) (h : History) (id : Text) (e : Intent) (cm : ConfigMap)
      (st : State) (left : ℕ) (again : M (Unit {0}))
      → Observed x s h cm st
      → lookup id st.intents ≡ some e
      → (wanted_version s.genesis ≡ 1) ⊎ (is_empty e.cleanup_kind ≡ false)
      → Cleared x s h e
      → K (Act.releases id e)
      → ((g : History) → Later h g → Always (Safe x s K) (Outcome Q Any) g again)
      → ((g : History) → Later h g → Removed x s id g → Q g tt)
      → Always (Safe x s K) (Outcome Q Any) h (
          cas_write x s cm
            (with_intents st (erase id st.intents))
            left
            again
            (recover_release x s id)
            (pure tt))
  unfolding recover_release
  removal-Safe Q h id e cm st left again o l kind c t a k =
      cas_write-Safe x s K Q h cm (with_intents st (erase id st.intents)) left again
        (recover_release x s id) (pure tt)
        (λ bytes q. release-Justified h id e cm st bytes o l kind c q t) a
        (λ g failure later.
          after (Safe x s K) (Outcome (FoundEntry x s id) Any) (Outcome Q Any) g
            (lookup_intent x s id) _ (lookup_intent-Safe x s K g id)
            (λ g' r l' f.
              by_test (Safe x s K) (Outcome Q Any) g' (seen_gone r) _ _
                (λ q. k g' (λ ev i. l' ev (later ev i)) (inl (seen_gone-Removed x s g' id r f q)))
                (λ q. tt)))
        (λ g later acc. k g later (inr (st, acc)))

module _ (x : Externals) (s : Store) where
  pub release_loop-Safe :
      (h : History) (b : KovaBuild) (digest : Text) (left : ℕ)
      → s.genesis ≡ none
      → Always
          (Safe x s (ReleasesOwn x b))
          (Outcome (λ g u. Removed x s b.name g) Any)
          h
          (release_loop x s b digest left)
  unfolding release_loop
  release_loop-Safe h b digest zero n = tt
  release_loop-Safe h b digest (suc left) n =
      seq (Safe x s (ReleasesOwn x b)) (λ g v. Observed x s g v.0 v.1) (λ g u. Removed x s b.name g)
        h (read x s) _ (read-Safe x s (ReleasesOwn x b) h)
        (λ g v l o.
          by_option (Safe x s (ReleasesOwn x b)) (Outcome (λ g u. Removed x s b.name g) Any) g
            (lookup b.name v.1.intents) _ _ (λ q. inl (v.0, v.1, o, q))
            (λ e found.
              by_test (Safe x s (ReleasesOwn x b)) (Outcome (λ g u. Removed x s b.name g) Any) g
                (matches_build x b e && text_eq e.request_digest digest) _ _
                (λ t.
                  removal-Safe x s (ReleasesOwn x b) (λ g u. Removed x s b.name g) g b.name e v.0
                    v.1 left (release_loop x s b digest left) o found (inl (ap wanted_version n))
                    (inl (ap is_some n)) (e, refl, ground arith)
                    (λ g' l'. release_loop-Safe g' b digest left n) (λ g' l' q. q))
                (λ t. tt)))

  -- The rejected entry's cleanup, or its receipt, is settled as the mode of the ledger wants.
  rejected-Cleared :
      (h : History) (e : Intent) (nonce : Text)
      → text_eq e.nonce nonce ≡ true
      → rejection_recorded s e ≡ true
      → (s.genesis ≡ none) ⊎ ReceiptGone x s h nonce
      → ((wanted_version s.genesis ≡ 1) ⊎ (is_empty e.cleanup_kind ≡ false)) × Cleared x s h e
  rejected-Cleared h e nonce a r (inl n) = (inl (ap wanted_version n), inl (ap is_some n))
  rejected-Cleared h e nonce a r (inr z) = elim (genesis_cases s.genesis) [
    | inl n ↦ (inl (ap wanted_version n), inl (ap is_some n))
    | inr (g, q) ↦
        let k : text_eq e.cleanup_kind cleanup_rejected && not (is_empty e.receipt_uid) ≡ true =
          (rw q at r) in
        let (full, other) = rejected_kind e.cleanup_kind (ground arith) in
        (inr full, inr (rw (text_eq→eq e.nonce nonce a) z, λ t. absurd (clash other t)))
  ]
    where
      clash : {t : Bool} → t ≡ false → t ≡ true → ⊥
      clash p q = ground arith

  pub rejected_loop-Safe :
      (h : History) (id nonce : Text) (left : ℕ)
      → (s.genesis ≡ none) ⊎ ReceiptGone x s h nonce
      → Always
          (Safe x s (ReleasesRejected s id nonce))
          (Outcome (λ g u. Removed x s id g) Any)
          h
          (rejected_loop x s id nonce left)
  unfolding rejected_loop
  rejected_loop-Safe h id nonce zero z = tt
  rejected_loop-Safe h id nonce (suc left) z =
      seq (Safe x s (ReleasesRejected s id nonce)) (λ g v. Observed x s g v.0 v.1)
        (λ g u. Removed x s id g) h (read x s) _ (read-Safe x s (ReleasesRejected s id nonce) h)
        (λ g v l o.
          by_option (Safe x s (ReleasesRejected s id nonce)) (Outcome (λ g u. Removed x s id g) Any)
            g (lookup id v.1.intents) _ _ (λ q. inl (v.0, v.1, o, q))
            (λ e found.
              by_test (Safe x s (ReleasesRejected s id nonce))
                (Outcome (λ g u. Removed x s id g) Any) g
                (text_eq e.nonce nonce && rejection_recorded s e) _ _
                (λ t.
                  let (kind, c) =
                    rejected-Cleared g e nonce (ground arith) (ground arith) (later l z) in
                  removal-Safe x s (ReleasesRejected s id nonce) (λ g u. Removed x s id g) g id e
                    v.0 v.1 left (rejected_loop x s id nonce left) o found kind c
                    (e, refl, ground arith, ground arith)
                    (λ g' l'. rejected_loop-Safe g' id nonce left (later l' (later l z)))
                    (λ g' l' q. q))
                (λ t. tt)))
    where
      later :
          {g g' : History}
          → Later g g'
          → (s.genesis ≡ none) ⊎ ReceiptGone x s g nonce
          → (s.genesis ≡ none) ⊎ ReceiptGone x s g' nonce
      later l (inl n) = inl n
      later l (inr w) = inr (l _ w)
