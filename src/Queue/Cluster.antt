-- ===== src/Queue/Cluster.antt =====
-- The ledger under any number of replicas: the API server accepts a write only over the ConfigMap it
-- holds (optimistic concurrency on the resource version), so that the accepted writes, each made by
-- some replica after a history of its own, form one sequence.
pub mod Writing
use kova.Base.{◌≡◌, refl, sym, ◌∙◌, false, [], ◌∷◌, some, arith}
use kova.Base.Text.{Text, is_empty}
use kova.Effects.{ok, ConfigMap}
use kova.Effects.Traces.{History}
use kova.Queue.{State, Externals, data_key}
use kova.Queue.Store.{Store, decode_ledger}
use kova.Queue.Steps.{Step, Step-version, Reach}
use kova.Queue.Evidence.{Justified}
use kova.Queue.Safety.Decoded.{decode_ledger-Checked, encode_state-valid, stored-decodes}

pub Step-limits :
    (x : Externals) (old new : State)
    → Step x old new
    → (new.global_limit ≡ old.global_limit) × (new.requester_limit ≡ old.requester_limit)
Step-limits x old new (Step.reserve id i n g r k u d c e) = rw e (refl, refl)
Step-limits x old new (Step.pin id f uid digest h u c w q d e) = rw e (refl, refl)
Step-limits x old new (Step.mark id f kind h u c k e) = rw e (refl, refl)
Step-limits x old new (Step.release id f h c e) = rw e (refl, refl)

module _ (x : Externals) (s : Store) where
  -- One accepted write: what the operations prove of it, what the server stores, and that decoding
  -- the stored JSON gives back the state that was encoded (`json.Unmarshal` after `json.Marshal`).
  pub record Commit (old_map new_map : ConfigMap) : Type 0 where
    pub history : History
    pub bytes : Text
    pub justified : Justified x s history old_map bytes
    pub stored : new_map.contents ≡ (data_key, bytes) ∷ []
    pub no_binary : new_map.binary ≡ []
    pub some_bytes : is_empty bytes ≡ false
    pub round_trip : x.unmarshal bytes ≡ some justified.new

  -- The ConfigMaps that the server holds one after the other.
  pub data Commits (first : ConfigMap) : ConfigMap → Type 0 where
    start : Commits first first
    commit : {a b : ConfigMap} → Commits first a → Commit a b → Commits first b

  Commit-decodes : (a b : ConfigMap) (c : Commit a b) → decode_ledger x s b ≡ ok c.justified.new
  Commit-decodes a b c =
      let o = decode_ledger-Checked x s a c.justified.old c.justified.observed.decoded in
      let l = Step-limits x c.justified.old c.justified.new c.justified.steps in
      stored-decodes x s b c.justified.new c.bytes c.stored c.no_binary c.some_bytes
        c.justified.encoded c.round_trip
        (record {
          valid = encode_state-valid x c.justified.new c.bytes c.justified.encoded;
          global = l.0 ∙ o.global;
          requester = l.1 ∙ o.requester;
          version = Step-version x c.justified.old c.justified.new c.justified.steps ∙ o.version;
        })

  ok-injective : (a b : State) → ok a ≡ ok b → a ≡ b
  ok-injective a b q = ground arith

  -- If every write that the API server accepts was justified by the operation that made it, over
  -- the ConfigMap then stored, and the stored JSON decodes to what was encoded, then the ledger
  -- stays readable and its state is reached from the first one by reserve, pin, mark and release
  -- steps.
  pub Commits-Reach :
      (a b : ConfigMap) (st : State)
      → decode_ledger x s a ≡ ok st
      → Commits a b
      → (t : State) × (decode_ledger x s b ≡ ok t) × Reach x st t
  Commits-Reach a b st d start = (st, d, Reach.here)
  Commits-Reach a b st d (commit {a = m} r c) =
      let (t, e, z) = Commits-Reach a m st d r in
      let q : c.justified.old ≡ t =
        (ok-injective c.justified.old t (sym c.justified.observed.decoded ∙ e)) in
      (c.justified.new, Commit-decodes m b c, Reach.next z (rw (← q) c.justified.steps))
