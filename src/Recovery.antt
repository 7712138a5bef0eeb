-- ===== src/Recovery.antt =====
-- internal/service/recoverydrain/drain.go: the placeholder builds that recovery leaves behind, as the
-- controller tells them from real builds.
use mathlib.Core.Bool.{decide}
use native.Mathlib.Decide.{ℕ_discrete}
use kova.Base.{Bool, true, false, not, ◌&&◌, ◌||◌, List, [], ◌∷◌}
use kova.Base.Text.{Text, text, text_eq, is_empty}
use kova.Api.{KovaBuild, Spec, value_of}
use kova.Api.Int.{pos}

abbrev marker_key : Text
marker_key = text "kova.cofy.dev/recovery-tombstone"

-- `reflect.DeepEqual` on the build specification (an absent list is the empty one).
Spec-discrete : Discrete Spec
Spec-discrete = hlevel ℕ_discrete

-- `slices.Contains`
unfoldable pub contains : Text → List Text → Bool
contains x [] = false
contains x (y ∷ ys) = text_eq y x || contains x ys

inert_build_spec : Spec
inert_build_spec = record {
  requester = record { username = text "recovery-tombstone"; uid = [] };
  targets =
      record { target = text "recovery.invalid/tombstone:never"; platform = text "linux/amd64" }
      ∷ [];
  source = record {
    uri = text "https://recovery.invalid/inert";
    digest = text "sha256:0000000000000000000000000000000000000000000000000000000000000000";
  };
  build = record {
    format = text "oci";
    concurrency = pos 1;
    timeout = pos 0;
    oom_cooldown = [];
    fail_fast = false;
    verbose = false;
    vars = [];
  };
  idempotency_key = [];
}

unfoldable pub is_inert_build_tombstone : KovaBuild → Bool
unfolding Spec-discrete inert_build_spec ℕ_discrete
is_inert_build_tombstone b =
    text_eq (value_of marker_key b.labels) (text "v1")
    && not (is_empty (value_of marker_key b.annotations))
    && not (is_empty (value_of (text "kova.cofy.dev/recovery-epoch-uid") b.annotations))
    && contains (text "kova.cofy.dev/recovery-hold") b.finalizers
    && (elim b.owners [ [] ↦ true | _ ∷ _ ↦ false ])
    && decide (Spec-discrete b.spec inert_build_spec)
