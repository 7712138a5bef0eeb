-- ===== src/Templates/Tests.antt =====
-- The theorems of the Pod template at a concrete Pod.
use kova.Base.{◌≡◌, refl, false, [], ◌∷◌, none, some}
use kova.Base.Text.{Text, text, text_eq}
use kova.Base.Dict.{Dict, lookup}
use kova.Api.Pods.{Pod}
use kova.Templates.{
  TemplateCodec, standard_toleration, no_execute, canonical_pod_template_digest, fill_requests,
}
use kova.Templates.Digest.{
  assigned, or_else, canonical_pod_template_digest-assigned, fill_requests-lookup,
}

abbrev codec : TemplateCodec
codec = record { marshal_template = λ p. some p.spec.node_name; sha256_hex = λ t. t }

abbrev runner_pod : Pod
runner_pod = record {
  meta = record {
    namespace = text "ns";
    name = text "kova-job-b1";
    uid = [];
    resource_version = [];
    labels = [];
    annotations = [];
    finalizers = [];
    owners =
        record {
          api_version = text "v1";
          kind = text "KovaBuild";
          name = text "b1";
          uid = text "u2";
        }
        ∷ [];
    deleting = false;
    created = 0;
  };
  spec = record {
    node_name = [];
    service_account_name = [];
    deprecated_service_account = [];
    dns_policy = [];
    scheduler_name = [];
    restart_policy = text "Never";
    grace_seconds = none;
    enable_service_links = some false;
    automount_token = some false;
    host_users = none;
    priority = none;
    preemption_policy = none;
    tolerations = [];
    containers = [];
    init_containers = [];
    volumes = [];
    others = [];
  };
}

canonical_pod_template_digest-assigned_example :
    canonical_pod_template_digest codec (
      assigned
        (text "d")
        (text "node1")
        (no_execute (text "node.kubernetes.io/not-ready") ∷ [])
        runner_pod)
    ≡ canonical_pod_template_digest codec runner_pod
unfolding standard_toleration text_eq
canonical_pod_template_digest-assigned_example =
    canonical_pod_template_digest-assigned codec runner_pod (text "d") (text "node1")
      (no_execute (text "node.kubernetes.io/not-ready") ∷ []) refl

abbrev limits : Dict Text
limits = (text "cpu", text "2") ∷ (text "memory", text "1Gi") ∷ []

fill_requests-lookup_example :
    lookup (text "cpu") (fill_requests limits ((text "memory", text "512Mi") ∷ []))
    ≡ or_else
        (lookup (text "cpu") ((text "memory", text "512Mi") ∷ []))
        (lookup (text "cpu") limits)
fill_requests-lookup_example =
    fill_requests-lookup limits ((text "memory", text "512Mi") ∷ []) (text "cpu")
