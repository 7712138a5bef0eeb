-- ===== src/Receipts/Tests.antt =====
-- The theorem of the creation of a receipt at concrete arguments.
use kova.Base.{true, false, []}
use kova.Base.Text.{text}
use kova.Effects.{ConfigMap}
use kova.Effects.Traces.{Always, Outcome, Any}
use kova.Queue.Tests.{externals}
use kova.Receipts.{Payloads, grant_kind, new_effect_config_map, record_effect_once}
use kova.Receipts.Once.{Confirmed, record_effect_once-Confirmed}

abbrev payloads : Payloads
payloads = record {
  base = externals;
  marshal_grant = λ g. text "grant";
  marshal_pod_create = λ p. text "pod";
  has_blank = λ t. false;
}

abbrev grant_map : ConfigMap
grant_map =
    new_effect_config_map (text "receipts") (text "kova-grant-intent-1") grant_kind (text "grant")

record_effect_once-Confirmed_example :
    Always
      (λ g q. Unit {0})
      (Outcome (λ g w. Confirmed payloads grant_map grant_kind g w) Any)
      []
      (record_effect_once payloads true grant_map grant_kind)
record_effect_once-Confirmed_example =
    record_effect_once-Confirmed payloads [] true grant_map grant_kind
