-- ===== src/Queue/Receipt/Recording.antt =====
-- Recording a queue receipt and observing it again (internal/service/recoveryreceipt/queue.go,
-- RecordQueueOnce and ObserveQueue). The client is of the receipt namespace.
use kova.Base.{Bool, Option, none, some, if◌then◌else◌}
use kova.Base.Text.{text_eq}
use kova.Effects.{
  Error, Result, ok, err, ConfigMap, Request, M, call, fail, attempt, from_result, require, ◌>>◌,
  ◌>>=◌, get_config_map, is_rejection, rejected,
}
use kova.Queue.{Externals}
use kova.Queue.Receipt.Data.{
  QueueIntent, ObservedQueueIntent, receipt_valid, receipt_name, new_queue_config_map,
  qualify_queue,
}

-- The tests on the response of the Create, after those on the readback.
unfoldable pub judge_queue_create :
    Externals
    → QueueIntent
    → Option ConfigMap
    → Option Error
    → ObservedQueueIntent
    → Result ObservedQueueIntent
judge_queue_create x q none none observed = err Error.receipt_unconfirmed
judge_queue_create x q none (some e) observed =
    if is_rejection e then err Error.receipt_unconfirmed else ok observed
judge_queue_create x q (some created) e observed = elim (qualify_queue x q created) [
  | err failure ↦ err Error.receipt_changed
  | ok w ↦
      if text_eq w.receipt_uid observed.receipt_uid
      then if rejected e then err Error.receipt_unconfirmed else ok observed
      else err Error.receipt_changed
]

unfoldable pub record_queue_once : Externals → Bool → QueueIntent → M ObservedQueueIntent
record_queue_once x has_api q =
    require has_api Error.receipt_invalid >> from_result (new_queue_config_map x q) >>= λ cm.
    call (Request.create_receipt cm) λ made. attempt (get_config_map cm.namespace cm.name) λ r.
      elim r [
        | err e ↦ fail Error.receipt_unconfirmed
        | ok readback ↦ (elim (qualify_queue x q readback) [
          | err e ↦ fail e
          | ok observed ↦ from_result (judge_queue_create x q made.0 made.1 observed)
        ])
      ]

unfoldable pub observe_queue : Externals → Bool → QueueIntent → M ObservedQueueIntent
observe_queue x has_api q =
    require has_api Error.receipt_invalid
    >> require (receipt_valid x q) Error.receipt_invalid
    >> attempt (get_config_map q.receipt_namespace (receipt_name q)) λ r. elim r [
      | err e ↦ fail Error.receipt_unconfirmed
      | ok readback ↦ from_result (qualify_queue x q readback)
    ]
