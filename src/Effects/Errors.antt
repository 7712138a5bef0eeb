-- ===== src/Effects/Errors.antt =====
-- What the apierrors predicates say of an error.
use kova.Base.{◌≡◌, refl, true, arith}
use kova.Effects.{Error, is_not_found}

pub is_not_found-eq : (e : Error) → is_not_found e ≡ true → e ≡ Error.not_found
is_not_found-eq Error.not_found h = refl
is_not_found-eq Error.already_exists h = absurd (ground arith)
is_not_found-eq Error.conflict h = absurd (ground arith)
is_not_found-eq Error.too_many_requests h = absurd (ground arith)
is_not_found-eq Error.context_done h = absurd (ground arith)
is_not_found-eq Error.full h = absurd (ground arith)
is_not_found-eq Error.busy h = absurd (ground arith)
is_not_found-eq Error.intent_conflict h = absurd (ground arith)
is_not_found-eq Error.drift h = absurd (ground arith)
is_not_found-eq Error.receipt_invalid h = absurd (ground arith)
is_not_found-eq Error.receipt_changed h = absurd (ground arith)
is_not_found-eq Error.failed h = absurd (ground arith)
is_not_found-eq (Error.other t) h = absurd (ground arith)
is_not_found-eq Error.receipt_unconfirmed h = absurd (ground arith)
is_not_found-eq Error.forbidden h = absurd (ground arith)
is_not_found-eq Error.invalid h = absurd (ground arith)
is_not_found-eq Error.bad_request h = absurd (ground arith)
is_not_found-eq Error.unauthorized h = absurd (ground arith)
is_not_found-eq Error.admission_closed h = absurd (ground arith)
is_not_found-eq Error.grant_unpinned h = absurd (ground arith)
is_not_found-eq Error.pod_receipt_unpinned h = absurd (ground arith)
is_not_found-eq (Error.recovery_required n) h = absurd (ground arith)
