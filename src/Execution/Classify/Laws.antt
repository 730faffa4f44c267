-- ===== src/Execution/Classify/Laws.antt =====
-- What `Classify` promises.
use austro_os.Common.{◌≡◌, refl, ◌⊎◌, Bool, true, false, Option, none, some, arith}
use austro_os.Execution.Types.{ErrorCode, canceled, code_not_found, retryable}
use austro_os.Execution.Classify.{
  Cause, wrapped, classified_of, context_canceled, errors_is, as_net_error, classify,
}

-- For every error, nil included, the retry flag that Classify returns is the one of its code's own table.
pub retry-classify : (o : Option Cause) → (classify o).retry ≡ retryable (classify o).code
unfolding classify retryable
retry-classify none = refl
retry-classify (some c) = ground arith

classify-wrapped :
    (c : Cause) (e : ErrorCode) (b : Bool)
    → (classify (some (wrapped c)) ≡ classify (some c))
      × (classify (some (classified_of e b c)) ≡ classify (some c))
unfolding classify errors_is as_net_error
classify-wrapped c e b = (refl, refl)

classify_canceled_not_retried :
    (c : Cause)
    → errors_is c context_canceled ≡ true
    → ((classify (some c)).retry ≡ false)
      × (((classify (some c)).code ≡ canceled) ⊎ ((classify (some c)).code ≡ code_not_found))
unfolding classify
classify_canceled_not_retried c h = ground arith
