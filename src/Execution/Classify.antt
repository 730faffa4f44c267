-- ===== src/Execution/Classify.antt =====
-- `Classify` of internal/execution/execution.go, over the errors that `errors.Is` and `errors.As`
-- walk through.
pub mod Laws
use austro_os.Common.{Bool, true, false, ◌||◌, if◌then◌else◌, Option, none, some}
use austro_os.Execution.Types.{
  ErrorCode, code_none, deadline_exceeded, provider_timeout, rate_limit, unavailable, canceled,
  code_not_found, unknown, worker_lease_expired,
}

-- The sentinels that the `switch` compares with.
pub data Sentinel : Type 0 where
  no_rows context_canceled context_deadline usage_limit lease_expired : Sentinel
  net_closed eof conn_refused conn_reset timed_out : Sentinel

-- A non-nil error value: a sentinel, some other leaf with no `Timeout` method, a leaf that is a
-- `net.Error`, and the wrappers: `%w`, `net.OpError`, `errors.Join` and `ClassifiedError`, whose
-- cause may be nil.
pub data Cause : Type 0 where
  sentinel : Sentinel → Cause
  plain : Cause
  net_leaf : Bool → Cause
  wrapped : Cause → Cause
  net_op : Bool → Cause → Cause
  joined : Cause → Cause → Cause
  classified : ErrorCode → Bool → Cause
  classified_of : ErrorCode → Bool → Cause → Cause

abbrev pub same_sentinel : Sentinel → Sentinel → Bool
same_sentinel no_rows no_rows = true
same_sentinel context_canceled context_canceled = true
same_sentinel context_deadline context_deadline = true
same_sentinel usage_limit usage_limit = true
same_sentinel lease_expired lease_expired = true
same_sentinel net_closed net_closed = true
same_sentinel eof eof = true
same_sentinel conn_refused conn_refused = true
same_sentinel conn_reset conn_reset = true
same_sentinel timed_out timed_out = true
same_sentinel _ _ = false

-- `errors.Is(cause, s)`. The method `ClassifiedError.Is` answers for `ErrNotRetryable` only, which is
-- none of these.
unfoldable pub errors_is : Cause → Sentinel → Bool
errors_is (sentinel t) s = same_sentinel t s
errors_is plain s = false
errors_is (net_leaf b) s = false
errors_is (wrapped c) s = errors_is c s
errors_is (net_op b c) s = errors_is c s
errors_is (joined c d) s = errors_is c s || errors_is d s
errors_is (classified e b) s = false
errors_is (classified_of e b c) s = errors_is c s

-- the first result that there is
abbrev first_some : Option Bool → Option Bool → Option Bool
first_some none o = o
first_some (some b) o = some b

-- The sentinels of net, syscall and context that have a `Timeout` method.
abbrev sentinel_timeout : Sentinel → Option Bool
sentinel_timeout context_deadline = some true
sentinel_timeout timed_out = some true
sentinel_timeout conn_refused = some false
sentinel_timeout conn_reset = some false
sentinel_timeout net_closed = some false
sentinel_timeout _ = none

-- `errors.As(cause, &netErr)` and then `netErr.Timeout()`: the first `net.Error` in the walk.
unfoldable pub as_net_error : Cause → Option Bool
as_net_error (sentinel t) = sentinel_timeout t
as_net_error plain = none
as_net_error (net_leaf b) = some b
as_net_error (wrapped c) = as_net_error c
as_net_error (net_op b c) = some b
as_net_error (joined c d) = first_some (as_net_error c) (as_net_error d)
as_net_error (classified e b) = none
as_net_error (classified_of e b c) = as_net_error c

-- `ClassifiedError` without its cause.
pub record Classification : Type 0 where
  pub code : ErrorCode
  pub retry : Bool

abbrev class : ErrorCode → Bool → Classification
class c r = record { code = c; retry = r }

-- `Classify(nil)` is the first clause.
unfoldable pub classify : Option Cause → Classification
classify none = class code_none false
classify (some c) =
    if errors_is c no_rows
    then class code_not_found false
    else if errors_is c context_canceled
    then class canceled false
    else if errors_is c context_deadline
    then class deadline_exceeded true
    else if errors_is c usage_limit
    then class rate_limit true
    else if errors_is c lease_expired
    then class worker_lease_expired true
    else if errors_is c net_closed
        || errors_is c eof
        || errors_is c conn_refused
        || errors_is c conn_reset
        || errors_is c timed_out
    then class unavailable true
    else elim (as_net_error c) [ some true ↦ class provider_timeout true | _ ↦ class unknown false ]
