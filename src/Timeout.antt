-- ===== src/Timeout.antt =====
-- timeout/timeout.go and timeout/config.go: Execute. The context package is not modelled: what Err
-- of the two contexts gives after the operation is an argument.
pub mod Laws
use fortify.Base.{
  Bool, true, false, not, ◌&&◌, if◌then◌else◌, Option, none, some, ℤ, pos, is_pos, is_neg,
}
use fortify.Ferrors.{Error, Sentinel, sentinel, timeout_error, deadline_exceeded, same}

-- `on_timeout` says whether the callback is set; the Logger is left out.
pub record Config : Type 0 where
  pub default_timeout : ℤ
  pub on_timeout : Bool

-- 30 s are 3 * 10^10 nanoseconds.
unfoldable pub set_defaults : Config → Config
set_defaults c = record c {
  default_timeout = if is_pos c.default_timeout then c.default_timeout else pos 30000000000;
}

-- The result of fn, and then `tCtx.Err()` and `parentCtx.Err()`.
pub record Call (T : Type 0) : Type 0 where
  pub result : T × Option Error
  pub ctx_err : Option Error
  pub parent_err : Option Error

-- What Execute returns, and whether it called OnTimeout. `limit` is the timeout that it gave to
-- context.WithTimeout.
pub record Outcome (T : Type 0) : Type 0 where
  pub value : T
  pub err : Option Error
  pub limit : ℤ
  pub notified : Bool

-- `ctxErr == context.DeadlineExceeded`
unfoldable pub is_deadline : Error → Bool
is_deadline (sentinel s) = same s deadline_exceeded
is_deadline _ = false

-- The timeout, or the default one if it is 0.
unfoldable pub effective : Config → ℤ → ℤ
effective c timeout =
    if not (is_pos timeout) && not (is_neg timeout) then c.default_timeout else timeout

module _ {T : Type 0} where
  -- New and Execute.
  unfoldable pub execute : Config → T → ℤ → Call T → Outcome T
  unfolding is_deadline effective set_defaults
  execute config zero_value timeout call =
      let c = set_defaults config in
      let limit = effective c timeout in
      elim call.ctx_err [
        | none ↦ record {
          value = call.result.0;
          err = call.result.1;
          limit = limit;
          notified = false;
        }
        | some ctx_err ↦ elim call.parent_err [
          | some parent_err ↦ record {
            value = zero_value;
            err = some parent_err;
            limit = limit;
            notified = false;
          }
          | none ↦
              if is_deadline ctx_err
              then record {
                value = zero_value;
                err = some (timeout_error limit);
                limit = limit;
                notified = c.on_timeout;
              }
              else record {
                value = zero_value;
                err = some ctx_err;
                limit = limit;
                notified = false;
              }
        ]
      ]
