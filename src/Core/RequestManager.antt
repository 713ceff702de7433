-- ===== src/Core/RequestManager.antt =====
-- core/request_manager.py, `_make_request` one task at a time. The definitions are in `State`,
-- `Cooldown`, `Attempts` and `Calls`; the other children prove what they promise.
mod State
mod Cooldown
mod Attempts
mod Calls
mod Limits
mod Retries
mod Promises
mod Uses
unfoldable pub use State.*
unfoldable pub use Cooldown.*
unfoldable pub use Attempts.*
unfoldable pub use Calls.*
pub use Limits.*
pub use Retries.{is_429, reply, retry_after_of, cooldown_of}
pub use Promises.{expected, Respects, make_request_raw_lem, make_request_raw-Respects}
pub use Uses.{History, created, limit_set, requested, History-IsValid}
