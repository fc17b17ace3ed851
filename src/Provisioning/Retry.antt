-- ===== src/Provisioning/Retry.antt =====
-- submitCSRWithRetry and completeWithRetry: one loop over a call of the Provisioning API. What a round
-- meets is an input: how long the call takes and its answer (`none` is an error), whether the context
-- is cancelled after it, whether the wait ends by the cancelled context, and how late a timer is.
use arduino_cloud_connector.Common.{
  ℕ, Bool, Option, none, some, List, [], ◌∷◌, ltb, ◌+◌, ◌*◌, if◌then◌else◌,
}
use arduino_cloud_connector.Keystore.Disk as Disk

abbrev pub retry_initial_backoff : ℕ
retry_initial_backoff = 2_000_000_000

abbrev pub retry_max_backoff : ℕ
retry_max_backoff = 30_000_000_000

pub data AttemptError : Type 0 where
  no_marker retry_window_expired cancelled : AttemptError
  disk : Disk.Error → AttemptError

pub record Round (A : Type 0) : Type 0 where
  pub took : ℕ
  pub answer : Option A
  pub cancelled_call : Bool
  pub cancelled_wait : Bool
  pub late : ℕ

-- `trying` is a loop whose rounds have run out.
pub data Retried (A : Type 0) : Type 0 where
  done : A → Retried A
  gave_up : AttemptError → Retried A
  trying : Retried A

-- backoff = min(backoff*2, retryMaxBackoff)
unfoldable pub next_backoff : ℕ → ℕ
next_backoff backoff =
    if ltb (backoff * 2) retry_max_backoff then backoff * 2 else retry_max_backoff

module _ {A : Type 0} where
  abbrev pub on_error : ℕ → ℕ → Round A → Retried A
  on_error deadline now r =
      if r.cancelled_call
      then gave_up cancelled
      else if ltb now deadline
      then (if r.cancelled_wait then gave_up cancelled else trying)
      else gave_up retry_window_expired

  -- One round that ends its call at `now`: the loop's return, or `trying` where it goes round again.
  unfoldable pub round : ℕ → ℕ → Round A → Retried A
  round deadline now r = elim r.answer [ some a ↦ done a | none ↦ on_error deadline now r ]

  abbrev pub or_else : Retried A → Retried A → Retried A
  or_else trying other = other
  or_else (done a) other = done a
  or_else (gave_up e) other = gave_up e

  unfoldable pub with_retry : ℕ → ℕ → ℕ → List (Round A) → Retried A
  with_retry deadline now backoff [] = trying
  with_retry deadline now backoff (r ∷ rs) =
      or_else (round deadline (now + r.took) r)
        (with_retry deadline (now + r.took + backoff + r.late) (next_backoff backoff) rs)
