-- ===== src/Provisioning/Returns.antt =====
-- The retry loop returns within the window, and why it gives up.
use arduino_cloud_connector.Common.{ℕ, zero, suc, ◌+◌, ◌≤◌, ◌≢◌, List, [], ◌∷◌, length, arith}
use arduino_cloud_connector.Provisioning.Retry.{
  Round, trying, with_retry, round, next_backoff, retry_initial_backoff,
}
use arduino_cloud_connector.Provisioning.{provisioning_window}

-- What n waits of the loop add up to.
waits : ℕ → ℕ → ℕ
waits backoff zero = 0
waits backoff (suc n) = backoff + waits (next_backoff backoff) n

module _ {A : Type 0} where
  with_retry_within :
      (n deadline now backoff : ℕ) (r : Round A) (rs : List (Round A))
      → deadline ≤ now + waits backoff n
      → n ≤ length rs
      → with_retry deadline now backoff (r ∷ rs) ≢ trying
  unfolding with_retry waits round
  with_retry_within zero deadline now backoff r rs h l = ground arith
  with_retry_within (suc n) deadline now backoff r [] h l = ground arith
  with_retry_within (suc n) deadline now backoff r (q ∷ rs) h l = ground (
    arith,
    with_retry_within n deadline (now + r.took + backoff + r.late) (next_backoff backoff) q rs,
  )

  -- A retry loop that starts at most ten minutes before its deadline returns within 24 calls of the
  -- API, whatever is answered and however long the calls take: the back-off from 2 to 30 seconds
  -- adds up to the window in 23 waits.
  pub with_retry_returns :
      (deadline now : ℕ) (rounds : List (Round A))
      → deadline ≤ now + provisioning_window
      → 24 ≤ length rounds
      → with_retry deadline now retry_initial_backoff rounds ≢ trying
  unfolding waits next_backoff
  with_retry_returns deadline now [] h l = ground arith
  with_retry_returns deadline now (r ∷ rs) h l =
      with_retry_within 23 deadline now retry_initial_backoff r rs h (omega arith)
