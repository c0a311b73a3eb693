-- ===== src/Outbox/Policy.antt =====
-- src/lib/outbox-service.ts: errors of the provider, the retry delays and the idempotency window.
pub mod Delays
use resend_conversation_serv.Prelude.{
  ℕ, zero, suc, ◌+◌, ◌-◌, ◌*◌, min, Bool, true, false, ◌&&◌, ◌||◌, not, Option, none, some, List,
  [], ◌∷◌, ◌++◌, ◌==◌, leb, if◌then◌else◌, get_elem?, take,
}
use resend_conversation_serv.Prelude.Text.{Text, codes, text_eq, decimal}

abbrev pub outbox_lease_ms : ℕ
outbox_lease_ms = 120000

abbrev pub provider_idempotency_safety_ms : ℕ
provider_idempotency_safety_ms = 82800000

abbrev pub retry_delays_ms : List ℕ
retry_delays_ms = 60000 ∷ 120000 ∷ 300000 ∷ []

-- What a call of the provider may throw: a ResendApiError, another Error, or any other value.
pub data SendError : Type 0 where
  api_error : ℕ → Option Text → SendError
  named_error : Text → SendError
  other_value : SendError

abbrev pub code_is : Option Text → Text → Bool
code_is none t = false
code_is (some s) t = text_eq s t

unfoldable pub is_changed_payload : SendError → Bool
is_changed_payload (api_error status code) =
    status == 409 && code_is code (codes "invalid_idempotent_request")
is_changed_payload _ = false

unfoldable pub is_retryable_error : SendError → Bool
is_retryable_error (api_error status code) =
    (status == 429
      && not (code_is code (codes "monthly_quota_exceeded"))
      && not (code_is code (codes "daily_quota_exceeded")))
    || leb 500 status
    || (status == 409 && code_is code (codes "concurrent_idempotent_requests"))
is_retryable_error _ = true

unfoldable pub get_error_code : SendError → Text
unfolding decimal
get_error_code (api_error status (some code)) = code
get_error_code (api_error status none) = codes "http_" ++ decimal status
get_error_code (named_error name) = name
get_error_code other_value = codes "unknown_error"

-- `Date.now() - firstAttemptAt >= PROVIDER_IDEMPOTENCY_SAFETY_MS`
unfoldable pub has_provider_window_expired : ℕ → ℕ → Bool
has_provider_window_expired now first_attempt_at =
    leb (first_attempt_at + provider_idempotency_safety_ms) now

abbrev pub delay_at : Option ℕ → ℕ
delay_at none = 0
delay_at (some delay) = delay

-- RETRY_DELAYS_MS[Math.min(attemptCount - 1, RETRY_DELAYS_MS.length - 1)]. At 0 the index is -1, where
-- the source reads undefined; a claim counts its attempt first, so that this is never asked.
unfoldable pub retry_delay : ℕ → ℕ
retry_delay zero = delay_at none
retry_delay (suc n) = delay_at (get_elem? retry_delays_ms (min n 2))

-- `errorCode.slice(0, 64)`
abbrev pub short_code : Text → Text
short_code code = take 64 code
