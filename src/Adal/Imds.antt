-- ===== src/Adal/Imds.antt =====
-- autorest/adal/token.go: `retryForIMDS`.
use go_autorest.Prelude.{
  ℕ, zero, suc, ◌+◌, ◌^◌, String, Bool, true, false, not, Option, none, some, List, [], ◌∷◌, ℤ, pos,
  negsuc, if◌then◌else◌,
}
use go_autorest.Http.{Response, contains_int}
use go_autorest.Errors.{Reply}
use go_autorest.Adal.Types.{
  TokenRequest, Env, default_max_msi_refresh_attempts, wrap, longer, seconds,
}

-- `responseHasStatusCode`
unfoldable pub response_has_status_code : Option Response → List ℕ → Bool
response_has_status_code none codes = false
response_has_status_code (some resp) codes = contains_int codes resp.status_code

-- 408, 429, 500, 502, 503, 504, and those of IMDS
abbrev pub retries : List ℕ
retries =
    408 ∷ 429 ∷ 500 ∷ 502 ∷ 503 ∷ 504 ∷ 404 ∷ 410 ∷ 501 ∷ 505 ∷ 506 ∷ 507 ∷ 508 ∷ 510 ∷ 511 ∷ []

-- a minute
abbrev pub max_delay : ℕ
max_delay = 60000000000

abbrev pub cap_delay : ℕ → ℕ
cap_delay d = if longer d max_delay then max_delay else d

-- The delay after an attempt, by the delay before it. The float64 of a power is exact; where the
-- power is above an int64, its duration is 0, as on amd64.
unfoldable pub next_delay : ℕ → ℕ → ℕ
next_delay attempt delay = cap_delay (wrap (delay + seconds (2 ^ attempt)))

abbrev pub attempts_of : ℤ → ℕ
attempts_of (pos (suc n)) = suc n
attempts_of (pos zero) = default_max_msi_refresh_attempts
attempts_of (negsuc n) = default_max_msi_refresh_attempts

-- The request, the world, the bodies sent and the delays waited for, the last ones first.
pub record Run (W : Type 0) : Type 0 where
  pub request : TokenRequest
  pub world : W
  pub sent : List String
  pub waited : List ℕ

abbrev pub no_reply : Reply
no_reply = record { answer = none; failure = none }

-- `err == nil && !responseHasStatusCode(resp, retries...)`
abbrev pub accepts : Reply → Bool
accepts r = elim r.failure [
  | none ↦ not (response_has_status_code r.answer retries)
  | some e ↦ false
]

module _ {W : Type 0} (env : Env W) where
  -- `sender.Do(req)`, after which the body is read
  unfoldable pub send_once : Run W → Reply × Run W
  send_once s =
      let (r, left, w) = env.send s.world s.request in
      (
        r,
        record s {
          request = record s.request { body = left };
          world = w;
          sent = s.request.body ∷ s.sent;
        },
      )

  -- what the end of the wait leads to
  abbrev pub after_delay :
      ℕ → (Reply → Run W → Reply × Run W) → Reply → Run W → Bool × W → Reply × Run W
  after_delay d next r s (true, w) = next r (record s { world = w; waited = d ∷ s.waited })
  after_delay d next r s (false, w) =
      (record r { failure = some (env.ctx_err w) }, record s { world = w; waited = d ∷ s.waited })

  abbrev pub decide : ℕ → (Reply → Run W → Reply × Run W) → Reply × Run W → Reply × Run W
  decide d next (r, s) = if accepts r then (r, s) else after_delay d next r s (env.wait s.world d)

  -- the loop: the attempts left, the attempts made, the delay, and the last reply
  unfoldable pub attempt_imds : ℕ → ℕ → ℕ → Reply → Run W → Reply × Run W
  attempt_imds zero made delay r s = (r, s)
  attempt_imds (suc k) made delay r s =
      let delay' = next_delay (suc made) delay in
      decide delay' (attempt_imds k (suc made) delay') (send_once s)

  unfoldable pub retry_for_imds : TokenRequest → ℤ → W → Reply × Run W
  retry_for_imds req max_attempts w =
      attempt_imds (attempts_of max_attempts) 0 0 no_reply
        (record { request = req; world = w; sent = []; waited = [] })
