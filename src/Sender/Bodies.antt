-- ===== src/Sender/Bodies.antt =====
-- Every attempt of a retry loop gives the sender the same body.
use go_autorest.Prelude.{
  ℕ, zero, suc, String, ◌+◌, ◌≡◌, Bool, true, false, Option, none, some, List, [], ◌∷◌, if-intro,
}
use go_autorest.Http.{Response}
use go_autorest.Errors.{Reply}
use go_autorest.Retriable.{Bytes, RetriableRequest, prepare, readable_body}
use go_autorest.Retriable.Resend.{Resends, Ready, prepare-Ready}
use go_autorest.Sender.{
  Env, Sending, Attempt, refused, replied, attempt, transmit_prepared, Round, finish, retry, reply,
  is_some, after_wait, retry_round, retry_for_attempts, do_retry_for_attempts, backoff_delay,
}

abbrev pub AllAre : Bytes → List Bytes → Type 0
AllAre b [] = Unit
AllAre b (x ∷ xs) = (x ≡ b) × AllAre b xs

-- the request can be sent again with body `b`, and every body sent was `b`
pub record Sends {W : Type 0} (b : Bytes) (s : Sending W) : Type 0 where
  pub resends : Resends b s.request
  pub all_are : AllAre b s.sent

module _ {W : Type 0} (env : Env W) (b : Bytes) where
  abbrev AttemptSends : Attempt W → Type 0
  AttemptSends (refused e s) = ⊥
  AttemptSends (replied r s) = Sends b s

  transmit_prepared-Sends :
      (x : Option String × RetriableRequest) (s : Sending W)
      → Ready b x
      → AllAre b s.sent
      → AttemptSends (transmit_prepared env x s)
  unfolding transmit_prepared
  transmit_prepared-Sends (some e, rr) s h all = cc (h.no_failure)
  transmit_prepared-Sends (none, rr) s h all =
      let (answer, left, w) = env.transmit s.world (readable_body rr) in
      record { resends = h.again left; all_are = (h.reads, all) }

  attempt-Sends : (s : Sending W) → Sends b s → AttemptSends (attempt env s)
  unfolding attempt
  attempt-Sends s h =
      transmit_prepared-Sends (prepare s.request) s (prepare-Ready b s.request h.resends) h.all_are

  abbrev RoundSends : Round W → Type 0
  RoundSends (finish r s) = Sends b s
  RoundSends (retry r s) = Sends b s

  after_wait-Sends :
      (c : Option Response) (last : Reply) (s : Sending W) (x : Bool × W)
      → Sends b s
      → RoundSends (after_wait env c last s x)
  unfolding after_wait
  after_wait-Sends c last s (true, w) h = record { resends = h.resends; all_are = h.all_are }
  after_wait-Sends c last s (false, w) h = record { resends = h.resends; all_are = h.all_are }

  retry_round-Sends :
      (backoff n : ℕ) (last : Reply) (a : Attempt W)
      → AttemptSends a
      → RoundSends (retry_round env backoff n last a)
  unfolding retry_round
  retry_round-Sends backoff n last (refused e s) h = absurd h
  retry_round-Sends backoff n last (replied r s) h =
      if-intro RoundSends (is_some r.failure)
        (λ _. after_wait-Sends none r s (env.wait s.world (backoff_delay backoff 0 n)) h) (λ _. h)

  step-Sends :
      (backoff k n : ℕ) (x : Round W)
      → ((r : Reply) (s : Sending W)
          → Sends b s
          → Sends b (retry_for_attempts env backoff k (n + 1) r s).1)
      → RoundSends x
      → Sends b
          (elim x as (λ _. Reply × Sending W) [
            | finish r s' ↦ (r, s')
            | retry r s' ↦ retry_for_attempts env backoff k (n + 1) r s'
          ]).1
  step-Sends backoff k n (finish r s) ih h = h
  step-Sends backoff k n (retry r s) ih h = ih r s h

  retry_for_attempts-Sends :
      (backoff k n : ℕ) (last : Reply) (s : Sending W)
      → Sends b s
      → Sends b (retry_for_attempts env backoff k n last s).1
  unfolding retry_for_attempts
  retry_for_attempts-Sends backoff zero n last s h = h
  retry_for_attempts-Sends backoff (suc k) n last s h =
      step-Sends backoff k n (retry_round env backoff n last (attempt env s))
        (retry_for_attempts-Sends backoff k (n + 1))
        (retry_round-Sends backoff n last (attempt env s) (attempt-Sends s h))

  -- Let a request that nothing was sent of be able to send the body `b` again. Then every body that
  -- `DoRetryForAttempts` gives to the sender is `b`, whatever the sender answers and reads of each
  -- body, and afterwards the request can be sent again with `b`.
  pub attempts_send_same :
      (attempts backoff : ℕ) (s : Sending W)
      → Resends b s.request
      → s.sent ≡ []
      → Sends b (do_retry_for_attempts env attempts backoff s).1
  unfolding do_retry_for_attempts
  attempts_send_same attempts backoff s h e =
      retry_for_attempts-Sends backoff attempts 0 (reply none none) s
        (record { resends = h; all_are = rw e tt })
