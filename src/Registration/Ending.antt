-- ===== src/Registration/Ending.antt =====
-- autorest/azure/rp.go: a polling duration bounds the polls of `register`.
use go_autorest.Prelude.{
  ℕ, zero, suc, ◌+◌, ◌≤◌, ◌<◌, String, Bool, true, false, ◌≡◌, ◌≢◌, refl, none, is_empty, if-intro,
  arith,
}
use go_autorest.Result.{Result, ok, err, panic}
use go_autorest.Preparers.Outgoing.{Outgoing, Value, Mapped}
use go_autorest.Respond.Body.{Answer, Held, Ended, done, fails, panics}
use go_autorest.Respond.Decorators.{Codec}
use go_autorest.Respond.Azure.{Decoding, Decoders}
use go_autorest.Registration.Requests.{
  UrlLibrary, Provider, provider, no_provider, provider_panics, get_subscription, get_provider,
  path_parameters, register_request, poll_request,
}
use go_autorest.Registration.Register.{
  Outcome, answered, refused, Client, Services, State, out_of_fuel, is_registered, context_end,
  Step, responded, respond, sent, send_then, in_time, after_polling, paused, backed_off, after_poll,
  poll, register_at, with_provider, register,
}

module _ {W : Type 0} (lib : UrlLibrary) (codec : Codec State) (d : Decoders)
    (services : Services W) (client : Client) where
  -- The clock does not go back while a request is sent, and goes on in a delay that passes.
  pub record KeepsTime : Type 0 where
    pub sends : (r : Outgoing) (w : W) → services.now w ≤ services.now (services.send r w).1
    pub waits :
        (a : Answer) (w : W) → services.now w ≤ services.now (services.delay_with_retry_after a w).1
    pub waits_on :
        (a : Answer) (w : W)
        → (services.delay_with_retry_after a w).0 ≡ true
        → services.now w < services.now (services.delay_with_retry_after a w).1
    pub backs_off :
        (w : W)
        → (services.delay_for_backoff client.polling_delay w).0 ≡ true
        → services.now w < services.now (services.delay_for_backoff client.polling_delay w).1

  abbrev Ends : Step lib codec d services client → Type 0
  Ends o = o.0 ≢ out_of_fuel

  responded-Ends :
      (o : Ended × Held State) (w : W) (k : State → W → Step lib codec d services client)
      → ((state : State) → Ends (k state w))
      → Ends (responded lib codec d services client o w k)
  responded-Ends (done, s) w k h = h s.value
  responded-Ends (fails e, s) w k h = λ q. absurd (cc)
  responded-Ends (panics, s) w k h = λ q. absurd (cc)

  sent-Ends :
      (state : State) (o : Outcome × W) (k : Answer → State → W → Step lib codec d services client)
      → ((a : Answer) (state' : State) → Ends (k a state' o.1))
      → Ends (sent lib codec d services client state o k)
  unfolding respond
  sent-Ends state (refused a e, w) k h = λ q. absurd (cc)
  sent-Ends state (answered a, w) k h = responded-Ends _ w (k a) (h a)

  send_then-Ends :
      KeepsTime
      → (state : State) (r : Result Outgoing) (w : W)
        (k : Answer → State → W → Step lib codec d services client)
      → ((a : Answer) (state' : State) (w' : W)
          → services.now w ≤ services.now w'
          → Ends (k a state' w'))
      → Ends (send_then lib codec d services client state r w k)
  send_then-Ends t state (ok r) w k h =
      sent-Ends state (services.send r w) k
        (λ a state'. h a state' (services.send r w).1 (t.sends r w))
  send_then-Ends t state (err e) w k h = λ q. absurd (cc)
  send_then-Ends t state panic w k h = λ q. absurd (cc)

  after_polling-Ends :
      (start : ℕ) (state : State) (w : W)
      → Ends (after_polling lib codec d services client start state w)
  unfolding after_polling
  after_polling-Ends start state w =
      if-intro Ends (in_time lib codec d services client start w) (λ _ q. absurd (cc))
        (λ _ q. absurd (cc))

  context_end-ends : (m : String) → context_end m ≢ out_of_fuel
  context_end-ends m =
      if-intro (λ e. e ≢ out_of_fuel) (is_empty m) (λ _ q. absurd (cc)) (λ _ q. absurd (cc))

  paused-Ends :
      (n : ℕ) (state : State) (k : W → Step lib codec d services client) (x : Bool × W)
      → (x.0 ≡ true → n < services.now x.1)
      → ((w : W) → n < services.now w → Ends (k w))
      → Ends (paused lib codec d services client state k x)
  paused-Ends n state k (true, w) c h = h w (c refl)
  paused-Ends n state k (false, w) c h = context_end-ends (services.ctx_err w)

  backed_off-Ends :
      KeepsTime
      → (n : ℕ) (state : State) (k : W → Step lib codec d services client) (x : Bool × W)
      → n ≤ services.now x.1
      → (x.0 ≡ true → n < services.now x.1)
      → ((w : W) → n < services.now w → Ends (k w))
      → Ends (backed_off lib codec d services client state k x)
  backed_off-Ends t n state k (true, w) l c h = h w (c refl)
  backed_off-Ends t n state k (false, w) l c h =
      paused-Ends n state k (services.delay_for_backoff client.polling_delay w)
        (λ e. let on = t.backs_off w e in omega arith) h

  in_time-le :
      (start : ℕ) (w : W)
      → 0 < client.polling_duration
      → in_time lib codec d services client start w ≡ true
      → services.now w < start + client.polling_duration
  in_time-le start w pos e = ground arith

  poll-Ends :
      KeepsTime
      → 0 < client.polling_duration
      → (fuel start : ℕ) (base : String) (parameters : Mapped Value) (state : State) (w : W)
      → 0 < fuel
      → start + client.polling_duration < fuel + services.now w
      → Ends (poll lib codec d services client fuel start base parameters state w)
  unfolding poll after_poll
  poll-Ends t pos zero start base parameters state w some_fuel room = absurd (omega arith)
  poll-Ends t pos (suc fuel) start base parameters state w some_fuel room =
      if-intro Ends (in_time lib codec d services client start w)
        (λ early.
          let before = in_time-le start w pos early in
          send_then-Ends t state (poll_request lib base parameters) w
            (after_poll lib codec d services client start
              (poll lib codec d services client fuel start base parameters))
            (λ a state' w' l.
              if-intro Ends (is_registered state') (λ _. after_polling-Ends start state' w')
                (λ _.
                  backed_off-Ends t (services.now w') state'
                    (poll lib codec d services client fuel start base parameters state')
                    (services.delay_with_retry_after a w') (t.waits a w') (t.waits_on a w')
                    (λ w'' l'.
                      poll-Ends t pos fuel start base parameters state' w'' (omega arith)
                        (omega arith)))))
        (λ _. after_polling-Ends start state w)

  with_provider-Ends :
      KeepsTime
      → 0 < client.polling_duration
      → (fuel : ℕ) (base sub_id : String) (x : Provider) (w : W) → client.polling_duration < fuel
      → Ends (with_provider lib codec d services client fuel base sub_id x w)
  unfolding register_at
  with_provider-Ends t pos fuel base sub_id (provider name) w room =
      send_then-Ends t none (register_request lib base (path_parameters lib name sub_id)) w _
        (λ a state w' l.
          poll-Ends t pos fuel (services.now w') base (path_parameters lib name sub_id) state w'
            (omega arith) (omega arith))
  with_provider-Ends t pos fuel base sub_id no_provider w room = λ q. absurd (cc)
  with_provider-Ends t pos fuel base sub_id provider_panics w room = λ q. absurd (cc)

  -- Let the clock go on in every delay that passes. With a positive polling duration, fuel above it
  -- is enough: `register` returns or panics, whatever the services answer.
  pub register_ends :
      KeepsTime
      → 0 < client.polling_duration
      → (fuel : ℕ) (base path : String) (re : Decoding) (w : W) → client.polling_duration < fuel
      → (register lib codec d services client fuel base path re w).0 ≢ out_of_fuel
  unfolding register
  register_ends t pos fuel base path re w room =
      if-intro Ends (is_empty (get_subscription path)) (λ _ q. absurd (cc))
        (λ _. with_provider-Ends t pos fuel base (get_subscription path) (get_provider re) w room)
