-- ===== src/Registration/Retried.antt =====
-- autorest/azure/rp.go: what `DoRetryWithRegistration` returns, and what it sends.
use go_autorest.Prelude.{
  ℕ, zero, suc, String, true, not, ◌||◌, ◌==◌, Option, none, some, ◌≡◌, sym, subst, if-intro,
  str_eq,
}
use go_autorest.Retriable.{Bytes, RetriableRequest, prepare, readable_body}
use go_autorest.Retriable.Resend.{Ready, prepare-Ready}
use go_autorest.Sender.{Sending}
use go_autorest.Sender.Bodies.{AllAre, Sends}
use go_autorest.Respond.Body.{Answer, Held, Ended, done, fails, panics}
use go_autorest.Respond.Azure.{Decoding}
use go_autorest.Registration.Requests.{UrlLibrary}
use go_autorest.Registration.Register.{
  Problem, Outcome, answered, refused, Client, Services, no_error, fails_with, panicked,
  out_of_fuel, Step,
}
use go_autorest.Registration.Retry.{
  Original, Reply, returned, retry_panics, no_fuel, Codecs, Again, after_register, after_decoding,
  code_of, decode, after_send, send_prepared, attempts, do_retry_with_registration,
}

module _ {W : Type 0} (lib : UrlLibrary) (codecs : Codecs) (services : Services W) (client : Client)
    (send : W → Bytes → Outcome × Bytes × W) (fuel : ℕ) (r : Original) where
  -- A reply with no error has a response: the status is not 409, or registration is skipped.
  pub data IsAnswered : Reply → Type 0 where
    passed :
        (a : Answer)
        → (not (a.status_code == 409) || client.skip_registration) ≡ true
        → IsAnswered (returned (some a) none)
    problem : (a : Option Answer) (e : Problem) → IsAnswered (returned a (some e))
    panic : IsAnswered retry_panics
    endless : IsAnswered no_fuel

  -- what the loop goes on to after a conflict
  abbrev Goes : Again lib codecs services client send fuel r → Type 0
  Goes k = (a : Option Answer) (e : Problem) (s : Sending W) → IsAnswered (k a (some e) s).0

  after_register-IsAnswered :
      (a : Option Answer) (re : Decoding) (s : Sending W)
      (x : Step lib codecs.state codecs.decoders services client)
      (k : Again lib codecs services client send fuel r)
      → Goes k
      → IsAnswered (after_register lib codecs services client send fuel r a re s x k).0
  after_register-IsAnswered a re s (no_error, state, w) k h = h a _ _
  after_register-IsAnswered a re s (fails_with e, state, w) k h = problem a _
  after_register-IsAnswered a re s (panicked, state, w) k h = panic
  after_register-IsAnswered a re s (out_of_fuel, state, w) k h = endless

  after_decoding-IsAnswered :
      (x : Ended × Held Decoding) (s : Sending W) (k : Again lib codecs services client send fuel r)
      → Goes k
      → IsAnswered (after_decoding lib codecs services client send fuel r x s k).0
  unfolding after_decoding
  after_decoding-IsAnswered (fails e, x) s k h = problem _ _
  after_decoding-IsAnswered (panics, x) s k h = panic
  after_decoding-IsAnswered (done, x) s k h =
      if-intro (λ (o : Reply × Sending W). IsAnswered o.0)
        (str_eq (code_of x.value.service_error) "MissingSubscriptionRegistration")
        (λ _. after_register-IsAnswered (some x.answer) x.value s _ k h)
        (λ _. h (some x.answer) _ s)

  after_send-IsAnswered :
      (o : Outcome) (s : Sending W) (k : Again lib codecs services client send fuel r)
      → Goes k
      → IsAnswered (after_send lib codecs services client send fuel r o s k).0
  unfolding after_send
  after_send-IsAnswered (refused a e) s k h = problem a _
  after_send-IsAnswered (answered a) s k h =
      if-intro (λ (o : Reply × Sending W). IsAnswered o.0)
        (not (a.status_code == 409) || client.skip_registration) (λ c. passed a c)
        (λ _. after_decoding-IsAnswered (decode lib codecs services client send fuel r a) s k h)

  send_prepared-IsAnswered :
      (x : Option String × RetriableRequest) (last : Option Answer) (s : Sending W)
      (k : Again lib codecs services client send fuel r)
      → Goes k
      → IsAnswered (send_prepared lib codecs services client send fuel r x last s k).0
  unfolding send_prepared
  send_prepared-IsAnswered (some e, rr) last s k h = problem last _
  send_prepared-IsAnswered (none, rr) last s k h =
      let (o, left, w) = send s.world (readable_body rr) in after_send-IsAnswered o _ k h

  attempts-IsAnswered : (n : ℕ) → Goes (attempts lib codecs services client send fuel r n)
  unfolding attempts
  attempts-IsAnswered zero a e s = problem a e
  attempts-IsAnswered (suc n) a e s =
      send_prepared-IsAnswered (prepare s.request) a s
        (attempts lib codecs services client send fuel r n) (attempts-IsAnswered n)

  -- With a positive number of attempts, `DoRetryWithRegistration` returns no error only together
  -- with a response whose status is not 409, unless the client skips the registration.
  pub retry-IsAnswered :
      (n : ℕ) (s : Sending W)
      → client.retry_attempts ≡ suc n
      → IsAnswered (do_retry_with_registration lib codecs services client send fuel r s).0
  unfolding do_retry_with_registration attempts
  retry-IsAnswered n s e =
      subst (λ m. IsAnswered (attempts lib codecs services client send fuel r m none none s).0)
        (sym e)
        (send_prepared-IsAnswered (prepare s.request) none s
          (attempts lib codecs services client send fuel r n) (attempts-IsAnswered n))

  module _ (b : Bytes) where
    -- however the loop goes on, the bodies that it sends are `b`
    abbrev Keeps : Again lib codecs services client send fuel r → Type 0
    Keeps k =
        (a : Option Answer) (e : Option Problem) (s : Sending W) → Sends b s → Sends b (k a e s).1

    after_register-Sends :
        (a : Option Answer) (re : Decoding) (s : Sending W)
        (x : Step lib codecs.state codecs.decoders services client)
        (k : Again lib codecs services client send fuel r)
        → Keeps k
        → Sends b s
        → Sends b (after_register lib codecs services client send fuel r a re s x k).1
    after_register-Sends a re s (no_error, state, w) k h g =
        h a _ _ (record { resends = g.resends; all_are = g.all_are })
    after_register-Sends a re s (fails_with e, state, w) k h g = record {
      resends = g.resends;
      all_are = g.all_are;
    }
    after_register-Sends a re s (panicked, state, w) k h g = record {
      resends = g.resends;
      all_are = g.all_are;
    }
    after_register-Sends a re s (out_of_fuel, state, w) k h g = record {
      resends = g.resends;
      all_are = g.all_are;
    }

    after_decoding-Sends :
        (x : Ended × Held Decoding) (s : Sending W)
        (k : Again lib codecs services client send fuel r)
        → Keeps k
        → Sends b s
        → Sends b (after_decoding lib codecs services client send fuel r x s k).1
    unfolding after_decoding
    after_decoding-Sends (fails e, x) s k h g = g
    after_decoding-Sends (panics, x) s k h g = g
    after_decoding-Sends (done, x) s k h g =
        if-intro (λ (o : Reply × Sending W). Sends b o.1)
          (str_eq (code_of x.value.service_error) "MissingSubscriptionRegistration")
          (λ _. after_register-Sends (some x.answer) x.value s _ k h g)
          (λ _. h (some x.answer) _ s g)

    after_send-Sends :
        (o : Outcome) (s : Sending W) (k : Again lib codecs services client send fuel r)
        → Keeps k
        → Sends b s
        → Sends b (after_send lib codecs services client send fuel r o s k).1
    unfolding after_send
    after_send-Sends (refused a e) s k h g = g
    after_send-Sends (answered a) s k h g =
        if-intro (λ (o : Reply × Sending W). Sends b o.1)
          (not (a.status_code == 409) || client.skip_registration) (λ _. g)
          (λ _. after_decoding-Sends (decode lib codecs services client send fuel r a) s k h g)

    send_prepared-Sends :
        (x : Option String × RetriableRequest) (last : Option Answer) (s : Sending W)
        (k : Again lib codecs services client send fuel r)
        → Keeps k
        → Ready b x
        → AllAre b s.sent
        → Sends b (send_prepared lib codecs services client send fuel r x last s k).1
    unfolding send_prepared
    send_prepared-Sends (some e, rr) last s k h ready all = cc (ready.no_failure)
    send_prepared-Sends (none, rr) last s k h ready all =
        let (o, left, w) = send s.world (readable_body rr) in
        after_send-Sends o _ k h
          (record { resends = ready.again left; all_are = (ready.reads, all) })

    attempts-Sends : (n : ℕ) → Keeps (attempts lib codecs services client send fuel r n)
    unfolding attempts
    attempts-Sends zero a e s g = g
    attempts-Sends (suc n) a e s g =
        send_prepared-Sends (prepare s.request) a s
          (attempts lib codecs services client send fuel r n) (attempts-Sends n)
          (prepare-Ready b s.request g.resends) g.all_are

    -- Let the request hold the body `b`, or a GetBody or a copy that gives it again, and let a
    -- positive ContentLength be the length of the body where there is no GetBody. Then every
    -- attempt of `DoRetryWithRegistration`, before and after a registration, sends that body,
    -- however much of it the sender reads.
    pub retry-Sends :
        (s : Sending W)
        → Sends b s
        → Sends b (do_retry_with_registration lib codecs services client send fuel r s).1
    unfolding do_retry_with_registration
    retry-Sends s g = attempts-Sends client.retry_attempts none none s g
