-- ===== src/Senders/Ending.antt =====
-- autorest/sender.go: when the polls of `DoPollForStatusCodes` come to an end.
use go_autorest.Prelude.{
  ℕ, zero, suc, ◌+◌, ◌≤◌, ◌<◌, Bool, true, false, List, ◌≡◌, ◌≢◌, refl, ℤ, arith, if-intro,
}
use go_autorest.Http.{Request}
use go_autorest.Errors.{Reply}
use go_autorest.Result.{Result, ok, err, panic}
use go_autorest.Senders.{
  Library, Sender, Sent, replied, sent_panic, out_of_fuel, do_poll_for_status_codes, poll_loop,
  polls, after_delay, elapsed, poll_from, go_on, begin_polls, polling_request,
}

abbrev Ends : {W : Type 0} → Sent × W → Type 0
Ends o = o.0 ≢ out_of_fuel

go_on-Ends :
    {W : Type 0} (f : Reply → W → Sent × W) (o : Sent × W)
    → Ends o
    → ((r : Reply) (w : W) → o ≡ (replied r, w) → Ends (f r w))
    → Ends (go_on f o)
go_on-Ends f (replied r, w) h k = k r w refl
go_on-Ends f (sent_panic, w) h k = h
go_on-Ends f (out_of_fuel, w) h k = h

-- `left` bounds how often the sender will still answer with one of the codes.
module _ {W : Type 0} (codes : List ℕ) (wait : W → ℕ → Bool × W) (lib : Library) (delay : ℤ)
    (s : Sender W) (left : W → ℕ) (waits : (w : W) (d : ℕ) → left (wait w d).1 ≤ left w)
    (ends : (req : Request) (w : W) → (s req w).0 ≢ out_of_fuel)
    (fewer : (req : Request) (w w' : W) (r : Reply)
      → s req w ≡ (replied r, w')
      → polls codes r ≡ true
      → left w' < left w) where
  elapsed-Ends : (req : Request) (o : Bool × W) → Ends (elapsed wait s req o)
  elapsed-Ends req (true, w) = ends req w
  elapsed-Ends req (false, w) = λ e. cc

  elapsed_fewer :
      (req : Request) (n : ℕ) (o : Bool × W) (r : Reply) (w' : W)
      → left o.1 ≤ n
      → elapsed wait s req o ≡ (replied r, w')
      → polls codes r ≡ true
      → left w' < n
  elapsed_fewer req n (true, w) r w' h e p = omega (arith, fewer req w w' r e p)
  elapsed_fewer req n (false, w) r w' h e p = absurd (grind arith)

  poll_loop-Ends :
      (fuel : ℕ) (req : Request) (r : Reply) (w : W)
      → 0 < fuel
      → (polls codes r ≡ true → left w + 1 < fuel)
      → Ends (poll_loop wait lib delay codes s fuel req r w)
  unfolding poll_loop after_delay
  poll_loop-Ends zero req r w h k = absurd (omega arith)
  poll_loop-Ends (suc fuel) req r w h k =
      if-intro Ends (polls codes r)
        (λ e.
          let o = wait w _ in
          go_on-Ends (poll_loop wait lib delay codes s fuel req) (elapsed wait s req o)
            (elapsed-Ends req o)
            (λ r' w' same.
              poll_loop-Ends fuel req r' w' (omega (arith, k e))
                (λ p. omega (arith, k e, elapsed_fewer req (left w) o r' w' (waits w _) same p))))
        (λ e q. cc)

  begin_polls-Ends :
      (fuel : ℕ) (r : Reply) (req : Result Request) (w : W)
      → left w + 1 < fuel
      → Ends (begin_polls wait lib delay codes s fuel r req w)
  begin_polls-Ends fuel r (ok req) w h = poll_loop-Ends fuel req r w (omega arith) (λ _. h)
  begin_polls-Ends fuel r (err e) w h = λ q. cc
  begin_polls-Ends fuel r panic w h = λ q. cc

  poll_from-Ends :
      (fuel : ℕ) (r : Reply) (w : W)
      → (polls codes r ≡ true → left w + 1 < fuel)
      → Ends (poll_from wait lib delay codes s fuel r w)
  unfolding poll_from
  poll_from-Ends fuel r w h =
      if-intro Ends (polls codes r)
        (λ e. begin_polls-Ends fuel r (polling_request wait lib delay codes s r.answer) w (h e))
        (λ e q. cc)

  -- Let the sender end at every request, and let a number of the world bound how often it will
  -- still answer with one of the codes: a wait does not raise it, and each such answer lowers it.
  -- Then `DoPollForStatusCodes` ends, with more fuel than that number.
  pub poll_ends :
      (fuel : ℕ) (req : Request) (w : W)
      → left w < fuel
      → (do_poll_for_status_codes wait lib delay codes s fuel req w).0 ≢ out_of_fuel
  unfolding do_poll_for_status_codes
  poll_ends fuel req w h =
      go_on-Ends (poll_from wait lib delay codes s fuel) (s req w) (ends req w)
        (λ r w' same. poll_from-Ends fuel r w' (λ p. omega (arith, fewer req w w' r same p)))
