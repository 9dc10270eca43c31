-- ===== src/Adal/Waiting.antt =====
-- autorest/adal/devicetoken.go: how `WaitForUserCompletionWithContext` waits and ends.
use go_autorest.Prelude.{
  ℕ, zero, suc, ◌+◌, ◌*◌, ◌^◌, ◌<◌, ◌≡◌, refl, ◌⊎◌, inl, inr, Bool, true, false, Option, none, some,
  List, [], ◌∷◌, if-intro, arith, sym, subst,
}
use go_autorest.Adal.Types.{Token, wrap, longer, seconds}
use go_autorest.Adal.Device.{
  DeviceCode, authorization_pending, slow_down, slowed_too_much, canceled, Outcome, refused,
  DeviceEnv, check_for_user_completion, Polling, Waited, finished, out_of_fuel, after_pause,
  pause_for, after_check, poll_device, wait_for_user_completion, wait_by,
}

-- the outcomes but for the two that the loop goes on after
abbrev pub Stops : Outcome Token → Type 0
Stops (refused slow_down) = ⊥
Stops (refused authorization_pending) = ⊥
Stops o = Unit {0}

-- the duration to wait for after such an answer
abbrev Slower : ℕ → ℕ → Type 0
Slower d d' = (d' ≡ d) ⊎ (d' ≡ wrap (d + d))

abbrev pub AllAre : ℕ → List ℕ → Type 0
AllAre n [] = Unit {0}
AllAre n (d ∷ ds) = (d ≡ n) × AllAre n ds

-- The rule of the loop. `Inv` holds before a check, by the duration; `Final` holds where the
-- loop is left.
module _ {W : Type 0} (dev : DeviceEnv W) (interval : ℕ) (Inv : ℕ → Polling W → Type 0)
    (Final : Waited × Polling W → Type 0)
    (ends : (d : ℕ) (s : Polling W) → Inv d s → Final (out_of_fuel, s))
    (leaves : (d : ℕ) (s : Polling W) (o : Outcome Token) (w : W)
      → Inv d s
      → Stops o
      → Final (finished o, record { world = w; waited = s.waited }))
    (stops : (d d' : ℕ) (s : Polling W) (o : Outcome Token) (w : W)
      → Inv d s
      → Slower d d'
      → longer d' (wrap (interval * 3)) ≡ false
      → Stops o
      → Final (finished o, record { world = w; waited = d' ∷ s.waited }))
    (goes_on : (d d' : ℕ) (s : Polling W) (w : W)
      → Inv d s
      → Slower d d'
      → longer d' (wrap (interval * 3)) ≡ false
      → Inv d' (record { world = w; waited = d' ∷ s.waited })) where
  abbrev Leads : (ℕ → Polling W → Waited × Polling W) → Type 0
  Leads more = (d : ℕ) (s : Polling W) → Inv d s → Final (more d s)

  after_pause-Final :
      (d d' : ℕ) (more : ℕ → Polling W → Waited × Polling W) (s : Polling W) (v : W) (x : Bool × W)
      → Inv d s
      → Slower d d'
      → longer d' (wrap (interval * 3)) ≡ false
      → Leads more
      → Final (after_pause dev d' (more d') (record { world = v; waited = s.waited }) x)
  after_pause-Final d d' more s v (true, w) h sl l lead = lead d' _ (goes_on d d' s w h sl l)
  after_pause-Final d d' more s v (false, w) h sl l lead =
      stops d d' s (refused (canceled (dev.env.ctx_err w))) w h sl l tt

  pause_for-Final :
      (d d' : ℕ) (more : ℕ → Polling W → Waited × Polling W) (s : Polling W) (w : W)
      → Inv d s
      → Slower d d'
      → Leads more
      → Final (pause_for dev interval d' more (record { world = w; waited = s.waited }))
  pause_for-Final d d' more s w h sl lead =
      if-intro Final (longer d' (wrap (interval * 3)))
        (λ _. leaves d s (refused slowed_too_much) w h tt)
        (λ l. after_pause-Final d d' more s w (dev.env.wait w d') h sl l lead)

  after_check-Final :
      (d : ℕ) (more : ℕ → Polling W → Waited × Polling W) (s : Polling W) (x : Outcome Token × W)
      → Inv d s
      → Leads more
      → Final (after_check dev interval d more s.waited x)
  after_check-Final d more s (refused slow_down, w) h lead =
      pause_for-Final d (wrap (d + d)) more s w h (inr refl) lead
  after_check-Final d more s (refused authorization_pending, w) h lead =
      pause_for-Final d d more s w h (inl refl) lead
  after_check-Final d more s (o, w) h lead = leaves d s o w h tt

  poll_device-Final :
      (fuel : ℕ) (code : DeviceCode) (d : ℕ) (s : Polling W)
      → Inv d s
      → Final (poll_device dev fuel code interval d s)
  unfolding poll_device
  poll_device-Final zero code d s h = ends d s h
  poll_device-Final (suc k) code d s h =
      after_check-Final d (poll_device dev k code interval) s
        (check_for_user_completion dev code s.world) h (λ d' t. poll_device-Final k code d' t)

-- waits of the interval, and then waits of twice the interval; the latest stands first
pub data Paced (interval : ℕ) : List ℕ → Type 0 where
  none_yet : Paced interval []
  plain : {ds : List ℕ} → AllAre interval ds → Paced interval (interval ∷ ds)
  doubled : {ds : List ℕ} → Paced interval ds → Paced interval ((2 * interval) ∷ ds)

-- the duration and the waits so far
abbrev Pacing : ℕ → ℕ → List ℕ → Type 0
Pacing i d ds = ((d ≡ i) × AllAre i ds) ⊎ ((d ≡ 2 * i) × Paced i ds)

AllAre-Paced : (i : ℕ) (ds : List ℕ) → AllAre i ds → Paced i ds
AllAre-Paced i [] h = none_yet
AllAre-Paced i (d ∷ ds) (e, h) = rw e (plain h)

Pacing-Paced : (i d : ℕ) (ds : List ℕ) → Pacing i d ds → Paced i ds
Pacing-Paced i d ds (inl (e, h)) = AllAre-Paced i ds h
Pacing-Paced i d ds (inr (e, h)) = h

-- three times the interval is below 2 ^ 63, so the durations do not wrap
Pacing-next :
    (i d d' : ℕ) (ds : List ℕ)
    → 0 < i
    → 4 * i < 2 ^ 63
    → Pacing i d ds
    → Slower d d'
    → longer d' (wrap (i * 3)) ≡ false
    → Pacing i d' (d' ∷ ds)
unfolding longer
Pacing-next i d d' ds positive small (inl (e, h)) (inl same) l = inl (omega arith, (omega arith, h))
Pacing-next i d d' ds positive small (inl (e, h)) (inr twice) l =
    let x : d' ≡ 2 * i = omega arith in inr (x, rw x (doubled (AllAre-Paced i ds h)))
Pacing-next i d d' ds positive small (inr (e, h)) (inl same) l =
    let x : d' ≡ 2 * i = omega arith in inr (x, rw x (doubled h))
Pacing-next i d d' ds positive small (inr (e, h)) (inr twice) l =
    let x : d' ≡ 4 * i = omega arith in
    let y : longer d' (wrap (i * 3)) ≡ true = ground arith in absurd (cc)

-- a wait never ends by an error that the loop goes on after
abbrev pub Settles : Waited → Type 0
Settles out_of_fuel = Unit {0}
Settles (finished o) = Stops o

seconds-small : (n : ℕ) → 4000000000 * n < 2 ^ 63 → seconds n ≡ 1000000000 * n
unfolding seconds
seconds-small n small = omega arith

module _ {W : Type 0} (dev : DeviceEnv W) where
  poll_device-Paced :
      (fuel : ℕ) (code : DeviceCode) (w : W) (i : ℕ)
      → 0 < i
      → 4 * i < 2 ^ 63
      → Paced i (poll_device dev fuel code i i (record { world = w; waited = [] })).1.waited
  poll_device-Paced fuel code w i positive small =
      poll_device-Final dev i (λ d s. Pacing i d s.waited) (λ x. Paced i x.1.waited)
        (λ d s h. Pacing-Paced i d s.waited h) (λ d s o v h st. Pacing-Paced i d s.waited h)
        (λ d d' s o v h sl l st.
          Pacing-Paced i d' (d' ∷ s.waited) (Pacing-next i d d' s.waited positive small h sl l))
        (λ d d' s v h sl l. Pacing-next i d d' s.waited positive small h sl l) fuel code i
        (record { world = w; waited = [] }) (inl (refl, tt))

  -- Let the interval be of at least a second and below 2 ^ 63 / 4 nanoseconds. However often
  -- `WaitForUserCompletionWithContext` asks, it waits for the interval each time, or for the
  -- interval up to some time and for twice the interval after it: of the server's demands to slow
  -- down it follows at most one.
  pub waits-Paced :
      (fuel : ℕ) (code : DeviceCode) (w : W) (n : ℕ)
      → code.interval ≡ some n
      → 0 < n
      → 4000000000 * n < 2 ^ 63
      → Paced (1000000000 * n) (wait_for_user_completion dev fuel code w).1.waited
  unfolding wait_for_user_completion
  waits-Paced fuel code w n interval positive small =
      subst (λ o. Paced (1000000000 * n) (wait_by dev o fuel code w).1.waited) (sym interval)
        (rw (seconds-small n small)
          (poll_device-Paced fuel code w (1000000000 * n) (omega arith) (omega arith)))

  poll_device-Settles :
      (fuel : ℕ) (code : DeviceCode) (i : ℕ) (s : Polling W)
      → Settles (poll_device dev fuel code i i s).0
  poll_device-Settles fuel code i s =
      poll_device-Final dev i (λ d s. Unit {0}) (λ x. Settles x.0) (λ d s h. tt)
        (λ d s o v h st. st) (λ d d' s o v h sl l st. st) (λ d d' s v h sl l. tt) fuel code i s tt

  wait_by-Settles :
      (o : Option ℕ) (fuel : ℕ) (code : DeviceCode) (w : W) → Settles (wait_by dev o fuel code w).0
  wait_by-Settles none fuel code w = tt
  wait_by-Settles (some n) fuel code w =
      poll_device-Settles fuel code (seconds n) (record { world = w; waited = [] })

  -- `WaitForUserCompletionWithContext` never returns the error of a pending authorization, nor
  -- that of a demand to slow down.
  pub wait-Settles :
      (fuel : ℕ) (code : DeviceCode) (w : W) → Settles (wait_for_user_completion dev fuel code w).0
  unfolding wait_for_user_completion
  wait-Settles fuel code w = wait_by-Settles code.interval fuel code w
