-- ===== src/Adal/Ending.antt =====
-- autorest/adal/devicetoken.go: when `WaitForUserCompletionWithContext` ends.
use go_autorest.Prelude.{
  ℕ, zero, suc, ◌+◌, ◌*◌, ◌<◌, ◌≡◌, ◌≢◌, refl, inl, inr, Bool, true, false, Option, none, some,
  List, [], arith, Bool-cases,
}
use go_autorest.Adal.Waiting.{Stops}
use go_autorest.Adal.Types.{Token, wrap, longer, seconds}
use go_autorest.Adal.Device.{
  DeviceCode, authorization_pending, slow_down, Outcome, refused, DeviceEnv,
  check_for_user_completion, Polling, Waited, out_of_fuel, after_pause, pause_for, after_check,
  poll_device, wait_for_user_completion, wait_by,
}

module _ {W : Type 0} (dev : DeviceEnv W) where
  -- What is left of the times that the server may answer that the user has not completed the
  -- flow, or that it is asked too often.
  module _ (code : DeviceCode) (left : W → ℕ)
      (drops : (w : W) (d : ℕ)
        → let x = check_for_user_completion dev code w in
          ¬ Stops x.0 → left (dev.env.wait x.1 d).1 < left w) where
    -- two loops that go on in the same way from each state of less than n left
    abbrev Same :
        ℕ → (ℕ → Polling W → Waited × Polling W) → (ℕ → Polling W → Waited × Polling W) → Type 0
    Same n more more' =
        (d : ℕ) (s : Polling W)
        → left s.world < n
        → (more d s ≡ more' d s) × ((more d s).0 ≢ out_of_fuel)

    after_pause-Same :
        (d n : ℕ) (more more' : ℕ → Polling W → Waited × Polling W) (s : Polling W) (x : Bool × W)
        → left x.1 < n
        → Same n more more'
        → (after_pause dev d (more d) s x ≡ after_pause dev d (more' d) s x)
          × ((after_pause dev d (more d) s x).0 ≢ out_of_fuel)
    after_pause-Same d n more more' s (true, w) l same = same d _ l
    after_pause-Same d n more more' s (false, w) l same = (refl, λ e. cc)

    pause_for-Same :
        (i d n : ℕ) (more more' : ℕ → Polling W → Waited × Polling W) (s : Polling W)
        → left (dev.env.wait s.world d).1 < n
        → Same n more more'
        → (pause_for dev i d more s ≡ pause_for dev i d more' s)
          × ((pause_for dev i d more s).0 ≢ out_of_fuel)
    pause_for-Same i d n more more' s l same = elim (Bool-cases (longer d (wrap (i * 3)))) [
      | inl e ↦ rw e (refl, λ q. cc)
      | inr e ↦ rw e (after_pause-Same d n more more' s (dev.env.wait s.world d) l same)
    ]

    after_check-Same :
        (i d n : ℕ) (more more' : ℕ → Polling W → Waited × Polling W) (ws : List ℕ)
        (x : Outcome Token × W)
        → ((d : ℕ) → ¬ Stops x.0 → left (dev.env.wait x.1 d).1 < n)
        → Same n more more'
        → (after_check dev i d more ws x ≡ after_check dev i d more' ws x)
          × ((after_check dev i d more ws x).0 ≢ out_of_fuel)
    after_check-Same i d n more more' ws (refused slow_down, w) l same =
        pause_for-Same i (wrap (d + d)) n more more' _ (l (wrap (d + d)) (λ q. q)) same
    after_check-Same i d n more more' ws (refused authorization_pending, w) l same =
        pause_for-Same i d n more more' _ (l d (λ q. q)) same
    after_check-Same i d n more more' ws (o, w) l same = (refl, λ q. cc)

    poll_device_same :
        (fuel fuel' i : ℕ) (d : ℕ) (s : Polling W)
        → left s.world < fuel
        → left s.world < fuel'
        → (poll_device dev fuel code i d s ≡ poll_device dev fuel' code i d s)
          × ((poll_device dev fuel code i d s).0 ≢ out_of_fuel)
    unfolding poll_device
    poll_device_same zero fuel' i d s l l' = absurd (omega arith)
    poll_device_same (suc k) zero i d s l l' = absurd (omega arith)
    poll_device_same (suc k) (suc k') i d s l l' =
        after_check-Same i d (left s.world) (poll_device dev k code i) (poll_device dev k' code i)
          s.waited (check_for_user_completion dev code s.world) (drops s.world)
          (λ e t q. poll_device_same k k' i e t (omega arith) (omega arith))

    wait_by_same :
        (o : Option ℕ) (fuel fuel' : ℕ) (w : W)
        → left w < fuel
        → left w < fuel'
        → (wait_by dev o fuel code w ≡ wait_by dev o fuel' code w)
          × ((wait_by dev o fuel code w).0 ≢ out_of_fuel)
    wait_by_same none fuel fuel' w l l' = (refl, λ q. cc)
    wait_by_same (some n) fuel fuel' w l l' =
        poll_device_same fuel fuel' (seconds n) (seconds n) (record { world = w; waited = [] }) l l'

  -- Let the server answer only so often that the user has not completed the flow, or that it is
  -- asked too often: what is left of these answers gets less over each that the loop goes on
  -- after. Then `WaitForUserCompletionWithContext` ends, within as many rounds as are left and one
  -- more, and with the same outcome and the same waits whatever fuel above that is given.
  pub device_wait_ends :
      (code : DeviceCode) (left : W → ℕ) (fuel fuel' : ℕ) (w : W)
      → ((v : W) (d : ℕ)
          → let x = check_for_user_completion dev code v in
            ¬ Stops x.0 → left (dev.env.wait x.1 d).1 < left v)
      → left w < fuel
      → left w < fuel'
      → (wait_for_user_completion dev fuel code w ≡ wait_for_user_completion dev fuel' code w)
        × ((wait_for_user_completion dev fuel code w).0 ≢ out_of_fuel)
  unfolding wait_for_user_completion
  device_wait_ends code left fuel fuel' w drops l l' =
      wait_by_same code left drops code.interval fuel fuel' w l l'
