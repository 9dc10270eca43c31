-- ===== src/Senders/Checked.antt =====
-- autorest/sender.go: what `DoErrorUnlessStatusCode` lets pass.
use go_autorest.Prelude.{ℕ, true, not, none, List, ◌≡◌, ap, arith}
use go_autorest.Http.{Request, response_has_status_code}
use go_autorest.Errors.{Reply}
use go_autorest.Senders.{
  Sender, Sent, replied, sent_panic, out_of_fuel, do_error_unless_status_code, and_test, tested,
}

unless_tested :
    (codes : List ℕ) (given r : Reply)
    → tested "DoErrorUnlessStatusCode" (λ resp. not (response_has_status_code resp codes)) given
      ≡ replied r
    → r.failure ≡ none
    → (given ≡ r) × (response_has_status_code r.answer codes ≡ true)
unless_tested codes given r e fine = (ground arith, ground arith)

module _ {W : Type 0} (codes : List ℕ) where
  unless_given :
      (given : Sent × W) (r : Reply) (w : W)
      → and_test "DoErrorUnlessStatusCode" (λ resp. not (response_has_status_code resp codes)) given
        ≡ (replied r, w)
      → r.failure ≡ none
      → (given ≡ (replied r, w)) × (response_has_status_code r.answer codes ≡ true)
  unless_given (replied g, v) r w e fine =
      let (same, has) = unless_tested codes g r (ap (λ o. o.0) e) fine in (cc, has)
  unless_given (sent_panic, v) r w e fine = absurd (cc)
  unless_given (out_of_fuel, v) r w e fine = absurd (cc)

  -- If `DoErrorUnlessStatusCode` lets a reply without an error pass, it is the reply that the
  -- sender gave, and its status is one of the codes.
  pub unless_passes :
      (s : Sender W) (req : Request) (w w' : W) (r : Reply)
      → do_error_unless_status_code codes s req w ≡ (replied r, w')
      → r.failure ≡ none
      → (s req w ≡ (replied r, w')) × (response_has_status_code r.answer codes ≡ true)
  unfolding do_error_unless_status_code
  unless_passes s req w w' r e fine = unless_given (s req w) r w' e fine
