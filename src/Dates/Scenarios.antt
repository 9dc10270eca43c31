-- ===== src/Dates/Scenarios.antt =====
-- Runs of the binary form of dates.
use go_autorest.Prelude.{◌≡◌, refl, [], ◌∷◌, ◌++◌, inl, inr, negsuc, arith}
use go_autorest.Dates.{marshal_binary, unmarshal_binary, duration, put_bytes}
use go_autorest.Dates.Binary.{unmarshal-marshal}

-- a second before the epoch
second_before : marshal_binary (negsuc 999999999) ≡ 0 ∷ 54 ∷ 101 ∷ 196 ∷ 255 ∷ 255 ∷ 255 ∷ 255 ∷ []
unfolding marshal_binary duration put_bytes
second_before = refl

too_short : unmarshal_binary (1 ∷ 2 ∷ []) ≡ inl "unexpected EOF"
unfolding unmarshal_binary
too_short = refl

unmarshal-marshal_example :
    unmarshal_binary (marshal_binary (negsuc 999999999) ++ 7 ∷ []) ≡ inr (negsuc 999999999)
unmarshal-marshal_example = unmarshal-marshal (negsuc 999999999) (7 ∷ []) (omega arith)
