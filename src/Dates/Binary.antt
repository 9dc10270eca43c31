-- ===== src/Dates/Binary.antt =====
-- autorest/date/unixtime.go: a time read from its binary form.
use go_autorest.Prelude.{
  ℕ, zero, suc, ◌-◌, ◌*◌, ◌/◌, ◌%◌, ◌<◌, ◌≡◌, refl, ap, ◌∙◌, false, List, ◌∷◌, ◌++◌, inr, pos,
  negsuc, ltb, length, take, if-intro, arith,
}
use go_autorest.Dates.{
  UnixTime, half, whole, saturated, duration, to_word, of_word, put_bytes, get_bytes,
  marshal_binary, unmarshal_binary, new_unix_time_from_nanoseconds, new_unix_time_from_duration,
}

-- the numbers of k bytes
abbrev room : ℕ → ℕ
room zero = 1
room (suc k) = 256 * room k

get_bytes-put_bytes : (k n : ℕ) → n < room k → get_bytes (put_bytes k n) ≡ n
unfolding get_bytes put_bytes
get_bytes-put_bytes zero n h = omega arith
get_bytes-put_bytes (suc k) n h =
    let ih = get_bytes-put_bytes k (n / 256) (omega arith) in omega arith

length-put_bytes : (k n : ℕ) (rest : List ℕ) → ltb (length (put_bytes k n ++ rest)) k ≡ false
unfolding put_bytes
length-put_bytes zero n rest = ground arith
length-put_bytes (suc k) n rest = let ih = length-put_bytes k (n / 256) rest in ground arith

take-put_bytes : (k n : ℕ) (rest : List ℕ) → take k (put_bytes k n ++ rest) ≡ put_bytes k n
unfolding put_bytes
take-put_bytes zero n rest = refl
take-put_bytes (suc k) n rest = ap (λ bs. n % 256 ∷ bs) (take-put_bytes k (n / 256) rest)

saturated-lt : (n : ℕ) → saturated n < half
saturated-lt n = ground arith

to_word-lt : (t : UnixTime) → to_word (duration t) < whole
unfolding duration
to_word-lt (pos n) = let h = saturated-lt n in omega arith
to_word-lt (negsuc n) = let h = saturated-lt n in omega arith

word_again : (m : ℕ) → m < half → whole - 1 - (whole - 1 - m) ≡ m
word_again m h = omega arith

of_word-low : (m : ℕ) → m < half → of_word m ≡ pos m
of_word-low m h = if-intro (λ t. t ≡ pos m) (ltb m half) (λ _. refl) (λ l. absurd (ground arith))

of_word-high : (m : ℕ) → m < half → of_word (whole - 1 - m) ≡ negsuc m
of_word-high m h =
    if-intro (λ t. t ≡ negsuc m) (ltb (whole - 1 - m) half) (λ l. absurd (ground arith))
      (λ _. ap (λ n. negsuc n) (word_again m h))

of_word-to_word : (t : UnixTime) → of_word (to_word (duration t)) ≡ duration t
unfolding duration
of_word-to_word (pos n) = of_word-low (saturated n) (saturated-lt n)
of_word-to_word (negsuc n) = of_word-high (saturated n) (saturated-lt n)

-- the nanoseconds have an int64
abbrev pub InRange : UnixTime → Type 0
InRange (pos n) = n < half
InRange (negsuc n) = n < half

duration_same : (t : UnixTime) → InRange t → duration t ≡ t
unfolding duration
duration_same (pos n) h = ap (λ m. pos m) (ground arith)
duration_same (negsuc n) h = ap (λ m. negsuc m) (ground arith)

unmarshal_reads :
    (t : UnixTime) (rest : List ℕ) → unmarshal_binary (marshal_binary t ++ rest) ≡ inr (duration t)
unfolding unmarshal_binary marshal_binary new_unix_time_from_nanoseconds new_unix_time_from_duration
unmarshal_reads t rest = rw (length-put_bytes 8 (to_word (duration t)) rest) (
    ap (λ bs. inr (of_word (get_bytes bs))) (take-put_bytes 8 (to_word (duration t)) rest)
    ∙ ap (λ w. inr (of_word w)) (get_bytes-put_bytes 8 (to_word (duration t)) (to_word-lt t))
    ∙ ap (λ d. inr d) (of_word-to_word t))

-- `UnmarshalBinary` reads the binary form of a time, whatever bytes follow it, as the same time, if
-- its nanoseconds from the epoch have an int64.
pub unmarshal-marshal :
    (t : UnixTime) (rest : List ℕ) → InRange t → unmarshal_binary (marshal_binary t ++ rest) ≡ inr t
unmarshal-marshal t rest h = unmarshal_reads t rest ∙ ap (λ d. inr d) (duration_same t h)
