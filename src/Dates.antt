-- ===== src/Dates.antt =====
-- autorest/date/unixtime.go: `UnixTime` and its binary form.
pub mod Binary
mod Scenarios
use go_autorest.Prelude.{
  ℕ, zero, suc, ◌+◌, ◌-◌, ◌*◌, ◌/◌, ◌%◌, String, List, [], ◌∷◌, ◌⊎◌, inl, inr, ℤ, pos, negsuc, ltb,
  length, take, if◌then◌else◌, ◌==◌,
}

-- the nanoseconds from the Unix epoch on
abbrev pub UnixTime : Type 0
UnixTime = ℤ

-- 2^63 and 2^64
abbrev pub half : ℕ
half = 9223372036854775808

abbrev pub whole : ℕ
whole = 18446744073709551616

abbrev pub saturated : ℕ → ℕ
saturated n = if ltb n half then n else half - 1

-- `Duration`: `Time.Sub` gives the maximum or the minimum duration where the result has no int64
unfoldable pub duration : UnixTime → ℤ
duration (pos n) = pos (saturated n)
duration (negsuc n) = negsuc (saturated n)

unfoldable pub new_unix_time_from_duration : ℤ → UnixTime
new_unix_time_from_duration d = d

unfoldable pub new_unix_time_from_nanoseconds : ℤ → UnixTime
unfolding new_unix_time_from_duration
new_unix_time_from_nanoseconds n = new_unix_time_from_duration n

-- an int64 as 64 bits, and back
abbrev pub to_word : ℤ → ℕ
to_word (pos n) = n
to_word (negsuc n) = whole - 1 - n

abbrev pub of_word : ℕ → ℤ
of_word w = if ltb w half then pos w else negsuc (whole - 1 - w)

-- binary.LittleEndian
unfoldable pub put_bytes : ℕ → ℕ → List ℕ
put_bytes zero n = []
put_bytes (suc k) n = n % 256 ∷ put_bytes k (n / 256)

unfoldable pub get_bytes : List ℕ → ℕ
get_bytes [] = 0
get_bytes (b ∷ bs) = b + 256 * get_bytes bs

-- `MarshalBinary`
unfoldable pub marshal_binary : UnixTime → List ℕ
unfolding duration put_bytes
marshal_binary t = put_bytes 8 (to_word (duration t))

-- `UnmarshalBinary`, which reads eight bytes: an error, or the time
unfoldable pub unmarshal_binary : List ℕ → String ⊎ UnixTime
unfolding new_unix_time_from_nanoseconds get_bytes
unmarshal_binary raw =
    if ltb (length raw) 8
    then inl (if length raw == 0 then "EOF" else "unexpected EOF")
    else inr (new_unix_time_from_nanoseconds (of_word (get_bytes (take 8 raw))))
