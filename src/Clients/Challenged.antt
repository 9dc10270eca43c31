-- ===== src/Clients/Challenged.antt =====
-- autorest/authorization.go: the bearer challenges that make `newBearerChallenge` panic.
use go_autorest.Prelude.{
  String, false, ◌||◌, ◌≡◌, ◌↔◌, refl, sym, ap, ◌∙◌, Option, Option-cases, Bool-cases, none, some,
  List, [], ◌∷◌, ◌⊎◌, inl, inr, str_eq, is_empty, if◌then◌else◌,
}
use go_autorest.Preparers.Text.{split_on, trim}
use go_autorest.Preparers.Outgoing.{Mapped}
use go_autorest.Clients.Authorizers.{
  Challenge, challenged, malformed, challenge_panics, drop_text, from_url, take_pair, take_pairs,
  challenge_of, new_bearer_challenge,
}
use go_autorest.Clients.Signed.{cons_not_empty}

module _ (trim_space : String → String) (path_of : String → String ⊎ String) where
  -- The value that a pair gives as the URI of the authorization, if it is such a pair.
  abbrev uri_of : List String → Option String
  uri_of (key ∷ value ∷ []) =
      if str_eq (trim b'"' key) "authorization" || str_eq (trim b'"' key) "authorization_uri"
      then some (trim b'"' value)
      else none
  uri_of parts = none

  -- The pairs after which `newBearerChallenge` panics: the first one with the URI of an
  -- authorization whose path is empty, where url.Parse accepts those of the pairs before it.
  pub data Unpathed : List String → Type 0 where
    here :
        (pair uri : String) (pairs : List String)
        → uri_of (split_on b'=' (trim_space pair)) ≡ some uri
        → path_of uri ≡ inr ""
        → Unpathed (pair ∷ pairs)
    other_pair :
        (pair : String) (pairs : List String)
        → uri_of (split_on b'=' (trim_space pair)) ≡ none
        → Unpathed pairs
        → Unpathed (pair ∷ pairs)
    pathed_pair :
        (pair uri path : String) (pairs : List String)
        → uri_of (split_on b'=' (trim_space pair)) ≡ some uri
        → path_of uri ≡ inr path
        → is_empty path ≡ false
        → Unpathed pairs
        → Unpathed (pair ∷ pairs)

  -- The headers that make it panic: those with less than the seven characters of "Bearer" and a
  -- space, and those with such pairs after them.
  pub data Breaks (header : String) : Type 0 where
    short : drop_text 7 (trim_space header) ≡ none → Breaks header
    unpathed :
        (text : String)
        → drop_text 7 (trim_space header) ≡ some text
        → Unpathed (split_on b',' text)
        → Breaks header

  abbrev go_on : List String → Challenge → Challenge
  go_on pairs c = elim c as (λ _. Challenge) [
    | challenged m ↦ take_pairs trim_space path_of pairs m
    | malformed e ↦ malformed e
    | challenge_panics ↦ challenge_panics
  ]

  take_pair-none :
      (parts : List String) (m : Mapped String)
      → uri_of parts ≡ none
      → (m' : Mapped String) × (take_pair trim_space path_of parts m ≡ challenged m')
  unfolding take_pair
  take_pair-none [] m h = (m, refl)
  take_pair-none (key ∷ []) m h = (m, refl)
  take_pair-none (key ∷ value ∷ []) m h =
      elim (Bool-cases
        (str_eq (trim b'"' key) "authorization" || str_eq (trim b'"' key) "authorization_uri")) [
          | inl e ↦ let k = rw e at h in absurd (cc)
          | inr e ↦ ((trim b'"' key, trim b'"' value) ∷ m, rw e refl)
        ]
  take_pair-none (key ∷ value ∷ more ∷ parts) m h = (m, refl)

  take_pair-some :
      (parts : List String) (m : Mapped String) (uri : String)
      → uri_of parts ≡ some uri
      → take_pair trim_space path_of parts m ≡ from_url trim_space path_of (path_of uri) m
  unfolding take_pair
  take_pair-some [] m uri h = absurd (cc)
  take_pair-some (key ∷ []) m uri h = absurd (cc)
  take_pair-some (key ∷ value ∷ []) m uri h =
      elim (Bool-cases
        (str_eq (trim b'"' key) "authorization" || str_eq (trim b'"' key) "authorization_uri")) [
          | inl e ↦
              let k = rw e at h in
              let same : trim b'"' value ≡ uri = cc in
              rw e (ap (λ u. from_url trim_space path_of (path_of u) m) same)
          | inr e ↦ let k = rw e at h in absurd (cc)
        ]
  take_pair-some (key ∷ value ∷ more ∷ parts) m uri h = absurd (cc)

  pathed-Unpathed :
      (pair uri : String) (pairs : List String) (m : Mapped String) (x : String ⊎ String)
      → uri_of (split_on b'=' (trim_space pair)) ≡ some uri
      → path_of uri ≡ x
      → ((m' : Mapped String)
          → take_pairs trim_space path_of pairs m' ≡ challenge_panics
          → Unpathed pairs)
      → go_on pairs (from_url trim_space path_of x m) ≡ challenge_panics
      → Unpathed (pair ∷ pairs)
  pathed-Unpathed pair uri pairs m (inl e) u p ih h = absurd (cc)
  pathed-Unpathed pair uri pairs m (inr String.[]) u p ih h = here pair uri pairs u p
  pathed-Unpathed pair uri pairs m (inr (String.◌∷◌ c s)) u p ih h =
      pathed_pair pair uri (String.◌∷◌ c s) pairs u p (cons_not_empty c s) (ih _ h)

  take_pairs-Unpathed :
      (pairs : List String) (m : Mapped String)
      → take_pairs trim_space path_of pairs m ≡ challenge_panics
      → Unpathed pairs
  unfolding take_pairs
  take_pairs-Unpathed [] m h = absurd (cc)
  take_pairs-Unpathed (pair ∷ pairs) m h =
      let parts = split_on b'=' (trim_space pair) in
      elim (Option-cases (uri_of parts)) [
        | inl e ↦
            let (m', same) = take_pair-none parts m e in
            other_pair pair pairs e (take_pairs-Unpathed pairs m' (ap (go_on pairs) (sym same) ∙ h))
        | inr (uri, e) ↦
            pathed-Unpathed pair uri pairs m (path_of uri) e refl (take_pairs-Unpathed pairs)
              (ap (go_on pairs) (sym (take_pair-some parts m uri e)) ∙ h)
      ]

  url-goes_on :
      (pairs : List String) (m : Mapped String) (path : String)
      → is_empty path ≡ false
      → ((m' : Mapped String) → take_pairs trim_space path_of pairs m' ≡ challenge_panics)
      → go_on pairs (from_url trim_space path_of (inr path) m) ≡ challenge_panics
  url-goes_on pairs m String.[] e h = absurd (cc)
  url-goes_on pairs m (String.◌∷◌ c s) e h = h _

  Unpathed-panics :
      (pairs : List String)
      → Unpathed pairs
      → (m : Mapped String) → take_pairs trim_space path_of pairs m ≡ challenge_panics
  unfolding take_pairs
  Unpathed-panics [] u m = elim u [ ]
  Unpathed-panics (pair ∷ pairs) (here _ uri _ e p) m = ap (go_on pairs) (
      take_pair-some (split_on b'=' (trim_space pair)) m uri e
      ∙ ap (λ x. from_url trim_space path_of x m) p)
  Unpathed-panics (pair ∷ pairs) (other_pair _ _ e u) m =
      let (m', same) = take_pair-none (split_on b'=' (trim_space pair)) m e in
      ap (go_on pairs) same ∙ Unpathed-panics pairs u m'
  Unpathed-panics (pair ∷ pairs) (pathed_pair _ uri path _ e p ne u) m =
      ap (go_on pairs) (
        take_pair-some (split_on b'=' (trim_space pair)) m uri e
        ∙ ap (λ x. from_url trim_space path_of x m) p)
      ∙ url-goes_on pairs m path ne (Unpathed-panics pairs u)

  challenge_of-Breaks :
      (header : String) (o : Option String)
      → drop_text 7 (trim_space header) ≡ o
      → challenge_of trim_space path_of o ≡ challenge_panics
      → Breaks header
  challenge_of-Breaks header none e h = short e
  challenge_of-Breaks header (some text) e h =
      unpathed text e (take_pairs-Unpathed (split_on b',' text) [] h)

  -- `newBearerChallenge` panics exactly on the headers that, trimmed, have less than the seven
  -- characters of "Bearer" and a space, and on those where a pair after these gives as the URI of
  -- the authorization a URL with an empty path, and no pair before it one that url.Parse refuses.
  -- On any other header it returns values or an error.
  pub challenge-Breaks :
      (header : String)
      → (new_bearer_challenge trim_space path_of header ≡ challenge_panics) ↔ Breaks header
  unfolding new_bearer_challenge
  challenge-Breaks header = (
    challenge_of-Breaks header (drop_text 7 (trim_space header)) refl,
    λ b. elim b [
      | short e ↦ rw e refl
      | unpathed text e u ↦ rw e (Unpathed-panics (split_on b',' text) u [])
    ],
  )
