-- ===== src/Preparers/Templates/Pieces.antt =====
-- Templates as texts between names in braces, and what putting in a parameter does to them.
use Prim.Native.Char.{Char, char, code}
use Prim.Native.String.{◌++◌}
use text.Mathlib.TextLemmas.{nil-append, cons-append, append_assoc}
use text.Mathlib.TextEquality.{Char-path}
use go_autorest.Prelude.{
  ℕ, zero, String, Bool, true, false, not, ◌&&◌, ◌==◌, ◌≡◌, ◌≢◌, refl, sym, ap, subst, ◌∙◌, List,
  [], ◌∷◌, map, if◌then◌else◌, arith, str_eq, eq_iff, Bool-cases, inl, inr,
}
use go_autorest.SharedKey.Sorting.{has_prefix}
use go_autorest.Preparers.Text.{text_length, replacing, replace_all, braced}

pub data Piece : Type 0 where
  lit : String → Piece
  slot : String → Piece

abbrev pub print_piece : Piece → String
print_piece (lit s) = s
print_piece (slot k) = braced k

abbrev pub print : List Piece → String
print [] = ""
print (x ∷ xs) = print_piece x ++ print xs

-- a text without braces
unfoldable pub is_plain : String → Bool
is_plain String.[] = true
is_plain (String.◌∷◌ c s) = not (code c == b'{') && (not (code c == b'}') && is_plain s)

-- one character is passed, unless the old text begins there
passes :
    (old new : String) (c : Char) (s : String)
    → has_prefix (String.◌∷◌ c s) old ≡ false
    → replacing old new zero (String.◌∷◌ c s) ≡ String.◌∷◌ c (replacing old new zero s)
unfolding replacing
passes old new c s e = rw e refl

no_prefix :
    (b c : Char) (old s : String)
    → (code c == code b) ≡ false
    → has_prefix (String.◌∷◌ c s) (String.◌∷◌ b old) ≡ false
unfolding has_prefix
no_prefix b c old s e = rw e refl

-- a text without braces is passed, if the old text begins with one
replacing-plain :
    (b : Char) (old new a rest : String)
    → code b ≡ b'{'
    → is_plain a ≡ true
    → replacing (String.◌∷◌ b old) new zero (a ++ rest)
      ≡ a ++ replacing (String.◌∷◌ b old) new zero rest
unfolding is_plain
replacing-plain b old new String.[] rest brace e = rw (nil-append rest) (sym (nil-append _))
replacing-plain b old new (String.◌∷◌ c a) rest brace e = rw (cons-append c a rest) (
    passes (String.◌∷◌ b old) new c (a ++ rest)
      (no_prefix b c old (a ++ rest) (rw brace (ground arith)))
    ∙ ap (λ t. String.◌∷◌ c t) (replacing-plain b old new a rest brace (ground arith))
    ∙ sym (cons-append c a _))

-- an occurrence is skipped
replacing-skips :
    (old new a rest : String)
    → replacing old new (text_length a) (a ++ rest) ≡ replacing old new zero rest
unfolding replacing
replacing-skips old new String.[] rest = rw (nil-append rest) refl
replacing-skips old new (String.◌∷◌ c a) rest =
    rw (cons-append c a rest) (replacing-skips old new a rest)

eq_self : (n : ℕ) → (n == n) ≡ true
eq_self n = ground arith

pub has_prefix-append : (a rest : String) → has_prefix (a ++ rest) a ≡ true
unfolding has_prefix
has_prefix-append String.[] rest = refl
has_prefix-append (String.◌∷◌ c a) rest =
    rw (cons-append c a rest) (rw (eq_self (code c)) (has_prefix-append a rest))

-- an occurrence at the start is replaced
replaces :
    (b : Char) (old new rest : String)
    → replacing (String.◌∷◌ b old) new zero (String.◌∷◌ b (old ++ rest))
      ≡ new ++ replacing (String.◌∷◌ b old) new zero rest
unfolding replacing has_prefix
replaces b old new rest = rw (eq_self (code b)) (
    rw (has_prefix-append old rest)
      (ap (λ t. new ++ t) (replacing-skips (String.◌∷◌ b old) new old rest)))

same_char : (c d : Char) → (code c == code d) ≡ true → c ≡ d
same_char c d e = Char-path c d (ground arith)

-- another name is no prefix
other_name :
    (j k rest : String)
    → is_plain j ≡ true
    → is_plain k ≡ true
    → j ≢ k
    → has_prefix (j ++ ("}" ++ rest)) (k ++ "}") ≡ false
unfolding is_plain has_prefix
other_name String.[] String.[] rest p q ne = absurd (ne refl)
other_name String.[] (String.◌∷◌ d k) rest p q ne =
    rw (nil-append ("}" ++ rest))
      (rw (cons-append _ "" rest) (rw (cons-append d k "}") ground arith))
other_name (String.◌∷◌ c j) String.[] rest p q ne =
    rw (nil-append "}") (rw (cons-append c j ("}" ++ rest)) (ground arith))
other_name (String.◌∷◌ c j) (String.◌∷◌ d k) rest p q ne = rw (cons-append c j ("}" ++ rest)) (
    rw (cons-append d k "}") (elim (Bool-cases (code c == code d)) [
      | inl e ↦ rw e (
          other_name j k rest (ground arith) (ground arith)
            (λ h. ne (ap (λ x. String.◌∷◌ x j) (same_char c d e) ∙ ap (λ t. String.◌∷◌ d t) h)))
      | inr e ↦ rw e refl
    ]))

-- putting in one parameter, and all of them, one after the other
abbrev pub fill_one : String → String → Piece → Piece
fill_one k v (lit s) = lit s
fill_one k v (slot j) = if str_eq k j then lit v else slot j

abbrev pub IsPlain : Piece → Type 0
IsPlain (lit s) = is_plain s ≡ true
IsPlain (slot k) = is_plain k ≡ true

abbrev opening : Char
opening = char b'{' tt

abbrev closing : Char
closing = char b'}' tt

braced-cons : (k : String) → braced k ≡ String.◌∷◌ opening (k ++ "}")
braced-cons k =
    cons-append opening "" (k ++ "}") ∙ ap (λ t. String.◌∷◌ opening t) (nil-append (k ++ "}"))

braced-append : (k rest : String) → braced k ++ rest ≡ String.◌∷◌ opening (k ++ ("}" ++ rest))
braced-append k rest =
    ap (λ t. t ++ rest) (braced-cons k)
    ∙ cons-append opening (k ++ "}") rest
    ∙ ap (λ t. String.◌∷◌ opening t) (append_assoc k "}" rest)

contradiction : (b : Bool) → b ≡ true → b ≢ false
contradiction b e f = absurd (cc)

module _ (k v rest : String) where
  -- the text after the occurrences in the rest are replaced
  abbrev done : String
  done = replacing (String.◌∷◌ opening (k ++ "}")) v zero rest

  passes_closing : replacing (String.◌∷◌ opening (k ++ "}")) v zero ("}" ++ rest) ≡ "}" ++ done
  passes_closing = rw (cons-append closing "" rest) (
      rw (nil-append rest) (
        passes (String.◌∷◌ opening (k ++ "}")) v closing rest
          (no_prefix opening closing (k ++ "}") rest refl)
        ∙ ap (λ t. String.◌∷◌ closing t) (sym (nil-append done))
        ∙ sym (cons-append closing "" done)))

  passes_slot :
      (j : String)
      → is_plain j ≡ true
      → is_plain k ≡ true
      → j ≢ k
      → replacing (String.◌∷◌ opening (k ++ "}")) v zero (braced j ++ rest) ≡ braced j ++ done
  unfolding has_prefix
  passes_slot j q p ne = rw (braced-append j rest) (
      passes (String.◌∷◌ opening (k ++ "}")) v opening (j ++ ("}" ++ rest))
        (other_name j k rest q p ne)
      ∙ ap (λ t. String.◌∷◌ opening t)
          (replacing-plain opening (k ++ "}") v j ("}" ++ rest) refl q
            ∙ ap (λ t. j ++ t) passes_closing)
      ∙ sym (braced-append j done))

  replaces_slot : replacing (String.◌∷◌ opening (k ++ "}")) v zero (braced k ++ rest) ≡ v ++ done
  replaces_slot =
      subst (λ t. replacing (String.◌∷◌ opening (k ++ "}")) v zero t ≡ v ++ done)
        (sym (ap (λ t. t ++ rest) (braced-cons k) ∙ cons-append opening (k ++ "}") rest))
        (replaces opening (k ++ "}") v rest)

  piece_replaced :
      (x : Piece)
      → is_plain k ≡ true
      → IsPlain x
      → replacing (String.◌∷◌ opening (k ++ "}")) v zero (print_piece x ++ rest)
        ≡ print_piece (fill_one k v x) ++ done
  piece_replaced (lit s) p q = replacing-plain opening (k ++ "}") v s rest refl q
  piece_replaced (slot j) p q = elim (Bool-cases (str_eq k j)) [
    | inl e ↦ rw e (
        subst (λ i. replacing (String.◌∷◌ opening (k ++ "}")) v zero (braced i ++ rest) ≡ v ++ done)
          ((eq_iff k j).0 e) replaces_slot)
    | inr e ↦ rw e (passes_slot j q p (λ h. contradiction (str_eq k j) ((eq_iff k j).1 (sym h)) e))
  ]

abbrev pub AllPlain : List Piece → Type 0
AllPlain [] = Unit {0}
AllPlain (x ∷ xs) = IsPlain x × AllPlain xs

replacing-print :
    (k v : String) (xs : List Piece)
    → is_plain k ≡ true
    → AllPlain xs
    → replacing (String.◌∷◌ opening (k ++ "}")) v zero (print xs) ≡ print (map (fill_one k v) xs)
unfolding replacing
replacing-print k v [] p h = refl
replacing-print k v (x ∷ xs) p (q, h) =
    piece_replaced k v (print xs) x p q
    ∙ ap (λ t. print_piece (fill_one k v x) ++ t) (replacing-print k v xs p h)

-- Putting in one parameter for every name that it has in a template without other braces.
pub replace_all-print :
    (k v : String) (xs : List Piece)
    → is_plain k ≡ true
    → AllPlain xs
    → replace_all (print xs) (braced k) v ≡ print (map (fill_one k v) xs)
replace_all-print k v xs p h =
    subst (λ old. replacing old v zero (print xs) ≡ print (map (fill_one k v) xs))
      (sym (braced-cons k)) (replacing-print k v xs p h)
