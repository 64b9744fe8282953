-- ===== src/Client/Encoding.antt =====
-- `encodeURIComponent`: letters, digits and -_.!~*'() stand for themselves, any other character for
-- the bytes of its UTF-8 form.
use open_agent_hub.Prelude.{
  ℕ, zero, suc, ◌+◌, ◌/◌, ◌%◌, ◌≡◌, refl, arith, inl, inr, String, code, Bool, true, false, ◌&&◌,
  ◌||◌, not, if◌then◌else◌, List, [], ◌∷◌, leb, ltb, eqb, any_code, all, Bool-cases,
}
use Prim.Native.String.{◌++◌}
use text.Mathlib.TextLemmas.{nil-append, cons-append}

unfoldable pub is_unreserved : ℕ → Bool
is_unreserved c =
    (leb 65 c && leb c 90)
    || (leb 97 c && leb c 122)
    || (leb 48 c && leb c 57)
    || eqb c 45
    || eqb c 95
    || eqb c 46
    || eqb c 33
    || eqb c 126
    || (leb 39 c && leb c 42)

unfoldable pub utf8 : ℕ → List ℕ
utf8 c =
    if ltb c 128
    then c ∷ []
    else if ltb c 2048
    then (192 + c / 64) ∷ (128 + c % 64) ∷ []
    else if ltb c 65536
    then (224 + c / 4096) ∷ (128 + c / 64 % 64) ∷ (128 + c % 64) ∷ []
    else (240 + c / 262144) ∷ (128 + c / 4096 % 64) ∷ (128 + c / 64 % 64) ∷ (128 + c % 64) ∷ []

-- the element at a place, or "" behind the end
unfoldable pub nth_text : ℕ → List String → String
nth_text n [] = ""
nth_text zero (x ∷ xs) = x
nth_text (suc n) (x ∷ xs) = nth_text n xs

abbrev pub hex_digits : List String
hex_digits =
    "0" ∷ "1" ∷ "2" ∷ "3" ∷ "4" ∷ "5" ∷ "6" ∷ "7" ∷ "8" ∷ "9" ∷ "A" ∷ "B" ∷ "C" ∷ "D" ∷ "E" ∷ "F"
    ∷ []

unfoldable pub percent_byte : ℕ → String
percent_byte b = "%" ++ (nth_text (b / 16) hex_digits ++ nth_text (b % 16) hex_digits)

unfoldable pub percent_bytes : List ℕ → String
percent_bytes [] = ""
percent_bytes (b ∷ bs) = percent_byte b ++ percent_bytes bs

unfoldable pub encode_uri_component : String → String
encode_uri_component String.[] = ""
encode_uri_component (String.◌∷◌ c s) =
    let rest = encode_uri_component s in
    if is_unreserved (code c) then String.◌∷◌ c rest else percent_bytes (utf8 (code c)) ++ rest

module _ (p : ℕ → Bool) where
  any_code-append :
      (s t : String) → any_code p s ≡ false → any_code p t ≡ false → any_code p (s ++ t) ≡ false
  any_code-append String.[] t h k = rw (nil-append t) k
  any_code-append (String.◌∷◌ c s) t h k =
      let ih = any_code-append s t in rw (cons-append c s t) (ground (arith, ih))

  -- none of the digits passes the test
  abbrev Clean : List String → Type 0
  Clean xs = all (λ x. not (any_code p x)) xs ≡ true

  nth_text-Clean : (n : ℕ) (xs : List String) → Clean xs → any_code p (nth_text n xs) ≡ false
  unfolding nth_text
  nth_text-Clean n [] h = refl
  nth_text-Clean zero (x ∷ xs) h = ground arith
  nth_text-Clean (suc n) (x ∷ xs) h = let ih = nth_text-Clean n xs in ground (arith, ih)

  module _ (percent : any_code p "%" ≡ false) (digits : Clean hex_digits)
      (plain : (c : ℕ) → is_unreserved c ≡ true → p c ≡ false) where
    percent_bytes-clean : (bs : List ℕ) → any_code p (percent_bytes bs) ≡ false
    unfolding percent_bytes percent_byte
    percent_bytes-clean [] = refl
    percent_bytes-clean (b ∷ bs) =
        let high = nth_text-Clean (b / 16) hex_digits digits in
        let low = nth_text-Clean (b % 16) hex_digits digits in
        any_code-append _ (percent_bytes bs)
          (any_code-append "%" _ percent (
            any_code-append (nth_text (b / 16) hex_digits) (nth_text (b % 16) hex_digits) high low))
          (percent_bytes-clean bs)

    encode-clean : (s : String) → any_code p (encode_uri_component s) ≡ false
    unfolding encode_uri_component
    encode-clean String.[] = refl
    encode-clean (String.◌∷◌ c s) = elim (Bool-cases (is_unreserved (code c))) [
      | inl e ↦ rw e (rw (plain (code c) e) (encode-clean s))
      | inr e ↦ rw e (
          any_code-append (percent_bytes (utf8 (code c))) _ (percent_bytes-clean (utf8 (code c)))
            (encode-clean s))
    ]

-- a slash, a question mark or a number sign
abbrev pub ends_segment : ℕ → Bool
ends_segment c = eqb c 47 || eqb c 63 || eqb c 35

segment_plain : (c : ℕ) → is_unreserved c ≡ true → ends_segment c ≡ false
unfolding is_unreserved
segment_plain c h = ground arith

-- No character of an encoded text ends a segment of a path.
pub encode_uri_component_segment :
    (s : String) → any_code ends_segment (encode_uri_component s) ≡ false
encode_uri_component_segment s = encode-clean ends_segment refl refl segment_plain s
