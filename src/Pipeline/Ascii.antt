-- ===== src/Pipeline/Ascii.antt =====
-- The functions of `str` on texts of lower-case ASCII letters, digits, blanks and punctuation, for
-- concrete runs (src/dodeal_ai/units/structured_intelligence/pipeline.py).
use do_deal_ai.Prelude.{
  ℕ, suc, Bool, true, false, not, ◌&&◌, ◌||◌, List, [], ◌∷◌, String, leb, ◌==◌, if◌then◌else◌,
}
use Prim.Native.Char.{Char, code}
use do_deal_ai.Pipeline.Length.{Text, is_empty}

abbrev pub letters : String → ℕ
letters String.[] = 0
letters (String.◌∷◌ c s) = suc (letters s)

abbrev holds_char : String → Char → Bool
holds_char String.[] c = false
holds_char (String.◌∷◌ d s) c = code c == code d || holds_char s c

abbrev is_digit_char : Char → Bool
is_digit_char c = leb b'0' (code c) && leb (code c) b'9'

abbrev all_digits : String → Bool
all_digits String.[] = true
all_digits (String.◌∷◌ c s) = is_digit_char c && all_digits s

abbrev add_word : String → List String → List String
add_word w ws = if is_empty w then ws else w ∷ ws

-- The word that a text begins in, and the words after it.
abbrev pieces : String → String × List String
pieces String.[] = ("", [])
pieces (String.◌∷◌ c s) =
    let (w, ws) = pieces s in if code c == b' ' then ("", add_word w ws) else (String.◌∷◌ c w, ws)

abbrev strip_right : String → String → String
strip_right String.[] chars = ""
strip_right (String.◌∷◌ c s) chars =
    let rest = strip_right s chars in
    if is_empty rest && holds_char chars c then "" else String.◌∷◌ c rest

abbrev strip_left : String → String
strip_left String.[] = ""
strip_left (String.◌∷◌ c s) =
    let rest = strip_left s in if code c == b' ' then rest else String.◌∷◌ c s

abbrev pub ascii : Text
ascii = record {
  casefold = λ s. s;
  strip = λ s. strip_right (strip_left s) " ";
  split = λ s. let (w, ws) = pieces s in add_word w ws;
  rstrip = strip_right;
  len = letters;
  isdigit = λ s. not (is_empty s) && all_digits s;
  has_arabic = λ s. false;
}
