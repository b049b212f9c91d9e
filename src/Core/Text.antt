-- ===== src/Core/Text.antt =====
-- The text formats of packages/decision-core/src/schemas.ts. A text is read as its code points.
use Prim.Native.Char.{Char, code}
use inntris_x402_policy_adap.Base.{
  ℕ, ◌+◌, ◌/◌, ◌%◌, String, ◌≡◌, refl, Bool, false, not, ◌&&◌, ◌||◌, Option, none, some, List, [],
  ◌∷◌, ltb, leb, ◌==◌, if◌then◌else◌, length, all,
}

abbrev pub codes : String → List ℕ
codes String.[] = []
codes (String.◌∷◌ c s) = code c ∷ codes s

-- `value.length`: a code point above 0xffff counts twice.
abbrev pub utf16_length : List ℕ → ℕ
utf16_length [] = 0
utf16_length (c ∷ s) = (if ltb 0xffff c then 2 else 1) + utf16_length s

-- `z.string().min(low).max(high)`
unfoldable pub sized : ℕ → ℕ → String → Bool
sized low high s = let n = utf16_length (codes s) in leb low n && leb n high

unfoldable pub identifier : String → Bool
unfolding sized
identifier s = sized 1 128 s

pub is_digit : ℕ → Bool
is_digit c = leb b'0' c && leb c b'9'

unfoldable pub is_lower_hex : ℕ → Bool
unfolding is_digit
is_lower_hex c = is_digit c || (leb b'a' c && leb c b'f')

is_base64url : ℕ → Bool
unfolding is_digit
is_base64url c =
    is_digit c || (leb b'a' c && leb c b'z') || (leb b'A' c && leb c b'Z') || c == b'-' || c == b'_'

-- What follows a prefix.
unfoldable pub strip_prefix : List ℕ → List ℕ → Option (List ℕ)
strip_prefix [] s = some s
strip_prefix (p ∷ ps) [] = none
strip_prefix (p ∷ ps) (c ∷ s) = if p == c then strip_prefix ps s else none

hex_after : ℕ → Option (List ℕ) → Bool
unfolding is_lower_hex
hex_after n none = false
hex_after n (some rest) = length rest == n && all is_lower_hex rest

unfoldable pub hash_text : String → Bool
unfolding strip_prefix hex_after
hash_text s = hex_after 64 (strip_prefix (codes "sha256:") (codes s))

unfoldable pub address_text : String → Bool
unfolding strip_prefix hex_after
address_text s = hex_after 40 (strip_prefix (codes "0x") (codes s))

unfoldable pub base64url_text : String → Bool
unfolding is_base64url
base64url_text s = let l = codes s in leb 1 (length l) && all is_base64url l

-- `/^[1-9]\d*$/`
unfoldable pub positive_digits : List ℕ → Bool
unfolding is_digit
positive_digits [] = false
positive_digits (c ∷ s) = leb b'1' c && leb c b'9' && all is_digit s

-- `/^(0|[1-9]\d*)$/`
unfoldable pub unsigned_digits : List ℕ → Bool
unfolding positive_digits
unsigned_digits (c ∷ []) = c == b'0' || positive_digits (c ∷ [])
unsigned_digits s = positive_digits s

-- `value.split(".")` at the first dot.
unfoldable pub before_dot : List ℕ → List ℕ
before_dot [] = []
before_dot (c ∷ s) = if c == b'.' then [] else c ∷ before_dot s

unfoldable pub after_dot : List ℕ → Option (List ℕ)
after_dot [] = none
after_dot (c ∷ s) = if c == b'.' then some s else after_dot s

-- `value.endsWith("0")`
pub ends_with_zero : List ℕ → Bool
ends_with_zero [] = false
ends_with_zero (c ∷ []) = c == b'0'
ends_with_zero (c ∷ d ∷ s) = ends_with_zero (d ∷ s)

pub fraction_digits : Option (List ℕ) → Bool
unfolding is_digit ends_with_zero
fraction_digits none = false
fraction_digits (some f) =
    leb 2 (length f)
    && leb (length f) 18
    && all is_digit f
    && (length f == 2 || not (ends_with_zero f))

-- `CanonicalAmountSchema`
unfoldable pub canonical_amount : String → Bool
unfolding unsigned_digits before_dot after_dot fraction_digits
canonical_amount s = unsigned_digits (before_dot (codes s)) && fraction_digits (after_dot (codes s))

-- `Buffer.from(value, "utf8")`
utf8_char : ℕ → List ℕ → List ℕ
utf8_char c rest =
    if ltb c 0x80
    then c ∷ rest
    else if ltb c 0x800
    then (0xc0 + c / 64) ∷ (0x80 + c % 64) ∷ rest
    else if ltb c 0x10000
    then (0xe0 + c / 4096) ∷ (0x80 + c / 64 % 64) ∷ (0x80 + c % 64) ∷ rest
    else (0xf0 + c / 262144)
      ∷ (0x80 + c / 4096 % 64)
      ∷ (0x80 + c / 64 % 64)
      ∷ (0x80 + c % 64)
      ∷ rest

unfoldable pub utf8 : List ℕ → List ℕ
unfolding utf8_char
utf8 [] = []
utf8 (c ∷ s) = utf8_char c (utf8 s)

-- `value.toLowerCase()` on ASCII: the letter of the second text at the place of the first.
abbrev lower_among : Char → String → String → Char
lower_among c (String.◌∷◌ u us) (String.◌∷◌ l ls) =
    if code u == code c then l else lower_among c us ls
lower_among c _ _ = c

unfoldable pub lower_text : String → String
lower_text String.[] = ""
lower_text (String.◌∷◌ c s) =
    String.◌∷◌ (lower_among c "ABCDEFGHIJKLMNOPQRSTUVWXYZ" "abcdefghijklmnopqrstuvwxyz")
      (lower_text s)

lower_text_known : lower_text "0xABCdef09Zz" ≡ "0xabcdef09zz"
unfolding lower_text
lower_text_known = refl
