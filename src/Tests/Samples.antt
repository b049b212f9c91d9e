-- ===== src/Tests/Samples.antt =====
-- Simple functions for the code that packages/decision-core and packages/policy-engine call.
use Prim.Native.String.{◌++◌ as join}
use inntris_x402_policy_adap.Base.{
  ℕ, zero, suc, ◌+◌, ◌-◌, ◌*◌, ◌/◌, ◌%◌, ◌^◌, String, Bool, true, false, ◌&&◌, Option, none, some,
  List, [], ◌∷◌, ltb, ◌==◌, if◌then◌else◌,
}
use inntris_x402_policy_adap.Base.Exec.{Result, ok, err}
use inntris_x402_policy_adap.Core.Text.{codes, before_dot, after_dot}
use inntris_x402_policy_adap.Core.Time.{digit}
use inntris_x402_policy_adap.Core.Json.{
  Json, null, bool, num, str, arr, obj, Items, nil, cons, Fields, end, field, Externals,
}
use inntris_x402_policy_adap.Policy.Evaluate.{Platform}

mutual
  print : Json → String
  print null = "null"
  print (bool true) = "true"
  print (bool false) = "false"
  print (num s) = s
  print (str s) = join "\"" (join s "\"")
  print (arr l) = join "[" (print_items l)
  print (obj f) = join "{" (print_fields f)

  print_items : Items → String
  print_items nil = "]"
  print_items (cons v l) = join (print v) (join "," (print_items l))

  print_fields : Fields → String
  print_fields end = "}"
  print_fields (field k v f) = join k (join ":" (join (print v) (join "," (print_fields f))))

abbrev pub repeat_text : ℕ → String → String
repeat_text zero s = ""
repeat_text (suc n) s = join s (repeat_text n s)

abbrev pub repeat_byte : ℕ → ℕ → List ℕ
repeat_byte zero b = []
repeat_byte (suc n) b = b ∷ repeat_byte n b

abbrev sum : List ℕ → ℕ
sum [] = 0
sum (b ∷ l) = b + sum l

-- Sixty-four digits that depend on the bytes.
abbrev pub is_even : List ℕ → Bool
is_even l = sum l % 2 == 0

abbrev pub checksum : List ℕ → String
checksum l = repeat_text 64 (if is_even l then "a" else "b")

abbrev pub same_bytes : List ℕ → List ℕ → Bool
same_bytes [] [] = true
same_bytes (a ∷ l) (b ∷ m) = a == b && same_bytes l m
same_bytes _ _ = false

-- A byte below ten as one digit.
abbrev pub to_digits : List ℕ → String
to_digits [] = ""
to_digits (b ∷ l) = join (digit b) (to_digits l)

abbrev pub from_digits : List ℕ → List ℕ
from_digits [] = []
from_digits (c ∷ l) = (c - b'0') ∷ from_digits l

abbrev pub toy_sign : List ℕ → List ℕ → List ℕ
toy_sign seed payload = (if is_even payload then 1 else 2) ∷ 0 ∷ repeat_byte 62 3

abbrev starts : List ℕ → List ℕ → Bool
starts [] s = true
starts (p ∷ ps) [] = false
starts (p ∷ ps) (c ∷ s) = p == c && starts ps s

unfoldable pub externals : Externals
unfolding print print_items print_fields digit
externals = record {
  canonicalise = print;
  sha256_hex = checksum;
  is_url = λ s. starts (codes "https://") (codes s);
  base64url_encode = to_digits;
  base64url_decode = λ s. from_digits (codes s);
  ed25519_sign = toy_sign;
  ed25519_verify = λ payload bytes key. same_bytes bytes (toy_sign key payload);
}

abbrev value_of : ℕ → List ℕ → ℕ
value_of acc [] = acc
value_of acc (c ∷ s) = value_of (acc * 10 + (c - b'0')) s

abbrev fraction_of : ℕ → List ℕ → ℕ
fraction_of scale [] = 0
fraction_of scale (c ∷ s) = (c - b'0') * (scale / 10) + fraction_of (scale / 10) s

abbrev part_of : Option (List ℕ) → ℕ
part_of none = 0
part_of (some s) = fraction_of (10 ^ 18) s

abbrev units : String → ℕ
units s = value_of 0 (before_dot (codes s)) * 10 ^ 18 + part_of (after_dot (codes s))

abbrev numeral : ℕ → ℕ → String
numeral zero n = ""
numeral (suc w) n = if ltb n 10 then digit n else join (numeral w (n / 10)) (digit (n % 10))

abbrev cents : ℕ → String
cents n = join (digit (n / 10 % 10)) (digit (n % 10))

-- Exact decimals, printed with two places; Wednesday 10:30 UTC at every instant.
unfoldable pub platform : Platform
unfolding before_dot after_dot digit
platform = record {
  decimals = record {
    units = units;
    plus = λ a b. a + b;
    to_fixed = λ n. join (numeral 20 (n / 10 ^ 18)) (join "." (cents (n / 10 ^ 16)));
  };
  date_parts = λ at zone. record {
    weekday = "Wed";
    year = "2026";
    month = "07";
    day = "15";
    hour = "10";
    minute = "30";
  };
}

abbrev pub or_default : {E A : Type 0} → Result E A → A → A
or_default (ok a) d = a
or_default (err e) d = d
