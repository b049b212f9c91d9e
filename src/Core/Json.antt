-- ===== src/Core/Json.antt =====
-- JSON values, and the hash functions of packages/decision-core/src/canonical.ts over them.
use Prim.Native.String.{◌++◌}
use inntris_x402_policy_adap.Base.{
  ℕ, String, Bool, Option, none, some, List, [], ◌∷◌, str_eq, if◌then◌else◌,
}
use inntris_x402_policy_adap.Core.Text.{codes, utf8}

-- A number is kept as its numeral.
mutual
  pub data Json : Type 0 where
    null : Json
    bool : Bool → Json
    num : String → Json
    str : String → Json
    arr : Items → Json
    obj : Fields → Json

  pub data Items : Type 0 where
    nil : Items
    cons : Json → Items → Items

  pub data Fields : Type 0 where
    end : Fields
    field : String → Json → Fields → Fields

-- `fields[key]`
abbrev pub member : String → Fields → Option Json
member k end = none
member k (field j v rest) = if str_eq j k then some v else member k rest

-- A `Record<string, unknown>`, as the entries of an object.
abbrev pub fields_of : List (String × Json) → Fields
fields_of [] = end
fields_of ((k, v) ∷ m) = field k v (fields_of m)

abbrev pub texts : List String → Items
texts [] = nil
texts (s ∷ l) = cons (str s) (texts l)

abbrev pub nullable : Option String → Json
nullable none = null
nullable (some s) = str s

-- The code that the package calls and does not contain: `canonicalize` (RFC 8785), SHA-256 in
-- hexadecimal, the URL test of zod, base64url in both directions, and Ed25519 (tweetnacl).
pub record Externals : Type 0 where
  pub canonicalise : Json → String
  pub sha256_hex : List ℕ → String
  pub is_url : String → Bool
  pub base64url_encode : List ℕ → String
  pub base64url_decode : String → List ℕ
  pub ed25519_sign : List ℕ → List ℕ → List ℕ
  pub ed25519_verify : List ℕ → List ℕ → List ℕ → Bool

module _ (x : Externals) where
  -- `canonicalBytes`
  unfoldable pub canonical_bytes : Json → List ℕ
  canonical_bytes v = utf8 (codes (x.canonicalise v))

  -- `sha256Bytes`
  unfoldable pub sha256_bytes : List ℕ → String
  sha256_bytes b = "sha256:" ++ x.sha256_hex b

  -- `hashCanonical`
  unfoldable pub hash_canonical : Json → String
  unfolding canonical_bytes sha256_bytes
  hash_canonical v = sha256_bytes (canonical_bytes v)
