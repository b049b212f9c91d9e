-- ===== src/Adapter/Binding.antt =====
-- packages/x402-adapter/src/binding.ts. The schemas of @x402/core are tests; they change no field.
use Prim.Native.Char.{code}
use Prim.Native.String.{◌++◌}
use inntris_x402_policy_adap.Base.{
  ℕ, zero, suc, ◌+◌, ◌-◌, String, Bool, Option, none, some, List, [], ◌&&◌, ltb, leb, ◌==◌, str_eq,
  if◌then◌else◌,
}
use inntris_x402_policy_adap.Base.Exec.{Result, ok, bind, require}
use inntris_x402_policy_adap.Core.Text.{codes, unsigned_digits}
use inntris_x402_policy_adap.Core.Json.{
  Json, str, num, obj, end, field, fields_of, Externals, hash_canonical,
}
use inntris_x402_policy_adap.Core.Action.{Action, x402, x402_reference, action_schema}
use inntris_x402_policy_adap.Core.Signing.{Fault, type_error, parse, or_else}

pub record PaymentRequirements : Type 0 where
  pub scheme : String
  pub network : String
  pub asset : String
  pub amount : String
  pub pay_to : String
  pub max_timeout_seconds : String
  pub extra : Option (List (String × Json))

-- A payload is what it accepts and its other fields.
pub record PaymentPayload : Type 0 where
  pub accepted : PaymentRequirements
  pub others : List (String × Json)

-- `PaymentRequirementsV2Schema` and `PaymentPayloadV2Schema` of @x402/core.
pub record X402Schemas : Type 0 where
  pub is_requirements : PaymentRequirements → Bool
  pub is_payload : PaymentPayload → Bool

-- `X402BindingInput`
pub record BindingInput : Type 0 where
  pub payment_requirements : PaymentRequirements
  pub payment_payload : Option PaymentPayload
  pub resource : String
  pub principal_id : String
  pub agent_id : String
  pub purpose : String
  pub asset_decimals : ℕ
  pub extensions : Option (List (String × Json))

abbrev text_length : String → ℕ
text_length String.[] = 0
text_length (String.◌∷◌ c s) = suc (text_length s)

abbrev zeros : ℕ → String
zeros zero = ""
zeros (suc n) = String.◌∷◌ "0" (zeros n)

-- `s.slice(0, n)` and `s.slice(n)`
abbrev pub take_text : ℕ → String → String
take_text zero s = ""
take_text (suc n) String.[] = ""
take_text (suc n) (String.◌∷◌ c s) = String.◌∷◌ c (take_text n s)

abbrev pub drop_text : ℕ → String → String
drop_text zero s = s
drop_text (suc n) String.[] = ""
drop_text (suc n) (String.◌∷◌ c s) = drop_text n s

abbrev reverse_onto : String → String → String
reverse_onto String.[] acc = acc
reverse_onto (String.◌∷◌ c s) acc = reverse_onto s (String.◌∷◌ c acc)

-- The `while` loop on the fraction, which takes digits off its end, on the reversed text.
abbrev trimmed : String → String
trimmed String.[] = ""
trimmed (String.◌∷◌ c s) =
    if code c == b'0' && ltb 2 (text_length (String.◌∷◌ c s)) then trimmed s else String.◌∷◌ c s

-- `BigInt(whole).toString()`
abbrev without_zeros : String → String
without_zeros String.[] = "0"
without_zeros (String.◌∷◌ c String.[]) = String.◌∷◌ c String.[]
without_zeros (String.◌∷◌ c s) = if code c == b'0' then without_zeros s else String.◌∷◌ c s

abbrev pub decimal_text : String → ℕ → String
decimal_text amount decimals =
    let padded = zeros (decimals + 1 - text_length amount) ++ amount in
    let whole = take_text (text_length padded - decimals) padded in
    let raw = drop_text (text_length padded - decimals) padded in
    let fraction = reverse_onto (trimmed (reverse_onto raw "")) "" in
    without_zeros whole ++ "." ++ fraction ++ zeros (2 - text_length fraction)

unfoldable pub format_atomic_amount : String → ℕ → Result Fault String
format_atomic_amount amount decimals =
    bind (require (unsigned_digits (codes amount)) type_error)
      λ _. bind (require (leb decimals 18) type_error) λ _. ok (decimal_text amount decimals)

abbrev requirements_json : PaymentRequirements → Json
requirements_json r = obj (
    field "scheme" (str r.scheme) (
      field "network" (str r.network) (
        field "asset" (str r.asset) (
          field "amount" (str r.amount) (
            field "payTo" (str r.pay_to) (
              field "maxTimeoutSeconds" (num r.max_timeout_seconds)
                (field "extra" (obj (fields_of (or_else r.extra []))) end)))))))

abbrev payload_json : PaymentPayload → Json
payload_json p = obj (field "accepted" (requirements_json p.accepted) (fields_of p.others))

module _ (x : Externals) (q : X402Schemas) where
  unfoldable pub normalise_payment_requirements :
      PaymentRequirements → Result Fault PaymentRequirements
  normalise_payment_requirements r =
      bind (parse q.is_requirements r) λ p. ok (record p { extra = some (or_else p.extra []) })

  unfoldable pub normalise_payment_payload : PaymentPayload → Result Fault PaymentPayload
  unfolding normalise_payment_requirements
  normalise_payment_payload p = bind (parse q.is_payload p) λ parsed.
      bind (normalise_payment_requirements parsed.accepted)
        λ accepted. ok (record parsed { accepted = accepted })

  unfoldable pub payment_requirements_hash : PaymentRequirements → Result Fault String
  unfolding normalise_payment_requirements
  payment_requirements_hash r =
      bind (normalise_payment_requirements r) λ n. ok (hash_canonical x (requirements_json n))

  unfoldable pub payment_payload_hash : PaymentPayload → Result Fault String
  unfolding normalise_payment_payload
  payment_payload_hash p =
      bind (normalise_payment_payload p) λ n. ok (hash_canonical x (payload_json n))

  -- The payload, normalised, must be bound to the requirements; the result is its hash.
  unfoldable pub bound_payload :
      PaymentRequirements → Option PaymentPayload → Result Fault (Option String)
  unfolding payment_requirements_hash payment_payload_hash normalise_payment_payload
  bound_payload r none = ok none
  bound_payload r (some p) = bind (normalise_payment_payload p) λ payload.
      bind (payment_requirements_hash payload.accepted) λ a. bind (payment_requirements_hash r) λ b.
        bind (require (str_eq a b) type_error)
          λ _. bind (payment_payload_hash payload) λ h. ok (some h)

  -- `actionFromX402`
  unfoldable pub action_from_x402 : BindingInput → Result Fault Action
  unfolding bound_payload format_atomic_amount payment_requirements_hash
      normalise_payment_requirements
  action_from_x402 i = bind (normalise_payment_requirements i.payment_requirements) λ r.
      bind (bound_payload r i.payment_payload) λ payload.
        bind (format_atomic_amount r.amount i.asset_decimals) λ amount.
          bind (payment_requirements_hash r) λ requirements. parse (action_schema x) (record {
            principal_id = i.principal_id;
            agent_id = i.agent_id;
            rail = x402;
            transaction = record {
              amount = amount;
              asset = r.asset;
              network = r.network;
              payee = r.pay_to;
              purpose = i.purpose;
            };
            protocol_reference = x402_reference (record {
              resource = i.resource;
              scheme = r.scheme;
              payment_requirements_hash = requirements;
              payment_payload_hash = payload;
            });
            extensions = i.extensions;
          })
