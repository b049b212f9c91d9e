-- ===== src/Tests/Mtp.antt =====
-- The MTP authority: an authorization, its token and the local consumption.
use inntris_x402_policy_adap.Base.{◌≡◌, ◌⊎◌, refl, true, false, none, some, List, [], ◌∷◌}
use inntris_x402_policy_adap.Base.Exec.{Result, ok, Exec, ◌>>=◌}
use inntris_x402_policy_adap.Core.Text.{
  identifier, canonical_amount, hash_text, utf8, base64url_text, sized,
}
use inntris_x402_policy_adap.Core.Time.{iso_text}
use inntris_x402_policy_adap.Core.Json.{hash_canonical, sha256_bytes}
use inntris_x402_policy_adap.Core.Reasons.{distinct_reasons}
use inntris_x402_policy_adap.Core.Action.{action_schema}
use inntris_x402_policy_adap.Core.Encoding.{hash_action}
use inntris_x402_policy_adap.Core.Decision.{signable_payload, decision_schema, fingerprint_payload}
use inntris_x402_policy_adap.Core.Signing.{create_signed_decision, calculate_decision_fingerprint}
use inntris_x402_policy_adap.Core.Replay.{ConsumeInput, ConsumeResult, consumed}
use inntris_x402_policy_adap.Policy.Provider.{rejection}
use inntris_x402_policy_adap.Core.Reasons.{approval_not_pending}
use inntris_x402_policy_adap.Mtp.Store.{
  Authorization, Authorizations, ConsumptionReceipt, first_consumption,
}
use inntris_x402_policy_adap.Mtp.Client
use inntris_x402_policy_adap.Mtp.Client.{MtpFault, MtpExternals, MtpClient, TokenResponse}
use inntris_x402_policy_adap.Mtp.Provider.{MtpOptions, memory_authority, mtp_consume}
use inntris_x402_policy_adap.Mtp.Uniqueness.{IsSound, IsFresh}
use inntris_x402_policy_adap.Mtp.Histories.{
  AuthorityCall, saves, claims, consumes, completes, after_authority_calls, authority_calls-IsSound,
  empty-IsSound,
}
use inntris_x402_policy_adap.Mtp.Proven.{IsProven, with_provider, mtp_consume-IsProven}
use inntris_x402_policy_adap.Mtp.Evidence.{IsEvidence, consume_token-IsEvidence, authorize-IsFresh}
use inntris_x402_policy_adap.Tests.Samples.{externals, or_default}
use inntris_x402_policy_adap.Tests.Actions.{paying, signer, hash}
use inntris_x402_policy_adap.Tests.Verifier.{decision}

abbrev State : Type 0
State = Unit {0} × Authorizations

abbrev node : MtpExternals
node = record {
  is_uuid = λ s. true;
  is_datetime = λ s. true;
  decode_hex = λ s. 1 ∷ [];
  base64_of_url = λ s. s;
}

abbrev approval : TokenResponse
approval = record {
  valid = true;
  verdict = some "approved";
  agent_id = some "agent";
  action_hash = some "hash";
  action_hash_matches = some true;
  consumption_audit_id = some "audit";
  consumption_status = some first_consumption;
  execution_ref = some "r1";
  sandbox = some false;
}

abbrev client : MtpClient State
client = record {
  agent_id = "agent";
  signer = signer;
  policy_hash = none;
  post_verify = λ r s. (
    ok (
      200,
      some (record {
        approval_token = "token";
        trust_score = 90;
        audit_id = "audit";
        timestamp = "now";
      }),
    ),
    s,
  );
  post_token = λ r s. (ok (200, some approval), s);
}

abbrev authorization : Authorization
authorization = record {
  decision_id = "d1";
  action_hash = hash;
  request = record {
    agent_id = "agent";
    payload = [];
    nonce = "nonce";
    timestamp = "now";
    signature = "signature";
    policy_hash = none;
  };
  mtp_action_hash = "hash";
  approval_token = "token";
  authorization_audit_id = "audit";
  authorized_at = "now";
  execution_ref = none;
  consumption_audit_id = none;
  consumption_status = none;
  completed_at = none;
}

abbrev receipt : ConsumptionReceipt
receipt = record { execution_ref = "r1"; audit_id = "audit"; status = first_consumption }

abbrev fresh : IsFresh authorization
fresh = record { unclaimed = refl; unconsumed = refl; incomplete = refl }

-- An execution from its authorization to its completion, and a second claim.
abbrev calls : List AuthorityCall
calls =
    saves authorization fresh
    ∷ claims "d1" hash "r1"
    ∷ consumes "d1" "r1" receipt
    ∷ completes "d1" "r1" "later"
    ∷ claims "d1" hash "r2"
    ∷ []

authority_calls-IsSound_example : IsSound (after_authority_calls externals calls [])
authority_calls-IsSound_example = authority_calls-IsSound externals calls [] empty-IsSound

token-consumed :
    Client.consume_token externals node client authorization "r1" (tt, []) ≡ (ok receipt, (tt, []))
unfolding Client.consume_token ◌>>=◌
token-consumed = refl

consume_token-IsEvidence_example :
    (r : TokenResponse) × (client.post_token
        (record {
          approval_token = authorization.approval_token;
          request = authorization.request;
          execution_ref = "r1";
        })
        (tt, [])
      ≡ (ok (200, some r), (tt, [])))
    × IsEvidence externals node client authorization "r1" r receipt
consume_token-IsEvidence_example =
    consume_token-IsEvidence externals node client authorization "r1" (tt, []) (tt, []) receipt
      token-consumed

abbrev authorised : Result MtpFault Authorization × State
authorised =
    Client.authorize externals node client (paying "20.00") decision "nonce" 1000000 (tt, [])

authorize-runs : authorised ≡ (ok (or_default authorised.0 authorization), (tt, []))
unfolding Client.authorize ◌>>=◌ externals hash_text sized action_schema identifier canonical_amount
    decision_schema base64url_text hash_action iso_text utf8 distinct_reasons hash_canonical
    create_signed_decision calculate_decision_fingerprint fingerprint_payload signable_payload
    sha256_bytes
authorize-runs = refl

authorize-IsFresh_example :
    (hash_action externals (paying "20.00") ≡ decision.action_hash)
    × ((or_default authorised.0 authorization).decision_id ≡ decision.decision_id)
    × ((or_default authorised.0 authorization).action_hash ≡ decision.action_hash)
    × IsFresh (or_default authorised.0 authorization)
authorize-IsFresh_example =
    authorize-IsFresh externals node client (paying "20.00") decision "nonce" 1000000 (tt, [])
      (tt, []) (or_default authorised.0 authorization) authorize-runs

abbrev consuming : ConsumeInput → Exec MtpFault State ConsumeResult
consuming i s = (
  ok (record {
    success = true;
    status = consumed;
    decision_id = i.decision_id;
    execution_ref = i.execution_ref;
    consumed_at = some 1000000;
    reason_code = none;
  }),
  s,
)

abbrev options : MtpOptions State
options = record {
  evaluate = λ a s. (ok decision, s);
  consume = consuming;
  issue_block = λ a r s. (ok decision, s);
  resolve_approval = none;
  resolve_with_action = λ i a s. (ok (rejection i.decision_id approval_not_pending), s);
  authorize = λ a d. Client.authorize externals node client a d "nonce" 1000000;
  consume_token = Client.consume_token externals node client;
  store = memory_authority externals;
}

abbrev first : ConsumeInput
first = record { decision_id = "d1"; action_hash = hash; execution_ref = "r1" }

mtp_consume-IsProven_example :
    ((t : State) × IsProven externals options first (tt, ("d1", authorization) ∷ []) t)
    ⊎ ((f g : ConsumeInput → Exec MtpFault State ConsumeResult)
        → mtp_consume externals
            (with_provider externals options f)
            first
            1000000
            (tt, ("d1", authorization) ∷ [])
          ≡ mtp_consume externals
              (with_provider externals options g)
              first
              1000000
              (tt, ("d1", authorization) ∷ []))
mtp_consume-IsProven_example =
    mtp_consume-IsProven externals options first 1000000 (tt, ("d1", authorization) ∷ [])

-- The run itself completes.
abbrev run : Result MtpFault ConsumeResult × State
run = mtp_consume externals options first 1000000 (tt, ("d1", authorization) ∷ [])
