-- ===== src/Tests/Execution.antt =====
-- An execution store: a claim, a completion, and claims after them.
use inntris_x402_policy_adap.Base.{◌≡◌, ◌≢◌, refl, List, [], ◌∷◌, ℕ, if◌then◌else◌}
use inntris_x402_policy_adap.Base.Exec.{ok}
use inntris_x402_policy_adap.Base.Maps.{Map, get, set}
use inntris_x402_policy_adap.Execution.{
  Stored, claimed, completed, conflict, Binding, same_binding, claim, complete,
}
use inntris_x402_policy_adap.Execution.Once.{
  ClaimCall, claims, completes, after_calls, claim-once, complete-claim, same_binding-Decides,
}

abbrev one : Binding
one = record { binding_hash = "h"; execution_ref = "r" }

abbrev two : Binding
two = record { binding_hash = "h"; execution_ref = "s" }

abbrev calls : List (ClaimCall Binding ℕ)
calls = completes "k" two 5 ∷ claims "l" one ∷ completes "k" one 6 ∷ []

abbrev nothing : Map (Stored Binding ℕ)
nothing = []

claim-run : (claim same_binding "k" one nothing).0 ≡ claimed
unfolding claim get
claim-run = refl

claim-once_example :
    (claim same_binding "k" two
      (after_calls same_binding calls (claim same_binding "k" one nothing).1)).0
    ≢ claimed
claim-once_example =
    claim-once same_binding "k" one two nothing calls same_binding-Decides claim-run

abbrev begun : Map (Stored Binding ℕ)
begun = (claim same_binding "k" one nothing).1

complete-run : (complete same_binding "k" one 7 begun).0 ≡ ok tt
unfolding claim complete get set
complete-run = refl

complete-claim_example :
    (claim same_binding "k" one
      (after_calls same_binding calls (complete same_binding "k" one 7 begun).1)).0
    ≡ (if same_binding one one then completed one 7 else conflict)
complete-claim_example =
    complete-claim same_binding "k" one one 7 begun calls same_binding-Decides complete-run
