-- ===== src/Lib.antt =====
-- Verification of the Inntris x402 policy adapter.
--
-- A payment action is evaluated against a policy; the verdict becomes a signed decision; an adapter
-- verifies the decision offline and consumes it once before money moves. The program's parts:
--
--   Core       packages/decision-core. Core/Text and Core/Action, Core/Decision are the zod schemas
--              of src/schemas.ts as tests and records; Core/Encoding is the JSON that is hashed
--              (src/canonical.ts); Core/Signing is src/signing.ts and src/decision.ts; Core/Replay is
--              the InMemoryNonceStore of src/provider.ts; Core/Time is `toISOString`.
--   Policy     packages/policy-engine. Policy/Document is src/policy.ts, Policy/Window and
--              Policy/Evaluate are src/evaluate.ts, Policy/Stores is the store interfaces of
--              src/decision-store.ts, src/state-store.ts and src/evaluate.ts with the in-memory
--              classes, Policy/Provider is LocalPolicyDecisionProvider of src/local-provider.ts.
--              Policy/Permits, Policy/Screening and Policy/Verdicts say what a verdict means;
--              Policy/Provider/History, Calls, Approvals and Execution are about sequences of calls,
--              Policy/Provider/Issue and Outcome about what is signed, and Policy/Provider/Spending
--              about the spend that a consumption counts.
--   Verifier   packages/decision-verifier/src/verify.ts. Verifier/Keys and Verifier/Laws say what a
--              valid answer means, Verifier/Issued links it to the issue of decisions,
--              Verifier/Envelope compares the two verifying functions.
--   Reconciliation  packages/execution-reconciliation. Reconciliation/Types is src/types.ts,
--              Reconciliation/Store is the in-memory store of src/store.ts; Reconciliation/Steps is the
--              step relation of an operation, Evolution and Methods show that each method follows it,
--              Histories is about sequences of calls.
--   Adapter    packages/x402-adapter. Adapter/Binding is src/binding.ts, Adapter/Guard is
--              InntrisX402Guard of src/guard.ts, whose `settle` is an argument; settleIfAuthorised is
--              split at the call of `settle`. Adapter/Guard/Authorise says when
--              authorise returns, Adapter/Guard/Settlement when `settle` is called, and
--              Adapter/Guard/Once that it is called once over the in-memory reconciliation store.
--   Execution  what the gates share: the execution store with its in-memory classes (src/store.ts of
--              packages/wallet-signing-gate, packages/a2a-settlement-gate, packages/ap2-runtime-gate),
--              the errors of a gate, the consumption of a decision and the claim of an execution.
--              Execution/Once is about any calls on a store, Execution/Attempt about calls that do not
--              complete an attempt, Execution/Admission about steps that return.
--              Execution/Receipt is src/receipt.ts of the A2A and the AP2 gate, over what a kind of
--              receipt says; Execution/Issued is about a receipt's own verification.
--   Wallet     packages/wallet-signing-gate. Wallet/Types is src/types.ts, Wallet/Binding src/binding.ts,
--              Wallet/Verification src/verification.ts, Wallet/Gate src/gate.ts, whose signAndBroadcast
--              is split at the call of the wallet. Wallet/Cleared and Wallet/Signing say what a run has
--              done, Wallet/Once that the wallet signs a transaction once, Wallet/Exact what an accepted
--              signature is of.
--   A2a        packages/a2a-settlement-gate. A2a/Types is src/types.ts, A2a/Gate is src/gate.ts over the
--              guard of Adapter, whose `process` is split at the call of the delegate. A2a/Settled is
--              about the input and the settlement's evidence, A2a/Delegation about what a run has done
--              when it calls the delegate, A2a/Once about the store.
--   Ap2        packages/ap2-runtime-gate. Ap2/Types is src/types.ts, Ap2/Binding src/binding.ts, Ap2/Gate
--              src/gate.ts and the receipt of src/receipt.ts; `process` is split at the call of the
--              delegate. Ap2/Verified is about the mandates' verification, Ap2/Delegation about what a
--              run has done when it calls the delegate, Ap2/Bounds about its age, Ap2/Once, Ap2/Outcome
--              and Ap2/Completion about the store.
--   Mtp        packages/mtp-authority. Mtp/Store is src/store.ts and src/types.ts, Mtp/Client is
--              src/client.ts, Mtp/Provider is MtpCompositeDecisionProvider of src/provider.ts, whose
--              `consume` is split at the call of the local provider. Mtp/Uniqueness and Mtp/Histories
--              are about any calls on the store, Mtp/Evidence about the client, Mtp/Proven about
--              `consume`.
--   Base       the helpers: Boolean tests, lists, maps with string keys, calls with errors and state
--              (Exec), and relations between the states around a call (Keeps).
--   Tests      the theorems at concrete inputs, with simple functions for the parameters.
--
-- How the code corresponds to the definitions. An async method is a function from its input and the
-- state to a result and a state; what was written before a throw stays written. Names are those of
-- the code in snake case. The name of a settlement's error is cut at 128 code points, where the code
-- counts UTF-16 units. Readings of the clock, of `randomUUID` and of `randomNonce` are arguments.
-- A history is a sequence of calls, each of which runs to its end; the methods of the in-memory
-- classes, which do not await between reading and writing, are such steps in the code too, while two
-- calls on the provider may interleave between its awaits, which is not modelled.
--
-- Conventions. A timestamp is its millisecond since the epoch, from 1970 on. Fields whose schema is
-- one literal (`version`, `action_type`, `alg`) are not stored. An input of type `unknown` is an
-- Option, with none for a value that is not of the expected shape. A JSON number is its numeral.
-- Amounts are natural numbers of 10^-18 units behind the parameter `Decimals`.
--
-- Parameters, for code that the packages call and do not contain: canonicalize (RFC 8785), SHA-256,
-- base64url, Ed25519 (tweetnacl), zod's URL test (`Externals`); decimal.js, whose `plus` rounds to its
-- precision, and the parts of `Intl.DateTimeFormat` (`Platform`); the schemas of @x402/core
-- (`X402Schemas`); the functions of viem (`Viem`); zod's tests of UUIDs and timestamps and Node's
-- conversions of texts (`MtpExternals`); the signer (`SigningProvider`). The services of a gate (wallet,
-- broadcaster, settlement provider, official verifier, trust provider, delegate, the authority's two
-- HTTP posts) are fields of its options or arguments, and may change the state. The policy hash is a
-- field of the provider, which the constructor computes once. Verifier/Issued and Execution/Issued ask
-- of a signer that its signatures check under its key; the theorems about a gate over its in-memory
-- store ask of the services that they leave the store alone.
--
-- No loop of these parts needs fuel: every function is by recursion on its argument.
--
-- Not modelled: the metrics, which change no state; the command lines, YAML and file reading; the
-- PostgreSQL stores (SQL), of which the provider's atomic branch appears as the interface `Stores`;
-- the protocol of the AP2 verifier's Python process (a parameter); the URL tests of the MTP client's
-- constructor; the gate for KYA, the managed signer, the Pulse evaluator, the conformance suites, the
-- demo service and the scripts. A delegate's result is JSON or nothing.
pub mod Base
pub mod Core
pub mod Policy
pub mod Verifier
pub mod Reconciliation
pub mod Adapter
pub mod Execution
pub mod Wallet
pub mod A2a
pub mod Ap2
pub mod Mtp
pub mod Tests
