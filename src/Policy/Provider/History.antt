-- ===== src/Policy/Provider/History.antt =====
-- What no call of the local provider undoes, over the in-memory stores.
use inntris_x402_policy_adap.Base.{
  ℕ, String, ◌≡◌, ◌≢◌, refl, sym, ap, ◌∙◌, Bool, true, not, Option, none, some, List, [], ◌∷◌,
  arith, Bool-cases, inl, inr, leb, str_eq, eq_iff, includes,
}
use inntris_x402_policy_adap.Base.Exec.{ok, Result-cases, lift, pure, ◌>>=◌, ◌>>◌}
use inntris_x402_policy_adap.Base.Maps.{get, get-set}
use inntris_x402_policy_adap.Base.Keeps.{
  IsOrder, Keeps, Keeps-bind, Keeps-if, Keeps-pure, Keeps-throw, Keeps-lift,
}
use inntris_x402_policy_adap.Core.Json.{Externals}
use inntris_x402_policy_adap.Core.Reasons.{
  ReasonCode, is_require_approval, is_allow, approval_not_pending, action_hash_mismatch,
  decision_expired, decision_not_allow,
}
use inntris_x402_policy_adap.Core.Action.{Action}
use inntris_x402_policy_adap.Core.Decision.{Decision}
use inntris_x402_policy_adap.Core.Signing.{
  Fault, Evaluation, Fresh, create_signed_decision, CreateDecisionInput, unsigned_decision, or_else,
}
use inntris_x402_policy_adap.Core.Signing.Facts.{create-IsSigned}
use inntris_x402_policy_adap.Core.Replay.{ConsumeInput, NonceConsumption}
use inntris_x402_policy_adap.Core.Replay.Once.{get-consume_nonce}
use inntris_x402_policy_adap.Policy.Evaluate.{
  Platform, LocalTime, evaluate_policy, screen, local_time_parts,
}
use inntris_x402_policy_adap.Policy.Stores.{
  StoredDecision, ApprovalClaim, claimed, already_claimed, RecordSpendInput, Stores, Memory,
  memory_stores, record_in_memory,
}
use inntris_x402_policy_adap.Policy.Provider.{
  Provider, sign_input, ResolveApprovalInput, sign, evaluate, issue_block, resolve_approval,
  resolve_pending, supersede, after_claim, consume, consume_stored, consume_once, replaced_subject,
  closes_at, is_consumed, rejection, refused, consumption_of, spend_of,
}

-- Claims and consumptions stay as they are, and so do the stored decisions under the ids in `Old`.
pub record Later (Old : String → Type 0) (m n : Memory) : Type 0 where
  pub claims :
      (id : String)
      → includes m.claimed_approvals id ≡ true
      → includes n.claimed_approvals id ≡ true
  pub consumptions :
      (k : String) (e : NonceConsumption)
      → get k m.consumptions ≡ some e
      → get k n.consumptions ≡ some e
  pub decisions : (id : String) → Old id → get id n.decisions ≡ get id m.decisions

pub Later-order : (Old : String → Type 0) → IsOrder (Later Old)
Later-order Old = record {
  same = λ s. record { claims = λ id h. h; consumptions = λ k e h. h; decisions = λ id o. refl };
  then_ = λ s t u a b. record {
    claims = λ id h. b.claims id (a.claims id h);
    consumptions = λ k e h. b.consumptions k e (a.consumptions k e h);
    decisions = λ id o. b.decisions id o ∙ a.decisions id o;
  };
}

module _ (x : Externals) (s : Platform) (p : Provider) (counts : Bool) (Old : String → Type 0) where
  abbrev pub stores : Stores Memory
  stores = memory_stores s.decimals counts

  save-Later :
      (r : StoredDecision)
      → ((id : String) → Old id → r.decision.decision_id ≢ id)
      → Keeps (Later Old) (stores.save r)
  unfolding memory_stores
  save-Later r new = record {
    at = λ m. record {
      claims = λ id h. h;
      consumptions = λ k e h. h;
      decisions = λ id o. ground (
        arith,
        get-set r.decision.decision_id id r m.decisions,
        eq_iff r.decision.decision_id id,
        new id o,
      );
    };
  }

  claim-Later : (id : String) → Keeps (Later Old) (stores.claim_approval id)
  unfolding memory_stores
  claim-Later id = record {
    at = λ m. elim (Bool-cases (includes m.claimed_approvals id)) [
      | inl e ↦ rw e ((Later-order Old).same m)
      | inr e ↦ rw e (record {
        claims = λ j h. rw h (ground arith);
        consumptions = λ k e' h. h;
        decisions = λ j o. refl;
      })
    ];
  }

  consume-Later : (c : NonceConsumption) → Keeps (Later Old) (stores.consume c)
  unfolding memory_stores
  consume-Later c = record {
    at = λ m. record {
      claims = λ id h. h;
      consumptions = λ k e h. get-consume_nonce k c e m.consumptions h;
      decisions = λ id o. refl;
    };
  }

  record_spend-Later : (i : RecordSpendInput) → Keeps (Later Old) (stores.record_spend i)
  unfolding memory_stores record_in_memory
  record_spend-Later i = record {
    at = λ m. elim (Bool-cases counts) [
      | inl e ↦
          rw e (record { claims = λ id h. h; consumptions = λ k e' h. h; decisions = λ id o. refl })
      | inr e ↦ rw e ((Later-order Old).same m)
    ];
  }

  daily_spend-Later :
      (principal day : String) → Keeps (Later Old) (stores.daily_spend principal day)
  unfolding memory_stores
  daily_spend-Later principal day = record { at = (Later-order Old).same }

  find-Later : (id : String) → Keeps (Later Old) (stores.find_decision id)
  unfolding memory_stores
  find-Later id = record { at = (Later-order Old).same }

  evaluate_policy-Later :
      (a : Action) (now : ℕ)
      → Keeps (Later Old) (evaluate_policy s stores.daily_spend a p.policy now)
  unfolding evaluate_policy
  evaluate_policy-Later a now = elim (Result-cases (screen s a p.policy now)) [
    | inl (r, q) ↦ rw (q, evaluate_policy) (Keeps-pure (Later-order Old) _)
    | inr (merchant, q) ↦
        rw (q, evaluate_policy)
          (Keeps-if (Later Old) _ _ _ (Keeps-pure (Later-order Old) _) (
            Keeps-bind (Later-order Old) _ _ (Keeps-lift (Later-order Old) _) λ (local : LocalTime).
              Keeps-bind (Later-order Old) _ _ (daily_spend-Later a.principal_id local.day_key)
                λ spent. Keeps-pure (Later-order Old) _))
  ]

  -- The id that a fresh decision gets is none of the old ones.
  abbrev pub IsNew : Fresh → Type 0
  IsNew fresh = (id : String) → Old id → fresh.uuid ≢ id

  created-new :
      (input : CreateDecisionInput) (fresh : Fresh)
      → IsNew fresh
      → (d : Decision) → create_signed_decision x input p.signer fresh ≡ ok d
      → input.decision_id ≡ none
      → (id : String) → Old id
      → d.decision_id ≢ id
  unfolding unsigned_decision
  created-new input fresh new d q none_given id o e =
      let made = create-IsSigned x input p.signer fresh d q in
      new id o (
        sym (ap (λ o. or_else o fresh.uuid) none_given)
        ∙ sym (ap (λ b. b.decision_id) made.1.body_is)
        ∙ e)

  saved-Later :
      (a : Action) (d : Decision)
      → ((id : String) → Old id → d.decision_id ≢ id)
      → Keeps (Later Old) (
          lift (ok d) >>= λ decision.
          stores.save (record { decision = decision; action = a }) >> pure decision)
  saved-Later a d new =
      let kept =
        Keeps-bind (Later-order Old) (stores.save (record { decision = d; action = a }))
          (λ u. pure {E = Fault} d) (save-Later (record { decision = d; action = a }) new)
          (λ u. Keeps-pure (Later-order Old) d) in
      record { at = λ m. unfold ◌>>=◌ in kept.at m }

  sign-Later :
      (a : Action) (e : Evaluation) (supersedes : Option String) (fresh : Fresh)
      → IsNew fresh
      → Keeps (Later Old) (sign x s p stores a e supersedes fresh)
  unfolding sign
  sign-Later a e supersedes fresh new =
      elim (Result-cases (create_signed_decision x (sign_input p a e supersedes) p.signer fresh)) [
        | inl (f, q) ↦ rw q (record { at = unfold ◌>>=◌ in (Later-order Old).same })
        | inr (d, q) ↦
            rw q (saved-Later a d (created-new (sign_input p a e supersedes) fresh new d q refl))
      ]

  pub evaluate-Later :
      (a : Action) (now : ℕ) (fresh : Fresh)
      → IsNew fresh
      → Keeps (Later Old) (evaluate x s p stores a now fresh)
  unfolding evaluate
  evaluate-Later a now fresh new =
      Keeps-bind (Later-order Old) _ _ (evaluate_policy-Later a now)
        λ e. sign-Later a e none fresh new

  pub issue_block-Later :
      (a : Action) (rs : List ReasonCode) (fresh : Fresh)
      → IsNew fresh
      → Keeps (Later Old) (issue_block x s p stores a rs fresh)
  unfolding issue_block
  issue_block-Later a [] fresh new = Keeps-throw (Later-order Old) _
  issue_block-Later a (r ∷ rs) fresh new = sign-Later a _ none fresh new

  pub supersede-Later :
      (i : ResolveApprovalInput) (issued : StoredDecision) (a : Action) (now : ℕ) (fresh : Fresh)
      → IsNew fresh
      → Keeps (Later Old) (supersede x s p stores i issued a now fresh)
  unfolding supersede
  supersede-Later i issued a now fresh new =
      Keeps-bind (Later-order Old) _ _ (evaluate_policy-Later a now) λ e.
        Keeps-bind (Later-order Old) _ _ (sign-Later a _ _ fresh new)
          λ decision. Keeps-pure (Later-order Old) _

  claimed-Later :
      (i : ResolveApprovalInput) (issued : StoredDecision) (a : Action) (now : ℕ) (fresh : Fresh)
      → IsNew fresh
      → (c : ApprovalClaim) → Keeps (Later Old) (after_claim x s p stores i issued a now fresh c)
  unfolding after_claim
  claimed-Later i issued a now fresh new already_claimed = Keeps-pure (Later-order Old) _
  claimed-Later i issued a now fresh new claimed = supersede-Later i issued a now fresh new

  resolve_pending-Later :
      (i : ResolveApprovalInput) (r : Option Action) (issued : StoredDecision) (at now : ℕ)
      (fresh : Fresh)
      → IsNew fresh
      → Keeps (Later Old) (resolve_pending x s p stores i r issued at now fresh)
  unfolding resolve_pending
  resolve_pending-Later i r issued at now fresh new =
      Keeps-if (Later Old) (not (is_require_approval issued.decision.verdict))
        (pure (rejection i.decision_id approval_not_pending)) _ (Keeps-pure (Later-order Old) _)
        (Keeps-if (Later Old) (not (replaced_subject r issued.action))
          (pure (rejection i.decision_id action_hash_mismatch)) _ (Keeps-pure (Later-order Old) _)
          (Keeps-if (Later Old) (leb (closes_at x s p stores issued) at)
            (pure (rejection i.decision_id decision_expired)) _ (Keeps-pure (Later-order Old) _)
            (Keeps-bind (Later-order Old) _ _ (claim-Later i.decision_id)
              (claimed-Later i issued (or_else r issued.action) now fresh new))))

  pub resolve_approval-Later :
      (i : ResolveApprovalInput) (r : Option Action) (at now : ℕ) (fresh : Fresh)
      → IsNew fresh
      → Keeps (Later Old) (resolve_approval x s p stores i r at now fresh)
  unfolding resolve_approval
  resolve_approval-Later i r at now fresh new =
      Keeps-bind (Later-order Old) _ _ (find-Later i.decision_id) elim [
        | none ↦ Keeps-pure (Later-order Old) _
        | some issued ↦ resolve_pending-Later i r issued at now fresh new
      ]

  consume_once-Later :
      (c : NonceConsumption) (i : RecordSpendInput)
      → Keeps (Later Old) (consume_once x s p stores c i)
  unfolding consume_once memory_stores
  consume_once-Later c i =
      Keeps-bind (Later-order Old) (stores.consume c) _ (consume-Later c) λ result.
        Keeps-if (Later Old) (is_consumed result.status) (stores.record_spend i >> pure result)
          (pure result)
          (Keeps-bind (Later-order Old) _ _ (record_spend-Later i)
            λ u. Keeps-pure (Later-order Old) _)
          (Keeps-pure (Later-order Old) _)

  consume_stored-Later :
      (i : ConsumeInput) (d : Decision) (now : ℕ)
      → Keeps (Later Old) (consume_stored x s p stores i d now)
  unfolding consume_stored
  consume_stored-Later i d now =
      Keeps-if (Later Old) (not (is_allow d.verdict)) (pure (refused i decision_not_allow)) _
        (Keeps-pure (Later-order Old) _)
        (Keeps-if (Later Old) (not (str_eq d.action_hash i.action_hash))
          (pure (refused i action_hash_mismatch)) _ (Keeps-pure (Later-order Old) _)
          (Keeps-if (Later Old) (leb d.expires_at now) (pure (refused i decision_expired)) _
            (Keeps-pure (Later-order Old) _)
            (Keeps-bind (Later-order Old)
              (lift (local_time_parts s now p.policy.time_windows.timezone)) _
              (Keeps-lift (Later-order Old) _)
              λ local.
                consume_once-Later (consumption_of x s p stores i d now)
                  (spend_of x s p stores d local))))

  pub consume-Later_all :
      (i : ConsumeInput) (now : ℕ) → Keeps (Later Old) (consume x s p stores i now)
  unfolding consume
  consume-Later_all i now = Keeps-bind (Later-order Old) _ _ (find-Later i.decision_id) elim [
    | none ↦ Keeps-pure (Later-order Old) _
    | some stored ↦ consume_stored-Later i stored.decision now
  ]
