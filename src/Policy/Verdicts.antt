-- ===== src/Policy/Verdicts.antt =====
-- When `evaluatePolicy` of packages/policy-engine/src/evaluate.ts allows, and when it asks a human.
use inntris_x402_policy_adap.Base.{
  ℕ, ◌≤◌, ◌<◌, String, ◌≡◌, ◌↔◌, ◌⊎◌, refl, ap, true, false, List, [], ◌∷◌, arith, Bool-cases, inl,
  inr, In, str_eq, ltb, eq_iff,
}
use inntris_x402_policy_adap.Base.Exec.{ok, Exec, Result-cases, ◌>>=◌}
use inntris_x402_policy_adap.Core.Text.{codes}
use inntris_x402_policy_adap.Core.Reasons.{allow, block, require_approval}
use inntris_x402_policy_adap.Core.Action.{Action}
use inntris_x402_policy_adap.Core.Signing.{Fault, Evaluation}
use inntris_x402_policy_adap.Policy.Document.{
  Policy, Merchant, Weekday, monday, tuesday, wednesday, thursday, friday, saturday, sunday,
  weekday_name,
}
use inntris_x402_policy_adap.Policy.Window.{within_time_window}
use inntris_x402_policy_adap.Policy.Evaluate.{
  Platform, LocalTime, local_time_parts, includes_weekday, screen, transaction_limit,
  settle_evaluation, evaluate_policy,
}
use inntris_x402_policy_adap.Policy.Permits.{Permits}
use inntris_x402_policy_adap.Policy.Screening.{screen-Permits, Permits-screen}

weekday-eq : (a b : Weekday) → str_eq (weekday_name a) (weekday_name b) ≡ true → a ≡ b
weekday-eq monday monday h = refl
weekday-eq tuesday tuesday h = refl
weekday-eq wednesday wednesday h = refl
weekday-eq thursday thursday h = refl
weekday-eq friday friday h = refl
weekday-eq saturday saturday h = refl
weekday-eq sunday sunday h = refl
weekday-eq _ _ h = cc

weekday_refl : (a b : Weekday) → a ≡ b → str_eq (weekday_name a) (weekday_name b) ≡ true
weekday_refl a b e = (eq_iff _ _).1 (ap weekday_name e)

includes_weekday_iff : (l : List Weekday) (w : Weekday) → (includes_weekday l w ≡ true) ↔ In w l
unfolding includes_weekday
includes_weekday_iff [] w = (λ h. cc, λ h. absurd h)
includes_weekday_iff (v ∷ l) w = (
  λ h. elim (Bool-cases (str_eq (weekday_name v) (weekday_name w))) [
    | inl e ↦ inl (weekday-eq v w e)
    | inr e ↦ inr ((includes_weekday_iff l w).0 (rw e at h))
  ],
  elim [ inl e ↦ rw (weekday_refl v w e) | inr i ↦ ground (arith, (includes_weekday_iff l w).1 i) ],
)

module _ (s : Platform) (p : Policy) (a : Action) where
  open s use {decimals}

  -- What the policy promises of an action that it does not block.
  pub record Grants (now : ℕ) (local : LocalTime) (spent : String) (m : Merchant) : Type 0 where
    pub permits : Permits p a now m
    pub per_transaction : decimals.units a.transaction.amount ≤ decimals.units p.per_transaction
    pub merchant_limit :
        decimals.units a.transaction.amount ≤ decimals.units m.per_transaction_limit
    pub daily :
        decimals.plus (decimals.units spent) (decimals.units a.transaction.amount)
        ≤ decimals.units p.daily
    pub weekday : In local.weekday p.time_windows.allowed_weekdays
    pub window :
        within_time_window
          (codes local.time)
          (codes p.time_windows.start)
          (codes p.time_windows.finish)
        ≡ true

  -- The tests of `settle_evaluation` before the human threshold.
  record Fits (local : LocalTime) (spent : String) : Type 0 where
    daily :
        decimals.plus (decimals.units spent) (decimals.units a.transaction.amount)
        ≤ decimals.units p.daily
    weekday : includes_weekday p.time_windows.allowed_weekdays local.weekday ≡ true
    window :
        within_time_window
          (codes local.time)
          (codes p.time_windows.start)
          (codes p.time_windows.finish)
        ≡ true

  settle-allow_iff :
      (local : LocalTime) (spent : String)
      → ((settle_evaluation s a p local spent).verdict ≡ allow) ↔ (
          Fits local spent
          × (decimals.units a.transaction.amount ≤ decimals.units p.require_human_above))
  unfolding settle_evaluation
  settle-allow_iff local spent = (
    λ h. (
      record { daily = ground arith; weekday = ground arith; window = ground arith },
      ground arith,
    ),
    λ h. ground arith,
  )

  settle-human_iff :
      (local : LocalTime) (spent : String)
      → ((settle_evaluation s a p local spent).verdict ≡ require_approval) ↔ (
          Fits local spent
          × (decimals.units p.require_human_above < decimals.units a.transaction.amount))
  unfolding settle_evaluation
  settle-human_iff local spent = (
    λ h. (
      record { daily = ground arith; weekday = ground arith; window = ground arith },
      ground arith,
    ),
    λ h. ground arith,
  )

  module _ {S : Type 0} (spend : String → String → Exec Fault S String) (now : ℕ) (st : S) where
    -- The readings that an evaluation past the first checks rests on.
    record Reads (m : Merchant) (local : LocalTime) (spent : String) : Type 0 where
      screened : screen s a p now ≡ ok m
      limit : ltb (transaction_limit s p m) (decimals.units a.transaction.amount) ≡ false
      time : local_time_parts s now p.time_windows.timezone ≡ ok local
      spent_is : (spend a.principal_id local.day_key st).0 ≡ ok spent

    Reads-evaluate :
        (m : Merchant) (local : LocalTime) (spent : String)
        → Reads m local spent
        → (evaluate_policy s spend a p now st).0 ≡ ok (settle_evaluation s a p local spent)
    unfolding evaluate_policy ◌>>=◌
    Reads-evaluate m local spent r =
        rw (r.screened, evaluate_policy) (rw r.limit (rw r.time (rw r.spent_is)))

    evaluate-Reads :
        (e : Evaluation)
        → (evaluate_policy s spend a p now st).0 ≡ ok e
        → (e.verdict ≡ block)
          ⊎ ((m : Merchant) × (local : LocalTime) × (spent : String) × Reads m local spent
              × (e ≡ settle_evaluation s a p local spent))
    unfolding evaluate_policy ◌>>=◌
    evaluate-Reads e h = elim (Result-cases (screen s a p now)) [
      | inl (r, q) ↦ inl (ground (arith, rw (q, evaluate_policy) at h))
      | inr (m, q) ↦
          elim (Bool-cases (ltb (transaction_limit s p m) (decimals.units a.transaction.amount))) [
            | inl over ↦ inl (ground (arith, rw over at (rw (q, evaluate_policy) at h)))
            | inr limit ↦
                let h1 = rw limit at (rw (q, evaluate_policy) at h) in
                elim (Result-cases (local_time_parts s now p.time_windows.timezone)) [
                  | inl (f, t) ↦ absurd (cc (rw t at h1))
                  | inr (local, t) ↦
                      let h2 = rw t at h1 in
                      elim (Result-cases ((spend a.principal_id local.day_key st).0)) [
                        | inl (f, u) ↦ absurd (cc (rw u at h2))
                        | inr (spent, u) ↦ inr (
                          m,
                          local,
                          spent,
                          record { screened = q; limit = limit; time = t; spent_is = u },
                          ground (arith, rw u at h2),
                        )
                      ]
                ]
          ]
    ]

    Reads-Grants :
        (m : Merchant) (local : LocalTime) (spent : String)
        → Reads m local spent
        → Fits local spent
        → Grants now local spent m
    unfolding transaction_limit
    Reads-Grants m local spent r f = record {
      permits = screen-Permits s a p now m r.screened;
      per_transaction = ground (arith, r.limit);
      merchant_limit = ground (arith, r.limit);
      daily = f.daily;
      weekday = (includes_weekday_iff p.time_windows.allowed_weekdays local.weekday).0 f.weekday;
      window = f.window;
    }

    -- The readings and the grant that an answer other than a block rests on.
    pub record Granted (m : Merchant) (local : LocalTime) (spent : String) : Type 0 where
      pub time : local_time_parts s now p.time_windows.timezone ≡ ok local
      pub spent_is : (spend a.principal_id local.day_key st).0 ≡ ok spent
      pub grants : Grants now local spent m

    Granted-Reads :
        (m : Merchant) (local : LocalTime) (spent : String)
        → Granted m local spent
        → Reads m local spent × Fits local spent
    unfolding transaction_limit
    Granted-Reads m local spent g = (
      record {
        screened = Permits-screen s a p now m g.grants.permits;
        limit = ground (arith, g.grants.per_transaction, g.grants.merchant_limit);
        time = g.time;
        spent_is = g.spent_is;
      },
      record {
        daily = g.grants.daily;
        weekday =
            (includes_weekday_iff p.time_windows.allowed_weekdays local.weekday).1 g.grants.weekday;
        window = g.grants.window;
      },
    )

    Granted-evaluate :
        (e : Evaluation) (m : Merchant) (local : LocalTime) (spent : String)
        → (evaluate_policy s spend a p now st).0 ≡ ok e
        → Granted m local spent
        → (e ≡ settle_evaluation s a p local spent) × Fits local spent
    Granted-evaluate e m local spent h g =
        let (r, f) = Granted-Reads m local spent g in (cc (h, Reads-evaluate m local spent r), f)

    -- An evaluation that returns allows exactly when the policy permits the action (`Permits`), the
    -- amount is within the policy's and the first matching merchant's limits, the day's
    -- spend with the amount is within the daily limit, the local weekday and time are
    -- inside the policy's windows, and the amount is not above the human threshold.
    pub evaluate_policy-allow_iff :
        (e : Evaluation)
        → (evaluate_policy s spend a p now st).0 ≡ ok e
        → (e.verdict ≡ allow) ↔ (
            (m : Merchant) × (local : LocalTime) × (spent : String) × Granted m local spent
            × (decimals.units a.transaction.amount ≤ decimals.units p.require_human_above))
    evaluate_policy-allow_iff e h = (
      λ v. elim (evaluate-Reads e h) [
        | inl b ↦ absurd (cc (v, b))
        | inr (m, local, spent, r, q) ↦
            let (f, below) = (settle-allow_iff local spent).0 (rw (← q) v) in
            (
              m,
              local,
              spent,
              record {
                time = r.time;
                spent_is = r.spent_is;
                grants = Reads-Grants m local spent r f;
              },
              below,
            )
      ],
      λ (m, local, spent, g, below).
          let (q, f) = Granted-evaluate e m local spent h g in
          rw q ((settle-allow_iff local spent).1 (f, below)),
    )

    -- An evaluation that returns asks for a human approval exactly when the policy permits the action
    -- (`Permits`), the amount is within the policy's and the first matching merchant's limits, the
    -- day's spend with the amount is within the daily limit, the local weekday and time are inside
    -- the policy's windows, and the amount is above the human threshold.
    pub evaluate_policy-require_approval_iff :
        (e : Evaluation)
        → (evaluate_policy s spend a p now st).0 ≡ ok e
        → (e.verdict ≡ require_approval) ↔ (
            (m : Merchant) × (local : LocalTime) × (spent : String) × Granted m local spent
            × (decimals.units p.require_human_above < decimals.units a.transaction.amount))
    evaluate_policy-require_approval_iff e h = (
      λ v. elim (evaluate-Reads e h) [
        | inl b ↦ absurd (cc (v, b))
        | inr (m, local, spent, r, q) ↦
            let (f, above) = (settle-human_iff local spent).0 (rw (← q) v) in
            (
              m,
              local,
              spent,
              record {
                time = r.time;
                spent_is = r.spent_is;
                grants = Reads-Grants m local spent r f;
              },
              above,
            )
      ],
      λ (m, local, spent, g, above).
          let (q, f) = Granted-evaluate e m local spent h g in
          rw q ((settle-human_iff local spent).1 (f, above)),
    )
