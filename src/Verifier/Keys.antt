-- ===== src/Verifier/Keys.antt =====
-- `findUsableKey` of packages/decision-verifier/src/verify.ts finds the registry's one entry.
use inntris_x402_policy_adap.Base.{
  ℕ, ◌≤◌, ◌<◌, String, ◌≡◌, ◌≢◌, refl, true, Option, none, some, List, [], ◌∷◌, arith, Option-cases,
  eq_iff, eq_refl, inl, inr, find, str_eq, In, find_sound, length, includes,
}
use inntris_x402_policy_adap.Core.Json.{Externals}
use inntris_x402_policy_adap.Core.Decision.{
  Decision, KeyEntry, revoked, registry_schema, distinct_texts, key_ids,
}
use inntris_x402_policy_adap.Core.Signing.{public_key_fingerprint}
use inntris_x402_policy_adap.Verifier.{usable_key, find_usable_key, before_limit}

includes-key_ids :
    (k : KeyEntry) (ks : List KeyEntry) → In k ks → includes (key_ids ks) k.key_id ≡ true
includes-key_ids k [] i = absurd i
includes-key_ids k (j ∷ ks) (inl e) = rw (e, eq_refl k.key_id)
includes-key_ids k (j ∷ ks) (inr i) = ground (arith, includes-key_ids k ks i)

-- With distinct ids, any entry of the registry is the one that is found under its id.
pub find-of_In :
    (id : String) (k : KeyEntry) (ks : List KeyEntry)
    → distinct_texts (key_ids ks) ≡ true
    → In k ks
    → k.key_id ≡ id
    → find (λ j. str_eq j.key_id id) ks ≡ some k
unfolding distinct_texts
find-of_In id k [] d i e = absurd i
find-of_In id k (j ∷ ks) d (inl p) e = rw (p, e, eq_refl id)
find-of_In id k (j ∷ ks) d (inr i) e =
    ground
      (arith, find-of_In id k ks (ground arith) i e, includes-key_ids k ks i, eq_iff j.key_id id)

pub before_limit-lt :
    (o : Option ℕ) (n : ℕ) → before_limit o n ≡ true → (t : ℕ) → o ≡ some t → n < t
before_limit-lt none n h t e = cc
before_limit-lt (some u) n h t e = ground arith

pub lt-before_limit :
    (o : Option ℕ) (n : ℕ) → ((t : ℕ) → o ≡ some t → n < t) → before_limit o n ≡ true
lt-before_limit none n h = refl
lt-before_limit (some t) n h = ground (arith, h t refl)

pub registry-distinct :
    (ks : List KeyEntry) → registry_schema ks ≡ true → distinct_texts (key_ids ks) ≡ true
unfolding registry_schema
registry-distinct ks h = ground arith

module _ (x : Externals) (d : Decision) where
  -- A key that may check the decision's signature: it carries the decision's key id, is not
  -- revoked, was valid when the decision was issued, and its bytes are those it is fingerprinted by.
  pub record IsUsable (ks : List KeyEntry) (k : KeyEntry) : Type 0 where
    pub listed : In k ks
    pub identity : k.key_id ≡ d.key_id
    pub not_revoked : k.status ≢ revoked
    pub from : k.not_before ≤ d.issued_at
    pub until : (t : ℕ) → k.not_after ≡ some t → d.issued_at < t
    pub size : length (x.base64url_decode k.public_key) ≡ 32
    pub fingerprint : public_key_fingerprint x (x.base64url_decode k.public_key) ≡ k.fingerprint

  record Passes (k : KeyEntry) (bytes : List ℕ) : Type 0 where
    bytes_are : x.base64url_decode k.public_key ≡ bytes
    not_revoked : k.status ≢ revoked
    from : k.not_before ≤ d.issued_at
    until : before_limit k.not_after d.issued_at ≡ true
    size : length (x.base64url_decode k.public_key) ≡ 32
    fingerprint : public_key_fingerprint x (x.base64url_decode k.public_key) ≡ k.fingerprint

  usable_key-Passes :
      (k : KeyEntry) (bytes : List ℕ) → usable_key x d k ≡ some bytes → Passes k bytes
  unfolding usable_key
  usable_key-Passes k bytes h = record {
    bytes_are = ground arith;
    not_revoked = ground arith;
    from = ground arith;
    until = ground arith;
    size = ground arith;
    fingerprint =
        ground (
          arith,
          eq_iff (public_key_fingerprint x (x.base64url_decode k.public_key)) k.fingerprint,
        );
  }

  pub find_usable_key-IsUsable :
      (ks : List KeyEntry) (bytes : List ℕ)
      → find_usable_key x d ks ≡ some bytes
      → (k : KeyEntry) × IsUsable ks k × (x.base64url_decode k.public_key ≡ bytes)
  unfolding find_usable_key
  find_usable_key-IsUsable ks bytes h =
      elim (Option-cases (find (λ j. str_eq j.key_id d.key_id) ks)) [
        | inl e ↦ absurd (cc (rw (e, find_usable_key) at h))
        | inr (k, e) ↦
            let p = usable_key-Passes k bytes (rw (e, find_usable_key) at h) in
            let (same, listed) = find_sound (λ j. str_eq j.key_id d.key_id) ks k e in
            (
              k,
              record {
                listed = listed;
                identity = (eq_iff k.key_id d.key_id).0 same;
                not_revoked = p.not_revoked;
                from = p.from;
                until = before_limit-lt k.not_after d.issued_at p.until;
                size = p.size;
                fingerprint = p.fingerprint;
              },
              p.bytes_are,
            )
      ]

  usable_key-some :
      (k : KeyEntry)
      → k.status ≢ revoked
      → k.not_before ≤ d.issued_at
      → before_limit k.not_after d.issued_at ≡ true
      → length (x.base64url_decode k.public_key) ≡ 32
      → public_key_fingerprint x (x.base64url_decode k.public_key) ≡ k.fingerprint
      → usable_key x d k ≡ some (x.base64url_decode k.public_key)
  unfolding usable_key
  usable_key-some k r f u s g =
      ground
        (arith, eq_iff (public_key_fingerprint x (x.base64url_decode k.public_key)) k.fingerprint)

  pub IsUsable-find_usable_key :
      (ks : List KeyEntry) (k : KeyEntry)
      → registry_schema ks ≡ true
      → IsUsable ks k
      → find_usable_key x d ks ≡ some (x.base64url_decode k.public_key)
  unfolding find_usable_key
  IsUsable-find_usable_key ks k r u =
      rw (find-of_In d.key_id k ks (registry-distinct ks r) u.listed u.identity, find_usable_key)
        (usable_key-some k u.not_revoked u.from (lt-before_limit k.not_after d.issued_at u.until)
          u.size u.fingerprint)
