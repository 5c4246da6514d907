-- ===== src/Admin/Claims.antt =====
-- The life of a registration in src/api/admin.rs, over the calls that change the two maps.
use mathlib.Core.Path.{subst}
use conxian_nexus.Prelude.{
  ◌≡◌, refl, inl, inr, Bool, Text, codes, text_eq, Bool-cases, Option-cases,
}
use conxian_nexus.Prelude.Dict.{lookup, lookup-insert}
use conxian_nexus.Prelude.Result.{Result, ok, err}
use conxian_nexus.State.Crypto.{Crypto}
use conxian_nexus.Api.Http.{conflict}
use conxian_nexus.Admin.Auth.{RegistrationRecord, Store, Refusal}
use conxian_nexus.Admin.Registration.{
  ClaimRequest, ClaimCompleteRequest, ClaimCompleteResponse, Fresh, refuse, hash_value, start_claim,
  complete_claim, claim,
}
use conxian_nexus.Admin.Signatures.{Ecdsa, AdminLoginRequest, admin_login, validate_dual_signature}
use conxian_nexus.Admin.Routes.{AppState, login_handler}
use conxian_nexus.Admin.Kept.{
  IsClaimed, Step, registers, starts_claim, completes_claim, logs_in, Steps, stop, next,
  same_registrations, start_registration_keeps, start_claim_keeps, complete_claim_keeps,
}

module _ (c : Crypto) (ecdsa : Ecdsa) (debug : Bool) (token : Text) where
  login_handler_keeps :
      (state : AppState) (payload : AdminLoginRequest) (fresh : Fresh) (store : Store)
      → IsClaimed c token store
      → IsClaimed c token (login_handler c ecdsa debug state payload fresh store).0
  unfolding login_handler
  login_handler_keeps state payload fresh store h =
      go
        (validate_dual_signature c ecdsa debug state.config.admin_public_keys (admin_login payload))
        refl
    where
      go :
          (verdict : Result (Unit {0}) Refusal)
          → validate_dual_signature c ecdsa debug state.config.admin_public_keys
              (admin_login payload)
            ≡ verdict
          → IsClaimed c token (login_handler c ecdsa debug state payload fresh store).0
      go (err refusal) e = rw (login_handler, e) h
      go (ok done) e = rw (login_handler, e) (same_registrations c token store _ refl h)

  Step-IsClaimed :
      (before after : Store)
      → Step c ecdsa debug before after
      → IsClaimed c token before
      → IsClaimed c token after
  Step-IsClaimed before after (registers headers payload fresh absent e) h =
      subst (IsClaimed c token) e
        (start_registration_keeps c token headers payload fresh before absent h)
  Step-IsClaimed before after (starts_claim payload fresh e) h =
      subst (IsClaimed c token) e (start_claim_keeps c token payload fresh before h)
  Step-IsClaimed before after (completes_claim payload fresh e) h =
      subst (IsClaimed c token) e (complete_claim_keeps c token payload fresh before h)
  Step-IsClaimed before after (logs_in state payload fresh e) h =
      subst (IsClaimed c token) e (login_handler_keeps state payload fresh before h)

  pub Steps-IsClaimed :
      (before after : Store)
      → Steps c ecdsa debug before after
      → IsClaimed c token before
      → IsClaimed c token after
  Steps-IsClaimed before after stop h = h
  Steps-IsClaimed before after (next {between} step rest) h =
      Steps-IsClaimed between after rest (Step-IsClaimed before between step h)

module _ (c : Crypto) where
  claim-IsClaimed :
      (token : Text) (r : RegistrationRecord) (fresh : Fresh) (store : Store)
      → IsClaimed c token (claim c (hash_value c token) r fresh store).0
  unfolding claim
  claim-IsClaimed token r fresh store = elim (Option-cases r.credential) [
    | inl e ↦
        rw (claim, e)
          (record {
            registration = _;
            stored = lookup-insert (hash_value c token) _ store.registrations;
            is_claimed = refl;
          })
    | inr (existing, e) ↦
        rw (claim, e)
          (record {
            registration = _;
            stored = lookup-insert (hash_value c token) _ store.registrations;
            is_claimed = refl;
          })
  ]

  complete_claim-IsClaimed :
      (payload : ClaimCompleteRequest) (fresh : Fresh) (store : Store)
      (response : ClaimCompleteResponse)
      → (complete_claim c payload fresh store).1 ≡ ok response
      → IsClaimed c payload.claim_token (complete_claim c payload fresh store).0
  unfolding complete_claim
  complete_claim-IsClaimed payload fresh store response h =
      let key = hash_value c payload.claim_token in
      elim (Option-cases (lookup key store.registrations)) [
        | inl e ↦ absurd (cc (rw (complete_claim, e) at h))
        | inr (r, e) ↦ elim (Bool-cases r.claimed) [
          | inl done ↦ absurd (cc (rw (complete_claim, e, done) at h))
          | inr free ↦ elim (Bool-cases (text_eq r.otp_hash (hash_value c payload.otp))) [
            | inl good ↦
                rw (complete_claim, e, free, good)
                  (claim-IsClaimed payload.claim_token r fresh store)
            | inr bad ↦ absurd (cc (rw (complete_claim, e, free, bad) at h))
          ]
        ]
      ]

  complete_claim-conflict :
      (payload : ClaimCompleteRequest) (fresh : Fresh) (store : Store)
      → IsClaimed c payload.claim_token store
      → complete_claim c payload fresh store
        ≡ (store, err (refuse conflict (codes "previously_claimed")))
  unfolding complete_claim
  complete_claim-conflict payload fresh store h = rw (complete_claim, h.stored, h.is_claimed) refl

  start_claim-conflict :
      (payload : ClaimRequest) (fresh : Fresh) (store : Store)
      → IsClaimed c payload.claim_token store
      → start_claim c payload fresh store
        ≡ (store, err (refuse conflict (codes "previously_claimed")))
  unfolding start_claim
  start_claim-conflict payload fresh store h = rw (start_claim, h.stored, h.is_claimed) refl

-- After complete_claim has succeeded for a claim token, and whatever registrations with claim
-- tokens that are not stored yet, claims and logins follow, both complete_claim and start_claim
-- for that token are answered as previously claimed and change nothing.
pub complete_claim-once :
    (c : Crypto) (ecdsa : Ecdsa) (debug : Bool) (token otp later_otp email : Text)
    (fresh later_fresh : Fresh) (store later : Store) (response : ClaimCompleteResponse)
    → (complete_claim c (record { claim_token = token; otp = otp }) fresh store).1 ≡ ok response
    → Steps c ecdsa debug
        (complete_claim c (record { claim_token = token; otp = otp }) fresh store).0
        later
    → (complete_claim c (record { claim_token = token; otp = later_otp }) later_fresh later
        ≡ (later, err (refuse conflict (codes "previously_claimed"))))
      × (start_claim c (record { claim_token = token; email = email }) later_fresh later
          ≡ (later, err (refuse conflict (codes "previously_claimed"))))
complete_claim-once c ecdsa debug token otp later_otp email fresh later_fresh store later response h
      steps =
    let kept =
      Steps-IsClaimed c ecdsa debug token _ later steps
        (complete_claim-IsClaimed c _ fresh store response h) in
    (
      complete_claim-conflict c _ later_fresh later kept,
      start_claim-conflict c _ later_fresh later kept,
    )
