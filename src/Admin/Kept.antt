-- ===== src/Admin/Kept.antt =====
-- The calls of src/api/admin.rs that change the two maps, and what they leave of a registration.
use conxian_nexus.Prelude.{
  ◌≡◌, ◌≢◌, refl, inl, inr, ◌∙◌, ap, Bool, true, false, ◌||◌, none, some, List, Text, codes,
  text_eq, Bool-cases, Option-cases,
}
use conxian_nexus.Prelude.Dict.{lookup, insert, lookup-insert_other, either}
use conxian_nexus.Prelude.Result.{Result}
use conxian_nexus.State.Crypto.{Crypto}
use conxian_nexus.Admin.Auth.{RegistrationRecord, CredentialRecord, Store, Headers, Refusal}
use conxian_nexus.Admin.Registration.{
  RegistrationRequest, ClaimRequest, ClaimCompleteRequest, ClaimCompleteResponse, Fresh, hash_value,
  issue_claim_token, start_registration, store_credential, new_record, start_claim, complete_claim,
  claim, is_anonymous,
}
use conxian_nexus.Admin.Signatures.{Ecdsa, AdminLoginRequest}
use conxian_nexus.Admin.Routes.{AppState, login_handler}

-- The registration of this claim token has been claimed.
pub record IsClaimed (c : Crypto) (token : Text) (store : Store) : Type 0 where
  pub registration : RegistrationRecord
  pub stored : lookup (hash_value c token) store.registrations ≡ some registration
  pub is_claimed : registration.claimed ≡ true

module _ (c : Crypto) (ecdsa : Ecdsa) (debug : Bool) where
  -- One call of a handler that changes the maps. The claim token of a new registration is one that
  -- none of the stored registrations has.
  pub data Step (before after : Store) : Type 0 where
    registers :
        (headers : Headers) (payload : RegistrationRequest) (fresh : Fresh)
        → lookup (hash_value c (issue_claim_token fresh)) before.registrations ≡ none
        → (start_registration c headers payload fresh before).0 ≡ after
        → Step before after
    starts_claim :
        (payload : ClaimRequest) (fresh : Fresh)
        → (start_claim c payload fresh before).0 ≡ after
        → Step before after
    completes_claim :
        (payload : ClaimCompleteRequest) (fresh : Fresh)
        → (complete_claim c payload fresh before).0 ≡ after
        → Step before after
    logs_in :
        (state : AppState) (payload : AdminLoginRequest) (fresh : Fresh)
        → (login_handler c ecdsa debug state payload fresh before).0 ≡ after
        → Step before after

  -- Any number of calls.
  pub data Steps : Store → Store → Type 0 where
    stop : {store : Store} → Steps store store
    next :
        {before between after : Store}
        → Step before between
        → Steps between after
        → Steps before after

store_credential-registrations :
    (c : Crypto) (payload : RegistrationRequest) (fresh : Fresh) (store : Store)
    → (store_credential c payload fresh store).registrations ≡ store.registrations
unfolding store_credential
store_credential-registrations c payload fresh store = elim (Bool-cases (is_anonymous payload)) [
  | inl e ↦ rw (store_credential, e) refl
  | inr e ↦ rw (store_credential, e) refl
]

module _ (c : Crypto) (token : Text) where
  pub same_registrations :
      (store after : Store)
      → after.registrations ≡ store.registrations
      → IsClaimed c token store
      → IsClaimed c token after
  same_registrations store after e h = record {
    registration = h.registration;
    stored = ap (lookup (hash_value c token)) e ∙ h.stored;
    is_claimed = h.is_claimed;
  }

  -- An insertion under another key.
  inserted_other :
      (store : Store) (credentials : List (Text × CredentialRecord)) (key : Text)
      (r : RegistrationRecord)
      → key ≢ hash_value c token
      → IsClaimed c token store
      → IsClaimed c token
          (record { registrations = insert key r store.registrations; credentials = credentials })
  inserted_other store credentials key r d h = record {
    registration = h.registration;
    stored = lookup-insert_other key (hash_value c token) r store.registrations d ∙ h.stored;
    is_claimed = h.is_claimed;
  }

  -- The key of a registration that is not claimed, or of none, is another one.
  unclaimed_key :
      (store : Store) (key : Text) (r : RegistrationRecord)
      → lookup key store.registrations ≡ some r
      → r.claimed ≡ false
      → IsClaimed c token store
      → key ≢ hash_value c token
  unclaimed_key store key r e free h same =
      let found : lookup key store.registrations ≡ some h.registration =
        ap (λ k. lookup k store.registrations) same ∙ h.stored in
      absurd (cc (found, e, free, h.is_claimed))

  absent_key :
      (store : Store) (key : Text)
      → lookup key store.registrations ≡ none
      → IsClaimed c token store
      → key ≢ hash_value c token
  absent_key store key e h same =
      let found : lookup key store.registrations ≡ some h.registration =
        ap (λ k. lookup k store.registrations) same ∙ h.stored in
      absurd (cc (found, e))

  pub start_registration_keeps :
      (headers : Headers) (payload : RegistrationRequest) (fresh : Fresh) (store : Store)
      → lookup (hash_value c (issue_claim_token fresh)) store.registrations ≡ none
      → IsClaimed c token store
      → IsClaimed c token (start_registration c headers payload fresh store).0
  unfolding start_registration new_record
  start_registration_keeps headers payload fresh store e h =
      let stored = store_credential c payload fresh store in
      let same = store_credential-registrations c payload fresh store in
      let known =
        is_anonymous payload || text_eq payload.registration_type (codes "identity_assertion") in
      elim (Bool-cases known) [
        | inl good ↦
            rw (start_registration, good)
              (inserted_other stored stored.credentials (hash_value c (issue_claim_token fresh))
                (new_record c payload fresh) (absent_key store _ e h)
                (same_registrations store stored same h))
        | inr bad ↦ rw (start_registration, bad) h
      ]

  pub start_claim_keeps :
      (payload : ClaimRequest) (fresh : Fresh) (store : Store)
      → IsClaimed c token store
      → IsClaimed c token (start_claim c payload fresh store).0
  unfolding start_claim
  start_claim_keeps payload fresh store h =
      let key = hash_value c payload.claim_token in
      elim (Option-cases (lookup key store.registrations)) [
        | inl e ↦ rw (start_claim, e) h
        | inr (r, e) ↦ elim (Bool-cases r.claimed) [
          | inl done ↦ rw (start_claim, e, done) h
          | inr free ↦
              rw (start_claim, e, free)
                (inserted_other store _ key _ (unclaimed_key store key r e free h) h)
        ]
      ]

  claim_keeps :
      (key : Text) (r : RegistrationRecord) (fresh : Fresh) (store : Store)
      → key ≢ hash_value c token
      → IsClaimed c token store
      → IsClaimed c token (claim c key r fresh store).0
  unfolding claim
  claim_keeps key r fresh store d h = elim (Option-cases r.credential) [
    | inl e ↦ rw (claim, e) (inserted_other store _ key _ d h)
    | inr (existing, e) ↦ rw (claim, e) (inserted_other store _ key _ d h)
  ]

  pub complete_claim_keeps :
      (payload : ClaimCompleteRequest) (fresh : Fresh) (store : Store)
      → IsClaimed c token store
      → IsClaimed c token (complete_claim c payload fresh store).0
  unfolding complete_claim
  complete_claim_keeps payload fresh store h =
      let key = hash_value c payload.claim_token in
      elim (Option-cases (lookup key store.registrations)) [
        | inl e ↦ rw (complete_claim, e) h
        | inr (r, e) ↦ elim (Bool-cases r.claimed) [
          | inl done ↦ rw (complete_claim, e, done) h
          | inr free ↦
              rw (complete_claim, e, free)
                (either
                  (λ (p : Store × Result ClaimCompleteResponse Refusal). IsClaimed c token p.0)
                  (text_eq r.otp_hash (hash_value c payload.otp)) _ _
                  (claim_keeps key r fresh store (unclaimed_key store key r e free h) h) h)
        ]
      ]
