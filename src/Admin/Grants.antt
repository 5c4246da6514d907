-- ===== src/Admin/Grants.antt =====
-- What an anonymous registration of src/api/admin.rs can give itself.
use conxian_nexus.Prelude.{
  ◌≡◌, refl, ap, ◌∙◌, inl, true, false, ◌||◌, ◌++◌, some, Text, codes, text_eq, text_eq_iff, arith,
}
use conxian_nexus.Prelude.Dict.{if_true, lookup, lookup-insert}
use conxian_nexus.Prelude.Result.{ok}
use conxian_nexus.State.Crypto.{Crypto}
use conxian_nexus.Prelude.Dict.{has_text}
use conxian_nexus.Admin.Auth.{
  RegistrationRecord, CredentialRecord, Store, Headers, Config, bearer_token, authorize_admin_write,
}
use conxian_nexus.Admin.AuthLaws.{authorize_admin_write-MayUse}
use conxian_nexus.Admin.Registration.{
  RegistrationRequest, ClaimCompleteRequest, Fresh, hash_value, issue_api_key, issue_claim_token,
  issue_otp, default_scopes, start_registration, store_credential, new_record, post_claim_scopes_of,
  complete_claim, claim, widen, is_anonymous,
}

claim-scopes :
    (c : Crypto) (key credential : Text) (r : RegistrationRecord) (issued : CredentialRecord)
    (fresh : Fresh) (store : Store)
    → r.credential ≡ some credential
    → lookup credential store.credentials ≡ some issued
    → lookup credential (claim c key r fresh store).0.credentials
      ≡ some (record issued { scopes = r.post_claim_scopes })
unfolding claim widen
claim-scopes c key credential r issued fresh store e f =
    rw (claim, e, widen, f) (lookup-insert credential _ store.credentials)

complete_claim-claim :
    (c : Crypto) (payload : ClaimCompleteRequest) (r : RegistrationRecord) (fresh : Fresh)
    (store : Store)
    → lookup (hash_value c payload.claim_token) store.registrations ≡ some r
    → r.claimed ≡ false
    → text_eq r.otp_hash (hash_value c payload.otp) ≡ true
    → (complete_claim c payload fresh store).0
      ≡ (claim c (hash_value c payload.claim_token) r fresh store).0
unfolding complete_claim
complete_claim-claim c payload r fresh store e free good = rw (complete_claim, e, free, good) refl

module _ (c : Crypto) (headers : Headers) (payload : RegistrationRequest) (fresh : Fresh)
    (store : Store) where
  abbrev registered : Store
  registered = (start_registration c headers payload fresh store).0

  registered-record :
      is_anonymous payload ≡ true
      → lookup (hash_value c (issue_claim_token fresh)) registered.registrations
        ≡ some (new_record c payload fresh)
  unfolding start_registration new_record
  registered-record h =
      let known : (is_anonymous payload
            || text_eq payload.registration_type (codes "identity_assertion"))
          ≡ true =
        ground arith in
      rw (registered, start_registration, known)
        (lookup-insert (hash_value c (issue_claim_token fresh)) (new_record c payload fresh)
          (store_credential c payload fresh store).registrations)

  registered-credential :
      is_anonymous payload ≡ true
      → lookup (issue_api_key fresh) registered.credentials
        ≡ some (record {
          registration_id = codes "reg_" ++ fresh.id;
          scopes = default_scopes;
          revoked = false;
        })
  unfolding start_registration store_credential
  registered-credential h =
      let known : (is_anonymous payload
            || text_eq payload.registration_type (codes "identity_assertion"))
          ≡ true =
        ground arith in
      rw (registered, start_registration, known, store_credential, h)
        (lookup-insert (issue_api_key fresh) _ store.credentials)

  new_record-credential :
      is_anonymous payload ≡ true
      → (new_record c payload fresh).credential ≡ some (issue_api_key fresh)
  unfolding new_record
  new_record-credential h = if_true (is_anonymous payload) _ _ h

  new_record-otp :
      text_eq (new_record c payload fresh).otp_hash (hash_value c (issue_otp fresh)) ≡ true
  unfolding new_record
  new_record-otp = (text_eq_iff (hash_value c (issue_otp fresh)) _).1 refl

  new_record-scopes : (new_record c payload fresh).post_claim_scopes ≡ post_claim_scopes_of payload
  unfolding new_record
  new_record-scopes = refl

  new_record-claimed : (new_record c payload fresh).claimed ≡ false
  unfolding new_record
  new_record-claimed = refl

-- An anonymous registration whose scopes after the claim contain admin.write, completed with its
-- own claim token and code, leaves a store in which the credential that it was given passes
-- authorize_admin_write.
pub complete_claim-admin_write :
    (c : Crypto) (config : Config) (headers later_headers : Headers) (payload : RegistrationRequest)
    (fresh second : Fresh) (store : Store)
    → payload.registration_type ≡ codes "anonymous"
    → has_text (post_claim_scopes_of payload) (codes "admin.write") ≡ true
    → bearer_token later_headers ≡ some (issue_api_key fresh)
    → authorize_admin_write config later_headers
        (complete_claim c
          (record { claim_token = issue_claim_token fresh; otp = issue_otp fresh })
          second
          (start_registration c headers payload fresh store).0).0
      ≡ ok tt
complete_claim-admin_write c config headers later_headers payload fresh second store h scoped
      carried =
    let anonymous : is_anonymous payload ≡ true = (text_eq_iff _ _).1 h in
    let registration = new_record c payload fresh in
    let before = (start_registration c headers payload fresh store).0 in
    let done =
      complete_claim-claim c
        (record { claim_token = issue_claim_token fresh; otp = issue_otp fresh }) registration
        second before (registered-record c headers payload fresh store anonymous)
        (new_record-claimed c headers payload fresh store)
        (new_record-otp c headers payload fresh store) in
    (authorize_admin_write-MayUse config later_headers _).1 (record {
      token = issue_api_key fresh;
      carried = carried;
      known = inl (record {
        credential = _;
        stored =
            ap (λ (s : Store). lookup (issue_api_key fresh) s.credentials) done
            ∙ claim-scopes c _ (issue_api_key fresh) registration _ second before
                (new_record-credential c headers payload fresh store anonymous)
                (registered-credential c headers payload fresh store anonymous);
        live = refl;
        scoped = rw (new_record-scopes c headers payload fresh store) scoped;
      });
    })
