-- ===== src/Admin/AuthLaws.antt =====
-- Who is let in by the bearer tokens of src/api/admin.rs.
use conxian_nexus.Prelude.{
  ◌≡◌, refl, inl, inr, ◌⊎◌, ◌↔◌, ap, sym, ◌∙◌, Bool, true, false, not, ◌&&◌, some, List, Text,
  codes, text_eq, text_eq_iff, Bool-cases, Option-cases, arith,
}
use conxian_nexus.Prelude.Dict.{lookup}
use conxian_nexus.Prelude.Result.{ok, >>=-eq-ok}
use conxian_nexus.Prelude.Dict.{has_text}
use conxian_nexus.Admin.Auth.{
  CredentialRecord, Store, Headers, Config, bearer_token, granted, static_write, static_scopes,
  all_scopes, authorize_admin_write, authorize_for_scope,
}
use conxian_nexus.Admin.Routes.{AppState, Fields, Read, body, read}

-- The token is that of a credential which is not revoked and has the scope.
pub record IsCredential (store : Store) (token scope : Text) : Type 0 where
  pub credential : CredentialRecord
  pub stored : lookup token store.credentials ≡ some credential
  pub live : credential.revoked ≡ false
  pub scoped : has_text credential.scopes scope ≡ true

-- The request carries a token that is such a credential, or is the configured one.
pub record MayUse (config : Config) (headers : Headers) (store : Store) (scope : Text)
    : Type 0 where
  pub token : Text
  pub carried : bearer_token headers ≡ some token
  pub known : IsCredential store token scope ⊎ (config.admin_api_token ≡ some token)

live_and :
    (revoked scoped : Bool) → not revoked && scoped ≡ true → (revoked ≡ false) × (scoped ≡ true)
live_and true scoped h = cc
live_and false scoped h = (refl, h)

pub granted_sound :
    (store : Store) (token scope : Text) (scopes : List Text)
    → granted store token scope ≡ some scopes
    → IsCredential store token scope
unfolding granted
granted_sound store token scope scopes h = elim (Option-cases (lookup token store.credentials)) [
  | inl e ↦ absurd (cc (e, h))
  | inr (r, e) ↦ elim (Bool-cases (not r.revoked && has_text r.scopes scope)) [
    | inl pass ↦
        let (live, scoped) = live_and r.revoked (has_text r.scopes scope) pass in
        record { credential = r; stored = e; live = live; scoped = scoped }
    | inr fail ↦ absurd (ground arith)
  ]
]

pub granted_complete :
    (store : Store) (token scope : Text)
    → IsCredential store token scope
    → (scopes : List Text) × (granted store token scope ≡ some scopes)
unfolding granted
granted_complete store token scope h =
    (h.credential.scopes, rw (granted, h.stored, h.live, h.scoped) refl)

static_write_sound :
    (config : Config) (headers : Headers) (token : Text)
    → static_write config headers token ≡ ok tt
    → config.admin_api_token ≡ some token
unfolding static_write
static_write_sound config headers token h = elim (Option-cases config.admin_api_token) [
  | inl e ↦ absurd (ground arith)
  | inr (expected, e) ↦ elim (Bool-cases (text_eq token expected)) [
    | inl same ↦ e ∙ ap some (sym ((text_eq_iff token expected).0 same))
    | inr other ↦ absurd (ground arith)
  ]
]

static_write_complete :
    (config : Config) (headers : Headers) (token : Text)
    → config.admin_api_token ≡ some token
    → static_write config headers token ≡ ok tt
unfolding static_write
static_write_complete config headers token e = rw (e, (text_eq_iff token token).1 refl) refl

static_scopes_sound :
    (config : Config) (headers : Headers) (token : Text) (scopes : List Text)
    → static_scopes config headers token ≡ ok scopes
    → config.admin_api_token ≡ some token
unfolding static_scopes
static_scopes_sound config headers token scopes h = elim (Option-cases config.admin_api_token) [
  | inl e ↦ absurd (ground arith)
  | inr (expected, e) ↦ elim (Bool-cases (text_eq token expected)) [
    | inl same ↦ e ∙ ap some (sym ((text_eq_iff token expected).0 same))
    | inr other ↦ absurd (ground arith)
  ]
]

static_scopes_complete :
    (config : Config) (headers : Headers) (token : Text)
    → config.admin_api_token ≡ some token
    → static_scopes config headers token ≡ ok all_scopes
unfolding static_scopes
static_scopes_complete config headers token e = rw (e, (text_eq_iff token token).1 refl) refl

-- authorize_admin_write lets a request through exactly when it carries a token that is the
-- configured one or that of a stored credential which is not revoked and has the scope
-- admin.write.
pub authorize_admin_write-MayUse :
    (config : Config) (headers : Headers) (store : Store)
    → (authorize_admin_write config headers store ≡ ok tt)
      ↔ MayUse config headers store (codes "admin.write")
unfolding authorize_admin_write
authorize_admin_write-MayUse config headers store = (forth, back)
  where
    forth :
        authorize_admin_write config headers store ≡ ok tt
        → MayUse config headers store (codes "admin.write")
    forth h = elim (Option-cases (bearer_token headers)) [
      | inl e ↦ absurd (ground arith)
      | inr (token, e) ↦ elim (Option-cases (granted store token (codes "admin.write"))) [
        | inr (scopes, g) ↦ record {
          token = token;
          carried = e;
          known = inl (granted_sound store token _ scopes g);
        }
        | inl g ↦ record {
          token = token;
          carried = e;
          known =
              inr (static_write_sound config headers token (rw (authorize_admin_write, e, g) at h));
        }
      ]
    ]

    back :
        MayUse config headers store (codes "admin.write")
        → authorize_admin_write config headers store ≡ ok tt
    back m = elim (Option-cases (granted store m.token (codes "admin.write"))) [
      | inr (scopes, g) ↦ rw (authorize_admin_write, m.carried, g) refl
      | inl g ↦ elim m.known [
        | inl known ↦ absurd (cc (granted_complete store m.token _ known).1)
        | inr e ↦
            rw (authorize_admin_write, m.carried, g)
              (static_write_complete config headers m.token e)
      ]
    ]

-- So is reading to one that may use the scope of the route.
pub authorize_for_scope_sound :
    (config : Config) (headers : Headers) (scope : Text) (store : Store) (scopes : List Text)
    → authorize_for_scope config headers scope store ≡ ok scopes
    → MayUse config headers store scope
unfolding authorize_for_scope
authorize_for_scope_sound config headers scope store scopes h =
    elim (Option-cases (bearer_token headers)) [
      | inl e ↦ absurd (ground arith)
      | inr (token, e) ↦ elim (Option-cases (granted store token scope)) [
        | inr (found, g) ↦ record {
          token = token;
          carried = e;
          known = inl (granted_sound store token _ found g);
        }
        | inl g ↦ record {
          token = token;
          carried = e;
          known = inr (
              static_scopes_sound config headers token scopes
                (rw (authorize_for_scope, e, g) at h));
        }
      ]
    ]

pub authorize_for_scope_complete :
    (config : Config) (headers : Headers) (scope : Text) (store : Store)
    → MayUse config headers store scope
    → (scopes : List Text) × (authorize_for_scope config headers scope store ≡ ok scopes)
unfolding authorize_for_scope
authorize_for_scope_complete config headers scope store m =
    elim (Option-cases (granted store m.token scope)) [
      | inr (scopes, g) ↦ (scopes, rw (authorize_for_scope, m.carried, g) refl)
      | inl g ↦ elim m.known [
        | inl known ↦ absurd (cc (granted_complete store m.token _ known).1)
        | inr e ↦ (
          all_scopes,
          rw (authorize_for_scope, m.carried, g) (static_scopes_complete config headers m.token e),
        )
      ]
    ]

-- A route that reads is answered exactly for a request that carries a token which is the
-- configured one or that of a stored credential which is not revoked and has the scope api.read.
pub read-MayUse :
    (route : Read) (state : AppState) (headers : Headers) (now : Text) (store : Store)
    → ((fields : Fields) × (read route state headers now store ≡ ok fields))
      ↔ MayUse state.config headers store (codes "api.read")
unfolding read
read-MayUse route state headers now store = (forth, back)
  where
    forth :
        (fields : Fields) × (read route state headers now store ≡ ok fields)
        → MayUse state.config headers store (codes "api.read")
    forth (fields, h) =
        let (scopes, e, _) =
          >>=-eq-ok (authorize_for_scope state.config headers (codes "api.read") store) _ h in
        authorize_for_scope_sound state.config headers _ store scopes e

    back :
        MayUse state.config headers store (codes "api.read")
        → (fields : Fields) × (read route state headers now store ≡ ok fields)
    back m =
        let (scopes, e) = authorize_for_scope_complete state.config headers _ store m in
        (body route scopes now state, rw e refl)
