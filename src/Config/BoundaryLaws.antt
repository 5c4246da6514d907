-- ===== src/Config/BoundaryLaws.antt =====
-- What a release build lets through: src/config.rs and src/storage/mod.rs together.
use mathlib.Core.Path.{subst}
use mathlib.Core.Option.{some-injective}
use conxian_nexus.Prelude.{
  ℕ, suc, ◌≡◌, refl, sym, ap, ◌⊎◌, inl, inr, Bool, true, false, not, ◌&&◌, ◌||◌, Option, none, some,
  List, [], ◌∷◌, ◌++◌, Text, codes, contains, position, trim, is_empty, ◌==◌, Bool-cases, arith,
}
use conxian_nexus.Prelude.Result.{
  Result, ok, err, ok_or, >>=-eq-ok, ok_inj, guard_passed, not_refused,
}
use conxian_nexus.Config.Env.{
  Env, Var, present, not_present, not_unicode, var, Config, default_database_url, default_redis_url,
  required_url, env_flag, fall_back, trusted_keys, oracle_guard, connections, zkml_vks, assemble,
  from_env, parse_unsigned, var_or,
}
use conxian_nexus.Config.Boundary.{
  is_set, is_local, pg_unauthenticated, check_redis, check_database, boundary_check,
}

contains_at : (s t : Text) → contains (s ++ b'@' ∷ t) (codes "@") ≡ true
contains_at [] t = refl
contains_at (c ∷ s) t = rw (contains_at s t) ground arith

position_at : (s t : Text) → (i : ℕ) × (position (λ ch. ch == b'@') (s ++ b'@' ∷ t) ≡ some i)
position_at [] t = (0, refl)
position_at (c ∷ s) t = elim (Bool-cases (c == b'@')) [
  | inl hit ↦ (0, rw (position, hit) refl)
  | inr miss ↦ let (i, e) = position_at s t in (suc i, rw (position, miss, e) refl)
]

-- A URL with a user and no password.
pg_unauthenticated-user :
    (user host : Text) → pg_unauthenticated (codes "postgres://" ++ (user ++ b'@' ∷ host)) ≡ false
unfolding pg_unauthenticated
pg_unauthenticated-user user host =
    let (i, e) = position_at user host in rw (contains_at user host, position, e) ground arith

-- check_database lets through every PostgreSQL URL that is not local and has "@" behind the
-- scheme, whatever stands between them: a user without a password is enough.
pub check_database-user :
    (env : Env) (user host : Text)
    → is_local (codes "postgres://" ++ (user ++ b'@' ∷ host)) ≡ false
    → check_database env (codes "postgres://" ++ (user ++ b'@' ∷ host)) ≡ ok tt
unfolding check_database
check_database-user env user host remote =
    rw (check_database, remote, pg_unauthenticated-user user host) refl

denied : (bad set : Bool) → bad && not set ≡ false → set ≡ false → bad ≡ false
denied true set h k = cc
denied false set h k = refl

or_false : (a b : Bool) → a || b ≡ false → (a ≡ false) × (b ≡ false)
or_false true b h = cc
or_false false b h = (refl, h)

-- What the check of a release build without overrides means.
pub record IsGuarded (database_url redis_url : Text) : Type 0 where
  pub database_remote : is_local database_url ≡ false
  pub database_authenticated : pg_unauthenticated database_url ≡ false
  pub redis_remote : is_local redis_url ≡ false
  pub redis_authenticated : contains redis_url (codes "@") ≡ true

boundary_check-IsGuarded :
    (env : Env) (database_url redis_url : Text)
    → boundary_check false env database_url redis_url ≡ ok tt
    → is_set env (codes "NEXUS_ALLOW_UNSAFE_DB") ≡ false
    → is_set env (codes "NEXUS_ALLOW_UNSAFE_REDIS") ≡ false
    → IsGuarded database_url redis_url
unfolding boundary_check check_redis check_database
boundary_check-IsGuarded env database_url redis_url h no_db no_redis =
    let (_, redis, database) = >>=-eq-ok (check_redis env redis_url) _ h in
    let (redis_bad, _) = guard_passed _ _ _ redis in
    let (database_bad, _) = guard_passed _ _ _ database in
    let (r1, r2) = or_false _ _ (denied _ _ redis_bad no_redis) in
    let (d1, d2) = or_false _ _ (denied _ _ database_bad no_db) in
    record {
      database_remote = d1;
      database_authenticated = d2;
      redis_remote = r1;
      redis_authenticated = not_refused (contains redis_url (codes "@")) r2;
    }

fall_back-default : (allow : Bool) (key d url : Text) → fall_back allow key d ≡ ok url → url ≡ d
fall_back-default true key d url h = sym (ok_inj h)
fall_back-default false key d url h = cc

-- The URL is the default, or the variable without the blanks around it.
abbrev IsChosen : Env → Text → Text → Text → Type 0
IsChosen env key d url = (url ≡ d) ⊎ ((raw : Text) × (var env key ≡ present raw) × (url ≡ trim raw))

required_url-IsChosen :
    (allow : Bool) (env : Env) (key d url : Text) (v : Var)
    → var env key ≡ v
    → required_url allow env key d ≡ ok url
    → IsChosen env key d url
unfolding required_url
required_url-IsChosen allow env key d url not_present e h =
    inl (fall_back-default allow key d url (rw (required_url, e) at h))
required_url-IsChosen allow env key d url not_unicode e h = absurd (cc (rw (required_url, e) at h))
required_url-IsChosen allow env key d url (present raw) e h =
    elim (Bool-cases (is_empty (trim raw))) [
      | inl blank ↦ inl (fall_back-default allow key d url (rw (required_url, e, blank) at h))
      | inr given ↦ inr (raw, e, sym (ok_inj (rw (required_url, e, given) at h)))
    ]

-- A chosen URL that is remote is not the default.
given :
    (env : Env) (key d url : Text)
    → IsChosen env key d url
    → is_local d ≡ true
    → is_local url ≡ false
    → (raw : Text) × (var env key ≡ present raw) × (url ≡ trim raw)
given env key d url (inl e) near far = absurd (cc (ap is_local e, near, far))
given env key d url (inr chosen) near far = chosen

module _ (from_str : Text → Option (List (Text × Text))) (env : Env) where
  connections-IsChosen :
      (database_url redis_url : Text) (keys : List (Text × Text))
      → connections from_str false env ≡ ok (database_url, redis_url, keys)
      → IsChosen env (codes "DATABASE_URL") default_database_url database_url
        × IsChosen env (codes "REDIS_URL") default_redis_url redis_url
  unfolding connections
  connections-IsChosen database_url redis_url keys h =
      let (database, e1, h1) =
        >>=-eq-ok
          (required_url (env_flag env (codes "ALLOW_DEFAULT_DB")) env (codes "DATABASE_URL")
            default_database_url)
          _ h in
      let (redis, e2, h2) =
        >>=-eq-ok
          (required_url (env_flag env (codes "ALLOW_DEFAULT_REDIS")) env (codes "REDIS_URL")
            default_redis_url)
          _ h1 in
      let (_, _, h3) = >>=-eq-ok (oracle_guard from_str env) _ h2 in
      let (_, _, h4) = >>=-eq-ok (trusted_keys from_str env) _ h3 in
      let same = ok_inj h4 in
      let database_is : database ≡ database_url =
        ap (λ (p : Text × Text × List (Text × Text)). p.0) same in
      let redis_is : redis ≡ redis_url = ap (λ (p : Text × Text × List (Text × Text)). p.1) same in
      (
        subst (IsChosen env _ _) database_is (required_url-IsChosen _ env _ _ database _ refl e1),
        subst (IsChosen env _ _) redis_is (required_url-IsChosen _ env _ _ redis _ refl e2),
      )

  assemble-urls :
      (database_url redis_url : Text) (keys vks : List (Text × Text)) (config : Config)
      → assemble env database_url redis_url keys vks ≡ ok config
      → (config.database_url ≡ database_url) × (config.redis_url ≡ redis_url)
  unfolding assemble
  assemble-urls database_url redis_url keys vks config h =
      let (_, _, h1) =
        >>=-eq-ok (ok_or (parse_unsigned 65_536 (var_or env (codes "REST_PORT") (codes "3000"))) _)
          _ h in
      let (_, _, h2) =
        >>=-eq-ok (ok_or (parse_unsigned 65_536 (var_or env (codes "GRPC_PORT") (codes "50051"))) _)
          _ h1 in
      let same = sym (ok_inj h2) in
      (ap (λ (c : Config). c.database_url) same, ap (λ (c : Config). c.redis_url) same)

  from_env-IsChosen :
      (config : Config) (found : Result (Text × Text × List (Text × Text)) Text)
      (vks : Option (List (Text × Text)))
      → connections from_str false env ≡ found
      → zkml_vks env ≡ vks
      → from_env from_str false env ≡ some (ok config)
      → IsChosen env (codes "DATABASE_URL") default_database_url config.database_url
        × IsChosen env (codes "REDIS_URL") default_redis_url config.redis_url
  unfolding from_env
  from_env-IsChosen config (err e) vks c z h =
      absurd (cc (some-injective _ _ (rw (from_env, c) at h)))
  from_env-IsChosen config (ok (database, redis, keys)) none c z h =
      absurd (cc (rw (from_env, c, z) at h))
  from_env-IsChosen config (ok (database, redis, keys)) (some vks) c z h =
      let (d, r) =
        assemble-urls database redis keys vks config
          (some-injective _ _ (rw (from_env, c, z) at h)) in
      let (chosen_database, chosen_redis) = connections-IsChosen database redis keys c in
      (
        subst (IsChosen env _ _) (sym d) chosen_database,
        subst (IsChosen env _ _) (sym r) chosen_redis,
      )

-- When a release build reads its configuration and passes the boundary checks, and neither
-- override is set, both URLs come from the environment, without the blanks around them, neither is
-- local, the Redis URL has an "@", and the PostgreSQL URL passes the heuristic for credentials.
pub from_env-boundary_check :
    (from_str : Text → Option (List (Text × Text))) (env : Env) (config : Config)
    → from_env from_str false env ≡ some (ok config)
    → boundary_check false env config.database_url config.redis_url ≡ ok tt
    → is_set env (codes "NEXUS_ALLOW_UNSAFE_DB") ≡ false
    → is_set env (codes "NEXUS_ALLOW_UNSAFE_REDIS") ≡ false
    → IsGuarded config.database_url config.redis_url
      × ((raw : Text) × (var env (codes "DATABASE_URL") ≡ present raw)
          × (config.database_url ≡ trim raw))
      × ((raw : Text) × (var env (codes "REDIS_URL") ≡ present raw) × (config.redis_url ≡ trim raw))
unfolding is_local
from_env-boundary_check from_str env config h passed no_db no_redis =
    let guarded =
      boundary_check-IsGuarded env config.database_url config.redis_url passed no_db no_redis in
    let (database, redis) = from_env-IsChosen from_str env config _ _ refl refl h in
    (
      guarded,
      given env _ _ _ database refl guarded.database_remote,
      given env _ _ _ redis refl guarded.redis_remote,
    )
