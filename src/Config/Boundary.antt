-- ===== src/Config/Boundary.antt =====
-- `Storage::new` of src/storage/mod.rs. How the two clients open is an argument.
use conxian_nexus.Prelude.{
  ℕ, Bool, true, false, not, ◌&&◌, ◌||◌, Option, none, some, ◌++◌, Text, codes, contains, position,
  ltb, ◌==◌, if◌then◌else◌,
}
use conxian_nexus.Prelude.Result.{Result, ok, err, ◌>>◌}
use conxian_nexus.Config.Env.{Env, present, not_present, not_unicode, var}

-- `env::var(key).is_ok()`
unfoldable pub is_set : Env → Text → Bool
unfolding var
is_set env key = elim (var env key) [
  | present raw ↦ true
  | not_present ↦ false
  | not_unicode ↦ false
]

unfoldable pub is_local : Text → Bool
is_local url = contains url (codes "127.0.0.1") || contains url (codes "localhost")

-- `a > b` of two positions, where none is the least.
abbrev pub is_after : Option ℕ → Option ℕ → Bool
is_after none b = false
is_after (some m) none = true
is_after (some m) (some n) = ltb n m

unfoldable pub pg_unauthenticated : Text → Bool
pg_unauthenticated url =
    not (contains url (codes ":"))
    || (not (contains url (codes "@"))
        || is_after (position (λ ch. ch == b':') url) (position (λ ch. ch == b'@') url))

abbrev show_bool : Bool → Text
show_bool true = codes "true"
show_bool false = codes "false"

abbrev violation : Text → Bool → Bool → Text → Text
violation service local unauthenticated override =
    codes "Production boundary violation: "
    ++ (service
        ++ (codes " must be authenticated and remote in release builds. (Local: "
            ++ (show_bool local
                ++ (codes ", Unauthenticated: "
                    ++ (show_bool unauthenticated
                        ++ (codes "). Set " ++ (override ++ codes "=1 to override.")))))))

unfoldable pub check_redis : Env → Text → Result (Unit {0}) Text
unfolding is_set is_local
check_redis env redis_url =
    let unauthenticated = not (contains redis_url (codes "@")) in
    if (is_local redis_url || unauthenticated)
      && not (is_set env (codes "NEXUS_ALLOW_UNSAFE_REDIS"))
    then err (
        violation (codes "Redis") (is_local redis_url) unauthenticated
          (codes "NEXUS_ALLOW_UNSAFE_REDIS"))
    else ok tt

unfoldable pub check_database : Env → Text → Result (Unit {0}) Text
unfolding is_set is_local pg_unauthenticated
check_database env database_url =
    if (is_local database_url || pg_unauthenticated database_url)
      && not (is_set env (codes "NEXUS_ALLOW_UNSAFE_DB"))
    then err (
        violation (codes "PostgreSQL") (is_local database_url) (pg_unauthenticated database_url)
          (codes "NEXUS_ALLOW_UNSAFE_DB"))
    else ok tt

-- The first argument is `cfg!(debug_assertions)`.
unfoldable pub boundary_check : Bool → Env → Text → Text → Result (Unit {0}) Text
unfolding check_redis check_database
boundary_check true env database_url redis_url = ok tt
boundary_check false env database_url redis_url = do
  check_redis env redis_url
  check_database env database_url

-- `Storage::new`, with the results of the two clients.
unfoldable pub new_storage :
    Bool
    → Env
    → Result (Unit {0}) Text
    → Result (Unit {0}) Text
    → Text
    → Text
    → Result (Unit {0}) Text
unfolding boundary_check
new_storage debug env pg_pool redis_client database_url redis_url = do
  boundary_check debug env database_url redis_url
  pg_pool
  redis_client
  ok tt
