-- ===== src/Tests/ConfigTests.antt =====
-- The configuration and the boundary check on concrete environments.
use conxian_nexus.Prelude.{◌≡◌, refl, true, false, none, some, [], ◌∷◌, Text, codes, trim}
use conxian_nexus.Prelude.Dict.{lookup}
use conxian_nexus.Prelude.Result.{ok}
use conxian_nexus.Config.Env.{
  Env, present, var, Config, parse_flag, env_flag, required_url, trusted_keys, connections,
  zkml_vks, assemble, from_env, rpc_url, trimmed, untrimmed, var_or,
}
use conxian_nexus.Config.Boundary.{
  is_set, is_local, check_redis, check_database, pg_unauthenticated, boundary_check,
}
use conxian_nexus.Config.BoundaryLaws.{IsGuarded, check_database-user, from_env-boundary_check}

abbrev env : Env
env =
    (codes "DATABASE_URL", some (codes " postgres://nexus:pw@db.example/nexus"))
    ∷ (codes "REDIS_URL", some (codes "redis://:pw@cache.example:6379"))
    ∷ (codes "ORACLE_ENABLED", some (codes "Yes"))
    ∷ []

abbrev config : Config
config = record {
  database_url = codes "postgres://nexus:pw@db.example/nexus";
  redis_url = codes "redis://:pw@cache.example:6379";
  rest_port = 3000;
  grpc_port = 50_051;
  stacks_node_rpc_url = codes "https://api.mainnet.hiro.so/";
  stacks_node_ws_url = codes "wss://api.mainnet.hiro.so/";
  gateway_url = none;
  experimental_apis_enabled = false;
  nostr_secret_key = none;
  nostr_relays = codes "ws://127.0.0.1:8080" ∷ [];
  tableland_base_url = codes "https://validator.tableland.xyz";
  kwil_provider_url = none;
  kwil_db_id = none;
  kwil_private_key_hex = none;
  oracle_enabled = true;
  oracle_stub_ok = false;
  oracle_endpoint_url = none;
  oracle_contract_principal = none;
  erp_attestation_trusted_keys = [];
  rust_log = codes "info";
  worldid_app_id = [];
  zkml_vks = [];
  admin_api_token = none;
  admin_public_keys = [];
  otel_exporter_otlp_endpoint = none;
  otel_service_name = codes "conxian-nexus";
}

-- No password between the user and the host.
check_database-user_example : check_database [] (codes "postgres://nexus@db.example/nexus") ≡ ok tt
unfolding is_local
check_database-user_example = check_database-user [] (codes "nexus") (codes "db.example/nexus") refl

from_env-boundary_check_example :
    IsGuarded config.database_url config.redis_url
    × ((raw : Text) × (var env (codes "DATABASE_URL") ≡ present raw)
        × (config.database_url ≡ trim raw))
    × ((raw : Text) × (var env (codes "REDIS_URL") ≡ present raw) × (config.redis_url ≡ trim raw))
unfolding from_env connections required_url env_flag parse_flag trusted_keys zkml_vks assemble
    rpc_url trimmed untrimmed var_or var lookup trim boundary_check check_redis check_database
    pg_unauthenticated is_local is_set
from_env-boundary_check_example =
    from_env-boundary_check (λ raw. none) env config refl refl refl refl
