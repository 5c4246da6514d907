-- ===== src/Billing/HashLaws.antt =====
-- The hashes of src/api/billing/mod.rs before and after a counted call.
use conxian_nexus.Prelude.{◌+◌, ◌≡◌, ◌≢◌, refl, ap, ◌∙◌, some, Text}
use conxian_nexus.Prelude.Dict.{lookup, insert, lookup-insert, lookup-insert_other}
use conxian_nexus.Prelude.Int.{ℤ}
use conxian_nexus.Billing.Keys.{TelemetryRequest, KeyHash, Billing, redis_key}

-- The hash after a call that was counted.
pub record IsCounted (payload : TelemetryRequest) (hash : KeyHash) (before after : Billing)
    : Type 0 where
  pub next : KeyHash
  pub kept : lookup (redis_key payload.api_key) after.keys ≡ some next
  pub counted : next.usage ≡ hash.usage + 1
  pub secret : next.secret ≡ hash.secret
  pub others :
      (key : Text)
      → redis_key payload.api_key ≢ key
      → lookup key after.keys ≡ lookup key before.keys

pub plain :
    (payload : TelemetryRequest) (hash : KeyHash) (s sent : Billing)
    → sent.keys ≡ insert (redis_key payload.api_key) (record hash { usage = hash.usage + 1 }) s.keys
    → IsCounted payload hash s sent
plain payload hash s sent e =
    let key = redis_key payload.api_key in
    let hash' = record hash { usage = hash.usage + 1 } in
    record {
      next = hash';
      kept = ap (lookup key) e ∙ lookup-insert key hash' s.keys;
      counted = refl;
      secret = refl;
      others = λ other d. ap (lookup other) e ∙ lookup-insert_other key other hash' s.keys d;
    }

pub started :
    (payload : TelemetryRequest) (hash : KeyHash) (s : Billing) (start : ℤ) (sent : Billing)
    → sent.keys ≡ insert (redis_key payload.api_key) (record hash { usage = hash.usage + 1 }) s.keys
    → IsCounted payload hash s (record sent {
      keys =
          insert
            (redis_key payload.api_key)
            (record hash { usage = hash.usage + 1; grace_period_start = some start })
            sent.keys;
    })
started payload hash s start sent e =
    let key = redis_key payload.api_key in
    let hash' = record hash { usage = hash.usage + 1 } in
    let hash'' = record hash { usage = hash.usage + 1; grace_period_start = some start } in
    record {
      next = hash'';
      kept = lookup-insert key hash'' sent.keys;
      counted = refl;
      secret = refl;
      others = λ other d.
          lookup-insert_other key other hash'' sent.keys d
          ∙ ap (lookup other) e
          ∙ lookup-insert_other key other hash' s.keys d;
    }
