-- ===== src/Grpc/Flags.antt =====
-- What src/api/grpc.rs reads of Redis and keeps of the database: the flags of the safety mode, and
-- the cache of the counts. Times are milliseconds.
use conxian_nexus.Prelude.{
  ℕ, ◌-◌, Bool, true, false, Option, none, some, Text, codes, trim, to_ascii_lowercase, is_empty,
  u64_mod, ltb, if◌then◌else◌,
}
use conxian_nexus.Prelude.Int.{ℤ, as_u64}
use conxian_nexus.Prelude.Result.{Result, ok, err}
use conxian_nexus.Config.Env.{parse_flag, parse_unsigned}

-- The values of `nexus:safety_mode` and `nexus:drift`.
abbrev pub Raw : Type 0
Raw = Option Text × Option Text

-- How the calls of Redis end: the first connection and pipeline, and those of the second try.
pub record Calls : Type 0 where
  pub connects : Bool
  pub pipeline : Option Raw
  pub reconnects : Bool
  pub second_pipeline : Option Raw

abbrev safety_of : Option Text → Bool
safety_of none = false
safety_of (some raw) = parse_flag (to_ascii_lowercase (trim raw))

abbrev number_of : Option ℕ → ℕ
number_of none = 0
number_of (some n) = n

abbrev drift_of : Option Text → ℕ
drift_of none = 0
drift_of (some raw) =
    if is_empty (trim raw) then 0 else number_of (parse_unsigned u64_mod (trim raw))

unfoldable pub parse_flags : Raw → Bool × ℕ
unfolding parse_flag trim
parse_flags (safety_raw, drift_raw) = (safety_of safety_raw, drift_of drift_raw)

-- Redis is out of reach.
abbrev pub default_flags : Bool × ℕ
default_flags = (true, 0)

-- The second try, on a new connection. The first component is whether a connection is kept.
unfoldable pub retry : Calls → Bool × (Bool × ℕ)
unfolding parse_flags
retry calls =
    if calls.reconnects
    then elim calls.second_pipeline [
      | none ↦ (false, default_flags)
      | some raw ↦ (true, parse_flags raw)
    ]
    else (false, default_flags)

unfoldable pub read_flags : Calls → Bool × (Bool × ℕ)
unfolding retry parse_flags
read_flags calls = elim calls.pipeline [ none ↦ retry calls | some raw ↦ (true, parse_flags raw) ]

-- The argument behind the calls is whether a connection is kept.
unfoldable pub read_safety_flags : Calls → Bool → Bool × (Bool × ℕ)
unfolding read_flags
read_safety_flags calls true = read_flags calls
read_safety_flags calls false = if calls.connects then read_flags calls else (false, default_flags)

pub record MetricsCounts : Type 0 where
  pub cached_at : ℕ
  pub tx_count : ℕ
  pub block_count : ℕ

abbrev pub metrics_counts_cache_ttl : ℕ
metrics_counts_cache_ttl = 10_000

unfoldable pub read_fresh_cached_metrics_counts : ℕ → Option MetricsCounts → Option (ℕ × ℕ)
read_fresh_cached_metrics_counts now none = none
read_fresh_cached_metrics_counts now (some c) =
    if ltb (now - c.cached_at) metrics_counts_cache_ttl
    then some (c.tx_count, c.block_count)
    else none

-- The counts of the query.
unfoldable pub fetch_metrics_counts : Option (ℤ × ℤ) → Result (ℕ × ℕ) Text
fetch_metrics_counts none = err (codes "Database error in GetMetrics")
fetch_metrics_counts (some (tx_count, block_count)) = ok (as_u64 tx_count, as_u64 block_count)

unfoldable pub refresh :
    ℕ → Result (ℕ × ℕ) Text → Option MetricsCounts → Option MetricsCounts × Result (ℕ × ℕ) Text
refresh now (err e) cache = (cache, err e)
refresh now (ok (tx_count, block_count)) cache = (
  some (record { cached_at = now; tx_count = tx_count; block_count = block_count }),
  ok (tx_count, block_count),
)

-- The times are those of the two looks at the cache and of the new entry.
unfoldable pub read_cached_metrics_counts :
    ℕ → ℕ → ℕ → Option (ℤ × ℤ) → Option MetricsCounts → Option MetricsCounts × Result (ℕ × ℕ) Text
unfolding read_fresh_cached_metrics_counts fetch_metrics_counts refresh
read_cached_metrics_counts first second third counts cache =
    elim (read_fresh_cached_metrics_counts first cache) [
      | some fresh ↦ (cache, ok fresh)
      | none ↦ elim (read_fresh_cached_metrics_counts second cache) [
        | some fresh ↦ (cache, ok fresh)
        | none ↦ refresh third (fetch_metrics_counts counts) cache
      ]
    ]
