-- ===== src/Safety/ExecutorLaws.antt =====
-- Admission by the sequencer of src/executor/mod.rs.
use conxian_nexus.Prelude.{
  ℕ, ◌+◌, ◌<◌, ◌≡◌, refl, ap, ◌∙◌, sym, lt→ltb, inl, inr, Option-cases, Bool, true, false, Option,
  none, some, List, [], ◌∷◌, Text, All, codes, if◌then◌else◌, arith,
}
use mathlib.Core.Path.{subst}
use conxian_nexus.Prelude.Int.{ℤ, ◌<ℤ◌}
use conxian_nexus.Prelude.Result.{Result, ok, err, ok_inj}
use conxian_nexus.State.Crypto.{Crypto}
use conxian_nexus.Safety.Monitor.{
  Redis, Link, is_safety_mode_active, get_processed_height, check_health,
}
use conxian_nexus.Safety.MonitorLaws.{IsUp, check_health-active}
use conxian_nexus.Safety.Executor.{
  ExecutionRequest, AuditRow, Executor, later, max_arrival, fill,
  get_cached_or_fetch_latest_event_time, judge, is_later, validate_transaction, check_safety_mode,
  audit_row, record_request, submit,
}

-- Every time there is comes before `m`.
abbrev pub Before : ℤ → Option ℤ → Type 0
Before m none = Unit
Before m (some t) = t <ℤ m

later-Before : (m t : ℤ) (o : Option ℤ) → Before m (some (later t o)) → (t <ℤ m) × Before m o
later-Before m t none h = (h, tt)
later-Before m t (some u) h = ground arith

-- The greatest arrival time bounds each one.
max_arrival-Before :
    (m : ℤ) (rows : List AuditRow)
    → Before m (max_arrival rows)
    → All (λ row. row.arrival_time <ℤ m) rows
unfolding max_arrival
max_arrival-Before m [] h = tt
max_arrival-Before m (row ∷ rows) h =
    let (first, rest) = later-Before m row.arrival_time (max_arrival rows) h in
    (first, max_arrival-Before m rows rest)

none-some : {A B : Type 0} {a : A} → ◌≡◌ {A = Option A} none (some a) → B
none-some h = cc

err-ok : {A E B : Type 0} {e : E} {a : A} → ◌≡◌ {A = Result A E} (err e) (ok a) → B
err-ok h = cc

is_later-Before :
    (request : ExecutionRequest) (o : Option ℤ)
    → is_later request o ≡ true
    → Before request.timestamp o
is_later-Before request none h = tt
is_later-Before request (some t) h = ground arith

fetch-empty :
    (answered : Bool) (s : Executor)
    → s.latest_event_time_cache ≡ none
    → get_cached_or_fetch_latest_event_time answered s ≡ (
        if answered
        then (fill (max_arrival s.audit_log) s, ok (max_arrival s.audit_log))
        else (s, err (codes "database")))
unfolding get_cached_or_fetch_latest_event_time
fetch-empty answered s e = simp (e, get_cached_or_fetch_latest_event_time)

fetch-cached :
    (answered : Bool) (s : Executor) (t : ℤ)
    → s.latest_event_time_cache ≡ some t
    → get_cached_or_fetch_latest_event_time answered s ≡ (s, ok (some t))
unfolding get_cached_or_fetch_latest_event_time
fetch-cached answered s t e = simp (e, get_cached_or_fetch_latest_event_time)

is_later-after :
    (request : ExecutionRequest) (t : ℤ) → t <ℤ request.timestamp → is_later request (some t) ≡ true
is_later-after request t h = ground arith

pub validate_transaction-cached :
    (request : ExecutionRequest) (answered : Bool) (s : Executor) (t : ℤ)
    → s.latest_event_time_cache ≡ some t
    → t <ℤ request.timestamp
    → validate_transaction request answered s ≡ (s, ok true)
unfolding validate_transaction
validate_transaction-cached request answered s t e h =
    ap (λ p. (p.0, judge request p.1)) (fetch-cached answered s t e)
    ∙ ap (λ b. (s, ok b)) (is_later-after request t h)

fill-log : (o : Option ℤ) (s : Executor) → (fill o s).audit_log ≡ s.audit_log
fill-log none s = refl
fill-log (some t) s = refl

fetched :
    (request : ExecutionRequest) (answered : Bool) (s : Executor)
    → get_cached_or_fetch_latest_event_time answered s ≡ (
        if answered
        then (fill (max_arrival s.audit_log) s, ok (max_arrival s.audit_log))
        else (s, err (codes "database")))
    → judge request (get_cached_or_fetch_latest_event_time answered s).1 ≡ ok true
    → ((get_cached_or_fetch_latest_event_time answered s).0.audit_log ≡ s.audit_log)
      × All (λ row. row.arrival_time <ℤ request.timestamp) s.audit_log
fetched request true s e h = (
  ap (λ p. p.0.audit_log) e ∙ fill-log (max_arrival s.audit_log) s,
  max_arrival-Before request.timestamp s.audit_log (
      is_later-Before request (max_arrival s.audit_log)
        (ok_inj (ap (λ p. judge request p.1) (sym e) ∙ h))),
)
fetched request false s e h = err-ok (ap (λ p. judge request p.1) (sym e) ∙ h)

-- What a request that passes the validation has been compared with.
validate_transaction-true :
    (request : ExecutionRequest) (answered : Bool) (s : Executor)
    → (validate_transaction request answered s).1 ≡ ok true
    → ((validate_transaction request answered s).0.audit_log ≡ s.audit_log)
      × Before request.timestamp s.latest_event_time_cache
      × (s.latest_event_time_cache ≡ none
          → All (λ row. row.arrival_time <ℤ request.timestamp) s.audit_log)
unfolding validate_transaction
validate_transaction-true request answered s h = elim (Option-cases s.latest_event_time_cache) [
  | inl empty ↦
      let (kept, late) = fetched request answered s (fetch-empty answered s empty) h in
      (kept, subst (Before request.timestamp) (sym empty) tt, λ _. late)
  | inr (t, held) ↦
      let e = fetch-cached answered s t held in
      (
        ap (λ p. p.0.audit_log) e,
        subst (Before request.timestamp) (sym held)
            (is_later-Before request (some t) (ok_inj (ap (λ p. judge request p.1) (sym e) ∙ h))),
        (λ empty. none-some (sym empty ∙ held)),
      )
]

module _ (c : Crypto) where
  -- While safety mode is on, nothing is admitted and nothing is written.
  pub submit-blocked :
      (link : Link) (redis : Redis) (request : ExecutionRequest) (answered inserted : Bool)
      (s : Executor)
      → is_safety_mode_active link redis ≡ ok true
      → ((submit c link redis request answered inserted s).0 ≡ s)
        × (e : Text) × ((submit c link redis request answered inserted s).1 ≡ err e)
  unfolding submit check_safety_mode
  submit-blocked link redis request answered inserted s h =
      rw (h, submit, check_safety_mode) (refl, _, refl)

  -- After a health check, with Redis up, in which the chain is more than two blocks ahead of the
  -- processed height, a submission gets an error and leaves the cache and the audit log as they
  -- were.
  pub check_health-submit :
      (link : Link) (burn height : ℕ) (processed : Result (Option ℤ) Text) (redis : Redis)
      (request : ExecutionRequest) (answered inserted : Bool) (s : Executor)
      → IsUp link
      → get_processed_height processed ≡ ok height
      → height + 2 < burn
      → ((submit c link
            (check_health link (ok burn) processed redis).0
            request
            answered
            inserted
            s).0
          ≡ s)
        × (e : Text) × ((submit c link
              (check_health link (ok burn) processed redis).0
              request
              answered
              inserted
              s).1
            ≡ err e)
  check_health-submit link burn height processed redis request answered inserted s up e ahead =
      submit-blocked link (check_health link (ok burn) processed redis).0 request answered inserted
        s
        (check_health-active link burn height processed redis up e
          ∙ ap ok (lt→ltb (height + 2) burn ahead))

  record_request-accepted :
      (request : ExecutionRequest) (inserted : Bool) (p : Executor × Result Bool Text) (id : Text)
      → (record_request c request inserted p).1 ≡ ok id
      → (p.1 ≡ ok true)
        × ((record_request c request inserted p).0.audit_log ≡ audit_row c request ∷ p.0.audit_log)
  unfolding record_request
  record_request-accepted request inserted (s, ok true) id h = ground arith
  record_request-accepted request inserted (s, ok false) id h = cc
  record_request-accepted request inserted (s, err e) id h = cc

  submit-safe :
      (link : Link) (redis : Redis) (request : ExecutionRequest) (answered inserted : Bool)
      (s : Executor) (id : Text)
      → (submit c link redis request answered inserted s).1 ≡ ok id
      → submit c link redis request answered inserted s
        ≡ record_request c request inserted (validate_transaction request answered s)
  unfolding submit
  submit-safe link redis request answered inserted s id h = ground arith

  -- When submit accepts a request, its row is the one put in front of the audit log, its time is
  -- after the cached time if there is one, and if the cache was empty its time is after that of
  -- every row of the log.
  pub submit-accepted :
      (link : Link) (redis : Redis) (request : ExecutionRequest) (answered inserted : Bool)
      (s : Executor) (id : Text)
      → (submit c link redis request answered inserted s).1 ≡ ok id
      → ((submit c link redis request answered inserted s).0.audit_log
          ≡ audit_row c request ∷ s.audit_log)
        × Before request.timestamp s.latest_event_time_cache
        × (s.latest_event_time_cache ≡ none
            → All (λ row. row.arrival_time <ℤ request.timestamp) s.audit_log)
  unfolding submit
  submit-accepted link redis request answered inserted s id h =
      let e = submit-safe link redis request answered inserted s id h in
      let (valid, row) =
        record_request-accepted request inserted (validate_transaction request answered s) id
          (sym (ap (λ p. p.1) e) ∙ h) in
      let (kept, late, all) = validate_transaction-true request answered s valid in
      (ap (λ p. p.0.audit_log) e ∙ row ∙ ap (λ rows. audit_row c request ∷ rows) kept, late, all)
