-- ===== src/Erp/Replay.antt =====
-- A nonce is accepted once.
use mathlib.Core.Path.{subst}
use conxian_nexus.Prelude.{
  ℕ, suc, ◌+◌, ◌-◌, ◌^◌, ◌≤◌, ◌≡◌, ◌≢◌, refl, sym, ap, ◌∙◌, inl, inr, Bool, true, false, Option,
  none, some, List, [], ◌∷◌, Text, codes, length, arith, is_empty, if◌then◌else◌, Option-cases,
}
use conxian_nexus.Prelude.Int.{ℤ, pos, ◌+ℤ◌, ◌≤ℤ◌, ◌<ℤ◌}
use conxian_nexus.Prelude.Result.{Result, ok, err, ok_or, >>=-eq-ok, ok_inj}
use conxian_nexus.State.Crypto.{Bytes, Crypto}
use conxian_nexus.Api.Http.{StatusCode, bad_request, service_unavailable, JsonLib}
use conxian_nexus.Erp.Attestation.{
  ErpSyncRequest, VerifiedErpAttestation, ErpAttestationError, verify_erp_attestation,
  build_replay_cache_key,
}
use conxian_nexus.Erp.Window.{
  IsAttested, verify_erp_attestation_sound, validate_attestation_time_window_sound,
}
use conxian_nexus.Erp.Sync.{
  ReplayStore, ErpSyncResponse, entry_tx_id, collect_tx_ids, check_request, claim_result,
  with_status, map_erp_action, respond, erp_sync_handler,
}

-- Starting from at most 999 transactions found, the loop over the entries ends with at most a
-- thousand in all.
pub collect_tx_ids-bound :
    (json : JsonLib) (entries : List json.Value) (found : ℕ)
    → found ≤ 999
    → length (collect_tx_ids json entries found) + found ≤ 1000
unfolding collect_tx_ids
collect_tx_ids-bound json [] found h = omega arith
collect_tx_ids-bound json (entry ∷ entries) found h = elim (Option-cases (entry_tx_id json entry)) [
  | inl e ↦ rw (e, length) (ground (arith, collect_tx_ids-bound json entries found))
  | inr (tx_id, e) ↦ rw (e, length) (ground (arith, collect_tx_ids-bound json entries (suc found)))
]

module _ (json : JsonLib) (c : Crypto) (hmac : Bytes → Bytes → Option Bytes)
    (trusted_keys : List (Text × Text)) (redis : ReplayStore) where
  open json use {Value, get, as_array}
  open redis use {Store, claim, holds, claim_refused, claim_holds, claim_keeps}

  abbrev handler : ErpSyncRequest Value → ℤ → Store → Store × Result ErpSyncResponse StatusCode
  handler = erp_sync_handler json c hmac trusted_keys redis

  -- The key under which the nonce of a request is kept.
  abbrev pub nonce_key : ErpSyncRequest Value → Text
  nonce_key r = build_replay_cache_key c r.organization_id r.attestation.key_id r.attestation.nonce

  with_status-ok :
      (answer : Option Bool) → with_status (claim_result answer) ≡ ok tt → answer ≡ some true
  unfolding claim_result
  with_status-ok none e = cc
  with_status-ok (some true) e = refl
  with_status-ok (some false) e = cc

  with_status-verified :
      (m : Result VerifiedErpAttestation ErpAttestationError) {v : VerifiedErpAttestation}
      → with_status m ≡ ok v
      → m ≡ ok v
  with_status-verified (ok a) e = ap ok (ok_inj e)
  with_status-verified (err x) e = cc

  check_request_sound :
      (r : ErpSyncRequest Value) (now : ℤ) (tx_ids : List Text) (v : VerifiedErpAttestation)
      → check_request json c hmac trusted_keys r now ≡ ok (tx_ids, v)
      → (action : Text) × (verify_erp_attestation c hmac r action tx_ids trusted_keys now ≡ ok v)
  unfolding check_request
  check_request_sound r now tx_ids v e =
      let (value, e0, e1) =
        >>=-eq-ok (ok_or (get r.odata_payload (codes "value")) bad_request) _ e in
      let (entries, e2, e3) = >>=-eq-ok (ok_or (as_array value) bad_request) _ e1 in
      let (u, e4, e5) =
        >>=-eq-ok (if is_empty trusted_keys then err service_unavailable else ok tt) _ e3 in
      let (v', e6, e7) =
        >>=-eq-ok
          (with_status (
            verify_erp_attestation c hmac r (map_erp_action json r.odata_payload)
              (collect_tx_ids json entries 0) trusted_keys now))
          _ e5 in
      (
        map_erp_action json r.odata_payload,
        subst
            (λ p.
              verify_erp_attestation c hmac r (map_erp_action json r.odata_payload) p.0 trusted_keys
                now
              ≡ ok p.1)
            (ok_inj e7) (with_status-verified _ e6),
      )

  respond-claims :
      (checked : Result (List Text × VerifiedErpAttestation) StatusCode) (now : ℤ) (s : Store)
      (response : ErpSyncResponse)
      → (respond json c hmac trusted_keys redis checked now s).1 ≡ ok response
      → (tx_ids : List Text) × (v : VerifiedErpAttestation) × (checked ≡ ok (tx_ids, v))
        × ((claim v.replay_key v.replay_ttl_seconds now s).1 ≡ some true)
        × ((respond json c hmac trusted_keys redis checked now s).0
            ≡ (claim v.replay_key v.replay_ttl_seconds now s).0)
        × (response.reconciled_entries ≡ length tx_ids)
  unfolding respond
  respond-claims (err x) now s response e = cc
  respond-claims (ok (tx_ids, v)) now s response e =
      let (u, claimed, done) =
        >>=-eq-ok (with_status (claim_result (claim v.replay_key v.replay_ttl_seconds now s).1)) _
          e in
      (
        tx_ids,
        v,
        refl,
        with_status-ok _ claimed,
        refl,
        sym (ap (λ (x : ErpSyncResponse). x.reconciled_entries) (ok_inj done)),
      )

  respond-keeps :
      (checked : Result (List Text × VerifiedErpAttestation) StatusCode) (key : Text)
      (now later : ℤ) (s : Store)
      → holds s key later ≡ true
      → holds (respond json c hmac trusted_keys redis checked now s).0 key later ≡ true
  unfolding respond
  respond-keeps (err x) key now later s h = h
  respond-keeps (ok (tx_ids, v)) key now later s h =
      claim_keeps s v.replay_key key v.replay_ttl_seconds now later h

  -- When erp_sync_handler accepts a request, its attestation was verified for some action and some
  -- transactions, the store has just granted the claim of its nonce key, the store afterwards is
  -- the one that the claim left, and the number of reconciled entries is the number of those
  -- transactions.
  pub erp_sync_handler-accepts :
      (r : ErpSyncRequest Value) (now : ℤ) (s : Store) (response : ErpSyncResponse)
      → (handler r now s).1 ≡ ok response
      → (action : Text) × (tx_ids : List Text) × (v : VerifiedErpAttestation) × IsAttested c hmac r
          action tx_ids trusted_keys now v
        × ((claim (nonce_key r) v.replay_ttl_seconds now s).1 ≡ some true)
        × ((handler r now s).0 ≡ (claim (nonce_key r) v.replay_ttl_seconds now s).0)
        × (response.reconciled_entries ≡ length tx_ids)
  unfolding erp_sync_handler
  erp_sync_handler-accepts r now s response e =
      let (tx_ids, v, checked, claimed, store, count) =
        respond-claims (check_request json c hmac trusted_keys r now) now s response e in
      let (action, verified) = check_request_sound r now tx_ids v checked in
      let attested =
        verify_erp_attestation_sound c hmac r action tx_ids trusted_keys now v verified in
      let k : v.replay_key ≡ nonce_key r = attested.keyed in
      (
        action,
        tx_ids,
        v,
        attested,
        subst (λ key. (claim key v.replay_ttl_seconds now s).1 ≡ some true) k claimed,
        store ∙ ap (λ key. (claim key v.replay_ttl_seconds now s).0) k,
        count,
      )

  -- Requests handled one after another, each at its time.
  abbrev pub handle_all : List (ErpSyncRequest Value × ℤ) → Store → Store
  handle_all [] s = s
  handle_all ((r, now) ∷ rest) s = handle_all rest (handler r now s).0

  handler-keeps :
      (r : ErpSyncRequest Value) (key : Text) (now later : ℤ) (s : Store)
      → holds s key later ≡ true
      → holds (handler r now s).0 key later ≡ true
  unfolding erp_sync_handler
  handler-keeps r key now later s h = respond-keeps _ key now later s h

  handle_all-keeps :
      (rs : List (ErpSyncRequest Value × ℤ)) (key : Text) (later : ℤ) (s : Store)
      → holds s key later ≡ true
      → holds (handle_all rs s) key later ≡ true
  handle_all-keeps [] key later s h = h
  handle_all-keeps ((r, now) ∷ rs) key later s h =
      handle_all-keeps rs key later _ (handler-keeps r key now later s h)

  -- A request that was accepted, by a clock after 1970 and with an expiry that fits in an i64, is
  -- not accepted again before its attestation expires: whatever requests are handled in between, a
  -- later one with the same organization, key and nonce gets an error as long as it comes before
  -- the expiry of the first.
  pub erp_sync_handler-once :
      (r r' : ErpSyncRequest Value) (now later : ℤ) (s : Store)
      (between : List (ErpSyncRequest Value × ℤ)) (response response' : ErpSyncResponse)
      → pos 0 ≤ℤ now
      → r.attestation.expires_at ≤ℤ pos (2 ^ 63 - 1)
      → (handler r now s).1 ≡ ok response
      → nonce_key r' ≡ nonce_key r
      → now ≤ℤ later
      → later <ℤ r.attestation.expires_at
      → (handler r' later (handle_all between (handler r now s).0)).1 ≢ ok response'
  erp_sync_handler-once r r' now later s between response response' epoch top e same after before
        again =
      let (action, tx_ids, v, attested, claimed, store, count) =
        erp_sync_handler-accepts r now s response e in
      let (action', tx_ids', v', attested', claimed', store', count') =
        erp_sync_handler-accepts r' later _ response' again in
      let window =
        validate_attestation_time_window_sound r.attestation r.timestamp now v.replay_ttl_seconds
          epoch top attested.timely in
      let before_ttl : later <ℤ now +ℤ pos v.replay_ttl_seconds = elim window.2 [
        | inl (_, kept) ↦ rw kept before
        | inr (expired, _) ↦ absurd (past expired)
      ] in
      let held : holds (handler r now s).0 (nonce_key r) later ≡ true =
        rw store
          (claim_holds s (nonce_key r) v.replay_ttl_seconds now later claimed after before_ttl) in
      claim_refused _ (nonce_key r') v'.replay_ttl_seconds later
        (rw same (handle_all-keeps between (nonce_key r) later _ held)) claimed'
    where
      past : now ≡ r.attestation.expires_at → ⊥
      past expired =
          let h : r.attestation.expires_at ≤ℤ later = subst (λ t. t ≤ℤ later) expired after in
          omega arith
