-- ===== src/Settlement/TriggerLaws.antt =====
-- What `settlement_trigger_handler` of src/api/settlement.rs stores, and when.
use conxian_nexus.Prelude.{
  ℕ, ◌+◌, ◌^◌, ◌<◌, ◌≡◌, ◌≢◌, refl, ap, ◌∙◌, Bool, true, false, some, List, ◌∷◌, Text, codes,
  starts_with, arith,
}
use conxian_nexus.Prelude.Int.{as_u64, as_i64, pos, ◌+ℤ◌}
use conxian_nexus.Prelude.Result.{Result, ok, err, >>=-eq-ok, ok_inj}
use conxian_nexus.Api.Http.{success, JsonLib}
use conxian_nexus.Settlement.Validate.{
  RawRoutingPolicyMetadata, RoutingPolicyMetadata, RoutingPolicyBlock,
}
use conxian_nexus.Settlement.Extract.{validate_routing_policy_metadata}
use conxian_nexus.Settlement.PolicyLaws.{IsPolicy, validate_routing_policy_metadata-IsPolicy}
use conxian_nexus.Settlement.Trigger.{
  ExternalSettlementTrigger, ProposalRow, Tables, Outside, current_height_of, Reply,
  check_attestation, check_policy, check_verdict, proposal_reply, insert_if,
}
use conxian_nexus.Settlement.Handler.{
  proposal_row, unlock_height_of, check_trigger, persist, finish, settlement_trigger_handler,
}

later_u64 : (h : ℕ) → h + 144 < 2 ^ 63 → as_u64 (pos h +ℤ pos 144) ≡ h + 144
unfolding as_u64 ◌+ℤ◌
later_u64 h small = ground arith

small_i64 : (n : ℕ) → n < 2 ^ 63 → as_i64 n ≡ pos n
unfolding as_i64
small_i64 n small = ground arith

module _ (json : JsonLib) (from_value : json.Value → Result RawRoutingPolicyMetadata Text) where
  open json use {Value, Float}

  check_policy-ok :
      (m : Result RoutingPolicyMetadata RoutingPolicyBlock) (policy : RoutingPolicyMetadata)
      → check_policy m ≡ ok policy
      → m ≡ ok policy
  unfolding check_policy
  check_policy-ok (ok p) policy h = ap ok (ok_inj h)
  check_policy-ok (err e) policy h = cc

  -- A check that fails answers with a status other than success.
  check_trigger-status :
      (trigger : ExternalSettlementTrigger Value) (out : Outside Value) (reply : Reply)
      → check_trigger json from_value trigger out ≡ err reply
      → reply.0 ≢ success
  unfolding check_trigger check_attestation check_policy check_verdict
  check_trigger-status trigger out reply h = ground arith

  check_trigger-attested :
      (trigger : ExternalSettlementTrigger Value) (out : Outside Value)
      (policy : RoutingPolicyMetadata)
      → check_trigger json from_value trigger out ≡ ok policy
      → starts_with trigger.attestation (codes "TEE_") ≡ true
  unfolding check_trigger check_attestation
  check_trigger-attested trigger out policy h = ground arith

  check_trigger-policy :
      (trigger : ExternalSettlementTrigger Value) (out : Outside Value)
      (policy : RoutingPolicyMetadata)
      → check_trigger json from_value trigger out ≡ ok policy
      → validate_routing_policy_metadata json from_value trigger.payload ≡ ok policy
  unfolding check_trigger
  check_trigger-policy trigger out policy h =
      let (u, e1, h1) = >>=-eq-ok (check_attestation trigger.attestation) _ h in
      let (p, e2, h2) =
        >>=-eq-ok (check_policy (validate_routing_policy_metadata json from_value trigger.payload))
          _ h1 in
      let (v, e3, h3) = >>=-eq-ok (check_verdict _) _ h2 in check_policy-ok _ policy (e2 ∙ h3)

  -- What an accepted trigger comes with.
  pub record IsAccepted (trigger : ExternalSettlementTrigger Value) (out : Outside Value)
      (before after : Tables Value Float) (reply : Reply) : Type 0 where
    pub attested : starts_with trigger.attestation (codes "TEE_") ≡ true
    pub policy : RoutingPolicyMetadata
    pub validated : validate_routing_policy_metadata json from_value trigger.payload ≡ ok policy
    pub approved : IsPolicy policy
    pub stored : after.proposals ≡ proposal_row json from_value trigger out ∷ before.proposals
    pub told : reply.1.unlock_height ≡ unlock_height_of json from_value out

  proposal_reply-success :
      (b : Bool) (id : Text) (n : ℕ) → (proposal_reply b id n).0 ≡ success → b ≡ true
  unfolding proposal_reply
  proposal_reply-success true id n h = refl
  proposal_reply-success false id n h = cc

  reply_height :
      (b : Bool) (id : Text) (n : ℕ) → b ≡ true → (proposal_reply b id n).1.unlock_height ≡ n
  unfolding proposal_reply
  reply_height true id n h = refl
  reply_height false id n h = cc

  finish-IsAccepted :
      (trigger : ExternalSettlementTrigger Value) (out : Outside Value)
      (tables : Tables Value Float) (m : Result RoutingPolicyMetadata Reply)
      → check_trigger json from_value trigger out ≡ m
      → (finish json from_value m trigger out tables).1.0 ≡ success
      → IsAccepted trigger out tables
          (finish json from_value m trigger out tables).0
          (finish json from_value m trigger out tables).1
  unfolding finish persist
  finish-IsAccepted trigger out tables (err reply) e h =
      absurd (check_trigger-status trigger out reply e h)
  finish-IsAccepted trigger out tables (ok policy) e h =
      let valid = check_trigger-policy trigger out policy e in
      let inserted = proposal_reply-success out.proposal_inserted _ _ h in
      record {
        attested = check_trigger-attested trigger out policy e;
        policy = policy;
        validated = valid;
        approved =
            (validate_routing_policy_metadata-IsPolicy json from_value trigger.payload policy
              valid).1;
        stored = rw (inserted, insert_if) refl;
        told = reply_height out.proposal_inserted _ _ inserted;
      }

  insert_unless :
      (b : Bool) (row : ProposalRow Value) (rows : List (ProposalRow Value)) (id : Text) (n : ℕ)
      → (proposal_reply b id n).0 ≢ success
      → insert_if b row rows ≡ rows
  unfolding proposal_reply
  insert_unless true row rows id n h = absurd (h refl)
  insert_unless false row rows id n h = refl

  finish-unstored :
      (trigger : ExternalSettlementTrigger Value) (out : Outside Value)
      (tables : Tables Value Float) (m : Result RoutingPolicyMetadata Reply)
      → (finish json from_value m trigger out tables).1.0 ≢ success
      → (finish json from_value m trigger out tables).0.proposals ≡ tables.proposals
  unfolding finish persist proposal_reply
  finish-unstored trigger out tables (err reply) h = refl
  finish-unstored trigger out tables (ok policy) h = insert_unless out.proposal_inserted _ _ _ _ h

  -- When settlement_trigger_handler answers with success, the attestation began with TEE_, the
  -- payload held a routing policy that was validated and is an approved combination, one proposal
  -- was put in front of the stored ones, and the answer carries the computed unlock height.
  pub settlement_trigger_handler-IsAccepted :
      (trigger : ExternalSettlementTrigger Value) (out : Outside Value)
      (tables : Tables Value Float)
      → (settlement_trigger_handler json from_value trigger out tables).1.0 ≡ success
      → IsAccepted trigger out tables
          (settlement_trigger_handler json from_value trigger out tables).0
          (settlement_trigger_handler json from_value trigger out tables).1
  unfolding settlement_trigger_handler
  settlement_trigger_handler-IsAccepted trigger out tables h =
      finish-IsAccepted trigger out tables (check_trigger json from_value trigger out) refl h

  -- When settlement_trigger_handler answers with anything but success, the stored proposals are as
  -- they were; and if it was one of the checks that failed, the answer is that of the check and no
  -- table has changed.
  pub settlement_trigger_handler-rejected :
      (trigger : ExternalSettlementTrigger Value) (out : Outside Value)
      (tables : Tables Value Float)
      → (settlement_trigger_handler json from_value trigger out tables).1.0 ≢ success
      → ((settlement_trigger_handler json from_value trigger out tables).0.proposals
          ≡ tables.proposals)
        × ((reply : Reply)
            → check_trigger json from_value trigger out ≡ err reply
            → settlement_trigger_handler json from_value trigger out tables ≡ (tables, reply))
  unfolding settlement_trigger_handler finish
  settlement_trigger_handler-rejected trigger out tables h = (
    finish-unstored trigger out tables (check_trigger json from_value trigger out) h,
    (λ reply e. rw (e, finish) refl),
  )

  -- When the height query answers with a height that is at least 144 below 2^63, the proposal is
  -- stored to unlock at that height plus 144, and the computed unlock height is the same number.
  pub unlock_height-delay :
      (trigger : ExternalSettlementTrigger Value) (out : Outside Value) (h : ℕ)
      → out.max_height ≡ ok (some (some (pos h)))
      → h + 144 < 2 ^ 63
      → ((proposal_row json from_value trigger out).unlock_height ≡ pos (h + 144))
        × (unlock_height_of json from_value out ≡ h + 144)
  unfolding proposal_row unlock_height_of as_u64 as_i64 current_height_of
  unlock_height-delay trigger out h e small =
      rw (e, current_height_of, later_u64 h small) (small_i64 (h + 144) small, refl)
