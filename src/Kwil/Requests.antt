-- ===== src/Kwil/Requests.antt =====
-- `KwilAdapter` of src/storage/kwil.rs. The wallet is a parameter, with JSON values and floats. The
-- clock's text and what the provider answers are arguments; the requests that were sent are kept.
use conxian_nexus.Prelude.{
  ℕ, ◌||◌, Option, none, some, List, [], ◌∷◌, ◌++◌, Text, codes, ◌==◌, if◌then◌else◌,
}
use conxian_nexus.Prelude.Decimal.{show_ℕ}
use conxian_nexus.Prelude.Result.{Result, ok, err}

pub record KwilBlockCommitment : Type 0 where
  pub hash : Text
  pub height : ℕ
  pub block_type : Text
  pub state : Text

pub record KwilStateRootCommitment : Type 0 where
  pub block_height : ℕ
  pub state_root : Text

pub record KwilMmrNodeCommitment : Type 0 where
  pub pos : ℕ
  pub hash : Text
  pub block_height : ℕ

-- The answer: none when the request cannot be sent; the body of an error is `none` when it cannot
-- be read.
pub data Response : Type 0 where
  unsent : Response
  success : Option Text → Response
  failure : Text → Option Text → Response

unfoldable pub encode_payload_value : Text → Text
encode_payload_value [] = []
encode_payload_value (d ∷ v) =
    let rest = encode_payload_value v in
    if (d == b'|') || (d == b'=') then b'\\' ∷ d ∷ rest else d ∷ rest

-- `|name=` and a value.
abbrev pub field : Text → Text → Text
field name value = b'|' ∷ (name ++ b'=' ∷ value)

abbrev pub text_field : Text → Text → Text → Text
text_field name value rest = field name (encode_payload_value value ++ rest)

-- The receipt is its `tx_hash`.
unfoldable pub handle_response : Response → Text → Text → Result Text Text
handle_response unsent context signature = err context
handle_response (success none) context signature = err (codes "Failed to parse Kwil receipt")
handle_response (success (some tx_hash)) context signature = ok tx_hash
handle_response (failure status none) context signature = err (
    codes "Kwil execution failed (status "
    ++ (status ++ (codes "): Unknown error | Signature: " ++ signature)))
handle_response (failure status (some body)) context signature = err (
    codes "Kwil execution failed (status "
    ++ (status ++ (codes "): " ++ (body ++ (codes " | Signature: " ++ signature)))))

unfoldable pub block_payload : KwilBlockCommitment → Text → Text
unfolding encode_payload_value
block_payload block created_at =
    codes "nexus:kwil:block:v1"
    ++ text_field (codes "hash") block.hash (
        field (codes "height") (
          show_ℕ block.height
          ++ text_field (codes "type") block.block_type (
              text_field (codes "state") block.state
                (text_field (codes "created_at") created_at []))))

unfoldable pub state_root_payload : KwilStateRootCommitment → Text → Text
unfolding encode_payload_value
state_root_payload root created_at =
    codes "nexus:kwil:state_root:v1"
    ++ field (codes "height") (
        show_ℕ root.block_height
        ++ text_field (codes "root") root.state_root
            (text_field (codes "created_at") created_at []))

unfoldable pub mmr_node_payload : KwilMmrNodeCommitment → Text → Text
unfolding encode_payload_value
mmr_node_payload node created_at =
    codes "nexus:kwil:mmr_node:v1"
    ++ field (codes "pos") (
        show_ℕ node.pos
        ++ text_field (codes "hash") node.hash (
            field (codes "height")
              (show_ℕ node.block_height ++ text_field (codes "created_at") created_at [])))

-- A value of `params`.
pub data Param {ℓ} (V : Type ℓ) : Type ℓ where
  text : Text → Param V
  number : ℕ → Param V
  value : V → Param V

pub record KwilExecuteRequest (V : Type 0) : Type 0 where
  pub db_id : Text
  pub action : Text
  pub params : List (Text × Param V)
  pub payload : Text
  pub signature : Text

pub record KwilSettlementProposalCommitment (V : Type 0) : Type 0 where
  pub proposal_id : Text
  pub external_id : Text
  pub source : Text
  pub payload : V
  pub status : Text
  pub init_height : ℕ
  pub unlock_height : ℕ

-- `fiat_value` is `fiat_value_pegged` with its `{:?}` text and its JSON.
pub record KwilSettlementLogCommitment (V : Type 0) : Type 0 where
  pub external_tx_reference : Text
  pub settlement_network_origin : Text
  pub fiat_value_debug : Text
  pub fiat_value_json : V
  pub raw_payload : V

unfoldable pub settlement_proposal_payload :
    {V : Type 0} → KwilSettlementProposalCommitment V → Text → Text
unfolding encode_payload_value
settlement_proposal_payload proposal created_at =
    codes "nexus:kwil:settlement_proposal:v1"
    ++ text_field (codes "proposal_id") proposal.proposal_id (
        text_field (codes "external_id") proposal.external_id (
          text_field (codes "source") proposal.source (
            text_field (codes "status") proposal.status (
              field (codes "init_height") (
                show_ℕ proposal.init_height
                ++ field (codes "unlock_height") (
                    show_ℕ proposal.unlock_height
                    ++ text_field (codes "created_at") created_at []))))))

unfoldable pub settlement_log_payload : {V : Type 0} → KwilSettlementLogCommitment V → Text → Text
unfolding encode_payload_value
settlement_log_payload log created_at =
    codes "nexus:kwil:settlement_log:v1"
    ++ text_field (codes "external_tx_reference") log.external_tx_reference (
        text_field (codes "source") log.settlement_network_origin (
          field (codes "fiat_value")
            (log.fiat_value_debug ++ text_field (codes "created_at") created_at [])))

module _ (V : Type 0) (sign : Text → Text) (db_id : Text) where
  -- The requests sent, the latest first.
  abbrev pub Sent : Type 0
  Sent = List (KwilExecuteRequest V)

  abbrev execute :
      Text → List (Text × Param V) → Text → Text → Response → Sent → Sent × Result Text Text
  execute action params payload context response sent = (
    record {
      db_id = db_id;
      action = action;
      params = params;
      payload = payload;
      signature = sign payload;
    }
        ∷ sent,
    handle_response response context (sign payload),
  )

  unfoldable pub persist_block :
      KwilBlockCommitment → Text → Response → Sent → Sent × Result Text Text
  unfolding block_payload handle_response
  persist_block block created_at response sent =
      execute (codes "insert_block")
        ((codes "hash", text block.hash)
          ∷ (codes "height", number block.height)
          ∷ (codes "type", text block.block_type)
          ∷ (codes "state", text block.state)
          ∷ (codes "created_at", text created_at)
          ∷ [])
        (block_payload block created_at) (codes "Failed to send block request to Kwil") response
        sent

  unfoldable pub persist_state_root :
      KwilStateRootCommitment → Text → Response → Sent → Sent × Result Text Text
  unfolding state_root_payload handle_response
  persist_state_root root created_at response sent =
      execute (codes "insert_state_root")
        ((codes "block_height", number root.block_height)
          ∷ (codes "state_root", text root.state_root)
          ∷ (codes "created_at", text created_at)
          ∷ [])
        (state_root_payload root created_at) (codes "Failed to send state root request to Kwil")
        response sent

  unfoldable pub persist_mmr_node :
      KwilMmrNodeCommitment → Text → Response → Sent → Sent × Result Text Text
  unfolding mmr_node_payload handle_response
  persist_mmr_node node created_at response sent =
      execute (codes "insert_mmr_node")
        ((codes "pos", number node.pos)
          ∷ (codes "hash", text node.hash)
          ∷ (codes "block_height", number node.block_height)
          ∷ (codes "created_at", text created_at)
          ∷ [])
        (mmr_node_payload node created_at) (codes "Failed to send MMR node request to Kwil")
        response sent

  unfoldable pub persist_settlement_proposal :
      KwilSettlementProposalCommitment V → Text → Response → Sent → Sent × Result Text Text
  unfolding settlement_proposal_payload handle_response
  persist_settlement_proposal proposal created_at response sent =
      execute (codes "insert_settlement_proposal")
        ((codes "proposal_id", text proposal.proposal_id)
          ∷ (codes "external_id", text proposal.external_id)
          ∷ (codes "source", text proposal.source)
          ∷ (codes "payload", value proposal.payload)
          ∷ (codes "status", text proposal.status)
          ∷ (codes "init_height", number proposal.init_height)
          ∷ (codes "unlock_height", number proposal.unlock_height)
          ∷ (codes "created_at", text created_at)
          ∷ [])
        (settlement_proposal_payload proposal created_at)
        (codes "Failed to send settlement proposal request to Kwil") response sent

  unfoldable pub persist_settlement_log :
      KwilSettlementLogCommitment V → Text → Response → Sent → Sent × Result Text Text
  unfolding settlement_log_payload handle_response
  persist_settlement_log log created_at response sent =
      execute (codes "insert_settlement_log")
        ((codes "external_tx_reference", text log.external_tx_reference)
          ∷ (codes "settlement_network_origin", text log.settlement_network_origin)
          ∷ (codes "fiat_value_pegged", value log.fiat_value_json)
          ∷ (codes "raw_payload", value log.raw_payload)
          ∷ (codes "created_at", text created_at)
          ∷ [])
        (settlement_log_payload log created_at)
        (codes "Failed to send settlement log request to Kwil") response sent
