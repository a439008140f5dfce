-- ===== src/Boltz/Endpoints.antt =====
-- src/swaps/boltz.rs: the requests that create a swap or ask about one, with their bodies and replies.
use bullbitcoin_rnd.Base.{ℕ, Bool, Option, List, [], ◌∷◌, String, ◌<>◌, show, Bytes}
use bullbitcoin_rnd.Result.{Result, ◌>>=◌}
use bullbitcoin_rnd.Fees.{F64}
use bullbitcoin_rnd.Boltz.Types.{
  PublicKey, CreateSubmarineResponse, CreateReverseResponse, CreateChainResponse,
}
use bullbitcoin_rnd.Boltz.States.{SubSwapStates, RevSwapStates, ChainSwapStates}
use bullbitcoin_rnd.Boltz.Client.{
  Json, Fields, string, number, object, HttpLib, BoltzApiClientV2, post,
}
use bullbitcoin_rnd.Boltz.Lookups.{GetLib, get}
use bullbitcoin_rnd.Boltz.Pairs.{
  GetSubmarinePairsResponse, GetReversePairsResponse, GetChainPairsResponse,
}

pub record GetFeeEstimationResponse : Type 0 where
  pub btc : F64
  pub lbtc : F64

pub record HeightResponse : Type 0 where
  pub btc : ℕ
  pub lbtc : ℕ

pub record SubmarineClaimTxResponse : Type 0 where
  pub preimage : String
  pub pub_nonce : String
  pub public_key : PublicKey
  pub transaction_hash : String

pub record ChainClaimTxResponse : Type 0 where
  pub pub_nonce : String
  pub public_key : PublicKey
  pub transaction_hash : String

pub record SubmarineSwapPreimageResp : Type 0 where
  pub preimage : String

pub record MrhResponse : Type 0 where
  pub bip21 : String
  pub signature : String

pub record GetBolt12InvoiceResponse : Type 0 where
  pub invoice : String

pub record GetQuoteResponse : Type 0 where
  pub amount : ℕ

pub record TransactionResponse : Type 0 where
  pub id : String
  pub hex : String

pub record GetSwapResponse : Type 0 where
  pub status : String
  pub zero_conf_rejected : Option Bool
  pub transaction : Option TransactionResponse

-- What the web socket is sent to follow a swap.
pub record Subscription : Type 0 where
  pub op : String
  pub channel : String
  pub args : List String

pub subscription : String → Subscription
subscription id = record { op = "subscribe"; channel = "swap.update"; args = id ∷ [] }

pub record Webhook {ℓ} (T : Type ℓ) : Type ℓ where
  pub url : String
  pub hash_swap_id : Option Bool
  pub status : Option (List T)

pub record CreateSubmarineRequest : Type 0 where
  pub from : String
  pub to : String
  pub invoice : String
  pub refund_public_key : PublicKey
  pub pair_hash : Option String
  pub referral_id : Option String
  pub webhook : Option (Webhook SubSwapStates)

pub record CreateReverseRequest : Type 0 where
  pub invoice_amount : ℕ
  pub from : String
  pub to : String
  pub preimage_hash : Bytes
  pub claim_public_key : PublicKey
  pub description : Option String
  pub description_hash : Option String
  pub address : Option String
  pub address_signature : Option String
  pub referral_id : Option String
  pub webhook : Option (Webhook RevSwapStates)

pub record CreateChainRequest : Type 0 where
  pub from : String
  pub to : String
  pub preimage_hash : Bytes
  pub claim_public_key : Option PublicKey
  pub refund_public_key : Option PublicKey
  pub user_lock_amount : Option ℕ
  pub server_lock_amount : Option ℕ
  pub pair_hash : Option String
  pub referral_id : Option String
  pub webhook : Option (Webhook ChainSwapStates)

-- The JSON readers and writers that serde derives.
pub record SerdeLib : Type 0 where
  pub parse_fees : String → Result GetFeeEstimationResponse
  pub parse_heights : String → Result HeightResponse
  pub parse_submarine_pairs : String → Result GetSubmarinePairsResponse
  pub parse_reverse_pairs : String → Result GetReversePairsResponse
  pub parse_chain_pairs : String → Result GetChainPairsResponse
  pub parse_submarine : String → Result CreateSubmarineResponse
  pub parse_reverse : String → Result CreateReverseResponse
  pub parse_chain : String → Result CreateChainResponse
  pub parse_submarine_claim : String → Result SubmarineClaimTxResponse
  pub parse_chain_claim : String → Result ChainClaimTxResponse
  pub parse_preimage : String → Result SubmarineSwapPreimageResp
  pub parse_mrh : String → Result MrhResponse
  pub parse_bolt12 : String → Result GetBolt12InvoiceResponse
  pub parse_quote : String → Result GetQuoteResponse
  pub parse_swap : String → Result GetSwapResponse
  pub submarine_to_value : CreateSubmarineRequest → Result Json
  pub reverse_to_value : CreateReverseRequest → Json
  pub chain_to_value : CreateChainRequest → Json

module _ (http : HttpLib) (lookups : GetLib) (serde : SerdeLib) where
  pub get_fee_estimation : BoltzApiClientV2 → Result GetFeeEstimationResponse
  get_fee_estimation self = do serde.parse_fees (← get lookups self "chain/fees")

  pub get_height : BoltzApiClientV2 → Result HeightResponse
  get_height self = do serde.parse_heights (← get lookups self "chain/heights")

  pub get_submarine_pairs : BoltzApiClientV2 → Result GetSubmarinePairsResponse
  get_submarine_pairs self = do serde.parse_submarine_pairs (← get lookups self "swap/submarine")

  pub get_reverse_pairs : BoltzApiClientV2 → Result GetReversePairsResponse
  get_reverse_pairs self = do serde.parse_reverse_pairs (← get lookups self "swap/reverse")

  pub get_chain_pairs : BoltzApiClientV2 → Result GetChainPairsResponse
  get_chain_pairs self = do serde.parse_chain_pairs (← get lookups self "swap/chain")

  pub post_swap_req : BoltzApiClientV2 → CreateSubmarineRequest → Result CreateSubmarineResponse
  post_swap_req self swap_request = do
    data_ ← serde.submarine_to_value swap_request
    serde.parse_submarine (← post http self "swap/submarine" data_)

  pub post_reverse_req : BoltzApiClientV2 → CreateReverseRequest → Result CreateReverseResponse
  post_reverse_req self req = do
    serde.parse_reverse (← post http self "swap/reverse" (serde.reverse_to_value req))

  pub post_chain_req : BoltzApiClientV2 → CreateChainRequest → Result CreateChainResponse
  post_chain_req self req = do
    serde.parse_chain (← post http self "swap/chain" (serde.chain_to_value req))

  pub get_submarine_claim_tx_details : BoltzApiClientV2 → String → Result SubmarineClaimTxResponse
  get_submarine_claim_tx_details self id = do
    serde.parse_submarine_claim (← get lookups self ("swap/submarine/" <> id <> "/claim"))

  pub get_chain_claim_tx_details : BoltzApiClientV2 → String → Result ChainClaimTxResponse
  get_chain_claim_tx_details self id = do
    serde.parse_chain_claim (← get lookups self ("swap/chain/" <> id <> "/claim"))

  pub get_submarine_preimage : BoltzApiClientV2 → String → Result SubmarineSwapPreimageResp
  get_submarine_preimage self id = do
    serde.parse_preimage (← get lookups self ("swap/submarine/" <> id <> "/preimage"))

  unfoldable pub get_mrh_bip21 : BoltzApiClientV2 → String → Result MrhResponse
  get_mrh_bip21 self invoice = do
    serde.parse_mrh (← get lookups self ("swap/reverse/" <> invoice <> "/bip21"))

  pub get_bolt12_invoice : BoltzApiClientV2 → String → ℕ → Result GetBolt12InvoiceResponse
  get_bolt12_invoice self offer amount = do
    let body = object (
        Fields.field "offer" (string offer)
          (Fields.field "amount" (number (show amount)) Fields.done))
    serde.parse_bolt12 (← post http self "lightning/BTC/bolt12/fetch" body)

  pub get_quote : BoltzApiClientV2 → String → Result GetQuoteResponse
  get_quote self swap_id = do
    serde.parse_quote (← get lookups self ("swap/chain/" <> swap_id <> "/quote"))

  pub get_swap : BoltzApiClientV2 → String → Result GetSwapResponse
  get_swap self swap_id = do serde.parse_swap (← get lookups self ("swap/" <> swap_id))
