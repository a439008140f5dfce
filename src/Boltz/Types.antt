-- ===== src/Boltz/Types.antt =====
-- src/swaps/boltz.rs: the data that the API sends, as far as the swap scripts read it.
use bullbitcoin_rnd.Base.{ℕ, Bool, Option, String, Bytes}

pub data SwapType : Type 0 where
  submarine reverse_submarine chain : SwapType

pub data Side : Type 0 where
  lockup claim : Side

pub data SwapTxKind : Type 0 where
  claim refund : SwapTxKind

-- A public key is its serialized bytes.
abbrev pub PublicKey : Type 0
PublicKey = Bytes

pub record Leaf : Type 0 where
  pub output : String
  pub version : ℕ

pub record SwapTree : Type 0 where
  pub claim_leaf : Leaf
  pub refund_leaf : Leaf

pub record CreateSubmarineResponse : Type 0 where
  pub accept_zero_conf : Bool
  pub address : String
  pub bip21 : String
  pub claim_public_key : PublicKey
  pub expected_amount : ℕ
  pub id : String
  pub referral_id : Option String
  pub swap_tree : SwapTree
  pub timeout_block_height : ℕ
  pub blinding_key : Option String

pub record CreateReverseResponse : Type 0 where
  pub id : String
  pub invoice : String
  pub swap_tree : SwapTree
  pub lockup_address : String
  pub refund_public_key : PublicKey
  pub timeout_block_height : ℕ
  pub onchain_amount : ℕ
  pub blinding_key : Option String

pub record ChainSwapDetails : Type 0 where
  pub swap_tree : SwapTree
  pub lockup_address : String
  pub server_public_key : PublicKey
  pub timeout_block_height : ℕ
  pub amount : ℕ
  pub blinding_key : Option String
  pub refund_address : Option String
  pub claim_address : Option String
  pub bip21 : Option String

pub record CreateChainResponse : Type 0 where
  pub id : String
  pub claim_details : ChainSwapDetails
  pub lockup_details : ChainSwapDetails
