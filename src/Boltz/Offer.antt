-- ===== src/Boltz/Offer.antt =====
-- src/swaps/boltz.rs: the responses that a swap script is made from, as one type, and the fields that
-- the six `*_from_swap_resp` functions read of them.
use bullbitcoin_rnd.Base.{◌≡◌, refl, Bool, true, false, Option, none, some, String}
use bullbitcoin_rnd.Boltz.Types.{
  PublicKey, SwapTree, SwapType, Side, CreateSubmarineResponse, CreateReverseResponse,
  ChainSwapDetails,
}

pub data Offer : Type 0 where
  submarine : CreateSubmarineResponse → Offer
  reverse : CreateReverseResponse → Offer
  chain : Side → ChainSwapDetails → Offer

abbrev pub tree_of : Offer → SwapTree
tree_of (submarine response) = response.swap_tree
tree_of (reverse response) = response.swap_tree
tree_of (chain side details) = details.swap_tree

abbrev pub address_of : Offer → String
address_of (submarine response) = response.address
address_of (reverse response) = response.lockup_address
address_of (chain side details) = details.lockup_address

abbrev pub blinding_of : Offer → Option String
blinding_of (submarine response) = response.blinding_key
blinding_of (reverse response) = response.blinding_key
blinding_of (chain side details) = details.blinding_key

-- The key of the API.
abbrev pub server_of : Offer → PublicKey
server_of (submarine response) = response.claim_public_key
server_of (reverse response) = response.refund_public_key
server_of (chain side details) = details.server_public_key

-- Who sends and who receives.
pub record Roles : Type 0 where
  pub swap_type : SwapType
  pub side : Option Side
  pub sender : PublicKey
  pub receiver : PublicKey

-- We send what we lock up, and receive what we claim; the other key is that of the API.
abbrev pub roles_of : Offer → PublicKey → Roles
roles_of (submarine response) ours = record {
  swap_type = SwapType.submarine;
  side = none;
  sender = ours;
  receiver = response.claim_public_key;
}
roles_of (reverse response) ours = record {
  swap_type = SwapType.reverse_submarine;
  side = none;
  sender = response.refund_public_key;
  receiver = ours;
}
roles_of (chain Side.lockup details) ours = record {
  swap_type = SwapType.chain;
  side = some Side.lockup;
  sender = ours;
  receiver = details.server_public_key;
}
roles_of (chain Side.claim details) ours = record {
  swap_type = SwapType.chain;
  side = some Side.claim;
  sender = details.server_public_key;
  receiver = ours;
}

-- What the API locks up is ours to claim, and what we lock up is ours to refund.
abbrev pub is_claimable : Offer → Bool
is_claimable (submarine response) = false
is_claimable (reverse response) = true
is_claimable (chain Side.lockup details) = false
is_claimable (chain Side.claim details) = true

pub claimable-sender :
    (offer : Offer) (ours : PublicKey)
    → is_claimable offer ≡ true
    → (roles_of offer ours).sender ≡ server_of offer
claimable-sender (submarine response) ours h = cc
claimable-sender (reverse response) ours h = refl
claimable-sender (chain Side.lockup details) ours h = cc
claimable-sender (chain Side.claim details) ours h = refl

pub refundable-receiver :
    (offer : Offer) (ours : PublicKey)
    → is_claimable offer ≡ false
    → (roles_of offer ours).receiver ≡ server_of offer
refundable-receiver (submarine response) ours h = refl
refundable-receiver (reverse response) ours h = cc
refundable-receiver (chain Side.lockup details) ours h = refl
refundable-receiver (chain Side.claim details) ours h = cc
