-- ===== src/Bitcoin/SwapScript.antt =====
-- `BtcSwapScript`: from the API's responses to the taproot address.
pub mod Response
pub mod Verified
use bullbitcoin_rnd.Base.{
  ℕ, Bool, true, false, not, Option, none, some, List, [], ◌∷◌, String, ◌<>◌, str_eq, Bytes,
  bytes_eq, get_last?, if◌then◌else◌,
}
use bullbitcoin_rnd.Error.{Error}
use bullbitcoin_rnd.Result.{Result, ok, err, panic, ◌>>=◌, ◌>>◌, fail_if, ok_or, expect}
use bullbitcoin_rnd.Chain.{Chain}
use bullbitcoin_rnd.Boltz.Types.{
  PublicKey, SwapType, Side, CreateSubmarineResponse, CreateReverseResponse, ChainSwapDetails,
}
use bullbitcoin_rnd.Musig.{KeyAggCache}
use bullbitcoin_rnd.Script.Instruction.{Script, Opcode, Instruction, push_bytes, op}
use bullbitcoin_rnd.Script.Tree.{read_tree, claim_instructions, refund_instructions}
use bullbitcoin_rnd.Bitcoin.Crate.{Address, Network, SpendInfo, BitcoinLib}

pub record BtcSwapScript : Type 0 where
  pub swap_type : SwapType
  pub side : Option Side
  pub funding_addrs : Option Address
  pub hashlock : Bytes
  pub receiver_pubkey : PublicKey
  pub locktime : ℕ
  pub sender_pubkey : PublicKey

-- `(sender, receiver)` of a chain swap.
abbrev pub chain_keys : Side → PublicKey → PublicKey → PublicKey × PublicKey
chain_keys Side.lockup ours server = (ours, server)
chain_keys Side.claim ours server = (server, ours)

-- `.push_bytes().expect("pubkey bytes expected")`
abbrev pub pushed : Instruction → Result Bytes
pushed (push_bytes bytes) = ok bytes
pushed (op opcode) = panic "pubkey bytes expected"

-- The network of an address, in `to_address`.
abbrev pub address_network : Chain → Result Network
address_network Chain.bitcoin = ok Network.bitcoin
address_network Chain.bitcoin_regtest = ok Network.regtest
address_network Chain.bitcoin_testnet = ok Network.testnet
address_network _ = err (Error.protocol "Liquid chain used for Bitcoin operations")

-- The match of `musig_keyagg_cache`, on the swap type and the side.
unfoldable pub keyagg_order : SwapType → Option Side → PublicKey → PublicKey → List PublicKey
keyagg_order SwapType.reverse_submarine side sender receiver = sender ∷ receiver ∷ []
keyagg_order SwapType.chain (some Side.claim) sender receiver = sender ∷ receiver ∷ []
keyagg_order SwapType.chain (some Side.lockup) sender receiver = receiver ∷ sender ∷ []
keyagg_order SwapType.chain none sender receiver = receiver ∷ sender ∷ []
keyagg_order SwapType.submarine side sender receiver = receiver ∷ sender ∷ []

module _ (lib : BitcoinLib) where
  open lib use {
    script, musig, address_from_str, script_pubkey, p2tr_tweaked, add_leaf_with_ver, finalize,
    xonly_from_slice, display_key,
  }

  unfoldable pub submarine_from_swap_resp :
      CreateSubmarineResponse → PublicKey → Result BtcSwapScript
  submarine_from_swap_resp response our_pubkey = do
    locks ← read_tree script Opcode.op_0 response.swap_tree
    funding_addrs ← address_from_str response.address
    ok (record {
      swap_type = SwapType.submarine;
      side = none;
      funding_addrs = some funding_addrs;
      hashlock = locks.hashlock;
      receiver_pubkey = response.claim_public_key;
      locktime = locks.timelock;
      sender_pubkey = our_pubkey;
    })

  unfoldable pub reverse_from_swap_resp : CreateReverseResponse → PublicKey → Result BtcSwapScript
  reverse_from_swap_resp response our_pubkey = do
    locks ← read_tree script Opcode.op_0 response.swap_tree
    funding_addrs ← address_from_str response.lockup_address
    ok (record {
      swap_type = SwapType.reverse_submarine;
      side = none;
      funding_addrs = some funding_addrs;
      hashlock = locks.hashlock;
      receiver_pubkey = our_pubkey;
      locktime = locks.timelock;
      sender_pubkey = response.refund_public_key;
    })

  unfoldable pub chain_from_swap_resp : Side → ChainSwapDetails → PublicKey → Result BtcSwapScript
  chain_from_swap_resp side details our_pubkey = do
    locks ← read_tree script Opcode.op_0 details.swap_tree
    funding_addrs ← address_from_str details.lockup_address
    let keys = chain_keys side our_pubkey details.server_public_key
    ok (record {
      swap_type = SwapType.chain;
      side = some side;
      funding_addrs = some funding_addrs;
      hashlock = locks.hashlock;
      receiver_pubkey = keys.1;
      locktime = locks.timelock;
      sender_pubkey = keys.0;
    })

  unfoldable pub musig_keyagg_cache : BtcSwapScript → KeyAggCache
  unfolding keyagg_order
  musig_keyagg_cache s =
      musig.key_agg_cache (keyagg_order s.swap_type s.side s.sender_pubkey s.receiver_pubkey)

  unfoldable pub claim_script : BtcSwapScript → Script
  claim_script s =
      script.into_script (claim_instructions script s.swap_type s.hashlock s.receiver_pubkey)

  unfoldable pub refund_script : BtcSwapScript → Script
  refund_script s = script.into_script (refund_instructions script s.sender_pubkey s.locktime)

  -- The key that the funding address pays to is the taproot output key.
  unfoldable pub verify_address : Address → SpendInfo → Result (Unit {0})
  verify_address address info = do
    last ← expect (get_last? (script.instructions (script_pubkey address))) "should contain value"
    instruction ← expect last "should not fail"
    bytes ← pushed instruction
    lockup_key ← xonly_from_slice bytes
    fail_if (not (bytes_eq lockup_key info.output_key)) (
        Error.protocol (
          "Taproot construction Failed. Lockup Pubkey: "
          <> display_key lockup_key
          <> ", Claim Pubkey "
          <> display_key info.output_key))

  -- `if let Some(funding_address) = &self.funding_addrs { … }`
  unfoldable pub verify_funding : Option Address → SpendInfo → Result (Unit {0})
  verify_funding none info = ok tt
  verify_funding (some address) info = verify_address address info

  unfoldable pub taproot_spendinfo : BtcSwapScript → Result SpendInfo
  taproot_spendinfo s = do
    with_claim ← add_leaf_with_ver [] (record { depth = 1; script = claim_script s })
    with_refund ← add_leaf_with_ver with_claim (record { depth = 1; script = refund_script s })
    info ←
        ok_or (finalize with_refund (musig.agg_pk (musig_keyagg_cache s)))
          (Error.taproot "Could not finalize taproot constructions")
    verify_funding s.funding_addrs info
    ok info

  unfoldable pub to_address : BtcSwapScript → Chain → Result Address
  to_address s chain = do
    info ← taproot_spendinfo s
    network ← address_network chain
    ok (p2tr_tweaked info.output_key network)

  unfoldable pub validate_address : BtcSwapScript → Chain → String → Result (Unit {0})
  validate_address s chain address = do
    found ← to_address s chain
    if str_eq found.text address
        then ok tt
        else err (Error.protocol "Script/LockupAddress Mismatch")
