-- ===== src/Liquid/SwapScript.antt =====
-- `LBtcSwapScript`: from the API's responses to the confidential taproot address.
pub mod Response
pub mod Verified
use bullbitcoin_rnd.Base.{
  ℕ, not, Option, none, some, [], String, ◌<>◌, str_eq, Bytes, bytes_eq, get_last?, if◌then◌else◌,
}
use bullbitcoin_rnd.Error.{Error}
use bullbitcoin_rnd.Result.{Result, ok, err, ◌>>=◌, ◌>>◌, fail_if, expect}
use bullbitcoin_rnd.Chain.{Chain}
use bullbitcoin_rnd.Boltz.Types.{
  PublicKey, SwapType, Side, CreateSubmarineResponse, CreateReverseResponse, ChainSwapDetails,
}
use bullbitcoin_rnd.Musig.{Keypair, KeyAggCache}
use bullbitcoin_rnd.Script.Instruction.{Script, Opcode}
use bullbitcoin_rnd.Script.Tree.{read_tree, claim_instructions, refund_instructions}
use bullbitcoin_rnd.Taproot.{SpendInfo}
use bullbitcoin_rnd.Bitcoin.SwapScript.{chain_keys, pushed, keyagg_order}
use bullbitcoin_rnd.Liquid.Crate.{Address, AddressParams, ElementsLib}

pub record LBtcSwapScript : Type 0 where
  pub swap_type : SwapType
  pub side : Option Side
  pub funding_addrs : Option Address
  pub hashlock : Bytes
  pub receiver_pubkey : PublicKey
  pub locktime : ℕ
  pub sender_pubkey : PublicKey
  pub blinding_key : Keypair

-- The parameters of an address, in `to_address`.
abbrev pub address_params : Chain → Result AddressParams
address_params Chain.liquid = ok AddressParams.liquid
address_params Chain.liquid_testnet = ok AddressParams.liquid_testnet
address_params Chain.liquid_regtest = ok AddressParams.elements
address_params _ = err (Error.address "Cannot derive Liquid address for Bitcoin network")

module _ (lib : ElementsLib) where
  open lib use {
    script, musig, address_from_str, script_pubkey, p2tr, keypair_from_seckey_str, public_key,
    add_leaf_with_ver, finalize, xonly_from_slice, display_key, debug_key,
  }

  unfoldable pub submarine_from_swap_resp :
      CreateSubmarineResponse → PublicKey → Result LBtcSwapScript
  submarine_from_swap_resp response our_pubkey = do
    locks ← read_tree script Opcode.op_0notequal response.swap_tree
    funding_addrs ← address_from_str response.address
    blinding_str ← expect response.blinding_key "No blinding key provided in CreateSwapResp"
    blinding_key ← keypair_from_seckey_str blinding_str
    ok (record {
      swap_type = SwapType.submarine;
      side = none;
      funding_addrs = some funding_addrs;
      hashlock = locks.hashlock;
      receiver_pubkey = response.claim_public_key;
      locktime = locks.timelock;
      sender_pubkey = our_pubkey;
      blinding_key = blinding_key;
    })

  unfoldable pub reverse_from_swap_resp : CreateReverseResponse → PublicKey → Result LBtcSwapScript
  reverse_from_swap_resp response our_pubkey = do
    locks ← read_tree script Opcode.op_0notequal response.swap_tree
    funding_addrs ← address_from_str response.lockup_address
    blinding_str ← expect response.blinding_key "No blinding key provided in CreateSwapResp"
    blinding_key ← keypair_from_seckey_str blinding_str
    ok (record {
      swap_type = SwapType.reverse_submarine;
      side = none;
      funding_addrs = some funding_addrs;
      hashlock = locks.hashlock;
      receiver_pubkey = our_pubkey;
      locktime = locks.timelock;
      sender_pubkey = response.refund_public_key;
      blinding_key = blinding_key;
    })

  unfoldable pub chain_from_swap_resp : Side → ChainSwapDetails → PublicKey → Result LBtcSwapScript
  chain_from_swap_resp side details our_pubkey = do
    locks ← read_tree script Opcode.op_0notequal details.swap_tree
    funding_addrs ← address_from_str details.lockup_address
    let keys = chain_keys side our_pubkey details.server_public_key
    blinding_str ← expect details.blinding_key "No blinding key provided in ChainSwapDetails"
    blinding_key ← keypair_from_seckey_str blinding_str
    ok (record {
      swap_type = SwapType.chain;
      side = some side;
      funding_addrs = some funding_addrs;
      hashlock = locks.hashlock;
      receiver_pubkey = keys.1;
      locktime = locks.timelock;
      sender_pubkey = keys.0;
      blinding_key = blinding_key;
    })

  unfoldable pub claim_script : LBtcSwapScript → Script
  claim_script s =
      script.into_script (claim_instructions script s.swap_type s.hashlock s.receiver_pubkey)

  unfoldable pub refund_script : LBtcSwapScript → Script
  refund_script s = script.into_script (refund_instructions script s.sender_pubkey s.locktime)

  unfoldable pub musig_keyagg_cache : LBtcSwapScript → KeyAggCache
  unfolding keyagg_order
  musig_keyagg_cache s =
      musig.key_agg_cache (keyagg_order s.swap_type s.side s.sender_pubkey s.receiver_pubkey)

  -- The key that the funding address pays to is the taproot output key.
  unfoldable pub verify_address : Address → SpendInfo → Result (Unit {0})
  verify_address address info = do
    last ← expect (get_last? (script.instructions (script_pubkey address))) "should contain value"
    instruction ← expect last "should not fail"
    bytes ← pushed instruction
    lockup_key ← xonly_from_slice bytes
    fail_if (not (bytes_eq lockup_key info.output_key)) (
        Error.protocol (
          "Taproot construction Failed. Lockup Pubkey: "
          <> display_key lockup_key
          <> ", Claim Pubkey "
          <> debug_key info.output_key))

  -- `if let Some(funding_addrs) = &self.funding_addrs { … }`
  unfoldable pub verify_funding : Option Address → SpendInfo → Result (Unit {0})
  verify_funding none info = ok tt
  verify_funding (some address) info = verify_address address info

  unfoldable pub taproot_spendinfo : LBtcSwapScript → Result SpendInfo
  taproot_spendinfo s = do
    with_claim ← add_leaf_with_ver [] (record { depth = 1; script = claim_script s })
    with_refund ← add_leaf_with_ver with_claim (record { depth = 1; script = refund_script s })
    info ← finalize with_refund (musig.agg_pk (musig_keyagg_cache s))
    verify_funding s.funding_addrs info
    ok info

  unfoldable pub to_address : LBtcSwapScript → Chain → Result Address
  to_address s network = do
    info ← taproot_spendinfo s
    params ← address_params network
    ok (p2tr info.internal_key info.merkle_root (some (public_key s.blinding_key)) params)

  unfoldable pub validate_address : LBtcSwapScript → Chain → String → Result (Unit {0})
  validate_address s chain address = do
    found ← to_address s chain
    if str_eq found.text address
        then ok tt
        else err (Error.protocol "Script/LockupAddress Mismatch")
