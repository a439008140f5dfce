-- ===== src/Tests/Validate.antt =====
-- Concrete responses that `validate` lets through.
use bullbitcoin_rnd.Base.{◌≡◌, refl, arith, some, none, Bytes, ◌++◌, bytes_eq}
use bullbitcoin_rnd.Result.{ok}
use bullbitcoin_rnd.Chain.{Chain}
use bullbitcoin_rnd.Boltz.Types.{
  SwapType, Side, CreateSubmarineResponse, ChainSwapDetails, CreateChainResponse,
}
use bullbitcoin_rnd.Boltz.Offer.{submarine, chain}
use bullbitcoin_rnd.Boltz.Validate.{submarine_validate, validate_side, chain_validate}
use bullbitcoin_rnd.Boltz.Validate.Accepted.{Accepted, by_claim, validate-Accepted}
use bullbitcoin_rnd.Boltz.Validate.Hashlock.{IsLockedBy, submarine_validate-IsLockedBy}
use bullbitcoin_rnd.Secrets.Preimage.{Preimage, from_invoice_str, from_sha256_vec}
use bullbitcoin_rnd.Script.LittleEndian.{bytes_to_u32_little_endian}
use bullbitcoin_rnd.Script.Tree.{read_tree, claim_loop, refund_loop}
use bullbitcoin_rnd.Bitcoin.Crate.{BitcoinLib}
use bullbitcoin_rnd.Bitcoin.SwapScript as Bitcoin
use bullbitcoin_rnd.Liquid.Crate.{ElementsLib}
use bullbitcoin_rnd.Liquid.SwapScript as Liquid
use bullbitcoin_rnd.Liquid.SwapScript.Response.{Encodes, Opens, from_swap_resp-Encodes}
use bullbitcoin_rnd.Tests.Hashes.{hex, hashes, pad}
use bullbitcoin_rnd.Tests.Scripts.{tree, tree_hex, scripts-laws, alice, bob, lock, decode}
use bullbitcoin_rnd.Tests.Crates.{crates, submarine_lib}
use bullbitcoin_rnd.Tests.Responses.{submarine_response, chain_details}
use bullbitcoin_rnd.Tests.Elements.{elements, submarine_script, submarine_elements}

abbrev pub liquid_response : CreateSubmarineResponse
liquid_response = record submarine_response {
  blinding_key = some (hex submarine_script.blinding_key);
}

submarine_encoded : Encodes submarine_elements submarine_script tree
unfolding Liquid.claim_script Liquid.refund_script
submarine_encoded = record {
  claim_leaf = refl;
  refund_leaf = refl;
  length-hashlock = refl;
  above_opcodes = omega arith;
  below_sign = omega arith;
}

submarine-Opens : Opens submarine_elements submarine_script (submarine liquid_response)
submarine-Opens = record {
  funding = record { text = hex (bob ++ alice) };
  blinding_str = hex submarine_script.blinding_key;
  parses = refl;
  is_funding = refl;
  has_blinding_key = refl;
  is_blinding_key = refl;
}

from_swap_resp-Encodes_example :
    Liquid.submarine_from_swap_resp submarine_elements liquid_response alice ≡ ok submarine_script
from_swap_resp-Encodes_example =
    from_swap_resp-Encodes submarine_elements submarine_script (submarine liquid_response) alice
      (scripts-laws submarine_elements.script.from_hex) submarine_encoded submarine-Opens
      (record { is_type = refl; is_side = refl; is_sender = refl; is_receiver = refl })

-- From Bitcoin to Liquid: Alice locks up on one and claims on the other.
abbrev pub lockup_lib : BitcoinLib
lockup_lib = crates (tree_hex SwapType.chain bob alice)

abbrev pub claim_elements : ElementsLib
claim_elements = elements (tree_hex SwapType.chain alice bob)

abbrev pub claim_details : ChainSwapDetails
claim_details = record chain_details { blinding_key = some "110" }

abbrev pub chain_response : CreateChainResponse
chain_response = record { id = "id"; claim_details = claim_details; lockup_details = chain_details }

pub chain_validates :
    chain_validate lockup_lib claim_elements hashes chain_response alice alice Chain.bitcoin_testnet
      Chain.liquid_testnet
    ≡ ok tt
unfolding chain_validate validate_side Bitcoin.chain_from_swap_resp Liquid.chain_from_swap_resp
    read_tree claim_loop refund_loop bytes_to_u32_little_endian Bitcoin.validate_address
    Bitcoin.to_address Bitcoin.taproot_spendinfo Bitcoin.verify_funding Bitcoin.verify_address
    Bitcoin.musig_keyagg_cache Liquid.validate_address Liquid.to_address Liquid.taproot_spendinfo
    Liquid.verify_funding Liquid.verify_address Liquid.musig_keyagg_cache decode bytes_eq
chain_validates = refl

validate-Accepted_example :
    Accepted lockup_lib claim_elements hashes Chain.liquid_testnet
      (chain Side.claim claim_details)
      alice
validate-Accepted_example =
    validate-Accepted lockup_lib claim_elements hashes {on = Chain.liquid_testnet}
      {offer = chain Side.claim claim_details} {ours = alice}
      (by_claim Chain.bitcoin_testnet Chain.liquid_testnet alice alice chain_response
        chain_validates)

pub submarine_validates :
    submarine_validate submarine_lib submarine_elements hashes liquid_response
      (hex lock)
      alice
      Chain.liquid
    ≡ ok tt
unfolding submarine_validate Liquid.submarine_from_swap_resp from_invoice_str from_sha256_vec
    read_tree claim_loop refund_loop bytes_to_u32_little_endian Liquid.validate_address
    Liquid.to_address Liquid.taproot_spendinfo Liquid.verify_funding Liquid.verify_address
    Liquid.musig_keyagg_cache decode bytes_eq
submarine_validates = refl

submarine_validate-IsLockedBy_example :
    IsLockedBy submarine_lib submarine_elements hashes liquid_response (hex lock) alice
submarine_validate-IsLockedBy_example =
    submarine_validate-IsLockedBy submarine_lib submarine_elements hashes liquid_response (hex lock)
      alice Chain.liquid refl submarine_validates

abbrev of_invoice : Bytes → Preimage
of_invoice hash = record { bytes = none; sha256 = pad 32 hash; hash160 = pad 20 (pad 32 hash) }
