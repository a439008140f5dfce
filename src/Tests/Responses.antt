-- ===== src/Tests/Responses.antt =====
-- The swap scripts of concrete responses.
use bullbitcoin_rnd.Base.{◌≡◌, refl, arith, true, none, ◌++◌}
use bullbitcoin_rnd.Result.{ok}
use bullbitcoin_rnd.Boltz.Types.{
  Side, CreateSubmarineResponse, CreateReverseResponse, ChainSwapDetails,
}
use bullbitcoin_rnd.Boltz.Offer.{chain}
use bullbitcoin_rnd.Bitcoin.SwapScript.{chain_from_swap_resp, claim_script, refund_script}
use bullbitcoin_rnd.Bitcoin.SwapScript.Response.{Encodes, bitcoin_from_swap_resp-Encodes}
use bullbitcoin_rnd.Tests.Hashes.{hex}
use bullbitcoin_rnd.Tests.Scripts.{tree, scripts-laws, alice, bob}
use bullbitcoin_rnd.Tests.Crates.{chain_script, chain_lib}

abbrev pub submarine_response : CreateSubmarineResponse
submarine_response = record {
  accept_zero_conf = true;
  address = hex (bob ++ alice);
  bip21 = "bitcoin:";
  claim_public_key = bob;
  expected_amount = 50000;
  id = "id";
  referral_id = none;
  swap_tree = tree;
  timeout_block_height = 800000;
  blinding_key = none;
}

abbrev pub reverse_response : CreateReverseResponse
reverse_response = record {
  id = "id";
  invoice = "lnbc";
  swap_tree = tree;
  lockup_address = hex (bob ++ alice);
  refund_public_key = bob;
  timeout_block_height = 800000;
  onchain_amount = 50000;
  blinding_key = none;
}

abbrev pub chain_details : ChainSwapDetails
chain_details = record {
  swap_tree = tree;
  lockup_address = hex (bob ++ alice);
  server_public_key = bob;
  timeout_block_height = 800000;
  amount = 50000;
  blinding_key = none;
  refund_address = none;
  claim_address = none;
  bip21 = none;
}

chain_encoded : Encodes chain_lib chain_script tree
unfolding claim_script refund_script
chain_encoded = record {
  claim_leaf = refl;
  refund_leaf = refl;
  length-hashlock = refl;
  above_opcodes = omega arith;
  below_sign = omega arith;
}

bitcoin_from_swap_resp-Encodes_example :
    chain_from_swap_resp chain_lib Side.claim chain_details alice ≡ ok chain_script
bitcoin_from_swap_resp-Encodes_example =
    bitcoin_from_swap_resp-Encodes chain_lib chain_script (chain Side.claim chain_details) alice
      (record { text = hex (bob ++ alice) }) (scripts-laws chain_lib.script.from_hex) chain_encoded
      refl refl (record { is_type = refl; is_side = refl; is_sender = refl; is_receiver = refl })
