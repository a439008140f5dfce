-- ===== src/Tests/Cooperation.antt =====
-- Cooperative spends that end, with an API that answers.
use bullbitcoin_rnd.Base.{ℕ, true, ◌≡◌, refl, arith, some, [], ◌∷◌, bytes_eq}
use bullbitcoin_rnd.Result.{ok}
use bullbitcoin_rnd.Fees.{relative, absolute}
use bullbitcoin_rnd.Boltz.Client.{
  post, read_native, get_reverse_partial_sig, get_submarine_partial_sig,
}
use bullbitcoin_rnd.Boltz.Cooperative.{ask_claim, ask_refund}
use bullbitcoin_rnd.Taproot.KeyPath.{tweaked_cache}
use bullbitcoin_rnd.Taproot.KeyPath.Ends.{CanSign}
use bullbitcoin_rnd.Bitcoin.Crate.{Transaction}
use bullbitcoin_rnd.Bitcoin.SwapScript.{
  taproot_spendinfo, verify_funding, verify_address, musig_keyagg_cache,
}
use bullbitcoin_rnd.Bitcoin.KeyPath.{spending}
use bullbitcoin_rnd.Bitcoin.Sign.{sign_claim, sign_refund}
use bullbitcoin_rnd.Bitcoin.Sign.Returns.{KeyHashLaw, Answers}
use bullbitcoin_rnd.Bitcoin.Sign.Spends.{IsCooperativeRefund}
use bullbitcoin_rnd.Bitcoin.Sign.Ends.{IsCooperativeClaim, sign_claim-ok, sign_refund-ok}
use bullbitcoin_rnd.Liquid.Crate as Elements
use bullbitcoin_rnd.Liquid.SwapScript as L
use bullbitcoin_rnd.Liquid.SwapTx.{LBtcSwapTx}
use bullbitcoin_rnd.Liquid.Sign as S
use bullbitcoin_rnd.Liquid.Sign.Returns as E
use bullbitcoin_rnd.Liquid.Sign.Ends.{
  IsEndedClaim, IsEndedRefund, liquid_sign_claim-ok, liquid_sign_refund-ok,
}
use bullbitcoin_rnd.Tests.Elements.{elements, elements-laws, reverse_elements, submarine_elements}
use bullbitcoin_rnd.Tests.Liquid as T
use bullbitcoin_rnd.Tests.Satisfied.{claim-IsBlindable, refund-IsBlindable}
use bullbitcoin_rnd.Tests.Hashes.{floats, secret, secret_preimage}
use bullbitcoin_rnd.Tests.Scripts.{alice, bob, decode, scripts-laws}
use bullbitcoin_rnd.Tests.Crates.{musig, crates, reverse_lib, submarine_lib, http, api, entropy}
use bullbitcoin_rnd.Tests.Transactions.{first_utxo, second_utxo, claim_swap, refund_swap}

key_hashes : (from_hex : _) → KeyHashLaw (crates from_hex) http floats
key_hashes from_hex tx k outs inside same = (_, _, refl, refl)

claim-CanSign : CanSign musig (λ s. s) (spending reverse_lib claim_swap.swap_script bob) alice
unfolding tweaked_cache taproot_spendinfo verify_funding verify_address musig_keyagg_cache decode
    bytes_eq
claim-CanSign = record {
  info = _;
  cache = _;
  parties = refl;
  constructed = refl;
  is_cache = refl;
  draws = λ entropy msg fresh. (_, refl);
  signs = λ entropy nonces msg nonce_bytes boltz_nonce drawn is_nonce. (_, refl);
  aggregates = λ entropy nonces msg boltz_nonce boltz_sig our_sig drawn verifies signs. refl;
}

claim-Answers :
    (t : Transaction)
    → Answers reverse_lib http floats
        (key_hashes reverse_lib.script.from_hex)
        claim_swap
        alice
        bob
        claim-CanSign
        (first_utxo.txout ∷ [])
        (ask_claim http claim_swap.swap_script.swap_type api secret_preimage)
        t
        0
unfolding get_reverse_partial_sig post read_native ask_claim bytes_eq
claim-Answers t sighash msg our_nonce hashes is_message = record {
  resp = _;
  nonce_bytes = _;
  boltz_nonce = _;
  sig_bytes = _;
  boltz_sig = _;
  asks = refl;
  nonce_hex = refl;
  is_nonce = refl;
  sig_hex = refl;
  is_sig = refl;
  verifies = refl;
}

sign_claim-ok_example :
    (tx : Transaction) × (sign_claim reverse_lib http floats claim_swap alice secret_preimage
        (relative 150)
        (some api)
        entropy
      ≡ ok tx)
    × IsCooperativeClaim reverse_lib http floats claim_swap first_utxo tx
sign_claim-ok_example =
    sign_claim-ok reverse_lib http floats (key_hashes reverse_lib.script.from_hex)
      (λ tx i outs. refl) claim_swap alice api secret_preimage (relative 150) entropy secret
      first_utxo claim-CanSign refl refl refl refl refl claim-Answers

refund-CanSign : CanSign musig (λ s. s) (spending submarine_lib refund_swap.swap_script bob) alice
unfolding tweaked_cache taproot_spendinfo verify_funding verify_address musig_keyagg_cache decode
    bytes_eq
refund-CanSign = record {
  info = _;
  cache = _;
  parties = refl;
  constructed = refl;
  is_cache = refl;
  draws = λ entropy msg fresh. (_, refl);
  signs = λ entropy nonces msg nonce_bytes boltz_nonce drawn is_nonce. (_, refl);
  aggregates = λ entropy nonces msg boltz_nonce boltz_sig our_sig drawn verifies signs. refl;
}

refund-Answers :
    (t : Transaction) (k : ℕ)
    → Answers submarine_lib http floats
        (key_hashes submarine_lib.script.from_hex)
        refund_swap
        alice
        bob
        refund-CanSign
        (first_utxo.txout ∷ second_utxo.txout ∷ [])
        (ask_refund http refund_swap.swap_script.swap_type api)
        t
        k
unfolding get_submarine_partial_sig post read_native ask_refund bytes_eq
refund-Answers t k sighash msg our_nonce hashes is_message = record {
  resp = _;
  nonce_bytes = _;
  boltz_nonce = _;
  sig_bytes = _;
  boltz_sig = _;
  asks = refl;
  nonce_hex = refl;
  is_nonce = refl;
  sig_hex = refl;
  is_sig = refl;
  verifies = refl;
}

sign_refund-ok_example :
    (tx : Transaction) × (sign_refund submarine_lib http floats refund_swap alice
        (absolute 500)
        (some api)
        (λ i. entropy)
      ≡ ok tx)
    × IsCooperativeRefund submarine_lib http floats refund_swap tx
sign_refund-ok_example =
    sign_refund-ok submarine_lib http floats (key_hashes submarine_lib.script.from_hex)
      (λ tx i outs. refl) refund_swap alice api (scripts-laws submarine_lib.script.from_hex) 500
      (λ i. entropy) refund-CanSign refl refl (omega arith) (omega arith) (omega arith)
      (omega arith) (λ k inside. refl) (λ t k inside. refund-Answers t k)

liquid_key_hashes : (from_hex : _) (self : LBtcSwapTx) → E.KeyHashLaw (elements from_hex) self
liquid_key_hashes from_hex self tx one = (_, _, refl, refl)

liquid_claim-CanSign :
    CanSign musig (λ s. s) (S.spending reverse_elements T.claim_swap.swap_script bob) alice
unfolding tweaked_cache L.taproot_spendinfo L.verify_funding L.verify_address L.musig_keyagg_cache
    decode bytes_eq
liquid_claim-CanSign = record {
  info = _;
  cache = _;
  parties = refl;
  constructed = refl;
  is_cache = refl;
  draws = λ entropy msg fresh. (_, refl);
  signs = λ entropy nonces msg nonce_bytes boltz_nonce drawn is_nonce. (_, refl);
  aggregates = λ entropy nonces msg boltz_nonce boltz_sig our_sig drawn verifies signs. refl;
}

liquid_claim-Answers :
    (t : Elements.Transaction)
    → E.Answers reverse_elements T.claim_swap
        (liquid_key_hashes reverse_elements.script.from_hex T.claim_swap)
        alice
        bob
        liquid_claim-CanSign
        (λ nonce hex.
          ask_claim http T.claim_swap.swap_script.swap_type api secret_preimage 0 nonce hex)
        t
unfolding get_reverse_partial_sig post read_native ask_claim bytes_eq
liquid_claim-Answers t sighash msg our_nonce hashes is_message = record {
  resp = _;
  nonce_bytes = _;
  boltz_nonce = _;
  sig_bytes = _;
  boltz_sig = _;
  asks = refl;
  nonce_hex = refl;
  is_nonce = refl;
  sig_hex = refl;
  is_sig = refl;
  verifies = refl;
}

liquid_sign_claim-ok_example :
    (tx : Elements.Transaction) × (S.sign_claim reverse_elements T.claim_swap alice http floats
        secret_preimage
        (absolute 40)
        (some api)
        true
        (λ n. T.draws)
        entropy
      ≡ ok tx)
    × IsEndedClaim reverse_elements T.claim_swap alice tx
liquid_sign_claim-ok_example =
    liquid_sign_claim-ok reverse_elements T.claim_swap alice
      (liquid_key_hashes reverse_elements.script.from_hex T.claim_swap) (λ tx i outs genesis. refl)
      (elements-laws reverse_elements.script.from_hex) http floats api 40 true (λ n. T.draws)
      entropy secret_preimage secret liquid_claim-CanSign refl refl refl claim-IsBlindable refl
      liquid_claim-Answers

liquid_refund-CanSign :
    CanSign musig (λ s. s) (S.spending submarine_elements T.refund_swap.swap_script bob) alice
unfolding tweaked_cache L.taproot_spendinfo L.verify_funding L.verify_address L.musig_keyagg_cache
    decode bytes_eq
liquid_refund-CanSign = record {
  info = _;
  cache = _;
  parties = refl;
  constructed = refl;
  is_cache = refl;
  draws = λ entropy msg fresh. (_, refl);
  signs = λ entropy nonces msg nonce_bytes boltz_nonce drawn is_nonce. (_, refl);
  aggregates = λ entropy nonces msg boltz_nonce boltz_sig our_sig drawn verifies signs. refl;
}

liquid_refund-Answers :
    (t : Elements.Transaction)
    → E.Answers submarine_elements T.refund_swap
        (liquid_key_hashes submarine_elements.script.from_hex T.refund_swap)
        alice
        bob
        liquid_refund-CanSign
        (λ nonce hex. ask_refund http T.refund_swap.swap_script.swap_type api 0 nonce hex)
        t
unfolding get_submarine_partial_sig post read_native ask_refund bytes_eq
liquid_refund-Answers t sighash msg our_nonce hashes is_message = record {
  resp = _;
  nonce_bytes = _;
  boltz_nonce = _;
  sig_bytes = _;
  boltz_sig = _;
  asks = refl;
  nonce_hex = refl;
  is_nonce = refl;
  sig_hex = refl;
  is_sig = refl;
  verifies = refl;
}

liquid_sign_refund-ok_example :
    (tx : Elements.Transaction) × (S.sign_refund submarine_elements T.refund_swap alice http floats
        (absolute 50)
        (some api)
        true
        (λ n. T.draws)
        entropy
      ≡ ok tx)
    × IsEndedRefund submarine_elements T.refund_swap alice tx
liquid_sign_refund-ok_example =
    liquid_sign_refund-ok submarine_elements T.refund_swap alice
      (liquid_key_hashes submarine_elements.script.from_hex T.refund_swap)
      (λ tx i outs genesis. refl) (elements-laws submarine_elements.script.from_hex) http floats api
      50 true (λ n. T.draws) entropy (scripts-laws submarine_elements.script.from_hex)
      liquid_refund-CanSign refl refl (omega arith) (omega arith) refund-IsBlindable refl
      liquid_refund-Answers
