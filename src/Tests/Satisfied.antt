-- ===== src/Tests/Satisfied.antt =====
-- Witnesses of concrete swaps that satisfy their scripts.
use bullbitcoin_rnd.Base.{
  ℕ, ◌<◌, false, ◌≡◌, ◌↔◌, refl, sym, ◌∙◌, arith, true, some, [], ◌∷◌, ◌++◌, bytes_eq, bytes_eq_iff,
  get_elem?, if◌then◌else◌, Bytes,
}
use bullbitcoin_rnd.Result.{ok, ok-injective}
use bullbitcoin_rnd.Boltz.Types.{SwapType}
use bullbitcoin_rnd.Script.Instruction.{ScriptLib}
use bullbitcoin_rnd.Script.Tree.{claim_instructions, refund_instructions}
use bullbitcoin_rnd.Script.Consensus.{Spend, accepts, satisfies}
use bullbitcoin_rnd.Script.Consensus.Claim.{IsClaimStack, claim_instructions-accepts_iff}
use bullbitcoin_rnd.Script.Consensus.Refund.{IsRefundStack, refund_instructions-accepts_iff}
use bullbitcoin_rnd.Bitcoin.Crate.{TxIn}
use bullbitcoin_rnd.Bitcoin.SwapScript.{
  claim_script, refund_script, taproot_spendinfo, verify_funding, verify_address,
  musig_keyagg_cache,
}
use bullbitcoin_rnd.Bitcoin.Refund.{create_refund}
use bullbitcoin_rnd.Bitcoin.Satisfied as B
use bullbitcoin_rnd.Bitcoin.Satisfied.Ends.{HashLaw, HasLeaf, create_claim-ok, create_refund-ok}
use bullbitcoin_rnd.Bitcoin.Refund.Drafted.{outpoints}
use bullbitcoin_rnd.Bitcoin.Claim.{create_claim}
use bullbitcoin_rnd.Bitcoin.Crate.{Transaction}
use bullbitcoin_rnd.Liquid.SwapScript as L
use bullbitcoin_rnd.Liquid.Satisfied as S
use bullbitcoin_rnd.Liquid.Crate as Elements
use bullbitcoin_rnd.Liquid.SwapTx.{LBtcSwapTx}
use bullbitcoin_rnd.Liquid.Create as Create
use bullbitcoin_rnd.Liquid.Blind.Ends.{IsBlindable}
use bullbitcoin_rnd.Liquid.Satisfied.Ends as LE
use bullbitcoin_rnd.Liquid.Satisfied.Ends.{liquid_create_claim-ok, liquid_create_refund-ok}
use bullbitcoin_rnd.Tests.Hashes.{secret, secret_preimage}
use bullbitcoin_rnd.Tests.Scripts.{decode, scripts-laws, lock, alice, bob}
use bullbitcoin_rnd.Tests.Crates.{crates, reverse_lib, submarine_lib}
use bullbitcoin_rnd.Tests.Transactions.{first_utxo, second_utxo, claim_swap, refund_swap}
use bullbitcoin_rnd.Tests.Elements.{elements, reverse_elements, submarine_elements}
use bullbitcoin_rnd.Tests.Liquid as T

-- Only the secret has the hash.
abbrev hash160 : Bytes → Bytes
hash160 preimage = if bytes_eq preimage secret then lock else []

hash160-secret : hash160 secret ≡ lock
hash160-secret = rw ((bytes_eq_iff secret secret).1 refl) refl

-- A signature is the hash that it signs.
abbrev node : B.Node
node = record {
  hash160 = hash160;
  check_sig = λ tx k outs leaf sig key. bytes_eq sig (k ∷ tx.lock_time ∷ leaf);
}

node-laws : (from_hex : _) → B.SpendLaws (crates from_hex) node
node-laws from_hex = record {
  scripts = scripts-laws from_hex;
  pushes = λ n low high. refl;
  sighash = λ tx i outs leaf. refl;
  checks = λ tx k outs leaf sighash msg keys hashes is_message.
      (bytes_eq_iff msg (k ∷ tx.lock_time ∷ leaf)).1
        (sym (ok-injective hashes ∙ ok-injective is_message));
}

node-hashes : (from_hex : _) → HashLaw (crates from_hex)
node-hashes from_hex tx k outs leaf inside same = (_, _, refl, refl)

claim_leaf :
    HasLeaf reverse_lib claim_swap.swap_script (claim_script reverse_lib claim_swap.swap_script)
unfolding claim_script taproot_spendinfo verify_funding verify_address musig_keyagg_cache decode
    bytes_eq
claim_leaf = record { info = _; control_block = _; constructed = refl; reveals = refl }

create_claim-ok_example :
    (tx : Transaction) × (create_claim reverse_lib claim_swap alice secret_preimage 300 false
      ≡ ok tx)
    × (outpoints tx.input ≡ first_utxo.outpoint ∷ [])
    × (input : TxIn) × (tx.input ≡ input ∷ [])
    × (satisfies reverse_lib.script
          (B.spend_at node tx 0
            (first_utxo.txout ∷ [])
            (claim_script reverse_lib claim_swap.swap_script)
            input)
          input.witness
        ≡ true)
create_claim-ok_example =
    create_claim-ok reverse_lib (node-hashes reverse_lib.script.from_hex) claim_swap alice node
      (node-laws reverse_lib.script.from_hex) 300 secret_preimage secret first_utxo refl refl refl
      hash160-secret refl refl claim_leaf

refund_leaf :
    HasLeaf submarine_lib refund_swap.swap_script
      (refund_script submarine_lib refund_swap.swap_script)
unfolding refund_script taproot_spendinfo verify_funding verify_address musig_keyagg_cache decode
    bytes_eq
refund_leaf = record { info = _; control_block = _; constructed = refl; reveals = refl }

create_refund-ok_example :
    (tx : Transaction) × (create_refund submarine_lib refund_swap alice 500 false ≡ ok tx)
    × (outpoints tx.input ≡ first_utxo.outpoint ∷ second_utxo.outpoint ∷ [])
    × ((k : ℕ) (input : TxIn)
        → k < 2
        → get_elem? tx.input k ≡ some input
        → satisfies submarine_lib.script
            (B.spend_at node tx k
              (first_utxo.txout ∷ second_utxo.txout ∷ [])
              (refund_script submarine_lib refund_swap.swap_script)
              input)
            input.witness
          ≡ true)
create_refund-ok_example =
    create_refund-ok submarine_lib (node-hashes submarine_lib.script.from_hex) refund_swap alice
      node (node-laws submarine_lib.script.from_hex) 500 (omega arith) (omega arith) (omega arith)
      (omega arith) refl refund_leaf

abbrev liquid_node : S.Node
liquid_node = record {
  hash160 = hash160;
  check_sig = λ tx k outs leaf genesis sig key. bytes_eq sig (k ∷ tx.lock_time ∷ leaf ++ genesis);
}

liquid_node-laws : (from_hex : _) → S.SpendLaws (elements from_hex) liquid_node
liquid_node-laws from_hex = record {
  scripts = scripts-laws from_hex;
  pushes = λ n low high. refl;
  sighash = λ tx i outs leaf genesis. refl;
  checks = λ tx k outs leaf genesis sighash msg keys hashes is_message.
      (bytes_eq_iff msg (k ∷ tx.lock_time ∷ leaf ++ genesis)).1
        (sym (ok-injective hashes ∙ ok-injective is_message));
}

liquid_node-hashes : (from_hex : _) (self : LBtcSwapTx) → LE.HashLaw (elements from_hex) self
liquid_node-hashes from_hex self lock_time outputs leaf = (_, _, refl, refl)

liquid_claim_leaf :
    LE.HasLeaf reverse_elements T.claim_swap.swap_script
      (L.claim_script reverse_elements T.claim_swap.swap_script)
unfolding L.claim_script L.taproot_spendinfo L.verify_funding L.verify_address L.musig_keyagg_cache
    decode bytes_eq
liquid_claim_leaf = record { info = _; control_block = _; constructed = refl; reveals = refl }

liquid_refund_leaf :
    LE.HasLeaf submarine_elements T.refund_swap.swap_script
      (L.refund_script submarine_elements T.refund_swap.swap_script)
unfolding L.refund_script L.taproot_spendinfo L.verify_funding L.verify_address L.musig_keyagg_cache
    decode bytes_eq
liquid_refund_leaf = record { info = _; control_block = _; constructed = refl; reveals = refl }

pub claim-IsBlindable : IsBlindable reverse_elements T.claim_swap 40 T.draws
claim-IsBlindable = record {
  unblinded = _;
  asset = _;
  blinding_key = _;
  value = _;
  opens = refl;
  covers = omega arith;
  blinds = refl;
  is_key = refl;
  hides = refl;
}

pub refund-IsBlindable : IsBlindable submarine_elements T.refund_swap 50 T.draws
refund-IsBlindable = record {
  unblinded = _;
  asset = _;
  blinding_key = _;
  value = _;
  opens = refl;
  covers = omega arith;
  blinds = refl;
  is_key = refl;
  hides = refl;
}

liquid_create_claim-ok_example :
    (tx : Elements.Transaction) × (Create.create_claim reverse_elements T.claim_swap alice
        secret_preimage 40 false T.draws
      ≡ ok tx)
    × S.IsSatisfied reverse_elements liquid_node T.claim_swap
        (L.claim_script reverse_elements T.claim_swap.swap_script)
        tx
liquid_create_claim-ok_example =
    liquid_create_claim-ok reverse_elements T.claim_swap
      (liquid_node-hashes reverse_elements.script.from_hex T.claim_swap) alice liquid_node
      (liquid_node-laws reverse_elements.script.from_hex) 40 T.draws secret_preimage secret refl
      refl hash160-secret refl refl claim-IsBlindable liquid_claim_leaf

liquid_create_refund-ok_example :
    (tx : Elements.Transaction) × (Create.create_refund submarine_elements T.refund_swap alice 50
        false T.draws
      ≡ ok tx)
    × S.IsSatisfied submarine_elements liquid_node T.refund_swap
        (L.refund_script submarine_elements T.refund_swap.swap_script)
        tx
liquid_create_refund-ok_example =
    liquid_create_refund-ok submarine_elements T.refund_swap
      (liquid_node-hashes submarine_elements.script.from_hex T.refund_swap) alice liquid_node
      (liquid_node-laws submarine_elements.script.from_hex) 50 T.draws (omega arith) (omega arith)
      refl refund-IsBlindable liquid_refund_leaf

-- A transaction that waits for the height 800000; a signature is the key that it is valid for.
abbrev late : Spend
late = record {
  hash160 = hash160;
  check_sig = λ sig key. bytes_eq sig key;
  lock_time = 800000;
  sequence = 0;
}

abbrev plain_scripts : ScriptLib
plain_scripts = submarine_lib.script

claim_instructions-accepts_iff_example :
    (accepts late
        (claim_instructions plain_scripts SwapType.chain lock alice)
        (secret ∷ plain_scripts.x_only alice ∷ [])
      ≡ true)
    ↔ IsClaimStack plain_scripts late lock alice SwapType.chain
        (secret ∷ plain_scripts.x_only alice ∷ [])
claim_instructions-accepts_iff_example =
    claim_instructions-accepts_iff plain_scripts late lock alice (λ n low high. refl) SwapType.chain
      (secret ∷ plain_scripts.x_only alice ∷ [])

refund_instructions-accepts_iff_example :
    (accepts late (refund_instructions plain_scripts bob 800000) (plain_scripts.x_only bob ∷ [])
      ≡ true)
    ↔ IsRefundStack plain_scripts late bob 800000 (plain_scripts.x_only bob ∷ [])
refund_instructions-accepts_iff_example =
    refund_instructions-accepts_iff plain_scripts late bob 800000 (λ n low high. refl) (omega arith)
      (omega arith) (plain_scripts.x_only bob ∷ [])
