-- ===== src/Bitcoin/KeyPath/Verified.antt =====
-- What a witness of the key path of a Bitcoin swap signs.
use mathlib.Core.Path.{subst}
use bullbitcoin_rnd.Base.{ℕ, ◌≡◌, sym, ap, ◌∙◌, List, String, Bytes}
use bullbitcoin_rnd.Result.{Result, ok}
use bullbitcoin_rnd.Boltz.Types.{PublicKey}
use bullbitcoin_rnd.Boltz.Client.{PartialSig}
use bullbitcoin_rnd.Musig.{Keypair, Entropy}
use bullbitcoin_rnd.Taproot.KeyPath.Verified.{IsSignatureOf, cosign-IsSignatureOf}
use bullbitcoin_rnd.Bitcoin.Crate.{TxOut, Transaction, BitcoinLib}
use bullbitcoin_rnd.Bitcoin.SwapScript.{BtcSwapScript}
use bullbitcoin_rnd.Bitcoin.SwapTx.Loop.{unsigned}
use bullbitcoin_rnd.Bitcoin.KeyPath.{spending, key_path_witness}

-- BIP 341: the signature hash of the key path does not commit to the witnesses.
abbrev pub KeySighashLaw : BitcoinLib → Type 0
KeySighashLaw lib =
    (tx : Transaction) (i : ℕ) (outs : List TxOut)
    → lib.key_spend_sighash (unsigned tx) i outs ≡ lib.key_spend_sighash tx i outs

module _ (lib : BitcoinLib) (s : BtcSwapScript) (tx_outs : List TxOut) (boltz_key : PublicKey) where
  open lib use {musig, key_spend_sighash, signature_to_vec}

  -- A witness for the transaction's own hash at that input.
  abbrev pub IsKeySpend : Transaction → ℕ → List Bytes → Type 0
  IsKeySpend tx k witness =
      IsSignatureOf musig signature_to_vec (spending lib s boltz_key)
        (key_spend_sighash tx k tx_outs) witness

  pub key_path_witness-IsKeySpend :
      (keys : Keypair) (ask : ℕ → Bytes → String → Result PartialSig) (entropy : ℕ → Entropy)
      (law : KeySighashLaw lib) (k : ℕ) (from tx : Transaction) (witness : List Bytes)
      → unsigned from ≡ unsigned tx
      → key_path_witness lib s keys tx_outs boltz_key ask entropy k from ≡ ok witness
      → IsKeySpend tx k witness
  unfolding key_path_witness
  key_path_witness-IsKeySpend keys ask entropy law k from tx witness same e =
      subst (λ hash. IsSignatureOf musig signature_to_vec (spending lib s boltz_key) hash witness)
        (sym (law from k tx_outs) ∙ ap (λ t. key_spend_sighash t k tx_outs) same ∙ law tx k tx_outs)
        (cosign-IsSignatureOf musig signature_to_vec (spending lib s boltz_key) keys
          (key_spend_sighash from k tx_outs) (λ pub_nonce. ask k pub_nonce (lib.serialize_hex from))
          (entropy k) witness e)
