-- ===== src/Liquid/Broadcast.antt =====
-- `LBtcSwapTx::size` and `LBtcSwapTx::broadcast`.
use bullbitcoin_rnd.Base.{ℕ, Bool, Option, none, some, String, replicate}
use bullbitcoin_rnd.Error.{Error}
use bullbitcoin_rnd.Result.{Result, ok, err, ◌>>=◌}
use bullbitcoin_rnd.Chain.{Chain}
use bullbitcoin_rnd.Boltz.Types.{SwapTxKind}
use bullbitcoin_rnd.Boltz.Client.{
  Json, string, object, find_field, HttpLib, BoltzApiClientV2, broadcast_tx,
}
use bullbitcoin_rnd.Musig.{Keypair}
use bullbitcoin_rnd.Secrets.Preimage.{HashLib, from_vec}
use bullbitcoin_rnd.Liquid.Crate.{Transaction, ElementsLib}
use bullbitcoin_rnd.Liquid.SwapTx.{LBtcSwapTx}
use bullbitcoin_rnd.Liquid.Blind.{BlindEntropy}
use bullbitcoin_rnd.Liquid.Create.{create_claim, create_refund}
use bullbitcoin_rnd.Liquid.Sign.{tx_size}

-- `txid_val.as_str()`
abbrev pub txid_text : Option Json → Result String
txid_text none = err (Error.protocol "No txid found in broadcast reply")
txid_text (some (string txid)) = ok txid
txid_text (some _) = err (Error.protocol "Returned txid is not a string")

-- `response.as_object()`
abbrev pub read_txid : Json → Result String
read_txid (object fields) = txid_text (find_field "id" fields)
read_txid _ = err (Error.protocol "Invalid broadcast reply")

module _ (lib : ElementsLib) where
  -- A transaction for the kind of the swap, with a preimage of zeros and a fee of one satoshi.
  pub dummy_tx :
      HashLib → LBtcSwapTx → Keypair → Bool → BlindEntropy → SwapTxKind → Result Transaction
  dummy_tx hashes self keys is_cooperative draws SwapTxKind.claim = do
    preimage ← from_vec hashes (replicate 32 0)
    create_claim lib self keys preimage 1 is_cooperative draws
  dummy_tx hashes self keys is_cooperative draws SwapTxKind.refund =
      create_refund lib self keys 1 is_cooperative draws

  pub size : HashLib → LBtcSwapTx → Keypair → Bool → Bool → BlindEntropy → Result ℕ
  size hashes self keys is_cooperative is_discount_ct draws = do
    tx ← dummy_tx hashes self keys is_cooperative draws self.kind
    ok (tx_size lib tx is_discount_ct)

  -- Without a client of the API, an Electrum client is built, `send`s the transaction and gives its id.
  pub broadcast :
      HttpLib
      → Result (Unit {0})
      → (Transaction → Result String)
      → Transaction
      → Option (BoltzApiClientV2 × Chain)
      → Result String
  broadcast http build_client send signed_tx none = build_client >>= λ client. send signed_tx
  broadcast http build_client send signed_tx (some (boltz_api, chain)) = do
    response ← broadcast_tx http boltz_api chain (lib.serialize_hex signed_tx)
    read_txid response
