-- ===== src/Bitcoin/Size.antt =====
-- `BtcSwapTx::size` and `BtcSwapTx::broadcast`, and the balance of a swap script.
use bullbitcoin_rnd.Base.{ℕ, ℤ, Bool, Bytes, replicate}
use bullbitcoin_rnd.Result.{Result, ok, ◌>>=◌, ◌>>◌}
use bullbitcoin_rnd.Boltz.Types.{SwapTxKind}
use bullbitcoin_rnd.Musig.{Keypair}
use bullbitcoin_rnd.Script.Instruction.{Script}
use bullbitcoin_rnd.Secrets.Preimage.{HashLib, from_vec}
use bullbitcoin_rnd.Bitcoin.Crate.{Transaction, BitcoinLib}
use bullbitcoin_rnd.Bitcoin.SwapScript.{BtcSwapScript, to_address}
use bullbitcoin_rnd.Bitcoin.SwapTx.{BtcSwapTx}
use bullbitcoin_rnd.Bitcoin.Claim.{create_claim}
use bullbitcoin_rnd.Bitcoin.Refund.{create_refund}
use bullbitcoin_rnd.Bitcoin.New.{ElectrumLib}

module _ (lib : BitcoinLib) where
  -- A transaction for the kind of the swap, with a preimage of zeros and a fee of one satoshi.
  pub dummy_tx : HashLib → BtcSwapTx → Keypair → Bool → SwapTxKind → Result Transaction
  dummy_tx hashes self keys is_cooperative SwapTxKind.claim = do
    preimage ← from_vec hashes (replicate 32 0)
    create_claim lib self keys preimage 1 is_cooperative
  dummy_tx hashes self keys is_cooperative SwapTxKind.refund =
      create_refund lib self keys 1 is_cooperative

  pub size : HashLib → BtcSwapTx → Keypair → Bool → Result ℕ
  size hashes self keys is_cooperative = do
    tx ← dummy_tx hashes self keys is_cooperative self.kind
    ok (lib.vsize tx)

  -- The confirmed balance and the change that is pending; `script_get_balance` asks the server.
  pub get_balance : ElectrumLib → (Script → Result (ℕ × ℤ)) → BtcSwapScript → Result (ℕ × ℤ)
  get_balance electrum script_get_balance s = do
    electrum.build_client
    address ← to_address lib s electrum.network
    script_get_balance (lib.script_pubkey address)

  -- `send` is `transaction_broadcast`, which gives the transaction's id.
  pub broadcast : ElectrumLib → (Transaction → Result Bytes) → Transaction → Result Bytes
  broadcast electrum send signed_tx = do electrum.build_client; send signed_tx
