-- ===== src/Bitcoin/Sign/Ends.antt =====
-- What `BtcSwapTx::sign_claim` and `BtcSwapTx::sign_refund` end with, together with the API.
use bullbitcoin_rnd.Base.{
  ℕ, ◌+◌, ◌-◌, ◌%◌, ◌^◌, ◌<◌, ◌≡◌, ap, false, some, List, [], ◌∷◌, map, Bytes, length, head?,
}
use bullbitcoin_rnd.Result.{ok}
use bullbitcoin_rnd.Musig.{Keypair, Entropy}
use bullbitcoin_rnd.Secrets.Preimage.{Preimage}
use bullbitcoin_rnd.Script.Instruction.{ScriptLaws}
use bullbitcoin_rnd.Boltz.Client.{HttpLib}
use bullbitcoin_rnd.Boltz.Cooperative.{
  Cooperative, is_submarine, is_reverse_submarine, is_refund, is_claim, ask_claim, ask_refund,
}
use bullbitcoin_rnd.Fees.{FloatLib, Fee, absolute}
use bullbitcoin_rnd.Taproot.KeyPath.Ends.{IsFresh, CanSign}
use bullbitcoin_rnd.Bitcoin.Crate.{Transaction, BitcoinLib}
use bullbitcoin_rnd.Bitcoin.SwapTx.{BtcSwapTx, enable_rbf_no_locktime}
use bullbitcoin_rnd.Bitcoin.Utxos.{Utxo}
use bullbitcoin_rnd.Bitcoin.Refund.Drafted.{worth}
use bullbitcoin_rnd.Bitcoin.KeyPath.{spending}
use bullbitcoin_rnd.Bitcoin.KeyPath.Verified.{KeySighashLaw, IsKeySpend}
use bullbitcoin_rnd.Bitcoin.Sign.Spends.{
  IsCooperativeRefund, sign_claim-IsKeySpend, sign_refund-IsCooperativeRefund,
}
use bullbitcoin_rnd.Bitcoin.Sign.{sign_claim, sign_refund}
use bullbitcoin_rnd.Bitcoin.Sign.Returns.{
  KeyHashLaw, Answers, sign_claim-returns, sign_refund-returns,
}

module _ (lib : BitcoinLib) (http : HttpLib) (floats : FloatLib) where
  open lib use {musig, signature_to_vec}

  -- The transaction has lock time 0. Its one input spends the utxo, its one output has the script of
  -- the output address and the value of the utxo less some fee, modulo 2 ^ 64, and its signature is
  -- made together with Boltz, the sender.
  pub record IsCooperativeClaim (self : BtcSwapTx) (utxo : Utxo) (tx : Transaction) : Type 0 where
    pub paid : ℕ
    pub sequence : ℕ
    pub witness : List Bytes
    pub input :
        tx.input
        ≡ record {
          previous_output = utxo.outpoint;
          sequence = sequence;
          script_sig = [];
          witness = witness;
        }
          ∷ []
    pub output :
        tx.output
        ≡ record {
          value = (utxo.txout.value + 2 ^ 64 - paid) % 2 ^ 64;
          script_pubkey = lib.script_pubkey self.output_address;
        }
          ∷ []
    pub unlocked : tx.lock_time ≡ 0
    pub signed :
        IsKeySpend lib self.swap_script
          (utxo.txout ∷ [])
          self.swap_script.sender_pubkey
          tx
          0
          witness

  module _ (hashes : KeyHashLaw lib http floats) (law : KeySighashLaw lib) (self : BtcSwapTx)
      (keys : Keypair) (c : Cooperative) where
    -- A cooperative claim of a swap that is no submarine swap ends, for any fee, with a transaction
    -- that has lock time 0, spends the first utxo to the output address, less some fee (modulo 2 ^
    -- 64), and has one signature of its own hash that verifies under the output key and was made with
    -- a partial signature that verifies under the key of Boltz, the sender. This is where the preimage
    -- is known, there is a utxo, the drawn session id is not all zeros, the keys of the swap are
    -- Boltz's and ours, the taproot construction succeeds and fits the aggregated key, and the API
    -- answers, whatever transaction and nonce it is sent, with a partial signature of the
    -- transaction's hash that verifies under the sender's key. The laws are that an input has a
    -- signature hash, which does not commit to witnesses, and those of BIP 327: a session id that is
    -- not all zeros gives nonces, with fresh nonces a partial signature is made, and two partial
    -- signatures that verify aggregate to a signature.
    pub sign_claim-ok :
        (p : Preimage) (fee : Fee) (entropy : Entropy) (bytes : Bytes) (utxo : Utxo)
        (can : CanSign musig signature_to_vec
          (spending lib self.swap_script self.swap_script.sender_pubkey)
          keys)
        → is_submarine self.swap_script.swap_type ≡ false
        → is_refund self.kind ≡ false
        → head? self.utxos ≡ some utxo
        → p.bytes ≡ some bytes
        → IsFresh entropy
        → ((t : Transaction)
            → Answers lib http floats hashes self keys self.swap_script.sender_pubkey can
                (utxo.txout ∷ [])
                (ask_claim http self.swap_script.swap_type c p)
                t
                0)
        → (tx : Transaction) × (sign_claim lib http floats self keys p fee (some c) entropy ≡ ok tx)
          × IsCooperativeClaim self utxo tx
    sign_claim-ok p fee entropy bytes utxo can kept kind first known fresh answers =
        let (tx, ends) =
          sign_claim-returns lib http floats hashes self keys c p fee entropy bytes utxo can kept
            kind first known fresh answers in
        let (not_submarine, is_kind, paid, witness, is_tx, signed) =
          sign_claim-IsKeySpend lib http floats law self keys p fee c entropy utxo tx first ends in
        (
          tx,
          ends,
          record {
            paid = paid;
            sequence = enable_rbf_no_locktime;
            witness = witness;
            input = ap (λ (t : Transaction). t.input) is_tx;
            output = ap (λ (t : Transaction). t.output) is_tx;
            unlocked = ap (λ (t : Transaction). t.lock_time) is_tx;
            signed = signed;
          },
        )

    -- A cooperative refund of a swap that is no reverse swap ends, for an absolute fee, with a
    -- transaction that has lock time 0, spends every utxo in order to the output address, less some
    -- fee, and in which every input has one signature of its own hash that verifies under the output
    -- key and was made with a partial signature that verifies under the key of Boltz, the receiver.
    -- This is where the fee is below what the utxos are worth, that is below 2 ^ 64, the lock time is
    -- above 16 and below 2 ^ 31, the drawn session ids are not all zeros, the keys of the swap are
    -- Boltz's and ours, the taproot construction succeeds and fits the aggregated key, and the API
    -- answers for each input, whatever transaction and nonce it is sent, with a partial signature of
    -- the input's hash that verifies under the receiver's key. The laws are that an input has a
    -- signature hash, which does not commit to witnesses, those of BIP 327 (a session id that is not
    -- all zeros gives nonces, with fresh nonces a partial signature is made, and two partial
    -- signatures that verify aggregate to a signature), and those of the script functions.
    pub sign_refund-ok :
        (scripts : ScriptLaws lib.script) (fee : ℕ) (entropy : ℕ → Entropy)
        (can : CanSign musig signature_to_vec
          (spending lib self.swap_script self.swap_script.receiver_pubkey)
          keys)
        → is_reverse_submarine self.swap_script.swap_type ≡ false
        → is_claim self.kind ≡ false
        → worth self.utxos < 2 ^ 64
        → fee < worth self.utxos
        → 16 < self.swap_script.locktime
        → self.swap_script.locktime < 2 ^ 31
        → ((k : ℕ) → k < length self.utxos → IsFresh (entropy k))
        → ((t : Transaction) (k : ℕ)
            → k < length self.utxos
            → Answers lib http floats hashes self keys self.swap_script.receiver_pubkey can
                (map (λ utxo. utxo.txout) self.utxos)
                (ask_refund http self.swap_script.swap_type c)
                t
                k)
        → (tx : Transaction) × (sign_refund lib http floats self keys
              (absolute fee)
              (some c)
              entropy
            ≡ ok tx)
          × IsCooperativeRefund lib http floats self tx
    sign_refund-ok scripts fee entropy can kept kind fits enough low high fresh answers =
        let (tx, ends) =
          sign_refund-returns lib http floats hashes self keys c scripts fee entropy can kept kind
            fits enough low high fresh answers in
        (
          tx,
          ends,
          sign_refund-IsCooperativeRefund lib http floats law self keys (absolute fee) c entropy tx
              ends,
        )
