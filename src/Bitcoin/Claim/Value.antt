-- ===== src/Bitcoin/Claim/Value.antt =====
-- How much a claim pays out.
use bullbitcoin_rnd.Base.{
  map, ℕ, ◌+◌, ◌^◌, ◌≤◌, ◌<◌, ◌≡◌, refl, arith, Bool, true, some, [], ◌∷◌, Bytes, head?,
  Option-cases, inl, inr,
}
use bullbitcoin_rnd.Result.{ok}
use bullbitcoin_rnd.Secrets.Preimage.{Preimage}
use bullbitcoin_rnd.Musig.{Keypair}
use bullbitcoin_rnd.Bitcoin.Crate.{TxOut, Transaction, BitcoinLib}
use bullbitcoin_rnd.Bitcoin.SwapScript.{BtcSwapScript}
use bullbitcoin_rnd.Bitcoin.Utxos.{Utxo}
use bullbitcoin_rnd.Bitcoin.SwapTx.{
  BtcSwapTx, sub_u64, stubbed_cooperative_witness, enable_rbf_no_locktime,
}
use bullbitcoin_rnd.Bitcoin.Claim.{claim_draft, with_witness, claim_by_script, create_claim}

module _ (lib : BitcoinLib) where
  claim_by_script-output :
      (s : BtcSwapScript) (draft : Transaction) (utxo : Utxo) (keys : Keypair) (bytes : Bytes)
      (tx : Transaction)
      → claim_by_script lib s draft utxo keys bytes ≡ ok tx
      → tx.output ≡ draft.output
  unfolding claim_by_script
  claim_by_script-output s draft utxo keys bytes tx e = ground arith

  -- A claim has one output, to the output address, of the first utxo's value less the fee, and that
  -- difference is taken modulo 2 ^ 64.
  claim_output :
      (self : BtcSwapTx) (keys : Keypair) (p : Preimage) (fee : ℕ) (cooperative : Bool)
      (utxo : Utxo) (tx : Transaction)
      → head? self.utxos ≡ some utxo
      → create_claim lib self keys p fee cooperative ≡ ok tx
      → tx.output
        ≡ record {
          value = sub_u64 utxo.txout.value fee;
          script_pubkey = lib.script_pubkey self.output_address;
        }
          ∷ []
  unfolding create_claim
  claim_output self keys p fee cooperative utxo tx has e = elim (Option-cases p.bytes) [
    | inl unknown ↦ ground (arith, e, unknown)
    | inr (bytes, known) ↦ ground (
      arith,
      e,
      has,
      known,
      claim_by_script-output self.swap_script (claim_draft lib self utxo fee 0) utxo keys bytes tx,
    )
  ]

  claim_by_script-input :
      (s : BtcSwapScript) (draft : Transaction) (utxo : Utxo) (keys : Keypair) (bytes : Bytes)
      (tx : Transaction)
      → claim_by_script lib s draft utxo keys bytes ≡ ok tx
      → map (λ i. i.previous_output) tx.input ≡ utxo.outpoint ∷ []
  unfolding claim_by_script
  claim_by_script-input s draft utxo keys bytes tx e = ground arith

  pub claim_input :
      (self : BtcSwapTx) (keys : Keypair) (p : Preimage) (fee : ℕ) (cooperative : Bool)
      (utxo : Utxo) (tx : Transaction)
      → head? self.utxos ≡ some utxo
      → create_claim lib self keys p fee cooperative ≡ ok tx
      → map (λ i. i.previous_output) tx.input ≡ utxo.outpoint ∷ []
  unfolding create_claim
  claim_input self keys p fee cooperative utxo tx has e = elim (Option-cases p.bytes) [
    | inl unknown ↦ ground (arith, e, unknown)
    | inr (bytes, known) ↦ ground (
      arith,
      e,
      has,
      known,
      claim_by_script-input self.swap_script (claim_draft lib self utxo fee 0) utxo keys bytes tx,
    )
  ]

  -- A cooperative claim that is built is the draft with the stub for a signature.
  pub create_claim-cooperative :
      (self : BtcSwapTx) (keys : Keypair) (p : Preimage) (fee : ℕ) (utxo : Utxo) (tx : Transaction)
      → head? self.utxos ≡ some utxo
      → create_claim lib self keys p fee true ≡ ok tx
      → tx
        ≡ with_witness lib stubbed_cooperative_witness
            (claim_draft lib self utxo fee enable_rbf_no_locktime)
            utxo
            enable_rbf_no_locktime
  unfolding create_claim
  create_claim-cooperative self keys p fee utxo tx has e = elim (Option-cases p.bytes) [
    | inl unknown ↦ ground (arith, e, unknown)
    | inr (bytes, known) ↦ ground (arith, e, has, known)
  ]

  -- Where the fee is at most the value of the first utxo, below 2 ^ 64, a claim that is built pays
  -- out exactly the difference, in one output to the output address, and its one input spends that
  -- utxo.
  pub create_claim-output :
      (self : BtcSwapTx) (keys : Keypair) (p : Preimage) (fee : ℕ) (cooperative : Bool)
      (utxo : Utxo) (tx : Transaction)
      → head? self.utxos ≡ some utxo
      → utxo.txout.value < 2 ^ 64
      → fee ≤ utxo.txout.value
      → create_claim lib self keys p fee cooperative ≡ ok tx
      → (out : TxOut) × (tx.output ≡ out ∷ [])
        × (out.value + fee ≡ utxo.txout.value)
        × (out.script_pubkey ≡ lib.script_pubkey self.output_address)
        × (map (λ i. i.previous_output) tx.input ≡ utxo.outpoint ∷ [])
  create_claim-output self keys p fee cooperative utxo tx has small enough e = (
    _,
    claim_output self keys p fee cooperative utxo tx has e,
    omega arith,
    refl,
    claim_input self keys p fee cooperative utxo tx has e,
  )

  -- Nothing stops a fee above the value of the utxo, below 2 ^ 64: with a known preimage and a utxo
  -- the cooperative claim is built, and its one output is worth more than the utxo.
  pub create_claim-overdrawn :
      (self : BtcSwapTx) (keys : Keypair) (p : Preimage) (fee : ℕ) (utxo : Utxo) (bytes : Bytes)
      → head? self.utxos ≡ some utxo
      → p.bytes ≡ some bytes
      → utxo.txout.value < fee
      → fee < 2 ^ 64
      → (tx : Transaction) × (out : TxOut) × (create_claim lib self keys p fee true ≡ ok tx)
        × (tx.output ≡ out ∷ [])
        × (utxo.txout.value < out.value)
  unfolding create_claim
  create_claim-overdrawn self keys p fee utxo bytes has known short fits =
      let draft = claim_draft lib self utxo fee enable_rbf_no_locktime in
      (
        with_witness lib stubbed_cooperative_witness draft utxo enable_rbf_no_locktime,
        record {
          value = sub_u64 utxo.txout.value fee;
          script_pubkey = lib.script_pubkey self.output_address;
        },
        ground (arith, has, known),
        refl,
        omega arith,
      )
