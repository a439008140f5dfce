-- ===== src/Bitcoin/Sign/Spends.antt =====
-- What the transactions that `sign_claim` and `sign_refund` return spend.
use bullbitcoin_rnd.Base.{
  ℕ, ◌+◌, ◌<◌, ◌≡◌, refl, sym, ap, ◌∙◌, arith, true, false, some, List, [], ◌∷◌, map, Bytes, head?,
  get_elem?, length, length-map,
}
use bullbitcoin_rnd.Result.{ok, fail_if, expect, bind-eq-ok, ok-injective, fail_if-eq-ok}
use bullbitcoin_rnd.Boltz.Client.{HttpLib}
use bullbitcoin_rnd.Fees.{FloatLib, Fee, create_tx_with_fee}
use bullbitcoin_rnd.Musig.{Keypair, Entropy}
use bullbitcoin_rnd.Secrets.Preimage.{Preimage}
use bullbitcoin_rnd.Bitcoin.Crate.{TxIn, TxOut, Transaction, BitcoinLib}
use bullbitcoin_rnd.Bitcoin.Utxos.{Utxo}
use bullbitcoin_rnd.Bitcoin.SwapTx.{BtcSwapTx, set_witness, enable_rbf_no_locktime}
use bullbitcoin_rnd.Bitcoin.SwapTx.Loop.{
  unsigned, without_witness, unsigned-set_witness, sign_inputs-unsigned, sign_inputs-IsMadeFor,
}
use bullbitcoin_rnd.Fees.Rate.{create_tx_with_fee-built}
use bullbitcoin_rnd.Bitcoin.Claim.{create_claim, claim_draft, with_witness}
use bullbitcoin_rnd.Bitcoin.Claim.Value.{create_claim-cooperative}
use bullbitcoin_rnd.Bitcoin.Refund.Drafted.{worth, outpoints, outpoints-map}
use bullbitcoin_rnd.Bitcoin.Refund.Built.{create_refund-conserves}
use bullbitcoin_rnd.Bitcoin.Refund.{create_refund}
use bullbitcoin_rnd.Bitcoin.KeyPath.{key_path_witness}
use bullbitcoin_rnd.Bitcoin.KeyPath.Verified.{
  KeySighashLaw, IsKeySpend, key_path_witness-IsKeySpend,
}
use bullbitcoin_rnd.Boltz.Cooperative.{
  Cooperative, is_submarine, is_reverse_submarine, is_refund, is_claim, ask_claim, ask_refund,
}
use bullbitcoin_rnd.Bitcoin.Sign.{
  claim_witness, finish_claim, sign_claim, refund_key_witness, finish_refund, sign_refund,
}

count :
    (self : BtcSwapTx) (draft : Transaction)
    → outpoints draft.input ≡ map (λ u. u.outpoint) self.utxos
    → length draft.input ≡ length self.utxos
count self draft spends =
    sym (length-map (λ i. i.previous_output) draft.input)
    ∙ ap length spends
    ∙ length-map (λ u. u.outpoint) self.utxos

module _ (lib : BitcoinLib) (http : HttpLib) (floats : FloatLib) where
  finish_refund-IsKeySpend :
      (law : KeySighashLaw lib) (self : BtcSwapTx) (keys : Keypair) (entropy : ℕ → Entropy)
      (c : Cooperative) (refund_tx tx : Transaction)
      → finish_refund lib http floats self keys entropy (some c) refund_tx ≡ ok tx
      → (unsigned tx ≡ unsigned (record refund_tx { lock_time = 0 }))
        × ((k : ℕ) (input : TxIn)
            → k < length refund_tx.input
            → get_elem? tx.input k ≡ some input
            → IsKeySpend lib self.swap_script
                (map (λ utxo. utxo.txout) self.utxos)
                self.swap_script.receiver_pubkey
                tx
                k
                input.witness)
  unfolding finish_refund refund_key_witness ask_refund
  finish_refund-IsKeySpend law self keys entropy c refund_tx tx e =
      let witness_at = refund_key_witness lib http floats self keys entropy c in
      let n = length refund_tx.input in
      let unlocked = record refund_tx { lock_time = 0 } in
      (
        sign_inputs-unsigned witness_at n 0 unlocked tx e,
        λ k input inside at.
            let made = sign_inputs-IsMadeFor witness_at n unlocked tx e k input inside at in
            key_path_witness-IsKeySpend lib self.swap_script (map (λ utxo. utxo.txout) self.utxos)
              self.swap_script.receiver_pubkey keys (ask_refund http self.swap_script.swap_type c)
              entropy law k made.made_from tx input.witness made.same made.makes,
      )

  -- A refund over the key path: its one output pays what the utxos are worth less some fee, it
  -- spends every utxo, and every input is signed together with Boltz, who is the receiver.
  pub record IsCooperativeRefund (self : BtcSwapTx) (tx : Transaction) : Type 0 where
    pub not_reverse : is_reverse_submarine self.swap_script.swap_type ≡ false
    pub is_kind : is_claim self.kind ≡ false
    pub fee : ℕ
    pub out : TxOut
    pub is_output : tx.output ≡ out ∷ []
    pub conserves : out.value + fee ≡ worth self.utxos
    pub pays_to : out.script_pubkey ≡ lib.script_pubkey self.output_address
    pub unlocked : tx.lock_time ≡ 0
    pub spends : outpoints tx.input ≡ map (λ u. u.outpoint) self.utxos
    pub signed :
        (k : ℕ) (input : TxIn)
        → k < length self.utxos
        → get_elem? tx.input k ≡ some input
        → IsKeySpend lib self.swap_script
            (map (λ utxo. utxo.txout) self.utxos)
            self.swap_script.receiver_pubkey
            tx
            k
            input.witness

  -- A cooperative refund that is returned is of a swap that is no reverse swap, has lock time 0,
  -- spends every utxo in order to the output address, less some fee, and every input has one
  -- signature of its own hash that verifies under the output key and was made with a partial
  -- signature that verifies under the key of Boltz, the receiver. The law is that the signature hash
  -- does not commit to witnesses.
  pub sign_refund-IsCooperativeRefund :
      (law : KeySighashLaw lib) (self : BtcSwapTx) (keys : Keypair) (fee : Fee) (c : Cooperative)
      (entropy : ℕ → Entropy) (tx : Transaction)
      → sign_refund lib http floats self keys fee (some c) entropy ≡ ok tx
      → IsCooperativeRefund self tx
  unfolding sign_refund
  sign_refund-IsCooperativeRefund law self keys fee c entropy tx e =
      let (u1, passes, e1) =
        bind-eq-ok (fail_if (is_reverse_submarine self.swap_script.swap_type) _) _ e in
      let (u2, kinds, e2) = bind-eq-ok (fail_if (is_claim self.kind) _) _ e1 in
      let (draft, drafts, e3) =
        bind-eq-ok
          (create_tx_with_fee floats fee (λ f. create_refund lib self keys f true) lib.vsize) _
          e2 in
      let (absolute, built) =
        create_tx_with_fee-built floats (λ f. create_refund lib self keys f true) lib.vsize fee
          draft drafts in
      let (out, is_output, conserves, enough, pays_to, spends) =
        create_refund-conserves lib self keys absolute true draft built in
      let (same, signed) = finish_refund-IsKeySpend law self keys entropy c draft tx e3 in
      record {
        not_reverse = fail_if-eq-ok (is_reverse_submarine self.swap_script.swap_type) _ passes;
        is_kind = fail_if-eq-ok (is_claim self.kind) _ kinds;
        fee = absolute;
        out = out;
        is_output = ap (λ (t : Transaction). t.output) same ∙ is_output;
        conserves = conserves;
        pays_to = pays_to;
        unlocked = ap (λ (t : Transaction). t.lock_time) same;
        spends =
            sym (outpoints-map without_witness (λ i. refl) tx.input)
            ∙ ap (λ (t : Transaction). outpoints t.input) same
            ∙ outpoints-map without_witness (λ i. refl) draft.input
            ∙ spends;
        signed =
            λ k input inside at. signed k input (omega (arith, inside, count self draft spends)) at;
      }

  finish_claim-IsKeySpend :
      (law : KeySighashLaw lib) (self : BtcSwapTx) (keys : Keypair) (p : Preimage)
      (entropy : Entropy) (c : Cooperative) (utxo : Utxo) (claim_tx tx : Transaction)
      → head? self.utxos ≡ some utxo
      → finish_claim lib http floats self keys p entropy (some c) claim_tx ≡ ok tx
      → (witness : List Bytes) × (tx ≡ set_witness 0 witness claim_tx)
        × IsKeySpend lib self.swap_script
            (utxo.txout ∷ [])
            self.swap_script.sender_pubkey
            tx
            0
            witness
  unfolding finish_claim claim_witness ask_claim
  finish_claim-IsKeySpend law self keys p entropy c utxo claim_tx tx has e =
      let s = self.swap_script in
      let wanted =
        key_path_witness lib s keys (utxo.txout ∷ []) s.sender_pubkey
          (ask_claim http s.swap_type c p) (λ i. entropy) 0 claim_tx in
      let (first, found, e1) =
        bind-eq-ok (expect (head? self.utxos) "called `Option::unwrap()` on a `None` value") _ e in
      let is_first : first ≡ utxo = ground (arith, has, found) in
      let (witness, makes, e2) = bind-eq-ok wanted _ (rw is_first at e1) in
      let is : set_witness 0 witness claim_tx ≡ tx = ok-injective e2 in
      (
        witness,
        sym is,
        key_path_witness-IsKeySpend lib s (utxo.txout ∷ []) s.sender_pubkey keys
            (ask_claim http s.swap_type c p) (λ i. entropy) law 0 claim_tx tx witness
            (sym (unsigned-set_witness 0 witness claim_tx) ∙ ap unsigned is) makes,
      )

  -- A cooperative claim that is returned is of a swap that is no submarine swap, and is the
  -- transaction that spends the first utxo to the output address, less some fee, with one signature
  -- of its own hash that verifies under the output key and was made with a partial signature that
  -- verifies under the key of Boltz, the sender. The law is that the signature hash does not commit
  -- to witnesses.
  pub sign_claim-IsKeySpend :
      (law : KeySighashLaw lib) (self : BtcSwapTx) (keys : Keypair) (p : Preimage) (fee : Fee)
      (c : Cooperative) (entropy : Entropy) (utxo : Utxo) (tx : Transaction)
      → head? self.utxos ≡ some utxo
      → sign_claim lib http floats self keys p fee (some c) entropy ≡ ok tx
      → (is_submarine self.swap_script.swap_type ≡ false)
        × (is_refund self.kind ≡ false)
        × (absolute : ℕ) × (witness : List Bytes) × (tx
            ≡ with_witness lib witness
                (claim_draft lib self utxo absolute enable_rbf_no_locktime)
                utxo
                enable_rbf_no_locktime)
        × IsKeySpend lib self.swap_script
            (utxo.txout ∷ [])
            self.swap_script.sender_pubkey
            tx
            0
            witness
  unfolding sign_claim
  sign_claim-IsKeySpend law self keys p fee c entropy utxo tx has e =
      let (u1, passes, e1) = bind-eq-ok (fail_if (is_submarine self.swap_script.swap_type) _) _ e in
      let (u2, kinds, e2) = bind-eq-ok (fail_if (is_refund self.kind) _) _ e1 in
      let (draft, drafts, e3) =
        bind-eq-ok
          (create_tx_with_fee floats fee (λ f. create_claim lib self keys p f true) lib.vsize) _
          e2 in
      let (absolute, built) =
        create_tx_with_fee-built floats (λ f. create_claim lib self keys p f true) lib.vsize fee
          draft drafts in
      let is_draft = create_claim-cooperative lib self keys p absolute utxo draft has built in
      let (witness, is_tx, signed) =
        finish_claim-IsKeySpend law self keys p entropy c utxo draft tx has e3 in
      (
        fail_if-eq-ok (is_submarine self.swap_script.swap_type) _ passes,
        fail_if-eq-ok (is_refund self.kind) _ kinds,
        absolute,
        witness,
        is_tx ∙ ap (set_witness 0 witness) is_draft,
        signed,
      )
