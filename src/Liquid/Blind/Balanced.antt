-- ===== src/Liquid/Blind/Balanced.antt =====
-- What whoever holds the blinding key of the output address finds in the payment.
use mathlib.Core.Path.{subst}
use bullbitcoin_rnd.Base.{
  ℕ, ◌+◌, ◌<◌, ◌≡◌, refl, ap, ◌∙◌, arith, Option, some, [], ◌∷◌, Bytes, List,
}
use bullbitcoin_rnd.Error.{Error}
use bullbitcoin_rnd.Result.{ok, panic, ok_or, bind-eq-ok, ok-injective, ok_or-eq-ok}
use bullbitcoin_rnd.Musig.{Keypair}
use bullbitcoin_rnd.Script.Instruction.{Script}
use bullbitcoin_rnd.Liquid.Crate.{TxOut, TxOutSecrets, BlindedAsset, BlindedValue, ElementsLib}
use bullbitcoin_rnd.Liquid.SwapTx.{LBtcSwapTx}
use bullbitcoin_rnd.Liquid.Blind.{
  BlindEntropy, Outputs, sub_amount, blinded_output, final_vbf, blinded_outputs,
}

-- What the crate documents: an output that was blinded for a key is unblinded by that key.
pub record BlindLaws (lib : ElementsLib) : Type 0 where
  pub unblind-blinded :
      (k : Keypair) (value : ℕ) (vbf abf seed ephemeral_sk asset : Bytes) (spk : Script)
      (spent : List TxOutSecrets) (blinded_asset : BlindedAsset) (blinded_value : BlindedValue)
      → lib.blind_asset seed asset abf spent ≡ ok blinded_asset
      → lib.blind_value value vbf (lib.public_key k) ephemeral_sk spk asset abf ≡ ok blinded_value
      → lib.unblind (blinded_output spk blinded_asset blinded_value) (lib.secret_key k)
        ≡ ok (record { asset = asset; asset_bf = abf; value = value; value_bf = vbf })

same_value {ℓ} : {A : Type ℓ} {o : Option A} {a b : A} → o ≡ some a → o ≡ some b → a ≡ b
same_value h k = ground arith

sub_amount-ok : (a b : ℕ) {c : ℕ} → sub_amount a b ≡ ok c → c + b ≡ a
sub_amount-ok a b e = ground arith

module _ (lib : ElementsLib) (self : LBtcSwapTx) (absolute_fees : ℕ) where
  open lib use {
    script_pubkey, blinding_pubkey, public_key, secret_key, unblind, blind_asset, new_fee,
  }

  -- The payment opens to the asset of the funding output and its value less the fee. The factor of its
  -- value is the last one, that the elements crate computes for one input, the funding output, and one
  -- other output, the fee, which is not blinded.
  pub record Opens (funded : TxOutSecrets) (payment : TxOut) (k : Keypair) : Type 0 where
    pub opened : TxOutSecrets
    pub opens : unblind payment (secret_key k) ≡ ok opened
    pub same_asset : opened.asset ≡ funded.asset
    pub conserves : opened.value + absolute_fees ≡ funded.value
    pub is_last :
        opened.value_bf
        ≡ lib.last_value_bf opened.value opened.asset_bf
            (record { value = funded.value; asset_bf = funded.asset_bf; value_bf = funded.value_bf }
              ∷ [])
            (record {
              value = absolute_fees;
              asset_bf = lib.zero_asset_bf;
              value_bf = lib.zero_value_bf;
            }
              ∷ [])

  -- The payment goes to the output address, and the fee is of the same asset. The blinding key of the
  -- output address opens the payment.
  pub record IsPayment (payment fee : TxOut) : Type 0 where
    pub funded : TxOutSecrets
    pub unblinds : unblind self.funding_utxo (secret_key self.swap_script.blinding_key) ≡ ok funded
    pub pays_to : payment.script_pubkey ≡ script_pubkey self.output_address
    pub is_fee : fee ≡ new_fee absolute_fees funded.asset
    pub opens :
        (k : Keypair)
        → blinding_pubkey self.output_address ≡ some (public_key k)
        → Opens funded payment k

  pub blinded_outputs-IsPayment :
      BlindLaws lib
      → (draws : BlindEntropy) (outputs : Outputs)
      → blinded_outputs lib self absolute_fees draws ≡ ok outputs
      → IsPayment outputs.payment outputs.fee
  unfolding blinded_outputs
  blinded_outputs-IsPayment laws draws outputs e =
      let key = secret_key self.swap_script.blinding_key in
      let spk = script_pubkey self.output_address in
      let (funded, unblinds, e1) = bind-eq-ok (unblind self.funding_utxo key) _ e in
      let blind = blind_asset draws.surjection_seed funded.asset draws.out_abf (funded ∷ []) in
      let (asset, blinds, e2) = bind-eq-ok blind _ e1 in
      let (value, subtracts, e3) = bind-eq-ok (sub_amount funded.value absolute_fees) _ e2 in
      let vbf = final_vbf lib value draws.out_abf funded absolute_fees in
      let missing = Error.protocol "No blinding key in tx." in
      let (pubkey, has, e4) =
        bind-eq-ok (ok_or (blinding_pubkey self.output_address) missing) _ e3 in
      let committed =
        lib.blind_value value vbf pubkey draws.ephemeral_sk spk funded.asset draws.out_abf in
      let (blinded, commits, e5) = bind-eq-ok committed _ e4 in
      subst (λ o. IsPayment o.payment o.fee) (ok-injective e5)
        (record {
          funded = funded;
          unblinds = unblinds;
          pays_to = refl;
          is_fee = refl;
          opens = λ k is_key. record {
            opened = record {
              asset = funded.asset;
              asset_bf = draws.out_abf;
              value = value;
              value_bf = vbf;
            };
            opens =
                laws.unblind-blinded k value vbf draws.out_abf draws.surjection_seed
                  draws.ephemeral_sk funded.asset spk (funded ∷ []) asset blinded blinds
                  (ap
                      (λ pk.
                        lib.blind_value value vbf pk draws.ephemeral_sk spk funded.asset
                          draws.out_abf)
                      (same_value is_key
                        (ok_or-eq-ok (blinding_pubkey self.output_address) missing has))
                    ∙ commits);
            same_asset = refl;
            conserves = sub_amount-ok funded.value absolute_fees subtracts;
            is_last = refl;
          };
        })

  -- Where the funding output opens to less than the fee, the subtraction panics.
  pub blinded_outputs-overdrawn :
      (draws : BlindEntropy) (funded : TxOutSecrets) (asset : BlindedAsset)
      → unblind self.funding_utxo (secret_key self.swap_script.blinding_key) ≡ ok funded
      → blind_asset draws.surjection_seed funded.asset draws.out_abf (funded ∷ []) ≡ ok asset
      → funded.value < absolute_fees
      → blinded_outputs lib self absolute_fees draws ≡ panic "Amount subtraction error"
  unfolding blinded_outputs
  blinded_outputs-overdrawn draws funded asset unblinds blinds short =
      rw (unblinds, blinds) (ground (arith, short))
