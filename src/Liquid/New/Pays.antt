-- ===== src/Liquid/New/Pays.antt =====
-- Which output a new Liquid claim or refund spends.
use mathlib.Core.Path.{subst}
use bullbitcoin_rnd.Base.{
  Bool, ℕ, suc, ◌+◌, ◌⊎◌, ◌≡◌, refl, sym, ap, ◌∙◌, arith, inl, inr, false, Bool-cases, some, List,
  [], ◌∷◌, String, Bytes, bytes_eq, bytes_eq_iff, get_elem?, get_last?, is_empty,
}
use bullbitcoin_rnd.Error.{Error}
use bullbitcoin_rnd.Result.{
  Result, ok, fail_if, ok_or, expect, bind-eq-ok, ok-injective, ok_or-eq-ok, fail_if-eq-ok,
  or_else-eq-ok,
}
use bullbitcoin_rnd.Boltz.Types.{SwapType, SwapTxKind}
use bullbitcoin_rnd.Boltz.Cooperative.{is_submarine, is_reverse_submarine}
use bullbitcoin_rnd.Boltz.Lookups.{GetLib, lockup_hex}
use bullbitcoin_rnd.Script.Instruction.{Script}
use bullbitcoin_rnd.Liquid.Crate.{Address, OutPoint, TxOut, Transaction, ElementsLib}
use bullbitcoin_rnd.Liquid.SwapScript.{LBtcSwapScript, to_address}
use bullbitcoin_rnd.Liquid.SwapTx.{LBtcSwapTx}
use bullbitcoin_rnd.Liquid.New.{
  ElectrumLib, outpoint_of, paying_output, liquid_genesis_hash, fetch_utxo, fetch_lockup_utxo_boltz,
  funding_of, new_claim, new_refund,
}

-- The output stands in the list, `first` counted on from its head, and pays to the script.
pub record IsFoundIn (txid : Bytes) (spk : Script) (first : ℕ) (outputs : List TxOut)
    (found : OutPoint × TxOut) : Type 0 where
  pub index : ℕ
  pub at : get_elem? outputs index ≡ some found.1
  pub outpoint : found.0 ≡ outpoint_of txid (first + index)
  pub pays : found.1.script_pubkey ≡ spk

paying_output-IsFoundIn :
    (txid : Bytes) (spk : Script) (vout : ℕ) (outputs : List TxOut) (found : OutPoint × TxOut)
    → paying_output txid spk vout outputs ≡ some found
    → IsFoundIn txid spk vout outputs found
unfolding paying_output
paying_output-IsFoundIn txid spk vout [] found e = cc
paying_output-IsFoundIn txid spk vout (output ∷ outputs) found e =
    elim (Bool-cases (bytes_eq output.script_pubkey spk)) [
      | inl here ↦
          let is : (outpoint_of txid vout, output) ≡ found = ground (arith, e, here) in
          record {
            index = 0;
            at = ap (λ (f : OutPoint × TxOut). some f.1) is;
            outpoint =
                sym (ap (λ (f : OutPoint × TxOut). f.0) is) ∙ ap (outpoint_of txid) (omega arith);
            pays =
                sym (ap (λ (f : OutPoint × TxOut). f.1.script_pubkey) is)
                ∙ (bytes_eq_iff output.script_pubkey spk).0 here;
          }
      | inr elsewhere ↦
          let later =
            paying_output-IsFoundIn txid spk (suc vout) outputs found
              (ground (arith, e, elsewhere)) in
          record {
            index = suc later.index;
            at = later.at;
            outpoint = later.outpoint ∙ ap (outpoint_of txid) (omega arith);
            pays = later.pays;
          }
    ]

module _ (electrum : ElectrumLib) (api : GetLib) where
  -- Electrum gives the bytes of the transaction for some hash, or the API gives them for a swap.
  abbrev pub IsSource : Transaction → Type 0
  IsSource tx =
      (raw : Bytes) × (electrum.deserialize raw ≡ ok tx)
      × (((txid : Bytes) × (electrum.transaction_get_raw txid ≡ ok raw))
          ⊎ ((t : SwapType) × (kind : SwapTxKind) × (url : String) × (id : String) × (hex : String)
              × (lockup_hex api t kind (record { base_url = url }) id ≡ ok (some hex))
              × (electrum.hex_decode hex ≡ ok raw)))

module _ (lib : ElementsLib) (electrum : ElectrumLib) (api : GetLib) (s : LBtcSwapScript) where
  open lib use {script_pubkey, to_unconfidential, address_from_str}
  open electrum use {
    network, build_client, script_get_history, transaction_get_raw, deserialize, hex_decode,
  }

  -- The outpoint and the output are of one transaction that was fetched, and pay to the address of the swap script.
  pub record IsPaidTo (found : OutPoint × TxOut) : Type 0 where
    pub address : Address
    pub tx : Transaction
    pub is_address : to_address lib s network ≡ ok address
    pub fetched : IsSource electrum api tx
    pub stands : IsFoundIn (lib.txid tx) (script_pubkey address) 0 tx.output found

  fetch_utxo-IsPaidTo :
      (found : OutPoint × TxOut) → fetch_utxo lib electrum api s ≡ ok found → IsPaidTo found
  unfolding fetch_utxo
  fetch_utxo-IsPaidTo found e =
      let (u, connects, e1) = bind-eq-ok build_client _ e in
      let (address, is_address, e2) = bind-eq-ok (to_address lib s network) _ e1 in
      let (again, is_again, e3) = bind-eq-ok (to_address lib s network) _ e2 in
      let asked = script_get_history (script_pubkey (to_unconfidential again)) in
      let (history, gets, e4) = bind-eq-ok asked _ e3 in
      let (u2, some_left, e5) = bind-eq-ok (fail_if (is_empty history) _) _ e4 in
      let (last, is_last, e6) = bind-eq-ok (expect (get_last? history) "txid expected") _ e5 in
      let (raw, fetches, e7) = bind-eq-ok (transaction_get_raw last.tx_hash) _ e6 in
      let (tx, decodes, e8) = bind-eq-ok (deserialize raw) _ e7 in
      record {
        address = address;
        tx = tx;
        is_address = is_address;
        fetched = (raw, decodes, inl (last.tx_hash, fetches));
        stands =
            paying_output-IsFoundIn (lib.txid tx) (script_pubkey address) 0 tx.output found
              (ok_or-eq-ok _ _ e8);
      }

  lockup-IsPaidTo :
      (url id : String) (kind : SwapTxKind) (found : OutPoint × TxOut)
      → fetch_lockup_utxo_boltz lib electrum api s url id kind ≡ ok found
      → IsPaidTo found
  unfolding fetch_lockup_utxo_boltz
  lockup-IsPaidTo url id kind found e =
      let asked = lockup_hex api s.swap_type kind (record { base_url = url }) id in
      let (hex?, asks, e1) = bind-eq-ok asked _ e in
      let missing = Error.hex "No transaction hex found in boltz response" in
      let (hex, has, e2) = bind-eq-ok (ok_or hex? missing) _ e1 in
      let (address, is_address, e3) = bind-eq-ok (to_address lib s network) _ e2 in
      let (raw, reads, e4) = bind-eq-ok (hex_decode hex) _ e3 in
      let (tx, decodes, e5) = bind-eq-ok (deserialize raw) _ e4 in
      record {
        address = address;
        tx = tx;
        is_address = is_address;
        fetched = (
          raw,
          decodes,
          inr (s.swap_type, kind, url, id, hex, asks ∙ ap ok (ok_or-eq-ok hex? missing has), reads),
        );
        stands =
            paying_output-IsFoundIn (lib.txid tx) (script_pubkey address) 0 tx.output found
              (ok_or-eq-ok _ _ e5);
      }

  funding_of-IsPaidTo :
      (url id : String) (kind : SwapTxKind) (found : OutPoint × TxOut)
      → funding_of lib electrum api s url id kind ≡ ok found
      → IsPaidTo found
  funding_of-IsPaidTo url id kind found e =
      or_else-eq-ok IsPaidTo (fetch_utxo lib electrum api s)
        (fetch_lockup_utxo_boltz lib electrum api s url id kind) fetch_utxo-IsPaidTo
        (lockup-IsPaidTo url id kind) e

  abbrev pub construct : SwapTxKind → String → String → String → Result LBtcSwapTx
  construct SwapTxKind.claim = new_claim lib electrum api s
  construct SwapTxKind.refund = new_refund lib electrum api s

  -- The swap type that neither kind of transaction is for.
  abbrev pub refuses : SwapTxKind → SwapType → Bool
  refuses SwapTxKind.claim t = is_submarine t
  refuses SwapTxKind.refund t = is_reverse_submarine t

  -- What a constructed claim or refund has been given.
  pub record IsFunded (kind : SwapTxKind) (text : String) (self : LBtcSwapTx) : Type 0 where
    pub not_refused : refuses kind s.swap_type ≡ false
    pub is_kind : self.kind ≡ kind
    pub is_script : self.swap_script ≡ s
    pub is_output : address_from_str text ≡ ok self.output_address
    pub is_genesis : liquid_genesis_hash lib electrum api ≡ ok self.genesis_hash
    pub paid : IsPaidTo (self.funding_outpoint, self.funding_utxo)

  -- A Liquid claim or refund that is constructed is for the given swap script, whose type allows it,
  -- for the given output address, with the genesis hash of the chain, and is funded by an output of
  -- one transaction, at the index and with the hash that its outpoint names, that pays to the
  -- confidential address of the swap script, whether Electrum or Boltz told of it.
  pub construct-IsFunded :
      (kind : SwapTxKind) (text url id : String) (self : LBtcSwapTx)
      → construct kind text url id ≡ ok self
      → IsFunded kind text self
  unfolding new_claim new_refund
  construct-IsFunded SwapTxKind.claim text url id self e =
      let (u1, passes, e1) = bind-eq-ok (fail_if (is_submarine s.swap_type) _) _ e in
      let funding = funding_of lib electrum api s url id SwapTxKind.claim in
      let (found, funds, e2) = bind-eq-ok funding _ e1 in
      let (u2, connects, e3) = bind-eq-ok build_client _ e2 in
      let (genesis, is_genesis, e4) = bind-eq-ok (liquid_genesis_hash lib electrum api) _ e3 in
      let (address, parses, e5) = bind-eq-ok (address_from_str text) _ e4 in
      subst (IsFunded SwapTxKind.claim text) (ok-injective e5) (record {
        not_refused = fail_if-eq-ok (is_submarine s.swap_type) _ passes;
        is_kind = refl;
        is_script = refl;
        is_output = parses;
        is_genesis = is_genesis;
        paid = funding_of-IsPaidTo url id SwapTxKind.claim found funds;
      })
  construct-IsFunded SwapTxKind.refund text url id self e =
      let (u1, passes, e1) = bind-eq-ok (fail_if (is_reverse_submarine s.swap_type) _) _ e in
      let (address, parses, e2) = bind-eq-ok (address_from_str text) _ e1 in
      let funding = funding_of lib electrum api s url id SwapTxKind.refund in
      let (found, funds, e3) = bind-eq-ok funding _ e2 in
      let (u2, connects, e4) = bind-eq-ok build_client _ e3 in
      let (genesis, is_genesis, e5) = bind-eq-ok (liquid_genesis_hash lib electrum api) _ e4 in
      subst (IsFunded SwapTxKind.refund text) (ok-injective e5) (record {
        not_refused = fail_if-eq-ok (is_reverse_submarine s.swap_type) _ passes;
        is_kind = refl;
        is_script = refl;
        is_output = parses;
        is_genesis = is_genesis;
        paid = funding_of-IsPaidTo url id SwapTxKind.refund found funds;
      })
