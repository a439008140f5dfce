-- ===== src/Boltz/Validate/Hashlock.antt =====
-- What `validate` compares with an invoice.
use bullbitcoin_rnd.Base.{
  ◌≡◌, refl, inl, inr, true, false, not, String, bytes_eq, bytes_eq_iff, if_cases,
}
use bullbitcoin_rnd.Result.{Result, ok, err, panic, fail_if, bind-eq-ok, fail_if-eq-ok}
use bullbitcoin_rnd.Chain.{Chain, is_bitcoin}
use bullbitcoin_rnd.Boltz.Types.{PublicKey, CreateSubmarineResponse}
use bullbitcoin_rnd.Secrets.Preimage.{Preimage, HashLib, from_invoice_str}
use bullbitcoin_rnd.Taproot.KeyPath.Verified.{not-false}
use bullbitcoin_rnd.Bitcoin.Crate.{BitcoinLib}
use bullbitcoin_rnd.Liquid.Crate.{ElementsLib}
use bullbitcoin_rnd.Liquid.SwapScript.{LBtcSwapScript, submarine_from_swap_resp}
use bullbitcoin_rnd.Boltz.Validate.{unwrap, unwrap_option, submarine_validate}

unwrap-eq-ok {ℓ} : {A : Type ℓ} (r : Result A) {a : A} → unwrap r ≡ ok a → r ≡ ok a
unwrap-eq-ok (ok x) e = e
unwrap-eq-ok (err m) e = cc
unwrap-eq-ok (panic m) e = cc

module _ (bitcoin : BitcoinLib) (elements : ElementsLib) (hashes : HashLib) where
  -- The script of a response has the hash of an invoice for its hash lock.
  pub record IsLockedBy (response : CreateSubmarineResponse) (invoice : String) (ours : PublicKey)
      : Type 0 where
    pub preimage : Preimage
    pub s : LBtcSwapScript
    pub reads : from_invoice_str hashes invoice ≡ ok preimage
    pub is_script : submarine_from_swap_resp elements response ours ≡ ok s
    pub locks : s.hashlock ≡ preimage.hash160

  -- On a chain other than Bitcoin's, a submarine response that is let through for an invoice leads
  -- to a swap script whose hash lock is the hash of that invoice.
  pub submarine_validate-IsLockedBy :
      (response : CreateSubmarineResponse) (invoice : String) (ours : PublicKey) (on : Chain)
      → is_bitcoin on ≡ false
      → submarine_validate bitcoin elements hashes response invoice ours on ≡ ok tt
      → IsLockedBy response invoice ours
  unfolding submarine_validate
  submarine_validate-IsLockedBy response invoice ours on liquid e =
      let (preimage, reads, e1) = bind-eq-ok (unwrap (from_invoice_str hashes invoice)) _ e in
      elim (if_cases (is_bitcoin on) _ _ e1) [
        | inl (here, f) ↦ cc
        | inr (there, f) ↦
            let (key, has, f1) = bind-eq-ok (unwrap_option response.blinding_key) _ f in
            let created = submarine_from_swap_resp elements response ours in
            let (s, is_script, f2) = bind-eq-ok created _ f1 in
            let same = bytes_eq s.hashlock preimage.hash160 in
            let (u, passes, f3) = bind-eq-ok (fail_if (not same) _) _ f2 in
            record {
              preimage = preimage;
              s = s;
              reads = unwrap-eq-ok (from_invoice_str hashes invoice) reads;
              is_script = is_script;
              locks =
                  (bytes_eq_iff s.hashlock preimage.hash160).0
                    (not-false same (fail_if-eq-ok (not same) _ passes));
            }
      ]

  -- On a Bitcoin chain the answer for a submarine response is the same for any two invoices that are
  -- read: neither is compared with the swap script.
  pub submarine_validate-any_invoice :
      (response : CreateSubmarineResponse) (invoice other : String) (ours : PublicKey) (on : Chain)
      (p q : Preimage)
      → is_bitcoin on ≡ true
      → from_invoice_str hashes invoice ≡ ok p
      → from_invoice_str hashes other ≡ ok q
      → submarine_validate bitcoin elements hashes response invoice ours on
        ≡ submarine_validate bitcoin elements hashes response other ours on
  unfolding submarine_validate
  submarine_validate-any_invoice response invoice other ours on p q here reads also =
      rw (reads, also, here) refl
