-- ===== src/Boltz/Validate.antt =====
-- src/swaps/boltz.rs: the `validate` methods, which check a response of the API against the swap
-- script and the address that it leads to.
pub mod Accepted
pub mod Hashlock
use bullbitcoin_rnd.Base.{
  Bool, true, false, not, Option, none, some, String, ◌<>◌, str_eq, bytes_eq, if◌then◌else◌,
}
use bullbitcoin_rnd.Error.{Error}
use bullbitcoin_rnd.Result.{Result, ok, err, panic, ◌>>=◌, ◌>>◌, fail_if, expect}
use bullbitcoin_rnd.Chain.{Chain, is_bitcoin}
use bullbitcoin_rnd.Boltz.Types.{
  PublicKey, Side, CreateSubmarineResponse, CreateReverseResponse, ChainSwapDetails,
  CreateChainResponse,
}
use bullbitcoin_rnd.Secrets.Preimage.{Preimage, HashLib, from_invoice_str}
use bullbitcoin_rnd.Bitcoin.Crate.{BitcoinLib}
use bullbitcoin_rnd.Bitcoin.SwapScript as Bitcoin
use bullbitcoin_rnd.Liquid.Crate.{ElementsLib}
use bullbitcoin_rnd.Liquid.SwapScript as Liquid

-- `r.unwrap()`
abbrev pub unwrap {ℓ} : {A : Type ℓ} → Result A → Result A
unwrap (ok a) = ok a
unwrap (err e) = panic "called `Result::unwrap()` on an `Err` value"
unwrap (panic m) = panic m

-- `o.as_ref().unwrap()`
abbrev pub unwrap_option {ℓ} : {A : Type ℓ} → Option A → Result A
unwrap_option o = expect o "called `Option::unwrap()` on a `None` value"

module _ (bitcoin : BitcoinLib) (elements : ElementsLib) (hashes : HashLib) where
  open hashes use {to_hex, payment_hash}

  -- "Ensure submarine swap redeem script uses the preimage hash used in the invoice": only on Liquid.
  unfoldable pub submarine_validate :
      CreateSubmarineResponse → String → PublicKey → Chain → Result (Unit {0})
  submarine_validate self invoice our_pubkey chain = do
    preimage ← unwrap (from_invoice_str hashes invoice)
    if is_bitcoin chain
        then (do
          s ← Bitcoin.submarine_from_swap_resp bitcoin self our_pubkey
          Bitcoin.validate_address bitcoin s chain self.address)
        else (do
          unwrap_option self.blinding_key
          s ← Liquid.submarine_from_swap_resp elements self our_pubkey
          fail_if (not (bytes_eq s.hashlock preimage.hash160)) (
              Error.protocol
                ("Hash160 mismatch: " <> to_hex s.hashlock <> "," <> to_hex preimage.hash160))
          Liquid.validate_address elements s chain self.address)

  unfoldable pub reverse_validate :
      CreateReverseResponse → Preimage → PublicKey → Chain → Result (Unit {0})
  reverse_validate self preimage our_pubkey chain = do
    invoice_hash ← payment_hash self.invoice
    fail_if (not (str_eq (to_hex invoice_hash) (to_hex preimage.sha256))) (
        Error.protocol
          ("Preimage missmatch : " <> to_hex invoice_hash <> "," <> to_hex preimage.sha256))
    if is_bitcoin chain
        then (do
          s ← Bitcoin.reverse_from_swap_resp bitcoin self our_pubkey
          Bitcoin.validate_address bitcoin s chain self.lockup_address)
        else (do
          unwrap_option self.blinding_key
          s ← Liquid.reverse_from_swap_resp elements self our_pubkey
          Liquid.validate_address elements s chain self.lockup_address)

  unfoldable pub validate_side : Side → Chain → ChainSwapDetails → PublicKey → Result (Unit {0})
  validate_side side chain details our_pubkey =
      if is_bitcoin chain
      then (do
        s ← Bitcoin.chain_from_swap_resp bitcoin side details our_pubkey
        Bitcoin.validate_address bitcoin s chain details.lockup_address)
      else (do
        unwrap_option details.blinding_key
        s ← Liquid.chain_from_swap_resp elements side details our_pubkey
        Liquid.validate_address elements s chain details.lockup_address)

  unfoldable pub chain_validate :
      CreateChainResponse → PublicKey → PublicKey → Chain → Chain → Result (Unit {0})
  chain_validate self claim_pubkey refund_pubkey from_chain to_chain = do
    validate_side Side.lockup from_chain self.lockup_details refund_pubkey
    validate_side Side.claim to_chain self.claim_details claim_pubkey
