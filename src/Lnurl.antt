-- ===== src/Lnurl.antt =====
-- src/util/lnurl.rs: invoices and withdrawals by LNURL or lightning address.
pub mod Invoice
use bullbitcoin_rnd.Base.{
  ℕ, Bool, true, false, not, Option, none, some, String, ◌==◌, ◌⊎◌, inl, inr,
}
use bullbitcoin_rnd.Error.{Error}
use bullbitcoin_rnd.Result.{Result, ok, err, ◌>>=◌, ◌>>◌, fail_if}

-- What a service offers; the offers of the lnurl crate are opaque texts.
pub data LnUrlResponse : Type 0 where
  ln_url_pay_response ln_url_withdraw_response ln_url_channel_response : String → LnUrlResponse

-- The lnurl and invoice crates; a failure is the text that it prints.
pub record LnurlLib : Type 0 where
  pub to_lowercase : String → String
  -- `LnUrl::from_str`, and `LightningAddress::from_str` with its `lnurl()`: the URL
  pub ln_url_from_str : String → Option String
  pub lightning_address_from_str : String → Option String
  -- `Builder::default().build_blocking()`
  pub build_blocking : String ⊎ Unit {0}
  pub make_request : String → String ⊎ LnUrlResponse
  -- `get_invoice(&pay, amount_msats, None, None)`, and the invoice of the answer
  pub get_invoice : String → ℕ → String ⊎ String
  pub do_withdrawal : String → String → String ⊎ Unit {0}
  -- `Bolt11Invoice::from_str(invoice)?.amount_milli_satoshis()`
  pub amount_milli_satoshis : String → Result (Option ℕ)

abbrev pub map_err {ℓ} : {A : Type ℓ} → (String → Error) → String ⊎ A → Result A
map_err wrap (inl e) = err (wrap e)
map_err wrap (inr a) = ok a

-- `amount == Some(amount_msats)`
abbrev pub is_amount : ℕ → Option ℕ → Bool
is_amount amount_msats none = false
is_amount amount_msats (some found) = found == amount_msats

abbrev pub is_read : Option String → Bool
is_read none = false
is_read (some url) = true

-- The first that is read.
abbrev pub first_read : Option String → Option String → Option String
first_read (some url) later = some url
first_read none later = later

abbrev pub url_of : Option String → Result String
url_of none = err (Error.generic "Not a valid LnUrl or LnAddress")
url_of (some url) = ok url

module _ (lib : LnurlLib) where
  open lib use {
    to_lowercase, ln_url_from_str, lightning_address_from_str, build_blocking, make_request,
    get_invoice, do_withdrawal, amount_milli_satoshis,
  }

  unfoldable pub validate_lnurl : String → Bool
  validate_lnurl string =
      let lower = to_lowercase string in
      elim (ln_url_from_str lower) [
        | some url ↦ true
        | none ↦ is_read (lightning_address_from_str lower)
      ]

  -- The client that each request makes for itself, and its answer.
  unfoldable pub request : String → Result LnUrlResponse
  request url = do map_err Error.generic build_blocking; map_err Error.http (make_request url)

  -- The arm for each response of `fetch_invoice`.
  unfoldable pub invoice_for : ℕ → LnUrlResponse → Result String
  invoice_for amount_msats (ln_url_pay_response pay) = do
    invoice ← map_err Error.http (get_invoice pay amount_msats)
    found ← amount_milli_satoshis invoice
    fail_if (not (is_amount amount_msats found))
        (Error.generic "Invoice amount doesn't match requested amount")
    ok invoice
  invoice_for amount_msats _ = err (Error.generic "Unexpected response type")

  unfoldable pub fetch_invoice : String → ℕ → Result String
  fetch_invoice address amount_msats = do
    let lower = to_lowercase address
    url ← url_of (first_read (ln_url_from_str lower) (lightning_address_from_str lower))
    res ← request url
    invoice_for amount_msats res

  abbrev pub withdrawal_of : LnUrlResponse → Result String
  withdrawal_of (ln_url_withdraw_response withdraw) = ok withdraw
  withdrawal_of _ = err (Error.generic "Unexpected response type")

  abbrev pub withdraw_url : Option String → Result String
  withdraw_url none = err (Error.generic "Invalid LNURL")
  withdraw_url (some url) = ok url

  unfoldable pub create_withdraw_response : String → Result String
  create_withdraw_response voucher = do
    url ← withdraw_url (ln_url_from_str (to_lowercase voucher))
    res ← request url
    withdrawal_of res

  unfoldable pub process_withdrawal : String → String → Result (Unit {0})
  process_withdrawal withdraw invoice = do
    map_err Error.generic build_blocking
    map_err Error.http (do_withdrawal withdraw invoice)
