-- ===== src/Lnurl/Invoice.antt =====
-- What an invoice that is fetched has been checked for.
use bullbitcoin_rnd.Base.{
  ℕ, ◌≡◌, refl, sym, ap, ◌∙◌, true, not, Option, none, some, String, ==_iff, ◌⊎◌, inl, inr,
}
use bullbitcoin_rnd.Error.{Error}
use bullbitcoin_rnd.Result.{ok, fail_if, bind-eq-ok, ok-injective, fail_if-eq-ok}
use bullbitcoin_rnd.Taproot.KeyPath.Verified.{not-false}
use bullbitcoin_rnd.Lnurl.{
  LnUrlResponse, ln_url_pay_response, ln_url_withdraw_response, ln_url_channel_response, LnurlLib,
  map_err, is_amount, is_read, first_read, url_of, validate_lnurl, request, invoice_for,
  fetch_invoice,
}

map_err-eq-ok {ℓ} :
    {A : Type ℓ} (wrap : String → Error) (answer : String ⊎ A) {a : A}
    → map_err wrap answer ≡ ok a
    → answer ≡ inr a
map_err-eq-ok wrap (inl e) h = cc
map_err-eq-ok wrap (inr b) h = ap inr (ok-injective h)

is_amount-some :
    (amount : ℕ) (found : Option ℕ) → is_amount amount found ≡ true → found ≡ some amount
is_amount-some amount none h = cc
is_amount-some amount (some n) h = ap some ((==_iff n amount).0 h)

url_of-read : (found : Option String) {url : String} → url_of found ≡ ok url → found ≡ some url
url_of-read none h = cc
url_of-read (some u) h = ap some (ok-injective h)

module _ (lib : LnurlLib) (address : String) (amount_msats : ℕ) where
  open lib use {
    to_lowercase, ln_url_from_str, lightning_address_from_str, make_request, get_invoice,
    amount_milli_satoshis,
  }

  -- The service that the address names offers to be paid, and gave the invoice for the amount.
  pub record IsInvoiceFor (invoice : String) : Type 0 where
    pub url : String
    pub pay : String
    pub is_valid : validate_lnurl lib address ≡ true
    pub is_url :
        first_read
          (ln_url_from_str (to_lowercase address))
          (lightning_address_from_str (to_lowercase address))
        ≡ some url
    pub offers : make_request url ≡ inr (ln_url_pay_response pay)
    pub gives : get_invoice pay amount_msats ≡ inr invoice
    pub has_amount : amount_milli_satoshis invoice ≡ ok (some amount_msats)

  is_valid-url :
      {url : String}
      → first_read
          (ln_url_from_str (to_lowercase address))
          (lightning_address_from_str (to_lowercase address))
        ≡ some url
      → validate_lnurl lib address ≡ true
  unfolding validate_lnurl
  is_valid-url {url} h =
      either (ln_url_from_str (to_lowercase address))
        (lightning_address_from_str (to_lowercase address)) h
    where
      either :
          (first later : Option String)
          → first_read first later ≡ some url
          → (elim first [ some u ↦ true | none ↦ is_read later ]) ≡ true
      either (some u) later h = refl
      either none none h = cc
      either none (some u) h = refl

  paid :
      (url : String) (response : LnUrlResponse) {invoice : String}
      → first_read
          (ln_url_from_str (to_lowercase address))
          (lightning_address_from_str (to_lowercase address))
        ≡ some url
      → make_request url ≡ inr response
      → invoice_for lib amount_msats response ≡ ok invoice
      → IsInvoiceFor invoice
  unfolding invoice_for
  paid url (ln_url_pay_response pay) {invoice} reads offers e =
      let (given, gives, e1) = bind-eq-ok (map_err Error.http (get_invoice pay amount_msats)) _ e in
      let (found, amounts, e2) = bind-eq-ok (amount_milli_satoshis given) _ e1 in
      let (u, matches, e3) =
        bind-eq-ok
          (fail_if (not (is_amount amount_msats found))
            (Error.generic "Invoice amount doesn't match requested amount"))
          _ e2 in
      let is : given ≡ invoice = ok-injective e3 in
      let same : found ≡ some amount_msats =
        is_amount-some amount_msats found
          (not-false (is_amount amount_msats found) (fail_if-eq-ok _ _ matches)) in
      record {
        url = url;
        pay = pay;
        is_valid = is_valid-url reads;
        is_url = reads;
        offers = offers;
        gives = map_err-eq-ok Error.http (get_invoice pay amount_msats) gives ∙ ap inr is;
        has_amount = ap amount_milli_satoshis (sym is) ∙ amounts ∙ ap ok same;
      }
  paid url (ln_url_withdraw_response w) reads offers e = cc
  paid url (ln_url_channel_response c) reads offers e = cc

  -- An invoice that is fetched was given by the service at the URL that the address, in lower case,
  -- spells as an LNURL or else as a lightning address, in answer to a pay offer of that service. The
  -- address is one that `validate_lnurl` accepts, and the invoice is for exactly the amount asked for.
  pub fetch_invoice-IsInvoiceFor :
      (invoice : String)
      → fetch_invoice lib address amount_msats ≡ ok invoice
      → IsInvoiceFor invoice
  unfolding fetch_invoice request
  fetch_invoice-IsInvoiceFor invoice e =
      let lower = to_lowercase address in
      let (url, reads, e1) =
        bind-eq-ok (url_of (first_read (ln_url_from_str lower) (lightning_address_from_str lower)))
          _ e in
      let (response, asks, e2) = bind-eq-ok (request lib url) _ e1 in
      let (u, builds, e3) = bind-eq-ok (map_err Error.generic lib.build_blocking) _ asks in
      paid url response (url_of-read _ reads) (map_err-eq-ok Error.http (make_request url) e3) e2
