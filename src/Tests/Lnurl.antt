-- ===== src/Tests/Lnurl.antt =====
-- An invoice that is fetched for a lightning address.
use bullbitcoin_rnd.Base.{◌≡◌, refl, none, some, inr}
use bullbitcoin_rnd.Result.{ok}
use bullbitcoin_rnd.Lnurl.{LnUrlResponse, LnurlLib, fetch_invoice, request, invoice_for}
use bullbitcoin_rnd.Lnurl.Invoice.{IsInvoiceFor, fetch_invoice-IsInvoiceFor}

-- A service that only lightning addresses name, and that gives its own address for an invoice.
abbrev service : LnurlLib
service = record {
  to_lowercase = λ s. s;
  ln_url_from_str = λ s. none;
  lightning_address_from_str = λ s. some s;
  build_blocking = inr tt;
  make_request = λ url. inr (LnUrlResponse.ln_url_pay_response url);
  get_invoice = λ pay amount. inr pay;
  do_withdrawal = λ withdraw invoice. inr tt;
  amount_milli_satoshis = λ invoice. ok (some 100000);
}

fetched : fetch_invoice service "alice@bullbitcoin.com" 100000 ≡ ok "alice@bullbitcoin.com"
unfolding fetch_invoice request invoice_for
fetched = refl

fetch_invoice-IsInvoiceFor_example :
    IsInvoiceFor service "alice@bullbitcoin.com" 100000 "alice@bullbitcoin.com"
fetch_invoice-IsInvoiceFor_example =
    fetch_invoice-IsInvoiceFor service "alice@bullbitcoin.com" 100000 "alice@bullbitcoin.com"
      fetched
