-- ===== src/Boltz/Client/Answered.antt =====
-- What a request that succeeded was answered.
use bullbitcoin_rnd.Base.{◌≡◌, arith, Bool, String, ◌<>◌, if◌then◌else◌, true, false}
use bullbitcoin_rnd.Result.{ok, bind-eq-ok}
use bullbitcoin_rnd.Boltz.Client.{
  Json, Reply, response, status, transport, HttpLib, BoltzApiClientV2, read_native, read_default,
  post,
}

module _ (http : HttpLib) where
  read_native-response :
      (reply : Reply) {text : String}
      → read_native http reply ≡ ok text
      → reply ≡ response (ok text)
  unfolding read_native
  read_native-response (response body) e = ground (arith, e)
  read_native-response (status body m) e =
      let (read, reads, e1) = bind-eq-ok body _ e in
      let (value, parses, e2) = bind-eq-ok (http.parse_value read) _ e1 in cc
  read_native-response (transport m) e = cc

  read_default-response :
      (reply : Reply) {text : String}
      → read_default http reply ≡ ok text
      → reply ≡ response (ok text)
  unfolding read_default
  read_default-response (response body) e = ground (arith, e)
  read_default-response (status body m) e = cc
  read_default-response (transport m) e = cc

  read_reply :
      (native : Bool) (with_native with_default : Reply) {text : String}
      → (if native then read_native http with_native else read_default http with_default) ≡ ok text
      → (if native then with_native else with_default) ≡ response (ok text)
  read_reply true with_native with_default e = read_native-response with_native e
  read_reply false with_native with_default e = read_default-response with_default e

  -- A post that gives a text has sent the body to the end point under the base URL, over the TLS
  -- that there is, and the text is the whole body of a response that was not an error status.
  pub post-ok :
      (self : BoltzApiClientV2) (end_point : String) (body : Json) (text : String)
      → post http self end_point body ≡ ok text
      → let url = self.base_url <> "/" <> end_point in
        (if http.has_native_tls then http.send_native url body else http.send_default url body)
        ≡ response (ok text)
  unfolding post
  post-ok self end_point body text e =
      let url = self.base_url <> "/" <> end_point in
      read_reply http.has_native_tls (http.send_native url body) (http.send_default url body) e
