-- ===== src/Tests/Sockets.antt =====
-- The web socket's address for a real base URL, and for one whose host has `http` in it.
use bullbitcoin_rnd.Base.{◌≡◌, refl, String}
use bullbitcoin_rnd.Result.{ok}
use bullbitcoin_rnd.Boltz.WebSocket.{SocketLib, replace_from, ws_string, connect_ws, new}
use bullbitcoin_rnd.Boltz.WebSocket.Address.{connect_ws-opens}

-- A socket is the address that it is connected to.
abbrev sockets : SocketLib String String
sockets = record { parse = λ url. ok url; connect = λ url. ok (url, "101 Switching Protocols") }

connect_ws-opens_example :
    connect_ws sockets (new "https://api.boltz.exchange/v2") ≡ ok "wss://api.boltz.exchange/v2/ws"
connect_ws-opens_example =
    connect_ws-opens sockets "s://api.boltz.exchange/v2" "101 Switching Protocols"
      "wss://api.boltz.exchange/v2/ws" "wss://api.boltz.exchange/v2/ws" refl refl refl

every_http : ws_string (new "http://http.example") ≡ "ws://ws.example/ws"
unfolding ws_string replace_from
every_http = refl
