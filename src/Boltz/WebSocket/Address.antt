-- ===== src/Boltz/WebSocket/Address.antt =====
-- The address of the web socket.
use Prim.Native.String.{String, [] as nil, ◌∷◌ as ◌∷ₛ◌}
use bullbitcoin_rnd.Base.{◌≡◌, refl, ap, zero, Bool, true, false, ◌||◌, ◌<>◌}
use bullbitcoin_rnd.Result.{ok}
use bullbitcoin_rnd.MagicRouting.RoundTrip.{◌then◌}
use bullbitcoin_rnd.Boltz.WebSocket.{
  starts_with, replace_from, SocketLib, ws_string, connect_ws, new,
}

-- The part stands somewhere in the text.
abbrev pub occurs : String → String → Bool
occurs part nil = starts_with part nil
occurs part (c ∷ₛ text) = starts_with part (c ∷ₛ text) || occurs part text

||-false : (a b : Bool) → (a || b) ≡ false → (a ≡ false) × (b ≡ false)
||-false true b none = cc
||-false false b none = (refl, none)

replace_from-none :
    (old fresh text : String) → occurs old text ≡ false → replace_from zero old fresh text ≡ text
unfolding replace_from
replace_from-none old fresh nil none = refl
replace_from-none old fresh (c ∷ₛ text) none =
    let (other, later) = ||-false (starts_with old (c ∷ₛ text)) (occurs old text) none in
    rw (other, replace_from-none old fresh text later) refl

ws_string-http :
    (rest : String)
    → occurs "http" rest ≡ false
    → ws_string (new ("http" then rest)) ≡ ("ws" <> rest) <> "/ws"
unfolding ws_string replace_from
ws_string-http rest none =
    ap (λ text. ("ws" <> text) <> "/ws") (replace_from-none "http" "ws" rest none)

-- Where the base URL is `http` with a rest behind it that does not contain `http` again (so also for
-- `https`), and the URL with `ws` in place of `http` and with `/ws` at its end parses and is connected to,
-- `connect_ws` gives the socket of that connection.
pub connect_ws-opens {ℓ} :
    {Url Socket : Type ℓ} (sockets : SocketLib Url Socket) (rest reply : String) (url : Url)
    (socket : Socket)
    → occurs "http" rest ≡ false
    → sockets.parse (("ws" <> rest) <> "/ws") ≡ ok url
    → sockets.connect url ≡ ok (socket, reply)
    → connect_ws sockets (new ("http" then rest)) ≡ ok socket
unfolding connect_ws
connect_ws-opens sockets rest reply url socket none parses connects =
    rw (ws_string-http rest none, parses, connects) refl
