-- ===== src/Boltz/WebSocket.antt =====
-- src/swaps/boltz.rs: the web socket of the API, and the updates that it delivers.
pub mod Address
use Prim.Native.Char.{Char, code}
use Prim.Native.String.{String, [] as nil, ◌∷◌ as ◌∷ₛ◌}
use bullbitcoin_rnd.Base.{
  ℕ, zero, suc, Bool, true, false, ◌&&◌, Option, List, ◌<>◌, ◌==◌, if◌then◌else◌,
}
use bullbitcoin_rnd.Result.{Result, ok, ◌>>=◌}
use bullbitcoin_rnd.Boltz.Client.{BoltzApiClientV2}

pub record SwapUpdateTxDetails : Type 0 where
  pub id : String
  pub hex : String

pub record Update : Type 0 where
  pub id : String
  pub status : String
  pub transaction : Option SwapUpdateTxDetails
  pub zero_conf_rejected : Option Bool

pub record RespError : Type 0 where
  pub id : String
  pub error : String

-- Each with the event and the channel.
pub data SwapUpdate : Type 0 where
  subscription : String → String → List String → SwapUpdate
  update : String → String → List Update → SwapUpdate
  error : String → String → List RespError → SwapUpdate

abbrev pub starts_with : String → String → Bool
starts_with nil text = true
starts_with (c ∷ₛ old) nil = false
starts_with (c ∷ₛ old) (d ∷ₛ text) = (code c == code d) && starts_with old text

-- What stands for a character: nothing inside a part that is replaced, the new text where such a part
-- begins, and else the character itself.
abbrev pub piece : ℕ → Bool → String → Char → String → String
piece (suc skip) begins new c rest = rest
piece zero true new c rest = new <> rest
piece zero false new c rest = c ∷ₛ rest

-- How many of the following characters belong to a part that is replaced; the part has `more` of them
-- behind its first.
abbrev pub next_skip : ℕ → Bool → ℕ → ℕ
next_skip (suc skip) begins more = skip
next_skip zero true more = more
next_skip zero false more = zero

abbrev pub char_count : String → ℕ
char_count nil = zero
char_count (c ∷ₛ text) = suc (char_count text)

abbrev pub pred : ℕ → ℕ
pred zero = zero
pred (suc n) = n

unfoldable pub replace_from : ℕ → String → String → String → String
replace_from skip old new nil = nil
replace_from skip old new (c ∷ₛ text) =
    let begins = starts_with old (c ∷ₛ text) in
    let rest = replace_from (next_skip skip begins (pred (char_count old))) old new text in
    piece skip begins new c rest

-- `text.replace(old, new)`, for an old text that is not empty
abbrev pub replace : String → String → String → String
replace old new text = replace_from zero old new text

unfoldable pub ws_string : BoltzApiClientV2 → String
ws_string self = replace "http" "ws" self.base_url <> "/ws"

-- `Url::parse` and the `connect` of tungstenite, which gives the socket and the response to the handshake.
pub record SocketLib {ℓ} (Url Socket : Type ℓ) : Type ℓ where
  pub parse : String → Result Url
  pub connect : Url → Result (Socket × String)

unfoldable pub connect_ws {ℓ} :
    {Url Socket : Type ℓ} → SocketLib Url Socket → BoltzApiClientV2 → Result Socket
connect_ws sockets self = do
  url ← sockets.parse (ws_string self)
  connected ← sockets.connect url
  ok connected.0

-- `BoltzApiClientV2::new`
abbrev pub new : String → BoltzApiClientV2
new base_url = record { base_url = base_url }
