-- ===== src/Boltz/Cooperative.antt =====
-- src/swaps/boltz.rs: `Cooperative`, and how `sign_claim` and `sign_refund`, of src/swaps/bitcoin.rs
-- and src/swaps/liquid.rs, ask the API for its half of a signature.
use bullbitcoin_rnd.Base.{ℕ, Bool, true, false, Option, none, some, String, ◌<>◌, Bytes}
use bullbitcoin_rnd.Error.{Error}
use bullbitcoin_rnd.Result.{Result, err}
use bullbitcoin_rnd.Boltz.Types.{SwapType, SwapTxKind}
use bullbitcoin_rnd.Boltz.Client.{
  PartialSig, HttpLib, BoltzApiClientV2, post_chain_claim_tx_details, get_reverse_partial_sig,
  get_submarine_partial_sig, get_chain_partial_sig,
}
use bullbitcoin_rnd.Secrets.Preimage.{Preimage}

pub record Cooperative : Type 0 where
  pub boltz_api : BoltzApiClientV2
  pub swap_id : String
  pub pub_nonce : Option Bytes
  pub partial_sig : Option Bytes

abbrev pub is_some {ℓ} : {A : Type ℓ} → Option A → Bool
is_some none = false
is_some (some a) = true

abbrev pub is_submarine : SwapType → Bool
is_submarine SwapType.submarine = true
is_submarine _ = false

abbrev pub is_reverse_submarine : SwapType → Bool
is_reverse_submarine SwapType.reverse_submarine = true
is_reverse_submarine _ = false

abbrev pub is_refund : SwapTxKind → Bool
is_refund SwapTxKind.refund = true
is_refund SwapTxKind.claim = false

abbrev pub is_claim : SwapTxKind → Bool
is_claim SwapTxKind.claim = true
is_claim SwapTxKind.refund = false

-- `{:?}` of a swap type
abbrev debug : SwapType → String
debug SwapType.submarine = "Submarine"
debug SwapType.reverse_submarine = "ReverseSubmarine"
debug SwapType.chain = "Chain"

unfoldable pub no_partial_sig : SwapType → Result PartialSig
no_partial_sig t = err (Error.protocol ("Cannot get partial sig for " <> debug t <> " Swap"))

-- A chain swap posts our half of the other claim along.
unfoldable pub ask_chain_claim :
    HttpLib
    → Cooperative
    → Option Bytes
    → Option Bytes
    → Preimage
    → Bytes
    → String
    → Result PartialSig
ask_chain_claim http c (some nonce) (some sig) preimage our_nonce tx_hex =
    post_chain_claim_tx_details http c.boltz_api c.swap_id preimage nonce sig
      (record { pub_nonce = http.to_lower_hex_string our_nonce; transaction = tx_hex; index = 0 })
ask_chain_claim http c _ _ preimage our_nonce tx_hex =
    err (Error.protocol "Chain swap claim needs a partial_sig")

-- The two matches that ask Boltz for its partial signature.
unfoldable pub ask_claim :
    HttpLib → SwapType → Cooperative → Preimage → ℕ → Bytes → String → Result PartialSig
ask_claim http SwapType.chain c preimage i our_nonce tx_hex =
    ask_chain_claim http c c.pub_nonce c.partial_sig preimage our_nonce tx_hex
ask_claim http SwapType.reverse_submarine c preimage i our_nonce tx_hex =
    get_reverse_partial_sig http c.boltz_api c.swap_id preimage our_nonce tx_hex
ask_claim http SwapType.submarine c preimage i our_nonce tx_hex = no_partial_sig SwapType.submarine

unfoldable pub ask_refund :
    HttpLib → SwapType → Cooperative → ℕ → Bytes → String → Result PartialSig
ask_refund http SwapType.chain c input_index our_nonce tx_hex =
    get_chain_partial_sig http c.boltz_api c.swap_id input_index our_nonce tx_hex
ask_refund http SwapType.submarine c input_index our_nonce tx_hex =
    get_submarine_partial_sig http c.boltz_api c.swap_id input_index our_nonce tx_hex
ask_refund http SwapType.reverse_submarine c input_index our_nonce tx_hex =
    no_partial_sig SwapType.reverse_submarine
