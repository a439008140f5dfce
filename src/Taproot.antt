-- ===== src/Taproot.antt =====
-- What src/swaps/bitcoin.rs and src/swaps/liquid.rs share of taproot: the leaves of a tree, what
-- its finalized builder holds, and the spend over the key path that two parties sign together.
pub mod KeyPath
use bullbitcoin_rnd.Base.{ℕ, Option, Bytes}
use bullbitcoin_rnd.Error.{Error}
use bullbitcoin_rnd.Result.{Result}
use bullbitcoin_rnd.Boltz.Types.{PublicKey}
use bullbitcoin_rnd.Musig.{KeyAggCache}
use bullbitcoin_rnd.Script.Instruction.{Script}

-- A leaf of the tap tree; its version is always the default.
pub record LeafAt : Type 0 where
  pub depth : ℕ
  pub script : Script

-- What `TaprootBuilder::finalize` returns, as far as the source reads it.
pub record SpendInfo : Type 0 where
  pub internal_key : Bytes
  pub merkle_root : Option Bytes
  pub output_key : Bytes
  pub tap_tweak : Bytes
  pub control_block : Script → Option Bytes

-- What a session of two parties is about: the swap's taproot construction and key cache, the key of
-- Boltz, and the error where its partial signature does not verify.
pub record Spending : Type 0 where
  pub spend_info : Result SpendInfo
  pub keyagg_cache : KeyAggCache
  pub boltz_key : PublicKey
  pub refusal : Error
