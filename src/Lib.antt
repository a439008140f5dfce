-- ===== src/Lib.antt =====
-- A verification library for the swap client: Boltz swaps on Bitcoin and Liquid, with the API data,
-- the fees, the preimages, the swap keys, the magic routing hints and the errors that they use.
--
-- The program asks the Boltz API for a swap, checks the response, rebuilds the swap script from it
-- (src/swaps/bitcoin.rs, src/swaps/liquid.rs), finds the outputs that pay to it, and spends them by a
-- claim (with the preimage) or a refund (after the lock time), either alone over the script path or
-- together with Boltz over the key path. Every operation is a function with the source's guards in
-- the source's order, into `Result` (Result.antt): `ok`, `err` with the crate's own error, or `panic`.
--
-- Which file models which part:
-- - Base, Base/Compare, Result: shared lists, texts, integers and the result monad. Error,
--   Error/Convert: src/error.rs. Chain: src/network/mod.rs. Electrum: src/network/electrum.rs.
-- - Boltz/Types, Boltz/States, Boltz/Limits, Boltz/SwapFees, Boltz/Pairs, Boltz/Client, Boltz/Lookups,
--   Boltz/Endpoints, Boltz/Cooperative, Boltz/Validate: src/swaps/boltz.rs, the data of the API,
--   `Display` and `FromStr` of the states, limits, fees, pairs, the HTTP client with every request, and
--   the `validate` methods of the responses. Boltz/Offer: what a response says, for all three kinds.
-- - Script/Instruction, Script/Tree, Script/LittleEndian, Script/LockTime: the loops that read the two
--   leaves of a swap tree, the instructions that build them (`claim_script`, `refund_script`),
--   `bytes_to_u32_little_endian`, and the loop that finds the lock time of a refund.
-- - Musig, Taproot, Taproot/KeyPath: the MuSig2 steps that both chains share.
-- - Bitcoin/SwapScript: `BtcSwapScript`. Bitcoin/Utxos: `fetch_utxos_core`. Bitcoin/SwapTx,
--   Bitcoin/New, Bitcoin/Claim, Bitcoin/Refund, Bitcoin/KeyPath, Bitcoin/Sign, Bitcoin/Size:
--   `BtcSwapTx`, its `new_claim`, `new_refund`, `create_claim`, `create_refund`, `partial_sign`,
--   `sign_claim`, `sign_refund`, `size` and `broadcast`. All of these are in src/swaps/bitcoin.rs.
-- - Liquid/SwapScript: `LBtcSwapScript`. Liquid/SwapTx, Liquid/New, Liquid/Blind, Liquid/Create,
--   Liquid/Sign, Liquid/Broadcast: `LBtcSwapTx` with the same operations and `broadcast`; Liquid/Blind
--   has the blinded output and the fee output of a spend. All of these are in src/swaps/liquid.rs.
-- - Script/Consensus: the rules by which a node runs the opcodes of the two leaves (BIP 65 lock times,
--   BIP 342 signatures, the number encoding of scripts). It is a specification and models no code of
--   the repository. Bitcoin/Satisfied and Liquid/Satisfied ask it about the script path spends, and the
--   Ends and Returns modules beside each operation are about when it gives a transaction.
-- - Swap/Keys: the keys of a swap on either chain. Swap/Bitcoin, Swap/Liquid: whole swaps, from a response that `validate` lets through to the signed
--   transaction, composed from the operations above. Nor do they model code of their own.
-- - Liquid/HexText: `hex_to_bytes` of src/swaps/liquid.rs. Boltz/WebSocket: `connect_ws` of
--   src/swaps/boltz.rs with the `replace` of the standard library.
-- - MagicRouting: src/swaps/magic_routing.rs. Lnurl: src/util/lnurl.rs. Fees: src/util/fees.rs.
--   Secrets/Preimage, Secrets/Keys, Secrets/File: src/util/secrets.rs; the refund file is written and
--   read by steps on the state of a disk.
-- - Tests: concrete crates that satisfy the laws, and each theorem at concrete data.
--
-- Code of other crates (bitcoin, elements, secp256k1, bip39, lnurl, lightning-invoice, serde_json, ureq,
-- floats) is a record of functions that the definitions take: `ScriptLib`, `BitcoinLib`, `ElementsLib`,
-- `MusigLib`, `HttpLib`, `GetLib`, `SerdeLib`, `ElectrumLib`, `HashLib`, `KeyLib`, `RoutingLib`,
-- `LnurlLib`, `FileLib`, `SocketLib`, `FloatLib`. What a theorem needs of them is a named law beside them. Random draws are arguments; a
-- Liquid spend takes one `BlindEntropy` for each fee that it is built for. Keys, nonces, hashes and
-- scripts are byte strings, addresses and the errors of other crates are the texts that they print.
-- The client's functions take the server's answer to a request as a function of the request.
--
-- Numbers are natural numbers. Where the source computes on `u64` or `u32` the wrap-around of a build
-- without overflow checks is written out; `Amount` panics on overflow, which is a `panic` here. No
-- function needs fuel: each loop is structural on the list or the text that it runs through.
--
-- Not modelled: the set-up of the logger in src/util/mod.rs, and all tests, among them the whole of
-- src/util/ec.rs. What serde derives for the data of the API is generated code: reading and writing
-- JSON is a parameter. The repository has no code that reads from the web socket.
pub mod Base
pub mod Bitcoin
pub mod Boltz
pub mod Chain
pub mod Electrum
pub mod Error
pub mod Fees
pub mod Liquid
pub mod Lnurl
pub mod MagicRouting
pub mod Musig
pub mod Result
pub mod Script
pub mod Secrets
pub mod Swap
pub mod Taproot
pub mod Tests
