-- ===== src/Bitcoin/SwapScript/Verified.antt =====
-- What a taproot construction, and an address check, that succeeded have established.
use bullbitcoin_rnd.Base.{
  ◌≡◌, arith, some, [], String, str_eq_iff, Bytes, bytes_eq_iff, get_last?, List,
}
use bullbitcoin_rnd.Error.{Error}
use bullbitcoin_rnd.Result.{ok, expect, ok_or, bind-eq-ok, ok_or-eq-ok, expect-eq-ok}
use bullbitcoin_rnd.Chain.{Chain}
use bullbitcoin_rnd.Script.Instruction.{Instruction, push_bytes, op}
use bullbitcoin_rnd.Bitcoin.Crate.{Address, Network, LeafAt, SpendInfo, BitcoinLib}
use bullbitcoin_rnd.Bitcoin.SwapScript.{
  BtcSwapScript, address_network, musig_keyagg_cache, claim_script, refund_script, verify_funding,
  verify_address, pushed, taproot_spendinfo, to_address, validate_address,
}

pub pushed-eq-ok : (i : Instruction) {bytes : Bytes} → pushed i ≡ ok bytes → i ≡ push_bytes bytes
pushed-eq-ok (push_bytes b) e = ground arith
pushed-eq-ok (op o) e = cc

module _ (lib : BitcoinLib) where
  open lib use {
    script, musig, script_pubkey, p2tr_tweaked, add_leaf_with_ver, finalize, xonly_from_slice,
  }

  -- The two leaves, both at depth 1, under the aggregated key.
  pub record IsSpendInfoOf (s : BtcSwapScript) (info : SpendInfo) : Type 0 where
    pub with_claim : List LeafAt
    pub with_refund : List LeafAt
    pub adds_claim :
        add_leaf_with_ver [] (record { depth = 1; script = claim_script lib s }) ≡ ok with_claim
    pub adds_refund :
        add_leaf_with_ver with_claim (record { depth = 1; script = refund_script lib s })
        ≡ ok with_refund
    pub finalizes : finalize with_refund (musig.agg_pk (musig_keyagg_cache lib s)) ≡ some info

  -- The script of the address ends in a push of the output key.
  pub record PaysTo (address : Address) (info : SpendInfo) : Type 0 where
    pub bytes : Bytes
    pub last_push :
        get_last? (script.instructions (script_pubkey address)) ≡ some (some (push_bytes bytes))
    pub key : xonly_from_slice bytes ≡ ok info.output_key

  verify_address-PaysTo :
      (address : Address) (info : SpendInfo)
      → verify_address lib address info ≡ ok tt
      → PaysTo address info
  unfolding verify_address
  verify_address-PaysTo address info e =
      let read = get_last? (script.instructions (script_pubkey address)) in
      let (last, found, e1) = bind-eq-ok (expect read "should contain value") _ e in
      let (instruction, parsed, e2) = bind-eq-ok (expect last "should not fail") _ e1 in
      let (bytes, pushes, e3) = bind-eq-ok (pushed instruction) _ e2 in
      let (key, is_key, e4) = bind-eq-ok (xonly_from_slice bytes) _ e3 in
      record {
        bytes = bytes;
        last_push = ground (
          arith,
          expect-eq-ok read "should contain value" found,
          expect-eq-ok last "should not fail" parsed,
          pushed-eq-ok instruction pushes,
        );
        key = ground (arith, is_key, e4, bytes_eq_iff key info.output_key);
      }

  pub taproot_spendinfo-ok :
      (s : BtcSwapScript) {info : SpendInfo}
      → taproot_spendinfo lib s ≡ ok info
      → IsSpendInfoOf s info × (verify_funding lib s.funding_addrs info ≡ ok tt)
  unfolding taproot_spendinfo
  taproot_spendinfo-ok s {info} e =
      let (with_claim, adds_claim, e1) = bind-eq-ok _ _ e in
      let (with_refund, adds_refund, e2) = bind-eq-ok _ _ e1 in
      let built? = finalize with_refund (musig.agg_pk (musig_keyagg_cache lib s)) in
      let failure = Error.taproot "Could not finalize taproot constructions" in
      let (built, finalizes, e3) = bind-eq-ok (ok_or built? failure) _ e2 in
      let (done, verified, e4) = bind-eq-ok (verify_funding lib s.funding_addrs built) _ e3 in
      let same : built ≡ info = ground arith in
      (
        record {
          with_claim = with_claim;
          with_refund = with_refund;
          adds_claim = adds_claim;
          adds_refund = adds_refund;
          finalizes = rw same at (ok_or-eq-ok built? failure finalizes);
        },
        rw same at verified,
      )

  verify_funding-PaysTo :
      (s : BtcSwapScript) (funding : Address) (info : SpendInfo)
      → s.funding_addrs ≡ some funding
      → verify_funding lib s.funding_addrs info ≡ ok tt
      → PaysTo funding info
  unfolding verify_funding
  verify_funding-PaysTo s funding info has e =
      verify_address-PaysTo funding info (ground (arith, e, has))

  -- A swap script whose address check succeeds: the address that was checked is the taproot address
  -- of the tree of its claim and refund scripts under the aggregated key, on a Bitcoin chain, and
  -- its funding address pays to the same output key.
  pub validate_address-ok :
      (s : BtcSwapScript) (chain : Chain) (text : String) (funding : Address)
      → s.funding_addrs ≡ some funding
      → validate_address lib s chain text ≡ ok tt
      → (info : SpendInfo) × IsSpendInfoOf s info
        × PaysTo funding info
        × (network : Network) × (address_network chain ≡ ok network)
        × ((p2tr_tweaked info.output_key network).text ≡ text)
  unfolding validate_address to_address
  validate_address-ok s chain text funding has e =
      let (address, addressed, e1) = bind-eq-ok _ _ e in
      let (info, spends, e2) = bind-eq-ok _ _ addressed in
      let (network, on, e3) = bind-eq-ok _ _ e2 in
      let (is_info, verified) = taproot_spendinfo-ok s spends in
      (
        info,
        is_info,
        verify_funding-PaysTo s funding info has verified,
        network,
        on,
        ground (arith, e3, str_eq_iff address.text text),
      )
