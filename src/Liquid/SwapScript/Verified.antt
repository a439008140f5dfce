-- ===== src/Liquid/SwapScript/Verified.antt =====
-- What a Liquid taproot construction, and an address check, that succeeded have established.
use bullbitcoin_rnd.Base.{
  ◌≡◌, arith, some, [], String, str_eq_iff, Bytes, bytes_eq_iff, get_last?, List,
}
use bullbitcoin_rnd.Result.{ok, expect, bind-eq-ok, expect-eq-ok, ok-injective}
use bullbitcoin_rnd.Chain.{Chain}
use bullbitcoin_rnd.Script.Instruction.{push_bytes}
use bullbitcoin_rnd.Taproot.{LeafAt, SpendInfo}
use bullbitcoin_rnd.Bitcoin.SwapScript.{pushed}
use bullbitcoin_rnd.Bitcoin.SwapScript.Verified.{pushed-eq-ok}
use bullbitcoin_rnd.Liquid.Crate.{Address, AddressParams, ElementsLib}
use bullbitcoin_rnd.Liquid.SwapScript.{
  LBtcSwapScript, address_params, musig_keyagg_cache, claim_script, refund_script, verify_funding,
  verify_address, taproot_spendinfo, to_address, validate_address,
}

module _ (lib : ElementsLib) where
  open lib use {
    script, musig, script_pubkey, p2tr, public_key, add_leaf_with_ver, finalize, xonly_from_slice,
  }

  -- The two leaves, both at depth 1, under the aggregated key.
  pub record IsSpendInfoOf (s : LBtcSwapScript) (info : SpendInfo) : Type 0 where
    pub with_claim : List LeafAt
    pub with_refund : List LeafAt
    pub adds_claim :
        add_leaf_with_ver [] (record { depth = 1; script = claim_script lib s }) ≡ ok with_claim
    pub adds_refund :
        add_leaf_with_ver with_claim (record { depth = 1; script = refund_script lib s })
        ≡ ok with_refund
    pub finalizes : finalize with_refund (musig.agg_pk (musig_keyagg_cache lib s)) ≡ ok info

  -- The script of the address ends in a push of the output key.
  pub record PaysTo (address : Address) (info : SpendInfo) : Type 0 where
    pub bytes : Bytes
    pub last_push :
        get_last? (script.instructions (script_pubkey address)) ≡ some (some (push_bytes bytes))
    pub key : xonly_from_slice bytes ≡ ok info.output_key

  verify_address-PaysTo :
      (address : Address) (info : SpendInfo)
      → verify_address lib address info ≡ ok tt
      → PaysTo address info
  unfolding verify_address
  verify_address-PaysTo address info e =
      let read = get_last? (script.instructions (script_pubkey address)) in
      let (last, found, e1) = bind-eq-ok (expect read "should contain value") _ e in
      let (instruction, parsed, e2) = bind-eq-ok (expect last "should not fail") _ e1 in
      let (bytes, pushes, e3) = bind-eq-ok (pushed instruction) _ e2 in
      let (key, is_key, e4) = bind-eq-ok (xonly_from_slice bytes) _ e3 in
      record {
        bytes = bytes;
        last_push = ground (
          arith,
          expect-eq-ok read "should contain value" found,
          expect-eq-ok last "should not fail" parsed,
          pushed-eq-ok instruction pushes,
        );
        key = ground (arith, is_key, e4, bytes_eq_iff key info.output_key);
      }

  pub taproot_spendinfo-ok :
      (s : LBtcSwapScript) {info : SpendInfo}
      → taproot_spendinfo lib s ≡ ok info
      → IsSpendInfoOf s info × (verify_funding lib s.funding_addrs info ≡ ok tt)
  unfolding taproot_spendinfo
  taproot_spendinfo-ok s {info} e =
      let (with_claim, adds_claim, e1) = bind-eq-ok _ _ e in
      let (with_refund, adds_refund, e2) = bind-eq-ok _ _ e1 in
      let finalized = finalize with_refund (musig.agg_pk (musig_keyagg_cache lib s)) in
      let (built, finalizes, e3) = bind-eq-ok finalized _ e2 in
      let (done, verified, e4) = bind-eq-ok (verify_funding lib s.funding_addrs built) _ e3 in
      let same : built ≡ info = ok-injective e4 in
      (
        record {
          with_claim = with_claim;
          with_refund = with_refund;
          adds_claim = adds_claim;
          adds_refund = adds_refund;
          finalizes = rw same at finalizes;
        },
        rw same at verified,
      )

  verify_funding-PaysTo :
      (s : LBtcSwapScript) (funding : Address) (info : SpendInfo)
      → s.funding_addrs ≡ some funding
      → verify_funding lib s.funding_addrs info ≡ ok tt
      → PaysTo funding info
  unfolding verify_funding
  verify_funding-PaysTo s funding info has e =
      verify_address-PaysTo funding info (ground (arith, e, has))

  -- What an address check that succeeds has compared the text with.
  pub record IsAddressOf (s : LBtcSwapScript) (chain : Chain) (text : String) : Type 0 where
    pub info : SpendInfo
    pub params : AddressParams
    pub is_info : IsSpendInfoOf s info
    pub on : address_params chain ≡ ok params
    pub prints :
        (p2tr info.internal_key info.merkle_root (some (public_key s.blinding_key)) params).text
        ≡ text
    pub pays : (funding : Address) → s.funding_addrs ≡ some funding → PaysTo funding info

  -- A Liquid swap script whose address check succeeds: the address that was checked is the
  -- confidential taproot address, under the blinding key of the swap script, of the tree of its
  -- claim and refund scripts with the aggregated key, on a Liquid chain, and a funding address of
  -- the swap script pays to the output key of that tree.
  pub liquid_validate_address-ok :
      (s : LBtcSwapScript) (chain : Chain) (text : String)
      → validate_address lib s chain text ≡ ok tt
      → IsAddressOf s chain text
  unfolding validate_address to_address
  liquid_validate_address-ok s chain text e =
      let (address, addressed, e1) = bind-eq-ok _ _ e in
      let (info, spends, e2) = bind-eq-ok _ _ addressed in
      let (params, on, e3) = bind-eq-ok _ _ e2 in
      let (is_info, verified) = taproot_spendinfo-ok s spends in
      record {
        info = info;
        params = params;
        is_info = is_info;
        on = on;
        prints = ground (arith, e3, str_eq_iff address.text text);
        pays = λ funding has. verify_funding-PaysTo s funding info has verified;
      }
