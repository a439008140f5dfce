-- ===== src/Bitcoin/SwapScript/Response.antt =====
-- The swap script that is built from an API response.
use bullbitcoin_rnd.Base.{◌^◌, ◌<◌, ◌≡◌, refl, arith, some, [], ◌∷◌, length}
use bullbitcoin_rnd.Result.{Result, ok}
use bullbitcoin_rnd.Boltz.Types.{PublicKey, SwapTree, Side}
use bullbitcoin_rnd.Boltz.Offer.{
  Offer, submarine, reverse, chain, tree_of, address_of, server_of, Roles, roles_of,
}
use bullbitcoin_rnd.Script.Instruction.{Opcode, ScriptLaws}
use bullbitcoin_rnd.Script.Tree.{read_tree}
use bullbitcoin_rnd.Script.ReadBack.{read_tree_lem}
use bullbitcoin_rnd.Bitcoin.Crate.{Address, BitcoinLib}
use bullbitcoin_rnd.Bitcoin.SwapScript.{
  BtcSwapScript, submarine_from_swap_resp, reverse_from_swap_resp, chain_from_swap_resp,
  musig_keyagg_cache, claim_script, refund_script,
}

module _ (lib : BitcoinLib) where
  open lib use {script, musig, address_from_str}

  -- The leaves of the tree are the hex of the two scripts of `s`, whose locks are in range.
  pub record Encodes (s : BtcSwapScript) (tree : SwapTree) : Type 0 where
    pub claim_leaf : script.from_hex tree.claim_leaf.output ≡ ok (claim_script lib s)
    pub refund_leaf : script.from_hex tree.refund_leaf.output ≡ ok (refund_script lib s)
    pub length-hashlock : length s.hashlock ≡ 20
    pub above_opcodes : 16 < s.locktime
    pub below_sign : s.locktime < 2 ^ 31

  pub read_tree-Encodes :
      (s : BtcSwapScript) (tree : SwapTree)
      → ScriptLaws script
      → Encodes s tree
      → read_tree script Opcode.op_0 tree
        ≡ ok (record { hashlock = s.hashlock; timelock = s.locktime })
  unfolding claim_script refund_script
  read_tree-Encodes s tree laws e =
      read_tree_lem script laws Opcode.op_0 s.swap_type s.hashlock s.receiver_pubkey s.sender_pubkey
        s.locktime tree refl e.length-hashlock e.above_opcodes e.below_sign e.claim_leaf
        e.refund_leaf

  abbrev pub from_swap_resp : Offer → PublicKey → Result BtcSwapScript
  from_swap_resp (submarine response) ours = submarine_from_swap_resp lib response ours
  from_swap_resp (reverse response) ours = reverse_from_swap_resp lib response ours
  from_swap_resp (chain side details) ours = chain_from_swap_resp lib side details ours

  -- The type, side, sender and receiver of a swap.
  pub record HasRoles (s : BtcSwapScript) (roles : Roles) : Type 0 where
    pub is_type : s.swap_type ≡ roles.swap_type
    pub is_side : s.side ≡ roles.side
    pub is_sender : s.sender_pubkey ≡ roles.sender
    pub is_receiver : s.receiver_pubkey ≡ roles.receiver

  -- A Bitcoin swap script whose leaves and address the server sends, in a submarine, a reverse or (on
  -- either side) a chain response, is rebuilt whole: the same locks, and each party's key in its
  -- role. The lock time is above 16 and below 2 ^ 31, and the script functions keep their documented
  -- laws.
  pub bitcoin_from_swap_resp-Encodes :
      (s : BtcSwapScript) (offer : Offer) (ours : PublicKey) (funding : Address)
      → ScriptLaws script
      → Encodes s (tree_of offer)
      → address_from_str (address_of offer) ≡ ok funding
      → s.funding_addrs ≡ some funding
      → HasRoles s (roles_of offer ours)
      → from_swap_resp offer ours ≡ ok s
  unfolding submarine_from_swap_resp reverse_from_swap_resp chain_from_swap_resp
  bitcoin_from_swap_resp-Encodes s (submarine response) ours funding laws e found fd r =
      rw (read_tree-Encodes s response.swap_tree laws e, found)
        (ground (arith, fd, r.is_type, r.is_side, r.is_sender, r.is_receiver))
  bitcoin_from_swap_resp-Encodes s (reverse response) ours funding laws e found fd r =
      rw (read_tree-Encodes s response.swap_tree laws e, found)
        (ground (arith, fd, r.is_type, r.is_side, r.is_sender, r.is_receiver))
  bitcoin_from_swap_resp-Encodes s (chain Side.lockup details) ours funding laws e found fd r =
      rw (read_tree-Encodes s details.swap_tree laws e, found)
        (ground (arith, fd, r.is_type, r.is_side, r.is_sender, r.is_receiver))
  bitcoin_from_swap_resp-Encodes s (chain Side.claim details) ours funding laws e found fd r =
      rw (read_tree-Encodes s details.swap_tree laws e, found)
        (ground (arith, fd, r.is_type, r.is_side, r.is_sender, r.is_receiver))

  pub from_swap_resp-HasRoles :
      (offer : Offer) (ours : PublicKey) (s : BtcSwapScript)
      → from_swap_resp offer ours ≡ ok s
      → HasRoles s (roles_of offer ours)
  unfolding submarine_from_swap_resp reverse_from_swap_resp chain_from_swap_resp
  from_swap_resp-HasRoles (submarine response) ours s e = record {
    is_type = ground (arith, e);
    is_side = ground (arith, e);
    is_sender = ground (arith, e);
    is_receiver = ground (arith, e);
  }
  from_swap_resp-HasRoles (reverse response) ours s e = record {
    is_type = ground (arith, e);
    is_side = ground (arith, e);
    is_sender = ground (arith, e);
    is_receiver = ground (arith, e);
  }
  from_swap_resp-HasRoles (chain Side.lockup details) ours s e = record {
    is_type = ground (arith, e);
    is_side = ground (arith, e);
    is_sender = ground (arith, e);
    is_receiver = ground (arith, e);
  }
  from_swap_resp-HasRoles (chain Side.claim details) ours s e = record {
    is_type = ground (arith, e);
    is_side = ground (arith, e);
    is_sender = ground (arith, e);
    is_receiver = ground (arith, e);
  }

  -- In every Bitcoin swap that a response creates, of any type and side, the keys are aggregated in the
  -- order that the server uses: its own key first, ours second.
  pub musig_keyagg_cache-server_first :
      (offer : Offer) (ours : PublicKey) (s : BtcSwapScript)
      → from_swap_resp offer ours ≡ ok s
      → musig_keyagg_cache lib s ≡ musig.key_agg_cache (server_of offer ∷ ours ∷ [])
  unfolding musig_keyagg_cache submarine_from_swap_resp reverse_from_swap_resp chain_from_swap_resp
  musig_keyagg_cache-server_first (submarine response) ours s e = ground arith
  musig_keyagg_cache-server_first (reverse response) ours s e = ground arith
  musig_keyagg_cache-server_first (chain Side.lockup details) ours s e = ground arith
  musig_keyagg_cache-server_first (chain Side.claim details) ours s e = ground arith
