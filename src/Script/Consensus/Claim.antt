-- ===== src/Script/Consensus/Claim.antt =====
-- Which stacks satisfy the claim script.
use mathlib.Core.Bool.{and-eq-true_iff}
use bullbitcoin_rnd.Base.{
  ap, ◌∙◌, ◌≡◌, ◌↔◌, refl, sym, ◌&&◌, arith, Bool, true, List, [], ◌∷◌, Bytes, bytes_eq,
  bytes_eq_iff, length, Bool-cases, inl, inr,
}
use bullbitcoin_rnd.Boltz.Types.{PublicKey, SwapType}
use bullbitcoin_rnd.Script.Instruction.{ScriptLib}
use bullbitcoin_rnd.Script.Tree.{claim_instructions}
use bullbitcoin_rnd.Script.Consensus.{Spend, step, run, accepts, script_number}
use bullbitcoin_rnd.Script.Consensus.Numbers.{PushLaw, is_thirty_two_iff}

-- The size that a claim script wants of its preimage.
abbrev pub HasSize : SwapType → Bytes → Type 0
HasSize SwapType.submarine preimage = Unit
HasSize _ preimage = length preimage ≡ 32

module _ (lib : ScriptLib) (spend : Spend) (hashlock : Bytes) (receiver : PublicKey) where
  -- A preimage of the hash lock, and a signature by the receiver under it.
  pub record IsClaimStack (t : SwapType) (stack : List Bytes) : Type 0 where
    pub preimage : Bytes
    pub signature : Bytes
    pub is_stack : stack ≡ preimage ∷ signature ∷ []
    pub is_preimage : spend.hash160 preimage ≡ hashlock
    pub has_size : HasSize t preimage
    pub is_signed : spend.check_sig signature (lib.x_only receiver) ≡ true

  -- The same stack under the name of another swap type.
  resized :
      {s : SwapType} (t : SwapType) {stack : List Bytes} (h : IsClaimStack s stack)
      → (HasSize s h.preimage → HasSize t h.preimage)
      → IsClaimStack t stack
  resized t h size = record {
    preimage = h.preimage;
    signature = h.signature;
    is_stack = h.is_stack;
    is_preimage = h.is_preimage;
    has_size = size h.has_size;
    is_signed = h.is_signed;
  }

  abbrev accepts_claim : SwapType → List Bytes → Bool
  accepts_claim t stack = accepts spend (claim_instructions lib t hashlock receiver) stack

  submarine-IsClaimStack :
      (stack : List Bytes)
      → accepts_claim SwapType.submarine stack ≡ true
      → IsClaimStack SwapType.submarine stack
  unfolding run step
  submarine-IsClaimStack [] e = cc
  submarine-IsClaimStack (p ∷ []) e = ground (arith, e)
  submarine-IsClaimStack (p ∷ sig ∷ []) e = record {
    preimage = p;
    signature = sig;
    is_stack = refl;
    is_preimage = sym ((bytes_eq_iff hashlock (spend.hash160 p)).0 (ground (arith, e)));
    has_size = tt;
    is_signed = ground (arith, e);
  }
  submarine-IsClaimStack (p ∷ sig ∷ more ∷ stack) e = ground (arith, e)

  submarine-accepts :
      (stack : List Bytes)
      → IsClaimStack SwapType.submarine stack
      → accepts_claim SwapType.submarine stack ≡ true
  unfolding run step
  submarine-accepts stack h =
      let same : bytes_eq hashlock (spend.hash160 h.preimage) ≡ true =
        (bytes_eq_iff hashlock (spend.hash160 h.preimage)).1 (sym h.is_preimage) in
      rw h.is_stack (ground (arith, same, h.is_signed))

  -- The other claim scripts look at the size first.
  module _ (law : PushLaw lib) where
    sized :
        (p : Bytes) (stack : List Bytes)
        → accepts_claim SwapType.chain (p ∷ stack) ≡ (
            bytes_eq (32 ∷ []) (script_number (length p))
            && accepts_claim SwapType.submarine (p ∷ stack))
    unfolding run step
    sized p stack =
        let push = law 32 (omega arith) (omega arith) in
        elim (Bool-cases (bytes_eq (32 ∷ []) (script_number (length p)))) [
          | inl same ↦ ground (arith, push, same)
          | inr other ↦ ground (arith, push, other)
        ]

    sized-IsClaimStack :
        (stack : List Bytes)
        → accepts_claim SwapType.chain stack ≡ true
        → IsClaimStack SwapType.chain stack
    unfolding run step
    sized-IsClaimStack [] e = ground (arith, e)
    sized-IsClaimStack (p ∷ stack) e =
        let both = (and-eq-true_iff _ _).0 (sym (sized p stack) ∙ e) in
        let h = submarine-IsClaimStack (p ∷ stack) both.1 in
        let same : p ≡ h.preimage = ground (arith, h.is_stack) in
        record {
          preimage = h.preimage;
          signature = h.signature;
          is_stack = h.is_stack;
          is_preimage = h.is_preimage;
          has_size = sym (ap length same) ∙ (is_thirty_two_iff (length p)).0 both.0;
          is_signed = h.is_signed;
        }

    sized-accepts :
        (stack : List Bytes)
        → IsClaimStack SwapType.chain stack
        → accepts_claim SwapType.chain stack ≡ true
    sized-accepts stack h =
        let plain : accepts_claim SwapType.submarine (h.preimage ∷ h.signature ∷ []) ≡ true =
          sym (ap (accepts_claim SwapType.submarine) h.is_stack)
          ∙ submarine-accepts stack (resized SwapType.submarine h (λ k. tt)) in
        ap (accepts_claim SwapType.chain) h.is_stack
        ∙ sized h.preimage (h.signature ∷ [])
        ∙ (and-eq-true_iff _ _).1 ((is_thirty_two_iff (length h.preimage)).1 h.has_size, plain)

    -- A claim script is satisfied exactly by a stack of a preimage of its hash lock and a signature
    -- that is valid for the receiver's key, where the preimage has 32 bytes in all but a submarine
    -- swap. The law is that a number is pushed as a script number.
    pub claim_instructions-accepts_iff :
        (t : SwapType) (stack : List Bytes)
        → (accepts spend (claim_instructions lib t hashlock receiver) stack ≡ true)
          ↔ IsClaimStack t stack
    claim_instructions-accepts_iff SwapType.submarine stack =
        (submarine-IsClaimStack stack, submarine-accepts stack)
    claim_instructions-accepts_iff SwapType.reverse_submarine stack = (
      λ e. resized SwapType.reverse_submarine (sized-IsClaimStack stack e) (λ h. h),
      λ h. sized-accepts stack (resized SwapType.chain h (λ k. k)),
    )
    claim_instructions-accepts_iff SwapType.chain stack =
        (sized-IsClaimStack stack, sized-accepts stack)
