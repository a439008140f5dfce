-- ===== src/Secrets/Preimage.antt =====
-- `Preimage`: 32 bytes and their two hashes, or the hashes alone.
use bullbitcoin_rnd.Base.{
  ◌≡◌, arith, Option, none, some, String, Bytes, length, ◌==◌, if◌then◌else◌,
}
use mathlib.Core.Option
use bullbitcoin_rnd.Error.{Error}
use bullbitcoin_rnd.Result.{Result, ok, err, ◌>>=◌}

pub record Preimage : Type 0 where
  pub bytes : Option Bytes
  pub sha256 : Bytes
  pub hash160 : Bytes

-- The hash, hex and invoice functions of other crates.
pub record HashLib : Type 0 where
  pub sha256 : Bytes → Bytes
  pub hash160 : Bytes → Bytes
  pub ripemd160 : Bytes → Bytes
  pub sha256_from_slice : Bytes → Result Bytes
  pub hash160_from_slice : Bytes → Result Bytes
  pub from_hex : String → Result Bytes
  pub to_hex : Bytes → String
  -- `Bolt11Invoice::from_str(invoice)?.payment_hash()`
  pub payment_hash : String → Result Bytes

module _ (lib : HashLib) where
  -- `Preimage::new`, for the 32 bytes drawn by `rng_32b`
  abbrev pub new : Bytes → Preimage
  new drawn = record { bytes = some drawn; sha256 = lib.sha256 drawn; hash160 = lib.hash160 drawn }

  unfoldable pub from_vec : Bytes → Result Preimage
  from_vec preimage =
      if length preimage == 32
      then ok (record {
        bytes = some preimage;
        sha256 = lib.sha256 preimage;
        hash160 = lib.hash160 preimage;
      })
      else err (Error.protocol "Decoded Preimage input is not 32 bytes")

  pub from_str : String → Result Preimage
  from_str preimage = do from_vec (← lib.from_hex preimage)

  unfoldable pub from_sha256_vec : Bytes → Result Preimage
  from_sha256_vec preimage_sha256 = do
    sha256 ← lib.sha256_from_slice preimage_sha256
    hash160 ← lib.hash160_from_slice (lib.ripemd160 sha256)
    ok (record { bytes = none; sha256 = sha256; hash160 = hash160 })

  pub from_sha256_str : String → Result Preimage
  from_sha256_str preimage_sha256 = do from_sha256_vec (← lib.from_hex preimage_sha256)

  -- The payment hash is printed as hex and parsed again.
  unfoldable pub from_invoice_str : String → Result Preimage
  unfolding from_sha256_str
  from_invoice_str invoice = do from_sha256_str (lib.to_hex (← lib.payment_hash invoice))

  abbrev pub to_string : Preimage → Option String
  to_string p = Option.map lib.to_hex p.bytes

module _ (lib : HashLib) where
  open lib use {sha256, hash160, ripemd160, sha256_from_slice, hash160_from_slice, from_hex, to_hex}

  -- What the crates document: 32 bytes are a SHA-256 hash and 20 bytes a HASH160, hex reads back, a
  -- SHA-256 hash has 32 bytes and a RIPEMD-160 hash 20, and HASH160 is RIPEMD-160 of SHA-256.
  pub record HashLaws : Type 0 where
    pub sha256_from_slice-ok : (bs : Bytes) → length bs ≡ 32 → sha256_from_slice bs ≡ ok bs
    pub hash160_from_slice-ok : (bs : Bytes) → length bs ≡ 20 → hash160_from_slice bs ≡ ok bs
    pub from_hex-to_hex : (bs : Bytes) → from_hex (to_hex bs) ≡ ok bs
    pub length-sha256 : (bs : Bytes) → length (sha256 bs) ≡ 32
    pub length-ripemd160 : (bs : Bytes) → length (ripemd160 bs) ≡ 20
    pub hash160-ripemd160 : (bs : Bytes) → hash160 bs ≡ ripemd160 (sha256 bs)

module _ (lib : HashLib) (laws : HashLaws lib) where
  open laws use {
    sha256_from_slice-ok, hash160_from_slice-ok, from_hex-to_hex, length-sha256, length-ripemd160,
    hash160-ripemd160,
  }

  from_sha256_str_lem :
      (bytes : Bytes)
      → from_sha256_str lib (lib.to_hex (lib.sha256 bytes))
        ≡ ok (record { bytes = none; sha256 = lib.sha256 bytes; hash160 = lib.hash160 bytes })
  unfolding from_sha256_str from_sha256_vec
  from_sha256_str_lem bytes =
      let hash = lib.sha256 bytes in
      rw (
        from_hex-to_hex hash,
        sha256_from_slice-ok hash (length-sha256 bytes),
        hash160_from_slice-ok (lib.ripemd160 hash) (length-ripemd160 hash),
        hash160-ripemd160 bytes,
      )

  -- The preimage of an invoice that pays to the hash of 32 known bytes has no bytes, and the same
  -- two hashes as the preimage made from those bytes.
  pub from_invoice_str-from_vec :
      (invoice : String) (bytes : Bytes) (p : Preimage)
      → from_vec lib bytes ≡ ok p
      → lib.payment_hash invoice ≡ ok p.sha256
      → from_invoice_str lib invoice ≡ ok (record p { bytes = none })
  unfolding from_vec from_invoice_str
  from_invoice_str-from_vec invoice bytes p e pays =
      let same : (p.sha256 ≡ lib.sha256 bytes) × (p.hash160 ≡ lib.hash160 bytes) =
        ground (arith, e) in
      rw pays (ground (arith, same.0, same.1, from_sha256_str_lem bytes))

  -- `from_str` takes the hex of any bytes: it gives back the preimage of 32 bytes, and refuses every
  -- other length.
  pub from_str-to_hex :
      (bytes : Bytes)
      → from_str lib (lib.to_hex bytes) ≡ (
          if length bytes == 32
          then ok (new lib bytes)
          else err (Error.protocol "Decoded Preimage input is not 32 bytes"))
  unfolding from_str from_vec
  from_str-to_hex bytes = rw (from_hex-to_hex bytes)

  -- What `to_string` prints for a preimage with bytes, `from_str` reads back to that preimage.
  pub from_str-to_string :
      (bytes : Bytes) (p : Preimage) (text : String)
      → from_vec lib bytes ≡ ok p
      → to_string lib p ≡ some text
      → from_str lib text ≡ ok p
  unfolding from_str from_vec
  from_str-to_string bytes p text e t =
      let is_hex : text ≡ lib.to_hex bytes = ground (arith, e, t) in
      rw is_hex (rw (from_hex-to_hex bytes) e)
