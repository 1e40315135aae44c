-- ===== src/Policy/Sign.antt =====
-- crates/authz-policy/src/sign.rs: signed policy bundles.
pub mod Laws
use paac.Prelude.{
  String, ◌^^◌, Bool, true, false, not, Option, Result, ok, err, ok_or, ◌>>=◌, map_err, str_eq,
  if◌then◌else◌,
}
use paac.Policy.Error.{Fallible, crypto}

-- What the program uses of `sha2`, `hex`, `base64` and `ed25519_dalek`.
pub record Crypto : Type 1 where
  pub Bytes : Type 0
  pub Secret : Type 0
  pub Signature : Type 0
  pub PublicBytes : Type 0
  pub PublicKey : Type 0
  -- `as_bytes`, and the digest of a text in hexadecimal
  pub utf8 : String → Bytes
  pub sha256_hex : String → String
  pub hex_encode : Bytes → String
  pub hex_decode : String → Result String Bytes
  pub b64_encode : Bytes → String
  pub b64_decode : String → Result String Bytes
  -- `try_into` an array of 32 bytes, as a secret and as a public key, and a secret's bytes
  pub secret_of : Bytes → Option Secret
  pub secret_bytes : Secret → Bytes
  pub public_of : Bytes → Option PublicBytes
  -- `SigningKey::sign` and `verifying_key`, as bytes
  pub sign : Secret → Bytes → Bytes
  pub verifying_key : Secret → Bytes
  -- `Signature::from_slice`, `VerifyingKey::from_bytes`, `verify(…).is_ok()`
  pub signature_of : Bytes → Result String Signature
  pub public_key : PublicBytes → Result String PublicKey
  pub verify : PublicKey → Bytes → Signature → Bool

pub record SigningKeyPair : Type 0 where
  pub key_id : String
  pub secret_hex : String
  pub public_hex : String

pub record SignedBundle : Type 0 where
  pub revision : String
  pub content_sha256 : String
  pub cedar : String
  pub dsl : String
  pub signature_b64 : String
  pub key_id : String
  pub signed_at : String

module _ (lib : Crypto) where
  open lib use {
    Bytes, Secret, utf8, sha256_hex, hex_decode, b64_encode, b64_decode, secret_of, public_of,
    signature_of, public_key,
  }

  -- The trait `BundleSigner`.
  pub record BundleSigner : Type 0 where
    pub key_id : String
    pub sign : Bytes → Fallible Bytes
    pub verifying_key_bytes : Bytes

  -- `LocalEd25519Signer` as a `BundleSigner`.
  unfoldable pub local_signer : String → Secret → BundleSigner
  local_signer key_id secret = record {
    key_id = key_id;
    sign = λ message. ok (lib.sign secret message);
    verifying_key_bytes = lib.verifying_key secret;
  }

  -- `generate`, with the random key as an argument
  unfoldable pub generate : String → Secret → BundleSigner × SigningKeyPair
  unfolding local_signer
  generate key_id secret = (
    local_signer key_id secret,
    record {
      key_id = key_id;
      secret_hex = lib.hex_encode (lib.secret_bytes secret);
      public_hex = lib.hex_encode (lib.verifying_key secret);
    },
  )

  unfoldable pub from_keypair : SigningKeyPair → Fallible BundleSigner
  unfolding local_signer
  from_keypair pair = do
    bytes ← map_err crypto (hex_decode pair.secret_hex)
    secret ← ok_or (crypto "invalid secret length") (secret_of bytes)
    ok (local_signer pair.key_id secret)

  unfoldable pub content_digest : String → String
  content_digest cedar = sha256_hex cedar

  -- What is signed: the revision and the digest of the Cedar text.
  unfoldable pub signed_message : String → String → Bytes
  signed_message revision digest = utf8 (revision ^^ ("\n" ^^ digest))

  unfoldable pub sign_bundle :
      BundleSigner → String → String → String → String → Fallible SignedBundle
  sign_bundle signer revision cedar dsl now = do
    let digest = content_digest cedar
    sig ← signer.sign (signed_message revision digest)
    ok (record {
      revision = revision;
      content_sha256 = digest;
      cedar = cedar;
      dsl = dsl;
      signature_b64 = b64_encode sig;
      key_id = signer.key_id;
      signed_at = now;
    })

  -- The check of a signature whose digest fits.
  unfoldable pub verify_signature : SignedBundle → Bytes → Fallible Bool
  verify_signature bundle public_key_bytes = do
    sig_bytes ← map_err crypto (b64_decode bundle.signature_b64)
    sig ← map_err crypto (signature_of sig_bytes)
    pk ← ok_or (crypto "public key must be 32 bytes") (public_of public_key_bytes)
    vk ← map_err crypto (public_key pk)
    ok (lib.verify vk (signed_message bundle.revision bundle.content_sha256) sig)

  unfoldable pub verify_bundle : SignedBundle → Bytes → Fallible Bool
  unfolding content_digest
  verify_bundle bundle public_key_bytes =
      if not (str_eq (content_digest bundle.cedar) bundle.content_sha256)
      then ok false
      else verify_signature bundle public_key_bytes
