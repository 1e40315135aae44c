-- ===== src/Policy/Sign/Laws.antt =====
-- What a verified bundle of crates/authz-policy/src/sign.rs is.
use paac.Prelude.{
  ◌^^◌, str_eq, Bool-cases, Bool, ◌⊎◌, inl, inr, ◌∙◌, >>=-eq-ok, map_err, map_err-eq-ok, ok_or,
  ok_or-eq-ok, String, true, false, ◌≡◌, ◌≢◌, ◌↔◌, refl, sym, some, ok, ok-injective, arith, eq_iff,
  eq_refl,
}
use paac.Policy.Error.{crypto}
use paac.Policy.Sign.{
  Crypto, SignedBundle, local_signer, content_digest, signed_message, sign_bundle, verify_signature,
  verify_bundle, from_keypair, generate,
}

-- The documented behaviour of the signature libraries: encodings round-trip, a signature has a
-- signature's form, a verifying key is a key, and what a key signs its verifying key verifies.
pub record CryptoLaws (lib : Crypto) : Type 0 where
  pub b64_decode-b64_encode : (b : lib.Bytes) → lib.b64_decode (lib.b64_encode b) ≡ ok b
  pub signature_form :
      (k : lib.Secret) (m : lib.Bytes)
      → (s : lib.Signature) × (lib.signature_of (lib.sign k m) ≡ ok s)
  pub key_form :
      (k : lib.Secret)
      → (pk : lib.PublicBytes) × (vk : lib.PublicKey) × (lib.public_of (lib.verifying_key k)
          ≡ some pk)
        × (lib.public_key pk ≡ ok vk)
  pub verifies :
      (k : lib.Secret) (m : lib.Bytes) (s : lib.Signature) (pk : lib.PublicBytes)
      (vk : lib.PublicKey)
      → lib.signature_of (lib.sign k m) ≡ ok s
      → lib.public_of (lib.verifying_key k) ≡ some pk
      → lib.public_key pk ≡ ok vk
      → lib.verify vk m s ≡ true

eq-cases : (s t : String) → (s ≡ t) ⊎ (s ≢ t)
eq-cases s t = elim (Bool-cases (str_eq s t)) [
  | inl same ↦ inl ((eq_iff s t).0 same)
  | inr other ↦ inr (λ e. cc (other, (eq_iff s t).1 e))
]

module _ (lib : Crypto) where
  -- If the libraries behave as documented, a bundle signed with a local key verifies under that
  -- key's public bytes.
  pub verify_bundle-sign_bundle :
      (laws : CryptoLaws lib) (key_id : String) (k : lib.Secret) (revision cedar dsl now : String)
      (b : SignedBundle)
      → sign_bundle lib (local_signer lib key_id k) revision cedar dsl now ≡ ok b
      → verify_bundle lib b (lib.verifying_key k) ≡ ok true
  unfolding sign_bundle local_signer verify_bundle verify_signature content_digest
  verify_bundle-sign_bundle laws key_id k revision cedar dsl now b h =
      let m = signed_message lib revision (lib.sha256_hex cedar) in
      let (s, formed) = laws.signature_form k m in
      let (pk, vk, taken, parsed) = laws.key_form k in
      let accepted = laws.verifies k m s pk vk formed taken parsed in
      rw (sym (ok-injective h))
        (simp (eq_refl, laws.b64_decode-b64_encode, formed, taken, parsed, accepted))

  -- The libraries read the bundle's signature and the key, and their check of the signature against
  -- the bundle's revision and digest, with a line break between them, gives an answer.
  pub record Answers (b : SignedBundle) (key : lib.Bytes) (answer : Bool) : Type 0 where
    pub sig_bytes : lib.Bytes
    pub sig : lib.Signature
    pub pk : lib.PublicBytes
    pub vk : lib.PublicKey
    pub decoded : lib.b64_decode b.signature_b64 ≡ ok sig_bytes
    pub formed : lib.signature_of sig_bytes ≡ ok sig
    pub taken : lib.public_of key ≡ some pk
    pub parsed : lib.public_key pk ≡ ok vk
    pub checked : lib.verify vk (lib.utf8 (b.revision ^^ ("\n" ^^ b.content_sha256))) sig ≡ answer

  verify_signature_iff :
      (b : SignedBundle) (key : lib.Bytes) (answer : Bool)
      → (verify_signature lib b key ≡ ok answer) ↔ Answers b key answer
  unfolding verify_signature signed_message
  verify_signature_iff b key answer = (
    λ h.
        let (sig_bytes, e1, h1) = >>=-eq-ok (map_err crypto (lib.b64_decode b.signature_b64)) _ h in
        let (sig, e2, h2) = >>=-eq-ok (map_err crypto (lib.signature_of sig_bytes)) _ h1 in
        let (pk, e3, h3) = >>=-eq-ok (ok_or _ (lib.public_of key)) _ h2 in
        let (vk, e4, h4) = >>=-eq-ok (map_err crypto (lib.public_key pk)) _ h3 in
        record {
          sig_bytes = sig_bytes;
          sig = sig;
          pk = pk;
          vk = vk;
          decoded = map_err-eq-ok crypto _ e1;
          formed = map_err-eq-ok crypto _ e2;
          taken = ok_or-eq-ok _ _ e3;
          parsed = map_err-eq-ok crypto _ e4;
          checked = ok-injective h4;
        },
    λ a. simp (a.decoded, a.formed, a.taken, a.parsed, a.checked),
  )

  verify_bundle_fits :
      (b : SignedBundle) (key : lib.Bytes)
      → lib.sha256_hex b.cedar ≡ b.content_sha256
      → verify_bundle lib b key ≡ verify_signature lib b key
  unfolding verify_bundle content_digest
  verify_bundle_fits b key h = ground (arith, eq_iff (lib.sha256_hex b.cedar) b.content_sha256)

  verify_bundle_differs :
      (b : SignedBundle) (key : lib.Bytes)
      → lib.sha256_hex b.cedar ≢ b.content_sha256
      → verify_bundle lib b key ≡ ok false
  unfolding verify_bundle content_digest
  verify_bundle_differs b key h = ground (arith, eq_iff (lib.sha256_hex b.cedar) b.content_sha256)

  -- `verify_bundle` answers true exactly when the digest of the Cedar text is the bundle's and the
  -- libraries, which read the signature and the key, accept the signature; it answers false exactly
  -- when the digest is another one, whatever the signature and the key, or the libraries read them
  -- and do not accept the signature.
  pub verify_bundle_iff :
      (b : SignedBundle) (key : lib.Bytes)
      → ((verify_bundle lib b key ≡ ok true)
          ↔ ((lib.sha256_hex b.cedar ≡ b.content_sha256) × Answers b key true))
        × ((verify_bundle lib b key ≡ ok false) ↔ (
            (lib.sha256_hex b.cedar ≢ b.content_sha256)
            ⊎ ((lib.sha256_hex b.cedar ≡ b.content_sha256) × Answers b key false)))
  verify_bundle_iff b key = elim (eq-cases (lib.sha256_hex b.cedar) b.content_sha256) [
    | inl fits ↦
        let same = verify_bundle_fits b key fits in
        (
          (
            λ h. (fits, (verify_signature_iff b key true).0 (sym same ∙ h)),
            λ h. same ∙ (verify_signature_iff b key true).1 h.1,
          ),
          (
            λ h. inr (fits, (verify_signature_iff b key false).0 (sym same ∙ h)),
            λ h. elim h [
              | inl differs ↦ absurd (differs fits)
              | inr (_, a) ↦ same ∙ (verify_signature_iff b key false).1 a
            ],
          ),
        )
    | inr differs ↦
        let no = verify_bundle_differs b key differs in
        ((λ h. cc (no, h), λ h. absurd (differs h.0)), (λ h. inl differs, λ h. no))
  ]

  -- The DSL text, the key's name and the date are not covered: a bundle verifies as before when
  -- they are changed.
  pub verify_bundle_uncovered :
      (b : SignedBundle) (key : lib.Bytes) (dsl key_id signed_at : String)
      → verify_bundle lib (record b { dsl = dsl; key_id = key_id; signed_at = signed_at }) key
        ≡ verify_bundle lib b key
  unfolding verify_bundle verify_signature
  verify_bundle_uncovered b key dsl key_id signed_at = refl

  -- A bundle whose Cedar text was replaced by one with another digest does not verify.
  pub verify_bundle_tampered :
      (b : SignedBundle) (key : lib.Bytes) (cedar : String)
      → content_digest lib cedar ≢ b.content_sha256
      → verify_bundle lib (record b { cedar = cedar }) key ≡ ok false
  unfolding verify_bundle
  verify_bundle_tampered b key cedar h =
      ground (arith, eq_iff (lib.sha256_hex cedar) b.content_sha256)

-- What `hex` and `ed25519_dalek` document of keys as text: both ways give back what was put in.
pub record KeyLaws (lib : Crypto) : Type 0 where
  pub hex_decode-hex_encode : (b : lib.Bytes) → lib.hex_decode (lib.hex_encode b) ≡ ok b
  pub secret_of-secret_bytes : (k : lib.Secret) → lib.secret_of (lib.secret_bytes k) ≡ some k

-- If the libraries behave as documented, the key pair of a generated key reads back as the signer that
-- was generated with it.
pub from_keypair-generate :
    (lib : Crypto) (laws : KeyLaws lib) (key_id : String) (k : lib.Secret)
    → from_keypair lib (generate lib key_id k).1 ≡ ok (generate lib key_id k).0
unfolding from_keypair generate
from_keypair-generate lib laws key_id k =
    rw (laws.hex_decode-hex_encode (lib.secret_bytes k)) (rw (laws.secret_of-secret_bytes k))
