-- ===== src/Identity/Jwt.antt =====
-- crates/authz-identity/src/adapters.rs: bearer tokens made into identities by `JwtOidcAdapter`.
use Prim.Native.Nat.{ℕ, ◌+◌, ◌%◌}
use paac.Prelude.{
  code, eqb, ltb, trim_end_by, panic, String, ◌^^◌, Bool, false, ◌&&◌, Option, none, some, List, [],
  ◌∷◌, Result, ok, err, ◌>>=◌, map_err, ok_or, or_else, find, str_eq, split_by, is_char,
  if◌then◌else◌,
}
use paac.Identity.Model.{CanonicalIdentity, Identified, jwt}

pub record Claims : Type 0 where
  pub sub : String
  pub name : Option String
  pub email : Option String
  pub roles : List String
  pub groups : List String

pub record Jwk : Type 0 where
  pub kid : Option String
  pub kty : String
  pub n : Option String
  pub e : Option String

-- `jsonwebtoken::Algorithm`, with what the program does not take under its printed name
pub data Algorithm : Type 0 where
  hs256 hs384 hs512 rs256 rs384 rs512 : Algorithm
  other : String → Algorithm

pub record Header : Type 0 where
  pub alg : Algorithm
  pub kid : Option String

-- `Validation::new(alg)` with its `validate_exp`; no claim is required when that is false.
pub record Validation : Type 0 where
  pub alg : Algorithm
  pub validate_exp : Bool

-- What the adapter uses of `jsonwebtoken`, `base64`, `serde_json` and `reqwest`.
pub record JwtLib : Type 1 where
  pub Key : Type 0
  pub from_secret : String → Key
  pub from_rsa_components : String → String → Result String Key
  pub decode_header : String → Result String Header
  pub decode : String → Key → Validation → Result String Claims
  -- the two decoders of the URL-safe alphabet, and the claims that a JSON text holds
  pub Bytes : Type 0
  pub url_safe_no_pad : String → Result String Bytes
  pub url_safe : String → Result String Bytes
  pub from_slice : Bytes → Result String Claims
  -- the keys that are found at an address
  pub fetch_jwks : String → Result String (List Jwk)

pub record JwtOidcAdapter : Type 0 where
  pub hmac_secret : Option String
  pub jwks_url : Option String
  pub require_exp : Bool

unfoldable pub claims_to_identity : Claims → String → CanonicalIdentity
claims_to_identity claims source = record {
  id = claims.sub;
  display_name = or_else claims.name "";
  email = claims.email;
  source = source;
  roles = claims.roles;
  groups = claims.groups;
  attrs = [];
}

-- The test on a key: the right identifier, if the token names one, and RSA.
unfoldable pub fits : Option String → Jwk → Bool
fits none k = str_eq k.kty "RSA"
fits (some id) k = (elim k.kid [ none ↦ false | some j ↦ str_eq j id ]) && str_eq k.kty "RSA"

-- `parts[1]`, if there are two parts
abbrev second_part : List String → Option String
second_part [] = none
second_part (p ∷ []) = none
second_part (p ∷ (q ∷ qs)) = some q

-- `str::len`, in bytes of UTF-8
unfoldable pub byte_len : String → ℕ
byte_len String.[] = 0
byte_len (String.◌∷◌ c s) =
    (if ltb (code c) 0x80
      then 1
      else if ltb (code c) 0x800
      then 2
      else if ltb (code c) 0x10000
      then 3
      else 4)
    + byte_len s

unfoldable pub pad : String → String
unfolding byte_len
pad s = if eqb (byte_len s % 4) 2 then s ^^ "==" else if eqb (byte_len s % 4) 3 then s ^^ "=" else s

module _ (lib : JwtLib) where
  open lib use {
    from_secret, from_rsa_components, decode_header, decode, Bytes, url_safe_no_pad, url_safe,
    from_slice, fetch_jwks,
  }

  unfoldable pub base64url_decode : String → Identified Bytes
  unfolding trim_end_by pad
  base64url_decode s = elim (url_safe_no_pad (trim_end_by (is_char b'=') s)) [
    | ok bytes ↦ ok bytes
    | err _ ↦ map_err jwt (url_safe (pad s))
    | panic ↦ panic
  ]

  unfoldable pub normalize_unverified : String → Identified CanonicalIdentity
  normalize_unverified token = do
    part ← ok_or (jwt "invalid jwt") (second_part (split_by (is_char b'.') token))
    payload ← base64url_decode part
    claims ← map_err jwt (from_slice payload)
    ok (claims_to_identity claims "jwt-unverified")

  unfoldable pub normalize_hs256 : JwtOidcAdapter → String → Identified CanonicalIdentity
  normalize_hs256 a token = do
    secret ← ok_or (jwt "no hmac secret configured") a.hmac_secret
    claims ←
        map_err jwt
          (decode token (from_secret secret) (record { alg = hs256; validate_exp = a.require_exp }))
    ok (claims_to_identity claims "jwt-hs256")

  unfoldable pub normalize_rs_jwks :
      JwtOidcAdapter → String → Option String → Algorithm → Identified CanonicalIdentity
  normalize_rs_jwks a token kid alg = do
    url ← ok_or (jwt "jwks_url not configured for RS JWT") a.jwks_url
    keys ← map_err jwt (fetch_jwks url)
    jwk ← ok_or (jwt "no matching JWK") (find (fits kid) keys)
    n ← ok_or (jwt "jwk missing n") jwk.n
    e ← ok_or (jwt "jwk missing e") jwk.e
    key ← map_err jwt (from_rsa_components n e)
    claims ← map_err jwt (decode token key (record { alg = alg; validate_exp = a.require_exp }))
    ok (claims_to_identity claims "jwt-jwks")

  -- what is done for an algorithm
  unfoldable pub normalize_by :
      JwtOidcAdapter → String → Option String → Algorithm → Identified CanonicalIdentity
  normalize_by a token kid hs256 = normalize_hs256 a token
  normalize_by a token kid hs384 = normalize_hs256 a token
  normalize_by a token kid hs512 = normalize_hs256 a token
  normalize_by a token kid rs256 = normalize_rs_jwks a token kid rs256
  normalize_by a token kid rs384 = normalize_rs_jwks a token kid rs384
  normalize_by a token kid rs512 = normalize_rs_jwks a token kid rs512
  normalize_by a token kid (other name) = err (jwt ("unsupported alg " ^^ name))

  unfoldable pub normalize : JwtOidcAdapter → String → Identified CanonicalIdentity
  unfolding normalize_by
  normalize a token = do
    header ← map_err jwt (decode_header token)
    normalize_by a token header.kid header.alg
