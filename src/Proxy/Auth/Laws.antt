-- ===== src/Proxy/Auth/Laws.antt =====
-- Where a principal of crates/authz-llm-proxy/src/auth.rs can come from.
use Prim.Native.Nat.{ℕ, ◌-◌, ◌≤◌}
use paac.Prelude.{
  String, ◌≡◌, inl, inr, refl, sym, subst, none, some, ok, err, panic, map_err, arith, str_eq,
  eq_iff, eq_refl, Option-cases, Bool-cases, ok-injective,
}
use paac.Core.Request.{Principal}
use paac.Identity.Model.{CanonicalIdentity, Identified}
use paac.Identity.Cache.{IdentityCache, get, put}
use paac.Identity.Cache.Laws.{get-put}
use paac.Identity.Jwt.{JwtLib, JwtOidcAdapter, normalize}
use paac.Proxy.Error.{unauthorized, show_identity}
use paac.Proxy.Config.{production, ProxyConfig, is_production}
use paac.Proxy.Auth.{
  Headers, identity_to_principal, cache_key, bearer_token, must_verify, header_principal, identify,
  remember, resolve_token, resolve_principal, or_missing,
}

module _ (lib : JwtLib) (jwt : JwtOidcAdapter) where
  -- Every identity that the cache can give was made of a verified token with that key.
  pub record IsVerified (c : IdentityCache) : Type 0 where
    pub verified :
        (now : ℕ) (k : String) (id : CanonicalIdentity)
        → get now k c ≡ some id
        → (token : String) × (cache_key token ≡ k) × (normalize lib jwt token ≡ ok id)

  -- The principal is that of a verified token with the same key in the cache.
  abbrev pub IsProven : String → Principal → Type 0
  IsProven token p =
      (id : CanonicalIdentity) × (t : String) × (cache_key t ≡ cache_key token)
      × (normalize lib jwt t ≡ ok id)
      × (p ≡ identity_to_principal id)

  put-IsVerified :
      (now : ℕ) (token source : String) (id : CanonicalIdentity) (c : IdentityCache)
      → normalize lib jwt token ≡ ok id
      → IsVerified c
      → IsVerified (put now (cache_key token) id source c)
  put-IsVerified now token source id c h v = record {
    verified = λ later k other found.
        let step = get-put c now later (cache_key token) k id source in
        elim (Bool-cases (str_eq (cache_key token) k)) [
          | inl same ↦
              let it : id ≡ other = ground arith in
              (
                token,
                ground (arith, eq_iff (cache_key token) k),
                subst (λ i. normalize lib jwt token ≡ ok i) it h,
              )
          | inr differs ↦ v.verified later k other (ground arith)
        ];
  }

  module _ (cfg : ProxyConfig) (prod : cfg.mode ≡ production) where
    identify-verified : (token : String) → identify lib cfg jwt token ≡ normalize lib jwt token
    unfolding identify must_verify
    identify-verified token = rw prod

    remember-IsProven :
        (now : ℕ) (token : String) (c : IdentityCache) (r : Identified CanonicalIdentity)
        → normalize lib jwt token ≡ r
        → IsVerified c
        → (let out =
              remember lib now
                (cache_key token)
                c
                (map_err (λ e. unauthorized (show_identity e)) r) in
            IsVerified out.1 × ((p : Principal) → out.0 ≡ ok p → IsProven token p))
    unfolding remember
    remember-IsProven now token c (ok id) h v = (
      put-IsVerified now token id.source id c h v,
      λ p made. (id, token, refl, h, sym (ok-injective made)),
    )
    remember-IsProven now token c (err e) h v = (v, λ p made. cc)
    remember-IsProven now token c panic h v = (v, λ p made. cc)

    resolve_token-IsProven :
        (now : ℕ) (token : String) (c : IdentityCache)
        → IsVerified c
        → (let out = resolve_token lib now cfg jwt token c in
            IsVerified out.1 × ((p : Principal) → out.0 ≡ ok p → IsProven token p))
    unfolding resolve_token
    resolve_token-IsProven now token c v = elim (Option-cases (get now (cache_key token) c)) [
      | inl absent ↦
          rw (resolve_token, absent, identify-verified token)
            (remember-IsProven now token c (normalize lib jwt token) refl v)
      | inr (id, present) ↦
          let (t, key, proven) = v.verified now (cache_key token) id present in
          rw (resolve_token, present) (v, λ p made. (id, t, key, proven, sym (ok-injective made)))
    ]

    from_headers :
        (headers : Headers) {p : Principal}
        → or_missing (is_production cfg.mode) (header_principal headers cfg) ≡ ok p
        → ⊥
    unfolding header_principal
    from_headers headers made = ground arith

    -- In production, with a cache of verified identities, the headers that anybody can set give
    -- nobody an identity: a principal is that of a token which was verified, and which has the same
    -- key in the cache as the bearer token of the request.
    pub resolve_principal-production :
        (now : ℕ) (headers : Headers) (c : IdentityCache) (p : Principal)
        → IsVerified c
        → (resolve_principal lib now headers cfg jwt c).0 ≡ ok p
        → (token : String) × (bearer_token headers ≡ some token) × IsProven token p
    unfolding resolve_principal
    resolve_principal-production now headers c p v made =
        elim (Option-cases (bearer_token headers)) [
          | inl absent ↦ absurd (from_headers headers (rw (absent, resolve_principal) at made))
          | inr (token, present) ↦ (
            token,
            present,
            (resolve_token-IsProven now token c v).1 p (rw (present, resolve_principal) at made),
          )
        ]

    -- In production, a request leaves the cache one of verified identities.
    pub resolve_principal-IsVerified :
        (now : ℕ) (headers : Headers) (c : IdentityCache)
        → IsVerified c
        → IsVerified (resolve_principal lib now headers cfg jwt c).1
    unfolding resolve_principal
    resolve_principal-IsVerified now headers c v = elim (Option-cases (bearer_token headers)) [
      | inl absent ↦ rw (resolve_principal, absent) v
      | inr (token, present) ↦
          rw (resolve_principal, present) (resolve_token-IsProven now token c v).0
    ]

  -- A token whose key in the cache is that of another one, which was not in the cache before and
  -- was identified no longer ago than the lifetime, gets the other one's principal, whether or not
  -- it could be verified itself.
  pub resolve_token_shared :
      (cfg : ProxyConfig) (now later : ℕ) (t u : String) (c : IdentityCache)
      (id : CanonicalIdentity)
      → cache_key u ≡ cache_key t
      → get now (cache_key t) c ≡ none
      → identify lib cfg jwt t ≡ ok id
      → later - now ≤ c.ttl
      → (resolve_token lib later cfg jwt u (resolve_token lib now cfg jwt t c).1).0
        ≡ ok (identity_to_principal id)
  unfolding resolve_token remember
  resolve_token_shared cfg now later t u c id same absent known fresh =
      let step = get-put c now later (cache_key t) (cache_key t) id id.source in
      let there : get later (cache_key t) (put now (cache_key t) id id.source c) ≡ some id =
        ground (arith, eq_refl (cache_key t)) in
      rw (resolve_token, absent, known, remember, same, there) refl
