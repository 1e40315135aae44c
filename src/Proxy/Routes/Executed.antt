-- ===== src/Proxy/Routes/Executed.antt =====
-- Which tool calls the connector of crates/authz-llm-proxy/src/routes.rs executes.
use mathlib.Core.List.{append_assoc, append-nil}
use paac.Prelude.{
  ◌≡◌, inl, inr, refl, sym, ap, ◌∙◌, List, [], ◌∷◌, ◌++◌, map, All, Bool-cases, Option-cases,
}
use paac.Core.Request.{Principal}
use paac.Core.Decision.{is_allow}
use paac.Core.Cedar.{Cedar}
use paac.Core.HotCache.{BundleCache}
use paac.Json.{Json, as_array}
use paac.Catalog.{ResourceCatalog}
use paac.Proxy.State.{World, AppState, and_then-state, ask, count_check, count_deny, count_allow}
use paac.Proxy.Routes.{let_through, asked, filter_calls, filter_tool_calls}
use paac.Proxy.Routes.Filter.{Keeps-trans, asked-Keeps, let_through-Keeps, count_deny-Keeps}
use paac.Proxy.Routes.Allowed.{is_allow_iff, tool_call, IsAllowed, OnlyAllowed, asked-IsDecided}

module _ {A : Type 0} where
  All-append : (P : A → Type 0) (xs ys : List A) → All P xs → All P ys → All P (xs ++ ys)
  All-append P [] ys h k = k
  All-append P (x ∷ xs) ys h k = (h.0, All-append P xs ys h.1 k)

module _ {A B : Type 0} where
  map-append : (f : A → B) (xs ys : List A) → map f (xs ++ ys) ≡ map f xs ++ map f ys
  map-append f [] ys = refl
  map-append f (x ∷ xs) ys = rw (map-append f xs ys)

module _ (engine : Cedar) (w : World) (principal : Principal) (catalog : ResourceCatalog)
    (bundle : BundleCache engine) where
  abbrev pub Only : AppState engine → AppState engine → Type 0
  Only = OnlyAllowed engine w principal catalog bundle

  pub Only-same : (s t : AppState engine) → t.executed ≡ s.executed → Only s t
  Only-same s t h = ([], h ∙ sym (append-nil s.executed), tt)

  pub Only-trans : (s t u : AppState engine) → Only s t → Only t u → Only s u
  Only-trans s t u (xs, h, hs) (ys, k, ks) = (
    xs ++ ys,
    k
        ∙ (ap (λ e. e ++ map (tool_call w) ys) h
            ∙ (append_assoc s.executed (map (tool_call w) xs) (map (tool_call w) ys)
                ∙ ap (λ e. s.executed ++ e) (sym (map-append (tool_call w) xs ys)))),
    All-append (IsAllowed engine w principal catalog bundle) xs ys hs ks,
  )

  let_through-Only :
      (tc : Json) (s : AppState engine)
      → IsAllowed engine w principal catalog bundle tc
      → Only s (let_through engine w tc s)
  unfolding let_through count_allow
  let_through-Only tc s h = elim (Bool-cases s.cfg.connectors.execute_tools) [
    | inl on ↦ (tc ∷ [], rw (let_through, on) refl, (h, tt))
    | inr off ↦ Only-same s (let_through engine w tc s) (rw (let_through, off) refl)
  ]

  asked-executed :
      (tc : Json) (s : AppState engine) → (asked engine w principal tc s).1.executed ≡ s.executed
  unfolding asked ask count_check
  asked-executed tc s = refl

  filter_calls-Only :
      (tcs : List Json) (s : AppState engine)
      → s.engine.catalog ≡ catalog
      → s.engine.bundle ≡ bundle
      → Only s (filter_calls engine w principal tcs s).1
  unfolding filter_calls count_deny
  filter_calls-Only [] s c b = Only-same s s refl
  filter_calls-Only (tc ∷ tcs) s c b =
      let k = asked-Keeps engine w principal tc s in
      let t = (asked engine w principal tc s).1 in
      let same = Only-same s t (asked-executed tc s) in
      and_then-state engine (Only s) (asked engine w principal tc) _ s same (λ d decided.
        elim (Bool-cases (is_allow d.effect)) [
          | inl allowed ↦
              let through = let_through engine w tc t in
              let told : IsAllowed engine w principal catalog bundle tc = (
                d,
                asked-IsDecided engine w principal catalog bundle tc s c b decided,
                (is_allow_iff d.effect).0 allowed,
              ) in
              let l = Keeps-trans engine k (let_through-Keeps engine w principal tc t) in
              let here = Only-trans s t through same (let_through-Only tc t told) in
              let later =
                Only-trans s through (filter_calls engine w principal tcs through).1 here
                  (filter_calls-Only tcs through (l.catalog ∙ c) (l.bundle ∙ b)) in
              rw allowed (
                and_then-state engine (Only s) (filter_calls engine w principal tcs) _ through later
                  (λ out _. later))
          | inr refused ↦
              let l = Keeps-trans engine k (count_deny-Keeps engine w principal t) in
              let later =
                filter_calls-Only tcs (count_deny engine t) (l.catalog ∙ c) (l.bundle ∙ b) in
              let last = (filter_calls engine w principal tcs (count_deny engine t)).1 in
              let skipped =
                Only-trans s t (count_deny engine t) same
                  (Only-same t (count_deny engine t) refl) in
              rw refused (Only-trans s (count_deny engine t) last skipped later)
        ])

  -- Whatever the outcome of filtering a message's tool calls, the calls that the connector executed
  -- in it are calls that the policies allow, in their order.
  pub filter_tool_calls-OnlyAllowed :
      (tcs : Json) (s : AppState engine)
      → s.engine.catalog ≡ catalog
      → s.engine.bundle ≡ bundle
      → OnlyAllowed engine w principal catalog bundle s
          (filter_tool_calls engine w principal tcs s).1
  unfolding filter_tool_calls
  filter_tool_calls-OnlyAllowed tcs s c b = elim (Option-cases (as_array tcs)) [
    | inl absent ↦ rw (filter_tool_calls, absent) (Only-same s s refl)
    | inr (arr, listed) ↦ rw (filter_tool_calls, listed) (filter_calls-Only arr s c b)
  ]
