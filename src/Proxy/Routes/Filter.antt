-- ===== src/Proxy/Routes/Filter.antt =====
-- What the handlers of crates/authz-llm-proxy/src/routes.rs do to the tool calls of a reply.
use paac.Prelude.{
  Bool, true, false, ◌≡◌, inl, inr, refl, ◌∙◌, List, [], ◌∷◌, ok, err, panic, arith, Option-cases,
}
use paac.Core.Request.{Principal, AuthzRequest}
use paac.Core.Decision.{AuthzDecision, Stamp, is_allow}
use paac.Core.Cedar.{Cedar}
use paac.Core.Evaluate.{evaluate}
use paac.Core.HotCache.{BundleCache, load, to_evaluator_config}
use paac.Json.{Json, get, as_array}
use paac.Proxy.Error.{Proxied}
use paac.Proxy.Engine.Laws.{check-answered, check-keeps}
use paac.Proxy.State.{
  World, AppState, Handler, go_on, and_then, branch, count_check, count_deny, count_allow, ask,
}
use paac.Proxy.Routes.{
  let_through, tool_request, asked, filter_calls, filter_tool_calls, filter_choice, filter_choices,
  filter_reply,
}

module _ (engine : Cedar) where
  -- What no handler changes, and the requests that were sent so far.
  pub record Keeps (s t : AppState engine) : Type 0 where
    pub bundle : t.engine.bundle ≡ s.engine.bundle
    pub catalog : t.engine.catalog ≡ s.engine.catalog
    pub cfg : t.cfg ≡ s.cfg
    pub sent : t.sent ≡ s.sent

  pub Keeps-refl : (s : AppState engine) → Keeps s s
  Keeps-refl s = record { bundle = refl; catalog = refl; cfg = refl; sent = refl }

  pub Keeps-trans : {s t u : AppState engine} → Keeps s t → Keeps t u → Keeps s u
  Keeps-trans k l = record {
    bundle = l.bundle ∙ k.bundle;
    catalog = l.catalog ∙ k.catalog;
    cfg = l.cfg ∙ k.cfg;
    sent = l.sent ∙ k.sent;
  }

  pub and_then-Keeps :
      {A B : Type 0} (m : Handler engine A) (f : A → Handler engine B)
      → ((s : AppState engine) → Keeps s (m s).1)
      → ((a : A) (s : AppState engine) → Keeps s (f a s).1)
      → (s : AppState engine) → Keeps s (and_then engine m f s).1
  unfolding and_then
  and_then-Keeps {A} {B} m f first second s = go (m s) (first s)
    where
      go : (r : Proxied A × AppState engine) → Keeps s r.1 → Keeps s (go_on engine f r).1
      go (ok a, t) k = Keeps-trans k (second a t)
      go (err e, t) k = k
      go (panic, t) k = k

  branch-Keeps :
      {A : Type 0} (b : Bool) (m n : Handler engine A) (s : AppState engine)
      → Keeps s (m s).1
      → Keeps s (n s).1
      → Keeps s (branch engine b m n s).1
  branch-Keeps true m n s k l = k
  branch-Keeps false m n s k l = l

  pub ask-Keeps :
      (w : World) (req : AuthzRequest) (s : AppState engine) → Keeps s (ask engine w req s).1
  unfolding ask
  ask-Keeps w req s =
      let (b, c) = check-keeps engine (w.stamp s.drawn) (w.latency s.drawn) req s.engine in
      record { bundle = b; catalog = c; cfg = refl; sent = refl }

  -- The kernel's decision on a request under a bundle, at some time.
  abbrev pub IsDecided : BundleCache engine → AuthzRequest → AuthzDecision → Type 0
  IsDecided bundle req d =
      (stamp : Stamp) × (evaluate engine stamp req (to_evaluator_config engine (load engine bundle))
        ≡ ok d)

  pub ask-IsDecided :
      (w : World) (req : AuthzRequest) (s : AppState engine) {d : AuthzDecision}
      → (ask engine w req s).0 ≡ ok d
      → IsDecided s.engine.bundle req d
  unfolding ask
  ask-IsDecided w req s {d} h = (
    w.stamp s.drawn,
    (check-answered engine (w.stamp s.drawn) (w.latency s.drawn) req s.engine d h).1,
  )

  module _ (w : World) (principal : Principal) where
    pub let_through-Keeps : (tc : Json) (s : AppState engine) → Keeps s (let_through engine w tc s)
    unfolding let_through count_allow
    let_through-Keeps tc s = record {
      bundle = ground arith;
      catalog = ground arith;
      cfg = ground arith;
      sent = ground arith;
    }

    pub asked-Keeps : (tc : Json) (s : AppState engine) → Keeps s (asked engine w principal tc s).1
    unfolding asked count_check
    asked-Keeps tc s =
        let k = ask-Keeps w (tool_request engine w s principal tc) (count_check engine s) in
        record { bundle = k.bundle; catalog = k.catalog; cfg = k.cfg; sent = k.sent }

    pub count_deny-Keeps : (s : AppState engine) → Keeps s (count_deny engine s)
    unfolding count_deny
    count_deny-Keeps s = record { bundle = refl; catalog = refl; cfg = refl; sent = refl }

    pub filter_calls-Keeps :
        (tcs : List Json) (s : AppState engine) → Keeps s (filter_calls engine w principal tcs s).1
    unfolding filter_calls
    filter_calls-Keeps [] s = Keeps-refl s
    filter_calls-Keeps (tc ∷ tcs) s =
        and_then-Keeps (asked engine w principal tc) _ (asked-Keeps tc)
          (λ d t.
            branch-Keeps (is_allow d.effect) _ _ t
              (Keeps-trans (let_through-Keeps tc t) (
                and_then-Keeps (filter_calls engine w principal tcs) _ (filter_calls-Keeps tcs)
                  (λ out u. Keeps-refl u) (let_through engine w tc t)))
              (Keeps-trans (count_deny-Keeps t) (filter_calls-Keeps tcs (count_deny engine t))))
          s

    filter_tool_calls-Keeps :
        (tcs : Json) (s : AppState engine) → Keeps s (filter_tool_calls engine w principal tcs s).1
    unfolding filter_tool_calls
    filter_tool_calls-Keeps tcs s = elim (Option-cases (as_array tcs)) [
      | inl absent ↦ rw (filter_tool_calls, absent) (Keeps-refl s)
      | inr (arr, listed) ↦ rw (filter_tool_calls, listed) (filter_calls-Keeps arr s)
    ]

    pub filter_choice-Keeps :
        (choice : Json) (s : AppState engine)
        → Keeps s (filter_choice engine w principal choice s).1
    unfolding filter_choice
    filter_choice-Keeps choice s = elim (Option-cases (get "message" choice)) [
      | inl absent ↦ rw (filter_choice, absent) (Keeps-refl s)
      | inr (msg, has_msg) ↦ elim (Option-cases (get "tool_calls" msg)) [
        | inl absent ↦ rw (filter_choice, has_msg, absent) (Keeps-refl s)
        | inr (tcs, listed) ↦
            rw (filter_choice, has_msg, listed)
              (and_then-Keeps (filter_tool_calls engine w principal tcs) _
                (filter_tool_calls-Keeps tcs) (λ out t. Keeps-refl t) s)
      ]
    ]

    filter_choices-Keeps :
        (cs : List Json) (s : AppState engine) → Keeps s (filter_choices engine w principal cs s).1
    unfolding filter_choices
    filter_choices-Keeps [] s = Keeps-refl s
    filter_choices-Keeps (c ∷ cs) s =
        and_then-Keeps (filter_choice engine w principal c) _ (filter_choice-Keeps c)
          (λ d.
            and_then-Keeps (filter_choices engine w principal cs) _ (filter_choices-Keeps cs)
              (λ ds t. Keeps-refl t))
          s

    -- Whatever a reply of the upstream holds, filtering it sends nothing and changes neither the
    -- bundle, nor the catalog, nor the settings.
    pub filter_reply-Keeps :
        (reply : Json) (s : AppState engine) → Keeps s (filter_reply engine w principal reply s).1
    unfolding filter_reply
    filter_reply-Keeps reply s = elim (Option-cases (get "choices" reply)) [
      | inl absent ↦ rw (filter_reply, absent) (Keeps-refl s)
      | inr (choices, found) ↦ elim (Option-cases (as_array choices)) [
        | inl absent ↦ rw (filter_reply, found, absent) (Keeps-refl s)
        | inr (cs, listed) ↦
            rw (filter_reply, found, listed)
              (and_then-Keeps (filter_choices engine w principal cs) _ (filter_choices-Keeps cs)
                (λ ds t. Keeps-refl t) s)
      ]
    ]
