-- ===== src/Core/Builder/Laws.antt =====
-- What a request holds that crates/authz-core/src/builder.rs has built.
use paac.Prelude.{
  String, ◌≡◌, none, some, List, [], ◌∷◌, lookup, lookup-insert, ok, ◌>>=◌, length, join, show_nat,
  trim, false, arith,
}
use paac.Prelude.Trim.{trim_idem}
use paac.Core.Request.{AuthzRequest, is_blank, validate, action_new, resource_of_kind, with_roles}
use paac.Core.Ids.{new}
use paac.Core.Builder.{
  AuthzRequestBuilder, empty, principal, action, of_kind, record_delegation, build,
}

-- A built request is valid, and each of its parts is the builder's; the context is the builder's
-- with the delegation chain recorded in it.
pub record IsBuiltFrom (b : AuthzRequestBuilder) (req : AuthzRequest) : Type 0 where
  pub valid : validate req ≡ ok tt
  pub principal : b.principal ≡ some req.principal
  pub action : b.action ≡ some req.action
  pub resource : b.resource ≡ some req.resource
  pub subject : b.subject ≡ req.subject
  pub context : req.context.values ≡ record_delegation b.delegation_chain b.context.values
  pub relationships : b.relationships ≡ req.relationships
  pub acting_as : b.acting_as ≡ req.acting_as
  pub on_behalf_of : b.on_behalf_of ≡ req.on_behalf_of

-- `build` succeeds only with a valid request that is made of the builder's parts.
pub build-IsBuiltFrom :
    (b : AuthzRequestBuilder) (req : AuthzRequest) → build b ≡ ok req → IsBuiltFrom b req
unfolding build
build-IsBuiltFrom b req h = ground arith

-- A principal, an action and a resource kind that are not blank are enough: the request is built,
-- with the trimmed texts, no subject, an empty context and nobody acted for.
pub build_of_texts :
    (id name kind : String) (roles : List String)
    → is_blank id ≡ false
    → is_blank name ≡ false
    → is_blank kind ≡ false
    → (do b1 ← principal id roles empty; b2 ← action name b1; b3 ← of_kind kind b2; build b3)
      ≡ ok (record {
        principal = with_roles (trim id) roles;
        action = action_new (trim name);
        resource = resource_of_kind (trim kind);
        subject = none;
        context = record { values = [] };
        relationships = [];
        acting_as = none;
        on_behalf_of = none;
      })
unfolding build principal action of_kind new validate with_roles action_new resource_of_kind
build_of_texts id name kind roles hi hn hk = simp (trim_idem, hi, hn, hk)

-- A recorded chain is what the context says, whatever the context said before.
pub lookup-record_delegation :
    (hop : String) (hops : List String) (values : List (String × String))
    → (lookup "delegation_chain" (record_delegation (hop ∷ hops) values)
        ≡ some (join ">" (hop ∷ hops)))
      × (lookup "delegation_depth" (record_delegation (hop ∷ hops) values)
          ≡ some (show_nat (length (hop ∷ hops))))
unfolding record_delegation
lookup-record_delegation hop hops values = (simp lookup-insert, simp lookup-insert)
