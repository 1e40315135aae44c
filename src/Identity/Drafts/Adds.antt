-- ===== src/Identity/Drafts/Adds.antt =====
-- What crates/authz-identity/src drafts from the groups of a snapshot is read by the parser of
-- crates/authz-policy/src/dsl.rs as the policies that are meant.
use paac.Prelude.{String, ◌^^◌, refl, List, [], ◌∷◌, ◌++◌}
use paac.Policy.Dsl.{DslPolicy, partial_new, finish, close, ParseState}
use paac.Identity.Drafts.Blocks.{
  IsOneLine, header_line, role_line, allow_line, roles_of, self_profile_policy, protect_policy,
  payroll_policy,
}
use paac.Identity.Drafts.Steps.{
  Runs, Runs-known, Runs-blank, opened, IsReady, add_raw, allowed, denied, of_self, of_executives,
  excepting, with_role, allow-step, self-step, deny_read-step, executives-step, officers-step,
  deny_export-step, admin-step, Runs-header, Runs-role, read-allow, read_self, reads, blank,
}

-- Lines that add policies to those that are known.
unfoldable pub Adds : List String → List DslPolicy → Type 0
Adds ls qs =
    (st : ParseState) (ps : List DslPolicy)
    → IsReady st ps
    → (st' : ParseState) × Runs ls st st' × IsReady st' (ps ++ qs)

pub Adds-self_profile :
    (name gid : String)
    → IsOneLine name
    → IsOneLine gid
    → Adds
        (header_line name ∷ (role_line gid ∷ (allow_line ∷ ("where subject == SELF" ∷ ("" ∷ [])))))
        (self_profile_policy name gid (roles_of gid) ∷ [])
unfolding Adds close finish with_role allowed of_self add_raw partial_new ◌^^◌
Adds-self_profile name gid named h st ps ready =
    let p2 = with_role name gid in
    let p4 = of_self (allowed p2) in
    let known =
      Runs-known allow_line ("where subject == SELF" ∷ ("" ∷ [])) (opened ps p2)
        (opened ps (allowed p2)) (opened ps p4) read-allow refl (allow-step ps p2)
        (Runs-known "where subject == SELF" ("" ∷ []) (opened ps (allowed p2)) (opened ps p4)
          (opened ps p4) read_self refl (self-step ps (allowed p2))
          (Runs-blank "" (opened ps p4) blank)) in
    (
      opened ps p4,
      Runs-header name (role_line gid ∷ (allow_line ∷ ("where subject == SELF" ∷ ("" ∷ [])))) st
          (opened ps p4) ps named ready
          (Runs-role name gid (allow_line ∷ ("where subject == SELF" ∷ ("" ∷ []))) (opened ps p4) ps
            h known),
      refl,
    )

pub Adds-protect :
    (name : String)
    → IsOneLine name
    → Adds
        (header_line name
          ∷ ("deny READ TRAVEL_EXPENSE"
              ∷ ("where subject in EXECUTIVE_GROUP" ∷ ("unless role in [CFO, CEO]" ∷ ("" ∷ [])))))
        (protect_policy name ∷ [])
unfolding Adds close finish denied of_executives excepting add_raw partial_new ◌^^◌
Adds-protect name named st ps ready =
    let p1 = partial_new name (header_line name) in
    let p2 = denied "deny READ TRAVEL_EXPENSE" "READ" "TRAVEL_EXPENSE" p1 in
    let p3 = of_executives p2 in
    let p4 = excepting "unless role in [CFO, CEO]" ("CFO" ∷ ("CEO" ∷ [])) p3 in
    let known =
      Runs-known "deny READ TRAVEL_EXPENSE"
        ("where subject in EXECUTIVE_GROUP" ∷ ("unless role in [CFO, CEO]" ∷ ("" ∷ [])))
        (opened ps p1) (opened ps p2) (opened ps p4) reads.0 refl (deny_read-step ps p1)
        (Runs-known "where subject in EXECUTIVE_GROUP" ("unless role in [CFO, CEO]" ∷ ("" ∷ []))
          (opened ps p2) (opened ps p3) (opened ps p4) reads.1 refl (executives-step ps p2)
          (Runs-known "unless role in [CFO, CEO]" ("" ∷ []) (opened ps p3) (opened ps p4)
            (opened ps p4) reads.2 refl (officers-step ps p3)
            (Runs-blank "" (opened ps p4) blank))) in
    (
      opened ps p4,
      Runs-header name
          ("deny READ TRAVEL_EXPENSE"
            ∷ ("where subject in EXECUTIVE_GROUP" ∷ ("unless role in [CFO, CEO]" ∷ ("" ∷ []))))
          st (opened ps p4) ps named ready known,
      refl,
    )

pub Adds-payroll :
    (name : String)
    → IsOneLine name
    → Adds
        (header_line name ∷ ("deny EXPORT SALARY" ∷ ("unless role == PAYROLL_ADMIN" ∷ ("" ∷ []))))
        (payroll_policy name ∷ [])
unfolding Adds close finish denied excepting add_raw partial_new ◌^^◌
Adds-payroll name named st ps ready =
    let p1 = partial_new name (header_line name) in
    let p2 = denied "deny EXPORT SALARY" "EXPORT" "SALARY" p1 in
    let p3 = excepting "unless role == PAYROLL_ADMIN" ("PAYROLL_ADMIN" ∷ []) p2 in
    let known =
      Runs-known "deny EXPORT SALARY" ("unless role == PAYROLL_ADMIN" ∷ ("" ∷ [])) (opened ps p1)
        (opened ps p2) (opened ps p3) reads.3 refl (deny_export-step ps p1)
        (Runs-known "unless role == PAYROLL_ADMIN" ("" ∷ []) (opened ps p2) (opened ps p3)
          (opened ps p3) reads.4 refl (admin-step ps p2) (Runs-blank "" (opened ps p3) blank)) in
    (
      opened ps p3,
      Runs-header name ("deny EXPORT SALARY" ∷ ("unless role == PAYROLL_ADMIN" ∷ ("" ∷ []))) st
          (opened ps p3) ps named ready known,
      refl,
    )
