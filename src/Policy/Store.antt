-- ===== src/Policy/Store.antt =====
-- crates/authz-policy/src/store.rs: the policy store, over the files below its root. The disk is
-- taken not to fail, and a revision's JSON to read back as it was written.
pub mod Lifecycle
pub mod Drafts
use paac.Prelude.{
  String, ◌^^◌, Bool, true, Option, none, some, List, [], ◌∷◌, IndexMap, lookup, insert, keys, ok,
  err, ok_or, ◌>>=◌, ◌>>◌, map_err, or_else, is_none, is_nil, is_empty, reject_if, trim, lines,
  str_eq, if◌then◌else◌,
}
use paac.Core.Cedar.{Cedar}
use paac.Policy.Error.{PolicyError, Fallible, store, validation, cedar, io}
use paac.Policy.Dsl.{DslPolicy, parse_dsl}
use paac.Policy.Translate.{dsl_to_cedar, cedar_policy_set_from_dsl, validate_cedar_policy_set}
use paac.Policy.Sign.{Crypto, SignedBundle, BundleSigner, sign_bundle}

pub record PolicyRevision : Type 0 where
  pub revision : String
  pub message : String
  pub created_at : String
  pub cedar : String
  pub dsl : String
  pub bundle : Option SignedBundle

-- The files: active.dsl, HEAD, revisions/*.json, deployed/current.json and drafts/*.dsl.
pub record Disk : Type 0 where
  pub active : Option String
  pub head : Option String
  pub revisions : IndexMap PolicyRevision
  pub deployed : Option PolicyRevision
  pub drafts : IndexMap String

-- `open` on a directory that holds nothing.
abbrev pub empty_disk : Disk
empty_disk = record { active = none; head = none; revisions = []; deployed = none; drafts = [] }

unfoldable pub write_active_dsl : String → Disk → Disk
write_active_dsl dsl d = record d { active = some dsl }

unfoldable pub read_active_dsl : Disk → String
read_active_dsl d = or_else d.active ""

unfoldable pub head_revision : Disk → Option String
head_revision d = elim d.head [ none ↦ none | some text ↦ some (trim text) ]

unfoldable pub load_revision : String → Disk → Fallible PolicyRevision
load_revision revision d = ok_or (io "No such file or directory") (lookup revision d.revisions)

unfoldable pub load_deployed : Disk → Option PolicyRevision
load_deployed d = d.deployed

unfoldable pub write_draft : String → String → Disk → Disk
write_draft name dsl d = record d { drafts = insert name dsl d.drafts }

unfoldable pub deploy_head : Disk → Fallible (PolicyRevision × Disk)
deploy_head d = do
  rev_id ← ok_or (store "no HEAD revision") (head_revision d)
  rev ← load_revision rev_id d
  reject_if (is_none rev.bundle) (store "HEAD is not signed; run policy sign first")
      (ok (rev, record d { deployed = some rev }))

-- The clock at a commit, and the name that the commit gives: the first 8 bytes, in hexadecimal, of
-- the digest of the Cedar text, the message and the seconds.
pub record Clock : Type 0 where
  pub seconds : String
  pub rfc3339 : String
  pub revision_id : String → String → String → String

-- one line of a difference, if it is not empty
unfoldable pub diff_line : String → String → String
diff_line mark line = if is_empty line then "" else mark ^^ (line ^^ "\n")

unfoldable pub diff_pair : String → String → String
unfolding diff_line
diff_pair a b = if str_eq a b then "" else diff_line "- " a ^^ diff_line "+ " b

-- the loop over the positions up to the longer side; what is missing reads ""
unfoldable pub diff_lines : List String → List String → String
unfolding diff_pair
diff_lines [] [] = ""
diff_lines (a ∷ old) [] = diff_pair a "" ^^ diff_lines old []
diff_lines [] (b ∷ new) = diff_pair "" b ^^ diff_lines [] new
diff_lines (a ∷ old) (b ∷ new) = diff_pair a b ^^ diff_lines old new

unfoldable pub simple_diff : String → String → String
unfolding diff_lines
simple_diff old new =
    let out = diff_lines (lines old) (lines new) in
    if is_empty out then "(no differences)\n" else out

unfoldable pub diff_active_vs_revision : String → Disk → Fallible String
diff_active_vs_revision revision d = do
  rev ← load_revision revision d
  ok (simple_diff rev.dsl (read_active_dsl d))

module _ (engine : Cedar) (schema : String) where
  open engine use {PolicySet, parse_policy_set}

  unfoldable pub validate_dsl : String → Fallible (List DslPolicy)
  validate_dsl dsl = do
    policies ← parse_dsl dsl
    _ ← dsl_to_cedar policies
    set ← cedar_policy_set_from_dsl engine policies
    validate_cedar_policy_set engine schema set
    reject_if (is_nil policies) (validation "no policies found") (ok policies)

  unfoldable pub policy_set_from_deployed : Disk → Fallible (PolicySet × PolicyRevision)
  policy_set_from_deployed d = do
    rev ← ok_or (store "no deployed policy bundle") (load_deployed d)
    set ← map_err cedar (parse_policy_set rev.cedar)
    ok (set, rev)

  unfoldable pub commit : Clock → String → Disk → Fallible (PolicyRevision × Disk)
  commit clock message d = do
    let dsl = read_active_dsl d
    policies ← validate_dsl dsl
    text ← dsl_to_cedar policies
    let revision = clock.revision_id text message clock.seconds
    let rev : PolicyRevision = record {
      revision = revision;
      message = message;
      created_at = clock.rfc3339;
      cedar = text;
      dsl = dsl;
      bundle = none;
    }
    ok (rev, record d { revisions = insert revision rev d.revisions; head = some revision })

module _ (lib : Crypto) where
  unfoldable pub sign_head : BundleSigner lib → String → Disk → Fallible (SignedBundle × Disk)
  sign_head signer now d = do
    rev_id ← ok_or (store "no HEAD revision; run policy commit first") (head_revision d)
    rev ← load_revision rev_id d
    bundle ← sign_bundle lib signer rev.revision rev.cedar rev.dsl now
    ok (
      bundle,
      record d { revisions = insert rev_id (record rev { bundle = some bundle }) d.revisions },
    )
