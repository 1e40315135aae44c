-- ===== src/Examples/Policies.antt =====
-- Tests of the policy crate in crates/authz-policy/src.
use paac.Prelude.{
  ◌≢◌, ◌⊎◌, String, Bool, true, false, ◌≡◌, ◌↔◌, refl, Option, none, some, List, [], ◌∷◌, map, ok,
  err, panic, lines, or_else,
}
use paac.Policy.Error.{Fallible}
use paac.Policy.Dsl.{DslPolicy, parse_dsl}
use paac.Policy.Dsl.Shape.{headers, parse_dsl-headers}
use paac.Policy.Translate.{dsl_to_cedar}
use paac.Policy.Sign.{
  SignedBundle, BundleSigner, local_signer, content_digest, sign_bundle, verify_signature,
  verify_bundle,
}
use paac.Policy.Sign.Laws.{verify_bundle-sign_bundle, Answers, verify_bundle_iff}
use paac.Policy.Store.{
  PolicyRevision, Disk, Clock, empty_disk, write_active_dsl, commit, sign_head, deploy_head,
}
use paac.Policy.Store.Lifecycle.{
  Reach, start, next, edit, commits, signs, deploys, IsSound, Reach-IsSound, IsTrimmedName,
}
use paac.Examples.Toy.{kernel, crypto, crypto_laws}

abbrev text : String
text =
    "policy \"hr_read\"\nwhen role == HR_HEAD\nallow READ TRAVEL_EXPENSE\nwhere subject == SELF\n\npolicy \"salary_export\"\ndeny EXPORT SALARY\nunless role == PAYROLL_ADMIN\n"

-- The value of a result that is there.
abbrev value : {A : Type 0} → A → Fallible A → A
value a (ok b) = b
value a (err e) = a
value a panic = a

abbrev policies : List DslPolicy
policies = value [] (parse_dsl text)

parsed : parse_dsl text ≡ ok policies
unfolding parse_dsl lines paac.Prelude.trim paac.Policy.Dsl.strip_comment paac.Prelude.before_char
    paac.Policy.Dsl.parse_line paac.Prelude.strip_prefix paac.Policy.Dsl.close
    paac.Policy.Dsl.parse_quoted_name paac.Policy.Dsl.dispatch paac.Policy.Dsl.run_statement
    paac.Policy.Dsl.parse_when paac.Policy.Dsl.parse_roles paac.Policy.Dsl.parse_action_resource
    paac.Prelude.split_whitespace paac.Policy.Dsl.parse_where paac.Policy.Dsl.finish
    paac.Policy.Dsl.add_subject_in paac.Policy.Dsl.parse_lines paac.Policy.Dsl.parse_list
    paac.Policy.Dsl.parse_unless paac.Policy.Dsl.partial_new paac.Prelude.ascii
    paac.Prelude.contains paac.Prelude.ends_with paac.Prelude.is_whitespace paac.Prelude.show_nat
    paac.Prelude.split_by paac.Prelude.strip_suffix_char paac.Prelude.to_ascii_uppercase
    paac.Prelude.trim_end_by paac.Prelude.trim_end_text paac.Prelude.trim_start_by
    paac.Prelude.upper_char paac.Prelude.◌^^◌
parsed = refl

parse_dsl-headers_example : map (λ p. p.id) policies ≡ headers (lines text)
parse_dsl-headers_example = parse_dsl-headers text policies parsed

abbrev pub no_revision : PolicyRevision
no_revision = record {
  revision = "";
  message = "";
  created_at = "";
  cedar = "";
  dsl = "";
  bundle = none;
}

abbrev pub no_bundle : SignedBundle
no_bundle = record {
  revision = "";
  content_sha256 = "";
  cedar = "";
  dsl = "";
  signature_b64 = "";
  key_id = "";
  signed_at = "";
}

abbrev pub clock : Clock
clock = record {
  seconds = "1700000000";
  rfc3339 = "2026-01-01T00:00:00Z";
  revision_id = λ cedar message seconds. "0a1b2c3d4e5f6071";
}

pub clock-IsTrimmedName : IsTrimmedName clock
unfolding paac.Prelude.trim
clock-IsTrimmedName a b c = refl

abbrev pub edited : Disk
edited = write_active_dsl text empty_disk

abbrev pub committed : PolicyRevision × Disk
committed = value (no_revision, empty_disk) (commit kernel "" clock "first" edited)

pub commit-committed : commit kernel "" clock "first" edited ≡ ok (committed.0, committed.1)
unfolding commit paac.Policy.Store.validate_dsl parse_dsl lines paac.Policy.Store.read_active_dsl
    write_active_dsl paac.Prelude.trim paac.Policy.Dsl.strip_comment paac.Prelude.before_char
    paac.Policy.Dsl.parse_line paac.Prelude.strip_prefix paac.Policy.Dsl.close
    paac.Policy.Dsl.parse_quoted_name paac.Policy.Dsl.dispatch paac.Policy.Dsl.run_statement
    paac.Policy.Dsl.parse_when paac.Policy.Dsl.parse_roles paac.Policy.Dsl.add_subject_in
    paac.Policy.Dsl.finish paac.Policy.Dsl.parse_action_resource paac.Policy.Dsl.parse_lines
    paac.Policy.Dsl.parse_list paac.Policy.Dsl.parse_unless paac.Policy.Dsl.parse_where
    paac.Policy.Dsl.partial_new paac.Policy.Translate.any_of
    paac.Policy.Translate.cedar_policy_set_from_dsl dsl_to_cedar paac.Policy.Translate.effect_word
    paac.Policy.Translate.group_check paac.Policy.Translate.policy_text
    paac.Policy.Translate.role_check paac.Policy.Translate.subject_check
    paac.Policy.Translate.translate_one paac.Policy.Translate.validate_cedar_policy_set
    paac.Policy.Translate.when_parts paac.Prelude.insert paac.Prelude.ascii paac.Prelude.contains
    paac.Prelude.ends_with paac.Prelude.is_whitespace paac.Prelude.join paac.Prelude.show_nat
    paac.Prelude.split_by paac.Prelude.split_whitespace paac.Prelude.strip_suffix_char
    paac.Prelude.to_ascii_uppercase paac.Prelude.trim_end_by paac.Prelude.trim_end_text
    paac.Prelude.trim_start_by paac.Prelude.upper_char paac.Prelude.◌^^◌
commit-committed = refl

abbrev pub signer : BundleSigner crypto
signer = local_signer crypto "key-1" "secret"

abbrev pub signed : SignedBundle × Disk
signed = value (no_bundle, empty_disk) (sign_head crypto signer "today" committed.1)

pub sign_head-signed : sign_head crypto signer "today" committed.1 ≡ ok (signed.0, signed.1)
unfolding sign_head paac.Policy.Store.head_revision commit paac.Policy.Store.validate_dsl parse_dsl
    lines paac.Policy.Store.read_active_dsl write_active_dsl paac.Prelude.trim
    paac.Policy.Dsl.strip_comment paac.Prelude.before_char paac.Policy.Dsl.parse_line
    paac.Prelude.strip_prefix paac.Policy.Dsl.close paac.Policy.Dsl.parse_quoted_name
    paac.Policy.Dsl.dispatch paac.Policy.Dsl.run_statement paac.Policy.Dsl.add_subject_in
    paac.Policy.Dsl.finish paac.Policy.Dsl.parse_action_resource paac.Policy.Dsl.parse_lines
    paac.Policy.Dsl.parse_list paac.Policy.Dsl.parse_roles paac.Policy.Dsl.parse_unless
    paac.Policy.Dsl.parse_when paac.Policy.Dsl.parse_where paac.Policy.Dsl.partial_new
    content_digest sign_bundle paac.Policy.Sign.signed_message paac.Policy.Store.load_revision
    paac.Policy.Translate.any_of paac.Policy.Translate.cedar_policy_set_from_dsl dsl_to_cedar
    paac.Policy.Translate.effect_word paac.Policy.Translate.group_check
    paac.Policy.Translate.policy_text paac.Policy.Translate.role_check
    paac.Policy.Translate.subject_check paac.Policy.Translate.translate_one
    paac.Policy.Translate.validate_cedar_policy_set paac.Policy.Translate.when_parts
    paac.Prelude.insert paac.Prelude.lookup paac.Prelude.ascii paac.Prelude.contains
    paac.Prelude.ends_with paac.Prelude.is_whitespace paac.Prelude.join paac.Prelude.show_nat
    paac.Prelude.split_by paac.Prelude.split_whitespace paac.Prelude.strip_suffix_char
    paac.Prelude.to_ascii_uppercase paac.Prelude.trim_end_by paac.Prelude.trim_end_text
    paac.Prelude.trim_start_by paac.Prelude.upper_char paac.Prelude.◌^^◌ local_signer
sign_head-signed = refl

abbrev deployed : PolicyRevision × Disk
deployed = value (no_revision, empty_disk) (deploy_head signed.1)

deploy_head-deployed : deploy_head signed.1 ≡ ok (deployed.0, deployed.1)
unfolding deploy_head paac.Policy.Store.head_revision sign_head commit
    paac.Policy.Store.validate_dsl parse_dsl lines paac.Policy.Store.read_active_dsl
    write_active_dsl paac.Prelude.trim paac.Policy.Dsl.strip_comment paac.Prelude.before_char
    paac.Policy.Dsl.parse_line paac.Prelude.strip_prefix paac.Policy.Dsl.close
    paac.Policy.Dsl.parse_quoted_name paac.Policy.Dsl.dispatch paac.Policy.Dsl.add_subject_in
    paac.Policy.Dsl.finish paac.Policy.Dsl.parse_action_resource paac.Policy.Dsl.parse_lines
    paac.Policy.Dsl.parse_list paac.Policy.Dsl.parse_roles paac.Policy.Dsl.parse_unless
    paac.Policy.Dsl.parse_when paac.Policy.Dsl.parse_where paac.Policy.Dsl.partial_new
    paac.Policy.Dsl.run_statement content_digest sign_bundle paac.Policy.Sign.signed_message
    paac.Policy.Store.load_revision paac.Policy.Translate.any_of
    paac.Policy.Translate.cedar_policy_set_from_dsl dsl_to_cedar paac.Policy.Translate.effect_word
    paac.Policy.Translate.group_check paac.Policy.Translate.policy_text
    paac.Policy.Translate.role_check paac.Policy.Translate.subject_check
    paac.Policy.Translate.translate_one paac.Policy.Translate.validate_cedar_policy_set
    paac.Policy.Translate.when_parts paac.Prelude.insert paac.Prelude.lookup paac.Prelude.ascii
    paac.Prelude.contains paac.Prelude.ends_with paac.Prelude.is_whitespace paac.Prelude.join
    paac.Prelude.show_nat paac.Prelude.split_by paac.Prelude.split_whitespace
    paac.Prelude.strip_suffix_char paac.Prelude.to_ascii_uppercase paac.Prelude.trim_end_by
    paac.Prelude.trim_end_text paac.Prelude.trim_start_by paac.Prelude.upper_char paac.Prelude.◌^^◌
    local_signer
deploy_head-deployed = refl

pub reached_signed : Reach kernel "" crypto signed.1
reached_signed =
    next (next (next start (edit text)) (commits clock "first" committed.0 commit-committed))
      (signs signer "today" signed.0 sign_head-signed)

reached : Reach kernel "" crypto deployed.1
reached = next reached_signed (deploys deployed.0 deploy_head-deployed)

Reach-IsSound_example : IsSound kernel "" crypto deployed.1
Reach-IsSound_example = Reach-IsSound kernel "" crypto reached

abbrev bundle : SignedBundle
bundle = value no_bundle (sign_bundle crypto signer "r1" "permit();" "policy \"p\"" "today")

sign_bundle-bundle : sign_bundle crypto signer "r1" "permit();" "policy \"p\"" "today" ≡ ok bundle
unfolding sign_bundle local_signer
sign_bundle-bundle = refl

verify_bundle-sign_bundle_example :
    verify_bundle crypto bundle (crypto.verifying_key "secret") ≡ ok true
verify_bundle-sign_bundle_example =
    verify_bundle-sign_bundle crypto crypto_laws "key-1" "secret" "r1" "permit();" "policy \"p\""
      "today" bundle sign_bundle-bundle

verify_bundle_iff_example :
    ((verify_bundle crypto bundle "another" ≡ ok true) ↔ (
      (crypto.sha256_hex bundle.cedar ≡ bundle.content_sha256)
      × Answers crypto bundle "another" true))
    × ((verify_bundle crypto bundle "another" ≡ ok false) ↔ (
        (crypto.sha256_hex bundle.cedar ≢ bundle.content_sha256)
        ⊎ ((crypto.sha256_hex bundle.cedar ≡ bundle.content_sha256)
            × Answers crypto bundle "another" false)))
verify_bundle_iff_example = verify_bundle_iff crypto bundle "another"

-- Drafts whose names are not in order.
abbrev drafted : Disk
drafted = record empty_disk { drafts = ("okta", text) ∷ (("ad", text) ∷ []) }
