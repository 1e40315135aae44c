-- ===== src/Identity/Saml.antt =====
-- crates/authz-identity/src/idp.rs: identities from SAML assertions, which are taken apart as texts.
pub mod Splits
pub mod Laws
use paac.Prelude.{
  String, ◌^^◌, Bool, Option, none, some, List, [], map, Result, ok, ◌>>=◌, map_err, or_else, trim,
  drop_empty, split_by, is_char, starts_with, split_at, if◌then◌else◌,
}
use paac.Identity.Model.{CanonicalIdentity, IdentitySnapshot, Identified, msg}
use paac.Identity.Providers.{mock_directory_snapshot}

-- The decoder of the standard alphabet, and the text of bytes that are UTF-8.
pub record Base64 : Type 1 where
  pub Bytes : Type 0
  pub decode : String → Result String Bytes
  pub from_utf8 : Bytes → Result String String

-- `a.or_else(b)`
abbrev pub either : Option String → Option String → Option String
either (some a) b = some a
either none b = b

unfoldable pub extract_xml_tag : String → String → Option String
extract_xml_tag xml tag_name = elim (split_at (tag_name ^^ ">") xml) [
  | none ↦ none
  | some (before, rest) ↦ elim (split_at "</" rest) [
    | none ↦ none
    | some (inside, after) ↦ some (trim inside)
  ]
]

-- What follows the first opening of a value, where the tag with the prefix is preferred.
unfoldable pub after_value_open : String → Option String
after_value_open rest = elim (split_at "<saml2:AttributeValue>" rest) [
  | some (before, val_rest) ↦ some val_rest
  | none ↦ elim (split_at "<AttributeValue>" rest) [
    | some (before, val_rest) ↦ some val_rest
    | none ↦ none
  ]
]

-- The search for the value begins at the quotation mark before the attribute's name.
unfoldable pub extract_xml_attribute_value : String → String → Option String
unfolding after_value_open
extract_xml_attribute_value xml attr_name = elim (split_at ("\"" ^^ (attr_name ^^ "\"")) xml) [
  | none ↦ none
  | some (before, rest) ↦ elim (after_value_open (("\"" ^^ (attr_name ^^ "\"")) ^^ rest)) [
    | none ↦ none
    | some val_rest ↦ elim (split_at "</" val_rest) [
      | none ↦ none
      | some (value, after) ↦ some (trim value)
    ]
  ]
]

-- `split(',').map(trim).filter(not empty)`
unfoldable pub comma_list : String → List String
comma_list raw = drop_empty (map trim (split_by (is_char b',') raw))

unfoldable pub principal_id : String → String
principal_id name_id = if starts_with name_id "user:" then name_id else "user:" ^^ name_id

-- the identity that the text of an assertion gives
unfoldable pub identity_of_xml : String → CanonicalIdentity
unfolding extract_xml_tag extract_xml_attribute_value comma_list principal_id
identity_of_xml raw = record {
  id = principal_id (
      or_else (either (extract_xml_tag raw "NameID") (extract_xml_tag raw "saml:NameID"))
        "user:saml-principal");
  display_name = or_else (extract_xml_attribute_value raw "displayName") "";
  email = either (extract_xml_attribute_value raw "email") (extract_xml_attribute_value raw "mail");
  source = "saml2";
  roles = comma_list (
      or_else
        (either (extract_xml_attribute_value raw "roles") (extract_xml_attribute_value raw "role"))
        "");
  groups = comma_list (
      or_else
        (either (extract_xml_attribute_value raw "groups")
          (extract_xml_attribute_value raw "memberOf"))
        "");
  attrs = [];
}

module _ (base64 : Base64) where
  unfoldable pub decode_assertion : String → Identified String
  decode_assertion xml_or_b64 = if starts_with (trim xml_or_b64) "<" then ok xml_or_b64 else do
    bytes ←
        map_err (λ e. msg ("invalid base64 saml assertion: " ^^ e))
          (base64.decode (trim xml_or_b64))
    map_err msg (base64.from_utf8 bytes)

  unfoldable pub parse_assertion : String → Identified CanonicalIdentity
  unfolding decode_assertion identity_of_xml
  parse_assertion xml_or_b64 = do raw ← decode_assertion xml_or_b64; ok (identity_of_xml raw)

-- `Saml2Adapter::sync`
unfoldable pub sync_saml : String → Identified IdentitySnapshot
sync_saml now = ok (mock_directory_snapshot "saml2" now)
