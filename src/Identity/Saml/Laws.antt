-- ===== src/Identity/Saml/Laws.antt =====
-- What crates/authz-identity/src/idp.rs takes out of the text of an assertion.

use paac.Prelude.{
  String, ◌^^◌, Option, none, some, split_at, trim, ◌≡◌, refl, sym, ap, ◌∙◌, subst, some-injective,
  ◌⊎◌, inl, inr,
}
use paac.Identity.Saml.Splits.{IsSplit, split_at-IsSplit}
use paac.Identity.Saml.{extract_xml_tag, after_value_open, extract_xml_attribute_value}

-- `v` is what stands, without white space at its ends, before the first `</` of a text.
abbrev pub IsInside : String → String → Type 0
IsInside rest v =
    (inside : String) × (after : String) × (rest ≡ inside ^^ ("</" ^^ after))
    × (split_at "</" inside ≡ none)
    × (v ≡ trim inside)

-- The opening of a value after an attribute's name: the first one with the prefix, or, where the text
-- after the name has none with the prefix, the first one without.
abbrev pub IsOpening : String → String → String → Type 0
IsOpening between opening rest =
    (split_at opening between ≡ none)
    × ((opening ≡ "<saml2:AttributeValue>")
        ⊎ ((opening ≡ "<AttributeValue>")
            × (split_at "<saml2:AttributeValue>" (between ^^ (opening ^^ rest)) ≡ none)))

-- The shape of a text that has an attribute with a value: from the attribute's name in quotation marks on,
-- some text, the opening of a value, and the value.
abbrev pub HasAttribute : String → String → String → Type 0
HasAttribute xml name v =
    (before : String) × (after : String) × (between : String) × (opening : String) × (rest : String)
    × (xml ≡ before ^^ (("\"" ^^ (name ^^ "\"")) ^^ after))
    × (split_at ("\"" ^^ (name ^^ "\"")) before ≡ none)
    × (("\"" ^^ (name ^^ "\"")) ^^ after ≡ between ^^ (opening ^^ rest))
    × IsOpening between opening rest
    × IsInside rest v

inside :
    (rest : String) (found : Option (String × String)) (v : String)
    → split_at "</" rest ≡ found
    → elim found [ none ↦ none | some (value, after) ↦ some (trim value) ] ≡ some v
    → IsInside rest v
inside rest none v same h = absurd (cc h)
inside rest (some (value, after)) v same h =
    let (whole, first) = split_at-IsSplit "</" rest (value, after) same in
    (value, after, whole, first, some-injective (sym h))

-- The text after an attribute's name, where an opening is found.
opened :
    (rest : String) (one other : Option (String × String)) (val_rest : String)
    → split_at "<saml2:AttributeValue>" rest ≡ one
    → split_at "<AttributeValue>" rest ≡ other
    → elim one [
      | some (before, val_rest) ↦ some val_rest
      | none ↦ elim other [ some (before, val_rest) ↦ some val_rest | none ↦ none ]
    ]
      ≡ some val_rest
    → (between : String) × (opening : String) × (rest ≡ between ^^ (opening ^^ val_rest))
      × IsOpening between opening val_rest
opened rest (some (before, found)) other val_rest e1 e2 h =
    let (whole, first) = split_at-IsSplit "<saml2:AttributeValue>" rest (before, found) e1 in
    (
      before,
      "<saml2:AttributeValue>",
      subst (λ x. rest ≡ before ^^ ("<saml2:AttributeValue>" ^^ x)) (some-injective h) whole,
      (first, inl refl),
    )
opened rest none (some (before, found)) val_rest e1 e2 h =
    let (whole, first) = split_at-IsSplit "<AttributeValue>" rest (before, found) e2 in
    let shape : rest ≡ before ^^ ("<AttributeValue>" ^^ val_rest) =
      subst (λ x. rest ≡ before ^^ ("<AttributeValue>" ^^ x)) (some-injective h) whole in
    (
      before,
      "<AttributeValue>",
      shape,
      (first, inr (refl, ap (split_at "<saml2:AttributeValue>") (sym shape) ∙ e1)),
    )
opened rest none none val_rest e1 e2 h = absurd (cc h)

after_value_open-some :
    (rest val_rest : String)
    → after_value_open rest ≡ some val_rest
    → (between : String) × (opening : String) × (rest ≡ between ^^ (opening ^^ val_rest))
      × IsOpening between opening val_rest
unfolding after_value_open
after_value_open-some rest val_rest h =
    opened rest (split_at "<saml2:AttributeValue>" rest) (split_at "<AttributeValue>" rest) val_rest
      refl refl h

valued :
    (xml name before rest : String) (found : Option String) (v : String)
    → IsSplit ("\"" ^^ (name ^^ "\"")) xml (before, rest)
    → after_value_open (("\"" ^^ (name ^^ "\"")) ^^ rest) ≡ found
    → elim found [
      | none ↦ none
      | some val_rest ↦ elim (split_at "</" val_rest) [
        | none ↦ none
        | some (value, after) ↦ some (trim value)
      ]
    ]
      ≡ some v
    → HasAttribute xml name v
valued xml name before rest none v split e h = absurd (cc h)
valued xml name before rest (some val_rest) v (whole, first) e h =
    let (between, opening, shape, is_opening) = after_value_open-some _ val_rest e in
    (
      before,
      rest,
      between,
      opening,
      val_rest,
      whole,
      first,
      shape,
      is_opening,
      inside val_rest (split_at "</" val_rest) v refl h,
    )

named :
    (xml name : String) (found : Option (String × String)) (v : String)
    → split_at ("\"" ^^ (name ^^ "\"")) xml ≡ found
    → elim found [
      | none ↦ none
      | some (before, rest) ↦ elim (after_value_open (("\"" ^^ (name ^^ "\"")) ^^ rest)) [
        | none ↦ none
        | some val_rest ↦ elim (split_at "</" val_rest) [
          | none ↦ none
          | some (value, after) ↦ some (trim value)
        ]
      ]
    ]
      ≡ some v
    → HasAttribute xml name v
named xml name none v e h = absurd (cc h)
named xml name (some (before, rest)) v e h =
    valued xml name before rest (after_value_open (("\"" ^^ (name ^^ "\"")) ^^ rest)) v
      (split_at-IsSplit ("\"" ^^ (name ^^ "\"")) xml (before, rest) e) refl h

-- A value that is extracted for an attribute stands in the assertion's text: from the first place where
-- the attribute's name is in quotation marks on, at the first opening of a value with the prefix `saml2:`,
-- wherever in the rest of the text it is, and at the first one without the prefix only where the rest of
-- the text has none with it; up to the next `</`, without white space at its ends.
pub extract_xml_attribute_value-HasAttribute :
    (xml name v : String) → extract_xml_attribute_value xml name ≡ some v → HasAttribute xml name v
unfolding extract_xml_attribute_value
extract_xml_attribute_value-HasAttribute xml name v h =
    named xml name (split_at ("\"" ^^ (name ^^ "\"")) xml) v refl h

tagged :
    (xml tag_name : String) (found : Option (String × String)) (v : String)
    → split_at (tag_name ^^ ">") xml ≡ found
    → elim found [
      | none ↦ none
      | some (before, rest) ↦ elim (split_at "</" rest) [
        | none ↦ none
        | some (inside, after) ↦ some (trim inside)
      ]
    ]
      ≡ some v
    → (before : String) × (rest : String) × IsSplit (tag_name ^^ ">") xml (before, rest)
      × IsInside rest v
tagged xml tag_name none v e h = absurd (cc h)
tagged xml tag_name (some (before, rest)) v e h = (
  before,
  rest,
  split_at-IsSplit (tag_name ^^ ">") xml (before, rest) e,
  inside rest (split_at "</" rest) v refl h,
)

-- The text that is extracted for a tag stands between the first place where the tag's name ends a tag
-- and the next `</`, without white space at its ends.
pub extract_xml_tag-IsInside :
    (xml tag_name v : String)
    → extract_xml_tag xml tag_name ≡ some v
    → (before : String) × (rest : String) × IsSplit (tag_name ^^ ">") xml (before, rest)
      × IsInside rest v
unfolding extract_xml_tag
extract_xml_tag-IsInside xml tag_name v h =
    tagged xml tag_name (split_at (tag_name ^^ ">") xml) v refl h
