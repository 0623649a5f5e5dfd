-- ===== src/Absence/Key/Tests.antt =====
-- The texts of scopes, run at concrete values.
use premise_protocol.Base.{Text-discrete, ◌≡◌, refl, true, Text, codes, none, some, ◌++◌}
use premise_protocol.Json.{json_string}
use premise_protocol.Graph.{text_le}
use premise_protocol.Absence.{Identity}
use premise_protocol.Absence.Key.{
  Value, null, boolean, number, text, array, object, other, no_item, item, no_field, field,
  canonical, further_items, array_text, further_fields, object_text, insert_field, add_item,
  add_field, bracket, brace, assign, spread, identity_fields, AbsenceScope, scope_of, scope_text,
}

abbrev nested : Value
nested = object (
    field (codes "b") (array (item (boolean true) (item (number (some (codes "-0"))) no_item)))
      (field (codes "a") (object no_field) (field (codes "B") null no_field)))

-- Keys stand in the order of their code units.
sorted_keys : canonical nested ≡ some (codes "{\"B\":null,\"a\":{},\"b\":[true,-0]}")
unfolding canonical bracket brace add_item add_field insert_field array_text object_text
    further_items further_fields text_le json_string
sorted_keys = refl

throws_inside : canonical (array (item null (item other no_item))) ≡ none
unfolding canonical bracket add_item
throws_inside = refl

abbrev pull : Identity
pull = record {
  tenant_id = codes "t";
  resource = codes "r";
  incarnation_id = codes "i";
  query_digest = codes "q";
  frontier_digest = codes "f";
  authorization_context_digest = codes "a";
}

abbrev with_field : Text → Text → AbsenceScope
with_field k v = record { identity = pull; further = field k (text v) no_field }

abbrev rest_of_text : Text
rest_of_text =
    codes
      "\"frontierDigest\":\"f\",\"incarnationId\":\"i\",\"queryDigest\":\"q\",\"resource\":\"r\""

plain_text :
    scope_text (scope_of pull)
    ≡ some (
        codes "{\"authorizationContextDigest\":\"a\",\"domain\":\"premise-negative/1\","
        ++ rest_of_text
        ++ codes ",\"tenantId\":\"t\"}")
unfolding scope_text canonical identity_fields spread brace add_field insert_field object_text
    further_fields text_le json_string
plain_text = refl

-- A field beside the identity is hashed too, so a stored absence is no scope of its own.
further_text :
    scope_text (with_field (codes "specVersion") (codes "premise-negative/1"))
    ≡ some (
        codes "{\"authorizationContextDigest\":\"a\",\"domain\":\"premise-negative/1\","
        ++ rest_of_text
        ++ codes ",\"specVersion\":\"premise-negative/1\",\"tenantId\":\"t\"}")
unfolding scope_text canonical identity_fields spread assign brace add_field insert_field
    object_text further_fields text_le json_string Text-discrete
further_text = refl

-- A field `domain` replaces the one that is put in.
domain_text :
    scope_text (with_field (codes "domain") (codes "d"))
    ≡ some (
        codes "{\"authorizationContextDigest\":\"a\",\"domain\":\"d\","
        ++ rest_of_text
        ++ codes ",\"tenantId\":\"t\"}")
unfolding scope_text canonical identity_fields spread assign brace add_field insert_field
    object_text further_fields text_le json_string Text-discrete
domain_text = refl
