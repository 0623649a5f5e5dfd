-- ===== src/Absence/Key.antt =====
-- The key of an absence: `canonical` and `negativePremiseKey` of
-- packages/runtime-core/src/negative-premises.ts. A scope is spread whole into what is hashed.
pub mod Injective
pub mod Texts
mod Tests
use premise_protocol.Base.{
  Bool, true, false, ◌&&◌, Text, codes, Option, none, some, List, [], ◌∷◌, ◌++◌, text_eq,
  if◌then◌else◌,
}
use premise_protocol.Json.{json_string}
use premise_protocol.Graph.{text_le}
use premise_protocol.Absence.{Identity, Host, valid_scope}

-- A value of a scope. A number is given by the text that JSON.stringify makes of it, "-0" for -0 and
-- `none` where it is not finite. An array has no holes, an object has the fields that Object.keys names.
-- `other` is no JSON: undefined, a function, a symbol, a bigint.
mutual
  pub data Value : Type 0 where
    null : Value
    boolean : Bool → Value
    number : Option Text → Value
    text : Text → Value
    array : Items → Value
    object : Fields → Value
    other : Value

  pub data Items : Type 0 where
    no_item : Items
    item : Value → Items → Items

  pub data Fields : Type 0 where
    no_field : Fields
    field : Text → Value → Fields → Fields

further_items : List Text → Text
further_items [] = b']' ∷ []
further_items (v ∷ vs) = b',' ∷ (v ++ further_items vs)

array_text : List Text → Text
array_text [] = codes "[]"
array_text (v ∷ vs) = b'[' ∷ (v ++ further_items vs)

further_fields : List (Text × Text) → Text
further_fields [] = b'}' ∷ []
further_fields ((k, v) ∷ fs) = b',' ∷ (json_string k ++ b':' ∷ (v ++ further_fields fs))

object_text : List (Text × Text) → Text
object_text [] = codes "{}"
object_text ((k, v) ∷ fs) = b'{' ∷ (json_string k ++ b':' ∷ (v ++ further_fields fs))

-- Object.keys(...).sort(), with the texts of the values.
insert_field : Text × Text → List (Text × Text) → List (Text × Text)
insert_field f [] = f ∷ []
insert_field f (g ∷ gs) =
    let rest = insert_field f gs in if text_le f.0 g.0 then f ∷ g ∷ gs else g ∷ rest

add_item : Option Text → Option (List Text) → Option (List Text)
add_item (some v) (some vs) = some (v ∷ vs)
add_item _ _ = none

add_field : Text → Option Text → Option (List (Text × Text)) → Option (List (Text × Text))
add_field k (some v) (some fs) = some (insert_field (k, v) fs)
add_field k _ _ = none

bracket : Option (List Text) → Option Text
bracket none = none
bracket (some vs) = some (array_text vs)

brace : Option (List (Text × Text)) → Option Text
brace none = none
brace (some fs) = some (object_text fs)

-- `none` where it throws.
mutual
  pub canonical : Value → Option Text
  canonical null = some (codes "null")
  canonical (boolean true) = some (codes "true")
  canonical (boolean false) = some (codes "false")
  canonical (number t) = t
  canonical (text t) = some (json_string t)
  canonical (array vs) = bracket (canonical_items vs)
  canonical (object fs) = brace (canonical_fields fs)
  canonical other = none

  canonical_items : Items → Option (List Text)
  canonical_items no_item = some []
  canonical_items (item v vs) = add_item (canonical v) (canonical_items vs)

  canonical_fields : Fields → Option (List (Text × Text))
  canonical_fields no_field = some []
  canonical_fields (field k v fs) = add_field k (canonical v) (canonical_fields fs)

-- The fields of an object after an assignment.
assign : Text → Value → Fields → Fields
assign k v no_field = field k v no_field
assign k v (field j w fs) =
    let rest = assign k v fs in if text_eq k j then field k v fs else field j w rest

spread : Fields → Fields → Fields
spread into no_field = into
spread into (field k v fs) = spread (assign k v into) fs

-- A scope as it is passed, a plain object: `further` are its fields beside those of the identity.
pub record AbsenceScope : Type 0 where
  pub identity : Identity
  pub further : Fields

abbrev pub scope_of : Identity → AbsenceScope
scope_of i = record { identity = i; further = no_field }

identity_fields : Identity → Fields
identity_fields i = field (codes "domain") (text (codes "premise-negative/1")) (
    field (codes "tenantId") (text i.tenant_id) (
      field (codes "resource") (text i.resource) (
        field (codes "incarnationId") (text i.incarnation_id) (
          field (codes "queryDigest") (text i.query_digest) (
            field (codes "frontierDigest") (text i.frontier_digest) (
              field (codes "authorizationContextDigest") (text i.authorization_context_digest)
                no_field))))))

-- canonical({ domain, ...scope })
pub scope_text : AbsenceScope → Option Text
scope_text scope = canonical (object (spread (identity_fields scope.identity) scope.further))

pub key_of : Host → Option Text → Option Text
key_of host none = none
key_of host (some t) = some (codes "sha256:" ++ host.sha256 t)

-- `none` where it throws.
pub negative_premise_key : Host → AbsenceScope → Option Text
negative_premise_key host scope =
    if valid_scope scope.identity then key_of host (scope_text scope) else none
