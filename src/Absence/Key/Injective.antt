-- ===== src/Absence/Key/Injective.antt =====
-- Identities with one canonical text are one identity.
use premise_protocol.Base.{ℕ, ◌≡◌, refl, sym, ap, ◌∙◌, arith, Text, codes, some, [], ◌∷◌, ◌++◌}
use premise_protocol.Entries.{some_inj}
use premise_protocol.Json.{json_string}
use premise_protocol.Json.Decode.{tail, json_string-prefix}
use premise_protocol.Graph.{text_le}
use premise_protocol.Absence.{Identity}
use premise_protocol.Absence.Key.{
  further_fields, object_text, insert_field, add_field, brace, canonical, spread, scope_of,
  identity_fields, scope_text,
}

-- A field whose value is a string, after the mark m.
string_field : ℕ → Text → Text → Text → Text
string_field m k v r = m ∷ (json_string k ++ b':' ∷ (json_string v ++ r))

string_field-prefix :
    (m : ℕ) (k a b r s : Text) → string_field m k a r ≡ string_field m k b s → (a ≡ b) × (r ≡ s)
unfolding string_field tail
string_field-prefix m k a b r s e =
    json_string-prefix a b r s (ap tail (json_string-prefix k k _ _ (ap tail e)).1)

identity_text : Identity → Text
identity_text i =
    string_field b'{' (codes "authorizationContextDigest") i.authorization_context_digest (
      string_field b',' (codes "domain") (codes "premise-negative/1") (
        string_field b',' (codes "frontierDigest") i.frontier_digest (
          string_field b',' (codes "incarnationId") i.incarnation_id (
            string_field b',' (codes "queryDigest") i.query_digest (
              string_field b',' (codes "resource") i.resource
                (string_field b',' (codes "tenantId") i.tenant_id (b'}' ∷ [])))))))

text-scope_of : (i : Identity) → scope_text (scope_of i) ≡ some (identity_text i)
unfolding identity_text string_field scope_text canonical identity_fields spread brace add_field
    insert_field object_text further_fields text_le
text-scope_of i = refl

identity_text-injective : (i j : Identity) → identity_text i ≡ identity_text j → i ≡ j
unfolding identity_text
identity_text-injective i j h =
    let (a, h1) = string_field-prefix _ _ _ _ _ _ h in
    let (_, h2) = string_field-prefix _ _ _ _ _ _ h1 in
    let (b, h3) = string_field-prefix _ _ _ _ _ _ h2 in
    let (c, h4) = string_field-prefix _ _ _ _ _ _ h3 in
    let (d, h5) = string_field-prefix _ _ _ _ _ _ h4 in
    let (e, h6) = string_field-prefix _ _ _ _ _ _ h5 in
    let (f, _) = string_field-prefix _ _ _ _ _ _ h6 in ground (arith, a, b, c, d, e, f)

pub scope_of-injective :
    (i j : Identity) → scope_text (scope_of i) ≡ scope_text (scope_of j) → i ≡ j
scope_of-injective i j h =
    identity_text-injective i j (some_inj (sym (text-scope_of i) ∙ h ∙ text-scope_of j))
