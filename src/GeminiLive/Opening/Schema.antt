-- ===== src/GeminiLive/Opening/Schema.antt =====
-- voice/llm/gemini/setup.go: the wire shape of a tool's schema loses nothing of it.
use gopkg.Common.{
  ◌≡◌, refl, sym, ap, ap₂, inl, inr, List, [], ◌∷◌, Option, none, some, String, str_eq,
  string_comparable, if◌then◌else◌, Bool-cases,
}
use gopkg.VoicePipeline.{ToolProperty, ToolSchema}
use gopkg.GeminiLive.{
  Json, text, texts, object, Fields, no_fields, field, with_texts, with_text, property_to_wire,
  properties_to_wire, schema_to_wire,
}

-- What stands under a key, as a text, as a list of texts, as an object.
unfoldable pub find : String → Fields → Option Json
find key no_fields = none
find key (field name v rest) = if str_eq key name then some v else find key rest

unfoldable pub text_at : Option Json → String
text_at (some (text t)) = t
text_at _ = ""

unfoldable pub texts_at : Option Json → List String
texts_at (some (texts ts)) = ts
texts_at _ = []

unfoldable pub read_property : Fields → ToolProperty
unfolding find text_at texts_at
read_property o = record {
  type = text_at (find "type" o);
  description = text_at (find "description" o);
  enum = texts_at (find "enum" o);
  format = text_at (find "format" o);
}

unfoldable pub read_properties : Fields → List (String × ToolProperty)
unfolding read_property
read_properties no_fields = []
read_properties (field name (object o) rest) = (name, read_property o) ∷ read_properties rest
read_properties (field name _ rest) = read_properties rest

unfoldable pub object_at : Option Json → Fields
object_at (some (object o)) = o
object_at _ = no_fields

unfoldable pub read_schema : Fields → ToolSchema
unfolding find text_at texts_at object_at read_properties
read_schema o = record {
  type = text_at (find "type" o);
  properties = read_properties (object_at (find "properties" o));
  required = texts_at (find "required" o);
}

format_back : (t : String) → text_at (find "format" (with_text "format" t no_fields)) ≡ t
unfolding find text_at with_text
format_back t = elim (Bool-cases (str_eq t "")) [
  | inl e ↦ rw e (sym ((string_comparable.beq_iff t "").0 e))
  | inr e ↦ rw e refl
]

format_enum : (t : String) → texts_at (find "enum" (with_text "format" t no_fields)) ≡ []
unfolding find texts_at with_text
format_enum t = elim (Bool-cases (str_eq t "")) [ inl e ↦ rw e refl | inr e ↦ rw e refl ]

property_parts :
    (y d : String) (ts : List String) (f : String)
    → let p : ToolProperty = record { type = y; description = d; enum = ts; format = f } in
      read_property (property_to_wire p) ≡ p
unfolding read_property property_to_wire with_texts
property_parts y d [] f =
    ap₂ (λ ts t. record { type = y; description = d; enum = ts; format = t }) (format_enum f)
      (format_back f)
property_parts y d (x ∷ xs) f =
    ap (λ t. record { type = y; description = d; enum = x ∷ xs; format = t }) (format_back f)

properties_back : (ps : List (String × ToolProperty)) → read_properties (properties_to_wire ps) ≡ ps
unfolding read_properties properties_to_wire
properties_back [] = refl
properties_back ((name, p) ∷ ps) =
    ap₂ (λ q qs. (name, q) ∷ qs) (property_parts p.type p.description p.enum p.format)
      (properties_back ps)

schema_parts :
    (y : String) (ps : List (String × ToolProperty)) (required : List String)
    → let s : ToolSchema = record { type = y; properties = ps; required = required } in
      read_schema (schema_to_wire s) ≡ s
unfolding read_schema schema_to_wire with_texts
schema_parts y ps [] =
    ap (λ qs. record { type = y; properties = qs; required = [] }) (properties_back ps)
schema_parts y ps (r ∷ rs) =
    ap (λ qs. record { type = y; properties = qs; required = r ∷ rs }) (properties_back ps)

-- A schema can be read back from its wire shape: the type, every property with its description, its
-- enumeration and its format, and the required names.
pub read-schema_to_wire : (s : ToolSchema) → read_schema (schema_to_wire s) ≡ s
read-schema_to_wire s = schema_parts s.type s.properties s.required
