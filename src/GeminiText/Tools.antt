-- ===== src/GeminiText/Tools.antt =====
-- ai/llm/geminitext: how the tools are declared to the model.
use gopkg.Common.{List, [], ◌∷◌, String}
use gopkg.Orchestrator.{ToolProperty, tool_property, tool_property_of, ToolDecl}

pub data GeminiFunctionProperty : Type 0 where
  function_property : String → String → List String → String → GeminiFunctionProperty
  function_property_of :
      String → String → List String → String → GeminiFunctionProperty → GeminiFunctionProperty

pub record GeminiFunctionParams : Type 0 where
  pub type : String
  pub properties : List (String × GeminiFunctionProperty)
  pub required : List String

pub record GeminiFunction : Type 0 where
  pub name : String
  pub description : String
  pub parameters : GeminiFunctionParams

unfoldable pub to_gemini_prop : ToolProperty → GeminiFunctionProperty
to_gemini_prop (tool_property type description enum format) =
    function_property type description enum format
to_gemini_prop (tool_property_of type description enum format items) =
    function_property_of type description enum format (to_gemini_prop items)

unfoldable pub gemini_props : List (String × ToolProperty) → List (String × GeminiFunctionProperty)
unfolding to_gemini_prop
gemini_props [] = []
gemini_props ((name, p) ∷ ps) = (name, to_gemini_prop p) ∷ gemini_props ps

unfoldable pub tool_decls : List ToolDecl → List GeminiFunction
unfolding gemini_props
tool_decls [] = []
tool_decls (t ∷ ts) =
    record {
      name = t.name;
      description = t.description;
      parameters = record {
        type = t.parameters.type;
        properties = gemini_props t.parameters.properties;
        required = t.parameters.required;
      };
    }
    ∷ tool_decls ts
