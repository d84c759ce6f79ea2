-- ===== src/GeminiLive/Examples.antt =====
-- voice/llm/gemini: a session on a socket that always works, a stream of two turns, and the theorems there.
use gopkg.Common.{
  ◌≡◌, refl, Bool, true, false, List, [], ◌∷◌, ◌++◌, none, some, String, ok, is_some, pos, ltb,
}
use gopkg.Common.Text.{codes}
use gopkg.VoicePipeline.{Frame, SetupRequest, ToolSchema, audio_out, assistant_text, turn_complete}
use gopkg.GeminiLive.{setup_message, client_content, build_setup}
use gopkg.GeminiLive.Base64.{encode, decode}
use gopkg.GeminiLive.Stream.{new_stream, Incoming, received, closed_normally, events}
use gopkg.GeminiLive.Stream.Scan.{scan, final_texts_agree}
use gopkg.GeminiLive.Opening.{Socket, wake_signal, open_llm}
use gopkg.GeminiLive.Opening.Written.{Written, user_turns, wake_turn, open_llm-Written}

-- The codes of "Man" and of "Ma" as RFC 4648 has them.
encode_three : encode (codes "Man") ≡ codes "TWFu"
unfolding encode
encode_three = refl

encode_two : encode (codes "Ma") ≡ codes "TWE="
unfolding encode
encode_two = refl

decode_break : decode (codes "TW\nE=") ≡ some (codes "Ma")
unfolding decode
decode_break = refl

decode_bad : decode (codes "TW=u") ≡ none
unfolding decode
decode_bad = refl

abbrev working : Socket String
working = record {
  write = λ log m. none;
  read = λ log. ok (record { setup_complete = true; server_content = none; tool_call = none });
  close = none;
}

abbrev setup : SetupRequest String
setup = record {
  system_prompt = "be brief";
  tools = [];
  history =
      record { role = "user"; content = "hello" }
      ∷ record { role = "assistant"; content = "hi" }
      ∷ record { role = "user"; content = "" }
      ∷ [];
  locale_hint = "en";
  voice = "";
  extra = ("wake_signal", "[CALL_CONNECTED]") ∷ [];
}

opened : open_llm working (λ t. some t) setup ≡ (
  setup_message (build_setup "be brief" [])
      ∷ client_content "user" "hello"
      ∷ client_content "user" "[CALL_CONNECTED]"
      ∷ [],
  none,
)
unfolding open_llm
opened = refl

open_llm-Written_example :
    Written []
      (setup_message (build_setup "be brief" [])
        ∷ (user_turns setup.history ++ wake_turn (wake_signal working (λ t. some t) setup.extra)))
      (open_llm working (λ t. some t) setup)
open_llm-Written_example = open_llm-Written working (λ t. some t) setup

abbrev says : String → Bool → Incoming String
says t done = received (
    some (record {
      setup_complete = false;
      server_content = some (record {
        model_turn = some (
            record { text = t; inline_data = none }
            ∷ record { text = ""; inline_data = some (84 ∷ 87 ∷ 69 ∷ 61 ∷ []) }
            ∷ []);
        turn_complete = done;
        interrupted = false;
        input_transcription = none;
        output_transcription = none;
      });
      tool_call = none;
    }))

abbrev two_messages : List (Incoming String)
two_messages = says "Good " false ∷ says "day" true ∷ closed_normally ∷ []

abbrev frame : Frame
frame = record { bytes = 77 ∷ 97 ∷ []; timestamp = pos 0 }

streamed :
    (events (λ n. true) two_messages new_stream).0.emitted
    ≡ assistant_text "Good " false
      ∷ audio_out frame
      ∷ assistant_text "day" false
      ∷ audio_out frame
      ∷ assistant_text "Good day" true
      ∷ turn_complete
      ∷ []
unfolding events new_stream
streamed = refl

-- The context is done before the fifth event.
cut_short :
    (events (λ n. ltb n 4) two_messages new_stream).0.emitted
    ≡ assistant_text "Good " false
      ∷ audio_out frame
      ∷ assistant_text "day" false
      ∷ audio_out frame
      ∷ []
unfolding events new_stream
cut_short = refl

final_texts_agree_example :
    is_some (scan "" (events (λ n. true) two_messages new_stream).0.emitted) ≡ true
final_texts_agree_example = final_texts_agree (λ n. true) two_messages

abbrev city : ToolSchema
city = record {
  type = "object";
  properties =
      ("city", record { type = "string"; description = "where"; enum = "A" ∷ []; format = "" })
      ∷ [];
  required = "city" ∷ [];
}
