-- ===== src/GeminiLive/Stream.antt =====
-- voice/llm/gemini/llm.go, Events: the messages of the server become the events of the pipeline. The
-- pipeline takes the n-th event, or its context is done by then: `accepts` says which.
pub mod Scan
use gopkg.Common.{
  ℕ, zero, suc, Bool, true, false, List, [], ◌∷◌, ◌++◌, Option, none, some, String, str_eq, length,
  if◌then◌else◌, ℤ, pos,
}
use Prim.Native.String.{◌++◌ as str_append}
use gopkg.VoicePipeline.{
  Frame, ToolCall, LlmEvent, audio_out, assistant_text, caller_transcript, turn_complete,
  interrupted, tool_calls,
}
use gopkg.GeminiLive.{GeminiPart, ServerContent, ServerMessage}
use gopkg.GeminiLive.Base64.{decode}

-- The goroutine of Events: what it emitted, the text of the turn, and whether it still runs.
pub record Stream (D : Type 0) : Type 0 where
  pub emitted : List (LlmEvent D)
  pub turn_text : String
  pub live : Bool

unfoldable pub new_stream : {D : Type 0} → Stream D
new_stream = record { emitted = []; turn_text = ""; live = true }

module _ {D : Type 0} (accepts : ℕ → Bool) where
  unfoldable pub offer : LlmEvent D → Stream D → Stream D
  offer ev s =
      if accepts (length s.emitted)
      then record s { emitted = s.emitted ++ ev ∷ [] }
      else record s { live = false }

  -- Once an event was not taken, the goroutine has returned.
  unfoldable pub emit : LlmEvent D → Stream D → Stream D
  unfolding offer
  emit ev s = if s.live then offer ev s else s

  -- A piece of the model's text is kept for the turn and passed on.
  unfoldable pub say : String → Stream D → Stream D
  unfolding emit
  say t s =
      if s.live
      then emit (assistant_text t false) (record s { turn_text = str_append s.turn_text t })
      else s

  unfoldable pub say_some : String → Stream D → Stream D
  unfolding say
  say_some t s = if str_eq t "" then s else say t s

  unfoldable pub play : List ℕ → Stream D → Stream D
  unfolding emit
  play bytes s = emit (audio_out (record { bytes = bytes; timestamp = zero_time })) s
    where
      zero_time : ℤ
      zero_time = pos 0

  -- One part; audio that does not decode makes the loop continue with the next part.
  unfoldable pub handle_part : GeminiPart → Stream D → Stream D
  unfolding say_some play decode
  handle_part part s = elim part.inline_data [
    | none ↦ say_some part.text s
    | some [] ↦ say_some part.text s
    | some (c ∷ cs) ↦ elim (decode (c ∷ cs)) [
      | none ↦ s
      | some bytes ↦ say_some part.text (play bytes s)
    ]
  ]

  unfoldable pub handle_parts : List GeminiPart → Stream D → Stream D
  unfolding handle_part
  handle_parts [] s = s
  handle_parts (p ∷ ps) s = handle_parts ps (handle_part p s)

  unfoldable pub hear : Option String → Stream D → Stream D
  unfolding emit
  hear none s = s
  hear (some t) s = if str_eq t "" then s else emit (caller_transcript t) s

  unfoldable pub transcribe : Option String → Stream D → Stream D
  unfolding say_some
  transcribe none s = s
  transcribe (some t) s = say_some t s

  unfoldable pub model_turn : Option (List GeminiPart) → Stream D → Stream D
  unfolding handle_parts
  model_turn none s = s
  model_turn (some parts) s = handle_parts parts s

  -- The text of the turn is flushed as the final one.
  unfoldable pub flush : Stream D → Stream D
  unfolding emit
  flush s =
      if str_eq s.turn_text ""
      then s
      else emit (assistant_text s.turn_text true) (record s { turn_text = "" })

  unfoldable pub end_turn : Stream D → Stream D
  unfolding emit flush
  end_turn s = if s.live then emit turn_complete (flush s) else s

  unfoldable pub handle_content : ServerContent → Stream D → Stream D
  unfolding hear transcribe model_turn emit end_turn
  handle_content c s =
      let heard = hear c.input_transcription s in
      let said = model_turn c.model_turn (transcribe c.output_transcription heard) in
      let broken = if c.interrupted then emit interrupted said else said in
      if c.turn_complete then end_turn broken else broken

  unfoldable pub handle_calls : List (ToolCall D) → Stream D → Stream D
  unfolding emit
  handle_calls [] s = s
  handle_calls (c ∷ cs) s = emit (tool_calls (c ∷ cs)) s

  unfoldable pub handle_message : ServerMessage D → Stream D → Stream D
  unfolding handle_content handle_calls
  handle_message m s =
      let spoken : Stream D = elim m.server_content [ none ↦ s | some c ↦ handle_content c s ] in
      elim m.tool_call [ none ↦ spoken | some calls ↦ handle_calls calls spoken ]

-- What a round of the loop finds: its context done, a message that was read (none where it is no JSON
-- of a message), or an error of the read, a normal close among them.
pub data Incoming (D : Type 0) : Type 0 where
  context_done : Incoming D
  received : Option (ServerMessage D) → Incoming D
  closed_normally : Incoming D
  read_error : String → Incoming D

-- Whether the goroutine has ended, and the error that it left.
pub data Ending : Type 0 where
  running : Ending
  ended : Option String → Ending

module _ {D : Type 0} (accepts : ℕ → Bool) where
  unfoldable pub events : List (Incoming D) → Stream D → Stream D × Ending
  unfolding handle_message
  events [] s = (s, running)
  events (context_done ∷ ins) s = (s, ended none)
  events (closed_normally ∷ ins) s = (s, ended none)
  events (read_error e ∷ ins) s = (s, ended (some e))
  events (received none ∷ ins) s = events ins s
  events (received (some m) ∷ ins) s =
      let s' = handle_message accepts m s in
      elim s'.live [ false ↦ (s', ended none) | true ↦ events ins s' ]
