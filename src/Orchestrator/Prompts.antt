-- ===== src/Orchestrator/Prompts.antt =====
-- ai/orchestrator/prompts.go: the hint of a channel, in front of the system prompt.
use gopkg.Common.{List, [], ◌∷◌, String, str_eq, if◌then◌else◌}
use Prim.Native.String.{◌++◌ as str_append}

pub record ChannelPrompt : Type 0 where
  pub channel : String
  pub hint : String

unfoldable pub build_system_prompt : String → ChannelPrompt → String
build_system_prompt persona hint =
    if str_eq hint.hint ""
    then persona
    else str_append "[Channel: " (
        str_append hint.channel
          (str_append " - " (str_append hint.hint (str_append "]\n\n" persona))))

unfoldable hint_of : String → String → String × ChannelPrompt
hint_of channel hint = (channel, record { channel = channel; hint = hint })

unfoldable pub default_channel_hints : List (String × ChannelPrompt)
unfolding hint_of
default_channel_hints =
    hint_of "twilio:voice"
      "Speak naturally for a phone call. Short sentences, numbers spelled out, no bullet lists."
    ∷ hint_of "twilio:whatsapp" "Reply in short paragraphs. WhatsApp bold uses *asterisks*."
    ∷ hint_of "meta:whatsapp" "Reply in short paragraphs. WhatsApp bold uses *asterisks*."
    ∷ hint_of "twilio:sms" "Keep replies under 160 characters when possible."
    ∷ hint_of "telegram" "Markdown is supported. Use formatting when it improves clarity."
    ∷ hint_of "web" "In-website chat can use concise Markdown and slightly longer replies."
    ∷ hint_of "email:sendgrid" "Email reply. Use one to three short paragraphs."
    ∷ hint_of "email:ses" "Email reply. Use one to three short paragraphs."
    ∷ []
