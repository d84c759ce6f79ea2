-- ===== src/WhatsappTransport/Examples.antt =====
-- voice/transport/whatsapp/transport.go: a call whose packets are the frames themselves.
use gopkg.Common.{
  ℕ, zero, suc, ◌≡◌, refl, false, List, [], ◌∷◌, ◌++◌, none, some, length, String, Result, ok, err,
  pos,
}
use gopkg.Common.Text.{codes}
use gopkg.VoicePipeline.{Frame}
use gopkg.WhatsappTransport.{
  Peer, Transport, silence, with_silence, new_transport, Op, sends, paces, clears, closes, run,
  receive, packet, read_error, terminal,
}
use gopkg.WhatsappTransport.Sending.{Inv, concat, heard}
use gopkg.WhatsappTransport.Sending.Runs.{transport-Inv, samples_kept}

abbrev plain : Peer (List ℕ)
plain = record {
  new_decoder = none;
  new_encoder = none;
  encode = λ before frame. ok frame;
  decode = λ p. elim p as (λ x. Result String (List ℕ)) [ [] ↦ err "empty" | s ∷ ss ↦ ok (s ∷ ss) ];
  close = none;
}

abbrev bytes : ℕ → List ℕ
bytes zero = []
bytes (suc n) = 1 ∷ 0 ∷ bytes n

-- 500 samples, 20 more than a frame.
abbrev speech : Frame
speech = record { bytes = bytes 500; timestamp = pos 0 }

abbrev call : List Op
call = sends speech ∷ paces ∷ paces ∷ sends speech ∷ clears ∷ closes ∷ sends speech ∷ closes ∷ []

-- What New returns.
abbrev fresh : Transport (List ℕ)
fresh = with_silence silence

starts : new_transport plain ≡ ok fresh
unfolding new_transport
starts = refl

no_decoder : new_transport (record plain { new_decoder = some "no codec" }) ≡ err "no codec"
unfolding new_transport
no_decoder = refl

one_packet_then_silence : (run plain (sends speech ∷ paces ∷ paces ∷ []) fresh).out_queue ≡ []
unfolding run with_silence
one_packet_then_silence = refl

left_over : length (run plain call fresh).send_buf ≡ 40
unfolding run with_silence
left_over = refl

transport-Inv_example : Inv (run plain call fresh)
transport-Inv_example = transport-Inv plain fresh starts call

samples_kept_example :
    concat (run plain call fresh).encoded ++ (run plain call fresh).send_buf
    ≡ silence ++ heard false call
samples_kept_example = samples_kept plain fresh starts call

skips_bad_packet :
    receive plain (packet [] ∷ packet (258 ∷ []) ∷ read_error (codes "use of closed socket") ∷ [])
    ≡ ((2 ∷ 1 ∷ []) ∷ [], terminal none)
unfolding receive
skips_bad_packet = refl
