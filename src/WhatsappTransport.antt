-- ===== src/WhatsappTransport.antt =====
-- voice/transport/whatsapp/transport.go: the transport of a WhatsApp call. The Opus coder and the WebRTC
-- connection are outside: the coder's answer may depend on the frames it has had before. A sample is
-- the 16 bits of an int16, as a number; a packet is opaque, of the type `P`.
pub mod Sending
pub mod Samples
mod Examples
use gopkg.Common.{
  ℕ, zero, suc, ◌+◌, ◌-◌, ◌*◌, ◌/◌, ◌%◌, Bool, true, false, not, ◌&&◌, ◌||◌, List, [], ◌∷◌, ◌++◌,
  Option, none, some, String, length, take, drop, ltb, leb, if◌then◌else◌, Result, ok, err, pos, ℤ,
}
use gopkg.Common.Text.{codes, contains}
use gopkg.VoicePipeline.{AudioFormat, encoding_pcm16le, Frame}

abbrev pub out_frame_samples : ℕ
out_frame_samples = 480

abbrev pub queue_capacity : ℕ
queue_capacity = 1000

abbrev pub inbound_format : AudioFormat
inbound_format = record { encoding = encoding_pcm16le; sample_rate = pos 16000; channels = pos 1 }

abbrev pub outbound_format : AudioFormat
outbound_format = record { encoding = encoding_pcm16le; sample_rate = pos 24000; channels = pos 1 }

-- A byte that is left over is dropped.
unfoldable pub bytes_to_int16_le : List ℕ → List ℕ
bytes_to_int16_le (lo ∷ hi ∷ bytes) = (lo + hi * 256) ∷ bytes_to_int16_le bytes
bytes_to_int16_le _ = []

unfoldable pub int16_le_to_bytes : List ℕ → List ℕ
int16_le_to_bytes [] = []
int16_le_to_bytes (v ∷ samples) = v % 256 ∷ v / 256 ∷ int16_le_to_bytes samples

-- Outside: the coders of Opus, which may fail to start, and what closing the connection says.
pub record Peer (P : Type 0) : Type 0 where
  pub new_decoder : Option String
  pub new_encoder : Option String
  pub encode : List (List ℕ) → List ℕ → Result String P
  pub decode : P → Result String (List ℕ)
  pub close : Option String

-- `encoded` has the frames that the encoder was given, `written` the packets on the wire.
pub record Transport (P : Type 0) : Type 0 where
  pub send_buf : List ℕ
  pub encoded : List (List ℕ)
  pub out_queue : List P
  pub silence_frame : P
  pub written : List P
  pub closed : Bool
  pub peer_closes : ℕ

unfoldable pub zeros : ℕ → List ℕ
zeros zero = []
zeros (suc n) = 0 ∷ zeros n

-- A frame of silence, which New encodes first.
abbrev pub silence : List ℕ
silence = zeros out_frame_samples

-- The transport of New, given the encoded silence.
unfoldable pub with_silence : {P : Type 0} → P → Transport P
with_silence packet = record {
  send_buf = [];
  encoded = silence ∷ [];
  out_queue = [];
  silence_frame = packet;
  written = [];
  closed = false;
  peer_closes = 0;
}

-- An error of the decoder, of the encoder or of the encoding of silence, in this order.
unfoldable pub started :
    {P : Type 0} → Option String → Option String → Result String P → Result String (Transport P)
unfolding with_silence
started (some e) encoder packet = err e
started none (some e) packet = err e
started none none (err e) = err e
started none none (ok p) = ok (with_silence p)

module _ {P : Type 0} (peer : Peer P) where
  unfoldable pub new_transport : Result String (Transport P)
  unfolding started zeros
  new_transport = started peer.new_decoder peer.new_encoder (peer.encode [] silence)

  -- A full queue drops the packet.
  unfoldable pub enqueue : P → Transport P → Transport P
  enqueue packet t =
      if ltb (length t.out_queue) queue_capacity
      then record t { out_queue = t.out_queue ++ packet ∷ [] }
      else t

  -- One frame leaves the buffer and goes to the encoder.
  unfoldable pub take_frame : Transport P → Transport P
  take_frame t = record t {
    send_buf = drop out_frame_samples t.send_buf;
    encoded = t.encoded ++ take out_frame_samples t.send_buf ∷ [];
  }

  -- The loop of Send; each round takes samples, so that their number is fuel enough.
  unfoldable pub encode_frames : ℕ → Transport P → Transport P × Option String
  unfolding enqueue take_frame
  encode_frames zero t = (t, none)
  encode_frames (suc fuel) t = elim (leb out_frame_samples (length t.send_buf)) [
    | false ↦ (t, none)
    | true ↦ elim (peer.encode t.encoded (take out_frame_samples t.send_buf)) [
      | err e ↦ (take_frame t, some e)
      | ok packet ↦ encode_frames fuel (enqueue packet (take_frame t))
    ]
  ]

  unfoldable pub buffer : List ℕ → Transport P → Transport P
  buffer samples t = record t { send_buf = t.send_buf ++ samples }

  unfoldable pub send_open : Frame → Transport P → Transport P × Option String
  unfolding bytes_to_int16_le encode_frames buffer
  send_open f t =
      let t' = buffer (bytes_to_int16_le f.bytes) t in encode_frames (length t'.send_buf) t'

  unfoldable pub send : Frame → Transport P → Transport P × Option String
  unfolding send_open
  send f t = if t.closed then (t, none) else send_open f t

  -- One round of paceSender: a packet of the queue, or silence.
  unfoldable pub write_next : Transport P → Transport P
  write_next t = elim t.out_queue [
    | [] ↦ record t { written = t.written ++ t.silence_frame ∷ [] }
    | packet ∷ rest ↦ record t { out_queue = rest; written = t.written ++ packet ∷ [] }
  ]

  unfoldable pub pace : Transport P → Transport P
  unfolding write_next
  pace t = if t.closed then t else write_next t

  unfoldable pub clear : Transport P → Transport P
  clear t = record t { out_queue = [] }

  unfoldable pub close : Transport P → Transport P × Option String
  close t =
      if t.closed
      then (t, none)
      else (record t { closed = true; peer_closes = suc t.peer_closes }, peer.close)

-- isCloseErr, on the text of an error.
unfoldable pub is_close_err : List ℕ → Bool
unfolding contains
is_close_err msg =
    contains msg (codes "closed")
    || (contains msg (codes "EOF") || contains msg (codes "use of closed"))

-- What a round of Receive finds: a packet, io.EOF, another error by its text, or the context or the
-- transport done.
pub data Incoming (P : Type 0) : Type 0 where
  packet : P → Incoming P
  end_of_file : Incoming P
  read_error : List ℕ → Incoming P
  done : Incoming P

-- How Receive ended, with what it sent on the channel of errors.
pub data Received : Type 0 where
  waiting : Received
  stopped : Received
  terminal : Option (List ℕ) → Received

module _ {P : Type 0} (peer : Peer P) where
  -- A packet that does not decode is skipped.
  unfoldable pub receive : List (Incoming P) → List (List ℕ) × Received
  unfolding int16_le_to_bytes is_close_err
  receive [] = ([], waiting)
  receive (done ∷ ins) = ([], stopped)
  receive (end_of_file ∷ ins) = ([], terminal none)
  receive (read_error e ∷ ins) = ([], terminal (if is_close_err e then none else some e))
  receive (packet p ∷ ins) =
      let (frames, end) = receive ins in
      elim (peer.decode p) [
        | err e ↦ (frames, end)
        | ok samples ↦ (int16_le_to_bytes samples ∷ frames, end)
      ]

pub data Op : Type 0 where
  sends : Frame → Op
  paces : Op
  clears : Op
  closes : Op

module _ {P : Type 0} (peer : Peer P) where
  unfoldable pub step : Op → Transport P → Transport P
  unfolding send pace clear close
  step (sends f) t = (send peer f t).0
  step paces t = pace peer t
  step clears t = clear peer t
  step closes t = (close peer t).0

  unfoldable pub run : List Op → Transport P → Transport P
  unfolding step
  run [] t = t
  run (o ∷ os) t = run os (step o t)
