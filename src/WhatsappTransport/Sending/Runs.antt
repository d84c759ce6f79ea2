-- ===== src/WhatsappTransport/Sending/Runs.antt =====
-- voice/transport/whatsapp/transport.go: every run of calls keeps the audio in order.
use gopkg.Common.{
  ℕ, suc, ◌+◌, ◌<◌, ◌≡◌, ◌∙◌, refl, sym, ap, ap₂, subst, arith, ok, inl, inr, Bool, true, false,
  List, [], ◌∷◌, ◌++◌, append_assoc, append-nil, Option, none, String, length, length-append,
  if◌then◌else◌, if_both, if_true, if_false, List-cases, Bool-cases,
}
use gopkg.VoicePipeline.{Frame}
use gopkg.WhatsappTransport.{
  bytes_to_int16_le, Peer, Transport, silence, zeros, with_silence, new_transport, buffer,
  send_open, send, write_next, pace, clear, close, Op, sends, paces, clears, closes, step, run,
}
use gopkg.WhatsappTransport.Sending.{
  concat, heard, Inv, stream, Sent, encode_frames-Sent, new_transport-started,
}

module _ {P : Type 0} (peer : Peer P) where
  send_open-Sent :
      (f : Frame) (t : Transport P)
      → Sent peer
          (length t.send_buf + length (bytes_to_int16_le f.bytes))
          (buffer peer (bytes_to_int16_le f.bytes) t)
          (send_open peer f t)
  unfolding send_open buffer
  send_open-Sent f t =
      let samples = bytes_to_int16_le f.bytes in
      let s = encode_frames-Sent peer (length (t.send_buf ++ samples)) (buffer peer samples t) in
      record {
        inv = s.inv;
        same = s.same;
        open_still = s.open_still;
        short = λ le e. s.short (omega arith) e;
      }

  -- Send on an open transport that returns no error leaves less than a frame of samples behind.
  pub send_leaves_less :
      (f : Frame) (t : Transport P)
      → t.closed ≡ false
      → (send peer f t).1 ≡ none
      → length (send peer f t).0.send_buf < 480
  unfolding send buffer
  send_leaves_less f t on =
      if_both (λ (r : Transport P × Option String). r.1 ≡ none → length r.0.send_buf < 480) t.closed
        (t, none) (send_open peer f t) (λ off. absurd (ground (arith, on, off)))
        (λ on' e.
          (send_open-Sent f t).short
            (omega (arith, length-append t.send_buf (bytes_to_int16_le f.bytes))) e)

  send-Inv : (f : Frame) (t : Transport P) → Inv t → Inv (send peer f t).0
  unfolding send buffer
  send-Inv f t v =
      if_both (λ (r : Transport P × Option String). Inv r.0) t.closed (t, none) (send_open peer f t)
        (λ off. v)
        (λ on.
          (send_open-Sent f t).inv
            (record { full = v.full; bounded = v.bounded; closed_once = v.closed_once }))

  write_next-Inv : (t : Transport P) → Inv t → Inv (write_next peer t)
  unfolding write_next
  write_next-Inv t v = elim (List-cases t.out_queue) [
    | inl e ↦
        rw (e, write_next)
          (record { full = v.full; bounded = omega arith; closed_once = v.closed_once })
    | inr (p, rest, e) ↦
        rw (e, write_next)
          (record {
            full = v.full;
            bounded = ground (arith, v.bounded, e);
            closed_once = v.closed_once;
          })
  ]

  step-Inv : (o : Op) (t : Transport P) → Inv t → Inv (step peer o t)
  unfolding step pace write_next clear close
  step-Inv (sends f) t v = send-Inv f t v
  step-Inv paces t v =
      if_both Inv t.closed t (write_next peer t) (λ off. v) (λ on. write_next-Inv t v)
  step-Inv clears t v = record { full = v.full; bounded = omega arith; closed_once = v.closed_once }
  step-Inv closes t v =
      if_both (λ (r : Transport P × Option String). Inv r.0) t.closed (t, none)
        (record t { closed = true; peer_closes = suc t.peer_closes }, peer.close) (λ off. v)
        (λ on. record {
          full = v.full;
          bounded = v.bounded;
          closed_once = ground (arith, v.closed_once, on);
        })

  run-Inv : (os : List Op) (t : Transport P) → Inv t → Inv (run peer os t)
  unfolding run
  run-Inv [] t v = v
  run-Inv (o ∷ os) t v = run-Inv os (step peer o t) (step-Inv o t v)

  with_silence-Inv : (p : P) → Inv (with_silence p)
  unfolding with_silence zeros
  with_silence-Inv p = record { full = (refl, tt); bounded = omega arith; closed_once = refl }

  -- Whatever calls were made of a transport that New returned, and whatever the encoder said: the
  -- encoder was given frames of 480 samples only, at most 1000 packets wait, and the connection is
  -- closed once, when the transport is.
  pub transport-Inv :
      (t : Transport P) → new_transport peer ≡ ok t → (os : List Op) → Inv (run peer os t)
  transport-Inv t e os =
      run-Inv os t (
        let (p, same) = new_transport-started peer t e in subst Inv (sym same) (with_silence-Inv p))

  write_next-stream :
      (t : Transport P)
      → (stream (write_next peer t) ≡ stream t) × ((write_next peer t).closed ≡ t.closed)
  unfolding write_next stream
  write_next-stream t = elim (List-cases t.out_queue) [
    | inl e ↦ rw (e, write_next) (refl, refl)
    | inr (p, rest, e) ↦ rw (e, write_next) (refl, refl)
  ]

  close-stream :
      (t : Transport P) → (stream (close peer t).0 ≡ stream t) × ((close peer t).0.closed ≡ true)
  unfolding close stream
  close-stream t =
      if_both (λ (r : Transport P × Option String). (stream r.0 ≡ stream t) × (r.0.closed ≡ true))
        t.closed (t, none) (record t { closed = true; peer_closes = suc t.peer_closes }, peer.close)
        (λ off. (refl, off)) (λ on. (refl, refl))

  regroup :
      (b : Bool) (xs ys zs : List ℕ)
      → (if b then xs else xs ++ ys) ++ zs ≡ xs ++ (if b then zs else ys ++ zs)
  regroup true xs ys zs = refl
  regroup false xs ys zs = append_assoc xs ys zs

  pace-stream :
      (t : Transport P) → (stream (pace peer t) ≡ stream t) × ((pace peer t).closed ≡ t.closed)
  unfolding pace stream
  pace-stream t =
      if_both (λ (x : Transport P). (stream x ≡ stream t) × (x.closed ≡ t.closed)) t.closed t
        (write_next peer t) (λ off. (refl, refl)) (λ on. write_next-stream t)

  send-stream :
      (f : Frame) (t : Transport P)
      → (stream (send peer f t).0
          ≡ (if t.closed then stream t else stream t ++ bytes_to_int16_le f.bytes))
        × ((send peer f t).0.closed ≡ t.closed)
  unfolding send stream buffer
  send-stream f t = elim (Bool-cases t.closed) [
    | inl off ↦
        let e = if_true t.closed (t, none) (send_open peer f t) off in
        (
          ap (λ (r : Transport P × Option String). stream r.0) e
              ∙ sym (if_true t.closed (stream t) (stream t ++ bytes_to_int16_le f.bytes) off),
          ap (λ (r : Transport P × Option String). r.0.closed) e,
        )
    | inr on ↦
        let s = send_open-Sent f t in
        let e = if_false t.closed (t, none) (send_open peer f t) on in
        (
          ap (λ (r : Transport P × Option String). stream r.0) e
              ∙ s.same
              ∙ sym (append_assoc (concat t.encoded) t.send_buf (bytes_to_int16_le f.bytes))
              ∙ sym (if_false t.closed (stream t) (stream t ++ bytes_to_int16_le f.bytes) on),
          ap (λ (r : Transport P × Option String). r.0.closed) e ∙ s.open_still,
        )
  ]

  run-stream :
      (os : List Op) (t : Transport P) → stream (run peer os t) ≡ stream t ++ heard t.closed os
  unfolding run step heard stream
  run-stream [] t = sym (append-nil (stream t))
  run-stream (sends f ∷ os) t =
      let (e, still) = send-stream f t in
      run-stream os (send peer f t).0
      ∙ ap₂ (λ zs b. zs ++ heard b os) e still
      ∙ regroup t.closed (stream t) (bytes_to_int16_le f.bytes) (heard t.closed os)
  run-stream (paces ∷ os) t =
      let (e, still) = pace-stream t in
      run-stream os (pace peer t) ∙ ap₂ (λ zs b. zs ++ heard b os) e still
  run-stream (clears ∷ os) t = run-stream os (clear peer t)
  run-stream (closes ∷ os) t =
      let (e, still) = close-stream t in
      run-stream os (close peer t).0 ∙ ap₂ (λ zs b. zs ++ heard b os) e still

  with_silence-stream :
      (p : P) (os : List Op)
      → stream (with_silence p) ++ heard (with_silence p).closed os ≡ silence ++ heard false os
  unfolding with_silence stream
  with_silence-stream p os =
      ap (λ zs. zs ++ heard false os) (append-nil (silence ++ []) ∙ append-nil silence)

  -- No sample is lost, doubled or reordered on the way to the encoder of a transport that New returned:
  -- its frames, one after the other, and the samples that wait for a full frame are New's frame of
  -- silence and all that Send was given before the transport was closed.
  pub samples_kept :
      (t : Transport P)
      → new_transport peer ≡ ok t
      → (os : List Op)
      → concat (run peer os t).encoded ++ (run peer os t).send_buf ≡ silence ++ heard false os
  unfolding stream
  samples_kept t e os =
      run-stream os t
      ∙ (let (p, same) = new_transport-started peer t e in
          subst (λ x. stream x ++ heard x.closed os ≡ silence ++ heard false os) (sym same)
            (with_silence-stream p os))
