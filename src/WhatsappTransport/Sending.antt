-- ===== src/WhatsappTransport/Sending.antt =====
-- voice/transport/whatsapp/transport.go: what becomes of the audio that is sent.
pub mod Runs
use gopkg.Common.{
  ℕ, zero, suc, ◌+◌, ◌-◌, ◌≤◌, ◌<◌, ◌≡◌, ◌∙◌, refl, sym, ap, ap₂, subst, arith, ◌⊎◌, inl, inr, Bool,
  true, false, List, [], ◌∷◌, ◌++◌, append_assoc, append-nil, Option, none, some, Option-cases,
  Result-cases, String, length, length-append, length-take, length-drop, take, drop,
  take-append-drop, ltb, leb, if◌then◌else◌, if_both, if_true, if_false, List-cases, Bool-cases,
  Result, ok, err, ok-injective, All, append-All,
}
use gopkg.VoicePipeline.{Frame}
use gopkg.WhatsappTransport.{
  bytes_to_int16_le, Peer, Transport, silence, with_silence, started, new_transport, enqueue,
  take_frame, encode_frames, buffer, send_open, send, write_next, pace, clear, close, Op, sends,
  paces, clears, closes, step, run, queue_capacity, out_frame_samples,
}

abbrev pub concat : List (List ℕ) → List ℕ
concat [] = []
concat (xs ∷ xss) = xs ++ concat xss

-- The samples that Send was given while the transport was open.
unfoldable pub heard : Bool → List Op → List ℕ
unfolding bytes_to_int16_le
heard closed [] = []
heard closed (sends f ∷ os) =
    let rest = heard closed os in if closed then rest else bytes_to_int16_le f.bytes ++ rest
heard closed (paces ∷ os) = heard closed os
heard closed (clears ∷ os) = heard closed os
heard closed (closes ∷ os) = heard true os

-- The encoder has had full frames only, the queue is bounded, and the connection is closed at most once.
pub record Inv {P : Type 0} (t : Transport P) : Type 0 where
  pub full : All (λ (f : List ℕ). length f ≡ 480) t.encoded
  pub bounded : length t.out_queue ≤ 1000
  pub closed_once : t.peer_closes ≡ (if t.closed then 1 else 0)

-- The encoder's frames and the buffer, in order.
unfoldable pub stream : {P : Type 0} → Transport P → List ℕ
stream t = concat t.encoded ++ t.send_buf

pub concat-append : (xss yss : List (List ℕ)) → concat (xss ++ yss) ≡ concat xss ++ concat yss
concat-append [] yss = refl
concat-append (xs ∷ xss) yss =
    ap (λ zs. xs ++ zs) (concat-append xss yss) ∙ sym (append_assoc xs (concat xss) (concat yss))

started-same :
    {P : Type 0} (d e : Option String) (r : Result String P) (t : Transport P)
    → started d e r ≡ ok t
    → (p : P) × (t ≡ with_silence p)
unfolding started
started-same (some x) e r t h = absurd (ground (arith, h))
started-same none (some x) r t h = absurd (ground (arith, h))
started-same none none (err x) t h = absurd (ground (arith, h))
started-same none none (ok p) t h = (p, sym (ok-injective h))

-- A transport that New returned.
pub new_transport-started :
    {P : Type 0} (peer : Peer P) (t : Transport P)
    → new_transport peer ≡ ok t
    → (p : P) × (t ≡ with_silence p)
unfolding new_transport
new_transport-started peer t h =
    started-same peer.new_decoder peer.new_encoder (peer.encode [] silence) t h

module _ {P : Type 0} (peer : Peer P) where
  pub take_frame-stream : (t : Transport P) → stream (take_frame peer t) ≡ stream t
  unfolding stream take_frame
  take_frame-stream t =
      ap (λ zs. zs ++ drop 480 t.send_buf)
        (concat-append t.encoded (take 480 t.send_buf ∷ [])
          ∙ ap (λ zs. concat t.encoded ++ zs) (append-nil (take 480 t.send_buf)))
      ∙ append_assoc (concat t.encoded) (take 480 t.send_buf) (drop 480 t.send_buf)
      ∙ ap (λ zs. concat t.encoded ++ zs) (take-append-drop 480 t.send_buf)

  pub take_frame-closed : (t : Transport P) → (take_frame peer t).closed ≡ t.closed
  unfolding take_frame
  take_frame-closed t = refl

  pub length-take_frame :
      (t : Transport P) (n : ℕ)
      → 480 ≤ length t.send_buf
      → length t.send_buf ≤ suc n
      → length (take_frame peer t).send_buf ≤ n
  unfolding take_frame
  length-take_frame t n le le' = omega (arith, le, le', length-drop 480 t.send_buf)

  pub take_frame-Inv : (t : Transport P) → 480 ≤ length t.send_buf → Inv t → Inv (take_frame peer t)
  unfolding take_frame
  take_frame-Inv t le v = record {
    full =
        append-All (λ (f : List ℕ). length f ≡ 480) t.encoded (take 480 t.send_buf ∷ []) v.full
          (ground (arith, length-take 480 t.send_buf, le), tt);
    bounded = v.bounded;
    closed_once = v.closed_once;
  }

  pub enqueue-Inv : (p : P) (t : Transport P) → Inv t → Inv (enqueue peer p t)
  unfolding enqueue
  enqueue-Inv p t v =
      if_both Inv (ltb (length t.out_queue) 1000) (record t { out_queue = t.out_queue ++ p ∷ [] }) t
        (λ room. record {
          full = v.full;
          bounded = ground (arith, room, length-append t.out_queue (p ∷ []));
          closed_once = v.closed_once;
        })
        (λ crowded. v)

  pub enqueue-stream :
      (p : P) (t : Transport P)
      → (stream (enqueue peer p t) ≡ stream t)
        × ((enqueue peer p t).closed ≡ t.closed)
        × ((enqueue peer p t).send_buf ≡ t.send_buf)
  unfolding enqueue stream
  enqueue-stream p t =
      if_both
        (λ (x : Transport P).
          (stream x ≡ stream t) × (x.closed ≡ t.closed) × (x.send_buf ≡ t.send_buf))
        (ltb (length t.out_queue) 1000) (record t { out_queue = t.out_queue ++ p ∷ [] }) t
        (λ room. (refl, refl, refl)) (λ crowded. (refl, refl, refl))

  -- What a call of the loop keeps, and that it leaves less than a frame if it meets no error.
  pub record Sent (fuel : ℕ) (t : Transport P) (r : Transport P × Option String) : Type 0 where
    pub inv : Inv t → Inv r.0
    pub same : stream r.0 ≡ stream t
    pub open_still : r.0.closed ≡ t.closed
    pub short : length t.send_buf ≤ fuel → r.1 ≡ none → length r.0.send_buf < 480

  pub encode_frames-Sent : (fuel : ℕ) (t : Transport P) → Sent fuel t (encode_frames peer fuel t)
  unfolding encode_frames
  encode_frames-Sent zero t = record {
    inv = λ v. v;
    same = refl;
    open_still = refl;
    short = λ le e. omega (arith, le);
  }
  encode_frames-Sent (suc fuel) t = elim (Bool-cases (leb 480 (length t.send_buf))) [
    | inr few ↦
        rw (few, encode_frames)
          (record {
            inv = λ v. v;
            same = refl;
            open_still = refl;
            short = λ le e. ground (arith, few);
          })
    | inl many ↦
        let le : 480 ≤ length t.send_buf = ground (arith, many) in
        elim (Result-cases (peer.encode t.encoded (take 480 t.send_buf))) [
          | inr (e, bad) ↦
              rw (many, encode_frames, bad)
                (record {
                  inv = take_frame-Inv t le;
                  same = take_frame-stream t;
                  open_still = take_frame-closed t;
                  short = λ n h. absurd (ground (arith, h));
                })
          | inl (p, good) ↦
              let next = enqueue peer p (take_frame peer t) in
              let s = encode_frames-Sent fuel next in
              let (kept, still, buf) = enqueue-stream p (take_frame peer t) in
              rw (many, encode_frames, good)
                (record {
                  inv = λ v. s.inv (enqueue-Inv p (take_frame peer t) (take_frame-Inv t le v));
                  same = s.same ∙ kept ∙ take_frame-stream t;
                  open_still = s.open_still ∙ still ∙ take_frame-closed t;
                  short = λ n h.
                      s.short
                        (subst (λ zs. length zs ≤ fuel) (sym buf) (length-take_frame t fuel le n))
                        h;
                })
        ]
  ]
