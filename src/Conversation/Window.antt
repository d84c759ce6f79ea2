-- ===== src/Conversation/Window.antt =====
-- ai/conversation/cache.go: a conversation is the last 20 of the messages that were appended to it.
use gopkg.Common.{
  ℕ, zero, suc, ◌+◌, ◌-◌, ◌≤◌, ◌<◌, ◌≡◌, ◌∙◌, refl, sym, ap, ap₂, subst, arith, inl, inr, List, [],
  ◌∷◌, ◌++◌, append_assoc, append-nil, length, drop, length-append, length-drop, Option, none, some,
  Option-cases, Result-cases, Bool-cases, String, ltb, ok,
}
use gopkg.Conversation.{
  Message, Error, Redis, conversation_ttl, conversation_max_items, last_messages, stamp, decode,
  get_messages, save, store, append,
}

-- What Redis and the JSON package document: a value that was set is the one that is read until its
-- time to live is over, and what was encoded decodes to itself.
pub record Laws (redis : Redis) : Type 0 where
  pub set_get :
      (now ttl t : ℕ) (key : String) (d : redis.Data) (s s' : redis.State)
      → redis.set now ttl key d s ≡ (s', none)
      → now ≤ t
      → t < now + ttl
      → redis.get t key s' ≡ ok (some d)
  pub decodes :
      (msgs : List Message) (d : redis.Data)
      → redis.marshal msgs ≡ ok d
      → redis.unmarshal d ≡ ok msgs

drop-append : (n : ℕ) (xs ys : List Message) → n ≤ length xs → drop n (xs ++ ys) ≡ drop n xs ++ ys
drop-append zero xs ys le = refl
drop-append (suc n) [] ys le = absurd (omega (arith, le))
drop-append (suc n) (x ∷ xs) ys le = drop-append n xs ys (omega (arith, le))

plus_suc : (m n : ℕ) → m + suc n ≡ suc (m + n)
plus_suc m n = omega arith

drop-nil : (n : ℕ) → drop {A = Message} n [] ≡ []
drop-nil zero = refl
drop-nil (suc n) = refl

drop-drop : (m n : ℕ) (xs : List Message) → drop m (drop n xs) ≡ drop (m + n) xs
drop-drop m zero xs = ap (λ k. drop k xs) (omega arith)
drop-drop zero (suc n) [] = sym (drop-nil (zero + suc n))
drop-drop (suc m) (suc n) [] = sym (drop-nil (suc m + suc n))
drop-drop m (suc n) (x ∷ xs) = drop-drop m n xs ∙ sym (ap (λ k. drop k (x ∷ xs)) (plus_suc m n))

last-drop : (n : ℕ) (xs : List Message) → last_messages n xs ≡ drop (length xs - n) xs
unfolding last_messages
last-drop n xs = elim (Bool-cases (ltb n (length xs))) [
  | inl more ↦ rw more refl
  | inr few ↦ let e : length xs - n ≡ 0 = ground (arith, few) in rw (few, e) refl
]

last-append :
    (n : ℕ) (xs ys : List Message)
    → last_messages n (last_messages n xs ++ ys) ≡ last_messages n (xs ++ ys)
last-append n xs ys =
    let k = length xs - n in
    ap (λ zs. last_messages n (zs ++ ys)) (last-drop n xs)
    ∙ ap (last_messages n) (sym (drop-append k xs ys (omega arith)))
    ∙ last-drop n (drop k (xs ++ ys))
    ∙ drop-drop (length (drop k (xs ++ ys)) - n) k (xs ++ ys)
    ∙ ap (λ j. drop j (xs ++ ys)) (omega (arith, length-drop k (xs ++ ys), length-append xs ys))
    ∙ sym (last-drop n (xs ++ ys))

length-last : (n : ℕ) (xs : List Message) → length (last_messages n xs) ≤ n
length-last n xs =
    subst (λ zs. length zs ≤ n) (sym (last-drop n xs))
      (omega (arith, length-drop (length xs - n) xs))

last-all : (n : ℕ) (xs : List Message) → length xs ≤ n → last_messages n xs ≡ xs
unfolding last_messages
last-all n xs le = ground (arith, le)

module _ (redis : Redis) (laws : Laws redis) (key : String) where
  stored :
      (now t : ℕ) (msgs : List Message) (s s' : redis.State)
      → store redis now key msgs s ≡ (s', none)
      → now ≤ t
      → t < now + conversation_ttl
      → get_messages redis t key s' ≡ ok msgs
  unfolding store save get_messages decode
  stored now t msgs s s' h from until = elim (Result-cases (redis.marshal msgs)) [
    | inr (e, bad) ↦ absurd (ground (arith, h, bad))
    | inl (d, good) ↦ elim (Option-cases (redis.set now conversation_ttl key d s).1) [
      | inl fine ↦
          let at : (redis.set now conversation_ttl key d s).0 ≡ s' =
            ground (arith, h, good, fine) in
          rw
            (
              laws.set_get now conversation_ttl t key d s s' (ap₂ (λ a b. (a, b)) at fine) from
                  until,
              get_messages,
              laws.decodes msgs d good,
              decode,
            )
            refl
      | inr (e, bad) ↦ absurd (ground (arith, h, good, bad))
    ]
  ]

  appended :
      (now t : ℕ) (m : Message) (msgs : List Message) (s s' : redis.State)
      → get_messages redis now key s ≡ ok msgs
      → append redis key now m s ≡ (s', none)
      → now ≤ t
      → t < now + conversation_ttl
      → get_messages redis t key s'
        ≡ ok (last_messages conversation_max_items (msgs ++ stamp now m ∷ []))
  unfolding append
  appended now t m msgs s s' at h from until =
      stored now t (last_messages conversation_max_items (msgs ++ stamp now m ∷ [])) s s'
        (sym (rw (at, append) refl) ∙ h) from until

-- A client that appends messages, each at its time, until one fails.
unfoldable pub append_all :
    (redis : Redis) → String → List (ℕ × Message) → redis.State → redis.State × Option Error
unfolding append
append_all redis key [] s = (s, none)
append_all redis key ((now, m) ∷ ms) s =
    let (s', e) = append redis key now m s in
    elim e [ some x ↦ (s', some x) | none ↦ append_all redis key ms s' ]

unfoldable pub stamped : List (ℕ × Message) → List Message
unfolding stamp
stamped [] = []
stamped ((now, m) ∷ ms) = stamp now m ∷ stamped ms

-- From `last` on, nothing waits for an hour: each message follows the one before it within the time to
-- live, and the reading at `t` the last one.
unfoldable pub Lively : ℕ → List (ℕ × Message) → ℕ → Type 0
Lively last [] t = (last ≤ t) × (t < last + 3600000000000)
Lively last ((now, m) ∷ ms) t = (last ≤ now) × (now < last + 3600000000000) × Lively now ms t

-- When the conversation is read next.
next_time : List (ℕ × Message) → ℕ → ℕ
next_time [] t = t
next_time ((now, m) ∷ ms) t = now

next-Lively :
    (last : ℕ) (ms : List (ℕ × Message)) (t : ℕ)
    → Lively last ms t
    → (last ≤ next_time ms t) × (next_time ms t < last + 3600000000000)
unfolding Lively next_time
next-Lively last [] t v = v
next-Lively last ((now, m) ∷ ms) t (from, until, rest) = (from, until)

-- The messages after the first one follow in time.
LivelyFrom : List (ℕ × Message) → ℕ → Type 0
unfolding Lively
LivelyFrom [] t = Unit
LivelyFrom ((now, m) ∷ ms) t = Lively now ms t

later-Lively : (last : ℕ) (ms : List (ℕ × Message)) (t : ℕ) → Lively last ms t → LivelyFrom ms t
unfolding Lively LivelyFrom
later-Lively last [] t v = tt
later-Lively last ((now, m) ∷ ms) t (from, until, rest) = rest

module _ (redis : Redis) (laws : Laws redis) (key : String) where
  window_from :
      (ms : List (ℕ × Message)) (old : List Message) (s s' : redis.State) (t : ℕ)
      → length old ≤ 20
      → get_messages redis (next_time ms t) key s ≡ ok old
      → LivelyFrom ms t
      → append_all redis key ms s ≡ (s', none)
      → get_messages redis t key s' ≡ ok (last_messages 20 (old ++ stamped ms))
  unfolding append_all stamped next_time LivelyFrom
  window_from [] old s s' t few at live h =
      ap (λ (p : redis.State × Option Error). get_messages redis t key p.0) (sym h)
      ∙ at
      ∙ ap ok (sym (last-all 20 old few) ∙ ap (last_messages 20) (sym (append-nil old)))
  window_from ((now, m) ∷ ms) old s s' t few at live h =
      elim (Option-cases (append redis key now m s).1) [
        | inr (e, bad) ↦ absurd (ground (arith, h, bad))
        | inl fine ↦
            let u = (append redis key now m s).0 in
            let next = last_messages 20 (old ++ stamp now m ∷ []) in
            let (from, until) = next-Lively now ms t live in
            window_from ms next u s' t (length-last 20 (old ++ stamp now m ∷ []))
              (appended redis laws key now (next_time ms t) m old s u at (ap (λ e. (u, e)) fine)
                from until)
              (later-Lively now ms t live) (sym (rw (fine, append_all) refl) ∙ h)
            ∙ ap ok (
                last-append 20 (old ++ stamp now m ∷ []) (stamped ms)
                ∙ ap (last_messages 20) (append_assoc old (stamp now m ∷ []) (stamped ms)))
      ]

  pub append_all_window :
      (now : ℕ) (m : Message) (ms : List (ℕ × Message)) (old : List Message) (s s' : redis.State)
      (t : ℕ)
      → length old ≤ 20
      → get_messages redis now key s ≡ ok old
      → Lively now ms t
      → append_all redis key ((now, m) ∷ ms) s ≡ (s', none)
      → get_messages redis t key s' ≡ ok (last_messages 20 (old ++ stamped ((now, m) ∷ ms)))
  unfolding next_time LivelyFrom
  append_all_window now m ms old s s' t few at live h =
      window_from ((now, m) ∷ ms) old s s' t few at live h
