-- ===== src/ProviderRegistry/Accepted.antt =====
-- communication/provider/registry.go: both maps of the registry are views of one list, that of the
-- providers it took, in the order of the calls.
use gopkg.Common.{
  ◌≡◌, ◌∙◌, refl, sym, ap, arith, false, inl, inr, Bool-cases, List, [], ◌∷◌, ◌++◌, append_assoc,
  append-nil, length-append, Option, none, some, String, str_eq, is_some, length, if◌then◌else◌,
  string_comparable,
}
use gopkg.Common.Assoc
use gopkg.ProviderRegistry.{
  Registry, new_registry, slice_of, add_channels, register_one, register, get, by_channel, len,
}

-- `p` once for each time that the channel stands in the list.
unfoldable pub listings : {P : Type 0} → String → P → List String → List P
listings ch p [] = []
listings ch p (c ∷ cs) = let rest = listings ch p cs in if str_eq c ch then p ∷ rest else rest

slice-insert :
    {P : Type 0} (ch c : String) (ps : List P) (m : List (String × List P))
    → slice_of ch (Assoc.insert c ps m) ≡ (if str_eq c ch then ps else slice_of ch m)
unfolding slice_of
slice-insert ch c ps m = ground (arith, Assoc.lookup-insert c ch ps m)

slice_grows :
    {P : Type 0} (ch c : String) (p : P) (m : List (String × List P)) (rest : List P)
    → slice_of ch (Assoc.insert c (slice_of c m ++ p ∷ []) m) ++ rest
      ≡ slice_of ch m ++ (if str_eq c ch then p ∷ rest else rest)
slice_grows ch c p m rest = elim (Bool-cases (str_eq c ch)) [
  | inl e ↦
      let same : c ≡ ch = (string_comparable.beq_iff c ch).0 e in
      rw (slice-insert ch c (slice_of c m ++ p ∷ []) m, e, same)
        (append_assoc (slice_of ch m) (p ∷ []) rest)
  | inr e ↦ rw (slice-insert ch c (slice_of c m ++ p ∷ []) m, e) refl
]

slice-add_channels :
    {P : Type 0} (ch : String) (chs : List String) (p : P) (m : List (String × List P))
    → slice_of ch (add_channels chs p m) ≡ slice_of ch m ++ listings ch p chs
unfolding add_channels listings
slice-add_channels ch [] p m = sym (append-nil (slice_of ch m))
slice-add_channels ch (c ∷ cs) p m =
    slice-add_channels ch cs p (Assoc.insert c (slice_of c m ++ p ∷ []) m)
    ∙ slice_grows ch c p m (listings ch p cs)

module _ {P : Type 0} (code : P → String) where
  -- The first provider of a code.
  unfoldable pub find : String → List P → Option P
  find c [] = none
  find c (p ∷ ps) = if str_eq (code p) c then some p else find c ps

  -- A provider is taken when it has a code that no provider before it has.
  unfoldable pub take_one : P → List P → List P
  unfolding find
  take_one p ps =
      if str_eq (code p) "" then ps else if is_some (find (code p) ps) then ps else ps ++ p ∷ []

  unfoldable pub accepted : List (Option P) → List P → List P
  unfolding take_one
  accepted [] ps = ps
  accepted (none ∷ calls) ps = accepted calls ps
  accepted (some p ∷ calls) ps = accepted calls (take_one p ps)

module _ {P : Type 0} (code : P → String) (supported_channels : P → List String) where
  -- The providers of a channel.
  unfoldable pub supporters : String → List P → List P
  unfolding listings
  supporters ch [] = []
  supporters ch (p ∷ ps) = listings ch p (supported_channels p) ++ supporters ch ps

  unfoldable pub register_all : List (Option P) → Registry P → Registry P
  unfolding register
  register_all [] r = r
  register_all (p ∷ calls) r = register_all calls (register code supported_channels p r).0

  pub record Agrees (r : Registry P) (ps : List P) : Type 0 where
    pub gets : (c : String) → get c r ≡ find code c ps
    pub lists : (ch : String) → by_channel ch r ≡ supporters ch ps
    pub counts : len r ≡ length ps

  find-snoc :
      (c : String) (ps : List P) (p : P)
      → find code c (ps ++ p ∷ []) ≡ (
          if is_some (find code c ps)
          then find code c ps
          else if str_eq (code p) c
          then some p
          else none)
  unfolding find
  find-snoc c [] p = refl
  find-snoc c (q ∷ ps) p = ground (arith, find-snoc c ps p)

  supporters-snoc :
      (ch : String) (ps : List P) (p : P)
      → supporters ch (ps ++ p ∷ []) ≡ supporters ch ps ++ listings ch p (supported_channels p)
  unfolding supporters
  supporters-snoc ch [] p = append-nil (listings ch p (supported_channels p))
  supporters-snoc ch (q ∷ ps) p =
      ap (λ zs. listings ch q (supported_channels q) ++ zs) (supporters-snoc ch ps p)
      ∙ sym (
          append_assoc (listings ch q (supported_channels q)) (supporters ch ps)
            (listings ch p (supported_channels p)))

  the_same :
      (c : String) (r : Registry P) (ps : List P)
      → Agrees r ps
      → is_some (Assoc.lookup c r.providers) ≡ is_some (find code c ps)
  unfolding get
  the_same c r ps a = ap (λ x. is_some x) (a.gets c)

  added-Agrees :
      (p : P) (r : Registry P) (ps : List P)
      → Agrees r ps
      → is_some (find code (code p) ps) ≡ false
      → Agrees
          (record {
            providers = Assoc.insert (code p) p r.providers;
            by_channel = add_channels (supported_channels p) p r.by_channel;
          })
          (ps ++ p ∷ [])
  unfolding get by_channel len
  added-Agrees p r ps a fresh = record {
    gets = λ c. ground (
      arith,
      Assoc.lookup-insert (code p) c p r.providers,
      find-snoc c ps p,
      string_comparable.beq_iff (code p) c,
      a.gets c,
      fresh,
    );
    lists = λ ch.
        slice-add_channels ch (supported_channels p) p r.by_channel
        ∙ ap (λ zs. zs ++ listings ch p (supported_channels p)) (a.lists ch)
        ∙ sym (supporters-snoc ch ps p);
    counts = ground (
      arith,
      Assoc.length-insert (code p) p r.providers,
      a.gets (code p),
      fresh,
      a.counts,
      length-append ps (p ∷ []),
    );
  }

  one-Agrees :
      (p : P) (r : Registry P) (ps : List P)
      → Agrees r ps
      → Agrees (register_one code supported_channels p r).0 (take_one code p ps)
  unfolding register_one take_one
  one-Agrees p r ps a = elim (Bool-cases (str_eq (code p) "")) [
    | inl e ↦ rw (e) a
    | inr e ↦ elim (Bool-cases (is_some (find code (code p) ps))) [
      | inl old ↦ rw (e, the_same (code p) r ps a, old) a
      | inr fresh ↦ rw (e, the_same (code p) r ps a, fresh) (added-Agrees p r ps a fresh)
    ]
  ]

  register_all-Agrees :
      (calls : List (Option P)) (r : Registry P) (ps : List P)
      → Agrees r ps
      → Agrees (register_all calls r) (accepted code calls ps)
  unfolding register_all accepted register
  register_all-Agrees [] r ps a = a
  register_all-Agrees (none ∷ calls) r ps a = register_all-Agrees calls r ps a
  register_all-Agrees (some p ∷ calls) r ps a =
      register_all-Agrees calls (register_one code supported_channels p r).0 (take_one code p ps)
        (one-Agrees p r ps a)

  -- Whatever was registered: Get finds the first provider that was accepted with a code, ByChannel lists
  -- the accepted providers of a channel in the order of their calls, as often as each names it, and Len
  -- counts the accepted ones.
  pub registered-Agrees :
      (calls : List (Option P)) → Agrees (register_all calls new_registry) (accepted code calls [])
  unfolding new_registry get find by_channel slice_of supporters len Assoc.lookup
  registered-Agrees calls =
      register_all-Agrees calls new_registry []
        (record { gets = λ c. refl; lists = λ ch. refl; counts = refl })
