-- ===== src/PaymentGateway/Callback.antt =====
-- financial/paymentgateway/paymentgateway.go: the reference survives its way through the callback URL.
use gopkg.Common.{
  ℕ, ◌≡◌, ◌∙◌, refl, ap, arith, inl, inr, false, List, [], ◌∷◌, ◌++◌, append-nil, none, some,
  Bool-cases, ◌==◌, ok, All,
}
use gopkg.PaymentGateway.{
  cut_at, trim_suffix, is_empty, trim_right, after_last, build_callback_url_with_reference,
  non_empty, last_segment, extract_trimmed, extract_reference_from_path,
}

-- A text without the code point c.
unfoldable pub Free : ℕ → List ℕ → Type 0
Free c xs = All (λ x. (x == c) ≡ false) xs

-- A query: nothing, or a text that begins with "?".
abbrev Query : List ℕ → Type 0
Query [] = Unit
Query (x ∷ xs) = x ≡ 63

cut-Free : (c : ℕ) (xs : List ℕ) → Free c (cut_at c xs).0
unfolding cut_at Free
cut-Free c [] = tt
cut-Free c (x ∷ xs) = elim (Bool-cases (x == c)) [
  | inl here ↦ rw here tt
  | inr there ↦ rw there (there, cut-Free c xs)
]

cut-Query : (xs : List ℕ) → Query (cut_at 63 xs).1
unfolding cut_at
cut-Query [] = tt
cut-Query (x ∷ xs) = elim (Bool-cases (x == 63)) [
  | inl here ↦ rw here (ground (arith, here))
  | inr there ↦ rw there (cut-Query xs)
]

trim_suffix-Free : (c : ℕ) (xs : List ℕ) → Free c xs → Free c (trim_suffix xs)
unfolding trim_suffix Free
trim_suffix-Free c [] f = tt
trim_suffix-Free c (x ∷ []) (f, fs) = elim (Bool-cases (x == 47)) [
  | inl slash ↦ rw slash tt
  | inr other ↦ rw other (f, tt)
]
trim_suffix-Free c (x ∷ y ∷ ys) (f, fs) = (f, trim_suffix-Free c (y ∷ ys) fs)

trim_right-Query : (q : List ℕ) → Query q → Query (trim_right q)
unfolding trim_right
trim_right-Query [] h = tt
trim_right-Query (x ∷ xs) h = elim (Bool-cases (x == 47)) [
  | inl slash ↦ absurd (ground (arith, slash, h))
  | inr other ↦ rw other h
]

trim_right-append : (xs q : List ℕ) → Free 47 xs → trim_right (xs ++ q) ≡ xs ++ trim_right q
unfolding trim_right Free
trim_right-append [] q f = refl
trim_right-append (x ∷ xs) q (f, fs) = rw f (ap (λ zs. x ∷ zs) (trim_right-append xs q fs))

not_empty : (xs : List ℕ) (y : ℕ) (zs : List ℕ) → is_empty (xs ++ y ∷ zs) ≡ false
not_empty [] y zs = refl
not_empty (x ∷ xs) y zs = refl

trim_right-keep :
    (xs ys : List ℕ) (y : ℕ) (zs : List ℕ)
    → trim_right ys ≡ y ∷ zs
    → trim_right (xs ++ ys) ≡ xs ++ y ∷ zs
unfolding trim_right
trim_right-keep [] ys y zs h = h
trim_right-keep (x ∷ xs) ys y zs h =
    rw (trim_right-keep xs ys y zs h) (ground (arith, not_empty xs y zs))

cut_at-append :
    (c : ℕ) (xs ys : List ℕ) → Free c xs → (cut_at c (xs ++ ys)).0 ≡ xs ++ (cut_at c ys).0
unfolding cut_at Free
cut_at-append c [] ys f = refl
cut_at-append c (x ∷ xs) ys (f, fs) = rw f (ap (λ zs. x ∷ zs) (cut_at-append c xs ys fs))

cut_at-nothing : (q : List ℕ) → Query q → (cut_at 63 q).0 ≡ []
unfolding cut_at
cut_at-nothing [] h = refl
cut_at-nothing (x ∷ xs) h = ground (arith, h)

after_last-none : (xs : List ℕ) → Free 47 xs → after_last xs ≡ none
unfolding after_last Free
after_last-none [] f = refl
after_last-none (x ∷ xs) (f, fs) = rw (after_last-none xs fs, f) refl

after_last-keep : (xs ys seg : List ℕ) → after_last ys ≡ some seg → after_last (xs ++ ys) ≡ some seg
unfolding after_last
after_last-keep [] ys seg h = h
after_last-keep (x ∷ xs) ys seg h = rw (after_last-keep xs ys seg h) refl

trimmed :
    (t : List ℕ) (r : ℕ) (rs q : List ℕ)
    → Free 47 (r ∷ rs)
    → trim_right (t ++ 47 ∷ (r ∷ rs ++ q)) ≡ t ++ 47 ∷ (r ∷ rs ++ trim_right q)
trimmed t r rs q f = trim_right-keep t (47 ∷ (r ∷ rs ++ q)) 47 (r ∷ rs ++ trim_right q) (
    trim_right-keep (47 ∷ []) (r ∷ rs ++ q) r (rs ++ trim_right q) (trim_right-append (r ∷ rs) q f))

segment :
    (t : List ℕ) (r : ℕ) (rs : List ℕ)
    → Free 47 (r ∷ rs)
    → last_segment (t ++ 47 ∷ (r ∷ rs)) ≡ ok (r ∷ rs)
unfolding last_segment after_last non_empty
segment t r rs f =
    rw
      (
        after_last-keep t (47 ∷ r ∷ rs) (r ∷ rs) (rw (after_last-none (r ∷ rs) f) refl),
        last_segment,
      )
      refl

slash_first : (xs : List ℕ) → Free 63 xs → Free 63 (47 ∷ xs)
unfolding Free
slash_first xs f = (refl, f)

full_path :
    (t : List ℕ) (r : ℕ) (rs q : List ℕ)
    → Free 63 t
    → Free 63 (r ∷ rs)
    → Query q
    → (cut_at 63 (t ++ 47 ∷ (r ∷ rs ++ q))).0 ≡ t ++ 47 ∷ (r ∷ rs)
full_path t r rs q f g h =
    cut_at-append 63 t (47 ∷ (r ∷ rs ++ q)) f
    ∙ ap (λ zs. t ++ zs)
        (cut_at-append 63 (47 ∷ r ∷ rs) q (slash_first (r ∷ rs) g)
          ∙ ap (λ zs. 47 ∷ (r ∷ rs ++ zs)) (cut_at-nothing q h)
          ∙ ap (λ zs. 47 ∷ zs) (append-nil (r ∷ rs)))

extracted :
    (t : List ℕ) (r : ℕ) (rs q : List ℕ)
    → Free 63 t
    → Free 63 (r ∷ rs)
    → Free 47 (r ∷ rs)
    → Query q
    → extract_trimmed (t ++ 47 ∷ (r ∷ rs ++ q)) ≡ ok (r ∷ rs)
unfolding extract_trimmed
extracted [] r rs q f g h w = ap last_segment (full_path [] r rs q f g w) ∙ segment [] r rs h
extracted (x ∷ t) r rs q f g h w =
    ap last_segment (full_path (x ∷ t) r rs q f g w) ∙ segment (x ∷ t) r rs h

-- A reference that is not empty and has neither "/" nor "?" comes back from the URL that was built with
-- it on any base URL that is not empty, whatever slashes or query the base ends in.
pub extract-build :
    (base reference : List ℕ)
    → is_empty base ≡ false
    → is_empty reference ≡ false
    → Free 47 reference
    → Free 63 reference
    → extract_reference_from_path (build_callback_url_with_reference base reference) ≡ ok reference
unfolding extract_reference_from_path build_callback_url_with_reference
extract-build [] reference some_base some_ref f g = absurd (ground (arith, some_base))
extract-build (x ∷ xs) [] some_base some_ref f g = absurd (ground (arith, some_ref))
extract-build (x ∷ xs) (r ∷ rs) some_base some_ref f g =
    let t = trim_suffix (cut_at 63 (x ∷ xs)).0 in
    let q = (cut_at 63 (x ∷ xs)).1 in
    ap extract_trimmed (trimmed t r rs q f)
    ∙ extracted t r rs (trim_right q)
        (trim_suffix-Free 63 (cut_at 63 (x ∷ xs)).0 (cut-Free 63 (x ∷ xs))) g f
        (trim_right-Query q (cut-Query (x ∷ xs)))
