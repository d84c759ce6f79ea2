-- ===== src/SqlBuilder/Numbering.antt =====
-- sqlbuilder/sqlbuilder.go: the texts of the conditions, the numbers of their parameters and the values.
use gopkg.Common.{
  ℕ, suc, ◌+◌, ◌≡◌, refl, ap, ap₂, sym, ◌∙◌, arith, Bool, true, false, not, List, [], ◌∷◌, ◌++◌,
  append_assoc, append-nil, map, map-append, length, length-append, if◌then◌else◌,
}
use gopkg.Common.Text.{codes}
use gopkg.Common.Decimal.{digits}
use gopkg.SqlBuilder.{
  join, condition, Builder, new, like_parts, add_condition, select, where_eq, where_op,
  where_not_empty, where_not_nil, where_bool, where_like, where_multi_like, set_order_by, clone,
  empty,
}

-- What a call adds to a query: a comparison of a column, or alternatives over several columns, and the
-- value to compare with.
pub data Filter (V : Type 0) : Type 0 where
  compares : List ℕ → List ℕ → V → Filter V
  matches_any : List ℕ → List (List ℕ) → V → Filter V

-- ` $` and the number of a parameter.
parameter : ℕ → List ℕ
unfolding digits
parameter n = codes " $" ++ digits n

alternatives : List ℕ → List (List ℕ) → ℕ → List ℕ
unfolding parameter
alternatives c [] n = c ++ (codes " ILIKE" ++ parameter n)
alternatives c (d ∷ cols) n =
    (c ++ (codes " ILIKE" ++ parameter n)) ++ (codes " OR " ++ alternatives d cols n)

module _ {V : Type 0} where
  -- The text of a filter whose parameter has the number `n`.
  unfoldable pub written : ℕ → Filter V → List ℕ
  unfolding alternatives
  written n (compares col op v) = col ++ (codes " " ++ (op ++ parameter n))
  written n (matches_any c cols v) = codes "(" ++ (alternatives c cols n ++ codes ")")

  unfoldable pub value : Filter V → V
  value (compares col op v) = v
  value (matches_any c cols v) = v

  -- The texts of filters, numbered from `n` on.
  unfoldable pub numbered : ℕ → List (Filter V) → List (List ℕ)
  unfolding written
  numbered n [] = []
  numbered n (f ∷ fs) = written n f ∷ numbered (suc n) fs

-- A call of the builder, with the gates of WhereNotEmpty and its like.
pub data Call (V : Type 0) : Type 0 where
  selects : List ℕ → Call V
  wheres : List ℕ → V → Call V
  where_ops : List ℕ → List ℕ → V → Call V
  where_not_emptys : List ℕ → List ℕ → Call V
  where_not_nils : List ℕ → V → Call V
  where_bools : List ℕ → Bool → Bool → Call V
  where_likes : List ℕ → List ℕ → Call V
  where_multi_likes : List ℕ → List (List ℕ) → Call V
  orders : List ℕ → Call V
  clones : Call V

module _ {V : Type 0} (of_string : List ℕ → V) (of_bool : Bool → V) (is_nil : V → Bool) where
  unfoldable pub call : Call V → Builder V → Builder V
  call (selects columns) b = select columns b
  call (wheres col v) b = where_eq col v b
  call (where_ops col op v) b = where_op col op v b
  call (where_not_emptys col s) b = where_not_empty of_string col s b
  call (where_not_nils col v) b = where_not_nil is_nil col v b
  call (where_bools col v gate) b = where_bool of_bool col v gate b
  call (where_likes col s) b = where_like of_string col s b
  call (where_multi_likes s cols) b = where_multi_like of_string s cols b
  call (orders clause) b = set_order_by clause b
  call clones b = clone b

  unfoldable pub run_calls : List (Call V) → Builder V → Builder V
  unfolding call
  run_calls [] b = b
  run_calls (c ∷ cs) b = run_calls cs (call c b)

  filter_if : Bool → Filter V → List (Filter V)
  filter_if true f = f ∷ []
  filter_if false f = []

  -- The filter of a call, if it adds one.
  unfoldable pub filter_of : Call V → List (Filter V)
  unfolding filter_if
  filter_of (wheres col v) = compares col (codes "=") v ∷ []
  filter_of (where_ops col op v) = compares col op v ∷ []
  filter_of (where_not_emptys col s) =
      filter_if (not (empty s)) (compares col (codes "=") (of_string s))
  filter_of (where_not_nils col v) = filter_if (not (is_nil v)) (compares col (codes "=") v)
  filter_of (where_bools col v gate) = filter_if gate (compares col (codes "=") (of_bool v))
  filter_of (where_likes col s) =
      filter_if (not (empty s)) (compares col (codes "ILIKE") (of_string s))
  filter_of (where_multi_likes s []) = []
  filter_of (where_multi_likes s (c ∷ cols)) =
      filter_if (not (empty s)) (matches_any c cols (of_string s))
  filter_of _ = []

  unfoldable pub filters_of : List (Call V) → List (Filter V)
  unfolding filter_of
  filters_of [] = []
  filters_of (c ∷ cs) = filter_of c ++ filters_of cs

  -- A builder got these filters after what it had.
  pub record Numbered (b b' : Builder V) (fs : List (Filter V)) : Type 0 where
    pub counted : b'.param_seq ≡ b.param_seq + length fs
    pub texts : b'.conditions ≡ b.conditions ++ numbered (suc b.param_seq) fs
    pub values : b'.args ≡ b.args ++ map value fs

  unchanged :
      (b b' : Builder V)
      → b'.param_seq ≡ b.param_seq
      → b'.conditions ≡ b.conditions
      → b'.args ≡ b.args
      → Numbered b b' []
  unfolding numbered
  unchanged b b' n cs vs = record {
    counted = omega (arith, n);
    texts = cs ∙ sym (append-nil b.conditions);
    values = vs ∙ sym (append-nil b.args);
  }

  added :
      (text : ℕ → List ℕ) (f : Filter V) (b : Builder V)
      → text (suc b.param_seq) ≡ written (suc b.param_seq) f
      → Numbered b (add_condition text (value f) b) (f ∷ [])
  unfolding add_condition numbered
  added text f b e = record {
    counted = omega arith;
    texts = ap (λ t. b.conditions ++ t ∷ []) e;
    values = refl;
  }

  added_if :
      (t : Bool) (text : ℕ → List ℕ) (f : Filter V) (b : Builder V)
      → text (suc b.param_seq) ≡ written (suc b.param_seq) f
      → Numbered b (if t then b else add_condition text (value f) b) (filter_if (not t) f)
  unfolding filter_if
  added_if true text f b e = unchanged b b refl refl refl
  added_if false text f b e = added text f b e

  compared : (col op : List ℕ) (v : V) (n : ℕ) → condition col op n ≡ written n (compares col op v)
  unfolding condition written parameter
  compared col op v n = refl

  like_part :
      (c : List ℕ) (n : ℕ) → condition c (codes "ILIKE") n ≡ c ++ (codes " ILIKE" ++ parameter n)
  unfolding condition parameter
  like_part c n = refl

  joined :
      (c : List ℕ) (cols : List (List ℕ)) (n : ℕ)
      → join (like_parts (c ∷ cols) n) (codes " OR ") ≡ alternatives c cols n
  unfolding like_parts join alternatives
  joined c [] n = like_part c n
  joined c (d ∷ cols) n = ap₂ (λ x y. x ++ (codes " OR " ++ y)) (like_part c n) (joined d cols n)

  many_written :
      (c : List ℕ) (cols : List (List ℕ)) (s : List ℕ) (b : Builder V)
      → codes "(" ++ (join (like_parts (c ∷ cols) (suc b.param_seq)) (codes " OR ") ++ codes ")")
        ≡ written (suc b.param_seq) (matches_any c cols (of_string s))
  unfolding written
  many_written c cols s b =
      ap (λ t. codes "(" ++ (t ++ codes ")")) (joined c cols (suc b.param_seq))

  call-Numbered : (c : Call V) (b : Builder V) → Numbered b (call c b) (filter_of c)
  unfolding call select where_eq where_op where_not_empty where_not_nil where_bool where_like
      where_multi_like set_order_by clone filter_of value
  call-Numbered (selects columns) b = unchanged b (select columns b) refl refl refl
  call-Numbered (wheres col v) b =
      added (condition col (codes "=")) (compares col (codes "=") v) b
        (compared col (codes "=") v (suc b.param_seq))
  call-Numbered (where_ops col op v) b =
      added (condition col op) (compares col op v) b (compared col op v (suc b.param_seq))
  call-Numbered (where_not_emptys col s) b =
      added_if (empty s) (condition col (codes "=")) (compares col (codes "=") (of_string s)) b
        (compared col (codes "=") (of_string s) (suc b.param_seq))
  call-Numbered (where_not_nils col v) b =
      added_if (is_nil v) (condition col (codes "=")) (compares col (codes "=") v) b
        (compared col (codes "=") v (suc b.param_seq))
  call-Numbered (where_bools col v true) b =
      added (condition col (codes "=")) (compares col (codes "=") (of_bool v)) b
        (compared col (codes "=") (of_bool v) (suc b.param_seq))
  call-Numbered (where_bools col v false) b = unchanged b b refl refl refl
  call-Numbered (where_likes col s) b =
      added_if (empty s) (condition col (codes "ILIKE"))
        (compares col (codes "ILIKE") (of_string s)) b
        (compared col (codes "ILIKE") (of_string s) (suc b.param_seq))
  call-Numbered (where_multi_likes s []) b = unchanged b b refl refl refl
  call-Numbered (where_multi_likes s (c ∷ cols)) b =
      added_if (empty s)
        (λ n. codes "(" ++ (join (like_parts (c ∷ cols) n) (codes " OR ") ++ codes ")"))
        (matches_any c cols (of_string s)) b (many_written c cols s b)
  call-Numbered (orders clause) b = unchanged b (set_order_by clause b) refl refl refl
  call-Numbered clones b = unchanged b (clone b) refl refl refl

  numbered-append :
      (n : ℕ) (fs gs : List (Filter V))
      → numbered n (fs ++ gs) ≡ numbered n fs ++ numbered (n + length fs) gs
  unfolding numbered
  numbered-append n [] gs = ap (λ k. numbered k gs) (omega arith)
  numbered-append n (f ∷ fs) gs =
      ap (λ ts. written n f ∷ ts)
        (numbered-append (suc n) fs gs
          ∙ ap (λ k. numbered (suc n) fs ++ numbered k gs) (omega arith))

  then-Numbered :
      (b c d : Builder V) (fs gs : List (Filter V))
      → Numbered b c fs
      → Numbered c d gs
      → Numbered b d (fs ++ gs)
  then-Numbered b c d fs gs v w =
      let next : suc c.param_seq ≡ suc b.param_seq + length fs = omega (arith, v.counted) in
      record {
        counted = omega (arith, v.counted, w.counted, length-append fs gs);
        texts =
            w.texts
            ∙ ap₂ (λ cs k. cs ++ numbered k gs) v.texts next
            ∙ append_assoc b.conditions (numbered (suc b.param_seq) fs)
                (numbered (suc b.param_seq + length fs) gs)
            ∙ ap (λ ts. b.conditions ++ ts) (sym (numbered-append (suc b.param_seq) fs gs));
        values =
            w.values
            ∙ ap (λ vs. vs ++ map value gs) v.values
            ∙ append_assoc b.args (map value fs) (map value gs)
            ∙ ap (λ vs. b.args ++ vs) (sym (map-append value fs gs));
      }

  run_from-Numbered :
      (cs : List (Call V)) (b : Builder V) → Numbered b (run_calls cs b) (filters_of cs)
  unfolding run_calls filters_of
  run_from-Numbered [] b = unchanged b b refl refl refl
  run_from-Numbered (c ∷ cs) b =
      then-Numbered b (call c b) (run_calls cs (call c b)) (filter_of c) (filters_of cs)
        (call-Numbered c b) (run_from-Numbered cs (call c b))

  -- Whatever calls build a query, its conditions are the texts of the filters that these calls add, in
  -- their order and with the parameters `$1`, `$2` and so on, and its arguments are the values of the
  -- same filters in the same order: the value of `$i` is the i-th argument.
  pub run_calls-Numbered :
      (cs : List (Call V)) (table : List ℕ)
      → ((run_calls cs (new V table)).conditions ≡ numbered 1 (filters_of cs))
        × ((run_calls cs (new V table)).args ≡ map value (filters_of cs))
  unfolding new
  run_calls-Numbered cs table = let v = run_from-Numbered cs (new V table) in (v.texts, v.values)
