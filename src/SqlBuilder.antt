-- ===== src/SqlBuilder.antt =====
-- sqlbuilder/sqlbuilder.go: the builder of parameterized SELECT queries. The type of the bound
-- values is a parameter, with what the source puts into it: a string, a bool and nil. Text is a list
-- of code points, and `$N` is written with the decimal digits of `N`.
pub mod Numbering
mod Examples
use gopkg.Common.{
  ℕ, zero, suc, ◌+◌, ◌-◌, ◌*◌, ◌/◌, ◌%◌, Bool, true, false, List, [], ◌∷◌, ◌++◌, map, ltb,
  if◌then◌else◌, length, ℤ, pos, negsuc, ◌*ℤ◌, ◌-ℤ◌, is_neg, abs_ℕ, leb_ℤ,
}
use gopkg.Common.Decimal.{digits, digits_int}
use gopkg.Common.Text.{codes}
use gopkg.Money.Int64.{wrap}

-- strings.Join
unfoldable pub join : List (List ℕ) → List ℕ → List ℕ
join [] sep = []
join (s ∷ []) sep = s
join (s ∷ t ∷ rest) sep = s ++ (sep ++ join (t ∷ rest) sep)

abbrev pub empty : List ℕ → Bool
empty [] = true
empty (c ∷ s) = false

-- A column, an operator and a parameter: `col op $N`.
pub condition : List ℕ → List ℕ → ℕ → List ℕ
unfolding digits
condition col op n = col ++ (codes " " ++ (op ++ (codes " $" ++ digits n)))

pub record Builder (V : Type 0) : Type 0 where
  pub table : List ℕ
  pub columns : List ℕ
  pub conditions : List (List ℕ)
  pub args : List V
  pub order_by : List ℕ
  pub param_seq : ℕ

pub new : (V : Type 0) → List ℕ → Builder V
new V table = record {
  table = table;
  columns = codes "*";
  conditions = [];
  args = [];
  order_by = [];
  param_seq = 0;
}

-- `c ILIKE $N` for each column.
pub like_parts : List (List ℕ) → ℕ → List (List ℕ)
unfolding condition
like_parts [] n = []
like_parts (c ∷ cols) n = condition c (codes "ILIKE") n ∷ like_parts cols n

module _ {V : Type 0} where
  -- The three lines that add a condition and its value: the condition's text is made from the number
  -- of its parameter.
  pub add_condition : (ℕ → List ℕ) → V → Builder V → Builder V
  add_condition text v b =
      let n = suc (b.param_seq) in
      record b { param_seq = n; conditions = b.conditions ++ text n ∷ []; args = b.args ++ v ∷ [] }

  pub select : List ℕ → Builder V → Builder V
  select columns b = record b { columns = columns }

  pub where_eq : List ℕ → V → Builder V → Builder V
  unfolding add_condition condition
  where_eq col v b = add_condition (condition col (codes "=")) v b

  pub where_op : List ℕ → List ℕ → V → Builder V → Builder V
  unfolding add_condition condition
  where_op col op v b = add_condition (condition col op) v b

  pub where_not_empty : (List ℕ → V) → List ℕ → List ℕ → Builder V → Builder V
  unfolding where_eq
  where_not_empty of_string col s b = if empty s then b else where_eq col (of_string s) b

  pub where_not_nil : (V → Bool) → List ℕ → V → Builder V → Builder V
  unfolding where_eq
  where_not_nil is_nil col v b = if is_nil v then b else where_eq col v b

  pub where_bool : (Bool → V) → List ℕ → Bool → Bool → Builder V → Builder V
  unfolding where_eq
  where_bool of_bool col v gate b = if gate then where_eq col (of_bool v) b else b

  pub where_like : (List ℕ → V) → List ℕ → List ℕ → Builder V → Builder V
  unfolding add_condition condition
  where_like of_string col pattern_ b =
      if empty pattern_
      then b
      else add_condition (condition col (codes "ILIKE")) (of_string pattern_) b

  pub where_multi_like : (List ℕ → V) → List ℕ → List (List ℕ) → Builder V → Builder V
  unfolding add_condition like_parts
  where_multi_like of_string pattern_ [] b = b
  where_multi_like of_string pattern_ (c ∷ cols) b =
      if empty pattern_
      then b
      else add_condition
          (λ n. codes "(" ++ (join (like_parts (c ∷ cols) n) (codes " OR ") ++ codes ")"))
          (of_string pattern_) b

  pub set_order_by : List ℕ → Builder V → Builder V
  set_order_by clause b = record b { order_by = clause }

  -- The fields of the copy, each from the original; lists are values, so the slices are copies.
  pub clone : Builder V → Builder V
  clone b = record {
    table = b.table;
    columns = b.columns;
    conditions = [] ++ b.conditions;
    args = [] ++ b.args;
    order_by = b.order_by;
    param_seq = b.param_seq;
  }

  -- The WHERE clause, which the two queries write alike.
  pub where_clause : Builder V → List ℕ
  where_clause b =
      if ltb 0 (length (b.conditions))
      then codes " WHERE " ++ join (b.conditions) (codes " AND ")
      else []

  pub build_count_query : Builder V → List ℕ × List V
  unfolding where_clause
  build_count_query b = (codes "SELECT COUNT(*) FROM " ++ b.table ++ where_clause b, b.args)

-- The defaults of limit and page, and the offset, which is int64 arithmetic.
pub limit_of : ℤ → ℤ
limit_of limit = if leb_ℤ limit (pos 0) then pos 50 else limit

pub page_of : ℤ → ℤ
page_of page = if leb_ℤ page (pos 0) then pos 1 else page

pub offset_of : ℤ → ℤ → ℤ
unfolding limit_of page_of
offset_of limit page = wrap ((page_of page -ℤ pos 1) *ℤ limit_of limit)

pub build_list_query : {V : Type 0} → List ℕ → ℤ → ℤ → Builder V → List ℕ × List V
unfolding where_clause digits_int offset_of limit_of
build_list_query columns limit page b =
    let cols = if empty columns then b.columns else columns in
    (
      codes "SELECT "
          ++ cols
          ++ codes " FROM "
          ++ b.table
          ++ where_clause b
          ++ (if empty (b.order_by) then [] else codes " ORDER BY " ++ b.order_by)
          ++ codes " LIMIT "
          ++ digits_int (limit_of limit)
          ++ codes " OFFSET "
          ++ digits_int (offset_of limit page),
      b.args,
    )
