-- ===== src/Errorsx/Examples.antt =====
-- errorsx/errorsx.go: a conflict that was wrapped twice.
use gopkg.Common.{◌≡◌, refl, none}
use gopkg.Common.Text.{codes}
use gopkg.Errorsx.{not_found, conflict, GoError, typed, typed_wrap, other_wrap, wrap, error_text}

abbrev chain : GoError
chain = typed_wrap not_found (codes "user") (other_wrap (codes "db") (typed conflict (codes "row")))

text : error_text chain ≡ codes "user: db"
unfolding error_text
text = refl

nothing : wrap conflict none (codes "x") ≡ none
unfolding wrap
nothing = refl
