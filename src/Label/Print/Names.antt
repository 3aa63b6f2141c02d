-- ===== src/Label/Print/Names.antt =====
-- src/label.rs: the names that `Label::__new` accepts are the labels of the filter grammar.
use skuld.Prelude.{◌≡◌, sym, ap, ◌∙◌, Text, ok, arith}
use skuld.Label.Name.{Label, new}
use skuld.Label.Expr.{terminal, format_expr, fmt_expr}
use skuld.Label.Build.{parse_raw_label_expr}
use skuld.Label.Print.RoundTrip.{parse_raw_label_expr-format_expr}

new-name : (n : Text) (l : Label) → new n ≡ ok l → l.name ≡ n
unfolding new
new-name n l h = ground arith

-- A name that a label is declared with, where `Label::__new` does not panic, is read as a filter: the
-- label itself.
pub parse_raw_label_expr-new :
    (n : Text) (l : Label) → new n ≡ ok l → parse_raw_label_expr n ≡ ok (terminal l.name)
unfolding format_expr fmt_expr
parse_raw_label_expr-new n l h =
    let same = new-name n l h in
    let label : l ≡ record { name = n } = ap (λ (t : Text). record { name = t }) same in
    parse_raw_label_expr-format_expr (terminal n) (h ∙ ap ok label)
    ∙ ap (λ t. ok (terminal t)) (sym same)
