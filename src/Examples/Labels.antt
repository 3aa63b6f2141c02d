-- ===== src/Examples/Labels.antt =====
-- Labels and filters at concrete inputs.
use skuld.Prelude.{◌≡◌, refl, [], ◌∷◌, sort, dedup, codes, ok}
use skuld.Label.Name.{new}
use skuld.Label.Expr.{format_expr, eval, collect_terminals}
use skuld.Label.Build.{parse_raw_label_expr, find_expr, build_expr}
use skuld.Label.Grammar.{
  parse_input, parse_expr, separated, repeat, skip, parse_not_expr, parse_primary, parse_group,
  parse_bool_lit, insensitive, parse_label, ident_rest,
}
use skuld.Label.Filter.{
  parse, matches, has_label, canonicalize, canonicalize_over, sort_children, sort_pair, seed,
}
use skuld.Label.Filter.Meaning.{matches-parse}
use skuld.Label.Print.RoundTrip.{parse_raw_label_expr-format_expr}
use skuld.Examples.Toy.{toy, docker, docker_not_slow, not_slow_docker}

parse_raw_label_expr-format_expr_example :
    parse_raw_label_expr (format_expr docker_not_slow) ≡ ok docker_not_slow
unfolding new
parse_raw_label_expr-format_expr_example =
    parse_raw_label_expr-format_expr docker_not_slow (refl, refl)

-- The text `docker & !slow` parses, and its filter keeps the operands in order.
reads_raw : parse_raw_label_expr (codes "docker & !slow") ≡ ok docker_not_slow
unfolding parse_raw_label_expr parse_input parse_expr separated repeat skip parse_not_expr
    parse_primary parse_group parse_bool_lit insensitive parse_label ident_rest find_expr build_expr
reads_raw = refl

pub reads_filter : parse toy (codes "docker & !slow") ≡ ok not_slow_docker
unfolding parse canonicalize canonicalize_over sort_children sort_pair sort dedup seed
    collect_terminals format_expr
reads_filter = rw reads_raw refl

matches-parse_example :
    matches toy not_slow_docker (docker ∷ []) ≡ eval (has_label (docker ∷ [])) docker_not_slow
matches-parse_example =
    matches-parse toy (codes "docker & !slow") (docker ∷ []) reads_raw reads_filter
