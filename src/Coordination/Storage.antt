-- ===== src/Coordination/Storage.antt =====
-- src/coordination.rs, how a serial filter is stored: `to_storage`, and the sentinels.
use skuld.Prelude.{[], Text, codes, text_eq, if◌then◌else◌, Result, ok, ◌>>=◌, ◌||◌}
use skuld.Label.Build.{ParseError}
use skuld.Label.Filter.{
  BooleanExpression, LabelFilter, parse, is_tautology, is_contradiction, display,
}

-- SERIAL_NONE and SERIAL_ALL.
abbrev pub serial_none : Text
serial_none = []

abbrev pub serial_all : Text
serial_all = codes "*"

-- The text that a parsed filter is stored as.
unfoldable pub stored : LabelFilter → Text
stored f =
    if is_tautology f then serial_all else if is_contradiction f then serial_none else display f

module _ (B : BooleanExpression) where
  -- `err` is the panic of `expect` on a filter that does not parse.
  unfoldable pub to_storage : Text → Result ParseError Text
  unfolding stored
  to_storage s =
      if text_eq s serial_none || text_eq s serial_all
      then ok s
      else parse B s >>= (λ f. ok (stored f))
