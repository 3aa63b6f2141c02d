-- ===== src/Fixture/Builtin/TempDir.antt =====
-- src/fixtures/temp_dir.rs: how the name of a temporary directory is made of the test's.
pub mod Name
use skuld.Prelude.{
  ℕ, suc, ◌+◌, ◌-◌, ◌≤◌, ◌≡◌, refl, sym, ap, ◌∙◌, Bool, true, false, not, ◌&&◌, ◌||◌, List, [], ◌∷◌,
  ◌++◌, ltb, leb, ◌==◌, if◌then◌else◌, Text, codes, text_eq, contains, length, length-append,
  Bool-cases, inl, inr, arith, All,
}

-- `len_utf8` and `len_utf16` of a character.
unfoldable pub len_utf8 : ℕ → ℕ
len_utf8 c = if ltb c 128 then 1 else if ltb c 2048 then 2 else if ltb c 65536 then 3 else 4

unfoldable pub len_utf16 : ℕ → ℕ
len_utf16 c = if ltb c 65536 then 1 else 2

unfoldable pub is_control : ℕ → Bool
is_control c = ltb c 32 || (leb 127 c && ltb c 160)

-- `matches!(c, '/' | '\\' | ':' | '*' | '?' | '"' | '<' | '>' | '|')`
unfoldable pub is_forbidden : ℕ → Bool
is_forbidden c =
    c == b'/'
    || c == 92
    || c == b':'
    || c == b'*'
    || c == b'?'
    || c == 34
    || c == b'<'
    || c == b'>'
    || c == b'|'

unfoldable pub safe_char : ℕ → ℕ
unfolding is_control is_forbidden
safe_char c = if is_control c || is_forbidden c then b'_' else c

-- NAME_MAX, less `-<pid>-` and the random characters, and less one for the `_` of a device.
abbrev pub budget : ℕ
budget = 255 - (12 + 6) - 1

-- The part up to the first `.`.
unfoldable pub before_dot : Text → Text
before_dot [] = []
before_dot (c ∷ s) = let rest = before_dot s in if c == b'.' then [] else c ∷ rest

-- `trim_end_matches(' ')`
unfoldable pub trim_end_spaces : Text → Text
trim_end_spaces [] = []
trim_end_spaces (c ∷ s) =
    let rest = trim_end_spaces s in
    if c == b' ' then elim rest [ [] ↦ [] | d ∷ ds ↦ c ∷ d ∷ ds ] else c ∷ rest

unfoldable pub to_ascii_upper : Text → Text
to_ascii_upper [] = []
to_ascii_upper (c ∷ s) = (if leb 97 c && leb c 122 then c - 32 else c) ∷ to_ascii_upper s

-- An ASCII digit, or a superscript one to three.
unfoldable pub is_port_digit : ℕ → Bool
is_port_digit c = (leb 48 c && leb c 57) || c == 185 || c == 178 || c == 179

-- COM or LPT with one digit.
unfoldable pub is_port : Text → Bool
is_port [] = false
is_port (a ∷ []) = false
is_port (a ∷ b ∷ []) = false
is_port (a ∷ b ∷ c ∷ []) = false
is_port (a ∷ b ∷ c ∷ d ∷ []) =
    (text_eq (a ∷ b ∷ c ∷ []) (codes "COM") || text_eq (a ∷ b ∷ c ∷ []) (codes "LPT"))
    && is_port_digit d
is_port (a ∷ b ∷ c ∷ d ∷ e ∷ s) = false

unfoldable pub device_names : List Text
device_names =
    codes "CON" ∷ codes "PRN" ∷ codes "AUX" ∷ codes "NUL" ∷ codes "CONIN$" ∷ codes "CONOUT$" ∷ []

unfoldable pub is_dos_device : Text → Bool
unfolding before_dot trim_end_spaces to_ascii_upper device_names is_port is_port_digit
is_dos_device name =
    let upper = to_ascii_upper (trim_end_spaces (before_dot name)) in
    contains device_names upper || is_port upper

-- `decompose` is `decompose_canonical` of the crate unicode_normalization.
module _ (decompose : ℕ → Text) where
  abbrev pub utf16_units : Text → ℕ
  utf16_units [] = 0
  utf16_units (c ∷ s) = len_utf16 c + utf16_units s

  unfoldable pub cost : ℕ → ℕ
  cost c =
      let nfd_units = utf16_units (decompose c) in
      if ltb (len_utf8 c) nfd_units then nfd_units else len_utf8 c

  -- The loop over the characters.
  unfoldable pub cut : ℕ → Text → Text
  unfolding safe_char
  cut used [] = []
  cut used (c ∷ s) =
      let rest = cut (used + cost (safe_char c)) s in
      if ltb budget (used + cost (safe_char c)) then [] else safe_char c ∷ rest

  unfoldable pub file_name_safe : Text → Text
  unfolding cut is_dos_device
  file_name_safe prefix =
      let out = cut 0 prefix in if is_dos_device (out ++ b'-' ∷ []) then b'_' ∷ out else out

  -- The length in bytes, and in UTF-16 units behind the canonical decomposition.
  abbrev pub utf8_bytes : Text → ℕ
  utf8_bytes [] = 0
  utf8_bytes (c ∷ s) = len_utf8 c + utf8_bytes s

  abbrev pub decomposed_units : Text → ℕ
  decomposed_units [] = 0
  decomposed_units (c ∷ s) = utf16_units (decompose c) + decomposed_units s

  abbrev pub costs : Text → ℕ
  costs [] = 0
  costs (c ∷ s) = cost c + costs s
