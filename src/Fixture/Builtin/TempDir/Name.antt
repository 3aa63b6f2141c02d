-- ===== src/Fixture/Builtin/TempDir/Name.antt =====
-- src/fixtures/temp_dir.rs: the name fits, and Win32 does not take it for a device.
use skuld.Prelude.{
  ℕ, ◌+◌, ◌≤◌, ◌<◌, ◌≡◌, refl, Bool, false, ◌||◌, [], ◌∷◌, ◌++◌, ltb, Text, length, length-append,
  Bool-cases, inl, inr, arith, All, All-append,
}
use skuld.Fixture.Builtin.TempDir.{
  len_utf8, len_utf16, is_control, is_forbidden, safe_char, budget, before_dot, trim_end_spaces,
  to_ascii_upper, is_port, device_names, is_dos_device, cost, cut, file_name_safe, utf8_bytes,
  decomposed_units, costs,
}

both_false : (a b : Bool) → a || b ≡ false → (a ≡ false) × (b ≡ false)
both_false a b h = ground arith

is_port_underscore : (s : Text) → is_port (95 ∷ s) ≡ false
unfolding is_port
is_port_underscore [] = refl
is_port_underscore (a ∷ []) = refl
is_port_underscore (a ∷ b ∷ []) = refl
is_port_underscore (a ∷ b ∷ c ∷ []) = refl
is_port_underscore (a ∷ b ∷ c ∷ d ∷ s) = refl

underscore_no_device : (s : Text) → is_dos_device (b'_' ∷ s) ≡ false
unfolding is_dos_device before_dot trim_end_spaces to_ascii_upper device_names
underscore_no_device s = is_port_underscore (to_ascii_upper (trim_end_spaces (before_dot s)))

module _ (decompose : ℕ → Text) where
  costs-cut :
      (used : ℕ) (s : Text) → used ≤ budget → used + costs decompose (cut decompose used s) ≤ budget
  unfolding cut
  costs-cut used [] h = omega arith
  costs-cut used (c ∷ s) h = elim (Bool-cases (ltb budget (used + cost decompose (safe_char c)))) [
    | inl e ↦ rw (e, cut) (omega arith)
    | inr e ↦
        let rest = costs-cut (used + cost decompose (safe_char c)) s (ground (arith, e)) in
        rw (e, cut) (omega (arith, rest))
  ]

  bytes-costs : (s : Text) → utf8_bytes decompose s ≤ costs decompose s
  unfolding cost
  bytes-costs [] = omega arith
  bytes-costs (c ∷ s) = ground (arith, bytes-costs s)

  units-costs : (s : Text) → decomposed_units decompose s ≤ costs decompose s
  unfolding cost
  units-costs [] = omega arith
  units-costs (c ∷ s) = ground (arith, units-costs s)

  abbrev pub IsSafe : ℕ → Type 0
  IsSafe c = (is_control c ≡ false) × (is_forbidden c ≡ false)

  safe_char-IsSafe : (c : ℕ) → IsSafe (safe_char c)
  unfolding safe_char is_control is_forbidden
  safe_char-IsSafe c = elim (Bool-cases (is_control c || is_forbidden c)) [
    | inl e ↦ rw (e, safe_char) (refl, refl)
    | inr e ↦ rw (e, safe_char) (both_false (is_control c) (is_forbidden c) e)
  ]

  cut-IsSafe : (used : ℕ) (s : Text) → All IsSafe (cut decompose used s)
  unfolding cut
  cut-IsSafe used [] = tt
  cut-IsSafe used (c ∷ s) = elim (Bool-cases (ltb budget (used + cost decompose (safe_char c)))) [
    | inl e ↦ rw (e, cut) tt
    | inr e ↦ rw (e, cut) (safe_char-IsSafe c, cut-IsSafe (used + cost decompose (safe_char c)) s)
  ]

  file_name_safe-IsSafe : (prefix : Text) → All IsSafe (file_name_safe decompose prefix)
  unfolding file_name_safe is_control is_forbidden
  file_name_safe-IsSafe prefix =
      elim (Bool-cases (is_dos_device (cut decompose 0 prefix ++ b'-' ∷ []))) [
        | inl e ↦ rw (e, file_name_safe) ((refl, refl), cut-IsSafe 0 prefix)
        | inr e ↦ rw (e, file_name_safe) (cut-IsSafe 0 prefix)
      ]

  file_name_safe_no_device :
      (prefix : Text) → is_dos_device (file_name_safe decompose prefix ++ b'-' ∷ []) ≡ false
  unfolding file_name_safe
  file_name_safe_no_device prefix =
      elim (Bool-cases (is_dos_device (cut decompose 0 prefix ++ b'-' ∷ []))) [
        | inl e ↦
            rw (e, file_name_safe) (underscore_no_device (cut decompose 0 prefix ++ b'-' ∷ []))
        | inr e ↦ rw (e, file_name_safe) e
      ]

  -- What the crate documents of ASCII: a character is its own decomposition.
  abbrev pub KeepsAscii : Type 0
  KeepsAscii = (c : ℕ) → c < 128 → decompose c ≡ c ∷ []

  ascii_lengths :
      (s : Text)
      → KeepsAscii
      → All (λ c. c < 128) s
      → (utf8_bytes decompose s ≡ length s) × (decomposed_units decompose s ≡ length s)
  unfolding len_utf8 len_utf16
  ascii_lengths [] keeps h = (refl, refl)
  ascii_lengths (c ∷ s) keeps h =
      let (bytes, units) = ascii_lengths s keeps h.1 in
      let same = keeps c h.0 in
      let small = h.0 in (ground (arith, bytes, small), rw same (ground (arith, units, small)))

  lengths-append :
      (s t : Text)
      → (utf8_bytes decompose (s ++ t) ≡ utf8_bytes decompose s + utf8_bytes decompose t)
        × (decomposed_units decompose (s ++ t)
            ≡ decomposed_units decompose s + decomposed_units decompose t)
  lengths-append [] t = (omega arith, omega arith)
  lengths-append (c ∷ s) t =
      let (bytes, units) = lengths-append s t in (omega (arith, bytes), omega (arith, units))

  joined :
      (s t : Text)
      → utf8_bytes decompose s ≤ 237
      → decomposed_units decompose s ≤ 237
      → utf8_bytes decompose t ≤ 18
      → decomposed_units decompose t ≤ 18
      → (utf8_bytes decompose (s ++ t) ≤ 255) × (decomposed_units decompose (s ++ t) ≤ 255)
  joined s t few_bytes few_units bytes units =
      let (all_bytes, all_units) = lengths-append s t in
      (rw all_bytes (omega arith), rw all_units (omega arith))

  file_name_safe_short :
      (prefix : Text)
      → KeepsAscii
      → (utf8_bytes decompose (file_name_safe decompose prefix) ≤ 237)
        × (decomposed_units decompose (file_name_safe decompose prefix) ≤ 237)
  unfolding file_name_safe len_utf8 len_utf16
  file_name_safe_short prefix keeps =
      let within = costs-cut 0 prefix (omega arith) in
      let bytes = bytes-costs (cut decompose 0 prefix) in
      let units = units-costs (cut decompose 0 prefix) in
      let same = keeps 95 (omega arith) in
      elim (Bool-cases (is_dos_device (cut decompose 0 prefix ++ b'-' ∷ []))) [
        | inl e ↦
            rw (e, file_name_safe)
              (omega (arith, within, bytes), rw same (omega (arith, within, units)))
        | inr e ↦
            rw (e, file_name_safe) (omega (arith, within, bytes), omega (arith, within, units))
      ]

  -- The name `<prefix>-<pid>-<random>` of a temporary directory, whatever the prefix, has at most 255 bytes
  -- and, behind the canonical decomposition, at most 255 UTF-16 units, if the pid has at most ten digits
  -- and there are six random characters, all ASCII, and ASCII decomposes to itself. What stands for the
  -- prefix has no control or forbidden character, and with the `-` it is no DOS device.
  pub file_name_safe_fits :
      (prefix pid random : Text)
      → KeepsAscii
      → All (λ c. c < 128) pid
      → All (λ c. c < 128) random
      → length pid ≤ 10
      → length random ≤ 6
      → (utf8_bytes decompose (file_name_safe decompose prefix ++ (b'-' ∷ (pid ++ b'-' ∷ random)))
          ≤ 255)
        × (decomposed_units decompose
              (file_name_safe decompose prefix ++ (b'-' ∷ (pid ++ b'-' ∷ random)))
            ≤ 255)
        × All IsSafe (file_name_safe decompose prefix)
        × (is_dos_device (file_name_safe decompose prefix ++ b'-' ∷ []) ≡ false)
  file_name_safe_fits prefix pid random keeps ascii_pid ascii_random short_pid short_random =
      let tail = b'-' ∷ (pid ++ b'-' ∷ random) in
      let ascii_tail : All (λ c. c < 128) tail = (
        omega arith,
        All-append (λ c. c < 128) pid (b'-' ∷ random) ascii_pid (omega arith, ascii_random),
      ) in
      let (bytes, units) = ascii_lengths tail keeps ascii_tail in
      let measured = length-append pid (b'-' ∷ random) in
      let (few_bytes, few_units) = file_name_safe_short prefix keeps in
      let (all_bytes, all_units) =
        joined (file_name_safe decompose prefix) tail few_bytes few_units
          (rw bytes (omega (arith, measured))) (rw units (omega (arith, measured))) in
      (all_bytes, all_units, file_name_safe-IsSafe prefix, file_name_safe_no_device prefix)
