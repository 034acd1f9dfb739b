-- ===== src/Policy/Globs.antt =====
-- packages/policy/src/engine.ts: globMatch. The constructor RegExp, which is JavaScript's, is an
-- argument: `none` where it throws on an invalid source, else the test of the expression.
use avity_os.Base.{
  ℕ, String, Bool, true, false, List, [], ◌∷◌, Option, none, some, includes, nat_eqb, nat_eq,
  if◌then◌else◌,
}
use Prim.Native.String.{[] as end, ◌∷◌ as char_then, ◌++◌ as str_append}
use Prim.Native.Char.{Char, code}

-- A global replacement of single characters.
unfoldable pub replace_each : (Char → String) → String → String
replace_each put end = end
replace_each put (char_then c rest) = str_append (put c) (replace_each put rest)

-- The codes of the characters of `/[.+^${}()|[\]\\]/`.
abbrev pub special_codes : List ℕ
special_codes = 46 ∷ 43 ∷ 94 ∷ 36 ∷ 123 ∷ 125 ∷ 40 ∷ 41 ∷ 124 ∷ 91 ∷ 93 ∷ 92 ∷ []

abbrev pub escape : Char → String
escape c =
    if includes special_codes (code c) then str_append "\\" (char_then c end) else char_then c end

-- `.replace(/\*\*/g, "\0")`, from the left; `held` tells that the character before was a star
-- that no pair has taken.
unfoldable pub replace_pairs : (held : Bool) → String → String
replace_pairs false end = end
replace_pairs true end = "*"
replace_pairs false (char_then c rest) = elim (nat_eqb (code c) 42) [
  | true ↦ replace_pairs true rest
  | false ↦ char_then c (replace_pairs false rest)
]
replace_pairs true (char_then c rest) = elim (nat_eqb (code c) 42) [
  | true ↦ str_append "\0" (replace_pairs false rest)
  | false ↦ str_append "*" (char_then c (replace_pairs false rest))
]

abbrev pub segment : Char → String
segment c = if nat_eqb (code c) 42 then "[^/.]*" else char_then c end

abbrev pub anything : Char → String
anything c = if nat_eqb (code c) 0 then ".*" else char_then c end

unfoldable pub glob_source : (pattern : String) → String
unfolding replace_each replace_pairs includes
glob_source pattern = str_append "^" (
    str_append
      (replace_each anything
        (replace_each segment (replace_pairs false (replace_each escape pattern))))
      "$")

unfoldable pub glob_match :
    (reg_exp : String → Option (String → Bool)) → (pattern value : String) → Option Bool
unfolding glob_source
glob_match reg_exp pattern value = elim (reg_exp (glob_source pattern)) [
  | none ↦ none
  | some test ↦ some (test value)
]
