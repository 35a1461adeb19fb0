-- ===== src/Policies/Names.antt =====
-- Names that a policy evaluation makes: CamelCaseToSnakeCase of internal/util/string.go and createKey
-- of policies/policies.go. The tests of Go's package unicode are a parameter.
use Prim.Native.Char.{Char}
use Prim.Native.String.{◌++◌ as str_append}
use clouditor.Prelude.{String, Bool, false, ◌&&◌, ◌||◌, List, [], ◌∷◌, ◌++◌, ◌==◌, if◌then◌else◌}

pub record Unicode : Type 0 where
  pub is_upper : Char → Bool
  pub is_lower : Char → Bool
  pub is_digit : Char → Bool
  pub to_lower : Char → Char

-- strings.Join
unfoldable pub join : List String → String → String
join [] separator = ""
join (text ∷ []) separator = text
join (text ∷ (next ∷ rest)) separator =
    str_append text (str_append separator (join (next ∷ rest) separator))

-- strings.ReplaceAll(s, " ", "")
unfoldable pub without_spaces : String → String
without_spaces String.[] = ""
without_spaces (String.◌∷◌ c text) =
    let rest = without_spaces text in if String.◌∷◌ c "" == " " then rest else String.◌∷◌ c rest

unfoldable pub create_key : String → List String → String
unfolding join without_spaces
create_key tool_id types = without_spaces (join (types ++ tool_id ∷ []) "-")

module _ (unicode : Unicode) where
  -- A test of the next character, which fails at the end of the text.
  unfoldable pub next_is : (Char → Bool) → String → Bool
  next_is test String.[] = false
  next_is test (String.◌∷◌ c text) = test c

  -- marksNewWord of a character that has one before it: the one before, the character, what follows.
  unfoldable pub marks_new_word : Char → Char → String → Bool
  unfolding next_is
  marks_new_word prev c following =
      (unicode.is_upper c && next_is unicode.is_lower following)
      || (unicode.is_lower prev && unicode.is_upper c)
      || (unicode.is_digit c && next_is unicode.is_lower following)
      || (unicode.is_upper prev && unicode.is_digit c)

  unfoldable pub snake_case_from : Char → String → String
  unfolding marks_new_word
  snake_case_from prev String.[] = ""
  snake_case_from prev (String.◌∷◌ c text) =
      let rest = String.◌∷◌ (unicode.to_lower c) (snake_case_from c text) in
      if marks_new_word prev c text then str_append "_" rest else rest

  unfoldable pub camel_case_to_snake_case : String → String
  unfolding snake_case_from
  camel_case_to_snake_case String.[] = ""
  camel_case_to_snake_case (String.◌∷◌ c text) =
      String.◌∷◌ (unicode.to_lower c) (snake_case_from c text)
