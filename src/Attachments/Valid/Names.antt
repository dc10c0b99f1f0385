-- ===== src/Attachments/Valid/Names.antt =====
-- `validate_attachment_display_name` of src/systeme_local_gateway/providers/attachment_models.py.
use systeme_local.Prelude.{
  ℕ, String, Bool, true, false, not, ◌&&◌, List, [], ◌∷◌, str_eq, leb, if◌then◌else◌, length, any,
}

-- Unicode is not part of the program: the NFC form of a text, its characters as texts of one
-- character, the category of one, the bytes of UTF-8, and the case-folded text of characters.
pub record NameCalls : Type 0 where
  pub nfc : String → String
  pub characters : String → List String
  pub is_control : String → Bool
  pub utf8_size : String → ℕ
  pub casefold : List String → String

abbrev one_of : List String → String → Bool
one_of options value = any (λ x. str_eq x value) options

-- `value.endswith((" ", "."))`
abbrev ends_in : (String → Bool) → List String → Bool
ends_in p [] = false
ends_in p (c ∷ []) = p c
ends_in p (c ∷ d ∷ rest) = ends_in p (d ∷ rest)

-- `value.split(".", 1)[0]` and `rstrip(" .")`
unfoldable pub before_dot : List String → List String
before_dot [] = []
before_dot (c ∷ rest) = let more = before_dot rest in if str_eq c "." then [] else c ∷ more

abbrev is_empty : List String → Bool
is_empty [] = true
is_empty (c ∷ rest) = false

unfoldable pub strip_right : List String → List String
strip_right [] = []
strip_right (c ∷ rest) =
    let more = strip_right rest in
    if is_empty more && one_of (" " ∷ "." ∷ []) c then [] else c ∷ more

abbrev reserved : List String
reserved =
    "con" ∷ "prn" ∷ "aux" ∷ "nul" ∷ "com1" ∷ "com2" ∷ "com3" ∷ "com4" ∷ "com5" ∷ "com6" ∷ "com7"
    ∷ "com8" ∷ "com9" ∷ "lpt1" ∷ "lpt2" ∷ "lpt3" ∷ "lpt4" ∷ "lpt5" ∷ "lpt6" ∷ "lpt7" ∷ "lpt8"
    ∷ "lpt9" ∷ []

abbrev metacharacters : List String
metacharacters = "/" ∷ "\\" ∷ ":" ∷ "*" ∷ "?" ∷ "\"" ∷ "<" ∷ ">" ∷ "|" ∷ []

-- the test of the validator, with the bounds of the field on its length in characters
unfoldable pub valid_display_name : NameCalls → String → Bool
unfolding before_dot strip_right
valid_display_name calls value =
    let letters = calls.characters value in
    leb 1 (length letters)
    && leb (length letters) 240
    && str_eq value (calls.nfc value)
    && not (one_of ("." ∷ ".." ∷ []) value)
    && not (ends_in (one_of (" " ∷ "." ∷ [])) letters)
    && not (any (one_of metacharacters) letters)
    && not (any calls.is_control letters)
    && leb (calls.utf8_size value) 240
    && not (one_of reserved (calls.casefold (strip_right (before_dot letters))))
