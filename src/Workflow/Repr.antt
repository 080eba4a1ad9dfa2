-- ===== src/Workflow/Repr.antt =====
-- Python's `str(value or "")`, which the handlers apply to a card's fields. `repr` escapes the
-- quote, the backslash and the three named control characters; other characters that Python
-- counts as unprintable are left as they are.
use Prim.Native.Char.{Char, code}
use Prim.Native.String.{◌++◌ as append}
use team_flow.Prelude.{
  String, ◌≡◌, refl, Bool, false, not, ◌&&◌, ◌||◌, List, [], ◌∷◌, nat_beq, if◌then◌else◌, Dict,
}
use team_flow.Workflow.Value.{Value, null, text, list, object}

has_code : Char → String → Bool
has_code q String.[] = false
has_code q (String.◌∷◌ c s) = nat_beq (code c) (code q) || has_code q s

escaped : Char → Char → String
escaped q c =
    if nat_beq (code c) (code q)
    then String.◌∷◌ "\\" (String.◌∷◌ c String.[])
    else if nat_beq (code c) 92
    then "\\\\"
    else if nat_beq (code c) 10
    then "\\n"
    else if nat_beq (code c) 13
    then "\\r"
    else if nat_beq (code c) 9
    then "\\t"
    else String.◌∷◌ c String.[]

escape : Char → String → String
escape q String.[] = String.[]
escape q (String.◌∷◌ c s) = append (escaped q c) (escape q s)

quoted : Char → String → String
quoted q s = String.◌∷◌ q (append (escape q s) (String.◌∷◌ q String.[]))

pub repr_text : String → String
repr_text s = if has_code "'" s && not (has_code "\"" s) then quoted "\"" s else quoted "'" s

repr_items : List String → String
repr_items [] = "]"
repr_items (x ∷ []) = append (repr_text x) "]"
repr_items (x ∷ y ∷ xs) = append (repr_text x) (append ", " (repr_items (y ∷ xs)))

repr_fields : Dict String → String
repr_fields [] = "}"
repr_fields ((k, v) ∷ []) = append (repr_text k) (append ": " (append (repr_text v) "}"))
repr_fields ((k, v) ∷ f ∷ d) =
    append (repr_text k) (append ": " (append (repr_text v) (append ", " (repr_fields (f ∷ d)))))

-- str(value or "")
unfoldable pub as_text : Value → String
unfolding has_code escaped escape quoted repr_text repr_items repr_fields
as_text null = ""
as_text (text s) = s
as_text (list []) = ""
as_text (list (x ∷ xs)) = append "[" (repr_items (x ∷ xs))
as_text (object []) = ""
as_text (object (x ∷ d)) = append "{" (repr_fields (x ∷ d))

as_text_list : as_text (list ("a" ∷ "it's" ∷ [])) ≡ "['a', \"it's\"]"
unfolding as_text
as_text_list = refl
