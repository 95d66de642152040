-- ===== src/Batch/Validate.antt =====
-- `validateBatchDomains` of src/batch.ts, on a body that the JSON parser has read. A number is kept as
-- its text, since no number is looked at; a text is its list of code points.
use agent_commerce_lab.Prelude.{
  ℕ, suc, Bool, true, false, ◌||◌, Option, none, some, String, List, [], ◌∷◌, ltb, if◌then◌else◌,
  any,
}
use agent_commerce_lab.Prelude.Text.{◌<>◌, decimal, str_eq}
use agent_commerce_lab.Prelude.Match.{trim, same_text}
use agent_commerce_lab.Batch.{batch_min_domains, batch_max_domains}

mutual
  pub data Json : Type 0 where
    json_null : Json
    json_bool : Bool → Json
    json_number : String → Json
    json_string : List ℕ → Json
    json_array : JsonItems → Json
    json_object : JsonFields → Json

  pub data JsonItems : Type 0 where
    no_item : JsonItems
    item : Json → JsonItems → JsonItems

  pub data JsonFields : Type 0 where
    no_field : JsonFields
    field : String → Json → JsonFields → JsonFields

pub data BatchBodyValidation : Type 0 where
  accepted : List (List ℕ) → Bool → BatchBodyValidation
  refused : String → BatchBodyValidation

-- Of two fields with one name the parser keeps the later.
abbrev pub field_of : String → JsonFields → Option Json
field_of name no_field = none
field_of name (field key value more) = elim (field_of name more) [
  | some later ↦ some later
  | none ↦ if str_eq key name then some value else none
]

abbrev pub count_items : JsonItems → ℕ
count_items no_item = 0
count_items (item j more) = suc (count_items more)

abbrev pub is_nil : List ℕ → Bool
is_nil [] = true
is_nil (c ∷ s) = false

-- The trimmed text of an entry, `none` unless it is a text that is not blank.
abbrev pub entry_of : Json → Option (List ℕ)
entry_of (json_string s) = if is_nil (trim s) then none else some (trim s)
entry_of _ = none

abbrev pub put_entry : Option (List ℕ) → Option (List (List ℕ)) → Option (List (List ℕ))
put_entry (some d) (some ds) = some (d ∷ ds)
put_entry _ _ = none

-- `some` of the trimmed entries where all are texts that are not blank.
unfoldable pub entries_of : JsonItems → Option (List (List ℕ))
entries_of no_item = some []
entries_of (item j more) = put_entry (entry_of j) (entries_of more)

-- `new Set(trimmed).size !== trimmed.length`
unfoldable pub has_duplicate : List (List ℕ) → Bool
has_duplicate [] = false
has_duplicate (d ∷ ds) = any (same_text d) ds || has_duplicate ds

abbrev pub check_content : List (List ℕ) → Option Json → BatchBodyValidation
check_content ds none = accepted ds false
check_content ds (some (json_bool b)) = accepted ds b
check_content ds (some _) = refused "content, when present, must be a boolean"

abbrev pub check_entries : Option Json → Option (List (List ℕ)) → BatchBodyValidation
check_entries content none = refused "every entry in domains must be a non-empty string"
check_entries content (some ds) =
    if has_duplicate ds
    then refused "domains must not contain duplicates"
    else check_content ds content

abbrev pub check_domains : Option Json → Option Json → BatchBodyValidation
check_domains content (some (json_array items)) =
    if ltb (count_items items) batch_min_domains || ltb batch_max_domains (count_items items)
    then refused (
        "domains must contain between "
        <> decimal batch_min_domains
        <> " and "
        <> decimal batch_max_domains
        <> " entries (got "
        <> decimal (count_items items)
        <> ")")
    else check_entries content (entries_of items)
check_domains content _ = refused "missing required field: domains (string[])"

unfoldable pub validate_batch_domains : Json → BatchBodyValidation
validate_batch_domains (json_object fields) =
    check_domains (field_of "content" fields) (field_of "domains" fields)
validate_batch_domains _ = refused "request body must be a JSON object"
