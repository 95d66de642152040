-- ===== src/Batch/Sound.antt =====
-- Which bodies ask for a batch, written out apart from `validateBatchDomains` of src/batch.ts, and the
-- entries that it collects.
use agent_commerce_lab.Prelude.{
  ℕ, suc, Bool, true, false, Option, none, some, List, [], ◌∷◌, ◌≡◌, ◌≢◌, ◌≤◌, refl, ap, length,
  map, All, arith, Bool-cases, inl, inr,
}
use agent_commerce_lab.Prelude.Match.{trim, same_text}
use agent_commerce_lab.Batch.Validate.{
  Json, json_null, json_bool, json_number, json_string, json_array, json_object, JsonItems, no_item,
  item, JsonFields, count_items, is_nil, put_entry, entries_of, field_of,
}

-- The JSON array of some texts.
unfoldable pub string_items : List (List ℕ) → JsonItems
string_items [] = no_item
string_items (s ∷ ss) = item (json_string s) (string_items ss)

-- No text is equal to one behind it.
unfoldable pub IsDistinct : List (List ℕ) → Type 0
IsDistinct [] = Unit
IsDistinct (d ∷ ds) = All (λ e. d ≢ e) ds × IsDistinct ds

-- The field `content` is missing, which means false, or it is this Boolean.
unfoldable pub IsFlag : Option Json → Bool → Type 0
IsFlag none c = c ≡ false
IsFlag (some j) c = j ≡ json_bool c

-- Texts that are not blank, and what is left of them without the space around them.
pub record AreTrimmed (items : JsonItems) (ds : List (List ℕ)) : Type 0 where
  pub texts : List (List ℕ)
  pub are_texts : items ≡ string_items texts
  pub not_blank : All (λ s. is_nil (trim s) ≡ false) texts
  pub trimmed : ds ≡ map trim texts

-- A body that asks for a batch of these domains: an object whose field `domains` is an array of 2 to 20
-- texts, none of them blank, which are these domains up to the space around them, and no two equal.
pub record IsRequest (body : Json) (ds : List (List ℕ)) (content : Bool) : Type 0 where
  pub fields : JsonFields
  pub is_object : body ≡ json_object fields
  pub items : JsonItems
  pub is_array : field_of "domains" fields ≡ some (json_array items)
  pub at_least : 2 ≤ length ds
  pub at_most : length ds ≤ 20
  pub named : AreTrimmed items ds
  pub distinct : IsDistinct ds
  pub flag : IsFlag (field_of "content" fields) content

put_inversion :
    (t : List ℕ) (o : Option (List (List ℕ))) (ds : List (List ℕ))
    → put_entry (some t) o ≡ some ds
    → (rest : List (List ℕ)) × (o ≡ some rest) × (ds ≡ t ∷ rest)
put_inversion t none ds h = cc
put_inversion t (some rest) ds h = (rest, refl, cc)

item-AreTrimmed :
    (s : List ℕ) (more : JsonItems) (ds : List (List ℕ))
    → is_nil (trim s) ≡ false
    → AreTrimmed more ds
    → AreTrimmed (item (json_string s) more) (trim s ∷ ds)
unfolding string_items
item-AreTrimmed s more ds filled a = record {
  texts = s ∷ a.texts;
  are_texts = ap (λ (i : JsonItems). item (json_string s) i) a.are_texts;
  not_blank = (filled, a.not_blank);
  trimmed = ap (λ (r : List (List ℕ)). trim s ∷ r) a.trimmed;
}

pub entries_of-AreTrimmed :
    (items : JsonItems) (ds : List (List ℕ)) → entries_of items ≡ some ds → AreTrimmed items ds
unfolding entries_of string_items
entries_of-AreTrimmed no_item ds h = record {
  texts = [];
  are_texts = refl;
  not_blank = tt;
  trimmed = cc;
}
entries_of-AreTrimmed (item (json_string s) more) ds h = elim (Bool-cases (is_nil (trim s))) [
  | inl blank ↦ let impossible : none ≡ some ds = rw blank at h in cc
  | inr filled ↦
      let put : put_entry (some (trim s)) (entries_of more) ≡ some ds = rw filled at h in
      let rest = put_inversion (trim s) (entries_of more) ds put in
      rw rest.2 (item-AreTrimmed s more rest.0 filled (entries_of-AreTrimmed more rest.0 rest.1))
]
entries_of-AreTrimmed (item json_null more) ds h = cc
entries_of-AreTrimmed (item (json_bool b) more) ds h = cc
entries_of-AreTrimmed (item (json_number n) more) ds h = cc
entries_of-AreTrimmed (item (json_array a) more) ds h = cc
entries_of-AreTrimmed (item (json_object o) more) ds h = cc

-- The entries of texts that are not blank.
pub entries_of-string_items :
    (texts : List (List ℕ))
    → All (λ s. is_nil (trim s) ≡ false) texts
    → entries_of (string_items texts) ≡ some (map trim texts)
unfolding entries_of string_items
entries_of-string_items [] h = refl
entries_of-string_items (s ∷ ss) h = rw (h.0, entries_of-string_items ss h.1) refl

pub count_items-string_items :
    (texts : List (List ℕ)) → count_items (string_items texts) ≡ length (map trim texts)
unfolding string_items
count_items-string_items [] = refl
count_items-string_items (s ∷ ss) = ap suc (count_items-string_items ss)

pub same_text→≡ : (s t : List ℕ) → same_text s t ≡ true → s ≡ t
same_text→≡ [] [] h = refl
same_text→≡ [] (d ∷ t) h = cc
same_text→≡ (c ∷ s) [] h = cc
same_text→≡ (c ∷ s) (d ∷ t) h =
    let heads : c ≡ d = ground arith in let tails = same_text→≡ s t (ground arith) in cc
