-- ===== src/Batch/Requests.antt =====
-- `validateBatchDomains` of src/batch.ts against the description of a request.
use agent_commerce_lab.Prelude.{
  ℕ, Bool, true, false, ◌||◌, Option, none, some, String, List, [], ◌∷◌, ◌≡◌, ◌≢◌, ◌≤◌, ◌↔◌, refl,
  sym, ap, ◌∙◌, ltb, length, any, All, arith, Bool-cases, inl, inr,
}
use agent_commerce_lab.Prelude.Match.{same_text, same_text_refl}
use agent_commerce_lab.Batch.{batch_min_domains, batch_max_domains}
use agent_commerce_lab.Batch.Validate.{
  Json, json_null, json_bool, json_number, json_string, json_array, json_object, JsonItems,
  accepted, refused, count_items, entries_of, has_duplicate, check_content, check_entries,
  check_domains, validate_batch_domains, field_of,
}
use agent_commerce_lab.Batch.Sound.{
  IsDistinct, IsFlag, AreTrimmed, IsRequest, entries_of-AreTrimmed, entries_of-string_items,
  count_items-string_items, same_text→≡,
}

or_left : (a b : Bool) → (a || b) ≡ false → a ≡ false
or_left a b h = ground arith

or_right : (a b : Bool) → (a || b) ≡ false → b ≡ false
or_right a b h = ground arith

or_false : (a b : Bool) → a ≡ false → b ≡ false → (a || b) ≡ false
or_false a b h k = ground arith

unlike : (d : List ℕ) (ds : List (List ℕ)) → any (same_text d) ds ≡ false → All (λ e. d ≢ e) ds
unlike d [] h = tt
unlike d (e ∷ ds) h = (
  (λ same.
      let found : same_text d e ≡ true = ap (same_text d) (sym same) ∙ same_text_refl d in
      let missed : same_text d e ≡ false = or_left (same_text d e) (any (same_text d) ds) h in
      ground arith),
  unlike d ds (or_right (same_text d e) (any (same_text d) ds) h),
)

not_found : (d : List ℕ) (ds : List (List ℕ)) → All (λ e. d ≢ e) ds → any (same_text d) ds ≡ false
not_found d [] h = refl
not_found d (e ∷ ds) h = elim (Bool-cases (same_text d e)) [
  | inl same ↦ absurd (h.0 (same_text→≡ d e same))
  | inr other ↦ or_false (same_text d e) (any (same_text d) ds) other (not_found d ds h.1)
]

no_duplicate-IsDistinct : (ds : List (List ℕ)) → has_duplicate ds ≡ false → IsDistinct ds
unfolding IsDistinct has_duplicate
no_duplicate-IsDistinct [] h = tt
no_duplicate-IsDistinct (d ∷ ds) h = (
  unlike d ds (or_left (any (same_text d) ds) (has_duplicate ds) h),
  no_duplicate-IsDistinct ds (or_right (any (same_text d) ds) (has_duplicate ds) h),
)

has_duplicate-IsDistinct : (ds : List (List ℕ)) → IsDistinct ds → has_duplicate ds ≡ false
unfolding IsDistinct has_duplicate
has_duplicate-IsDistinct [] h = refl
has_duplicate-IsDistinct (d ∷ ds) h =
    or_false (any (same_text d) ds) (has_duplicate ds) (not_found d ds h.0)
      (has_duplicate-IsDistinct ds h.1)

-- What an accepted `content` was.
check_content-IsFlag :
    (ds es : List (List ℕ)) (o : Option Json) (c : Bool)
    → check_content ds o ≡ accepted es c
    → (es ≡ ds) × IsFlag o c
unfolding IsFlag
check_content-IsFlag ds es none c h = (cc, cc)
check_content-IsFlag ds es (some (json_bool b)) c h =
    let same : b ≡ c = cc in (cc, ap json_bool same)
check_content-IsFlag ds es (some json_null) c h = cc
check_content-IsFlag ds es (some (json_number n)) c h = cc
check_content-IsFlag ds es (some (json_string s)) c h = cc
check_content-IsFlag ds es (some (json_array a)) c h = cc
check_content-IsFlag ds es (some (json_object f)) c h = cc

flag_accepted :
    (ds : List (List ℕ)) (o : Option Json) (c : Bool)
    → IsFlag o c
    → check_content ds o ≡ accepted ds c
unfolding IsFlag
flag_accepted ds none c h = rw h refl
flag_accepted ds (some j) c h = rw h refl

-- What accepted entries were.
record AreEntries (content : Option Json) (o : Option (List (List ℕ))) (ds : List (List ℕ))
    (c : Bool) : Type 0 where
  entries : o ≡ some ds
  distinct : IsDistinct ds
  flag : IsFlag content c

check_entries-AreEntries :
    (content : Option Json) (o : Option (List (List ℕ))) (ds : List (List ℕ)) (c : Bool)
    → check_entries content o ≡ accepted ds c
    → AreEntries content o ds c
check_entries-AreEntries content none ds c h = cc
check_entries-AreEntries content (some es) ds c h = elim (Bool-cases (has_duplicate es)) [
  | inl double ↦
      let refused_early : refused "domains must not contain duplicates" ≡ accepted ds c =
        rw double at h in
      cc
  | inr single ↦
      let passed : check_content es content ≡ accepted ds c = rw single at h in
      let kept = check_content-IsFlag es ds content c passed in
      record {
        entries = ap some (sym kept.0);
        distinct = rw kept.0 (no_duplicate-IsDistinct es single);
        flag = kept.1;
      }
]

refused_not_accepted : {e : String} {ds : List (List ℕ)} {c : Bool} → refused e ≢ accepted ds c
refused_not_accepted h = cc

-- What an accepted array was.
record IsArray (content domains : Option Json) (ds : List (List ℕ)) (c : Bool) : Type 0 where
  items : JsonItems
  is_array : domains ≡ some (json_array items)
  low : 2 ≤ count_items items
  high : count_items items ≤ 20
  rest : AreEntries content (entries_of items) ds c

check_domains-IsArray :
    (content domains : Option Json) (ds : List (List ℕ)) (c : Bool)
    → check_domains content domains ≡ accepted ds c
    → IsArray content domains ds c
check_domains-IsArray content (some (json_array items)) ds c h =
    elim (Bool-cases
      (ltb (count_items items) batch_min_domains || ltb batch_max_domains (count_items items))) [
        | inl outside ↦ absurd (refused_not_accepted (rw outside at h))
        | inr inside ↦ record {
          items = items;
          is_array = refl;
          low = ground arith;
          high = ground arith;
          rest = check_entries-AreEntries content (entries_of items) ds c (rw inside at h);
        }
      ]
check_domains-IsArray content none ds c h = cc
check_domains-IsArray content (some json_null) ds c h = cc
check_domains-IsArray content (some (json_bool b)) ds c h = cc
check_domains-IsArray content (some (json_number n)) ds c h = cc
check_domains-IsArray content (some (json_string s)) ds c h = cc
check_domains-IsArray content (some (json_object o)) ds c h = cc

count_entries :
    (items : JsonItems) (ds : List (List ℕ)) → AreTrimmed items ds → count_items items ≡ length ds
count_entries items ds a = rw (a.are_texts, a.trimmed) (count_items-string_items a.texts)

entries_AreTrimmed :
    (items : JsonItems) (ds : List (List ℕ)) → AreTrimmed items ds → entries_of items ≡ some ds
entries_AreTrimmed items ds a =
    rw (a.are_texts, a.trimmed) (entries_of-string_items a.texts a.not_blank)

within :
    (n size : ℕ)
    → n ≡ size
    → 2 ≤ size
    → size ≤ 20
    → (ltb n batch_min_domains || ltb batch_max_domains n) ≡ false
within n size same low high = ground arith

accepted-IsRequest :
    (body : Json) (ds : List (List ℕ)) (content : Bool)
    → validate_batch_domains body ≡ accepted ds content
    → IsRequest body ds content
unfolding validate_batch_domains
accepted-IsRequest (json_object fields) ds content h =
    let array =
      check_domains-IsArray (field_of "content" fields) (field_of "domains" fields) ds content h in
    let named = entries_of-AreTrimmed array.items ds array.rest.entries in
    let size = count_entries array.items ds named in
    record {
      fields = fields;
      is_object = refl;
      items = array.items;
      is_array = array.is_array;
      at_least = let low : 2 ≤ count_items array.items = array.low in omega (arith, size);
      at_most = let high : count_items array.items ≤ 20 = array.high in omega (arith, size);
      named = named;
      distinct = array.rest.distinct;
      flag = array.rest.flag;
    }
accepted-IsRequest json_null ds content h = cc
accepted-IsRequest (json_bool b) ds content h = cc
accepted-IsRequest (json_number n) ds content h = cc
accepted-IsRequest (json_string s) ds content h = cc
accepted-IsRequest (json_array a) ds content h = cc

IsRequest-accepted :
    (body : Json) (ds : List (List ℕ)) (content : Bool)
    → IsRequest body ds content
    → validate_batch_domains body ≡ accepted ds content
unfolding validate_batch_domains
IsRequest-accepted body ds content r =
    let size : count_items r.items ≡ length ds = count_entries r.items ds r.named in
    let entries = entries_AreTrimmed r.items ds r.named in
    let inside : (ltb (count_items r.items) batch_min_domains
          || ltb batch_max_domains (count_items r.items))
        ≡ false =
      within (count_items r.items) (length ds) size r.at_least r.at_most in
    rw (r.is_object, r.is_array, inside, entries, has_duplicate-IsDistinct ds r.distinct)
      (flag_accepted ds (field_of "content" r.fields) content r.flag)

-- A body is accepted with these domains and this flag exactly if it asks for them.
pub validate_batch_domains_iff :
    (body : Json) (ds : List (List ℕ)) (content : Bool)
    → (validate_batch_domains body ≡ accepted ds content) ↔ IsRequest body ds content
validate_batch_domains_iff body ds content =
    (accepted-IsRequest body ds content, IsRequest-accepted body ds content)
