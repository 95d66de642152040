-- ===== src/Worker/Rulings.antt =====
-- A ruling of src/index.ts is read back, and touches no other finding.
use agent_commerce_lab.Prelude.{
  ◌≡◌, refl, sym, ◌∙◌, true, false, Option, none, some, String, List, [], ◌∷◌, ◌++◌, any,
  Bool-cases, inl, inr, arith, if◌then◌else◌,
}
use agent_commerce_lab.ContentCheck.Classify.Sets.{str_eq→≡, str_eq_refl}
use agent_commerce_lab.Worker.Review.{
  ReviewRow, is_row, update_rows, upsert_review, ruling_of, ReviewBody, review_fields, ReviewFaults,
  is_status, review_row, post_review,
}

abbrev or_later : Option ReviewRow → Option ReviewRow → Option ReviewRow
or_later (some later) first = some later
or_later none first = first

ruling_step :
    (d k : String) (r : ReviewRow) (rs : List ReviewRow)
    → ruling_of d k (r ∷ rs) ≡ or_later (ruling_of d k rs) (if is_row d k r then some r else none)
ruling_step d k r rs = by_later (ruling_of d k rs)
  where
    by_later :
        (o : Option ReviewRow)
        → (elim o [ some later ↦ some later | none ↦ if is_row d k r then some r else none ])
          ≡ or_later o (if is_row d k r then some r else none)
    by_later none = refl
    by_later (some later) = refl

-- A row of the same keys is one of the new row's keys.
same_keys :
    (d k : String) (new : ReviewRow)
    → is_row d k new ≡ true
    → (new.domain ≡ d) × (new.finding_key ≡ k)
same_keys d k new h =
    (str_eq→≡ new.domain d (ground arith), str_eq→≡ new.finding_key k (ground arith))

own_row : (new : ReviewRow) → is_row new.domain new.finding_key new ≡ true
own_row new = rw (str_eq_refl new.domain) (str_eq_refl new.finding_key)

no_row :
    (d k : String) (rs : List ReviewRow) → any (is_row d k) rs ≡ false → ruling_of d k rs ≡ none
no_row d k [] h = refl
no_row d k (r ∷ rs) h =
    let other : is_row d k r ≡ false = ground arith in
    ruling_step d k r rs ∙ rw (no_row d k rs (ground arith), other) refl

update_nothing :
    (new : ReviewRow) (rs : List ReviewRow)
    → any (is_row new.domain new.finding_key) rs ≡ false
    → update_rows new rs ≡ rs
update_nothing new [] h = refl
update_nothing new (r ∷ rs) h =
    let other : is_row new.domain new.finding_key r ≡ false = ground arith in
    rw (other, update_nothing new rs (ground arith)) refl

update_own :
    (new : ReviewRow) (rs : List ReviewRow)
    → any (is_row new.domain new.finding_key) rs ≡ true
    → ruling_of new.domain new.finding_key (update_rows new rs) ≡ some new
update_own new [] h = cc
update_own new (r ∷ rs) h = elim (Bool-cases (any (is_row new.domain new.finding_key) rs)) [
  | inl later ↦
      ruling_step new.domain new.finding_key
        (if is_row new.domain new.finding_key r then new else r) (update_rows new rs)
      ∙ rw (update_own new rs later) refl
  | inr none_later ↦
      let here : is_row new.domain new.finding_key r ≡ true = ground arith in
      let rest : ruling_of new.domain new.finding_key (update_rows new rs) ≡ none =
        rw (update_nothing new rs none_later) (no_row new.domain new.finding_key rs none_later) in
      ruling_step new.domain new.finding_key
        (if is_row new.domain new.finding_key r then new else r) (update_rows new rs)
      ∙ rw (rest, here) (rw (own_row new) refl)
]

update_other :
    (d k : String) (new : ReviewRow) (rs : List ReviewRow)
    → is_row d k new ≡ false
    → ruling_of d k (update_rows new rs) ≡ ruling_of d k rs
update_other d k new [] h = refl
update_other d k new (r ∷ rs) h =
    let rest = update_other d k new rs h in
    ruling_step d k (if is_row new.domain new.finding_key r then new else r) (update_rows new rs)
    ∙ (elim (Bool-cases (is_row new.domain new.finding_key r)) [
      | inr kept ↦ rw (kept, rest) refl
      | inl replaced ↦
          let same = same_keys new.domain new.finding_key r replaced in
          let old : is_row d k r ≡ false = rw (same.0, same.1) h in
          rw (replaced, rest) (rw (h, old) refl)
    ]
        ∙ sym (ruling_step d k r rs))

ruling_of-append :
    (d k : String) (rs : List ReviewRow) (new : ReviewRow)
    → ruling_of d k (rs ++ new ∷ []) ≡ (if is_row d k new then some new else ruling_of d k rs)
ruling_of-append d k [] new = refl
ruling_of-append d k (r ∷ rs) new =
    ruling_step d k r (rs ++ new ∷ []) ∙ (elim (Bool-cases (is_row d k new)) [
      | inl mine ↦ rw (ruling_of-append d k rs new, mine) refl
      | inr other ↦ rw (ruling_of-append d k rs new, other) (sym (ruling_step d k r rs))
    ])

ruling_of-upsert_review :
    (d k : String) (new : ReviewRow) (table : List ReviewRow)
    → ruling_of d k (upsert_review new table)
      ≡ (if is_row d k new then some new else ruling_of d k table)
unfolding upsert_review
ruling_of-upsert_review d k new table =
    elim (Bool-cases (any (is_row new.domain new.finding_key) table)) [
      | inr fresh ↦ rw fresh (ruling_of-append d k table new)
      | inl old ↦ rw old (elim (Bool-cases (is_row d k new)) [
        | inr other ↦ rw (update_other d k new table other, other) refl
        | inl mine ↦
            let same = same_keys d k new mine in
            rw mine (rw (sym same.0, sym same.1) (update_own new table old))
      ])
    ]

abbrev pub review_of : String → String → String → Option String → ReviewBody
review_of domain finding_key status notes = record {
  domain = some domain;
  finding_key = some finding_key;
  status = some status;
  notes = notes;
}

abbrev pub all_statements_work : ReviewFaults
all_statements_work = record { select_fails = false; write_fails = false }

-- A ruling with one of the three states is read back for its domain and its finding from then on, if no
-- statement fails, and the ruling of every other domain and finding is what it was.
pub ruling_of-post_review :
    (domain_key : String → String) (now domain finding_key status : String) (notes : Option String)
    (table : List ReviewRow) (d k : String)
    → is_status status ≡ true
    → let new = review_row domain_key now domain finding_key status notes in
      let body = review_fields (review_of domain finding_key status notes) in
      ruling_of d k (post_review domain_key all_statements_work now body table).1
      ≡ (if is_row d k new then some new else ruling_of d k table)
unfolding post_review
ruling_of-post_review domain_key now domain finding_key status notes table d k h =
    rw h (
      ruling_of-upsert_review d k (review_row domain_key now domain finding_key status notes) table)
