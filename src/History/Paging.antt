-- ===== src/History/Paging.antt =====
-- The pages of the lists of src/history.ts, which the time of the last row of a page joins.
use agent_commerce_lab.Prelude.{
  ℕ, zero, suc, ◌≤◌, ◌≡◌, ◌⊎◌, refl, ap, ◌∙◌, inl, inr, true, Option, some, String, List, [], ◌∷◌,
  All, filter, take, length, last?, Bool-cases, arith,
}
use agent_commerce_lab.Prelude.Text.{str_leb, str_ltb, is_empty}
use agent_commerce_lab.Prelude.TextOrder.{leb_trans, ltb→leb, not_ltb→leb, leb-cases}
use agent_commerce_lab.History.Lists.{insert_desc, order_desc, is_before, page_of, next_before}

module _ {A : Type 0} (time : A → String) where
  unfoldable pub On : A → List A → Type 0
  On x [] = ⊥
  On x (y ∷ ys) = (x ≡ y) ⊎ On x ys

  -- No row comes after one that is earlier.
  IsDescending : List A → Type 0
  IsDescending [] = Unit
  IsDescending (x ∷ xs) = All (λ y. str_leb (time y) (time x) ≡ true) xs × IsDescending xs

  at_or_before-All :
      (s t : String) (xs : List A)
      → str_leb s t ≡ true
      → All (λ y. str_leb (time y) s ≡ true) xs
      → All (λ y. str_leb (time y) t ≡ true) xs
  at_or_before-All s t [] h l = tt
  at_or_before-All s t (x ∷ xs) h l = (leb_trans (time x) s t l.0 h, at_or_before-All s t xs h l.1)

  at_or_before-On :
      (t : String) (x : A) (xs : List A)
      → All (λ y. str_leb (time y) t ≡ true) xs
      → On x xs
      → str_leb (time x) t ≡ true
  unfolding On
  at_or_before-On t x [] l m = elim m [ ]
  at_or_before-On t x (y ∷ ys) l (inl e) = ap (λ z. str_leb (time z) t) e ∙ l.0
  at_or_before-On t x (y ∷ ys) l (inr m) = at_or_before-On t x ys l.1 m

  at_or_before_insert :
      (t : String) (x : A) (xs : List A)
      → str_leb (time x) t ≡ true
      → All (λ y. str_leb (time y) t ≡ true) xs
      → All (λ y. str_leb (time y) t ≡ true) (insert_desc time x xs)
  at_or_before_insert t x [] h l = (h, tt)
  at_or_before_insert t x (y ∷ ys) h l = elim (Bool-cases (str_ltb (time x) (time y))) [
    | inl later ↦ rw later (l.0, at_or_before_insert t x ys h l.1)
    | inr first ↦ rw first (h, l)
  ]

  insert-IsDescending :
      (x : A) (xs : List A) → IsDescending xs → IsDescending (insert_desc time x xs)
  unfolding IsDescending
  insert-IsDescending x [] d = (tt, tt)
  insert-IsDescending x (y ∷ ys) d = elim (Bool-cases (str_ltb (time x) (time y))) [
    | inl later ↦ rw later (
      at_or_before_insert (time y) x ys (ltb→leb (time x) (time y) later) d.0,
      insert-IsDescending x ys d.1,
    )
    | inr first ↦
        let before = not_ltb→leb (time x) (time y) first in
        rw first ((before, at_or_before-All (time y) (time x) ys before d.0), d)
  ]

  order-IsDescending : (xs : List A) → IsDescending (order_desc time xs)
  unfolding IsDescending
  order-IsDescending [] = tt
  order-IsDescending (x ∷ xs) = insert-IsDescending x (order_desc time xs) (order-IsDescending xs)

  insert_first : (x : A) (xs : List A) → On x (insert_desc time x xs)
  unfolding On
  insert_first x [] = inl refl
  insert_first x (y ∷ ys) = elim (Bool-cases (str_ltb (time x) (time y))) [
    | inl later ↦ rw later (inr (insert_first x ys))
    | inr first ↦ rw first (inl refl)
  ]

  insert_keeps : (x y : A) (xs : List A) → On x xs → On x (insert_desc time y xs)
  unfolding On
  insert_keeps x y [] m = elim m [ ]
  insert_keeps x y (z ∷ zs) m = elim (Bool-cases (str_ltb (time y) (time z))) [
    | inl later ↦ rw later (elim m [ inl e ↦ inl e | inr n ↦ inr (insert_keeps x y zs n) ])
    | inr first ↦ rw first (inr m)
  ]

  order_keeps : (x : A) (xs : List A) → On x xs → On x (order_desc time xs)
  unfolding On
  order_keeps x [] m = elim m [ ]
  order_keeps x (y ∷ ys) (inl e) = rw e (insert_first y (order_desc time ys))
  order_keeps x (y ∷ ys) (inr m) = insert_keeps x y (order_desc time ys) (order_keeps x ys m)

  -- A row behind the first `n`: these are `n` rows, and it is not later than the last of them.
  record IsBehind (n : ℕ) (x : A) (xs : List A) : Type 0 where
    last : A
    is_last : last? (take n xs) ≡ some last
    full : length (take n xs) ≡ n
    not_later : str_leb (time x) (time last) ≡ true

  next-IsBehind :
      (n : ℕ) (x y : A) (ys : List A) → IsBehind (suc n) x ys → IsBehind (suc (suc n)) x (y ∷ ys)
  next-IsBehind n x y [] b = let impossible : 0 ≡ suc n = b.full in absurd (omega arith)
  next-IsBehind n x y (z ∷ zs) b = record {
    last = b.last;
    is_last = b.is_last;
    full = ap suc b.full;
    not_later = b.not_later;
  }

  cut :
      (n : ℕ) (x : A) (xs : List A)
      → IsDescending xs
      → On x xs
      → On x (take (suc n) xs) ⊎ IsBehind (suc n) x xs
  unfolding On IsDescending
  cut n x [] d m = elim m [ ]
  cut n x (y ∷ ys) d (inl e) = inl (inl e)
  cut zero x (y ∷ ys) d (inr m) = inr (record {
    last = y;
    is_last = refl;
    full = refl;
    not_later = at_or_before-On (time y) x ys d.0 m;
  })
  cut (suc n) x (y ∷ ys) d (inr m) = elim (cut n x ys d.1 m) [
    | inl here ↦ inl (inr here)
    | inr behind ↦ inr (next-IsBehind n x y ys behind)
  ]

  -- The page says where the next one starts, and there is the row: it is of the time of that start, or
  -- passes the bound of the next page.
  pub IsAhead : ℕ → List A → A → Type 0
  IsAhead limit page x =
      (b : String) × (next_before time limit page ≡ some b)
      × ((time x ≡ b) ⊎ (is_before time (some b) x ≡ true))

  behind-IsAhead : (n : ℕ) (x : A) (xs : List A) → IsBehind n x xs → IsAhead n (take n xs) x
  unfolding IsAhead next_before
  behind-IsAhead n x xs b = (
    time b.last,
    full_page (take n xs) b.full b.is_last,
    elim (leb-cases (time x) (time b.last) b.not_later) [
      | inl same ↦ inl same
      | inr before ↦ inr (elim (Bool-cases (is_empty (time b.last))) [
        | inl no_bound ↦ rw no_bound refl
        | inr bound ↦ rw bound before
      ])
    ],
  )
    where
      full_page :
          (page : List A)
          → length page ≡ n
          → last? page ≡ some b.last
          → next_before time n page ≡ some (time b.last)
      full_page page full last = rw (full, last) (ground arith)

  -- With a limit of at least one, a row that the bound of a page lets pass is on the page, or the page is
  -- full and names the start of the next one, and the row is of that time or passes the bound of the next
  -- page.
  pub pages_lose_no_row :
      (limit : ℕ) (before : Option String) (rows : List A) (x : A)
      → 1 ≤ limit
      → On x (filter (is_before time before) rows)
      → On x (page_of time limit before rows) ⊎ IsAhead limit (page_of time limit before rows) x
  unfolding page_of
  pages_lose_no_row zero before rows x h m = absurd (omega arith)
  pages_lose_no_row (suc n) before rows x h m =
      let kept = filter (is_before time before) rows in
      let ordered = order_desc time kept in
      elim (cut n x ordered (order-IsDescending kept) (order_keeps x kept m)) [
        | inl here ↦ inl here
        | inr behind ↦ inr (behind-IsAhead (suc n) x ordered behind)
      ]
