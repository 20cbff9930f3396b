-- ===== src/AuditRead/Follow.antt =====
-- A client that follows the cursors of src/capacity/application/audit-read.service.ts lists all rows.
use mathlib.Core.List.{map-append}
use invoice_reservation.Prelude.{
  ltb→lt, ◌≡◌, refl, sym, ap, ◌∙◌, ℕ, zero, suc, ◌≤◌, ◌<◌, Bool, true, false, Bool-cases, inl, inr,
  Option, none, some, List, [], ◌∷◌, ◌++◌, map, ltb, length, take, drop, filter, arith,
  length-take_le, take-take-suc, take_all, length-drop, take-append-drop, filter-filter,
}
use invoice_reservation.Prelude.Text.{Text}
use invoice_reservation.Prelude.Result.{Result, ok}
use invoice_reservation.AuditRead.Order.{
  Listing, AllFollow, Ordered, follows, filter-Ordered, order_by, place,
}
use invoice_reservation.AuditRead.Pages.{
  Page, last_of, cursor_after, page_of, follow_pages, next_pages, items_of, append_items,
}

last_of-some :
    {A : Type 0} (n : ℕ) (x : A) (xs : List A)
    → (l : A) × (last_of (take (suc n) (x ∷ xs)) ≡ some l)
unfolding last_of
last_of-some zero x xs = (x, refl)
last_of-some (suc n) x [] = (x, refl)
last_of-some (suc n) x (y ∷ ys) = last_of-some n y ys

last_of_nonempty :
    {A : Type 0} (n : ℕ) (xs : List A)
    → 0 < length xs
    → (l : A) × (last_of (take (suc n) xs) ≡ some l)
last_of_nonempty n [] h = absurd (omega arith)
last_of_nonempty n (x ∷ xs) h = last_of-some n x xs

abbrev pub AllRows {ℓ} : {A : Type 0} → (A → Type ℓ) → List A → Type ℓ
AllRows P [] = Unit
AllRows P (x ∷ xs) = P x × AllRows P xs

last_of-AllRows {ℓ} :
    {A : Type 0} (P : A → Type ℓ) (n : ℕ) (xs : List A) (l : A)
    → AllRows P xs
    → last_of (take n xs) ≡ some l
    → P l
unfolding last_of
last_of-AllRows P zero xs l k h = absurd cc
last_of-AllRows P (suc n) [] l k h = absurd cc
last_of-AllRows P (suc zero) (x ∷ xs) l k h = let same : x ≡ l = cc in rw (← same) (k.0)
last_of-AllRows P (suc (suc n)) (x ∷ []) l k h = let same : x ≡ l = cc in rw (← same) (k.0)
last_of-AllRows P (suc (suc n)) (x ∷ y ∷ ys) l k h = last_of-AllRows P (suc n) (y ∷ ys) l k.1 h

pub filter-AllRows {ℓ} :
    {A : Type 0} (P : A → Type ℓ) (p : A → Bool) (xs : List A)
    → AllRows P xs
    → AllRows P (filter p xs)
unfolding filter
filter-AllRows P p [] h = h
filter-AllRows P p (x ∷ xs) h = elim (Bool-cases (p x)) [
  | inl kept ↦ rw kept (h.0, filter-AllRows P p xs h.1)
  | inr gone ↦ rw gone (filter-AllRows P p xs h.1)
]

-- The rows of a filtered list pass the test.
filter-passes : {A : Type 0} (p : A → Bool) (xs : List A) → AllRows (λ x. p x ≡ true) (filter p xs)
unfolding filter
filter-passes p [] = tt
filter-passes p (x ∷ xs) = elim (Bool-cases (p x)) [
  | inl kept ↦ rw kept (kept, filter-passes p xs)
  | inr gone ↦ rw gone (filter-passes p xs)
]

AllRows-last_of {ℓ} :
    {A : Type 0} (P : A → Type ℓ) (p : A → Bool) (n : ℕ) (xs : List A) (l : A)
    → AllRows P xs
    → last_of (take n (filter p xs)) ≡ some l
    → P l
AllRows-last_of P p n xs l h found =
    last_of-AllRows P n (filter p xs) l (filter-AllRows P p xs h) found

module _ {A B : Type 0} (cursor_of : A → Text) (body : A → B) where
  -- A page with more to come.
  page_of-more :
      (limit : ℕ) (t : List A)
      → limit < length t
      → page_of cursor_of body limit (take (suc limit) t) ≡ record {
        next_cursor = cursor_after cursor_of true (last_of (take limit t));
        items = map body (take limit t);
      }
  unfolding page_of
  page_of-more limit t h =
      let full : ltb limit (length (take (suc limit) t)) ≡ true =
        ground (arith, length-take_le (suc limit) t h) in
      rw (full, take-take-suc limit t) refl

  -- The last page.
  page_of_end :
      (limit : ℕ) (t : List A)
      → length t ≤ limit
      → page_of cursor_of body limit (take (suc limit) t)
        ≡ record { next_cursor = none; items = map body t }
  unfolding page_of
  page_of_end limit t h =
      let short : ltb limit (length t) ≡ false = ground arith in
      rw (take_all (suc limit) t (omega arith), short) refl

module _ {K A : Type 0} (o : Listing K) (key : A → K) where
  filter-follows_all :
      (k : K) (xs : List A) → AllFollow o key k xs → filter (follows o key (some k)) xs ≡ xs
  unfolding filter
  filter-follows_all k [] h = refl
  filter-follows_all k (x ∷ xs) h = rw (h.0) (ap (λ ys. x ∷ ys) (filter-follows_all k xs h.1))

  -- No row of a listing precedes what it follows.
  follows_asym : (a b : K) → o.precedes a b ≡ true → o.precedes b a ≡ false
  follows_asym a b h = elim (Bool-cases (o.precedes b a)) [
    | inl back ↦ ground (arith, o.precedes_trans a b a h back, o.precedes_irrefl a)
    | inr apart ↦ apart
  ]

  last_of-AllFollow :
      (k : K) (n : ℕ) (xs : List A) (l : A)
      → AllFollow o key k xs
      → last_of (take n xs) ≡ some l
      → o.precedes k (key l) ≡ true
  last_of-AllFollow k n xs l h = last_of-AllRows (λ r. o.precedes k (key r) ≡ true) n xs l (go xs h)
    where
      go : (xs : List A) → AllFollow o key k xs → AllRows (λ r. o.precedes k (key r) ≡ true) xs
      go [] h = tt
      go (x ∷ xs) h = (h.0, go xs h.1)

  -- The rows that follow a page's last row are those that the page leaves.
  filter-follows_last :
      (n : ℕ) (xs : List A) (l : A)
      → Ordered o key xs
      → last_of (take n xs) ≡ some l
      → filter (follows o key (some (key l))) xs ≡ drop n xs
  unfolding filter last_of
  filter-follows_last zero xs l h k = cc
  filter-follows_last (suc n) [] l h k = cc
  filter-follows_last (suc zero) (x ∷ xs) l h k =
      let same : x ≡ l = cc in
      let out : o.precedes (key l) (key x) ≡ false = rw same (o.precedes_irrefl (key l)) in
      let all : AllFollow o key (key l) xs = rw (← same) (h.0) in
      rw out (filter-follows_all (key l) xs all)
  filter-follows_last (suc (suc n)) (x ∷ []) l h k =
      let same : x ≡ l = cc in
      let out : o.precedes (key l) (key x) ≡ false = rw same (o.precedes_irrefl (key l)) in
      rw out refl
  filter-follows_last (suc (suc n)) (x ∷ y ∷ ys) l h k =
      let before = last_of-AllFollow (key x) (suc n) (y ∷ ys) l h.0 k in
      rw (follows_asym (key x) (key l) before) (filter-follows_last (suc n) (y ∷ ys) l h.1 k)

abbrev pub cursor_at : {K : Type 0} → (K → Text) → Option K → Option Text
cursor_at cursor_of none = none
cursor_at cursor_of (some k) = some (cursor_of k)

follow_pages_step :
    {B F : Type 0} (n : ℕ) (calls : ℕ → Option Text → Result (Page B) F) (c : Option Text)
    (next : Text) (shown rest : List B)
    → calls (suc n) c ≡ ok (record { next_cursor = some next; items = shown })
    → follow_pages n calls (some next) ≡ ok rest
    → follow_pages (suc n) calls c ≡ ok (shown ++ rest)
unfolding follow_pages
follow_pages_step n calls c next shown rest e k =
    ap (next_pages (λ next. follow_pages n calls (some next))) e ∙ ap (λ r. append_items shown r) k

follow_pages_last :
    {B F : Type 0} (n : ℕ) (calls : ℕ → Option Text → Result (Page B) F) (c : Option Text)
    (shown : List B)
    → calls n c ≡ ok (record { next_cursor = none; items = shown })
    → follow_pages n calls c ≡ ok shown
unfolding follow_pages
follow_pages_last zero calls c shown e = ap items_of e
follow_pages_last (suc n) calls c shown e =
    ap (next_pages (λ next. follow_pages n calls (some next))) e

-- The calls answer from the ordered rows `s`: at a cursor that may be asked for, with a page of those
-- that follow it.
abbrev pub Answers :
    {K A B F : Type 0}
    → Listing K
    → (A → K)
    → (K → Text)
    → (A → B)
    → ℕ
    → (ℕ → Option K → Type 0)
    → (ℕ → Option Text → Result (Page B) F)
    → List A
    → Type 0
Answers {K} o key cursor_of body limit Asked calls s =
    (n : ℕ) (since : Option K)
    → Asked n since
    → calls n (cursor_at cursor_of since)
      ≡ ok (
          page_of (λ r. cursor_of (key r)) body limit
            (take (suc limit) (filter (follows o key since) s)))

module _ {K A : Type 0} (o : Listing K) (key : A → K) where
  follows-follows :
      (since : Option K) (l : A)
      → follows o key since l ≡ true
      → (x : A) → follows o key (some (key l)) x ≡ true
      → follows o key since x ≡ true
  follows-follows none l h x k = refl
  follows-follows (some c) l h x k = o.precedes_trans c (key l) (key x) h k

  -- What is left of a listing after a page's last row.
  rows_left :
      (n : ℕ) (s : List A) (since : Option K) (l : A)
      → Ordered o key s
      → last_of (take n (filter (follows o key since) s)) ≡ some l
      → filter (follows o key (some (key l))) s ≡ drop n (filter (follows o key since) s)
  rows_left n s since l h found =
      let shown = follows o key since in
      let passes : shown l ≡ true =
        last_of-AllRows (λ r. shown r ≡ true) n (filter shown s) l (filter-passes shown s) found in
      sym (filter-filter shown (follows o key (some (key l))) s (follows-follows since l passes))
      ∙ filter-follows_last o key n (filter shown s) l (filter-Ordered o key shown s h) found

module _ {K A B F : Type 0} (o : Listing K) (key : A → K) (cursor_of : K → Text)
    (body : A → B) where
  -- To follow the cursors from any point lists the rest once, in order.
  pub follow_pages_from :
      (Asked : ℕ → Option K → Type 0) (limit n : ℕ) (calls : ℕ → Option Text → Result (Page B) F)
      (s : List A) (since : Option K)
      → 0 < limit
      → Ordered o key s
      → AllRows (λ r. (n : ℕ) → Asked n (some (key r))) s
      → Answers o key cursor_of body limit Asked calls s
      → Asked n since
      → length (filter (follows o key since) s) ≤ n
      → follow_pages n calls (cursor_at cursor_of since)
        ≡ ok (map body (filter (follows o key since) s))
  follow_pages_from Asked zero n calls s since some_limit h any answers asked short =
      absurd (omega arith)
  follow_pages_from Asked (suc limit) zero calls s since some_limit h any answers asked short =
      follow_pages_last zero calls _ _ (
        answers zero since asked
        ∙ ap ok (page_of_end (λ r. cursor_of (key r)) body (suc limit) _ (omega arith)))
  follow_pages_from Asked (suc limit) (suc n) calls s since some_limit h any answers asked short =
      let t = filter (follows o key since) s in
      elim (Bool-cases (ltb (suc limit) (length t))) [
        | inr end ↦ follow_pages_last (suc n) calls _ _ (
            answers (suc n) since asked
            ∙ ap ok (page_of_end (λ r. cursor_of (key r)) body (suc limit) t (ground arith)))
        | inl more ↦
            let longer : suc limit < length t = ltb→lt (suc limit) (length t) more in
            let (l, found) = last_of_nonempty limit t (omega arith) in
            let left = rows_left o key (suc limit) s since l h found in
            let rest =
              follow_pages_from Asked (suc limit) n calls s (some (key l)) some_limit h any answers
                (AllRows-last_of _ (follows o key since) (suc limit) s l any found n)
                (omega (arith, ap length left, length-drop (suc limit) t)) in
            follow_pages_step n calls _ _ _ _
              (answers (suc n) since asked
                ∙ ap ok (page_of-more (λ r. cursor_of (key r)) body (suc limit) t longer)
                ∙ ap
                    (λ o. ok (record {
                      next_cursor = cursor_after (λ r. cursor_of (key r)) true o;
                      items = map body (take (suc limit) t);
                    }))
                    found)
              rest
            ∙ ap ok (
                sym (map-append body (take (suc limit) t) _)
                ∙ ap (map body)
                    (ap (λ ys. take (suc limit) t ++ ys) left ∙ take-append-drop (suc limit) t))
      ]

module _ {ℓ} {K A : Type 0} (o : Listing K) (key : A → K) (P : A → Type ℓ) where
  place-AllRows : (x : A) (ys : List A) → P x → AllRows P ys → AllRows P (place o key x ys)
  unfolding place
  place-AllRows x [] h k = (h, tt)
  place-AllRows x (y ∷ ys) h k = elim (Bool-cases (o.precedes (key x) (key y))) [
    | inl first ↦ rw first (h, k)
    | inr later ↦ rw later (k.0, place-AllRows x ys h k.1)
  ]

  pub order_by-AllRows : (xs : List A) → AllRows P xs → AllRows P (order_by o key xs)
  unfolding order_by
  order_by-AllRows [] h = tt
  order_by-AllRows (x ∷ xs) h = place-AllRows x (order_by o key xs) h.0 (order_by-AllRows xs h.1)
