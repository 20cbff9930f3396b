-- ===== src/AuditRead/Pages.antt =====
-- The pages of src/capacity/application/audit-read.service.ts, and the client that follows their
-- cursors.
use invoice_reservation.Prelude.{
  ℕ, zero, suc, Bool, true, Option, none, some, List, [], ◌∷◌, ◌++◌, map, if◌then◌else◌, ltb,
  length, take,
}
use invoice_reservation.Prelude.Text.{Text}
use invoice_reservation.Prelude.Result.{Result, ok, err}

-- `Page<T>`
pub record Page (B : Type 0) : Type 0 where
  pub next_cursor : Option Text
  pub items : List B

-- `page[page.length - 1]`
unfoldable pub last_of {ℓ} : {A : Type ℓ} → List A → Option A
last_of [] = none
last_of (x ∷ []) = some x
last_of (x ∷ y ∷ ys) = last_of (y ∷ ys)

abbrev pub cursor_after : {A : Type 0} → (A → Text) → Bool → Option A → Option Text
cursor_after cursor_of true (some l) = some (cursor_of l)
cursor_after cursor_of _ _ = none

module _ {A B : Type 0} (cursor_of : A → Text) (body : A → B) where
  -- From the rows of a query with LIMIT limit + 1.
  unfoldable pub page_of : ℕ → List A → Page B
  unfolding last_of
  page_of limit rows =
      let has_more = ltb limit (length rows) in
      let page = if has_more then take limit rows else rows in
      record { next_cursor = cursor_after cursor_of has_more (last_of page); items = map body page }

abbrev pub items_of : {B F : Type 0} → Result (Page B) F → Result (List B) F
items_of (ok page) = ok page.items
items_of (err e) = err e

abbrev pub append_items : {B F : Type 0} → List B → Result (List B) F → Result (List B) F
append_items items (ok rest) = ok (items ++ rest)
append_items items (err e) = err e

abbrev pub next_pages :
    {B F : Type 0} → (Text → Result (List B) F) → Result (Page B) F → Result (List B) F
next_pages ask (err e) = err e
next_pages ask (ok page) = elim page.next_cursor [
  | none ↦ ok page.items
  | some next ↦ append_items page.items (ask next)
]

-- A client: the items of a page and of at most `n` pages after it, each asked for with the cursor
-- that the one before it gave. `calls n` is the call where `n` more may come: what it reads may have
-- changed since the call before.
unfoldable pub follow_pages :
    {B F : Type 0} → ℕ → (ℕ → Option Text → Result (Page B) F) → Option Text → Result (List B) F
follow_pages zero calls cursor = items_of (calls zero cursor)
follow_pages (suc n) calls cursor =
    next_pages (λ next. follow_pages n calls (some next)) (calls (suc n) cursor)
