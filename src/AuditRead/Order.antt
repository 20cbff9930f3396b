-- ===== src/AuditRead/Order.antt =====
-- `ORDER BY` of the queries in src/capacity/application/audit-read.service.ts, on rows by their keys.
use invoice_reservation.Prelude.{
  ◌≡◌, refl, sym, ap, ◌∙◌, ◌≢◌, Bool, true, false, Bool-cases, inl, inr, Option, none, some, List,
  [], ◌∷◌, if◌then◌else◌, filter, filter_and, ◌&&◌, length, suc, arith,
}

-- Which of two keys a listing shows first.
pub record Listing (K : Type 0) : Type 0 where
  pub precedes : K → K → Bool
  pub precedes_irrefl : (a : K) → precedes a a ≡ false
  pub precedes_trans : (a b c : K) → precedes a b ≡ true → precedes b c ≡ true → precedes a c ≡ true
  pub precedes_connex : (a b : K) → precedes a b ≡ false → a ≢ b → precedes b a ≡ true

module _ {K A : Type 0} (o : Listing K) (key : A → K) where
  unfoldable pub place : A → List A → List A
  place x [] = x ∷ []
  place x (y ∷ ys) =
      let rest = place x ys in if o.precedes (key x) (key y) then x ∷ y ∷ ys else y ∷ rest

  unfoldable pub order_by : List A → List A
  order_by [] = []
  order_by (x ∷ xs) = place x (order_by xs)

  -- The rows that follow a key, and all rows where there is no key.
  abbrev pub follows : Option K → A → Bool
  follows none r = true
  follows (some k) r = o.precedes k (key r)

  abbrev pub AllFollow : K → List A → Type 0
  AllFollow k [] = Unit {0}
  AllFollow k (x ∷ xs) = (o.precedes k (key x) ≡ true) × AllFollow k xs

  abbrev pub Ordered : List A → Type 0
  Ordered [] = Unit {0}
  Ordered (x ∷ xs) = AllFollow (key x) xs × Ordered xs

  abbrev pub Apart : K → List A → Type 0
  Apart k [] = Unit {0}
  Apart k (x ∷ xs) = (k ≢ key x) × Apart k xs

  abbrev pub Distinct : List A → Type 0
  Distinct [] = Unit {0}
  Distinct (x ∷ xs) = Apart (key x) xs × Distinct xs

  AllFollow-trans :
      (a b : K) (xs : List A) → o.precedes a b ≡ true → AllFollow b xs → AllFollow a xs
  AllFollow-trans a b [] h k = tt
  AllFollow-trans a b (x ∷ xs) h k =
      (o.precedes_trans a b (key x) h k.0, AllFollow-trans a b xs h k.1)

  place-AllFollow :
      (k : K) (x : A) (ys : List A)
      → o.precedes k (key x) ≡ true
      → AllFollow k ys
      → AllFollow k (place x ys)
  unfolding place
  place-AllFollow k x [] h l = (h, tt)
  place-AllFollow k x (y ∷ ys) h l = elim (Bool-cases (o.precedes (key x) (key y))) [
    | inl first ↦ rw first (h, l)
    | inr later ↦ rw later (l.0, place-AllFollow k x ys h l.1)
  ]

  place-Ordered : (x : A) (ys : List A) → Apart (key x) ys → Ordered ys → Ordered (place x ys)
  unfolding place
  place-Ordered x [] h l = (tt, tt)
  place-Ordered x (y ∷ ys) h l = elim (Bool-cases (o.precedes (key x) (key y))) [
    | inl first ↦ rw first ((first, AllFollow-trans (key x) (key y) ys first l.0), l)
    | inr later ↦ rw later (
      place-AllFollow (key y) x ys (o.precedes_connex (key x) (key y) later h.0) l.0,
      place-Ordered x ys h.1 l.1,
    )
  ]

  place-Apart : (k : K) (x : A) (ys : List A) → k ≢ key x → Apart k ys → Apart k (place x ys)
  unfolding place
  place-Apart k x [] h l = (h, tt)
  place-Apart k x (y ∷ ys) h l = elim (Bool-cases (o.precedes (key x) (key y))) [
    | inl first ↦ rw first (h, l)
    | inr later ↦ rw later (l.0, place-Apart k x ys h l.1)
  ]

  order_by-Apart : (k : K) (xs : List A) → Apart k xs → Apart k (order_by xs)
  unfolding order_by
  order_by-Apart k [] h = tt
  order_by-Apart k (x ∷ xs) h = place-Apart k x (order_by xs) h.0 (order_by-Apart k xs h.1)

  pub order_by-Ordered : (xs : List A) → Distinct xs → Ordered (order_by xs)
  unfolding order_by
  order_by-Ordered [] h = tt
  order_by-Ordered (x ∷ xs) h =
      place-Ordered x (order_by xs) (order_by-Apart (key x) xs h.0) (order_by-Ordered xs h.1)

  pub filter-AllFollow :
      (p : A → Bool) (k : K) (xs : List A) → AllFollow k xs → AllFollow k (filter p xs)
  unfolding filter
  filter-AllFollow p k [] h = tt
  filter-AllFollow p k (x ∷ xs) h = elim (Bool-cases (p x)) [
    | inl kept ↦ rw kept (h.0, filter-AllFollow p k xs h.1)
    | inr gone ↦ rw gone (filter-AllFollow p k xs h.1)
  ]

  pub filter-Ordered : (p : A → Bool) (xs : List A) → Ordered xs → Ordered (filter p xs)
  unfolding filter
  filter-Ordered p [] h = tt
  filter-Ordered p (x ∷ xs) h = elim (Bool-cases (p x)) [
    | inl kept ↦ rw kept (filter-AllFollow p (key x) xs h.0, filter-Ordered p xs h.1)
    | inr gone ↦ rw gone (filter-Ordered p xs h.1)
  ]

  place_first : (x : A) (ys : List A) → AllFollow (key x) ys → place x ys ≡ x ∷ ys
  unfolding place
  place_first x [] h = refl
  place_first x (y ∷ ys) h = rw (h.0) refl

  filter-place :
      (p : A → Bool) (x : A) (ys : List A)
      → Ordered ys
      → filter p (place x ys) ≡ (if p x then place x (filter p ys) else filter p ys)
  unfolding place filter
  filter-place p x [] h = refl
  filter-place p x (y ∷ ys) h = elim (Bool-cases (o.precedes (key x) (key y))) [
    | inl first ↦
        let all : AllFollow (key x) (y ∷ ys) =
          (first, AllFollow-trans (key x) (key y) ys first h.0) in
        elim (Bool-cases (p x)) [
          | inl kept ↦
              rw (first, kept)
                (sym (place_first x (filter p (y ∷ ys)) (filter-AllFollow p (key x) (y ∷ ys) all)))
          | inr gone ↦ rw (first, gone) refl
        ]
    | inr later ↦
        let rest = filter-place p x ys h.1 in
        elim (Bool-cases (p y)) [ inl shown ↦ ground arith | inr hidden ↦ rw (later, hidden) rest ]
  ]

  -- A query's rows are those of the ordered table that pass its conditions.
  pub order_by-filter :
      (p : A → Bool) (xs : List A) → Distinct xs → order_by (filter p xs) ≡ filter p (order_by xs)
  unfolding order_by filter
  order_by-filter p [] h = refl
  order_by-filter p (x ∷ xs) h =
      let rest = order_by-filter p xs h.1 in
      let whole = filter-place p x (order_by xs) (order_by-Ordered xs h.1) in
      elim (Bool-cases (p x)) [ inl kept ↦ ground arith | inr gone ↦ ground arith ]

  length-place : (x : A) (ys : List A) → length (place x ys) ≡ suc (length ys)
  unfolding place
  length-place x [] = refl
  length-place x (y ∷ ys) = elim (Bool-cases (o.precedes (key x) (key y))) [
    | inl first ↦ rw first refl
    | inr later ↦ rw later (ap suc (length-place x ys))
  ]

  pub length-order_by : (xs : List A) → length (order_by xs) ≡ length xs
  unfolding order_by
  length-order_by [] = refl
  length-order_by (x ∷ xs) = length-place x (order_by xs) ∙ ap suc (length-order_by xs)

  pub filter-follows-none : (xs : List A) → filter (follows none) xs ≡ xs
  unfolding filter
  filter-follows-none [] = refl
  filter-follows-none (x ∷ xs) = ap (λ ys. x ∷ ys) (filter-follows-none xs)

  -- The rows of a query with a cursor are those of the whole listing that follow the cursor's.
  pub order_by-filter_and :
      (p : A → Bool) (since : Option K) (xs : List A)
      → Distinct (filter p xs)
      → order_by (filter (λ x. p x && follows since x) xs)
        ≡ filter (follows since) (order_by (filter p xs))
  order_by-filter_and p since xs h =
      ap order_by (filter_and p (follows since) xs)
      ∙ order_by-filter (follows since) (filter p xs) h
