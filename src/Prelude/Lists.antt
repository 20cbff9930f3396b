-- ===== src/Prelude/Lists.antt =====
-- Lists and options over the native numbers.
use Prim.Native.Nat.{ℕ, zero, suc, ◌+◌, ◌-◌, ◌≤◌}
use mathlib.Core.Path.{◌≡◌, refl, sym, ap}
use mathlib.Core.Logic.{inl, inr}
use mathlib.Core.Bool.{Bool, true, false, ◌&&◌}
use mathlib.Core.List.Memᴰ
use mathlib.Core.List.{List, [], ◌∷◌, ◌++◌, Memᴰ}
use mathlib.Core.Option.{Option, none, some}
use native.Mathlib.Omega.{arith}
use invoice_reservation.Prelude.Tests.{if◌then◌else◌, Bool-cases}

module _ {ℓ} {A : Type ℓ} where
  abbrev pub length : List A → ℕ
  length [] = 0
  length (x ∷ xs) = suc (length xs)

  pub length-append : (xs ys : List A) → length (xs ++ ys) ≡ length xs + length ys
  length-append [] ys = omega arith
  length-append (x ∷ xs) ys = omega (arith, length-append xs ys)

  abbrev pub take : ℕ → List A → List A
  take zero xs = []
  take (suc n) [] = []
  take (suc n) (x ∷ xs) = x ∷ take n xs

  abbrev pub drop : ℕ → List A → List A
  drop zero xs = xs
  drop (suc n) [] = []
  drop (suc n) (x ∷ xs) = drop n xs

  unfoldable pub filter : (A → Bool) → List A → List A
  filter p [] = []
  filter p (x ∷ xs) = let rest = filter p xs in if p x then x ∷ rest else rest

  pub take-append-drop : (k : ℕ) (xs : List A) → take k xs ++ drop k xs ≡ xs
  take-append-drop zero xs = refl
  take-append-drop (suc k) [] = refl
  take-append-drop (suc k) (x ∷ xs) = ap (λ ys. x ∷ ys) (take-append-drop k xs)

  pub length-take_le : (k : ℕ) (xs : List A) → k ≤ length xs → length (take k xs) ≡ k
  length-take_le zero xs h = refl
  length-take_le (suc k) [] h = absurd (omega arith)
  length-take_le (suc k) (x ∷ xs) h = ap suc (length-take_le k xs (omega arith))

  pub take_all : (k : ℕ) (xs : List A) → length xs ≤ k → take k xs ≡ xs
  take_all zero [] h = refl
  take_all zero (x ∷ xs) h = absurd (omega arith)
  take_all (suc k) [] h = refl
  take_all (suc k) (x ∷ xs) h = ap (λ ys. x ∷ ys) (take_all k xs (omega arith))

  pub take-take-suc : (k : ℕ) (xs : List A) → take k (take (suc k) xs) ≡ take k xs
  take-take-suc zero xs = refl
  take-take-suc (suc k) [] = refl
  take-take-suc (suc k) (x ∷ xs) = ap (λ ys. x ∷ ys) (take-take-suc k xs)

  pub length-drop : (k : ℕ) (xs : List A) → length (drop k xs) ≡ length xs - k
  length-drop zero xs = omega arith
  length-drop (suc k) [] = omega arith
  length-drop (suc k) (x ∷ xs) = omega (arith, length-drop k xs)

  -- A filter by a stronger test.
  pub filter-filter :
      (p q : A → Bool) (xs : List A)
      → ((x : A) → q x ≡ true → p x ≡ true)
      → filter q (filter p xs) ≡ filter q xs
  unfolding filter
  filter-filter p q [] h = refl
  filter-filter p q (x ∷ xs) h = elim (Bool-cases (q x)) [
    | inl kept ↦ rw (h x kept, kept) (ap (λ ys. x ∷ ys) (filter-filter p q xs h))
    | inr gone ↦ elim (Bool-cases (p x)) [
      | inl shown ↦ rw (shown, gone) (filter-filter p q xs h)
      | inr hidden ↦ rw (hidden, gone) (filter-filter p q xs h)
    ]
  ]

  pub filter-append :
      (p : A → Bool) (xs ys : List A) → filter p (xs ++ ys) ≡ filter p xs ++ filter p ys
  unfolding filter
  filter-append p [] ys = refl
  filter-append p (x ∷ xs) ys = elim (Bool-cases (p x)) [
    | inl kept ↦ rw kept (ap (λ zs. x ∷ zs) (filter-append p xs ys))
    | inr gone ↦ rw gone (filter-append p xs ys)
  ]

  pub filter_and :
      (p q : A → Bool) (xs : List A) → filter (λ x. p x && q x) xs ≡ filter q (filter p xs)
  unfolding filter
  filter_and p q [] = refl
  filter_and p q (x ∷ xs) = elim (Bool-cases (p x)) [
    | inr gone ↦ rw gone (filter_and p q xs)
    | inl kept ↦ elim (Bool-cases (q x)) [
      | inl shown ↦ rw (kept, shown) (ap (λ zs. x ∷ zs) (filter_and p q xs))
      | inr hidden ↦ rw (kept, hidden) (filter_and p q xs)
    ]
  ]

  -- The first entry that passes the test: `rows[0]` of a query by a unique key.
  unfoldable pub find : (A → Bool) → List A → Option A
  find p [] = none
  find p (x ∷ xs) = if p x then some x else find p xs

  -- `UPDATE … SET … WHERE p`.
  unfoldable pub update_where : (A → Bool) → (A → A) → List A → List A
  update_where p f [] = []
  update_where p f (x ∷ xs) = (if p x then f x else x) ∷ update_where p f xs

  pub find-mem :
      (p : A → Bool) (xs : List A) (x : A) → find p xs ≡ some x → Memᴰ x xs × (p x ≡ true)
  unfolding find
  find-mem p [] x h = absurd cc
  find-mem p (y ∷ xs) x h = elim (Bool-cases (p y)) [
    | inl hit ↦ let same : y ≡ x = cc in (Memᴰ.head (sym same), rw (← same) hit)
    | inr miss ↦ let (m, k) = find-mem p xs x (rw miss at h) in (Memᴰ.tail m, k)
  ]

  pub filter-mem : (p : A → Bool) (xs : List A) (x : A) → Memᴰ x (filter p xs) → Memᴰ x xs
  unfolding filter
  filter-mem p [] x m = m
  filter-mem p (y ∷ xs) x m = elim (Bool-cases (p y)) [
    | inl kept ↦ elim (Memᴰ.cases_cons (rw kept at m)) [
      | inl here ↦ Memᴰ.head here
      | inr later ↦ Memᴰ.tail (filter-mem p xs x later)
    ]
    | inr gone ↦ Memᴰ.tail (filter-mem p xs x (rw gone at m))
  ]

  -- The row that was appended is the one that the update finds, where no earlier one passes.
  pub find-update_where :
      (p : A → Bool) (f : A → A) (xs : List A) (x : A)
      → find p xs ≡ none
      → p x ≡ true
      → p (f x) ≡ true
      → find p (update_where p f (xs ++ x ∷ [])) ≡ some (f x)
  unfolding find update_where
  find-update_where p f [] x h k l = rw (k, l) refl
  find-update_where p f (y ∷ xs) x h k l = elim (Bool-cases (p y)) [
    | inl hit ↦ ground arith
    | inr miss ↦ rw (miss, miss) (find-update_where p f xs x (ground arith) k l)
  ]

  pub find-appended :
      (p : A → Bool) (xs : List A) (x : A)
      → find p xs ≡ none
      → p x ≡ true
      → find p (xs ++ x ∷ []) ≡ some x
  unfolding find
  find-appended p [] x h k = rw k refl
  find-appended p (y ∷ xs) x h k = elim (Bool-cases (p y)) [
    | inl hit ↦ ground arith
    | inr miss ↦ rw miss (find-appended p xs x (ground arith) k)
  ]

  pub find-none_cons :
      (p : A → Bool) (x : A) (xs : List A)
      → find p (x ∷ xs) ≡ none
      → (p x ≡ false) × (find p xs ≡ none)
  unfolding find
  find-none_cons p x xs h = elim (Bool-cases (p x)) [
    | inl hit ↦ ground arith
    | inr miss ↦ (miss, ground arith)
  ]

  pub find-append_none :
      (p : A → Bool) (xs : List A) (x : A)
      → find p xs ≡ none
      → p x ≡ false
      → find p (xs ++ x ∷ []) ≡ none
  unfolding find
  find-append_none p [] x h k = rw k refl
  find-append_none p (y ∷ xs) x h k =
      let (miss, rest) = find-none_cons p y xs h in rw miss (find-append_none p xs x rest k)

  -- What an update that no row passes does.
  pub update_where-none :
      (p : A → Bool) (f : A → A) (xs : List A) → find p xs ≡ none → update_where p f xs ≡ xs
  unfolding update_where
  update_where-none p f [] h = refl
  update_where-none p f (y ∷ xs) h =
      let (miss, rest) = find-none_cons p y xs h in
      rw miss (ap (λ ys. y ∷ ys) (update_where-none p f xs rest))

  -- A test that an update keeps finds none after it where it found none before.
  pub find-none-update_where :
      (p t : A → Bool) (f : A → A) (xs : List A)
      → ((y : A) → p (f y) ≡ p y)
      → find p xs ≡ none
      → find p (update_where t f xs) ≡ none
  unfolding find update_where
  find-none-update_where p t f [] k h = refl
  find-none-update_where p t f (y ∷ xs) k h =
      let (miss, rest) = find-none_cons p y xs h in
      elim (Bool-cases (t y)) [
        | inl yes' ↦ rw (yes', k y, miss) (find-none-update_where p t f xs k rest)
        | inr no' ↦ rw (no', miss) (find-none-update_where p t f xs k rest)
      ]

  -- What an update by another test makes of the row that is found.
  pub find-update_where_other :
      (p t : A → Bool) (f : A → A) (xs : List A) (x : A)
      → ((y : A) → p (f y) ≡ p y)
      → find p xs ≡ some x
      → find p (update_where t f xs) ≡ some (if t x then f x else x)
  unfolding find update_where
  find-update_where_other p t f [] x k h = cc
  find-update_where_other p t f (y ∷ xs) x k h = elim (Bool-cases (p y)) [
    | inl hit ↦
        let same : y ≡ x = ground arith in
        elim (Bool-cases (t y)) [
          | inl chosen ↦ rw (← same, chosen, k y, hit) refl
          | inr other ↦ rw (← same, other, hit) refl
        ]
    | inr miss ↦
        let later = find-update_where_other p t f xs x k (ground arith) in
        elim (Bool-cases (t y)) [
          | inl chosen ↦ rw (chosen, k y, miss) later
          | inr other ↦ rw (other, miss) later
        ]
  ]

  -- An update that keeps the test.
  pub find-updated :
      (p : A → Bool) (f : A → A) (xs : List A) (x : A)
      → ((y : A) → p (f y) ≡ p y)
      → find p xs ≡ some x
      → find p (update_where p f xs) ≡ some (f x)
  unfolding find update_where
  find-updated p f [] x k h = cc
  find-updated p f (y ∷ xs) x k h = elim (Bool-cases (p y)) [
    | inl hit ↦ let same : y ≡ x = ground arith in rw (hit, k y, hit) (ap (λ z. some (f z)) same)
    | inr miss ↦ rw (miss, miss) (find-updated p f xs x k (ground arith))
  ]

abbrev pub or_else {ℓ} : {A : Type ℓ} → Option A → A → A
or_else none d = d
or_else (some a) d = a
