-- ===== src/Service/Recovery/Latest.antt =====
-- src/capacity/application/recovery-detection.service.ts: the two maxima of its query, and the rows
-- that they stand for.
use mathlib.Core.List.Memᴰ
use invoice_reservation.Prelude.{
  ◌≡◌, refl, sym, ap, ◌∙◌, ◌⊎◌, inl, inr, Bool, true, false, Bool-cases, Option, none, some, List,
  [], ◌∷◌, if◌then◌else◌, arith, Memᴰ,
}
use invoice_reservation.Prelude.Text.{Text, codes, text_eq, text_eq_iff}
use invoice_reservation.Prelude.Int.{◌≤ℤ◌, ltb_ℤ, le_trans_ℤ}
use invoice_reservation.Position.{Date, LedgerCause}
use invoice_reservation.Store.{Database}
use invoice_reservation.Store.Tables.{LedgerRow, StreamPosition}
use invoice_reservation.Service.TreasuryEvent.{later_of}
use invoice_reservation.Service.Recovery.{
  is_treasury_cause, from_treasury, ledger_at, position_at, is_behind,
}

-- An entry that the treasury has caused, of the program `id`.
abbrev pub IsTreasury : Text → LedgerRow → Type 0
IsTreasury id l =
    (l.program_id ≡ id)
    × (l.entry.actor ≡ codes "treasury")
    × ((l.entry.cause ≡ LedgerCause.treasury_event)
        ⊎ (l.entry.cause ≡ LedgerCause.limit_change)
        ⊎ (l.entry.cause ≡ LedgerCause.reconciliation_adjustment))

-- Each treasury entry of the program has a stream position of the program that is no older.
abbrev pub Covered : Database → Text → Type 0
Covered db id =
    (l : LedgerRow)
    → Memᴰ l db.ledger
    → IsTreasury id l
    → (s : StreamPosition) × Memᴰ s db.stream_positions
      × (s.program_id ≡ id)
      × (l.occurred_at ≤ℤ s.updated_at)

cause_of :
    (c : LedgerCause)
    → is_treasury_cause c ≡ true
    → (c ≡ LedgerCause.treasury_event)
      ⊎ (c ≡ LedgerCause.limit_change)
      ⊎ (c ≡ LedgerCause.reconciliation_adjustment)
cause_of LedgerCause.reservation h = cc
cause_of LedgerCause.release h = cc
cause_of LedgerCause.cancellation h = cc
cause_of LedgerCause.write_off h = cc
cause_of LedgerCause.treasury_event h = ground arith
cause_of LedgerCause.limit_change h = ground arith
cause_of LedgerCause.reconciliation_adjustment h = ground arith
cause_of LedgerCause.over_limit_onset h = cc
cause_of LedgerCause.over_limit_cleared h = cc

of_cause :
    (c : LedgerCause)
    → (c ≡ LedgerCause.treasury_event)
      ⊎ (c ≡ LedgerCause.limit_change)
      ⊎ (c ≡ LedgerCause.reconciliation_adjustment)
    → is_treasury_cause c ≡ true
of_cause c (inl h) = rw h refl
of_cause c (inr (inl h)) = rw h refl
of_cause c (inr (inr h)) = rw h refl

from_treasury-IsTreasury : (id : Text) (l : LedgerRow) → from_treasury id l ≡ true → IsTreasury id l
from_treasury-IsTreasury id l h = ground (
  arith,
  text_eq_iff l.program_id id,
  text_eq_iff l.entry.actor (codes "treasury"),
  cause_of l.entry.cause,
)

IsTreasury-from_treasury : (id : Text) (l : LedgerRow) → IsTreasury id l → from_treasury id l ≡ true
IsTreasury-from_treasury id l (named, acted, caused) =
    rw
      (
        (text_eq_iff l.program_id id).1 named,
        (text_eq_iff l.entry.actor (codes "treasury")).1 acted,
      )
      (of_cause l.entry.cause caused)

module _ {A : Type 0} (test : A → Bool) (time : A → Date) where
  -- The latest time of the rows that pass.
  abbrev latest : List A → Option Date
  latest [] = none
  latest (x ∷ xs) = let rest = latest xs in if test x then later_of rest (time x) else rest

  later_of-lower :
      (o : Option Date) (t : Date)
      → (d : Date) × (later_of o t ≡ some d) × (t ≤ℤ d) × ((e : Date) → o ≡ some e → e ≤ℤ d)
  later_of-lower none t = (t, refl, omega arith, λ e h. cc)
  later_of-lower (some a) t = elim (Bool-cases (ltb_ℤ a t)) [
    | inl older ↦ (
      t,
      ap (λ b. if b then some t else some a) older,
      omega arith,
      λ e h. let same : a ≡ e = cc in rw (← same) (ground arith),
    )
    | inr newer ↦ (
      a,
      ap (λ b. if b then some t else some a) newer,
      ground arith,
      λ e h. let same : a ≡ e = cc in rw (← same) (omega arith),
    )
  ]

  pub latest-upper :
      (x : A) (xs : List A)
      → Memᴰ x xs
      → test x ≡ true
      → (d : Date) × (latest xs ≡ some d) × (time x ≤ℤ d)
  latest-upper x [] m h = absurd (Memᴰ.not-nil m)
  latest-upper x (y ∷ xs) (Memᴰ.head same) h =
      let (d, e, le, rest) = later_of-lower (latest xs) (time x) in (d, rw (← same) (rw h e), le)
  latest-upper x (y ∷ xs) (Memᴰ.tail m) h =
      let (a, found, le) = latest-upper x xs m h in
      elim (Bool-cases (test y)) [
        | inl kept ↦
            let (d, e, le', rest) = later_of-lower (latest xs) (time y) in
            (d, rw kept e, le_trans_ℤ (time x) a d le (rest a found))
        | inr gone ↦ (a, rw gone found, le)
      ]

  later_of-cases : (o : Option Date) (t d : Date) → later_of o t ≡ some d → (o ≡ some d) ⊎ (t ≡ d)
  later_of-cases none t d h = inr cc
  later_of-cases (some a) t d h = elim (Bool-cases (ltb_ℤ a t)) [
    | inl older ↦
        let k : some t ≡ some d = sym (ap (λ b. if b then some t else some a) older) ∙ h in inr cc
    | inr newer ↦ inl (sym (ap (λ b. if b then some t else some a) newer) ∙ h)
  ]

  pub latest-found :
      (xs : List A) (d : Date)
      → latest xs ≡ some d
      → (x : A) × Memᴰ x xs × (test x ≡ true) × (time x ≡ d)
  latest-found [] d h = absurd cc
  latest-found (y ∷ xs) d h = elim (Bool-cases (test y)) [
    | inl kept ↦ elim (later_of-cases (latest xs) (time y) d (rw kept at h)) [
      | inl below ↦ let (x, m, t, e) = latest-found xs d below in (x, Memᴰ.tail m, t, e)
      | inr here ↦ (y, Memᴰ.head refl, kept, here)
    ]
    | inr gone ↦ let (x, m, t, e) = latest-found xs d (rw gone at h) in (x, Memᴰ.tail m, t, e)
  ]

same_le : (a b c : Date) → a ≡ b → a ≤ℤ c → b ≤ℤ c
same_le a b c h k = rw (← h) k

yes_no : true ≡ false → ⊥
yes_no h = cc

ledger_at-latest :
    (id : Text) (ls : List LedgerRow)
    → ledger_at id ls ≡ latest (from_treasury id) (λ l. l.occurred_at) ls
unfolding ledger_at
ledger_at-latest id [] = refl
ledger_at-latest id (l ∷ ls) = rw (ledger_at-latest id ls) refl

position_at-latest :
    (id : Text) (ss : List StreamPosition)
    → position_at id ss ≡ latest (λ s. text_eq s.program_id id) (λ s. s.updated_at) ss
unfolding position_at
position_at-latest id [] = refl
position_at-latest id (s ∷ ss) = rw (position_at-latest id ss) refl

module _ (db : Database) (id : Text) where
  abbrev newest_entry : Option Date
  newest_entry = latest (from_treasury id) (λ l. l.occurred_at) db.ledger

  abbrev newest_position : Option Date
  newest_position = latest (λ s. text_eq s.program_id id) (λ s. s.updated_at) db.stream_positions

  -- The loop's test of a program.
  abbrev pub lags : Bool
  lags = is_behind (ledger_at id db.ledger) (position_at id db.stream_positions)

  lags-latest : lags ≡ is_behind newest_entry newest_position
  lags-latest = rw (ledger_at-latest id db.ledger, position_at-latest id db.stream_positions) refl

  pub current-Covered : lags ≡ false → Covered db id
  current-Covered h l m treasury =
      let (d, e, le) =
        latest-upper (from_treasury id) (λ l. l.occurred_at) l db.ledger m
          (IsTreasury-from_treasury id l treasury) in
      covers d e le newest_position refl (sym lags-latest ∙ h)
    where
      covers :
          (d : Date)
          → newest_entry ≡ some d
          → l.occurred_at ≤ℤ d
          → (o : Option Date) → newest_position ≡ o
          → is_behind newest_entry o ≡ false
          → (s : StreamPosition) × Memᴰ s db.stream_positions
            × (s.program_id ≡ id)
            × (l.occurred_at ≤ℤ s.updated_at)
      covers d e le none none_found k = absurd (yes_no (rw e at k))
      covers d e le (some q) found k =
          let (s, m, named, at) =
            latest-found (λ s. text_eq s.program_id id) (λ s. s.updated_at) db.stream_positions q
              found in
          let newer : ltb_ℤ q d ≡ false = rw e at k in
          (
            s,
            m,
            (text_eq_iff s.program_id id).0 named,
            rw at (le_trans_ℤ l.occurred_at d q le (ground arith)),
          )

  pub Covered-current : Covered db id → lags ≡ false
  Covered-current covered = lags-latest ∙ on_entry newest_entry refl
    where
      on_entry : (o : Option Date) → newest_entry ≡ o → is_behind o newest_position ≡ false
      on_entry none e = refl
      on_entry (some d) e =
          let (l, m, treasury, at) =
            latest-found (from_treasury id) (λ l. l.occurred_at) db.ledger d e in
          let (s, in_table, named, le) = covered l m (from_treasury-IsTreasury id l treasury) in
          let (q, found, le') =
            latest-upper (λ s. text_eq s.program_id id) (λ s. s.updated_at) s db.stream_positions
              in_table ((text_eq_iff s.program_id id).1 named) in
          let reached =
            same_le l.occurred_at d q at (le_trans_ℤ l.occurred_at s.updated_at q le le') in
          rw found (ground arith)
