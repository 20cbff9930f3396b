-- ===== src/Service/Recovery/Held.antt =====
-- src/capacity/application/recovery-detection.service.ts: which programs stay verified.
use mathlib.Core.List.Memᴰ
use invoice_reservation.Prelude.{
  ◌≡◌, refl, sym, ◌∙◌, Bool, true, false, ◌||◌, Bool-cases, inl, inr, List, [], ◌∷◌, if◌then◌else◌,
  update_where, arith, Memᴰ,
}
use invoice_reservation.Prelude.Text.{Text, text_eq, text_eq_refl, text_eq_iff, text_ne_sym}
use invoice_reservation.Store.{Database, has_id}
use invoice_reservation.Store.Tables.{ProgramEntity}
use invoice_reservation.Service.Recovery.{is_flagged, flagged_of, hold_unverified, hold_all, detect}
use invoice_reservation.Service.Recovery.Latest.{Covered, lags, current-Covered, Covered-current}

abbrev is_listed : List Text → Text → Bool
is_listed [] id = false
is_listed (x ∷ xs) id = text_eq x id || is_listed xs id

-- A verified program that lags is still to be held.
abbrev IsPending : Database → List Text → ProgramEntity → Type 0
IsPending db ids p = p.position_verified ≡ true → lags db p.id ≡ true → is_listed ids p.id ≡ true

abbrev AllPending : Database → List Text → List ProgramEntity → Type 0
AllPending db ids [] = Unit
AllPending db ids (p ∷ ps) = IsPending db ids p × AllPending db ids ps

AllPending-cons :
    (db : Database) (id : Text) (ids : List Text) (ps : List ProgramEntity)
    → AllPending db ids ps
    → AllPending db (id ∷ ids) ps
AllPending-cons db id ids [] h = tt
AllPending-cons db id ids (p ∷ ps) (h, k) =
    (λ v l. ground (arith, h v l), AllPending-cons db id ids ps k)

never : false ≡ true → ⊥
never h = cc

is_flagged_lem :
    (db : Database) (p : ProgramEntity)
    → is_flagged db p ≡ false
    → p.position_verified ≡ true
    → lags db p.id ≡ true
    → false ≡ true
is_flagged_lem db p clear v l = sym clear ∙ rw (v, l) refl

chosen-AllPending :
    (db : Database) (p : ProgramEntity) (ids : List Text) (ps : List ProgramEntity) (b : Bool)
    → is_flagged db p ≡ b
    → AllPending db ids ps
    → AllPending db (if b then p.id ∷ ids else ids) (p ∷ ps)
chosen-AllPending db p ids ps true flag rest =
    (λ v l. rw (text_eq_refl p.id) refl, AllPending-cons db p.id ids ps rest)
chosen-AllPending db p ids ps false clear rest =
    (λ v l. absurd (never (is_flagged_lem db p clear v l)), rest)

flagged_of-AllPending :
    (db : Database) (ps : List ProgramEntity) → AllPending db (flagged_of db ps) ps
unfolding flagged_of
flagged_of-AllPending db [] = tt
flagged_of-AllPending db (p ∷ ps) =
    chosen-AllPending db p (flagged_of db ps) ps (is_flagged db p) refl
      (flagged_of-AllPending db ps)

-- Holding one program leaves the others pending.
AllPending-hold :
    (db : Database) (id : Text) (ids : List Text) (ps : List ProgramEntity)
    → AllPending db (id ∷ ids) ps
    → AllPending db ids (update_where (has_id id) hold_unverified ps)
unfolding update_where
AllPending-hold db id ids [] h = tt
AllPending-hold db id ids (p ∷ ps) (h, k) = elim (Bool-cases (text_eq p.id id)) [
  | inl held ↦ rw held (λ v l. cc, AllPending-hold db id ids ps k)
  | inr other ↦
      rw other (λ v l. rw (text_ne_sym p.id id other) at (h v l), AllPending-hold db id ids ps k)
]

hold_all-AllPending :
    (db : Database) (ids : List Text) (ps : List ProgramEntity)
    → AllPending db ids ps
    → AllPending db [] (hold_all ids ps)
unfolding hold_all
hold_all-AllPending db [] ps h = h
hold_all-AllPending db (id ∷ ids) ps h =
    hold_all-AllPending db ids _ (AllPending-hold db id ids ps h)

-- Each verified program has its treasury entries covered by its stream positions.
abbrev pub AllCurrent : Database → List ProgramEntity → Type 0
AllCurrent db ps = (p : ProgramEntity) → Memᴰ p ps → p.position_verified ≡ true → Covered db p.id

AllPending-AllCurrent :
    (db : Database) (ps : List ProgramEntity) → AllPending db [] ps → AllCurrent db ps
AllPending-AllCurrent db [] h p m v = absurd (Memᴰ.not-nil m)
AllPending-AllCurrent db (q ∷ ps) (h, k) p (Memᴰ.head same) v =
    current-Covered db p.id (elim (Bool-cases (lags db p.id)) [
      | inl lag ↦ absurd (never (rw (← same) at h v lag))
      | inr current ↦ current
    ])
AllPending-AllCurrent db (q ∷ ps) (h, k) p (Memᴰ.tail m) v = AllPending-AllCurrent db ps k p m v

-- Each program of the table whose treasury entries are covered is there as it was.
abbrev pub KeepsCovered : Database → List ProgramEntity → Type 0
KeepsCovered db ps = (p : ProgramEntity) → Memᴰ p db.programs → Covered db p.id → Memᴰ p ps

unlisted :
    (db : Database) (id : Text)
    → lags db id ≡ false
    → (ps : List ProgramEntity) → is_listed (flagged_of db ps) id ≡ false
unfolding flagged_of
unlisted db id current [] = refl
unlisted db id current (q ∷ ps) = elim (Bool-cases (is_flagged db q)) [
  | inl flag ↦ rw flag (rw (other_id flag) (unlisted db id current ps))
  | inr clear ↦ rw clear (unlisted db id current ps)
]
  where
    other_id : is_flagged db q ≡ true → text_eq q.id id ≡ false
    other_id flag = elim (Bool-cases (text_eq q.id id)) [
      | inl same ↦
          let equal : q.id ≡ id = (text_eq_iff q.id id).0 same in
          let lag : lags db q.id ≡ true = ground arith in
          absurd (never (sym current ∙ rw equal at lag))
      | inr other ↦ other
    ]

hold_all-keeps :
    (ids : List Text) (p : ProgramEntity) (ps : List ProgramEntity)
    → is_listed ids p.id ≡ false
    → Memᴰ p ps
    → Memᴰ p (hold_all ids ps)
unfolding hold_all update_where
hold_all-keeps [] p ps h m = m
hold_all-keeps (id ∷ ids) p ps h m = hold_all-keeps ids p _ (ground arith) (held_other ps m)
  where
    other : text_eq p.id id ≡ false
    other = text_ne_sym id p.id (ground arith)

    held_other :
        (ps : List ProgramEntity) → Memᴰ p ps → Memᴰ p (update_where (has_id id) hold_unverified ps)
    held_other [] m = absurd (Memᴰ.not-nil m)
    held_other (q ∷ qs) (Memᴰ.head same) = rw (← same) (rw other (Memᴰ.head refl))
    held_other (q ∷ qs) (Memᴰ.tail m) = Memᴰ.tail (held_other qs m)

-- After the detection, a program is still verified only if each of its treasury entries has a stream
-- position of the program that is no older; and each program of which that holds, is as it was.
pub detect-AllCurrent :
    (db : Database) → AllCurrent db (detect db).1.programs × KeepsCovered db (detect db).1.programs
unfolding detect
detect-AllCurrent db = (
  AllPending-AllCurrent db _ (
      hold_all-AllPending db (flagged_of db db.programs) db.programs
        (flagged_of-AllPending db db.programs)),
  λ p m covered.
      hold_all-keeps (flagged_of db db.programs) p db.programs
        (unlisted db p.id (Covered-current db p.id covered) db.programs) m,
)
