-- ===== src/Seed/Once.antt =====
-- scripts/seed.ts: to seed again.
use mathlib.Core.Path.{subst}
use invoice_reservation.Prelude.{
  ◌⊎◌, ◌≡◌, refl, ap, ◌∙◌, true, false, Bool-cases, inl, inr, Option, none, some, List, [], ◌∷◌,
  ◌++◌, map, if◌then◌else◌, is_some, find, update_where, arith,
}
use invoice_reservation.Prelude.Text.{Text, text_eq_refl}
use invoice_reservation.Prelude.Int.{ℤ}
use invoice_reservation.Prelude.Result.{Result, ok, err}
use invoice_reservation.Money.{is_currency_code}
use invoice_reservation.Position.{Date, ProgramPosition, AdvanceResult}
use invoice_reservation.Store.{
  Database, Tx, Failure, unexpected, pure, throw, ◌>>=◌, ◌>>◌, gets, modify, check, find_program,
  has_id, write_position, persist_advance,
}
use invoice_reservation.Store.Tables.{ProgramEntity}
use invoice_reservation.Store.Triples.{
  succeeded, Ensures, ends, Triple, bind_triple, check_triple, check_unique_triple, modify_triple,
  pure_triple, gets_triple, throw_triple, if_triple,
}
use invoice_reservation.Stream.Json.{Json}
use invoice_reservation.Seed.{
  ProgramSeed, program_seeds, new_program, insert_program, load_program_for_update, set_limit,
  seed_program, seed_programs, organisations, token_claims, run_seed,
}

abbrev Exists : Text → List ProgramEntity → Type 0
Exists id ps = is_some (find (has_id id) ps) ≡ true

Exists-update_where :
    (id other : Text) (q : ProgramPosition) (now : Date) (ps : List ProgramEntity)
    → Exists id ps
    → Exists id (update_where (has_id other) (write_position q now) ps)
unfolding find update_where
Exists-update_where id other q now [] h = h
Exists-update_where id other q now (p ∷ ps) h = elim (Bool-cases (has_id id p)) [
  | inl hit ↦ elim (Bool-cases (has_id other p)) [
    | inl chosen ↦ rw (chosen, hit) refl
    | inr off ↦ rw (off, hit) refl
  ]
  | inr miss ↦
      let rest = Exists-update_where id other q now ps (ground arith) in
      elim (Bool-cases (has_id other p)) [
        | inl chosen ↦ rw (chosen, miss) rest
        | inr off ↦ rw (off, miss) rest
      ]
]

Exists-append :
    (id : Text) (ps : List ProgramEntity) (p : ProgramEntity)
    → Exists id ps
    → Exists id (ps ++ p ∷ [])
unfolding find
Exists-append id [] p h = absurd cc
Exists-append id (q ∷ ps) p h = elim (Bool-cases (has_id id q)) [
  | inl hit ↦ rw hit refl
  | inr miss ↦ rw miss (Exists-append id ps p (ground arith))
]

Exists-added : (ps : List ProgramEntity) (p : ProgramEntity) → Exists p.id (ps ++ p ∷ [])
unfolding find
Exists-added [] p = rw (text_eq_refl p.id) refl
Exists-added (q ∷ ps) p = elim (Bool-cases (has_id p.id q)) [
  | inl hit ↦ rw hit refl
  | inr miss ↦ rw miss (Exists-added ps p)
]

-- What the transactions of the seeding keep: the row of a program.
abbrev There : Text → Database → Type 0
There id db = Exists id db.programs

persist_advance-There :
    (id other : Text) (p : ProgramPosition) (r : AdvanceResult) (now : Date)
    → Triple (There id) (persist_advance false p other r now) (λ _. There id)
unfolding persist_advance
persist_advance-There id other p r now = bind_triple _ _ (check_triple _) λ _.
    bind_triple _ _ (gets_triple _) λ rows. bind_triple _ _ (check_unique_triple _) λ _.
      bind_triple _ _ (modify_triple {Q = There id} _ (λ db k. k)) λ _.
        bind_triple _ _ (check_triple _) λ _.
          bind_triple _ _ (check_triple _)
            λ _. modify_triple _ (λ db k. Exists-update_where id other r.program now db.programs k)

set_limit-There :
    (id : Text) (now : Date) (s : ProgramSeed) → Triple (There id) (set_limit now s) (λ _. There id)
unfolding set_limit load_program_for_update find_program
set_limit-There id now s =
    bind_triple _ _ (bind_triple _ _ (gets_triple _) λ found. loaded found)
      λ p. persist_advance-There id s.id p.position _ now
  where
    loaded :
        (found : Option ProgramEntity)
        → Triple
            (There id)
            (elim found as (λ _. Tx ProgramEntity) [ some p ↦ pure p | none ↦ throw unexpected ])
            (λ _. There id)
    loaded (some p) = pure_triple p
    loaded none = throw_triple unexpected

insert_program-There :
    (id : Text) (now : Date) (s : ProgramSeed)
    → Triple (There id) (insert_program now s) (λ _. There id)
unfolding insert_program
insert_program-There id now s = bind_triple _ _ (gets_triple _) λ found.
    if_triple (is_some found) (pure_triple false) (
      bind_triple _ _ (check_triple _) λ _.
        bind_triple _ _
          (modify_triple {Q = There id} _
            (λ db k. Exists-append id db.programs (new_program now s) k))
          λ _. pure_triple true)

-- After the INSERT the row is there, the new one or an old one.
insert_program_creates :
    (now : Date) (s : ProgramSeed) → Triple (λ _. Unit) (insert_program now s) (λ _. There s.id)
unfolding insert_program find_program gets ◌>>=◌ pure
insert_program_creates now s = record {
  run = λ db u. go db (Bool-cases (is_some (find (has_id s.id) db.programs)));
}
  where
    fresh :
        Triple
          (λ _. Unit)
          (check (is_currency_code s.currency)
            >> (modify (λ db. record db { programs = db.programs ++ new_program now s ∷ [] })
                >> pure true))
          (λ _. There s.id)
    fresh = bind_triple _ _ (check_triple _) λ _.
        bind_triple _ _
          (modify_triple {Q = There s.id} _ (λ db u. Exists-added db.programs (new_program now s)))
          λ _. pure_triple true

    go :
        (db : Database)
        → (is_some (find (has_id s.id) db.programs) ≡ true)
          ⊎ (is_some (find (has_id s.id) db.programs) ≡ false)
        → Ensures (λ _. There s.id) (insert_program now s db)
    go db (inl there) = rw there (ends there)
    go db (inr absent) = rw absent (fresh.run db tt)

seed_program-There :
    (id : Text) (now : Date) (s : ProgramSeed)
    → Triple (There id) (seed_program now s) (λ _. There id)
unfolding seed_program
seed_program-There id now s =
    bind_triple _ _ (insert_program-There id now s)
      λ inserted. if_triple inserted (set_limit-There id now s) (pure_triple tt)

seed_program_creates :
    (now : Date) (s : ProgramSeed) → Triple (λ _. Unit) (seed_program now s) (λ _. There s.id)
unfolding seed_program
seed_program_creates now s =
    bind_triple _ _ (insert_program_creates now s)
      λ inserted. if_triple inserted (set_limit-There s.id now s) (pure_triple tt)

seed_programs-There :
    (id : Text) (now : Date) (ss : List ProgramSeed)
    → Triple (There id) (seed_programs now ss) (λ _. There id)
unfolding seed_programs
seed_programs-There id now [] = pure_triple tt
seed_programs-There id now (s ∷ ss) =
    bind_triple _ _ (seed_program-There id now s) λ _. seed_programs-There id now ss

abbrev AllThere : List ProgramSeed → Database → Type 0
AllThere [] db = Unit
AllThere (s ∷ ss) db = There s.id db × AllThere ss db

bind_runs :
    {A B : Type 0} (m : Tx A) (f : A → Tx B) (a : A) (db mid : Database)
    → m db ≡ ok (a, mid)
    → (m >>= f) db ≡ f a mid
unfolding ◌>>=◌
bind_runs {A} {B} m f a db mid h =
    ap
      (λ r. elim r as (λ _. Result (B × Database) Failure) [
        | ok (b, next) ↦ f b next
        | err e ↦ err e
      ])
      h

insert_program-again :
    (now : Date) (s : ProgramSeed) (db : Database)
    → There s.id db
    → insert_program now s db ≡ ok (false, db)
unfolding insert_program find_program gets ◌>>=◌ pure
insert_program-again now s db there = rw there refl

-- A seed whose row is there changes nothing.
seed_program-again :
    (now : Date) (s : ProgramSeed) (db : Database)
    → There s.id db
    → seed_program now s db ≡ ok (tt, db)
unfolding seed_program pure
seed_program-again now s db there =
    bind_runs (insert_program now s) (λ inserted. if inserted then set_limit now s else pure tt)
      false db db (insert_program-again now s db there)

seed_programs-again :
    (now : Date) (ss : List ProgramSeed) (db : Database)
    → AllThere ss db
    → seed_programs now ss db ≡ ok (tt, db)
unfolding seed_programs pure
seed_programs-again now [] db h = refl
seed_programs-again now (s ∷ ss) db h =
    bind_runs (seed_program now s) (λ _. seed_programs now ss) tt db db
      (seed_program-again now s db h.0)
    ∙ seed_programs-again now ss db h.1

-- After the seeding every program of the list is there.
seed_programs-AllThere :
    (now : Date) (ss : List ProgramSeed) (db end : Database)
    → seed_programs now ss db ≡ ok (tt, end)
    → AllThere ss end
unfolding seed_programs ◌>>=◌
seed_programs-AllThere now [] db end h = tt
seed_programs-AllThere now (s ∷ ss) db end h =
    go (seed_program now s db) refl h (λ mid k. seed_programs-AllThere now ss mid end k)
  where
    go :
        (r : Result (Unit {0} × Database) Failure)
        → seed_program now s db ≡ r
        → (elim r as (λ _. Result (Unit {0} × Database) Failure) [
          | ok (u, mid) ↦ seed_programs now ss mid
          | err e ↦ err e
        ])
          ≡ ok (tt, end)
        → ((mid : Database) → seed_programs now ss mid ≡ ok (tt, end) → AllThere ss end)
        → AllThere (s ∷ ss) end
    go (err f) e k rest = absurd cc
    go (ok (u, mid)) e k rest =
        let created =
          succeeded u mid (seed_program now s db) ((seed_program_creates now s).run db tt) e in
        (
          succeeded tt end (seed_programs now ss mid)
              ((seed_programs-There s.id now ss).run mid created) k,
          rest mid k,
        )

-- If the seeding succeeds, then to seed the same database again, at any later time, succeeds and changes
-- nothing.
pub run_seed-again :
    (now later : Date) (seconds then_seconds : ℤ) (tokens : List Json) (db end : Database)
    → run_seed now seconds db ≡ ok (tokens, end)
    → run_seed later then_seconds end ≡ ok (map (token_claims then_seconds) organisations, end)
unfolding run_seed ◌>>=◌ pure
run_seed-again now later seconds then_seconds tokens db end h =
    go (seed_programs now program_seeds db) refl h
  where
    go :
        (r : Result (Unit {0} × Database) Failure)
        → seed_programs now program_seeds db ≡ r
        → (elim r as (λ _. Result (List Json × Database) Failure) [
          | ok (u, mid) ↦ ok (map (token_claims seconds) organisations, mid)
          | err e ↦ err e
        ])
          ≡ ok (tokens, end)
        → run_seed later then_seconds end ≡ ok (map (token_claims then_seconds) organisations, end)
    go (err f) e k = absurd cc
    go (ok (u, mid)) e k =
        let same : mid ≡ end = cc in
        bind_runs (seed_programs later program_seeds)
          (λ _. pure (map (token_claims then_seconds) organisations)) tt end end
          (seed_programs-again later program_seeds end (
            subst (AllThere program_seeds) same
              (seed_programs-AllThere now program_seeds db mid e)))
