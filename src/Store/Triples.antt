-- ===== src/Store/Triples.antt =====
-- Postconditions of transactions, and a rule for each way to build one.
use mathlib.Core.Path.{subst}
use invoice_reservation.Prelude.{◌≡◌, refl, Bool, true, false, if◌then◌else◌}
use invoice_reservation.Prelude.Result.{Result, ok, err}
use invoice_reservation.Money.{MoneyError}
use invoice_reservation.Store.{
  Database, Failure, Tx, pure, throw, ◌>>=◌, gets, modify, check, check_unique, transaction,
  lift_money,
}

-- A transaction that succeeds ends in a database with `Q`; one that fails writes nothing.
pub data Ensures {A : Type 0} (Q : A → Database → Type 0)
    : Result (A × Database) Failure → Type 0 where
  ends : {a : A} {db : Database} → Q a db → Ensures Q (ok (a, db))
  fails : {e : Failure} → Ensures Q (err e)

-- From `P` to `Q`.
pub record Triple {A : Type 0} (P : Database → Type 0) (m : Tx A) (Q : A → Database → Type 0)
    : Type 0 where
  pub run : (db : Database) → P db → Ensures Q (m db)

module _ {A B : Type 0} {Q : A → Database → Type 0} {R : B → Database → Type 0} (f : A → Tx B) where
  bind_ensures :
      {r : Result (A × Database) Failure}
      → Ensures Q r
      → ((a : A) (db : Database) → Q a db → Ensures R (f a db))
      → Ensures R (elim r [ ok (a, db') ↦ f a db' | err e ↦ err e ])
  bind_ensures (ends {a} {db} q) k = k a db q
  bind_ensures fails k = fails

  pub bind_triple :
      {P : Database → Type 0} (m : Tx A)
      → Triple P m Q
      → ((a : A) → Triple (Q a) (f a) R)
      → Triple P (m >>= f) R
  unfolding ◌>>=◌
  bind_triple m h k = record {
    run = λ db p. bind_ensures (h.run db p) (λ a db' q. (k a).run db' q);
  }

module _ {P : Database → Type 0} where
  pub check_triple : (b : Bool) → Triple P (check b) (λ _. P)
  unfolding check
  check_triple true = record { run = λ db p. ends p }
  check_triple false = record { run = λ db p. fails }

  pub check_unique_triple : (b : Bool) → Triple P (check_unique b) (λ _. P)
  unfolding check_unique
  check_unique_triple true = record { run = λ db p. ends p }
  check_unique_triple false = record { run = λ db p. fails }

  pub modify_triple :
      {Q : Database → Type 0} (f : Database → Database)
      → ((db : Database) → P db → Q (f db))
      → Triple P (modify f) (λ _. Q)
  unfolding modify
  modify_triple f h = record { run = λ db p. ends (h db p) }

  pub throw_triple : {A : Type 0} {Q : A → Database → Type 0} (e : Failure) → Triple P (throw e) Q
  unfolding throw
  throw_triple e = record { run = λ db p. fails }

  pub pure_triple : {A : Type 0} (a : A) → Triple P (pure a) (λ _. P)
  unfolding pure
  pure_triple a = record { run = λ db p. ends p }

  pub gets_triple : {A : Type 0} (f : Database → A) → Triple P (gets f) (λ _. P)
  unfolding gets
  gets_triple f = record { run = λ db p. ends p }

  pub after_ensures :
      {A : Type 0} (db : Database) (r : Result (A × Database) Failure)
      → P db
      → Ensures (λ _. P) r
      → P
          (elim r as (λ _. Result A Failure × Database) [
            | ok (a, db') ↦ (ok a, db')
            | err e ↦ (err e, db)
          ]).1
  after_ensures db _ p (ends q) = q
  after_ensures db _ p fails = p

  pub lift_money_triple : {A : Type 0} (r : Result A MoneyError) → Triple P (lift_money r) (λ _. P)
  unfolding lift_money
  lift_money_triple (ok a) = record { run = λ db p. ends p }
  lift_money_triple (err e) = record { run = λ db p. fails }

  -- What every transaction keeps, the database after it has, also after a rollback.
  pub transaction_triple :
      {A : Type 0} (m : Tx A)
      → Triple P m (λ _. P)
      → (db : Database) → P db
      → P (transaction m db).1
  unfolding transaction
  transaction_triple m h db p = after_ensures db (m db) p (h.run db p)

pub if_triple :
    {A : Type 0} {P : Database → Type 0} {Q : A → Database → Type 0} (b : Bool) {m n : Tx A}
    → Triple P m Q
    → Triple P n Q
    → Triple P (if b then m else n) Q
if_triple true h k = h
if_triple false h k = k

-- A stronger precondition.
pub weaken :
    {A : Type 0} {P P' : Database → Type 0} {Q : A → Database → Type 0} {m : Tx A}
    → ((db : Database) → P' db → P db)
    → Triple P m Q
    → Triple P' m Q
weaken w h = record { run = λ db p. h.run db (w db p) }

pub if_ensures :
    {A : Type 0} {Q : A → Database → Type 0} (b : Bool) {r s : Result (A × Database) Failure}
    → Ensures Q r
    → Ensures Q s
    → Ensures Q (if b then r else s)
if_ensures true h k = h
if_ensures false h k = k

-- As `if_triple`, with the test's value known in each branch.
pub split_triple :
    {A : Type 0} {P : Database → Type 0} {Q : A → Database → Type 0} (b : Bool) {m n : Tx A}
    → (b ≡ true → Triple P m Q)
    → (b ≡ false → Triple P n Q)
    → Triple P (if b then m else n) Q
split_triple true h k = h refl
split_triple false h k = k refl

pub split_ensures :
    {A : Type 0} {Q : A → Database → Type 0} (b : Bool) {r s : Result (A × Database) Failure}
    → Ensures Q r
    → (b ≡ false → Ensures Q s)
    → Ensures Q (if b then r else s)
split_ensures true h k = h
split_ensures false h k = k refl

-- What a transaction that succeeded ended in.
pub succeeded :
    {A : Type 0} {Q : A → Database → Type 0} (a : A) (end : Database)
    (r : Result (A × Database) Failure)
    → Ensures Q r
    → r ≡ ok (a, end)
    → Q a end
succeeded {A} {Q} a end r (ends {a = x} {db = db'} q) h =
    let same : (x, db') ≡ (a, end) = cc in subst (λ (y : A × Database). Q y.0 y.1) same q
succeeded a end r fails h = cc
