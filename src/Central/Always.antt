-- ===== src/Central/Always.antt =====
-- What holds of the tables after a sequence of statements, also where it ends with an error
-- (internal/store/central.go).
use on_watch.Base.{Bool, true, false, Option, none, some, ◌≡◌, refl, sym, arith, if◌then◌else◌}
use mathlib.Core.Path.{subst}
use on_watch.Central.Tables.{
  Tables, Database, Statements, and_then, attempt, or_fail, put, gets, statement, query, exec, pure,
  close_transaction, transaction, ◌>>=◌, ◌>>◌,
}

module _ {F W : Type 0} where
  abbrev pub Always : {A : Type 0} → (Tables F W → Type 0) → Option A × Database F W → Type 0
  Always P r = P r.1.tables

  attempt-tables : (db : Database F W) → (attempt db).1.tables ≡ db.tables
  unfolding attempt
  attempt-tables db = ground arith

  pub and_then-Always :
      {A B : Type 0} (P : Tables F W → Type 0) (f : A → Statements F W B)
      (r : Option A × Database F W)
      → Always P r
      → ((a : A) (db : Database F W) → P db.tables → Always P (f a db))
      → Always P (and_then f r)
  and_then-Always P f (none, db) h next = h
  and_then-Always P f (some a, db) h next = next a db h

  pub attempt-Always :
      (P : Tables F W → Type 0) (db : Database F W) → P db.tables → Always P (attempt db)
  attempt-Always P db h = subst P (sym (attempt-tables db)) h

  pub statement_then :
      {B : Type 0} (P : Tables F W → Type 0) (f : Statements F W B) (db : Database F W)
      → P db.tables
      → ((db1 : Database F W) → db1.tables ≡ db.tables → Always P (f db1))
      → Always P (and_then (λ (u : Unit {0}). f) (statement db))
  statement_then P f db h next = works (attempt db) (attempt-tables db)
    where
      works :
          (r : Option Bool × Database F W)
          → r.1.tables ≡ db.tables
          → Always P (
              and_then
                (λ (u : Unit {0}). f)
                (and_then (λ works. or_fail (if works then some tt else none)) r))
      works (none, db1) e = subst P (sym e) h
      works (some true, db1) e = next db1 e
      works (some false, db1) e = subst P (sym e) h

  -- What is read is of tables with the property.
  pub query_then :
      {A B : Type 0} (P : Tables F W → Type 0) (g : Tables F W → A) (f : A → Statements F W B)
      (db : Database F W)
      → P db.tables
      → ((db1 : Database F W) → db1.tables ≡ db.tables → Always P (f (g db1.tables) db1))
      → Always P (and_then f (query g db))
  query_then P g f db h next = reads (attempt db) (attempt-tables db)
    where
      reads :
          (r : Option Bool × Database F W)
          → r.1.tables ≡ db.tables
          → Always P (
              and_then f (
                and_then
                  (λ _. gets g)
                  (and_then (λ works. or_fail (if works then some tt else none)) r)))
      reads (none, db1) e = subst P (sym e) h
      reads (some true, db1) e = next db1 e
      reads (some false, db1) e = subst P (sym e) h

  pub exec-Always :
      (P : Tables F W → Type 0) (change : Tables F W → Option (Tables F W)) (db : Database F W)
      → P db.tables
      → ((t : Tables F W) → change db.tables ≡ some t → P t)
      → Always P (exec change db)
  exec-Always P change db h next =
      query_then P change (λ o db1. and_then put (or_fail o db1)) db h
        (λ db1 e. writes db1 e (change db1.tables) refl)
    where
      writes :
          (db1 : Database F W)
          → db1.tables ≡ db.tables
          → (o : Option (Tables F W)) → change db1.tables ≡ o
          → Always P (and_then put (or_fail o db1))
      writes db1 e none made = subst P (sym e) h
      writes db1 e (some t) made = next t (rw e at made)

  pub if-Always :
      {A : Type 0} (P : Tables F W → Type 0) (b : Bool) (m k : Statements F W A) (db : Database F W)
      → (b ≡ true → Always P (m db))
      → (b ≡ false → Always P (k db))
      → Always P ((if b then m else k) db)
  if-Always P true m k db on_true on_false = on_true refl
  if-Always P false m k db on_true on_false = on_false refl

  pub transaction-Always :
      {A : Type 0} (P : Tables F W → Type 0) (body : Statements F W A) (db : Database F W)
      → P db.tables
      → ((db1 : Database F W) → db1.tables ≡ db.tables → Always P (body db1))
      → Always P (transaction body db)
  transaction-Always {A} P body db h holds = closes _ (
      statement_then P body_and_commit db h (λ db1 e.
        and_then-Always P (λ a. statement >> pure a) (body db1) (holds db1 e)
          (λ a db2 k. statement_then P (pure a) db2 k (λ db3 e3. subst P (sym e3) k))))
    where
      body_and_commit : Statements F W A
      body_and_commit = body >>= λ a. statement >> pure a

      closes : (r : Option A × Database F W) → Always P r → Always P (close_transaction db.tables r)
      closes (none, db1) k = h
      closes (some a, db1) k = k
