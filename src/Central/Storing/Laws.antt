-- ===== src/Central/Storing/Laws.antt =====
-- Rules for sequences of statements on the central tables (internal/store/central.go).
use on_watch.Base.{Bool, true, false, Option, none, some, List, [], ◌∷◌, ◌≡◌, refl, if◌then◌else◌}
use on_watch.Central.Tables.{
  Tables, Database, Statements, and_then, attempt, or_fail, put, gets, statement, query, exec, pure,
  close_transaction, transaction,
}

module _ {F W : Type 0} where
  -- What holds of the value and the tables where there is no error.
  abbrev pub Ensures : {A : Type 0} → (A → Tables F W → Type 0) → Option A × Database F W → Type 0
  Ensures Q (none, db) = Unit
  Ensures Q (some a, db) = Q a db.tables

  pub and_then-Ensures :
      {A B : Type 0} (P : A → Tables F W → Type 0) (Q : B → Tables F W → Type 0)
      (f : A → Statements F W B) (r : Option A × Database F W)
      → Ensures P r
      → ((a : A) (db : Database F W) → P a db.tables → Ensures Q (f a db))
      → Ensures Q (and_then f r)
  and_then-Ensures P Q f (none, db) h next = tt
  and_then-Ensures P Q f (some a, db) h next = next a db h

  pub Ensures-imp :
      {A : Type 0} (P Q : A → Tables F W → Type 0) (r : Option A × Database F W)
      → Ensures P r
      → ((a : A) (t : Tables F W) → P a t → Q a t)
      → Ensures Q r
  Ensures-imp P Q (none, db) h imp = tt
  Ensures-imp P Q (some a, db) h imp = imp a db.tables h

  pub attempt-Ensures :
      (db : Database F W) → Ensures (λ (works : Bool) t. t ≡ db.tables) (attempt db)
  unfolding attempt
  attempt-Ensures db = attempt_on db db.faults refl
    where
      attempt_on :
          (db : Database F W) (faults : List Bool)
          → db.faults ≡ faults
          → Ensures (λ (works : Bool) t. t ≡ db.tables) (attempt db)
      attempt_on db [] e = rw e refl
      attempt_on db (fails ∷ rest) e = rw e refl

  pub statement-Ensures :
      (db : Database F W) → Ensures (λ (u : Unit {0}) t. t ≡ db.tables) (statement db)
  statement-Ensures db =
      and_then-Ensures (λ (works : Bool) t. t ≡ db.tables) (λ (u : Unit {0}) t. t ≡ db.tables)
        (λ works. or_fail (if works then some tt else none)) (attempt db) (attempt-Ensures db)
        (λ works db' e. reads works db' e)
    where
      reads :
          (works : Bool) (db' : Database F W)
          → db'.tables ≡ db.tables
          → Ensures
              (λ (u : Unit {0}) t. t ≡ db.tables)
              (or_fail (if works then some tt else none) db')
      reads true db' e = e
      reads false db' e = tt

  pub query-Ensures :
      {A : Type 0} (f : Tables F W → A) (db : Database F W)
      → Ensures (λ a t. (a ≡ f db.tables) × (t ≡ db.tables)) (query f db)
  query-Ensures f db =
      and_then-Ensures (λ (u : Unit {0}) t. t ≡ db.tables)
        (λ a t. (a ≡ f db.tables) × (t ≡ db.tables)) (λ _. gets f) (statement db)
        (statement-Ensures db) (λ u db' e. (rw e refl, e))

  pub exec-Ensures :
      (change : Tables F W → Option (Tables F W)) (db : Database F W)
      → Ensures (λ (u : Unit {0}) t. change db.tables ≡ some t) (exec change db)
  exec-Ensures change db =
      and_then-Ensures (λ a t. (a ≡ change db.tables) × (t ≡ db.tables))
        (λ (u : Unit {0}) t. change db.tables ≡ some t) (λ o db'. and_then put (or_fail o db'))
        (query change db) (query-Ensures change db) (λ o db' h. writes o db' h.0)
    where
      writes :
          (o : Option (Tables F W)) (db' : Database F W)
          → o ≡ change db.tables
          → Ensures (λ (u : Unit {0}) t. change db.tables ≡ some t) (and_then put (or_fail o db'))
      writes none db' e = tt
      writes (some t) db' e = rw (← e) refl

  -- A condition in a sequence.
  pub if-Ensures :
      {A : Type 0} (Q : A → Tables F W → Type 0) (b : Bool) (m k : Statements F W A)
      (db : Database F W)
      → (b ≡ true → Ensures Q (m db))
      → (b ≡ false → Ensures Q (k db))
      → Ensures Q ((if b then m else k) db)
  if-Ensures Q true m k db on_true on_false = on_true refl
  if-Ensures Q false m k db on_true on_false = on_false refl

  -- What holds after a transaction, which an error rolls back.
  abbrev pub Closes :
      {A : Type 0} → (A → Tables F W → Type 0) → Tables F W → Option A × Database F W → Type 0
  Closes Q s (none, db) = db.tables ≡ s
  Closes Q s (some a, db) = Q a db.tables

  Closes-close :
      {A : Type 0} (Q : A → Tables F W → Type 0) (s : Tables F W) (r : Option A × Database F W)
      → Ensures Q r
      → Closes Q s (close_transaction s r)
  Closes-close Q s (none, db) h = refl
  Closes-close Q s (some a, db) h = h

  pub transaction-Closes :
      {A : Type 0} (Q : A → Tables F W → Type 0) (body : Statements F W A) (db : Database F W)
      → ((db1 : Database F W) → db1.tables ≡ db.tables → Ensures Q (body db1))
      → Closes Q db.tables (transaction body db)
  transaction-Closes Q body db holds = Closes-close Q db.tables _ (
      and_then-Ensures (λ (u : Unit {0}) t. t ≡ db.tables) Q _ (statement db) (statement-Ensures db)
        (λ u db1 same. and_then-Ensures Q Q _ (body db1) (holds db1 same) (λ a db2 h.
          and_then-Ensures (λ (u : Unit {0}) t. t ≡ db2.tables) Q (λ _. pure a) (statement db2)
            (statement-Ensures db2) (λ u db3 e. rw e h))))

  -- Where no statement fails.
  pub query_works :
      {A : Type 0} (f : Tables F W → A) (db : Database F W)
      → db.faults ≡ []
      → query f db ≡ (some (f db.tables), db)
  unfolding attempt
  query_works f db e = rw e refl

  pub statement_works : (db : Database F W) → db.faults ≡ [] → statement db ≡ (some tt, db)
  unfolding attempt
  statement_works db e = rw e refl

  pub transaction_works :
      {A : Type 0} (body : Statements F W A) (db : Database F W) (a : A) (t : Tables F W)
      → db.faults ≡ []
      → body db ≡ (some a, record db { tables = t })
      → transaction body db ≡ (some a, record db { tables = t })
  transaction_works body db a t works done =
      rw (statement_works db works, done, statement_works (record db { tables = t }) works) refl
