-- ===== src/External/Gorm.antt =====
-- gorm.io/gorm over one table, as a parameter. `Db` is what a session or a transaction sees; a
-- `Where` clause is the test that it makes of a row.
use mathlib.Core.List.{Perm}
use tasktify.Prelude.{
  ◌≡◌, Bool, true, List, [], ◌∷◌, ◌++◌, map, not, refl, Ensures, Result, ok, err, panic, select, In,
  if◌then◌else◌,
}

pub record Gorm (Db Row : Type 0) : Type 0 where
  -- db.Begin(), tx.Commit().Error
  pub begin : Db → Db
  pub commit : Db → Result Db
  -- tx.Create(row).Error
  pub create : Row → Db → Result Db
  -- tx.Where(test).Updates(row).Error, tx.Where(test).Delete(row).Error
  pub updates : (Row → Bool) → Row → Db → Result Db
  pub delete : (Row → Bool) → Db → Result Db
  -- db.Where(test).First(&row).Error, db.Where(test).Find(&rows).Error
  pub first : (Row → Bool) → Db → Result Row
  pub find : (Row → Bool) → Db → Result (List Row)

-- How a method with `defer tx.Rollback()` ends: a commit that succeeded stays, and an error or a
-- panic leaves the committed state `db` as it was.
unfoldable pub settle : {Db : Type 0} → Db → Result Db → Result (Unit {0}) × Db
settle db (ok db') = (ok tt, db')
settle db (err e) = (err e, db)
settle db panic = (panic, db)

-- What holds of the committed state holds after the method, if its transaction ensures it.
pub settle_keeps {κ} :
    {Db : Type 0} (P : Db → Type κ) (db : Db) (m : Result Db)
    → P db
    → Ensures P m
    → P (settle db m).1
unfolding settle
settle_keeps P db (ok db') p h = h.at db' refl
settle_keeps P db (err e) p h = p
settle_keeps P db panic p h = p

-- What a transaction ensures holds of the committed state after a method that succeeded.
pub settle_ok {κ} :
    {Db : Type 0} (P : Db → Type κ) (db : Db) (m : Result Db)
    → (settle db m).0 ≡ ok tt
    → Ensures P m
    → P (settle db m).1
unfolding settle
settle_ok P db (ok db') done h = h.at db' refl
settle_ok P db (err e) done h = cc
settle_ok P db panic done h = cc

-- The documented effect of each call on the rows, where it succeeds. `stamp` fills a new row's
-- defaults and `merge old new` is the row that `Updates` writes. The order of `rows` is the model's
-- own: no query of the services has an ORDER BY, and `Find` answers in any order.
pub record IsGorm {Db Row : Type 0} (g : Gorm Db Row) (rows : Db → List Row)
    (stamp : Db → Row → Row) (merge : Row → Row → Row) : Type 0 where
  pub begin_rows : (db : Db) → rows (g.begin db) ≡ rows db
  pub commit_rows : (db : Db) {db' : Db} → g.commit db ≡ ok db' → rows db' ≡ rows db
  pub create_rows :
      (row : Row) (db : Db) {db' : Db}
      → g.create row db ≡ ok db'
      → rows db' ≡ rows db ++ stamp db row ∷ []
  pub updates_rows :
      (test : Row → Bool) (row : Row) (db : Db) {db' : Db}
      → g.updates test row db ≡ ok db'
      → rows db' ≡ map (λ r. if test r then merge r row else r) (rows db)
  pub delete_rows :
      (test : Row → Bool) (db : Db) {db' : Db}
      → g.delete test db ≡ ok db'
      → rows db' ≡ select (λ r. not (test r)) (rows db)
  pub first_row :
      (test : Row → Bool) (db : Db) {row : Row}
      → g.first test db ≡ ok row
      → (test row ≡ true) × In row (rows db)
  pub find_rows :
      (test : Row → Bool) (db : Db) {found : List Row}
      → g.find test db ≡ ok found
      → Perm found (select test (rows db))
