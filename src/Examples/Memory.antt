-- ===== src/Examples/Memory.antt =====
-- A table of gorm.io/gorm in memory: the committed state is the list of its rows.
use mathlib.Core.List.Perm
use tasktify.Prelude.{
  ◌≡◌, refl, Bool, true, String, List, [], ◌∷◌, ◌++◌, map, not, Result, ok, err, plain, select, In,
  inl, inr, if◌then◌else◌, str_eq, length, ◌==◌, suc, ok-injective, sym, Bool-cases,
}
use tasktify.Prelude.Int.{pos}
use tasktify.External.Gorm.{Gorm, IsGorm}
use tasktify.Todo.Entity.{Task, IsTaskTable}
use tasktify.Auth.Entity.{User, IsUserTable}

module _ {Row : Type 0} where
  unfoldable pub first_row : (Row → Bool) → List Row → Result Row
  first_row test [] = err (plain "record not found")
  first_row test (r ∷ rs) = if test r then ok r else first_row test rs

  first_row-fits :
      (test : Row → Bool) (rs : List Row) {row : Row}
      → first_row test rs ≡ ok row
      → (test row ≡ true) × In row rs
  unfolding first_row
  first_row-fits test [] e = cc
  first_row-fits test (r ∷ rs) {row} e = elim (Bool-cases (test r)) [
    | inl hit ↦
        let same : r ≡ row = ok-injective (rw (hit, first_row) at e) in
        (rw (← same) hit, inl (sym same))
    | inr miss ↦
        let (fits, mem) = first_row-fits test rs (rw (miss, first_row) at e) in (fits, inr mem)
  ]

  abbrev pub memory : (List Row → Row → Row) → (Row → Row → Row) → Gorm (List Row) Row
  memory stamp merge = record {
    begin = λ db. db;
    commit = λ db. ok db;
    create = λ row db. ok (db ++ stamp db row ∷ []);
    updates = λ test row db. ok (map (λ r. if test r then merge r row else r) db);
    delete = λ test db. ok (select (λ r. not (test r)) db);
    first = first_row;
    find = λ test db. ok (select test db);
  }

  pub memory-IsGorm :
      (stamp : List Row → Row → Row) (merge : Row → Row → Row)
      → IsGorm (memory stamp merge) (λ db. db) stamp merge
  memory-IsGorm stamp merge = record {
    begin_rows = λ db. refl;
    commit_rows = λ db e. sym (ok-injective e);
    create_rows = λ row db e. sym (ok-injective e);
    updates_rows = λ test row db e. sym (ok-injective e);
    delete_rows = λ test db e. sym (ok-injective e);
    first_row = λ test db e. first_row-fits test db e;
    find_rows = λ test db e. rw (ok-injective e) Perm.rfl;
  }

abbrev filled : String → String → String
filled old new = if str_eq new "" then old else new

abbrev pub stamp_task : List Task → Task → Task
stamp_task db t = record t {
  id = suc (length db);
  created_at = pos 1_700_000_000;
  updated_at = pos 1_700_000_000;
}

abbrev pub merge_task : Task → Task → Task
merge_task old new = record old {
  title = filled old.title new.title;
  description = filled old.description new.description;
  status = filled old.status new.status;
  due_date = new.due_date;
  user_id = if new.user_id == 0 then old.user_id else new.user_id;
}

pub task_table : IsTaskTable stamp_task merge_task
task_table = record {
  stamp_user = λ db t. refl;
  stamp_title = λ db t. refl;
  stamp_description = λ db t. refl;
  stamp_status = λ db t. refl;
  stamp_due_date = λ db t. refl;
  merge_id = λ old new. refl;
  merge_user = λ old new. refl;
  merge_title = λ old new. refl;
  merge_description = λ old new. refl;
  merge_status = λ old new. refl;
}

abbrev pub tasks : Gorm (List Task) Task
tasks = memory stamp_task merge_task

abbrev pub stamp_user : List User → User → User
stamp_user db x = record x {
  id = suc (length db);
  created_at = pos 1_700_000_000;
  updated_at = pos 1_700_000_000;
}

abbrev pub merge_user : User → User → User
merge_user old new = record old {
  name = filled old.name new.name;
  email = filled old.email new.email;
  password = filled old.password new.password;
}

pub user_table : IsUserTable stamp_user merge_user
user_table = record {
  stamp_name = λ db x. refl;
  stamp_email = λ db x. refl;
  stamp_password = λ db x. refl;
  merge_id = λ old new. refl;
  merge_password = λ old new. refl;
}

abbrev pub users : Gorm (List User) User
users = memory stamp_user merge_user
