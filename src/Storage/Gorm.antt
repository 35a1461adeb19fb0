-- ===== src/Storage/Gorm.antt =====
-- The storage of persistence/gorm/gorm.go at one type of record, over gorm's DB, which is a
-- parameter.
pub mod Errors
pub mod Unlimited
mod Tests
use Prim.Native.String.{◌++◌ as str_append}
use clouditor.Prelude.{
  ℕ, String, Bool, true, false, not, ◌||◌, Option, none, some, List, [], ◌∷◌, ◌==◌, ◌==ℕ◌,
  if◌then◌else◌,
}
use clouditor.Prelude.Int.{ℤ, pos, negsuc}
use clouditor.Status.{
  Error, Result, ok, err, panic, record_not_found, constraint_failed, unique_constraint_failed,
}
use clouditor.Exec.{Exec, pure, lift, require, map_err, ◌>>=◌, ◌>>◌}
use clouditor.Policies.Eval.{text_contains}
use clouditor.Storage.{Table, Conds}

-- What is loaded beside a record: all associations, or what one query with its arguments says.
pub data Preloads : Type 0 where
  associations : Preloads
  only : String → Preloads
  nothing : Preloads

-- gorm's DB: the error of each call, and the rows affected by Updates and Delete. The arguments of
-- `find` are what is loaded, the order, the limit if there is one, and the offset.
pub record Driver (D R : Type 0) : Type 0 where
  pub create : R → Exec D (Unit {0})
  pub first : Preloads → Conds → D → Result R
  pub find : Preloads → String → Option ℤ → ℤ → Conds → D → Result (List R)
  pub count : Conds → D → Result ℕ
  pub save : Conds → R → Exec D (Unit {0})
  pub updates : Conds → R → Exec D ℕ
  pub delete : Conds → Exec D ℕ
  -- err.Error(), and errors.Is(err, gorm.ErrRecordNotFound)
  pub message : Error → String
  pub is_not_found : Error → Bool

-- The conditional arguments, with the option that may stand first; its query is "" for WithoutPreload.
unfoldable pub apply_preload : Option String → Preloads
apply_preload none = associations
apply_preload (some query) = if query == "" then nothing else only query

-- `if limit != -1`
unfoldable pub limit_of : ℤ → Option ℤ
limit_of (pos n) = some (pos n)
limit_of (negsuc n) = if n ==ℕ 0 then none else some (negsuc n)

unfoldable pub order_stmt : String → Bool → String
order_stmt order_by asc =
    if order_by == ""
    then ""
    else str_append order_by (str_append " " (if asc then "asc" else "desc"))

module _ {D R : Type 0} (driver : Driver D R) where
  unfoldable pub create_error : Error → Error
  create_error e =
      if text_contains (driver.message e) "constraint failed: UNIQUE constraint failed"
        || text_contains (driver.message e) "duplicate key value violates unique constraint"
      then unique_constraint_failed
      else if text_contains (driver.message e) "constraint failed"
      then constraint_failed
      else e

  unfoldable pub save_error : Error → Error
  save_error e =
      if text_contains (driver.message e) "constraint failed" then constraint_failed else e

  unfoldable pub get_error : Error → Error
  get_error e = if driver.is_not_found e then record_not_found else e

  unfoldable pub create : R → Exec D (Unit {0})
  unfolding create_error
  create r = map_err create_error (driver.create r)

  unfoldable pub get : Option String → Conds → D → Result R
  unfolding get_error apply_preload
  get preload conds db = elim (driver.first (apply_preload preload) conds db) [
    | ok r ↦ ok r
    | err e ↦ err (get_error e)
    | panic ↦ panic
  ]

  unfoldable pub list : Option String → Conds → D → String → Bool → ℤ → ℤ → Result (List R)
  unfolding apply_preload order_stmt limit_of
  list preload conds db order_by asc offset limit =
      driver.find (apply_preload preload) (order_stmt order_by asc) (limit_of limit) offset conds db

  unfoldable pub save : R → Conds → Exec D (Unit {0})
  unfolding save_error
  save r conds = map_err save_error (driver.save conds r)

  -- `if tx.RowsAffected == 0`
  abbrev affected : ℕ → Exec D (Unit {0})
  affected n = require (not (n ==ℕ 0)) record_not_found

  unfoldable pub update : R → Conds → Exec D (Unit {0})
  unfolding save_error
  update r conds = map_err save_error (driver.updates conds r) >>= λ n. affected n

  unfoldable pub delete : Conds → Exec D (Unit {0})
  delete conds = driver.delete conds >>= λ n. affected n

  -- The interface Storage, without an option for what is loaded.
  unfoldable pub gorm_table : Table D R
  unfolding create get list save update delete
  gorm_table = record {
    create = create;
    save = save;
    update = update;
    get = get none;
    list = list none;
    count = driver.count;
    delete = delete;
  }
