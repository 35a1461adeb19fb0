-- ===== src/Storage.antt =====
-- The interface Storage of persistence/persistence.go at one type of record, over a database that is
-- a parameter. A condition carries its arguments; the primary key of the record that a call is given
-- is the condition on its column. How much of a record's associations is loaded is not modelled.
pub mod Answers
pub mod Gorm
use clouditor.Prelude.{ℕ, List}
use clouditor.Status.{Result}
use clouditor.Exec.{Exec}
use clouditor.Query.{Token}
use clouditor.Page.{ListCall}

abbrev pub Conds : Type 0
Conds = List Token

pub record Table (D R : Type 0) : Type 0 where
  pub create : R → Exec D (Unit {0})
  pub save : R → Conds → Exec D (Unit {0})
  pub update : R → Conds → Exec D (Unit {0})
  pub get : Conds → D → Result R
  pub list : Conds → D → ListCall R
  pub count : Conds → D → Result ℕ
  pub delete : Conds → Exec D (Unit {0})
