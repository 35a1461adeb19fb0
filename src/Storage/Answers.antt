-- ===== src/Storage/Answers.antt =====
-- What a database is relied on for when it answers: a row that it gives meets the condition.
use clouditor.Prelude.{String, ◌≡◌, Bool, true, List, All}
use clouditor.Prelude.Int.{ℤ}
use clouditor.Status.{ok}
use clouditor.Query.{Atom, satisfies}
use clouditor.Page.{PageRequest, PaginationOpts, Wire, paginate_storage, effective_size}
use clouditor.Page.Source.{paginate_storage-listed}
use clouditor.Storage.{Table, Conds}

-- `row` says which comparisons a row meets.
pub record Answers {D R : Type 0} (table : Table D R) (row : R → Atom → Bool) : Type 0 where
  pub listed :
      (conds : Conds) (db : D) (order : String) (asc : Bool) (start size : ℤ) (rows : List R)
      → table.list conds db order asc start size ≡ ok rows
      → All (λ r. satisfies (row r) conds ≡ true) rows
  pub got :
      (conds : Conds) (db : D) (r : R) → table.get conds db ≡ ok r → satisfies (row r) conds ≡ true

-- The rows of a page meet the condition.
pub paginate_storage-All :
    {D R : Type 0} (table : Table D R) (row : R → Atom → Bool) (answers : Answers table row)
    (w : Wire) (req : PageRequest) (conds : Conds) (db : D) (opts : PaginationOpts) (rows : List R)
    {npt : String}
    → paginate_storage w req (table.list conds db) opts ≡ ok (rows, npt)
    → All (λ r. satisfies (row r) conds ≡ true) rows
paginate_storage-All table row answers w req conds db opts rows {npt} h =
    let (start, from) =
      paginate_storage-listed w req (table.list conds db) opts rows {npt = npt} h in
    answers.listed conds db req.order_by req.asc start (effective_size req opts) rows from
