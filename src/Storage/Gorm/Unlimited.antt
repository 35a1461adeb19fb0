-- ===== src/Storage/Gorm/Unlimited.antt =====
-- What a page size of -1 asks of gorm, through service/paginate.go and persistence/gorm/gorm.go.
use clouditor.Prelude.{String, ◌≡◌, none, List}
use clouditor.Prelude.Int.{ℤ, negsuc}
use clouditor.Status.{ok}
use clouditor.Page.{PageRequest, PaginationOpts, Wire, paginate_storage}
use clouditor.Page.Size.{Positive, effective_size-neg}
use clouditor.Page.Source.{paginate_storage-listed}
use clouditor.Storage.{Conds}
use clouditor.Storage.Gorm.{Driver, gorm_table, associations, limit_of, order_stmt, list}

-- A request of page size -1 is not held to the largest page size: whatever its token is, the page that it
-- gets is what gorm's Find gives without any limit, if both sizes of the options are positive.
pub paginate_storage-gorm_table :
    {D R : Type 0} (driver : Driver D R) (w : Wire) (req : PageRequest) (conds : Conds) (db : D)
    (opts : PaginationOpts) (p : Positive opts) (page : List R) (npt : String)
    → req.page_size ≡ negsuc 0
    → paginate_storage w req ((gorm_table driver).list conds db) opts ≡ ok (page, npt)
    → (start : ℤ) × (driver.find associations (order_stmt req.order_by req.asc) none start conds db
        ≡ ok page)
unfolding gorm_table list limit_of
paginate_storage-gorm_table driver w req conds db opts p page npt sized h =
    let (start, from) =
      paginate_storage-listed w req ((gorm_table driver).list conds db) opts page {npt = npt} h in
    (start, (rw (effective_size-neg opts p req 0 sized) at from))
