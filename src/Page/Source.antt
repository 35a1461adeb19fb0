-- ===== src/Page/Source.antt =====
-- Where the rows of a page come from.
use clouditor.Prelude.{String, ◌≡◌, refl, ap, ◌∙◌, Bool, true, false, List, arith}
use clouditor.Prelude.Int.{ℤ}
use clouditor.Status.{Result, ok, err, panic, ◌>>=◌}
use clouditor.Page.Defs.{
  PageToken, PageRequest, PaginationOpts, Wire, ListCall, next_page, paginate, paginate_storage,
  storage_pager, request_token, effective_size,
}

>>=-ok {ℓ κ} :
    {First : Type ℓ} {Then : Type κ} (call : Result First) (next : First → Result Then)
    {answer : Then}
    → (call >>= next) ≡ ok answer
    → (middle : First) × (call ≡ ok middle) × (next middle ≡ ok answer)
>>=-ok panic next h = cc
>>=-ok (err e) next h = cc
>>=-ok (ok middle) next h = (middle, refl, h)

module _ {ℓ} {A : Type ℓ} (w : Wire) where
  next_page-rows :
      (token : PageToken) (rows page : List A) (done : Bool) {npt : String}
      → next_page w token (rows, done) ≡ ok (page, npt)
      → rows ≡ page
  unfolding next_page
  next_page-rows token rows page true h = ground arith
  next_page-rows token rows page false h = ground arith

  storage_pager-listed :
      (req : PageRequest) (list : ListCall A) (start size : ℤ) (rows : List A) (done : Bool)
      → storage_pager req list start size ≡ ok (rows, done)
      → list req.order_by req.asc start size ≡ ok rows
  unfolding storage_pager
  storage_pager-listed req list start size rows done h = ground arith

  -- Every page of PaginateStorage is what one call of the database's List returned.
  pub paginate_storage-listed :
      (req : PageRequest) (list : ListCall A) (opts : PaginationOpts) (page : List A) {npt : String}
      → paginate_storage w req list opts ≡ ok (page, npt)
      → (start : ℤ) × (list req.order_by req.asc start (effective_size req opts) ≡ ok page)
  unfolding paginate_storage paginate
  paginate_storage-listed req list opts page {npt} h =
      let size : ℤ = effective_size req opts in
      let (token, asked, h1) =
        >>=-ok (request_token w req size)
          (λ token. storage_pager req list token.start size >>= next_page w token)
          {answer = (page, npt)} h in
      let (answer, paged, h2) =
        >>=-ok (storage_pager req list token.start size) (next_page w token) {answer = (page, npt)}
          h1 in
      (
        token.start,
        storage_pager-listed req list token.start size answer.0 answer.1 paged
            ∙ ap ok (next_page-rows token answer.0 page answer.1 h2),
      )
