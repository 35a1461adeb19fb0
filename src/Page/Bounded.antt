-- ===== src/Page/Bounded.antt =====
-- How many rows a page of PaginateStorage has at most.
use clouditor.Prelude.{ℕ, ◌≤◌, ◌<◌, String, ◌≡◌, Bool, List, length, arith}
use clouditor.Prelude.Int.{ℤ, pos}
use clouditor.Status.{ok}
use clouditor.Page.Defs.{PageRequest, PaginationOpts, Wire, ListCall, paginate_storage}
use clouditor.Page.Size.{Positive, settled, effective_size-pos}
use clouditor.Page.Source.{paginate_storage-listed}

-- A database that gives no more rows than the limit that it is asked with, if that is not negative.
abbrev pub Limits {ℓ} : {A : Type ℓ} → ListCall A → Type ℓ
Limits {A} list =
    (order : String) (asc : Bool) (start : ℤ) (n : ℕ) (rows : List A)
    → list order asc start (pos n) ≡ ok rows
    → length rows ≤ n

-- The bounds of a page, for the size that a request asks for and the options' sizes.
pub record Bounded {ℓ} {A : Type ℓ} (asked default_size max_size : ℕ) (page : List A) : Type ℓ where
  pub without_size : asked ≡ 0 → length page ≤ default_size
  pub as_asked : 0 < asked → length page ≤ asked
  pub at_most_max : 0 < asked → length page ≤ max_size

settled-Bounded {ℓ} :
    {A : Type ℓ} {opts : PaginationOpts} (p : Positive opts) (asked : ℕ) (page : List A)
    → length page ≤ settled p asked
    → Bounded asked p.default_size p.max_size page
settled-Bounded p asked page h = record {
  without_size = λ e. ground arith;
  as_asked = λ e. ground arith;
  at_most_max = λ e. ground arith;
}

-- Whatever its token is, a request whose size is not negative gets a page of at most the default size,
-- if it asks for none, and else of at most the size that it asks for and of at most the largest size,
-- if both sizes of the options are positive and the database keeps to the limit it is asked with.
pub paginate_storage-Bounded {ℓ} :
    {A : Type ℓ} (w : Wire) (list : ListCall A) (opts : PaginationOpts) (p : Positive opts)
    (req : PageRequest) (asked : ℕ) (page : List A) (npt : String)
    → req.page_size ≡ pos asked
    → Limits list
    → paginate_storage w req list opts ≡ ok (page, npt)
    → Bounded asked p.default_size p.max_size page
paginate_storage-Bounded w list opts p req asked page npt sized limits h =
    let (start, from) = paginate_storage-listed w req list opts page {npt = npt} h in
    settled-Bounded p asked page (
      limits req.order_by req.asc start (settled p asked) page
        (rw (effective_size-pos opts p req asked sized) at from))
