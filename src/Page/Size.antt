-- ===== src/Page/Size.antt =====
-- The page size that `paginate` settles on.
use Prim.Native.Nat.{max}
use clouditor.Prelude.{ℕ, ◌≤◌, ◌<◌, ◌≡◌, arith, if◌then◌else◌, ltb, ◌==ℕ◌}
use clouditor.Prelude.Int.{pos, negsuc}
use clouditor.Page.Defs.{PageRequest, PaginationOpts, effective_size}

-- The options as the services give them: both sizes are positive.
pub record Positive (opts : PaginationOpts) : Type 0 where
  pub default_size : ℕ
  pub max_size : ℕ
  pub is_default : opts.default_page_size ≡ pos default_size
  pub is_max : opts.max_page_size ≡ pos max_size
  pub default_pos : 0 < default_size
  pub max_pos : 0 < max_size

-- The size in use for a request that asks for `asked` rows.
abbrev pub settled : {opts : PaginationOpts} → Positive opts → ℕ → ℕ
settled p asked =
    if asked ==ℕ 0 then p.default_size else if ltb p.max_size asked then p.max_size else asked

pub settled_pos : {opts : PaginationOpts} (p : Positive opts) (asked : ℕ) → 0 < settled p asked
settled_pos p asked = ground arith

pub settled-le :
    {opts : PaginationOpts} (p : Positive opts) (asked : ℕ)
    → settled p asked ≤ max p.default_size p.max_size
settled-le p asked = ground arith

pub effective_size-pos :
    (opts : PaginationOpts) (p : Positive opts) (req : PageRequest) (asked : ℕ)
    → req.page_size ≡ pos asked
    → effective_size req opts ≡ pos (settled p asked)
unfolding effective_size
effective_size-pos opts p req asked e = rw (e, p.is_default, p.is_max) (ground arith)

pub effective_size-neg :
    (opts : PaginationOpts) (p : Positive opts) (req : PageRequest) (n : ℕ)
    → req.page_size ≡ negsuc n
    → effective_size req opts ≡ negsuc n
unfolding effective_size
effective_size-neg opts p req n e = rw (e, p.is_max) (ground arith)
