-- ===== src/Page/Database.antt =====
-- PaginateStorage over a database that answers by offset and limit.
use Prim.Native.Nat.{◌^◌}
use clouditor.Prelude.{
  ℕ, zero, suc, ◌+◌, ◌≤◌, ◌<◌, ◌≡◌, refl, inl, inr, Bool, true, false, Bool-cases, ◌||◌, some, List,
  [], ◌∷◌, arith, length, take, drop, length-drop, length-take, ltb, ◌==ℕ◌,
}
use clouditor.Prelude.Int.{pos, ltb_ℤ}
use clouditor.Status.{ok}
use clouditor.Page.Defs.{
  PageRequest, PaginationOpts, Wire, ListCall, paginate_storage, storage_pager, set_page_token,
  list_all_paginated,
}
use clouditor.Page.Token.{Faithful}
use clouditor.Page.Serve.{Serves}
use clouditor.Page.Loop.{fetch_all, fetch_from-drop}
use clouditor.Page.Size.{Positive, settled, settled_pos, effective_size-pos}

-- For this request's order the database holds `rows`, and a call gives what LIMIT and OFFSET say.
abbrev pub Holds {ℓ} : {A : Type ℓ} → List A → PageRequest → ListCall A → Type ℓ
Holds rows req list =
    (start n : ℕ) → list req.order_by req.asc (pos start) (pos n) ≡ ok (take n (drop start rows))

-- The test of the pager for the last page.
is_last : (k n : ℕ) → Bool
is_last k n = k ==ℕ 0 || ltb_ℤ (pos k) (pos n)

is_last-lt : (k n : ℕ) → 0 < n → is_last k n ≡ true → k < n
unfolding is_last
is_last-lt k n h e = ground arith

not_last-le : (k n : ℕ) → is_last k n ≡ false → n ≤ k
unfolding is_last
not_last-le k n e = ground arith

module _ {ℓ} {A : Type ℓ} where
  length-page :
      (rows : List A) (start n : ℕ)
      → length (take n (drop start rows)) < n
      → length rows ≤ start + n
  length-page rows start n short = elim (Bool-cases (ltb (start + n) (length rows))) [
    | inl before ↦ absurd (
        omega (
          arith,
          length-take n (drop start rows) (
              let b : start + n < length rows = ground arith in
              omega (arith, length-drop start rows)),
        ))
    | inr past ↦ ground arith
  ]

  length-take-le : (n : ℕ) (xs : List A) → length (take n xs) ≤ length xs
  length-take-le zero xs = omega arith
  length-take-le (suc n) [] = omega arith
  length-take-le (suc n) (x ∷ xs) = omega (arith, length-take-le n xs)

  storage_pager-Serves :
      (rows : List A) (req : PageRequest) (list : ListCall A) (n : ℕ)
      → 0 < n
      → Holds rows req list
      → Serves rows (storage_pager req list) n
  unfolding storage_pager is_last
  storage_pager-Serves rows req list n some_size holds start fits = record {
    done = is_last (length (take n (drop start rows))) n;
    page = rw (holds start n) refl;
    last = λ e. length-page rows start n (is_last-lt _ n some_size e);
    full = λ e. omega (
      arith,
      not_last-le (length (take n (drop start rows))) n e,
      length-take-le n (drop start rows),
      length-drop start rows,
    );
  }

  -- Fetching every page from a database that holds `rows`, and that answers by offset and limit,
  -- gives `rows`, each once and in order, with fuel for one call more than there are rows, when the
  -- request's size is not negative, both options are positive and the rows are fewer than 2^63.
  pub fetch_all-paginate_storage :
      (w : Wire) (f : Faithful w) (rows : List A) (list : ListCall A) (opts : PaginationOpts)
      (p : Positive opts) (req : PageRequest) (asked : ℕ)
      → req.page_size ≡ pos asked
      → length rows < 2 ^ 63
      → Holds rows req list
      → fetch_all (λ r. paginate_storage w r list opts) (suc (length rows)) req ≡ some (ok rows)
  unfolding paginate_storage list_all_paginated
  fetch_all-paginate_storage w f rows list opts p req asked sized small holds =
      fetch_from-drop w f rows small (settled p asked) (settled_pos p asked) opts
        (λ r. storage_pager r list) (suc (length rows)) req 0 "" []
        (λ t. effective_size-pos opts p (set_page_token t req) asked sized)
        (λ t.
          storage_pager-Serves rows (set_page_token t req) list (settled p asked)
            (settled_pos p asked) holds)
        (omega arith) (omega arith) (inl (refl, refl))
