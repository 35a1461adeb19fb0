-- ===== src/Page/Slice.antt =====
-- PaginateSlice: all its pages together, and the requests on which it panics.
use Prim.Native.Nat.{◌^◌}
use clouditor.Prelude.{
  ℕ, suc, ◌+◌, ◌-◌, ◌≤◌, ◌<◌, ◌≡◌, refl, sym, ap, le→leb, ◌∙◌, inl, inr, Bool, true, false,
  Bool-cases, some, List, [], arith, length, take, drop, take_all, length-drop, ltb,
}
use clouditor.Prelude.Int.{pos, negsuc, ltb_ℤ, lt→ltb_ℤ, le→ltb_ℤ, ◌+ℤ◌}
use clouditor.Status.{ok, panic}
use clouditor.Page.Defs.{
  PageRequest, PaginationOpts, Wire, paginate, paginate_slice, slice_pager, slice, add_int64,
  wrap_int64, set_page_token, request_token, list_all_paginated,
}
use clouditor.Page.Token.{Faithful}
use clouditor.Page.Serve.{Serves, add_int64-pos}
use clouditor.Page.Loop.{fetch_all, fetch_from-drop}
use clouditor.Page.Size.{Positive, settled, settled_pos, effective_size-pos, effective_size-neg}

add_int64-negsuc : (n : ℕ) → n < 2 ^ 31 → add_int64 (pos 0) (negsuc n) ≡ negsuc n
unfolding add_int64 wrap_int64 ◌+ℤ◌
add_int64-negsuc n h = ground arith

negsuc_before : (n k : ℕ) → ltb_ℤ (negsuc n) (pos k) ≡ true
negsuc_before n k = ground arith

module _ {ℓ} {A : Type ℓ} where
  take_tail :
      (rows : List A) (start n : ℕ)
      → length rows ≤ start + n
      → take (length rows - start) (drop start rows) ≡ take n (drop start rows)
  take_tail rows start n h =
      take_all (length rows - start) (drop start rows) (omega (arith, length-drop start rows))
      ∙ sym (take_all n (drop start rows) (omega (arith, length-drop start rows)))

  slice-pos :
      (xs : List A) (a b : ℕ)
      → a ≤ b
      → b ≤ length xs
      → slice xs (pos a) (pos b) ≡ ok (take (b - a) (drop a xs))
  unfolding slice
  slice-pos xs a b h k = rw (le→leb a b h, le→leb b (length xs) k)

  slice_pager-Serves :
      (rows : List A) (n : ℕ) → length rows + n < 2 ^ 63 → Serves rows (slice_pager rows) n
  unfolding slice_pager
  slice_pager-Serves rows n small start fits = elim (Bool-cases (ltb (start + n) (length rows))) [
    | inl before ↦ record {
      done = false;
      page =
          rw
            (
              add_int64-pos start n (omega arith),
              lt→ltb_ℤ (start + n) (length rows) (ground arith),
              slice-pos rows start (start + n) (omega arith) (ground arith),
            )
            (ap (λ k. ok (take k (drop start rows), false)) (omega arith));
      last = λ e. cc;
      full = λ _. ground arith;
    }
    | inr past ↦
        let ends : length rows ≤ start + n = ground arith in
        record {
          done = true;
          page =
              rw
                (
                  add_int64-pos start n (omega arith),
                  le→ltb_ℤ (start + n) (length rows) ends,
                  slice-pos rows start (length rows) fits (omega arith),
                )
                (ap (λ xs. ok (xs, true)) (take_tail rows start n ends));
          last = λ _. ends;
          full = λ e. cc;
        }
  ]

  -- Fetching every page of a slice gives the sorted slice, row for row, with fuel for one call more
  -- than there are rows, when the request's size and both options are not negative, both options
  -- are positive and the offsets stay below 2^63.
  pub fetch_all-paginate_slice :
      (w : Wire) (f : Faithful w) (sort : (A → A → Bool) → List A → List A) (less : A → A → Bool)
      (values : List A) (opts : PaginationOpts) (p : Positive opts) (req : PageRequest) (asked : ℕ)
      → req.page_size ≡ pos asked
      → length (sort less values) + settled p asked < 2 ^ 63
      → fetch_all
          (λ r. paginate_slice w sort r values less opts)
          (suc (length (sort less values)))
          req
        ≡ some (ok (sort less values))
  unfolding paginate_slice list_all_paginated
  fetch_all-paginate_slice w f sort less values opts p req asked sized small =
      fetch_from-drop w f (sort less values) (omega arith) (settled p asked) (settled_pos p asked)
        opts (λ _. slice_pager (sort less values)) (suc (length (sort less values))) req 0 "" []
        (λ t. effective_size-pos opts p (set_page_token t req) asked sized)
        (λ _. slice_pager-Serves (sort less values) (settled p asked) small) (omega arith)
        (omega arith) (inl (refl, refl))

  -- A first request with a negative page size, an int32, makes PaginateSlice panic on every slice:
  -- the size is not clamped from below, and the slice expression has a negative end.
  pub paginate_slice-panic :
      (w : Wire) (sort : (A → A → Bool) → List A → List A) (less : A → A → Bool) (values : List A)
      (opts : PaginationOpts) (p : Positive opts) (req : PageRequest) (n : ℕ)
      → req.page_size ≡ negsuc n
      → n < 2 ^ 31
      → req.page_token ≡ ""
      → paginate_slice w sort req values less opts ≡ panic
  unfolding paginate_slice paginate slice_pager request_token slice
  paginate_slice-panic w sort less values opts p req n sized int32 first = rw (
    effective_size-neg opts p req n sized,
    first,
    add_int64-negsuc n int32,
    negsuc_before n (length (sort less values)),
  )
