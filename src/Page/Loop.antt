-- ===== src/Page/Loop.antt =====
-- ListAllPaginated follows the page tokens to the end of the rows.
use Prim.Native.Nat.{◌^◌}
use mathlib.Core.List.{append_assoc}
use clouditor.Prelude.{
  ℕ, zero, suc, ◌+◌, ◌-◌, ◌≤◌, ◌<◌, String, ◌≡◌, refl, sym, ap, ◌∙◌, inl, inr, true, false, Option,
  some, List, ◌++◌, arith, ◌==◌, length, take, drop, take_all, take-append-drop, length-drop,
  drop-drop,
}
use clouditor.Prelude.Int.{pos}
use clouditor.Status.{Result, ok}
use clouditor.Page.Defs.{
  PageRequest, PaginationOpts, Wire, Pager, paginate, effective_size, set_page_token, list_pages,
  list_all_paginated,
}
use clouditor.Page.Token.{Faithful, TokenAt}
use clouditor.Page.Serve.{Serves, paginate-Served}

-- The client's view of a paginated call: it reads the rows and the next token of each response.
abbrev pub fetch_from {ℓ} :
    {A : Type ℓ}
    → (PageRequest → Result (List A × String))
    → ℕ
    → PageRequest
    → String
    → List A
    → Option (Result (List A))
fetch_from list = list_pages set_page_token list (λ r. r.0) (λ r. r.1)

abbrev pub fetch_all {ℓ} :
    {A : Type ℓ}
    → (PageRequest → Result (List A × String))
    → ℕ
    → PageRequest
    → Option (Result (List A))
fetch_all list = list_all_paginated set_page_token list (λ r. r.0) (λ r. r.1)

module _ {ℓ} {A : Type ℓ} (list : PageRequest → Result (List A × String)) (fuel : ℕ)
    (req : PageRequest) (token npt : String) (page acc : List A)
    (listed : list (set_page_token token req) ≡ ok (page, npt)) where
  fetch_from-stop :
      (npt == "") ≡ true → fetch_from list (suc fuel) req token acc ≡ some (ok (acc ++ page))
  unfolding list_pages
  fetch_from-stop stop = rw (listed, list_pages) (rw (stop, list_pages) refl)

  fetch_from-more :
      (npt == "") ≡ false
      → fetch_from list (suc fuel) req token acc
        ≡ fetch_from list fuel (set_page_token token req) npt (acc ++ page)
  unfolding list_pages
  fetch_from-more more = rw (listed, list_pages) (rw (more, list_pages) refl)

module _ {ℓ} {A : Type ℓ} (w : Wire) (f : Faithful w) (rows : List A) (small : length rows < 2 ^ 63)
    (n : ℕ) (some_size : 0 < n) (opts : PaginationOpts) (pager : PageRequest → Pager A) where
  take-rest : (start : ℕ) → length rows ≤ start + n → take n (drop start rows) ≡ drop start rows
  take-rest start past = take_all n (drop start rows) (omega (arith, length-drop start rows))

  take-drop :
      (start : ℕ) (acc : List A)
      → (acc ++ take n (drop start rows)) ++ drop (start + n) rows ≡ acc ++ drop start rows
  take-drop start acc =
      append_assoc acc (take n (drop start rows)) (drop (start + n) rows)
      ∙ ap (◌++◌ acc) (
          ap (◌++◌ (take n (drop start rows))) (sym (drop-drop n start rows))
          ∙ take-append-drop n (drop start rows))

  pub fetch_from-drop :
      (fuel : ℕ) (req : PageRequest) (start : ℕ) (token : String) (acc : List A)
      → ((t : String) → effective_size (set_page_token t req) opts ≡ pos n)
      → ((t : String) → Serves rows (pager (set_page_token t req)) n)
      → start ≤ length rows
      → length rows - start < fuel
      → TokenAt w start token
      → fetch_from (λ r. paginate w r opts (pager r)) fuel req token acc
        ≡ some (ok (acc ++ drop start rows))
  fetch_from-drop zero req start token acc sized serves fits enough at = absurd (omega arith)
  fetch_from-drop (suc fuel) req start token acc sized serves fits enough at =
      let (npt, page, next) =
        paginate-Served w f rows small n some_size (pager (set_page_token token req)) (serves token)
          (set_page_token token req) opts (sized token) start fits at in
      elim next [
        | inl (stop, past) ↦
            fetch_from-stop _ fuel req token npt _ acc page stop
            ∙ ap (λ xs. some (ok (acc ++ xs))) (take-rest start past)
        | inr (more, at', fits') ↦
            fetch_from-more _ fuel req token npt _ acc page more
            ∙ fetch_from-drop fuel (set_page_token token req) (start + n) npt
                (acc ++ take n (drop start rows)) sized serves fits' (omega arith) at'
            ∙ ap (λ xs. some (ok xs)) (take-drop start acc)
      ]
