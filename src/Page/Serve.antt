-- ===== src/Page/Serve.antt =====
-- Following the page tokens through a fixed list of rows, for any pager that serves the rows.
use Prim.Native.Nat.{◌^◌}
use clouditor.Prelude.{
  ℕ, suc, ◌+◌, ◌-◌, ◌≤◌, ◌<◌, String, ◌≡◌, refl, ap, ◌∙◌, ◌⊎◌, inl, inr, Bool, true, false, List,
  arith, ◌==◌, str_eq_refl, length, take, drop, length-take, length-drop,
}
use clouditor.Prelude.Int.{ℤ, pos, ◌+ℤ◌}
use clouditor.Status.{Result, ok}
use clouditor.Page.Defs.{
  PageRequest, PaginationOpts, Wire, Pager, add_int64, wrap_int64, next_page, paginate,
  request_token, effective_size,
}
use clouditor.Page.Token.{
  Faithful, TokenAt, token_text, encode-token, decode-token_text, token_text_ne,
}

pub add_int64-pos : (a b : ℕ) → a + b < 2 ^ 63 → add_int64 (pos a) (pos b) ≡ pos (a + b)
unfolding add_int64 wrap_int64 ◌+ℤ◌
add_int64-pos a b h = ground arith

-- What a pager answers at an offset within the rows, for pages of `n`.
pub record Answer {ℓ} {A : Type ℓ} (rows : List A) (pager : Pager A) (n start : ℕ) : Type ℓ where
  pub done : Bool
  pub page : pager (pos start) (pos n) ≡ ok (take n (drop start rows), done)
  pub last : done ≡ true → length rows ≤ start + n
  pub full : done ≡ false → start + n ≤ length rows

abbrev pub Serves {ℓ} : {A : Type ℓ} → List A → Pager A → ℕ → Type ℓ
Serves rows pager n = (start : ℕ) → start ≤ length rows → Answer rows pager n start

-- Where a client stands after a page.
abbrev pub Next {ℓ} : {A : Type ℓ} → Wire → List A → ℕ → String → Type 0
Next w rows past npt =
    ((npt == "") ≡ true) × (length rows ≤ past)
    ⊎ ((npt == "") ≡ false) × TokenAt w past npt × (past ≤ length rows)

module _ {ℓ} {A : Type ℓ} (w : Wire) (f : Faithful w) (rows : List A) (small : length rows < 2 ^ 63)
    (n : ℕ) (some_size : 0 < n) where
  -- The page that begins at `start`, and the token that comes with it.
  abbrev pub Served : ℕ → Result (List A × String) → Type ℓ
  Served start r =
      (npt : String) × (r ≡ ok (take n (drop start rows), npt)) × Next w rows (start + n) npt

  next_page-Served :
      (start : ℕ) (size : ℤ) (done : Bool)
      → (done ≡ true → length rows ≤ start + n)
      → (done ≡ false → start + n ≤ length rows)
      → Served start
          (next_page w (record { start = pos start; size = size }) (take n (drop start rows), done))
  unfolding next_page
  next_page-Served start size true last full = ("", refl, inl (str_eq_refl "", last refl))
  next_page-Served start size false last full =
      let fits = full refl in
      let len : length (take n (drop start rows)) ≡ n =
        length-take n (drop start rows) (omega (arith, length-drop start rows)) in
      let moved : add_int64 (pos start) (pos (length (take n (drop start rows))))
          ≡ pos (suc (start + n - 1)) =
        rw len (add_int64-pos start n (omega arith) ∙ ap pos (omega arith)) in
      (
        token_text w f (start + n - 1) size,
        rw (moved, encode-token w f (start + n - 1) size),
        inr (
          token_text_ne w f (start + n - 1) size,
          inr (
            size,
            token_text_ne w f (start + n - 1) size,
            decode-token_text w f (start + n - 1) size
                ∙ ap (λ k. ok (record { start = pos k; size = size })) (omega arith),
          ),
          fits,
        ),
      )

  module _ (pager : Pager A) (serves : Serves rows pager n) (req : PageRequest)
      (opts : PaginationOpts) (sized : effective_size req opts ≡ pos n) where
    request_token-TokenAt :
        (start : ℕ)
        → TokenAt w start req.page_token
        → (size : ℤ) × (request_token w req (pos n)
            ≡ ok (record { start = pos start; size = size }))
    unfolding request_token
    request_token-TokenAt start (inl (empty, zeroth)) = (pos n, rw (empty, zeroth) refl)
    request_token-TokenAt start (inr (size, more, decoded)) = (size, rw (more, decoded))

    -- A request whose token stands at `start` is answered with the page from there on.
    pub paginate-Served :
        (start : ℕ)
        → start ≤ length rows
        → TokenAt w start req.page_token
        → Served start (paginate w req opts pager)
    unfolding paginate
    paginate-Served start fits at =
        let (size, token) = request_token-TokenAt start at in
        let a = serves start fits in
        rw (sized, token, a.page) (next_page-Served start size a.done a.last a.full)
