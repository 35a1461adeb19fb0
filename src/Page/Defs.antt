-- ===== src/Page/Defs.antt =====
-- Page tokens and pages: api/pagination.go (PageToken.Encode, DecodePageToken, ListAllPaginated) and
-- service/paginate.go (PaginationOpts, PaginateSlice, PaginateStorage, paginate).
-- protobuf's and base64's codecs are the parameter `Wire`; sort.Slice and the database's List are
-- arguments.
use Prim.Native.Nat.{◌^◌}
use clouditor.Prelude.{
  ℕ, zero, suc, ◌-◌, String, Bool, true, false, ◌||◌, ◌&&◌, not, Option, none, some, List, [], ◌++◌,
  ◌==◌, if◌then◌else◌, length, take, drop, leb, ◌==ℕ◌,
}
use clouditor.Prelude.Int.{ℤ, pos, negsuc, ◌+ℤ◌, ltb_ℤ}
use clouditor.Status.{Result, ok, err, panic, wrapped, ◌>>=◌, on_error}

-- The message PageToken of api/page_token.proto: an int64 and an int32.
pub record PageToken : Type 0 where
  pub start : ℤ
  pub size : ℤ

pub record PaginationOpts : Type 0 where
  pub default_page_size : ℤ
  pub max_page_size : ℤ

-- The getters of a PaginatedRequest.
pub record PageRequest : Type 0 where
  pub page_token : String
  pub page_size : ℤ
  pub order_by : String
  pub asc : Bool

-- The reflective write to the field page_token.
abbrev pub set_page_token : String → PageRequest → PageRequest
set_page_token text req = record req { page_token = text }

-- proto.Marshal, proto.Unmarshal, base64.URLEncoding.
pub record Wire : Type 0 where
  pub marshal : PageToken → Result (List ℕ)
  pub unmarshal : List ℕ → Result PageToken
  pub base64_encode : List ℕ → String
  pub base64_decode : String → Result (List ℕ)

abbrev pub default_pagination_opts : PaginationOpts
default_pagination_opts = record { default_page_size = pos 50; max_page_size = pos 1500 }

-- int64 addition, which wraps.
unfoldable pub wrap_int64 : ℤ → ℤ
wrap_int64 z =
    if ltb_ℤ (pos (2 ^ 63 - 1)) z
    then z +ℤ negsuc (2 ^ 64 - 1)
    else if ltb_ℤ z (negsuc (2 ^ 63 - 1))
    then z +ℤ pos (2 ^ 64)
    else z

unfoldable pub add_int64 : ℤ → ℤ → ℤ
unfolding wrap_int64
add_int64 a b = wrap_int64 (a +ℤ b)

-- `values[lo:hi]`
unfoldable pub slice {ℓ} : {A : Type ℓ} → List A → ℤ → ℤ → Result (List A)
slice xs (negsuc a) hi = panic
slice xs (pos a) (negsuc b) = panic
slice xs (pos a) (pos b) =
    if leb a b && leb b (length xs) then ok (take (b - a) (drop a xs)) else panic

unfoldable pub encode : Wire → PageToken → Result String
encode w t =
    on_error (w.marshal t) (λ e. err (wrapped "error while marshaling protobuf message" e)) >>= λ b.
    ok (w.base64_encode b)

unfoldable pub decode_page_token : Wire → String → Result PageToken
decode_page_token w b64token =
    on_error (w.base64_decode b64token) (λ e. err (wrapped "error while decoding base64 token" e))
    >>= λ b.
        on_error (w.unmarshal b) (λ e. err (wrapped "error while unmarshalling protobuf message" e))

abbrev pub is_zero : ℤ → Bool
is_zero (pos n) = n ==ℕ 0
is_zero (negsuc n) = false

-- The size that `paginate` asks its pager for.
unfoldable pub effective_size : PageRequest → PaginationOpts → ℤ
effective_size req opts =
    if is_zero req.page_size
    then opts.default_page_size
    else if ltb_ℤ opts.max_page_size req.page_size
    then opts.max_page_size
    else req.page_size

-- The token that `paginate` starts from.
unfoldable pub request_token : Wire → PageRequest → ℤ → Result PageToken
request_token w req size =
    if req.page_token == ""
    then ok (record { start = pos 0; size = size })
    else on_error (decode_page_token w req.page_token)
        (λ e. err (wrapped "could not decode page token" e))

-- A page and whether it is the last one.
abbrev pub Pager {ℓ} : Type ℓ → Type ℓ
Pager A = ℤ → ℤ → Result (List A × Bool)

-- storage.List for a type and its conditions: order, direction, offset and limit.
abbrev pub ListCall {ℓ} : Type ℓ → Type ℓ
ListCall A = String → Bool → ℤ → ℤ → Result (List A)

module _ {ℓ} {A : Type ℓ} where
  -- A page and the token of the next one; "" after the last.
  unfoldable pub next_page : Wire → PageToken → List A × Bool → Result (List A × String)
  next_page w token (page, true) = ok (page, "")
  next_page w token (page, false) =
      on_error (encode w (record token { start = add_int64 token.start (pos (length page)) }))
        (λ e. err (wrapped "could not create page token" e))
      >>= λ npt. ok (page, npt)

  unfoldable pub paginate : Wire → PageRequest → PaginationOpts → Pager A → Result (List A × String)
  paginate w req opts pager = request_token w req (effective_size req opts) >>= λ token.
      pager token.start (effective_size req opts) >>= next_page w token

  unfoldable pub slice_pager : List A → Pager A
  slice_pager values start size =
      let end = add_int64 start size in
      let done = not (ltb_ℤ end (pos (length values))) in
      slice values start (if done then pos (length values) else end) >>= λ page. ok (page, done)

  -- `sort` is sort.Slice, which reorders the slice in place.
  unfoldable pub paginate_slice :
      Wire
      → ((A → A → Bool) → List A → List A)
      → PageRequest
      → List A
      → (A → A → Bool)
      → PaginationOpts
      → Result (List A × String)
  paginate_slice w sort req values less opts = paginate w req opts (slice_pager (sort less values))

  unfoldable pub storage_pager : PageRequest → ListCall A → Pager A
  storage_pager req list start size =
      on_error (list req.order_by req.asc start size) (λ e. err (wrapped "database error" e))
      >>= λ page. ok (page, length page ==ℕ 0 || ltb_ℤ (pos (length page)) size)

  unfoldable pub paginate_storage :
      Wire → PageRequest → ListCall A → PaginationOpts → Result (List A × String)
  paginate_storage w req list opts = paginate w req opts (storage_pager req list)

-- The loop of ListAllPaginated; `none` means that the fuel ran out.
module _ {ℓ κ ι} {Req : Type ℓ} {Res : Type κ} {A : Type ι} where
  module _ (set_token : String → Req → Req) (list : Req → Result Res) (getter : Res → List A)
      (next_page_token : Res → String) where
    unfoldable pub list_pages : ℕ → Req → String → List A → Option (Result (List A))
    list_pages zero req token results = none
    list_pages (suc fuel) req token results = elim (list (set_token token req)) [
      | ok res ↦ elim (next_page_token res == "") [
        | true ↦ some (ok (results ++ getter res))
        | false ↦
            list_pages fuel (set_token token req) (next_page_token res) (results ++ getter res)
      ]
      | err e ↦ some (err e)
      | panic ↦ some panic
    ]

    unfoldable pub list_all_paginated : ℕ → Req → Option (Result (List A))
    unfolding list_pages
    list_all_paginated fuel req = list_pages fuel req "" []
