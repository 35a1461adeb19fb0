-- ===== src/Page/Tests.antt =====
-- Runs of pagination with a small codec, and the theorems at concrete inputs.
use Prim.Native.Char.{Char, code}
use clouditor.Prelude.{
  sym, length, ◌≤◌, ℕ, zero, suc, ◌+◌, String, ◌≡◌, ◌≢◌, refl, ap, ◌∙◌, Bool, true, some, List, [],
  ◌∷◌, arith, ◌==ℕ◌, if◌then◌else◌, take, drop,
}
use clouditor.Prelude.Int.{ℤ, pos, negsuc, pos_part, neg_part, sub_ℕ}
use clouditor.Status.{Result, ok, err, plain}
use clouditor.Page.Defs.{
  PageToken, PageRequest, Wire, ListCall, default_pagination_opts, paginate_storage, paginate,
  request_token, storage_pager, effective_size, next_page,
}
use clouditor.Page.Token.{Faithful}
use clouditor.Exec.Inversion.{ok-injective}
use clouditor.Page.Loop.{fetch_all}
use clouditor.Page.Size.{Positive}
use clouditor.Page.Database.{fetch_all-paginate_storage}
use clouditor.Page.Bounded.{Bounded, Limits, paginate_storage-Bounded}

abbrev letter_a : Char
letter_a = "a"

abbrev letter_b : Char
letter_b = "b"

-- A number n as n letters "a" and one other letter.
unary : ℕ → String → String
unary zero s = String.◌∷◌ letter_b s
unary (suc n) s = String.◌∷◌ letter_a (unary n s)

texts : List ℕ → String
unfolding unary
texts [] = ""
texts (n ∷ ns) = unary n (texts ns)

numbers : ℕ → String → List ℕ
numbers k String.[] = []
numbers k (String.◌∷◌ c s) = if code c ==ℕ 97 then numbers (k + 1) s else k ∷ numbers 0 s

numbers-unary : (k n : ℕ) (s : String) → numbers k (unary n s) ≡ (k + n) ∷ numbers 0 s
unfolding numbers unary
numbers-unary k zero s = ap (λ m. m ∷ numbers 0 s) (omega arith)
numbers-unary k (suc n) s = numbers-unary (k + 1) n s ∙ ap (λ m. m ∷ numbers 0 s) (omega arith)

numbers-texts : (ns : List ℕ) → numbers 0 (texts ns) ≡ ns
unfolding texts
numbers-texts [] = unfold numbers in refl
numbers-texts (n ∷ ns) =
    numbers-unary 0 n (texts ns)
    ∙ ap (λ m. m ∷ numbers 0 (texts ns)) (omega arith)
    ∙ ap (◌∷◌ n) (numbers-texts ns)

parsed : List ℕ → Result PageToken
parsed (a ∷ b ∷ c ∷ d ∷ []) = ok (record { start = sub_ℕ a b; size = sub_ℕ c d })
parsed _ = err (plain "bad message")

plain_wire : Wire
unfolding texts numbers parsed
plain_wire = record {
  marshal = λ t. ok (pos_part t.start ∷ neg_part t.start ∷ pos_part t.size ∷ neg_part t.size ∷ []);
  unmarshal = parsed;
  base64_encode = texts;
  base64_decode = λ s. ok (numbers 0 s);
}

sub_ℕ-parts : (z : ℤ) → sub_ℕ (pos_part z) (neg_part z) ≡ z
sub_ℕ-parts (pos n) = ground arith
sub_ℕ-parts (negsuc n) = ground arith

texts_ne : (ns : List ℕ) → ns ≢ [] → texts ns ≢ ""
unfolding texts unary
texts_ne [] h = absurd (h refl)
texts_ne (zero ∷ ns) h = λ e. cc
texts_ne (suc n ∷ ns) h = λ e. cc

plain_wire-Faithful : Faithful plain_wire
unfolding plain_wire
plain_wire-Faithful = record {
  message = λ start size. suc start ∷ 0 ∷ pos_part size ∷ neg_part size ∷ [];
  marshals = λ start size. refl;
  unmarshals = λ start size. rw (sub_ℕ-parts (pos (suc start)), sub_ℕ-parts size) refl;
  message_not_empty = λ start size e. cc;
  decodes = λ b. ap ok (numbers-texts b);
  text_not_empty = texts_ne;
}

default_pagination_opts-Positive : Positive default_pagination_opts
default_pagination_opts-Positive = record {
  default_size = 50;
  max_size = 1500;
  is_default = refl;
  is_max = refl;
  default_pos = omega arith;
  max_pos = omega arith;
}

abbrev request : ℤ → PageRequest
request n = record { page_token = ""; page_size = n; order_by = ""; asc = true }

abbrev rows : List ℕ
rows = 10 ∷ 20 ∷ 30 ∷ 40 ∷ 50 ∷ []

abbrev keep_order : (ℕ → ℕ → Bool) → List ℕ → List ℕ
keep_order less xs = xs

-- LIMIT and OFFSET, with no limit below zero.
table : ListCall ℕ
table order asc (pos start) (pos n) = ok (take n (drop start rows))
table order asc (pos start) (negsuc n) = ok (drop start rows)
table order asc (negsuc k) n = err (plain "bad offset")

fetch_all-paginate_storage_example :
    fetch_all (λ r. paginate_storage plain_wire r table default_pagination_opts) 6 (request (pos 2))
    ≡ some (ok rows)
unfolding table
fetch_all-paginate_storage_example =
    fetch_all-paginate_storage plain_wire plain_wire-Faithful rows table default_pagination_opts
      default_pagination_opts-Positive (request (pos 2)) 2 refl (omega arith) (λ start n. refl)

taken-le : (n : ℕ) (xs : List ℕ) → length (take n xs) ≤ n
taken-le zero xs = omega arith
taken-le (suc n) [] = omega arith
taken-le (suc n) (x ∷ xs) = omega (arith, taken-le n xs)

table-Limits : Limits table
unfolding table
table-Limits order asc (pos start) n page h =
    rw (sym (ok-injective h)) (taken-le n (drop start rows))
table-Limits order asc (negsuc k) n page h = absurd (cc)

paginate_storage-Bounded_example : Bounded 7 50 1500 rows
unfolding table paginate_storage paginate request_token storage_pager effective_size next_page
    default_pagination_opts-Positive
paginate_storage-Bounded_example =
    paginate_storage-Bounded plain_wire table default_pagination_opts
      default_pagination_opts-Positive (request (pos 7)) 7 rows "" refl table-Limits refl
