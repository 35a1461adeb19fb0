-- ===== src/Server/Rest/Origins.antt =====
-- Which origins handleCORS of server/rest/rest.go lets read a response.
use clouditor.Prelude.{
  String, ◌≡◌, ◌≢◌, ◌↔◌, inl, inr, sym, ap, refl, ◌∙◌, true, false, List, [], ◌∷◌, contains, ◌==◌,
  str_eq→eq, str_eq_refl, Bool-cases,
}
use clouditor.Policies.Names.{join}
use clouditor.Server.Rest.{
  Field, Request, ResponseWriter, CorsConfig, value_of, add_field, set_field, origin_allowed,
  is_preflight, allow_origin, answer_preflight, handle_cors,
}

-- An element of a list.
pub data Listed (a : String) : List String → Type 0 where
  here : {x : String} {rest : List String} → x ≡ a → Listed a (x ∷ rest)
  there : {x : String} {rest : List String} → Listed a rest → Listed a (x ∷ rest)

contains→Listed : (xs : List String) (a : String) → contains xs a ≡ true → Listed a xs
contains→Listed [] a h = absurd (cc)
contains→Listed (x ∷ xs) a h = elim (Bool-cases (x == a)) [
  | inl e ↦ here (str_eq→eq x a e)
  | inr e ↦ there (contains→Listed xs a (rw e at h))
]

Listed→contains : (xs : List String) (a : String) → Listed a xs → contains xs a ≡ true
Listed→contains [] a h = elim h [ ]
Listed→contains (x ∷ xs) a (here e) = rw e (rw (str_eq_refl a))
Listed→contains (x ∷ xs) a (there h) = elim (Bool-cases (x == a)) [
  | inl e ↦ rw e
  | inr e ↦ rw e (Listed→contains xs a h)
]

value_of-add_field :
    (n m v : String) (fs : List Field)
    → (m == n) ≡ false
    → value_of n (add_field m v fs) ≡ value_of n fs
unfolding value_of add_field
value_of-add_field n m v [] h = rw h
value_of-add_field n m v (f ∷ fs) h = rw (value_of-add_field n m v fs h)

value_of-set_field : (n v : String) (fs : List Field) → value_of n (set_field n v fs) ≡ v
unfolding value_of set_field add_field
value_of-set_field n v [] = rw (str_eq_refl n)
value_of-set_field n v (f ∷ fs) = elim (Bool-cases (f.name == n)) [
  | inl e ↦ rw e (value_of-set_field n v fs)
  | inr e ↦ rw e (rw e (value_of-set_field n v fs))
]

value_of-set_other :
    (n m v : String) (fs : List Field)
    → (m == n) ≡ false
    → value_of n (set_field m v fs) ≡ value_of n fs
unfolding value_of set_field add_field
value_of-set_other n m v [] h = rw h
value_of-set_other n m v (f ∷ fs) h = elim (Bool-cases (f.name == m)) [
  | inl e ↦ rw e (rw (ap (λ x. x == n) (str_eq→eq f.name m e) ∙ h) (value_of-set_other n m v fs h))
  | inr e ↦ rw e (rw (value_of-set_other n m v fs h))
]

is_named→neq : (origin : String) → (origin == "") ≡ false → origin ≢ ""
is_named→neq origin named e = absurd (cc (named, ap (λ o. o == "") e))

origin_allowed-contains :
    (cors : CorsConfig) (origin : String)
    → (origin == "") ≡ false
    → origin_allowed cors origin ≡ contains cors.allowed_origins origin
unfolding origin_allowed
origin_allowed-contains cors origin named = rw named

abbrev allow_origin_name : String
allow_origin_name = "Access-Control-Allow-Origin"

module _ {B : Type 0} where
  abbrev pub origin_of : ResponseWriter B → String
  origin_of w = value_of allow_origin_name w.header

  origin_of-allow_origin :
      (origin : String) (w : ResponseWriter B) → origin_of (allow_origin origin w) ≡ origin
  unfolding allow_origin
  origin_of-allow_origin origin w =
      value_of-add_field allow_origin_name "Vary" "Origin"
        (set_field allow_origin_name origin w.header) refl
      ∙ value_of-set_field allow_origin_name origin w.header

  origin_of-answer_preflight :
      (cors : CorsConfig) (w : ResponseWriter B) → origin_of (answer_preflight cors w) ≡ origin_of w
  unfolding answer_preflight
  origin_of-answer_preflight cors w =
      value_of-set_other allow_origin_name "Access-Control-Allow-Methods"
        (join cors.allowed_methods ",")
        (set_field "Access-Control-Allow-Headers" (join cors.allowed_headers ",") w.header) refl
      ∙ value_of-set_other allow_origin_name "Access-Control-Allow-Headers"
          (join cors.allowed_headers ",") w.header refl

  module _ (cors : CorsConfig) (h : Request → ResponseWriter B → ResponseWriter B) (r : Request)
      (w : ResponseWriter B)
      (keeps : (w : ResponseWriter B) → origin_of (h r w) ≡ origin_of w) where
    abbrev origin : String
    origin = value_of "Origin" r.header

    origin_of-allowed :
        origin_allowed cors origin ≡ true → origin_of (handle_cors cors h r w) ≡ origin
    unfolding handle_cors
    origin_of-allowed e = elim (Bool-cases (is_preflight r)) [
      | inl p ↦ rw e (
          rw p (
            origin_of-answer_preflight cors (allow_origin origin w)
            ∙ origin_of-allow_origin origin w))
      | inr p ↦ rw e (rw p (keeps (allow_origin origin w) ∙ origin_of-allow_origin origin w))
    ]

    origin_of-denied :
        origin_allowed cors origin ≡ false → origin_of (handle_cors cors h r w) ≡ origin_of w
    unfolding handle_cors
    origin_of-denied e = rw e (keeps w)

    -- If the handler behind leaves it as it is and it is not set before, the header that lets a page
    -- read the response has the origin of a request that names one exactly if the origin is configured.
    pub handle_cors-Listed :
        origin_of w ≡ ""
        → (origin == "") ≡ false
        → (origin_of (handle_cors cors h r w) ≡ origin) ↔ Listed origin cors.allowed_origins
    handle_cors-Listed fresh named = (
      (λ e. elim (Bool-cases (origin_allowed cors origin)) [
        | inl a ↦
            contains→Listed cors.allowed_origins origin
              (sym (origin_allowed-contains cors origin named) ∙ a)
        | inr d ↦ absurd (is_named→neq origin named (sym e ∙ origin_of-denied d ∙ fresh))
      ]),
      λ l. origin_of-allowed (
          origin_allowed-contains cors origin named
          ∙ Listed→contains cors.allowed_origins origin l),
    )
