-- ===== src/Query/Laws.antt =====
-- When a joined condition means the conjunction of its clauses, and when it does not.
use clouditor.Prelude.{
  ◌≡◌, refl, String, Option, none, some, ◌∙◌, Bool, true, false, ◌&&◌, ◌||◌, List, [], ◌∷◌, ◌++◌,
  arith, map,
}
use clouditor.Query.{
  Atom, in_list, when_set, allowed_clauses, Token, atom, and, or, Clause, join_and, holds_from,
  satisfies,
}

-- A clause of one comparison.
abbrev pub single : Atom → Clause
single a = atom a ∷ []

abbrev pub all_hold : (Atom → Bool) → List Atom → Bool
all_hold row [] = true
all_hold row (a ∷ rest) = row a && all_hold row rest

holds_from-singles :
    (row : Atom → Bool) (current : Bool) (atoms : List Atom)
    → holds_from row false current (join_and (map single atoms)) ≡ current && all_hold row atoms
unfolding holds_from join_and
holds_from-singles row current [] = ground arith
holds_from-singles row current (a ∷ []) = ground arith
holds_from-singles row current (a ∷ b ∷ rest) =
    holds_from-singles row (current && row a) (b ∷ rest) ∙ and_assoc
  where
    and_assoc :
        ((current && row a) && all_hold row (b ∷ rest))
        ≡ (current && (row a && all_hold row (b ∷ rest)))
    and_assoc = ground arith

-- A condition joined from single comparisons is met by exactly the rows that meet all of them.
pub satisfies-singles :
    (row : Atom → Bool) (atoms : List Atom)
    → satisfies row (join_and (map single atoms)) ≡ all_hold row atoms
unfolding satisfies
satisfies-singles row atoms = holds_from-singles row true atoms

holds_from-append :
    (row : Atom → Bool) (before after : List Token) (done current : Bool)
    → ((d c : Bool) → holds_from row d c after ≡ true)
    → holds_from row done current (before ++ after) ≡ true
unfolding holds_from
holds_from-append row [] after done current h = h done current
holds_from-append row (atom a ∷ rest) after done current h =
    holds_from-append row rest after done (current && row a) h
holds_from-append row (and ∷ rest) after done current h =
    holds_from-append row rest after done current h
holds_from-append row (or ∷ rest) after done current h =
    holds_from-append row rest after (done || current) true h

-- Whatever clauses stand before one of the form "a OR b", a row that meets b and all the clauses
-- after it is let through.
pub holds_from-or :
    (row : Atom → Bool) (pre post : List Clause) (a b : Atom) (done current : Bool)
    → ((d : Bool) → holds_from row d true (join_and ((atom b ∷ []) ∷ post)) ≡ true)
    → holds_from row done current (join_and (pre ++ ((atom a ∷ or ∷ atom b ∷ []) ∷ post))) ≡ true
unfolding holds_from join_and
holds_from-or row [] [] a b done current h = h (done || (current && row a))
holds_from-or row [] (p ∷ ps) a b done current h = h (done || (current && row a))
holds_from-or row (c ∷ []) post a b done current h =
    holds_from-append row c _ done current (λ d k. holds_from-or row [] post a b d k h)
holds_from-or row (c ∷ c' ∷ cs) post a b done current h =
    holds_from-append row c _ done current (λ d k. holds_from-or row (c' ∷ cs) post a b d k h)

abbrev pub when_atom {ℓ} : {A : Type ℓ} → Option A → (A → Atom) → List Atom
when_atom none f = []
when_atom (some a) f = f a ∷ []

-- The comparison that restricts a caller to the services that it may access.
abbrev pub allowed_atoms : Bool × List String → List Atom
allowed_atoms (true, allowed) = []
allowed_atoms (false, allowed) = in_list "cloud_service_id" allowed ∷ []

pub when_set-single {ℓ} :
    {A : Type ℓ} (o : Option A) (f : A → Atom) → when_set o f ≡ map single (when_atom o f)
when_set-single none f = refl
when_set-single (some a) f = refl

pub allowed_clauses-single :
    (a : Bool × List String) → allowed_clauses a ≡ map single (allowed_atoms a)
allowed_clauses-single (true, ids) = refl
allowed_clauses-single (false, ids) = refl

pub all_hold-last :
    (r : Atom → Bool) (xs : List Atom) (a : Atom) → all_hold r (xs ++ a ∷ []) ≡ true → r a ≡ true
all_hold-last r [] a h = ground arith
all_hold-last r (x ∷ xs) a h = all_hold-last r xs a (ground arith)
