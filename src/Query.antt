-- ===== src/Query.antt =====
-- The text of a WHERE condition as the list handlers build it: clauses with their arguments, joined
-- by " AND " (strings.Join in the handlers, BuildConds of persistence/persistence.go).
-- A condition is kept as the tokens of its text, so that it is read by SQL's precedence and not by
-- the grouping that the code may have had in mind.
pub mod Laws
use clouditor.Prelude.{
  ℕ, String, Bool, true, false, ◌&&◌, ◌||◌, Option, none, some, List, [], ◌∷◌, ◌++◌,
}

-- A comparison of a column, with the arguments that stand for its question marks.
pub data Atom : Type 0 where
  -- "column = ?"
  equals : String → String → Atom
  -- "column = ?" for a bool
  is_bool : String → Bool → Atom
  -- "column IN ?"
  in_list : String → List String → Atom
  -- "column IN ?" for a list of enum values
  in_numbers : String → List ℕ → Atom
  -- "column LIKE ?" with the prefix and "%"
  has_prefix : String → String → Atom
  -- "(column IN ? OR column IS NULL)"
  in_list_or_null : String → List String → Atom
  -- "(column LIKE ? OR column LIKE ? OR …)"
  like_any : String → List String → Atom
  -- "column IS NULL"
  is_null : String → Atom
  -- "column >= CURRENT_TIMESTAMP"
  not_past : String → Atom

pub data Token : Type 0 where
  atom : Atom → Token
  and or : Token

abbrev pub Clause : Type 0
Clause = List Token

-- strings.Join(query, " AND ")
unfoldable pub join_and : List Clause → List Token
join_and [] = []
join_and (c ∷ []) = c
join_and (c ∷ d ∷ rest) = c ++ (and ∷ join_and (d ∷ rest))

-- Whether a row satisfies a condition, by SQL's precedence: AND binds tighter than OR. `done` is the
-- value of the disjuncts read so far, and `current` that of the one being read; the empty text is no
-- condition.
unfoldable pub holds_from : (Atom → Bool) → Bool → Bool → List Token → Bool
holds_from row done current [] = done || current
holds_from row done current (atom a ∷ rest) = holds_from row done (current && row a) rest
holds_from row done current (and ∷ rest) = holds_from row done current rest
holds_from row done current (or ∷ rest) = holds_from row (done || current) true rest

unfoldable pub satisfies : (Atom → Bool) → List Token → Bool
unfolding holds_from
satisfies row tokens = holds_from row false true tokens

-- `if field != nil { query = append(query, …); args = append(args, …) }`
abbrev pub when_set {ℓ} : {A : Type ℓ} → Option A → (A → Atom) → List Clause
when_set none f = []
when_set (some a) f = (atom (f a) ∷ []) ∷ []

-- The clause that restricts a caller to the services that it may access:
-- `if !all { query = append(query, "cloud_service_id IN ?"); args = append(args, allowed) }`
abbrev pub allowed_clauses : Bool × List String → List Clause
allowed_clauses (true, allowed) = []
allowed_clauses (false, allowed) = (atom (in_list "cloud_service_id" allowed) ∷ []) ∷ []
