-- ===== src/Orchestrator/Metrics/Ranges.antt =====
-- Ranges in the database: MarshalJSON, UnmarshalJSON, Value and Scan of api/assessment/metric.go.
-- The JSON of an object with one field is the parameter `Codec`; bytes are numbers.
mod Tests
use clouditor.Prelude.{ℕ, ◌≡◌, refl, Option, none, some, List, arith}
use clouditor.Prelude.Int.{ℤ}
use clouditor.Status.{Error, Result, ok, err, panic, plain, wrapped}
use clouditor.Exec.{Exec}
use clouditor.Orchestrator.Metrics.{Range, allowed_values, order, min_max}

abbrev Bytes : Type 0
Bytes = List ℕ

-- json.Marshal of an object with the field allowedValues, order or minMax, and json.Unmarshal into an
-- object with that field; `none` is a field that is left nil.
pub record Codec (V : Type 0) : Type 0 where
  pub marshal_allowed_values : List V → Result Bytes
  pub marshal_order : List V → Result Bytes
  pub marshal_min_max : ℤ × ℤ → Result Bytes
  pub read_allowed_values : Bytes → Result (Option (List V))
  pub read_order : Bytes → Result (Option (List V))
  pub read_min_max : Bytes → Result (Option (ℤ × ℤ))

-- persistence.ErrUnsupportedType
abbrev pub err_unsupported_type : Error
err_unsupported_type = plain "unsupported type"

-- The value of a column of a database.
pub data Column : Type 0 where
  bytes : Bytes → Column
  other : Column

-- A try of one type of range; if it fails, or its field is nil, the next one follows.
unfoldable pub tried :
    {A V : Type 0}
    → Result (Option A)
    → (A → Range V)
    → Exec (Option (Range V)) (Unit {0})
    → Exec (Option (Range V)) (Unit {0})
tried (ok (some a)) range next r = (ok tt, some (range a))
tried (ok none) range next r = next r
tried (err e) range next r = next r
tried panic range next r = (panic, r)

-- What is left when the last try fails.
unfoldable pub last_error : {A V : Type 0} → Result A → Exec (Option (Range V)) (Unit {0})
last_error (ok a) r = (ok tt, r)
last_error (err e) r = (err e, r)
last_error panic r = (panic, r)

module _ {V : Type 0} (codec : Codec V) where
  unfoldable pub unmarshal_json : Bytes → Exec (Option (Range V)) (Unit {0})
  unfolding tried last_error
  unmarshal_json b = tried (codec.read_allowed_values b) allowed_values (
      tried (codec.read_order b) order
        (tried (codec.read_min_max b) (λ p. min_max p.0 p.1) (last_error (codec.read_min_max b))))

  unfoldable pub marshal_json : Option (Range V) → Result Bytes
  marshal_json none = err err_unsupported_type
  marshal_json (some (allowed_values vs)) = codec.marshal_allowed_values vs
  marshal_json (some (order vs)) = codec.marshal_order vs
  marshal_json (some (min_max lo hi)) = codec.marshal_min_max (lo, hi)

  abbrev marshalled : Result Bytes → Result (Option Bytes)
  marshalled (ok b) = ok (some b)
  marshalled (err e) = err (wrapped "could not marshal JSON" e)
  marshalled panic = panic

  -- `none` is a nil pointer, and the outer `none` of the result a NULL.
  unfoldable pub value : Option (Option (Range V)) → Result (Option Bytes)
  unfolding marshal_json
  value none = ok none
  value (some r) = marshalled (marshal_json r)

  abbrev scanned : Result (Unit {0}) → Result (Unit {0})
  scanned (ok u) = ok u
  scanned (err e) = err (wrapped "could not unmarshal JSON" e)
  scanned panic = panic

  unfoldable pub scan : Column → Exec (Option (Range V)) (Unit {0})
  unfolding unmarshal_json
  scan (bytes b) r = let (outcome, after) = unmarshal_json b r in (scanned outcome, after)
  scan other r = (err err_unsupported_type, r)

  -- What is relied on of JSON: an object that has been written with one field is read with that field,
  -- and leaves every other field nil.
  pub record Faithful : Type 0 where
    pub allowed_values_read :
        (vs : List V) (b : Bytes)
        → codec.marshal_allowed_values vs ≡ ok b
        → codec.read_allowed_values b ≡ ok (some vs)
    pub order_read :
        (vs : List V) (b : Bytes)
        → codec.marshal_order vs ≡ ok b
        → (codec.read_allowed_values b ≡ ok none) × (codec.read_order b ≡ ok (some vs))
    pub min_max_read :
        (p : ℤ × ℤ) (b : Bytes)
        → codec.marshal_min_max p ≡ ok b
        → (codec.read_allowed_values b ≡ ok none)
          × (codec.read_order b ≡ ok none)
          × (codec.read_min_max b ≡ ok (some p))

  marshalled-ok : (m : Result Bytes) (b : Bytes) → marshalled m ≡ ok (some b) → m ≡ ok b
  marshalled-ok (ok a) b h = cc
  marshalled-ok (err e) b h = absurd (cc)
  marshalled-ok panic b h = absurd (cc)

  -- A range that has been written to a column is read back, whatever range was there before, if the JSON
  -- of an object is read with the fields that it was written with.
  pub scan-value :
      (faithful : Faithful) (r : Range V) (b : Bytes) (before : Option (Range V))
      → value (some (some r)) ≡ ok (some b)
      → scan (bytes b) before ≡ (ok tt, some r)
  unfolding value scan
  scan-value faithful (allowed_values vs) b before h =
      rw (faithful.allowed_values_read vs b (marshalled-ok (codec.marshal_allowed_values vs) b h))
        refl
  scan-value faithful (order vs) b before h =
      let (first, second) = faithful.order_read vs b (marshalled-ok (codec.marshal_order vs) b h) in
      rw (first, second) refl
  scan-value faithful (min_max lo hi) b before h =
      let (first, second, third) =
        faithful.min_max_read (lo, hi) b (marshalled-ok (codec.marshal_min_max (lo, hi)) b h) in
      rw (first, second, third) refl
