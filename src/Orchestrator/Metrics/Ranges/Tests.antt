-- ===== src/Orchestrator/Metrics/Ranges/Tests.antt =====
-- Ranges of numbers, with a first byte that says which field the object has.
use clouditor.Prelude.{ℕ, zero, suc, ◌≡◌, refl, sym, ap, Option, none, some, List, [], ◌∷◌}
use clouditor.Prelude.Int.{ℤ, pos, negsuc}
use clouditor.Status.{ok}
use clouditor.Orchestrator.Metrics.{order, min_max}
use clouditor.Orchestrator.Metrics.Ranges.{
  Codec, Faithful, bytes, value, scan, marshal_json, scan-value,
}

abbrev write_int : ℤ → List ℕ → List ℕ
write_int (pos n) rest = 0 ∷ n ∷ rest
write_int (negsuc n) rest = 1 ∷ n ∷ rest

abbrev read_int : ℕ → ℕ → ℤ
read_int zero n = pos n
read_int (suc sign) n = negsuc n

abbrev read_values : List ℕ → Option (List ℕ)
read_values (zero ∷ vs) = some vs
read_values _ = none

abbrev read_order : List ℕ → Option (List ℕ)
read_order (suc zero ∷ vs) = some vs
read_order _ = none

abbrev read_min_max : List ℕ → Option (ℤ × ℤ)
read_min_max (suc (suc n) ∷ s ∷ lo ∷ t ∷ hi ∷ rest) = some (read_int s lo, read_int t hi)
read_min_max _ = none

abbrev codec : Codec ℕ
codec = record {
  marshal_allowed_values = λ vs. ok (0 ∷ vs);
  marshal_order = λ vs. ok (1 ∷ vs);
  marshal_min_max = λ p. ok (2 ∷ write_int p.0 (write_int p.1 []));
  read_allowed_values = λ b. ok (read_values b);
  read_order = λ b. ok (read_order b);
  read_min_max = λ b. ok (read_min_max b);
}

ok-inj : {A : Type 0} {a b : A} → ok a ≡ ok b → a ≡ b
ok-inj h = cc

read_ints : (lo hi : ℤ) → read_min_max (2 ∷ write_int lo (write_int hi [])) ≡ some (lo, hi)
read_ints (pos a) (pos b) = refl
read_ints (pos a) (negsuc b) = refl
read_ints (negsuc a) (pos b) = refl
read_ints (negsuc a) (negsuc b) = refl

codec-Faithful : Faithful codec
codec-Faithful = record {
  allowed_values_read = λ vs b h. rw (sym (ok-inj h)) refl;
  order_read = λ vs b h. rw (sym (ok-inj h)) (refl, refl);
  min_max_read = λ p b h. rw (sym (ok-inj h)) (refl, refl, ap ok (read_ints p.0 p.1));
}

-- A range from -3 to 10 over a column that held another range.
scan-value_example :
    scan codec (bytes (2 ∷ 1 ∷ 2 ∷ 0 ∷ 10 ∷ [])) (some (order (4 ∷ [])))
    ≡ (ok tt, some (min_max (negsuc 2) (pos 10)))
scan-value_example =
    scan-value codec codec-Faithful (min_max (negsuc 2) (pos 10)) (2 ∷ 1 ∷ 2 ∷ 0 ∷ 10 ∷ [])
      (some (order (4 ∷ []))) (unfold value marshal_json in refl)
