-- ===== src/Serve/Json/Naturals.antt =====
-- A small instance of the f64 interface of src/serve/json.rs for the tests: natural numbers.
use reinstinct.Base.{ℕ, ◌+◌, ◌*◌, ◌-◌, true, Option, some, none, List, [], ◌∷◌, if◌then◌else◌}
use reinstinct.Base.Int.{pos}
use reinstinct.Serve.Json.{Numbers, digits}
use reinstinct.Serve.Json.Parse.{is_digit}

abbrev read_digits : ℕ → List ℕ → Option ℕ
read_digits n [] = some n
read_digits n (c ∷ cs) =
    let rest = read_digits (n * 10 + (c - 48)) cs in if is_digit c then rest else none

abbrev pub naturals : Numbers
naturals = record {
  F = ℕ;
  parse = read_digits 0;
  to_string = digits 19;
  as_i64 = λ n. pos n;
  is_whole = λ n. true;
  is_finite = λ n. true;
  below_1e15 = λ n. true;
}
