-- ===== src/Topology/Plain.antt =====
-- Numbers for float64, and plain functions for those of the standard library: a host to run examples of
-- runtime/go/internal/topology on.
use node_flow.Prelude.{ℕ, ◌+◌, ◌-◌, ◌*◌, ◌/◌, [], ◌∷◌, ltb, ◌==◌}
use node_flow.Topology.{Host}

abbrev pub host : Host
host = record {
  F = ℕ;
  zero_f = 0;
  add_f = λ a b. a + b;
  sub_f = λ a b. a - b;
  lt_f = λ a b. ltb a b;
  eq_f = λ a b. a == b;
  mul_f = λ a b. a * b;
  div_f = λ a b. a / b;
  floor_f = λ a. a;
  ceil_nat = λ a. a;
  of_nat = λ a. a;
  format_f = λ a. a ∷ [];
  Other = Unit;
  sprint = λ a. [];
  trim_space = λ s. s;
  to_lower = λ s. s;
  utf16 = λ s. s;
  base36 = λ n. n ∷ [];
}
