-- ===== src/Groups/Context/History/Tests.antt =====
-- A channel's history before a message.
use hermes_vector_platform.Prelude.{
  ◌⊎◌, Text, ℕ, ◌≡◌, ◌≤◌, true, none, some, List, [], ◌∷◌, codes, all, length, refl,
}
use hermes_vector_platform.Prelude.Values.{Value, obj, str, int, field, end}
use hermes_vector_platform.Groups.Context.History.{Trigger, of_nat, context_rows}
use hermes_vector_platform.Groups.Context.History.Rows.{
  precedes, is_young, is_another, context_rows_lem,
}

abbrev row : Text → ℕ → Value
row id at = obj [] (field (codes "id") (str id) (field (codes "at_ms") (int (of_nat at)) end))

-- One row is late, and one is the message itself.
abbrev page : List Value
page = row (codes "a") 10 ∷ row (codes "b") 20 ∷ row (codes "c") 30 ∷ row (codes "d") 40 ∷ []

abbrev at_c : Trigger
at_c = record {
  id = codes "c";
  at_ms = some (of_nat 30);
  max_n = 1;
  max_chars = 0;
  max_age = 0;
  now_ms = 50;
}

context_rows_lem_example :
    let rows = context_rows (λ t. none) at_c page in
    (all (precedes (λ t. none) (of_nat 30) (codes "c")) rows ≡ true)
    × (all (is_another (codes "c")) rows ≡ true)
    × (all (is_young (λ t. none) (of_nat 30) 0) rows ≡ true)
    × ((at_c.max_n ≡ 0) ⊎ (length rows ≤ at_c.max_n))
context_rows_lem_example = context_rows_lem (λ t. none) at_c page (of_nat 30) refl
