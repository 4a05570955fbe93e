-- ===== src/Report/Details.antt =====
-- The target resources of a test case, of
-- certsuite-sidecar/app/cnf-cert-suite-report/cnfcertsuitereport.go. A type assertion without
-- `ok`, and an index past the end, panic.
use cnf_certsuite_operator.Prelude.{String, List, [], ◌∷◌, Option, some}
use cnf_certsuite_operator.Prelude.Eq.{string_eq}
use cnf_certsuite_operator.Prelude.Dict.{Dict, lookup, insert}
use cnf_certsuite_operator.Go.{Result, ok, panic, index_out_of_range, type_assertion, ◌>>=◌}
use cnf_certsuite_operator.Claim.{Value, Values, str, list, nil, cons}
use cnf_certsuite_operator.Api.{TargetResource}

pub record CheckDetails : Type 0 where
  pub compliant : List (Dict String Value)
  pub non_compliant : List (Dict String Value)

-- x.(string)
abbrev pub as_string : Value → Result String
as_string (str s) = ok s
as_string _ = panic type_assertion

-- m[k].([]interface{}): a missing key gives a nil interface, for which the assertion panics.
abbrev pub as_list : Option Value → Result Values
as_list (some (list vs)) = ok vs
as_list _ = panic type_assertion

-- The inner loop, over the keys that are left and the values at their positions.
unfoldable pub fill_target : TargetResource → Values → Values → Result TargetResource
unfolding insert
fill_target t nil vs = ok t
fill_target t (cons key keys) nil = do key' ← as_string key; panic index_out_of_range
fill_target t (cons key keys) (cons v vs) = do
  key' ← as_string key
  v' ← as_string v
  fill_target (insert key' v' t) keys vs

unfoldable pub target_resource : Dict String Value → Result TargetResource
unfolding fill_target lookup
target_resource c = do
  object_fields_keys ← as_list (lookup "ObjectFieldsKeys" c)
  object_fields_values ← as_list (lookup "ObjectFieldsValues" c)
  fill_target [] object_fields_keys object_fields_values

unfoldable pub get_target_resources_from_claim :
    List (Dict String Value) → Result (List TargetResource)
unfolding target_resource
get_target_resources_from_claim [] = ok []
get_target_resources_from_claim (c ∷ cs) = do
  t ← target_resource c
  ts ← get_target_resources_from_claim cs
  ok (t ∷ ts)
