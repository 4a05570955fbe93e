-- ===== src/Report/Fields.antt =====
-- The fields of a target resource that certsuite-sidecar/app/cnf-cert-suite-report/cnfcertsuitereport.go makes
-- of the two lists of an object.
use mathlib.Core.List.{Forall₂}
use cnf_certsuite_operator.Prelude.{
  String, ◌≡◌, refl, ap, sym, ◌∙◌, Bool, true, false, Option, none, some, List, [], ◌∷◌, str_eq,
  if◌then◌else◌,
}
use cnf_certsuite_operator.Prelude.Eq.{string_eq}
use cnf_certsuite_operator.Prelude.Dict.{Dict, lookup, insert, lookup-insert}
use cnf_certsuite_operator.Go.{ok, ◌>>=◌, >>=-ok, ok_inj}
use cnf_certsuite_operator.Claim.{Value, Values, str, list, other, nil, cons}
use cnf_certsuite_operator.Api.{TargetResource}
use cnf_certsuite_operator.Report.Details.{
  as_list, fill_target, target_resource, get_target_resources_from_claim,
}

-- The later value, if there is one.
abbrev pub later_or : Option String → Option String → Option String
later_or (some v) earlier = some v
later_or none earlier = earlier

-- The value at the last place at which the keys have `k`.
pub last_value : String → Values → Values → Option String
last_value k (cons (str j) ks) (cons (str v) vs) =
    later_or (last_value k ks vs) (if str_eq j k then some v else none)
last_value k _ _ = none

later_or_twice :
    (o : Option String) (b : Bool) (v : String) (x : Option String)
    → later_or o (if b then some v else x) ≡ later_or (later_or o (if b then some v else none)) x
later_or_twice (some w) b v x = refl
later_or_twice none true v x = refl
later_or_twice none false v x = refl

fill_target-last_value :
    (k : String) (t : TargetResource) (ks vs : Values) {t' : TargetResource}
    → fill_target t ks vs ≡ ok t'
    → lookup k t' ≡ later_or (last_value k ks vs) (lookup k t)
unfolding fill_target last_value
fill_target-last_value k t nil vs h = rw (sym (ok_inj h)) refl
fill_target-last_value k t (cons (str j) ks) (cons (str v) vs) h =
    fill_target-last_value k (insert j v t) ks vs h
    ∙ ap (later_or (last_value k ks vs)) (lookup-insert j k v t)
    ∙ later_or_twice (last_value k ks vs) (str_eq j k) v (lookup k t)
fill_target-last_value k t (cons (str j) ks) (cons (list v) vs) h = cc
fill_target-last_value k t (cons (str j) ks) (cons other vs) h = cc
fill_target-last_value k t (cons (str j) ks) nil h = cc
fill_target-last_value k t (cons (list j) ks) nil h = cc
fill_target-last_value k t (cons other ks) nil h = cc
fill_target-last_value k t (cons (list j) ks) (cons v vs) h = cc
fill_target-last_value k t (cons other ks) (cons v vs) h = cc

-- The field of an object, by its two lists.
abbrev pub field_of : String → Option Value → Option Value → Option String
field_of k (some (list ks)) (some (list vs)) = last_value k ks vs
field_of k _ _ = none

-- The resource has the fields of the object, and no other.
abbrev pub Shows : Dict String Value → TargetResource → Type 0
Shows c t =
    (k : String)
    → lookup k t ≡ field_of k (lookup "ObjectFieldsKeys" c) (lookup "ObjectFieldsValues" c)

later_or-none : (o : Option String) → later_or o none ≡ o
later_or-none none = refl
later_or-none (some v) = refl

read_fields :
    (k : String) (ks vs : Option Value) {t : TargetResource}
    → (as_list ks >>= λ x. as_list vs >>= λ y. fill_target [] x y) ≡ ok t
    → lookup k t ≡ field_of k ks vs
unfolding lookup
read_fields k (some (list ks)) (some (list vs)) h =
    fill_target-last_value k [] ks vs h ∙ later_or-none (last_value k ks vs)
read_fields k (some (list ks)) (some (str v)) h = cc
read_fields k (some (list ks)) (some other) h = cc
read_fields k (some (list ks)) none h = cc
read_fields k (some (str x)) vs h = cc
read_fields k (some other) vs h = cc
read_fields k none vs h = cc

target_resource-Shows :
    (c : Dict String Value) {t : TargetResource} → target_resource c ≡ ok t → Shows c t
unfolding target_resource
target_resource-Shows c h =
    λ k. read_fields k (lookup "ObjectFieldsKeys" c) (lookup "ObjectFieldsValues" c) h

-- Where the objects of the check details can be read, each gives one target resource, in their order.
-- Its value for a key is the value at the last place at which the object has that key among its keys,
-- and it has no other keys.
pub get_target_resources_from_claim-Shows :
    (cs : List (Dict String Value)) {ts : List TargetResource}
    → get_target_resources_from_claim cs ≡ ok ts
    → Forall₂ Shows cs ts
unfolding get_target_resources_from_claim
get_target_resources_from_claim-Shows [] h = rw (sym (ok_inj h)) Forall₂.nil
get_target_resources_from_claim-Shows (c ∷ cs) h =
    let (t, read, more) = >>=-ok (target_resource c) _ h in
    let (ts, others, all) = >>=-ok (get_target_resources_from_claim cs) _ more in
    rw (sym (ok_inj all)) (
      Forall₂.cons (target_resource-Shows c read) (get_target_resources_from_claim-Shows cs others))
