-- ===== src/Controller/Names.antt =====
-- The pod names of the registry of internal/controller/certsuiterun_controller.go, through each
-- change that a request makes.
use mathlib.Core.List.{map-append}
use text.Mathlib.TextLemmas.{append_cancel_left}
use cnf_certsuite_operator.Prelude.{
  ℕ, ◌+◌, ◌^◌, ◌≤◌, ◌<◌, String, ◌≡◌, ◌≢◌, ◌⊎◌, sym, ◌∙◌, inl, inr, some, List, [], ◌∷◌, ◌++◌, map,
  All, All-append, arith, lt→ltb, Bool-cases,
}
use cnf_certsuite_operator.Prelude.Decimal.{decimal_inj}
use cnf_certsuite_operator.Prelude.Dict.{lookup, erase, lookup-insert, lookup-erase}
use cnf_certsuite_operator.Pod.{Pod}
use cnf_certsuite_operator.Api.{NamespacedName, CertsuiteRun}
use cnf_certsuite_operator.Controller.Cluster.{Answer}
use cnf_certsuite_operator.Controller.State.{
  NamespacedName_eq, name_eq, name_eq_iff, next_int, format_int,
}
use cnf_certsuite_operator.Controller.Reconcile.{pod_name_of}
use cnf_certsuite_operator.Controller.Frame.{View}
use cnf_certsuite_operator.Controller.Registry.{
  Change, unknown, forgotten, watched, not_launched, launched, registered,
}

format_int_inj : (i j : ℕ) → i < 2 ^ 63 → j < 2 ^ 63 → format_int i ≡ format_int j → i ≡ j
unfolding format_int
format_int_inj i j hi hj e = decimal_inj i j (rw (lt→ltb i (2 ^ 63) hi, lt→ltb j (2 ^ 63) hj) at e)

pod_name_of_inj : (i j : ℕ) → i < 2 ^ 63 → j < 2 ^ 63 → pod_name_of i ≡ pod_name_of j → i ≡ j
unfolding pod_name_of
pod_name_of_inj i j hi hj e =
    format_int_inj i j hi hj (append_cancel_left _ _ _ (append_cancel_left _ _ _ e))

-- The name was given to a run before.
abbrev pub Given : ℕ → String → Type 0
Given id name = (i : ℕ) × (name ≡ pod_name_of i) × (i ≤ id)

-- No name stands twice.
abbrev pub Distinct : List String → Type 0
Distinct [] = Unit
Distinct (x ∷ xs) = All (λ y. y ≢ x) xs × Distinct xs

abbrev pub pod_names : List Pod → List String
pod_names = map (λ (p : Pod). p.name)

-- The registry after `n` requests.
pub record Registered (n : ℕ) (v : View) : Type 0 where
  pub bounded : v.id ≤ n
  pub given : (k : NamespacedName) (p : String) → lookup k v.runs ≡ some p → Given v.id p
  pub distinct :
      (a b : NamespacedName) (p : String)
      → lookup a v.runs ≡ some p
      → lookup b v.runs ≡ some p
      → a ≡ b
  pub pods_given : All (Given v.id) (pod_names v.pods)
  pub pods_distinct : Distinct (pod_names v.pods)

Distinct-append :
    (xs : List String) (x : String) → Distinct xs → All (λ y. x ≢ y) xs → Distinct (xs ++ x ∷ [])
Distinct-append [] x d h = (tt, tt)
Distinct-append (y ∷ ys) x d h =
    (All-append (λ z. z ≢ y) ys (x ∷ []) d.0 (h.0, tt), Distinct-append ys x d.1 h.1)

All-map {ℓ κ μ} :
    {A : Type ℓ} {P : A → Type κ} {Q : A → Type μ} (f : (a : A) → P a → Q a) (xs : List A)
    → All P xs
    → All Q xs
All-map f [] h = tt
All-map f (x ∷ xs) h = (f x h.0, All-map f xs h.1)

module _ (n : ℕ) (v : View) (r : Registered n v) (req : NamespacedName)
    (small : n + 1 < 2 ^ 63) where
  next_id : next_int v.id ≡ v.id + 1
  next_id = ground (arith, r.bounded)

  -- The next name is new.
  next_fresh : (p : String) → Given v.id p → pod_name_of (next_int v.id) ≢ p
  next_fresh p (i, e, le) q =
      let same : next_int v.id ≡ i =
        pod_name_of_inj (next_int v.id) i (omega (arith, next_id, r.bounded))
          (omega (arith, r.bounded)) (q ∙ e) in
      absurd (omega (arith, same, next_id))

  older : (p : String) → Given v.id p → Given (next_int v.id) p
  older p (i, e, le) = (i, e, omega (arith, next_id))

  -- The registered run's name, or that of an entry that was there.
  registered-entry :
      (k : NamespacedName) (p : String)
      → lookup k (registered req v).runs ≡ some p
      → ((req ≡ k) × (pod_name_of (next_int v.id) ≡ p)) ⊎ ((req ≢ k) × (lookup k v.runs ≡ some p))
  registered-entry k p h =
      let e = lookup-insert req k (pod_name_of (next_int v.id)) v.runs in
      elim (Bool-cases (name_eq req k)) [
        | inl same ↦ inl ((name_eq_iff req k).0 same, ground (arith, e, same, h))
        | inr other ↦
            inr ((λ q. ground (arith, name_eq_iff req k, q, other)), ground (arith, e, other, h))
      ]

  registered-Given :
      (k : NamespacedName) (p : String)
      → lookup k (registered req v).runs ≡ some p
      → Given (next_int v.id) p
  registered-Given k p h = elim (registered-entry k p h) [
    | inl (same, e) ↦ (next_int v.id, sym e, omega arith)
    | inr (other, old) ↦ older p (r.given k p old)
  ]

  registered_distinct :
      (a b : NamespacedName) (p : String)
      → lookup a (registered req v).runs ≡ some p
      → lookup b (registered req v).runs ≡ some p
      → a ≡ b
  registered_distinct a b p ha hb = elim (registered-entry a p ha) [
    | inl (sa, ea) ↦ elim (registered-entry b p hb) [
      | inl (sb, eb) ↦ sym sa ∙ sb
      | inr (ob, old) ↦ absurd (next_fresh p (r.given b p old) ea)
    ]
    | inr (oa, olda) ↦ elim (registered-entry b p hb) [
      | inl (sb, eb) ↦ absurd (next_fresh p (r.given a p olda) eb)
      | inr (ob, oldb) ↦ r.distinct a b p olda oldb
    ]
  ]

  registered-Registered : Registered (n + 1) (registered req v)
  registered-Registered = record {
    bounded = omega (arith, next_id, r.bounded);
    given = registered-Given;
    distinct = registered_distinct;
    pods_given = All-map older (pod_names v.pods) r.pods_given;
    pods_distinct = r.pods_distinct;
  }

  launched-Registered :
      (pod : Pod)
      → pod.name ≡ pod_name_of (next_int v.id)
      → Registered (n + 1) (record (registered req v) { pods = v.pods ++ pod ∷ [] })
  launched-Registered pod e =
      let names : pod_names (v.pods ++ pod ∷ []) ≡ pod_names v.pods ++ pod.name ∷ [] =
        map-append (λ (p : Pod). p.name) v.pods (pod ∷ []) in
      record {
        bounded = omega (arith, next_id, r.bounded);
        given = registered-Given;
        distinct = registered_distinct;
        pods_given = rw names (
            All-append (Given (next_int v.id)) (pod_names v.pods) (pod.name ∷ [])
              (All-map older (pod_names v.pods) r.pods_given)
              ((next_int v.id, e, omega arith), tt));
        pods_distinct = rw names (
            Distinct-append (pod_names v.pods) pod.name r.pods_distinct
              (All-map (λ y g q. next_fresh y g (sym e ∙ q)) (pod_names v.pods) r.pods_given));
      }

  erased-entry :
      (k : NamespacedName) (p : String)
      → lookup k (erase req v.runs) ≡ some p
      → lookup k v.runs ≡ some p
  erased-entry k p h = ground (arith, lookup-erase req k v.runs, h, Bool-cases (name_eq req k))

  forgotten-Registered :
      (l : List NamespacedName)
      → Registered (n + 1) (record v { runs = erase req v.runs; names = l })
  forgotten-Registered l = record {
    bounded = omega (arith, r.bounded);
    given = λ k p h. r.given k p (erased-entry k p h);
    distinct = λ a b p ha hb. r.distinct a b p (erased-entry a p ha) (erased-entry b p hb);
    pods_given = r.pods_given;
    pods_distinct = r.pods_distinct;
  }

  same-Registered : Registered (n + 1) v
  same-Registered = record {
    bounded = omega (arith, r.bounded);
    given = r.given;
    distinct = r.distinct;
    pods_given = r.pods_given;
    pods_distinct = r.pods_distinct;
  }

  pub Change-Registered :
      (a : Answer CertsuiteRun) (w : View) → Change req v a w → Registered (n + 1) w
  Change-Registered a w (unknown e ae none_found same) = rw same same-Registered
  Change-Registered a w (forgotten e name ae found_name gone) = rw gone (forgotten-Registered _)
  Change-Registered a w (watched run_cr ae has same) = rw same same-Registered
  Change-Registered a w (not_launched run_cr ae has_not next) = rw next registered-Registered
  Change-Registered a w (launched run_cr pod ae has_not launches next) =
      rw next (launched-Registered pod launches.named.0)
