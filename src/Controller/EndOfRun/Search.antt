-- ===== src/Controller/EndOfRun/Search.antt =====
-- What `getContainerStatus` of internal/controller/certsuiterun_controller.go finds, and when it panics,
-- by the places of the statuses and of the containers.
use cnf_certsuite_operator.Prelude.{
  ◌<◌, String, ◌≡◌, ◌≢◌, ◌⊎◌, ◌↔◌, refl, sym, ap, some_inj, inl, inr, some, List, [], ◌∷◌, All,
  length, arith, str_eq, eq_iff, Bool-cases,
}
use cnf_certsuite_operator.Go.{Result, Panic, ok, panic, index_out_of_range, ok_inj}
use cnf_certsuite_operator.Pod.{Container, ContainerStatus}
use cnf_certsuite_operator.Controller.EndOfRun.{status_of}

abbrev pub panicking : (A : Type 0) → Panic → Result A
panicking A q = panic q

-- The status stands at the place of the first container of the name.
abbrev pub Beside : String → ContainerStatus → List ContainerStatus → List Container → Type 0
Beside name st [] cs = ⊥
Beside name st (x ∷ xs) [] = ⊥
Beside name st (x ∷ xs) (c ∷ cs) =
    ((c.name ≡ name) × (x ≡ st)) ⊎ ((c.name ≢ name) × Beside name st xs cs)

-- There are more statuses than containers, and no container has the name.
abbrev pub Overruns : String → List ContainerStatus → List Container → Type 0
Overruns name sts cs = (length cs < length sts) × All (λ (c : Container). c.name ≢ name) cs

pub panic_inj : {A : Type 0} {q r : Panic} → panicking A q ≡ panicking A r → q ≡ r
panic_inj {q = q} e = ap (λ x. elim x [ panic z ↦ z | _ ↦ q ]) e

module _ (name : String) where
  pub status_of-Overruns :
      (p : Panic) (sts : List ContainerStatus) (cs : List Container)
      → (status_of name sts cs ≡ panic p) ↔ ((p ≡ index_out_of_range) × Overruns name sts cs)
  unfolding status_of
  status_of-Overruns p [] cs = ((λ h. cc), (λ (e, (few, others)). absurd (omega (arith, few))))
  status_of-Overruns p (x ∷ xs) [] =
      ((λ h. (sym (panic_inj h), (omega arith, tt))), (λ (e, (few, others)). ap panic (sym e)))
  status_of-Overruns p (x ∷ xs) (c ∷ cs) = elim (Bool-cases (str_eq c.name name)) [
    | inl is ↦
        rw is ((λ h. cc), (λ (e, (few, others)). absurd (others.0 ((eq_iff c.name name).0 is))))
    | inr other ↦
        let rest = status_of-Overruns p xs cs in
        let differs : c.name ≢ name = λ e. ground (arith, e, other, eq_iff c.name name) in
        rw other (
          (λ h. let (e, (few, others)) = rest.0 h in (e, (omega (arith, few), (differs, others)))),
          (λ (e, (few, others)). rest.1 (e, (omega (arith, few), others.1))),
        )
  ]

  pub status_of-Beside :
      (st : ContainerStatus) (sts : List ContainerStatus) (cs : List Container)
      → (status_of name sts cs ≡ ok (some st)) ↔ Beside name st sts cs
  unfolding status_of
  status_of-Beside st [] cs = ((λ h. cc), (λ b. absurd b))
  status_of-Beside st (x ∷ xs) [] = ((λ h. cc), (λ b. absurd b))
  status_of-Beside st (x ∷ xs) (c ∷ cs) = elim (Bool-cases (str_eq c.name name)) [
    | inl is ↦
        let same = (eq_iff c.name name).0 is in
        rw is (
          (λ h. inl (same, some_inj (ok_inj h))),
          (λ b. elim b [
            | inl (e, here) ↦ rw here refl
            | inr (differs, later) ↦ absurd (differs same)
          ]),
        )
    | inr other ↦
        let rest = status_of-Beside st xs cs in
        let differs : c.name ≢ name = λ e. ground (arith, e, other, eq_iff c.name name) in
        rw other (
          (λ h. inr (differs, rest.0 h)),
          (λ b. elim b [ inl (e, here) ↦ absurd (differs e) | inr (d, later) ↦ rest.1 later ]),
        )
  ]
