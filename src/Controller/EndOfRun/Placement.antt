-- ===== src/Controller/EndOfRun/Placement.antt =====
-- `getContainerStatus` of internal/controller/certsuiterun_controller.go, against a search of the
-- statuses by their own names.
use cnf_certsuite_operator.Prelude.{
  String, ◌≡◌, ◌≢◌, refl, inl, inr, Option, none, some, List, [], ◌∷◌, arith, str_eq, eq_iff,
  eq_refl, Bool-cases, if◌then◌else◌,
}
use cnf_certsuite_operator.Go.{ok}
use cnf_certsuite_operator.Pod.{Pod, Container, ContainerStatus}
use cnf_certsuite_operator.Controller.EndOfRun.{status_of, get_container_status}

abbrev pub find_named : String → List ContainerStatus → Option ContainerStatus
find_named name [] = none
find_named name (st ∷ sts) = if str_eq st.name name then some st else find_named name sts

-- Each status is at its container's place.
abbrev pub Aligned : List ContainerStatus → List Container → Type 0
Aligned [] containers = Unit
Aligned (st ∷ sts) [] = ⊥
Aligned (st ∷ sts) (c ∷ cs) = (st.name ≡ c.name) × Aligned sts cs

status_of-Aligned :
    (name : String) (statuses : List ContainerStatus) (containers : List Container)
    → Aligned statuses containers
    → status_of name statuses containers ≡ ok (find_named name statuses)
unfolding status_of
status_of-Aligned name [] containers h = refl
status_of-Aligned name (st ∷ sts) [] h = absurd h
status_of-Aligned name (st ∷ sts) (c ∷ cs) (e, h) = elim (Bool-cases (str_eq c.name name)) [
  | inl same ↦ rw e (rw same refl)
  | inr other ↦ rw e (rw other (status_of-Aligned name sts cs h))
]

-- If the pod's statuses are in the order of its containers, the answer is the status that bears the
-- asked name, and none if there is no such status; there is no panic.
pub get_container_status-Aligned :
    (p : Pod) (container_name : String)
    → Aligned p.container_statuses p.containers
    → get_container_status p container_name ≡ ok (find_named container_name p.container_statuses)
unfolding get_container_status
get_container_status-Aligned p container_name h =
    status_of-Aligned container_name p.container_statuses p.containers h

-- If a pod has two containers of different names and its two statuses are in the opposite order,
-- the answer for the second container is the first container's status.
pub get_container_status-swapped :
    (p : Pod) (c d : Container) (of_d of_c : ContainerStatus)
    → p.containers ≡ c ∷ d ∷ []
    → p.container_statuses ≡ of_d ∷ of_c ∷ []
    → c.name ≢ d.name
    → of_c.name ≡ c.name
    → of_d.name ≡ d.name
    → (get_container_status p d.name ≡ ok (some of_c)) × (of_c.name ≢ d.name)
unfolding get_container_status status_of
get_container_status-swapped p c d of_d of_c cs sts differ ec ed =
    ground (arith, cs, sts, differ, ec, eq_iff c.name d.name, eq_refl d.name)
