-- ===== src/Controller/Reached.antt =====
-- Pod names over the life of the operator's process
-- (internal/controller/certsuiterun_controller.go), over any sequence of requests and any
-- behaviour of the cluster between them.
use cnf_certsuite_operator.Prelude.{ℕ, zero, ◌+◌, ◌^◌, ◌<◌, String, ◌≡◌, none, some, arith}
use cnf_certsuite_operator.Prelude.Dict.{lookup}
use cnf_certsuite_operator.Api.{NamespacedName}
use cnf_certsuite_operator.Controller.Cluster.{Cluster}
use cnf_certsuite_operator.Controller.State.{
  State, initial_state, setup_with_manager, NamespacedName_eq,
}
use cnf_certsuite_operator.Controller.Reconcile.{reconcile}
use cnf_certsuite_operator.Controller.Frame.{view, created}
use cnf_certsuite_operator.Controller.Registry.{reconcile-Change}
use cnf_certsuite_operator.Controller.Names.{Registered, Distinct, pod_names, Change-Registered}

-- The states of a process that has been set up, by the number of requests handled.
-- Between two requests the cluster may change in any way.
pub data Reach (C : Cluster) (fraction : ℕ → ℕ → ℕ → ℕ) : ℕ → State C.World → Type 0 where
  start :
      (image : String) (w : C.World)
      → Reach C fraction zero (setup_with_manager (some image) none (initial_state w)).1
  request :
      {n : ℕ} {s : State C.World} (req : NamespacedName)
      → Reach C fraction n s
      → Reach C fraction (n + 1) (reconcile C fraction req s).1
  elsewhere :
      {n : ℕ} {s : State C.World} (w : C.World)
      → Reach C fraction n s
      → Reach C fraction n (record s { world = w })

module _ (C : Cluster) (fraction : ℕ → ℕ → ℕ → ℕ) where
  open C use {World}

  pub Reach-Registered :
      (n : ℕ) (s : State World) → Reach C fraction n s → n < 2 ^ 63 → Registered n (view s)
  unfolding view created lookup setup_with_manager
  Reach-Registered _ _ (start image w) small = record {
    bounded = omega arith;
    given = λ k p h. cc;
    distinct = λ a b p ha hb. cc;
    pods_given = tt;
    pods_distinct = tt;
  }
  Reach-Registered _ _ (request {n = n} {s = s} req before) small =
      Change-Registered n (view s) (Reach-Registered n s before (omega (arith, small))) req small _
        _ (reconcile-Change C fraction req s)
  Reach-Registered _ _ (elsewhere {n = n} {s = s} w before) small =
      Reach-Registered n s before small

  -- While fewer than 2^63 requests have been handled, whatever calls have failed and however the
  -- cluster has changed in between, no two runs are registered with the same pod name.
  pub Reach-own_name :
      {n : ℕ} {s : State World}
      → Reach C fraction n s
      → n < 2 ^ 63
      → (a b : NamespacedName) (p : String) → lookup a s.certification_runs ≡ some p
      → lookup b s.certification_runs ≡ some p
      → a ≡ b
  unfolding view
  Reach-own_name {n = n} {s = s} reach small = (Reach-Registered n s reach small).distinct

  -- While fewer than 2^63 requests have been handled, the pods that the process has sent to be
  -- created have pairwise different names.
  pub Reach-Distinct :
      {n : ℕ} {s : State World}
      → Reach C fraction n s
      → n < 2 ^ 63
      → Distinct (pod_names (created s.calls))
  unfolding view
  Reach-Distinct {n = n} {s = s} reach small = (Reach-Registered n s reach small).pods_distinct
