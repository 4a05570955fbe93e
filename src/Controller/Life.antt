-- ===== src/Controller/Life.antt =====
-- The life of a run of internal/controller/certsuiterun_controller.go, in a cluster that stores what it is
-- sent: an interface of such a cluster, in which nothing else happens within one request, and whose API
-- server enforces the enumeration of phases; and the status updates in it.
pub mod Started
pub mod Ended
pub mod Whole
pub mod Clash
pub mod Restart
pub mod Memory
pub mod Examples
use cnf_certsuite_operator.Prelude.{
  String, ◌≡◌, ◌≢◌, refl, sym, ap, ◌∙◌, true, false, Option, none, some, [], ◌∷◌, ◌++◌, arith,
}
use cnf_certsuite_operator.Go.{Error, Result, ok, api, invalid, already_exists}
use cnf_certsuite_operator.Pod.{Pod}
use cnf_certsuite_operator.Api.{NamespacedName, CertsuiteRun, CertsuiteRunStatus, allowed_phases}
use cnf_certsuite_operator.Controller.Cluster.{Cluster, Call, Attempts, last, again, found, failure}
use cnf_certsuite_operator.Controller.State.{State, create_pod, get_run, get_pod}
use cnf_certsuite_operator.Controller.Status.{
  write_status, set_status, update_status, update_status_phase,
}
use cnf_certsuite_operator.Controller.EndOfRun.Refused.{is_one_of}

abbrev pub name_of : CertsuiteRun → NamespacedName
name_of r = record { namespace = r.namespace; name = r.name }

abbrev pub pod_key : Pod → NamespacedName
pod_key p = record { namespace = p.namespace; name = p.name }

pub record Store (C : Cluster) : Type 0 where
  pub run_of : NamespacedName → C.World → Option CertsuiteRun
  pub pod_of : NamespacedName → C.World → Option Pod
  pub get_run-stored :
      (n : NamespacedName) (w : C.World) (r : CertsuiteRun)
      → run_of n w ≡ some r
      → C.get_run n w ≡ (found r, w)
  pub get_pod-stored :
      (n : NamespacedName) (w : C.World) (p : Pod)
      → pod_of n w ≡ some p
      → C.get_pod n w ≡ (found p, w)
  -- A resource that is not there is not read. A `Get` and a `Delete` leave the other kind as it is.
  pub get_run-missing :
      (n : NamespacedName) (w : C.World)
      → run_of n w ≡ none
      → (e : Error) × (C.get_run n w ≡ (failure e, w))
  pub get_pod-same : (n : NamespacedName) (w : C.World) → (C.get_pod n w).1 ≡ w
  pub delete-runs :
      (n m : NamespacedName) (w : C.World) → run_of m (C.delete_pod n w).1 ≡ run_of m w
  -- An update of the status of a resource that is there.
  pub update-stored :
      (r old : CertsuiteRun) (w : C.World)
      → run_of (name_of r) w ≡ some old
      → is_one_of r.status.phase allowed_phases ≡ true
      → ((C.update_run_status r w).0 ≡ none)
        × (run_of (name_of r) (C.update_run_status r w).1 ≡ some (record old { status = r.status }))
        × ((m : NamespacedName) → pod_of m (C.update_run_status r w).1 ≡ pod_of m w)
  -- It leaves every other resource as it is.
  pub update-others :
      (r : CertsuiteRun) (w : C.World) (m : NamespacedName)
      → m ≢ name_of r
      → run_of m (C.update_run_status r w).1 ≡ run_of m w
  -- A phase that is not in the enumeration is refused.
  pub update-refused :
      (r : CertsuiteRun) (w : C.World)
      → is_one_of r.status.phase allowed_phases ≡ false
      → (text : String) × (C.update_run_status r w ≡ (some (api invalid text), w))
  -- A pod whose name is taken, and one whose name is free.
  pub create-taken :
      (p other : Pod) (w : C.World)
      → pod_of (pod_key p) w ≡ some other
      → (text : String) × (C.create_pod p w ≡ (some (api already_exists text), w))
  pub create-stored :
      (p : Pod) (w : C.World)
      → pod_of (pod_key p) w ≡ none
      → ((C.create_pod p w).0 ≡ none)
        × (pod_of (pod_key p) (C.create_pod p w).1 ≡ some p)
        × ((m : NamespacedName) → run_of m (C.create_pod p w).1 ≡ run_of m w)

-- A function that succeeds at once is not run again.
Attempts-first :
    {S : Type 0} {fn : S → Option Error × S} {s : S} {r : Option Error × S}
    → Attempts fn s r
    → (fn s).0 ≡ none
    → r ≡ fn s
Attempts-first last e = refl
Attempts-first (again text refused rest) e = cc

-- A status update whose function is run once.
pub update_status-once :
    (C : Cluster) (req : NamespacedName) (f : CertsuiteRunStatus → CertsuiteRunStatus)
    (s : State C.World) {e : Option Error}
    → C.retry_on_conflict (State C.World) (set_status C req f) s ≡ set_status C req f s
    → (set_status C req f s).0 ≡ e
    → update_status C req f s ≡ (ok e, (set_status C req f s).1)
unfolding update_status
update_status-once C req f s once result =
    ap
      (λ (p : Option Error × State C.World).
        let a : Result (Option Error) × State C.World = (ok p.0, p.1) in a)
      once
    ∙ ap
        (λ (e : Option Error).
          let a : Result (Option Error) × State C.World = (ok e, (set_status C req f s).1) in a)
        result

module _ (C : Cluster) (D : Store C) (req : NamespacedName) where
  open C use {World}

  -- The resource as it stands after the update, and the pods as before.
  pub record Updated (f : CertsuiteRunStatus → CertsuiteRunStatus) (r : CertsuiteRun)
      (s t : State World) : Type 0 where
    pub run_is : D.run_of req t.world ≡ some (record r { status = f r.status })
    pub pods_same : (m : NamespacedName) → D.pod_of m t.world ≡ D.pod_of m s.world
    pub image_same : t.side_car_image ≡ s.side_car_image

  module _ (f : CertsuiteRunStatus → CertsuiteRunStatus) (r : CertsuiteRun) (s : State World)
      (there : D.run_of req s.world ≡ some r) (named : name_of r ≡ req)
      (allowed : is_one_of (f r.status).phase allowed_phases ≡ true) where
    set_status-Updated : ((set_status C req f s).0 ≡ none) × Updated f r s (set_status C req f s).1
    unfolding set_status write_status
    set_status-Updated =
        let (accepted, stored, others) =
          D.update-stored (record r { status = f r.status }) r s.world
            (ap (λ (n : NamespacedName). D.run_of n s.world) named ∙ there) allowed in
        rw (D.get_run-stored req s.world r there) (
          accepted,
          record {
            run_is =
                ap
                  (λ (n : NamespacedName).
                    D.run_of n (C.update_run_status (record r { status = f r.status }) s.world).1)
                  (sym named)
                ∙ stored;
            pods_same = others;
            image_same = refl;
          },
        )

    pub update_status-Updated :
        (t : State World) × (update_status C req f s ≡ (ok none, t)) × Updated f r s t
    update_status-Updated =
        let (accepted, updated) = set_status-Updated in
        (
          (set_status C req f s).1,
          update_status-once C req f s
              (Attempts-first (C.retry_attempts (State World) (set_status C req f) s) accepted)
              accepted,
          updated,
        )

module _ (C : Cluster) (D : Store C) where
  open C use {World}

  pub create_pod-Stored :
      (p : Pod) (n : NamespacedName) (s : State World)
      → pod_key p ≡ n
      → D.pod_of n s.world ≡ none
      → (t : State World) × (create_pod C p s ≡ (ok none, t))
        × (D.pod_of n t.world ≡ some p)
        × ((m : NamespacedName) → D.run_of m t.world ≡ D.run_of m s.world)
  unfolding create_pod
  create_pod-Stored p n s key free =
      let at : C.World → NamespacedName → Option Pod = λ w m. D.pod_of m w in
      let (accepted, stored, others) = D.create-stored p s.world (ap (at s.world) key ∙ free) in
      (
        _,
        ap
            (λ (e : Option Error).
              let a : Result (Option Error) × State World = (ok e, (create_pod C p s).1) in a)
            accepted,
        ap (at (C.create_pod p s.world).1) (sym key) ∙ stored,
        others,
      )

  pub get_run-Stored :
      (n : NamespacedName) (s : State World) (r : CertsuiteRun)
      → D.run_of n s.world ≡ some r
      → get_run C n s ≡ (ok (found r), record s { calls = s.calls ++ Call.get_run n ∷ [] })
  unfolding get_run
  get_run-Stored n s r there = rw (D.get_run-stored n s.world r there) refl

  pub get_pod-Stored :
      (n : NamespacedName) (s : State World) (p : Pod)
      → D.pod_of n s.world ≡ some p
      → get_pod C n s ≡ (ok (found p), record s { calls = s.calls ++ Call.get_pod n ∷ [] })
  unfolding get_pod
  get_pod-Stored n s p there = rw (D.get_pod-stored n s.world p there) refl
