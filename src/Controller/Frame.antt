-- ===== src/Controller/Frame.antt =====
-- The registry of runs and the calls that change pods, followed through the actions of
-- internal/controller/certsuiterun_controller.go: which of them each action leaves alone.
use mathlib.Core.List.{append-nil, append_assoc}
use cnf_certsuite_operator.Prelude.{ℕ, String, ◌≡◌, refl, sym, ap, ◌∙◌, List, [], ◌∷◌, ◌++◌, arith}
use cnf_certsuite_operator.Prelude.Dict.{Dict}
use cnf_certsuite_operator.Pod.{Pod}
use cnf_certsuite_operator.Api.{NamespacedName, CertsuiteRun, CertsuiteRunStatus}
use cnf_certsuite_operator.Controller.Cluster.{Cluster, Answer, Call, found, failure}
use cnf_certsuite_operator.Controller.State.{State, get_run, get_pod, create_pod, delete_pod, now}
use cnf_certsuite_operator.Controller.Status.{
  write_status, set_status, update_status, update_status_phase,
}
use cnf_certsuite_operator.Action.{Leads}
use cnf_certsuite_operator.Controller.Cluster.{Attempts-keep}

-- The pods that were sent to be created, and the names of those that were to be deleted.
abbrev pods_of : Call → List Pod
pods_of (Call.create_pod p) = p ∷ []
pods_of _ = []

abbrev names_of : Call → List NamespacedName
names_of (Call.delete_pod n) = n ∷ []
names_of _ = []

unfoldable pub created : List Call → List Pod
created [] = []
created (c ∷ cs) = pods_of c ++ created cs

unfoldable pub deleted : List Call → List NamespacedName
deleted [] = []
deleted (c ∷ cs) = names_of c ++ deleted cs

created-append : (cs : List Call) (c : Call) → created (cs ++ c ∷ []) ≡ created cs ++ pods_of c
unfolding created
created-append [] c = append-nil (pods_of c)
created-append (d ∷ cs) c =
    ap (λ l. pods_of d ++ l) (created-append cs c)
    ∙ sym (append_assoc (pods_of d) (created cs) (pods_of c))

deleted-append : (cs : List Call) (c : Call) → deleted (cs ++ c ∷ []) ≡ deleted cs ++ names_of c
unfolding deleted
deleted-append [] c = append-nil (names_of c)
deleted-append (d ∷ cs) c =
    ap (λ l. names_of d ++ l) (deleted-append cs c)
    ∙ sym (append_assoc (names_of d) (deleted cs) (names_of c))

-- What is followed: the package variables, and the pods created and deleted.
pub record View : Type 0 where
  pub runs : Dict NamespacedName String
  pub id : ℕ
  pub image : String
  pub pods : List Pod
  pub names : List NamespacedName

unfoldable pub view : {W : Type 0} → State W → View
view s = record {
  runs = s.certification_runs;
  id = s.cert_suite_pod_id;
  image = s.side_car_image;
  pods = created s.calls;
  names = deleted s.calls;
}

abbrev pub Sees : {W : Type 0} → View → State W → Type 0
Sees v s = view s ≡ v

pub Sees-image : {W : Type 0} {v : View} (s : State W) → Sees v s → s.side_car_image ≡ v.image
unfolding view
Sees-image s h = ap (λ (x : View). x.image) h

-- One more call, and any change of the world.
view_call :
    {W : Type 0} (s : State W) (c : Call) (w : W)
    → view (record s { calls = s.calls ++ c ∷ []; world = w })
      ≡ record (view s) { pods = (view s).pods ++ pods_of c; names = (view s).names ++ names_of c }
unfolding view
view_call s c w = ground (arith, created-append s.calls c, deleted-append s.calls c)

-- A call that neither creates nor deletes.
view_quiet :
    {W : Type 0} (s : State W) (c : Call) (w : W)
    → pods_of c ≡ []
    → names_of c ≡ []
    → view (record s { calls = s.calls ++ c ∷ []; world = w }) ≡ view s
view_quiet s c w e f =
    view_call s c w ∙ ground (arith, e, f, append-nil (view s).pods, append-nil (view s).names)

module _ (C : Cluster) (v : View) where
  open C use {World}

  pub get_run-Sees : (n : NamespacedName) → Leads (Sees v) (Sees v) (get_run C n)
  unfolding get_run
  get_run-Sees n = record { at = λ s h. view_quiet s _ _ refl refl ∙ h }

  pub get_pod-Sees : (n : NamespacedName) → Leads (Sees v) (Sees v) (get_pod C n)
  unfolding get_pod
  get_pod-Sees n = record { at = λ s h. view_quiet s _ _ refl refl ∙ h }

  pub now-Sees : Leads (Sees v) (Sees v) (now C)
  unfolding now
  now-Sees = record { at = λ s h. h }

  pub create_pod-Sees :
      (p : Pod) → Leads (Sees v) (Sees (record v { pods = v.pods ++ p ∷ [] })) (create_pod C p)
  unfolding create_pod
  create_pod-Sees p = record {
    at = λ s h. view_call s _ _ ∙ ground (arith, h, append-nil (view s).names);
  }

  pub delete_pod-Sees :
      (n : NamespacedName)
      → Leads (Sees v) (Sees (record v { names = v.names ++ n ∷ [] })) (delete_pod C n)
  unfolding delete_pod
  delete_pod-Sees n = record {
    at = λ s h. view_call s _ _ ∙ ground (arith, h, append-nil (view s).pods);
  }

  write_status-Sees :
      (f : CertsuiteRunStatus → CertsuiteRunStatus) (a : Answer CertsuiteRun) (s : State World)
      → Sees v s
      → Sees v (write_status C f a s).1
  unfolding write_status
  write_status-Sees f (failure e) s h = h
  write_status-Sees f (found run_cr) s h = view_quiet s _ _ refl refl ∙ h

  set_status-Sees :
      (n : NamespacedName) (f : CertsuiteRunStatus → CertsuiteRunStatus) (s : State World)
      → Sees v s
      → Sees v (set_status C n f s).1
  unfolding set_status
  set_status-Sees n f s h =
      write_status-Sees f (C.get_run n s.world).0 _ (view_quiet s _ _ refl refl ∙ h)

  -- However often it is retried, a status update neither creates nor deletes a pod.
  pub update_status-Sees :
      (n : NamespacedName) (f : CertsuiteRunStatus → CertsuiteRunStatus)
      → Leads (Sees v) (Sees v) (update_status C n f)
  unfolding update_status
  update_status-Sees n f = record {
    at = λ s h.
        Attempts-keep (Sees v) (set_status C n f) (set_status-Sees n f)
          (C.retry_attempts (State World) (set_status C n f) s) h;
  }

  pub update_status_phase-Sees :
      (n : NamespacedName) (phase : String)
      → Leads (Sees v) (Sees v) (update_status_phase C n phase)
  unfolding update_status_phase
  update_status_phase-Sees n phase = update_status-Sees n _
