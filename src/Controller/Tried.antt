-- ===== src/Controller/Tried.antt =====
-- What the status updates of internal/controller/certsuiterun_controller.go send to the API server, however it answers.
use mathlib.Core.List.{append_assoc}
use mathlib.Core.Path.{subst}
use cnf_certsuite_operator.Prelude.{String, ◌≡◌, refl, ap, ◌∙◌, Option, some, List, [], ◌∷◌, ◌++◌}
use cnf_certsuite_operator.Go.{Error, Result, ok, api, conflict}
use cnf_certsuite_operator.Api.{NamespacedName, CertsuiteRun, CertsuiteRunStatus}
use cnf_certsuite_operator.Controller.Cluster.{
  Cluster, Answer, Call, Attempts, last, again, found, failure,
}
use cnf_certsuite_operator.Controller.State.{State}
use cnf_certsuite_operator.Controller.Status.{write_status, set_status, update_status}

module _ (C : Cluster) (req : NamespacedName) (f : CertsuiteRunStatus → CertsuiteRunStatus) where
  open C use {World}

  -- One attempt, with its calls and its error: the resource is not read, or it is, and it is sent back with
  -- its own status changed.
  pub data Attempt (w : World) : List Call → Option Error → World → Type 0 where
    unread :
        {e : Error} {v : World}
        → C.get_run req w ≡ (failure e, v)
        → Attempt w (Call.get_run req ∷ []) (some e) v
    sent :
        {r : CertsuiteRun} {u v : World} {e : Option Error}
        → C.get_run req w ≡ (found r, u)
        → C.update_run_status (record r { status = f r.status }) u ≡ (e, v)
        → Attempt w
            (Call.get_run req ∷ Call.update_run_status (record r { status = f r.status }) ∷ [])
            e
            v

  -- Attempts that meet a conflict, and one more.
  pub data Tries : World → List Call → Option Error → World → Type 0 where
    ended : {w v : World} {cs : List Call} {e : Option Error} → Attempt w cs e v → Tries w cs e v
    conflicting :
        {w u v : World} {cs ds : List Call} {e : Option Error} (text : String)
        → Attempt w cs (some (api conflict text)) u
        → Tries u ds e v
        → Tries w (cs ++ ds) e v

  abbrev after : State World → List Call → World → State World
  after s cs v = record s { calls = s.calls ++ cs; world = v }

  write_status-Attempt :
      (a : Answer CertsuiteRun) (u : World) (s : State World)
      → C.get_run req s.world ≡ (a, u)
      → let m : Option Error × State World =
          write_status C f a (after s (Call.get_run req ∷ []) u) in
        (cs : List Call) × (m.1 ≡ after s cs m.1.world) × Attempt s.world cs m.0 m.1.world
  unfolding write_status
  write_status-Attempt (failure e) u s read = (_, refl, unread read)
  write_status-Attempt (found r) u s read = (
    _,
    ap
        (λ (l : List Call). record s {
          calls = l;
          world = (C.update_run_status (record r { status = f r.status }) u).1;
        })
        (append_assoc s.calls _ _),
    sent read refl,
  )

  tried :
      {s : State World} {m : Option Error × State World}
      → Attempts (set_status C req f) s m
      → (cs : List Call) × (m.1 ≡ after s cs m.1.world) × Tries s.world cs m.0 m.1.world
  unfolding set_status
  tried (last {s = s}) =
      let (cs, same, one) = write_status-Attempt _ _ s refl in (cs, same, ended one)
  tried (again {s = s} {r = m} text refused rest) =
      let (cs, same, one) = write_status-Attempt _ _ s refl in
      let (ds, more, others) = tried rest in
      (
        cs ++ ds,
        more
            ∙ ap (λ (t : State World). after t ds m.1.world) same
            ∙ ap (λ (l : List Call). record s { calls = l; world = m.1.world })
                (append_assoc s.calls cs ds),
        conflicting text
            (subst (λ e. Attempt s.world cs e (set_status C req f s).1.world) refused one) others,
      )

  -- Whatever the API server answers, and however often the update is retried, `updateStatus` makes attempts:
  -- in each it reads the resource, and sends back the one just read with its own status changed, or has
  -- no resource to send. Each but the last meets a conflict; the last one's error is the result, so that a
  -- success is that of the last attempt and nothing was accepted before. There is no panic, and
  -- nothing else of the reconciler's state is changed.
  pub update_status-Tries :
      (s : State World)
      → (e : Option Error) × (cs : List Call) × (v : World) × (update_status C req f s
          ≡ (ok e, record s { calls = s.calls ++ cs; world = v }))
        × Tries s.world cs e v
  unfolding update_status
  update_status-Tries s =
      let m = C.retry_on_conflict (State World) (set_status C req f) s in
      let (cs, same, tries) = tried (C.retry_attempts (State World) (set_status C req f) s) in
      (
        _,
        cs,
        _,
        ap (λ (t : State World). let a : Result (Option Error) × State World = (ok m.0, t) in a)
            same,
        tries,
      )
