-- ===== src/ConsolePlugin/Installed.antt =====
-- What the loop of `createConsolePluginResources` of
-- internal/controller/certsuiteconsoleplugin_controller.go sends, up to where it stops.
use mathlib.Core.Path.{subst}
use mathlib.Core.List.{append-nil, append_assoc}
use cnf_certsuite_operator.Prelude.{
  ℕ, ◌<>◌, ◌≡◌, refl, sym, ◌∙◌, inl, inr, true, false, Option, none, some, List, [], ◌∷◌, ◌++◌,
  Bool-cases,
}
use cnf_certsuite_operator.Go.{Error, Result, ok, err, error_text, is_already_exists}
use cnf_certsuite_operator.Action.{◌>>=◌, fail}
use cnf_certsuite_operator.Api.{CertsuiteConsolePlugin, Condition}
use cnf_certsuite_operator.Controller.Cluster.{Answer, found, failure}
use cnf_certsuite_operator.ConsolePlugin.Platform.{Platform, Object, PluginCall}
use cnf_certsuite_operator.ConsolePlugin.Calls.{PluginState, create, update_status, now}
use cnf_certsuite_operator.ConsolePlugin.Actions.{
  show_object, condition_of, after_update, create_each,
}

module _ (P : Platform) where
  -- The server answers a status update with the conditions that it was sent.
  abbrev pub Echoes : Type 0
  Echoes =
      (cr cr' : CertsuiteConsolePlugin) (w : P.World)
      → (P.update_status cr w).0 ≡ found cr'
      → cr'.conditions ≡ cr.conditions

  -- A condition that tells how an object's creation went, by the server's answer.
  pub data Tells (o : Object P.Rest) (c : Condition) : Option Error → Type 0 where
    success :
        c.condition_type ≡ "ResourceCreatedSuccessfully"
        → c.status ≡ true
        → c.reason ≡ "ResourceCreationHasSucceeded"
        → c.message ≡ show_object o <> " has been created successfully."
        → Tells o c none
    existing :
        (e : Error)
        → is_already_exists e ≡ true
        → c.condition_type ≡ "ResourceCreatedSuccessfully"
        → c.status ≡ false
        → c.reason ≡ "ResourceAlreadyExists"
        → c.message ≡ show_object o <> (": " <> (error_text e <> " already exists"))
        → Tells o c (some e)
    no_success :
        (e : Error)
        → is_already_exists e ≡ false
        → c.condition_type ≡ "ResourceCreatedSuccessfully"
        → c.status ≡ false
        → c.reason ≡ "ResourceCreationFailed"
        → c.message ≡ "failed to create " <> (show_object o <> (": " <> error_text e))
        → Tells o c (some e)

  -- The calls that create the objects from a world on, where the status has these conditions, and the
  -- result. Each object is sent, and then the status with one further condition, which tells of the
  -- answer, whichever it was. While the server accepts the status, the next object follows; the first
  -- status that it refuses is the last call, and the result is an error. If it refuses none,
  -- the result is `fine`.
  pub data Installs {A : Type 0} (fine : A)
      : P.World
        → List Condition
        → List (Object P.Rest)
        → List (PluginCall P.Rest)
        → Result A
        → Type 0 where
    complete : {w : P.World} {d : List Condition} → Installs fine w d [] [] (ok fine)
    accepted :
        {w : P.World} {d : List Condition} {o : Object P.Rest} {objs : List (Object P.Rest)}
        {calls : List (PluginCall P.Rest)} {result : Result A} (c : Condition)
        (cr cr' : CertsuiteConsolePlugin)
        → Tells o c (P.create o w).0
        → cr.conditions ≡ d ++ c ∷ []
        → (P.update_status cr (P.create o w).1).0 ≡ found cr'
        → Installs fine (P.update_status cr (P.create o w).1).1 (d ++ c ∷ []) objs calls result
        → Installs fine w d
            (o ∷ objs)
            (PluginCall.create o ∷ PluginCall.update_status cr ∷ calls)
            result
    refused :
        {w : P.World} {d : List Condition} {o : Object P.Rest} {objs : List (Object P.Rest)}
        (c : Condition) (cr : CertsuiteConsolePlugin) (x e : Error)
        → Tells o c (P.create o w).0
        → cr.conditions ≡ d ++ c ∷ []
        → (P.update_status cr (P.create o w).1).0 ≡ failure x
        → Installs fine w d
            (o ∷ objs)
            (PluginCall.create o ∷ PluginCall.update_status cr ∷ [])
            (err e)

  condition_of-Tells :
      (o : Object P.Rest) (a : Option Error) (time : ℕ) → Tells o (condition_of o a time) a
  unfolding condition_of
  condition_of-Tells o none time = success refl refl refl refl
  condition_of-Tells o (some e) time = elim (Bool-cases (is_already_exists e)) [
    | inl is ↦ existing e is (rw is refl) (rw is refl) (rw is refl) (rw is refl)
    | inr other ↦ no_success e other (rw other refl) (rw other refl) (rw other refl) (rw other refl)
  ]

  -- What the loop over a list of objects does.
  abbrev Installing : List (Object P.Rest) → CertsuiteConsolePlugin → PluginState P → Type 0
  Installing objs cr s =
      (calls : List (PluginCall P.Rest)) × ((create_each P objs cr s).1.calls ≡ s.calls ++ calls)
      × Installs tt s.world cr.conditions objs calls (create_each P objs cr s).0

  module _ (echoes : Echoes) where
    after_update-Installs :
        (o : Object P.Rest) (objs : List (Object P.Rest)) (c : Condition) (d : List Condition)
        (cr : CertsuiteConsolePlugin) (a : Answer CertsuiteConsolePlugin) (s t : PluginState P)
        → ((cr' : CertsuiteConsolePlugin) → Installing objs cr' t)
        → Tells o c (P.create o s.world).0
        → cr.conditions ≡ d ++ c ∷ []
        → (P.update_status cr (P.create o s.world).1).0 ≡ a
        → t.world ≡ (P.update_status cr (P.create o s.world).1).1
        → t.calls ≡ s.calls ++ PluginCall.create o ∷ PluginCall.update_status cr ∷ []
        → (calls : List (PluginCall P.Rest)) × ((after_update P (create_each P objs) a t).1.calls
            ≡ s.calls ++ calls)
          × Installs tt s.world d (o ∷ objs) calls (after_update P (create_each P objs) a t).0
    unfolding after_update fail
    after_update-Installs o objs c d cr (found cr') s t next tells sent answer here called =
        let (calls, same, i) = next cr' in
        let kept = echoes cr cr' (P.create o s.world).1 answer ∙ sent in
        (
          PluginCall.create o ∷ PluginCall.update_status cr ∷ calls,
          same ∙ (rw called (append_assoc s.calls _ calls)),
          accepted c cr cr' tells sent answer (
              subst (λ w. Installs tt w (d ++ c ∷ []) objs calls (create_each P objs cr' t).0) here
                (subst (λ l. Installs tt t.world l objs calls (create_each P objs cr' t).0) kept
                  i)),
        )
    after_update-Installs o objs c d cr (failure x) s t next tells sent answer here called =
        (_, called, refused c cr x _ tells sent answer)

    pub create_each-Installs :
        (objs : List (Object P.Rest)) (cr : CertsuiteConsolePlugin) (s : PluginState P)
        → Installing objs cr s
    unfolding create_each ◌>>=◌ create now update_status
    create_each-Installs [] cr s = ([], sym (append-nil s.calls), complete)
    create_each-Installs (o ∷ objs) cr s =
        let (e, w) = P.create o s.world in
        let c = condition_of o e (P.now w) in
        let sent : CertsuiteConsolePlugin = record cr { conditions = cr.conditions ++ c ∷ [] } in
        after_update-Installs o objs c cr.conditions sent (P.update_status sent w).0 s _
          (λ cr'. create_each-Installs objs cr' _) (condition_of-Tells o e (P.now w)) refl refl refl
          (append_assoc s.calls _ _)
