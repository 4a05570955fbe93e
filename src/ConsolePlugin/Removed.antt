-- ===== src/ConsolePlugin/Removed.antt =====
-- How far `deleteConsolePluginResources` of
-- internal/controller/certsuiteconsoleplugin_controller.go gets.
use mathlib.Core.Path.{subst}
use mathlib.Core.List.{append-nil, append_assoc}
use cnf_certsuite_operator.Prelude.{◌≡◌, refl, sym, ◌∙◌, Option, none, some, List, [], ◌∷◌, ◌++◌}
use cnf_certsuite_operator.Go.{Error, Result, ok, err}
use cnf_certsuite_operator.Action.{◌>>=◌, fail}
use cnf_certsuite_operator.ConsolePlugin.Platform.{Platform, Object, PluginCall}
use cnf_certsuite_operator.ConsolePlugin.Calls.{PluginState, delete}
use cnf_certsuite_operator.ConsolePlugin.Actions.{after_delete, delete_each}

module _ (P : Platform) where
  -- The calls that delete the objects from a world on, and the result. While the server deletes what it
  -- is asked to, the next object follows; the first deletion that it refuses is the last call, and
  -- the result is an error. If it refuses none, the result is `fine`.
  pub data Uninstalls {A : Type 0} (fine : Result A)
      : P.World → List (Object P.Rest) → List (PluginCall P.Rest) → Result A → Type 0 where
    complete : {w : P.World} → Uninstalls fine w [] [] fine
    deleted :
        {w : P.World} {o : Object P.Rest} {objs : List (Object P.Rest)}
        {calls : List (PluginCall P.Rest)} {result : Result A}
        → (P.delete o w).0 ≡ none
        → Uninstalls fine (P.delete o w).1 objs calls result
        → Uninstalls fine w (o ∷ objs) (PluginCall.delete o ∷ calls) result
    refused :
        {w : P.World} {o : Object P.Rest} {objs : List (Object P.Rest)} (x e : Error)
        → (P.delete o w).0 ≡ some x
        → Uninstalls fine w (o ∷ objs) (PluginCall.delete o ∷ []) (err e)

  -- What the loop over a list of objects does.
  abbrev Uninstalling : List (Object P.Rest) → PluginState P → Type 0
  Uninstalling objs s =
      (calls : List (PluginCall P.Rest)) × ((delete_each P objs s).1.calls ≡ s.calls ++ calls)
      × Uninstalls (ok tt) s.world objs calls (delete_each P objs s).0

  after_delete-Uninstalls :
      (o : Object P.Rest) (objs : List (Object P.Rest)) (a : Option Error) (s t : PluginState P)
      → (P.delete o s.world).0 ≡ a
      → t.world ≡ (P.delete o s.world).1
      → t.calls ≡ s.calls ++ PluginCall.delete o ∷ []
      → Uninstalling objs t
      → (calls : List (PluginCall P.Rest)) × ((after_delete P o (delete_each P objs) a t).1.calls
          ≡ s.calls ++ calls)
        × Uninstalls (ok tt) s.world (o ∷ objs) calls (after_delete P o (delete_each P objs) a t).0
  unfolding after_delete fail
  after_delete-Uninstalls o objs none s t answer here called (calls, same, u) = (
    PluginCall.delete o ∷ calls,
    same ∙ (rw called (append_assoc s.calls (PluginCall.delete o ∷ []) calls)),
    deleted answer (subst (λ w. Uninstalls (ok tt) w objs calls (delete_each P objs t).0) here u),
  )
  after_delete-Uninstalls o objs (some x) s t answer here called next =
      (PluginCall.delete o ∷ [], called, refused x _ answer)

  pub delete_each-Uninstalls :
      (objs : List (Object P.Rest)) (s : PluginState P) → Uninstalling objs s
  unfolding delete_each ◌>>=◌ delete
  delete_each-Uninstalls [] s = ([], sym (append-nil s.calls), complete)
  delete_each-Uninstalls (o ∷ objs) s =
      after_delete-Uninstalls o objs (P.delete o s.world).0 s _ refl refl refl
        (delete_each-Uninstalls objs _)
