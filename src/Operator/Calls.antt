-- ===== src/Operator/Calls.antt =====
-- Rules for the calls that actions of cmd/main.go make, and for actions that never return.
use mathlib.Core.List.{append-nil, append_assoc}
use cnf_certsuite_operator.Prelude.{
  String, ◌≡◌, ◌≢◌, refl, sym, ap, ap₂, ◌∙◌, true, Option, none, some, List, [], ◌∷◌, ◌++◌, inl,
  inr, Bool-cases, if◌then◌else◌,
}
use cnf_certsuite_operator.Go.{Result, ok, err, panic}
use cnf_certsuite_operator.Action.{◌>>=◌, ◌>>◌, continue, return}
use cnf_certsuite_operator.Controller.State.{setup_with_manager}
use cnf_certsuite_operator.Controller.Events.{ignore_update_in_certsuite_run}
use cnf_certsuite_operator.Operator.{
  Setup, build_controller, build_webhook, Host, Process, P, perform, must, setup_run_controller,
  setup_webhook_with_manager, webhooks_enabled, setup_webhook,
}

-- What is left undone of the plan when the process goes on.
abbrev pub Stops : Result (Unit {0}) → List Setup → Type 0
Stops (ok a) rest = rest ≡ []
Stops (err e) rest = Unit
Stops (panic p) rest = Unit

-- The calls that are made begin the plan; they are the whole of it where the process goes on.
pub data Follows (before plan after : List Setup) (r : Result (Unit {0})) : Type 0 where
  follows :
      (made rest : List Setup)
      → plan ≡ made ++ rest
      → after ≡ before ++ made
      → Stops r rest
      → Follows before plan after r

-- A part of the plan that is done, and then the next part.
pub Follows-append :
    {before made after last p q : List Setup} {r : Result (Unit {0})}
    → after ≡ before ++ made
    → p ≡ made
    → Follows after q last r
    → Follows before (p ++ q) last r
Follows-append {before} {made} grown done (follows next rest split more stops) =
    follows (made ++ next) rest
      (ap₂ (λ (k l : List Setup). k ++ l) done split ∙ sym (append_assoc made next rest))
      (more ∙ ap (λ (l : List Setup). l ++ next) grown ∙ append_assoc before made next) stops

-- A part of the plan where the process ends.
pub Follows-stop :
    {before p after : List Setup} {r : Result (Unit {0})} (q : List Setup)
    → ((l : List Setup) → Stops r l)
    → Follows before p after r
    → Follows before (p ++ q) after r
Follows-stop q any (follows made rest split grown stops) =
    follows made (rest ++ q) (ap (λ (l : List Setup). l ++ q) split ∙ append_assoc made rest q)
      grown (any (rest ++ q))

pub Follows-one :
    (before : List Setup) (c : Setup) (r : Result (Unit {0}))
    → Follows before (c ∷ []) (before ++ c ∷ []) r
Follows-one before c (ok a) = follows (c ∷ []) [] refl refl refl
Follows-one before c (err e) = follows (c ∷ []) [] refl refl tt
Follows-one before c (panic p) = follows (c ∷ []) [] refl refl tt

-- Where the process goes on, the whole plan is made.
pub all_made :
    {before plan after : List Setup} (r : Result (Unit {0}))
    → r ≡ ok tt
    → Follows before plan after r
    → after ≡ before ++ plan
all_made {before} (ok a) returns (follows made rest split grown stops) =
    grown
    ∙ ap (λ (l : List Setup). before ++ l)
        (sym (split ∙ ap (λ (l : List Setup). made ++ l) stops ∙ append-nil made))
all_made (err e) no_ok f = cc
all_made (panic p) no_ok f = cc

pub Follows-none :
    (before plan : List Setup) (r : Result (Unit {0})) → Stops r plan → Follows before plan before r
Follows-none before plan r stops = follows [] plan refl (sym (append-nil before)) stops

module _ {H : Host} where
  pub record Runs (plan : List Setup) (m : P H (Unit {0})) : Type 0 where
    pub at : (s : Process H) → Follows s.setup plan (m s).1.setup (m s).0

  pub Runs-return : Runs [] (return tt)
  unfolding return
  Runs-return = record { at = λ s. Follows-none s.setup [] (ok tt) refl }

  pub Runs-perform : (c : Setup) → Runs (c ∷ []) (perform H c)
  unfolding perform
  Runs-perform c = record { at = λ s. Follows-one s.setup c _ }

  pub Runs-must : (c : Setup) → Runs (c ∷ []) (must H c)
  unfolding must
  Runs-must c = record { at = λ s. Follows-one s.setup c _ }

  pub Runs-bind :
      {p q : List Setup} {m n : P H (Unit {0})} → Runs p m → Runs q n → Runs (p ++ q) (m >> n)
  unfolding ◌>>=◌
  Runs-bind {p} {q} {m} {n} km kn = record { at = λ s. let (r, t) = m s in go r t (km.at s) }
    where
      go :
          {before : List Setup} (r : Result (Unit {0})) (t : Process H)
          → Follows before p t.setup r
          → Follows before
              (p ++ q)
              (continue r (λ (a : Unit {0}). n) t).1.setup
              (continue r (λ (a : Unit {0}). n) t).0
      go (ok a) t (follows made rest split grown stops) =
          Follows-append grown (split ∙ ap (λ (l : List Setup). made ++ l) stops ∙ append-nil made)
            (kn.at t)
      go (err e) t f = Follows-stop q (λ l. tt) f
      go (panic w) t f = Follows-stop q (λ l. tt) f

  pub Runs-setup_webhook :
      (kind : String)
      → Runs (if webhooks_enabled H then build_webhook kind ∷ [] else []) (setup_webhook H kind)
  unfolding setup_webhook setup_webhook_with_manager
  Runs-setup_webhook kind = elim (Bool-cases (webhooks_enabled H)) [
    | inl e ↦ rw e (record {
      at = λ s. (Runs-perform (build_webhook kind)).at (record s { has_client = true });
    })
    | inr e ↦ rw e Runs-return
  ]

  pub Runs-setup_run_controller :
      (image : Option String)
      → Runs
          (build_controller "CertsuiteRun" ignore_update_in_certsuite_run ∷ [])
          (setup_run_controller H image)
  unfolding setup_run_controller setup_with_manager
  Runs-setup_run_controller none = record { at = λ s. Follows-none s.setup _ (err _) tt }
  Runs-setup_run_controller (some image) = record {
    at =
        λ s. Follows-one s.setup (build_controller "CertsuiteRun" ignore_update_in_certsuite_run) _;
  }

-- An action that never returns.
module _ {H : Host} where
  pub record Never (m : P H (Unit {0})) : Type 0 where
    pub at : (s : Process H) → (m s).0 ≢ ok tt

  pub Never-bind_first : (m n : P H (Unit {0})) → Never m → Never (m >> n)
  unfolding ◌>>=◌
  Never-bind_first m n km = record { at = λ s. let (r, t) = m s in go r t (km.at s) }
    where
      go :
          (r : Result (Unit {0})) (t : Process H)
          → r ≢ ok tt
          → (continue r (λ (a : Unit {0}). n) t).0 ≢ ok tt
      go (ok a) t never = absurd (never refl)
      go (err e) t never = cc
      go (panic p) t never = cc

  pub Never-bind_rest : (m n : P H (Unit {0})) → Never n → Never (m >> n)
  unfolding ◌>>=◌
  Never-bind_rest m n kn = record { at = λ s. let (r, t) = m s in go r t }
    where
      go : (r : Result (Unit {0})) (t : Process H) → (continue r (λ (a : Unit {0}). n) t).0 ≢ ok tt
      go (ok a) t = kn.at t
      go (err e) t = cc
      go (panic p) t = cc

  pub Never-missing : Never (setup_run_controller H none)
  unfolding setup_run_controller setup_with_manager
  Never-missing = record { at = λ s. cc }

  pub Runs-missing : (m : P H (Unit {0})) → Runs [] (setup_run_controller H none >> m)
  unfolding setup_run_controller setup_with_manager ◌>>=◌
  Runs-missing m = record { at = λ s. Follows-none s.setup [] (err _) tt }
