-- ===== src/Operator/Ready.antt =====
-- What cmd/main.go has set up when it starts the manager, and what it does without the image of the sidecar.
use cnf_certsuite_operator.Prelude.{
  String, ◌≡◌, refl, ◌∙◌, Bool, true, false, none, some, ◌++◌, ◌||◌, inl, inr, Bool-cases, arith,
}
use cnf_certsuite_operator.Go.{Result, ok, err, panic}
use cnf_certsuite_operator.Action.{◌>>=◌, ◌>>◌, continue, return}
use cnf_certsuite_operator.Definitions.{side_car_image_env_var}
use cnf_certsuite_operator.Controller.State.{setup_with_manager}
use cnf_certsuite_operator.Controller.Events.{ignore_update_in_certsuite_run}
use cnf_certsuite_operator.Operator.Options.{Flags, manager_options}
use cnf_certsuite_operator.Operator.Calls.{all_made}
use cnf_certsuite_operator.Operator.Order.{setup_plan, run-Follows}
use cnf_certsuite_operator.Operator.{
  Setup, build_controller, build_webhook, Host, Process, P, perform, must, init,
  setup_run_controller, setup_webhook_with_manager, webhooks_enabled, setup_webhook, main, run,
}

-- No call of the process fails.
abbrev pub Healthy : Host → Type 0
Healthy H = (c : Setup) (w : H.World) → (H.attempt c w).0 ≡ none

module _ {H : Host} where
  -- The action returns, and leads from `Q` to `R`.
  record Succeeds (Q R : Process H → Type 0) (m : P H (Unit {0})) : Type 0 where
    at : (s : Process H) → Q s → ((m s).0 ≡ ok tt) × R (m s).1

  Succeeds-bind :
      {Q R T : Process H → Type 0} {m n : P H (Unit {0})}
      → Succeeds Q R m
      → Succeeds R T n
      → Succeeds Q T (m >> n)
  unfolding ◌>>=◌
  Succeeds-bind {R = R} {T = T} {m = m} {n = n} km kn = record {
    at = λ s q. let (r, t) = m s in go r t (km.at s q);
  }
    where
      go :
          (r : Result (Unit {0})) (t : Process H)
          → (r ≡ ok tt) × R t
          → ((continue r (λ (a : Unit {0}). n) t).0 ≡ ok tt)
            × T (continue r (λ (a : Unit {0}). n) t).1
      go (ok a) t (e, h) = kn.at t h
      go (err e) t (no_ok, h) = cc
      go (panic p) t (no_ok, h) = cc

  -- What the process has stored: the image, and whether the webhooks have their client.
  record Stored (image : String) (client : Bool) (s : Process H) : Type 0 where
    image_is : s.controller.side_car_image ≡ image
    client_is : s.has_client ≡ client

  module _ (healthy : Healthy H) where
    Succeeds-perform :
        {image : String} {client : Bool} (c : Setup)
        → Succeeds (Stored image client) (Stored image client) (perform H c)
    unfolding perform
    Succeeds-perform c = record {
      at = λ s h. (
        rw (healthy c s.controller.world) refl,
        record { image_is = h.image_is; client_is = h.client_is },
      );
    }

    Succeeds-must :
        {image : String} {client : Bool} (c : Setup)
        → Succeeds (Stored image client) (Stored image client) (must H c)
    unfolding must
    Succeeds-must c = record {
      at = λ s h. (
        rw (healthy c s.controller.world) refl,
        record { image_is = h.image_is; client_is = h.client_is },
      );
    }

    Succeeds-setup_run_controller :
        {image : String} {client : Bool} (image' : String)
        → Succeeds
            (Stored image client)
            (Stored image' client)
            (setup_run_controller H (some image'))
    unfolding setup_run_controller setup_with_manager
    Succeeds-setup_run_controller image = record {
      at = λ s h.
          rw
            (healthy (build_controller "CertsuiteRun" ignore_update_in_certsuite_run)
              s.controller.world)
            (refl, record { image_is = refl; client_is = h.client_is });
    }

    Succeeds-setup_webhook :
        {image : String} {client : Bool} (kind : String)
        → Succeeds
            (Stored image client)
            (Stored image (client || webhooks_enabled H))
            (setup_webhook H kind)
    unfolding setup_webhook setup_webhook_with_manager return
    Succeeds-setup_webhook {image} {client} kind = elim (Bool-cases (webhooks_enabled H)) [
      | inl e ↦ rw e (record {
        at = λ s h. (
          rw (healthy (build_webhook kind) s.controller.world) refl,
          record { image_is = h.image_is; client_is = ground arith },
        );
      })
      | inr e ↦ rw e (record {
        at = λ s h.
            (refl, record { image_is = h.image_is; client_is = ground (arith, h.client_is) });
      })
    ]

    init-Succeeds :
        {image : String} {client : Bool}
        → Succeeds (Stored image client) (Stored image client) (init H)
    unfolding init
    init-Succeeds =
        Succeeds-bind (Succeeds-must _) (Succeeds-bind (Succeeds-must _) (Succeeds-must _))

    main-Succeeds :
        (flags : Flags) {image image' : String} {client : Bool}
        → H.lookup_env side_car_image_env_var ≡ some image'
        → Succeeds
            (Stored image client)
            (Stored image' (client || webhooks_enabled H || webhooks_enabled H))
            (main H flags)
    unfolding main
    main-Succeeds flags image_set = rw image_set (
        Succeeds-bind (Succeeds-perform _) (
          Succeeds-bind (Succeeds-perform _) (
            Succeeds-bind (Succeeds-setup_run_controller _) (
              Succeeds-bind (Succeeds-setup_webhook _) (
                Succeeds-bind (Succeeds-perform _) (
                  Succeeds-bind (Succeeds-setup_webhook _) (
                    Succeeds-bind (Succeeds-perform _)
                      (Succeeds-bind (Succeeds-perform _) (Succeeds-perform _)))))))))

or_twice : (b : Bool) → (false || b || b) ≡ b
or_twice true = refl
or_twice false = refl

-- Where no call fails, the image of the sidecar is in the environment and the client of the webhooks
-- is not yet set, the process returns, with every call of its list made; the image for the pods is the
-- one of the environment, and the webhooks have their client exactly when they are enabled.
pub run-Ready :
    (H : Host) (flags : Flags) (image : String) (s : Process H)
    → Healthy H
    → H.lookup_env side_car_image_env_var ≡ some image
    → s.has_client ≡ false
    → ((run H flags s).0 ≡ ok tt)
      × ((run H flags s).1.setup
          ≡ s.setup ++ setup_plan (webhooks_enabled H) (manager_options H.lookup_env flags))
      × ((run H flags s).1.controller.side_car_image ≡ image)
      × ((run H flags s).1.has_client ≡ webhooks_enabled H)
unfolding run
run-Ready H flags image s healthy image_set no_client =
    let (returns, stored) =
      (Succeeds-bind (init-Succeeds healthy) (main-Succeeds healthy flags image_set)).at s
        (record { image_is = refl; client_is = no_client }) in
    (
      returns,
      all_made _ returns (run-Follows H flags s),
      stored.image_is,
      stored.client_is ∙ or_twice _,
    )
