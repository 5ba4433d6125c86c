-- ===== src/Runtime/Requests/Licence.antt =====
-- The certificate of the platform after any sequence of requests.
use imip.Base.{
  ◌===◌, ◌≡◌, refl, true, String, List, [], ◌∷◌, Option, none, some, ok, err, Bool-cases, inl, inr,
  ℕ,
}
use imip.Runtime.Types.{ComponentDefinition, BootOptions}
use imip.Runtime.Orchestrator.{Orchestrator, Outcome, Action, new_orchestrator, empty_orchestrator}
use imip.Runtime.Orchestrator.Ends.{Ends}
use imip.Runtime.Requests.{
  restart_all, request_restart, Request, perform, perform_all, registering, booting_with,
  restarting_with, shutting_it_down, going_to_maintenance, pausing, resuming, recovering_it,
}
use imip.Runtime.Requests.Licensing.{is_live, IsGranted, unlicensed, IsLicensed, Keeping}
use imip.Runtime.Requests.Keeping.{
  pause-Keeping, resume-Keeping, maintenance-Keeping, boot-Keeping, shutdown-Keeping,
  restart_all-Keeping, recover-Keeping,
}
use imip.Runtime.Requests.Apart.{Apart, restart_named-Apart, register_component-Apart}

module _ {W I : Type 0} (now : W → ℕ) where
  Apart-IsLicensed :
      {A : Type 0} {m : Action W I A}
      → Apart m
      → (o : Orchestrator W I) → IsLicensed o
      → IsLicensed (m o).0
  Apart-IsLicensed p o l = rw ((p.kept o).0, (p.kept o).1) l

  Keeping-IsLicensed :
      {A : Type 0} (m : Action W I A) (o : Orchestrator W I)
      → Keeping o.graph o.state o.last_certification m
      → IsLicensed (m o).0
  Keeping-IsLicensed {A = A} m o k =
      go (m o) (k.ends o (record { graph_eq = refl; state_eq = refl; certificate_eq = refl }))
    where
      go : (r : Outcome W I A) → Ends (λ _. IsLicensed) (λ _. IsLicensed) r → IsLicensed r.0
      go (o', ok a) h = h
      go (o', err e) h = h

  restart-IsLicensed :
      (name : Option String) (options : BootOptions) (o : Orchestrator W I)
      → IsLicensed o
      → IsLicensed (request_restart now name options o).0
  unfolding request_restart
  restart-IsLicensed none options o l = Keeping-IsLicensed _ o (restart_all-Keeping now options l)
  restart-IsLicensed (some name) options o l = elim (Bool-cases (name === "")) [
    | inl e ↦
        rw e (Keeping-IsLicensed (restart_all now options) o (restart_all-Keeping now options l))
    | inr e ↦ rw e (Apart-IsLicensed (restart_named-Apart now name) o l)
  ]

  perform-IsLicensed :
      (r : Request W I) (o : Orchestrator W I) → IsLicensed o → IsLicensed (perform now r o)
  unfolding perform
  perform-IsLicensed (registering d) o l = Apart-IsLicensed (register_component-Apart d) o l
  perform-IsLicensed (booting_with options) o l =
      Keeping-IsLicensed _ o (boot-Keeping now options l)
  perform-IsLicensed (restarting_with name options) o l = restart-IsLicensed name options o l
  perform-IsLicensed shutting_it_down o l = Keeping-IsLicensed _ o (shutdown-Keeping now l)
  perform-IsLicensed going_to_maintenance o l = Keeping-IsLicensed _ o (maintenance-Keeping now l)
  perform-IsLicensed pausing o l = Keeping-IsLicensed _ o (pause-Keeping l)
  perform-IsLicensed resuming o l = Keeping-IsLicensed _ o (resume-Keeping l)
  perform-IsLicensed recovering_it o l = Keeping-IsLicensed _ o (recover-Keeping now l)

  perform_all-IsLicensed :
      (rs : List (Request W I)) (o : Orchestrator W I)
      → IsLicensed o
      → IsLicensed (perform_all now rs o)
  unfolding perform_all
  perform_all-IsLicensed [] o l = l
  perform_all-IsLicensed (r ∷ rs) o l =
      perform_all-IsLicensed rs (perform now r o) (perform-IsLicensed r o l)

  -- Whatever calls a client makes of a new orchestrator, and whatever the components do: when the
  -- platform is operational, paused or in maintenance, the last certificate was granted.
  pub live-certified :
      (event_bus : ComponentDefinition W I) (w : W) (rs : List (Request W I))
      → is_live (perform_all now rs (new_orchestrator event_bus w)).state ≡ true
      → IsGranted (perform_all now rs (new_orchestrator event_bus w)).last_certification
  unfolding new_orchestrator empty_orchestrator
  live-certified event_bus w rs h =
      (perform_all-IsLicensed rs (new_orchestrator event_bus w) (
          Apart-IsLicensed (register_component-Apart event_bus) (empty_orchestrator w)
            (unlicensed refl refl))).granted
        h
