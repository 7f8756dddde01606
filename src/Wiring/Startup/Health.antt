-- ===== src/Wiring/Startup/Health.antt =====
-- When main starts its workers, and how it ends.
use agentic_autoscaler.Prelude.{
  ℤ, pos, String, Option, none, some, List, [], ◌∷◌, ◌++◌, false, ◌≡◌, ◌⊎◌, inl, inr, refl, ap, ◌∙◌,
  arith,
}
use agentic_autoscaler.Go.Float.{Float64}
use agentic_autoscaler.Config.{Config, ConfigError}
use agentic_autoscaler.Config.Load.{Texts, Environ, load_from_env, summary}
use agentic_autoscaler.Config.Checked.{IsChecked}
use agentic_autoscaler.Config.Faults.{IsReported, load_from_env-IsReported}
use agentic_autoscaler.Controller.World.{Formats}
use agentic_autoscaler.Explainer.Worker as Explain
use agentic_autoscaler.Wiring.{explainer_config}
use agentic_autoscaler.Wiring.Startup.{
  Flags, Boot, Answers, going, exited, Startup, ◌>>=◌, ◌>>◌, call, or_exit, loaded, set_up, launch,
  boot, main,
}
use agentic_autoscaler.Wiring.Startup.Steps.{
  IsCode, IsHealthy, EndsBy, is_start, started, started_quiet, Goes, goes_call, goes_or_exit,
  goes_last, goes_or_die, goes_webhook, started-append,
}

module _ {F : Type 0} ⦃f : Float64 F⦄ (x : Texts F) (formats : Formats F) (flags : Flags)
    (env : Environ) (answers : Answers) where
  -- In health both workers are started, and main ends as the manager does; otherwise nothing is started
  -- and the process ends with a code.
  abbrev pub Starts : Config F → Startup F (Unit {0}) → Type 0
  Starts cfg out =
      (IsHealthy env answers
        × (started out.0 ≡ Boot.go_explainer (explainer_config cfg) ∷ Boot.start_manager ∷ [])
        × EndsBy answers.start out.1)
      ⊎ ((¬ IsHealthy env answers)
          × (started out.0 ≡ [])
          × (code : ℤ) × (out.1 ≡ exited code)
          × IsCode answers code)

  set_up-Goes :
      (cfg : Config F) → Goes answers (set_up formats flags env answers cfg) (IsHealthy env answers)
  unfolding set_up
  set_up-Goes cfg = goes_call _ refl (
      goes_or_die _ refl (
        goes_call _ refl (
          goes_or_exit _ _ (
            goes_webhook _ _ _ (
              goes_call _ refl (
                goes_call _ refl (
                  goes_call _ refl (
                    goes_or_exit _ _ (
                      goes_call _ refl
                        (goes_or_exit _ _ (goes_call _ refl (goes_last _ _))))))))))))

  by_answer :
      (c : Explain.WorkerConfig) (o : Option String)
      → let end = or_exit {F = F} o "problem running manager" in
        (Boot.go_explainer c ∷ Boot.start_manager ∷ started end.0
          ≡ Boot.go_explainer c ∷ Boot.start_manager ∷ [])
        × EndsBy o end.1
  unfolding or_exit
  by_answer c none = (refl, refl)
  by_answer c (some e) = (refl, refl)

  launched :
      (cfg : Config F)
      → (started (launch answers cfg).0
          ≡ Boot.go_explainer (explainer_config cfg) ∷ Boot.start_manager ∷ [])
        × EndsBy answers.start (launch answers cfg).1
  unfolding launch call or_exit ◌>>◌
  launched cfg = by_answer (explainer_config cfg) answers.start

  guarded :
      (cfg : Config F) (m : Startup F (Unit {0}))
      → Goes answers m (IsHealthy env answers)
      → Starts cfg (m >> launch answers cfg)
  unfolding ◌>>◌
  guarded cfg (calls, going tt) g =
      let (both, end) = launched cfg in
      elim g.end [
        | inl (healthy, e) ↦ inl (
          healthy,
          started-append calls _ ∙ ap (λ cs. cs ++ started (launch answers cfg).0) g.clean ∙ both,
          end,
        )
        | inr (wrong, code, e, why) ↦ absurd (ground arith)
      ]
  guarded cfg (calls, exited code) g = elim g.end [
    | inl (healthy, e) ↦ absurd (ground arith)
    | inr (wrong, c, e, why) ↦ inr (wrong, g.clean, c, e, why)
  ]

  quietly :
      (cfg : Config F) (c : Boot F) (m : Startup F (Unit {0}))
      → is_start c ≡ false
      → Starts cfg m
      → Starts cfg (call c >> m)
  unfolding ◌>>◌ call
  quietly cfg c m quiet (inl (healthy, both, end)) =
      inl (healthy, started_quiet c m.0 quiet ∙ both, end)
  quietly cfg c m quiet (inr (wrong, clean, code, e, why)) =
      inr (wrong, started_quiet c m.0 quiet ∙ clean, code, e, why)

  boot-Starts : (cfg : Config F) → Starts cfg (boot x formats flags env answers cfg)
  unfolding boot
  boot-Starts cfg =
      let rest = set_up formats flags env answers cfg >> launch answers cfg in
      let logged = Boot.log_config (summary x cfg) in
      quietly cfg Boot.set_logger (call logged >> rest) refl
        (quietly cfg logged rest refl (guarded cfg _ (set_up-Goes cfg)))

  -- What main does with the outcome of LoadFromEnv.
  abbrev pub IsGuarded : Config F ⊎ List ConfigError → Startup F (Unit {0}) → Type 0
  IsGuarded (inl cfg) out = IsChecked cfg × Starts cfg out
  IsGuarded (inr errs) out = out ≡ (Boot.print_config_error errs ∷ [], exited (pos 1))

  loaded-IsGuarded :
      (l : Config F ⊎ List ConfigError)
      → IsReported x env l
      → IsGuarded l (loaded l >>= boot x formats flags env answers)
  unfolding ◌>>=◌ loaded
  loaded-IsGuarded (inl cfg) (readable, checked) = (checked, boot-Starts cfg)
  loaded-IsGuarded (inr errs) report = refl

  -- Where the configuration loads, it has the bounds of the design, and main starts the explainer and then
  -- the manager exactly if every step of the setup succeeds, the webhook's only if it is enabled; then it
  -- ends as the manager does, and otherwise it starts nothing and the process ends with 1, or with the
  -- code of GetConfigOrDie. Where the configuration does not load, main prints why, does nothing else,
  -- and the process ends with 1.
  pub main-IsGuarded : IsGuarded (load_from_env x env) (main x formats flags env answers)
  unfolding main
  main-IsGuarded = loaded-IsGuarded (load_from_env x env) (load_from_env-IsReported x env)
