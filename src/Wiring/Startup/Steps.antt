-- ===== src/Wiring/Startup/Steps.antt =====
-- The steps of the setup, one by one: what they start, and where they end the process.
use agentic_autoscaler.Prelude.{
  ℤ, pos, String, Option, none, some, List, [], ◌∷◌, ◌++◌, Bool, true, false, ◌≡◌, ◌⊎◌, inl, inr,
  refl, ◌∙◌, arith,
}
use agentic_autoscaler.Config.Load.{Environ}
use agentic_autoscaler.Wiring.Startup.{
  Boot, Answers, Outcome, going, exited, Startup, ◌>>◌, call, or_exit, or_die, when,
  webhooks_enabled,
}

-- The process ends with 1, or with the code of GetConfigOrDie.
abbrev pub IsCode : Answers → ℤ → Type 0
IsCode answers code = (code ≡ pos 1) ⊎ (answers.kube_config ≡ some code)

-- Every step before the workers succeeds; the webhook's counts only if it is enabled.
abbrev pub IsHealthy : Environ → Answers → Type 0
IsHealthy env answers =
    (answers.kube_config ≡ none)
    × ((answers.manager ≡ none)
        × (((webhooks_enabled env ≡ false) ⊎ (answers.webhook ≡ none))
            × ((answers.controller ≡ none) × ((answers.healthz ≡ none) × (answers.readyz ≡ none)))))

abbrev pub EndsBy : Option String → Outcome (Unit {0}) → Type 0
EndsBy none o = o ≡ going tt
EndsBy (some e) o = o ≡ exited (pos 1)

module _ {F : Type 0} where
  abbrev pub is_start : Boot F → Bool
  is_start (Boot.go_explainer c) = true
  is_start Boot.start_manager = true
  is_start c = false

  -- The workers that are started, in their order.
  abbrev pub started : List (Boot F) → List (Boot F)
  started [] = []
  started (Boot.go_explainer c ∷ cs) = Boot.go_explainer c ∷ started cs
  started (Boot.start_manager ∷ cs) = Boot.start_manager ∷ started cs
  started (c ∷ cs) = started cs

  pub started_quiet :
      (c : Boot F) (cs : List (Boot F)) → is_start c ≡ false → started (c ∷ cs) ≡ started cs
  started_quiet c cs h = ground arith

  -- Nothing is started; where `P` holds the steps go on, and elsewhere the process ends.
  pub record Goes (answers : Answers) (m : Startup F (Unit {0})) (P : Type 0) : Type 0 where
    pub clean : started m.0 ≡ []
    pub end :
        (P × (m.1 ≡ going tt)) ⊎ ((¬ P) × (code : ℤ) × (m.1 ≡ exited code) × IsCode answers code)

  pub goes_call :
      {P : Type 0} {answers : Answers} (c : Boot F) {k : Startup F (Unit {0})}
      → is_start c ≡ false
      → Goes answers k P
      → Goes answers (call c >> k) P
  unfolding call ◌>>◌
  goes_call c {k = k} quiet g = record { clean = started_quiet c k.0 quiet ∙ g.clean; end = g.end }

  -- A condition that holds.
  also :
      {P Q : Type 0} {answers : Answers} {k : Startup F (Unit {0})}
      → Q
      → Goes answers k P
      → Goes answers k (Q × P)
  also {P} {Q} {answers} {k} q g =
      let end : ((Q × P) × (k.1 ≡ going tt))
          ⊎ ((¬ (Q × P)) × (code : ℤ) × (k.1 ≡ exited code) × IsCode answers code) =
        elim g.end [
          | inl (p, e) ↦ inl ((q, p), e)
          | inr (wrong, code, e, why) ↦ inr ((λ h. wrong h.1), code, e, why)
        ] in
      record { clean = g.clean; end = end }

  ended :
      {P : Type 0} {answers : Answers} (cs : List (Boot F)) (code : ℤ)
      → started cs ≡ []
      → ¬ P
      → IsCode answers code
      → Goes answers (cs, exited code) P
  ended cs code clean wrong why = record { clean = clean; end = inr (wrong, code, refl, why) }

  pub goes_or_exit :
      {P : Type 0} {answers : Answers} (o : Option String) (message : String)
      {k : Startup F (Unit {0})}
      → Goes answers k P
      → Goes answers (or_exit o message >> k) ((o ≡ none) × P)
  unfolding or_exit ◌>>◌
  goes_or_exit none message g = also refl g
  goes_or_exit (some e) message g =
      ended (Boot.log_error message ∷ []) (pos 1) refl (λ h. absurd (ground arith)) (inl refl)

  pub goes_last :
      {answers : Answers} (o : Option String) (message : String)
      → Goes answers (or_exit o message) (o ≡ none)
  unfolding or_exit
  goes_last none message = record { clean = refl; end = inl (refl, refl) }
  goes_last (some e) message =
      ended (Boot.log_error message ∷ []) (pos 1) refl (λ h. absurd (ground arith)) (inl refl)

  pub goes_or_die :
      {P : Type 0} {answers : Answers} (o : Option ℤ) {k : Startup F (Unit {0})}
      → answers.kube_config ≡ o
      → Goes answers k P
      → Goes answers (or_die o >> k) ((o ≡ none) × P)
  unfolding or_die ◌>>◌
  goes_or_die none same g = also refl g
  goes_or_die (some code) same g = ended [] code refl (λ h. absurd (ground arith)) (inr same)

  pub goes_webhook :
      {P : Type 0} {answers : Answers} (b : Bool) (o : Option String) (message : String)
      {k : Startup F (Unit {0})}
      → Goes answers k P
      → Goes answers
          (when b (call Boot.setup_webhook >> or_exit o message) >> k)
          (((b ≡ false) ⊎ (o ≡ none)) × P)
  unfolding when or_exit call ◌>>◌
  goes_webhook false o message g = also (inl refl) g
  goes_webhook true none message g =
      let on = also (inr refl) g in record { clean = on.clean; end = on.end }
  goes_webhook true (some m) message g =
      ended (Boot.setup_webhook ∷ Boot.log_error message ∷ []) (pos 1) refl
        (λ h. elim h.0 [ inl e ↦ absurd (ground arith) | inr e ↦ absurd (ground arith) ]) (inl refl)

  pub started-append : (xs ys : List (Boot F)) → started (xs ++ ys) ≡ started xs ++ started ys
  started-append [] ys = refl
  started-append (x ∷ xs) ys = ground (arith, started-append xs ys)
