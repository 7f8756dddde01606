-- ===== src/Classifier/Manager/Single.antt =====
-- At most one worker runs for a resource.
use agentic_autoscaler.Prelude.{
  true, false, ◌≡◌, ◌⊎◌, inl, inr, All, ◌==◌, Bool-cases, some, ap, sym, ◌∙◌, All-map,
}
use agentic_autoscaler.Go.Map.{lookup}
use agentic_autoscaler.Api.{name_key, same_name_iff}
use agentic_autoscaler.Classifier.Manager.{Start, Manager}
use agentic_autoscaler.Classifier.Manager.Running.{
  is_cancelled, IsAccounted, Reaches, reach-AllAccounted,
}

-- One of two workers is cancelled, or they are for different resources, or they are the same.
abbrev pub IsApart : Manager → Start → Start → Type 0
IsApart m x y =
    (is_cancelled x.id m.cancelled ≡ true)
    ⊎ (is_cancelled y.id m.cancelled ≡ true)
    ⊎ ((x.key == y.key) ≡ false)
    ⊎ (x.id ≡ y.id)

same_handle {ℓ} : {A : Type ℓ} {a b : A} → some a ≡ some b → a ≡ b
same_handle e = cc e

accounted-IsApart : (m : Manager) (x y : Start) → IsAccounted m x → IsAccounted m y → IsApart m x y
accounted-IsApart m x y (inl gone) q = inl gone
accounted-IsApart m x y (inr held) (inl gone) = inr (inl gone)
accounted-IsApart m x y (inr (h, here, own)) (inr (k, there, its)) =
    elim (Bool-cases (x.key == y.key)) [
      | inr apart ↦ inr (inr (inl apart))
      | inl same ↦
          let e = (same_name_iff x.key y.key).0 same in
          inr (
            inr (
              inr (
                sym own
                ∙ ap (λ w. w.id) (same_handle (sym here ∙ ap (λ n. lookup n m.workers) e ∙ there))
                ∙ its)))
    ]

module _ {ℓ κ} {F : Type ℓ} {T : Type κ} where
  -- Whatever calls the manager has served: of any two workers that were started, one has been
  -- cancelled, or they are for different resources, or they are the same.
  pub reach-AllApart :
      (m : Manager) → Reaches F T m → All (λ x. All (IsApart m x) m.started) m.started
  reach-AllApart m r =
      let all = reach-AllAccounted m r in
      All-map m.started (λ x p. All-map m.started (λ y. accounted-IsApart m x y p) all) all
