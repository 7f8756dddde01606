-- ===== src/Explainer/Answers.antt =====
-- What the prompt says of a change of the replica count, and how the answer is cut.
use agentic_autoscaler.Prelude.{
  ℕ, zero, suc, ◌-◌, ◌≤◌, String, str_eq, concat, List, [], ◌∷◌, Bool, true, false, length, take,
  leb, ◌≡◌, ◌↔◌, inl, inr, refl, sym, ◌∙◌, arith, length-append, if◌then◌else◌,
}
use mathlib.Core.Path.{subst}
use agentic_autoscaler.Go.Time.{GoTime}
use agentic_autoscaler.Reasoning
use agentic_autoscaler.Decision.Cap.{CapInput, apply_cap_and_cooldown}
use agentic_autoscaler.Decision.Cap.Moves.{apply_cap_and_cooldown-moves}
use agentic_autoscaler.Controller.World.{ExplainRequest, Formats}
use agentic_autoscaler.Explainer.{bound_lines, max_parts, min_parts, line_if, trim_content}

length-take : (k : ℕ) (s : List ℕ) → k ≤ length s → length (take k s) ≡ k
length-take zero s h = refl
length-take (suc k) [] h = absurd (omega arith)
length-take (suc k) (x ∷ s) h = omega (arith, length-take k s (omega arith))

-- A cut text has the length of the text where it fits, and else exactly that of the limit; it is the
-- text itself exactly where that fits.
pub length-trim_content :
    (s : List ℕ) (max_len : ℕ)
    → (length (trim_content s max_len) ≡ (if leb (length s) max_len then length s else max_len))
      × ((trim_content s max_len ≡ s) ↔ (length s ≤ max_len))
unfolding trim_content
length-trim_content s n = ground (
  arith,
  length-take n s,
  length-take (n - 3) s,
  length-append (take (n - 3) s) (46 ∷ 46 ∷ 46 ∷ []),
)

-- The reason is not that of a replica bound.
abbrev IsUnbound : String → Type 0
IsUnbound s =
    (str_eq s Reasoning.max_replicas_binding ≡ false)
    × (str_eq s Reasoning.min_replicas_binding ≡ false)

unbound : {s t : String} → s ≡ t → IsUnbound t → IsUnbound s
unbound e h = subst IsUnbound (sym e) h

skipped :
    (b c : Bool) (p q : List String)
    → b ≡ false
    → c ≡ false
    → concat (line_if b p ∷ line_if c q ∷ []) ≡ ""
skipped b c p q e i = rw (e, i) refl

module _ {ℓ κ} {F : Type ℓ} (fmt : Formats F) {T : Type κ} ⦃t : GoTime T⦄ where
  -- The request for the explanation of a change of the replica count never asks for the lines of the
  -- replica bounds.
  pub bound_lines-moved :
      (req : ExplainRequest F) (c : CapInput T)
      → (apply_cap_and_cooldown c).should_patch ≡ true
      → req.reason ≡ (apply_cap_and_cooldown c).reason
      → bound_lines fmt req ≡ ""
  unfolding bound_lines
  bound_lines-moved req c moved same =
      let clear : IsUnbound req.reason = elim (apply_cap_and_cooldown-moves c moved) [
        | inl e ↦ unbound (same ∙ e) (refl, refl)
        | inr (inl e) ↦ unbound (same ∙ e) (refl, refl)
        | inr (inr (inl e)) ↦ unbound (same ∙ e) (refl, refl)
        | inr (inr (inr e)) ↦ unbound (same ∙ e) (refl, refl)
      ] in
      skipped _ _ (max_parts fmt req) (min_parts fmt req) clear.0 clear.1
