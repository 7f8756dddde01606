-- ===== src/Controller/Notifier.antt =====
-- internal/controller/interfaces.go: ChannelNotifier, and internal/classifier/manager.go: dropAndPush.
-- Both run on one goroutine at a time; a receiver that runs between their selects only empties the queue.
use agentic_autoscaler.Prelude.{
  ◌≤◌, List, [], ◌∷◌, length, ◌≡◌, refl, arith, Bool, if◌then◌else◌, length-append,
}
use agentic_autoscaler.Go.Channel.{Channel, rest, has_room, try_send, try_receive}

module _ {ℓ} {A : Type ℓ} where
  -- Drain, then send. `gap` says that a receiver ran in between.
  unfoldable pub notify : Bool → A → Channel A → Channel A
  unfolding try_send try_receive
  notify gap a ch =
      let drained = try_receive ch in try_send a (if gap then try_receive drained else drained)

  -- Send; if there was no room, drain and send again.
  unfoldable pub drop_and_push : Bool → A → Channel A → Channel A
  unfolding notify has_room
  drop_and_push gap a ch = if has_room ch then try_send a ch else notify gap a ch

  drained : (xs : List A) → length xs ≤ 1 → rest xs ≡ []
  drained [] h = refl
  drained (x ∷ []) h = refl
  drained (x ∷ y ∷ xs) h = absurd (omega arith)

  -- On a channel of capacity 1 with at most one value, Notify leaves the new value as the only one,
  -- and dropAndPush leaves exactly one value; whether or not a receiver ran in between.
  pub notify-newest :
      (gap : Bool) (a : A) (ch : Channel A)
      → ch.limit ≡ 1
      → length ch.queue ≤ 1
      → ((notify gap a ch).queue ≡ a ∷ []) × (length (drop_and_push gap a ch).queue ≡ 1)
  unfolding notify drop_and_push
  notify-newest gap a ch one few =
      ground (arith, drained ch.queue few, length-append ch.queue (a ∷ []))
