-- ===== src/Gateway/Aborts.antt =====
-- An abort ends the turn and its playback.
use a21_stackchan_workmate.Base.{ℕ, ◌≡◌, true, false, Option, none, some, Text}
use a21_stackchan_workmate.Session.{
  Session, cancel_at, cancel_turn, set_listening, should_abort_turn,
}
use a21_stackchan_workmate.Gateway.{Client, World, suppress_after_abort}
use mathlib.Core.Option

-- What becomes of a turn that is interrupted for a reason.
pub record Ended (p : ℕ) (reason : Text) (c d : Client) : Type 0 where
  pub no_turn : d.session.current_turn ≡ none
  pub cancelled : d.session.turns p ≡ Option.map (cancel_turn reason) (c.session.turns p)
  pub aborts : should_abort_turn false (some p) d.session ≡ true
  pub silent : d.session.listening ≡ false

-- The client that an abort leaves before the stop of the playback is sent.
aborted : World → Text → ℕ → Client → Client
aborted w reason p c = record c {
  session =
      suppress_after_abort w reason (cancel_at (some p) reason (set_listening false 0 c.session));
}
