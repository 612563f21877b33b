-- ===== src/Gateway/Kept.antt =====
-- What the replies and the stop of the playback leave alone in a client, and what a barge-in does.
use a21_stackchan_workmate.Base.{
  codes, trim_space, contains, has_prefix, to_lower, lower_rune, trim_left, trim_right, is_space,
  lower_rune, to_lower, has_prefix, contains, ◌≡◌, refl, arith, inl, inr, Bool, true, false, not,
  ◌&&◌, ◌||◌, Option, none, some, Bool-cases, is_empty, Text, text_eq, trim_space,
}
use a21_stackchan_workmate.Session.{
  TurnTask, update_turn, cancel_current_turn, prepare_listen_start_barge_in, claim_official_state,
  claim_state_reaction,
}
use a21_stackchan_workmate.Gateway.{
  Client, World, should_suppress_input_after_tts_stop, on_session, maybe_send_state_reaction,
  write_official_state, send_tts_stop, write_tts_stop, stop_playback, barge_in,
}
use a21_stackchan_workmate.Gateway.Steps.{if_holds}

-- The client with another official state and another reaction.
abbrev pub shown : Text → Text → Client → Client
shown official reaction c = record c {
  session = record c.session { official_state = official; state_reaction = reaction };
}

pub record Shows (c d : Client) : Type 0 where
  pub official : Text
  pub reaction : Text
  pub only : d ≡ shown official reaction c

pub unchanged-Shows : (c : Client) → Shows c c
unchanged-Shows c = record {
  official = c.session.official_state;
  reaction = c.session.state_reaction;
  only = refl;
}

reaction-Shows :
    (state : Text) (force : Bool) (c : Client)
    → Shows c (on_session (λ s. (claim_state_reaction state force s).0) c)
unfolding claim_state_reaction
reaction-Shows state force c =
    elim (Bool-cases (
      is_empty (trim_space state)
      || (not force && text_eq c.session.state_reaction (trim_space state)))) [
        | inl e ↦ rw e (unchanged-Shows c)
        | inr e ↦ rw e (record {
          official = c.session.official_state;
          reaction = trim_space state;
          only = refl;
        })
      ]

official-Shows :
    (state : Text) (force : Bool) (c d : Client)
    → Shows c d
    → Shows c (on_session (λ s. (claim_official_state state force s).0) d)
unfolding claim_official_state
official-Shows state force c d h =
    elim (Bool-cases (
      is_empty (trim_space state)
      || (not force && text_eq d.session.official_state (trim_space state)))) [
        | inl e ↦ rw e h
        | inr e ↦
            rw e
              (record { official = trim_space state; reaction = h.reaction; only = rw h.only refl })
      ]

pub write_official_state-Shows :
    (w : World) (state reason : Text) (force : Bool) (c : Client)
    → Shows c (write_official_state w state reason force c)
unfolding write_official_state maybe_send_state_reaction
write_official_state-Shows w state reason force c =
    let reacted : Shows c (maybe_send_state_reaction w state reason force c) =
      if_holds (Shows c) _ (unchanged-Shows c) (reaction-Shows state force c) in
    if_holds (Shows c) _ (unchanged-Shows c)
      (if_holds (Shows c) _ reacted (official-Shows state force c _ reacted))

-- The turns, counters and flags that a barge-in leaves alone.
pub record Interrupts (c d : Client) : Type 0 where
  pub allocated : d.session.allocated ≡ c.session.allocated
  pub counted : d.session.next_turn_id ≡ c.session.next_turn_id
  pub device : d.session.device_id ≡ c.session.device_id
  pub features : d.features ≡ c.features
  pub no_turn : d.session.current_turn ≡ none

unfoldable pub cancelled : World → Text → Client → Client
cancelled w reason c = record c {
  session = (prepare_listen_start_barge_in reason w.now 3000 c.session).0;
}

pub cancelled-Interrupts :
    (w : World) (reason : Text) (c : Client) → Interrupts c (cancelled w reason c)
unfolding cancelled prepare_listen_start_barge_in cancel_current_turn update_turn
cancelled-Interrupts w reason c = record {
  allocated = ground arith;
  counted = ground arith;
  device = ground arith;
  features = refl;
  no_turn = ground arith;
}

pub of_shown : (c d e : Client) → Interrupts c d → Shows d e → Interrupts c e
of_shown c d e i h = record {
  allocated = rw h.only i.allocated;
  counted = rw h.only i.counted;
  device = rw h.only i.device;
  features = rw h.only i.features;
  no_turn = rw h.only i.no_turn;
}

pub send_tts_stop-Shows :
    (w : World) (task : TurnTask) (reason : Text) (c : Client)
    → should_suppress_input_after_tts_stop reason ≡ false
    → Shows c (send_tts_stop w task reason c).0
unfolding send_tts_stop
send_tts_stop-Shows w task reason c keeps = elim (Bool-cases w.stop_written) [
  | inl e ↦ rw (e, keeps, send_tts_stop) (write_official_state-Shows w _ _ true c)
  | inr e ↦ rw (e, send_tts_stop) (unchanged-Shows c)
]

pub stop_playback-Shows :
    (w : World) (task : Option TurnTask) (reason : Text) (c : Client)
    → should_suppress_input_after_tts_stop reason ≡ false
    → Shows c (stop_playback w task reason c).0
unfolding write_tts_stop
stop_playback-Shows w none reason c keeps = unchanged-Shows c
stop_playback-Shows w (some task) reason c keeps = send_tts_stop-Shows w task reason c keeps

pub barge_in-Interrupts :
    (w : World) (cancel_reason stop_reason : Text) (c : Client)
    → should_suppress_input_after_tts_stop stop_reason ≡ false
    → Interrupts c (barge_in w cancel_reason stop_reason c).0
unfolding barge_in cancelled
barge_in-Interrupts w cancel_reason stop_reason c keeps =
    of_shown c (cancelled w cancel_reason c) _ (cancelled-Interrupts w cancel_reason c)
      (stop_playback-Shows w _ stop_reason _ keeps)

pub keeps_barge_in : should_suppress_input_after_tts_stop (codes "barge_in") ≡ false
unfolding should_suppress_input_after_tts_stop contains has_prefix to_lower lower_rune trim_space
    trim_left trim_right is_space
keeps_barge_in = refl

pub keeps_abort : should_suppress_input_after_tts_stop (codes "abort") ≡ false
unfolding should_suppress_input_after_tts_stop contains has_prefix to_lower lower_rune trim_space
    trim_left trim_right is_space
keeps_abort = refl
