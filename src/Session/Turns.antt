-- ===== src/Session/Turns.antt =====
-- The turns of a session: a turn that has to abort never comes back, a turn keeps its place until it
-- is cancelled, completes or its playback was stopped, and no two turns share an id.
use a21_stackchan_workmate.Base.{
  ℕ, suc, sym, ◌∙◌, ◌||◌, ◌≡◌, ◌≢◌, ◌≤◌, ◌<◌, arith, Bool, true, false, ◌&&◌, ltb, List, [], ◌∷◌,
  Option, none, some, numbered_ne, ◌==◌, numbered,
}
use a21_stackchan_workmate.Session.{
  Session, Turn, update_turn, turn_id, turn_prefix, cancel_turn, should_abort_turn, start_turn,
  set_current_turn_mode, cancel_current_turn, prepare_listen_start_barge_in, suppress_input_until,
  clear_suppressed_listen, cancel_turn_context, complete_turn, claim_tts_stop, claim_official_state,
  claim_state_reaction, mark_downlink, set_listening, receive_hello, points_to, is_cancelled,
}
use a21_stackchan_workmate.Session.Steps.{Op, apply, run, complete, listen_barge_in}

apply-allocated : (op : Op) (s : Session) → s.allocated ≤ (apply op s).allocated
unfolding apply start_turn set_current_turn_mode cancel_current_turn update_turn
    prepare_listen_start_barge_in suppress_input_until clear_suppressed_listen cancel_turn_context
    complete_turn claim_tts_stop claim_official_state claim_state_reaction mark_downlink
    set_listening receive_hello
apply-allocated op s = ground arith

apply-should_abort_turn :
    (op : Op) (parent_done : Bool) (p : ℕ) (s : Session)
    → p < s.allocated
    → should_abort_turn parent_done (some p) s ≡ true
    → should_abort_turn parent_done (some p) (apply op s) ≡ true
unfolding apply start_turn set_current_turn_mode cancel_current_turn update_turn
    prepare_listen_start_barge_in suppress_input_until clear_suppressed_listen cancel_turn_context
    complete_turn claim_tts_stop claim_official_state claim_state_reaction mark_downlink
    set_listening receive_hello should_abort_turn cancel_turn
apply-should_abort_turn op parent_done p s old aborts = ground arith

-- A turn that has to abort has to abort forever: whatever the session does after a turn was cancelled,
-- completed or followed by another, none of its messages is written again.
pub run-should_abort_turn :
    (ops : List Op) (parent_done : Bool) (p : ℕ) (s : Session)
    → p < s.allocated
    → should_abort_turn parent_done (some p) s ≡ true
    → should_abort_turn parent_done (some p) (run ops s) ≡ true
unfolding run
run-should_abort_turn [] parent_done p s old aborts = aborts
run-should_abort_turn (op ∷ ops) parent_done p s old aborts =
    run-should_abort_turn ops parent_done p (apply op s) (omega (arith, apply-allocated op s))
      (apply-should_abort_turn op parent_done p s old aborts)

abbrev has_number : ℕ → ℕ → Option Turn → Bool
has_number p allocated none = true
has_number p allocated (some t) = t.id == suc p && ltb p allocated

-- A session whose turns are numbered in the order in which they were started, the current one being
-- the newest.
pub record IsSession (s : Session) : Type 0 where
  pub counted : s.next_turn_id ≡ s.allocated
  pub numbers : (p : ℕ) → has_number p s.allocated (s.turns p) ≡ true
  pub newest : (p : ℕ) → points_to p s.current_turn ≡ true → suc p ≡ s.allocated

apply-numbers :
    (op : Op) (s : Session)
    → IsSession s
    → (p : ℕ) → has_number p (apply op s).allocated ((apply op s).turns p) ≡ true
unfolding apply start_turn set_current_turn_mode cancel_current_turn update_turn
    prepare_listen_start_barge_in suppress_input_until clear_suppressed_listen cancel_turn_context
    complete_turn claim_tts_stop claim_official_state claim_state_reaction mark_downlink
    set_listening receive_hello cancel_turn
apply-numbers op s v p = ground (arith, v.counted, v.numbers p)

apply-IsSession : (op : Op) (s : Session) → IsSession s → IsSession (apply op s)
unfolding apply start_turn set_current_turn_mode cancel_current_turn update_turn
    prepare_listen_start_barge_in suppress_input_until clear_suppressed_listen cancel_turn_context
    complete_turn claim_tts_stop claim_official_state claim_state_reaction mark_downlink
    set_listening receive_hello cancel_turn
apply-IsSession op s v = record {
  counted = ground (arith, v.counted);
  numbers = apply-numbers op s v;
  newest = λ p here. ground (arith, v.newest p);
}

pub run-IsSession : (ops : List Op) (s : Session) → IsSession s → IsSession (run ops s)
unfolding run
run-IsSession [] s v = v
run-IsSession (op ∷ ops) s v = run-IsSession ops (apply op s) (apply-IsSession op s v)

-- In every session that comes from a new one, only the turn that was started last may write: the id of
-- a turn that need not abort is the newest.
pub run-should_abort_turn_newest :
    (ops : List Op) (s : Session)
    → IsSession s
    → (parent_done : Bool) (p : ℕ) (t : Turn) → (run ops s).turns p ≡ some t
    → should_abort_turn parent_done (some p) (run ops s) ≡ false
    → t.id ≡ (run ops s).next_turn_id
unfolding should_abort_turn
run-should_abort_turn_newest ops s v parent_done p t here writes =
    let w = run-IsSession ops s v in
    ground (arith, w.counted, w.numbers p, w.newest p, here, writes)

turn_id-has_number :
    (p n : ℕ) (t : Turn) (turn : Option Turn)
    → turn ≡ some t
    → has_number p n turn ≡ true
    → turn_id (some t) ≡ numbered turn_prefix (suc p)
unfolding turn_id
turn_id-has_number p n t turn here numbered_t =
    let e : t.id ≡ suc p = ground arith in rw e (ground arith)

-- In every session that comes from a new one, two turns have two ids, so that a message or a trace
-- event of one is never taken for another's.
pub run-turn_id_ne :
    (ops : List Op) (s : Session)
    → IsSession s
    → (p q : ℕ) (t u : Turn) → (run ops s).turns p ≡ some t
    → (run ops s).turns q ≡ some u
    → p ≢ q
    → turn_id (some t) ≢ turn_id (some u)
run-turn_id_ne ops s v p q t u here there other same =
    let w = run-IsSession ops s v in
    let first = turn_id-has_number p (run ops s).allocated t _ here (w.numbers p) in
    let second = turn_id-has_number q (run ops s).allocated u _ there (w.numbers q) in
    numbered_ne turn_prefix (suc p) (suc q) (λ e. other (omega (arith, e)))
      (sym first ∙ same ∙ second)

-- What may take a turn's place without cancelling it: its completion, and a barge-in where the stop of
-- the playback was already sent.
abbrev may_leave : Op → ℕ → Session → Bool
may_leave (complete turn) p s = points_to p turn
may_leave (listen_barge_in reason now window) p s = s.tts_stop_sent
may_leave _ p s = false

abbrev pub may_leave_in : List Op → ℕ → Session → Bool
may_leave_in [] p s = false
may_leave_in (op ∷ ops) p s = may_leave op p s || may_leave_in ops p (apply op s)

abbrev stands : Option Turn → Bool
stands none = false
stands (some t) = true

-- Current, or cancelled.
abbrev pub held : ℕ → Session → Bool
held p s = stands (s.turns p) && (points_to p s.current_turn || is_cancelled (s.turns p))

apply-held :
    (op : Op) (p : ℕ) (s : Session)
    → p < s.allocated
    → held p s ≡ true
    → held p (apply op s) || may_leave op p s ≡ true
unfolding apply start_turn set_current_turn_mode cancel_current_turn update_turn
    prepare_listen_start_barge_in suppress_input_until clear_suppressed_listen cancel_turn_context
    complete_turn claim_tts_stop claim_official_state claim_state_reaction mark_downlink
    set_listening receive_hello cancel_turn
apply-held op p s old h = ground (arith, h)

keep-held :
    (ops : List Op) (p : ℕ) (s : Session)
    → p < s.allocated
    → held p s ≡ true
    → may_leave_in ops p s ≡ false
    → held p (run ops s) ≡ true
unfolding run
keep-held [] p s old h kept = h
keep-held (op ∷ ops) p s old h kept =
    keep-held ops p (apply op s) (omega (arith, apply-allocated op s))
      (ground (arith, apply-held op p s old h, kept)) (ground (arith, kept))

-- A turn that is current stays current until it is cancelled, in any sequence of operations in which
-- it neither completes nor meets a barge-in after the stop of the playback was sent.
pub run-held :
    (ops : List Op) (p : ℕ) (t : Turn) (s : Session)
    → IsSession s
    → points_to p s.current_turn ≡ true
    → s.turns p ≡ some t
    → may_leave_in ops p s ≡ false
    → held p (run ops s) ≡ true
run-held ops p t s v current here kept =
    keep-held ops p s (omega (arith, v.newest p current)) (ground (arith, current, here)) kept
