-- ===== src/Gateway/Begins.antt =====
-- How many turns a connection begins (the loop of handleXiaozhiWS of internal/gateway/server.go).
use a21_stackchan_workmate.Base.{
  ℕ, ◌+◌, ◌<◌, ◌≡◌, ◌⊎◌, refl, arith, inl, inr, Bool, true, false, some, List, [], ◌∷◌,
}
use a21_stackchan_workmate.Protocol.{Mode}
use a21_stackchan_workmate.Session.{
  Session, update_turn, should_abort_turn, start_turn, set_current_turn_mode, cancel_current_turn,
  prepare_listen_start_barge_in, suppress_input_until, clear_suppressed_listen, cancel_turn_context,
  complete_turn, claim_tts_stop, claim_official_state, claim_state_reaction, mark_downlink,
  set_listening, receive_hello,
}
use a21_stackchan_workmate.Session.Steps.{Op, start, apply, run}
use a21_stackchan_workmate.Session.Turns.{run-should_abort_turn}
use a21_stackchan_workmate.Gateway.{Client, World, Message, handle_all}
use a21_stackchan_workmate.Gateway.Asked.{accepted_starts}
use a21_stackchan_workmate.Gateway.Steps.{Reaches, starts, starts_in}
use a21_stackchan_workmate.Gateway.Handled.{handle_all-Reaches}

-- So many turns have begun: the counters tell, what had to abort still has to, and with one more turn
-- every older one has to.
pub record Begins (n : ℕ) (s t : Session) : Type 0 where
  pub counted : t.next_turn_id ≡ n + s.next_turn_id
  pub allocated : t.allocated ≡ n + s.allocated
  pub still_aborts :
      (parent_done : Bool) (p : ℕ)
      → p < s.allocated
      → should_abort_turn parent_done (some p) s ≡ true
      → should_abort_turn parent_done (some p) t ≡ true
  pub older_abort : (p : ℕ) → 0 < n → p < s.allocated → should_abort_turn false (some p) t ≡ true

apply-counters :
    (op : Op) (s : Session)
    → ((apply op s).next_turn_id ≡ starts op + s.next_turn_id)
      × ((apply op s).allocated ≡ starts op + s.allocated)
unfolding apply start_turn set_current_turn_mode cancel_current_turn update_turn
    prepare_listen_start_barge_in suppress_input_until clear_suppressed_listen cancel_turn_context
    complete_turn claim_tts_stop claim_official_state claim_state_reaction mark_downlink
    set_listening receive_hello
apply-counters op s = ground arith

run-counters :
    (ops : List Op) (s : Session)
    → ((run ops s).next_turn_id ≡ starts_in ops + s.next_turn_id)
      × ((run ops s).allocated ≡ starts_in ops + s.allocated)
unfolding run
run-counters [] s = (omega arith, omega arith)
run-counters (op ∷ ops) s =
    let (id, place) = apply-counters op s in
    let (ids, places) = run-counters ops (apply op s) in
    (omega (arith, id, ids), omega (arith, place, places))

starts-cases : (op : Op) → ((mode : Mode) × (op ≡ start mode)) ⊎ (starts op ≡ 0)
starts-cases (start mode) = inl (mode, refl)
starts-cases _ = inr refl

start-older_abort :
    (mode : Mode) (p : ℕ) (s : Session)
    → p < s.allocated
    → should_abort_turn false (some p) (apply (start mode) s) ≡ true
unfolding apply start_turn should_abort_turn cancel_current_turn update_turn
start-older_abort mode p s old = ground arith

run-older_abort :
    (ops : List Op) (p : ℕ) (s : Session)
    → 0 < starts_in ops
    → p < s.allocated
    → should_abort_turn false (some p) (run ops s) ≡ true
unfolding run
run-older_abort [] p s more old = absurd (omega arith)
run-older_abort (op ∷ ops) p s more old =
    let still : p < (apply op s).allocated = omega (arith, (apply-counters op s).1) in
    elim (starts-cases op) [
      | inl (mode, e) ↦
          run-should_abort_turn ops false p (apply op s) still
            (rw e (start-older_abort mode p s old))
      | inr quiet ↦ run-older_abort ops p (apply op s) (omega arith) still
    ]

Reaches-Begins : (n : ℕ) (s t : Session) → Reaches n s t → Begins n s t
Reaches-Begins n s t r =
    let (ids, places) = run-counters r.ops s in
    rw (← r.arrives, ← r.begun)
      (record {
        counted = ids;
        allocated = places;
        still_aborts =
            λ parent_done p old aborts. run-should_abort_turn r.ops parent_done p s old aborts;
        older_abort = λ p more old. run-older_abort r.ops p s more old;
      })

-- Whatever messages a connection handles, it begins exactly one turn for each start of listening
-- that comes after a hello and at a time at which the input is not held back, and none for any other
-- message. The turns that had to abort still have to, and once a turn has begun all that were there
-- before have to abort.
pub handle_all-Begins :
    (messages : List (World × Message)) (c : Client)
    → Begins (accepted_starts messages c) c.session (handle_all messages c).0.session
handle_all-Begins messages c = Reaches-Begins _ _ _ (handle_all-Reaches messages c)
