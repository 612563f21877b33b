-- ===== src/Gateway/Steps.antt =====
-- The handlers of a connection as sequences of the operations on its session.
use a21_stackchan_workmate.Base.{
  ℕ, suc, not, ◌+◌, ◌≡◌, refl, ap, ◌∙◌, arith, Bool, true, false, Option, none, some, List, [], ◌∷◌,
  ◌++◌, if◌then◌else◌, Text, codes,
}
use a21_stackchan_workmate.Protocol.{Mode}
use a21_stackchan_workmate.Session.{Session, TurnTask}
use a21_stackchan_workmate.Session.Steps.{
  Op, start, listen_barge_in, suppress_input, claim_official, claim_reaction, adopt, apply, run,
}
use a21_stackchan_workmate.Gateway.{
  Client, World, Output, official_state_for_tts_stop, should_suppress_input_after_tts_stop,
  xiaozhi_error, maybe_send_state_reaction, write_official_state, send_tts_stop, write_tts_stop,
  stop_playback, barge_in,
}

-- How many turns an operation begins.
abbrev pub starts : Op → ℕ
starts (start mode) = 1
starts _ = 0

abbrev pub starts_in : List Op → ℕ
starts_in [] = 0
starts_in (op ∷ ops) = starts op + starts_in ops

-- From one state of a session to another by operations that begin so many turns.
pub record Reaches (n : ℕ) (s t : Session) : Type 0 where
  pub ops : List Op
  pub begun : starts_in ops ≡ n
  pub arrives : run ops s ≡ t

run-append : (ops more : List Op) (s : Session) → run (ops ++ more) s ≡ run more (run ops s)
unfolding run
run-append [] more s = refl
run-append (op ∷ ops) more s = run-append ops more (apply op s)

starts_in-append : (ops more : List Op) → starts_in (ops ++ more) ≡ starts_in ops + starts_in more
starts_in-append [] more = omega arith
starts_in-append (op ∷ ops) more = omega (arith, starts_in-append ops more)

pub stays : (s : Session) → Reaches 0 s s
unfolding run
stays s = record { ops = []; begun = refl; arrives = refl }

pub joins : {n k : ℕ} {s t u : Session} → Reaches n s t → Reaches k t u → Reaches (n + k) s u
joins {n} {k} {s} {t} {u} r q = record {
  ops = r.ops ++ q.ops;
  begun = omega (arith, starts_in-append r.ops q.ops, r.begun, q.begun);
  arrives = run-append r.ops q.ops s ∙ ap (run q.ops) r.arrives ∙ q.arrives;
}

one_op : (op : Op) {n : ℕ} {s t : Session} → Reaches n s t → Reaches (n + starts op) s (apply op t)
unfolding run
one_op op {n} {s} {t} r = joins r (record { ops = op ∷ []; begun = omega arith; arrives = refl })

-- One more operation, that begins no turn.
pub then_op :
    (op : Op) {n : ℕ} {s t : Session} → starts op ≡ 0 → Reaches n s t → Reaches n s (apply op t)
then_op op {n} {s} {t} quiet r =
    let more = one_op op r in
    record { ops = more.ops; begun = omega (arith, more.begun, quiet); arrives = more.arrives }

-- One more turn.
pub then_start :
    (mode : Mode) {n : ℕ} {s t : Session} → Reaches n s t → Reaches (suc n) s (apply (start mode) t)
then_start mode {n} {s} {t} r =
    let more = one_op (start mode) r in
    record { ops = more.ops; begun = omega (arith, more.begun); arrives = more.arrives }

-- A branch that is taken or not.
pub if_holds {ℓ} :
    {A : Type ℓ} (P : A → Type 0) (test : Bool) {x y : A} → P x → P y → P (if test then x else y)
if_holds P true taken other = taken
if_holds P false taken other = other

pub if_true {ℓ} : {A : Type ℓ} (test : Bool) (x y : A) → test ≡ true → (if test then x else y) ≡ x
if_true true x y e = refl
if_true false x y e = cc

pub if_false {ℓ} : {A : Type ℓ} (test : Bool) (x y : A) → test ≡ false → (if test then x else y) ≡ y
if_false true x y e = cc
if_false false x y e = refl

pub not_of_true : (test : Bool) → test ≡ true → not test ≡ false
not_of_true test e = ground (arith, e)

-- The client of a handler's result is reached from a session.
pub record Handled (n : ℕ) (s : Session) (result : Client × List Output) : Type 0 where
  pub reached : Reaches n s result.0.session

-- The same of a client alone.
pub record Changed (n : ℕ) (s : Session) (c : Client) : Type 0 where
  pub reached : Reaches n s c.session

pub leaves :
    {n : ℕ} {s : Session} {c : Client} {sent : List Output} → Changed n s c → Handled n s (c, sent)
leaves r = record { reached = r.reached }

pub xiaozhi_error-Handled :
    (w : World) (code : Text) (c : Client) {n : ℕ} {s : Session}
    → Changed n s c
    → Handled n s (xiaozhi_error w code c)
unfolding xiaozhi_error apply
xiaozhi_error-Handled w code c r = record {
  reached = then_op (adopt c.session.device_id _ _) refl r.reached;
}

maybe_send_state_reaction-Changed :
    (w : World) (state reason : Text) (force : Bool) (c : Client) {n : ℕ} {s : Session}
    → Changed n s c
    → Changed n s (maybe_send_state_reaction w state reason force c)
unfolding maybe_send_state_reaction apply
maybe_send_state_reaction-Changed w state reason force c {n} {s} r =
    if_holds (Changed n s) _ r
      (record { reached = then_op (claim_reaction state force) refl r.reached })

pub write_official_state-Changed :
    (w : World) (state reason : Text) (force : Bool) (c : Client) {n : ℕ} {s : Session}
    → Changed n s c
    → Changed n s (write_official_state w state reason force c)
unfolding write_official_state apply
write_official_state-Changed w state reason force c {n} {s} r =
    let reacted = maybe_send_state_reaction-Changed w state reason force c r in
    if_holds (Changed n s) _ r (
      if_holds (Changed n s) _ reacted
        (record { reached = then_op (claim_official state force) refl reacted.reached }))

send_tts_stop-Handled :
    (w : World) (task : TurnTask) (reason : Text) (c : Client) {n : ℕ} {s : Session}
    → Changed n s c
    → Handled n s (send_tts_stop w task reason c)
unfolding send_tts_stop apply
send_tts_stop-Handled w task reason c {n} {s} r =
    let shown = write_official_state-Changed w (official_state_for_tts_stop reason) _ true c r in
    if_holds (Handled n s) w.stop_written
      (leaves (
        if_holds (Changed n s) (should_suppress_input_after_tts_stop reason)
          (record {
            reached =
                then_op (suppress_input (w.later + 900) (codes "post_tts_drain")) refl
                  shown.reached;
          })
          shown))
      (leaves r)

-- What a barge-in does once the turn is cancelled.
pub stop_playback-Handled :
    (w : World) (task : Option TurnTask) (reason : Text) (c : Client) {n : ℕ} {s : Session}
    → Changed n s c
    → Handled n s (stop_playback w task reason c)
unfolding write_tts_stop
stop_playback-Handled w none reason c r = leaves r
stop_playback-Handled w (some task) reason c r = send_tts_stop-Handled w task reason c r

pub barge_in-Handled :
    (w : World) (cancel_reason stop_reason : Text) (c : Client) {n : ℕ} {s : Session}
    → Changed n s c
    → Handled n s (barge_in w cancel_reason stop_reason c)
unfolding barge_in apply
barge_in-Handled w cancel_reason stop_reason c r =
    stop_playback-Handled w _ stop_reason _
      (record { reached = then_op (listen_barge_in cancel_reason w.now 3000) refl r.reached })
