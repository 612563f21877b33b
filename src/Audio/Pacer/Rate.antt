-- ===== src/Audio/Pacer/Rate.antt =====
-- The rate that the pacer keeps.
use a21_stackchan_workmate.Base.{
  ℕ, ◌+◌, ◌-◌, ◌*◌, ◌≤◌, ◌<◌, ◌≡◌, ap, Option, none, some, List, [], ◌∷◌, arith, ℤ,
}
use Prim.Native.Nat.{zero-le}
use a21_stackchan_workmate.Audio.Pacer.{
  new_controller, Controller, Answers, wait_for_slot, send, send_all, latest,
}

-- Before the start is set no frame is beyond the prebuffer; after it, each frame beyond the
-- prebuffer has had its time.
abbrev pub Paced : Option ℕ → Controller → ℕ → Type 0
Paced none c last = c.sent_frames ≤ c.prebuffer_frames
Paced (some t) c last =
    c.prebuffer_frames < c.sent_frames
    → t + (c.sent_frames - c.prebuffer_frames) * c.frame_duration ≤ last

abbrev pub IsPaced : Controller → ℕ → Type 0
IsPaced c last = Paced c.started_at c last

slots : (p n d : ℕ) → p ≤ n → (n + 1 - p) * d ≡ (n - p + 1) * d
slots p n d h = ap (λ k. k * d) (omega arith)

send-IsPaced :
    (c : Controller) (a : Answers) (last : ℕ)
    → IsPaced c last
    → IsPaced (send c a).0 (latest (send c a).1 last (send c a).2)
unfolding send wait_for_slot
send-IsPaced c a last h = ground (arith, slots c.prebuffer_frames c.sent_frames c.frame_duration)

send_all-IsPaced :
    (c : Controller) (last : ℕ) (calls : List Answers)
    → IsPaced c last
    → IsPaced (send_all c last calls).0 (send_all c last calls).1
unfolding send_all
send_all-IsPaced c last [] h = h
send_all-IsPaced c last (a ∷ calls) h =
    send_all-IsPaced (send c a).0 (latest (send c a).1 last (send c a).2) calls
      (send-IsPaced c a last h)

-- The controller and the last time after calls of Send on a new controller.
abbrev pub run : ℤ → ℤ → ℕ → List Answers → Controller × ℕ
run frame_duration prebuffer last calls =
    send_all (new_controller frame_duration prebuffer) last calls

-- After any calls of Send on a new controller, whatever they meet, where more frames than the
-- prebuffer are sent, the start is set and the last frame went out no earlier than one frame
-- duration after it for each frame beyond the prebuffer.
pub send_all-paced :
    (frame_duration prebuffer : ℤ) (last : ℕ) (calls : List Answers)
    → (run frame_duration prebuffer last calls).0.prebuffer_frames
      < (run frame_duration prebuffer last calls).0.sent_frames
    → (t : ℕ) × ((run frame_duration prebuffer last calls).0.started_at ≡ some t)
      × (t
            + ((run frame_duration prebuffer last calls).0.sent_frames
                - (run frame_duration prebuffer last calls).0.prebuffer_frames)
              * (run frame_duration prebuffer last calls).0.frame_duration
          ≤ (run frame_duration prebuffer last calls).1)
send_all-paced frame_duration prebuffer last calls beyond =
    let c = new_controller frame_duration prebuffer in
    let fresh : IsPaced c last = unfold new_controller in zero-le in
    let paced = send_all-IsPaced c last calls fresh in ground arith
