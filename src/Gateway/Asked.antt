-- ===== src/Gateway/Asked.antt =====
-- Which messages of a connection begin a turn: the starts of listening after a hello, at a time at
-- which the input is not suppressed (handleXiaozhiText of internal/gateway/server.go).
use a21_stackchan_workmate.Base.{
  ℕ, suc, ◌+◌, Bool, true, false, not, ◌&&◌, Option, none, some, List, [], ◌∷◌, ltb, codes, text_eq,
  trim_space, to_lower,
}
use a21_stackchan_workmate.Xiaozhi.Identity.{Result, ok, err}
use a21_stackchan_workmate.Xiaozhi.Frame.{
  Frame, ListenMessage, ControlMessage, MessageType, listen_type, device_to_server,
  parse_text_frame,
}
use a21_stackchan_workmate.Gateway.{Client, World, identity, Message, text, binary, handle}

abbrev pub with_one : Bool → ℕ → ℕ
with_one true n = suc n
with_one false n = n

-- The input is held back until a time that is still to come.
abbrev pub holds_back : World → Client → Bool
holds_back w c = ltb 0 c.session.input_cooldown_until && ltb w.now c.session.input_cooldown_until

abbrev pub may_begin : World → Client → Bool
may_begin w c = c.session.hello_received && not (holds_back w c)

abbrev pub is_start : Option ListenMessage → Bool
is_start none = false
is_start (some m) = text_eq m.state (codes "start")

abbrev pub asks_type : MessageType → ControlMessage → Bool
asks_type listen_type m = is_start m.listen
asks_type _ m = false

abbrev pub asks_control : Option ControlMessage → Bool
asks_control none = false
asks_control (some m) = asks_type m.type m

abbrev pub asks_frame : Result Frame → Bool
asks_frame (err why) = false
asks_frame (ok frame) = asks_control frame.control

-- The message is a start of listening: a text that is no device event.
abbrev pub asks : World → Message → Client → Bool
asks w (binary bytes) c = false
asks w (text bytes) c =
    not (text_eq (trim_space (to_lower (w.wire.type_of_message bytes))) (codes "device"))
    && asks_frame (parse_text_frame w.wire.frames bytes device_to_server (identity c))

-- How many messages begin a turn.
unfoldable pub accepted_starts : List (World × Message) → Client → ℕ
accepted_starts [] c = 0
accepted_starts ((w, message) ∷ messages) c =
    with_one (asks w message c && may_begin w c) 0 + accepted_starts messages (handle w message c).0
