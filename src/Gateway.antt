-- ===== src/Gateway.antt =====
-- The handlers of a xiaozhi connection (handleXiaozhiText, handleXiaozhiBinary and
-- handleXiaozhiDeviceExtension of internal/gateway/server.go). No handler ends the connection. A
-- handler is one step: what the goroutines of a turn do to the session meanwhile is left to Session,
-- and the traces, the metrics and the registry of devices are left out.
mod Types
mod Policy
mod Replies
mod Listening
mod Devices
pub mod Steps
pub mod Asked
pub mod Handled
pub mod Begins
mod Kept
pub mod Listens
pub mod Greeting
pub mod Aborts
pub mod Stale
mod Tests
unfoldable pub use Types.*
unfoldable pub use Policy.*
unfoldable pub use Replies.*
unfoldable pub use Listening.*
unfoldable pub use Devices.*
use a21_stackchan_workmate.Base.{
  ℕ, Bool, Option, none, some, List, [], ◌∷◌, ◌++◌, if◌then◌else◌, Text, codes, text_eq, trim_space,
  to_lower,
}
use a21_stackchan_workmate.Xiaozhi.Identity.{Error, Result, ok, err}
use a21_stackchan_workmate.Xiaozhi.Frame.{
  Frame, ControlMessage, MessageType, hello_type, listen_type, abort_type, mcp_type, other_type,
  HelloMessage, ListenMessage, device_to_server, parse_text_frame,
}

abbrev unsupported_message : World → Client → Client × List Output
unsupported_message w c = xiaozhi_error w (codes "unsupported_message_type") c

-- A parsed message has the part of its type; without it the code would fail.
abbrev pub handle_given {ℓ} :
    {A : Type ℓ} → (A → Client → Client × List Output) → Option A → Client → Client × List Output
handle_given handler (some part) c = handler part c
handle_given handler none c = (c, [])

-- The `switch` on the type.
abbrev pub handle_type : World → MessageType → ControlMessage → Client → Client × List Output
handle_type w hello_type m c = handle_given (handle_hello w) m.hello c
handle_type w listen_type m c = handle_given (handle_listen w) m.listen c
handle_type w abort_type m c = handle_given (handle_abort w) m.abort c
handle_type w mcp_type m c = handle_mcp w c
handle_type w (other_type t) m c = (c, [])

abbrev pub handle_control : World → ControlMessage → Client → Client × List Output
handle_control w m c = handle_type w m.type m c

abbrev pub handle_adopted : World → Option ControlMessage → Client → Client × List Output
handle_adopted w none c = unsupported_message w c
handle_adopted w (some m) c = handle_control w m c

abbrev pub handle_text_frame : World → Result Frame → Client → Client × List Output
handle_text_frame w (err why) c = xiaozhi_error w (xiaozhi_error_code why) c
handle_text_frame w (ok frame) c = handle_adopted w frame.control (adopt_frame frame c)

unfoldable pub handle_text : World → List ℕ → Client → Client × List Output
unfolding xiaozhi_error xiaozhi_error_code adopt_frame handle_hello handle_listen handle_abort
    handle_mcp handle_device_extension parse_text_frame
handle_text w bytes c =
    if text_eq (trim_space (to_lower (w.wire.type_of_message bytes))) (codes "device")
    then handle_device_extension w bytes c
    else handle_text_frame w (parse_text_frame w.wire.frames bytes device_to_server (identity c)) c

pub data Message : Type 0 where
  text binary : List ℕ → Message

unfoldable pub handle : World → Message → Client → Client × List Output
unfolding handle_text handle_binary
handle w (text bytes) c = handle_text w bytes c
handle w (binary bytes) c = handle_binary w bytes c

-- The loop of a connection, over the messages that are read and what each meets.
unfoldable pub handle_all : List (World × Message) → Client → Client × List Output
unfolding handle
handle_all [] c = (c, [])
handle_all ((w, message) ∷ messages) c =
    let (c', sent) = handle w message c in
    let (last, more) = handle_all messages c' in (last, sent ++ more)
