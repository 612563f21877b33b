-- ===== src/Gateway/Greeting.antt =====
-- Nothing but a hello is handled before a hello.
use a21_stackchan_workmate.Base.{
  ℕ, ◌≡◌, ◌⊎◌, refl, arith, inl, inr, Bool, true, false, not, List, [], ◌∷◌, if◌then◌else◌, Text,
  codes,
}
use a21_stackchan_workmate.Xiaozhi.Identity.{Result-cases}
use a21_stackchan_workmate.Xiaozhi.Frame.{
  Frame, HelloMessage, ListenMessage, ControlMessage, MessageType, hello_type, listen_type,
  abort_type, mcp_type, other_type, device_to_server, parse_text_frame, supported_message_type,
}
use a21_stackchan_workmate.Xiaozhi.Frame.Hello.{IsControl, parse_text_frame-IsTextFrame}
use a21_stackchan_workmate.Session.{receive_hello}
use a21_stackchan_workmate.Gateway.{
  Client, World, Output, error_reply, hello_reply, xiaozhi_error_code, xiaozhi_error, handle_type,
  handle_hello, handle_listen, handle_abort, handle_mcp, identity, adopt_frame,
  handle_device_extension, handle_binary, handle_adopted, handle_text_frame, handle_text, Message,
  text, binary, handle,
}
use a21_stackchan_workmate.Gateway.Steps.{if_holds}

-- The client with another identity.
abbrev renamed : Text → Text → Text → Client → Client
renamed device trace id c = record c {
  session = record c.session { device_id = device; trace_id = trace; session_id = id };
}

-- One error is sent, and nothing changes but the identity.
pub record Refused (c : Client) (result : Client × List Output) : Type 0 where
  pub device : Text
  pub trace : Text
  pub id : Text
  pub code : Text
  pub only : result ≡ (renamed device trace id c, error_reply code ∷ [])

-- The hello is accepted and answered.
pub record Greeted (result : Client × List Output) : Type 0 where
  pub received : result.0.session.hello_received ≡ true
  pub answered : result.1 ≡ hello_reply ∷ []

abbrev pub GreetedOrRefused : Client → Client × List Output → Type 0
GreetedOrRefused c result = Greeted result ⊎ Refused c result

xiaozhi_error-Refused : (w : World) (code : Text) (c : Client) → Refused c (xiaozhi_error w code c)
unfolding xiaozhi_error
xiaozhi_error-Refused w code c = record {
  device = c.session.device_id;
  trace = _;
  id = _;
  code = code;
  only = refl;
}

-- The same for a client whose identity was set before.
of_renamed :
    (device trace id : Text) (c : Client) (result : Client × List Output)
    → Refused (renamed device trace id c) result
    → Refused c result
of_renamed device trace id c result r = record {
  device = r.device;
  trace = r.trace;
  id = r.id;
  code = r.code;
  only = r.only;
}

if_not {ℓ} : {A : Type ℓ} (x y : A) (test : Bool) → test ≡ false → (if not test then x else y) ≡ x
if_not x y true e = cc
if_not x y false e = refl

-- What a handler that requires a hello does without one.
requires_hello :
    (w : World) (c : Client) (given : Bool) (rest : Client × List Output)
    → given ≡ false
    → Refused c (if not given then xiaozhi_error w (codes "hello_required") c else rest)
requires_hello w c true rest e = cc
requires_hello w c false rest e = xiaozhi_error-Refused w (codes "hello_required") c

handle_hello-GreetedOrRefused :
    (w : World) (m : HelloMessage) (c : Client) → GreetedOrRefused c (handle_hello w m c)
unfolding handle_hello receive_hello
handle_hello-GreetedOrRefused w m c =
    if_holds (GreetedOrRefused c) (not w.has_codec)
      (inr (xiaozhi_error-Refused w (codes "unsupported_audio_params") c))
      (inl (record { received = refl; answered = refl }))

module _ (w : World) (c : Client) (new : c.session.hello_received ≡ false) where
  handle_listen-Refused : (m : ListenMessage) → Refused c (handle_listen w m c)
  unfolding handle_listen
  handle_listen-Refused m = requires_hello w c c.session.hello_received _ new

  handle_abort-Refused : (reason : Text) → Refused c (handle_abort w reason c)
  unfolding handle_abort
  handle_abort-Refused reason = requires_hello w c c.session.hello_received _ new

  handle_mcp-Refused : Refused c (handle_mcp w c)
  unfolding handle_mcp
  handle_mcp-Refused = requires_hello w c c.session.hello_received _ new

  handle_device_extension-Refused : (bytes : List ℕ) → Refused c (handle_device_extension w bytes c)
  unfolding handle_device_extension
  handle_device_extension-Refused bytes = requires_hello w c c.session.hello_received _ new

  handle_binary-Refused : (bytes : List ℕ) → Refused c (handle_binary w bytes c)
  unfolding handle_binary
  handle_binary-Refused bytes = requires_hello w c c.session.hello_received _ new

  handle_type-GreetedOrRefused :
      (type : MessageType) (m : ControlMessage)
      → m.type ≡ type
      → supported_message_type m.type ≡ true
      → IsControl m
      → GreetedOrRefused c (handle_type w type m c)
  handle_type-GreetedOrRefused hello_type m e known parts =
      let (hello, given, accepted) = parts.hello e in
      rw given (handle_hello-GreetedOrRefused w hello c)
  handle_type-GreetedOrRefused listen_type m e known parts =
      let (listen, given, supported) = parts.listen e in
      rw given (inr (handle_listen-Refused listen))
  handle_type-GreetedOrRefused abort_type m e known parts =
      let (reason, given) = parts.abort e in rw given (inr (handle_abort-Refused reason))
  handle_type-GreetedOrRefused mcp_type m e known parts = inr handle_mcp-Refused
  handle_type-GreetedOrRefused (other_type t) m e known parts =
      absurd (unfold supported_message_type in ground (arith, e, known))

adopt_frame-renamed :
    (f : Frame) (c : Client) → adopt_frame f c ≡ renamed f.device_id f.trace_id f.session_id c
unfolding adopt_frame
adopt_frame-renamed f c = refl

of_adopted :
    (f : Frame) (c : Client) (result : Client × List Output)
    → GreetedOrRefused (adopt_frame f c) result
    → GreetedOrRefused c result
unfolding adopt_frame
of_adopted f c result (inl greeted) = inl greeted
of_adopted f c result (inr refused) =
    inr (of_renamed f.device_id f.trace_id f.session_id c result refused)

handle_text_frame-GreetedOrRefused :
    (w : World) (c : Client) (bytes : List ℕ)
    → c.session.hello_received ≡ false
    → GreetedOrRefused c
        (handle_text_frame w (parse_text_frame w.wire.frames bytes device_to_server (identity c)) c)
unfolding adopt_frame
handle_text_frame-GreetedOrRefused w c bytes new =
    elim (Result-cases (parse_text_frame w.wire.frames bytes device_to_server (identity c))) [
      | inr (why, e) ↦ rw e (inr (xiaozhi_error-Refused w (xiaozhi_error_code why) c))
      | inl (frame, e) ↦
          let (m, parts) =
            parse_text_frame-IsTextFrame w.wire.frames bytes device_to_server (identity c) frame
              e in
          let at_m : GreetedOrRefused (adopt_frame frame c)
              (handle_adopted w frame.control (adopt_frame frame c)) =
            rw parts.held (
              handle_type-GreetedOrRefused w (adopt_frame frame c) new m.type m refl parts.known
                parts.control) in
          rw e (of_adopted frame c _ at_m)
    ]

-- Before a hello, a message is either a hello that is accepted and answered, or it is answered by
-- one error, and nothing of the connection changes but its identity.
pub handle-GreetedOrRefused :
    (w : World) (message : Message) (c : Client)
    → c.session.hello_received ≡ false
    → GreetedOrRefused c (handle w message c)
unfolding handle handle_text
handle-GreetedOrRefused w (text bytes) c new =
    if_holds (GreetedOrRefused c) _ (inr (handle_device_extension-Refused w c new bytes))
      (handle_text_frame-GreetedOrRefused w c bytes new)
handle-GreetedOrRefused w (binary bytes) c new = inr (handle_binary-Refused w c new bytes)
