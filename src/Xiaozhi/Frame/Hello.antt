-- ===== src/Xiaozhi/Frame/Hello.antt =====
-- What validateHello and ParseTextFrame accept.
use a21_stackchan_workmate.Base.{
  ℕ, ◌≡◌, refl, ◌⊎◌, inl, inr, true, none, some, List, [], ◌∷◌, arith, Option-cases, Text, codes,
  text_eq_iff, text_eq_refl, trim_space, ℤ, pos, negsuc, is_nat,
}
use a21_stackchan_workmate.Xiaozhi.Identity.{ok, Identity, resolve_identity, Result-cases}
use a21_stackchan_workmate.Xiaozhi.Identity.Laws.{IsResolved, resolve_identity-IsResolved}
use a21_stackchan_workmate.Xiaozhi.Frame.{
  Direction, MessageType, hello_type, listen_type, abort_type, mcp_type, other_type, HelloMessage,
  ListenMessage, ControlMessage, Frame, control_kind, Decoder, supported_binary_protocol_version,
  equal_fold, validate_hello, supported_listen_state, hello_of_wire, parse_control,
  parse_text_frame, or_int, or_text, supported_message_type,
}

abbrev pub IsBinaryVersion : ℤ → Type 0
IsBinaryVersion v = (v ≡ pos 1) ⊎ (v ≡ pos 2) ⊎ (v ≡ pos 3)

-- The one audio format of the transport, and a protocol version that it speaks.
pub record IsAccepted (m : HelloMessage) : Type 0 where
  pub version : IsBinaryVersion m.version
  pub transport : m.transport ≡ codes "websocket"
  pub format : m.audio_params.format ≡ codes "opus"
  pub sample_rate : m.audio_params.sample_rate ≡ pos 16000
  pub channels : m.audio_params.channels ≡ pos 1
  pub frame_duration : m.audio_params.frame_duration ≡ pos 60
  pub binary : IsBinaryVersion m.audio_params.binary_protocol_version

is_nat-eq : (v : ℤ) (n : ℕ) → is_nat v n ≡ true → v ≡ pos n
is_nat-eq (pos m) n h = ground arith
is_nat-eq (negsuc m) n h = cc

supported-IsBinaryVersion : (v : ℤ) → supported_binary_protocol_version v ≡ true → IsBinaryVersion v
unfolding supported_binary_protocol_version
supported-IsBinaryVersion (pos m) h = ground arith
supported-IsBinaryVersion (negsuc m) h = cc

-- A hello that validateHello accepts is in the one format that the transport supports.
validate_hello-IsAccepted : (m h : HelloMessage) → validate_hello m ≡ ok h → IsAccepted h
unfolding validate_hello
validate_hello-IsAccepted m h e = ground (
  arith,
  supported-IsBinaryVersion (or_int m.version (pos 1)),
  supported-IsBinaryVersion
      (or_int m.audio_params.binary_protocol_version (or_int m.version (pos 1))),
  text_eq_iff (or_text m.transport (codes "websocket")) (codes "websocket"),
  is_nat-eq m.audio_params.sample_rate 16000,
  is_nat-eq m.audio_params.channels 1,
  is_nat-eq m.audio_params.frame_duration 60,
)

IsBinaryVersion-supported : (v : ℤ) → IsBinaryVersion v → supported_binary_protocol_version v ≡ true
unfolding supported_binary_protocol_version
IsBinaryVersion-supported v h = ground arith

or_int-binary : (v d : ℤ) → IsBinaryVersion v → or_int v d ≡ v
or_int-binary v d h = ground arith

opus-equal_fold : equal_fold (codes "opus") (codes "opus") ≡ true
unfolding equal_fold
opus-equal_fold = refl

or_text-given : (v d : Text) → v ≡ d → or_text v d ≡ d
or_text-given [] d h = refl
or_text-given (c ∷ v) d h = h

-- A hello in the accepted format passes as it is: validating twice changes nothing.
validate_hello_of_IsAccepted : (h : HelloMessage) → IsAccepted h → validate_hello h ≡ ok h
unfolding validate_hello
validate_hello_of_IsAccepted h a = ground (
  arith,
  or_int-binary h.version (pos 1) a.version,
  or_int-binary h.audio_params.binary_protocol_version h.version a.binary,
  IsBinaryVersion-supported h.version a.version,
  IsBinaryVersion-supported h.audio_params.binary_protocol_version a.binary,
  or_text-given h.transport (codes "websocket") a.transport,
  text_eq_refl (codes "websocket"),
  opus-equal_fold,
)

-- The parts of a control message that the gateway reads, by its type.
pub record IsControl (c : ControlMessage) : Type 0 where
  pub hello : c.type ≡ hello_type → (h : HelloMessage) × (c.hello ≡ some h) × IsAccepted h
  pub listen :
      c.type ≡ listen_type
      → (l : ListenMessage) × (c.listen ≡ some l) × (supported_listen_state l.state ≡ true)
  pub abort : c.type ≡ abort_type → (reason : Text) × (c.abort ≡ some reason)

parse_control-IsControl :
    (d : Decoder) (t : MessageType) (bytes : List ℕ) (c : ControlMessage)
    → parse_control d t bytes ≡ ok c
    → (c.type ≡ t) × IsControl c
parse_control-IsControl d hello_type bytes c h = elim (Option-cases (d.hello bytes)) [
  | inl e ↦ absurd (unfold parse_control in ground arith)
  | inr (msg, e) ↦ elim (Result-cases (validate_hello (hello_of_wire msg))) [
    | inr (x, r) ↦ absurd (unfold parse_control in ground arith)
    | inl (m, r) ↦
        let accepted = validate_hello-IsAccepted (hello_of_wire msg) m r in
        (
          unfold parse_control in ground arith,
          record {
            hello = λ _. (m, unfold parse_control in ground arith, accepted);
            listen = λ t. absurd (unfold parse_control in ground arith);
            abort = λ t. absurd (unfold parse_control in ground arith);
          },
        )
  ]
]
parse_control-IsControl d listen_type bytes c h = elim (Option-cases (d.listen bytes)) [
  | inl e ↦ absurd (unfold parse_control in ground arith)
  | inr (msg, e) ↦ (
    unfold parse_control in ground arith,
    record {
      hello = λ t. absurd (unfold parse_control in ground arith);
      listen = λ _. (
        record { state = trim_space msg.state; mode = trim_space msg.mode },
        unfold parse_control in ground arith,
        unfold parse_control in ground arith,
      );
      abort = λ t. absurd (unfold parse_control in ground arith);
    },
  )
]
parse_control-IsControl d abort_type bytes c h = elim (Option-cases (d.abort bytes)) [
  | inl e ↦ absurd (unfold parse_control in ground arith)
  | inr (reason, e) ↦ (
    unfold parse_control in ground arith,
    record {
      hello = λ t. absurd (unfold parse_control in ground arith);
      listen = λ t. absurd (unfold parse_control in ground arith);
      abort = λ _. (trim_space reason, unfold parse_control in ground arith);
    },
  )
]
parse_control-IsControl d mcp_type bytes c h = unfold parse_control in ground arith
parse_control-IsControl d (other_type t) bytes c h = unfold parse_control in ground arith

-- A text frame as ParseTextFrame returns it.
pub record IsTextFrame (direction : Direction) (f : Frame) (c : ControlMessage) : Type 0 where
  pub kind : f.kind ≡ control_kind
  pub sent : f.direction ≡ direction
  pub held : f.control ≡ some c
  pub no_opus : f.opus ≡ none
  pub known : supported_message_type c.type ≡ true
  pub control : IsControl c
  pub resolved :
      IsResolved
        (record { device_id = f.device_id; trace_id = f.trace_id; session_id = f.session_id })

-- A text frame that is accepted has a resolved identity and one control message of a supported
-- type: a hello comes with accepted parameters, a listen with one of the three states, an abort with
-- its reason.
pub parse_text_frame-IsTextFrame :
    (d : Decoder) (bytes : List ℕ) (direction : Direction) (identity : Identity) (f : Frame)
    → parse_text_frame d bytes direction identity ≡ ok f
    → (c : ControlMessage) × IsTextFrame direction f c
parse_text_frame-IsTextFrame d bytes direction identity f h = elim (Option-cases (d.common bytes)) [
  | inl e ↦ absurd (unfold parse_text_frame in ground arith)
  | inr (wire, e) ↦ elim (Result-cases (resolve_identity identity wire.ids)) [
    | inr (x, r) ↦ absurd (unfold parse_text_frame in ground arith)
    | inl (id, r) ↦ elim (Result-cases (parse_control d wire.type bytes)) [
      | inr (x, q) ↦ absurd (unfold parse_text_frame in ground arith)
      | inl (c, q) ↦ (
        c,
        unfold parse_text_frame in
            ground (
              arith,
              parse_control-IsControl d wire.type bytes c q,
              resolve_identity-IsResolved identity wire.ids id r,
            ),
      )
    ]
  ]
]
