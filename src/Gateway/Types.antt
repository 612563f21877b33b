-- ===== src/Gateway/Types.antt =====
-- What the handlers of a xiaozhi connection read and write (internal/gateway/server.go).
use a21_stackchan_workmate.Base.{ℕ, ℤ, Bool, Option, List, Text}
use a21_stackchan_workmate.Xiaozhi.Frame.{Decoder, HelloFeatures}
use a21_stackchan_workmate.Xiaozhi.Device.Wire.{DeviceExtensionWire}
use a21_stackchan_workmate.Stackchan.{Payload}
use a21_stackchan_workmate.Session.{Session}

-- The session of a connection with the fields of xiaozhiSession that only the handlers use. Of the
-- frames before a turn (wakePrerollFrames) the sizes of their payloads are kept.
pub record Client : Type 0 where
  pub session : Session
  pub features : HelloFeatures
  pub binary_protocol_version : ℤ
  pub opus_frame_count : ℕ
  pub opus_byte_count : ℕ
  pub wake_preroll_payload_bytes : List ℕ

-- The options of the server. `voice_professional` is whether selectedVoiceMode is professional.
pub record Options : Type 0 where
  pub stock_professional : Bool
  pub voice_professional : Bool
  pub product_playback_events : Bool
  pub product_touch_events : Bool
  pub product_state_reactions : Bool

-- What json.Unmarshal makes of a message: the field `type`, "" where it fails, the wire types of a
-- frame, and the object of a device event.
pub record Wire : Type 0 where
  pub type_of_message : List ℕ → Text
  pub frames : Decoder
  pub device : List ℕ → Option DeviceExtensionWire

-- What a handler meets: the clock when it is first read and when it is read again, the counter of
-- `ids` after its increment, whether opuscodec.New succeeds, whether the codec makes samples of a
-- frame, whether the stop of the playback can be written, and whether the official device of the
-- connection's device is connected.
pub record World : Type 0 where
  pub options : Options
  pub wire : Wire
  pub marshal : Payload → Option (List ℕ)
  pub now : ℕ
  pub later : ℕ
  pub next : ℕ
  pub has_codec : Bool
  pub decodes : Bool
  pub stop_written : Bool
  pub official_connected : Bool

-- What a handler sends or starts. `drain` is the goroutine that continues with a turn after the end of
-- listening; `received`, `preroll` and the two `ignored` are what becomes of a binary frame.
pub data Output : Type 0 where
  error_reply : Text → Output
  hello_reply : Output
  listen_reply : Text → Text → Text → Output
  tts_stop : Text → Text → Output
  drain : Option ℕ → Output
  received : ℕ → Option ℕ → Output
  preroll ignored_suppressed_listen ignored_not_listening : Output
