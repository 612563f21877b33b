-- ===== src/Stackchan/Types.antt =====
-- The packets of the official StackChan firmware, their payloads and the errors
-- (internal/transport/stackchan/official_avatar.go).
use a21_stackchan_workmate.Base.{
  ℕ, zero, suc, ◌*◌, ◌+◌, Option, List, ◌∷◌, ◌++◌, length, ℤ, pos, negsuc,
}
use a21_stackchan_workmate.Xiaozhi.Identity.{Error}
use a21_stackchan_workmate.Xiaozhi.Binary.{put32}

pub data PacketError : Type 0 where
  invalid_event : Error → PacketError
  unsupported_event marshal_failed : PacketError

pub data Attempt {ℓ} (A : Type ℓ) : Type ℓ where
  built : A → Attempt A
  failed : PacketError → Attempt A

infixl 5 ◌>>=◌
abbrev pub ◌>>=◌ {ℓ κ} : {A : Type ℓ} {B : Type κ} → Attempt A → (A → Attempt B) → Attempt B
failed why >>= next = failed why
built made >>= next = next made

pub record Feature : Type 0 where
  pub x : ℤ
  pub y : ℤ
  pub rotation : ℤ
  pub weight : ℕ
  pub size : ℕ

pub record AvatarPayload : Type 0 where
  pub left_eye : Feature
  pub right_eye : Feature
  pub mouth : Feature

pub record Servo : Type 0 where
  pub angle : ℤ
  pub speed : ℕ

pub record MotionPayload : Type 0 where
  pub yaw_servo : Option Servo
  pub pitch_servo : Option Servo

pub record DanceKeyframe : Type 0 where
  pub left_eye : Option Feature
  pub right_eye : Option Feature
  pub mouth : Option Feature
  pub yaw_servo : Option Servo
  pub pitch_servo : Option Servo
  pub duration_ms : ℕ

pub data Payload : Type 0 where
  avatar : AvatarPayload → Payload
  motion : MotionPayload → Payload
  sequence : List DanceKeyframe → Payload

pub record Packet : Type 0 where
  pub type : ℕ
  pub payload : List ℕ

-- DataTypeControlAvatar, DataTypeControlMotion and DataTypeDanceSequence
abbrev pub type_of : Payload → ℕ
type_of (avatar a) = 3
type_of (motion m) = 4
type_of (sequence frames) = 20

unfoldable pub bytes : Packet → List ℕ
bytes p = p.type ∷ (put32 (length p.payload) ++ p.payload)

abbrev pub minus : ℕ → ℤ
minus zero = pos 0
minus (suc n) = negsuc n

abbrev pub times_ten : ℤ → ℤ
times_ten (pos n) = pos (n * 10)
times_ten (negsuc n) = negsuc (n * 10 + 9)
