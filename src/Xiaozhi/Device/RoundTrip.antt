-- ===== src/Xiaozhi/Device/RoundTrip.antt =====
-- A device event that is built for the wire parses back.
use a21_stackchan_workmate.Base.{
  ◌≡◌, refl, sym, ap, ◌∙◌, inl, inr, true, false, [], ◌∷◌, arith, if◌then◌else◌, Text, codes,
  text_eq, text_eq_iff, trim_space, to_lower, contains, trim_space_idem, pos,
}
use a21_stackchan_workmate.Xiaozhi.Identity.{
  ok, Identity, no_identity, resolve_identity, first_non_empty, contains_legacy_identity,
  Result-cases,
}
use a21_stackchan_workmate.Xiaozhi.Frame.{HelloFeatures}
use a21_stackchan_workmate.Xiaozhi.Device.{
  DeviceExtensionEvent, DeviceExtensionProfile, check_kind, normal_texts,
  normalize_device_runtime_echo, echo_loop, legacy_echo, normalize_device_extension_event,
}
use a21_stackchan_workmate.Xiaozhi.Device.Normal.{
  IsCurrent, Legal, normalized, renormalize, texts_of_checked, normal_texts_idem, check_kind_idem,
  checked-IsCurrent, normalize_device_extension_event-Legal, is_nat_zero,
}
use a21_stackchan_workmate.Xiaozhi.Device.Wire.{
  DeviceExtensionWire, new_wire, assign_device_event_value, build_device_extension_event,
  device_extension_runtime_echo_from_wire, event_of_wire, parse_device_extension_event,
}

-- What the wire carries of an event: the fields of its kind.
abbrev pub carried : DeviceExtensionEvent → DeviceExtensionEvent
carried e = record {
  kind = e.kind;
  value = e.value;
  y_angle = if text_eq e.kind (codes "motion") then e.y_angle else pos 0;
  stream_id = if text_eq e.kind (codes "playback") then e.stream_id else [];
  source = if text_eq e.kind (codes "touch") then e.source else [];
  text = if text_eq e.kind (codes "display") then e.text else [];
  reason = if text_eq e.kind (codes "motion") then e.reason else [];
  runtime_echo = [];
}

check_kind-carried :
    (e : DeviceExtensionEvent) → check_kind e ≡ ok e → check_kind (carried e) ≡ ok (carried e)
unfolding check_kind
check_kind-carried e h = ground arith

normal_texts-carried :
    (e : DeviceExtensionEvent) → normal_texts e ≡ e → normal_texts (carried e) ≡ carried e
unfolding normal_texts normalize_device_runtime_echo echo_loop trim_space to_lower
normal_texts-carried e h = ground arith

nothing_current : contains_legacy_identity [] ≡ false
unfolding contains_legacy_identity to_lower contains
nothing_current = refl

no_echo_current : legacy_echo [] ≡ false
unfolding legacy_echo
no_echo_current = refl

IsCurrent-carried : (e : DeviceExtensionEvent) → IsCurrent e → IsCurrent (carried e)
IsCurrent-carried e h = ground (arith, nothing_current, no_echo_current)

normal_trimmed : (s : Text) → trim_space (to_lower s) ≡ s → trim_space s ≡ s
normal_trimmed s e = ap trim_space (sym e) ∙ trim_space_idem (to_lower s) ∙ e

first_non_empty-second : (v : Text) → trim_space v ≡ v → first_non_empty ([] ∷ v ∷ []) ≡ v
unfolding first_non_empty trim_space
first_non_empty-second [] h = refl
first_non_empty-second (c ∷ v) h = rw h

first_non_empty-first : (v : Text) → trim_space v ≡ v → first_non_empty (v ∷ [] ∷ []) ≡ v
unfolding first_non_empty trim_space
first_non_empty-first [] h = refl
first_non_empty-first (c ∷ v) h = rw h

assigned_echo :
    (id : Identity) (e : DeviceExtensionEvent)
    → device_extension_runtime_echo_from_wire (assign_device_event_value (new_wire id) e) ≡ []
unfolding device_extension_runtime_echo_from_wire assign_device_event_value trim_space
assigned_echo id e = ground arith

event_of_wire-assign :
    (id : Identity) (e : DeviceExtensionEvent)
    → trim_space e.kind ≡ e.kind
    → trim_space e.value ≡ e.value
    → Legal e
    → event_of_wire (assign_device_event_value (new_wire id) e) ≡ carried e
unfolding event_of_wire assign_device_event_value
event_of_wire-assign id e k v l = ground (
  arith,
  assigned_echo id e,
  first_non_empty-second e.kind k,
  first_non_empty-second e.value v,
  first_non_empty-first e.value v,
  is_nat_zero e.y_angle,
  text_eq_iff e.kind (codes "state"),
  text_eq_iff e.kind (codes "face"),
  text_eq_iff e.kind (codes "display"),
  text_eq_iff e.kind (codes "motion"),
  text_eq_iff e.kind (codes "heartbeat"),
  text_eq_iff e.kind (codes "playback"),
  text_eq_iff e.kind (codes "touch"),
)

wire_type :
    (id : Identity) (e : DeviceExtensionEvent)
    → (assign_device_event_value (new_wire id) e).type ≡ codes "device"
unfolding assign_device_event_value
wire_type id e = ground arith

device_type : text_eq (trim_space (codes "device")) (codes "device") ≡ true
unfolding text_eq trim_space
device_type = refl

passes :
    (w : DeviceExtensionWire)
    → w.type ≡ codes "device"
    → parse_device_extension_event w ≡ normalize_device_extension_event (event_of_wire w)
unfolding parse_device_extension_event
passes w h = ground (arith, device_type)

parsed :
    (id : Identity) (event e : DeviceExtensionEvent)
    → normalize_device_extension_event event ≡ ok e
    → parse_device_extension_event (assign_device_event_value (new_wire id) e) ≡ ok (carried e)
parsed id event e h =
    let (k, c) = normalized event e h in
    let n = texts_of_checked (normal_texts event) e k (normal_texts_idem event) in
    let fields : normal_texts e ≡ e = n in
    let kind : trim_space (to_lower e.kind) ≡ e.kind =
      unfold normal_texts in ap (λ (x : DeviceExtensionEvent). x.kind) fields in
    let value : trim_space (to_lower e.value) ≡ e.value =
      unfold normal_texts in ap (λ (x : DeviceExtensionEvent). x.value) fields in
    passes (assign_device_event_value (new_wire id) e) (wire_type id e)
    ∙ ap normalize_device_extension_event (
        event_of_wire-assign id e (normal_trimmed e.kind kind) (normal_trimmed e.value value)
          (normalize_device_extension_event-Legal event e h).0)
    ∙ renormalize (carried e) (normal_texts-carried e n)
        (check_kind-carried e (check_kind_idem (normal_texts event) e k))
        (IsCurrent-carried e (checked-IsCurrent (normal_texts event) e k c))

-- An object that BuildDeviceExtensionEvent makes of an event parses back to the event's normal
-- form, with the fields that its kind sends.
pub parse_device_extension_event-build :
    (identity : Identity) (features : HelloFeatures) (profile : DeviceExtensionProfile)
    (event : DeviceExtensionEvent) (w : DeviceExtensionWire)
    → build_device_extension_event identity features profile event ≡ ok w
    → (e : DeviceExtensionEvent) × (normalize_device_extension_event event ≡ ok e)
      × (parse_device_extension_event w ≡ ok (carried e))
parse_device_extension_event-build identity features profile event w h =
    elim (Result-cases (resolve_identity identity no_identity)) [
      | inr (x, r) ↦ absurd (unfold build_device_extension_event in ground arith)
      | inl (id, r) ↦ elim (Result-cases (normalize_device_extension_event event)) [
        | inr (x, n) ↦ absurd (unfold build_device_extension_event in ground arith)
        | inl (e, n) ↦
            let made : w ≡ assign_device_event_value (new_wire id) e =
              unfold build_device_extension_event in ground arith in
            (e, n, rw made (parsed id event e n))
      ]
    ]
