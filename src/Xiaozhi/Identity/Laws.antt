-- ===== src/Xiaozhi/Identity/Laws.antt =====
-- What resolveIdentity returns.
use a21_stackchan_workmate.Base.{
  ◌≡◌, refl, sym, ◌∙◌, ◌↔◌, inl, inr, true, false, List, [], ◌∷◌, ◌++◌, arith, Bool-cases, is_empty,
  All-append, Text, codes, is_space, trim_space, trim_space_idem, trim_space_of_no_space,
}
use a21_stackchan_workmate.Xiaozhi.Identity.{
  missing_device_identity, legacy_identity, Result, ok, err, reject, ◌>>◌, Identity, no_identity,
  contains_legacy_identity, first_non_empty, or_default, resolve_identity, safe_id_component,
}
use a21_stackchan_workmate.Xiaozhi.Identity.Component.{safe_id_component-no_space}

-- A field that the transport may use as it is: not empty, trimmed, and of no legacy product.
pub record IsClean (value : Text) : Type 0 where
  pub present : is_empty value ≡ false
  pub trimmed : trim_space value ≡ value
  pub current : contains_legacy_identity value ≡ false

pub record IsResolved (id : Identity) : Type 0 where
  pub device : IsClean id.device_id
  pub trace : IsClean id.trace_id
  pub session : IsClean id.session_id

first_non_empty-trimmed :
    (values : List Text) → trim_space (first_non_empty values) ≡ first_non_empty values
unfolding first_non_empty
first_non_empty-trimmed [] = unfold trim_space in refl
first_non_empty-trimmed (v ∷ vs) = elim (Bool-cases (is_empty (trim_space v))) [
  | inl e ↦ rw e (first_non_empty-trimmed vs)
  | inr e ↦ rw e (trim_space_idem v)
]

or_default-trimmed :
    (v d : Text)
    → trim_space v ≡ v
    → trim_space d ≡ d
    → trim_space (or_default v d) ≡ or_default v d
or_default-trimmed [] d h k = k
or_default-trimmed (c ∷ v) d h k = h

or_default-present : (v d : Text) → is_empty d ≡ false → is_empty (or_default v d) ≡ false
or_default-present [] d h = h
or_default-present (c ∷ v) d h = refl

trace_default-trimmed :
    (d : Text)
    → trim_space (codes "a21-trace-" ++ safe_id_component d)
      ≡ codes "a21-trace-" ++ safe_id_component d
trace_default-trimmed d = trim_space_of_no_space _ (
    All-append (λ r. is_space r ≡ false) (codes "a21-trace-") _ (unfold is_space in ground arith)
      (safe_id_component-no_space d))

session_default-trimmed :
    (d : Text)
    → trim_space (codes "a21-session-" ++ safe_id_component d)
      ≡ codes "a21-session-" ++ safe_id_component d
session_default-trimmed d = trim_space_of_no_space _ (
    All-append (λ r. is_space r ≡ false) (codes "a21-session-") _ (unfold is_space in ground arith)
      (safe_id_component-no_space d))

-- The checks of resolveIdentity, in their order, on the three candidate fields.
abbrev checked : Text → Text → Text → Result Identity
checked d t s = do
  reject (is_empty d) missing_device_identity
  reject (contains_legacy_identity d) legacy_identity
  reject (contains_legacy_identity t) legacy_identity
  reject (contains_legacy_identity s) legacy_identity
  ok (record { device_id = d; trace_id = t; session_id = s })

checked-IsResolved :
    (d t s : Text) (id : Identity)
    → checked d t s ≡ ok id
    → trim_space d ≡ d
    → trim_space t ≡ t
    → trim_space s ≡ s
    → is_empty t ≡ false
    → is_empty s ≡ false
    → IsResolved id
checked-IsResolved d t s id h td tt' ts pt ps = ground arith

-- The field that the message or the connection gives, or the one made from the device.
abbrev trace_of : Identity → Identity → Text → Text
trace_of connection message d =
    or_default (first_non_empty (message.trace_id ∷ connection.trace_id ∷ []))
      (codes "a21-trace-" ++ safe_id_component d)

abbrev session_of : Identity → Identity → Text → Text
session_of connection message d =
    or_default (first_non_empty (message.session_id ∷ connection.session_id ∷ []))
      (codes "a21-session-" ++ safe_id_component d)

resolve_identity-checked :
    (connection message : Identity)
    → let d = first_non_empty (message.device_id ∷ connection.device_id ∷ []) in
      resolve_identity connection message
      ≡ checked d (trace_of connection message d) (session_of connection message d)
unfolding resolve_identity
resolve_identity-checked connection message = refl

-- Every identity that resolveIdentity returns has three fields that are not empty, are trimmed,
-- and name neither of the legacy products.
pub resolve_identity-IsResolved :
    (connection message id : Identity) → resolve_identity connection message ≡ ok id → IsResolved id
resolve_identity-IsResolved connection message id h =
    let d = first_non_empty (message.device_id ∷ connection.device_id ∷ []) in
    checked-IsResolved d (trace_of connection message d) (session_of connection message d) id
      (sym (resolve_identity-checked connection message) ∙ h) (first_non_empty-trimmed _)
      (or_default-trimmed _ _ (first_non_empty-trimmed _) (trace_default-trimmed d))
      (or_default-trimmed _ _ (first_non_empty-trimmed _) (session_default-trimmed d))
      (or_default-present (first_non_empty (message.trace_id ∷ connection.trace_id ∷ []))
        (codes "a21-trace-" ++ safe_id_component d) refl)
      (or_default-present (first_non_empty (message.session_id ∷ connection.session_id ∷ []))
        (codes "a21-session-" ++ safe_id_component d) refl)

first_non_empty-second :
    (v : Text) → trim_space v ≡ v → is_empty v ≡ false → first_non_empty ([] ∷ v ∷ []) ≡ v
unfolding first_non_empty trim_space
first_non_empty-second v h p = rw (h, p)

or_default-given : (v d : Text) → is_empty v ≡ false → or_default v d ≡ v
or_default-given [] d h = cc
or_default-given (c ∷ v) d h = refl

checked-clean :
    (d t s : Text)
    → IsClean d
    → IsClean t
    → IsClean s
    → checked d t s ≡ ok (record { device_id = d; trace_id = t; session_id = s })
checked-clean d t s hd ht hs = rw (hd.present, hd.current, ht.current, hs.current)

-- A resolved identity resolves to itself: a frame's identity that is resolved again, with nothing
-- in the message, stays as it is.
resolve_identity_idem : (id : Identity) → IsResolved id → resolve_identity id no_identity ≡ ok id
resolve_identity_idem id h =
    let kept = λ (v : Text) (c : IsClean v). first_non_empty-second v c.trimmed c.present in
    resolve_identity-checked id no_identity
    ∙ rw (kept id.device_id h.device, kept id.trace_id h.trace, kept id.session_id h.session)
        (rw
          (
            or_default-given id.trace_id _ h.trace.present,
            or_default-given id.session_id _ h.session.present,
          )
          (checked-clean id.device_id id.trace_id id.session_id h.device h.trace h.session))

checked-missing_iff :
    (d t s : Text) → (checked d t s ≡ err missing_device_identity) ↔ (is_empty d ≡ true)
checked-missing_iff d t s = ground arith

is_empty-first_non_empty_iff :
    (v w : Text)
    → (is_empty (first_non_empty (v ∷ w ∷ [])) ≡ true) ↔ ((trim_space v ≡ []) × (trim_space w ≡ []))
unfolding first_non_empty
is_empty-first_non_empty_iff v w = ground arith

-- The error for a missing device is returned exactly when neither the message nor the connection
-- names a device by anything but white space.
resolve_identity-missing_iff :
    (connection message : Identity)
    → (resolve_identity connection message ≡ err missing_device_identity)
      ↔ ((trim_space message.device_id ≡ []) × (trim_space connection.device_id ≡ []))
resolve_identity-missing_iff connection message =
    let d = first_non_empty (message.device_id ∷ connection.device_id ∷ []) in
    let split = is_empty-first_non_empty_iff message.device_id connection.device_id in
    let missing =
      checked-missing_iff d (trace_of connection message d) (session_of connection message d) in
    (
      λ e. split.0 (missing.0 (sym (resolve_identity-checked connection message) ∙ e)),
      λ e. resolve_identity-checked connection message ∙ missing.1 (split.1 e),
    )
