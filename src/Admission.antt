-- ===== src/Admission.antt =====
-- What the three webhooks of api/v1alpha1 (`*_webhook.go`) share: the errors of fields, the checks of
-- the notification fields, and the collection of errors.
pub mod Laws
use monitoring_wo_webhooks.Prelude.{
  ℕ, String, not, ◌&&◌, Option, none, some, List, [], ◌∷◌, ◌==◌, starts_with, if◌then◌else◌, ltb,
}
use Prim.Native.String.{len}

-- `field.Error` of the type Invalid: where, the value and why.
pub record FieldError : Type 0 where
  pub path : List String
  pub value : List String
  pub detail : String

-- A Go function that returns, or reads through a nil pointer.
pub data Checked {ℓ} (A : Type ℓ) : Type ℓ where
  checked : A → Checked A
  crashed : Checked A

-- `apierrors.NewInvalid`
pub record Invalid : Type 0 where
  pub kind : String
  pub name : String
  pub errors : List FieldError

abbrev pub spec_error : String → String → String → FieldError
spec_error child value detail = record {
  path = "spec" ∷ child ∷ [];
  value = value ∷ [];
  detail = detail;
}

-- The fields that a webhook needs for mails, tested if mails are not suspended.
unfoldable pub check_mail : String → String → Option FieldError
check_mail email relay_host =
    if email == ""
    then some (spec_error "email" email ".spec.email field cannot be empty")
    else if relay_host == ""
    then some (spec_error "relayhost" relay_host ".spec.relayHost field cannot be empty")
    else none

-- The fields for the external system, tested if it is to be notified.
unfoldable pub check_external : String → String → String → Option FieldError
check_external secret config url =
    if secret == ""
    then some (spec_error "externalsecret" secret ".spec.externalSecret field cannot be empty")
    else if config == ""
    then some (spec_error "externaldata" config ".spec.externalData field cannot be empty")
    else if not (starts_with url "https://") && not (starts_with url "http://")
    then some
        (spec_error "externalurl" url ".spec.external field must start with http:// or https://")
    else none

-- The first error of two checks in a row.
abbrev pub first_error : Option FieldError → Option FieldError → Option FieldError
first_error (some e) rest = some e
first_error none rest = rest

-- An error ends the function before the rest runs.
abbrev pub first_checked :
    Option FieldError → Checked (Option FieldError) → Checked (Option FieldError)
first_checked (some e) rest = checked (some e)
first_checked none rest = rest

-- `*p`
abbrev pub deref {ℓ κ} : {A : Type ℓ} {B : Type κ} → Option A → (A → Checked B) → Checked B
deref none f = crashed
deref (some a) f = f a

-- A pointer that the defaults fill.
abbrev pub or_default {ℓ} : {A : Type ℓ} → Option A → A → Option A
or_default none a = some a
or_default (some b) a = some b

-- `label_max` is `validationutils.DNS1035LabelMaxLength`.
unfoldable pub check_name : ℕ → String → Option FieldError
check_name label_max name =
    if ltb label_max (len name)
    then some (record {
      path = "metadata" ∷ "name" ∷ [];
      value = name ∷ [];
      detail = "must be no more than 52 characters";
    })
    else none

abbrev pub to_list {ℓ} : {A : Type ℓ} → Option A → List A
to_list none = []
to_list (some a) = a ∷ []

abbrev pub invalid_of : String → String → List FieldError → Option Invalid
invalid_of kind name [] = none
invalid_of kind name (e ∷ es) = some (record { kind = kind; name = name; errors = e ∷ es })
