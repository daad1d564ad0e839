-- ===== src/Admission/Laws.antt =====
-- When the checks that the webhooks share find no error.
use monitoring_wo_webhooks.Prelude.{
  ℕ, ◌≤◌, ◌≡◌, ◌≢◌, ◌↔◌, ◌⊎◌, String, Bool, true, false, Option, none, some, arith, eq_iff,
  starts_with,
}
use Prim.Native.String.{len}
use monitoring_wo_webhooks.Admission.{check_mail, check_external, check_name}

-- What every webhook asks: of the name, of the fields for mails if these are not suspended, and of
-- those for the external system if it is notified.
pub record Complete (label_max : ℕ) (name : String) (suspended notify : Option Bool)
    (email relay_host secret config url : String) : Type 0 where
  pub short_name : len name ≤ label_max
  pub mail : suspended ≡ some false → (email ≢ "") × (relay_host ≢ "")
  pub credentials : notify ≡ some true → (secret ≢ "") × (config ≢ "")
  pub address :
      notify ≡ some true → (starts_with url "https://" ≡ true) ⊎ (starts_with url "http://" ≡ true)

pub check_mail_lem :
    (email relay_host : String)
    → (check_mail email relay_host ≡ none) ↔ ((email ≢ "") × (relay_host ≢ ""))
unfolding check_mail
check_mail_lem email relay_host = ground (arith, eq_iff email "", eq_iff relay_host "")

pub check_external_lem :
    (secret config url : String)
    → (check_external secret config url ≡ none) ↔ (
        (secret ≢ "")
        × (config ≢ "")
        × ((starts_with url "https://" ≡ true) ⊎ (starts_with url "http://" ≡ true)))
unfolding check_external
check_external_lem secret config url = ground (arith, eq_iff secret "", eq_iff config "")

pub check_name_lem :
    (label_max : ℕ) (name : String) → (check_name label_max name ≡ none) ↔ (len name ≤ label_max)
unfolding check_name
check_name_lem label_max name = ground arith
