-- ===== src/MetallbScan/Keys.antt =====
-- Texts that are joined with colons, as the scan of MetalLB keeps services and pools, and that
-- `strings.Split` takes apart again.
use monitoring_wo_webhooks.Prelude.{
  ℕ, ◌≡◌, refl, ap, ◌∙◌, String, ◌<>◌, Bool, false, ◌||◌, [], ◌∷◌, arith, eqb,
}
use Prim.Native.Char.{code}
use text.Mathlib.TextLemmas.{nil-append, cons-append}
use monitoring_wo_webhooks.Prelude.Text.{split}
use monitoring_wo_webhooks.MetallbScan.Services.{Service, address_key}

-- Whether a text has a character of this code.
abbrev pub has : ℕ → String → Bool
has sep String.[] = false
has sep (String.◌∷◌ c s) = eqb (code c) sep || has sep s

pub split-has : (sep : ℕ) (s : String) → has sep s ≡ false → split sep s ≡ s ∷ []
unfolding split
split-has sep String.[] h = refl
split-has sep (String.◌∷◌ c s) h = ground (arith, split-has sep s)

split-colon : (b : String) → split b':' (":" <> b) ≡ "" ∷ split b':' b
unfolding split
split-colon b = rw (cons-append ":" "" b, nil-append b) refl

pub split-join :
    (a b : String) → has b':' a ≡ false → split b':' (a <> (":" <> b)) ≡ a ∷ split b':' b
unfolding split
split-join String.[] b h = rw (nil-append (":" <> b)) (split-colon b)
split-join (String.◌∷◌ c a) b h = rw (cons-append c a (":" <> b)) (ground (arith, split-join a b))

-- Where none of the three has a colon, splitting the entry of a service at its colons gives back
-- its name, its namespace and its address.
pub split-address_key :
    (svc : Service) (ip : String)
    → has b':' svc.name ≡ false
    → has b':' svc.namespace ≡ false
    → has b':' ip ≡ false
    → split b':' (address_key svc ip) ≡ svc.name ∷ svc.namespace ∷ ip ∷ []
split-address_key svc ip h k l =
    split-join svc.name (svc.namespace <> (":" <> ip)) h
    ∙ ap (λ xs. svc.name ∷ xs)
        (split-join svc.namespace ip k ∙ ap (λ xs. svc.namespace ∷ xs) (split-has b':' ip l))
