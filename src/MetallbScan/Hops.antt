-- ===== src/MetallbScan/Hops.antt =====
-- `RetrieveBGPHop` and `IsExistBGPHop` of internal/metallbscan/util/util.go.
pub mod Laws
use monitoring_wo_webhooks.Prelude.{
  ℕ, zero, suc, String, ◌<>◌, Bool, true, false, ◌&&◌, ◌||◌, List, [], ◌∷◌, ◌++◌, ◌==◌,
  if◌then◌else◌, leb,
}
use Prim.Native.Char.{code}
use monitoring_wo_webhooks.Prelude.Text.{split}
use monitoring_wo_webhooks.Runtime.{
  Outside, Fallible, ok, err, M, returned, panicked, pure, ◌>>=◌, ◌>>◌, look, act, at, read_file,
  remove_file,
}

-- One place of an expression: `[0-9]`, or `.`, which matches every character of a line.
pub data Place : Type 0 where
  digit any_char : Place

abbrev pub digits : ℕ → List Place → List Place
digits zero rest = rest
digits (suc n) rest = digit ∷ digits n rest

abbrev pub address : ℕ → ℕ → ℕ → ℕ → List Place
address a b c d = digits a (any_char ∷ digits b (any_char ∷ digits c (any_char ∷ digits d [])))

-- `ipRE` to `ip14RE`
unfoldable pub ip_patterns : List (List Place)
ip_patterns =
    address 3 3 3 3
    ∷ address 2 2 2 2
    ∷ address 2 2 3 3
    ∷ address 2 2 3 2
    ∷ address 2 3 3 3
    ∷ address 3 2 2 2
    ∷ address 3 3 2 3
    ∷ address 3 3 3 2
    ∷ address 2 3 2 2
    ∷ address 2 3 2 1
    ∷ address 2 2 3 1
    ∷ address 2 3 2 1
    ∷ address 2 3 3 1
    ∷ address 3 3 3 1
    ∷ []

unfoldable pub place_fits : Place → ℕ → Bool
place_fits digit c = leb b'0' c && leb c b'9'
place_fits any_char c = true

unfoldable pub fits_at : List Place → String → Bool
unfolding place_fits
fits_at [] s = true
fits_at (p ∷ ps) String.[] = false
fits_at (p ∷ ps) (String.◌∷◌ c s) = let rest = fits_at ps s in place_fits p (code c) && rest

-- `Match`, which looks for the expression at every position.
unfoldable pub match : List Place → String → Bool
unfolding fits_at
match ps String.[] = fits_at ps ""
match ps (String.◌∷◌ c s) = let rest = match ps s in fits_at ps (String.◌∷◌ c s) || rest

unfoldable pub match_any : List (List Place) → String → Bool
unfolding match
match_any [] s = false
match_any (ps ∷ patterns) s = match ps s || match_any patterns s

unfoldable pub is_address : String → Bool
unfolding match_any ip_patterns
is_address s = match_any ip_patterns s

-- `strings.Trim(line, " ")`
unfoldable pub trim_left : String → String
trim_left String.[] = ""
trim_left (String.◌∷◌ c s) =
    let rest = trim_left s in if String.◌∷◌ c "" == " " then rest else String.◌∷◌ c s

unfoldable pub trim_right : String → String
trim_right String.[] = ""
trim_right (String.◌∷◌ c s) =
    let rest = trim_right s in
    if String.◌∷◌ c "" == " " && rest == "" then "" else String.◌∷◌ c rest

unfoldable pub trim : String → String
unfolding trim_left trim_right
trim s = trim_right (trim_left s)

module _ {St : Type 0} where
  -- The loop of `RetrieveBGPHop`, with `hops`.
  unfoldable pub add_hops : List String → List String → M St (List String)
  add_hops [] hops = pure hops
  add_hops (line ∷ lines) hops =
      let rest : List String → M St (List String) = λ hs. add_hops lines hs in
      if is_address (trim line)
      then (do
        first ← at (split b' ' (trim line)) 0
        if is_address first
            then (do
              second ← at (split b' ' (trim line)) 1
              rest (hops ++ (first <> (":" <> second)) ∷ []))
            else rest hops)
      else rest hops

  unfoldable pub retrieve_bgp_hop : Outside → String → M St (Fallible (List String))
  unfolding add_hops
  retrieve_bgp_hop o name = do
    content ← look (read_file o name)
    elim content [
      | err e ↦ pure (err e)
      | ok text ↦ do hops ← add_hops (split 10 text) []; act (remove_file o name); pure (ok hops)
    ]

  -- The loop of `IsExistBGPHop`.
  unfoldable pub add_addresses : List String → List String → M St (List String)
  add_addresses [] hops = pure hops
  add_addresses (line ∷ lines) hops =
      let rest : List String → M St (List String) = λ hs. add_addresses lines hs in
      if is_address (trim line)
      then (do
        first ← at (split b' ' (trim line)) 0
        if is_address first then rest (hops ++ first ∷ []) else rest hops)
      else rest hops

  unfoldable pub is_exist_bgp_hop : Outside → String → String → M St (Fallible Bool)
  unfolding add_addresses
  is_exist_bgp_hop o name hop = do
    content ← look (read_file o name)
    elim content [
      | err e ↦ pure (err e)
      | ok text ↦ do
        hops ← add_addresses (split 10 text) []
        act (remove_file o name)
        pure (ok (o.contains hops hop))
    ]
