-- ===== src/MetallbScan/Hops/Laws.antt =====
-- What the two functions on hops read from a table.
use monitoring_wo_webhooks.Prelude.{
  eqb, Bool-cases, ◌≡◌, refl, ap, ◌∙◌, inl, inr, sym, String, ◌<>◌, Option, none, some, List, [],
  ◌∷◌, ◌++◌, arith, if◌then◌else◌, mem,
}
use monitoring_wo_webhooks.Prelude.Text.{split}
use monitoring_wo_webhooks.Runtime.{Outside, Session, ok, returned, read_file, remove_file}
use monitoring_wo_webhooks.Runtime.Laws.{IsDocumented}
use monitoring_wo_webhooks.MetallbScan.Hops.{
  code, ℕ, is_address, trim, add_hops, retrieve_bgp_hop, add_addresses, is_exist_bgp_hop,
}

abbrev pub fields : String → List String
fields line = split b' ' (trim line)

-- The address at the front of a line and the field after it, where both are there.
pub data Parsed : Type 0 where
  no_hop : Parsed
  hop : String → String → Parsed
  cut_short : String → Parsed

abbrev pub parse_fields : List String → Parsed
parse_fields [] = no_hop
parse_fields (first ∷ []) = if is_address first then cut_short first else no_hop
parse_fields (first ∷ second ∷ rest) = if is_address first then hop first second else no_hop

abbrev pub parse : String → Parsed
parse line = if is_address (trim line) then parse_fields (fields line) else no_hop

-- The hops of a table, unless a line with an address breaks off behind it.
abbrev pub hops_of : List String → Option (List (String × String))
hops_of [] = some []
hops_of (line ∷ lines) = elim (parse line) [
  | no_hop ↦ hops_of lines
  | cut_short first ↦ none
  | hop first second ↦ elim (hops_of lines) [ none ↦ none | some ps ↦ some ((first, second) ∷ ps) ]
]

abbrev pub rendered : List (String × String) → List String
rendered [] = []
rendered ((first, second) ∷ ps) = (first <> (":" <> second)) ∷ rendered ps

abbrev pub addresses : List (String × String) → List String
addresses [] = []
addresses ((first, second) ∷ ps) = first ∷ addresses ps

append_nil : (xs : List String) → xs ++ [] ≡ xs
append_nil [] = refl
append_nil (x ∷ xs) = ap (λ l. x ∷ l) (append_nil xs)

append_one :
    (xs : List String) (y : String) (ys : List String) → (xs ++ y ∷ []) ++ ys ≡ xs ++ y ∷ ys
append_one [] y ys = refl
append_one (x ∷ xs) y ys = ap (λ l. x ∷ l) (append_one xs y ys)

split_front :
    (sep : ℕ) (s : String) → (first : String) × (rest : List String) × (split sep s ≡ first ∷ rest)
unfolding split
split_front sep String.[] = ("", [], refl)
split_front sep (String.◌∷◌ c s) =
    let (first, rest, e) = split_front sep s in
    elim (Bool-cases (eqb (code c) sep)) [
      | inl here ↦ ("", split sep s, ground arith)
      | inr there ↦ (String.◌∷◌ c first, rest, ground arith)
    ]

module _ {St : Type 0} (s : Session St) (line : String) (lines acc : List String) where
  hops-no_hop :
      (fs : List String)
      → fields line ≡ fs
      → parse line ≡ no_hop
      → add_hops (line ∷ lines) acc s ≡ add_hops lines acc s
  unfolding add_hops
  hops-no_hop [] e h = let (first, rest, d) = split_front b' ' (trim line) in absurd (ground arith)
  hops-no_hop (a ∷ []) e h = ground arith
  hops-no_hop (a ∷ b ∷ fs) e h = ground arith

  found-no_hop :
      (fs : List String)
      → fields line ≡ fs
      → parse line ≡ no_hop
      → add_addresses (line ∷ lines) acc s ≡ add_addresses lines acc s
  unfolding add_addresses
  found-no_hop [] e h = let (first, rest, d) = split_front b' ' (trim line) in absurd (ground arith)
  found-no_hop (a ∷ []) e h = ground arith
  found-no_hop (a ∷ b ∷ fs) e h = ground arith

  module _ (first second : String) where
    hops-hop :
        (fs : List String)
        → fields line ≡ fs
        → parse line ≡ hop first second
        → add_hops (line ∷ lines) acc s ≡ add_hops lines (acc ++ (first <> (":" <> second)) ∷ []) s
    unfolding add_hops
    hops-hop [] e h = absurd (ground arith)
    hops-hop (a ∷ []) e h = absurd (ground arith)
    hops-hop (a ∷ b ∷ fs) e h = ground arith

    found-hop :
        (fs : List String)
        → fields line ≡ fs
        → parse line ≡ hop first second
        → add_addresses (line ∷ lines) acc s ≡ add_addresses lines (acc ++ first ∷ []) s
    unfolding add_addresses
    found-hop [] e h = absurd (ground arith)
    found-hop (a ∷ []) e h = absurd (ground arith)
    found-hop (a ∷ b ∷ fs) e h = ground arith

-- What both loops collect, behind what they had.
abbrev Collects : {St : Type 0} → Session St → List String → Type 0
Collects s lines =
    (ps : List (String × String)) (hops found : List String)
    → hops_of lines ≡ some ps
    → (add_hops lines hops s ≡ returned (hops ++ rendered ps) s)
      × (add_addresses lines found s ≡ returned (found ++ addresses ps) s)

nil-Collects : {St : Type 0} (s : Session St) → Collects s []
unfolding add_hops add_addresses
nil-Collects s [] hops found h = (
  ap (λ l. returned l s) (sym (append_nil hops)),
  ap (λ l. returned l s) (sym (append_nil found)),
)
nil-Collects s (p ∷ ps) hops found h = absurd (ground arith)

hops_of-hop :
    (line : String) (lines : List String) (first second : String) (ps : List (String × String))
    (rest : Option (List (String × String)))
    → parse line ≡ hop first second
    → hops_of lines ≡ rest
    → hops_of (line ∷ lines) ≡ some ps
    → (qs : List (String × String)) × (hops_of lines ≡ some qs) × (ps ≡ (first, second) ∷ qs)
hops_of-hop line lines first second ps none e f h = absurd (ground arith)
hops_of-hop line lines first second ps (some qs) e f h = (qs, f, ground arith)

cons-Collects :
    {St : Type 0} (s : Session St) (line : String) (lines : List String) (p : Parsed)
    → parse line ≡ p
    → Collects s lines
    → Collects s (line ∷ lines)
cons-Collects s line lines no_hop e rest ps hops found h =
    let r = rest ps hops found (ground arith) in
    (
      hops-no_hop s line lines hops (fields line) refl e ∙ r.0,
      found-no_hop s line lines found (fields line) refl e ∙ r.1,
    )
cons-Collects s line lines (cut_short first) e rest ps hops found h = absurd (ground arith)
cons-Collects s line lines (hop first second) e rest ps hops found h =
    let (qs, f, g) = hops_of-hop line lines first second ps (hops_of lines) e refl h in
    let one = first <> (":" <> second) in
    let r = rest qs (hops ++ one ∷ []) (found ++ first ∷ []) f in
    (
      hops-hop s line lines hops first second (fields line) refl e
          ∙ (r.0
              ∙ ap (λ l. returned l s)
                  (append_one hops one (rendered qs) ∙ ap (λ l. hops ++ rendered l) (sym g))),
      found-hop s line lines found first second (fields line) refl e
          ∙ (r.1
              ∙ ap (λ l. returned l s)
                  (append_one found first (addresses qs) ∙ ap (λ l. found ++ addresses l) (sym g))),
    )

lines-Collects : {St : Type 0} (s : Session St) (lines : List String) → Collects s lines
lines-Collects s [] = nil-Collects s
lines-Collects s (line ∷ lines) =
    cons-Collects s line lines (parse line) refl (lines-Collects s lines)

-- On a file that can be read, in which a field follows the address of every line that starts with
-- one, and where the search in slices does what its documentation says: both functions return and
-- remove the file. The one gives every such address with the field after it, in the order of the
-- lines, and the other says whether a hop is among these addresses.
pub retrieve-is_exist :
    {St : Type 0} (o : Outside) (doc : IsDocumented o) (name wanted text : String) (s : Session St)
    (ps : List (String × String))
    → read_file o name s.world ≡ ok text
    → hops_of (split 10 text) ≡ some ps
    → let u = record s { world = remove_file o name s.world } in
      (retrieve_bgp_hop o name s ≡ returned (ok (rendered ps)) u)
      × (is_exist_bgp_hop o name wanted s ≡ returned (ok (mem wanted (addresses ps))) u)
unfolding retrieve_bgp_hop is_exist_bgp_hop
retrieve-is_exist o doc name wanted text s ps h found =
    let c = lines-Collects s (split 10 text) ps [] [] found in
    let d = doc.contains_lem (addresses ps) wanted in (rw (h, c.0) refl, rw (h, c.1, d) refl)
