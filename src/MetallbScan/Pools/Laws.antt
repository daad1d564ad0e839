-- ===== src/MetallbScan/Pools/Laws.antt =====
-- In which pool an address is found.
use monitoring_wo_webhooks.Prelude.{
  ◌≡◌, refl, sym, ap, ◌∙◌, String, Bool, true, false, ◌&&◌, ◌||◌, none, some, List, [], ◌∷◌, ◌++◌,
  ◌==◌, arith, if◌then◌else◌, Option-cases, inl, inr, is_some,
}
use mathlib.Core.List.{append-nil, append_assoc}
use monitoring_wo_webhooks.Prelude.Text.{contains, split}
use monitoring_wo_webhooks.Runtime.{Session, Fallible, ok, err, returned}
use monitoring_wo_webhooks.MetallbScan.Keys.{has, split-has, split-join}
use monitoring_wo_webhooks.MetallbScan.Pools.{
  AddressPool, Ranges, Place, nowhere, key, add_ends, add_address, add_pool, add_pools, is_empty,
  no_pools, find_single, find_range, look_up, check_ip_pool,
}

-- A pool's name with an address, an end of a range or a range of it.
abbrev pub Entry : Type 0
Entry = String × String

abbrev pub keys : List Entry → List String
keys [] = []
keys ((pool, text) ∷ es) = key pool text ∷ keys es

keys-append : (xs ys : List Entry) → keys (xs ++ ys) ≡ keys xs ++ keys ys
keys-append [] ys = refl
keys-append ((pool, text) ∷ xs) ys = ap (λ l. key pool text ∷ l) (keys-append xs ys)

abbrev pub with_pool : String → List String → List Entry
with_pool pool [] = []
with_pool pool (ip ∷ ips) = (pool, ip) ∷ with_pool pool ips

-- The addresses that one entry of a pool stands for by itself: of a range with a dash its two ends.
abbrev pub singles_of : String → String → List Entry
singles_of pool add =
    if add == ""
    then []
    else if contains add "/"
    then []
    else if contains add "-"
    then with_pool pool (split b'-' add)
    else (pool, add) ∷ []

-- The range in the notation of a prefix that one entry of a pool is.
abbrev pub ranges_of : String → String → List Entry
ranges_of pool add = if add == "" then [] else if contains add "/" then (pool, add) ∷ [] else []

abbrev pub each : (String → String → List Entry) → String → List String → List Entry
each f pool [] = []
each f pool (add ∷ adds) = f pool add ++ each f pool adds

abbrev pub all_of : (String → String → List Entry) → List AddressPool → List Entry
all_of f [] = []
all_of f (p ∷ ps) = each f p.name p.addresses ++ all_of f ps

add_ends_lem :
    (pool : String) (ips singles : List String)
    → add_ends pool ips singles ≡ singles ++ keys (with_pool pool ips)
unfolding add_ends
add_ends_lem pool [] singles = sym (append-nil singles)
add_ends_lem pool (ip ∷ ips) singles =
    add_ends_lem pool ips (singles ++ key pool ip ∷ [])
    ∙ append_assoc singles (key pool ip ∷ []) (keys (with_pool pool ips))

-- What is put behind the two lists.
abbrev behind : List Entry → List Entry → List String × List String → List String × List String
behind rs ss lists = (lists.0 ++ keys rs, lists.1 ++ keys ss)

add_address_lem :
    (pool add : String) (lists : List String × List String)
    → add_address pool add lists ≡ behind (ranges_of pool add) (singles_of pool add) lists
unfolding add_address
add_address_lem pool add (ranges, singles) =
    ground
      (arith, add_ends_lem pool (split b'-' add) singles, append-nil singles, append-nil ranges)

behind-append :
    (rs rs2 ss ss2 : List Entry) (lists : List String × List String)
    → behind rs2 ss2 (behind rs ss lists) ≡ behind (rs ++ rs2) (ss ++ ss2) lists
behind-append rs rs2 ss ss2 (a, b) =
    rw (keys-append rs rs2, keys-append ss ss2)
      (λ i. (append_assoc a (keys rs) (keys rs2) i, append_assoc b (keys ss) (keys ss2) i))

add_pool_lem :
    (pool : String) (adds : List String) (lists : List String × List String)
    → add_pool pool adds lists ≡ behind (each ranges_of pool adds) (each singles_of pool adds) lists
unfolding add_pool
add_pool_lem pool [] (a, b) = λ i. (sym (append-nil a) i, sym (append-nil b) i)
add_pool_lem pool (add ∷ adds) lists =
    ap (add_pool pool adds) (add_address_lem pool add lists)
    ∙ (add_pool_lem pool adds (behind (ranges_of pool add) (singles_of pool add) lists)
        ∙ behind-append (ranges_of pool add) (each ranges_of pool adds) (singles_of pool add)
            (each singles_of pool adds) lists)

add_pools_lem :
    (pools : List AddressPool) (lists : List String × List String)
    → add_pools pools lists ≡ behind (all_of ranges_of pools) (all_of singles_of pools) lists
unfolding add_pools
add_pools_lem [] (a, b) = λ i. (sym (append-nil a) i, sym (append-nil b) i)
add_pools_lem (p ∷ ps) lists =
    ap (add_pools ps) (add_pool_lem p.name p.addresses lists)
    ∙ (add_pools_lem ps
          (behind (each ranges_of p.name p.addresses) (each singles_of p.name p.addresses) lists)
        ∙ behind-append (each ranges_of p.name p.addresses) (all_of ranges_of ps)
            (each singles_of p.name p.addresses) (all_of singles_of ps) lists)

-- No name and no text has a colon.
abbrev pub AllPlain : List Entry → Type 0
AllPlain [] = Unit {0}
AllPlain ((pool, text) ∷ es) = (has b':' pool ≡ false) × (has b':' text ≡ false) × AllPlain es

-- The first entry whose text passes a test.
abbrev pub first_place : (String → Bool) → List Entry → Place
first_place f [] = nowhere
first_place f ((pool, text) ∷ es) = if f text then (true, (pool, text)) else first_place f es

split-key :
    (pool text : String)
    → has b':' pool ≡ false
    → has b':' text ≡ false
    → split b':' (key pool text) ≡ pool ∷ text ∷ []
split-key pool text h k = split-join pool text h ∙ ap (λ l. pool ∷ l) (split-has b':' text k)

find_single_lem :
    {St : Type 0} (external : String) (es : List Entry) (s : Session St)
    → AllPlain es
    → find_single external (keys es) s ≡ returned (first_place (λ t. external == t) es) s
unfolding find_single
find_single_lem external [] s plain = refl
find_single_lem external ((pool, text) ∷ es) s (h, k, plain) =
    ground (arith, split-key pool text h k, find_single_lem external es s plain)

module _ (nets : Ranges) (holds : nets.Net → String → Bool) where
  abbrev pub any_holds : List nets.Net → String → Bool
  any_holds [] external = false
  any_holds (n ∷ ns) external = holds n external || any_holds ns external

  any_holds-append_one :
      (ns : List nets.Net) (n : nets.Net) (external : String)
      → any_holds (ns ++ n ∷ []) external ≡ (any_holds ns external || holds n external)
  any_holds-append_one [] n external = ground arith
  any_holds-append_one (m ∷ ns) n external = ground (arith, any_holds-append_one ns n external)

  abbrev pub covers : String → String → Bool
  covers external text = elim (nets.parse_cidr text) [ none ↦ false | some n ↦ holds n external ]

  abbrev pub AllParse : List Entry → Type 0
  AllParse [] = Unit {0}
  AllParse ((pool, text) ∷ es) = (is_some (nets.parse_cidr text) ≡ true) × AllParse es

  -- The pool of an address: an entry that is the address comes before every range that covers it.
  abbrev pub place_of : List AddressPool → String → Place
  place_of pools external =
      let p = first_place (λ t. external == t) (all_of singles_of pools) in
      if p.0 then p else first_place (covers external) (all_of ranges_of pools)

  -- The ranger finds an address exactly if one of the ranges in it holds the address.
  abbrev pub Documented : String → Type 0
  Documented external = (ns : List nets.Net) → nets.within ns external ≡ ok (any_holds ns external)

  abbrev pub Usable : List AddressPool → Type 0
  Usable pools =
      AllPlain (all_of singles_of pools)
      × AllPlain (all_of ranges_of pools)
      × AllParse (all_of ranges_of pools)

  -- What the look-up answers.
  abbrev pub answer_of : List AddressPool → String → Fallible Place
  answer_of pools external =
      if is_empty (keys (all_of ranges_of pools)) && is_empty (keys (all_of singles_of pools))
      then err no_pools
      else ok (place_of pools external)

  module _ {St : Type 0} (external : String) (doc : Documented external) where
    find_range_lem :
        (seen : List nets.Net) (es : List Entry) (s : Session St)
        → any_holds seen external ≡ false
        → AllPlain es
        → AllParse es
        → find_range nets external seen (keys es) s
          ≡ returned (ok (first_place (covers external) es)) s
    unfolding find_range
    find_range_lem seen [] s none_yet plain parse = refl
    find_range_lem seen ((pool, text) ∷ es) s none_yet (h, k, plain) (p, parse) =
        elim (Option-cases (nets.parse_cidr text)) [
          | inl broken ↦ ground arith
          | inr (n, parsed) ↦ ground (
            arith,
            split-key pool text h k,
            doc (seen ++ n ∷ []),
            any_holds-append_one seen n external,
            find_range_lem (seen ++ n ∷ []) es s,
          )
        ]

    -- The ranger holds an address exactly if one of the ranges that were put into it does; no name
    -- of a pool and no address of it has a colon, and every address with a slash is a range. Then
    -- the look-up returns. Without any address in the pools it gives an error. If not, it finds the
    -- first pool that names the address, by itself or as an end of a range with a dash; if there is
    -- none the first pool with a range that covers it; and if there is none of these either no pool.
    pub check_ip_pool_lem :
        (pools : List AddressPool) (s : Session St)
        → Usable pools
        → check_ip_pool nets (ok pools) external s ≡ returned (answer_of pools external) s
    unfolding check_ip_pool look_up
    check_ip_pool_lem pools s (plain, plain_ranges, parse) = ground (
      arith,
      add_pools_lem pools ([], []),
      find_single_lem external (all_of singles_of pools) s plain,
      find_range_lem [] (all_of ranges_of pools) s refl plain_ranges parse,
    )
