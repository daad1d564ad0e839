-- ===== src/MetallbScan/Routes/Laws.antt =====
-- Which line of a routing table decides.
use monitoring_wo_webhooks.Prelude.{
  ◌≡◌, refl, String, ◌<>◌, true, Option, none, some, List, [], ◌∷◌, ◌==◌, arith, if◌then◌else◌,
}
use monitoring_wo_webhooks.Prelude.Text.{contains, split}
use monitoring_wo_webhooks.Runtime.{
  bind, pure, Outside, Session, Outcome, Fallible, ok, returned, panicked, read_file, remove_file,
}
use monitoring_wo_webhooks.MetallbScan.Routes.{
  Answer, absent, judge_line, check_lines, check_lb_ip_route,
}

-- The first line that contains a text.
abbrev pub first_line : String → List String → Option String
first_line route [] = none
first_line route (line ∷ lines) = if contains line route then some line else first_line route lines

-- The answer by the fields of a line, where there are two of them.
abbrev pub answer_of : String → List String → Option Answer
answer_of route [] = none
answer_of route (mark ∷ []) = none
answer_of route (mark ∷ net ∷ fields) =
    some (if net == route then (true, (mark == "*>", mark)) else absent)

-- How a function ends that has an answer, or panics.
abbrev pub ends : {St : Type 0} → Option Answer → Session St → Outcome St Answer
ends none s = panicked s
ends (some a) s = returned a s

abbrev pub expected : String → List String → Option Answer
expected route lines = elim (first_line route lines) [
  | none ↦ some absent
  | some line ↦ answer_of route (split b' ' line)
]

judge_line_lem :
    {St : Type 0} (route : String) (fields : List String) (s : Session St)
    → judge_line route fields s ≡ ends (answer_of route fields) s
unfolding judge_line
judge_line_lem route [] s = refl
judge_line_lem route (mark ∷ []) s = ground arith
judge_line_lem route (mark ∷ net ∷ fields) s = ground arith

check_lines_lem :
    {St : Type 0} (route : String) (lines : List String) (s : Session St)
    → check_lines route lines s ≡ ends (expected route lines) s
unfolding check_lines
check_lines_lem route [] s = refl
check_lines_lem route (line ∷ lines) s =
    ground (arith, judge_line_lem route (split b' ' line) s, check_lines_lem route lines s)

-- How `CheckLBIPRoute` ends on a file with this text.
abbrev pub Ends : {St : Type 0} → Option Answer → Session St → Outcome St (Fallible Answer)
Ends none s = panicked s
Ends (some a) s = returned (ok a) s

finish_lem :
    {St : Type 0} (a : Option Answer) (s : Session St)
    → bind (ends a s) (λ b. pure (ok b)) ≡ Ends a s
finish_lem none s = refl
finish_lem (some a) s = refl

-- On a file that can be read, the file is removed and the first line that contains the route
-- decides. Without such a line the route is absent. With it the first two fields answer: the route
-- is there if the second field is the route itself, and then best if the first is "*>". A line of
-- fewer than two fields panics.
pub check_lb_ip_route_lem :
    {St : Type 0} (o : Outside) (name lb_ip text : String) (s : Session St)
    → read_file o name s.world ≡ ok text
    → check_lb_ip_route o name lb_ip s
      ≡ Ends
          (expected (lb_ip <> "/32") (split 10 text))
          (record s { world = remove_file o name s.world })
unfolding check_lb_ip_route
check_lb_ip_route_lem o name lb_ip text s h =
    let route = lb_ip <> "/32" in
    let u = record s { world = remove_file o name s.world } in
    rw (h, check_lines_lem route (split 10 text) u) (finish_lem (expected route (split 10 text)) u)
