-- ===== src/MetallbScan/Routes.antt =====
-- `CheckLBIPRoute` of internal/metallbscan/util/util.go.
pub mod Laws
use monitoring_wo_webhooks.Prelude.{
  ℕ, String, ◌<>◌, Bool, true, false, not, ◌&&◌, List, [], ◌∷◌, ◌==◌, if◌then◌else◌,
}
use monitoring_wo_webhooks.Prelude.Text.{contains, split}
use monitoring_wo_webhooks.Runtime.{
  Outside, Fallible, ok, err, M, returned, panicked, pure, ◌>>=◌, ◌>>◌, look, act, at, read_file,
  remove_file,
}

-- Whether the route is there, whether it is the best one, and its mark.
abbrev pub Answer : Type 0
Answer = Bool × (Bool × String)

abbrev pub absent : Answer
absent = (false, (false, ""))

module _ {St : Type 0} where
  -- A line that contains the route. `flds[1]` is read after the test of `flds[0]`.
  unfoldable pub judge_line : String → List String → M St Answer
  judge_line route fields = do
    mark ← at fields 0
    if mark == "*>"
        then (do net ← at fields 1; pure (if net == route then (true, (true, mark)) else absent))
        else (do net ← at fields 1; pure (if net == route then (true, (false, mark)) else absent))

  unfoldable pub check_lines : String → List String → M St Answer
  unfolding judge_line contains split
  check_lines route [] = pure absent
  check_lines route (line ∷ lines) =
      let rest = check_lines route lines in
      if contains line route then judge_line route (split b' ' line) else rest

  unfoldable pub check_lb_ip_route : Outside → String → String → M St (Fallible Answer)
  unfolding check_lines split
  check_lb_ip_route o name lb_ip = do
    content ← look (read_file o name)
    elim content [
      | err e ↦ pure (err e)
      | ok text ↦ do
        act (remove_file o name)
        a ← check_lines (lb_ip <> "/32") (split 10 text)
        pure (ok a)
    ]
