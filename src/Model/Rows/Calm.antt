-- ===== src/Model/Rows/Calm.antt =====
-- The checks of the workload rows do not panic (src/model.rs).
use Prim.Native.String.{String}
use cfab.Prelude.{ℕ, List, [], ◌∷◌, Option, none, some}
use cfab.Model.{Member, MemberWorkload, Workload, Fabric, workload}
use cfab.Model.Checks.{
  Checked, pass, refused, panicked, IsCalm, passes, refuses, both-IsCalm, each-IsCalm,
  refuse_if-IsCalm, refuse_some-IsCalm,
}
use cfab.Model.Refusals.{RowRefusal, MemberRowRefusal, workload_refused, member_workload_refused}
use cfab.Model.Rows.{
  check_server, check_row, of_row, check_rows, check_member_row, of_member_row, check_member_rows,
  check_addresses,
}

ruleset calm = (both-IsCalm, each-IsCalm, refuse_if-IsCalm, refuse_some-IsCalm, passes, refuses)

check_server-IsCalm : (o : Option ℕ) (w : Workload) (f : Fabric) → IsCalm (check_server o w f)
unfolding check_server
check_server-IsCalm none w f = passes
check_server-IsCalm (some s) w f = search (calm)

check_row-IsCalm :
    (before : List Workload) (w : Workload) (f : Fabric) → IsCalm (check_row before w f)
unfolding check_row
check_row-IsCalm before w f = search (calm, check_server-IsCalm) depth 20

of_row-IsCalm : (name : String) (c : Checked RowRefusal) → IsCalm c → IsCalm (of_row name c)
of_row-IsCalm name pass c = passes
of_row-IsCalm name (refused r) c = refuses (workload_refused name r)
of_row-IsCalm name panicked c = elim c [ ]

pub check_rows-IsCalm : (before ws : List Workload) (f : Fabric) → IsCalm (check_rows before ws f)
unfolding check_rows
check_rows-IsCalm before [] f = passes
check_rows-IsCalm before (w ∷ ws) f =
    both-IsCalm _ _ (of_row-IsCalm w.name _ (check_row-IsCalm before w f))
      (check_rows-IsCalm (w ∷ before) ws f)

check_member_row-IsCalm :
    (m : Member) (x : MemberWorkload) (o : Option Workload) → IsCalm (check_member_row m x o)
unfolding check_member_row
check_member_row-IsCalm m x none = refuses _
check_member_row-IsCalm m x (some w) = search (calm)

of_member_row-IsCalm :
    (m row : String) (c : Checked MemberRowRefusal) → IsCalm c → IsCalm (of_member_row m row c)
of_member_row-IsCalm m row pass c = passes
of_member_row-IsCalm m row (refused r) c = refuses (member_workload_refused m row r)
of_member_row-IsCalm m row panicked c = elim c [ ]

pub check_member_rows-IsCalm :
    (m : Member) (f : Fabric) (before xs : List MemberWorkload)
    → IsCalm (check_member_rows m f before xs)
unfolding check_member_rows
check_member_rows-IsCalm m f before [] = passes
check_member_rows-IsCalm m f before (x ∷ xs) =
    both-IsCalm _ _
      (of_member_row-IsCalm m.name x.name _
        (both-IsCalm _ _ (refuse_if-IsCalm _ _) (check_member_row-IsCalm m x (workload x.name f))))
      (check_member_rows-IsCalm m f (x ∷ before) xs)

pub check_addresses-IsCalm : (f : Fabric) → IsCalm (check_addresses f)
unfolding check_addresses
check_addresses-IsCalm f = search (calm)
