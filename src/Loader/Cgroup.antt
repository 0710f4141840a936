-- ===== src/Loader/Cgroup.antt =====
-- scx_morpheus/src/main.rs: the cgroup of a process.
use morpheus.Prelude.{Option, none, some, List, [], ◌∷◌, ◌++◌, ◌≡◌, refl, if◌then◌else◌}
use morpheus.Prelude.Text.{Text, text, text_beq, lines, strip_prefix}

-- The first line of /proc/PID/cgroup that starts with "0::"; `none` is the error.
unfoldable pub cgroup_of_lines : List Text → Option Text
unfolding strip_prefix text_beq
cgroup_of_lines [] = none
cgroup_of_lines (line ∷ rest) =
    let next = cgroup_of_lines rest in
    elim (strip_prefix (text "0::") line) [
      | none ↦ next
      | some path ↦
          if text_beq path (text "/")
          then some (text "/sys/fs/cgroup")
          else some (text "/sys/fs/cgroup" ++ path)
    ]

-- `file` is the text of /proc/PID/cgroup.
unfoldable pub find_cgroup_path : (file : Option Text) → Option Text
unfolding cgroup_of_lines lines
find_cgroup_path none = none
find_cgroup_path (some content) = cgroup_of_lines (lines content)

unfoldable pub max_file : Text → Text
max_file cgroup_path = cgroup_path ++ text "/cpu.max"

find_cgroup_path_run :
    find_cgroup_path (some (text "1:cpu:/x\n0::/user.slice\n"))
    ≡ some (text "/sys/fs/cgroup/user.slice")
unfolding find_cgroup_path
find_cgroup_path_run = refl
