-- ===== src/Tests/Copy.antt =====
-- The copy of a directory at a concrete input.
use mathlib.Core.Path.{subst}
use slingshot_operator.Prelude.{
  ◌+◌, ◌≡◌, refl, String, false, List, [], ◌∷◌, ◌⊎◌, inr, All, str_eq, arith,
}
use slingshot_operator.Prelude.FilePath.{join_path}
use slingshot_operator.Host.{DirEntry, FileError, FileInfo, Host}
use slingshot_operator.DriverAgent.Source.{copy_levels, copy_dir}
use slingshot_operator.DriverAgent.Source.Depth.{IsShallow, copy_unbounded}
use slingshot_operator.Tests.Machine.{Machine, node_host, class_entries}
use slingshot_operator.Tests.Agent.{machine}

abbrev found_info : String → FileError ⊎ FileInfo
found_info path = inr (record { is_dir = str_eq path "/include"; mode = 493 })

-- /include is a directory of two files.
abbrev tree : Host Machine
tree = record node_host {
  stat = λ path w. (found_info path, w);
  open_file = λ path w. (inr path, w);
}

inr_injective : {A B : Type 0} (a b : B) → ◌≡◌ {A = A ⊎ B} (inr a) (inr b) → a ≡ b
inr_injective a b h = cc

is_file :
    (path : String) (info : FileInfo)
    → str_eq path "/include" ≡ false
    → found_info path ≡ inr info
    → info.is_dir ≡ false
is_file path info f h = ground (arith, f)

entries-IsShallow :
    All (λ (e : DirEntry). IsShallow tree 0 (join_path "/include" e.name)) class_entries
unfolding join_path
entries-IsShallow = (
  λ w info h. is_file "/include/cxi0" info refl h,
  (λ w info h. is_file "/include/notes" info refl h, tt),
)

tree-IsShallow : IsShallow tree 1 "/include"
tree-IsShallow w es h =
    subst (λ (xs : List DirEntry). All (λ e. IsShallow tree 0 (join_path "/include" e.name)) xs)
      (inr_injective class_entries es h) entries-IsShallow

copy_unbounded_test :
    copy_dir tree "/include" "/copy" ≡ copy_levels tree (4096 + 4) "/include" "/copy"
copy_unbounded_test = copy_unbounded tree 1 4 "/include" "/copy" tree-IsShallow (omega arith)

-- The directory and its files are made.
copied :
    (copy_levels tree 2 "/include" "/copy" machine).1.written ≡ "/copy/notes" ∷ "/copy/cxi0" ∷ []
unfolding copy_levels
copied = refl
