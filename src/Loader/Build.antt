-- ===== src/Loader/Build.antt =====
-- scx_morpheus/build.rs: the build script of the loader. The environment, bpftool and libbpf-cargo
-- are the answers of a `World`; a file is its bytes. A panic is what `main` ends with.
use morpheus.Prelude.{
  ◌≡◌, ◌↔◌, Bool, true, Option, none, some, List, [], ◌∷◌, ◌++◌, if◌then◌else◌, arith, Option-cases,
  inl, inr,
}
use morpheus.Prelude.Text.{Text, text}

pub data Panic : Type 0 where
  out_dir_not_set : Panic
  kernel_btf_not_found : Panic
  failed_to_write : Panic
  bpftool_failed : (stderr : Text) → Panic
  failed_to_run_bpftool : Panic
  failed_to_build_skeleton : Panic

-- What a command that was started has answered.
pub record Output : Type 0 where
  pub success : Bool
  pub stdout : Text
  pub stderr : Text

pub record World : Type 0 where
  pub out_dir : Option Text
  pub btf_exists : Bool
  pub bpftool : Option Output
  pub writable : Bool
  -- What a write that fails leaves.
  pub half_written : Option Text
  pub compiles : List Text → (vmlinux : Option Text) → Bool

unfoldable pub write_output : World → Output → Option Text → Option Text × Option Panic
write_output w o vmlinux =
    if o.success
    then if w.writable then (some o.stdout, none) else (w.half_written, some failed_to_write)
    else (vmlinux, some (bpftool_failed o.stderr))

-- The file vmlinux.h before and after.
unfoldable pub generate_vmlinux_h : World → Option Text → Option Text × Option Panic
unfolding write_output
generate_vmlinux_h w vmlinux =
    if w.btf_exists
    then elim w.bpftool [
      | none ↦ (vmlinux, some failed_to_run_bpftool)
      | some o ↦ write_output w o vmlinux
    ]
    else (vmlinux, some kernel_btf_not_found)

unfoldable pub clang_args : (out_dir : Text) → List Text
clang_args out_dir =
    (text "-I" ++ out_dir)
    ∷ text "-Isrc/bpf"
    ∷ text "-I../morpheus-common/include"
    ∷ text "-Wno-compare-distinct-pointer-types"
    ∷ text "-D__TARGET_ARCH_x86"
    ∷ text "-g"
    ∷ []

unfoldable pub build_skeleton :
    World → (out_dir : Text) → Option Text × Option Panic → Option Text × Option Panic
unfolding clang_args
build_skeleton w out_dir (vmlinux, some p) = (vmlinux, some p)
build_skeleton w out_dir (vmlinux, none) = (
  vmlinux,
  if w.compiles (clang_args out_dir) vmlinux then none else some failed_to_build_skeleton,
)

unfoldable pub main : World → Option Text → Option Text × Option Panic
unfolding generate_vmlinux_h build_skeleton
main w vmlinux = elim w.out_dir [
  | none ↦ (vmlinux, some out_dir_not_set)
  | some dir ↦ build_skeleton w dir (generate_vmlinux_h w vmlinux)
]

-- What a build needs.
pub record Succeeds (w : World) (dir : Text) (o : Output) : Type 0 where
  pub known : w.out_dir ≡ some dir
  pub btf : w.btf_exists ≡ true
  pub ran : w.bpftool ≡ some o
  pub success : o.success ≡ true
  pub written : w.writable ≡ true
  pub compiled : w.compiles (clang_args dir) (some o.stdout) ≡ true

-- The header is never stale: a build ends without a panic exactly if the directory is known, the BTF
-- is there, bpftool ran and succeeded, its output could be written, and the program compiles with
-- that output, where the header holds that output in the end, whatever it held before.
pub main-Succeeds :
    (w : World) (vmlinux : Option Text)
    → ((main w vmlinux).1 ≡ none)
      ↔ ((dir : Text) × (o : Output) × Succeeds w dir o × ((main w vmlinux).0 ≡ some o.stdout))
unfolding main
main-Succeeds w vmlinux = (forth, back)
  where
    forth :
        (main w vmlinux).1 ≡ none
        → (dir : Text) × (o : Output) × Succeeds w dir o × ((main w vmlinux).0 ≡ some o.stdout)
    forth done = elim (Option-cases w.out_dir) [
      | inl unknown ↦ absurd (ground (arith, unknown, done))
      | inr (dir, known) ↦ elim (Option-cases w.bpftool) [
        | inl failed ↦ absurd (ground (arith, known, failed, done))
        | inr (o, ran) ↦
            (dir, o, ground (arith, known, ran, done), ground (arith, known, ran, done))
      ]
    ]

    back :
        (dir : Text) × (o : Output) × Succeeds w dir o × ((main w vmlinux).0 ≡ some o.stdout)
        → (main w vmlinux).1 ≡ none
    back (dir, o, v, holds) =
        ground (arith, v.known, v.btf, v.ran, v.success, v.written, v.compiled)
