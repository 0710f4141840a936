-- ===== src/Runtime/BpfMaps/ObjGet.antt =====
-- morpheus-runtime/src/bpf_maps.rs: the opening of a pinned map. Where a C string stands in memory, and
-- the system call, are parameters.
use morpheus.Prelude.{
  ℕ, ◌≡◌, refl, sym, ap, ◌∙◌, ◌↔◌, inl, inr, none, some, List, [], ◌∷◌, ◌++◌, length, u32, arith,
  All, ◌≢◌, Option-cases,
}
use morpheus.Runtime.BpfMaps.Attr.{obj_get_attr, obj_get_bytes, c_string, c_string_iff}

-- `NulError` of `CString::new`, or `last_os_error`.
pub data IoError : Type 0 where
  nul_error : IoError
  os_error : (errno : ℕ) → IoError

pub data IoResult : Type 0 where
  ok : (fd : ℕ) → IoResult
  err : IoError → IoResult

-- What `libc::syscall` returns: a negative number, with an error number, or another.
pub data Returned : Type 0 where
  negative : (errno : ℕ) → Returned
  returned : (value : ℕ) → Returned

abbrev pub bpf_obj_get_command : ℕ
bpf_obj_get_command = 7

module _ (as_ptr : List ℕ → ℕ) (bpf : (command : ℕ) (attr : List ℕ) (size : ℕ) → Returned) where
  unfoldable pub of_returned : Returned → IoResult
  of_returned (negative errno) = err (os_error errno)
  of_returned (returned fd) = ok (u32 fd)

  -- The call on a C string.
  abbrev pub call_on : List ℕ → Returned
  call_on c_path =
      let attr = obj_get_bytes (obj_get_attr (as_ptr c_path)) in
      bpf bpf_obj_get_command attr (length attr)

  unfoldable pub bpf_obj_get : (pathname : List ℕ) → IoResult
  unfolding c_string of_returned
  bpf_obj_get pathname = elim (c_string pathname) [
    | none ↦ err nul_error
    | some c_path ↦ of_returned (call_on c_path)
  ]

  of_returned_iff :
      (r : Returned) (fd : ℕ)
      → (of_returned r ≡ ok fd) ↔ ((value : ℕ) × (r ≡ returned value) × (u32 value ≡ fd))
  unfolding of_returned
  of_returned_iff (negative errno) fd = (λ e. cc, λ (v, e, same). cc)
  of_returned_iff (returned value) fd = (λ e. (value, refl, cc), λ (v, e, same). cc)

  -- A path is opened exactly if it has no zero byte and the system call on it, with a zero byte at its
  -- end, returns a descriptor, which is then the result.
  pub bpf_obj_get_iff :
      (pathname : List ℕ) (fd : ℕ)
      → (bpf_obj_get pathname ≡ ok fd) ↔ (
          All (λ b. b ≢ 0) pathname
          × ((value : ℕ) × (call_on (pathname ++ 0 ∷ []) ≡ returned value) × (u32 value ≡ fd)))
  unfolding bpf_obj_get
  bpf_obj_get_iff pathname fd = elim (Option-cases (c_string pathname)) [
    | inl refused ↦ (
      λ opened. ground (arith, refused, opened),
      λ (no_zero, called).
          let passed = (c_string_iff pathname (pathname ++ 0 ∷ [])).1 (no_zero, refl) in cc,
    )
    | inr (c_path, passed) ↦
        let (no_zero, shape) = (c_string_iff pathname c_path).0 passed in
        let terminated = passed ∙ ap some shape in
        let opening : bpf_obj_get pathname ≡ of_returned (call_on (pathname ++ 0 ∷ [])) =
          rw (terminated, bpf_obj_get) refl in
        let answer = of_returned_iff (call_on (pathname ++ 0 ∷ [])) fd in
        (
          λ opened. (no_zero, answer.0 (sym opening ∙ opened)),
          λ (nz, called). opening ∙ answer.1 called,
        )
  ]
