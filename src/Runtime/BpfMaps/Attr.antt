-- ===== src/Runtime/BpfMaps/Attr.antt =====
-- morpheus-runtime/src/bpf_maps.rs: the attributes that the system call `bpf` is handed, as the bytes
-- in memory. An address is the number that a pointer is cast to. The kernel reads the descriptor of
-- a map at offset 0, the address of the key at 8, that of the value at 16 and the flags at 24.
use morpheus.Prelude.{
  ℕ, ◌^◌, ◌<◌, ◌≡◌, refl, Option, none, some, List, [], ◌∷◌, ◌++◌, ◌==◌, if◌then◌else◌, length, u32,
  from_ne_bytes, read_at, to_ne_bytes, arith, All, Option-cases, inl, inr, ◌↔◌, ◌≢◌,
}

pub record BpfMapUpdateAttr : Type 0 where
  pub map_fd : ℕ
  pub key : ℕ
  pub value : ℕ
  pub flags : ℕ

pub record BpfMapDeleteAttr : Type 0 where
  pub map_fd : ℕ
  pub key : ℕ

pub record BpfObjGetAttr : Type 0 where
  pub pathname : ℕ
  pub bpf_fd : ℕ
  pub file_flags : ℕ

-- `repr(C)`: the fields as they are written, with the word of padding.
unfoldable pub update_bytes : BpfMapUpdateAttr → List ℕ
update_bytes a =
    to_ne_bytes 4 a.map_fd
    ++ (to_ne_bytes 4 0
        ++ (to_ne_bytes 8 a.key ++ (to_ne_bytes 8 a.value ++ (to_ne_bytes 8 a.flags ++ []))))

unfoldable pub obj_get_bytes : BpfObjGetAttr → List ℕ
obj_get_bytes a =
    to_ne_bytes 8 a.pathname ++ (to_ne_bytes 4 a.bpf_fd ++ (to_ne_bytes 4 a.file_flags ++ []))

-- The attribute of a deletion has no `repr(C)`: the compiler chooses the order of its fields. It may
-- leave them as they are written, or put the widest one first.
pub data Layout : Type 0 where
  as_written : Layout
  widest_first : Layout

unfoldable pub delete_bytes : Layout → BpfMapDeleteAttr → List ℕ
delete_bytes as_written a =
    to_ne_bytes 4 a.map_fd ++ (to_ne_bytes 4 0 ++ (to_ne_bytes 8 a.key ++ []))
delete_bytes widest_first a =
    to_ne_bytes 8 a.key ++ (to_ne_bytes 4 a.map_fd ++ (to_ne_bytes 4 0 ++ []))

-- The descriptors are cast to unsigned words.
unfoldable pub update_attr : (tid_map_fd key_at value_at : ℕ) → BpfMapUpdateAttr
update_attr tid_map_fd key_at value_at = record {
  map_fd = u32 tid_map_fd;
  key = key_at;
  value = value_at;
  flags = 0;
}

unfoldable pub delete_attr : (tid_map_fd key_at : ℕ) → BpfMapDeleteAttr
delete_attr tid_map_fd key_at = record { map_fd = u32 tid_map_fd; key = key_at }

unfoldable pub obj_get_attr : (path_at : ℕ) → BpfObjGetAttr
obj_get_attr path_at = record { pathname = path_at; bpf_fd = 0; file_flags = 0 }

-- `CString::new` refuses a path with a zero byte, and ends any other with one.
unfoldable pub c_string : List ℕ → Option (List ℕ)
c_string [] = some (0 ∷ [])
c_string (b ∷ bs) =
    let rest = c_string bs in
    if b == 0 then none else elim rest [ none ↦ none | some cs ↦ some (b ∷ cs) ]

-- What the kernel reads.
abbrev pub fd_of : List ℕ → ℕ
fd_of = read_at 0 4

abbrev pub key_of : List ℕ → ℕ
key_of = read_at 8 8

abbrev pub value_of : List ℕ → ℕ
value_of = read_at 16 8

abbrev pub flags_of : List ℕ → ℕ
flags_of = read_at 24 8

-- What the kernel reads is what the runtime means: in a registration the descriptor, the addresses of
-- the key and of the value, and no flags; in an unregistration the descriptor and the address of the
-- key, if the compiler leaves the fields as they are written; in the opening of a map the address of
-- the path. If it puts the widest field of a deletion first, the kernel takes the low half of the
-- key's address for the descriptor, and the descriptor for the address of the key.
pub attrs-read :
    (fd key_at value_at path_at : ℕ)
    → fd < 2 ^ 32
    → key_at < 2 ^ 64
    → value_at < 2 ^ 64
    → path_at < 2 ^ 64
    → let update = update_bytes (update_attr fd key_at value_at) in
      let written = delete_bytes as_written (delete_attr fd key_at) in
      let widest = delete_bytes widest_first (delete_attr fd key_at) in
      let get = obj_get_bytes (obj_get_attr path_at) in
      ((length update ≡ 32)
        × (fd_of update ≡ fd)
        × (key_of update ≡ key_at)
        × (value_of update ≡ value_at)
        × (flags_of update ≡ 0))
      × ((length written ≡ 16) × (fd_of written ≡ fd) × (key_of written ≡ key_at))
      × ((length widest ≡ 16) × (fd_of widest ≡ u32 key_at) × (key_of widest ≡ fd))
      × ((length get ≡ 16) × (read_at 0 8 get ≡ path_at))
unfolding update_bytes update_attr delete_bytes delete_attr obj_get_bytes obj_get_attr read_at
    to_ne_bytes from_ne_bytes
attrs-read fd key_at value_at path_at f k v p = (
  (refl, omega arith, omega arith, omega arith, omega arith),
  (refl, omega arith, omega arith),
  (refl, omega arith, omega arith),
  (refl, omega arith),
)

-- A path without a zero byte is passed with one at its end, and no other is passed.
pub c_string_iff :
    (bs cs : List ℕ) → (c_string bs ≡ some cs) ↔ (All (λ b. b ≢ 0) bs × (cs ≡ bs ++ 0 ∷ []))
unfolding c_string
c_string_iff [] cs = (λ e. (tt, cc), λ h. cc)
c_string_iff (b ∷ bs) cs = elim (Option-cases (c_string bs)) [
  | inl refused ↦ ground (arith, refused, c_string_iff bs (bs ++ 0 ∷ []))
  | inr (ds, passed) ↦ ground (arith, passed, c_string_iff bs ds)
]
