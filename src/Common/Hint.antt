-- ===== src/Common/Hint.antt =====
-- morpheus-common/src/lib.rs: the hint message, and its bytes in the ring buffer (`repr(C)`).
use morpheus.Prelude.{
  ℕ, ◌^◌, ◌<◌, ◌≡◌, refl, List, ◌++◌, read_at, to_ne_bytes, read_at-head, read_at-skip, ◌∙◌,
  from-to_ne_bytes, length,
}

pub record MorpheusHint : Type 0 where
  pub seq : ℕ
  pub reason : ℕ
  pub target_tid : ℕ
  pub deadline_ns : ℕ

abbrev pub hint_size : ℕ
hint_size = 24

-- `read_unaligned` of a hint.
unfoldable pub read_hint : List ℕ → MorpheusHint
unfolding read_at
read_hint bytes = record {
  seq = read_at 0 8 bytes;
  reason = read_at 8 4 bytes;
  target_tid = read_at 12 4 bytes;
  deadline_ns = read_at 16 8 bytes;
}

-- The bytes that the kernel side leaves in the ring buffer.
unfoldable pub hint_bytes : MorpheusHint → List ℕ
hint_bytes h =
    to_ne_bytes 8 h.seq
    ++ (to_ne_bytes 4 h.reason ++ (to_ne_bytes 4 h.target_tid ++ to_ne_bytes 8 h.deadline_ns))

-- The fields fit their C types.
pub record IsWord (h : MorpheusHint) : Type 0 where
  pub seq : h.seq < 2 ^ 64
  pub reason : h.reason < 2 ^ 32
  pub target_tid : h.target_tid < 2 ^ 32
  pub deadline_ns : h.deadline_ns < 2 ^ 64

read-hint_seq : (h : MorpheusHint) → IsWord h → read_at 0 8 (hint_bytes h) ≡ h.seq
unfolding hint_bytes
read-hint_seq h w = read_at-head 8 h.seq _ w.seq

read-hint_reason : (h : MorpheusHint) → IsWord h → read_at 8 4 (hint_bytes h) ≡ h.reason
unfolding hint_bytes
read-hint_reason h w = read_at-skip 8 0 4 h.seq _ ∙ read_at-head 4 h.reason _ w.reason

read-hint_target : (h : MorpheusHint) → IsWord h → read_at 12 4 (hint_bytes h) ≡ h.target_tid
unfolding hint_bytes
read-hint_target h w =
    read_at-skip 8 4 4 h.seq _
    ∙ (read_at-skip 4 0 4 h.reason _ ∙ read_at-head 4 h.target_tid _ w.target_tid)

read-hint_deadline : (h : MorpheusHint) → IsWord h → read_at 16 8 (hint_bytes h) ≡ h.deadline_ns
unfolding hint_bytes read_at to_ne_bytes
read-hint_deadline h w = from-to_ne_bytes 8 h.deadline_ns w.deadline_ns

length-hint_bytes : (h : MorpheusHint) → length (hint_bytes h) ≡ hint_size
unfolding hint_bytes to_ne_bytes
length-hint_bytes h = refl

-- A hint whose fields fit their types is read back as it was written, and has the size of one.
pub read-hint_bytes :
    (h : MorpheusHint)
    → IsWord h
    → (read_hint (hint_bytes h) ≡ h) × (length (hint_bytes h) ≡ hint_size)
unfolding read_hint
read-hint_bytes h w = (
  cc (read-hint_seq h w, read-hint_reason h w, read-hint_target h w, read-hint_deadline h w),
  length-hint_bytes h,
)
