-- ===== src/Layout/View/Laws.antt =====
-- A store to one word in memory, as the runtime sees it.
use morpheus.Prelude.{
  ℕ, ◌+◌, ◌*◌, ◌^◌, ◌<◌, ◌≤◌, ◌≡◌, ◌⊎◌, inl, inr, refl, sym, ◌∙◌, true, false, List, ◌==◌,
  if◌then◌else◌, arith, Bool-cases,
}
use morpheus.Common.Scb.{MorpheusScb}
use morpheus.Layout.{Field, width}
use morpheus.Layout.Memory.{Memory, store, load, load-store, load-store_apart, load_lt}
use morpheus.Layout.Block.{
  Cell, preempt_seq, budget_remaining_ns, kernel_pressure_level, worker_state, hint_loss_count,
  last_escalation_ns, ringbuf_overflow_count, is_in_critical_section, escapable, last_ack_seq,
  runtime_priority, last_yield_reason, reservation_token, escalation_policy, offset, word, Places,
}
use morpheus.Layout.View.{address, width_in, load_word, store_word, view, get, set, scb_size}

address-Places :
    (fs : List Field) (c : Cell) (block : ℕ)
    → Places fs c
    → (address fs block c ≡ scb_size * block + offset c) × (width_in fs c ≡ width (word c))
unfolding address width_in
address-Places fs c block p = (rw p.offset_same refl, rw p.word_same refl)

pub get-view :
    (fs : List Field) (c : Cell) (m : Memory) (block : ℕ)
    → get c (view fs m block) ≡ load_word fs block c m
unfolding get view
get-view fs preempt_seq m block = refl
get-view fs c m block = refl

get-set :
    (c g : Cell) (v : ℕ) (s : MorpheusScb)
    → get g (set c v s) ≡ (if offset c == offset g then v else get g s)
unfolding get set
get-set preempt_seq g v s = ground arith
get-set c g v s = ground arith

pub scb_ext : (s t : MorpheusScb) → ((g : Cell) → get g s ≡ get g t) → s ≡ t
unfolding get
scb_ext s t h = cc (
  h preempt_seq,
  h budget_remaining_ns,
  h kernel_pressure_level,
  h worker_state,
  h hint_loss_count,
  h last_escalation_ns,
  h ringbuf_overflow_count,
  h is_in_critical_section,
  h escapable,
  h last_ack_seq,
  h runtime_priority,
  h last_yield_reason,
  h reservation_token,
  h escalation_policy,
)

-- Two words are the same, or one ends before the other starts.
apart :
    (c g : Cell)
    → (offset c == offset g) ≡ false
    → (offset g + width (word g) ≤ offset c) ⊎ (offset c + width (word c) ≤ offset g)
apart preempt_seq g e = ground arith
apart c g e = ground arith

same_width : (c g : Cell) → (offset c == offset g) ≡ true → width (word g) ≡ width (word c)
same_width preempt_seq g e = ground arith
same_width c g e = ground arith

within : (c : Cell) → offset c + width (word c) ≤ scb_size
within c = ground arith

load_at :
    (b d : ℕ) (c g : Cell) (v : ℕ) (m : Memory)
    → v < 256 ^ width (word c)
    → load
        (scb_size * d + offset g)
        (width (word g))
        (store (scb_size * b + offset c) (width (word c)) v m)
      ≡ (if b == d
          then if offset c == offset g then v else load (scb_size * d + offset g) (width (word g)) m
          else load (scb_size * d + offset g) (width (word g)) m)
load_at b d c g v m h = elim (Bool-cases (b == d)) [
  | inr other ↦ rw other (load-store_apart _ _ _ _ v m (blocks other))
  | inl same ↦ elim (Bool-cases (offset c == offset g)) [
    | inr e ↦ rw (same, e) (load-store_apart _ _ _ _ v m (words same (apart c g e)))
    | inl e ↦
        rw (same, e, address_same same e, same_width c g e)
          (load-store (scb_size * b + offset c) (width (word c)) v m h)
  ]
]
  where
    blocks :
        (b == d) ≡ false
        → (scb_size * d + offset g + width (word g) ≤ scb_size * b + offset c)
          ⊎ (scb_size * b + offset c + width (word c) ≤ scb_size * d + offset g)
    blocks e = ground (arith, within c, within g)

    words :
        (b == d) ≡ true
        → (offset g + width (word g) ≤ offset c) ⊎ (offset c + width (word c) ≤ offset g)
        → (scb_size * d + offset g + width (word g) ≤ scb_size * b + offset c)
          ⊎ (scb_size * b + offset c + width (word c) ≤ scb_size * d + offset g)
    words e h = ground (arith, e, h)

    address_same :
        (b == d) ≡ true
        → (offset c == offset g) ≡ true
        → scb_size * d + offset g ≡ scb_size * b + offset c
    address_same e f = ground (arith, e, f)

pub load_word-Places :
    (fs : List Field) (c : Cell) (block : ℕ) (m : Memory)
    → Places fs c
    → load_word fs block c m ≡ load (scb_size * block + offset c) (width (word c)) m
unfolding load_word
load_word-Places fs c block m p = let (at, wide) = address-Places fs c block p in cc (at, wide)

store_word-Places :
    (fs : List Field) (c : Cell) (block v : ℕ) (m : Memory)
    → Places fs c
    → store_word fs block c v m ≡ store (scb_size * block + offset c) (width (word c)) v m
unfolding store_word
store_word-Places fs c block v m p = let (at, wide) = address-Places fs c block p in cc (at, wide)

load_word-store_word :
    (fs gs : List Field) (b d : ℕ) (c g : Cell) (v : ℕ) (m : Memory)
    → Places fs c
    → Places gs g
    → v < 256 ^ width (word c)
    → load_word gs d g (store_word fs b c v m) ≡ (
        if b == d
        then if offset c == offset g then v else load_word gs d g m
        else load_word gs d g m)
load_word-store_word fs gs b d c g v m p q h =
    rw
      (
        load_word-Places gs g d (store_word fs b c v m) q,
        load_word-Places gs g d m q,
        store_word-Places fs c b v m p,
      )
      (load_at b d c g v m h)

-- The block of a number after a store to a word of another one or of the same.
stored : (b d : ℕ) (c : Cell) (v : ℕ) → MorpheusScb → MorpheusScb
stored b d c v s = if b == d then set c v s else s

get-stored :
    (b d : ℕ) (c g : Cell) (v : ℕ) (s : MorpheusScb)
    → get g (stored b d c v s)
      ≡ (if b == d then if offset c == offset g then v else get g s else get g s)
unfolding stored
get-stored b d c g v s = elim (Bool-cases (b == d)) [
  | inl same ↦ rw same (get-set c g v s)
  | inr other ↦ rw other refl
]

pub view-Places :
    (fs gs : List Field) (b d : ℕ) (c : Cell) (v : ℕ) (m : Memory)
    → Places fs c
    → ((g : Cell) → Places gs g)
    → v < 256 ^ width (word c)
    → view gs (store_word fs b c v m) d ≡ (if b == d then set c v (view gs m d) else view gs m d)
unfolding stored
view-Places fs gs b d c v m p q h =
    scb_ext (view gs (store_word fs b c v m) d) (stored b d c v (view gs m d)) (λ g.
      get-view gs g (store_word fs b c v m) d
      ∙ load_word-store_word fs gs b d c g v m p (q g) h
      ∙ rw (← get-view gs g m d) (sym (get-stored b d c g v (view gs m d))))

-- What a declaration reads of a word fits it.
pub get_fits :
    (fs : List Field) (c : Cell) (m : Memory) (block : ℕ)
    → Places fs c
    → get c (view fs m block) < 256 ^ width (word c)
unfolding load_word
get_fits fs c m block p =
    let loaded = get-view fs c m block in
    let bound = load_lt (address fs block c) (width_in fs c) m in
    rw (loaded, ← (address-Places fs c block p).1) bound
