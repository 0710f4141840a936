-- ===== src/Runtime/HintConsumer/Accounting.antt =====
-- What the counters of the consumer say about the stream of hints.
use morpheus.Prelude.{
  ℕ, ◌+◌, ◌-◌, ◌^◌, ◌<◌, ◌≡◌, refl, true, false, ◌||◌, List, [], ◌∷◌, ltb, if◌then◌else◌, length,
  arith, map, All, ap, ◌∙◌, subst, sym, not, ◌&&◌, add64,
}
use morpheus.Common.Hint.{MorpheusHint, hint_size, hint_bytes, read-hint_bytes, IsWord}
use morpheus.Runtime.HintConsumer.{HintConsumer, new, receive, process_hint, is_defensive}

-- The callback, once for each record of the ring buffer.
unfoldable pub process_all : List (List ℕ) → HintConsumer → HintConsumer
process_all [] c = c
process_all (r ∷ rs) c = process_all rs (process_hint r c).0

unfoldable pub receive_all : List MorpheusHint → HintConsumer → HintConsumer
receive_all [] c = c
receive_all (h ∷ hs) c = receive_all hs (receive h c)

-- The sequence numbers rise, from above `last` and within 64 bits.
abbrev pub Rising : ℕ → List MorpheusHint → Type 0
Rising last [] = Unit
Rising last (h ∷ hs) = (last < h.seq) × (h.seq < 2 ^ 64) × Rising h.seq hs

-- The consumer has seen a hint, and its books balance: hints received and hints dropped make up
-- the sequence numbers from `first` to the last one seen.
pub record Balanced (first : ℕ) (c : HintConsumer) : Type 0 where
  pub started : 0 < c.last_seq
  pub fits : c.last_seq < 2 ^ 64
  pub total : c.hints_received + c.hints_dropped + first ≡ c.last_seq + 1
  pub positive : 0 < first

receive-Balanced :
    (first : ℕ) (h : MorpheusHint) (c : HintConsumer)
    → Balanced first c
    → c.last_seq < h.seq
    → h.seq < 2 ^ 64
    → Balanced first (receive h c)
unfolding receive
receive-Balanced first h c b lt fits = ground arith

receive_all-Balanced :
    (first : ℕ) (hs : List MorpheusHint) (c : HintConsumer)
    → Balanced first c
    → Rising c.last_seq hs
    → Balanced first (receive_all hs c)
unfolding receive_all receive
receive_all-Balanced first [] c b r = b
receive_all-Balanced first (h ∷ hs) c b r =
    receive_all-Balanced first hs (receive h c) (receive-Balanced first h c b r.0 r.1) r.2

receive-first : (h : MorpheusHint) → 0 < h.seq → h.seq < 2 ^ 64 → Balanced h.seq (receive h new)
unfolding receive new
receive-first h pos fits = ground arith

-- Of a stream of hints with rising sequence numbers above 0 and below 2^64, read by a fresh
-- consumer, the hints received and the hints counted as dropped make up every number from the first
-- to the last one.
pub receive_all-accounts :
    (h : MorpheusHint) (hs : List MorpheusHint)
    → 0 < h.seq
    → Rising 0 (h ∷ hs)
    → let c = receive_all (h ∷ hs) new in
      c.hints_received + c.hints_dropped + h.seq ≡ c.last_seq + 1
unfolding receive_all receive new
receive_all-accounts h hs pos r =
    (receive_all-Balanced h.seq hs (receive h new) (receive-first h pos r.1) r.2).total

-- `process_hint` on the bytes of hints that fit their types is `receive` on the hints.
abbrev pub records : List MorpheusHint → List (List ℕ)
records = map hint_bytes

process_hint-hint_bytes :
    (h : MorpheusHint) (c : HintConsumer)
    → IsWord h
    → process_hint (hint_bytes h) c ≡ (receive h c, 0)
unfolding process_hint
process_hint-hint_bytes h c w =
    let (read, size) = read-hint_bytes h w in
    rw (subst (λ n. ltb n hint_size ≡ false) (sym size) refl, read)

-- Hints whose fields fit their types, read from the bytes of their records in the ring buffer,
-- leave the consumer as if it had received the hints themselves.
pub process_all-records :
    (hs : List MorpheusHint) (c : HintConsumer)
    → All IsWord hs
    → process_all (records hs) c ≡ receive_all hs c
unfolding process_all receive_all
process_all-records [] c w = refl
process_all-records (h ∷ hs) c w =
    ap (λ p. process_all (records hs) p.0) (process_hint-hint_bytes h c w.0)
    ∙ process_all-records hs (receive h c) w.1

-- A record that is too short changes nothing; every record is answered by "continue".
pub process_hint_short :
    (bytes : List ℕ) (c : HintConsumer) → length bytes < hint_size → process_hint bytes c ≡ (c, 0)
unfolding process_hint
process_hint_short bytes c h = ground arith

-- The state of defensive mode after a hint: it is on exactly if it was on before, or a hint had
-- been seen and the new number is neither the successor of the last one nor below that; it is
-- counted as a trigger exactly if it was turned on. The last number is below 2^64 - 1.
pub receive-defensive :
    (h : MorpheusHint) (c : HintConsumer)
    → c.last_seq + 1 < 2 ^ 64
    → (is_defensive (receive h c)
        ≡ is_defensive c || ltb (c.last_seq + 1) h.seq && ltb 0 c.last_seq)
      × ((receive h c).defensive_triggers ≡ (
          if not (is_defensive c) && is_defensive (receive h c)
          then add64 c.defensive_triggers 1
          else c.defensive_triggers))
unfolding receive is_defensive
receive-defensive h c fits = ground arith

-- Two workers have block and sequence of their own, but the consumer keeps one `last_seq`: where
-- the second worker is ahead by more than one, the two hints count as a gap, though the first hint
-- of each worker was delivered and none was lost. The numbers are above 0 and below 2^64.
pub receive-false_gap :
    (a b : MorpheusHint)
    → 0 < a.seq
    → a.seq + 1 < b.seq
    → b.seq < 2 ^ 64
    → (is_defensive (receive_all (a ∷ b ∷ []) new) ≡ true)
      × ((receive_all (a ∷ b ∷ []) new).hints_dropped ≡ b.seq - a.seq - 1)
unfolding receive_all receive is_defensive new
receive-false_gap a b pos far fits = ground arith
