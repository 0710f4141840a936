-- ===== src/System/Hints/Reader.antt =====
-- What a fresh consumer knows of the hints of a worker, from whether each of them found room.
use morpheus.Prelude.{
  ℕ, suc, ◌+◌, ◌^◌, ◌<◌, ◌≤◌, ◌≡◌, Bool, true, false, List, [], ◌∷◌, ltb, length, arith,
}
use morpheus.Common.Hint.{MorpheusHint}
use morpheus.Runtime.HintConsumer.{HintConsumer, new, receive, is_defensive}

-- A buffer, its newest hint first, read from the oldest one on by a fresh consumer.
unfoldable pub consume_all : List MorpheusHint → HintConsumer
consume_all [] = new
consume_all (hint ∷ older) = receive hint (consume_all older)

-- The ticks that found no room, and those of them since the last that did.
abbrev pub lost : List Bool → ℕ
lost [] = 0
lost (true ∷ rooms) = lost rooms
lost (false ∷ rooms) = suc (lost rooms)

abbrev pub trailing : List Bool → ℕ
trailing [] = 0
trailing (true ∷ rooms) = 0
trailing (false ∷ rooms) = suc (trailing rooms)

-- What the consumer knows after a run that began at a number.
pub record Seen (s : ℕ) (rooms : List Bool) (seq : ℕ) (c : HintConsumer) : Type 0 where
  pub number : seq ≡ s + length rooms
  pub last : c.last_seq + trailing rooms ≡ seq
  pub positive : 0 < c.last_seq
  pub count : c.hints_dropped + trailing rooms ≡ lost rooms
  pub received : c.hints_received + lost rooms ≡ length rooms
  pub defensive : is_defensive c ≡ ltb 0 c.hints_dropped

pub trailing-le : (rooms : List Bool) → trailing rooms ≤ lost rooms
trailing-le [] = omega arith
trailing-le (true ∷ rooms) = omega arith
trailing-le (false ∷ rooms) = omega (arith, trailing-le rooms)

pub lost-le : (rooms : List Bool) → lost rooms ≤ length rooms
lost-le [] = omega arith
lost-le (true ∷ rooms) = omega (arith, lost-le rooms)
lost-le (false ∷ rooms) = omega (arith, lost-le rooms)

pub Seen-first :
    (s : ℕ) (h : MorpheusHint)
    → s + 1 < 2 ^ 64
    → h.seq ≡ s + 1
    → Seen s (true ∷ []) (s + 1) (receive h new)
unfolding receive new is_defensive
Seen-first s h fits e = record {
  number = omega arith;
  last = ground (arith, e);
  positive = ground (arith, e);
  count = ground (arith, e);
  received = ground (arith, e);
  defensive = ground (arith, e);
}

pub Seen-hint :
    (s : ℕ) (rooms : List Bool) (seq : ℕ) (c : HintConsumer) (h : MorpheusHint)
    → Seen s rooms seq c
    → seq + 1 < 2 ^ 64
    → h.seq ≡ seq + 1
    → Seen s (true ∷ rooms) (seq + 1) (receive h c)
unfolding receive is_defensive
Seen-hint s rooms seq c h v fits e =
    let le = trailing-le rooms in
    let le' = lost-le rooms in
    record {
      number = omega (arith, v.number);
      last = ground (arith, e);
      positive = ground (arith, e);
      count = ground (arith, e, v.number, v.last, v.count, v.positive, le, le');
      received = ground (arith, e, v.received, v.number, le');
      defensive = ground (arith, e, v.number, v.last, v.count, v.positive, v.defensive, le, le');
    }

pub Seen-lost :
    (s : ℕ) (rooms : List Bool) (seq : ℕ) (c : HintConsumer)
    → Seen s rooms seq c
    → Seen s (false ∷ rooms) (seq + 1) c
Seen-lost s rooms seq c v = record {
  number = omega (arith, v.number);
  last = omega (arith, v.last);
  positive = v.positive;
  count = omega (arith, v.count);
  received = omega (arith, v.received);
  defensive = v.defensive;
}
