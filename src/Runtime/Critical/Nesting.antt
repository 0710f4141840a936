-- ===== src/Runtime/Critical/Nesting.antt =====
-- Guards come and go in any order. The depth is a word of 32 bits, so what is proved of it is proved for
-- at most 2^32 - 1 guards at once.
use morpheus.Prelude.{ℕ, suc, ◌^◌, ◌<◌, ◌≡◌, some, ltb, if◌then◌else◌, arith}
use morpheus.Runtime.ScbHandle.{ScbHandle}
use morpheus.Runtime.Worker.{Thread}
use morpheus.Runtime.Critical.{critical_section, drop, in_critical_section}

-- A thread with a handle whose flag says whether it is in a critical section, with `n` guards held.
pub record Holds (n : ℕ) (t : Thread) : Type 0 where
  pub counted : t.critical_depth ≡ n
  pub fits : n < 2 ^ 32
  pub flag : t.scb.is_in_critical_section ≡ (if ltb 0 n then 1 else 0)
  pub handle : ScbHandle
  pub attached : t.current_scb ≡ some handle

-- One guard is taken or dropped.
pub data Step (n : ℕ) (t : Thread) : ℕ → Thread → Type 0 where
  take : Step n t (suc n) (critical_section t).0
  give : {m : ℕ} → n ≡ suc m → Step n t m (drop t)

pub data Steps (n : ℕ) (t : Thread) : ℕ → Thread → Type 0 where
  here : Steps n t n t
  next : {m k : ℕ} {u v : Thread} → Steps n t m u → Step m u k v → Steps n t k v

-- The number of guards held fits the depth after every step.
abbrev pub Fits : {n : ℕ} {t : Thread} {m : ℕ} {u : Thread} → Steps n t m u → Type 0
Fits here = Unit
Fits (next {k} r st) = Fits r × (k < 2 ^ 32)

Step-Holds : {n m : ℕ} {t u : Thread} → Step n t m u → m < 2 ^ 32 → Holds n t → Holds m u
unfolding critical_section drop
Step-Holds take fits h = record {
  counted = ground arith;
  fits = ground arith;
  flag = ground arith;
  handle = h.handle;
  attached = ground arith;
}
Step-Holds (give e) fits h = record {
  counted = ground arith;
  fits = ground arith;
  flag = ground arith;
  handle = h.handle;
  attached = ground arith;
}

pub Steps-Holds :
    {n : ℕ} {t : Thread} {m : ℕ} {u : Thread} (r : Steps n t m u) → Fits r → Holds n t → Holds m u
Steps-Holds here fits h = h
Steps-Holds (next r st) fits h = Step-Holds st fits.1 (Steps-Holds r fits.0 h)

-- Whatever order guards are taken and dropped in, at most 2^32 - 1 of them held at once, from a state in
-- which the flag agrees with the number of guards held: the depth is the number of guards that are still held, the kernel reads
-- the flag 1 exactly while there is one, and so does `in_critical_section`.
pub nesting :
    {n m : ℕ} {t u : Thread}
    → Holds n t
    → (r : Steps n t m u) → Fits r
    → (u.critical_depth ≡ m)
      × (u.scb.is_in_critical_section ≡ (if in_critical_section u then 1 else 0))
      × (in_critical_section u ≡ ltb 0 m)
unfolding in_critical_section
nesting h r fits = ground (arith, Steps-Holds r fits h)
