-- ===== src/Runtime/DefensiveMode/Laws.antt =====
-- How often the controller asks for a yield.
use morpheus.Prelude.{
  ap, ◌∙◌, ℕ, zero, suc, ◌+◌, ◌^◌, ◌<◌, ◌≤◌, ◌≡◌, refl, true, false, if◌then◌else◌, arith, max,
}
use Prim.Native.Nat.add
use morpheus.Runtime.DefensiveMode.{DefensiveMode, enter, should_yield}

-- The controller after `n` calls of `should_yield`, and how many of them said yes.
unfoldable pub polls : ℕ → DefensiveMode → DefensiveMode × ℕ
polls zero d = (d, 0)
polls (suc n) d =
    let (d', b) = should_yield d in let (d'', k) = polls n d' in (d'', (if b then 1 else 0) + k)

polls-inactive : (n : ℕ) (d : DefensiveMode) → d.active ≡ false → polls n d ≡ (d, 0)
unfolding polls should_yield
polls-inactive zero d e = refl
polls-inactive (suc n) d e = ground (arith, polls-inactive n d e)

-- While the controller is active, a call says yes; it stays active if more than one yield is left.
polls-active :
    (n : ℕ) (d : DefensiveMode)
    → d.active ≡ true
    → (polls (suc n) d).1 ≡ suc (polls n (should_yield d).0).1
unfolding polls should_yield
polls-active n d a = ground arith

should_yield-last :
    (d : DefensiveMode)
    → d.active ≡ true
    → d.yields_remaining ≤ 1
    → (should_yield d).0.active ≡ false
unfolding should_yield
should_yield-last d a e = ground arith

should_yield-more :
    (r : ℕ) (d : DefensiveMode)
    → d.active ≡ true
    → d.yields_remaining ≡ suc (suc r)
    → suc (suc r) < 2 ^ 64
    → ((should_yield d).0.active ≡ true) × ((should_yield d).0.yields_remaining ≡ suc r)
unfolding should_yield
should_yield-more r d a e f = ground arith

polls_last :
    (k : ℕ) (d : DefensiveMode) → d.active ≡ true → d.yields_remaining ≤ 1 → (polls (suc k) d).1 ≡ 1
polls_last k d a e =
    rw (polls-active k d a, polls-inactive k (should_yield d).0 (should_yield-last d a e))

polls_more :
    (n k : ℕ) (d : DefensiveMode)
    → d.active ≡ true
    → d.yields_remaining ≡ suc n
    → suc n < 2 ^ 64
    → (polls (suc n + k) d).1 ≡ suc n
polls_more zero k d a e f = rw (add.suc, add.zero) (polls_last k d a (omega arith))
polls_more (suc n) k d a e f =
    let (a', e') = should_yield-more n d a e f in
    rw (add.suc, polls-active (suc n + k) d a)
      (ap suc (polls_more n k (should_yield d).0 a' e' (omega arith)))

polls-remaining :
    (r k : ℕ) (d : DefensiveMode)
    → d.active ≡ true
    → d.yields_remaining ≡ r
    → r < 2 ^ 64
    → (polls (max r 1 + k) d).1 ≡ max r 1
polls-remaining zero k d a e f =
    let one : max 0 1 + k ≡ suc k = omega arith in
    rw one (polls_last k d a (omega arith) ∙ omega arith)
polls-remaining (suc n) k d a e f =
    let more : max (suc n) 1 ≡ suc n = omega arith in rw more (polls_more n k d a e f)

-- After `enter` the controller says yes exactly `default_yields` times, and once if that is 0,
-- however often it is asked beyond that, for a number below 2^64.
pub polls-enter :
    (d : DefensiveMode) (extra : ℕ)
    → d.default_yields < 2 ^ 64
    → (polls (max d.default_yields 1 + extra) (enter d)).1 ≡ max d.default_yields 1
unfolding enter
polls-enter d extra fits = polls-remaining d.default_yields extra _ refl refl fits
