-- ===== src/Layout/View/Race.antt =====
-- A request of the kernel while the runtime initializes the block.
use morpheus.Prelude.{ℕ, zero, suc, ◌≡◌, refl, ap, ◌∙◌, Bool, [], ◌∷◌, All, arith, ltb, take, drop}
use morpheus.Common.Scb.{MorpheusScb}
use morpheus.Layout.Memory.{Memory}
use morpheus.Layout.View.{view, set}
use morpheus.Layout.View.Accesses.{Side, runtime, declared, Fits, perform, view-perform}
use morpheus.Layout.View.Operations.{
  Words, at_block, sets, initialize_words, raises, operate, view-operate, effect,
  apply_all-at_block,
}
use morpheus.Runtime.ScbHandle.{yield_requested}
use morpheus.Kernel.Tick.{raise_seq}

-- The seven stores, with the request after so many of them.
unfoldable pub initialize_raced : (before : ℕ) → Bool → (block : ℕ) → Memory → Memory
unfolding perform at_block operate initialize_words
initialize_raced before may_escape block m =
    let ws = initialize_words may_escape in
    perform (at_block runtime block (drop before ws))
      (operate block raises (perform (at_block runtime block (take before ws)) m))

take-Fits :
    (n : ℕ) (block : ℕ) (ws : Words)
    → All Fits (at_block runtime block ws)
    → All Fits (at_block runtime block (take n ws))
unfolding at_block
take-Fits zero block ws h = tt
take-Fits (suc n) block [] h = tt
take-Fits (suc n) block (w ∷ ws) h = (h.0, take-Fits n block ws h.1)

drop-Fits :
    (n : ℕ) (block : ℕ) (ws : Words)
    → All Fits (at_block runtime block ws)
    → All Fits (at_block runtime block (drop n ws))
unfolding at_block
drop-Fits zero block ws h = h
drop-Fits (suc n) block [] h = tt
drop-Fits (suc n) block (w ∷ ws) h = drop-Fits n block ws h.1

initialize-Fits :
    (may_escape : Bool) (block : ℕ)
    → All Fits (at_block runtime block (initialize_words may_escape))
unfolding at_block initialize_words
initialize-Fits may_escape block = ground arith

-- One block after stores to it.
view-sets :
    (s : Side) (block : ℕ) (ws : Words) (m : Memory)
    → All Fits (at_block runtime block ws)
    → view (declared s) (perform (at_block runtime block ws) m) block
      ≡ sets ws (view (declared s) m block)
view-sets s block ws m h =
    ap (λ f. f block)
      (view-perform s s (at_block runtime block ws) m h
        ∙ apply_all-at_block runtime block ws (view (declared s) m))
    ∙ ground arith

view-raise :
    (s : Side) (block : ℕ) (m : Memory)
    → view (declared s) (operate block raises m) block ≡ raise_seq (view (declared s) m block)
unfolding effect
view-raise s block m = ap (λ f. f block) (view-operate s s block raises m tt) ∙ ground arith

requested :
    (n : ℕ) (may_escape : Bool) (scb : MorpheusScb)
    → yield_requested (
        sets
          (drop n (initialize_words may_escape))
          (raise_seq (sets (take n (initialize_words may_escape)) scb)))
      ≡ ltb 0 n
unfolding yield_requested sets set initialize_words
requested zero may_escape scb = ground arith
requested (suc zero) may_escape scb = refl
requested (suc (suc zero)) may_escape scb = refl
requested (suc (suc (suc zero))) may_escape scb = refl
requested (suc (suc (suc (suc zero)))) may_escape scb = refl
requested (suc (suc (suc (suc (suc zero))))) may_escape scb = refl
requested (suc (suc (suc (suc (suc (suc zero)))))) may_escape scb = refl
requested (suc (suc (suc (suc (suc (suc (suc zero))))))) may_escape scb = refl
requested (suc (suc (suc (suc (suc (suc (suc (suc n)))))))) may_escape scb = ground arith

-- A request that comes while the runtime initializes the block, after some of the seven stores, is
-- pending when the block is initialized, and lost only if it comes before the first of them, whatever
-- the memory held.
pub initialize-keeps_request :
    (s : Side) (before : ℕ) (may_escape : Bool) (block : ℕ) (m : Memory)
    → yield_requested (view (declared s) (initialize_raced before may_escape block m) block)
      ≡ ltb 0 before
unfolding initialize_raced
initialize-keeps_request s before may_escape block m =
    let ws = initialize_words may_escape in
    let fits = initialize-Fits may_escape block in
    let early = perform (at_block runtime block (take before ws)) m in
    ap yield_requested (
      view-sets s block (drop before ws) (operate block raises early)
        (drop-Fits before block ws fits)
      ∙ ap (sets (drop before ws)) (
          view-raise s block early
          ∙ ap (λ scb. raise_seq scb)
              (view-sets s block (take before ws) m (take-Fits before block ws fits))))
    ∙ requested before may_escape (view (declared s) m block)
