-- ===== src/Actor/Budget.antt =====
-- How many messages one activation executes.
use ncaf.Common.{ℕ, zero, suc, ◌≤◌, ◌<◌, List, [], ◌∷◌, ◌++◌, arith}
use ncaf.Actor.{
  Cells, Point, Move, System, push_message, async_destroy, destroy_again, move, Reach, start, later,
  looping, executing, finished, count, execute, execute_last,
}

-- max(1, budget): the loop tests the budget after a message is executed.
abbrev pub at_least_one : ℕ → ℕ
at_least_one zero = 1
at_least_one (suc n) = suc n

abbrev pub WithinBudget : ℕ → Point → Type 0
WithinBudget budget (looping k) = k < at_least_one budget
WithinBudget budget (executing _ k) = k < at_least_one budget
WithinBudget budget (finished k) = k ≤ at_least_one budget
WithinBudget budget _ = Unit {0}

abbrev pub All {ℓ} : {A : Type ℓ} → (A → Type 0) → List A → Type 0
All P [] = Unit {0}
All P (x ∷ xs) = P x × All P xs

All-append {ℓ} :
    {A : Type ℓ} (P : A → Type 0) (xs ys : List A) → All P xs → All P ys → All P (xs ++ ys)
All-append P [] ys hx hy = hy
All-append P (x ∷ xs) ys hx hy = (hx.0, All-append P xs ys hx.1 hy)

All-split {ℓ} :
    {A : Type ℓ} (P : A → Type 0) (xs ys : List A) → All P (xs ++ ys) → All P xs × All P ys
All-split P [] ys h = (tt, h)
All-split P (x ∷ xs) ys h = let (hx, hy) = All-split P xs ys h.1 in ((h.0, hx), hy)

Move-within :
    {budget : ℕ} {c c' : Cells} {p : Point} {ps : List Point}
    → Move budget c p c' ps
    → WithinBudget budget p
    → All (WithinBudget budget) ps
Move-within count h = (tt, tt)
Move-within {budget = zero} (execute lt) h = absurd (omega arith)
Move-within {budget = suc n} (execute lt) h = (omega arith, tt)
Move-within {budget = zero} (execute_last le) h = (omega arith, tt)
Move-within {budget = suc n} (execute_last le) h = (omega arith, tt)
Move-within {budget = zero} mv h = ground arith
Move-within {budget = suc n} mv h = ground arith

-- In every reachable state a call has executed at most max(1, budget) messages in its activation,
-- and fewer while it is still in the loop.
activation_bounded : {budget : ℕ} {s : System} → Reach budget s → All (WithinBudget budget) s.points
activation_bounded start = tt
activation_bounded (later r (push_message msg c p)) = rw p (tt, activation_bounded r)
activation_bounded (later r (async_destroy e c p)) = rw p (tt, activation_bounded r)
activation_bounded (later r (destroy_again e same)) = rw same (activation_bounded r)
activation_bounded {budget} (later r (move before after {p} {ps} from mv to)) =
    let P = WithinBudget budget in
    let (hb, hp) = All-split P before (p ∷ after) (rw (← from) (activation_bounded r)) in
    rw to (All-append P before (ps ++ after) hb (All-append P ps after (Move-within mv hp.0) hp.1))
