-- ===== src/Pool/Order.antt =====
-- util.h, UnboundedBlockingPriorityQueue: the order of its pops.
use ncaf.Common.{ℕ, ◌≤◌, ◌≡◌, true, sym, ap, List, [], ◌∷◌, ◌++◌, arith}
use ncaf.Common.Totals.{sum_of, sum_of-append}
use ncaf.Pool.{Element, less, IsTop, Cells, popping, holding, Move, pop}
use ncaf.Pool.Once.{queued}

-- The pops of a priority pool's workers, of whichever, until its queue is empty, with no push in
-- between: what they give.
pub data Drains : Cells → List Element → Type 0 where
  empty : {c : Cells} → c.queue ≡ [] → Drains c []
  next :
      {c : Cells} {e : Element} {d : Cells} {out : List Element}
      → Move true c popping d (holding e)
      → Drains d out
      → Drains c (e ∷ out)

-- Each element's priority is at least `n`.
abbrev pub AllFrom : ℕ → List Element → Type 0
AllFrom n [] = Unit {0}
AllFrom n (x ∷ xs) = (n ≤ x.priority) × AllFrom n xs

abbrev pub IsSorted : List Element → Type 0
IsSorted [] = Unit {0}
IsSorted (x ∷ xs) = AllFrom x.priority xs × IsSorted xs

IsTop-AllFrom : (e : Element) (xs : List Element) → IsTop e xs → AllFrom e.priority xs
unfolding less
IsTop-AllFrom e [] h = tt
IsTop-AllFrom e (x ∷ xs) h = (ground arith, IsTop-AllFrom e xs h.1)

AllFrom-middle :
    (n : ℕ) (e : Element) (before after : List Element)
    → AllFrom n (before ++ (e ∷ after))
    → (n ≤ e.priority) × AllFrom n (before ++ after)
AllFrom-middle n e [] after h = (h.0, h.1)
AllFrom-middle n e (x ∷ before) after h =
    let (le, rest) = AllFrom-middle n e before after h.1 in (le, (h.0, rest))

AllFrom-Drains :
    {c : Cells} {out : List Element} (n : ℕ) → Drains c out → AllFrom n c.queue → AllFrom n out
AllFrom-Drains n (empty none) h = tt
AllFrom-Drains n (next {e} (pop before after from top) more) h =
    let (le, rest) = AllFrom-middle n e before after (rw (← from) h) in
    (le, AllFrom-Drains n more rest)

-- When a priority pool's queue is emptied, its workers get each of its operations as often as it held
-- it, those with the smallest priority numbers first.
pub drained_in_order :
    {c : Cells} {out : List Element}
    → Drains c out
    → IsSorted out × ((o : ℕ) → sum_of (queued o) out ≡ sum_of (queued o) c.queue)
drained_in_order (empty none) = (tt, λ o. ap (sum_of (queued o)) (sym none))
drained_in_order (next {e} (pop before after from top) more) =
    let (sorted, same) = drained_in_order more in
    (
      (AllFrom-Drains e.priority more (IsTop-AllFrom e (before ++ after) top), sorted),
      λ o. omega (
        arith,
        same o,
        ap (sum_of (queued o)) from,
        sum_of-append (queued o) before (e ∷ after),
        sum_of-append (queued o) before after,
      ),
    )
