-- ===== src/Pool/Progress.antt =====
-- include/ncaf/internal/scheduler.h, WorkSharingThreadPoolBase: how far a pool is from rest, and the
-- moves of its workers that bring it closer.
use ncaf.Common.{
  ℕ, suc, ◌+◌, ◌*◌, ◌<◌, ◌≡◌, inl, inr, refl, ap, sym, subst, ◌∙◌, Bool, true, false, Bool-cases,
  List, [], ◌∷◌, ◌++◌, length, length-append, arith,
}
use ncaf.Common.Totals.{sum_of, sum_of-append}
use ncaf.Pool.{
  Element, less, IsTop, Cells, Worker, looping, popping, holding, stopped, Move, go_on, pop,
  execute, System, move, Reach, later,
}

-- A run of the workers, in which nothing is enqueued and no stop requested.
pub data Run (by_priority : Bool) : System → System → Type 0 where
  stay : {s : System} → Run by_priority s s
  goes :
      {s t u : System} (before after : List Worker) {w w' : Worker}
      → s.workers ≡ before ++ (w ∷ after)
      → Move by_priority s.cells w t.cells w'
      → t.workers ≡ before ++ (w' ∷ after)
      → Run by_priority t u
      → Run by_priority s u

abbrev pub steps : {by_priority : Bool} {s t : System} → Run by_priority s t → ℕ
steps stay = 0
steps (goes before after from mv to r) = suc (steps r)

pub Reach-Run :
    {by_priority : Bool} {n : ℕ} {s t : System}
    → Reach by_priority n s
    → Run by_priority s t
    → Reach by_priority n t
Reach-Run r stay = r
Reach-Run r (goes before after from mv to more) =
    Reach-Run (later r (move before after from mv to)) more

-- An element that the priority queue may pop.
pub record Top (q : List Element) : Type 0 where
  pub before : List Element
  pub e : Element
  pub after : List Element
  pub from : q ≡ before ++ (e ∷ after)
  pub top : IsTop e (before ++ after)

IsTop-lower :
    (x e : Element) (before after : List Element)
    → less e x ≡ true
    → IsTop e (before ++ after)
    → IsTop x (before ++ (e ∷ after))
unfolding less
IsTop-lower x e [] [] h top = (ground arith, tt)
IsTop-lower x e [] (z ∷ after) h top =
    let (le, rest) = IsTop-lower x e [] after h top.1 in (le, (ground arith, rest))
IsTop-lower x e (z ∷ before) after h top = (ground arith, IsTop-lower x e before after h top.1)

pub find-Top : (x : Element) (xs : List Element) → Top (x ∷ xs)
find-Top x [] = record { before = []; e = x; after = []; from = refl; top = tt }
find-Top x (y ∷ ys) =
    let r = find-Top y ys in
    elim (Bool-cases (less r.e x)) [
      | inl lower ↦ record {
        before = [];
        e = x;
        after = y ∷ ys;
        from = refl;
        top = subst (IsTop x) (sym r.from) (IsTop-lower x r.e r.before r.after lower r.top);
      }
      | inr no_lower ↦ record {
        before = x ∷ r.before;
        e = r.e;
        after = r.after;
        from = ap (◌∷◌ x) r.from;
        top = (no_lower, r.top);
      }
    ]

abbrev pub weight : Worker → ℕ
weight (holding e) = 3
weight looping = 2
weight popping = 1
weight stopped = 0

abbrev pub distance : System → ℕ
distance s = 4 * length s.cells.queue + sum_of weight s.workers

-- A move of a worker that brings the pool closer to rest.
pub record Advance (by_priority : Bool) (c : Cells) (w : Worker) : Type 0 where
  pub cells : Cells
  pub worker : Worker
  pub mv : Move by_priority c w cells worker
  pub closer : 4 * length cells.queue + weight worker < 4 * length c.queue + weight w

advance_pop :
    (by_priority : Bool) (c : Cells) (x : Element) (xs : List Element)
    → c.queue ≡ x ∷ xs
    → Advance by_priority c popping
advance_pop true c x xs there =
    let t = find-Top x xs in
    record {
      cells = record c { queue = t.before ++ t.after };
      worker = holding t.e;
      mv = pop t.before t.after (there ∙ t.from) t.top;
      closer = omega (
        arith,
        ap length (there ∙ t.from),
        length-append t.before (t.e ∷ t.after),
        length-append t.before t.after,
      );
    }
advance_pop false c x xs there = record {
  cells = record c { queue = xs };
  worker = holding x;
  mv = pop [] xs there tt;
  closer = omega (arith, ap length there);
}

pub advance_holding :
    (by_priority : Bool) (c : Cells) (e : Element) → Advance by_priority c (holding e)
advance_holding by_priority c e = record {
  cells = record c { executed = c.executed ++ (e.operation ∷ []) };
  worker = looping;
  mv = execute;
  closer = omega arith;
}

-- Any worker that has not stopped has something to do while the queue is not empty.
pub advance :
    (by_priority : Bool) (c : Cells) (w : Worker) (x : Element) (xs : List Element)
    → c.stop_requested ≡ false
    → c.queue ≡ x ∷ xs
    → 0 < weight w
    → Advance by_priority c w
advance by_priority c (holding e) x xs on there awake = advance_holding by_priority c e
advance by_priority c looping x xs on there awake = record {
  cells = c;
  worker = popping;
  mv = go_on on;
  closer = omega arith;
}
advance by_priority c popping x xs on there awake = advance_pop by_priority c x xs there
advance by_priority c stopped x xs on there awake = absurd (omega arith)

pub record Closer (by_priority : Bool) (s : System) : Type 0 where
  pub t : System
  pub before : List Worker
  pub after : List Worker
  pub w : Worker
  pub w' : Worker
  pub from : s.workers ≡ before ++ (w ∷ after)
  pub mv : Move by_priority s.cells w t.cells w'
  pub to : t.workers ≡ before ++ (w' ∷ after)
  pub nearer : distance t < distance s

pub Closer-at :
    {by_priority : Bool} (s : System) (before after : List Worker) (w : Worker)
    → s.workers ≡ before ++ (w ∷ after)
    → Advance by_priority s.cells w
    → Closer by_priority s
Closer-at s before after w from a = record {
  t = record { cells = a.cells; workers = before ++ (a.worker ∷ after) };
  before = before;
  after = after;
  w = w;
  w' = a.worker;
  from = from;
  mv = a.mv;
  to = refl;
  nearer = omega (
    arith,
    a.closer,
    ap (sum_of weight) from,
    sum_of-append weight before (w ∷ after),
    sum_of-append weight before (a.worker ∷ after),
  );
}
