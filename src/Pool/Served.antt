-- ===== src/Pool/Served.antt =====
-- include/ncaf/internal/scheduler.h, WorkSharingThreadPoolBase: the workers of a pool can always serve
-- all that was enqueued.
use ncaf.Common.{
  ℕ, zero, suc, ◌+◌, ◌*◌, ◌≤◌, ◌<◌, ◌≡◌, ◌⊎◌, inl, inr, refl, ap, sym, ◌∙◌, Bool, false, List, [],
  ◌∷◌, ◌++◌, length, length-append, arith,
}
use ncaf.Common.Totals.{sum_of, occurrences}
use ncaf.Pool.{
  Element, Cells, Worker, holding, Move, go_on, leave, pop, time_out, execute, System,
  start_workers, enqueue, request_stop, move, Reach, begin, later,
}
use ncaf.Pool.Once.{carried, queued, Move-account, executed_once}
use ncaf.Pool.Progress.{
  Run, stay, goes, steps, Reach-Run, weight, distance, Closer, Closer-at, advance, advance_holding,
}

-- A worker with an operation in its hands.
record Busy (ws : List Worker) : Type 0 where
  before : List Worker
  e : Element
  after : List Worker
  at : ws ≡ before ++ (holding e ∷ after)

find-Busy : (ws : List Worker) → ((o : ℕ) → sum_of (carried o) ws ≡ 0) ⊎ Busy ws
find-Busy [] = inl (λ o. refl)
find-Busy (holding e ∷ ws) = inr (record { before = []; e = e; after = ws; at = refl })
find-Busy (w ∷ ws) = elim (find-Busy ws) [
  | inr b ↦ inr (record { before = w ∷ b.before; e = b.e; after = b.after; at = ap (◌∷◌ w) b.at })
  | inl idle ↦ inl (λ o. omega (arith, idle o))
]

-- A pool that runs: no stop was requested, there is a worker, and none has stopped.
abbrev AllAwake : List Worker → Type 0
AllAwake [] = Unit {0}
AllAwake (w ∷ ws) = (0 < weight w) × AllAwake ws

AllAwake-replace :
    (before : List Worker) (w w' : Worker) (after : List Worker)
    → 0 < weight w'
    → AllAwake (before ++ (w ∷ after))
    → AllAwake (before ++ (w' ∷ after))
AllAwake-replace [] w w' after h all = (h, all.1)
AllAwake-replace (v ∷ before) w w' after h all = (all.0, AllAwake-replace before w w' after h all.1)

AllAwake-start : (n : ℕ) → AllAwake (start_workers n)
AllAwake-start zero = tt
AllAwake-start (suc n) = (omega arith, AllAwake-start n)

length-start : (n : ℕ) → length (start_workers n) ≡ n
length-start zero = refl
length-start (suc n) = omega (arith, length-start n)

Move-stop :
    {by_priority : Bool} {c c' : Cells} {w w' : Worker}
    → Move by_priority c w c' w'
    → c'.stop_requested ≡ c.stop_requested
Move-stop (go_on h) = refl
Move-stop mv = refl

Move-awake :
    {by_priority : Bool} {c c' : Cells} {w w' : Worker}
    → Move by_priority c w c' w'
    → c.stop_requested ≡ false
    → 0 < weight w'
Move-awake (go_on h) on = omega arith
Move-awake (leave h) on = absurd (ground arith)
Move-awake (pop before after there top) on = omega arith
Move-awake (time_out h) on = omega arith
Move-awake execute on = omega arith

record Staffed (thread_count : ℕ) (s : System) : Type 0 where
  all_there : length s.workers ≡ thread_count
  awake : s.cells.stop_requested ≡ false → AllAwake s.workers

Reach-Staffed : {by_priority : Bool} {n : ℕ} {s : System} → Reach by_priority n s → Staffed n s
Reach-Staffed {n} begin = record { all_there = length-start n; awake = λ on. AllAwake-start n }
Reach-Staffed (later r (enqueue operation env cells workers)) =
    let v = Reach-Staffed r in
    record {
      all_there = rw workers v.all_there;
      awake = λ on. rw workers (v.awake (sym (ap (λ c. c.stop_requested) cells) ∙ on));
    }
Reach-Staffed (later r (request_stop cells workers)) =
    let v = Reach-Staffed r in
    record {
      all_there = rw workers v.all_there;
      awake = λ on. absurd (ground (arith, ap (λ c. c.stop_requested) cells));
    }
Reach-Staffed (later {s} r (move before after {w} {w'} from mv to)) =
    let v = Reach-Staffed r in
    record {
      all_there = omega (
        arith,
        v.all_there,
        ap length from,
        ap length to,
        length-append before (w ∷ after),
        length-append before (w' ∷ after),
      );
      awake = λ on.
          let still : s.cells.stop_requested ≡ false = sym (Move-stop mv) ∙ on in
          rw to
            (AllAwake-replace before w w' after (Move-awake mv still) (rw from at (v.awake still)));
    }

-- Where a run of the workers ends.
record Rests (by_priority : Bool) (s : System) : Type 0 where
  t : System
  run : Run by_priority s t
  soon : steps run ≤ distance s
  empty : t.cells.queue ≡ []
  idle : (o : ℕ) → sum_of (carried o) t.workers ≡ 0
  same : t.cells.enqueued ≡ s.cells.enqueued

after_step :
    {by_priority : Bool} (s : System) (c : Closer by_priority s)
    → Rests by_priority c.t
    → Rests by_priority s
after_step s c more = record {
  t = more.t;
  run = goes c.before c.after c.from c.mv c.to more.run;
  soon = omega (arith, c.nearer, more.soon);
  empty = more.empty;
  idle = more.idle;
  same = more.same ∙ (Move-account 0 c.mv).0;
}

-- The next step, or that there is none left to make.
next_step :
    (by_priority : Bool) (s : System) (q : List Element) (ws : List Worker)
    → s.cells.queue ≡ q
    → s.workers ≡ ws
    → 0 < length ws
    → s.cells.stop_requested ≡ false
    → AllAwake ws
    → Closer by_priority s ⊎ (s.cells.queue ≡ []) × ((o : ℕ) → sum_of (carried o) s.workers ≡ 0)
next_step by_priority s q [] there here some_worker on awake = absurd (omega arith)
next_step by_priority s (x ∷ xs) (w ∷ ws) there here some_worker on awake =
    inl (Closer-at s [] ws w here (advance by_priority s.cells w x xs on there awake.0))
next_step by_priority s [] (w ∷ ws) there here some_worker on awake = elim (find-Busy s.workers) [
  | inl idle ↦ inr (there, idle)
  | inr b ↦
      inl
        (Closer-at s b.before b.after (holding b.e) b.at (advance_holding by_priority s.cells b.e))
]

Rests-within :
    (by_priority : Bool) (n fuel : ℕ) (s : System)
    → 0 < n
    → Reach by_priority n s
    → s.cells.stop_requested ≡ false
    → distance s < fuel
    → Rests by_priority s
Rests-within by_priority n zero s some_worker r on h = absurd (omega arith)
Rests-within by_priority n (suc fuel) s some_worker r on h =
    let v = Reach-Staffed r in
    elim (next_step by_priority s s.cells.queue s.workers refl refl (omega (arith, v.all_there)) on
      (v.awake on)) [
        | inr (empty, idle) ↦ record {
          t = s;
          run = stay;
          soon = omega arith;
          empty = empty;
          idle = idle;
          same = refl;
        }
        | inl c ↦ after_step s c (
            Rests-within by_priority n fuel c.t some_worker
              (later r (move c.before c.after c.from c.mv c.to)) (Move-stop c.mv ∙ on)
              (omega (arith, c.nearer)))
      ]

weight-le-3 : (ws : List Worker) → sum_of weight ws ≤ 3 * length ws
weight-le-3 [] = omega arith
weight-le-3 (holding e ∷ ws) = omega (arith, weight-le-3 ws)
weight-le-3 (w ∷ ws) = omega (arith, weight-le-3 ws)

-- From every reachable state of a pool that has a worker and was not asked to stop, the workers can
-- serve all that was enqueued, in at most 4 steps for each operation in the queue and 3 for each worker:
-- then the queue is empty and every operation was executed as often as it was enqueued.
pub all_can_be_served :
    {by_priority : Bool} {thread_count : ℕ} {s : System}
    → 0 < thread_count
    → Reach by_priority thread_count s
    → s.cells.stop_requested ≡ false
    → (t : System) × (r : Run by_priority s t) × (steps r
        ≤ 4 * length s.cells.queue + 3 * length s.workers)
      × (t.cells.queue ≡ [])
      × ((o : ℕ) → occurrences o t.cells.executed ≡ occurrences o s.cells.enqueued)
all_can_be_served {by_priority} {thread_count} {s} some_worker r on =
    let e =
      Rests-within by_priority thread_count (suc (distance s)) s some_worker r on (omega arith) in
    (
      e.t,
      e.run,
      omega (arith, e.soon, weight-le-3 s.workers),
      e.empty,
      λ o. omega (
        arith,
        executed_once o (Reach-Run r e.run),
        e.idle o,
        ap (sum_of (queued o)) e.empty,
        ap (occurrences o) e.same,
      ),
    )
