-- ===== src/Util/Semaphore/Drained.antt =====
-- The semaphore of util.h: what its operations wait for, by an invariant over all interleavings.
use ncaf.Common.{
  ℕ, ◌+◌, ◌≡◌, refl, ap, List, [], ◌∷◌, ◌++◌, Bool, true, false, Bool-cases, inl, inr, bit, length,
  length-append, nil_of_length, arith,
}
use ncaf.Common.Int.{at_most, sub_ℕ, add_ℕ, at_most-sub_ℕ, at_most-add_ℕ}
use ncaf.Common.Totals.{sum_of, sum_of-append, is_one, occurrences}
use ncaf.Util.Semaphore.{
  Cells, Point, Move, System, Step, Reach, drained, draining, completing, starting, loaded,
  take_waiters, complete, acquired, start_drained, load, wait, acquire, release, start, move, begin,
  later, after_acquire,
}

-- The call is about to take the waiters.
abbrev pub awake : Point → ℕ
awake draining = 1
awake _ = 0

-- The call holds the mutex.
abbrev holding : Point → ℕ
holding (loaded w) = 1
holding _ = 0

-- The operation is in the hands of the call.
abbrev pub carried : ℕ → Point → ℕ
carried w draining = 0
carried w (completing ws) = occurrences w ws
carried w (starting x) = is_one w x
carried w (loaded x) = is_one w x

-- The members, with what the calls hold in sum.
record Inv (c : Cells) (takers holders : ℕ) : Type 0 where
  pub held : holders ≡ bit c.locked
  pub none_forgotten : drained c ≡ true → takers ≡ 0 → length c.waiters + bit c.locked ≡ 0

Move-Inv :
    {c c' : Cells} {p : Point} {ps : List Point} (takers holders : ℕ)
    → Move c p c' ps
    → Inv c (takers + awake p) (holders + holding p)
    → Inv c' (takers + sum_of awake ps) (holders + sum_of holding ps)
Move-Inv takers holders (take_waiters free) v = ground arith
Move-Inv takers holders complete v = ground arith
Move-Inv takers holders acquired v = ground arith
Move-Inv takers holders (start_drained free down) v = ground arith
Move-Inv takers holders (load free up) v = ground arith
Move-Inv {c} takers holders (wait {w}) v = ground (arith, length-append c.waiters (w ∷ []))

Move-account :
    {c c' : Cells} {p : Point} {ps : List Point} (w : ℕ)
    → Move c p c' ps
    → (c'.started ≡ c.started)
      × (occurrences w c'.completed + occurrences w c'.waiters + sum_of (carried w) ps
          ≡ occurrences w c.completed + occurrences w c.waiters + carried w p)
Move-account w (take_waiters free) = (refl, omega arith)
Move-account {c} w (complete {w = x}) =
    (refl, omega (arith, sum_of-append (is_one w) c.completed (x ∷ [])))
Move-account w acquired = (refl, omega arith)
Move-account {c} w (start_drained {w = x} free down) =
    (refl, omega (arith, sum_of-append (is_one w) c.completed (x ∷ [])))
Move-account w (load free up) = (refl, omega arith)
Move-account {c} w (wait {w = x}) =
    (refl, omega (arith, sum_of-append (is_one w) c.waiters (x ∷ [])))

-- What the calls before and after one that moves hold.
split :
    (f : Point → ℕ) (before ps after : List Point)
    → sum_of f (before ++ (ps ++ after)) ≡ sum_of f before + sum_of f after + sum_of f ps
split f before ps after =
    omega (arith, sum_of-append f before (ps ++ after), sum_of-append f ps after)

split_one :
    (f : Point → ℕ) (before after : List Point) (p : Point)
    → sum_of f (before ++ (p ∷ after)) ≡ sum_of f before + sum_of f after + f p
split_one f before after p = omega (arith, sum_of-append f before (p ∷ after))

abbrev Holds : System → Type 0
Holds s = Inv s.cells (sum_of awake s.points) (sum_of holding s.points)

acquire-Inv :
    (c : Cells) (n : ℕ) (points : List Point)
    → Inv c (sum_of awake points) (sum_of holding points)
    → let after = after_acquire (at_most c.count n) points in
      Inv (record c { count = sub_ℕ c.count n }) (sum_of awake after) (sum_of holding after)
acquire-Inv c n points v = elim (Bool-cases (at_most c.count n)) [
  | inl low ↦ rw (low, after_acquire) (ground arith)
  | inr high ↦ rw (high, after_acquire) (ground (arith, at_most-sub_ℕ c.count n))
]

release-Inv :
    (c : Cells) (n takers holders : ℕ)
    → Inv c takers holders
    → Inv (record c { count = add_ℕ c.count n }) takers holders
release-Inv c n takers holders v = record {
  held = v.held;
  none_forgotten = λ low. v.none_forgotten (at_most-add_ℕ c.count n low);
}

start-Inv :
    (c : Cells) (w takers holders : ℕ)
    → Inv c takers holders
    → Inv (record c { started = c.started ++ (w ∷ []) }) (0 + takers) (0 + holders)
start-Inv c w takers holders v = ground arith

Step-Holds : {s t : System} → Step s t → Holds s → Holds t
Step-Holds {s} (acquire n cells points) v = rw (cells, points) (acquire-Inv s.cells n s.points v)
Step-Holds {s} (release n cells points) v =
    rw (cells, points) (release-Inv s.cells n (sum_of awake s.points) (sum_of holding s.points) v)
Step-Holds {s} (start w cells points) v =
    rw (cells, points) (start-Inv s.cells w (sum_of awake s.points) (sum_of holding s.points) v)
Step-Holds {s} {t} (move before after {p} {ps} from mv to) v =
    rw (to, split awake before ps after, split holding before ps after)
      (Move-Inv (sum_of awake before + sum_of awake after)
        (sum_of holding before + sum_of holding after) mv
        (rw (← split_one awake before after p, ← split_one holding before after p, ← from) v))

Reach-Holds : {initial_count : ℕ} {s : System} → Reach initial_count s → Holds s
Reach-Holds begin = ground arith
Reach-Holds (later r step) = Step-Holds step (Reach-Holds r)

-- In every reachable state in which the count is drained, nobody waits, unless an Acquire is about to
-- take the waiters: when no call is between its accesses, drained means that nobody waits.
pub none_forgotten_when_drained :
    {initial_count : ℕ} {s : System}
    → Reach initial_count s
    → drained s.cells ≡ true
    → sum_of awake s.points ≡ 0
    → s.cells.waiters ≡ []
none_forgotten_when_drained {s} r low quiet =
    nil_of_length s.cells.waiters (omega (arith, (Reach-Holds r).none_forgotten low quiet))

after_acquire-carried :
    (b : Bool) (w : ℕ) (points : List Point)
    → sum_of (carried w) (after_acquire b points) ≡ sum_of (carried w) points
after_acquire-carried true w points = omega arith
after_acquire-carried false w points = refl

-- In every reachable state each operation was started as often as it was completed, waits, or is in
-- the hands of a call: none is lost, and none is completed more often than it was started.
pub completed_once :
    {initial_count : ℕ} {s : System} (w : ℕ)
    → Reach initial_count s
    → occurrences w s.cells.started
      ≡ occurrences w s.cells.completed
        + occurrences w s.cells.waiters
        + sum_of (carried w) s.points
completed_once w begin = refl
completed_once w (later {s} r (acquire n cells points)) =
    rw (cells, points, after_acquire-carried (at_most s.cells.count n) w s.points)
      (completed_once w r)
completed_once w (later r (release n cells points)) = rw (cells, points) (completed_once w r)
completed_once w (later {s} r (start x cells points)) =
    rw (cells, points)
      (omega (arith, completed_once w r, sum_of-append (is_one w) s.cells.started (x ∷ [])))
completed_once w (later {s} {t} r (move before after {p} {ps} from mv to)) = omega (
  arith,
  completed_once w r,
  ap (sum_of (carried w)) from,
  ap (sum_of (carried w)) to,
  split_one (carried w) before after p,
  split (carried w) before ps after,
  ap (occurrences w) (Move-account w mv).0,
  (Move-account w mv).1,
)
