-- ===== src/Util/Semaphore.antt =====
-- include/ncaf/internal/util.h, `Semaphore`: Acquire, Release and the start of an operation that waits
-- until the count is drained, one access to the shared members at a time. The count stays within
-- int64_t.
pub mod Drained
use ncaf.Common.{ℕ, ◌≡◌, Bool, true, false, List, [], ◌∷◌, ◌++◌}
use ncaf.Common.Int.{ℤ, pos, add_ℕ, sub_ℕ, at_most}

-- An operation is named by its address. `completed` and `started` are no members: they record the
-- calls of Complete() and of start(), oldest first. `locked` tells that start() holds waiters_mu_ in
-- between two of its accesses.
pub record Cells : Type 0 where
  pub count : ℤ
  pub locked : Bool
  pub waiters : List ℕ
  pub started : List ℕ
  pub completed : List ℕ

-- Where a call stands that has not returned.
pub data Point : Type 0 where
  draining : Point  -- Acquire, before it locks
  completing : (waiters : List ℕ) → Point  -- Acquire, in its loop
  starting : (operation : ℕ) → Point  -- start(), before it locks
  loaded : (operation : ℕ) → Point  -- start(), before push_back

abbrev pub drained : Cells → Bool
drained c = at_most c.count 0

pub data Move (c : Cells) : Point → Cells → List Point → Type 0 where
  take_waiters :
      c.locked ≡ false → Move c draining (record c { waiters = [] }) (completing c.waiters ∷ [])
  complete :
      {w : ℕ} {ws : List ℕ}
      → Move c
          (completing (w ∷ ws))
          (record c { completed = c.completed ++ (w ∷ []) })
          (completing ws ∷ [])
  acquired : Move c (completing []) c []
  start_drained :
      {w : ℕ}
      → c.locked ≡ false
      → drained c ≡ true
      → Move c (starting w) (record c { completed = c.completed ++ (w ∷ []) }) []
  load :
      {w : ℕ}
      → c.locked ≡ false
      → drained c ≡ false
      → Move c (starting w) (record c { locked = true }) (loaded w ∷ [])
  wait :
      {w : ℕ} → Move c (loaded w) (record c { waiters = c.waiters ++ (w ∷ []); locked = false }) []

pub record System : Type 0 where
  pub cells : Cells
  pub points : List Point

abbrev pub init : ℕ → System
init initial_count = record {
  cells = record {
    count = pos initial_count;
    locked = false;
    waiters = [];
    started = [];
    completed = [];
  };
  points = [];
}

-- fetch_sub of Acquire, and what follows it: `prev <= n` tells whether it locks.
abbrev pub after_acquire : Bool → List Point → List Point
after_acquire true points = draining ∷ points
after_acquire false points = points

-- Any thread may call any operation at any time, and any call may move.
pub data Step (s t : System) : Type 0 where
  acquire :
      (n : ℕ)
      → t.cells ≡ record (s.cells) { count = sub_ℕ s.cells.count n }
      → t.points ≡ after_acquire (at_most s.cells.count n) s.points
      → Step s t
  release :
      (n : ℕ)
      → t.cells ≡ record (s.cells) { count = add_ℕ s.cells.count n }
      → t.points ≡ s.points
      → Step s t
  start :
      (w : ℕ)
      → t.cells ≡ record (s.cells) { started = s.cells.started ++ (w ∷ []) }
      → t.points ≡ starting w ∷ s.points
      → Step s t
  move :
      (before after : List Point) {p : Point} {ps : List Point}
      → s.points ≡ before ++ (p ∷ after)
      → Move s.cells p t.cells ps
      → t.points ≡ before ++ (ps ++ after)
      → Step s t

pub data Reach (initial_count : ℕ) : System → Type 0 where
  begin : Reach initial_count (init initial_count)
  later : {s t : System} → Reach initial_count s → Step s t → Reach initial_count t
