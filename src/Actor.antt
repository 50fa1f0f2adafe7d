-- ===== src/Actor.antt =====
-- include/ncaf/internal/actor.h, `Actor`: the members that `PushMessage`, `AsyncDestroy`,
-- `TryActivate` and `PullMailboxAndRun` share between threads, one atomic access at a time. The
-- accesses take effect in one order that all threads see, as sequentially consistent ones do; the
-- memory orders of the code (release, acquire) ask for less.
pub mod Tally
pub mod Invariant
pub mod Order
pub mod Delivery
pub mod Budget
pub mod Activation
pub mod Executes
pub mod Refines
pub mod Progress
pub mod Rest
pub mod Calls
use ncaf.Common.{
  ℕ, suc, ◌+◌, ◌-◌, ◌%◌, ◌^◌, ◌≤◌, ◌<◌, ◌≡◌, ◌≢◌, Bool, true, false, List, [], ◌∷◌, ◌++◌,
}

-- A message is named by the pointer that is pushed. `executed` and `pushed` are no members: they
-- record what was executed and what was pushed, oldest first.
pub record Cells : Type 0 where
  pub mailbox : List ℕ
  pub pending_message_count : ℕ  -- atomic_size_t
  pub user_class_instance : Bool  -- false: null
  pub activated : Bool
  pub pending_to_be_destroyed : Bool
  pub executed : List ℕ
  pub pushed : List ℕ

-- Where a call stands that has not returned, with the local variables that are live there.
pub data Point : Type 0 where
  counting : Point  -- PushMessage, after mailbox_.Push
  destroying : Point  -- AsyncDestroy, after its compare-exchange
  activating : Point  -- head of TryActivate
  scheduling : Point  -- TryActivate, after its compare-exchange
  scheduled : Point  -- on the scheduler, and the head of PullMailboxAndRun
  checked : Point  -- the instance was not null
  resetting : Point  -- before user_class_instance_.reset()
  unactivating : Point  -- before activated_.store(false) of that branch
  discounting : Point  -- before fetch_sub(1) of that branch
  looping : (message_executed : ℕ) → Point  -- before mailbox_.TryPop()
  executing : (msg : ℕ) (message_executed : ℕ) → Point  -- before Execute()
  finished : (message_executed : ℕ) → Point  -- after the loop
  releasing : Point  -- before activated_.store(false)
  released : Point  -- before the load that follows

abbrev pub size_t_mod : ℕ
size_t_mod = 2 ^ 64

-- fetch_add and fetch_sub on a size_t.
abbrev pub fetch_add : ℕ → ℕ → ℕ
fetch_add c n = (c + n) % size_t_mod

abbrev pub fetch_sub : ℕ → ℕ → ℕ
fetch_sub c n = (c + size_t_mod - n % size_t_mod) % size_t_mod

-- One access by a call, and the points that it goes on from: none when it returns. `budget` is
-- `max_message_executed_per_activation`. `drained` has no premise: the vendored queue may report
-- that it is empty while another push is under way.
pub data Move (budget : ℕ) (c : Cells) : Point → Cells → List Point → Type 0 where
  count :
      Move budget c counting
        (record c { pending_message_count = fetch_add c.pending_message_count 1 })
        (activating ∷ [])
  count_destroy :
      Move budget c destroying
        (record c { pending_message_count = fetch_add c.pending_message_count 1 })
        (activating ∷ [])
  cas_lose : c.activated ≡ true → Move budget c activating c []
  cas_win :
      c.activated ≡ false
      → Move budget c activating (record c { activated = true }) (scheduling ∷ [])
  schedule : Move budget c scheduling c (scheduled ∷ [])
  already_destroyed : c.user_class_instance ≡ false → Move budget c scheduled c []
  check_instance : c.user_class_instance ≡ true → Move budget c scheduled c (checked ∷ [])
  see_destroy : c.pending_to_be_destroyed ≡ true → Move budget c checked c (resetting ∷ [])
  reset : Move budget c resetting (record c { user_class_instance = false }) (unactivating ∷ [])
  unactivate : Move budget c unactivating (record c { activated = false }) (discounting ∷ [])
  discount :
      Move budget c discounting
        (record c { pending_message_count = fetch_sub c.pending_message_count 1 })
        []
  enter_loop : c.pending_to_be_destroyed ≡ false → Move budget c checked c (looping 0 ∷ [])
  pop :
      {k msg : ℕ} {rest : List ℕ}
      → c.mailbox ≡ msg ∷ rest
      → Move budget c (looping k) (record c { mailbox = rest }) (executing msg k ∷ [])
  drained : {k : ℕ} → Move budget c (looping k) c (finished k ∷ [])
  execute :
      {k msg : ℕ}
      → k + 1 < budget
      → Move budget c
          (executing msg k)
          (record c { executed = c.executed ++ (msg ∷ []) })
          (looping (k + 1) ∷ [])
  execute_last :
      {k msg : ℕ}
      → budget ≤ k + 1
      → Move budget c
          (executing msg k)
          (record c { executed = c.executed ++ (msg ∷ []) })
          (finished (k + 1) ∷ [])
  subtract :
      {k : ℕ}
      → Move budget c
          (finished k)
          (record c { pending_message_count = fetch_sub c.pending_message_count k })
          (releasing ∷ [])
  release : Move budget c releasing (record c { activated = false }) (released ∷ [])
  look_again : c.pending_message_count ≢ 0 → Move budget c released c (activating ∷ [])
  leave : c.pending_message_count ≡ 0 → Move budget c released c []

-- The actor with the calls on it that have not returned, in any order.
pub record System : Type 0 where
  pub cells : Cells
  pub points : List Point

abbrev pub init : System
init = record {
  cells = record {
    mailbox = [];
    pending_message_count = 0;
    user_class_instance = true;
    activated = false;
    pending_to_be_destroyed = false;
    executed = [];
    pushed = [];
  };
  points = [];
}

abbrev pub push_cells : Cells → ℕ → Cells
push_cells c msg = record c { mailbox = c.mailbox ++ (msg ∷ []); pushed = c.pushed ++ (msg ∷ []) }

-- Any thread may call `PushMessage` or `AsyncDestroy` at any time, and any call may move.
pub data Step (budget : ℕ) (s t : System) : Type 0 where
  push_message :
      (msg : ℕ)
      → t.cells ≡ push_cells s.cells msg
      → t.points ≡ counting ∷ s.points
      → Step budget s t
  async_destroy :
      s.cells.pending_to_be_destroyed ≡ false
      → t.cells ≡ record (s.cells) { pending_to_be_destroyed = true }
      → t.points ≡ destroying ∷ s.points
      → Step budget s t
  destroy_again : s.cells.pending_to_be_destroyed ≡ true → t ≡ s → Step budget s t
  move :
      (before after : List Point) {p : Point} {ps : List Point}
      → s.points ≡ before ++ (p ∷ after)
      → Move budget s.cells p t.cells ps
      → t.points ≡ before ++ (ps ++ after)
      → Step budget s t

pub data Reach (budget : ℕ) : System → Type 0 where
  start : Reach budget init
  later : {s t : System} → Reach budget s → Step budget s t → Reach budget t
