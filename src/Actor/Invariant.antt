-- ===== src/Actor/Invariant.antt =====
-- What ties `activated`, `pending_message_count` and the mailbox to the calls in progress, and that
-- every access keeps it.
use ncaf.Common.{
  ℕ, ◌+◌, ◌%◌, ◌≤◌, ◌<◌, ◌≡◌, refl, ◌&&◌, true, false, bit, List, [], ◌∷◌, ◌++◌, length,
  length-append, arith,
}
use ncaf.Actor.{
  Cells, Point, Move, size_t_mod, System, init, push_cells, Step, push_message, async_destroy,
  destroy_again, move, counting, destroying, count, count_destroy, cas_lose, cas_win, schedule,
  already_destroyed, check_instance, see_destroy, reset, unactivate, discount, enter_loop, pop,
  drained, execute, execute_last, subtract, release, look_again, leave,
}
use ncaf.Actor.Tally.{Tally, tally, ◌⊕◌, tally-split, IsTally, tally-IsTally}

pub record Inv (c : Cells) (t : Tally) : Type 0 where
  -- One call at most holds the activation, and one does while the actor lives and is activated.
  pub one_owner : t.owners ≤ bit c.activated
  pub live_owner : bit c.activated + bit c.user_class_instance ≤ t.owners + 1
  pub inside_live : t.insiders ≤ bit c.user_class_instance
  pub doom_pending : t.doomers ≤ bit c.pending_to_be_destroyed
  pub dead_pending : 1 ≤ bit c.user_class_instance + bit c.pending_to_be_destroyed
  pub owed_dead : t.oweds + bit c.user_class_instance ≤ 1
  pub in_range : c.pending_message_count < size_t_mod
  pub counted :
      (c.pending_message_count + t.uncounteds) % size_t_mod
      ≡ (length c.mailbox
          + t.takens
          + bit (c.user_class_instance && c.pending_to_be_destroyed)
          + t.oweds)
        % size_t_mod
  pub helped :
      c.user_class_instance ≡ true
      → 0 < length c.mailbox + bit c.pending_to_be_destroyed
      → 0 < t.owners + t.uncounteds + t.wakers

-- The calls that stand still are tallied as `r`.
Move-Inv :
    {budget : ℕ} {c c' : Cells} {p : Point} {ps : List Point} (r : Tally)
    → IsTally r
    → length c.mailbox + 1 < size_t_mod
    → Move budget c p c' ps
    → Inv c (r ⊕ tally (p ∷ []))
    → Inv c' (r ⊕ tally ps)
Move-Inv r rest small count v = ground arith
Move-Inv r rest small count_destroy v = ground arith
Move-Inv r rest small (cas_lose h) v = ground arith
Move-Inv r rest small (cas_win h) v = ground arith
Move-Inv r rest small schedule v = ground arith
Move-Inv r rest small (already_destroyed h) v = ground arith
Move-Inv r rest small (check_instance h) v = ground arith
Move-Inv r rest small (see_destroy h) v = ground arith
Move-Inv r rest small reset v = ground arith
Move-Inv r rest small unactivate v = ground arith
Move-Inv r rest small discount v = ground arith
Move-Inv r rest small (enter_loop h) v = ground arith
Move-Inv r rest small (pop h) v = ground arith
Move-Inv r rest small drained v = ground arith
Move-Inv r rest small (execute h) v = ground arith
Move-Inv r rest small (execute_last h) v = ground arith
Move-Inv r rest small subtract v = ground arith
Move-Inv r rest small release v = ground arith
Move-Inv r rest small (look_again h) v = ground arith
Move-Inv r rest small (leave h) v = ground arith

push-Inv :
    (s : System) (msg : ℕ)
    → Inv s.cells (tally s.points)
    → Inv (push_cells s.cells msg) (tally (counting ∷ s.points))
push-Inv s msg v = ground (arith, length-append s.cells.mailbox (msg ∷ []))

destroy-Inv :
    (s : System)
    → s.cells.pending_to_be_destroyed ≡ false
    → Inv s.cells (tally s.points)
    → Inv (record (s.cells) { pending_to_be_destroyed = true }) (tally (destroying ∷ s.points))
destroy-Inv s h v = ground arith

-- Every step keeps the invariant, while a mailbox holds fewer than 2^64 - 1 messages.
pub Step-Inv :
    {budget : ℕ} {s t : System}
    → length s.cells.mailbox + 1 < size_t_mod
    → Step budget s t
    → Inv s.cells (tally s.points)
    → Inv t.cells (tally t.points)
Step-Inv {s} small (push_message msg c p) v = rw (c, p) (push-Inv s msg v)
Step-Inv {s} small (async_destroy h c p) v = rw (c, p) (destroy-Inv s h v)
Step-Inv small (destroy_again h e) v = rw e v
Step-Inv {s} {t} small (move before after {p} {ps} from mv to) v =
    rw (to, tally-split before ps after)
      (Move-Inv (tally (before ++ after)) (tally-IsTally (before ++ after)) small mv
        (rw (← tally-split before (p ∷ []) after) (rw (← from) v)))

pub init-Inv : Inv init.cells (tally init.points)
init-Inv = ground arith

-- Nothing is taken out of the record of pushed messages.
pub Move-pushed :
    {budget : ℕ} {c c' : Cells} {p : Point} {ps : List Point}
    → Move budget c p c' ps
    → c'.pushed ≡ c.pushed
Move-pushed count = refl
Move-pushed mv = refl

pub Step-pushed :
    {budget : ℕ} {s t : System} → Step budget s t → length s.cells.pushed ≤ length t.cells.pushed
Step-pushed {s} (push_message msg c p) =
    rw (c, length-append s.cells.pushed (msg ∷ [])) (omega arith)
Step-pushed (async_destroy h c p) = rw c (omega arith)
Step-pushed (destroy_again h e) = rw e (omega arith)
Step-pushed (move before after from mv to) = rw (Move-pushed mv) (omega arith)
