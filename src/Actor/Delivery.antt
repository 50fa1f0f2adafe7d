-- ===== src/Actor/Delivery.antt =====
-- What callers of an actor rely on: one message at a time, in the order of the pushes, none left
-- behind, and none executed once the instance is destroyed.
use ncaf.Common.{
  ℕ, ◌+◌, ◌≤◌, ◌<◌, ◌≡◌, refl, sym, ap, subst, ◌∙◌, List, [], ◌∷◌, ◌++◌, append-nil, true, false,
  bit, length, nil_of_length, arith,
}
use ncaf.Actor.{
  Cells, Point, Move, size_t_mod, System, Step, push_message, async_destroy, destroy_again, move,
  Reach, execute, execute_last, count,
}
use ncaf.Actor.Tally.{tally, total, total-append, inside, in_flight}
use ncaf.Actor.Invariant.{Inv}
use ncaf.Actor.Order.{Reach-Sound, mailbox-le-pushed}

-- In every reachable state at most one call is between the null check of PullMailboxAndRun and the
-- end of its loop, and none is once the user instance is reset, while fewer than 2^64 - 1 messages
-- were pushed.
pub one_at_a_time :
    {budget : ℕ} {s : System}
    → length s.cells.pushed + 1 < size_t_mod
    → Reach budget s
    → total inside s.points ≤ bit s.cells.user_class_instance
one_at_a_time small r = (Reach-Sound small r).inv.inside_live

-- In every reachable state the messages executed, then the one being executed, then those in the
-- mailbox are the messages pushed, in the order of their pushes, while fewer than 2^64 - 1 messages
-- were pushed.
pub in_push_order :
    {budget : ℕ} {s : System}
    → length s.cells.pushed + 1 < size_t_mod
    → Reach budget s
    → s.cells.executed ++ (in_flight s.points ++ s.cells.mailbox) ≡ s.cells.pushed
in_push_order small r = (Reach-Sound small r).in_order

rest_live :
    (c : Cells)
    → Inv c (tally [])
    → c.user_class_instance ≡ true
    → (length c.mailbox ≡ 0) × (c.pending_to_be_destroyed ≡ false)
rest_live c v alive = ground arith

executed_all :
    (c : Cells) → c.mailbox ≡ [] → c.executed ++ c.mailbox ≡ c.pushed → c.executed ≡ c.pushed
executed_all c e h = sym (append-nil c.executed) ∙ (rw e at h)

-- When no call is in progress and the instance is still there, every message that was pushed has
-- been executed, in order, and no destruction was requested, while fewer than 2^64 - 1 messages
-- were pushed.
pub none_left_behind :
    {budget : ℕ} {s : System}
    → length s.cells.pushed + 1 < size_t_mod
    → Reach budget s
    → s.points ≡ []
    → s.cells.user_class_instance ≡ true
    → (s.cells.executed ≡ s.cells.pushed) × (s.cells.pending_to_be_destroyed ≡ false)
none_left_behind {s} small r quiet alive =
    let v = Reach-Sound small r in
    let (empty, kept) =
      rest_live s.cells (subst (λ ps. Inv s.cells (tally ps)) quiet v.inv) alive in
    (
      executed_all s.cells (nil_of_length s.cells.mailbox empty) (
          ap (λ ps. s.cells.executed ++ (in_flight ps ++ s.cells.mailbox)) (sym quiet)
          ∙ v.in_order),
      kept,
    )

rest_count :
    (c : Cells)
    → Inv c (tally [])
    → length c.mailbox < size_t_mod
    → c.pending_message_count ≡ length c.mailbox
rest_count c v small = ground arith

-- When no call is in progress, pending_message_count is the number of messages in the mailbox,
-- while fewer than 2^64 - 1 messages were pushed.
count_at_rest :
    {budget : ℕ} {s : System}
    → length s.cells.pushed + 1 < size_t_mod
    → Reach budget s
    → s.points ≡ []
    → s.cells.pending_message_count ≡ length s.cells.mailbox
count_at_rest {s} small r quiet =
    let v = Reach-Sound small r in
    rest_count s.cells (subst (λ ps. Inv s.cells (tally ps)) quiet v.inv)
      (omega (arith, mailbox-le-pushed s v.in_order))

live_mover :
    {budget : ℕ} {c c' : Cells} {p : Point} {ps : List Point}
    → Move budget c p c' ps
    → inside p ≡ 0
    → (c'.executed ≡ c.executed) × (bit c'.user_class_instance ≤ bit c.user_class_instance)
live_mover count h = (refl, omega arith)
live_mover (execute lt) h = absurd (omega arith)
live_mover (execute_last le) h = absurd (omega arith)
live_mover mv h = (refl, omega arith)

-- A step from a reachable state in which the user instance is reset executes nothing and does not
-- bring the instance back, while fewer than 2^64 - 1 messages were pushed.
dead_stays_silent :
    {budget : ℕ} {s t : System}
    → length s.cells.pushed + 1 < size_t_mod
    → Reach budget s
    → s.cells.user_class_instance ≡ false
    → Step budget s t
    → (t.cells.executed ≡ s.cells.executed) × (t.cells.user_class_instance ≡ false)
dead_stays_silent small r dead (push_message msg c p) = rw c (refl, dead)
dead_stays_silent small r dead (async_destroy e c p) = rw c (refl, dead)
dead_stays_silent small r dead (destroy_again e same) = rw same (refl, dead)
dead_stays_silent {s} {t} small r dead (move before after {p} {ps} from mv to) =
    let still = live_mover mv (
      ground (
        arith,
        (Reach-Sound small r).inv.inside_live,
        ap (total inside) from,
        total-append inside before (p ∷ after),
      )) in
    (still.0, ground (arith, still.1))
