-- ===== src/Actor/Refines.antt =====
-- The operations of `Actor`, run by themselves, are runs of the interleaved model.
use ncaf.Common.{
  ℕ, ◌+◌, ◌≡◌, refl, List, [], ◌∷◌, ◌++◌, Bool, true, false, not, leb, nat_beq, arith, append_assoc,
  append-nil, subst, Bool-cases, inl, inr,
}
use ncaf.Actor.{
  Cells, Point, Move, fetch_add, push_cells, looping, finished, scheduled, released, activating,
  scheduling, counting, pop, drained, execute, execute_last, already_destroyed, check_instance,
  see_destroy, reset, unactivate, discount, enter_loop, subtract, release, look_again, leave, count,
  cas_lose, cas_win, destroying, count_destroy,
}
use ncaf.Actor.Activation.{
  run_loop, try_activate, pull_mailbox_and_run, push_message, async_destroy,
}
use ncaf.Actor.Executes.{pull_dead, pull_doomed, pull_live}

-- One call that moves while all others stand still.
pub data Run (budget : ℕ) : Cells → Point → Cells → List Point → Type 0 where
  stop : {c : Cells} {p : Point} → Run budget c p c (p ∷ [])
  returns : {c c' : Cells} {p : Point} → Move budget c p c' [] → Run budget c p c' []
  goes :
      {c c' c'' : Cells} {p q : Point} {ps : List Point}
      → Move budget c p c' (q ∷ [])
      → Run budget c' q c'' ps
      → Run budget c p c'' ps

Run-trans :
    {budget : ℕ} {c c' c'' : Cells} {p q : Point} {ps : List Point}
    → Run budget c p c' (q ∷ [])
    → Run budget c' q c'' ps
    → Run budget c p c'' ps
Run-trans stop r = r
Run-trans (goes mv more) r = goes mv (Run-trans more r)

abbrev at_loop : Cells → List ℕ → List ℕ → Cells
at_loop c mailbox executed = record c { mailbox = mailbox; executed = executed }

loop_runs :
    (budget : ℕ) (c : Cells) (k : ℕ) (mailbox executed : List ℕ)
    → Run budget
        (at_loop c mailbox executed)
        (looping k)
        (at_loop c (run_loop budget k mailbox).1 (executed ++ (run_loop budget k mailbox).0))
        (finished (run_loop budget k mailbox).2 ∷ [])
unfolding run_loop
loop_runs budget c k [] executed = rw (append-nil executed) (goes drained stop)
loop_runs budget c k (msg ∷ rest) executed = elim (Bool-cases (leb budget (k + 1))) [
  | inl last ↦ rw last (goes (pop refl) (goes (execute_last (ground arith)) stop))
  | inr more ↦
      rw (more, ← append_assoc executed (msg ∷ []) (run_loop budget (k + 1) rest).0)
        (goes (pop refl) (
          goes (execute (ground arith)) (loop_runs budget c (k + 1) rest (executed ++ (msg ∷ [])))))
]

abbrev pub after_pull : Bool → List Point
after_pull true = activating ∷ []
after_pull false = []

last_look :
    {budget : ℕ} (c : Cells) (left : ℕ)
    → c.pending_message_count ≡ left
    → Run budget c released c (after_pull (not (nat_beq left 0)))
last_look c left e = elim (Bool-cases (nat_beq left 0)) [
  | inl zero' ↦ rw zero' (returns (leave (ground arith)))
  | inr more ↦ rw more (goes (look_again (ground arith)) stop)
]

-- A run of PullMailboxAndRun as written, with nothing else moving, is a run of the interleaved
-- model: it leaves the same members, and it is at TryActivate or has returned.
pull_refines :
    (budget : ℕ) (c : Cells)
    → Run budget c scheduled
        (pull_mailbox_and_run budget c).0
        (after_pull (pull_mailbox_and_run budget c).1)
pull_refines budget c = elim (Bool-cases c.user_class_instance) [
  | inr dead ↦ rw (pull_dead budget c dead) (returns (already_destroyed dead))
  | inl alive ↦ elim (Bool-cases c.pending_to_be_destroyed) [
    | inl doomed ↦ rw (pull_doomed budget c alive doomed) (
        goes (check_instance alive)
          (goes (see_destroy doomed) (goes reset (goes unactivate (returns discount)))))
    | inr kept ↦ rw (pull_live budget c alive kept) (
        goes (check_instance alive) (
          goes (enter_loop kept) (
            Run-trans (loop_runs budget c 0 c.mailbox c.executed)
              (goes subtract (goes release (last_look _ _ refl))))))
  ]
]

abbrev pub after_activate : Bool → List Point
after_activate true = scheduling ∷ []
after_activate false = []

activate_runs :
    {budget : ℕ} (c : Cells)
    → Run budget c activating (try_activate c).0 (after_activate (try_activate c).1)
unfolding try_activate
activate_runs {budget} c = elim (Bool-cases c.activated) [
  | inl on ↦
      subst (λ r. Run budget c activating r.0 (after_activate r.1)) (keeps on)
        (returns (cas_lose on))
  | inr off ↦
      subst (λ r. Run budget c activating r.0 (after_activate r.1)) (wins off)
        (goes (cas_win off) stop)
]
  where
    keeps : c.activated ≡ true → (c, false) ≡ try_activate c
    keeps on = ground arith

    wins : c.activated ≡ false → (record c { activated = true }, true) ≡ try_activate c
    wins off = ground arith

-- A call of PushMessage as written, with nothing else moving, is a run of the interleaved model
-- from the point after its push to the mailbox: it leaves the same members, and it is about to hand
-- the actor to the scheduler or has returned.
push_refines :
    (budget : ℕ) (c : Cells) (msg : ℕ)
    → Run budget
        (push_cells c msg)
        counting
        (push_message c msg).0
        (after_activate (push_message c msg).1)
unfolding push_message
push_refines budget c msg = goes count (activate_runs _)

destroy_first :
    (c : Cells)
    → c.pending_to_be_destroyed ≡ false
    → async_destroy c
      ≡ try_activate (record c {
        pending_to_be_destroyed = true;
        pending_message_count = fetch_add c.pending_message_count 1;
      })
unfolding async_destroy
destroy_first c fresh = ground arith

-- A call of AsyncDestroy as written on an actor whose flag is not set, with nothing else moving, is
-- a run of the interleaved model from the point after its compare-exchange: it leaves the same
-- members, and it is about to hand the actor to the scheduler or waits for it.
destroy_refines :
    (budget : ℕ) (c : Cells)
    → c.pending_to_be_destroyed ≡ false
    → Run budget
        (record c { pending_to_be_destroyed = true })
        destroying
        (async_destroy c).0
        (after_activate (async_destroy c).1)
destroy_refines budget c fresh = rw (destroy_first c fresh) (goes count_destroy (activate_runs _))
