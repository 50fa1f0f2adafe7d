-- ===== src/Actor/Activation.antt =====
-- include/ncaf/internal/actor.h: the operations of `Actor`, each run by itself.
use ncaf.Common.{ℕ, ◌+◌, List, [], ◌∷◌, ◌++◌, Bool, true, false, not, if◌then◌else◌, leb, nat_beq}
use ncaf.Actor.{Cells, fetch_add, fetch_sub, push_cells}

-- `while (auto optional_msg = mailbox_.TryPop())`: the messages executed, the mailbox that is left
-- and message_executed. The queue reports that it is empty only when it is.
unfoldable pub run_loop : ℕ → ℕ → List ℕ → List ℕ × List ℕ × ℕ
run_loop budget k [] = ([], [], k)
run_loop budget k (msg ∷ rest) =
    let more = run_loop budget (k + 1) rest in
    if leb budget (k + 1) then (msg ∷ [], rest, k + 1) else (msg ∷ more.0, more.1, more.2)

-- TryActivate: whether the actor was handed to the scheduler.
unfoldable pub try_activate : Cells → Cells × Bool
try_activate c = if c.activated then (c, false) else (record c { activated = true }, true)

-- PullMailboxAndRun after its loop, up to its last TryActivate, and whether that is called.
abbrev pub after_loop : Cells → List ℕ × List ℕ × ℕ → Cells × Bool
after_loop c ran =
    let left = fetch_sub c.pending_message_count ran.2 in
    (
      record c {
        mailbox = ran.1;
        executed = c.executed ++ ran.0;
        pending_message_count = left;
        activated = false;
      },
      not (nat_beq left 0),
    )

-- PullMailboxAndRun when the flag is set.
abbrev pub destroy_instance : Cells → Cells
destroy_instance c = record c {
  user_class_instance = false;
  activated = false;
  pending_message_count = fetch_sub c.pending_message_count 1;
}

-- PullMailboxAndRun up to its last TryActivate, and whether that is called.
unfoldable pub pull_mailbox_and_run : ℕ → Cells → Cells × Bool
pull_mailbox_and_run budget c =
    if not c.user_class_instance
    then (c, false)
    else if c.pending_to_be_destroyed
    then (destroy_instance c, false)
    else after_loop c (run_loop budget 0 c.mailbox)

-- PushMessage: whether the actor was handed to the scheduler.
unfoldable pub push_message : Cells → ℕ → Cells × Bool
unfolding try_activate
push_message c msg =
    let pushed = push_cells c msg in
    try_activate
      (record pushed { pending_message_count = fetch_add pushed.pending_message_count 1 })

-- AsyncDestroy up to its wait: whether the actor was handed to the scheduler.
unfoldable pub async_destroy : Cells → Cells × Bool
unfolding try_activate
async_destroy c =
    if c.pending_to_be_destroyed
    then (c, false)
    else try_activate (record c {
      pending_to_be_destroyed = true;
      pending_message_count = fetch_add c.pending_message_count 1;
    })
