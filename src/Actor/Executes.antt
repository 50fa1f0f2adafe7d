-- ===== src/Actor/Executes.antt =====
-- What one activation of PullMailboxAndRun executes.
use ncaf.Common.{
  ℕ, zero, suc, ◌+◌, ◌-◌, ◌≤◌, ◌<◌, ◌≡◌, refl, List, [], ◌∷◌, ◌++◌, true, false, not, length, take,
  drop, take-nil, drop-nil, min, leb, nat_beq, arith, ap, ◌∙◌, Bool-cases, inl, inr,
}
use ncaf.Actor.{Cells, fetch_sub}
use ncaf.Actor.Budget.{at_least_one}
use ncaf.Actor.Activation.{run_loop, after_loop, destroy_instance, pull_mailbox_and_run}

-- How many messages an activation executes that has executed `k`.
abbrev room : ℕ → ℕ → ℕ
room budget k = at_least_one (budget - k)

room-step : (budget k : ℕ) → k + 1 < budget → room budget k ≡ suc (room budget (k + 1))
room-step budget k h =
    let e : budget - k ≡ suc (suc (budget - k - 2)) = omega arith in
    let f : budget - (k + 1) ≡ suc (budget - k - 2) = omega arith in rw (e, f)

at_least_one_le : (n : ℕ) → n ≤ 1 → at_least_one n ≡ 1
at_least_one_le zero h = refl
at_least_one_le (suc n) h = omega arith

room-last : (budget k : ℕ) → budget ≤ k + 1 → room budget k ≡ 1
room-last budget k h = at_least_one_le (budget - k) (omega arith)

abbrev ran_loop : ℕ → ℕ → List ℕ → List ℕ × List ℕ × ℕ
ran_loop budget k mailbox = (
  take (room budget k) mailbox,
  drop (room budget k) mailbox,
  k + min (room budget k) (length mailbox),
)

run_loop_lem :
    (budget k : ℕ) (mailbox : List ℕ) → run_loop budget k mailbox ≡ ran_loop budget k mailbox
unfolding run_loop
run_loop_lem budget k [] =
    rw (take-nil (room budget k), drop-nil (room budget k))
      (ap {B = List ℕ × List ℕ × ℕ} (λ n. ([], [], n)) (omega arith))
run_loop_lem budget k (msg ∷ rest) = elim (Bool-cases (leb budget (k + 1))) [
  | inl last ↦
      rw (last, room-last budget k (ground arith))
        (ap {B = List ℕ × List ℕ × ℕ} (λ n. (msg ∷ [], rest, n)) (omega arith))
  | inr more ↦
      let r = room budget (k + 1) in
      rw (more, room-step budget k (ground arith), run_loop_lem budget (k + 1) rest)
        (ap {B = List ℕ × List ℕ × ℕ} (λ n. (msg ∷ take r rest, drop r rest, n)) (omega arith))
]

pub pull_dead :
    (budget : ℕ) (c : Cells)
    → c.user_class_instance ≡ false
    → pull_mailbox_and_run budget c ≡ (c, false)
unfolding pull_mailbox_and_run
pull_dead budget c dead = ground arith

pub pull_doomed :
    (budget : ℕ) (c : Cells)
    → c.user_class_instance ≡ true
    → c.pending_to_be_destroyed ≡ true
    → pull_mailbox_and_run budget c ≡ (destroy_instance c, false)
unfolding pull_mailbox_and_run
pull_doomed budget c alive doomed = ground arith

pub pull_live :
    (budget : ℕ) (c : Cells)
    → c.user_class_instance ≡ true
    → c.pending_to_be_destroyed ≡ false
    → pull_mailbox_and_run budget c ≡ after_loop c (run_loop budget 0 c.mailbox)
unfolding pull_mailbox_and_run
pull_live budget c alive kept = ground arith

-- On a living actor that is not to be destroyed, an activation executes the first max(1, budget)
-- messages of the mailbox in order, keeps the others, subtracts the number executed from
-- pending_message_count modulo 2^64, gives the activation up, and goes on to TryActivate exactly
-- when the count is not 0 then.
pub pull_executes :
    (budget : ℕ) (c : Cells)
    → c.user_class_instance ≡ true
    → c.pending_to_be_destroyed ≡ false
    → let n = at_least_one budget in
      let left = fetch_sub c.pending_message_count (min n (length c.mailbox)) in
      pull_mailbox_and_run budget c ≡ (
        record c {
          mailbox = drop n c.mailbox;
          executed = c.executed ++ take n c.mailbox;
          pending_message_count = left;
          activated = false;
        },
        not (nat_beq left 0),
      )
pull_executes budget c alive kept =
    pull_live budget c alive kept ∙ ap (after_loop c) (run_loop_lem budget 0 c.mailbox ∙ from_zero)
  where
    from_zero : ran_loop budget 0 c.mailbox ≡ (
      take (at_least_one budget) c.mailbox,
      drop (at_least_one budget) c.mailbox,
      min (at_least_one budget) (length c.mailbox),
    )
    from_zero =
        let e : budget - 0 ≡ budget = omega arith in
        rw e (
          ap {B = List ℕ × List ℕ × ℕ}
            (λ n. (take (at_least_one budget) c.mailbox, drop (at_least_one budget) c.mailbox, n))
            (omega arith))
