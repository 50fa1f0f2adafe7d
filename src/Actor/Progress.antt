-- ===== src/Actor/Progress.antt =====
-- include/ncaf/internal/actor.h: how far an actor is from rest, when no further call is made, and that
-- some call in progress can always bring it closer.
use ncaf.Common.{
  ℕ, zero, suc, ◌+◌, ◌*◌, ◌≤◌, ◌<◌, ◌≡◌, ◌≢◌, inl, inr, refl, Bool, true, false, bit, ◌||◌,
  if◌then◌else◌, List, [], ◌∷◌, length, nat_beq, Bool-cases, arith,
}
use native.Mathlib.Decide.{dec_lt}
use ncaf.Actor.Tally.{total, total_mono}
use ncaf.Actor.{
  Cells, Point, Move, counting, destroying, activating, scheduling, scheduled, checked, resetting,
  unactivating, discounting, looping, executing, finished, releasing, released, count,
  count_destroy, cas_lose, cas_win, schedule, already_destroyed, check_instance, see_destroy, reset,
  unactivate, discount, enter_loop, pop, drained, execute, execute_last, subtract, release,
  look_again, leave,
}

abbrev has_mail : List ℕ → Bool
has_mail [] = false
has_mail (msg ∷ rest) = true

-- Another activation has something to do.
abbrev pub busy : Cells → Bool
busy c = c.pending_to_be_destroyed || has_mail c.mailbox

-- The steps that a call may still make but for the messages that it takes: a call in the loop goes
-- round again only while the actor is busy.
abbrev pub weight : Bool → Bool → Point → ℕ
weight pending more counting = 16
weight pending more destroying = 16
weight pending more (executing _ _) = 15
weight pending more (looping zero) = if pending then 14 else 6
weight pending more (looping (suc k)) = if more then 14 else 6
weight pending more activating = 10
weight pending more scheduling = 9
weight pending more scheduled = 8
weight pending more checked = 7
weight pending more resetting = 3
weight pending more unactivating = 2
weight pending more discounting = 1
weight pending more (finished _) = if more then 13 else 5
weight pending more releasing = if more then 12 else 4
weight pending more released = if more then 11 else 3

abbrev pub weight_in : Cells → Point → ℕ
weight_in c p = weight c.pending_to_be_destroyed (busy c) p

weight_mono :
    (pending pending' more more' : Bool)
    → pending' ≡ pending
    → bit more' ≤ bit more
    → (p : Point) → weight pending' more' p ≤ weight pending more p
weight_mono pending pending' more more' e h counting = omega arith
weight_mono pending pending' more more' e h destroying = omega arith
weight_mono pending pending' more more' e h activating = omega arith
weight_mono pending pending' more more' e h scheduling = omega arith
weight_mono pending pending' more more' e h scheduled = omega arith
weight_mono pending pending' more more' e h checked = omega arith
weight_mono pending pending' more more' e h resetting = omega arith
weight_mono pending pending' more more' e h unactivating = omega arith
weight_mono pending pending' more more' e h discounting = omega arith
weight_mono pending pending' more more' e h (looping zero) = ground arith
weight_mono pending pending' more more' e h (looping (suc k)) = ground arith
weight_mono pending pending' more more' e h (executing msg k) = omega arith
weight_mono pending pending' more more' e h (finished k) = ground arith
weight_mono pending pending' more more' e h releasing = ground arith
weight_mono pending pending' more more' e h released = ground arith

pub weights_mono :
    (c c' : Cells) (ps : List Point)
    → c'.pending_to_be_destroyed ≡ c.pending_to_be_destroyed
    → bit (busy c') ≤ bit (busy c)
    → total (weight_in c') ps ≤ total (weight_in c) ps
weights_mono c c' ps kept calmer =
    total_mono (weight_in c') (weight_in c)
      (weight_mono c.pending_to_be_destroyed c'.pending_to_be_destroyed (busy c) (busy c') kept
        calmer)
      ps

weight-le-16 : (pending more : Bool) (p : Point) → weight pending more p ≤ 16
weight-le-16 pending more counting = omega arith
weight-le-16 pending more (looping zero) = ground arith
weight-le-16 pending more (looping (suc k)) = ground arith
weight-le-16 pending more p = ground arith

pub weights-le-16 : (c : Cells) (ps : List Point) → total (weight_in c) ps ≤ 16 * length ps
weights-le-16 c [] = omega arith
weights-le-16 c (p ∷ ps) =
    omega (arith, weight-le-16 c.pending_to_be_destroyed (busy c) p, weights-le-16 c ps)

-- A move of the call at `p` that brings the actor closer to rest.
pub record Advance (budget : ℕ) (c : Cells) (p : Point) : Type 0 where
  pub cells : Cells
  pub points : List Point
  pub mv : Move budget c p cells points
  pub kept : cells.pending_to_be_destroyed ≡ c.pending_to_be_destroyed
  pub calmer : bit (busy cells) ≤ bit (busy c)
  pub closer :
      20 * length cells.mailbox + total (weight_in cells) points
      < 20 * length c.mailbox + weight_in c p

by :
    {budget : ℕ} {c c' : Cells} {p : Point} {ps : List Point}
    → Move budget c p c' ps
    → c'.pending_to_be_destroyed ≡ c.pending_to_be_destroyed
    → bit (busy c') ≤ bit (busy c)
    → 20 * length c'.mailbox + total (weight_in c') ps < 20 * length c.mailbox + weight_in c p
    → Advance budget c p
by {c'} {ps} mv kept calmer closer = record {
  cells = c';
  points = ps;
  mv = mv;
  kept = kept;
  calmer = calmer;
  closer = closer;
}

advance_loop :
    (budget : ℕ) (c : Cells) (k : ℕ) (mailbox : List ℕ)
    → c.mailbox ≡ mailbox
    → Advance budget c (looping k)
advance_loop budget c zero [] e = by (drained) refl (omega arith) (ground arith)
advance_loop budget c (suc k) [] e = by (drained) refl (omega arith) (ground arith)
advance_loop budget c zero (msg ∷ rest) e = by (pop e) refl (ground arith) (ground arith)
advance_loop budget c (suc k) (msg ∷ rest) e = by (pop e) refl (ground arith) (ground arith)

-- Every call can make such a move, but for one that would look again although nothing is to be done.
pub advance :
    (budget : ℕ) (c : Cells) (p : Point)
    → (p ≡ released → c.pending_message_count ≢ 0 → busy c ≡ true)
    → Advance budget c p
advance budget c counting h = by (count) refl (omega arith) (ground arith)
advance budget c destroying h = by (count_destroy) refl (omega arith) (ground arith)
advance budget c activating h = elim (Bool-cases c.activated) [
  | inl on ↦ by (cas_lose on) refl (omega arith) (ground arith)
  | inr off ↦ by (cas_win off) refl (omega arith) (ground arith)
]
advance budget c scheduling h = by (schedule) refl (omega arith) (ground arith)
advance budget c scheduled h = elim (Bool-cases c.user_class_instance) [
  | inl alive ↦ by (check_instance alive) refl (omega arith) (ground arith)
  | inr dead ↦ by (already_destroyed dead) refl (omega arith) (ground arith)
]
advance budget c checked h = elim (Bool-cases c.pending_to_be_destroyed) [
  | inl doomed ↦ by (see_destroy doomed) refl (omega arith) (ground arith)
  | inr wanted ↦ by (enter_loop wanted) refl (omega arith) (ground arith)
]
advance budget c resetting h = by (reset) refl (omega arith) (ground arith)
advance budget c unactivating h = by (unactivate) refl (omega arith) (ground arith)
advance budget c discounting h = by (discount) refl (omega arith) (ground arith)
advance budget c (looping k) h = advance_loop budget c k c.mailbox refl
advance budget c (executing msg k) h = elim (dec_lt (k + 1) budget) [
  | yes more ↦ by (execute more) refl (omega arith) (ground arith)
  | no last ↦ by (execute_last (omega arith)) refl (omega arith) (ground arith)
]
advance budget c (finished k) h = by (subtract) refl (omega arith) (ground arith)
advance budget c releasing h = by (release) refl (omega arith) (ground arith)
advance budget c released h = elim (Bool-cases (nat_beq c.pending_message_count 0)) [
  | inl none_counted ↦ by (leave (ground arith)) refl (omega arith) (ground arith)
  | inr some_counted ↦ by (look_again (ground arith)) refl (omega arith) (ground (arith, h refl))
]
