-- ===== src/Actor/Rest.antt =====
-- include/ncaf/internal/actor.h: the calls in progress on an actor can always be run to their ends.
use ncaf.Common.{
  ℕ, zero, suc, ◌+◌, ◌*◌, ◌≤◌, ◌<◌, ◌≡◌, ◌≢◌, ◌⊎◌, inl, inr, refl, ap, subst, false, ◌∙◌, true,
  false, List, [], ◌∷◌, ◌++◌, length, Bool-cases, arith,
}
use ncaf.Actor.{
  Cells, Point, Move, size_t_mod, System, move, Reach, later, count, counting, released,
}
use ncaf.Actor.Tally.{tally, total, total-split, uncounted, taken, owed}
use ncaf.Actor.Invariant.{Inv, Move-pushed}
use ncaf.Actor.Delivery.{none_left_behind}
use ncaf.Actor.Order.{Reach-Sound}
use ncaf.Actor.Progress.{busy, weight_in, Advance, advance, weights_mono, weights-le-16}

-- A step of a call in progress; no call is made.
pub data Moves (budget : ℕ) : System → System → Type 0 where
  stay : {s : System} → Moves budget s s
  goes :
      {s t u : System} (before after : List Point) {p : Point} {ps : List Point}
      → s.points ≡ before ++ (p ∷ after)
      → Move budget s.cells p t.cells ps
      → t.points ≡ before ++ (ps ++ after)
      → Moves budget t u
      → Moves budget s u

abbrev pub steps : {budget : ℕ} {s t : System} → Moves budget s t → ℕ
steps stay = 0
steps (goes before after from mv to r) = suc (steps r)

Reach-Moves : {budget : ℕ} {s t : System} → Reach budget s → Moves budget s t → Reach budget t
Reach-Moves r stay = r
Reach-Moves r (goes before after from mv to more) =
    Reach-Moves (later r (move before after from mv to)) more

abbrev pub distance : System → ℕ
distance s = 20 * length s.cells.mailbox + total (weight_in s.cells) s.points

-- A step that leads closer to rest.
record Closer (budget : ℕ) (s : System) : Type 0 where
  t : System
  before : List Point
  after : List Point
  p : Point
  ps : List Point
  from : s.points ≡ before ++ (p ∷ after)
  mv : Move budget s.cells p t.cells ps
  to : t.points ≡ before ++ (ps ++ after)
  nearer : distance t < distance s

Closer-at :
    {budget : ℕ} (s : System) (before after : List Point) (p : Point)
    → s.points ≡ before ++ (p ∷ after)
    → Advance budget s.cells p
    → Closer budget s
Closer-at s before after p from a = record {
  t = record { cells = a.cells; points = before ++ (a.points ++ after) };
  before = before;
  after = after;
  p = p;
  ps = a.points;
  from = from;
  mv = a.mv;
  to = refl;
  nearer = rw from (
      omega (
        arith,
        a.closer,
        total-split (weight_in s.cells) before (p ∷ []) after,
        total-split (weight_in a.cells) before a.points after,
        weights_mono s.cells a.cells (before ++ after) a.kept a.calmer,
      ));
}

abbrev AllReleased : List Point → Type 0
AllReleased [] = Unit {0}
AllReleased (p ∷ ps) = (p ≡ released) × AllReleased ps

-- A call that is not about to look at the count again.
record Other (ps : List Point) : Type 0 where
  before : List Point
  p : Point
  after : List Point
  at : ps ≡ before ++ (p ∷ after)
  other : p ≢ released

is_released : (p : Point) → (p ≡ released) ⊎ (p ≢ released)
is_released released = inl refl
is_released counting = inr (λ e. cc)
is_released p = inr (λ e. cc)

find-Other : (ps : List Point) → AllReleased ps ⊎ Other ps
find-Other [] = inl tt
find-Other (p ∷ ps) = elim (is_released p) [
  | inr other ↦ inr (record { before = []; p = p; after = ps; at = refl; other = other })
  | inl same ↦ elim (find-Other ps) [
    | inl all ↦ inl (same, all)
    | inr o ↦ inr (record {
      before = p ∷ o.before;
      p = o.p;
      after = o.after;
      at = ap (◌∷◌ p) o.at;
      other = o.other;
    })
  ]
]

released_hold_nothing :
    (ps : List Point)
    → AllReleased ps
    → (total uncounted ps ≡ 0) × (total taken ps ≡ 0) × (total owed ps ≡ 0)
released_hold_nothing [] all = omega arith
released_hold_nothing (p ∷ ps) (e, all) =
    let (a, b, c) = released_hold_nothing ps all in
    rw e (omega (arith, a), omega (arith, b), omega (arith, c))

-- With every call about to look at the count, a count that is not 0 is one of messages that wait or
-- of a destruction.
counted_is_busy :
    (c : Cells) (ps : List Point)
    → Inv c (tally ps)
    → AllReleased ps
    → c.pending_message_count ≢ 0
    → busy c ≡ true
counted_is_busy c ps v all some_counted =
    let (a, b, d) = released_hold_nothing ps all in ground arith

closer :
    (budget : ℕ) (s : System) (p : Point) (ps : List Point)
    → s.points ≡ p ∷ ps
    → Inv s.cells (tally s.points)
    → Closer budget s
closer budget s p ps e v = elim (find-Other s.points) [
  | inr o ↦
      Closer-at s o.before o.after o.p o.at
        (advance budget s.cells o.p (λ same. absurd (o.other same)))
  | inl all ↦
      Closer-at s [] ps p e
        (advance budget s.cells p (λ same. counted_is_busy s.cells s.points v all))
]

-- Where a run from `s` comes to rest.
record Rests (budget : ℕ) (s : System) : Type 0 where
  t : System
  run : Moves budget s t
  soon : steps run ≤ distance s
  quiet : t.points ≡ []
  same : t.cells.pushed ≡ s.cells.pushed

Rests-within :
    (budget fuel : ℕ) (s : System) (points : List Point)
    → s.points ≡ points
    → length s.cells.pushed + 1 < size_t_mod
    → Reach budget s
    → distance s < fuel
    → Rests budget s
Rests-within budget zero s points e small r h = absurd (omega arith)
Rests-within budget (suc fuel) s [] e small r h = record {
  t = s;
  run = stay;
  soon = omega arith;
  quiet = e;
  same = refl;
}
Rests-within budget (suc fuel) s (p ∷ ps) e small r h =
    let c = closer budget s p ps e (Reach-Sound small r).inv in
    let pushed = Move-pushed c.mv in
    let more =
      Rests-within budget fuel c.t c.t.points refl (rw pushed small)
        (later r (move c.before c.after c.from c.mv c.to)) (omega (arith, c.nearer)) in
    record {
      t = more.t;
      run = goes c.before c.after c.from c.mv c.to more.run;
      soon = omega (arith, c.nearer, more.soon);
      quiet = more.quiet;
      same = more.same ∙ pushed;
    }

Move-pending :
    {budget : ℕ} {c c' : Cells} {p : Point} {ps : List Point}
    → Move budget c p c' ps
    → c'.pending_to_be_destroyed ≡ c.pending_to_be_destroyed
Move-pending count = refl
Move-pending mv = refl

Moves-pending :
    {budget : ℕ} {s t : System}
    → Moves budget s t
    → t.cells.pending_to_be_destroyed ≡ s.cells.pending_to_be_destroyed
Moves-pending stay = refl
Moves-pending (goes before after from mv to more) = Moves-pending more ∙ Move-pending mv

unasked_live :
    (c : Cells)
    → Inv c (tally [])
    → c.pending_to_be_destroyed ≡ false
    → c.user_class_instance ≡ true
unasked_live c v kept = ground arith

-- From every reachable state, with fewer than 2^64 - 1 messages pushed and atomic accesses in one
-- order, the calls in progress can be run to their ends with no further call, in at most 20 steps for
-- each message in the mailbox and 16 for each call. Then, if AsyncDestroy was not called, the
-- instance is there and all messages have been executed, in the order of their pushes; if it was
-- called, the instance is not there, and messages that were waiting may have been dropped.
pub comes_to_rest :
    {budget : ℕ} {s : System}
    → length s.cells.pushed + 1 < size_t_mod
    → Reach budget s
    → (t : System) × (r : Moves budget s t) × (steps r
        ≤ 20 * length s.cells.mailbox + 16 * length s.points)
      × (t.points ≡ [])
      × (t.cells.user_class_instance ≡ true → t.cells.executed ≡ s.cells.pushed)
      × (s.cells.pending_to_be_destroyed ≡ false → t.cells.user_class_instance ≡ true)
      × (s.cells.pending_to_be_destroyed ≡ true → t.cells.user_class_instance ≡ false)
comes_to_rest {budget} {s} small r =
    let o = Rests-within budget (suc (distance s)) s s.points refl small r (omega arith) in
    let few : length o.t.cells.pushed + 1 < size_t_mod = rw o.same small in
    let there = Reach-Moves r o.run in
    (
      o.t,
      o.run,
      omega (arith, o.soon, weights-le-16 s.cells s.points),
      o.quiet,
      λ alive. (none_left_behind few there o.quiet alive).0 ∙ o.same,
      λ kept.
          unasked_live o.t.cells
            (subst (λ ps. Inv o.t.cells (tally ps)) o.quiet (Reach-Sound few there).inv)
            (Moves-pending o.run ∙ kept),
      λ asked. elim (Bool-cases o.t.cells.user_class_instance) [
        | inr gone ↦ gone
        | inl alive ↦
            absurd
              (ground (arith, (none_left_behind few there o.quiet alive).1, Moves-pending o.run))
      ],
    )
