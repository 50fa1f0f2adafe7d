-- ===== src/Actor/Order.antt =====
-- The order in which an actor executes the messages that are pushed.
use ncaf.Common.{
  ℕ, ◌+◌, ◌≤◌, ◌<◌, ◌≡◌, refl, ap, List, [], ◌∷◌, ◌++◌, append_assoc, length, length-append, arith,
}
use ncaf.Actor.{
  Cells, Point, Move, size_t_mod, System, Step, push_message, async_destroy, destroy_again, move,
  Reach, start, later, count, pop, execute, execute_last,
}
use ncaf.Actor.Tally.{tally, total-append, inside, in_flight, in_flight_needs_insider}
use ncaf.Actor.Invariant.{Inv, Step-Inv, Step-pushed, init-Inv}

-- What was executed, what is being executed and what waits, in this order, is what was pushed.
abbrev pub InOrder : System → Type 0
InOrder s = s.cells.executed ++ (in_flight s.points ++ s.cells.mailbox) ≡ s.cells.pushed

in_flight-append : (xs ys : List Point) → in_flight (xs ++ ys) ≡ in_flight xs ++ in_flight ys
in_flight-append [] ys = refl
in_flight-append (Point.counting ∷ xs) ys = in_flight-append xs ys
in_flight-append (Point.executing msg k ∷ xs) ys = ap (◌∷◌ msg) (in_flight-append xs ys)
in_flight-append (p ∷ xs) ys = in_flight-append xs ys

in_flight-split :
    (before ps after : List Point)
    → in_flight (before ++ (ps ++ after)) ≡ in_flight before ++ (in_flight ps ++ in_flight after)
in_flight-split before ps after =
    rw (in_flight-append before (ps ++ after), in_flight-append ps after)

-- `a` and `b` are in flight in the calls that stand still.
Move-order :
    {budget : ℕ} {c c' : Cells} {p : Point} {ps : List Point} (a b : List ℕ)
    → Move budget c p c' ps
    → (inside p ≡ 1 → (a ≡ []) × (b ≡ []))
    → c.executed ++ ((a ++ (in_flight (p ∷ []) ++ b)) ++ c.mailbox) ≡ c.pushed
    → c'.executed ++ ((a ++ (in_flight ps ++ b)) ++ c'.mailbox) ≡ c'.pushed
Move-order a b count alone h = h
Move-order {c} a b (pop {msg} {rest} e) alone h = ground (arith, alone refl)
Move-order {c} a b (execute {msg} lt) alone h =
    let (ea, eb) = alone refl in
    rw (ea, eb, append_assoc c.executed (msg ∷ []) c.mailbox) (rw (ea, eb) at h)
Move-order {c} a b (execute_last {msg} le) alone h =
    let (ea, eb) = alone refl in
    rw (ea, eb, append_assoc c.executed (msg ∷ []) c.mailbox) (rw (ea, eb) at h)
Move-order a b mv alone h = h

-- A call inside the loop is the only one.
alone :
    (c : Cells) (before after : List Point) (p : Point)
    → Inv c (tally (before ++ (p ∷ after)))
    → inside p ≡ 1
    → (in_flight before ≡ []) × (in_flight after ≡ [])
alone c before after p v one = (
  in_flight_needs_insider before (ground (arith, total-append inside before (p ∷ after))),
  in_flight_needs_insider after (ground (arith, total-append inside before (p ∷ after))),
)

push-order :
    (xs ys zs : List ℕ) (msg : ℕ) (ws : List ℕ)
    → xs ++ (ys ++ zs) ≡ ws
    → xs ++ (ys ++ (zs ++ (msg ∷ []))) ≡ ws ++ (msg ∷ [])
push-order xs ys zs msg ws h = rw (← h) (simp append_assoc)

Step-InOrder :
    {budget : ℕ} {s t : System}
    → Inv s.cells (tally s.points)
    → Step budget s t
    → InOrder s
    → InOrder t
Step-InOrder {s} v (push_message msg c p) h =
    rw (c, p) (push-order s.cells.executed (in_flight s.points) s.cells.mailbox msg _ h)
Step-InOrder v (async_destroy e c p) h = rw (c, p) h
Step-InOrder v (destroy_again e same) h = rw same h
Step-InOrder {s} {t} v (move before after {p} {ps} from mv to) h =
    rw (to, in_flight-split before ps after)
      (Move-order (in_flight before) (in_flight after) mv
        (alone s.cells before after p (rw (← from) v))
        (rw (← in_flight-split before (p ∷ []) after) (rw (← from) h)))

pub mailbox-le-pushed : (s : System) → InOrder s → length s.cells.mailbox ≤ length s.cells.pushed
mailbox-le-pushed s h = omega (
  arith,
  ap length h,
  length-append s.cells.executed (in_flight s.points ++ s.cells.mailbox),
  length-append (in_flight s.points) s.cells.mailbox,
)

pub record Sound (s : System) : Type 0 where
  pub inv : Inv s.cells (tally s.points)
  pub in_order : InOrder s

Step-Sound :
    {budget : ℕ} {s t : System}
    → length t.cells.pushed + 1 < size_t_mod
    → Step budget s t
    → Sound s
    → Sound t
Step-Sound {s} small st v = record {
  inv = Step-Inv (omega (arith, mailbox-le-pushed s v.in_order, Step-pushed st)) st v.inv;
  in_order = Step-InOrder v.inv st v.in_order;
}

pub Reach-Sound :
    {budget : ℕ} {s : System} → length s.cells.pushed + 1 < size_t_mod → Reach budget s → Sound s
Reach-Sound small start = record { inv = init-Inv; in_order = refl }
Reach-Sound small (later r st) = Step-Sound small st (Reach-Sound (omega (arith, Step-pushed st)) r)
