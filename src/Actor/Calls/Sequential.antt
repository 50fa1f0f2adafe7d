-- ===== src/Actor/Calls/Sequential.antt =====
-- The calls on an actor are those of a sequential run.
use ncaf.Common.{
  ℕ, ◌+◌, ◌≤◌, ◌<◌, ◌≡◌, refl, sym, ap, ◌∙◌, subst, List, [], ◌∷◌, ◌++◌, map, map-append, Bool,
  length, length-append, nil_of_length, bit, Option, nat_eq, arith,
}
use ncaf.Actor.{
  Cells, Point, Move, size_t_mod, System, push_message, async_destroy, destroy_again, move,
  executing, count, execute, execute_last,
}
use ncaf.Actor
use ncaf.Actor.Tally.{total, inside, in_flight}
use ncaf.Actor.Invariant.{Step-pushed}
use ncaf.Actor.Delivery.{one_at_a_time, in_push_order}
use ncaf.Actor.Calls.{
  Completion, Submission, execute_submission, Object, Step, stand, enter, finish, Reach, start,
  later,
}

module _ {S V : Type 0} (submissions : ℕ → Submission S V) where
  -- The calls, one after the other, on an object.
  unfoldable pub sequential : S → List (ℕ × Bool) → S × List (Option (Completion V))
  sequential object [] = (object, [])
  sequential object ((msg, stop_requested) ∷ calls) =
      let (object', completion) = execute_submission stop_requested (submissions msg) object in
      let (object'', completions) = sequential object' calls in (object'', completion ∷ completions)

  sequential-append :
      (object : S) (calls : List (ℕ × Bool)) (msg : ℕ) (stop_requested : Bool)
      → let (user, completions) = sequential object calls in
        let (user', completion) = execute_submission stop_requested (submissions msg) user in
        sequential object (calls ++ ((msg, stop_requested) ∷ []))
        ≡ (user', completions ++ (completion ∷ []))
  unfolding sequential
  sequential-append object [] msg stop_requested = refl
  sequential-append object ((m, b) ∷ calls) msg stop_requested =
      ap (λ r. (r.0, (execute_submission b (submissions m) object).1 ∷ r.1))
        (sequential-append (execute_submission b (submissions m) object).0 calls msg stop_requested)

in_flight-append :
    (xs ys : List Point)
    → length (in_flight (xs ++ ys)) ≡ length (in_flight xs) + length (in_flight ys)
in_flight-append [] ys = omega arith
in_flight-append (executing msg k ∷ xs) ys = omega (arith, in_flight-append xs ys)
in_flight-append (p ∷ xs) ys = in_flight-append xs ys

in_flight-le-inside : (ps : List Point) → length (in_flight ps) ≤ total inside ps
in_flight-le-inside [] = omega arith
in_flight-le-inside (executing msg k ∷ ps) = omega (arith, in_flight-le-inside ps)
in_flight-le-inside (p ∷ ps) = omega (arith, in_flight-le-inside ps)

bit-le-1 : (b : Bool) → bit b ≤ 1
bit-le-1 b = ground arith

one_in_flight :
    {budget : ℕ} {s : System}
    → length s.cells.pushed + 1 < size_t_mod
    → Actor.Reach budget s
    → length (in_flight s.points) ≤ 1
one_in_flight {s} small r = omega (
  arith,
  one_at_a_time small r,
  in_flight-le-inside s.points,
  bit-le-1 s.cells.user_class_instance,
)

longer : (xs : List ℕ) (x : ℕ) → xs ++ (x ∷ []) ≡ xs → ⊥
longer xs x h = omega (arith, ap length h, length-append xs (x ∷ []))

Move-in_flight :
    {budget : ℕ} {c c' : Cells} {p : Point} {ps : List Point}
    → Move budget c p c' ps
    → c'.executed ≡ c.executed
    → length (in_flight (p ∷ [])) ≤ length (in_flight ps)
Move-in_flight count same = omega arith
Move-in_flight {c} (execute {msg} lt) same = absurd (longer c.executed msg same)
Move-in_flight {c} (execute_last {msg} le) same = absurd (longer c.executed msg same)
Move-in_flight mv same = omega arith

Step-in_flight :
    {budget : ℕ} {s t : System}
    → Actor.Step budget s t
    → t.cells.executed ≡ s.cells.executed
    → length (in_flight s.points) ≤ length (in_flight t.points)
Step-in_flight (push_message msg c p) same = rw p (omega arith)
Step-in_flight (async_destroy e c p) same = rw p (omega arith)
Step-in_flight (destroy_again e is) same = rw is (omega arith)
Step-in_flight (move before after {p} {ps} from mv to) same =
    rw (from, to)
      (omega (
        arith,
        Move-in_flight mv same,
        in_flight-append before (p ∷ after),
        in_flight-append (p ∷ []) after,
        in_flight-append before (ps ++ after),
        in_flight-append ps after,
      ))

Move-executes :
    {budget : ℕ} {c c' : Cells} {msg k : ℕ} {ps : List Point}
    → Move budget c (executing msg k) c' ps
    → c'.executed ≡ c.executed ++ (msg ∷ [])
Move-executes (execute lt) = refl
Move-executes (execute_last le) = refl

module _ {S : Type 0} where
  -- What the calls inside Execute read is the object as it is.
  AllAre : S → List (ℕ × S) → Type 0
  AllAre user [] = Unit {0}
  AllAre user ((msg, read) ∷ copies) = (read ≡ user) × AllAre user copies

  AllAre-at :
      (user : S) (left right : List (ℕ × S)) (msg : ℕ) (read : S)
      → AllAre user (left ++ ((msg, read) ∷ right))
      → read ≡ user
  unfolding AllAre
  AllAre-at user [] right msg read h = h.0
  AllAre-at user (x ∷ left) right msg read h = AllAre-at user left right msg read h.1

module _ {S V : Type 0} where
  module _ (budget : ℕ) (submissions : ℕ → Submission S V) (initial : S) where
    record Sequenced (s : Object S V) : Type 0 where
      reached : Actor.Reach budget s.system
      ran : map (λ call. call.0) s.calls ≡ s.system.cells.executed
      served : sequential submissions initial s.calls ≡ (s.user, s.completions)
      copied : length s.copies ≤ length (in_flight s.system.points)
      same : AllAre s.user s.copies

    Step-still_small :
        {s t : Object S V}
        → Step budget submissions s t
        → length s.system.cells.pushed ≤ length t.system.cells.pushed
    Step-still_small (stand st e u cs ca co) = Step-pushed st
    Step-still_small (enter before after msg k from room y u cs ca co) = rw y (omega arith)
    Step-still_small (finish stop_requested before after left right read from mv to c c' u ca co) =
        Step-pushed (move before after from mv to)

    Step-Sequenced :
        {s t : Object S V}
        → length s.system.cells.pushed + 1 < size_t_mod
        → Step budget submissions s t
        → Sequenced s
        → Sequenced t
    unfolding AllAre
    Step-Sequenced {s} {t} small (stand st e u cs ca co) v = record {
      reached = Actor.later v.reached st;
      ran = rw (ca, e) v.ran;
      served = rw (ca, u, co) v.served;
      copied = rw cs (omega (arith, v.copied, Step-in_flight st e));
      same = rw (u, cs) v.same;
    }
    Step-Sequenced {s} {t} small (enter before after msg k from room y u cs ca co) v = record {
      reached = rw y v.reached;
      ran = rw (ca, y) v.ran;
      served = rw (ca, u, co) v.served;
      copied = rw (cs, y) (omega (arith, room));
      same = rw (u, cs) (refl, v.same);
    }
    Step-Sequenced {s} {t} small
          (finish stop_requested before after {msg} left right read from mv to c c' u ca co) v =
        let st = move before after from mv to in
        let read_user = AllAre-at s.user left right msg read (subst (AllAre s.user) c v.same) in
        let none_left = nil_of_length (left ++ right) (
          omega (
            arith,
            v.copied,
            one_in_flight small v.reached,
            ap length c,
            length-append left ((msg, read) ∷ right),
            length-append left right,
          )) in
        record {
          reached = Actor.later v.reached st;
          ran =
              ap (map (λ call. call.0)) ca
              ∙ map-append (λ call. call.0) s.calls ((msg, stop_requested) ∷ [])
              ∙ ap (λ l. l ++ (msg ∷ [])) v.ran
              ∙ sym (Move-executes mv);
          served =
              ap (sequential submissions initial) ca
              ∙ sequential-append submissions initial s.calls msg stop_requested
              ∙ ap
                  (λ r. (
                    (execute_submission stop_requested (submissions msg) r.0).0,
                    r.1 ++ ((execute_submission stop_requested (submissions msg) r.0).1 ∷ []),
                  ))
                  v.served
              ∙ ap
                  (λ o. (
                    (execute_submission stop_requested (submissions msg) o).0,
                    s.completions
                        ++ ((execute_submission stop_requested (submissions msg) o).1 ∷ []),
                  ))
                  (sym read_user)
              ∙ (λ i. (sym u i, sym co i));
          copied = rw (c', none_left) (omega arith);
          same = rw (c', none_left) tt;
        }

    Reach-Sequenced :
        {s : Object S V}
        → length s.system.cells.pushed + 1 < size_t_mod
        → Reach budget submissions initial s
        → Sequenced s
    unfolding sequential AllAre
    Reach-Sequenced small start = record {
      reached = Actor.start;
      ran = refl;
      served = refl;
      copied = omega arith;
      same = tt;
    }
    Reach-Sequenced small (later {s} r st) =
        let fewer : length s.system.cells.pushed + 1 < size_t_mod =
          omega (arith, Step-still_small st, small) in
        Step-Sequenced fewer st (Reach-Sequenced fewer r)

    -- In every reachable state of an actor and its user's object, where a call reads the object when
    -- its Execute begins and writes it when that ends, while other calls may move, and while fewer
    -- than 2^64 - 1 messages were pushed: the object and the completions of the calls are those of
    -- the executed calls made one after the other, and these are, in the order of the pushes, all
    -- but the message being executed and those in the mailbox.
    pub calls_in_sequence :
        {s : Object S V}
        → length s.system.cells.pushed + 1 < size_t_mod
        → Reach budget submissions initial s
        → (sequential submissions initial s.calls ≡ (s.user, s.completions))
          × (map (λ call. call.0) s.calls ++ (in_flight s.system.points ++ s.system.cells.mailbox)
              ≡ s.system.cells.pushed)
    calls_in_sequence {s} small r =
        let v = Reach-Sequenced small r in
        (
          v.served,
          ap (λ l. l ++ (in_flight s.system.points ++ s.system.cells.mailbox)) v.ran
              ∙ in_push_order small v.reached,
        )
