-- ===== src/Actor/Tally.antt =====
-- What the calls in progress on an actor hold, counted by kind.
use ncaf.Common.{ℕ, ◌+◌, ◌≤◌, ◌≡◌, refl, List, [], ◌∷◌, ◌++◌, arith}
use ncaf.Actor.{
  Point, counting, destroying, activating, checked, resetting, unactivating, discounting, looping,
  executing, finished, released,
}

-- The call holds the activation: it set `activated`, and `activated` was not stored since.
abbrev pub owns : Point → ℕ
owns counting = 0
owns destroying = 0
owns activating = 0
owns discounting = 0
owns released = 0
owns _ = 1

-- Between the null check of PullMailboxAndRun and the end of its loop, or its reset.
abbrev pub inside : Point → ℕ
inside checked = 1
inside resetting = 1
inside (looping _) = 1
inside (executing _ _) = 1
inside _ = 0

-- The call saw the flag and is about to reset the instance.
abbrev pub dooms : Point → ℕ
dooms resetting = 1
dooms _ = 0

-- The call will add one to `pending_message_count`.
abbrev pub uncounted : Point → ℕ
uncounted counting = 1
uncounted destroying = 1
uncounted _ = 0

-- Messages that the call took from the mailbox and has not subtracted.
abbrev pub taken : Point → ℕ
taken (looping k) = k
taken (executing _ k) = k + 1
taken (finished k) = k
taken _ = 0

-- The instance is reset, and the one that AsyncDestroy added is not subtracted.
abbrev pub owed : Point → ℕ
owed unactivating = 1
owed discounting = 1
owed _ = 0

-- The call will look at `activated` or at the count before it returns.
abbrev pub wakes : Point → ℕ
wakes activating = 1
wakes released = 1
wakes _ = 0

abbrev pub total : (Point → ℕ) → List Point → ℕ
total w [] = 0
total w (p ∷ ps) = w p + total w ps

pub total-append :
    (w : Point → ℕ) (xs ys : List Point) → total w (xs ++ ys) ≡ total w xs + total w ys
total-append w [] ys = omega arith
total-append w (x ∷ xs) ys = omega (arith, total-append w xs ys)

-- Messages between TryPop and the end of Execute.
abbrev pub in_flight : List Point → List ℕ
in_flight [] = []
in_flight (executing msg _ ∷ ps) = msg ∷ in_flight ps
in_flight (_ ∷ ps) = in_flight ps

pub record Tally : Type 0 where
  pub owners : ℕ
  pub insiders : ℕ
  pub doomers : ℕ
  pub uncounteds : ℕ
  pub takens : ℕ
  pub oweds : ℕ
  pub wakers : ℕ

abbrev pub tally : List Point → Tally
tally ps = record {
  owners = total owns ps;
  insiders = total inside ps;
  doomers = total dooms ps;
  uncounteds = total uncounted ps;
  takens = total taken ps;
  oweds = total owed ps;
  wakers = total wakes ps;
}

infixl 65 ◌⊕◌
abbrev pub ◌⊕◌ : Tally → Tally → Tally
a ⊕ b = record {
  owners = a.owners + b.owners;
  insiders = a.insiders + b.insiders;
  doomers = a.doomers + b.doomers;
  uncounteds = a.uncounteds + b.uncounteds;
  takens = a.takens + b.takens;
  oweds = a.oweds + b.oweds;
  wakers = a.wakers + b.wakers;
}

pub total-split :
    (w : Point → ℕ) (before ps after : List Point)
    → total w (before ++ (ps ++ after)) ≡ total w (before ++ after) + total w ps
total-split w before ps after = omega (
  arith,
  total-append w before (ps ++ after),
  total-append w ps after,
  total-append w before after,
)

-- The tally splits into that of the calls that stand still and that of the call that moves.
pub tally-split :
    (before ps after : List Point)
    → tally (before ++ (ps ++ after)) ≡ tally (before ++ after) ⊕ tally ps
tally-split before ps after = λ i. record {
  owners = total-split owns before ps after i;
  insiders = total-split inside before ps after i;
  doomers = total-split dooms before ps after i;
  uncounteds = total-split uncounted before ps after i;
  takens = total-split taken before ps after i;
  oweds = total-split owed before ps after i;
  wakers = total-split wakes before ps after i;
}

-- What is taken, and what runs, is held by an owner.
taken_needs_owner : (ps : List Point) → total owns ps ≡ 0 → total taken ps ≡ 0
taken_needs_owner [] h = refl
taken_needs_owner (counting ∷ ps) h = omega (arith, taken_needs_owner ps (omega arith))
taken_needs_owner (p ∷ ps) h = ground (arith, taken_needs_owner ps)

pub total_mono :
    (w w' : Point → ℕ) → ((p : Point) → w p ≤ w' p) → (ps : List Point) → total w ps ≤ total w' ps
total_mono w w' le [] = omega arith
total_mono w w' le (p ∷ ps) = omega (arith, le p, total_mono w w' le ps)

inside-le-owns : (p : Point) → inside p ≤ owns p
inside-le-owns counting = omega arith
inside-le-owns p = omega arith

dooms-le-inside : (p : Point) → dooms p ≤ inside p
dooms-le-inside counting = omega arith
dooms-le-inside p = omega arith

-- What holds of every tally of points.
pub record IsTally (t : Tally) : Type 0 where
  pub no_owner : t.owners ≡ 0 → t.takens ≡ 0
  pub inside_owner : t.insiders ≤ t.owners
  pub doom_inside : t.doomers ≤ t.insiders

pub tally-IsTally : (ps : List Point) → IsTally (tally ps)
tally-IsTally ps = record {
  no_owner = taken_needs_owner ps;
  inside_owner = total_mono inside owns inside-le-owns ps;
  doom_inside = total_mono dooms inside dooms-le-inside ps;
}

pub in_flight_needs_insider : (ps : List Point) → total inside ps ≡ 0 → in_flight ps ≡ []
in_flight_needs_insider [] h = refl
in_flight_needs_insider (counting ∷ ps) h = in_flight_needs_insider ps (omega arith)
in_flight_needs_insider (p ∷ ps) h = ground (arith, in_flight_needs_insider ps)
