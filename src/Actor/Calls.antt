-- ===== src/Actor/Calls.antt =====
-- include/ncaf/internal/actor.h: the message that StdExecSchedulerForActorMessageSubmission makes of
-- a call, CallActorMethodUseTuple, and the user's object, which the calls read and write. Each
-- Execute reads the object when it begins and writes it when it ends, and other calls may move
-- between the two. A nested sender is what it does until it first waits.
pub mod Sequential
use ncaf.Common.{
  ℕ, ◌<◌, ◌≡◌, List, [], ◌∷◌, ◌++◌, Bool, not, ◌&&◌, if◌then◌else◌, length, Option, none, some,
  Exception, Result, ok, err,
}
use ncaf.Actor.{Cells, Point, Move, System, executing}
use ncaf.Actor
use ncaf.Actor.Tally.{in_flight}

pub data Completion (V : Type 0) : Type 0 where
  set_value : (value : V) → Completion V
  set_error : (thrown : Exception) → Completion V
  set_stopped : Completion V

-- What CallActorMethodUseTuple puts behind the message: `then` for a method that returns a value,
-- `let_value` for one that returns a sender. The arguments are given.
pub data Method (S V : Type 0) : Type 0 where
  plain : (method : S → S × Result V) → Method S V
  nested : (method : S → S × Result (S → S × Option (Completion V))) → Method S V

pub record Submission (S V : Type 0) : Type 0 where
  pub unstoppable : Bool
  pub method : Method S V

-- The actor with its user's object. `copies` are what the calls inside Execute read. `calls` and
-- `completions` record what was executed, each with its stop token's answer, and how it ended.
pub record Object (S V : Type 0) : Type 0 where
  pub system : System
  pub user : S
  pub copies : List (ℕ × S)
  pub calls : List (ℕ × Bool)
  pub completions : List (Option (Completion V))

module _ {S V : Type 0} where
  -- None when the sender waits.
  unfoldable pub call_method : Method S V → S → S × Option (Completion V)
  call_method (plain method) object =
      let (object', result) = method object in
      elim result [
        | err e ↦ (object', some (set_error e))
        | ok value ↦ (object', some (set_value value))
      ]
  call_method (nested method) object =
      let (object', result) = method object in
      elim result [ err e ↦ (object', some (set_error e)) | ok sender ↦ sender object' ]

  -- ActorMessageSubmissionOperation::Execute
  unfoldable pub execute_submission :
      (stop_requested : Bool) → Submission S V → S → S × Option (Completion V)
  unfolding call_method
  execute_submission stop_requested m object =
      if not m.unstoppable && stop_requested
      then (object, some set_stopped)
      else call_method m.method object

  pub data Step (budget : ℕ) (submissions : ℕ → Submission S V) (s t : Object S V) : Type 0 where
    -- A step in which no Execute ends.
    stand :
        Actor.Step budget s.system t.system
        → t.system.cells.executed ≡ s.system.cells.executed
        → t.user ≡ s.user
        → t.copies ≡ s.copies
        → t.calls ≡ s.calls
        → t.completions ≡ s.completions
        → Step budget submissions s t
    enter :
        (before after : List Point) (msg k : ℕ)
        → s.system.points ≡ before ++ (executing msg k ∷ after)
        → length s.copies < length (in_flight s.system.points)
        → t.system ≡ s.system
        → t.user ≡ s.user
        → t.copies ≡ (msg, s.user) ∷ s.copies
        → t.calls ≡ s.calls
        → t.completions ≡ s.completions
        → Step budget submissions s t
    finish :
        (stop_requested : Bool) (before after : List Point) {msg k : ℕ} {ps : List Point}
        (left right : List (ℕ × S)) (read : S)
        → s.system.points ≡ before ++ (executing msg k ∷ after)
        → Move budget s.system.cells (executing msg k) t.system.cells ps
        → t.system.points ≡ before ++ (ps ++ after)
        → s.copies ≡ left ++ ((msg, read) ∷ right)
        → t.copies ≡ left ++ right
        → t.user ≡ (execute_submission stop_requested (submissions msg) read).0
        → t.calls ≡ s.calls ++ ((msg, stop_requested) ∷ [])
        → t.completions
          ≡ s.completions ++ ((execute_submission stop_requested (submissions msg) read).1 ∷ [])
        → Step budget submissions s t

  pub data Reach (budget : ℕ) (submissions : ℕ → Submission S V) (initial : S)
      : Object S V → Type 0 where
    start :
        Reach budget submissions initial (record {
          system = Actor.init;
          user = initial;
          copies = [];
          calls = [];
          completions = [];
        })
    later :
        {s t : Object S V}
        → Reach budget submissions initial s
        → Step budget submissions s t
        → Reach budget submissions initial t
