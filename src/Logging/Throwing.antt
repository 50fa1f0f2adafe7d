-- ===== src/Logging/Throwing.antt =====
-- include/ncaf/internal/logging.h: ThrowStream and the macros that throw one. The macros' names of
-- their arguments, the file and the line are arguments; the values compared are numbers, and
-- expressions without effects: a comparing macro evaluates them again for the text.
use Prim.Native.Char.{code}
use Prim.Native.String.{String}
use ncaf.Common.{
  ℕ, ◌≤◌, ◌<◌, ◌≡◌, ◌≢◌, ◌⊎◌, inl, inr, refl, ◌∙◌, sym, List, [], ◌∷◌, ◌++◌, append-nil,
  append_assoc, Bool, true, false, not, Bool-cases, nat_beq, nat_beq_iff, leb, ltb, if◌then◌else◌,
  Option, none, some, arith,
}

-- The bytes of a text in ASCII.
abbrev pub codes : String → List ℕ
codes String.[] = []
codes (String.◌∷◌ c s) = code c ∷ codes s

pub record ThrowStream : Type 0 where
  pub ss : List ℕ
  pub what_text : List ℕ

abbrev pub new_stream : ThrowStream
new_stream = record { ss = []; what_text = [] }

-- operator<<, of what the value prints.
unfoldable pub put_text : ThrowStream → List ℕ → ThrowStream
put_text t printed = record t { ss = t.ss ++ printed }

unfoldable pub put_all : ThrowStream → List (List ℕ) → ThrowStream
unfolding put_text
put_all t [] = t
put_all t (printed ∷ more) = put_all (put_text t printed) more

-- The copy constructor.
unfoldable pub copy_stream : ThrowStream → ThrowStream
unfolding put_text
copy_stream rhs = put_text new_stream rhs.ss

-- The exception after `what()`, and what it gives.
unfoldable pub what : ThrowStream → ThrowStream × List ℕ
what t = (record t { what_text = t.ss }, t.ss)

-- `__FILE__` and `__LINE__`, printed.
pub record Location : Type 0 where
  pub file : List ℕ
  pub line : List ℕ

-- What the macros write first.
abbrev pub at_location : Location → List (List ℕ)
at_location l = l.file ∷ codes ":" ∷ l.line ∷ []

-- NCAF_THROW, NCAF_THROW_IF and NCAF_THROW_CHECK; `context` is what is written to them.
unfoldable pub throw : Location → List (List ℕ) → ThrowStream
unfolding put_all
throw l context = put_all new_stream (at_location l ++ (codes " " ∷ context))

unfoldable pub throw_if : Bool → List ℕ → Location → List (List ℕ) → Option ThrowStream
unfolding put_all
throw_if condition name l context =
    if condition
    then some (put_all new_stream (at_location l ++ (codes " `" ∷ name ∷ codes "` " ∷ context)))
    else none

unfoldable pub throw_check : Bool → List ℕ → Location → List (List ℕ) → Option ThrowStream
unfolding put_all
throw_check condition name l context =
    if not condition
    then some (
        put_all new_stream (
          at_location l
          ++ (codes " Check failed, expected `" ∷ name ∷ codes "` is true, got false. " ∷ context)))
    else none

-- NCAF_THROW_CHECK_EQ, _LE, _LT, _GE, _GT and _NE
pub data Comparison : Type 0 where
  eq_check le_check lt_check ge_check gt_check ne_check : Comparison

abbrev pub fails : Comparison → ℕ → ℕ → Bool
fails eq_check a b = not (nat_beq a b)
fails le_check a b = ltb b a
fails lt_check a b = leb b a
fails ge_check a b = ltb a b
fails gt_check a b = leb a b
fails ne_check a b = nat_beq a b

abbrev pub sign : Comparison → List ℕ
sign eq_check = codes " == "
sign le_check = codes " <= "
sign lt_check = codes " < "
sign ge_check = codes " >= "
sign gt_check = codes " > "
sign ne_check = codes " != "

abbrev pub comparison_texts :
    Comparison
    → (print : ℕ → List ℕ) (a b : ℕ) (name1 name2 : List ℕ) → Location
    → List (List ℕ)
    → List (List ℕ)
comparison_texts c print a b name1 name2 l context =
    at_location l
    ++ (codes " Check failed, expected `"
        ∷ name1
        ∷ sign c
        ∷ name2
        ∷ codes "`, got "
        ∷ print a
        ∷ codes " vs "
        ∷ print b
        ∷ codes ". "
        ∷ context)

unfoldable pub throw_check_comparison :
    Comparison
    → (print : ℕ → List ℕ) (a b : ℕ) (name1 name2 : List ℕ) → Location
    → List (List ℕ)
    → Option ThrowStream
unfolding put_all
throw_check_comparison c print a b name1 name2 l context =
    if fails c a b
    then some (put_all new_stream (comparison_texts c print a b name1 name2 l context))
    else none

-- The relation that a macro expects.
abbrev pub Holds : Comparison → ℕ → ℕ → Type 0
Holds eq_check a b = a ≡ b
Holds le_check a b = a ≤ b
Holds lt_check a b = a < b
Holds ge_check a b = b ≤ a
Holds gt_check a b = b < a
Holds ne_check a b = a ≢ b

abbrev pub concat : List (List ℕ) → List ℕ
concat [] = []
concat (xs ∷ xss) = xs ++ concat xss

put_all_lem :
    (t : ThrowStream) (texts : List (List ℕ)) → (put_all t texts).ss ≡ t.ss ++ concat texts
unfolding put_all put_text
put_all_lem t [] = sym (append-nil t.ss)
put_all_lem t (x ∷ xs) = put_all_lem (put_text t x) xs ∙ append_assoc t.ss x (concat xs)

fails_iff :
    (c : Comparison) (a b : ℕ)
    → ((fails c a b ≡ false) × Holds c a b) ⊎ ((fails c a b ≡ true) × (Holds c a b → ⊥))
fails_iff eq_check a b = elim (Bool-cases (nat_beq a b)) [
  | inl same ↦ inl (ground arith, (nat_beq_iff a b).0 same)
  | inr other ↦ inr (ground arith, λ e. ground arith)
]
fails_iff ne_check a b = elim (Bool-cases (nat_beq a b)) [
  | inl same ↦ inr (same, λ ne. ne ((nat_beq_iff a b).0 same))
  | inr other ↦ inl (other, λ e. ground arith)
]
fails_iff le_check a b = elim (Bool-cases (ltb b a)) [
  | inl less ↦ inr (less, λ h. ground arith)
  | inr other ↦ inl (other, ground arith)
]
fails_iff lt_check a b = elim (Bool-cases (leb b a)) [
  | inl less ↦ inr (less, λ h. ground arith)
  | inr other ↦ inl (other, ground arith)
]
fails_iff ge_check a b = elim (Bool-cases (ltb a b)) [
  | inl less ↦ inr (less, λ h. ground arith)
  | inr other ↦ inl (other, ground arith)
]
fails_iff gt_check a b = elim (Bool-cases (leb a b)) [
  | inl less ↦ inr (less, λ h. ground arith)
  | inr other ↦ inl (other, ground arith)
]

-- Each of the six comparing macros goes on exactly when its relation holds. Else it throws, and
-- what() of the exception, and of a copy of it, gives the place, the expected relation by the names
-- of the two values, their values, and then all that was written to it, in this order.
pub throws_exactly_when :
    (c : Comparison) (print : ℕ → List ℕ) (a b : ℕ) (name1 name2 : List ℕ) (l : Location)
    (context : List (List ℕ))
    → (Holds c a b × (throw_check_comparison c print a b name1 name2 l context ≡ none))
      ⊎ ((Holds c a b → ⊥)
          × (t : ThrowStream) × (throw_check_comparison c print a b name1 name2 l context ≡ some t)
          × ((what t).1
              ≡ l.file
                ++ (codes ":"
                    ++ (l.line
                        ++ (codes " Check failed, expected `"
                            ++ (name1
                                ++ (sign c
                                    ++ (name2
                                        ++ (codes "`, got "
                                            ++ (print a
                                                ++ (codes " vs "
                                                    ++ (print b
                                                        ++ (codes ". " ++ concat context))))))))))))
          × ((what (copy_stream t)).1 ≡ (what t).1))
unfolding throw_check_comparison what copy_stream put_text
throws_exactly_when c print a b name1 name2 l context = elim (fails_iff c a b) [
  | inl (passes, holds) ↦ inl (holds, rw passes)
  | inr (failed, not_holds) ↦
      let texts = comparison_texts c print a b name1 name2 l context in
      inr (not_holds, put_all new_stream texts, rw failed, put_all_lem new_stream texts, refl)
]
