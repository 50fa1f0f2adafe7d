-- ===== src/Logging/Dump.antt =====
-- What NCAF_DUMP_VARS prints.
use ncaf.Common.{ℕ, ◌≡◌, refl, ap, List, [], ◌∷◌, ◌++◌, false, map, nat_beq, arith}
use ncaf.Logging.{comma, before_comma, past_comma, join_vars_name_value}

abbrev pub NoComma : List ℕ → Type 0
NoComma [] = Unit {0}
NoComma (c ∷ cs) = (nat_beq c comma ≡ false) × NoComma cs

abbrev pub AllNoComma : List (List ℕ × List ℕ) → Type 0
AllNoComma [] = Unit {0}
AllNoComma ((name, value) ∷ vars) = NoComma name × AllNoComma vars

-- The arguments of the macro, as the preprocessor turns them into a text.
abbrev pub names_text : List ℕ → List (List ℕ × List ℕ) → List ℕ
names_text name [] = name
names_text name ((name', value) ∷ vars) = name ++ (comma ∷ names_text name' vars)

-- Each variable as `name=value`, with commas in between.
abbrev pub dump_text : List ℕ → List ℕ → List (List ℕ × List ℕ) → List ℕ
dump_text name value [] = name ++ (61 ∷ value)
dump_text name value ((name', value') ∷ vars) =
    name ++ (61 ∷ (value ++ (comma ∷ dump_text name' value' vars)))

before_comma_all : (name : List ℕ) → NoComma name → before_comma name ≡ name
unfolding before_comma
before_comma_all [] h = refl
before_comma_all (c ∷ cs) h = ground (arith, before_comma_all cs)

before_comma_first :
    (name rest : List ℕ) → NoComma name → before_comma (name ++ (comma ∷ rest)) ≡ name
unfolding before_comma
before_comma_first [] rest h = refl
before_comma_first (c ∷ cs) rest h = ground (arith, before_comma_first cs rest)

past_comma_first :
    (all name rest : List ℕ) → NoComma name → past_comma all (name ++ (comma ∷ rest)) ≡ rest
unfolding past_comma
past_comma_first all [] rest h = refl
past_comma_first all (c ∷ cs) rest h = ground (arith, past_comma_first all cs rest)

-- When no argument has a comma in it, NCAF_DUMP_VARS prints each argument's text with its own value.
pub join_vars_lem :
    (name value : List ℕ) (vars : List (List ℕ × List ℕ))
    → NoComma name
    → AllNoComma vars
    → join_vars_name_value (names_text name vars) value (map (λ v. v.1) vars)
      ≡ dump_text name value vars
unfolding join_vars_name_value
join_vars_lem name value [] plain all = ap (λ n. n ++ (61 ∷ value)) (before_comma_all name plain)
join_vars_lem name value ((name', value') ∷ vars) plain all =
    let rest = names_text name' vars in
    rw
      (
        before_comma_first name rest plain,
        past_comma_first (name ++ (comma ∷ rest)) name rest plain,
      )
      (ap (λ t. name ++ (61 ∷ (value ++ (comma ∷ t))))
        (join_vars_lem name' value' vars all.0 all.1))
