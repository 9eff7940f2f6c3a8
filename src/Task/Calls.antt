-- ===== src/Task/Calls.antt =====
-- Function and Method: the call that is made is the one that was asked for.
use database_concurrency_con.Prelude.{◌≡◌, refl, true, false, none, some}
use database_concurrency_con.Task.{
  ◌>>=◌, Application, of_none, of_one, of_two, of_three, of_four, of_five, made, new_function,
  new_procedure, set_result_pointer, run_templated, call0, call1, call2, call3, call4, call5, run,
}

module _ {S R A B C D E : Type 0} where
  -- The call.
  abbrev pub meaning : Application S R A B C D E → S → R × S
  meaning (of_none f) s = f s
  meaning (of_one f a) s = f a s
  meaning (of_two f a b) s = f a b s
  meaning (of_three f a b c) s = f a b c s
  meaning (of_four f a b c d) s = f a b c d s
  meaning (of_five f a b c d e) s = f a b c d e s

-- For each number of arguments: the constructors with a pointer are for functions with a result, and those
-- without one for void functions, or an assertion fails. Run then calls the function that the
-- constructor was given, once and with the arguments that it was given, and reads no member that the
-- constructor has not set. What the call returns goes to the pointer of the constructor, or to the one
-- that SetResultPointer has set since.
pub run-new_function :
    {S R P A B C D E : Type 0} (put : P → R → S → S) (f : Application S R A B C D E) (r r' : P)
    (s : S)
    → ((new_function false f r >>= λ t. run put false t s)
        ≡ some (put r (meaning f s).0 (meaning f s).1))
      × ((new_function false f r >>= λ t. run put false (set_result_pointer r' t) s)
          ≡ some (put r' (meaning f s).0 (meaning f s).1))
      × ((new_procedure {P = P} true f >>= λ t. run put true t s) ≡ some (meaning f s).1)
      × (new_function true f r ≡ none)
      × (new_procedure {P = P} false f ≡ none)
unfolding new_function new_procedure set_result_pointer run made run_templated call0 call1 call2
    call3 call4 call5
run-new_function put (of_none f) r r' s = (refl, refl, refl, refl, refl)
run-new_function put (of_one f a) r r' s = (refl, refl, refl, refl, refl)
run-new_function put (of_two f a b) r r' s = (refl, refl, refl, refl, refl)
run-new_function put (of_three f a b c) r r' s = (refl, refl, refl, refl, refl)
run-new_function put (of_four f a b c d) r r' s = (refl, refl, refl, refl, refl)
run-new_function put (of_five f a b c d e) r r' s = (refl, refl, refl, refl, refl)
