-- ===== src/Examples/Calls.antt =====
-- Task objects: a function of two numbers, and a method of one, with memory as the state.
use database_concurrency_con.Prelude.{ℕ, ◌+◌, ◌≡◌, true, false, some, none, update}
use database_concurrency_con.Task.{
  ◌>>=◌, Application, new_function, new_procedure, set_result_pointer, run,
}
use database_concurrency_con.Task
use database_concurrency_con.Task.Calls.{run-new_function}
use database_concurrency_con.Task.Methods.{
  new_method, set_method_result_pointer, run_method, run-new_method,
}
use database_concurrency_con.Task.Methods

abbrev Memory : Type 0
Memory = ℕ → ℕ

-- `*p = v`
abbrev put : ℕ → ℕ → Memory → Memory
put p v m = update m p v

abbrev adding : Application Memory ℕ ℕ ℕ ℕ ℕ ℕ
adding = Task.of_two (λ a b m. (a + b, m)) 3 4

abbrev zeros : Memory
zeros p = 0

run-new_function_example :
    ((new_function {P = ℕ} false adding 8 >>= λ t. run put false t zeros) ≡ some (put 8 7 zeros))
    × ((new_function {P = ℕ} false adding 8 >>= λ t. run put false (set_result_pointer 9 t) zeros)
        ≡ some (put 9 7 zeros))
    × ((new_procedure {P = ℕ} true adding >>= λ t. run put true t zeros) ≡ some zeros)
    × (new_function {P = ℕ} true adding 8 ≡ none)
    × (new_procedure {P = ℕ} false adding ≡ none)
run-new_function_example = run-new_function put adding 8 9 zeros

-- A method that writes its argument to the place of its object.
abbrev setting : Methods.Application Memory ℕ ℕ ℕ ℕ ℕ ℕ ℕ
setting = Methods.of_one (λ o a m. (m o, update m o a)) 6

run-new_method_example :
    (run_method put false (new_method 5 (some 8) setting) zeros ≡ some (put 8 0 (update zeros 5 6)))
    × (run_method put false (set_method_result_pointer 8 (new_method 5 none setting)) zeros
        ≡ some (put 8 0 (update zeros 5 6)))
    × (run_method put true (new_method 5 none setting) zeros ≡ some (update zeros 5 6))
    × (run_method put false (new_method 5 none setting) zeros ≡ none)
run-new_method_example = run-new_method put 5 setting 8 zeros
