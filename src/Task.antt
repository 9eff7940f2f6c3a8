-- ===== src/Task.antt =====
-- utils/task.h: Function and Method, which are a call with its arguments, made later. What a call does
-- to the rest of the program is a function from its state to its state. A member that a constructor
-- does not set is `none`, and so is an assertion that fails, a member that is read without having been
-- set, or a null pointer that is written through.
pub mod Calls
pub mod Methods
use database_concurrency_con.Prelude.{
  ℕ, ◌≡◌, Bool, true, false, Option, none, some, if◌then◌else◌, ◌==◌,
}

infixl 5 ◌>>=◌
abbrev pub ◌>>=◌ : {A B : Type 0} → Option A → (A → Option B) → Option B
none >>= f = none
some a >>= f = f a

-- A pointer to a function, with the arguments for it.
pub data Application (S R A B C D E : Type 0) : Type 0 where
  of_none : (S → R × S) → Application S R A B C D E
  of_one : (A → S → R × S) → A → Application S R A B C D E
  of_two : (A → B → S → R × S) → A → B → Application S R A B C D E
  of_three : (A → B → C → S → R × S) → A → B → C → Application S R A B C D E
  of_four : (A → B → C → D → S → R × S) → A → B → C → D → Application S R A B C D E
  of_five : (A → B → C → D → E → S → R × S) → A → B → C → D → E → Application S R A B C D E

-- `Function`, with the pointers to results in `P`.
pub record Function (S R P A B C D E : Type 0) : Type 0 where
  pub args : ℕ
  pub result : Option P
  pub f0 : Option (S → R × S)
  pub f1 : Option (A → S → R × S)
  pub f2 : Option (A → B → S → R × S)
  pub f3 : Option (A → B → C → S → R × S)
  pub f4 : Option (A → B → C → D → S → R × S)
  pub f5 : Option (A → B → C → D → E → S → R × S)
  pub a : Option A
  pub b : Option B
  pub c : Option C
  pub d : Option D
  pub e : Option E

-- `RunTemplated::Run`, after the call: `*r = ...`, or nothing.
pub run_templated : {S R P : Type 0} → (P → R → S → S) → Bool → Option P → R × S → Option S
run_templated put is_void r (v, s) = if is_void then some s else (r >>= λ p. some (put p v s))

module _ {S R P A B C D E : Type 0} where
  abbrev blank : ℕ → Option P → Function S R P A B C D E
  blank n r = record {
    args = n;
    result = r;
    f0 = none;
    f1 = none;
    f2 = none;
    f3 = none;
    f4 = none;
    f5 = none;
    a = none;
    b = none;
    c = none;
    d = none;
    e = none;
  }

  -- What the constructors set.
  pub made : Option P → Application S R A B C D E → Function S R P A B C D E
  made r (of_none f) = record (blank 0 r) { f0 = some f }
  made r (of_one f a) = record (blank 1 r) { f1 = some f; a = some a }
  made r (of_two f a b) = record (blank 2 r) { f2 = some f; a = some a; b = some b }
  made r (of_three f a b c) = record (blank 3 r) { f3 = some f; a = some a; b = some b; c = some c }
  made r (of_four f a b c d) = record (blank 4 r) {
    f4 = some f;
    a = some a;
    b = some b;
    c = some c;
    d = some d;
  }
  made r (of_five f a b c d e) = record (blank 5 r) {
    f5 = some f;
    a = some a;
    b = some b;
    c = some c;
    d = some d;
    e = some e;
  }

  -- The constructors with a pointer for the result. `is_void` is whether `R` is void.
  pub new_function : Bool → Application S R A B C D E → P → Option (Function S R P A B C D E)
  new_function is_void f r = if is_void then none else some (made (some r) f)

  -- The constructors without one.
  pub new_procedure : Bool → Application S R A B C D E → Option (Function S R P A B C D E)
  new_procedure is_void f = if is_void then some (made none f) else none

  -- `SetResultPointer`
  pub set_result_pointer : P → Function S R P A B C D E → Function S R P A B C D E
  set_result_pointer r t = record t { result = some r }

  -- The call that the `switch` of `Function::Run` selects.
  pub call0 : Function S R P A B C D E → S → Option (R × S)
  call0 t s = t.f0 >>= λ f. some (f s)

  pub call1 : Function S R P A B C D E → S → Option (R × S)
  call1 t s = t.f1 >>= λ f. (t.a >>= λ a. some (f a s))

  pub call2 : Function S R P A B C D E → S → Option (R × S)
  call2 t s = t.f2 >>= λ f. (t.a >>= λ a. (t.b >>= λ b. some (f a b s)))

  pub call3 : Function S R P A B C D E → S → Option (R × S)
  call3 t s = t.f3 >>= λ f. (t.a >>= λ a. (t.b >>= λ b. (t.c >>= λ c. some (f a b c s))))

  pub call4 : Function S R P A B C D E → S → Option (R × S)
  call4 t s =
      t.f4 >>= λ f. (t.a >>= λ a. (t.b >>= λ b. (t.c >>= λ c. (t.d >>= λ d. some (f a b c d s)))))

  pub call5 : Function S R P A B C D E → S → Option (R × S)
  call5 t s = t.f5 >>= λ f.
      (t.a >>= λ a.
      (t.b >>= λ b. (t.c >>= λ c. (t.d >>= λ d. (t.e >>= λ e. some (f a b c d e s))))))

  -- `Function::Run`; another number of arguments calls nothing.
  unfoldable pub run : (P → R → S → S) → Bool → Function S R P A B C D E → S → Option S
  run put is_void t s =
      let finish = run_templated put is_void t.result in
      if t.args == 0
      then call0 t s >>= finish
      else if t.args == 1
      then call1 t s >>= finish
      else if t.args == 2
      then call2 t s >>= finish
      else if t.args == 3
      then call3 t s >>= finish
      else if t.args == 4
      then call4 t s >>= finish
      else if t.args == 5
      then call5 t s >>= finish
      else some s
