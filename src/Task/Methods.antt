-- ===== src/Task/Methods.antt =====
-- utils/task.h: Method, a call on an object.
use database_concurrency_con.Prelude.{
  ℕ, ◌≡◌, refl, Bool, true, false, Option, none, some, if◌then◌else◌, ◌==◌,
}
use database_concurrency_con.Task.{◌>>=◌}

-- A pointer to a method, with the arguments for it.
pub data Application (S R T A B C D E : Type 0) : Type 0 where
  of_none : (T → S → R × S) → Application S R T A B C D E
  of_one : (T → A → S → R × S) → A → Application S R T A B C D E
  of_two : (T → A → B → S → R × S) → A → B → Application S R T A B C D E
  of_three : (T → A → B → C → S → R × S) → A → B → C → Application S R T A B C D E
  of_four : (T → A → B → C → D → S → R × S) → A → B → C → D → Application S R T A B C D E
  of_five : (T → A → B → C → D → E → S → R × S) → A → B → C → D → E → Application S R T A B C D E

-- `Method`, with the pointers to results in `P` and those to objects in `T`.
pub record Method (S R P T A B C D E : Type 0) : Type 0 where
  pub args : ℕ
  pub object : T
  pub f0 : Option (T → S → R × S)
  pub f1 : Option (T → A → S → R × S)
  pub f2 : Option (T → A → B → S → R × S)
  pub f3 : Option (T → A → B → C → S → R × S)
  pub f4 : Option (T → A → B → C → D → S → R × S)
  pub f5 : Option (T → A → B → C → D → E → S → R × S)
  pub result : Option P
  pub a : Option A
  pub b : Option B
  pub c : Option C
  pub d : Option D
  pub e : Option E

-- `RunMethodTemplated::Run`, after the call: `*r = ...`, or nothing.
unfoldable run_method_templated :
    {S R P : Type 0} → (P → R → S → S) → Bool → Option P → R × S → Option S
run_method_templated put is_void r (v, s) =
    if is_void then some s else (r >>= λ p. some (put p v s))

module _ {S R P T A B C D E : Type 0} where
  abbrev blank : ℕ → T → Option P → Method S R P T A B C D E
  blank n o r = record {
    args = n;
    object = o;
    result = r;
    f0 = none;
    f1 = none;
    f2 = none;
    f3 = none;
    f4 = none;
    f5 = none;
    a = none;
    b = none;
    c = none;
    d = none;
    e = none;
  }

  -- The constructors of `Method`, with a pointer for the result or, as `none`, without.
  pub new_method : T → Option P → Application S R T A B C D E → Method S R P T A B C D E
  new_method o r (of_none f) = record (blank 0 o r) { f0 = some f }
  new_method o r (of_one f a) = record (blank 1 o r) { f1 = some f; a = some a }
  new_method o r (of_two f a b) = record (blank 2 o r) { f2 = some f; a = some a; b = some b }
  new_method o r (of_three f a b c) = record (blank 3 o r) {
    f3 = some f;
    a = some a;
    b = some b;
    c = some c;
  }
  new_method o r (of_four f a b c d) = record (blank 4 o r) {
    f4 = some f;
    a = some a;
    b = some b;
    c = some c;
    d = some d;
  }
  new_method o r (of_five f a b c d e) = record (blank 5 o r) {
    f5 = some f;
    a = some a;
    b = some b;
    c = some c;
    d = some d;
    e = some e;
  }

  -- `SetResultPointer`
  pub set_method_result_pointer : P → Method S R P T A B C D E → Method S R P T A B C D E
  set_method_result_pointer r t = record t { result = some r }

  -- The call that the `switch` of `Method::Run` selects.
  unfoldable method_call0 : Method S R P T A B C D E → S → Option (R × S)
  method_call0 t s = t.f0 >>= λ f. some (f t.object s)

  unfoldable method_call1 : Method S R P T A B C D E → S → Option (R × S)
  method_call1 t s = t.f1 >>= λ f. (t.a >>= λ a. some (f t.object a s))

  unfoldable method_call2 : Method S R P T A B C D E → S → Option (R × S)
  method_call2 t s = t.f2 >>= λ f. (t.a >>= λ a. (t.b >>= λ b. some (f t.object a b s)))

  unfoldable method_call3 : Method S R P T A B C D E → S → Option (R × S)
  method_call3 t s =
      t.f3 >>= λ f. (t.a >>= λ a. (t.b >>= λ b. (t.c >>= λ c. some (f t.object a b c s))))

  unfoldable method_call4 : Method S R P T A B C D E → S → Option (R × S)
  method_call4 t s = t.f4 >>= λ f.
      (t.a >>= λ a. (t.b >>= λ b. (t.c >>= λ c. (t.d >>= λ d. some (f t.object a b c d s)))))

  unfoldable method_call5 : Method S R P T A B C D E → S → Option (R × S)
  method_call5 t s = t.f5 >>= λ f.
      (t.a >>= λ a.
      (t.b >>= λ b. (t.c >>= λ c. (t.d >>= λ d. (t.e >>= λ e. some (f t.object a b c d e s))))))

  -- `Method::Run`; another number of arguments calls nothing.
  pub run_method : (P → R → S → S) → Bool → Method S R P T A B C D E → S → Option S
  run_method put is_void t s =
      let finish = run_method_templated put is_void t.result in
      if t.args == 0
      then method_call0 t s >>= finish
      else if t.args == 1
      then method_call1 t s >>= finish
      else if t.args == 2
      then method_call2 t s >>= finish
      else if t.args == 3
      then method_call3 t s >>= finish
      else if t.args == 4
      then method_call4 t s >>= finish
      else if t.args == 5
      then method_call5 t s >>= finish
      else some s

module _ {S R T A B C D E : Type 0} where
  -- The call of the method on the object.
  abbrev pub meaning : T → Application S R T A B C D E → S → R × S
  meaning o (of_none f) s = f o s
  meaning o (of_one f a) s = f o a s
  meaning o (of_two f a b) s = f o a b s
  meaning o (of_three f a b c) s = f o a b c s
  meaning o (of_four f a b c d) s = f o a b c d s
  meaning o (of_five f a b c d e) s = f o a b c d e s

-- Run calls the method that the constructor was given, once, on the object and with the arguments that it
-- was given, for each number of arguments, and reads no member that the constructor has not set. What
-- the call returns goes to the pointer of the constructor, or to the one that SetResultPointer has set
-- since; without a pointer it can only be a void method.
pub run-new_method :
    {S R P T A B C D E : Type 0} (put : P → R → S → S) (o : T) (f : Application S R T A B C D E)
    (r : P) (s : S)
    → (run_method put false (new_method o (some r) f) s
        ≡ some (put r (meaning o f s).0 (meaning o f s).1))
      × (run_method put false (set_method_result_pointer r (new_method o none f)) s
          ≡ some (put r (meaning o f s).0 (meaning o f s).1))
      × (run_method put true (new_method o none f) s ≡ some (meaning o f s).1)
      × (run_method put false (new_method o none f) s ≡ none)
unfolding run_method new_method set_method_result_pointer run_method_templated method_call0
    method_call1 method_call2 method_call3 method_call4 method_call5
run-new_method put o (of_none f) r s = (refl, refl, refl, refl)
run-new_method put o (of_one f a) r s = (refl, refl, refl, refl)
run-new_method put o (of_two f a b) r s = (refl, refl, refl, refl)
run-new_method put o (of_three f a b c) r s = (refl, refl, refl, refl)
run-new_method put o (of_four f a b c d) r s = (refl, refl, refl, refl)
run-new_method put o (of_five f a b c d e) r s = (refl, refl, refl, refl)
