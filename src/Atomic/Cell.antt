-- ===== src/Atomic/Cell.antt =====
-- utils/atomic.h, class Atomic, at type int, the one type that it is used at
-- (utils/dynamic_thread_pool.h): each operator is one step under the mutex.
--
-- An int of 32 bits is the number that is 2 ^ 31 larger, so that 2147483648 stands for 0. An operator
-- gives `none` where the result is not an int: a signed overflow is not defined.
use database_concurrency_con.Prelude.{
  ℕ, ◌+◌, ◌-◌, ◌^◌, ◌≤◌, ◌≡◌, Bool, true, false, ◌&&◌, List, [], ◌∷◌, Option, none, some, arith,
  ltb, leb, Bool-cases, inl, inr, if◌then◌else◌, ◌==◌,
}

-- What stands for 0.
abbrev bias : ℕ
bias = 2 ^ 31

-- The difference of the two numbers, if it stands for an int.
int_of : ℕ → ℕ → Option ℕ
int_of plus minus =
    if leb minus plus && ltb (plus - minus) (2 ^ 32) then some (plus - minus) else none

-- `Atomic::operator++`
increment : ℕ → Option ℕ
increment value = int_of (value + 1) 0

-- `Atomic::operator+=`
add : ℕ → ℕ → Option ℕ
add x value = int_of (value + x) bias

-- `Atomic::operator--`
decrement : ℕ → Option ℕ
decrement value = int_of value 1

-- `Atomic::operator-=`
subtract : ℕ → ℕ → Option ℕ
subtract x value = int_of (value + bias) x

-- `Atomic::operator=`
unfoldable assign_value : ℕ → ℕ → ℕ
assign_value x value = x

-- `Atomic::CAS`: whether the value was changed, what `*old_value` holds after the call, and the value.
unfoldable cas : ℕ → ℕ → ℕ → Bool × ℕ × ℕ
cas old_value new_value value =
    if value == old_value then (true, old_value, new_value) else (false, value, value)

-- The calls that add to the value, each with its argument.
pub data Call : Type 0 where
  increments decrements : Call
  adds subtracts : ℕ → Call

call : Call → ℕ → Option ℕ
call increments value = increment value
call decrements value = decrement value
call (adds x) value = add x value
call (subtracts x) value = subtract x value

-- The calls of any number of threads, in the order in which these get the mutex.
pub run : List Call → ℕ → Option ℕ
run [] value = some value
run (c ∷ calls) value = elim (call c value) [ none ↦ none | some after ↦ run calls after ]

-- How much an int is above 0, and how much below.
abbrev above : ℕ → ℕ
above x = x - bias

abbrev below : ℕ → ℕ
below x = bias - x

-- How much a call adds to the value, and how much it takes away.
abbrev gain : Call → ℕ
gain increments = 1
gain decrements = 0
gain (adds x) = above x
gain (subtracts x) = below x

abbrev loss : Call → ℕ
loss increments = 0
loss decrements = 1
loss (adds x) = below x
loss (subtracts x) = above x

pub gains : List Call → ℕ
gains [] = 0
gains (c ∷ calls) = gain c + gains calls

pub losses : List Call → ℕ
losses [] = 0
losses (c ∷ calls) = loss c + losses calls

-- Whether a start, with what has been added and taken away, is an int after each of the calls.
pub stays : ℕ → ℕ → List Call → Bool
stays plus minus [] = true
stays plus minus (c ∷ calls) =
    leb (minus + loss c) (plus + gain c)
    && ltb (plus + gain c - (minus + loss c)) (2 ^ 32)
    && stays (plus + gain c) (minus + loss c) calls

call-gain :
    (c : Call) (plus minus : ℕ)
    → minus ≤ plus
    → call c (plus - minus) ≡ (
        if leb (minus + loss c) (plus + gain c) && ltb (plus + gain c - (minus + loss c)) (2 ^ 32)
        then some (plus + gain c - (minus + loss c))
        else none)
unfolding call increment decrement add subtract int_of
call-gain increments plus minus le = ground arith
call-gain decrements plus minus le = ground arith
call-gain (adds x) plus minus le = ground arith
call-gain (subtracts x) plus minus le = ground arith

run-stays :
    (calls : List Call) (plus minus : ℕ)
    → minus ≤ plus
    → run calls (plus - minus) ≡ (
        if stays plus minus calls then some (plus + gains calls - (minus + losses calls)) else none)
unfolding run stays gains losses
run-stays [] plus minus le = ground arith
run-stays (c ∷ calls) plus minus le =
    rw (run, call-gain c plus minus le)
      (elim (Bool-cases
        (leb (minus + loss c) (plus + gain c) && ltb (plus + gain c - (minus + loss c)) (2 ^ 32))) [
          | inl e ↦
              ground
                (arith, e, run-stays calls (plus + gain c) (minus + loss c) (ground (arith, e)))
          | inr e ↦ ground (arith, e)
        ])

-- Whichever threads make the calls and in whatever order these get the mutex: if no call leaves the
-- ints, the value is in the end the one at the start with all that the calls of ++ and += have added
-- and without all that the calls of -- and -= have taken away; if one does, the run is not defined.
pub run-gains :
    (calls : List Call) (value : ℕ)
    → run calls value
      ≡ (if stays value 0 calls then some (value + gains calls - losses calls) else none)
run-gains calls value = ground (arith, run-stays calls value 0 (ground arith))
