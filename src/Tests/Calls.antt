-- ===== src/Tests/Calls.antt =====
-- The theorems on the order of calls, applied to two calls of one sender whose handlers start in the
-- wrong order.
use sysc_notify.Base.{ℕ, ◌≡◌, refl, true, List, [], ◌∷◌, ◌++◌, some, codes, arith}
use sysc_notify.Fdo.Order.{
  Message, notify_signature, new_bus, Step, arrives, enters, wakes, ends, run, inside,
}
use sysc_notify.Fdo.Order.Turns.{log, no_calls}
use sysc_notify.Fdo.Order.Fair.{turn-first, first-enters}

abbrev notifies : ℕ → Message
notifies id = record {
  method_call = true;
  path = some (codes "/org/freedesktop/Notifications");
  interface = some (codes "org.freedesktop.Notifications");
  member = codes "Notify";
  signature = notify_signature;
  sender = some 5;
}

abbrev crossed : List Step
crossed = arrives 1 ∷ arrives 2 ∷ enters 2 ∷ enters 1 ∷ []

turn-first_example :
    (rest : List ℕ) × ((log notifies crossed new_bus no_calls).arrived 5
      ≡ (log notifies crossed new_bus no_calls).finished 5 ++ 1 ∷ rest)
unfolding run new_bus
turn-first_example = turn-first notifies crossed 1 0 5 (omega arith) refl refl refl

-- The second call went to sleep before the first one entered, which is over.
abbrev woken : List Step
woken = arrives 1 ∷ arrives 2 ∷ enters 2 ∷ enters 1 ∷ ends 1 ∷ []

first-enters_example :
    (t : ℕ) × ((run notifies (enters 2 ∷ wakes 2 ∷ []) (run notifies woken new_bus)).call 2
      ≡ inside t)
unfolding run new_bus
first-enters_example = first-enters notifies woken 2 5 [] (omega arith) refl refl
