-- ===== src/Examples/Storages.antt =====
-- The multiversion storage.
use database_concurrency_con.Prelude.{false, List, [], ◌∷◌, none, some, update}
use database_concurrency_con.MvccStorage.{MvccStorage, read}
use database_concurrency_con.MvccStorage.Visibility.{Reads, read-oldest_visible}
use database_concurrency_con.MvccStorage.Checks.{Call, reads, writes}

-- Key 1 has the initial version and one of transaction 3; key 2 has the initial one.
abbrev st : MvccStorage
st = record {
  versions =
      update
        (update (λ _. none) 2 (some (record { value = 0; max_read_id = 0; version_id = 0 } ∷ []))) 1
        (some (
          record { value = 33; max_read_id = 0; version_id = 3 }
          ∷ record { value = 0; max_read_id = 0; version_id = 0 }
          ∷ []));
  mutexes = λ _. some false;
}

read-oldest_visible_example : Reads 1 77 5 st (read 1 77 5 st)
read-oldest_visible_example = read-oldest_visible 1 77 5 st

abbrev calls : List Call
calls = writes 7 10 3 ∷ reads 7 0 9 ∷ []
