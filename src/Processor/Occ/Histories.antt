-- ===== src/Processor/Occ/Histories.antt =====
-- The optimistic scheduler: the transactions that commit are serializable, in the order in which they
-- commit.
use database_concurrency_con.Prelude.{All, ℕ, List, [], ◌∷◌}
use database_concurrency_con.Processor.Execution.Afresh.{Ready, RunsAfresh, Ready-RunsAfresh}
use database_concurrency_con.TxnTypes.{Object}
use database_concurrency_con.Storage.{Storage}
use database_concurrency_con.Processor.Serializability.{Entry, IsSerial}
use database_concurrency_con.Processor.Occ.System.{System, start_state, Reach, here, next}
use database_concurrency_con.Processor.Occ.Progress.{IsIncreasing}
use database_concurrency_con.Processor.Occ.Preservation.{reach-Inv}
use database_concurrency_con.Processor.Occ.Provenance.{Originate, Origins, Step-Origins}

All-RunsAfresh :
    (log : List Entry)
    → All (λ e. Ready e.logic e.before) log
    → All (λ e. RunsAfresh e.start e.logic e.before e.ran) log
All-RunsAfresh [] h = tt
All-RunsAfresh (e ∷ log) h =
    (Ready-RunsAfresh e.start e.logic e.before e.ran h.0, All-RunsAfresh log h.1)

-- In the mode OCC, with a clock each reading of which is later than those before it, whatever the
-- clients, the scheduler and the threads of the pool do and in whatever order: the database is at
-- any moment what the committed transactions give when they run one after the other, each alone, in
-- the order of their commits. Each runs alone from what it was when it was last begun. That has the
-- sets that the client handed in and, if the transaction was never restarted, also the reads and the
-- writes that the client handed in. If it was, it may have reads and pending writes that failed runs
-- have left, since the code does not clear them: these change nothing where each of the keys of the
-- transaction has a value, since it then ends with the status and with the writes with which it ends
-- without them. Where a key has no value a read that was left over may be used, and the order need not
-- be a serial one of what the clients handed in.
pub occ-IsSerial :
    {times : ℕ → ℕ} {objects : ℕ → Object} {ticks : ℕ} {st : Storage} {s : System}
    → IsIncreasing times
    → Reach times (start_state objects ticks st) s
    → IsSerial st.values s.log s.storage.values
      × Originate s.log s.origins
      × All (λ e. RunsAfresh e.start e.logic e.before e.ran) s.log
occ-IsSerial {times} {objects} {ticks} {st} up r =
    ((reach-Inv up r).serial, (go r).past, All-RunsAfresh _ (go r).ready)
  where
    go : {s : System} → Reach times (start_state objects ticks st) s → Origins s
    go here = record { each = λ t. (tt, tt); past = tt; ready = tt }
    go (next r step) =
        let inv = reach-Inv up r in Step-Origins times inv.waiting inv.asked step (go r)
