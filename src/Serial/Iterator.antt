-- ===== src/Serial/Iterator.antt =====
-- validator/sawtooth_validator/execution/scheduler.py: `SchedulerIterator` over a serial scheduler.
use blockchain_node.Prelude.{
  ℕ, suc, String, false, ◌&&◌, ◌||◌, Option, none, some, List, [], ◌∷◌, if◌then◌else◌, ltb, eqb,
}
use blockchain_node.Python.{Result, ok, err, blocked, stop_iteration}
use blockchain_node.Serial.Data.{TxnInformation}
use blockchain_node.Serial.State.{SerialScheduler, count, get_transaction, is_cancelled}
use blockchain_node.Serial.Next.{next_transaction}
use blockchain_node.Serial.Finish.{SquashHandler, complete}

-- the catch-up of `__next__`
unfoldable pub iterator_catch_up : ℕ → SerialScheduler → Result TxnInformation × ℕ
iterator_catch_up next_index s = elim (get_transaction next_index s) [
  | ok txn ↦ (ok txn, suc next_index)
  | err e ↦ (err e, next_index)
  | blocked ↦ (blocked, next_index)
]

-- what the loop of `__next__` does with an answer of `next_transaction`
unfoldable pub iterator_take :
    {W : Type 0}
    → ℕ
    → Result (Option TxnInformation) × SerialScheduler
    → W
    → Result (Option TxnInformation) × ℕ × SerialScheduler × W
iterator_take next_index (ok (some txn), s) w = (ok (some txn), suc next_index, s, w)
iterator_take next_index (ok none, s) w = (ok none, next_index, s, w)
iterator_take next_index (err e, s) w = (err e, next_index, s, w)
iterator_take next_index (blocked, s) w = (blocked, next_index, s, w)

-- what the other threads do to the scheduler, and to the world of the squash handler, from the
-- start of a wait for the condition to the time that it returns
abbrev pub Wake : Type 0 → Type 0
Wake W = SerialScheduler → W → SerialScheduler × W

module _ (dependencies : String → List String) {W : Type 0} (squash : SquashHandler W) where
  -- One pass of the loop of `__next__`. `none` means that the loop waits for the condition.
  unfoldable pub iterator_pass :
      ℕ → SerialScheduler → W → Result (Option TxnInformation) × ℕ × SerialScheduler × W
  iterator_pass next_index s w =
      let done = complete squash false s w in
      elim done.0 [
        | err e ↦ (err e, next_index, done.1, done.2)
        | blocked ↦ (blocked, next_index, done.1, done.2)
        | ok completed ↦
            if completed && eqb (count done.1) next_index || is_cancelled done.1
            then (err stop_iteration, next_index, done.1, done.2)
            else iterator_take next_index (next_transaction dependencies done.1) done.2
      ]

  -- The loop, over the waits that return. It is `blocked` in a wait after the last of them.
  unfoldable pub iterator_loop :
      ℕ → List (Wake W) → SerialScheduler → W → Result TxnInformation × ℕ × SerialScheduler × W
  iterator_loop next_index [] s w =
      let (out, next_index', s', w') = iterator_pass next_index s w in
      elim out [
        | ok (some txn) ↦ (ok txn, next_index', s', w')
        | ok none ↦ (blocked, next_index', s', w')
        | err e ↦ (err e, next_index', s', w')
        | blocked ↦ (blocked, next_index', s', w')
      ]
  iterator_loop next_index (wake ∷ wakes) s w =
      let (out, next_index', s', w') = iterator_pass next_index s w in
      elim out [
        | ok (some txn) ↦ (ok txn, next_index', s', w')
        | ok none ↦ iterator_loop next_index' wakes (wake s' w').0 (wake s' w').1
        | err e ↦ (err e, next_index', s', w')
        | blocked ↦ (blocked, next_index', s', w')
      ]

  unfoldable pub iterator_next :
      ℕ → List (Wake W) → SerialScheduler → W → Result TxnInformation × ℕ × SerialScheduler × W
  iterator_next next_index wakes s w =
      if ltb next_index (count s)
      then (let caught = iterator_catch_up next_index s in (caught.0, caught.1, s, w))
      else iterator_loop next_index wakes s w
