-- ===== src/Serial/Finish.antt =====
-- The calls that take in results and compute state roots. The squash handler that the scheduler is
-- given is a parameter: it takes the state root, the context ids, `persist` and `clean_up`, and
-- acts on a world `W` of its own (the context manager and the database).
use blockchain_node.Prelude.{
  String, Bool, true, false, not, ◌&&◌, ◌||◌, Option, none, some, List, [], ◌∷◌, ◌==◌, is_none,
  if◌then◌else◌, contains, last, reverse,
}
use blockchain_node.Python.{Result, ok, err, blocked, key_error, value_error, or_raise, ◌>>=◌}
use blockchain_node.Dict
use blockchain_node.Dict.{Dict}
use blockchain_node.Serial.Data.{TxnOutput, new_txn_result}
use blockchain_node.Serial.State.{SerialScheduler, is_complete}
use blockchain_node.Serial.Next.{put_status}

abbrev pub SquashHandler : Type 0 → Type 0
SquashHandler W = String → List String → Bool → Bool → W → Result String × W

-- a text that may be missing equals another
abbrev pub same_hash : String → Option String → Bool
same_hash h none = false
same_hash h (some k) = h == k

-- the verdict on the transaction: its result, unless there is one already
unfoldable pub record_result :
    String → Bool → Option String → TxnOutput → SerialScheduler → Result SerialScheduler
unfolding new_txn_result
record_result sig is_valid context_id out s = if Dict.has sig s.txn_results then ok s else (do
  r ←
      new_txn_result sig is_valid (if is_valid then context_id else none)
        (if is_valid then some s.previous_state_hash else none) out
  ok (record s { txn_results = Dict.insert sig r s.txn_results }))

-- the context that the next transaction builds on, or the failure of the batch
unfoldable pub record_verdict : String → Bool → Option String → SerialScheduler → SerialScheduler
record_verdict batch_id is_valid context_id s =
    if is_valid
    then record s { previous_context_id = context_id }
    else put_status batch_id false none s

-- the loop that gives the state hash to the last valid batch
unfoldable pub set_last_valid :
    List String → Option String → SerialScheduler → Result SerialScheduler
set_last_valid [] h s = ok s
set_last_valid (t_id ∷ t_ids) h s =
    let rest = set_last_valid t_ids h s in
    do
      b_id ← or_raise (Dict.get t_id s.txn_to_batch) key_error
      status ← or_raise (Dict.get b_id s.batch_statuses) key_error
      if status.is_valid then ok (put_status b_id true h s) else rest

abbrev pub answer :
    {W : Type 0}
    → Bool
    → Result (Unit {0}) × SerialScheduler × W
    → Result Bool × SerialScheduler × W
answer b (ok _, s, w) = (ok b, s, w)
answer b (err e, s, w) = (err e, s, w)
answer b (blocked, s, w) = (blocked, s, w)

-- the truth value of a context id
abbrev pub truthy : Option String → Bool
truthy none = false
truthy (some c_id) = not (c_id == "")

module _ {W : Type 0} (squash : SquashHandler W) where
  -- `_compute_merkle_root`
  unfoldable pub compute_merkle_root :
      Option String → SerialScheduler → W → Result (Option String) × W
  compute_merkle_root required s w = elim s.previous_valid_batch_c_id [
    | none ↦ (ok none, w)
    | some c_id ↦
        let first =
          squash s.previous_state_hash (c_id ∷ []) s.always_persist
            (s.always_persist || is_none required) w in
        elim first.0 [
          | err e ↦ (err e, first.1)
          | blocked ↦ (blocked, first.1)
          | ok state_hash ↦
              if s.always_persist || not (same_hash state_hash required)
              then (ok (some state_hash), first.1)
              else (let second = squash s.previous_state_hash (c_id ∷ []) true true first.1 in
                  elim second.0 [
                    | err e ↦ (err e, second.1)
                    | blocked ↦ (blocked, second.1)
                    | ok _ ↦ (ok (some state_hash), second.1)
                  ])
        ]
  ]

  -- `_calculate_state_root_if_required`
  unfoldable pub calculate_if_required :
      String → SerialScheduler → W → Result (Option String) × SerialScheduler × W
  calculate_if_required batch_id s w = elim (Dict.get batch_id s.required_state_hashes) [
    | none ↦ (ok none, s, w)
    | some required ↦
        let out = compute_merkle_root (some required) s w in
        elim out.0 [
          | err e ↦ (err e, s, out.1)
          | blocked ↦ (blocked, s, out.1)
          | ok h ↦ (ok h, record s { already_calculated = true }, out.1)
        ]
  ]

  -- the end of a batch: commit its context, or go back to that of the last valid batch
  unfoldable pub end_of_batch :
      String → SerialScheduler → W → Result (Unit {0}) × SerialScheduler × W
  end_of_batch batch_id s w =
      if Dict.has batch_id s.batch_statuses
      then (ok tt, record s { previous_context_id = s.previous_valid_batch_c_id }, w)
      else (let out =
            calculate_if_required batch_id
              (record s { previous_valid_batch_c_id = s.previous_context_id }) w in
          elim out.0 [
            | err e ↦ (err e, out.1, out.2)
            | blocked ↦ (blocked, out.1, out.2)
            | ok h ↦ (ok tt, put_status batch_id true h out.1, out.2)
          ])

  -- after the guard on the transaction in progress
  unfoldable pub take_result :
      String
      → Bool
      → Option String
      → TxnOutput
      → SerialScheduler
      → W
      → Result (Unit {0}) × SerialScheduler × W
  take_result sig is_valid context_id out s w = elim (Dict.get sig s.txn_to_batch) [
    | none ↦ (err value_error, s, w)
    | some batch_id ↦ elim (record_result sig is_valid context_id out s) [
      | err e ↦ (err e, s, w)
      | blocked ↦ (blocked, s, w)
      | ok s' ↦
          let s'' = record_verdict batch_id is_valid context_id s' in
          if contains s''.last_in_batch sig then end_of_batch batch_id s'' w else (ok tt, s'', w)
    ]
  ]

  unfoldable pub set_transaction_execution_result :
      String
      → Bool
      → Option String
      → TxnOutput
      → SerialScheduler
      → W
      → Result (Unit {0}) × SerialScheduler × W
  set_transaction_execution_result sig is_valid context_id out s w =
      if same_hash sig s.in_progress_transaction
      then take_result sig is_valid context_id out (record s { in_progress_transaction = none }) w
      else (ok tt, s, w)

  -- `_calculate_state_root_if_not_already_done`
  unfoldable pub calculate_if_not_done :
      SerialScheduler → W → Result (Unit {0}) × SerialScheduler × W
  calculate_if_not_done s w =
      if s.already_calculated then (ok tt, s, w) else elim (last s.last_in_batch) [
        | none ↦ (ok tt, s, w)
        | some t_id ↦ elim (Dict.get t_id s.txn_to_batch) [
          | none ↦ (err key_error, s, w)
          | some b_id ↦
              let out = compute_merkle_root (Dict.get b_id s.required_state_hashes) s w in
              elim out.0 [
                | err e ↦ (err e, s, out.1)
                | blocked ↦ (blocked, s, out.1)
                | ok h ↦
                    let s' = record s { already_calculated = true } in
                    elim (set_last_valid (reverse s.last_in_batch) h s') [
                      | err e ↦ (err e, s', out.1)
                      | blocked ↦ (blocked, s', out.1)
                      | ok s'' ↦ (ok tt, s'', out.1)
                    ]
              ]
        ]
      ]

  unfoldable pub complete : Bool → SerialScheduler → W → Result Bool × SerialScheduler × W
  complete block s w =
      if not s.final
      then (ok false, s, w)
      else if is_complete s
      then answer true (calculate_if_not_done s w)
      else if block
      then (blocked, s, w)
      else (ok false, s, w)

  unfoldable pub cancel : SerialScheduler → W → Result (Unit {0}) × SerialScheduler × W
  cancel s w =
      if not s.cancelled && not s.final && truthy s.previous_context_id
      then (let out =
            squash s.previous_state_hash
              (elim s.previous_context_id [ none ↦ [] | some c_id ↦ c_id ∷ [] ]) false true w in
          elim out.0 [
            | err e ↦ (err e, s, out.1)
            | blocked ↦ (blocked, s, out.1)
            | ok _ ↦ (ok tt, record s { cancelled = true }, out.1)
          ])
      else (ok tt, record s { cancelled = true }, w)
