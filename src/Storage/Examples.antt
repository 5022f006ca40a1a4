-- ===== src/Storage/Examples.antt =====
-- Runs of the repository on one stored key, and the guarantees at these inputs.
use transeuroogs_kms.Common.{
  ℕ, ◌≡◌, refl, ◌⊎◌, true, some, List, [], ◌∷◌, ◌++◌, arith, text_eq, text_eq_instance, All,
  Distinct, if◌then◌else◌, leb, map, contains,
}
use transeuroogs_kms.Common.Dict.{lookup, insert, adjust, erase}
use transeuroogs_kms.Core.Errors.{ok, err, unavailable}
use transeuroogs_kms.Core.Id.{KeyId, valid_id}
use transeuroogs_kms.Core.Key.{
  consumed, terminal, valid_association, validate, association_eq, association_eq_instance,
  state_eq, valid_name,
}
use transeuroogs_kms.Core.Batch.{distinct_batch}
use transeuroogs_kms.Storage.{
  Memory, Entry, Held, store_key, reserve_keys, consume_reservation, consume_peer_keys,
  invalidate_key, inventory, scan, adjust_each, expire, offers, check_reserved, check_peer, deliver,
  consume_master, consume_slave, reserve_entry, new_entry,
}
use transeuroogs_kms.Core.Token.{fresh_token}
use transeuroogs_kms.Storage.Stocked.{
  id_1, token_1, pair_1, repeat, key_1, empty, empty-Inv, stocked, stocked-Inv, pair_valid, drawn_1,
  stock_1, lives_1,
}
use transeuroogs_kms.Storage.Invariant.{Inv}
use transeuroogs_kms.Storage.Loops.{delivery_at}
use transeuroogs_kms.Storage.Outcomes.{Refused, ServesMaster, ServesSlave}
use transeuroogs_kms.Storage.Reserve.{picks}
use transeuroogs_kms.Storage.Tokens.{fresh_token-enough}
use transeuroogs_kms.Storage.Offers.{reserve_keys-inventory}
use transeuroogs_kms.Storage.Consume.{consume_reservation_cases, consume_peer_keys_cases}
use transeuroogs_kms.Storage.Progress.{Progress}
use transeuroogs_kms.Storage.Trace.{
  Call, reserve, consume, consume_peer, step, run, to_master, to_slave, handed, ids_of,
  run-Progress,
}
use transeuroogs_kms.Storage.Once.{handed_once}
use transeuroogs_kms.Storage.Agreement.{handed-store_key}
use transeuroogs_kms.Storage.Guarantees.{
  consume_reservation-reserve_keys, to_slave_after_master, run-invalidate_key,
}

-- Reserve, deliver to both applications, and try again.
abbrev day : List (ℕ × Call)
day =
    (3, reserve pair_1 1 (token_1 ∷ []))
    ∷ (4, consume pair_1 token_1)
    ∷ (5, consume_peer pair_1 (id_1 ∷ []))
    ∷ (6, consume_peer pair_1 (id_1 ∷ []))
    ∷ (7, consume pair_1 token_1)
    ∷ []

stored_fine : (store_key empty key_1 2).1 ≡ ok tt
unfolding store_key validate valid_id valid_association valid_name lookup repeat text_eq
stored_fine = refl

-- The run delivers the key once to each application.
day_master : ids_of (handed to_master stocked day) ≡ id_1 ∷ []
unfolding handed to_master step scan offers expire association_eq state_eq adjust insert fresh_token
    adjust_each reserve_entry reserve_keys consume_reservation check_reserved deliver consume_master
    consume_peer_keys check_peer consume_slave erase contains distinct_batch terminal valid_id
    stocked lookup store_key validate valid_association valid_name repeat text_eq new_entry
day_master = refl

handed_once_example :
    Distinct (ids_of (handed to_master stocked day))
    × Distinct (ids_of (handed to_slave stocked day))
handed_once_example = handed_once stocked day stocked-Inv

handed-store_key_example :
    All
      (λ d. d.id ≡ key_1.id → d.material ≡ key_1.material)
      (handed to_master (store_key empty key_1 2).0 day
        ++ handed to_slave (store_key empty key_1 2).0 day)
handed-store_key_example = handed-store_key empty key_1 2 day empty-Inv stored_fine

run-Progress_example : Progress stocked (run stocked day)
run-Progress_example = run-Progress stocked day stocked-Inv

reserve_keys-inventory_example : (reserve_keys stocked pair_1 1 3 (token_1 ∷ [])).1 ≡ (
    if leb 1 (inventory stocked pair_1 3).1.available
    then ok (record { token = token_1; ids = picks stocked pair_1 1 3 })
    else err unavailable)
reserve_keys-inventory_example =
    reserve_keys-inventory stocked pair_1 1 3 (token_1 ∷ []) token_1 stocked-Inv pair_valid
      (omega arith) (omega arith) drawn_1

consume_reservation-reserve_keys_example :
    (consume_reservation (reserve_keys stocked pair_1 1 3 (token_1 ∷ [])).0 pair_1 token_1 4).1
    ≡ ok (map (delivery_at (λ e. e.master) stocked.entries) (picks stocked pair_1 1 3))
consume_reservation-reserve_keys_example =
    consume_reservation-reserve_keys stocked pair_1 1 3 4 (token_1 ∷ []) token_1 stocked-Inv
      pair_valid (omega arith) (omega arith) drawn_1 (omega (arith, stock_1)) lives_1

invalidated_fine : (invalidate_key stocked id_1 5).1 ≡ ok tt
unfolding invalidate_key stocked lookup insert store_key validate valid_id valid_association
    valid_name repeat text_eq new_entry
invalidated_fine = refl

run-invalidate_key_example :
    (e : Entry) × (lookup id_1 (run (invalidate_key stocked id_1 5).0 day).entries ≡ some e)
    × (terminal e.master_state ≡ true)
    × (terminal e.slave_state ≡ true)
    × (e.master ≡ [])
    × (e.slave ≡ [])
run-invalidate_key_example = run-invalidate_key stocked id_1 5 day stocked-Inv invalidated_fine

-- The key is reserved; the master application has it, and the slave has not.
abbrev held : Memory
held = run stocked ((3, reserve pair_1 1 (token_1 ∷ [])) ∷ [])

held-Inv : Inv held
held-Inv = (run-Progress stocked ((3, reserve pair_1 1 (token_1 ∷ [])) ∷ []) stocked-Inv).inv

abbrev released : Memory
released = run stocked ((3, reserve pair_1 1 (token_1 ∷ [])) ∷ (4, consume pair_1 token_1) ∷ [])

abbrev slave_call : ℕ × Call
slave_call = (5, consume_peer pair_1 (id_1 ∷ []))

-- The slave is handed the key.
released_handed : ids_of (to_slave released slave_call) ≡ id_1 ∷ []
unfolding run to_slave step scan offers expire association_eq state_eq adjust insert fresh_token
    adjust_each reserve_entry reserve_keys consume_reservation check_reserved deliver consume_master
    consume_peer_keys check_peer consume_slave erase contains distinct_batch terminal valid_id
    stocked lookup store_key validate valid_association valid_name repeat text_eq new_entry
released_handed = refl

to_slave_after_master_example :
    All
      (λ d. (e : Entry) × (lookup d.id released.entries ≡ some e) × (e.master_state ≡ consumed))
      (to_slave released slave_call)
to_slave_after_master_example =
    to_slave_after_master released slave_call
      (run-Progress stocked
        ((3, reserve pair_1 1 (token_1 ∷ [])) ∷ (4, consume pair_1 token_1) ∷ []) stocked-Inv).inv

consume_reservation_cases_example :
    Refused held 4 (consume_reservation held pair_1 token_1 4)
    ⊎ ServesMaster held pair_1 token_1 (consume_reservation held pair_1 token_1 4)
consume_reservation_cases_example = consume_reservation_cases held pair_1 token_1 4 held-Inv

consume_peer_keys_cases_example :
    Refused released 5 (consume_peer_keys released pair_1 (id_1 ∷ []) 5)
    ⊎ (Distinct (id_1 ∷ [])
        × ServesSlave released pair_1 (id_1 ∷ []) (consume_peer_keys released pair_1 (id_1 ∷ []) 5))
consume_peer_keys_cases_example = consume_peer_keys_cases released pair_1 (id_1 ∷ []) 5

fresh_token-enough_example :
    (token : KeyId) × (fresh_token {V = Held} (token_1 ∷ []) [] ≡ some token)
unfolding contains
fresh_token-enough_example = fresh_token-enough (token_1 ∷ []) [] (refl, tt) (omega arith)
