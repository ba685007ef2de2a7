-- ===== src/Kmip/Changes.antt =====
-- What Activate, Revoke, Destroy and ReKey of internal/kmip/handler.go answer, and what they leave in
-- the memory store.
use open_kmip_server.Common.{
  ℕ, suc, String, true, false, ◌≡◌, ◌≢◌, refl, none, some, [], ◌∷◌, arith, ◌⊎◌, inl, inr, eq_refl,
}
use open_kmip_server.Common.Int.{ℤ}
use open_kmip_server.Common.Dict
use open_kmip_server.Common.Dict.{get-put}
use open_kmip_server.External.Libraries.{Libraries}
use open_kmip_server.Storage.Types.{
  KeyState, KeyRecord, pre_active, active, deactivated, destroyed, destroyed_compromised, revoked,
}
use open_kmip_server.Storage.Memory.{MemoryStore, memory_storage, get, overwrite}
use open_kmip_server.Storage.Memory.Lookup.{activate-live, destroy-live, revoke-live}
use open_kmip_server.Kmip.Action.{World, done, ◌>>=◌}
use open_kmip_server.Kmip.Lifecycle.{validate_state_transition}
use open_kmip_server.Kmip.Response.{respond, build_batch_item_success}
use open_kmip_server.Kmip.Handlers.Lifecycle.{
  handle_activate, handle_destroy, handle_revoke, stated_reason,
}
use open_kmip_server.Kmip.Refusals.{RefusesFrom}

validate-activate :
    (s : KeyState)
    → ((s ≡ pre_active) × (validate_state_transition s "Activate" ≡ (0, "", true)))
      ⊎ ((s ≢ pre_active)
          × (reason : ℕ) × (message : String) × (validate_state_transition s "Activate"
              ≡ (reason, message, false)))
unfolding validate_state_transition
validate-activate pre_active = inl (refl, refl)
validate-activate active = inr (ground arith, _, _, refl)
validate-activate _ = inr (ground arith, _, _, refl)

validate-revoke :
    (s : KeyState)
    → (((s ≡ pre_active) ⊎ (s ≡ active) ⊎ (s ≡ deactivated))
        × (validate_state_transition s "Revoke" ≡ (0, "", true)))
      ⊎ (¬ ((s ≡ pre_active) ⊎ (s ≡ active) ⊎ (s ≡ deactivated))
          × (reason : ℕ) × (message : String) × (validate_state_transition s "Revoke"
              ≡ (reason, message, false)))
unfolding validate_state_transition
validate-revoke pre_active = inl (inl refl, refl)
validate-revoke active = inl (inr (inl refl), refl)
validate-revoke deactivated = inl (inr (inr refl), refl)
validate-revoke _ = inr (ground arith, _, _, refl)

validate-destroy :
    (s : KeyState)
    → s ≢ destroyed
    → s ≢ destroyed_compromised
    → validate_state_transition s "Destroy" ≡ (0, "", true)
unfolding validate_state_transition
validate-destroy s live h = ground arith

module _ (l : Libraries) (op : ℤ) (p uid_item : l.Item) (w : World MemoryStore) (rec : KeyRecord)
    (named : l.find_child p l.tag_unique_identifier ≡ some uid_item)
    (found : get w.store (l.string_value uid_item) ≡ some rec) where
  open l use {lib, machine, encode_text_string, tag_unique_identifier, string_value}

  -- Where the payload names an object that the memory store shows: if it is pre-active, Activate answers
  -- success with the identifier and only sets the state to active; in any other state it answers an
  -- error and the store is as it was.
  pub handle_activate-answer :
      ((rec.state ≡ pre_active)
        × (handle_activate l (memory_storage machine) op (some p) w ≡ (
          done (
              build_batch_item_success lib op
                (encode_text_string tag_unique_identifier (string_value uid_item) ∷ [])),
          record {
            store = overwrite w.store (string_value uid_item) (record rec { state = active });
            moment = suc (suc w.moment);
          },
        )))
      ⊎ ((rec.state ≢ pre_active)
          × RefusesFrom lib op w (handle_activate l (memory_storage machine) op (some p)))
  unfolding handle_activate ◌>>=◌ respond
  handle_activate-answer = elim (validate-activate rec.state) [
    | inl (state, v) ↦
        inl (
          state,
          rw (named, found, v, activate-live w.store (string_value uid_item) rec found) refl,
        )
    | inr (state, reason, message, v) ↦
        inr (state, (reason, message, rw (named, found, v) refl, rw (named, found, v) refl))
  ]

  -- Where the payload names an object that the memory store shows: if it is pre-active, active or
  -- deactivated, Revoke answers success with the identifier and only sets the state to compromised and
  -- the revocation reason to the stated one; in any other state it answers an error and the store is as
  -- it was.
  pub handle_revoke-answer :
      (((rec.state ≡ pre_active) ⊎ (rec.state ≡ active) ⊎ (rec.state ≡ deactivated))
        × (handle_revoke l (memory_storage machine) op (some p) w ≡ (
          done (
              build_batch_item_success lib op
                (encode_text_string tag_unique_identifier (string_value uid_item) ∷ [])),
          record {
            store =
                overwrite w.store
                  (string_value uid_item)
                  (record rec { state = revoked; revocation_reason = stated_reason lib p });
            moment = suc (suc w.moment);
          },
        )))
      ⊎ (¬ ((rec.state ≡ pre_active) ⊎ (rec.state ≡ active) ⊎ (rec.state ≡ deactivated))
          × RefusesFrom lib op w (handle_revoke l (memory_storage machine) op (some p)))
  unfolding handle_revoke ◌>>=◌ respond
  handle_revoke-answer = elim (validate-revoke rec.state) [
    | inl (state, v) ↦ inl (
      state,
      rw
          (
            named,
            found,
            v,
            revoke-live w.store (string_value uid_item) rec found (stated_reason lib p),
          )
          refl,
    )
    | inr (state, reason, message, v) ↦
        inr (state, (reason, message, rw (named, found, v) refl, rw (named, found, v) refl))
  ]

  get-destroyed :
      get
        (overwrite w.store
          (string_value uid_item)
          (record rec { material = none; state = destroyed }))
        (string_value uid_item)
      ≡ none
  unfolding get
  get-destroyed = rw (get-put, eq_refl) refl

  found_live : rec.state ≢ destroyed
  unfolding get
  found_live gone = ground (arith, found)

  -- Where the payload names an object that the memory store shows and that is not
  -- destroyed-compromised: Destroy answers success with the identifier, the object stays in the map
  -- without its material and as destroyed, and Get no longer shows it.
  pub handle_destroy-answer :
      rec.state ≢ destroyed_compromised
      → ((handle_destroy l (memory_storage machine) op (some p) w).0
          ≡ done (
              build_batch_item_success lib op
                (encode_text_string tag_unique_identifier (string_value uid_item) ∷ [])))
        × (Dict.get
              (handle_destroy l (memory_storage machine) op (some p) w).1.store.keys
              (string_value uid_item)
            ≡ some (record rec { material = none; state = destroyed }))
        × (get
              (handle_destroy l (memory_storage machine) op (some p) w).1.store
              (string_value uid_item)
            ≡ none)
  unfolding handle_destroy ◌>>=◌ respond
  handle_destroy-answer state =
      rw
        (
          named,
          found,
          validate-destroy rec.state found_live state,
          destroy-live w.store (string_value uid_item) rec found,
        )
        (refl, rw (get-put, eq_refl) refl, get-destroyed)
