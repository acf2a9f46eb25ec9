-- ===== src/Server/Frames/Commands.antt =====
-- server/state_machine.py: a user's commands change nothing of the other users, whether they return or
-- raise.
use distributed_key_value_ca.Prelude.{ℕ, String, Option}
use distributed_key_value_ca.Store.{Store}
use distributed_key_value_ca.Server.Machine.{Database}
use distributed_key_value_ca.Server.Stores.{expired}
use distributed_key_value_ca.Server.Commands.{
  apply_signup, set_in, apply_set, delete_in, apply_delete, expire_in, expire_item, apply_expiry,
}
use distributed_key_value_ca.Server.Frames.{
  Along, Only, still, step, option_case, if_case, call-Only, save-Only, get_store-Only, lookup-Only,
}

module _ {D : Type 0} (db : Database D) (lower : String → String) (u : String) where
  pub apply_signup-Only : (h : String) → Along (Only u) (apply_signup db lower u h)
  unfolding apply_signup
  apply_signup-Only h = step u _ _ (get_store-Only db lower u) λ there.
      option_case u _ _ there
        (step u _ _ (still u) λ use_db.
          step u _ _ (if_case u use_db _ _ (call-Only u _) (still u)) λ done.
            step u _ _ (still u) λ capacity.
              step u _ _ (still u) λ store. step u _ _ (save-Only u store) λ done. still u)
        λ s. still u

  set_in-Only :
      (s : Store) (key value : String) (expire_at : Option ℕ)
      → Along (Only u) (set_in db lower s u key value expire_at)
  unfolding set_in
  set_in-Only s key value expire_at = step u _ _ (still u) λ use_db.
      step u _ _ (if_case u use_db _ _ (call-Only u _) (still u))
        λ done. step u _ _ (still u) λ written. step u _ _ (save-Only u written) λ done. still u

  pub apply_set-Only :
      (key value : String) (expire_at : Option ℕ)
      → Along (Only u) (apply_set db lower u key value expire_at)
  unfolding apply_set
  apply_set-Only key value expire_at =
      step u _ _ (get_store-Only db lower u)
        λ there. option_case u _ _ there (still u) λ s. set_in-Only s key value expire_at

  delete_in-Only :
      (s : Store) (key : String) (at_ms : Option ℕ)
      → Along (Only u) (delete_in db lower s u key at_ms)
  unfolding delete_in
  delete_in-Only s key at_ms = step u _ _ (lookup-Only db lower u s key) λ item.
      step u _ _ (still u) λ use_db.
        step u _ _ (if_case u use_db _ _ (call-Only u _) (still u))
          λ done. step u _ _ (still u) λ s'. step u _ _ (save-Only u _) λ done. still u

  pub apply_delete-Only :
      (key : String) (at_ms : Option ℕ) → Along (Only u) (apply_delete db lower u key at_ms)
  unfolding apply_delete
  apply_delete-Only key at_ms =
      step u _ _ (get_store-Only db lower u)
        λ there. option_case u _ _ there (still u) λ s. delete_in-Only s key at_ms

  expire_in-Only :
      (s : Store) (key : String) (expire_at : Option ℕ)
      → Along (Only u) (expire_in db lower s u key expire_at)
  unfolding expire_in
  expire_in-Only s key expire_at = step u _ _ (still u) λ use_db.
      step u _ _ (if_case u use_db _ _ (call-Only u _) (still u))
        λ done. step u _ _ (still u) λ s'. step u _ _ (save-Only u _) λ done. still u

  expire_item-Only :
      (s : Store) (key : String) (expire_at : Option ℕ) (at_ms : ℕ) (found : String × Option ℕ)
      → Along (Only u) (expire_item db lower s u key expire_at at_ms found)
  unfolding expire_item
  expire_item-Only s key expire_at at_ms (value, old) =
      if_case u (expired old at_ms) _ _ (still u)
        (if_case u _ _ _ (still u) (expire_in-Only s key expire_at))

  pub apply_expiry-Only :
      (key : String) (expire_at : Option ℕ) (at_ms : ℕ)
      → Along (Only u) (apply_expiry db lower u key expire_at at_ms)
  unfolding apply_expiry
  apply_expiry-Only key expire_at at_ms = step u _ _ (get_store-Only db lower u) λ there.
      option_case u _ _ there (still u) λ s. step u _ _ (lookup-Only db lower u s key) λ item.
        option_case u _ _ item (still u) λ found. expire_item-Only s key expire_at at_ms found
