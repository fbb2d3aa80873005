-- ===== src/Manager/Stored/Restricted.antt =====
-- What a restored BT task is allowed (reconcileStoredBTTask of
-- backend/internal/download/persistence.go).
use downpeed_fluter.Base.{
  on_test, ltb_ℤ, ℕ, ◌≡◌, ◌⊎◌, inl, inr, refl, ap, subst, arith, Bool, true, false, not, ◌&&◌, ◌||◌,
  length, Option, none, some, if◌then◌else◌, Outcome, ok, err, ltb, ◌==◌, pos, unless,
}
use downpeed_fluter.Settings.{
  normalize_bt_policy_settings, is_zero_policy, default_bt_policy_settings,
}
use downpeed_fluter.Settings.Restricted.{IsRestricted, accepted-IsRestricted}
use downpeed_fluter.Task.{BtPolicySettings, is_terminal_state}
use downpeed_fluter.Manager.Stored.{
  reconcile_stored_bt_task, reconcile_bt, restored_bt_request, is_policy, settled_bt_task,
  max_torrent_metadata_bytes, StoredBtTask, StoredTask, BtTransferRequest, is_paused, is_bt,
  safe_file_name, join, DownloadError, Task, task_persistence, is_empty, text_eq, is_abs,
}

accepted :
    (p : BtPolicySettings) (r : Outcome DownloadError BtPolicySettings)
    → normalize_bt_policy_settings p ≡ r
    → not (is_policy r) ≡ false
    → is_zero_policy p ≡ false
    → IsRestricted p
accepted p (ok policy) h k filled = accepted-IsRestricted p policy filled h
accepted p (err e) h k filled = absurd (ground arith)

-- The zero policy of an old record is read as the default one.
read-IsRestricted :
    (p : BtPolicySettings)
    → not (
        is_policy (
          normalize_bt_policy_settings
            (if is_zero_policy p then default_bt_policy_settings else p)))
      ≡ false
    → IsRestricted (if is_zero_policy p then default_bt_policy_settings else p)
read-IsRestricted p =
    on_test (λ x. not (is_policy (normalize_bt_policy_settings x)) ≡ false → IsRestricted x)
      (is_zero_policy p)
      (λ _ _. (omega arith, omega arith, refl, refl, refl, refl, refl, refl, refl, refl, refl))
      (λ filled h. accepted p (normalize_bt_policy_settings p) refl h filled)

-- A BT task that is restored is paused or over, whatever was stored, and its request allows 1 to 80 peers,
-- explicit ones only, and no tracker, DHT, PEX, web seed, incoming connection, IPv6, upload or seeding.
pub restored-IsRestricted :
    (now : ℕ) (stored : StoredTask) (task : Task) (request : BtTransferRequest)
    → reconcile_stored_bt_task now stored ≡ ok (task, request)
    → IsRestricted request.policy
      × ((is_paused task.state ≡ true) ⊎ (is_terminal_state task.state ≡ true))
unfolding reconcile_stored_bt_task
restored-IsRestricted now stored task request = from_record stored.bt
  where
    IsFit : Type 0
    IsFit =
        IsRestricted request.policy
        × ((is_paused task.state ≡ true) ⊎ (is_terminal_state task.state ≡ true))

    Restores : Outcome DownloadError (Task × BtTransferRequest) → Type 0
    Restores x = x ≡ ok (task, request) → IsFit

    at_rest :
        (t : Task)
        → (not (is_paused t.state) && not (is_terminal_state t.state)) ≡ false
        → (is_paused t.state ≡ true) ⊎ (is_terminal_state t.state ≡ true)
    at_rest t h = either (is_paused t.state) (is_terminal_state t.state) h
      where
        either : (p q : Bool) → (not p && not q) ≡ false → (p ≡ true) ⊎ (q ≡ true)
        either true q k = inl refl
        either false true k = inr refl
        either false false k = absurd (ground arith)

    settled :
        (t : Task) (r : BtTransferRequest)
        → IsRestricted r.policy
        → ◌≡◌ {A = Outcome DownloadError (Task × BtTransferRequest)}
            (if not (is_paused t.state) && not (is_terminal_state t.state)
              then err task_persistence
              else ok (t, r))
            (ok (task, request))
        → IsFit
    settled t r restricted =
        on_test Restores (not (is_paused t.state) && not (is_terminal_state t.state)) (λ _ k. cc)
          (λ rests same.
            let is = ap found_in same in
            (
              subst (λ (x : Task × BtTransferRequest). IsRestricted x.1.policy) is restricted,
              subst
                  (λ (x : Task × BtTransferRequest).
                    (is_paused x.0.state ≡ true) ⊎ (is_terminal_state x.0.state ≡ true))
                  is (at_rest t rests),
            ))
      where
        found_in : Outcome DownloadError (Task × BtTransferRequest) → Task × BtTransferRequest
        found_in (ok x) = x
        found_in (err e) = (t, r)

    from_record :
        (o : Option StoredBtTask) → reconcile_bt now stored.task o ≡ ok (task, request) → IsFit
    from_record none h = cc
    from_record (some bt_record) h =
        unless
          (not (is_bt stored.task.protocol)
            || is_empty stored.task.id
            || is_empty stored.task.file_name
            || not (text_eq stored.task.file_name (safe_file_name stored.task.file_name)))
          _
          (unless
            (not (is_abs stored.task.save_directory)
              || not (
                  text_eq stored.task.file_path
                    (join stored.task.save_directory stored.task.file_name)))
            _
            (unless
              (length bt_record.metadata == 0
                || ltb max_torrent_metadata_bytes (length bt_record.metadata)
                || is_empty bt_record.identity
                || ltb_ℤ bt_record.total (pos 0))
              _
              (on_test Restores
                (not (
                  is_policy (
                    normalize_bt_policy_settings (
                      if is_zero_policy bt_record.policy
                      then default_bt_policy_settings
                      else bt_record.policy))))
                (λ _ k. cc)
                (λ policy.
                  settled (settled_bt_task now stored.task)
                    (restored_bt_request stored.task bt_record)
                    (read-IsRestricted bt_record.policy policy)))))
          h
