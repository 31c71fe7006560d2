-- ===== src/Mobile/Session/Locking.antt =====
-- state.rs and lifecycle.rs: the loop of the auto-lock and the changes of focus.
use scrigno.Prelude.{ℕ, ◌-◌, ◌*◌, Bool, false, ◌||◌, none, some, leb, if◌then◌else◌}
use scrigno.Mobile.Session.{background_lock_threshold, VaultOps, VaultSlot, State}
use scrigno.Mobile.Session.Commands.{sync_now}

module _ {Locked Unlocked : Type 0} (ops : VaultOps Locked Unlocked) where
  -- The tests of the loop of `spawn_auto_lock`, on what it reads before it waits for the slot.
  unfoldable pub auto_lock_due : ℕ → State ops → Bool
  auto_lock_due now s =
      leb (s.auto_lock_minutes * 60) (now - s.last_activity) || elim s.background_since [
        | none ↦ false
        | some since ↦ leb background_lock_threshold (now - since)
      ]

  -- What the loop does once it holds the slot.
  unfoldable pub auto_lock : State ops → State ops
  auto_lock s = elim s.slot [
    | none ↦ s
    | some (VaultSlot.locked v) ↦ s
    | some (VaultSlot.unlocked u) ↦ record s { slot = some (VaultSlot.locked (ops.lock u)) }
  ]

  -- A round of the loop with nothing between.
  unfoldable pub auto_lock_tick : ℕ → State ops → State ops
  unfolding auto_lock_due auto_lock
  auto_lock_tick now s = if auto_lock_due now s then auto_lock s else s

  -- Coming back to the foreground synchronises an unlocked vault; its errors are dropped.
  unfoldable pub on_focus_changed : Bool → ℕ → State ops → State ops
  unfolding sync_now
  on_focus_changed focused now s =
      if focused
      then (let s' = record s { background_since = none } in
          elim s'.slot [ some (VaultSlot.unlocked u) ↦ (sync_now ops now s').1 | _ ↦ s' ])
      else record s { background_since = some now }
