-- ===== src/Tests/SuspendTests.antt =====
-- The suspend manager at concrete machines.
use zephyr_grbl.Prelude.{◌≡◌, refl, false, some, arith}
use zephyr_grbl.Flags.{bit, ◌bor◌}
use zephyr_grbl.System.{Machine, safety_door}
use zephyr_grbl.System.Masks.{
  exec_reset, suspend_hold_complete, suspend_retract_complete, suspend_initiate_restore,
}
use zephyr_grbl.Protocol.Realtime.{Arrivals}
use zephyr_grbl.Protocol.Suspend.{Restore, protocol_exec_rt_suspend}
use zephyr_grbl.Protocol.Suspend.Quiet.{quiet}
use zephyr_grbl.Protocol.Suspend.Resets.{protocol_exec_rt_suspend-reset}
use zephyr_grbl.Protocol.Suspend.Returns.{Ended}
use zephyr_grbl.Tests.Machines.{ready, ready_machine}

abbrev clockwise : Restore
clockwise = record { condition = bit 4; laser_mode = false }

-- The door is closed, the accessories are being restored, and a reset comes.
abbrev restoring_machine : Machine
restoring_machine = record ready_machine {
  sys = record ready {
    state = safety_door;
    suspend = suspend_hold_complete bor suspend_retract_complete bor suspend_initiate_restore;
  };
  modal_spindle = bit 4;
  rt_exec_state = exec_reset;
}

protocol_exec_rt_suspend-reset_example :
    (r : Machine × Arrivals) × ((protocol_exec_rt_suspend clockwise (quiet 102) restoring_machine
        ≡ some r)
      × Ended r.0)
protocol_exec_rt_suspend-reset_example =
    protocol_exec_rt_suspend-reset clockwise 102 restoring_machine (omega arith)
      (record { flag_lem = refl; alarm_lem = refl })
