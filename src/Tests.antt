-- ===== src/Tests.antt =====
-- The theorems at concrete inputs.
mod Machines
mod PlanTests
mod PlannerTests
mod ProtocolTests
mod TextTests
mod TimerTests
mod SettingsTests
mod CommandTests
mod StepperTests
mod GcodeTests
mod SuspendTests
mod SerialTests
