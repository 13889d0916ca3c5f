-- ===== src/Lib.antt =====
-- Verification of zephyr-grbl: the motion controller core, a port of grbl to Zephyr in C, under
-- deps/gnea-grbl/grbl.
--
-- The program. Bytes arrive from a UART. The interrupt handler of serial.c picks out the realtime
-- commands, which only set flags, and queues the rest. protocol_main_loop (protocol.c) collects
-- lines from the queue and hands them to the '$' commands or to the g-code parser; between its
-- steps it calls protocol_exec_rt_system, which turns the flags into changes of the system state.
-- Motions go through the planner's ring of blocks (planner.c) to the stepper: segments of a block
-- are executed by a timer interrupt (stepper.c) that traces all axes with Bresenham's algorithm.
-- Settings (settings.c) are changed by '$' lines; numbers are read and printed by nuts_bolts.c and
-- print.c.
--
-- The files.
--   Prelude          tests on numbers and lists that all parts share.
--   Flags            a uint8_t of flags as its eight bits; the macros of nuts_bolts.h.
--   Planner          planner.c: Ring has the four indices, the operations on them and the block
--                    array; Valid the invariant of the indices; Fifo the bounded queue that the
--                    ring implements. Speeds has planner_recalculate and the override update over
--                    the list of the planned blocks, Line has plan_buffer_line and Vectors the
--                    vectors of nuts_bolts.c; Feasible says what entry speeds are possible,
--                    Reverse to Reinitialize are about the speeds that are planned.
--   System           system.h: Defs has system_t, the global flags and the record of the calls
--                    that leave the model; Masks the flags and limits; Exec the setters of
--                    system.c and mc_reset of motion_control.c.
--   Serial           serial.c: serial_check_real_time_command, and serial_write with its split of the
--                    responses into lines (Writing, Responses).
--   Protocol         protocol.c: Overrides (lines 414 to 500), Holds (the states, lines 246 to
--                    412), Realtime (protocol_exec_rt_system as a whole), Suspend
--                    (protocol_exec_rt_suspend, with delay_sec of nuts_bolts.c) and Reader (the line reader of
--                    protocol_main_loop).
--   Print, Number    print.c, and read_float of nuts_bolts.c.
--   Settings         settings.c: Data has the settings, Defs settings_store_global_setting and
--                    settings_restore.
--   Commands         system.c: system_execute_line, the '$' commands.
--   Stepper          stepper.c: Tracer is one axis of the tracer; Defs and Isr the interrupt
--                    TIMER1_COMPA_vect as a whole; PinMasks the invert masks; Pulses counts
--                    the steps of an axis; Segments, Runs, Loads and Moves follow the
--                    interrupts of a segment.
--   Gcode            gcode.c: Codes, Defs and Bits have the numbers of gcode.h, the parser's structs
--                    and the FAIL results. gc_execute_line in the order of its steps: CommandWords
--                    (G and M words) and Words (the words of a line) are STEP 2; Checks, NonModal,
--                    MotionModes and Checking are STEP 3; Effects (the calls, and what is read from
--                    elsewhere), Execute (the jog of jog.c, and the modes), Motions and Running
--                    are STEP 4 and the whole function. Groups to OneAxisCommand are about the
--                    words of an accepted line, Rejected about errors, Modes to LineModes about the
--                    modes, Positions, Homes and Arrivals about the position, Stored
--                    the stub of eeprom.c, Jogged about jogs and Fuel about the loop
--                    over the words.
--   HwTimer          modules/hw_timer/zephyr: Defs has hw_timer_set of hw_timer.h and the STM32
--                    driver's set_cycles, Registers what it writes, Waveform the output that the
--                    registers give, Cycles the conversion of
--                    times to cycles.
--   Tests            the theorems at concrete inputs.
--
-- How the code is modelled. A function of C that changes globals is a function from the state
-- before to the state after; an early return is the branch that leaves the rest out. Calls of
-- parts that are not modelled are recorded in order in the state. The options are those of
-- config.h and defaults.h: CoreXY, step smoothing, a servo for Z, no dual axis, no parking, no
-- variable spindle, no safety door pin. Integers are natural numbers with the wrap-around of their
-- width written out, where it can occur. Floats are a parameter: the operations that the code
-- applies to a value. The planner's plan is the list of the blocks in the ring from the tail on,
-- with the offset of the planned block; plan_cycle_reinitialize takes the block at the tail as an
-- argument. The laws of float arithmetic that the theorems name hold for rounded values other than
-- NaN. The chip's timer registers are read through a parameter, and writes are recorded. The
-- g-code parser takes settings_read_coord_data and the outcome of a probing cycle as parameters
-- too. The first goes from the index and what its argument holds before to what the argument holds
-- afterwards; Gcode/Stored is the one of this port, whose EEPROM is a stub and leaves the argument
-- as it was.
--
-- Bounds and fuel. The loop that prints a number has ten rounds, and a uint32_t has at most ten
-- digits. The loop of the axis settings has four rounds, the number of axis settings. The wait for
-- a reset after a critical alarm takes the bytes that arrive as input, and says when it has not
-- returned by their end. The suspend manager takes the bytes that arrive too: a sleep uses up
-- those of its milliseconds (1 in each round of its loop, 50 in each round of delay_sec), and a
-- round of the wait in the sleep mode, which does not sleep, those that the interrupt receives in
-- it. The 1 ms sleeps between the sections of protocol_exec_rt_system take none. The loop over the
-- words of a g-code line has the length of the line as its fuel, and each word takes a letter at
-- least. All other loops are recursions on their input.
--
-- Not modelled: the preparation of segments, a float computation; homing, the probing cycle and
-- the segments of arcs; reports; the non-volatile storage but for the stubs that a read of
-- coordinates calls, as its bodies are commented out; the initialization and the update interrupt
-- of the timer driver; the C++ application with its SD card and display.
pub mod Prelude
pub mod Flags
pub mod Planner
pub mod System
pub mod Serial
pub mod Print
pub mod Number
pub mod Settings
pub mod Commands
pub mod Gcode
pub mod Stepper
pub mod HwTimer
pub mod Tests
pub mod Protocol
