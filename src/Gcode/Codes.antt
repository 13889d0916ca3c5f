-- ===== src/Gcode/Codes.antt =====
-- The constants of gcode.h and gcode.c.
use zephyr_grbl.Prelude.{ℕ}
use zephyr_grbl.Flags.{Byte, zero_byte, bit}

abbrev pub modal_group_g0 : ℕ
modal_group_g0 = 0

abbrev pub modal_group_g1 : ℕ
modal_group_g1 = 1

abbrev pub modal_group_g2 : ℕ
modal_group_g2 = 2

abbrev pub modal_group_g3 : ℕ
modal_group_g3 = 3

abbrev pub modal_group_g4 : ℕ
modal_group_g4 = 4

abbrev pub modal_group_g5 : ℕ
modal_group_g5 = 5

abbrev pub modal_group_g6 : ℕ
modal_group_g6 = 6

abbrev pub modal_group_g7 : ℕ
modal_group_g7 = 7

abbrev pub modal_group_g8 : ℕ
modal_group_g8 = 8

abbrev pub modal_group_g12 : ℕ
modal_group_g12 = 9

abbrev pub modal_group_g13 : ℕ
modal_group_g13 = 10

abbrev pub modal_group_m4 : ℕ
modal_group_m4 = 11

abbrev pub modal_group_m7 : ℕ
modal_group_m7 = 12

abbrev pub modal_group_m8 : ℕ
modal_group_m8 = 13

abbrev pub non_modal_no_action : ℕ
non_modal_no_action = 0

abbrev pub non_modal_dwell : ℕ
non_modal_dwell = 4

abbrev pub non_modal_set_coordinate_data : ℕ
non_modal_set_coordinate_data = 10

abbrev pub non_modal_go_home_0 : ℕ
non_modal_go_home_0 = 28

abbrev pub non_modal_set_home_0 : ℕ
non_modal_set_home_0 = 38

abbrev pub non_modal_go_home_1 : ℕ
non_modal_go_home_1 = 30

abbrev pub non_modal_set_home_1 : ℕ
non_modal_set_home_1 = 40

abbrev pub non_modal_absolute_override : ℕ
non_modal_absolute_override = 53

abbrev pub non_modal_set_coordinate_offset : ℕ
non_modal_set_coordinate_offset = 92

abbrev pub non_modal_reset_coordinate_offset : ℕ
non_modal_reset_coordinate_offset = 102

abbrev pub motion_mode_seek : ℕ
motion_mode_seek = 0

abbrev pub motion_mode_linear : ℕ
motion_mode_linear = 1

abbrev pub motion_mode_cw_arc : ℕ
motion_mode_cw_arc = 2

abbrev pub motion_mode_ccw_arc : ℕ
motion_mode_ccw_arc = 3

abbrev pub motion_mode_probe_toward : ℕ
motion_mode_probe_toward = 140

abbrev pub motion_mode_probe_toward_no_error : ℕ
motion_mode_probe_toward_no_error = 141

abbrev pub motion_mode_probe_away : ℕ
motion_mode_probe_away = 142

abbrev pub motion_mode_probe_away_no_error : ℕ
motion_mode_probe_away_no_error = 143

abbrev pub motion_mode_none : ℕ
motion_mode_none = 80

abbrev pub plane_select_xy : ℕ
plane_select_xy = 0

abbrev pub plane_select_zx : ℕ
plane_select_zx = 1

abbrev pub plane_select_yz : ℕ
plane_select_yz = 2

abbrev pub distance_mode_absolute : ℕ
distance_mode_absolute = 0

abbrev pub distance_mode_incremental : ℕ
distance_mode_incremental = 1

abbrev pub program_flow_running : ℕ
program_flow_running = 0

abbrev pub program_flow_paused : ℕ
program_flow_paused = 3

abbrev pub program_flow_optional_stop : ℕ
program_flow_optional_stop = 1

abbrev pub program_flow_completed_m2 : ℕ
program_flow_completed_m2 = 2

abbrev pub program_flow_completed_m30 : ℕ
program_flow_completed_m30 = 30

abbrev pub feed_rate_mode_units_per_min : ℕ
feed_rate_mode_units_per_min = 0

abbrev pub feed_rate_mode_inverse_time : ℕ
feed_rate_mode_inverse_time = 1

abbrev pub units_mode_mm : ℕ
units_mode_mm = 0

abbrev pub units_mode_inches : ℕ
units_mode_inches = 1

abbrev pub tool_length_offset_cancel : ℕ
tool_length_offset_cancel = 0

abbrev pub tool_length_offset_enable_dynamic : ℕ
tool_length_offset_enable_dynamic = 1

abbrev pub word_f : ℕ
word_f = 0

abbrev pub word_i : ℕ
word_i = 1

abbrev pub word_j : ℕ
word_j = 2

abbrev pub word_k : ℕ
word_k = 3

abbrev pub word_l : ℕ
word_l = 4

abbrev pub word_n : ℕ
word_n = 5

abbrev pub word_p : ℕ
word_p = 6

abbrev pub word_r : ℕ
word_r = 7

abbrev pub word_s : ℕ
word_s = 8

abbrev pub word_t : ℕ
word_t = 9

abbrev pub word_x : ℕ
word_x = 10

abbrev pub word_y : ℕ
word_y = 11

abbrev pub word_z : ℕ
word_z = 12

abbrev pub max_line_number : ℕ
max_line_number = 10000000

abbrev pub n_coordinate_system : ℕ
n_coordinate_system = 6

abbrev pub spindle_disable : Byte
spindle_disable = zero_byte

abbrev pub spindle_enable_cw : Byte
spindle_enable_cw = bit 4

abbrev pub spindle_enable_ccw : Byte
spindle_enable_ccw = bit 5

abbrev pub coolant_disable : Byte
coolant_disable = zero_byte
