-- ===== src/Planner/Vectors.antt =====
-- The vectors of plan_buffer_line: unit vectors and axis limits (nuts_bolts.c), and the speed limit of
-- a junction (planner.c).
use zephyr_grbl.Prelude.{if◌then◌else◌}
use zephyr_grbl.Gcode.{Vec}
use zephyr_grbl.Planner.Speeds.{Speeds, min_speed}

-- Float arithmetic beyond that of `Speeds`, and the settings.
pub record LineMath (S : Type 0) : Type 0 where
  pub subtract : S → S → S
  pub divide : S → S → S
  pub sqrt : S → S
  pub fabs : S → S
  -- 0.5, 1.0, 0.999999, -0.999999 and MINIMUM_JUNCTION_SPEED
  pub half : S
  pub one : S
  pub acute : S
  pub straight : S
  pub minimum_junction_speed : S
  pub acceleration_setting : Vec S
  pub max_rate_setting : Vec S
  pub junction_deviation : S

module _ {S : Type 0} ⦃o : Speeds S⦄ ⦃math : LineMath S⦄ where
  unfoldable pub magnitude_sqr : Vec S → S
  magnitude_sqr v =
      let add_square : S → S → S =
        λ m a. if o.equal a o.nothing then m else o.add m (o.multiply a a) in
      add_square (add_square (add_square o.nothing v.x) v.y) v.z

  -- convert_delta_vector_to_unit_vector: the unit vector, and the magnitude that it returns
  unfoldable pub convert_delta_vector_to_unit_vector : Vec S → Vec S × S
  unfolding magnitude_sqr
  convert_delta_vector_to_unit_vector v =
      let magnitude : S = math.sqrt (magnitude_sqr v) in
      let inv_magnitude : S = math.divide math.one magnitude in
      (
        record {
          x = o.multiply v.x inv_magnitude;
          y = o.multiply v.y inv_magnitude;
          z = o.multiply v.z inv_magnitude;
        },
        magnitude,
      )

  unfoldable pub limit_axis : S → S → S → S
  limit_axis max_value unit limit =
      if o.equal unit o.nothing
      then limit
      else min_speed limit (math.fabs (math.divide max_value unit))

  unfoldable pub limit_value_by_axis_maximum : Vec S → Vec S → S
  unfolding limit_axis
  limit_value_by_axis_maximum max_value unit =
      limit_axis max_value.z unit.z
        (limit_axis max_value.y unit.y (limit_axis max_value.x unit.x o.some_large_value))

  -- junction_cos_theta, of the unit vectors of the previous and the new block
  unfoldable pub junction_cos_theta : Vec S → Vec S → S
  junction_cos_theta prev unit =
      let less_product : S → S → S → S = λ m a b. math.subtract m (o.multiply a b) in
      less_product (less_product (less_product o.nothing prev.x unit.x) prev.y unit.y) prev.z unit.z

  -- The limit for a junction that is neither straight nor acute.
  unfoldable pub curve_speed : Vec S → Vec S → S
  unfolding junction_cos_theta
  curve_speed prev unit =
      let junction_unit_vec : Vec S =
        (convert_delta_vector_to_unit_vector (record {
          x = math.subtract unit.x prev.x;
          y = math.subtract unit.y prev.y;
          z = math.subtract unit.z prev.z;
        })).0 in
      let junction_acceleration : S =
        limit_value_by_axis_maximum math.acceleration_setting junction_unit_vec in
      let sin_theta_d2 : S =
        math.sqrt (o.multiply math.half (math.subtract math.one (junction_cos_theta prev unit))) in
      math.divide
        (o.multiply (o.multiply junction_acceleration math.junction_deviation) sin_theta_d2)
        (math.subtract math.one sin_theta_d2)

  -- MINIMUM_JUNCTION_SPEED*MINIMUM_JUNCTION_SPEED
  abbrev pub least_junction_speed : S
  least_junction_speed = o.multiply math.minimum_junction_speed math.minimum_junction_speed

  -- The speed limit of the junction.
  unfoldable pub max_junction_speed : Vec S → Vec S → S
  max_junction_speed prev unit =
      if o.less math.acute (junction_cos_theta prev unit)
      then least_junction_speed
      else if o.less (junction_cos_theta prev unit) math.straight
      then o.some_large_value
      else if o.less (curve_speed prev unit) least_junction_speed
      then least_junction_speed
      else curve_speed prev unit
