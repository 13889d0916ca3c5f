-- ===== src/Gcode/Stored.antt =====
-- The stored coordinates of this port (settings.c and eeprom.c): its EEPROM is a stub. It is the
-- parameter settings_read_coord_data of the parser at concrete lines.
use zephyr_grbl.Prelude.{◌==◌, if◌then◌else◌, ℕ, ◌+◌, ◌*◌, Bool, Option, none, some}

abbrev pub eeprom_get_char : ℕ → ℕ
eeprom_get_char addr = 0

-- What the destination holds afterwards, and the result: the copying is commented out.
abbrev pub memcpy_from_eeprom_with_checksum {ℓ} : {A : Type ℓ} → A → ℕ → ℕ → A × Bool
memcpy_from_eeprom_with_checksum destination source size =
    let checksum : ℕ = 0 in (destination, checksum == eeprom_get_char source)

abbrev pub eeprom_addr_parameters : ℕ
eeprom_addr_parameters = 512

-- settings_read_coord_data, for three axes of four bytes: what `coord_data` holds afterwards, or
-- none for false.
abbrev pub stored_coord_data {ℓ} : {A : Type ℓ} → ℕ → A → Option A
stored_coord_data coord_select coord_data =
    let addr : ℕ = coord_select * (4 * 3 + 1) + eeprom_addr_parameters in
    let read = memcpy_from_eeprom_with_checksum coord_data addr (4 * 3) in
    if read.1 then some read.0 else none
