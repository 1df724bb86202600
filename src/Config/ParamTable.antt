-- ===== src/Config/ParamTable.antt =====
-- internal/config/param_table.go: the table of general parameters that a control frame can set.
use device_wiresink_go.Prelude.{
  ℕ, ◌==◌, [], ◌∷◌, ◌++◌, none, some, if◌then◌else◌, length, Bytes, Text, Assoc, codes, lookup,
  insert,
}
use device_wiresink_go.Prelude.Outcome.{unknown_parameter, wrong_length, Result, ok, err}
use device_wiresink_go.Wire.{uint16_le, put_uint16_le}

pub record Entry : Type 0 where
  pub head16 : ℕ
  pub length : ℕ
  pub contents : Bytes

abbrev pub Table : Type 0
Table = Assoc Entry

-- The table at the start.
abbrev pub initial_table : Table
initial_table =
    (
      codes "Temperature",
      record { head16 = uint16_le 0b0010100 0; length = 4; contents = 0 ∷ 0 ∷ 0 ∷ 0 ∷ [] },
    )
    ∷ (codes "Humidity", record { head16 = uint16_le 0b0100101 0; length = 1; contents = 0 ∷ [] })
    ∷ []

-- The entries are shared by pointer in the code; no two names share one.
unfoldable pub update_data : Text → Bytes → Table → Result Table
update_data name value table = elim (lookup name table) [
  | none ↦ err (unknown_parameter name)
  | some entry ↦
      if length value == entry.length
      then ok (insert name (record entry { contents = value }) table)
      else err (wrong_length entry.length (length value))
]

unfoldable pub get_entry_copy : Text → Table → Result Entry
get_entry_copy name table = elim (lookup name table) [
  | none ↦ err (unknown_parameter name)
  | some entry ↦ ok entry
]

unfoldable pub get_packet_fields : Table → Assoc Bytes
get_packet_fields [] = []
get_packet_fields ((name, entry) ∷ rest) =
    (name, put_uint16_le entry.head16 ++ entry.contents) ∷ get_packet_fields rest
