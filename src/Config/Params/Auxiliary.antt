-- ===== src/Config/Params/Auxiliary.antt =====
-- `paramMap` of internal/config/param_table_parser_data.go: the parameters of auxiliary plant (D.4).
use device_wiresink_go.Prelude.{List, [], ◌∷◌, some}
use device_wiresink_go.Config.Params.Row.{ParamRow, row, parse_float32, parse_uint16, parse_uint8}

abbrev pub auxiliary_params : List ParamRow
auxiliary_params =
    row 3 1 "ArcFlashIntensity" "mW/cm2" (some 4) "float32" parse_float32
    ∷ row 3 2 "Noise" "dB" (some 4) "float32" parse_float32
    ∷ row 3 3 "WaterIngressStatus" "" (some 2) "uint16" parse_uint16
    ∷ row 3 4 "WaterLevel" "m" (some 4) "float32" parse_float32
    ∷ row 3 5 "Settlement" "mm" (some 4) "float32" parse_float32
    ∷ row 3 6 "EquipmentRunningStatus" "" (some 1) "uint8" parse_uint8
    ∷ row 3 7 "DoorWindowLockStatus" "" (some 1) "uint8" parse_uint8
    ∷ row 3 8 "PerimeterAlarmStatus" "" (some 1) "uint8" parse_uint8
    ∷ row 3 9 "ManholeCoverStatus" "" (some 1) "uint8" parse_uint8
    ∷ row 3 10 "SmokeDetectorStatus" "" (some 1) "uint8" parse_uint8
    ∷ row 3 11 "SwitchControl" "" (some 1) "uint8" parse_uint8
    ∷ row 3 12 "SwitchStatus" "" (some 1) "uint8" parse_uint8
    ∷ row 3 13 "ACSetTemperature" "℃" (some 4) "float32" parse_float32
    ∷ row 3 14 "ACCurrentTemperature" "℃" (some 4) "float32" parse_float32
    ∷ row 3 35 "StringVoltage" "V" (some 4) "float32" parse_float32
    ∷ row 3 36 "StringCurrent" "A" (some 4) "float32" parse_float32
    ∷ row 3 37 "BatteryGroupStatus" "" (some 1) "uint8" parse_uint8
    ∷ row 3 38 "BalanceDegree" "%" (some 2) "uint16" parse_uint16
    ∷ row 3 39 "CellVoltage" "mV" (some 4) "float32" parse_float32
    ∷ row 3 40 "CellInternalResistance" "mΩ" (some 4) "float32" parse_float32
    ∷ row 3 41 "CellSOC" "%" (some 2) "uint16" parse_uint16
    ∷ row 3 42 "CellSOH" "%" (some 2) "uint16" parse_uint16
    ∷ row 3 43 "CellTemperature" "℃" (some 4) "float32" parse_float32
    ∷ []
