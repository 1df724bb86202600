-- ===== src/Config/Params/General.antt =====
-- `paramMap` of internal/config/param_table_parser_data.go: the general parameters (D.1) and those of
-- transmission lines (D.2).
use device_wiresink_go.Prelude.{List, [], ◌∷◌, none, some}
use device_wiresink_go.Config.Params.Row.{
  ParamRow, row, parse_float32, parse_float32_array, parse_int16, parse_topo, parse_uint16,
  parse_uint32, parse_uint8,
}

abbrev pub general_params : List ParamRow
general_params =
    row 0 1 "Length" "m" (some 4) "float32" parse_float32
    ∷ row 0 2 "Mass" "kg" (some 4) "float32" parse_float32
    ∷ row 0 3 "Time" "s" (some 4) "uint32" parse_uint32
    ∷ row 0 4 "ElectricCurrent" "A" (some 4) "float32" parse_float32
    ∷ row 0 5 "Temperature" "℃" (some 4) "float32" parse_float32
    ∷ row 0 6 "AmountOfSubstance" "mol" (some 4) "float32" parse_float32
    ∷ row 0 7 "LuminousIntensity" "cd" (some 4) "float32" parse_float32
    ∷ row 0 8 "topologyDiagram" "" none "" parse_topo
    ∷ row 0 28 "HeartbeatStatus" "" (some 1) "uint8" parse_uint8
    ∷ row 0 29 "BatteryRemaining" "%" (some 2) "uint16" parse_uint16
    ∷ row 0 30 "BatteryVoltage" "V" (some 4) "float32" parse_float32
    ∷ row 0 31 "SensorSelfTestStatus" "" (some 1) "uint8" parse_uint8
    ∷ row 0 32 "NetworkConnectionStatus" "" (some 1) "uint8" parse_uint8
    ∷ row 0 33 "PowerStatus" "" (some 1) "uint8" parse_uint8
    ∷ row 0 34 "DataCollectionInterval" "s" (some 2) "uint16" parse_uint16
    ∷ row 0 35 "SignalStrength" "" (some 4) "float32" parse_float32
    ∷ row 0 56 "PrimaryCurrent" "kA" (some 4) "float32" parse_float32
    ∷ row 0 57 "SecondaryCurrent" "mA" (some 4) "float32" parse_float32
    ∷ row 0 58 "PrimaryVoltage" "kV" (some 4) "float32" parse_float32
    ∷ row 0 59 "SecondaryVoltage" "mV" (some 4) "float32" parse_float32
    ∷ row 0 60 "Waveform" "" none "float32[]" parse_float32_array
    ∷ row 0 61 "PhaseAngle" "°" (some 4) "float32" parse_float32
    ∷ row 0 62 "Phase" "" (some 2) "uint16" parse_uint16
    ∷ row 0 63 "Frequency" "Hz" (some 4) "float32" parse_float32
    ∷ row 0 128 "ActivePower" "W" (some 4) "float32" parse_float32
    ∷ row 0 129 "ReactivePower" "W" (some 4) "float32" parse_float32
    ∷ row 0 130 "ElectricEnergy" "kWh" (some 4) "float32" parse_float32
    ∷ row 0 131 "PowerFactor" "" (some 4) "float32" parse_float32
    ∷ row 0 132 "VoltagePresenceIndicator" "" (some 2) "uint16" parse_uint16
    ∷ row 0 133 "ElectricCharge" "C" (some 4) "float32" parse_float32
    ∷ row 0 90 "Longitude" "" (some 4) "float32" parse_float32
    ∷ row 0 91 "Latitude" "" (some 4) "float32" parse_float32
    ∷ row 0 92 "Altitude" "" (some 4) "float32" parse_float32
    ∷ row 0 93 "Displacement" "" (some 4) "float32" parse_float32
    ∷ row 0 94 "DisplacementTrajectory" "mm" none "float32[]" parse_float32_array
    ∷ row 0 95 "Velocity" "m/s" (some 4) "float32" parse_float32
    ∷ row 0 96 "Acceleration" "m/s²" (some 4) "float32" parse_float32
    ∷ row 0 97 "Angle" "rad" (some 4) "float32" parse_float32
    ∷ row 0 98 "AngularVelocity" "rad/s" (some 4) "float32" parse_float32
    ∷ row 0 99 "AngularAcceleration" "rad/s²" (some 4) "float32" parse_float32
    ∷ row 0 100 "Strain" "%" (some 4) "float32" parse_float32
    ∷ row 0 101 "StressOrPressure" "Pa" (some 4) "float32" parse_float32
    ∷ row 0 102 "VibrationSpectrum" "m/s²" none "float32[]" parse_float32_array
    ∷ row 0 103 "Force" "N" (some 4) "float32" parse_float32
    ∷ []

abbrev pub transmission_params : List ParamRow
transmission_params =
    row 1 1 "10minAvgWindSpeed" "m/s" (some 4) "float32" parse_float32
    ∷ row 1 2 "10minAvgWindDirection" "°" (some 2) "int16" parse_int16
    ∷ row 1 3 "MaxWindSpeed" "m/s" (some 4) "float32" parse_float32
    ∷ row 1 36 "ExtremeWindSpeed" "m/s" (some 4) "float32" parse_float32
    ∷ row 1 21 "StandardWindSpeed" "m/s" (some 4) "float32" parse_float32
    ∷ row 1 6 "Temperature1" "°C" (some 4) "float32" parse_float32
    ∷ row 1 7 "Humidity1" "%RH" (some 2) "uint16" parse_uint16
    ∷ row 1 8 "Pressure" "hPa" (some 4) "float32" parse_float32
    ∷ row 1 9 "Rainfall10min" "mm" (some 4) "float32" parse_float32
    ∷ row 1 10 "RainIntensity" "mm/min" (some 4) "float32" parse_float32
    ∷ row 1 11 "SolarRadiation" "W/m2" (some 2) "uint16" parse_uint16
    ∷ row 1 12 "InstantWindSpeed" "m/s" (some 4) "float32" parse_float32
    ∷ row 1 13 "InstantWindDirection" "°" (some 2) "int16" parse_int16
    ∷ row 1 14 "WindDirectionDeviation" "°" (some 2) "int16" parse_int16
    ∷ []
