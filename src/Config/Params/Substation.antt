-- ===== src/Config/Params/Substation.antt =====
-- `paramMap` of internal/config/param_table_parser_data.go: the parameters of substations (D.3).
use device_wiresink_go.Prelude.{List, [], ◌∷◌, ◌++◌, none, some}
use device_wiresink_go.Config.Params.Row.{
  ParamRow, row, parse_float32, parse_float32_array, parse_uint16, parse_uint16_array, parse_uint8,
}

abbrev apparatus_params : List ParamRow
apparatus_params =
    row 2 1 "ArresterLeakageTotalCurrent" "mA" (some 4) "float32" parse_float32
    ∷ row 2 2 "ArresterLeakageResistiveCurrent" "mA" (some 4) "float32" parse_float32
    ∷ row 2 3 "LeakageCurrentSamplingPhase" "°" (some 4) "float32" parse_float32
    ∷ row 2 4 "ArresterOperationCount" "times" (some 2) "uint16" parse_uint16
    ∷ row 2 5 "ArresterResistiveLeakageCurrentPeak" "mA" (some 4) "float32" parse_float32
    ∷ row 2 6 "BusVoltageSamplingPhase" "°" (some 4) "float32" parse_float32
    ∷ row 2 27 "TransformerCoreClipGroundingCurrent" "A" (some 4) "float32" parse_float32
    ∷ row 2 28 "TransformerCoreClipGroundingCurrentSpectrum" "A" none "uint16[]" parse_uint16_array
    ∷ row 2 29 "DielectricLossFactor" "°" (some 4) "float32" parse_float32
    ∷ row 2 30 "Capacitance" "pF" (some 4) "float32" parse_float32
    ∷ row 2 31 "TotalCurrent" "mA" (some 4) "float32" parse_float32
    ∷ row 2 32 "InitialPhaseAngle" "°" (some 4) "float32" parse_float32
    ∷ row 2 33 "ReferenceCurrent" "mA" (some 4) "float32" parse_float32
    ∷ row 2 34 "ReferencePhaseAngle" "°" (some 4) "float32" parse_float32
    ∷ row 2 55 "ClosingDisplacement" "mm" (some 4) "float32" parse_float32
    ∷ row 2 56 "ClosingAngularDisplacement" "°" (some 4) "float32" parse_float32
    ∷ row 2 57 "ClosingSpeed" "m/s" (some 4) "float32" parse_float32
    ∷ row 2 58 "ClosingTime" "s" (some 4) "float32" parse_float32
    ∷ row 2 59 "ClosingCoilCurrentPeak" "A" (some 4) "float32" parse_float32
    ∷ row 2 60 "ClosingCoilCurrentOnTime" "ms" (some 4) "float32" parse_float32
    ∷ row 2 61 "OpeningDisplacement" "mm" (some 4) "float32" parse_float32
    ∷ row 2 62 "OpeningAngularDisplacement" "°" (some 4) "float32" parse_float32
    ∷ row 2 63 "OpeningSpeed" "m/s" (some 4) "float32" parse_float32
    ∷ row 2 64 "OpeningTime" "s" (some 4) "float32" parse_float32
    ∷ row 2 65 "OpeningCoilCurrentPeak" "A" (some 4) "float32" parse_float32
    ∷ row 2 66 "OpeningCoilCurrentOnTime" "ms" (some 4) "float32" parse_float32
    ∷ row 2 67 "EnergyStorageMotorOperatingCurrentMax" "A" (some 4) "float32" parse_float32
    ∷ row 2 68 "EnergyStorageMotorStartingCurrentMax" "A" (some 4) "float32" parse_float32
    ∷ row 2 69 "EnergyStorageMotorCurrentDuration" "ms" (some 4) "float32" parse_float32
    ∷ row 2 70 "MechanismOperationCount" "" (some 1) "uint8" parse_uint8
    ∷ row 2 71 "SwitchContactPosition" "" (some 1) "uint8" parse_uint8
    ∷ row 2 72 "DriveMechanismDisplacementTimeWaveform" "" none "float32[]" parse_float32_array
    ∷ row 2 73 "ClosingCoilCurrentTimeWaveform" "" none "float32[]" parse_float32_array
    ∷ row 2 74 "OpeningCoilCurrentTimeWaveform" "" none "float32[]" parse_float32_array
    ∷ row 2 75 "EnergyStorageMotorCurrentTimeWaveform" "" none "float32[]" parse_float32_array
    ∷ row 2 76 "SwitchContactPressure" "N" (some 4) "float32" parse_float32
    ∷ row 2 77 "LoadTapChangerPosition" "" (some 2) "uint16" parse_uint16
    ∷ []

-- From 98 on: partial discharge, gases in oil and in SF6, and the air of the station.
abbrev discharge_and_gas_params : List ParamRow
discharge_and_gas_params =
    row 2 98 "HighFrequencyMultiSpectrum" "" none "float32[]" parse_float32_array
    ∷ row 2 99 "HighFrequencyPRPDSpectrum" "" none "float32[]" parse_float32_array
    ∷ row 2 100 "HighFrequencyPRPSSpectrum" "" none "float32[]" parse_float32_array
    ∷ row 2 101 "HighFrequencyTFSpectrum" "" none "float32[]" parse_float32_array
    ∷ row 2 102 "UltraHighFrequencyMultiSpectrum" "" none "float32[]" parse_float32_array
    ∷ row 2 103 "UltraHighFrequencyPRPDSpectrum" "" none "float32[]" parse_float32_array
    ∷ row 2 104 "UltraHighFrequencyPRPSSpectrum" "" none "float32[]" parse_float32_array
    ∷ row 2 105 "UltrasonicMultiSpectrum" "" none "float32[]" parse_float32_array
    ∷ row 2 106 "UltrasonicFeatureSpectrum" "" none "float32[]" parse_float32_array
    ∷ row 2 107 "UltrasonicPhaseSpectrum" "" none "float32[]" parse_float32_array
    ∷ row 2 108 "UltrasonicPulseSpectrum" "" none "float32[]" parse_float32_array
    ∷ row 2 109 "UltrasonicWaveform" "" none "float32[]" parse_float32_array
    ∷ row 2 110 "TransientVoltageMultiSpectrum" "" none "float32[]" parse_float32_array
    ∷ row 2 111 "TransientVoltageAmplitude" "" none "float32[]" parse_float32_array
    ∷ row 2 112 "TransientVoltagePRPDSpectrum" "" none "float32[]" parse_float32_array
    ∷ row 2 113 "TransientVoltagePRPSSpectrum" "" none "float32[]" parse_float32_array
    ∷ row 2 114 "OscillationIncidentWave" "" none "float32[]" parse_float32_array
    ∷ row 2 115 "OscillationReflectedWave" "" none "float32[]" parse_float32_array
    ∷ row 2 136 "Methane" "μL/L" (some 4) "float32" parse_float32
    ∷ row 2 137 "Ethane" "μL/L" (some 4) "float32" parse_float32
    ∷ row 2 138 "Ethylene" "μL/L" (some 4) "float32" parse_float32
    ∷ row 2 139 "Acetylene" "μL/L" (some 4) "float32" parse_float32
    ∷ row 2 140 "CarbonMonoxide" "μL/L" (some 4) "float32" parse_float32
    ∷ row 2 141 "CarbonDioxide" "μL/L" (some 4) "float32" parse_float32
    ∷ row 2 142 "Hydrogen" "μL/L" (some 4) "float32" parse_float32
    ∷ row 2 143 "WaterContent" "μL/L" (some 4) "float32" parse_float32
    ∷ row 2 144 "Nitrogen" "μL/L" (some 4) "float32" parse_float32
    ∷ row 2 145 "Oxygen" "μL/L" (some 4) "float32" parse_float32
    ∷ row 2 146 "TotalHydrocarbon" "μL/L" (some 4) "float32" parse_float32
    ∷ row 2 147 "OilTemperature" "℃" (some 4) "float32" parse_float32
    ∷ row 2 148 "OilPressure" "Pa" (some 4) "float32" parse_float32
    ∷ row 2 149 "TotalCombustibleGas" "μL/L" (some 4) "float32" parse_float32
    ∷ row 2 150 "CarrierGasPressure" "MPa" (some 4) "float32" parse_float32
    ∷ row 2 171 "SF6DewPoint" "°C" (some 4) "float32" parse_float32
    ∷ row 2 172 "SF6Moisture" "μL/L" (some 4) "float32" parse_float32
    ∷ row 2 173 "SF6Purity" "%" (some 4) "float32" parse_float32
    ∷ row 2 174 "H2S" "μL/L" (some 4) "float32" parse_float32
    ∷ row 2 175 "SO2" "μL/L" (some 4) "float32" parse_float32
    ∷ row 2 176 "HF" "μL/L" (some 4) "float32" parse_float32
    ∷ row 2 177 "SOF2" "μL/L" (some 4) "float32" parse_float32
    ∷ row 2 178 "CF4" "μL/L" (some 4) "float32" parse_float32
    ∷ row 2 179 "SO2F2" "μL/L" (some 4) "float32" parse_float32
    ∷ row 2 180 "CO" "μL/L" (some 4) "float32" parse_float32
    ∷ row 2 181 "CO2" "μL/L" (some 4) "float32" parse_float32
    ∷ row 2 182 "SF6GaugePressure" "Pa" (some 4) "float32" parse_float32
    ∷ row 2 183 "SF6AbsolutePressure" "Pa" (some 4) "float32" parse_float32
    ∷ row 2 184 "SF6O2N2" "μL/L" (some 4) "float32" parse_float32
    ∷ row 2 185 "SF6ActualPressure" "Pa" (some 4) "float32" parse_float32
    ∷ row 2 186 "SF6Temperature" "°C" (some 4) "float32" parse_float32
    ∷ row 2 207 "Nitrogen" "μL/L" (some 4) "float32" parse_float32
    ∷ row 2 208 "Ammonia" "μL/L" (some 4) "float32" parse_float32
    ∷ row 2 209 "CombustibleGasConcentration" "μL/L" (some 4) "float32" parse_float32
    ∷ row 2 210 "ToxicGasConcentration" "μL/L" (some 4) "float32" parse_float32
    ∷ row 2 211 "SF6GasConcentration" "μL/L" (some 4) "float32" parse_float32
    ∷ row 2 212 "OtherGasConcentration" "μL/L" (some 4) "float32" parse_float32
    ∷ []

abbrev pub substation_params : List ParamRow
substation_params = apparatus_params ++ discharge_and_gas_params
